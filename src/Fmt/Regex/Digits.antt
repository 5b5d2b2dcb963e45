-- ===== src/Fmt/Regex/Digits.antt =====
-- The example that src/fmt/regex.c gives for re_regex: "[0-9]+" finds the first number of a text.
use re_cpm.Base.{
  ℕ, zero, suc, ◌+◌, ◌<◌, ◌≡◌, ◌==◌, if◌then◌else◌, Bool, true, false, Option, none, some, List, [],
  ◌∷◌, ◌++◌,
}
use re_cpm.Base.Errno.{enoent}
use re_cpm.Hash.{of_char}
use re_cpm.Fmt.Chars.{between}
use re_cpm.Fmt.Pl.{Pl}
use re_cpm.Fmt.Regex.{Regex, low_8}

-- "[0-9]+"
abbrev pub digits_expr : List ℕ
digits_expr = b'[' ∷ b'0' ∷ b'-' ∷ b'9' ∷ b']' ∷ b'+' ∷ []

-- What the C standard says of `tolower` in the C locale, on characters.
abbrev pub Lowers : (ℕ → ℕ) → Type 0
Lowers tolower =
    (c : ℕ) → c < 256 → tolower (of_char c) ≡ of_char (if between b'A' b'Z' c then c + 32 else c)

abbrev pub is_digit : ℕ → Bool
is_digit c = between b'0' b'9' c

-- How many digits there are from an address on, at most `l`.
abbrev pub run : (ℕ → ℕ) → ℕ → ℕ → ℕ
run m zero p = 0
run m (suc l) p = if is_digit (m p) then 1 + run m l (p + 1) else 0

-- The first digits within `l` characters: where they are and how many.
abbrev pub first_digits : (ℕ → ℕ) → ℕ → ℕ → Option Pl
first_digits m zero p = none
first_digits m (suc l) p =
    if is_digit (m p)
    then some (record { p = p; l = 1 + run m l (p + 1) })
    else first_digits m l (p + 1)

module _ (m tolower : ℕ → ℕ) (lowers : Lowers tolower) (bytes : (a : ℕ) → m a < 256) where
  -- The state at the end of the class.
  abbrev opened : Regex → ℕ → ℕ → Regex
  opened st ptr l = record st {
    p = ptr;
    l = l;
    eesc = false;
    fm = true;
    range = false;
    ec = true;
    neg = false;
    qesc = false;
    n = 1;
    arg = 0;
    chrv = λ i.
        if i == 0
        then record { min = low_8 tolower b'0'; max = low_8 tolower b'9' }
        else if i == 0
        then record { min = low_8 tolower b'0'; max = low_8 tolower b'0' }
        else st.chrv i;
  }

  abbrev pub answer : List (ℕ × Pl) → Option Pl → ℕ × List (ℕ × Pl)
  answer log none = (enoent, log)
  answer log (some pl) = (0, log ++ ((0, pl) ∷ []))
