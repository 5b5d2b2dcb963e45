-- ===== src/Fmt/Chars.antt =====
-- Characters: src/fmt/ch.c, and what <ctype.h> gives in the C locale. A character is its byte; those
-- from 128 on are negative as a `char`, and no letter or digit.
use re_cpm.Base.{
  ℕ, zero, suc, ◌+◌, ◌-◌, ◌≡◌, ◌≢◌, refl, ap, ◌∙◌, arith, leb, ◌==◌, if◌then◌else◌, Bool, ◌&&◌,
  List, [], ◌∷◌, ◌++◌, length,
}

-- `a <= ch && ch <= b`
abbrev pub between : ℕ → ℕ → ℕ → Bool
between a b ch = leb a ch && leb ch b

unfoldable pub ch_hex : ℕ → ℕ
ch_hex ch =
    if between b'0' b'9' ch
    then ch - b'0'
    else if between b'A' b'F' ch
    then ch - b'A' + 10
    else if between b'a' b'f' ch
    then ch - b'a' + 10
    else 0

-- The bytes at an address.
unfoldable pub text : (ℕ → ℕ) → ℕ → ℕ → List ℕ
text m p zero = []
text m p (suc n) = m p ∷ text m (p + 1) n

pub length-text : (m : ℕ → ℕ) (p n : ℕ) → length (text m p n) ≡ n
unfolding text
length-text m p zero = refl
length-text m p (suc n) = ap suc (length-text m (p + 1) n)

pub text_last : (m : ℕ → ℕ) (p n : ℕ) → text m p (suc n) ≡ text m p n ++ (m (p + n) ∷ [])
unfolding text
text_last m p zero = ap (λ a. m a ∷ []) (omega arith)
text_last m p (suc n) =
    ap (λ t. m p ∷ t)
      (text_last m (p + 1) n ∙ ap (λ a. text m (p + 1) n ++ (m a ∷ [])) (omega arith))

-- A byte written at an address.
unfoldable pub store : (ℕ → ℕ) → ℕ → ℕ → ℕ → ℕ
store m a c b = if b == a then c else m b

pub store_here : (m : ℕ → ℕ) (a c b : ℕ) → b ≡ a → store m a c b ≡ c
unfolding store
store_here m a c b h = ground arith

pub store_else : (m : ℕ → ℕ) (a c b : ℕ) → b ≢ a → store m a c b ≡ m b
unfolding store
store_else m a c b h = ground arith
