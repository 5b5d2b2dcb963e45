-- ===== src/Hash/Strings.antt =====
-- The hashes of src/hash/func.c agree on the two forms of a string.
use re_cpm.Base.{
  ℕ, ◌<◌, ◌≡◌, refl, ap, ◌∙◌, arith, false, lt→ltb, ◌==◌, All, List, [], ◌∷◌, ◌++◌, some,
}
use re_cpm.Hash.{
  of_char, mix, joaat_loop, joaat_str_loop, hash_joaat_str, hash_joaat_str_ci, hash_joaat_pl,
  hash_joaat_pl_ci, hash_joaat, hash_joaat_ci,
}

-- A character of a string, and one of ASCII.
abbrev pub IsChar : ℕ → Type 0
IsChar c = 0 < c

abbrev pub IsAscii : ℕ → Type 0
IsAscii c = (0 < c) × (c < 128)

not_end : (c : ℕ) → 0 < c → (c == 0) ≡ false
not_end c h = ground arith

str_loop-eq :
    (value : ℕ → ℕ) (hash : ℕ) (cs tail : List ℕ)
    → All IsChar cs
    → joaat_str_loop value hash (cs ++ (0 ∷ tail)) ≡ some (joaat_loop value hash cs)
unfolding joaat_str_loop joaat_loop
str_loop-eq value hash [] tail p = refl
str_loop-eq value hash (c ∷ cs) tail p =
    rw (not_end c p.0) (str_loop-eq value (mix hash (value c)) cs tail p.1)

of_char-ascii : (c : ℕ) → c < 128 → of_char c ≡ c
unfolding of_char
of_char-ascii c h = rw (lt→ltb c 128 h) refl

loop-ascii :
    (hash : ℕ) (cs : List ℕ)
    → All IsAscii cs
    → joaat_loop of_char hash cs ≡ joaat_loop (λ c. c) hash cs
unfolding joaat_loop
loop-ascii hash [] p = refl
loop-ascii hash (c ∷ cs) p =
    ap (λ x. joaat_loop of_char (mix hash x) cs) (of_char-ascii c p.0.1)
    ∙ loop-ascii (mix hash c) cs p.1

ascii-chars : (cs : List ℕ) → All IsAscii cs → All IsChar cs
ascii-chars [] p = tt
ascii-chars (c ∷ cs) p = (p.0.0, ascii-chars cs p.1)

-- An ASCII string without a zero has one hash in both forms: `hash_joaat_str`, up to the zero that
-- ends it, gives what `hash_joaat_pl` gives.
pub hash_joaat_str-pl :
    (cs tail : List ℕ)
    → All IsAscii cs
    → hash_joaat_str (cs ++ (0 ∷ tail)) ≡ some (hash_joaat_pl (some cs))
unfolding hash_joaat_str hash_joaat_pl hash_joaat
hash_joaat_str-pl cs tail p =
    str_loop-eq of_char 0 cs tail (ascii-chars cs p) ∙ ap some (loop-ascii 0 cs p)

-- A string without a zero, of any bytes, has one hash in both forms without regard to case:
-- `hash_joaat_str_ci`, up to the zero that ends it, gives what `hash_joaat_pl_ci` gives, whatever
-- `tolower` does.
pub hash_joaat_str_ci-pl :
    (tolower : ℕ → ℕ) (cs tail : List ℕ)
    → All IsChar cs
    → hash_joaat_str_ci tolower (cs ++ (0 ∷ tail)) ≡ some (hash_joaat_pl_ci tolower (some cs))
unfolding hash_joaat_str_ci hash_joaat_pl_ci hash_joaat_ci
hash_joaat_str_ci-pl tolower cs tail p = str_loop-eq (λ c. tolower (of_char c)) 0 cs tail p
