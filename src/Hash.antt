-- ===== src/Hash.antt =====
-- src/hash/func.c: Jenkins' one-at-a-time hash, over bytes, pointer-length strings and strings that
-- end with a zero. `char` is signed. `tolower` is the C library's: an argument, on the 32 bits of
-- its `int`.
pub mod Strings
pub mod Table
use re_cpm.Base.{
  ℕ, ◌+◌, ◌-◌, ◌*◌, ◌/◌, ◌%◌, ◌^◌, ltb, ◌==◌, if◌then◌else◌, List, [], ◌∷◌, Option, none, some,
  bit_xor,
}

-- A byte as a `char`, added to a `uint32_t`.
unfoldable pub of_char : ℕ → ℕ
of_char c = if ltb c 128 then c else c + (2 ^ 32 - 256)

-- One round of the loops.
unfoldable pub mix : ℕ → ℕ → ℕ
mix hash c =
    let h1 = (hash + c) % 2 ^ 32 in
    let h2 = (h1 + h1 * 2 ^ 10 % 2 ^ 32) % 2 ^ 32 in bit_xor h2 (h2 / 2 ^ 6)

-- What follows the loops.
unfoldable pub finish : ℕ → ℕ
finish hash =
    let h1 = (hash + hash * 2 ^ 3 % 2 ^ 32) % 2 ^ 32 in
    let h2 = bit_xor h1 (h1 / 2 ^ 11) in (h2 + h2 * 2 ^ 15 % 2 ^ 32) % 2 ^ 32

unfoldable pub joaat_loop : (ℕ → ℕ) → ℕ → List ℕ → ℕ
joaat_loop value hash [] = finish hash
joaat_loop value hash (c ∷ cs) = joaat_loop value (mix hash (value c)) cs

-- The loops up to a zero; `none` reads behind the memory that is given.
unfoldable pub joaat_str_loop : (ℕ → ℕ) → ℕ → List ℕ → Option ℕ
joaat_str_loop value hash [] = none
joaat_str_loop value hash (c ∷ cs) =
    let more = joaat_str_loop value (mix hash (value c)) cs in
    if c == 0 then some (finish hash) else more

unfoldable pub hash_joaat : List ℕ → ℕ
hash_joaat key = joaat_loop (λ c. c) 0 key

unfoldable pub hash_joaat_ci : (ℕ → ℕ) → List ℕ → ℕ
hash_joaat_ci tolower str = joaat_loop (λ c. tolower (of_char c)) 0 str

unfoldable pub hash_joaat_str : List ℕ → Option ℕ
hash_joaat_str str = joaat_str_loop of_char 0 str

unfoldable pub hash_joaat_str_ci : (ℕ → ℕ) → List ℕ → Option ℕ
hash_joaat_str_ci tolower str = joaat_str_loop (λ c. tolower (of_char c)) 0 str

-- Of a pointer-length string, which may be missing.
unfoldable pub hash_joaat_pl : Option (List ℕ) → ℕ
hash_joaat_pl none = 0
hash_joaat_pl (some pl) = hash_joaat pl

unfoldable pub hash_joaat_pl_ci : (ℕ → ℕ) → Option (List ℕ) → ℕ
hash_joaat_pl_ci tolower none = 0
hash_joaat_pl_ci tolower (some pl) = hash_joaat_ci tolower pl
