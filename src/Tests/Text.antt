-- ===== src/Tests/Text.antt =====
-- Runs of src/fmt.
use re_cpm.Base.{
  ℕ, ◌+◌, ◌-◌, ◌<◌, ◌≤◌, ◌≡◌, refl, arith, if◌then◌else◌, some, List, [], ◌∷◌, get_or,
}
use re_cpm.Base64.{codes}
use re_cpm.Fmt.Chars.{between, text}
use re_cpm.Fmt.Pl.{Pl, pl_u32, pl_u64, pl_x32, pl_x64, pl_i32, pl_i64}
use re_cpm.Fmt.Pl.Numerals.{decimal, hexadecimal, numeral, converted, pl_numbers-eq}
use re_cpm.Fmt.Pl.Signed.{signed_numeral, signed_converted, pl_signed-eq}
use re_cpm.Fmt.Itoa.{str_itoa, pl_u32-str_itoa}
use re_cpm.Fmt.Regex.{Chr}
use re_cpm.Fmt.Regex.Digits.{first_digits}
use re_cpm.Fmt.Trim.{pl_ltrim, pl_rtrim, pl_trim, pl_trim-same}

-- A text at address 100.
abbrev holding : List ℕ → ℕ → ℕ
holding chs a = get_or chs (a - 100) 0

abbrev at_100 : ℕ → Pl
at_100 l = record { p = 100; l = l }

pl_numbers-eq_example :
    let m = holding (codes "47bF") in
    (pl_u32 m (at_100 4) ≡ converted 32 (numeral 10 decimal (text m 100 4) 0))
    × (pl_u64 m (at_100 4) ≡ converted 64 (numeral 10 decimal (text m 100 4) 0))
    × (pl_x32 m (at_100 4) ≡ converted 32 (numeral 16 hexadecimal (text m 100 4) 0))
    × (pl_x64 m (at_100 4) ≡ converted 64 (numeral 16 hexadecimal (text m 100 4) 0))
pl_numbers-eq_example =
    pl_numbers-eq (holding (codes "47bF")) (at_100 4) (λ e. omega (arith, e))
      (unfold text in omega arith)

pl_signed-eq_example :
    let m = holding (codes "-45") in
    (pl_i32 m (at_100 3) ≡ signed_converted 32 (signed_numeral (text m 100 3)))
    × (pl_i64 m (at_100 3) ≡ signed_converted 64 (signed_numeral (text m 100 3)))
pl_signed-eq_example = pl_signed-eq (holding (codes "-45")) (at_100 3) (λ e. omega (arith, e))

abbrev blank_memory : ℕ → ℕ
blank_memory a = 0

pl_u32-str_itoa_example :
    let (q, m') = str_itoa blank_memory 305 1000 10 in
    let (r, m'') = str_itoa blank_memory 305 1000 16 in
    let dec : Pl = record { p = q; l = 1033 - q } in
    let hex : Pl = record { p = r; l = 1033 - r } in
    (1000 ≤ q)
    × (1000 ≤ r)
    × (q < 1033)
    × (r < 1033)
    × (m' 1033 ≡ 0)
    × (m'' 1033 ≡ 0)
    × (pl_u32 m' dec ≡ 305)
    × (pl_u64 m' dec ≡ 305)
    × (pl_x32 m'' hex ≡ 305)
    × (pl_x64 m'' hex ≡ 305)
pl_u32-str_itoa_example = pl_u32-str_itoa blank_memory 305 1000 (omega arith) (omega arith)

-- `tolower` of ASCII.
abbrev ascii_lower : ℕ → ℕ
ascii_lower c = if between b'A' b'Z' c then c + 32 else c

abbrev no_class : ℕ → Chr
no_class i = record { min = 0; max = 0 }

-- "foo 42 bar": at address 104 there are two digits.
first_number : first_digits (holding (codes "foo 42 bar")) 10 100 ≡ some (record { p = 104; l = 2 })
first_number = refl

-- Blanks at both ends stay.
pl_trim-same_example :
    let m = holding (32 ∷ b'a' ∷ 32 ∷ []) in
    (pl_ltrim m ascii_lower no_class (at_100 3) ≡ (0, at_100 3))
    × (pl_rtrim m ascii_lower no_class (at_100 3) ≡ (0, at_100 3))
    × (pl_trim m ascii_lower no_class (at_100 3) ≡ (0, at_100 3))
pl_trim-same_example =
    pl_trim-same (holding (32 ∷ b'a' ∷ 32 ∷ [])) ascii_lower no_class 100 2 (λ e. omega (arith, e))
