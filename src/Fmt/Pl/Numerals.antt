-- ===== src/Fmt/Pl/Numerals.antt =====
-- The conversions of src/fmt/pl.c read numerals.
use re_cpm.Base.{
  ℕ, zero, suc, ◌+◌, ◌-◌, ◌*◌, ◌/◌, ◌%◌, ◌^◌, ◌<◌, ◌≡◌, ◌≢◌, refl, sym, ap, ◌∙◌, arith, ◌==◌,
  if◌then◌else◌, Bool, true, false, all_below, all_below→eq, Option, none, some, List, [], ◌∷◌,
  ◌++◌,
}
use re_cpm.Base.Bits.{two-pow-pos}
use re_cpm.Base64.{codes}
use re_cpm.Fmt.Chars.{between, text, text_last}
use re_cpm.Fmt.Pl.{Pl, dec_digit, hex_digit, number_loop, pl_u32, pl_x32, pl_u64, pl_x64}
use native.Mathlib.Nat.{div-add-mod', mul-add-mod_self_right, add-mod-mod, mod-eq_of_lt, mod-lt}

-- The value of a decimal digit.
abbrev pub decimal : ℕ → Option ℕ
decimal ch = if between b'0' b'9' ch then some (ch - b'0') else none

-- The place of a character in a row of characters, counted from `i` on.
abbrev pub position : ℕ → ℕ → List ℕ → Option ℕ
position ch i [] = none
position ch i (x ∷ xs) = let rest = position ch (i + 1) xs in if ch == x then some i else rest

abbrev pub hexadecimal : ℕ → Option ℕ
hexadecimal ch = elim (position ch 0 (codes "0123456789ABCDEF")) [
  | none ↦ position ch 0 (codes "0123456789abcdef")
  | some d ↦ some d
]

abbrev pub AreBytes : List ℕ → Type 0
AreBytes [] = ◌≡◌ {A = ℕ} 0 0
AreBytes (ch ∷ chs) = (ch < 256) × AreBytes chs

-- A numeral, read from the left, behind what has the value `acc`.
abbrev pub numeral : ℕ → (ℕ → Option ℕ) → List ℕ → ℕ → Option ℕ
numeral base digit [] acc = some acc
numeral base digit (ch ∷ chs) acc = elim (digit ch) [
  | none ↦ none
  | some d ↦ numeral base digit chs (acc * base + d)
]

-- The next digit behind a value.
abbrev pub next : ℕ → Option ℕ → Option ℕ → Option ℕ
next base none d = none
next base (some a) none = none
next base (some a) (some d) = some (a * base + d)

pub numeral-snoc :
    (base : ℕ) (digit : ℕ → Option ℕ) (chs : List ℕ) (ch acc : ℕ)
    → numeral base digit (chs ++ (ch ∷ [])) acc ≡ next base (numeral base digit chs acc) (digit ch)
numeral-snoc base digit [] ch acc =
    elim (digit ch)
      as (λ o. elim o [ none ↦ none | some d ↦ some (acc * base + d) ] ≡ next base (some acc) o) [
        | none ↦ refl
        | some d ↦ refl
      ]
numeral-snoc base digit (x ∷ xs) ch acc =
    elim (digit x)
      as (λ o.
        elim o [ none ↦ none | some d ↦ numeral base digit (xs ++ (ch ∷ [])) (acc * base + d) ]
        ≡ next base (elim o [ none ↦ none | some d ↦ numeral base digit xs (acc * base + d) ])
            (digit ch)) [ none ↦ refl | some d ↦ numeral-snoc base digit xs ch (acc * base + d) ]

-- One digit, seen from the sum modulo `m` of what is to its right.
digit_lem :
    (m v mul base d a : ℕ)
    → ((v + mul * d % m) % m + mul * base % m * a) % m ≡ (v + mul * (a * base + d)) % m
digit_lem m v mul base d a =
    let r1 = (v + mul * d) % m in
    let q1 = (v + mul * d) / m in
    let r2 = mul * base % m in
    let q2 = mul * base / m in
    let first : (v + mul * d % m) % m ≡ r1 = add-mod-mod v (mul * d) m in
    let e1 : q1 * m + r1 ≡ v + mul * d = div-add-mod' (v + mul * d) m in
    let e2 : (q2 * m + r2) * a ≡ mul * base * a =
      ap (λ (t : ℕ). t * a) (div-add-mod' (mul * base) m) in
    let whole : v + mul * (a * base + d) ≡ (q1 + q2 * a) * m + (r1 + r2 * a) =
      omega (arith, e1, e2) in
    ap (λ (t : ℕ). (t + r2 * a) % m) first
    ∙ sym (mul-add-mod_self_right (q1 + q2 * a) m (r1 + r2 * a))
    ∙ ap (λ (t : ℕ). t % m) (sym whole)

-- The number that a conversion without a sign makes of a value: 0 if there is none.
abbrev pub wrapped_value : ℕ → ℕ → ℕ → Option ℕ → ℕ
wrapped_value w v mul none = 0
wrapped_value w v mul (some a) = (v + mul * a) % 2 ^ w

no_digit : (w v mul base : ℕ) (o : Option ℕ) → 0 ≡ wrapped_value w v mul (next base o none)
no_digit w v mul base none = refl
no_digit w v mul base (some a) = refl

one_digit :
    (w v mul base d : ℕ) (o : Option ℕ)
    → wrapped_value w ((v + mul * d % 2 ^ w) % 2 ^ w) (mul * base % 2 ^ w) o
      ≡ wrapped_value w v mul (next base o (some d))
one_digit w v mul base d none = refl
one_digit w v mul base d (some a) = digit_lem (2 ^ w) v mul base d a

number_loop-eq :
    (w base : ℕ) (digit : ℕ → Option ℕ) (m : ℕ → ℕ) (p n v mul : ℕ)
    → v < 2 ^ w
    → number_loop w base digit m p n v mul
      ≡ wrapped_value w v mul (numeral base digit (text m p n) 0)
unfolding number_loop
number_loop-eq w base digit m p zero v mul h =
    unfold text in (sym (mod-eq_of_lt h) ∙ ap (λ (t : ℕ). t % 2 ^ w) (omega arith))
number_loop-eq w base digit m p (suc n) v mul h =
    let left = numeral base digit (text m p n) 0 in
    elim (digit (m (p + n)))
      as (λ o.
        elim o [
          | none ↦ 0
          | some c ↦
              number_loop w base digit m p n ((v + mul * c % 2 ^ w) % 2 ^ w) (mul * base % 2 ^ w)
        ]
        ≡ wrapped_value w v mul (next base left o)) [
          | none ↦ no_digit w v mul base left
          | some d ↦
              number_loop-eq w base digit m p n ((v + mul * d % 2 ^ w) % 2 ^ w) (mul * base % 2 ^ w)
                (mod-lt (v + mul * d % 2 ^ w) (two-pow-pos w))
              ∙ one_digit w v mul base d left
        ]
    ∙ ap (wrapped_value w v mul) (
        sym (numeral-snoc base digit (text m p n) (m (p + n)) 0)
        ∙ ap (λ t. numeral base digit t 0) (sym (text_last m p n)))

-- On bytes the two tests for a decimal digit agree.
dec_digit-eq : (ch : ℕ) → ch < 256 → dec_digit ch ≡ decimal ch
unfolding dec_digit
dec_digit-eq ch h = ground arith

-- The two ways to read a hexadecimal digit agree on every byte: each is looked at.
same_digit : Option ℕ → Option ℕ → Bool
same_digit none none = true
same_digit (some a) (some b) = a == b
same_digit _ _ = false

same_digit→eq : (o o' : Option ℕ) → same_digit o o' ≡ true → o ≡ o'
unfolding same_digit
same_digit→eq none none e = refl
same_digit→eq none (some b) e = cc
same_digit→eq (some a) none e = cc
same_digit→eq (some a) (some b) e = ground arith

hex_digit-bytes : all_below 256 (λ ch. same_digit (hex_digit ch) (hexadecimal ch)) ≡ true
unfolding all_below same_digit hex_digit
hex_digit-bytes = refl

hex_digit-eq : (ch : ℕ) → ch < 256 → hex_digit ch ≡ hexadecimal ch
hex_digit-eq ch h =
    same_digit→eq _ _
      (all_below→eq 256 (λ x. same_digit (hex_digit x) (hexadecimal x)) ch hex_digit-bytes h)

same_cases :
    (o : Option ℕ) (f g : ℕ → Option ℕ)
    → ((d : ℕ) → f d ≡ g d)
    → elim o [ none ↦ none | some d ↦ f d ] ≡ elim o [ none ↦ none | some d ↦ g d ]
same_cases none f g same = refl
same_cases (some d) f g same = same d

numeral_same :
    (base : ℕ) (f g : ℕ → Option ℕ) (chs : List ℕ) (acc : ℕ)
    → ((ch : ℕ) → ch < 256 → f ch ≡ g ch)
    → AreBytes chs
    → numeral base f chs acc ≡ numeral base g chs acc
numeral_same base f g [] acc same h = refl
numeral_same base f g (x ∷ xs) acc same (h, hs) =
    ap (λ o. elim o [ none ↦ none | some d ↦ numeral base f xs (acc * base + d) ]) (same x h)
    ∙ same_cases (g x) (λ d. numeral base f xs (acc * base + d))
        (λ d. numeral base g xs (acc * base + d))
        (λ d. numeral_same base f g xs (acc * base + d) same hs)

-- What a conversion makes of a text: its value modulo the width, and 0 if it is no numeral.
abbrev pub converted : ℕ → Option ℕ → ℕ
converted w none = 0
converted w (some a) = a % 2 ^ w

from_zero : (w : ℕ) (o : Option ℕ) → wrapped_value w 0 1 o ≡ converted w o
from_zero w none = refl
from_zero w (some a) = ap (λ (t : ℕ). t % 2 ^ w) (omega arith)

module _ (m : ℕ → ℕ) (pl : Pl) (set : pl.p ≢ 0) where
  is_set : (pl.p == 0) ≡ false
  is_set = ground arith

  read :
      (w base : ℕ) (digit : ℕ → Option ℕ)
      → number_loop w base digit m pl.p pl.l 0 1
        ≡ converted w (numeral base digit (text m pl.p pl.l) 0)
  read w base digit =
      number_loop-eq w base digit m pl.p pl.l 0 1 (two-pow-pos w)
      ∙ from_zero w (numeral base digit (text m pl.p pl.l) 0)

  pub pl_hex-eq :
      let hex = numeral 16 hex_digit (text m pl.p pl.l) 0 in
      (pl_x32 m pl ≡ converted 32 hex) × (pl_x64 m pl ≡ converted 64 hex)
  unfolding pl_x32 pl_x64
  pl_hex-eq = (rw is_set (read 32 16 hex_digit), rw is_set (read 64 16 hex_digit))

  -- Decimal and hexadecimal text in memory is read as the value of the numeral that it is, upper and
  -- lower case alike, modulo
  -- the width, and as 0 if it is none.
  pub pl_numbers-eq :
      AreBytes (text m pl.p pl.l)
      → let dec = numeral 10 decimal (text m pl.p pl.l) 0 in
        let hex = numeral 16 hexadecimal (text m pl.p pl.l) 0 in
        (pl_u32 m pl ≡ converted 32 dec)
        × (pl_u64 m pl ≡ converted 64 dec)
        × (pl_x32 m pl ≡ converted 32 hex)
        × (pl_x64 m pl ≡ converted 64 hex)
  unfolding pl_u32 pl_u64
  pl_numbers-eq h =
      let dec =
        numeral_same 10 dec_digit decimal (text m pl.p pl.l) 0 (λ ch k. dec_digit-eq ch k) h in
      let hex =
        numeral_same 16 hex_digit hexadecimal (text m pl.p pl.l) 0 (λ ch k. hex_digit-eq ch k) h in
      (
        rw is_set (read 32 10 dec_digit ∙ ap (converted 32) dec),
        rw is_set (read 64 10 dec_digit ∙ ap (converted 64) dec),
        pl_hex-eq.0 ∙ ap (converted 32) hex,
        pl_hex-eq.1 ∙ ap (converted 64) hex,
      )
