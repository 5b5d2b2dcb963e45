-- ===== src/Fmt/Pl/Signed.antt =====
-- pl_i32 and pl_i64 of src/fmt/pl.c read signed numerals.
use re_cpm.Base.{
  ℕ, zero, suc, ◌+◌, ◌-◌, ◌*◌, ◌/◌, ◌%◌, ◌^◌, ◌≤◌, ◌<◌, ◌≡◌, ◌≢◌, refl, sym, ap, ◌∙◌, arith, ltb,
  ltb→lt, ltb-false, ◌==◌, if◌then◌else◌, Bool, true, false, ◌&&◌, Bool-cases, inl, inr, Option,
  none, some, List, [], ◌∷◌, ◌++◌,
}
use re_cpm.Base.Bits.{two-pow-pos}
use re_cpm.Base.Int.{ℤ, pos}
use re_cpm.Fmt.Chars.{between, text, text_last}
use re_cpm.Fmt.Pl.{Pl, signed_loop, to_signed, with_sign, pl_i32, pl_i64}
use re_cpm.Fmt.Pl.Numerals.{decimal, numeral, numeral-snoc, next}
use native.Mathlib.Nat.{
  div-add-mod', mul-add-mod_self_right, mod-add-mod, add-mod, mod-eq_of_lt, mod-lt, add-mod_right,
  mod-eq-sub-mod, mod_self, pow-suc,
}

-- Whether a text begins with a minus, and what is behind its sign.
abbrev pub split_sign : List ℕ → Bool × List ℕ
split_sign [] = (false, [])
split_sign (ch ∷ chs) =
    if ch == b'-' then (true, chs) else if ch == b'+' then (false, chs) else (false, ch ∷ chs)

-- `v` less `mul` times a value, in two's complement.
abbrev less : ℕ → ℕ → ℕ → Bool → Option ℕ → Option (Bool × ℕ)
less w v mul neg none = none
less w v mul neg (some a) = some (neg, (v + (2 ^ w - mul * a % 2 ^ w)) % 2 ^ w)

abbrev signed_value : ℕ → ℕ → ℕ → Bool × List ℕ → Option (Bool × ℕ)
signed_value w v mul (neg, chs) = less w v mul neg (numeral 10 decimal chs 0)

split_sign-longer :
    (x : ℕ) (xs : List ℕ) (ch : ℕ)
    → split_sign ((x ∷ xs) ++ (ch ∷ []))
      ≡ ((split_sign (x ∷ xs)).0, (split_sign (x ∷ xs)).1 ++ (ch ∷ []))
split_sign-longer x xs ch = elim (Bool-cases (x == b'-')) [
  | inl minus ↦ rw minus refl
  | inr other ↦ elim (Bool-cases (x == b'+')) [
    | inl plus ↦ rw (other, plus) refl
    | inr digit ↦ rw (other, digit) refl
  ]
]

split_sign-digit :
    (chs : List ℕ) (ch : ℕ)
    → between b'0' b'9' ch ≡ true
    → split_sign (chs ++ (ch ∷ [])) ≡ ((split_sign chs).0, (split_sign chs).1 ++ (ch ∷ []))
split_sign-digit [] ch h =
    let no_minus : (ch == b'-') ≡ false = ground arith in
    let no_plus : (ch == b'+') ≡ false = ground arith in rw (no_minus, no_plus) refl
split_sign-digit (x ∷ xs) ch h = split_sign-longer x xs ch

sub_lem :
    (m v x y : ℕ) → x < m → y < m → ((v + (m - x)) % m + (m - y)) % m ≡ (v + (m - (x + y) % m)) % m
sub_lem m v x y hx hy = mod-add-mod (v + (m - x)) m (m - y) ∙ (elim (Bool-cases (ltb (x + y) m)) [
  | inl fits ↦
      let low : (x + y) % m ≡ x + y = mod-eq_of_lt (ltb→lt _ _ fits) in
      ap (λ (t : ℕ). t % m) (omega (arith, ltb→lt _ _ fits))
      ∙ add-mod_right (v + (m - (x + y))) m
      ∙ ap (λ (t : ℕ). (v + (m - t)) % m) (sym low)
  | inr over ↦
      let above : m ≤ x + y = ltb-false _ _ over in
      let low : (x + y) % m ≡ x + y - m = mod-eq-sub-mod above ∙ mod-eq_of_lt (omega arith) in
      ap (λ (t : ℕ). t % m) (omega (arith, above, low))
])

-- One digit, seen from the difference.
digit_lem :
    (m v mul d a : ℕ)
    → 0 < m
    → ((v + (m - mul * d % m)) % m + (m - mul * 10 % m * a % m)) % m
      ≡ (v + (m - mul * (a * 10 + d) % m)) % m
digit_lem m v mul d a h =
    let x = mul * d % m in
    let r = mul * 10 % m in
    let q = mul * 10 / m in
    let split : (q * m + r) * a ≡ mul * 10 * a =
      ap (λ (t : ℕ). t * a) (div-add-mod' (mul * 10) m) in
    let second : r * a % m ≡ mul * 10 * a % m =
      sym (mul-add-mod_self_right (q * a) m (r * a))
      ∙ ap (λ (t : ℕ). t % m) (omega (arith, split)) in
    let sum : (x + mul * 10 * a % m) % m ≡ mul * (a * 10 + d) % m =
      sym (add-mod (mul * d) (mul * 10 * a) m) ∙ ap (λ (t : ℕ). t % m) (omega arith) in
    ap (λ (t : ℕ). ((v + (m - x)) % m + (m - t)) % m) second
    ∙ sub_lem m v x (mul * 10 * a % m) (mod-lt (mul * d) h) (mod-lt (mul * 10 * a) h)
    ∙ ap (λ (t : ℕ). (v + (m - t)) % m) sum

less-next :
    (w v mul d : ℕ) (neg : Bool) (o : Option ℕ)
    → less w ((v + (2 ^ w - mul * d % 2 ^ w)) % 2 ^ w) (mul * 10 % 2 ^ w) neg o
      ≡ less w v mul neg (next 10 o (some d))
less-next w v mul d neg none = refl
less-next w v mul d neg (some a) =
    ap (λ (t : ℕ). some (neg, t)) (digit_lem (2 ^ w) v mul d a (two-pow-pos w))

less-none : (w v mul : ℕ) (neg : Bool) (o : Option ℕ) → less w v mul neg (next 10 o none) ≡ none
less-none w v mul neg none = refl
less-none w v mul neg (some a) = refl

less-nothing : (w v mul : ℕ) (neg : Bool) → v < 2 ^ w → some (neg, v) ≡ less w v mul neg (some 0)
less-nothing w v mul neg h =
    let zero_part : mul * 0 % 2 ^ w ≡ 0 =
      ap (λ (t : ℕ). t % 2 ^ w) (omega arith) ∙ mod-eq_of_lt (two-pow-pos w) in
    ap (λ (t : ℕ). some (neg, t))
      (sym (mod-eq_of_lt h)
        ∙ sym (add-mod_right v (2 ^ w))
        ∙ ap (λ (t : ℕ). t % 2 ^ w) (omega arith)
        ∙ ap (λ (t : ℕ). (v + (2 ^ w - t)) % 2 ^ w) (sym zero_part))

-- A last character that is no digit.
signed_value-bad :
    (w v mul : ℕ) (x : ℕ) (xs : List ℕ) (ch : ℕ)
    → between b'0' b'9' ch ≡ false
    → none ≡ signed_value w v mul (split_sign ((x ∷ xs) ++ (ch ∷ [])))
signed_value-bad w v mul x xs ch h =
    let no_digit : decimal ch ≡ none = rw h refl in
    let (neg, chs) = split_sign (x ∷ xs) in
    sym (
      ap (signed_value w v mul) (split_sign-longer x xs ch)
      ∙ ap (less w v mul neg)
          (numeral-snoc 10 decimal chs ch 0 ∙ ap (next 10 (numeral 10 decimal chs 0)) no_digit)
      ∙ less-none w v mul neg (numeral 10 decimal chs 0))

abbrev at_sign : ℕ → ℕ → ℕ → Option (Bool × ℕ)
at_sign ch n v =
    if (ch == b'-') && (n == 0)
    then some (true, v)
    else if (ch == b'+') && (n == 0)
    then some (false, v)
    else none

not_first : (w ch n v : ℕ) → at_sign ch (suc n) v ≡ none
not_first w ch n v =
    let later : (suc n == 0) ≡ false = ground arith in
    elim (Bool-cases (ch == b'-')) [
      | inl minus ↦ elim (Bool-cases (ch == b'+')) [
        | inl plus ↦ rw (later, minus, plus) refl
        | inr no_plus ↦ rw (later, minus, no_plus) refl
      ]
      | inr no_minus ↦ elim (Bool-cases (ch == b'+')) [
        | inl plus ↦ rw (later, no_minus, plus) refl
        | inr no_plus ↦ rw (later, no_minus, no_plus) refl
      ]
    ]

-- What the loop does at a character that is no digit.
last_sign :
    (w : ℕ) (m : ℕ → ℕ) (p n v mul : ℕ)
    → v < 2 ^ w
    → between b'0' b'9' (m (p + n)) ≡ false
    → at_sign (m (p + n)) n v ≡ signed_value w v mul (split_sign (text m p n ++ (m (p + n) ∷ [])))
unfolding text
last_sign w m p zero v mul h other = elim (Bool-cases (m (p + 0) == b'-')) [
  | inl minus ↦ rw minus (less-nothing w v mul true h)
  | inr no_minus ↦ elim (Bool-cases (m (p + 0) == b'+')) [
    | inl plus ↦ rw (no_minus, plus) (less-nothing w v mul false h)
    | inr no_plus ↦
        let no_digit : decimal (m (p + 0)) ≡ none = rw other refl in
        rw (no_minus, no_plus)
          (sym (
            ap (less w v mul false)
              (numeral-snoc 10 decimal [] (m (p + 0)) 0 ∙ ap (next 10 (some 0)) no_digit)))
  ]
]
last_sign w m p (suc n) v mul h other =
    let ch = m (p + suc n) in
    not_first w ch n v ∙ signed_value-bad w v mul (m p) (text m (p + 1) n) ch other

signed_loop-eq :
    (w : ℕ) (m : ℕ → ℕ) (p n v mul : ℕ)
    → v < 2 ^ w
    → signed_loop w m p n v mul ≡ signed_value w v mul (split_sign (text m p n))
unfolding signed_loop
signed_loop-eq w m p zero v mul h = unfold text in less-nothing w v mul false h
signed_loop-eq w m p (suc n) v mul h =
    let ch = m (p + n) in
    let chs = split_sign (text m p n) in
    (elim (Bool-cases (between b'0' b'9' ch)) [
      | inl digit ↦
          let is : decimal ch ≡ some (ch - b'0') = rw digit refl in
          rw digit (
            signed_loop-eq w m p n ((v + (2 ^ w - mul * (ch - b'0') % 2 ^ w)) % 2 ^ w)
              (mul * 10 % 2 ^ w) (mod-lt (v + (2 ^ w - mul * (ch - b'0') % 2 ^ w)) (two-pow-pos w))
            ∙ less-next w v mul (ch - b'0') chs.0 (numeral 10 decimal chs.1 0)
            ∙ ap (less w v mul chs.0) (
                ap (next 10 (numeral 10 decimal chs.1 0)) (sym is)
                ∙ sym (numeral-snoc 10 decimal chs.1 ch 0))
            ∙ ap (signed_value w v mul) (sym (split_sign-digit (text m p n) ch digit)))
      | inr other ↦ rw other (last_sign w m p n v mul h other)
    ])
    ∙ ap (λ t. signed_value w v mul (split_sign t)) (sym (text_last m p n))

-- A signed numeral: whether it has a minus, and its value.
abbrev pub signed_numeral : List ℕ → Option (Bool × ℕ)
signed_numeral chs = elim (numeral 10 decimal (split_sign chs).1 0) [
  | none ↦ none
  | some a ↦ some ((split_sign chs).0, a)
]

-- A signed value as a number of `w` bits in two's complement; 0 if there is none.
abbrev pub signed_converted : ℕ → Option (Bool × ℕ) → ℤ
signed_converted w none = pos 0
signed_converted w (some (true, a)) = to_signed w ((2 ^ w - a % 2 ^ w) % 2 ^ w)
signed_converted w (some (false, a)) = to_signed w (a % 2 ^ w)

twice_neg : (m r : ℕ) → r < m → (m - (m - r) % m) % m ≡ r
twice_neg m zero h =
    let whole : m - 0 ≡ m = omega arith in
    let none_left : (m - 0) % m ≡ 0 = ap (λ (t : ℕ). t % m) whole ∙ mod_self m in
    ap (λ (t : ℕ). (m - t) % m) none_left ∙ none_left
twice_neg m (suc r) h =
    let low : (m - suc r) % m ≡ m - suc r = mod-eq_of_lt (omega arith) in
    ap (λ (t : ℕ). (m - t) % m) low ∙ mod-eq_of_lt (omega arith) ∙ omega arith

half_lem : (w r : ℕ) → 0 < w → r < 2 ^ w → (2 ^ w - r) % 2 ^ w ≡ 2 ^ (w - 1) → r ≡ 2 ^ (w - 1)
half_lem zero r k h e = absurd (omega arith)
half_lem (suc w) zero k h e =
    let whole : 2 ^ suc w - 0 ≡ 2 ^ suc w = omega arith in
    let none_left : (2 ^ suc w - 0) % 2 ^ suc w ≡ 0 =
      ap (λ (t : ℕ). t % 2 ^ suc w) whole ∙ mod_self (2 ^ suc w) in
    let same : suc w - 1 ≡ w = omega arith in
    absurd (omega (arith, none_left, two-pow-pos w, e, ap (λ (t : ℕ). 2 ^ t) same))
half_lem (suc w) (suc r) k h e =
    let low : (2 ^ suc w - suc r) % 2 ^ suc w ≡ 2 ^ suc w - suc r = mod-eq_of_lt (omega arith) in
    let same : suc w - 1 ≡ w = omega arith in
    omega (arith, low, e, pow-suc 2 w, ap (λ (t : ℕ). 2 ^ t) same)

start_lem : (m a : ℕ) → 0 + (m - 1 * a % m) ≡ m - a % m
start_lem m a =
    let one : 1 * a ≡ a = omega arith in
    let same : m - 1 * a % m ≡ m - a % m = ap (λ (t : ℕ). m - t % m) one in omega (arith, same)

with_sign-value :
    (w : ℕ) (neg : Bool) (o : Option ℕ)
    → 0 < w
    → with_sign w (less w 0 1 neg o)
      ≡ signed_converted w (elim o [ none ↦ none | some a ↦ some (neg, a) ])
unfolding with_sign
with_sign-value w neg none h = refl
with_sign-value w true (some a) h =
    ap (to_signed w) (ap (λ (t : ℕ). t % 2 ^ w) (start_lem (2 ^ w) a))
with_sign-value w false (some a) h =
    let v = (0 + (2 ^ w - 1 * a % 2 ^ w)) % 2 ^ w in
    let r = a % 2 ^ w in
    let small : r < 2 ^ w = mod-lt a (two-pow-pos w) in
    let is : v ≡ (2 ^ w - r) % 2 ^ w = ap (λ (t : ℕ). t % 2 ^ w) (start_lem (2 ^ w) a) in
    elim (Bool-cases (v == 2 ^ (w - 1))) [
      | inl least ↦
          let e : v ≡ 2 ^ (w - 1) = ground (arith, least) in
          rw least (ap (to_signed w) (sym (half_lem w r h small (sym is ∙ e))))
      | inr other ↦
          rw other
            (ap (to_signed w) (ap (λ (t : ℕ). (2 ^ w - t) % 2 ^ w) is ∙ twice_neg (2 ^ w) r small))
    ]

-- Text in memory is read as the signed numeral that it is, a sign and decimal digits, in two's
-- complement of the width, and as 0 if it is none.
pub pl_signed-eq :
    (m : ℕ → ℕ) (pl : Pl)
    → pl.p ≢ 0
    → let value = signed_numeral (text m pl.p pl.l) in
      (pl_i32 m pl ≡ signed_converted 32 value) × (pl_i64 m pl ≡ signed_converted 64 value)
unfolding pl_i32 pl_i64
pl_signed-eq m pl set =
    let is_set : (pl.p == 0) ≡ false = ground arith in
    let chs = split_sign (text m pl.p pl.l) in
    (
      rw is_set (
          ap (with_sign 32) (signed_loop-eq 32 m pl.p pl.l 0 1 (omega arith))
          ∙ with_sign-value 32 chs.0 (numeral 10 decimal chs.1 0) (omega arith)),
      rw is_set (
          ap (with_sign 64) (signed_loop-eq 64 m pl.p pl.l 0 1 (omega arith))
          ∙ with_sign-value 64 chs.0 (numeral 10 decimal chs.1 0) (omega arith)),
    )
