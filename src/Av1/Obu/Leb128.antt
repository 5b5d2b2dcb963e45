-- ===== src/Av1/Obu/Leb128.antt =====
-- LEB128 of src/av1/obu.c: groups of seven bits, the lowest first.
use re_cpm.Base.{
  min, ℕ, zero, suc, ◌+◌, ◌*◌, ◌/◌, ◌%◌, ◌^◌, ◌≤◌, ◌<◌, ◌≡◌, refl, sym, ap, subst, ◌∙◌, arith, ltb,
  ltb-ge, ltb→lt, ◌==◌, if◌then◌else◌, true, false, Bool-cases, inl, inr, List, [], ◌∷◌, ◌++◌,
  append_assoc, length, drop, drop-nil, bit_and, bit_or,
}
use re_cpm.Base.Bits.{bit_and-mask, bit_or-high, bit_or-add, bit_and-one_bit}
use re_cpm.Platform.{Platform}
use re_cpm.Mbuf.{Mbuf, get_left}
use re_cpm.Mbuf.Ints.{write_u8, read_u8, ◌|=◌}
use re_cpm.Mbuf.Inv.{IsValid}
use re_cpm.Mbuf.Cursor.{rest}
use re_cpm.Mbuf.Words.{Appends, Appends-as, u8_step}
use re_cpm.Mbuf.Takes.{Takes, Takes-as, Takes-trans, get_left-of, read_u8-Takes}
use re_cpm.Av1.Obu.{shrinks, leb128_loop, leb128_rounds}
use mathlib.Core.Logic.{dite}
use mathlib.Core.WellFounded.{Acc}
use native.Mathlib.Decide.{dec_lt}
use native.Mathlib.Nat.{
  mul-le-mul_right, pow-suc, div-add-mod, mod-lt, mod-eq_of_lt, mul-add-mod_self_left,
}

-- The groups of `v`, for `v` below 128 ^ (k + 1).
abbrev pub leb_bytes : ℕ → ℕ → List ℕ
leb_bytes zero v = v ∷ []
leb_bytes (suc k) v = if ltb v 128 then v ∷ [] else (v % 128 + 128) ∷ leb_bytes k (v / 128)

inner : (v : ℕ) → bit_or 0x80 (bit_and v 0x7f) % 256 ≡ v % 128 + 128
inner v =
    omega
      (arith, bit_and-mask 7 v, bit_or-add 7 1 (bit_and v 0x7f) (omega (arith, bit_and-mask 7 v)))

-- A decision that holds.
dite_holds {ℓ κ} :
    {P : Type ℓ} {A : Type κ} (d : Dec P) (f : P → A) (g : ¬ P → A)
    → P
    → (x : P) × (dite d f g ≡ f x)
dite_holds (yes x) f g h = (x, refl)
dite_holds (no n) f g h = absurd (n h)

module _ (p : Platform) (out : ℕ × Mbuf) where
  last_round :
      (v : ℕ) (w : Acc ◌<◌ v)
      → v < 128
      → leb128_loop p v w out ≡ (out |= (λ m. write_u8 p m (v % 2 ^ 8)))
  unfolding leb128_loop
  last_round v (Acc.intro _ smaller) h = ground arith

  inner_round :
      (v : ℕ) (w : Acc ◌<◌ v)
      → 128 ≤ v
      → (w' : Acc ◌<◌ (v / 128)) × (leb128_loop p v w out
          ≡ leb128_loop p (v / 128) w' (out |= (λ m. write_u8 p m (bit_or 0x80 (bit_and v 0x7f)))))
  unfolding leb128_loop
  inner_round v (Acc.intro _ smaller) h =
      let (x, e) = dite_holds (dec_lt 0x7f v) _ _ (omega arith) in
      (smaller (v / 128) (shrinks v x), e)

pub leb128_loop-Appends :
    (p : Platform) (mb : Mbuf) (k : ℕ) (xs : List ℕ) (v : ℕ) (w : Acc ◌<◌ v) (out : ℕ × Mbuf)
    → v < 128 ^ suc k
    → Appends mb xs out
    → Appends mb (xs ++ leb_bytes k v) (leb128_loop p v w out)
leb128_loop-Appends p mb zero xs v w out h a =
    let byte : v % 2 ^ 8 % 256 ≡ v = omega arith in
    rw (last_round p out v w (omega arith)) (
      subst (λ b. Appends mb (xs ++ (b ∷ [])) (out |= (λ m. write_u8 p m (v % 2 ^ 8)))) byte
        (u8_step p mb xs out a (v % 2 ^ 8)))
leb128_loop-Appends p mb (suc k) xs v w out h a = elim (Bool-cases (ltb v 128)) [
  | inl last ↦
      let byte : v % 2 ^ 8 % 256 ≡ v = ground arith in
      rw (last, last_round p out v w (ground arith))
        (subst (λ b. Appends mb (xs ++ (b ∷ [])) (out |= (λ m. write_u8 p m (v % 2 ^ 8)))) byte
          (u8_step p mb xs out a (v % 2 ^ 8)))
  | inr more ↦
      let (w', e) = inner_round p out v w (ground arith) in
      let group = v % 128 + 128 in
      let step : Appends mb (xs ++ (group ∷ []))
          (out |= (λ m. write_u8 p m (bit_or 0x80 (bit_and v 0x7f)))) =
        subst
          (λ b.
            Appends mb (xs ++ (b ∷ [])) (out |= (λ m. write_u8 p m (bit_or 0x80 (bit_and v 0x7f)))))
          (inner v) (u8_step p mb xs out a (bit_or 0x80 (bit_and v 0x7f))) in
      rw (more, e)
        (Appends-as (append_assoc xs (group ∷ []) (leb_bytes k (v / 128))) (
          leb128_loop-Appends p mb k (xs ++ (group ∷ [])) (v / 128) w' _
            (omega (arith, pow-suc 128 (suc k))) step))
]

-- The groups of seven bits of a value in `n + 1` groups.
groups_lem : (v m : ℕ) → 0 < m → v % (m * 128) ≡ (v / 128 % m) * 128 + v % 128
groups_lem v m h =
    let low : ℕ = v / 128 % m * 128 + v % 128 in
    let e : v ≡ m * 128 * (v / 128 / m) + low = omega (arith, div-add-mod (v / 128) m) in
    let small : low < m * 128 = omega (arith, mod-lt (v / 128) h) in
    ap (λ x. x % (m * 128)) e
    ∙ mul-add-mod_self_left (m * 128) (v / 128 / m) low
    ∙ mod-eq_of_lt small

pub pow-pos : (n : ℕ) → 0 < 128 ^ n
pow-pos zero = omega arith
pow-pos (suc n) = omega (arith, pow-pos n, pow-suc 128 n)

shift_lem : (i : ℕ) → 2 ^ ((i + 1) * 7) ≡ 128 * 2 ^ (i * 7)
shift_lem i =
    let e : (i + 1) * 7 ≡ suc (suc (suc (suc (suc (suc (suc (i * 7))))))) = omega arith in
    rw e (simp pow-suc (omega arith))

-- Bits that a round adds.
added :
    (b i ret : ℕ)
    → ret < 2 ^ (i * 7)
    → bit_or ret (bit_and b 0x7f * 2 ^ (i * 7)) ≡ b % 128 * 2 ^ (i * 7) + ret
added b i ret h =
    ap (λ t. bit_or ret (t * 2 ^ (i * 7))) (bit_and-mask 7 b) ∙ bit_or-high (i * 7) (b % 128) ret h

module _ (p : Platform) (old n i ret : ℕ) (mb : Mbuf) (b : ℕ) (r : List ℕ) where
  round_lem :
      IsValid mb
      → rest mb ≡ b ∷ r
      → ret < 2 ^ (i * 7)
      → let (byte, mb') = read_u8 p mb in
        (leb128_rounds p old (suc n) i ret mb ≡ (
          if bit_and b 0x80 == 0
          then (0, b % 128 * 2 ^ (i * 7) + ret, mb')
          else leb128_rounds p old n (i + 1) (b % 128 * 2 ^ (i * 7) + ret) mb'))
        × Takes mb 1 r mb'
  unfolding leb128_rounds
  round_lem v h small =
      let (byte_is, t) = read_u8-Takes p mb b r v h in
      let some_left : ltb (get_left mb) 1 ≡ false =
        ltb-ge _ _ (omega (arith, get_left-of mb (b ∷ []) r v h)) in
      (rw (some_left, byte_is, added b i ret small) refl, t)

value_lem :
    (v n i ret : ℕ)
    → v / 128 % 128 ^ n * 2 ^ ((i + 1) * 7) + ((v % 128 + 128) % 128 * 2 ^ (i * 7) + ret)
      ≡ v % 128 ^ suc n * 2 ^ (i * 7) + ret
value_lem v n i ret =
    let step : v % 128 ^ suc n ≡ v / 128 % 128 ^ n * 128 + v % 128 =
      ap (λ m. v % m) (pow-suc 128 n ∙ omega arith) ∙ groups_lem v (128 ^ n) (pow-pos n) in
    let low : (v % 128 + 128) % 128 ≡ v % 128 = omega arith in
    rw (step, shift_lem i, low) (omega arith)

value_lt : (b i ret : ℕ) → b < 128 → ret < 2 ^ (i * 7) → b * 2 ^ (i * 7) + ret < 2 ^ ((i + 1) * 7)
value_lt b i ret h small =
    rw shift_lem (omega (arith, mul-le-mul_right {m = b} {n = 127} (2 ^ (i * 7)) (omega arith)))

-- What `n` rounds make of the groups `bytes` of `v`, with `r` behind them: groups that are beyond
-- the rounds are left unread.
abbrev pub Reads : ℕ → ℕ → ℕ → ℕ → List ℕ → List ℕ → Mbuf → ℕ × ℕ × Mbuf → Type 0
Reads n i ret v bytes r mb (err, got, mb') =
    (err ≡ 0)
    × (got ≡ v % 128 ^ n * 2 ^ (i * 7) + ret)
    × Takes mb (min n (length bytes)) (drop n bytes ++ r) mb'

module _ (p : Platform) (old : ℕ) where
  no_rounds :
      (i ret v : ℕ) (bytes : List ℕ) (mb : Mbuf) (r : List ℕ)
      → IsValid mb
      → rest mb ≡ bytes ++ r
      → Reads 0 i ret v bytes r mb (leb128_rounds p old 0 i ret mb)
  unfolding leb128_rounds
  no_rounds i ret v bytes mb r ok h =
      let one : 128 ^ 0 ≡ 1 = refl in
      let none_read : v % 128 ^ 0 ≡ 0 = ap (λ m. v % m) one ∙ omega arith in
      (
        refl,
        rw none_read (omega arith),
        record { valid = ok; left = h; at = omega arith; same_buf = refl; same_end = refl },
      )

  stop_lem :
      (n i ret v : ℕ) (mb : Mbuf) (r : List ℕ)
      → IsValid mb
      → rest mb ≡ v ∷ r
      → v < 128
      → ret < 2 ^ (i * 7)
      → Reads (suc n) i ret v (v ∷ []) r mb (leb128_rounds p old (suc n) i ret mb)
  stop_lem n i ret v mb r ok h bound small =
      let (e, t) = round_lem p old n i ret mb v r ok h small in
      let last : (bit_and v 0x80 == 0) ≡ true = ground (arith, bit_and-one_bit 7 v) in
      let whole : v % 128 ≡ v = omega arith in
      let fits : v % 128 ^ suc n ≡ v = mod-eq_of_lt (omega (arith, pow-suc 128 n, pow-pos n)) in
      rw (e, last, whole)
        (
          refl,
          ap (λ x. x * 2 ^ (i * 7) + ret) (sym fits),
          Takes-as (omega arith) (ap (λ xs. xs ++ r) (sym (drop-nil n))) t,
        )

  pub leb128_rounds-Reads :
      (n i ret k v : ℕ) (mb : Mbuf) (r : List ℕ)
      → IsValid mb
      → rest mb ≡ leb_bytes k v ++ r
      → v < 128 ^ suc k
      → ret < 2 ^ (i * 7)
      → Reads n i ret v (leb_bytes k v) r mb (leb128_rounds p old n i ret mb)
  leb128_rounds-Reads zero i ret k v mb r ok h bound small =
      no_rounds i ret v (leb_bytes k v) mb r ok h
  leb128_rounds-Reads (suc n) i ret zero v mb r ok h bound small =
      stop_lem n i ret v mb r ok h (omega arith) small
  leb128_rounds-Reads (suc n) i ret (suc k) v mb r ok h bound small =
      elim (Bool-cases (ltb v 128)) [
        | inl last ↦ rw last (stop_lem n i ret v mb r ok (h ∙ rw last refl) (ltb→lt _ _ last) small)
        | inr more ↦
            let byte = v % 128 + 128 in
            let later = leb_bytes k (v / 128) in
            let sum = byte % 128 * 2 ^ (i * 7) + ret in
            let (e, t) = round_lem p old n i ret mb byte (later ++ r) ok (h ∙ rw more refl) small in
            let goes_on : (bit_and byte 0x80 == 0) ≡ false =
              ground (arith, bit_and-one_bit 7 byte) in
            let small' : sum < 2 ^ ((i + 1) * 7) =
              value_lt (byte % 128) i ret (omega arith) small in
            let (z, got, u) =
              leb128_rounds-Reads n (i + 1) sum k (v / 128) ((read_u8 p mb).1) r t.valid t.left
                (omega (arith, pow-suc 128 (suc k))) small' in
            let count : 1 + min n (length later) ≡ min (suc n) (suc (length later)) = omega arith in
            rw (more, e, goes_on)
              (
                z,
                got ∙ value_lem v n i ret,
                Takes-as count refl (Takes-trans 1 (min n (length later)) t u),
              )
      ]
