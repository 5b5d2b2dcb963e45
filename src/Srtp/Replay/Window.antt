-- ===== src/Srtp/Replay/Window.antt =====
-- The replay window of src/srtp/replay.c lets no index pass twice, and drops none that is new.
use re_cpm.Base.{
  ℕ, suc, ◌+◌, ◌-◌, ◌*◌, ◌%◌, ◌≤◌, ◌<◌, ◌^◌, ◌≡◌, ◌≢◌, ◌⊎◌, inl, inr, refl, sym, ap, ◌∙◌, arith,
  ltb, leb, ◌==◌, Bool, true, false, bit_and, bit_or, List, [], ◌∷◌, Bool-cases, ltb→lt, ltb-false,
  leb→le,
}
use native.Mathlib.Decide.{ℕ_discrete}
use native.Mathlib.Nat.{mod-eq_of_lt, pow-suc, pow-le-pow_right}
use re_cpm.Base.Bits.{two-pow-pos}
use re_cpm.Base.TestBit.{
  bit, bit-lt, bit_and-pow, bit-bit_or, bit-pow_self, bit-pow_ne, bit-shift, bit-shift_low, bit-mod,
  zero-bit,
}
use re_cpm.Srtp.Replay.{Replay, init, check, run}

-- An index that the state lets pass no more: behind the window, or marked in it.
abbrev pub Barred : Replay → ℕ → Type 0
Barred r ix = (ix ≤ r.lix) × ((r.lix - ix < 64) → bit r.bitmap (r.lix - ix) ≡ 1)

-- An index that the state has not seen: beyond the highest, or not marked.
abbrev pub Unseen : Replay → ℕ → Type 0
Unseen r ix = ix ≤ r.lix → r.lix - ix < 64 → bit r.bitmap (r.lix - ix) ≡ 0

-- The bit of a smaller index, when a higher one moves the window.
moved :
    (m diff d j : ℕ)
    → d + diff ≡ j
    → 0 < diff
    → j < 64
    → bit (bit_or (m * 2 ^ diff % 2 ^ 64) 1) j ≡ bit m d
moved m diff d j e h k =
    bit-bit_or (m * 2 ^ diff % 2 ^ 64) 1 j
    ∙ omega (
      arith,
      bit-mod 64 (m * 2 ^ diff) j k,
      bit-shift diff m d j (omega arith),
      bit-pow_ne 0 j (omega arith),
    )

ahead_low :
    (m diff j : ℕ) → 0 < j → j < 64 → j < diff → bit (bit_or (m * 2 ^ diff % 2 ^ 64) 1) j ≡ 0
ahead_low m diff j h k l =
    bit-bit_or (m * 2 ^ diff % 2 ^ 64) 1 j
    ∙ omega (
      arith,
      bit-mod 64 (m * 2 ^ diff) j k,
      bit-shift_low diff m j l,
      bit-pow_ne 0 j (omega arith),
    )

ahead_first : (m diff : ℕ) → 0 < diff → bit (bit_or (m * 2 ^ diff % 2 ^ 64) 1) 0 ≡ 1
ahead_first m diff h =
    bit-bit_or (m * 2 ^ diff % 2 ^ 64) 1 0 ∙ omega (arith, bit-lt (m * 2 ^ diff % 2 ^ 64) 0)

pow-lt : (d : ℕ) → d < 64 → 2 ^ d < 2 ^ 64
pow-lt d h =
    let le : 2 ^ suc d ≤ 2 ^ 64 = pow-le-pow_right (omega arith) h in
    omega (arith, le, pow-suc 2 d, two-pow-pos d)

bit-cases : (a k : ℕ) → (bit a k ≡ 0) ⊎ (bit a k ≡ 1)
bit-cases a k = omega (arith, bit-lt a k)

-- Each outcome of `check`, with the bits read.
pub data Checked (r : Replay) (ix : ℕ) : Bool × Replay → Type 0 where
  ahead :
      (m : ℕ)
      → r.lix < ix
      → bit m 0 ≡ 1
      → ((j : ℕ) → 0 < j → j < 64 → j < ix - r.lix → bit m j ≡ 0)
      → ((j d : ℕ) → d + (ix - r.lix) ≡ j → j < 64 → bit m j ≡ bit r.bitmap d)
      → Checked r ix (true, record { bitmap = m; lix = ix })
  old : ix ≤ r.lix → 64 ≤ r.lix - ix → Checked r ix (false, r)
  seen : ix ≤ r.lix → r.lix - ix < 64 → bit r.bitmap (r.lix - ix) ≡ 1 → Checked r ix (false, r)
  marked :
      (m : ℕ)
      → ix ≤ r.lix
      → r.lix - ix < 64
      → bit r.bitmap (r.lix - ix) ≡ 0
      → bit m (r.lix - ix) ≡ 1
      → ((j : ℕ) → r.lix - ix ≢ j → bit m j ≡ bit r.bitmap j)
      → Checked r ix (true, record r { bitmap = m })

check-Checked : (r : Replay) (ix : ℕ) → Checked r ix (check r ix)
unfolding check
check-Checked r ix = elim (Bool-cases (ltb r.lix ix)) [
  | inl more ↦
      let h : r.lix < ix = ltb→lt r.lix ix more in
      elim (Bool-cases (ltb (ix - r.lix) 64)) [
        | inl near ↦
            let k : ix - r.lix < 64 = ltb→lt (ix - r.lix) 64 near in
            let m = r.bitmap * 2 ^ (ix - r.lix) % 2 ^ 64 in
            rw (more, near)
              (ahead (bit_or m 1) h (ahead_first r.bitmap (ix - r.lix) (omega arith))
                (λ j p q l. ahead_low r.bitmap (ix - r.lix) j p q l)
                (λ j d e q. moved r.bitmap (ix - r.lix) d j e (omega arith) q))
        | inr far ↦
            let k : 64 ≤ ix - r.lix = ltb-false (ix - r.lix) 64 far in
            rw (more, far)
              (ahead 1 h refl (λ j p q l. bit-pow_ne 0 j (omega arith))
                (λ j d e q. absurd (omega arith)))
      ]
  | inr less ↦
      let h : ix ≤ r.lix = ltb-false r.lix ix less in
      elim (Bool-cases (leb 64 (r.lix - ix))) [
        | inl behind ↦ rw (less, behind) (old h (leb→le 64 (r.lix - ix) behind))
        | inr inside ↦
            let k : r.lix - ix < 64 = ground arith in
            let one : 2 ^ (r.lix - ix) % 2 ^ 64 ≡ 2 ^ (r.lix - ix) =
              mod-eq_of_lt (pow-lt (r.lix - ix) k) in
            let d = r.lix - ix in
            elim (bit-cases r.bitmap d) [
              | inl clear ↦
                  let z : bit_and r.bitmap (2 ^ d) ≡ 0 =
                    bit_and-pow d r.bitmap ∙ ap (λ b. b * 2 ^ d) clear ∙ omega arith in
                  rw (less, inside, one, z)
                    (marked (bit_or r.bitmap (2 ^ d)) h k clear
                      (bit-bit_or r.bitmap (2 ^ d) d ∙ omega (arith, clear, bit-pow_self d))
                      (λ j ne. bit-bit_or r.bitmap (2 ^ d) j ∙ omega (arith, bit-pow_ne d j ne)))
              | inr set ↦
                  let z : bit_and r.bitmap (2 ^ d) ≡ 2 ^ d =
                    bit_and-pow d r.bitmap ∙ ap (λ b. b * 2 ^ d) set ∙ omega arith in
                  let t : (2 ^ d == 0) ≡ false = ground (arith, two-pow-pos d) in
                  rw (less, inside, one, z, t) (seen h k set)
            ]
      ]
]

-- What is barred stays barred.
check-Barred : (r : Replay) (ix j : ℕ) → Barred r ix → Barred (check r j).1 ix
check-Barred r ix j b = go (check r j) (check-Checked r j)
  where
    go : (out : Bool × Replay) → Checked r j out → Barred out.1 ix
    go out (ahead m h first low high) = (
      omega (arith, b.0),
      λ near. high (j - ix) (r.lix - ix) (omega (arith, b.0)) near ∙ b.1 (omega (arith, b.0)),
    )
    go out (old h far) = b
    go out (seen h k e) = b
    go out (marked m h k clear now same) = elim (ℕ_discrete (r.lix - j) (r.lix - ix)) [
      | yes e ↦ (b.0, λ _. ap (bit m) (sym e) ∙ now)
      | no ne ↦ (b.0, λ near. same (r.lix - ix) ne ∙ b.1 near)
    ]

run-Barred : (js : List ℕ) (r : Replay) (ix : ℕ) → Barred r ix → Barred (run r js) ix
unfolding run
run-Barred [] r ix b = b
run-Barred (j ∷ js) r ix b = run-Barred js (check r j).1 ix (check-Barred r ix j b)

Barred-rejected : (r : Replay) (ix : ℕ) → Barred r ix → (check r ix).0 ≡ false
Barred-rejected r ix b = go (check r ix) (check-Checked r ix)
  where
    go : (out : Bool × Replay) → Checked r ix out → out.0 ≡ false
    go out (ahead m h first low high) = absurd (omega (arith, b.0))
    go out (old h far) = refl
    go out (seen h k e) = refl
    go out (marked m h k clear now same) = absurd (omega (arith, b.1 k))

permitted-Barred : (r : Replay) (ix : ℕ) → (check r ix).0 ≡ true → Barred (check r ix).1 ix
permitted-Barred r ix = go (check r ix) (check-Checked r ix)
  where
    go : (out : Bool × Replay) → Checked r ix out → out.0 ≡ true → Barred out.1 ix
    go out (ahead m h first low high) e =
        (omega arith, λ _. ap (bit m) (let z : ix - ix ≡ 0 = omega arith in z) ∙ first)
    go out (old h far) e = cc
    go out (seen h k e1) e = cc
    go out (marked m h k clear now same) e = (h, λ _. now)

-- No replay: once a packet index was permitted, it is rejected after any further packets, from
-- every state of the window.
pub check_once :
    (r : Replay) (ix : ℕ) (js : List ℕ)
    → (check r ix).0 ≡ true
    → (check (run (check r ix).1 js) ix).0 ≡ false
check_once r ix js e =
    Barred-rejected (run (check r ix).1 js) ix
      (run-Barred js (check r ix).1 ix (permitted-Barred r ix e))

abbrev pub NotIn : ℕ → List ℕ → Type 0
NotIn ix [] = Unit
NotIn ix (j ∷ js) = (ix ≢ j) × NotIn ix js

check-Unseen : (r : Replay) (ix j : ℕ) → ix ≢ j → Unseen r ix → Unseen (check r j).1 ix
check-Unseen r ix j ne u = go (check r j) (check-Checked r j)
  where
    go : (out : Bool × Replay) → Checked r j out → Unseen out.1 ix
    go out (ahead m h first low high) = λ p q. elim (Bool-cases (ltb r.lix ix)) [
      | inl new ↦ low (j - ix) (omega arith) q (omega (arith, ltb→lt r.lix ix new))
      | inr before ↦
          let le : ix ≤ r.lix = ltb-false r.lix ix before in
          high (j - ix) (r.lix - ix) (omega arith) q ∙ u le (omega arith)
    ]
    go out (old h far) = u
    go out (seen h k e) = u
    go out (marked m h k clear now same) = λ p q. same (r.lix - ix) (omega arith) ∙ u p q

run-Unseen : (js : List ℕ) (r : Replay) (ix : ℕ) → NotIn ix js → Unseen r ix → Unseen (run r js) ix
unfolding run
run-Unseen [] r ix n u = u
run-Unseen (j ∷ js) r ix n u = run-Unseen js (check r j).1 ix n.1 (check-Unseen r ix j n.0 u)

-- Nothing is dropped in the window: after any packets from the start, an index that was not among
-- them is permitted, unless it is 64 or more behind the highest.
pub check_new :
    (ix : ℕ) (js : List ℕ)
    → NotIn ix js
    → (run init js).lix < ix + 64
    → (check (run init js) ix).0 ≡ true
check_new ix js n w = go (check s ix) (check-Checked s ix)
  where
    s : Replay
    s = run init js

    go : (out : Bool × Replay) → Checked s ix out → out.0 ≡ true
    go out (ahead m h first low high) = refl
    go out (old h far) = absurd (omega arith)
    go out (seen h k e) =
        absurd (omega (arith, e, run-Unseen js init ix n (λ _ _. zero-bit (0 - ix)) h k))
    go out (marked m h k clear now same) = refl
