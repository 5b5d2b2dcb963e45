-- ===== src/Rtpext/Padding.antt =====
-- The two loops of src/rtpext/rtpext.c: what they write and skip, and how often they run.
use re_cpm.Base.{
  ℕ, zero, suc, ◌+◌, ◌-◌, ◌%◌, ◌^◌, ◌≤◌, ◌<◌, ◌≡◌, ◌≢◌, refl, sym, ap, subst, ◌∙◌, arith, Bool,
  true, false, Bool-cases, inl, inr, ◌==◌, ==_iff, if◌then◌else◌,
}
use re_cpm.Base.{
  List, [], ◌∷◌, ◌++◌, append-nil, append_assoc, length, take, drop, drop-drop, replicate, get_or,
  length-append, some, some-eq, bit_and,
}
use re_cpm.Base.Bits.{bit_and-mask, bit_or-eq_zero}
use re_cpm.Platform.{Platform, add_size}
use re_cpm.Mbuf.{Mbuf, get_left, advance}
use re_cpm.Mbuf.Ints.{write_u8, ◌|=◌}
use re_cpm.Mbuf.Inv.{IsValid}
use re_cpm.Mbuf.Cursor.{rest, contents, get_left-eq, length-rest}
use re_cpm.Mbuf.Words.{Appends, u8_step}
use re_cpm.Rtpext.{write_padding, skip_padding}

-- How many zeros fill up to a multiple of four.
abbrev pub missing : ℕ → ℕ
missing n = (4 - n % 4) % 4

false→≢ : (n : ℕ) → (n == 0) ≡ false → n ≢ 0
false→≢ n h = ground arith

suc-false : (n : ℕ) → (suc n == 0) ≡ false
suc-false n = ground arith

module _ (p : Platform) where
  abbrev more : ℕ × Mbuf → ℕ × Mbuf
  more out = out |= λ m. write_u8 p m 0

  aligned : ℕ → ℕ × Mbuf → Bool
  aligned start out = bit_and ((out.1.pos + 2 ^ 64 - start) % 2 ^ 64) 0x03 == 0

  padding_stop :
      (fuel start : ℕ) (out : ℕ × Mbuf)
      → aligned start out ≡ true
      → write_padding p (suc fuel) start out ≡ some out
  unfolding write_padding aligned
  padding_stop fuel start out h = rw h refl

  padding_more :
      (fuel start : ℕ) (out : ℕ × Mbuf)
      → aligned start out ≡ false
      → write_padding p (suc fuel) start out ≡ write_padding p fuel start (more out)
  unfolding write_padding aligned
  padding_more fuel start out h = rw h refl

  -- An error that was there before stays.
  no_error_before :
      (fuel start : ℕ) (out fin : ℕ × Mbuf)
      → write_padding p fuel start out ≡ some fin
      → fin.0 ≡ 0
      → out.0 ≡ 0
  unfolding write_padding
  no_error_before zero start out fin e z = absurd (ground arith)
  no_error_before (suc fuel) start out fin e z = elim (Bool-cases (aligned start out)) [
    | inl stop ↦
        ap (λ (x : ℕ × Mbuf). x.0) (some-eq (sym (padding_stop fuel start out stop) ∙ e)) ∙ z
    | inr go ↦
        let after =
          no_error_before fuel start (more out) fin (sym (padding_more fuel start out go) ∙ e) z in
        (bit_or-eq_zero out.0 (write_u8 p out.1 0).0 after).0
  ]

module _ (p : Platform) (mb : Mbuf) where
  -- The position within the item, when no write failed.
  aligned-eq :
      (xs : List ℕ) (out : ℕ × Mbuf)
      → Appends mb xs out
      → length xs < 2 ^ 63
      → out.0 ≡ 0
      → aligned p mb.pos out ≡ (length xs % 4 == 0)
  unfolding aligned
  aligned-eq xs out a h z =
      let d : (out.1.pos + 2 ^ 64 - mb.pos) % 2 ^ 64 ≡ length xs = omega (arith, a.at z) in
      rw d (ap (λ x. x == 0) (bit_and-mask 2 (length xs)))

  one_more :
      (xs : List ℕ) (out : ℕ × Mbuf) → Appends mb xs out → Appends mb (xs ++ (0 ∷ [])) (more p out)
  one_more xs out a = u8_step p mb xs out a 0

  -- What the loop leaves: zeros up to a multiple of four behind what was there.
  pub write_padding-Appends :
      (fuel : ℕ) (xs : List ℕ) (out fin : ℕ × Mbuf)
      → Appends mb xs out
      → length xs + missing (length xs) < 2 ^ 63
      → write_padding p fuel mb.pos out ≡ some fin
      → fin.0 ≡ 0
      → Appends mb (xs ++ replicate (missing (length xs)) 0) fin
  write_padding-Appends zero xs out fin a h e z = absurd (unfold write_padding in ground arith)
  write_padding-Appends (suc fuel) xs out fin a h e z =
      let at =
        aligned-eq xs out a (omega arith) (no_error_before p (suc fuel) mb.pos out fin e z) in
      elim (Bool-cases (length xs % 4 == 0)) [
        | inl stop ↦
            let none_missing : missing (length xs) ≡ 0 = omega (arith, (==_iff _ _).0 stop) in
            let same : out ≡ fin = some-eq (sym (padding_stop p fuel mb.pos out (at ∙ stop)) ∙ e) in
            rw none_missing
              (subst (λ bs. Appends mb bs fin) (sym (append-nil xs)) (subst (Appends mb xs) same a))
        | inr go ↦
            let longer : length (xs ++ (0 ∷ [])) ≡ length xs + 1 = length-append xs (0 ∷ []) in
            let fewer : missing (length xs) ≡ suc (missing (length (xs ++ (0 ∷ [])))) =
              omega (arith, longer, false→≢ (length xs % 4) go) in
            let whole =
              write_padding-Appends fuel (xs ++ (0 ∷ [])) (more p out) fin (one_more xs out a)
                (omega (arith, longer, fewer)) (sym (padding_more p fuel mb.pos out (at ∙ go)) ∙ e)
                z in
            rw fewer (
              subst (λ bs. Appends mb bs fin)
                (append_assoc xs (0 ∷ []) (replicate (missing (length (xs ++ (0 ∷ [])))) 0)) whole)
      ]

  -- With room for them, four rounds are enough.
  pub write_padding-returns :
      (fuel : ℕ) (xs : List ℕ) (out : ℕ × Mbuf)
      → Appends mb xs out
      → missing (length xs) < fuel
      → mb.pos + length xs + missing (length xs) ≤ mb.size
      → mb.size < 2 ^ 63
      → (sent : Mbuf) × (write_padding p fuel mb.pos out ≡ some (0, sent))
  write_padding-returns zero xs out a h r s = absurd (omega arith)
  write_padding-returns (suc fuel) xs out a h r s =
      let ok : out.0 ≡ 0 = a.fits (omega arith) in
      let at = aligned-eq xs out a (omega arith) ok in
      elim (Bool-cases (length xs % 4 == 0)) [
        | inl stop ↦
            (out.1, padding_stop p fuel mb.pos out (at ∙ stop) ∙ ap (λ err. some (err, out.1)) ok)
        | inr go ↦
            let longer : length (xs ++ (0 ∷ [])) ≡ length xs + 1 = length-append xs (0 ∷ []) in
            let fewer : missing (length xs) ≡ suc (missing (length (xs ++ (0 ∷ [])))) =
              omega (arith, longer, false→≢ (length xs % 4) go) in
            let (sent, e) =
              write_padding-returns fuel (xs ++ (0 ∷ [])) (more p out) (one_more xs out a)
                (omega (arith, fewer)) (omega (arith, longer, fewer)) s in
            (sent, padding_more p fuel mb.pos out (at ∙ go) ∙ e)
      ]

-- The list behind the zeros at its head.
abbrev pub drop_zeros : List ℕ → List ℕ
drop_zeros [] = []
drop_zeros (x ∷ xs) = if x == 0 then drop_zeros xs else x ∷ xs

pub drop_zeros-replicate : (k : ℕ) (xs : List ℕ) → drop_zeros (replicate k 0 ++ xs) ≡ drop_zeros xs
drop_zeros-replicate zero xs = refl
drop_zeros-replicate (suc k) xs = drop_zeros-replicate k xs

get_or-window :
    (ys : List ℕ) (i n x : ℕ) (xs : List ℕ) → drop i (take n ys) ≡ x ∷ xs → get_or ys i 0 ≡ x
get_or-window [] zero zero x xs e = absurd (omega (arith, ap length e))
get_or-window [] zero (suc n) x xs e = absurd (omega (arith, ap length e))
get_or-window [] (suc i) zero x xs e = absurd (omega (arith, ap length e))
get_or-window [] (suc i) (suc n) x xs e = absurd (omega (arith, ap length e))
get_or-window (y ∷ ys) zero zero x xs e = absurd (omega (arith, ap length e))
get_or-window (y ∷ ys) zero (suc n) x xs e = ap (λ l. get_or l 0 0) e
get_or-window (y ∷ ys) (suc i) zero x xs e = absurd (omega (arith, ap length e))
get_or-window (y ∷ ys) (suc i) (suc n) x xs e = get_or-window ys i n x xs e

-- What the loop of the decoders leaves, given a round for each byte and one more.
pub skip_padding-eq :
    (fuel : ℕ) (mb : Mbuf) (r : List ℕ)
    → IsValid mb
    → rest mb ≡ r
    → length r < fuel
    → (mb' : Mbuf) × (skip_padding fuel mb ≡ some mb') × (rest mb' ≡ drop_zeros r) × IsValid mb'
unfolding skip_padding advance
skip_padding-eq zero mb r v e h = absurd (omega arith)
skip_padding-eq (suc fuel) mb [] v e h =
    let z : get_left mb ≡ 0 = get_left-eq mb v ∙ ap length e in (mb, rw z refl, e, v)
skip_padding-eq (suc fuel) mb (x ∷ xs) v e h =
    let len : (get_left mb == 0) ≡ false =
      ap (λ n. n == 0) (get_left-eq mb v ∙ ap length e) ∙ suc-false (length xs) in
    let c : get_or mb.buf mb.pos 0 ≡ x = get_or-window mb.buf mb.pos mb.end x xs e in
    let inside : mb.pos < mb.end = omega (arith, length-rest mb v, ap length e) in
    let next : add_size mb.pos 1 ≡ mb.pos + 1 = omega (arith, v) in
    let after = record mb { pos = mb.pos + 1 } in
    let (mb', found, r', v') =
      skip_padding-eq fuel after xs (omega (arith, v))
        (sym (drop-drop mb.pos 1 (contents mb)) ∙ ap (drop 1) e) (omega arith) in
    elim (Bool-cases (x == 0)) [
      | inl zeros ↦ rw (len, c, zeros, next) (mb', found, r', v')
      | inr other ↦ rw (len, c, other) (mb, refl, e, v)
    ]
