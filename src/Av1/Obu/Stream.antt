-- ===== src/Av1/Obu/Stream.antt =====
-- Units one behind the other: av1_obu_count and av1_obu_count_rtp of src/av1/obu.c.
use re_cpm.Base.{
  ℕ, zero, suc, ◌+◌, ◌%◌, ◌^◌, ◌≤◌, ◌<◌, ◌≡◌, refl, ap, ◌∙◌, arith, ltb, lt→ltb, ltb-ge, take_all,
  if◌then◌else◌, Bool, true, false, Bool-cases, inl, inr, some, List, [], ◌∷◌, ◌++◌, length,
  length-append,
}
use re_cpm.Base.Int.{pos}
use re_cpm.Platform.{Platform}
use re_cpm.Mem.{mem_size_max}
use re_cpm.Mbuf.{Mbuf, get_left, advance}
use re_cpm.Mbuf.Inv.{IsValid}
use re_cpm.Mbuf.Cursor.{rest}
use re_cpm.Mbuf.Takes.{get_left-of, advance-Takes}
use re_cpm.Av1.Obu.{
  ObuHdr, zero_obu, wrapped, av1_obu_decode, obu_allowed_rtp, obu_count_loop, av1_obu_count,
  av1_obu_count_rtp,
}
use re_cpm.Av1.Obu.RoundTrip.{leb, length-leb-pos}
use re_cpm.Av1.Obu.Unit.{obu_bytes, av1_obu_decode-sized}

-- A unit: its type and its payload.
pub record ObuUnit : Type 0 where
  pub ty : ℕ
  pub payload : List ℕ

pub record IsObu (u : ObuUnit) : Type 0 where
  pub some_ty : 0 < u.ty
  pub small : u.ty < 16
  pub short : length u.payload < 2 ^ 56

abbrev pub AreObus : List ObuUnit → Type 0
AreObus [] = ◌≡◌ {A = ℕ} 0 0
AreObus (u ∷ us) = IsObu u × AreObus us

-- Each with its size.
abbrev pub stream : List ObuUnit → List ℕ
stream [] = []
stream (u ∷ us) = obu_bytes u.ty true u.payload ++ stream us

abbrev pub number : (ℕ → Bool) → List ObuUnit → ℕ
number counts [] = 0
number counts (u ∷ us) = (if counts u.ty then 1 else 0) + number counts us

abbrev pub hdr_of : ObuUnit → ObuHdr
hdr_of u = record { ty = u.ty; x = false; s = true; size = length u.payload }

pub lt-length-stream :
    (u : ObuUnit) (us : List ObuUnit) → suc (length (stream us)) < length (stream (u ∷ us))
lt-length-stream u us = omega (
  arith,
  length-append {0} (obu_bytes u.ty true u.payload) (stream us),
  length-append {0} (leb (length u.payload)) u.payload,
  length-leb-pos (length u.payload),
)

number_all : (us : List ObuUnit) → number (λ ty. true) us ≡ length us
number_all [] = refl
number_all (u ∷ us) = omega (arith, number_all us)

pub number-le : (counts : ℕ → Bool) (us : List ObuUnit) → number counts us ≤ length (stream us)
number-le counts [] = omega arith
number-le counts (u ∷ us) = elim (Bool-cases (counts u.ty)) [
  | inl y ↦ rw y (omega (arith, number-le counts us, lt-length-stream u us))
  | inr n ↦ rw n (omega (arith, number-le counts us, lt-length-stream u us))
]

-- One round of a loop over units: the header is decoded, and behind the payload the next unit
-- begins.
pub next_unit :
    (p : Platform) (u : ObuUnit) (us : List ObuUnit) (wrap : Mbuf)
    → IsObu u
    → IsValid wrap
    → rest wrap ≡ stream (u ∷ us)
    → (mb' : Mbuf) × (av1_obu_decode p zero_obu wrap ≡ (0, hdr_of u, mb'))
      × IsValid mb'
      × (rest mb' ≡ u.payload ++ stream us)
      × IsValid (advance mb' (pos (length u.payload)))
      × (rest (advance mb' (pos (length u.payload))) ≡ stream us)
next_unit p u us wrap is ok text =
    let (mb', e, t) =
      av1_obu_decode-sized p wrap u.ty u.payload zero_obu (stream us) ok is.some_ty is.small
        is.short text in
    let a = advance-Takes mb' u.payload (stream us) t.valid t.left in
    (mb', e, t.valid, t.left, a.valid, a.left)

module _ (p : Platform) (counts : ℕ → Bool) where
  obu_count_loop-stream :
      (fuel : ℕ) (us : List ObuUnit) (wrap : Mbuf) (count : ℕ)
      → AreObus us
      → IsValid wrap
      → rest wrap ≡ stream us
      → length us < fuel
      → count + length (stream us) < 2 ^ 32
      → obu_count_loop fuel p counts wrap count ≡ some (count + number counts us)
  unfolding obu_count_loop
  obu_count_loop-stream zero us wrap count are ok text enough narrow = absurd (omega arith)
  obu_count_loop-stream (suc fuel) [] wrap count are ok text enough narrow =
      let none_left : ltb 1 (get_left wrap) ≡ false =
        ltb-ge _ _ (omega (arith, get_left-of wrap [] [] ok text)) in
      rw none_left (ap some (omega arith))
  obu_count_loop-stream (suc fuel) (u ∷ us) wrap count (is, are) ok text enough narrow =
      let (mb', e, v, left, v', text') = next_unit p u us wrap is ok text in
      let longer = lt-length-stream u us in
      let some_left : ltb 1 (get_left wrap) ≡ true =
        lt→ltb _ _ (omega (arith, get_left-of wrap [] (stream (u ∷ us)) ok text)) in
      elim (Bool-cases (counts u.ty)) [
        | inl y ↦
            let narrow' : (count + 1) % 2 ^ 32 ≡ count + 1 = omega arith in
            rw (some_left, e, y, narrow')
              (obu_count_loop-stream fuel us _ (count + 1) are v' text' (omega arith) (omega arith)
                ∙ ap some (omega arith))
        | inr n ↦
            rw (some_left, e, n)
              (obu_count_loop-stream fuel us _ count are v' text' (omega arith) (omega arith)
                ∙ ap some (omega arith))
      ]

  pub counted :
      (fuel : ℕ) (us : List ObuUnit)
      → AreObus us
      → length (stream us) ≤ mem_size_max
      → length us < fuel
      → obu_count_loop fuel p counts (wrapped (stream us)) 0 ≡ some (number counts us)
  counted fuel us are narrow enough =
      obu_count_loop-stream fuel us (wrapped (stream us)) 0 are (omega arith)
        (take_all (stream us) (length (stream us)) (omega arith)) enough (omega arith)
      ∙ ap some (omega arith)

-- On units one behind the other, each with its size, and with a round for each and one more,
-- av1_obu_count answers with how many there are and av1_obu_count_rtp with how many are sent.
pub av1_obu_count-stream :
    (p : Platform) (fuel : ℕ) (us : List ObuUnit)
    → AreObus us
    → length (stream us) ≤ mem_size_max
    → length us < fuel
    → (av1_obu_count fuel p (stream us) ≡ some (length us))
      × (av1_obu_count_rtp fuel p (stream us) ≡ some (number obu_allowed_rtp us))
unfolding av1_obu_count av1_obu_count_rtp
av1_obu_count-stream p fuel us are narrow enough = (
  counted p (λ ty. true) fuel us are narrow enough ∙ ap some (number_all us),
  counted p obu_allowed_rtp fuel us are narrow enough,
)
