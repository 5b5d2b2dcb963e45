-- ===== src/Rtp/Source/Loss.antt =====
-- The receiver's statistics of src/rtp/source.c: the packets lost and the jitter, without wrap.
use re_cpm.Base.{
  ℕ, ◌+◌, ◌-◌, ◌*◌, ◌/◌, ◌≤◌, ◌<◌, ◌^◌, ◌≡◌, ap, ap₂, ◌∙◌, arith, min, ◌==◌, Bool-cases, inl, inr,
}
use native.Mathlib.Nat.{div-lt_iff_lt-mul}
use re_cpm.Base.Int.{pos, pos_part, neg_part, sub_ℕ, ◌-ℤ◌}
use re_cpm.Rtp.Source.{
  Source, expected, signed32, sub32, calc_lost, calc_fraction_lost, calc_jitter, next_jitter,
  fraction,
}
use re_cpm.Rtp.Source.Sequence.{extended}

-- How many packets there should be, without wrap.
abbrev pub expected_packets : Source → ℕ
expected_packets s = extended s - s.base_seq + 1

-- The counters fit an `int`.
pub record IsCounting (s : Source) : Type 0 where
  pub started : s.base_seq ≤ extended s
  pub expected_fits : extended s < 2 ^ 31 - 1
  pub received_fits : s.received < 2 ^ 31

pub expected-eq : (s : Source) → IsCounting s → expected s ≡ expected_packets s
expected-eq s c = omega arith

-- A difference of two numbers below 2^31 as an `int`.
pub signed32-sub32 : (a b : ℕ) → a < 2 ^ 31 → b < 2 ^ 31 → signed32 (sub32 a b) ≡ sub_ℕ a b
signed32-sub32 a b h k = ground arith

-- `rtp_source_calc_lost`, while the counters fit an `int`, is the number of packets that are
-- missing, negative when there are duplicates, held within plus and minus 0x7fffff.
pub calc_lost-eq :
    (s : Source)
    → IsCounting s
    → let e = expected_packets s in
      calc_lost s ≡ sub_ℕ (min (e - s.received) 0x7fffff) (min (s.received - e) 0x7fffff)
unfolding calc_lost
calc_lost-eq s c =
    let e : expected s ≡ expected_packets s = expected-eq s c in
    let d = signed32-sub32 (expected_packets s) s.received (omega (arith, c)) c.received_fits in
    rw (e, d) (ground (arith, c))

fraction-eq :
    (e r : ℕ)
    → 0 < r
    → r ≤ e
    → ((e - r) * 256 / e < 256) × (fraction (pos e) (pos r) ≡ (e - r) * 256 / e)
unfolding fraction ◌-ℤ◌
fraction-eq e r h k =
    let small : (e - r) * 256 / e < 256 = (div-lt_iff_lt-mul (omega arith)).1 (omega arith) in
    (small, ground arith)

-- `rtp_source_calc_fraction_lost`, while the counters fit an `int` and the number that should have
-- come did not go back, when the interval saw a packet, and not more than it should:
-- the fraction is that of the missing packets in the interval, in 256ths rounded down, it fits its
-- byte without wrap, and the next interval starts from the present counts.
pub calc_fraction_lost-eq :
    (s : Source)
    → IsCounting s
    → s.expected_prior ≤ expected_packets s
    → s.received_prior < s.received
    → s.received - s.received_prior ≤ expected_packets s - s.expected_prior
    → let e = expected_packets s - s.expected_prior in
      let r = s.received - s.received_prior in
      let (fraction, s') = calc_fraction_lost s in
      (fraction ≡ (e - r) * 256 / e)
      × ((e - r) * 256 / e < 256)
      × (s' ≡ record s { expected_prior = expected_packets s; received_prior = s.received })
unfolding calc_fraction_lost
calc_fraction_lost-eq s c h k l =
    let e : expected s ≡ expected_packets s = expected-eq s c in
    let ei : signed32 (sub32 (expected s) s.expected_prior)
        ≡ pos (expected_packets s - s.expected_prior) =
      ground (arith, c, e) in
    let ri : signed32 (sub32 s.received s.received_prior) ≡ pos (s.received - s.received_prior) =
      ground (arith, c) in
    let f =
      fraction-eq (expected_packets s - s.expected_prior) (s.received - s.received_prior)
        (omega arith) l in
    (
      ap₂ fraction ei ri ∙ f.1,
      f.0,
      ap (λ x. record s { expected_prior = x; received_prior = s.received }) e,
    )

next_jitter-le :
    (j d bound : ℕ) → d ≤ bound → bound < 2 ^ 27 → j ≤ 16 * bound → next_jitter j d ≤ 16 * bound
unfolding next_jitter
next_jitter-le j d bound h b k = omega arith

-- `rtp_source_calc_jitter` keeps the estimate, which counts sixteenths, within 16 times a bound
-- below 2^27 on the difference of the two transit times.
pub calc_jitter-le :
    (s : Source) (rtp_ts arrival bound : ℕ)
    → let d = signed32 (sub32 arrival rtp_ts) -ℤ s.transit in
      pos_part d + neg_part d ≤ bound
      → bound < 2 ^ 27
      → s.jitter ≤ 16 * bound
      → (calc_jitter s rtp_ts arrival).jitter ≤ 16 * bound
unfolding calc_jitter
calc_jitter-le s rtp_ts arrival bound d b j =
    elim (Bool-cases (pos_part s.transit + neg_part s.transit == 0)) [
      | inl first ↦ rw first j
      | inr later ↦ rw later (next_jitter-le s.jitter _ bound d b j)
    ]
