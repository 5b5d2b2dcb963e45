-- ===== src/Rtp/Source.antt =====
-- src/rtp/source.c: the validity of a source's sequence numbers (RFC 3550, A.1) and its statistics
-- (A.3, A.8). A C `int` is its bit pattern of 32 bits, as `ℤ` where its sign counts.
pub mod Sequence
pub mod Loss
use re_cpm.Base.{
  ℕ, ◌+◌, ◌-◌, ◌*◌, ◌/◌, ◌%◌, ◌^◌, ltb, leb, ◌==◌, if◌then◌else◌, Bool, true, false, ◌||◌, bit_and,
}
use re_cpm.Base.Int.{ℤ, pos, negsuc, pos_part, neg_part, ◌-ℤ◌, ltb_ℤ}

-- `struct rtp_source` of include/re/re_rtp.h, the fields that this file uses.
pub record Source : Type 0 where
  pub max_seq : ℕ
  pub cycles : ℕ
  pub base_seq : ℕ
  pub bad_seq : ℕ
  pub probation : ℕ
  pub received : ℕ
  pub expected_prior : ℕ
  pub received_prior : ℕ
  pub transit : ℤ
  pub jitter : ℕ

abbrev pub rtp_seq_mod : ℕ
rtp_seq_mod = 2 ^ 16

abbrev pub max_dropout : ℕ
max_dropout = 3000

abbrev pub max_misorder : ℕ
max_misorder = 100

abbrev pub min_sequential : ℕ
min_sequential = 2

unfoldable pub init_seq : Source → ℕ → Source
init_seq s seq = record s {
  base_seq = seq;
  max_seq = seq;
  bad_seq = rtp_seq_mod + 1;
  cycles = 0;
  received = 0;
  received_prior = 0;
  expected_prior = 0;
}

-- `s->received++; return 1;`
abbrev pub accept : Source → ℕ × Source
accept s = (1, record s { received = (s.received + 1) % 2 ^ 32 })

-- `uint16_t udelta = seq - s->max_seq`
abbrev pub udelta : Source → ℕ → ℕ
udelta s seq = (seq + rtp_seq_mod - s.max_seq) % rtp_seq_mod

-- A source on probation. The sum is an `int`: 65536 is no sequence number.
unfoldable pub update_probation : Source → ℕ → ℕ × Source
unfolding init_seq
update_probation s seq =
    if seq == s.max_seq + 1
    then (let s' = record s { probation = s.probation - 1; max_seq = seq } in
        if s'.probation == 0 then accept (init_seq s' seq) else (0, s'))
    else (0, record s { probation = min_sequential - 1; max_seq = seq })

-- `rtp_source_update_seq`: 1 if the packet counts, and the new state.
unfoldable pub update_seq : Source → ℕ → ℕ × Source
unfolding update_probation init_seq
update_seq s seq =
    if ltb 0 s.probation
    then update_probation s seq
    else if ltb (udelta s seq) max_dropout
    then accept (record s {
      cycles = if ltb seq s.max_seq then (s.cycles + rtp_seq_mod) % 2 ^ 32 else s.cycles;
      max_seq = seq;
    })
    else if leb (udelta s seq) (rtp_seq_mod - max_misorder)
    then (if seq == s.bad_seq
        then accept (init_seq s seq)
        else (0, record s { bad_seq = bit_and (seq + 1) (rtp_seq_mod - 1) }))
    else accept s

-- A pattern of 32 bits as an `int`.
abbrev pub signed32 : ℕ → ℤ
signed32 w = if ltb w (2 ^ 31) then pos w else negsuc (2 ^ 32 - 1 - w)

abbrev pub sub32 : ℕ → ℕ → ℕ
sub32 a b = (a + 2 ^ 32 - b) % 2 ^ 32

-- `s->jitter += d - ((s->jitter + 8) >> 4)`
unfoldable pub next_jitter : ℕ → ℕ → ℕ
next_jitter jitter d = (jitter + sub32 d ((jitter + 8) % 2 ^ 32 / 2 ^ 4)) % 2 ^ 32

-- `rtp_source_calc_jitter`; the difference of two transit times is taken to be an `int`.
unfoldable pub calc_jitter : Source → ℕ → ℕ → Source
unfolding ◌-ℤ◌ next_jitter
calc_jitter s rtp_ts arrival =
    let transit = signed32 (sub32 arrival rtp_ts) in
    let d = transit -ℤ s.transit in
    if pos_part s.transit + neg_part s.transit == 0
    then record s { transit = transit }
    else record s { transit = transit; jitter = next_jitter s.jitter (pos_part d + neg_part d) }

-- `extended_max - s->base_seq + 1`, modulo 2^32
abbrev pub expected : Source → ℕ
expected s = (sub32 ((s.cycles + s.max_seq) % 2 ^ 32) s.base_seq + 1) % 2 ^ 32

-- `rtp_source_calc_lost`
unfoldable pub calc_lost : Source → ℤ
calc_lost s =
    let lost = signed32 (sub32 (expected s) s.received) in
    if ltb_ℤ (pos 0x7fffff) lost
    then pos 0x7fffff
    else if ltb_ℤ lost (negsuc 0x7ffffe)
    then negsuc 0x7ffffe
    else lost

-- A positive `int` divided by another that is not 0, and put into a byte: C rounds towards 0, and takes the low bits.
abbrev pub div_byte : ℕ → ℤ → ℕ
div_byte a b =
    let q = a / (pos_part b + neg_part b) % 256 in if (pos_part b == 0) then (256 - q) % 256 else q

-- The lost part of an interval, in 256ths.
unfoldable pub fraction : ℤ → ℤ → ℕ
unfolding ◌-ℤ◌
fraction expected_interval received_interval =
    let lost_interval = expected_interval -ℤ received_interval in
    if pos_part expected_interval + neg_part expected_interval == 0 || pos_part lost_interval == 0
    then 0
    else div_byte (pos_part lost_interval * 2 ^ 8) expected_interval

-- `rtp_source_calc_fraction_lost`: the fraction, and the state with the new interval.
unfoldable pub calc_fraction_lost : Source → ℕ × Source
unfolding fraction
calc_fraction_lost s = (
  fraction (signed32 (sub32 (expected s) s.expected_prior))
      (signed32 (sub32 s.received s.received_prior)),
  record s { expected_prior = expected s; received_prior = s.received },
)
