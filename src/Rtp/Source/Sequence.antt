-- ===== src/Rtp/Source/Sequence.antt =====
-- What `rtp_source_update_seq` of src/rtp/source.c makes of a stream of sequence numbers.
use re_cpm.Base.{
  ◌≢◌, ℕ, ◌+◌, ◌-◌, ◌%◌, ◌≤◌, ◌<◌, ◌^◌, ◌≡◌, refl, ap, ◌∙◌, arith, List, [], ◌∷◌, length, bit_and,
}
use re_cpm.Base.Bits.{bit_and-mask}
use re_cpm.Rtp.Source.{Source, init_seq, accept, udelta, update_seq}

-- The extended sequence number: cycles of 2^16, and the highest number in the current one.
abbrev pub extended : Source → ℕ
extended s = s.cycles + s.max_seq

-- A source past its probation, whose cycles are whole.
pub record IsTracking (s : Source) : Type 0 where
  pub settled : s.probation ≡ 0
  pub whole : s.cycles % 2 ^ 16 ≡ 0
  pub within : s.max_seq < 2 ^ 16
  pub few : s.received < 2 ^ 32

-- A packet whose extended number is less than 3000 ahead counts, and its number becomes the
-- highest, over a wrap of the 16 bits too.
pub extended-update_seq :
    (s : Source) (k : ℕ)
    → IsTracking s
    → k < 3000
    → extended s + k < 2 ^ 32
    → let (ok, s') = update_seq s ((extended s + k) % 2 ^ 16) in
      (ok ≡ 1)
      × (extended s' ≡ extended s + k)
      × IsTracking s'
      × (s'.base_seq ≡ s.base_seq)
      × (s'.received ≡ (s.received + 1) % 2 ^ 32)
unfolding update_seq
extended-update_seq s k t h l = ground arith

-- For a source past its probation, a packet that is 1 to 99 behind the highest counts, and changes
-- nothing but the number of packets received.
pub update_seq_reordered :
    (s : Source) (k : ℕ)
    → IsTracking s
    → 0 < k
    → k < 100
    → update_seq s ((s.max_seq + 2 ^ 16 - k) % 2 ^ 16) ≡ accept s
unfolding update_seq
update_seq_reordered s k t h l = ground arith

-- For a source past its probation, a packet 3000 or more ahead and more than 100 behind is dropped
-- unless it is the expected one, and its successor is then expected; the source is otherwise as it
-- was. When the successor comes next, the source starts anew from it.
pub update_seq_restart :
    (s : Source) (seq : ℕ)
    → IsTracking s
    → seq < 2 ^ 16
    → 3000 ≤ udelta s seq
    → udelta s seq < 2 ^ 16 - 100
    → seq ≢ s.bad_seq
    → let (first, s') = update_seq s seq in
      let next = (seq + 1) % 2 ^ 16 in
      (first ≡ 0)
      × (s' ≡ record s { bad_seq = next })
      × (update_seq s' next ≡ accept (init_seq s' next))
unfolding update_seq
update_seq_restart s seq t b h l n =
    let mask : bit_and (seq + 1) 65535 ≡ (seq + 1) % 2 ^ 16 = bit_and-mask 16 (seq + 1) in
    let first : update_seq s seq ≡ (0, record s { bad_seq = (seq + 1) % 2 ^ 16 }) =
      ground (arith, mask) in
    (
      ap (λ r. r.0) first,
      ap (λ r. r.1) first,
      ap (λ r. update_seq r.1 ((seq + 1) % 2 ^ 16)) first ∙ ground arith,
    )

-- The packets of one stream, each so many numbers ahead of the highest before it.
abbrev pub stream : ℕ → List ℕ → List ℕ
stream n [] = []
stream n (k ∷ ks) = (n + k) % 2 ^ 16 ∷ stream (n + k) ks

-- All packets of a stream are handed to the source; how many count, and the state.
abbrev pub receive : Source → List ℕ → ℕ × Source
receive s [] = (0, s)
receive s (seq ∷ seqs) =
    let (ok, s') = update_seq s seq in let (n, s'') = receive s' seqs in (ok + n, s'')

abbrev pub total : List ℕ → ℕ
total [] = 0
total (k ∷ ks) = k + total ks

abbrev pub AllBelow : ℕ → List ℕ → Type 0
AllBelow n [] = Unit
AllBelow n (k ∷ ks) = (k < n) × AllBelow n ks

-- For a source past its probation, every packet of a stream with steps below 3000 counts, and the
-- source ends at the extended number of the last one, however often the 16 bits wrapped, as long as
-- that fits 32 bits.
pub receive-stream :
    (ks : List ℕ) (s : Source)
    → IsTracking s
    → AllBelow 3000 ks
    → extended s + total ks < 2 ^ 32
    → let (n, s') = receive s (stream (extended s) ks) in
      (n ≡ length ks) × (extended s' ≡ extended s + total ks) × IsTracking s'
receive-stream [] s t a l = (refl, omega arith, t)
receive-stream (k ∷ ks) s t (small, a) l =
    let (one, at, t', _, _) = extended-update_seq s k t small (omega arith) in
    let s' = (update_seq s ((extended s + k) % 2 ^ 16)).1 in
    let (n, end, t'') = receive-stream ks s' t' a (omega arith) in
    let same : stream (extended s') ks ≡ stream (extended s + k) ks = ap (λ x. stream x ks) at in
    rw (← same) (omega (arith, one, n), omega arith, t'')
