-- ===== src/Tests/Streams.antt =====
-- Runs of src/srtp/replay.c and src/rtp/source.c.
use re_cpm.Base.{◌+◌, ◌-◌, ◌*◌, ◌<◌, ◌≤◌, ◌≡◌, refl, arith, true, false, [], ◌∷◌, min}
use re_cpm.Base.Int.{pos, sub_ℕ, ◌-ℤ◌, pos_part, neg_part}
use re_cpm.Srtp.Replay.{init, check, run}
use re_cpm.Srtp.Replay.Window.{check_once, check_new}
use re_cpm.Rtp.Source.{Source, calc_lost, calc_jitter}
use re_cpm.Rtp.Source.Sequence.{extended, IsTracking, stream, receive, receive-stream}
use re_cpm.Rtp.Source.Loss.{IsCounting, calc_lost-eq, calc_jitter-le}

first_permitted : (check (record { bitmap = 5; lix = 9 }) 12).0 ≡ true
unfolding check
first_permitted = refl

check_once_example :
    (check (run (check (record { bitmap = 5; lix = 9 }) 12).1 (100 ∷ 60 ∷ [])) 12).0 ≡ false
check_once_example = check_once (record { bitmap = 5; lix = 9 }) 12 (100 ∷ 60 ∷ []) first_permitted

after_three : (run init (3 ∷ 70 ∷ 68 ∷ [])).lix < 10 + 64
unfolding run check
after_three = omega arith

check_new_example : (check (run init (3 ∷ 70 ∷ 68 ∷ [])) 10).0 ≡ true
check_new_example = check_new 10 (3 ∷ 70 ∷ 68 ∷ []) (omega arith) after_three

abbrev source : Source
source = record {
  max_seq = 65530;
  cycles = 65536;
  base_seq = 100;
  bad_seq = 65537;
  probation = 0;
  received = 50000;
  expected_prior = 130000;
  received_prior = 49500;
  transit = pos 7;
  jitter = 3;
}

source-IsTracking : IsTracking source
source-IsTracking = record { settled = refl; whole = refl; within = omega arith; few = omega arith }

source-IsCounting : IsCounting source
source-IsCounting = omega arith

receive-stream_example :
    let (n, s') = receive source (stream 131066 (3 ∷ 10 ∷ 1 ∷ [])) in
    (n ≡ 3) × (extended s' ≡ 131066 + 14) × IsTracking s'
receive-stream_example =
    receive-stream (3 ∷ 10 ∷ 1 ∷ []) source source-IsTracking (omega arith) (omega arith)

calc_lost-eq_example :
    calc_lost source ≡ sub_ℕ (min (130967 - 50000) 0x7fffff) (min (50000 - 130967) 0x7fffff)
calc_lost-eq_example = calc_lost-eq source source-IsCounting

transit_step : let d = pos 10 -ℤ pos 7 in pos_part d + neg_part d ≤ 5
unfolding ◌-ℤ◌
transit_step = omega arith

calc_jitter-le_example : (calc_jitter source 1000 1010).jitter ≤ 16 * 5
calc_jitter-le_example = calc_jitter-le source 1000 1010 5 transit_step (omega arith) (omega arith)
