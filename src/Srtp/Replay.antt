-- ===== src/Srtp/Replay.antt =====
-- src/srtp/replay.c: which packet indices have been seen, in a window of 64 behind the highest.
pub mod Window
use re_cpm.Base.{
  ℕ, ◌+◌, ◌-◌, ◌*◌, ◌%◌, ◌^◌, ltb, leb, ◌==◌, if◌then◌else◌, Bool, true, false, not, bit_and,
  bit_or, List, [], ◌∷◌,
}

-- `struct replay`: bit `d` of the map stands for the index `lix - d`.
pub record Replay : Type 0 where
  pub bitmap : ℕ
  pub lix : ℕ

abbrev pub srtp_window_size : ℕ
srtp_window_size = 64

-- `srtp_replay_init`
abbrev pub init : Replay
init = record { bitmap = 0; lix = 0 }

-- `srtp_replay_check`: whether the packet is permitted, and the new state.
unfoldable pub check : Replay → ℕ → Bool × Replay
check r ix =
    if ltb r.lix ix
    then (let diff = ix - r.lix in
        (
          true,
          record {
            bitmap =
                if ltb diff srtp_window_size then bit_or (r.bitmap * 2 ^ diff % 2 ^ 64) 1 else 1;
            lix = ix;
          },
        ))
    else (let diff = r.lix - ix in
        if leb srtp_window_size diff
        then (false, r)
        else if not (bit_and r.bitmap (2 ^ diff % 2 ^ 64) == 0)
        then (false, r)
        else (true, record r { bitmap = bit_or r.bitmap (2 ^ diff % 2 ^ 64) }))

-- A stream of packets, one after the other.
unfoldable pub run : Replay → List ℕ → Replay
run r [] = r
run r (ix ∷ ixs) = run (check r ix).1 ixs
