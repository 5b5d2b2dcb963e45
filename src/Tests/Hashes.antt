-- ===== src/Tests/Hashes.antt =====
-- Runs of src/hash/func.c.
use re_cpm.Base.{ℕ, ◌+◌, if◌then◌else◌, ltb}

-- Capital letters only, as in the C locale.
abbrev lower : ℕ → ℕ
lower c = if ltb 64 c then (if ltb c 91 then c + 32 else c) else c
