-- ===== src/Sys/Endian.antt =====
-- src/sys/endian.c: conversions between the byte order of the host and the two fixed ones.
pub mod Stored
use re_cpm.Base.{
  ℕ, ◌+◌, ◌*◌, ◌/◌, ◌^◌, List, [], ◌∷◌, length, bit_and, bit_or, Endian, host_bytes, host_value,
}

-- `l |= *p++ << k`, the shifts growing by 8 from byte to byte
unfoldable pub gather_up : ℕ → ℕ → List ℕ → ℕ
gather_up k l [] = l
gather_up k l (b ∷ bs) = gather_up (k + 8) (bit_or l (b * 2 ^ k)) bs

-- `h |= *p++ << k`, the shifts falling to 0 at the last byte
unfoldable pub gather_down : ℕ → List ℕ → ℕ
gather_down h [] = h
gather_down h (b ∷ bs) = gather_down (bit_or h (b * 2 ^ (8 * length bs))) bs

-- `v >> k & 0xff`
abbrev pub byte_at : ℕ → ℕ → ℕ
byte_at v k = bit_and (v / 2 ^ k) 0xff

unfoldable pub sys_htols : Endian → ℕ → ℕ
sys_htols e v = gather_up 0 0 (host_bytes e 2 v)

unfoldable pub sys_htoll : Endian → ℕ → ℕ
sys_htoll e v = gather_up 0 0 (host_bytes e 4 v)

unfoldable pub sys_ltohs : Endian → ℕ → ℕ
sys_ltohs e v = host_value e (byte_at v 0 ∷ byte_at v 8 ∷ [])

unfoldable pub sys_ltohl : Endian → ℕ → ℕ
sys_ltohl e v = host_value e (byte_at v 0 ∷ byte_at v 8 ∷ byte_at v 16 ∷ byte_at v 24 ∷ [])

unfoldable pub sys_htonll : Endian → ℕ → ℕ
sys_htonll e v = gather_down 0 (host_bytes e 8 v)

unfoldable pub sys_ntohll : Endian → ℕ → ℕ
sys_ntohll e v = host_value e (
    byte_at v 56
    ∷ byte_at v 48
    ∷ byte_at v 40
    ∷ byte_at v 32
    ∷ byte_at v 24
    ∷ byte_at v 16
    ∷ byte_at v 8
    ∷ byte_at v 0
    ∷ [])
