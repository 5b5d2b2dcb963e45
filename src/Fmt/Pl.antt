-- ===== src/Fmt/Pl.antt =====
-- src/fmt/pl.c: pointer-length strings. A `struct pl` is an address and a length, and the bytes are
-- those of the memory `m`.
pub mod Numerals
pub mod Signed
use re_cpm.Base.{
  ℕ, zero, suc, ◌+◌, ◌-◌, ◌*◌, ◌%◌, ◌^◌, ltb, leb, ◌==◌, if◌then◌else◌, Bool, true, false, not,
  ◌&&◌, ◌||◌, Option, none, some,
}
use re_cpm.Base.Int.{ℤ, pos, negsuc}
use re_cpm.Fmt.Chars.{between}

-- `struct pl`
pub record Pl : Type 0 where
  pub p : ℕ
  pub l : ℕ

-- `*--p - '0'` as a `uint8_t`, no more than 9
unfoldable pub dec_digit : ℕ → Option ℕ
dec_digit ch = let c = (ch + 256 - b'0') % 256 in if ltb 9 c then none else some c

unfoldable pub hex_digit : ℕ → Option ℕ
hex_digit ch =
    if between b'0' b'9' ch
    then some (ch - b'0')
    else if between b'A' b'F' ch
    then some (ch - b'A' + 10)
    else if between b'a' b'f' ch
    then some (ch - b'a' + 10)
    else none

-- The loop of pl_u32, pl_x32, pl_u64 and pl_x64: `n` characters are left, and the numbers have `w`
-- bits.
unfoldable pub number_loop : ℕ → ℕ → (ℕ → Option ℕ) → (ℕ → ℕ) → ℕ → ℕ → ℕ → ℕ → ℕ
number_loop w base digit m p zero v mul = v
number_loop w base digit m p (suc n) v mul = elim (digit (m (p + n))) [
  | none ↦ 0
  | some c ↦ number_loop w base digit m p n ((v + mul * c % 2 ^ w) % 2 ^ w) (mul * base % 2 ^ w)
]

unfoldable pub pl_u32 : (ℕ → ℕ) → Pl → ℕ
pl_u32 m pl = if pl.p == 0 then 0 else number_loop 32 10 dec_digit m pl.p pl.l 0 1

unfoldable pub pl_x32 : (ℕ → ℕ) → Pl → ℕ
pl_x32 m pl = if pl.p == 0 then 0 else number_loop 32 16 hex_digit m pl.p pl.l 0 1

unfoldable pub pl_u64 : (ℕ → ℕ) → Pl → ℕ
pl_u64 m pl = if pl.p == 0 then 0 else number_loop 64 10 dec_digit m pl.p pl.l 0 1

unfoldable pub pl_x64 : (ℕ → ℕ) → Pl → ℕ
pl_x64 m pl = if pl.p == 0 then 0 else number_loop 64 16 hex_digit m pl.p pl.l 0 1

-- The loop of pl_i32 and pl_i64: whether there is a minus, and `v`, in two's complement. `none`
-- stands for the return in the middle.
unfoldable pub signed_loop : ℕ → (ℕ → ℕ) → ℕ → ℕ → ℕ → ℕ → Option (Bool × ℕ)
signed_loop w m p zero v mul = some (false, v)
signed_loop w m p (suc n) v mul =
    let ch = m (p + n) in
    let more =
      signed_loop w m p n ((v + (2 ^ w - mul * (ch - b'0') % 2 ^ w)) % 2 ^ w) (mul * 10 % 2 ^ w) in
    if between b'0' b'9' ch
    then more
    else if (ch == b'-') && (n == 0)
    then some (true, v)
    else if (ch == b'+') && (n == 0)
    then some (false, v)
    else none

-- A word of `w` bits as a signed number.
unfoldable pub to_signed : ℕ → ℕ → ℤ
to_signed w v = if ltb v (2 ^ (w - 1)) then pos v else negsuc (2 ^ w - 1 - v)

-- What follows the loop: `neg ? v : -v`, and INT_MIN as it is.
unfoldable pub with_sign : ℕ → Option (Bool × ℕ) → ℤ
with_sign w none = pos 0
with_sign w (some (neg, v)) =
    if not neg && (v == 2 ^ (w - 1))
    then to_signed w (2 ^ (w - 1))
    else to_signed w (if neg then v else (2 ^ w - v) % 2 ^ w)

unfoldable pub pl_i32 : (ℕ → ℕ) → Pl → ℤ
pl_i32 m pl = if pl.p == 0 then pos 0 else with_sign 32 (signed_loop 32 m pl.p pl.l 0 1)

unfoldable pub pl_i64 : (ℕ → ℕ) → Pl → ℤ
pl_i64 m pl = if pl.p == 0 then pos 0 else with_sign 64 (signed_loop 64 m pl.p pl.l 0 1)
