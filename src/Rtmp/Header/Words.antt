-- ===== src/Rtmp/Header/Words.antt =====
-- The integers of an RTMP header of src/rtmp/hdr.c: 24 bits in network order, and 32 bits that
-- `sys_htoll` puts into little endian.
use re_cpm.Base.{
  ℕ, ◌+◌, ◌*◌, ◌/◌, ◌%◌, ◌^◌, ◌<◌, ◌≡◌, sym, ap, ap₂, subst, ◌∙◌, arith, List, [], ◌∷◌, ◌++◌,
  be_bytes, le_bytes, length-le_bytes, bit_or,
}
use re_cpm.Base.Bits.{bit_or-add}
use re_cpm.Platform.{Platform}
use re_cpm.Mbuf.{Mbuf}
use re_cpm.Mbuf.Ints.{write_int, write_u32, read_u32, read_int, ◌|=◌}
use re_cpm.Mbuf.Inv.{IsValid}
use re_cpm.Mbuf.Cursor.{rest}
use re_cpm.Mbuf.Words.{Appends, Appends-nil, |=-Appends, write_mem-Appends, u8_step}
use re_cpm.Mbuf.Takes.{Takes, Takes-trans, read_mem-Takes, read_u8-Takes}
use re_cpm.Sys.Endian.{sys_htoll, sys_ltohl}
use re_cpm.Sys.Endian.Stored.{host_bytes-sys_htol, sys_ltoh-sys_htol, host_value-le_bytes}
use re_cpm.Rtmp.Header.{write_u24_hton, read_u24_ntoh}

u24_bytes :
    (v : ℕ)
    → v < 2 ^ 24
    → (v / 2 ^ 16 % 2 ^ 8 % 256) ∷ (v / 2 ^ 8 % 2 ^ 8 % 256) ∷ (v % 2 ^ 8 % 256) ∷ [] ≡ be_bytes 3 v
u24_bytes v h =
    ap₂ (λ a t. a ∷ t) (omega arith) (ap₂ (λ a b. a ∷ b ∷ []) (omega arith) (omega arith))

pub write_u24_hton-Appends :
    (p : Platform) (mb : Mbuf) (v : ℕ)
    → v < 2 ^ 24
    → IsValid mb
    → Appends mb (be_bytes 3 v) (write_u24_hton p mb v)
unfolding write_u24_hton
write_u24_hton-Appends p mb v small ok =
    subst (λ bs. Appends mb bs (write_u24_hton p mb v)) (u24_bytes v small)
      (u8_step p mb _ _
        (u8_step p mb _ _ (u8_step p mb _ _ (Appends-nil mb ok) (v / 2 ^ 16 % 2 ^ 8))
          (v / 2 ^ 8 % 2 ^ 8))
        (v % 2 ^ 8))

pub read_u24_ntoh-Takes :
    (p : Platform) (mb : Mbuf) (v : ℕ) (r : List ℕ)
    → IsValid mb
    → v < 2 ^ 24
    → rest mb ≡ be_bytes 3 v ++ r
    → ((read_u24_ntoh p mb).0 ≡ v) × Takes mb 3 r (read_u24_ntoh p mb).1
unfolding read_u24_ntoh
read_u24_ntoh-Takes p mb v r ok small h =
    let a : ℕ = v / 256 / 256 % 256 in
    let b : ℕ = v / 256 % 256 in
    let c : ℕ = v % 256 in
    let (e1, t1) = read_u8-Takes p mb a (b ∷ c ∷ r) ok h in
    let (e2, t2) = read_u8-Takes p _ b (c ∷ r) t1.valid t1.left in
    let (e3, t3) = read_u8-Takes p _ c r t2.valid t2.left in
    let high : bit_or (a * 2 ^ 16) (b * 2 ^ 8) ≡ a * 2 ^ 16 + b * 2 ^ 8 =
      bit_or-add 16 a (b * 2 ^ 8) (omega arith) in
    let scaled : a * 2 ^ 16 + b * 2 ^ 8 ≡ (a * 256 + b) * 2 ^ 8 = omega arith in
    let low : bit_or ((a * 256 + b) * 2 ^ 8) c ≡ (a * 256 + b) * 2 ^ 8 + c =
      bit_or-add 8 (a * 256 + b) c (omega arith) in
    (rw (e1, e2, e3, high, scaled, low) (omega arith), Takes-trans 2 1 (Takes-trans 1 1 t1 t2) t3)

module _ (p : Platform) (mb : Mbuf) (xs : List ℕ) (out : ℕ × Mbuf) (a : Appends mb xs out) where
  -- `err |= mbuf_write_u24_hton(mb, v)`
  pub u24_step :
      (v : ℕ) → v < 2 ^ 24 → Appends mb (xs ++ be_bytes 3 v) (out |= (λ m. write_u24_hton p m v))
  u24_step v h =
      |=-Appends mb xs (be_bytes 3 v) out (λ m. write_u24_hton p m v) a
        (write_u24_hton-Appends p out.1 v h a.valid)

  -- `err |= mbuf_write_u32(mb, sys_htoll(v))`
  pub le32_step :
      (v : ℕ) → Appends mb (xs ++ le_bytes 4 v) (out |= (λ m. write_u32 p m (sys_htoll p.endian v)))
  unfolding write_u32 write_int
  le32_step v =
      let same = (host_bytes-sys_htol p.endian v).1 in
      |=-Appends mb xs (le_bytes 4 v) out (λ m. write_u32 p m (sys_htoll p.endian v)) a
        (rw same
          (write_mem-Appends p out.1 (le_bytes 4 v) a.valid (omega (arith, length-le_bytes 4 v))))

-- `sys_ltohl(mbuf_read_u32(mb))`
pub read_le32-Takes :
    (p : Platform) (mb : Mbuf) (v : ℕ) (r : List ℕ)
    → IsValid mb
    → v < 2 ^ 32
    → rest mb ≡ le_bytes 4 v ++ r
    → (sys_ltohl p.endian (read_u32 p mb).0 ≡ v) × Takes mb 4 r (read_u32 p mb).1
unfolding read_u32 read_int
read_le32-Takes p mb v r ok small h =
    let (z, got, t) = read_mem-Takes mb (le_bytes 4 v) r 4 ok (sym (length-le_bytes 4 v)) h in
    (
      rw (z, got)
          (ap (sys_ltohl p.endian) (host_value-le_bytes p.endian v)
            ∙ (sys_ltoh-sys_htol p.endian 0 v (omega arith) small).1),
      t,
    )
