-- ===== src/Av1/Pkt/Flags.antt =====
-- The aggregation header: hdr_encode of src/av1/pkt.c and av1_aggr_hdr_decode of src/av1/depack.c.
use re_cpm.Base.{
  ℕ, ◌+◌, ◌*◌, ◌/◌, ◌%◌, ◌^◌, ◌≤◌, ◌<◌, ◌≡◌, refl, arith, ltb, ltb-ge, ◌==◌, Bool, true, false, not,
  List, [], ◌∷◌, bit_and,
}
use re_cpm.Base.Bits.{bit_and-mask, bit_or-add}
use re_cpm.Platform.{Platform}
use re_cpm.Mbuf.{Mbuf, get_left}
use re_cpm.Mbuf.Inv.{IsValid}
use re_cpm.Mbuf.Cursor.{rest}
use re_cpm.Mbuf.Takes.{get_left-of, read_u8-Takes}
use re_cpm.Av1.Obu.{bit_of}
use re_cpm.Av1.Pkt.{hdr_encode, av1_aggr_hdr_decode}

pub bit_of-le : (b : Bool) → bit_of b ≤ 1
bit_of-le true = omega arith
bit_of-le false = omega arith

bit_lem : (v : ℕ) (b : Bool) → v % 2 ≡ bit_of b → not (bit_and v 1 == 0) ≡ b
bit_lem v true e = ground (arith, bit_and-mask 1 v)
bit_lem v false e = ground (arith, bit_and-mask 1 v)

hdr_encode-eq :
    (z y : Bool) (w : ℕ) (n : Bool)
    → w < 4
    → hdr_encode z y w n ≡ bit_of z * 128 + bit_of y * 64 + w * 16 + bit_of n * 8
unfolding hdr_encode
hdr_encode-eq z y w n h =
    let zb = bit_of-le z in
    let yb = bit_of-le y in
    let nb = bit_of-le n in
    let first = bit_or-add 7 (bit_of z) (bit_of y * 2 ^ 6) (omega (arith, yb)) in
    let a : bit_of z * 2 ^ 7 + bit_of y * 2 ^ 6 ≡ (bit_of z * 2 + bit_of y) * 2 ^ 6 = omega arith in
    let second = bit_or-add 6 (bit_of z * 2 + bit_of y) (w * 2 ^ 4) (omega arith) in
    let b : (bit_of z * 2 + bit_of y) * 2 ^ 6 + w * 2 ^ 4
        ≡ (bit_of z * 8 + bit_of y * 4 + w) * 2 ^ 4 =
      omega arith in
    let third =
      bit_or-add 4 (bit_of z * 8 + bit_of y * 4 + w) (bit_of n * 2 ^ 3) (omega (arith, nb)) in
    rw (first, a, second, b, third) (omega (arith, zb, yb, nb))

pub av1_aggr_hdr_decode-encode :
    (p : Platform) (mb : Mbuf) (z y : Bool) (w : ℕ) (n : Bool) (r : List ℕ)
    → IsValid mb
    → w < 4
    → rest mb ≡ hdr_encode z y w n ∷ r
    → let (err, hdr, mb') = av1_aggr_hdr_decode p mb in
      (err ≡ 0) × (hdr ≡ record { z = z; y = y; w = w; n = n }) × (rest mb' ≡ r)
unfolding av1_aggr_hdr_decode
av1_aggr_hdr_decode-encode p mb z y w n r ok h text =
    let v = hdr_encode z y w n in
    let some_left : ltb (get_left mb) 1 ≡ false =
      ltb-ge _ _ (omega (arith, get_left-of mb (v ∷ []) r ok text)) in
    let (byte_is, t) = read_u8-Takes p mb v r ok text in
    let whole = hdr_encode-eq z y w n h in
    let zb = bit_of-le z in
    let yb = bit_of-le y in
    let nb = bit_of-le n in
    let z_is = bit_lem (v / 2 ^ 7) z (omega (arith, whole, zb, yb, nb)) in
    let y_is = bit_lem (v / 2 ^ 6) y (omega (arith, whole, zb, yb, nb)) in
    let n_is = bit_lem (v / 2 ^ 3) n (omega (arith, whole, zb, yb, nb)) in
    let w_is : bit_and (v / 2 ^ 4) 3 ≡ w =
      omega (arith, bit_and-mask 2 (v / 2 ^ 4), whole, zb, yb, nb) in
    rw (some_left, byte_is, z_is, y_is, n_is, w_is) (refl, refl, t.left)
