-- ===== src/Sys/Endian/Stored.antt =====
-- What the conversions of src/sys/endian.c leave in memory, on a host of either byte order.
use re_cpm.Base.{
  ℕ, zero, suc, ◌+◌, ◌*◌, ◌/◌, ◌%◌, ◌^◌, ◌<◌, ◌≤◌, ◌≡◌, refl, sym, ap, ap₂, ◌∙◌, arith, All, IsByte,
  List, [], ◌∷◌, ◌++◌, bit_or, Endian, little, big, host_bytes, host_value, le_bytes, be_bytes,
  le_value, be_value, le_bytes-IsByte, be_bytes-IsByte, le_bytes-le_value, le_value-le_bytes,
  length-le_bytes, length-be_bytes, reverse, reverse-reverse,
}
use native.Mathlib.Nat.{pow-suc, mul-add, mul_comm, mul_assoc, mul-le-mul_right}
use re_cpm.Base.Bits.{bit_and-mask, bit_or-high}
use re_cpm.Sys.Endian.{gather_up, byte_at, sys_htols, sys_htoll, sys_ltohs, sys_ltohl}

pow-eight : (k : ℕ) → 2 ^ (k + 8) ≡ 2 ^ k * 256
pow-eight zero = refl
pow-eight (suc k) =
    let e : suc k + 8 ≡ suc (k + 8) = omega arith in
    ap (λ (n : ℕ). 2 ^ n) e ∙ omega (arith, pow-suc 2 (k + 8), pow-suc 2 k, pow-eight k)

-- One byte more at the low end of a number of `m` parts.
shift_in : (m l b v : ℕ) → b * m + l + m * 256 * v ≡ l + m * (b + 256 * v)
shift_in m l b v = omega (arith, mul-add m b (256 * v), mul_comm b m, mul_assoc m 256 v)

below : (m l b : ℕ) → l < m → b < 256 → b * m + l < m * 256
below m l b h k =
    let top : b ≤ 255 = omega arith in
    let bound : b * m ≤ 255 * m = mul-le-mul_right m top in omega arith

gather_up-eq :
    (k l : ℕ) (bs : List ℕ) → All IsByte bs → l < 2 ^ k → gather_up k l bs ≡ l + 2 ^ k * le_value bs
unfolding gather_up
gather_up-eq k l [] p h = omega arith
gather_up-eq k l (b ∷ bs) p h =
    let e : bit_or l (b * 2 ^ k) ≡ b * 2 ^ k + l = bit_or-high k b l h in
    let small : b * 2 ^ k + l < 2 ^ (k + 8) = omega (arith, below (2 ^ k) l b h p.0, pow-eight k) in
    ap (λ x. gather_up (k + 8) x bs) e
    ∙ gather_up-eq (k + 8) (b * 2 ^ k + l) bs p.1 small
    ∙ ap (λ (m : ℕ). b * 2 ^ k + l + m * le_value bs) (pow-eight k)
    ∙ shift_in (2 ^ k) l b (le_value bs)

byte_at-eq : (v k : ℕ) → byte_at v k ≡ v / 2 ^ k % 256
byte_at-eq v k = bit_and-mask 8 (v / 2 ^ k)

gathered : (bs : List ℕ) → All IsByte bs → gather_up 0 0 bs ≡ le_value bs
gathered bs p = gather_up-eq 0 0 bs p (omega arith) ∙ omega arith

host_bytes-IsByte : (e : Endian) (n v : ℕ) → All IsByte (host_bytes e n v)
unfolding host_bytes
host_bytes-IsByte little n v = le_bytes-IsByte n v
host_bytes-IsByte big n v = be_bytes-IsByte n v

-- The number that the bytes in memory make, the first one lowest, lies in memory lowest byte first.
stored_low_first :
    (e : Endian) (n v : ℕ) → host_bytes e n (le_value (host_bytes e n v)) ≡ le_bytes n v
unfolding host_bytes
stored_low_first little n v =
    le_bytes-le_value (le_bytes n v) n (le_bytes-IsByte n v) (sym (length-le_bytes n v))
stored_low_first big n v =
    ap reverse
      (le_bytes-le_value (be_bytes n v) n (be_bytes-IsByte n v) (sym (length-be_bytes n v)))
    ∙ reverse-reverse (le_bytes n v)

-- `sys_htols` and `sys_htoll` leave the lowest byte first in memory, on a host of either order.
pub host_bytes-sys_htol :
    (e : Endian) (v : ℕ)
    → (host_bytes e 2 (sys_htols e v) ≡ le_bytes 2 v)
      × (host_bytes e 4 (sys_htoll e v) ≡ le_bytes 4 v)
unfolding sys_htols sys_htoll
host_bytes-sys_htol e v = (
  ap (host_bytes e 2) (gathered (host_bytes e 2 v) (host_bytes-IsByte e 2 v))
      ∙ stored_low_first e 2 v,
  ap (host_bytes e 4) (gathered (host_bytes e 4 v) (host_bytes-IsByte e 4 v))
      ∙ stored_low_first e 4 v,
)

-- Four bytes of `v`, the lowest first, as the host loads them.
pub host_value-le_bytes : (e : Endian) (v : ℕ) → host_value e (le_bytes 4 v) ≡ sys_htoll e v
unfolding host_value sys_htoll host_bytes
host_value-le_bytes little v = sym (gathered (le_bytes 4 v) (le_bytes-IsByte 4 v))
host_value-le_bytes big v = sym (gathered (be_bytes 4 v) (be_bytes-IsByte 4 v))

-- What was stored with the lowest byte first is loaded in the order of the host.
loaded :
    (e : Endian) (n v : ℕ) → host_value e (le_bytes n (le_value (host_bytes e n v))) ≡ v % 256 ^ n
unfolding host_bytes host_value
loaded little n v =
    ap le_value
      (le_bytes-le_value (le_bytes n v) n (le_bytes-IsByte n v) (sym (length-le_bytes n v)))
    ∙ le_value-le_bytes n v
loaded big n v =
    ap be_value
      (le_bytes-le_value (be_bytes n v) n (be_bytes-IsByte n v) (sym (length-be_bytes n v)))
    ∙ ap le_value (reverse-reverse (le_bytes n v))
    ∙ le_value-le_bytes n v

scattered_two : (w : ℕ) → byte_at w 0 ∷ byte_at w 8 ∷ [] ≡ le_bytes 2 w
scattered_two w = ap₂ (λ a b. a ∷ b ∷ []) (byte_at-eq w 0 ∙ omega arith) (byte_at-eq w 8)

scattered_four :
    (w : ℕ) → byte_at w 0 ∷ byte_at w 8 ∷ byte_at w 16 ∷ byte_at w 24 ∷ [] ≡ le_bytes 4 w
scattered_four w =
    ap₂ ◌++◌ (scattered_two w)
      (ap₂ (λ a b. a ∷ b ∷ []) (byte_at-eq w 16 ∙ omega arith) (byte_at-eq w 24 ∙ omega arith))

-- `sys_ltohs` undoes `sys_htols` on 16 bits, and `sys_ltohl` undoes `sys_htoll` on 32 bits, on a
-- host of either order.
pub sys_ltoh-sys_htol :
    (e : Endian) (v w : ℕ)
    → v < 2 ^ 16
    → w < 2 ^ 32
    → (sys_ltohs e (sys_htols e v) ≡ v) × (sys_ltohl e (sys_htoll e w) ≡ w)
unfolding sys_htols sys_htoll sys_ltohs sys_ltohl
sys_ltoh-sys_htol e v w h k = (
  ap (host_value e) (
        scattered_two (gather_up 0 0 (host_bytes e 2 v))
        ∙ ap (le_bytes 2) (gathered (host_bytes e 2 v) (host_bytes-IsByte e 2 v)))
      ∙ loaded e 2 v
      ∙ omega arith,
  ap (host_value e) (
        scattered_four (gather_up 0 0 (host_bytes e 4 w))
        ∙ ap (le_bytes 4) (gathered (host_bytes e 4 w) (host_bytes-IsByte e 4 w)))
      ∙ loaded e 4 w
      ∙ omega arith,
)
