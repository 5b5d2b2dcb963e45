-- ===== src/Base/Bits.antt =====
-- The bit operations of C as arithmetic: masks of k ones, and the union of disjoint bits.
use Prim.Native.Nat.{ℕ, zero, suc, ◌+◌, ◌-◌, ◌*◌, ◌/◌, ◌%◌, ◌^◌, ◌≤◌, ◌<◌, min, max}
use Prim.Native.Nat.{bit_and, bit_or, digits, bit_and-bitwise, bit_or-bitwise}
use mathlib.Core.Path.{◌≡◌, refl, ap, ap₂, sym, ◌∙◌}
use native.Mathlib.Omega.{arith}
use native.Mathlib.Nat.{
  pow-suc, div-add-mod, mod-lt, mod-eq_of_lt, mul-add-mod_self_left, div-div-eq-div-mul,
}

-- The digits do not depend on the fuel, if it is no less than the first argument.
module _ (left : ℕ → ℕ) (op : ℕ → ℕ → ℕ) where
  same_digits : (a b n k : ℕ) → a ≤ k → a ≤ n → digits left op k a b ≡ digits left op n a b
  same_digits zero b zero zero l h = refl
  same_digits zero b (suc n) zero l h = refl
  same_digits zero b zero (suc k) l h = refl
  same_digits zero b (suc n) (suc k) l h = refl
  same_digits (suc a) b n zero l h = absurd (omega arith)
  same_digits (suc a) b zero (suc k) l h = absurd (omega arith)
  same_digits (suc a) b (suc n) (suc k) l h =
      ap (λ (d : ℕ). d * 2 + op (suc a % 2) (b % 2))
        (same_digits (suc a / 2) (b / 2) n k (omega arith) (omega arith))

pub zero-bit_and : (b : ℕ) → bit_and 0 b ≡ 0
zero-bit_and b = bit_and-bitwise 0 b

-- The union, one digit at a time.
pub zero-bit_or : (b : ℕ) → bit_or 0 b ≡ b
zero-bit_or b = bit_or-bitwise 0 b

pub bit_or_step : (x y : ℕ) → bit_or x y ≡ max (x % 2) (y % 2) + 2 * bit_or (x / 2) (y / 2)
bit_or_step zero y = omega (arith, zero-bit_or (y / 2), zero-bit_or y)
bit_or_step (suc x) y = omega (
  arith,
  same_digits (λ d. d) max (suc x / 2) (y / 2) (suc x / 2) x (omega arith) (omega arith),
  bit_or-bitwise (suc x / 2) (y / 2),
  bit_or-bitwise (suc x) y,
)

-- The intersection, one digit at a time.
pub bit_and_step : (x y : ℕ) → bit_and x y ≡ min (x % 2) (y % 2) + 2 * bit_and (x / 2) (y / 2)
bit_and_step zero y = omega (arith, zero-bit_and (y / 2), zero-bit_and y)
bit_and_step (suc x) y = omega (
  arith,
  same_digits (λ d. zero) min (suc x / 2) (y / 2) (suc x / 2) x (omega arith) (omega arith),
  bit_and-bitwise (suc x / 2) (y / 2),
  bit_and-bitwise (suc x) y,
)

-- Zero on the right, below a bound on the other number.
no_common_bits : (x bound : ℕ) → x < suc bound → (bit_and x 0 ≡ 0) × (bit_or x 0 ≡ x)
no_common_bits zero bound h = (refl, refl)
no_common_bits (suc x) zero h = absurd (omega arith)
no_common_bits (suc x) (suc bound) h =
    let half = no_common_bits (suc x / 2) bound (omega arith) in
    (omega (arith, half.0, bit_and_step (suc x) 0), omega (arith, half.1, bit_or_step (suc x) 0))

pub bit_and-zero : (a : ℕ) → bit_and a 0 ≡ 0
bit_and-zero a = (no_common_bits a a (omega arith)).0

pub bit_or-zero : (a : ℕ) → bit_or a 0 ≡ a
bit_or-zero a = (no_common_bits a a (omega arith)).1

pub two-pow-pos : (k : ℕ) → 0 < 2 ^ k
two-pow-pos zero = omega arith
two-pow-pos (suc k) = omega (arith, two-pow-pos k, pow-suc 2 k)

-- The digits of `a` in base 2, the lowest apart.
pub mod-double : (a m : ℕ) → 0 < m → a % (m * 2) ≡ (a / 2 % m) * 2 + a % 2
mod-double a m h =
    let low : ℕ = a / 2 % m * 2 + a % 2 in
    let e : a ≡ m * 2 * (a / 2 / m) + low = omega (arith, div-add-mod (a / 2) m) in
    let small : low < m * 2 = omega (arith, mod-lt (a / 2) h) in
    ap (λ x. x % (m * 2)) e ∙ mul-add-mod_self_left (m * 2) (a / 2 / m) low ∙ mod-eq_of_lt small

-- A mask of k ones keeps the k low bits.
pub bit_and-mask : (k a : ℕ) → bit_and a (2 ^ k - 1) ≡ a % 2 ^ k
bit_and-mask zero a = omega (arith, bit_and-zero a)
bit_and-mask (suc k) a =
    let half : (2 ^ suc k - 1) / 2 ≡ 2 ^ k - 1 = omega (arith, two-pow-pos k, pow-suc 2 k) in
    omega (
      arith,
      two-pow-pos k,
      pow-suc 2 k,
      bit_and_step a (2 ^ suc k - 1),
      ap (bit_and (a / 2)) half,
      bit_and-mask k (a / 2),
      ap (λ (m : ℕ). a % m) (pow-suc 2 k),
      mod-double a (2 ^ k) (two-pow-pos k),
    )

-- Bits that do not meet: the union is the sum.
pub bit_or-add : (k a b : ℕ) → b < 2 ^ k → bit_or (a * 2 ^ k) b ≡ a * 2 ^ k + b
bit_or-add zero a b h = let e : b ≡ 0 = omega arith in rw (e, bit_or-zero) (omega arith)
bit_or-add (suc k) a b h =
    let e : a * 2 ^ suc k ≡ a * 2 ^ k * 2 = rw pow-suc (omega arith) in
    let half : (a * 2 ^ k * 2) / 2 ≡ a * 2 ^ k = omega arith in
    rw e (
      omega (
        arith,
        pow-suc 2 k,
        bit_or_step (a * 2 ^ k * 2) b,
        ap (λ (x : ℕ). bit_or x (b / 2)) half,
        bit_or-add k a (b / 2) (omega (arith, pow-suc 2 k)),
      ))

le-bit_or_fuel : (n a b : ℕ) → a ≤ n → a ≤ bit_or a b
le-bit_or_fuel n zero b h = omega arith
le-bit_or_fuel zero (suc a) b h = absurd (omega arith)
le-bit_or_fuel (suc n) (suc a) b h =
    omega (arith, bit_or_step (suc a) b, le-bit_or_fuel n (suc a / 2) (b / 2) (omega arith))

-- `err |= e`: the result is 0 only if both are.
pub bit_or-eq_zero : (a b : ℕ) → bit_or a b ≡ 0 → (a ≡ 0) × (b ≡ 0)
bit_or-eq_zero a b h =
    let first : a ≡ 0 = omega (arith, le-bit_or_fuel a a b (omega arith)) in
    (first, sym (zero-bit_or b) ∙ ap (λ x. bit_or x b) (sym first) ∙ h)

-- A mask that begins at bit `k` looks at the bits from there on.
pub bit_and-shift : (k a b : ℕ) → bit_and a (b * 2 ^ k) ≡ bit_and (a / 2 ^ k) b * 2 ^ k
bit_and-shift zero a b =
    let one : b * 2 ^ 0 ≡ b = omega arith in
    let same : a / 2 ^ 0 ≡ a = omega arith in rw (one, same) (omega arith)
bit_and-shift (suc k) a b =
    let e : b * 2 ^ suc k ≡ b * 2 ^ k * 2 = rw pow-suc (omega arith) in
    let half : b * 2 ^ k * 2 / 2 ≡ b * 2 ^ k = omega arith in
    let m : ℕ = bit_and (a / 2 / 2 ^ k) b in
    let quotient : a / 2 / 2 ^ k ≡ a / 2 ^ suc k =
      div-div-eq-div-mul a 2 (2 ^ k) ∙ ap (λ t. a / t) (omega (arith, pow-suc 2 k)) in
    rw (e, ← quotient)
      (bit_and_step a (b * 2 ^ k * 2)
        ∙ omega (
          arith,
          ap (bit_and (a / 2)) half,
          bit_and-shift k (a / 2) b,
          ap (λ (t : ℕ). m * t) (pow-suc 2 k),
        ))

-- A union above bit `k` leaves the bits below it.
pub bit_or-split :
    (k a b x : ℕ) → x < 2 ^ k → bit_or (a * 2 ^ k + x) (b * 2 ^ k) ≡ bit_or a b * 2 ^ k + x
bit_or-split zero a b x h =
    let e : a * 2 ^ 0 + x ≡ a = omega arith in
    let f : b * 2 ^ 0 ≡ b = omega arith in rw (e, f) (omega arith)
bit_or-split (suc k) a b x h =
    let m : ℕ = bit_or a b in
    let e : a * 2 ^ suc k + x ≡ a * 2 ^ k * 2 + x = rw pow-suc (omega arith) in
    let f : b * 2 ^ suc k ≡ b * 2 ^ k * 2 = rw pow-suc (omega arith) in
    let ea : (a * 2 ^ k * 2 + x) / 2 ≡ a * 2 ^ k + x / 2 = omega arith in
    let eb : b * 2 ^ k * 2 / 2 ≡ b * 2 ^ k = omega arith in
    rw (e, f)
      (bit_or_step (a * 2 ^ k * 2 + x) (b * 2 ^ k * 2)
        ∙ omega (
          arith,
          ap₂ bit_or ea eb,
          bit_or-split k a b (x / 2) (omega (arith, pow-suc 2 k)),
          ap (λ (t : ℕ). m * t) (pow-suc 2 k),
        ))

-- Bits above `k` join what lies below.
pub bit_or-high : (k b x : ℕ) → x < 2 ^ k → bit_or x (b * 2 ^ k) ≡ b * 2 ^ k + x
bit_or-high k b x h =
    let e : 0 * 2 ^ k + x ≡ x = omega arith in
    ap (λ t. bit_or t (b * 2 ^ k)) (sym e)
    ∙ bit_or-split k 0 b x h
    ∙ ap (λ t. t * 2 ^ k + x) (zero-bit_or b)

-- A mask of one bit.
pub bit_and-one_bit : (k v : ℕ) → bit_and v (2 ^ k) ≡ v / 2 ^ k % 2 * 2 ^ k
bit_and-one_bit k v =
    let e : 1 * 2 ^ k ≡ 2 ^ k = omega arith in
    ap (bit_and v) (sym e) ∙ bit_and-shift k v 1 ∙ ap (λ t. t * 2 ^ k) (bit_and-mask 1 (v / 2 ^ k))
