-- ===== src/Base/TestBit.antt =====
-- Single bits of a word: how a mask reads one, a union sets one, and a shift moves them.
use Prim.Native.Nat.{ℕ, zero, suc, ◌+◌, ◌*◌, ◌/◌, ◌%◌, ◌^◌, ◌<◌, max, bit_and, bit_or}
use mathlib.Core.Path.{◌≡◌, refl, ap, ◌∙◌}
use mathlib.Core.Logic.{◌≢◌}
use native.Mathlib.Omega.{arith}
use native.Mathlib.Nat.{pow-suc}
use re_cpm.Base.Bits.{bit_and_step, bit_or_step, bit_and-zero, two-pow-pos, mod-double}

abbrev pub bit : ℕ → ℕ → ℕ
bit a zero = a % 2
bit a (suc k) = bit (a / 2) k

pub bit-lt : (a k : ℕ) → bit a k < 2
bit-lt a zero = omega arith
bit-lt a (suc k) = bit-lt (a / 2) k

pub zero-bit : (k : ℕ) → bit 0 k ≡ 0
zero-bit zero = refl
zero-bit (suc k) = zero-bit k

half-pow : (k : ℕ) → 2 ^ suc k / 2 ≡ 2 ^ k
half-pow k = omega (arith, pow-suc 2 k)

-- `a & (1 << k)` is not 0 exactly if the bit is set.
pub bit_and-pow : (k a : ℕ) → bit_and a (2 ^ k) ≡ bit a k * 2 ^ k
bit_and-pow zero a = omega (arith, bit_and_step a 1, bit_and-zero (a / 2))
bit_and-pow (suc k) a = omega (
  arith,
  pow-suc 2 k,
  ap (λ (t : ℕ). bit (a / 2) k * t) (pow-suc 2 k),
  bit_and_step a (2 ^ suc k),
  ap (bit_and (a / 2)) (half-pow k),
  bit_and-pow k (a / 2),
)

pub bit-bit_or : (a b k : ℕ) → bit (bit_or a b) k ≡ max (bit a k) (bit b k)
bit-bit_or a b zero = omega (arith, bit_or_step a b)
bit-bit_or a b (suc k) =
    let half : bit_or a b / 2 ≡ bit_or (a / 2) (b / 2) = omega (arith, bit_or_step a b) in
    ap (λ x. bit x k) half ∙ bit-bit_or (a / 2) (b / 2) k

pub bit-pow_self : (k : ℕ) → bit (2 ^ k) k ≡ 1
bit-pow_self zero = refl
bit-pow_self (suc k) = ap (λ x. bit x k) (half-pow k) ∙ bit-pow_self k

pub bit-pow_ne : (k j : ℕ) → k ≢ j → bit (2 ^ k) j ≡ 0
bit-pow_ne zero zero h = absurd (h refl)
bit-pow_ne zero (suc j) h = zero-bit j
bit-pow_ne (suc k) zero h = omega (arith, pow-suc 2 k)
bit-pow_ne (suc k) (suc j) h = ap (λ x. bit x j) (half-pow k) ∙ bit-pow_ne k j (λ e. h (ap suc e))

half-shift : (a d : ℕ) → a * 2 ^ suc d / 2 ≡ a * 2 ^ d
half-shift a d =
    let e : a * 2 ^ suc d ≡ a * 2 ^ d * 2 = rw pow-suc (omega arith) in omega (arith, e)

-- `a << d`: the bits move up, and zeros come in.
pub bit-shift : (d a k j : ℕ) → d + k ≡ j → bit (a * 2 ^ d) j ≡ bit a k
bit-shift zero a k j e =
    let one : a * 2 ^ 0 ≡ a = omega arith in let same : j ≡ k = omega arith in rw (one, same)
bit-shift (suc d) a k zero e = absurd (omega arith)
bit-shift (suc d) a k (suc j) e =
    ap (λ x. bit x j) (half-shift a d) ∙ bit-shift d a k j (omega arith)

pub bit-shift_low : (d a k : ℕ) → k < d → bit (a * 2 ^ d) k ≡ 0
bit-shift_low zero a k h = absurd (omega arith)
bit-shift_low (suc d) a zero h = omega (arith, ap (λ (t : ℕ). a * t) (pow-suc 2 d))
bit-shift_low (suc d) a (suc k) h =
    ap (λ x. bit x k) (half-shift a d) ∙ bit-shift_low d a k (omega arith)

-- A word of `w` bits keeps its bits below `w`.
pub bit-mod : (w a k : ℕ) → k < w → bit (a % 2 ^ w) k ≡ bit a k
bit-mod zero a k h = absurd (omega arith)
bit-mod (suc w) a zero h =
    let e : a % 2 ^ suc w ≡ a / 2 % 2 ^ w * 2 + a % 2 =
      rw pow-suc (mod-double a (2 ^ w) (two-pow-pos w)) in
    omega (arith, e)
bit-mod (suc w) a (suc k) h =
    let e : a % 2 ^ suc w ≡ a / 2 % 2 ^ w * 2 + a % 2 =
      rw pow-suc (mod-double a (2 ^ w) (two-pow-pos w)) in
    let half : a % 2 ^ suc w / 2 ≡ a / 2 % 2 ^ w = omega (arith, e) in
    ap (λ x. bit x k) half ∙ bit-mod w (a / 2) k (omega arith)
