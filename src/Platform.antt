-- ===== src/Platform.antt =====
-- What the C library and the machine decide: the byte order, which requests malloc and realloc
-- grant, and what stands in memory that nothing has written. `size_t` has 64 bits.
use re_cpm.Base.{ℕ, zero, suc, ◌+◌, ◌*◌, ◌%◌, ◌^◌, ◌<◌, Bool, List, [], ◌∷◌, length}
use re_cpm.Base.{◌≡◌, refl, ap, Endian}

pub record Platform : Type 0 where
  pub endian : Endian
  -- malloc of so many bytes, and realloc of a block from one size to another
  pub malloc : ℕ → Bool
  pub realloc : ℕ → ℕ → Bool
  -- the byte at an index of memory that is not initialised
  pub junk : ℕ → ℕ
  pub junk_byte : (i : ℕ) → junk i < 256

-- `size_t` arithmetic wraps.
abbrev pub add_size : ℕ → ℕ → ℕ
add_size a b = (a + b) % 2 ^ 64

abbrev pub mul_size : ℕ → ℕ → ℕ
mul_size a b = a * b % 2 ^ 64

-- `n` uninitialised bytes from index `i` on.
unfoldable pub uninitialised : Platform → ℕ → ℕ → List ℕ
uninitialised p i zero = []
uninitialised p i (suc n) = p.junk i ∷ uninitialised p (i + 1) n

pub length-uninitialised : (p : Platform) (i n : ℕ) → length (uninitialised p i n) ≡ n
unfolding uninitialised
length-uninitialised p i zero = refl
length-uninitialised p i (suc n) = ap suc (length-uninitialised p (i + 1) n)
