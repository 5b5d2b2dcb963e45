-- ===== src/Base/ByteOrder.antt =====
-- How a number lies in memory, and the byte order functions of <arpa/inet.h>.
use Prim.Native.Nat.{ℕ, zero, suc, ◌+◌, ◌*◌, ◌/◌, ◌%◌, ◌^◌, ◌<◌}
use mathlib.Core.Path.{◌≡◌, refl, ap, ap₂, sym, subst, ◌∙◌}
use mathlib.Core.List.{List, [], ◌∷◌, ◌++◌, reverse, reverse-reverse, reverse-append}
use native.Mathlib.Omega.{arith}
use native.Mathlib.Nat.{
  pow-suc, one-le-pow, div-add-mod, mod-lt, mul-add-mod_self_left, mod-eq_of_lt,
}
use re_cpm.Base.Lists.{length, length-append}

-- The host's byte order.
pub data Endian : Type 0 where
  little big : Endian

abbrev pub All {ℓ κ} : {A : Type ℓ} → (A → Type κ) → List A → Type κ
All P [] = Unit
All P (x ∷ xs) = P x × All P xs

abbrev pub IsByte : ℕ → Type 0
IsByte b = b < 256

-- The `n` low bytes of a number, lowest first, and back.
abbrev pub le_bytes : ℕ → ℕ → List ℕ
le_bytes zero v = []
le_bytes (suc n) v = v % 256 ∷ le_bytes n (v / 256)

abbrev pub le_value : List ℕ → ℕ
le_value [] = 0
le_value (b ∷ bs) = b + 256 * le_value bs

-- Network order: highest byte first.
abbrev pub be_bytes : ℕ → ℕ → List ℕ
be_bytes n v = reverse (le_bytes n v)

abbrev pub be_value : List ℕ → ℕ
be_value bs = le_value (reverse bs)

-- An integer of `n` bytes in the host's memory, and a load of it.
unfoldable pub host_bytes : Endian → ℕ → ℕ → List ℕ
host_bytes little n v = le_bytes n v
host_bytes big n v = be_bytes n v

unfoldable pub host_value : Endian → List ℕ → ℕ
host_value little bs = le_value bs
host_value big bs = be_value bs

-- `htons`, `htonl`, `ntohs`, `ntohl` at `n` bytes.
unfoldable pub hton : Endian → ℕ → ℕ → ℕ
hton little n v = be_value (le_bytes n v)
hton big n v = v

pub length-le_bytes : (n v : ℕ) → length (le_bytes n v) ≡ n
length-le_bytes zero v = refl
length-le_bytes (suc n) v = ap suc (length-le_bytes n (v / 256))

pub reverse-cons {ℓ} :
    {A : Type ℓ} (x : A) (xs : List A) → reverse (x ∷ xs) ≡ reverse xs ++ (x ∷ [])
reverse-cons x xs = reverse-append (x ∷ []) xs

pub length-reverse {ℓ} : {A : Type ℓ} (xs : List A) → length (reverse xs) ≡ length xs
length-reverse [] = refl
length-reverse (x ∷ xs) =
    ap length (reverse-cons x xs)
    ∙ omega (arith, length-append {ℓ} (reverse xs) (x ∷ []), length-reverse xs)

pub le_bytes-IsByte : (n v : ℕ) → All IsByte (le_bytes n v)
le_bytes-IsByte zero v = tt
le_bytes-IsByte (suc n) v = (omega arith, le_bytes-IsByte n (v / 256))

pub All-append {ℓ κ} :
    {A : Type ℓ} (P : A → Type κ) (xs ys : List A) → All P xs → All P ys → All P (xs ++ ys)
All-append P [] ys p q = q
All-append P (x ∷ xs) ys p q = (p.0, All-append P xs ys p.1 q)

pub All-reverse {ℓ κ} : {A : Type ℓ} (P : A → Type κ) (xs : List A) → All P xs → All P (reverse xs)
All-reverse P [] p = tt
All-reverse P (x ∷ xs) p =
    subst (All P) (sym (reverse-cons x xs))
      (All-append P (reverse xs) (x ∷ []) (All-reverse P xs p.1) (p.0, tt))

-- A number is read back from its bytes.
pub le_value-le_bytes : (n v : ℕ) → le_value (le_bytes n v) ≡ v % 256 ^ n
le_value-le_bytes zero v = omega arith
le_value-le_bytes (suc n) v =
    let m : ℕ = 256 ^ n in
    let low : ℕ = v % 256 + 256 * (v / 256 % m) in
    let pos : 0 < m = one-le-pow n 256 (omega arith) in
    let e : v ≡ m * 256 * (v / 256 / m) + low = omega (arith, div-add-mod (v / 256) m) in
    let small : low < m * 256 = omega (arith, mod-lt (v / 256) pos) in
    ap (λ x. v % 256 + 256 * x) (le_value-le_bytes n (v / 256))
    ∙ sym (
        ap (λ x. v % x) (pow-suc 256 n)
        ∙ ap (λ x. x % (m * 256)) e
        ∙ mul-add-mod_self_left (m * 256) (v / 256 / m) low
        ∙ mod-eq_of_lt small)

-- Bytes are read back from their number.
pub le_bytes-le_value :
    (bs : List ℕ) (n : ℕ) → All IsByte bs → n ≡ length bs → le_bytes n (le_value bs) ≡ bs
le_bytes-le_value [] zero p e = refl
le_bytes-le_value [] (suc n) p e = absurd (omega arith)
le_bytes-le_value (b ∷ bs) zero p e = absurd (omega arith)
le_bytes-le_value (b ∷ bs) (suc n) p e =
    let high : (b + 256 * le_value bs) / 256 ≡ le_value bs = omega (arith, p.0) in
    ap₂ ◌∷◌ (omega (arith, p.0)) (ap (le_bytes n) high ∙ le_bytes-le_value bs n p.1 (omega arith))

pub length-be_bytes : (n v : ℕ) → length (be_bytes n v) ≡ n
length-be_bytes n v = length-reverse (le_bytes n v) ∙ length-le_bytes n v

pub be_bytes-IsByte : (n v : ℕ) → All IsByte (be_bytes n v)
be_bytes-IsByte n v = All-reverse IsByte (le_bytes n v) (le_bytes-IsByte n v)

-- The little-endian bytes of the number whose little-endian bytes are those of `v` reversed.
pub le_bytes-be_value : (n v : ℕ) → le_bytes n (be_value (le_bytes n v)) ≡ be_bytes n v
le_bytes-be_value n v =
    le_bytes-le_value (be_bytes n v) n (be_bytes-IsByte n v) (sym (length-be_bytes n v))

-- The network bytes of `v`, loaded as they lie in memory and put in the host's order, are `v`.
pub hton-host_value : (e : Endian) (n v : ℕ) → hton e n (host_value e (be_bytes n v)) ≡ v % 256 ^ n
unfolding hton host_value
hton-host_value little n v =
    ap be_value (le_bytes-be_value n v)
    ∙ ap le_value (reverse-reverse (le_bytes n v))
    ∙ le_value-le_bytes n v
hton-host_value big n v = ap le_value (reverse-reverse (le_bytes n v)) ∙ le_value-le_bytes n v

-- `hton` lays the highest byte first in the host's memory.
pub host_bytes-hton : (e : Endian) (n v : ℕ) → host_bytes e n (hton e n v) ≡ be_bytes n v
unfolding hton host_bytes
host_bytes-hton little n v = le_bytes-be_value n v
host_bytes-hton big n v = refl
