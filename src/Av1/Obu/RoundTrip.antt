-- ===== src/Av1/Obu/RoundTrip.antt =====
-- A number in LEB128 that is read back: av1_leb128_encode and av1_leb128_decode of src/av1/obu.c.
use re_cpm.Base.{
  ℕ, zero, suc, ◌+◌, ◌/◌, ◌%◌, ◌^◌, ◌≤◌, ◌<◌, min, ◌≡◌, ◌≢◌, ap, arith, ltb, Bool-cases, inl, inr,
  List, [], ◌++◌, length, drop, drop_all,
}
use re_cpm.Base.Order.{lt_wf}
use re_cpm.Platform.{Platform}
use re_cpm.Mbuf.{Mbuf, set_pos}
use re_cpm.Mbuf.Inv.{IsValid}
use re_cpm.Mbuf.Cursor.{rest}
use re_cpm.Mbuf.Words.{Appends, Appends-nil, Appends-rewound}
use re_cpm.Mbuf.Takes.{Takes, Takes-as}
use re_cpm.Av1.Obu.{av1_leb128_encode, av1_leb128_decode}
use re_cpm.Av1.Obu.Leb128.{leb_bytes, pow-pos, leb128_loop-Appends, Reads, leb128_rounds-Reads}
use native.Mathlib.Nat.{pow-suc}

pub length-leb_bytes-le : (k v : ℕ) → length (leb_bytes k v) ≤ suc k
length-leb_bytes-le zero v = omega arith
length-leb_bytes-le (suc k) v = elim (Bool-cases (ltb v 128)) [
  | inl last ↦ rw last (omega arith)
  | inr more ↦ rw more (omega (arith, length-leb_bytes-le k (v / 128)))
]

lt-length-leb_bytes : (n k v : ℕ) → 128 ^ n ≤ v → v < 128 ^ suc k → n < length (leb_bytes k v)
lt-length-leb_bytes zero zero v low high = omega arith
lt-length-leb_bytes (suc n) zero v low high = absurd (omega (arith, pow-suc 128 n, pow-pos n))
lt-length-leb_bytes zero (suc k) v low high = elim (Bool-cases (ltb v 128)) [
  | inl last ↦ rw last (omega arith)
  | inr more ↦ rw more (omega arith)
]
lt-length-leb_bytes (suc n) (suc k) v low high = elim (Bool-cases (ltb v 128)) [
  | inl last ↦ absurd (ground (arith, pow-suc 128 n, pow-pos n))
  | inr more ↦ rw more (
      omega (
        arith,
        lt-length-leb_bytes n k (v / 128) (omega (arith, pow-suc 128 n))
            (omega (arith, pow-suc 128 (suc k))),
      ))
]

pub av1_leb128_encode-Appends :
    (p : Platform) (mb : Mbuf) (k v : ℕ)
    → IsValid mb
    → v < 128 ^ suc k
    → Appends mb (leb_bytes k v) (av1_leb128_encode p mb v)
unfolding av1_leb128_encode
av1_leb128_encode-Appends p mb k v ok h =
    leb128_loop-Appends p mb k [] v (lt_wf.apply v) (0, mb) h (Appends-nil mb ok)

pub av1_leb128_decode-Reads :
    (p : Platform) (old k v : ℕ) (mb : Mbuf) (r : List ℕ)
    → IsValid mb
    → rest mb ≡ leb_bytes k v ++ r
    → v < 128 ^ suc k
    → Reads 8 0 0 v (leb_bytes k v) r mb (av1_leb128_decode p old mb)
unfolding av1_leb128_decode
av1_leb128_decode-Reads p old k v mb r ok h bound =
    leb128_rounds-Reads p old 8 0 0 k v mb r ok h bound (omega arith)

-- The groups of a number of at most 56 bits.
unfoldable pub leb : ℕ → List ℕ
leb v = leb_bytes 7 v

pub length-leb-le : (v : ℕ) → length (leb v) ≤ 8
unfolding leb
length-leb-le v = length-leb_bytes-le 7 v

pub length-leb-pos : (v : ℕ) → 0 < length (leb v)
unfolding leb
length-leb-pos v = elim (Bool-cases (ltb v 128)) [
  | inl last ↦ rw last (omega arith)
  | inr more ↦ rw more (omega arith)
]

pub av1_leb128_encode-leb :
    (p : Platform) (mb : Mbuf) (v : ℕ)
    → IsValid mb
    → v < 2 ^ 56
    → Appends mb (leb v) (av1_leb128_encode p mb v)
unfolding leb
av1_leb128_encode-leb p mb v ok small = av1_leb128_encode-Appends p mb 7 v ok small

pub av1_leb128_decode-leb :
    (p : Platform) (old v : ℕ) (mb : Mbuf) (r : List ℕ)
    → IsValid mb
    → rest mb ≡ leb v ++ r
    → v < 2 ^ 56
    → let (err, got, mb') = av1_leb128_decode p old mb in
      (err ≡ 0) × (got ≡ v) × Takes mb (length (leb v)) r mb'
unfolding leb
av1_leb128_decode-leb p old v mb r ok h small =
    let bytes = leb_bytes 7 v in
    let (z, got, t) = av1_leb128_decode-Reads p old 7 v mb r ok h small in
    let count : min 8 (length bytes) ≡ length bytes = omega (arith, length-leb_bytes-le 7 v) in
    let none_left : drop 8 bytes ≡ [] = drop_all bytes 8 (length-leb_bytes-le 7 v) in
    (z, omega (arith, got), Takes-as count (ap (λ xs. xs ++ r) none_left) t)

module _ (p : Platform) (mb : Mbuf) (old v : ℕ) (ok : IsValid mb) where
  -- What is written and what is then read, if there is room for `k + 1` bytes.
  rewound :
      (k : ℕ)
      → v < 128 ^ suc k
      → mb.pos + suc k ≤ mb.size
      → let (err, out) = av1_leb128_encode p mb v in
        (err ≡ 0)
        × (out.pos ≡ mb.pos + length (leb_bytes k v))
        × Reads 8 0 0 v
            (leb_bytes k v)
            (drop (length (leb_bytes k v)) (rest mb))
            (set_pos out mb.pos)
            (av1_leb128_decode p old (set_pos out mb.pos))
  rewound k bound room =
      let a = av1_leb128_encode-Appends p mb k v ok bound in
      let z = a.fits (omega (arith, length-leb_bytes-le k v)) in
      let (ok', text) = Appends-rewound mb (leb_bytes k v) _ ok a z in
      (z, a.at z, av1_leb128_decode-Reads p old k v _ _ ok' text bound)

  -- A number below 2 ^ 56 that is encoded where there is room for 8 bytes is decoded again, and
  -- the decoder ends where the encoder ended.
  pub av1_leb128_decode-encode :
      v < 2 ^ 56
      → mb.pos + 8 ≤ mb.size
      → let (err, out) = av1_leb128_encode p mb v in
        let (err', got, mb') = av1_leb128_decode p old (set_pos out mb.pos) in
        (err ≡ 0) × (err' ≡ 0) × (got ≡ v) × (mb'.pos ≡ out.pos)
  unfolding set_pos
  av1_leb128_decode-encode small room =
      let (z, at, (z', got, t)) = rewound 7 small room in
      (z, z', omega (arith, got), omega (arith, t.at, at, length-leb_bytes-le 7 v))

  -- A number of 2 ^ 56 or more is encoded without error, where there is room for 10 bytes, and
  -- decoded without error to another number: the decoder stops after 8 bytes, before the end of
  -- what the encoder wrote.
  pub av1_leb128_decode-too_long :
      2 ^ 56 ≤ v
      → v < 2 ^ 64
      → mb.pos + 10 ≤ mb.size
      → let (err, out) = av1_leb128_encode p mb v in
        let (err', got, mb') = av1_leb128_decode p old (set_pos out mb.pos) in
        (err ≡ 0) × (err' ≡ 0) × (got ≡ v % 2 ^ 56) × (got ≢ v) × (mb'.pos < out.pos)
  unfolding set_pos
  av1_leb128_decode-too_long large small room =
      let (z, at, (z', got, t)) = rewound 9 (omega arith) room in
      let long = lt-length-leb_bytes 8 9 v large (omega arith) in
      (z, z', omega (arith, got), λ same. omega (arith, got, same), omega (arith, t.at, at, long))
