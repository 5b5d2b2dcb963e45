-- ===== src/Base64/Bounds.antt =====
-- How much the functions of src/base64/b64.c write into the caller's buffer.
use re_cpm.Base.{
  ℕ, ◌+◌, ◌-◌, ◌*◌, ◌/◌, ◌%◌, ◌^◌, ◌≤◌, ◌<◌, ◌≡◌, ◌≢◌, refl, ap, ◌∙◌, arith, false, ltb, ltb-ge,
  ltb-false, Bool-cases, inl, inr, List, [], ◌∷◌, length, length-append, bit_and, bit_or, All, ◌==◌,
}
use re_cpm.Base.Bits.{two-pow-pos}
use re_cpm.Base.TestBit.{bit, bit-lt, bit_and-pow, bit-bit_or, bit-pow_self}
use re_cpm.Base64.{
  b64val, gather, emit, encode_loop, encode_url_loop, decode_loop, encode_room, decode_room,
  base64_encode, base64url_encode, base64_decode,
}
use re_cpm.Base64.Group.{
  gather-eq, gather_one_pad, gather_two_pads, emit_full, emit_one_pad, emit_two_pads,
}

pub length-encode_loop : (bs : List ℕ) → length (encode_loop bs) ≡ 4 * ((length bs + 2) / 3)
unfolding encode_loop
length-encode_loop [] = refl
length-encode_loop (a ∷ []) = refl
length-encode_loop (a ∷ b ∷ []) = refl
length-encode_loop (a ∷ b ∷ c ∷ bs) = omega (arith, length-encode_loop bs)

pub length-encode_url_loop : (bs : List ℕ) → length (encode_url_loop bs) ≡ (4 * length bs + 2) / 3
unfolding encode_url_loop
length-encode_url_loop [] = refl
length-encode_url_loop (a ∷ []) = refl
length-encode_url_loop (a ∷ b ∷ []) = refl
length-encode_url_loop (a ∷ b ∷ c ∷ bs) = omega (arith, length-encode_url_loop bs)

-- Both encoders write no more than the caller's buffer holds, on every outcome: `olen` characters
-- at most, for less than 2^61 bytes.
pub length-encode-le :
    (bs : List ℕ) (olen : ℕ)
    → length bs < 2 ^ 61
    → (length (base64_encode bs olen).1 ≤ olen) × (length (base64url_encode bs olen).1 ≤ olen)
unfolding base64_encode base64url_encode
length-encode-le bs olen h = elim (Bool-cases (ltb olen (encode_room (length bs)))) [
  | inl short ↦ rw short (omega arith, omega arith)
  | inr enough ↦
      let room : encode_room (length bs) ≤ olen = ltb-false olen (encode_room (length bs)) enough in
      rw enough
        (omega (arith, room, length-encode_loop bs), omega (arith, room, length-encode_url_loop bs))
]

-- Bit 24 is the mark of padding, in the last place or the third.
set_bit : (v k : ℕ) → bit v k ≡ 1 → (bit_and v (2 ^ k) == 0) ≡ false
set_bit v k h =
    let e : bit_and v (2 ^ k) ≡ 2 ^ k = bit_and-pow k v ∙ ap (λ b. b * 2 ^ k) h ∙ omega arith in
    rw e (ground (arith, two-pow-pos k))

gather_last : (w x y : ℕ) → bit (gather w x y (2 ^ 24)) 24 ≡ 1
unfolding gather
gather_last w x y =
    let u : ℕ = bit_or (bit_or (w * 2 ^ 18 % 2 ^ 32) (x * 2 ^ 12 % 2 ^ 32)) (y * 2 ^ 6 % 2 ^ 32) in
    bit-bit_or u (2 ^ 24) 24 ∙ omega (arith, bit-lt u 24, bit-pow_self 24)

gather_third : (w x z : ℕ) → bit (gather w x (2 ^ 24) z) 30 ≡ 1
unfolding gather
gather_third w x z =
    let t : ℕ = bit_or (w * 2 ^ 18 % 2 ^ 32) (x * 2 ^ 12 % 2 ^ 32) in
    bit-bit_or (bit_or t (2 ^ 30)) z 30
    ∙ omega (arith, bit-bit_or t (2 ^ 30) 30, bit-lt t 30, bit-lt z 30, bit-pow_self 30)

length-emit : (v : ℕ) → (1 ≤ length (emit v)) × (length (emit v) ≤ 3)
unfolding emit
length-emit v = ground arith

length-emit_last : (v : ℕ) → bit v 24 ≡ 1 → length (emit v) ≤ 2
unfolding emit
length-emit_last v h = rw (set_bit v 24 h) (ground arith)

length-emit_both : (v : ℕ) → bit v 24 ≡ 1 → bit v 30 ≡ 1 → length (emit v) ≡ 1
unfolding emit
length-emit_both v h k = rw (set_bit v 24 h, set_bit v 30 k) refl

-- What a decoded text can take: three bytes for each group of four characters, and one or two for
-- a rest of two or three characters.
pub length-decode_loop :
    (cs : List ℕ) → length (decode_loop cs) ≤ 3 * (length cs / 4) + (length cs % 4 - 1)
unfolding decode_loop
length-decode_loop [] = omega arith
length-decode_loop (a ∷ []) = omega arith
length-decode_loop (a ∷ b ∷ []) = omega (
  arith,
  length-emit_both (gather (b64val a) (b64val b) (2 ^ 24) (2 ^ 24))
      (gather_last (b64val a) (b64val b) (2 ^ 24)) (gather_third (b64val a) (b64val b) (2 ^ 24)),
)
length-decode_loop (a ∷ b ∷ c ∷ []) = omega (
  arith,
  length-emit_last (gather (b64val a) (b64val b) (b64val c) (2 ^ 24))
      (gather_last (b64val a) (b64val b) (b64val c)),
)
length-decode_loop (a ∷ b ∷ c ∷ d ∷ cs) =
    let v = gather (b64val a) (b64val b) (b64val c) (b64val d) in
    omega (arith, length-append {0} (emit v) (decode_loop cs), length-emit v, length-decode_loop cs)

-- A text of less than 2^62 characters in whole groups of four, or with one more, is decoded within
-- the caller's buffer, on every outcome.
pub length-decode-le :
    (cs : List ℕ) (olen : ℕ)
    → length cs < 2 ^ 62
    → length cs % 4 ≤ 1
    → length (base64_decode cs olen).1 ≤ olen
unfolding base64_decode
length-decode-le cs olen h k = elim (Bool-cases (ltb olen (decode_room (length cs)))) [
  | inl short ↦ rw short (omega arith)
  | inr enough ↦
      rw enough
        (omega (arith, ltb-false olen (decode_room (length cs)) enough, length-decode_loop cs))
]

b64val-lt : (c : ℕ) → c ≢ b'=' → b64val c < 64
unfolding b64val
b64val-lt c h = ground arith

abbrev pub NoPadding : List ℕ → Type 0
NoPadding cs = All (λ c. c ≢ b'=') cs

length-decode_loop_unpadded :
    (cs : List ℕ)
    → NoPadding cs
    → length (decode_loop cs) ≡ 3 * (length cs / 4) + (length cs % 4 - 1)
unfolding decode_loop
length-decode_loop_unpadded [] p = refl
length-decode_loop_unpadded (a ∷ []) p = refl
length-decode_loop_unpadded (a ∷ b ∷ []) p = ap length (
    ap emit (gather_two_pads (b64val a) (b64val b) (b64val-lt a p.0) (b64val-lt b p.1.0))
    ∙ emit_two_pads _ (omega (arith, b64val-lt a p.0, b64val-lt b p.1.0)))
length-decode_loop_unpadded (a ∷ b ∷ c ∷ []) p =
    let x = b64val-lt a p.0 in
    let y = b64val-lt b p.1.0 in
    let z = b64val-lt c p.1.1.0 in
    ap length (
      ap emit (gather_one_pad (b64val a) (b64val b) (b64val c) x y z)
      ∙ emit_one_pad _ (omega (arith, x, y, z)))
length-decode_loop_unpadded (a ∷ b ∷ c ∷ d ∷ cs) p =
    let v = gather (b64val a) (b64val b) (b64val c) (b64val d) in
    let w = b64val-lt a p.0 in
    let x = b64val-lt b p.1.0 in
    let y = b64val-lt c p.1.1.0 in
    let z = b64val-lt d p.1.1.1.0 in
    let full : length (emit v) ≡ 3 = ap length (
      ap emit (gather-eq (b64val a) (b64val b) (b64val c) (b64val d) w x y z)
      ∙ emit_full _ (omega (arith, w, x, y, z))) in
    omega (
      arith,
      length-append {0} (emit v) (decode_loop cs),
      full,
      length-decode_loop_unpadded cs p.1.1.1.1,
    )

-- The smallest buffer that the check of `base64_decode` accepts is too small for a text without
-- padding of less than 2^62 characters that has a rest of two or three behind its groups of four:
-- one or two bytes are written behind it.
pub decode_overrun :
    (cs : List ℕ)
    → length cs < 2 ^ 62
    → NoPadding cs
    → 2 ≤ length cs % 4
    → let olen = 3 * (length cs / 4) in
      let (err, out) = base64_decode cs olen in
      (err ≡ 0) × (length out ≡ olen + (length cs % 4 - 1)) × (olen < length out)
unfolding base64_decode
decode_overrun cs h p k =
    let enough : ltb (3 * (length cs / 4)) (decode_room (length cs)) ≡ false =
      ltb-ge (3 * (length cs / 4)) (decode_room (length cs)) (omega arith) in
    let l = length-decode_loop_unpadded cs p in rw enough (refl, l, omega (arith, l))
