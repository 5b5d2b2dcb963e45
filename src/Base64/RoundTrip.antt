-- ===== src/Base64/RoundTrip.antt =====
-- What the encoders of src/base64/b64.c write, `base64_decode` reads back.
use re_cpm.Base.{
  ℕ, ◌+◌, ◌*◌, ◌/◌, ◌%◌, ◌^◌, ◌≤◌, ◌<◌, ◌≡◌, refl, ap, ap₂, ◌∙◌, arith, false, ltb, ltb-ge, List,
  [], ◌∷◌, ◌++◌, length, All, IsByte, bit_or,
}
use re_cpm.Base64.{
  b64_table, b64url_table, digit, join, b64val, gather, emit, encode_loop, encode_url_loop,
  decode_loop, encode_room, decode_room, base64_encode, base64url_encode, base64_decode,
}
use re_cpm.Base64.Bounds.{length-encode_loop, length-encode_url_loop}
use re_cpm.Base64.Group.{
  b64val-digit, b64val-url_digit, join_two, join-eq, gather-eq, gather_one_pad, gather_two_pads,
  emit_full, emit_one_pad, emit_two_pads,
}

-- The characters of a word, by either table, are the values of its digits.
module _ (table : List ℕ) (val : (v s : ℕ) → b64val (digit table v s) ≡ v / 2 ^ s % 64) where
  group_four :
      (a b c : ℕ)
      → IsByte a
      → IsByte b
      → IsByte c
      → let v = join a b c in
        emit (
          gather
            (b64val (digit table v 18))
            (b64val (digit table v 12))
            (b64val (digit table v 6))
            (b64val (digit table v 0)))
        ≡ a ∷ b ∷ c ∷ []
  group_four a b c h k l =
      let v : ℕ = a * 2 ^ 16 + b * 2 ^ 8 + c in
      simp (val, join-eq a b c k l)
        (ap emit (
            gather-eq (v / 2 ^ 18 % 64) (v / 2 ^ 12 % 64) (v / 2 ^ 6 % 64) (v / 2 ^ 0 % 64)
              (omega arith) (omega arith) (omega arith) (omega arith)
            ∙ omega arith)
          ∙ emit_full v (omega arith)
          ∙ bytes v a b c (omega arith) (omega arith) (omega arith))
    where
      bytes :
          (v a b c : ℕ)
          → v / 2 ^ 16 ≡ a
          → v / 2 ^ 8 % 256 ≡ b
          → v % 256 ≡ c
          → v / 2 ^ 16 ∷ v / 2 ^ 8 % 256 ∷ v % 256 ∷ [] ≡ a ∷ b ∷ c ∷ []
      bytes v a b c p q r = cc

  group_three :
      (a b : ℕ)
      → IsByte a
      → IsByte b
      → let v = bit_or (a * 2 ^ 16) (b * 2 ^ 8) in
        emit (
          gather
            (b64val (digit table v 18))
            (b64val (digit table v 12))
            (b64val (digit table v 6))
            (2 ^ 24))
        ≡ a ∷ b ∷ []
  group_three a b h k =
      let v : ℕ = a * 2 ^ 16 + b * 2 ^ 8 in
      let first : v / 2 ^ 16 ≡ a = omega arith in
      let second : v / 2 ^ 8 % 256 ≡ b = omega arith in
      let w : ℕ = v / 2 ^ 18 % 64 * 2 ^ 18 + v / 2 ^ 12 % 64 * 2 ^ 12 + v / 2 ^ 6 % 64 * 2 ^ 6 in
      let e : w ≡ v = omega arith in
      simp (val, join_two a b k)
        (ap emit (
            gather_one_pad (v / 2 ^ 18 % 64) (v / 2 ^ 12 % 64) (v / 2 ^ 6 % 64) (omega arith)
              (omega arith) (omega arith)
            ∙ ap (λ t. 1 * 2 ^ 24 + t) e)
          ∙ emit_one_pad v (omega arith)
          ∙ ap₂ (λ x y. x ∷ y ∷ []) first second)

  group_two :
      (a : ℕ)
      → IsByte a
      → let v = a * 2 ^ 16 in
        emit (gather (b64val (digit table v 18)) (b64val (digit table v 12)) (2 ^ 24) (2 ^ 24))
        ≡ a ∷ []
  group_two a h =
      let v : ℕ = a * 2 ^ 16 in
      let first : v / 2 ^ 16 ≡ a = omega arith in
      let w : ℕ = v / 2 ^ 18 % 64 * 2 ^ 18 + v / 2 ^ 12 % 64 * 2 ^ 12 in
      let e : w ≡ v = omega arith in
      simp val (
        ap emit (
          gather_two_pads (v / 2 ^ 18 % 64) (v / 2 ^ 12 % 64) (omega arith) (omega arith)
          ∙ ap (λ t. 65 * 2 ^ 24 + t) e)
        ∙ emit_two_pads v (omega arith)
        ∙ ap (λ x. x ∷ []) first)

decode_loop-encode_loop : (bs : List ℕ) → All IsByte bs → decode_loop (encode_loop bs) ≡ bs
unfolding decode_loop encode_loop
decode_loop-encode_loop [] p = refl
decode_loop-encode_loop (a ∷ []) p = ap (λ t. t ++ []) (group_two b64_table b64val-digit a p.0)
decode_loop-encode_loop (a ∷ b ∷ []) p =
    ap (λ t. t ++ []) (group_three b64_table b64val-digit a b p.0 p.1.0)
decode_loop-encode_loop (a ∷ b ∷ c ∷ bs) p =
    ap₂ ◌++◌ (group_four b64_table b64val-digit a b c p.0 p.1.0 p.1.1.0)
      (decode_loop-encode_loop bs p.1.1.1)

decode_loop-encode_url_loop : (bs : List ℕ) → All IsByte bs → decode_loop (encode_url_loop bs) ≡ bs
unfolding decode_loop encode_url_loop
decode_loop-encode_url_loop [] p = refl
decode_loop-encode_url_loop (a ∷ []) p = group_two b64url_table b64val-url_digit a p.0
decode_loop-encode_url_loop (a ∷ b ∷ []) p = group_three b64url_table b64val-url_digit a b p.0 p.1.0
decode_loop-encode_url_loop (a ∷ b ∷ c ∷ bs) p =
    ap₂ ◌++◌ (group_four b64url_table b64val-url_digit a b c p.0 p.1.0 p.1.1.0)
      (decode_loop-encode_url_loop bs p.1.1.1)

-- Base-64 round trip: less than 2^61 bytes, encoded with room for four characters for every three
-- bytes begun, are read back by `base64_decode` with room for three bytes for every such four.
pub base64_decode-encode :
    (bs : List ℕ) (olen n : ℕ)
    → All IsByte bs
    → length bs < 2 ^ 61
    → 4 * ((length bs + 2) / 3) ≤ olen
    → 3 * ((length bs + 2) / 3) ≤ n
    → let (err, text) = base64_encode bs olen in (err ≡ 0) × (base64_decode text n ≡ (0, bs))
unfolding base64_encode base64_decode
base64_decode-encode bs olen n p h k l =
    let enough : ltb olen (encode_room (length bs)) ≡ false =
      ltb-ge olen (encode_room (length bs)) (omega arith) in
    let fits : ltb n (decode_room (length (encode_loop bs))) ≡ false =
      ltb-ge n (decode_room (length (encode_loop bs))) (omega (arith, length-encode_loop bs)) in
    rw enough (refl, rw fits (ap (λ t. (0, t)) (decode_loop-encode_loop bs p)))

-- URL safe round trip: less than 2^61 bytes, encoded by `base64url_encode` with that room, are read
-- back from the text without padding by `base64_decode` with room for the bytes.
pub base64_decode-url_encode :
    (bs : List ℕ) (olen n : ℕ)
    → All IsByte bs
    → length bs < 2 ^ 61
    → 4 * ((length bs + 2) / 3) ≤ olen
    → length bs ≤ n
    → let (err, text) = base64url_encode bs olen in (err ≡ 0) × (base64_decode text n ≡ (0, bs))
unfolding base64url_encode base64_decode
base64_decode-url_encode bs olen n p h k l =
    let enough : ltb olen (encode_room (length bs)) ≡ false =
      ltb-ge olen (encode_room (length bs)) (omega arith) in
    let fits : ltb n (decode_room (length (encode_url_loop bs))) ≡ false =
      ltb-ge n (decode_room (length (encode_url_loop bs)))
        (omega (arith, length-encode_url_loop bs)) in
    rw enough (refl, rw fits (ap (λ t. (0, t)) (decode_loop-encode_url_loop bs p)))
