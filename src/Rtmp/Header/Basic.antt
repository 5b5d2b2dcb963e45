-- ===== src/Rtmp/Header/Basic.antt =====
-- The basic header of an RTMP chunk, `encode_basic_hdr` and `decode_basic_hdr` of src/rtmp/hdr.c:
-- one to three bytes, by the size of the chunk's number.
use re_cpm.Base.{
  ℕ, ◌+◌, ◌-◌, ◌*◌, ◌/◌, ◌%◌, ◌^◌, ◌≤◌, ◌<◌, ◌≡◌, refl, sym, ◌∙◌, arith, true, false, leb, ltb,
  ltb-ge, ◌==◌, Bool-cases, inl, inr, List, [], ◌∷◌, ◌++◌, be_bytes, bit_and, bit_or, if◌then◌else◌,
  length-be_bytes,
}
use re_cpm.Base.Bits.{bit_and-mask, bit_or-add}
use re_cpm.Platform.{Platform}
use re_cpm.Mbuf.{Mbuf, set_pos, get_left}
use re_cpm.Mbuf.Ints.{read_u8, read_u16}
use re_cpm.Mbuf.Inv.{IsValid}
use re_cpm.Mbuf.Cursor.{rest}
use re_cpm.Mbuf.Words.{Appends, Appends-nil, Appends-rewound, u8_step, u16_step}
use re_cpm.Mbuf.Takes.{Takes, read_u8-Takes, read_u16-Takes, get_left-of}
use re_cpm.Rtmp.Header.{Header, encode_basic_hdr, decode_basic_hdr, decode_chunk_id}

leb→≤ : (a b : ℕ) → leb a b ≡ true → a ≤ b
leb→≤ a b h = ground arith

leb-false : (a b : ℕ) → leb a b ≡ false → b < a
leb-false a b h = ground arith

-- A format, and the number of a chunk.
pub record IsChunk (fmt id : ℕ) : Type 0 where
  pub two_bits : fmt < 4
  pub id_min : 3 ≤ id
  pub id_max : id ≤ 65599

-- The bytes on the wire.
abbrev pub basic_bytes : ℕ → ℕ → List ℕ
basic_bytes fmt id =
    if leb 320 id
    then (fmt * 64 + 1) ∷ be_bytes 2 ((id - 64) % 2 ^ 16)
    else if leb 64 id
    then (fmt * 64 + 0) ∷ ((id - 64) % 2 ^ 8 % 256) ∷ []
    else (fmt * 64 + id) ∷ []

first : (fmt x : ℕ) → fmt < 4 → x < 64 → bit_or (fmt * 2 ^ 6) x % 2 ^ 8 % 256 ≡ fmt * 64 + x
first fmt x h k = omega (arith, bit_or-add 6 fmt x (omega arith))

pub encode_basic_hdr-Appends :
    (p : Platform) (mb : Mbuf) (fmt id : ℕ)
    → IsChunk fmt id
    → IsValid mb
    → Appends mb (basic_bytes fmt id) (encode_basic_hdr p mb fmt id)
unfolding encode_basic_hdr
encode_basic_hdr-Appends p mb fmt id w v = elim (Bool-cases (leb 320 id)) [
  | inl large ↦
      rw (large, ← first fmt 1 (omega (arith, w)) (omega arith))
        (u16_step p mb _ _ (u8_step p mb _ _ (Appends-nil mb v) (bit_or (fmt * 2 ^ 6) 1 % 2 ^ 8))
          ((id - 64) % 2 ^ 16))
  | inr not_large ↦ elim (Bool-cases (leb 64 id)) [
    | inl middle ↦
        rw (not_large, middle, ← first fmt 0 (omega (arith, w)) (omega arith))
          (u8_step p mb _ _ (u8_step p mb _ _ (Appends-nil mb v) (bit_or (fmt * 2 ^ 6) 0 % 2 ^ 8))
            ((id - 64) % 2 ^ 8))
    | inr small ↦
        rw (not_large, small, ← first fmt id (omega (arith, w)) (ground arith))
          (u8_step p mb _ _ (Appends-nil mb v) (bit_or (fmt * 2 ^ 6) id % 2 ^ 8))
  ]
]

-- The first byte gives the format, and six bits that say how the number follows.
decode_first :
    (p : Platform) (fmt x : ℕ) (old : Header) (mb : Mbuf) (t : List ℕ)
    → x < 64
    → IsValid mb
    → rest mb ≡ (fmt * 64 + x) ∷ t
    → (decode_basic_hdr p old mb
        ≡ decode_chunk_id p x (record old { format = fmt }) (read_u8 p mb).1)
      × Takes mb 1 t (read_u8 p mb).1
unfolding decode_basic_hdr
decode_first p fmt x old mb t k v b =
    let (e, taken) = read_u8-Takes p mb (fmt * 64 + x) t v b in
    let high : (fmt * 64 + x) / 2 ^ 6 ≡ fmt = omega arith in
    let low : bit_and (fmt * 64 + x) 0x3f ≡ x = bit_and-mask 6 (fmt * 64 + x) ∙ omega arith in
    let some_left : ltb (get_left mb) 1 ≡ false =
      ltb-ge (get_left mb) 1 (omega (arith, get_left-of mb ((fmt * 64 + x) ∷ []) t v b)) in
    (rw (e, high, low, some_left) refl, taken)

-- What the basic header is decoded to.
abbrev pub Decoded : Platform → ℕ → ℕ → Header → Mbuf → List ℕ → Type 0
Decoded p fmt id old mb r =
    (mb' : Mbuf) × (decode_basic_hdr p old mb
      ≡ (0, record old { format = fmt; chunk_id = id }, mb'))
    × IsValid mb'
    × (rest mb' ≡ r)

module _ (p : Platform) (fmt id : ℕ) (old : Header) (mb : Mbuf) (r : List ℕ) (v : IsValid mb) where
  decode_three :
      320 ≤ id
      → id ≤ 65599
      → rest mb ≡ (fmt * 64 + 1) ∷ (be_bytes 2 ((id - 64) % 2 ^ 16) ++ r)
      → Decoded p fmt id old mb r
  unfolding decode_chunk_id
  decode_three h k b =
      let n = (id - 64) % 2 ^ 16 in
      let (e, t) = decode_first p fmt 1 old mb (be_bytes 2 n ++ r) (omega arith) v b in
      let mb1 = (read_u8 p mb).1 in
      let (e2, t2) = read_u16-Takes p mb1 n r t.valid (omega arith) t.left in
      let two_left : ltb (get_left mb1) 2 ≡ false =
        ltb-ge (get_left mb1) 2
          (omega (arith, get_left-of mb1 (be_bytes 2 n) r t.valid t.left, length-be_bytes 2 n)) in
      let whole : n + 64 ≡ id = omega arith in
      ((read_u16 p mb1).1, e ∙ rw (e2, two_left, whole) refl, t2.valid, t2.left)

  decode_two :
      64 ≤ id
      → id < 320
      → rest mb ≡ (fmt * 64 + 0) ∷ ((id - 64) % 2 ^ 8 % 256) ∷ r
      → Decoded p fmt id old mb r
  unfolding decode_chunk_id
  decode_two h k b =
      let n = (id - 64) % 2 ^ 8 % 256 in
      let (e, t) = decode_first p fmt 0 old mb (n ∷ r) (omega arith) v b in
      let mb1 = (read_u8 p mb).1 in
      let (e2, t2) = read_u8-Takes p mb1 n r t.valid t.left in
      let one_left : ltb (get_left mb1) 1 ≡ false =
        ltb-ge (get_left mb1) 1 (omega (arith, get_left-of mb1 (n ∷ []) r t.valid t.left)) in
      let whole : n + 64 ≡ id = omega arith in
      ((read_u8 p mb1).1, e ∙ rw (e2, one_left, whole) refl, t2.valid, t2.left)

  decode_one : 3 ≤ id → id < 64 → rest mb ≡ (fmt * 64 + id) ∷ r → Decoded p fmt id old mb r
  unfolding decode_chunk_id
  decode_one h k b =
      let (e, t) = decode_first p fmt id old mb r k v b in
      let not_zero : (id == 0) ≡ false = ground arith in
      let not_one : (id == 1) ≡ false = ground arith in
      ((read_u8 p mb).1, e ∙ rw (not_zero, not_one) refl, t.valid, t.left)

  pub decode_basic_hdr-Takes :
      IsChunk fmt id → rest mb ≡ basic_bytes fmt id ++ r → Decoded p fmt id old mb r
  decode_basic_hdr-Takes w b = elim (Bool-cases (leb 320 id)) [
    | inl large ↦ decode_three (leb→≤ 320 id large) w.id_max (b ∙ rw large refl)
    | inr not_large ↦ elim (Bool-cases (leb 64 id)) [
      | inl middle ↦
          decode_two (leb→≤ 64 id middle) (leb-false 320 id not_large)
            (b ∙ rw (not_large, middle) refl)
      | inr small ↦ decode_one w.id_min (leb-false 64 id small) (b ∙ rw (not_large, small) refl)
    ]
  ]

-- The basic header of a chunk with a number from 3 to 65599, of any format, that `encode_basic_hdr`
-- writes into a valid buffer without an error is read back by `decode_basic_hdr` from where it was
-- written, and what stands behind it is left to be read.
pub decode_basic_hdr-encode :
    (p : Platform) (fmt id : ℕ) (old : Header) (mb : Mbuf)
    → IsChunk fmt id
    → IsValid mb
    → (encode_basic_hdr p mb fmt id).0 ≡ 0
    → let sent = (encode_basic_hdr p mb fmt id).1 in
      (mb' : Mbuf) × (decode_basic_hdr p old (set_pos sent mb.pos)
        ≡ (0, record old { format = fmt; chunk_id = id }, mb'))
      × (rest mb' ≡ rest sent)
unfolding set_pos
decode_basic_hdr-encode p fmt id old mb w v z =
    let out = encode_basic_hdr p mb fmt id in
    let a = encode_basic_hdr-Appends p mb fmt id w v in
    let (v', b) = Appends-rewound mb (basic_bytes fmt id) out v a z in
    let (mb', e, _, r) = decode_basic_hdr-Takes p fmt id old (set_pos out.1 mb.pos) _ v' w b in
    (mb', e, r ∙ sym (a.behind z))
