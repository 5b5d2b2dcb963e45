-- ===== src/Rtmp/Header/Wire.antt =====
-- The bytes that `rtmp_header_encode` of src/rtmp/hdr.c writes.
use re_cpm.Base.{
  ℕ, ◌%◌, ◌^◌, ◌<◌, ◌≡◌, refl, sym, ap, subst, ◌∙◌, arith, true, ◌==◌, if◌then◌else◌, Bool-cases,
  inl, inr, List, [], ◌∷◌, ◌++◌, append-nil, append_assoc, be_bytes, le_bytes, hton,
}
use re_cpm.Platform.{Platform}
use re_cpm.Mbuf.{Mbuf}
use re_cpm.Mbuf.Ints.{write_u32, ◌|=◌}
use re_cpm.Mbuf.Inv.{IsValid}
use re_cpm.Mbuf.Words.{Appends, Appends-as, u8_step, u32_step}
use re_cpm.Rtmp.Header.{Header, ts_24, ts_ext, encode_basic_hdr, encode_fields, rtmp_header_encode}
use re_cpm.Rtmp.Header.Basic.{IsChunk, basic_bytes, encode_basic_hdr-Appends}
use re_cpm.Rtmp.Header.Words.{u24_step, le32_step}

-- The fields have their widths; a length has 24 bits on the wire.
pub record IsHeader (h : Header) : Type 0 where
  pub chunk : IsChunk h.format h.chunk_id
  pub time32 : h.timestamp < 2 ^ 32
  pub delta32 : h.timestamp_delta < 2 ^ 32
  pub ext32 : h.timestamp_ext < 2 ^ 32
  pub len24 : h.len < 2 ^ 24
  pub type8 : h.type_id < 2 ^ 8
  pub stream32 : h.stream_id < 2 ^ 32

-- What follows the basic header.
abbrev pub field_bytes : Header → List ℕ
field_bytes h =
    if h.format == 0
    then be_bytes 3 (ts_24 h.timestamp)
      ++ (be_bytes 3 h.len ++ (h.type_id % 256 ∷ le_bytes 4 h.stream_id))
    else if h.format == 1
    then be_bytes 3 (ts_24 h.timestamp_delta) ++ (be_bytes 3 h.len ++ (h.type_id % 256 ∷ []))
    else if h.format == 2
    then be_bytes 3 (ts_24 h.timestamp_delta)
    else []

-- The extended timestamp that is sent, 0 for none.
abbrev pub sent_ext : Header → ℕ
sent_ext h =
    if h.format == 0
    then ts_ext h.timestamp
    else if h.format == 1
    then ts_ext h.timestamp_delta
    else if h.format == 2
    then ts_ext h.timestamp_delta
    else h.timestamp_ext

abbrev pub ext_bytes : ℕ → List ℕ
ext_bytes x = if x == 0 then [] else be_bytes 4 x

abbrev pub header_bytes : Header → List ℕ
header_bytes h = basic_bytes h.format h.chunk_id ++ (field_bytes h ++ ext_bytes (sent_ext h))

pub ts_24-lt : (ts : ℕ) → ts_24 ts < 2 ^ 24
unfolding ts_24
ts_24-lt ts = ground arith

module _ (p : Platform) (mb : Mbuf) (h : Header) (w : IsHeader h) where
  encode_fields-Appends :
      (xs : List ℕ) (out : ℕ × Mbuf)
      → Appends mb xs out
      → Appends mb (xs ++ field_bytes h) (encode_fields p h out).0
        × ((encode_fields p h out).1 ≡ record h { timestamp_ext = sent_ext h })
  unfolding encode_fields
  encode_fields-Appends xs out a = elim (Bool-cases (h.format == 0)) [
    | inl zero_is ↦
        let t = be_bytes 3 (ts_24 h.timestamp) in
        let n = be_bytes 3 h.len in
        let ty = h.type_id % 256 ∷ [] in
        let id = le_bytes 4 h.stream_id in
        let all =
          le32_step p mb _ _
            (u8_step p mb _ _
              (u24_step p mb _ _ (u24_step p mb xs out a (ts_24 h.timestamp) (ts_24-lt h.timestamp))
                h.len w.len24)
              h.type_id)
            h.stream_id in
        let same : (((xs ++ t) ++ n) ++ ty) ++ id ≡ xs ++ (t ++ (n ++ (ty ++ id))) =
          simp append_assoc in
        (rw zero_is (Appends-as same all), rw zero_is refl)
    | inr not_zero ↦ elim (Bool-cases (h.format == 1)) [
      | inl one_is ↦
          let t = be_bytes 3 (ts_24 h.timestamp_delta) in
          let n = be_bytes 3 h.len in
          let ty = h.type_id % 256 ∷ [] in
          let all =
            u8_step p mb _ _
              (u24_step p mb _ _
                (u24_step p mb xs out a (ts_24 h.timestamp_delta) (ts_24-lt h.timestamp_delta))
                h.len w.len24)
              h.type_id in
          let same : ((xs ++ t) ++ n) ++ ty ≡ xs ++ (t ++ (n ++ ty)) = simp append_assoc in
          (rw (not_zero, one_is) (Appends-as same all), rw (not_zero, one_is) refl)
      | inr not_one ↦ elim (Bool-cases (h.format == 2)) [
        | inl two_is ↦ (
          rw (not_zero, not_one, two_is)
              (u24_step p mb xs out a (ts_24 h.timestamp_delta) (ts_24-lt h.timestamp_delta)),
          rw (not_zero, not_one, two_is) refl,
        )
        | inr not_two ↦ (
          rw (not_zero, not_one, not_two) (Appends-as (sym (append-nil xs)) a),
          rw (not_zero, not_one, not_two) refl,
        )
      ]
    ]
  ]

  -- What is sent, as one result.
  abbrev pub Encoded : ℕ × Mbuf → Type 0
  Encoded out =
      (rtmp_header_encode p mb h ≡ (out.0, record h { timestamp_ext = sent_ext h }, out.1))
      × Appends mb (header_bytes h) out

  last_part :
      let out = encode_basic_hdr p mb h.format h.chunk_id in
      (out.0 == 0) ≡ true
      → Appends mb (basic_bytes h.format h.chunk_id) out
      → (sent : ℕ × Mbuf) × Encoded sent
  unfolding rtmp_header_encode
  last_part fine a =
      let xs = basic_bytes h.format h.chunk_id in
      let out = encode_basic_hdr p mb h.format h.chunk_id in
      let (fields, same) = encode_fields-Appends xs out a in
      let done = (encode_fields p h out).0 in
      let x = sent_ext h in
      elim (Bool-cases (x == 0)) [
        | inl short ↦ (
          done,
          (
            rw (fine, same, short) refl,
            rw short (Appends-as (sym (ap (λ t. xs ++ t) (append-nil (field_bytes h)))) fields),
          ),
        )
        | inr long ↦ (
          done |= (λ m. write_u32 p m (hton p.endian 4 x)),
          (
            rw (fine, same, long) refl,
            rw long (
                Appends-as (append_assoc xs (field_bytes h) (be_bytes 4 x))
                  (u32_step p mb _ done fields x)),
          ),
        )
      ]

  -- Where the call succeeds, the header's bytes are written, and the header has what was sent.
  pub rtmp_header_encode-Appends :
      IsValid mb → (rtmp_header_encode p mb h).0 ≡ 0 → (sent : Mbuf) × Encoded (0, sent)
  unfolding rtmp_header_encode
  rtmp_header_encode-Appends v z =
      let out = encode_basic_hdr p mb h.format h.chunk_id in
      elim (Bool-cases (out.0 == 0)) [
        | inl fine ↦
            let (sent, (e, a)) =
              last_part fine (encode_basic_hdr-Appends p mb h.format h.chunk_id w.chunk v) in
            let none : sent.0 ≡ 0 = sym (ap (λ (t : ℕ × Header × Mbuf). t.0) e) ∙ z in
            (sent.1, subst (λ n. Encoded (n, sent.1)) none (e, a))
        | inr wrong ↦
            let same : (rtmp_header_encode p mb h).0 ≡ out.0 = rw wrong refl in
            let none : out.0 ≡ 0 = sym same ∙ z in absurd (ground (arith, none, wrong))
      ]
