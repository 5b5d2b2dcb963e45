-- ===== src/Rtmp/Header/Receive.antt =====
-- `rtmp_header_decode` of src/rtmp/hdr.c on the bytes of a header.
use re_cpm.Base.{
  ℕ, ◌%◌, ◌^◌, ◌<◌, ◌≤◌, ◌≡◌, refl, sym, subst, ◌∙◌, arith, true, false, leb, ltb, ltb-ge, ◌==◌,
  if◌then◌else◌, Bool-cases, inl, inr, List, [], ◌∷◌, ◌++◌, append_assoc, be_bytes, le_bytes,
  length, length-be_bytes,
}
use re_cpm.Platform.{Platform}
use re_cpm.Mbuf.{Mbuf, get_left}
use re_cpm.Mbuf.Ints.{read_u32}
use re_cpm.Mbuf.Inv.{IsValid}
use re_cpm.Mbuf.Cursor.{rest}
use re_cpm.Mbuf.Takes.{get_left-of, read_u8-Takes, read_u32-Takes}
use re_cpm.Rtmp.Header.{
  Header, zeroed, timestamp_24max, ts_24, ts_ext, decode_ext_ts, decode_fields, rtmp_header_decode,
  read_u24_ntoh,
}
use re_cpm.Rtmp.Header.Basic.{basic_bytes, decode_basic_hdr-Takes}
use re_cpm.Rtmp.Header.Words.{read_u24_ntoh-Takes, read_le32-Takes}
use re_cpm.Rtmp.Header.Wire.{IsHeader, field_bytes, sent_ext, ext_bytes, header_bytes, ts_24-lt}

-- What a step of the decoder makes of a header, and what it leaves to be read.
abbrev pub Gives : (ℕ × Header × Mbuf) → Header → List ℕ → Type 0
Gives out h r = (mb' : Mbuf) × (out ≡ (0, h, mb')) × IsValid mb' × (rest mb' ≡ r)

-- The three bytes announce an extended timestamp just when one follows.
ts_ext_none :
    (t : ℕ)
    → leb timestamp_24max t ≡ false
    → (ts_ext t ≡ 0) × (ts_24 t ≡ t) × ((t == timestamp_24max) ≡ false)
unfolding ts_ext ts_24
ts_ext_none t h = (ground arith, ground arith, ground arith)

ts_ext_some :
    (t : ℕ)
    → leb timestamp_24max t ≡ true
    → (ts_ext t ≡ t) × (ts_24 t ≡ timestamp_24max) × ((t == 0) ≡ false)
unfolding ts_ext ts_24
ts_ext_some t h = (ground arith, ground arith, ground arith)

module _ (p : Platform) (mb : Mbuf) (t : ℕ) (r : List ℕ) (small : t < 2 ^ 32) (v : IsValid mb) where
  four_left : rest mb ≡ be_bytes 4 t ++ r → ltb (get_left mb) 4 ≡ false
  four_left b =
      ltb-ge (get_left mb) 4
        (omega (arith, get_left-of mb (be_bytes 4 t) r v b, length-be_bytes 4 t))

  -- The timestamp of a header of format 0, or the difference of one of format 1 or 2.
  decode_ext_ts-time :
      (h : Header)
      → rest mb ≡ ext_bytes (ts_ext t) ++ r
      → Gives
          (decode_ext_ts p
            (record h { timestamp = ts_24 t; timestamp_delta = 0; ext_ts = false })
            mb)
          (record h { timestamp = t; timestamp_delta = 0; ext_ts = leb timestamp_24max t })
          r
  unfolding decode_ext_ts
  decode_ext_ts-time h b = elim (Bool-cases (leb timestamp_24max t)) [
    | inl long ↦
        let (whole, top, some_t) = ts_ext_some t long in
        let b' : rest mb ≡ be_bytes 4 t ++ r = b ∙ rw (whole, some_t) refl in
        let (e, taken) = read_u32-Takes p mb t r v small b' in
        ((read_u32 p mb).1, rw (top, four_left b', e, long) refl, taken.valid, taken.left)
    | inr short ↦
        let (nothing, same, below) = ts_ext_none t short in
        (mb, rw (same, below, short) refl, v, b ∙ rw nothing refl)
  ]

  decode_ext_ts-delta :
      (h : Header)
      → rest mb ≡ ext_bytes (ts_ext t) ++ r
      → Gives
          (decode_ext_ts p
            (record h { timestamp = 0; timestamp_delta = ts_24 t; ext_ts = false })
            mb)
          (record h { timestamp = 0; timestamp_delta = t; ext_ts = leb timestamp_24max t })
          r
  unfolding decode_ext_ts
  decode_ext_ts-delta h b = elim (Bool-cases (leb timestamp_24max t)) [
    | inl long ↦
        let (whole, top, some_t) = ts_ext_some t long in
        let b' : rest mb ≡ be_bytes 4 t ++ r = b ∙ rw (whole, some_t) refl in
        let (e, taken) = read_u32-Takes p mb t r v small b' in
        ((read_u32 p mb).1, rw (top, four_left b', e, long) refl, taken.valid, taken.left)
    | inr short ↦
        let (nothing, same, below) = ts_ext_none t short in
        (mb, rw (same, below, short) refl, v, b ∙ rw nothing refl)
  ]

-- What a header is decoded to: the fields that its format has, the others 0.
abbrev pub received : Header → Header
received h =
    let b = record zeroed { format = h.format; chunk_id = h.chunk_id } in
    if h.format == 0
    then record b {
      timestamp = h.timestamp;
      len = h.len;
      type_id = h.type_id;
      stream_id = h.stream_id;
      ext_ts = leb timestamp_24max h.timestamp;
    }
    else if h.format == 1
    then record b {
      timestamp_delta = h.timestamp_delta;
      len = h.len;
      type_id = h.type_id;
      ext_ts = leb timestamp_24max h.timestamp_delta;
    }
    else if h.format == 2
    then record b {
      timestamp_delta = h.timestamp_delta;
      ext_ts = leb timestamp_24max h.timestamp_delta;
    }
    else b

-- A header of format 3 leaves the extended timestamp to be read.
abbrev pub unread : Header → List ℕ
unread h = if h.format == 3 then ext_bytes h.timestamp_ext else []

module _ (p : Platform) (h : Header) (mb : Mbuf) (r : List ℕ) (w : IsHeader h)
    (v : IsValid mb) where
  abbrev started : Header
  started = record zeroed { format = h.format; chunk_id = h.chunk_id }

  -- The first integer of the formats 0 to 2.
  first_time :
      (t : ℕ) (bytes : List ℕ)
      → rest mb ≡ be_bytes 3 (ts_24 t) ++ bytes
      → ((read_u24_ntoh p mb).0 ≡ ts_24 t)
        × IsValid (read_u24_ntoh p mb).1
        × (rest (read_u24_ntoh p mb).1 ≡ bytes)
  first_time t bytes b =
      let (e, taken) = read_u24_ntoh-Takes p mb (ts_24 t) bytes v (ts_24-lt t) b in
      (e, taken.valid, taken.left)

  enough :
      (n : ℕ) (bytes more : List ℕ)
      → rest mb ≡ bytes ++ more
      → n ≤ length bytes
      → ltb (get_left mb) n ≡ false
  enough n bytes more b k = ltb-ge (get_left mb) n (omega (arith, get_left-of mb bytes more v b))

  byte : h.type_id % 256 ≡ h.type_id
  byte = omega (arith, w)

  decode_zero :
      (h.format == 0) ≡ true
      → rest mb
        ≡ be_bytes 3 (ts_24 h.timestamp)
          ++ (be_bytes 3 h.len
              ++ (h.type_id ∷ (le_bytes 4 h.stream_id ++ (ext_bytes (ts_ext h.timestamp) ++ r))))
      → Gives (decode_fields p started mb) (received h) r
  unfolding decode_fields
  decode_zero f0 b =
      let t = h.timestamp in
      let id = le_bytes 4 h.stream_id in
      let (e1, v1, b1) = first_time t _ b in
      let (e2, t2) = read_u24_ntoh-Takes p _ h.len _ v1 w.len24 b1 in
      let (e3, t3) = read_u8-Takes p _ h.type_id _ t2.valid t2.left in
      let (e4, t4) = read_le32-Takes p _ h.stream_id _ t3.valid w.stream32 t3.left in
      let (mb', out, ok, left) =
        decode_ext_ts-time p _ t r w.time32 t4.valid
          (record started { len = h.len; type_id = h.type_id; stream_id = h.stream_id }) t4.left in
      let room =
        enough 11 (be_bytes 3 (ts_24 t) ++ (be_bytes 3 h.len ++ (h.type_id ∷ id))) _ b
          (omega arith) in
      (mb', rw (f0, room, e1, e2, e3, e4) out, ok, left)

  decode_one :
      (h.format == 0) ≡ false
      → (h.format == 1) ≡ true
      → rest mb
        ≡ be_bytes 3 (ts_24 h.timestamp_delta)
          ++ (be_bytes 3 h.len ++ (h.type_id ∷ (ext_bytes (ts_ext h.timestamp_delta) ++ r)))
      → Gives (decode_fields p started mb) (received h) r
  unfolding decode_fields
  decode_one n0 f1 b =
      let t = h.timestamp_delta in
      let (e1, v1, b1) = first_time t _ b in
      let (e2, t2) = read_u24_ntoh-Takes p _ h.len _ v1 w.len24 b1 in
      let (e3, t3) = read_u8-Takes p _ h.type_id _ t2.valid t2.left in
      let (mb', out, ok, left) =
        decode_ext_ts-delta p _ t r w.delta32 t3.valid
          (record started { len = h.len; type_id = h.type_id }) t3.left in
      let room =
        enough 7 (be_bytes 3 (ts_24 t) ++ (be_bytes 3 h.len ++ (h.type_id ∷ []))) _ b
          (omega arith) in
      (mb', rw (n0, f1, room, e1, e2, e3) out, ok, left)

  decode_two :
      (h.format == 0) ≡ false
      → (h.format == 1) ≡ false
      → (h.format == 2) ≡ true
      → rest mb
        ≡ be_bytes 3 (ts_24 h.timestamp_delta) ++ (ext_bytes (ts_ext h.timestamp_delta) ++ r)
      → Gives (decode_fields p started mb) (received h) r
  unfolding decode_fields
  decode_two n0 n1 f2 b =
      let t = h.timestamp_delta in
      let (e1, v1, b1) = first_time t _ b in
      let (mb', out, ok, left) = decode_ext_ts-delta p _ t r w.delta32 v1 started b1 in
      let room = enough 3 (be_bytes 3 (ts_24 t)) _ b (omega arith) in
      (mb', rw (n0, n1, f2, room, e1) out, ok, left)

  nothing_unread : (h.format == 3) ≡ false → unread h ++ r ≡ r
  nothing_unread other = rw other refl

  pub decode_fields-Gives :
      rest mb ≡ field_bytes h ++ (ext_bytes (sent_ext h) ++ r)
      → Gives (decode_fields p started mb) (received h) (unread h ++ r)
  unfolding decode_fields decode_ext_ts
  decode_fields-Gives b = elim (Bool-cases (h.format == 0)) [
    | inl f0 ↦
        subst (Gives (decode_fields p started mb) (received h))
          (sym (nothing_unread (ground arith))) (decode_zero f0 (b ∙ rw (f0, byte) refl))
    | inr n0 ↦ elim (Bool-cases (h.format == 1)) [
      | inl f1 ↦
          subst (Gives (decode_fields p started mb) (received h))
            (sym (nothing_unread (ground arith))) (decode_one n0 f1 (b ∙ rw (n0, f1, byte) refl))
      | inr n1 ↦ elim (Bool-cases (h.format == 2)) [
        | inl f2 ↦
            subst (Gives (decode_fields p started mb) (received h))
              (sym (nothing_unread (ground arith))) (decode_two n0 n1 f2 (b ∙ rw (n0, n1, f2) refl))
        | inr n2 ↦
            let three : (h.format == 3) ≡ true = ground (arith, w) in
            (mb, rw (n0, n1, n2) refl, v, b ∙ rw (n0, n1, n2, three) refl)
      ]
    ]
  ]

-- The bytes of a header, whatever follows them, are decoded to what its format has of it.
pub rtmp_header_decode-Gives :
    (p : Platform) (h old : Header) (mb : Mbuf) (r : List ℕ)
    → IsHeader h
    → IsValid mb
    → rest mb ≡ header_bytes h ++ r
    → Gives (rtmp_header_decode p old mb) (received h) (unread h ++ r)
unfolding rtmp_header_decode
rtmp_header_decode-Gives p h old mb r w v b =
    let more = field_bytes h ++ (ext_bytes (sent_ext h) ++ r) in
    let b' : rest mb ≡ basic_bytes h.format h.chunk_id ++ more = b ∙ simp append_assoc in
    let (mb1, e1, v1, b1) =
      decode_basic_hdr-Takes p h.format h.chunk_id zeroed mb more v w.chunk b' in
    let (mb2, e2, v2, b2) = decode_fields-Gives p h mb1 r w v1 b1 in (mb2, rw (e1, e2) refl, v2, b2)
