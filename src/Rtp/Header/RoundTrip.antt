-- ===== src/Rtp/Header/RoundTrip.antt =====
-- An RTP header that `rtp_hdr_encode` of src/rtp/rtp.c wrote is read back by `rtp_hdr_decode`.
use re_cpm.Base.{ℕ, zero, suc, ◌+◌, ◌*◌, ◌≤◌, ◌≡◌, refl, ap, subst, ◌∙◌, arith, false, ltb, ltb-ge}
use re_cpm.Base.{
  List, [], ◌∷◌, ◌++◌, append_assoc, length, take, drop, get_or, be_bytes, length-append,
  length-be_bytes,
}
use re_cpm.Platform.{Platform}
use re_cpm.Mbuf.{Mbuf, set_pos, get_left, read_mem}
use re_cpm.Mbuf.Inv.{IsValid}
use re_cpm.Mbuf.Cursor.{rest}
use re_cpm.Mbuf.Words.{Appends-rewound}
use re_cpm.Mbuf.Takes.{Takes, Takes-trans, read_mem-Takes, get_left-of}
use re_cpm.Rtp.Header.{
  Header, rtp_hdr_encode, rtp_hdr_decode, decode_tail, decode_words, decode_sources, decode_csrc,
  decode_ext, first_byte, second_byte,
}
use re_cpm.Rtp.Header.Bytes.{
  IsEncodable, decode_flags-eq, csrc_bytes, fixed_bytes, header_bytes, rtp_hdr_encode-Appends,
}
use re_cpm.Rtp.Header.Decode.{IsWords, decode_words-Takes, decode_csrc-Takes}

length-csrc_bytes : (csrc : List ℕ) (n i : ℕ) → length (csrc_bytes csrc n i) ≡ n * 4
length-csrc_bytes csrc zero i = refl
length-csrc_bytes csrc (suc n) i = omega (
  arith,
  length-append {0} (be_bytes 4 (get_or csrc i 0)) (csrc_bytes csrc n (i + 1)),
  length-be_bytes 4 (get_or csrc i 0),
  length-csrc_bytes csrc n (i + 1),
)

length-header_bytes : (h : Header) → length (header_bytes h) ≡ 12 + h.cc * 4
length-header_bytes h =
    let two = first_byte h ∷ second_byte h ∷ [] in
    omega (
      arith,
      length-append {0} (fixed_bytes h) (csrc_bytes h.csrc h.cc 0),
      length-append {0} ((two ++ be_bytes 2 h.seq) ++ be_bytes 4 h.ts) (be_bytes 4 h.ssrc),
      length-append {0} (two ++ be_bytes 2 h.seq) (be_bytes 4 h.ts),
      length-append {0} two (be_bytes 2 h.seq),
      length-be_bytes 2 h.seq,
      length-be_bytes 4 h.ts,
      length-be_bytes 4 h.ssrc,
      length-csrc_bytes h.csrc h.cc 0,
    )

-- The header that the decoder fills from the bytes of `h`, if there is no extension: the sources
-- beyond the count, the arrival time and the extension's fields are those that stood there.
abbrev pub received : Header → Header → Header
received h old = record h {
  ts_arrive = old.ts_arrive;
  csrc = take h.cc h.csrc ++ drop h.cc old.csrc;
  x_type = old.x_type;
  x_len = old.x_len;
}

-- What stands behind the first two bytes.
abbrev tail_bytes : Header → List ℕ → List ℕ
tail_bytes h r =
    be_bytes 2 h.seq ++ (be_bytes 4 h.ts ++ (be_bytes 4 h.ssrc ++ (csrc_bytes h.csrc h.cc 0 ++ r)))

header_bytes-tail :
    (h : Header) (r : List ℕ)
    → header_bytes h ++ r ≡ (first_byte h ∷ second_byte h ∷ []) ++ tail_bytes h r
header_bytes-tail h r = simp append_assoc

decode_sources-Takes :
    (p : Platform) (h old : Header) (mb : Mbuf) (r : List ℕ)
    → IsValid mb
    → IsWords h
    → h.cc ≤ 15
    → old.cc ≡ h.cc
    → length old.csrc ≡ 16
    → rest mb ≡ csrc_bytes h.csrc h.cc 0 ++ r
    → (mb' : Mbuf) × (decode_sources p old mb
        ≡ decode_ext p (record old { csrc = take h.cc h.csrc ++ drop h.cc old.csrc }) mb')
      × Takes mb (h.cc * 4) r mb'
unfolding decode_sources
decode_sources-Takes p h old mb r v w c s o b =
    let (e, t) =
      decode_csrc-Takes p h old.csrc h.cc 0 h.cc mb r v w o (omega arith) (omega arith) b in
    let enough : ltb (get_left mb) (h.cc * 4) ≡ false = ltb-ge (get_left mb) (h.cc * 4) (
      omega (
        arith,
        get_left-of mb (csrc_bytes h.csrc h.cc 0) r v b,
        length-csrc_bytes h.csrc h.cc 0,
      )) in
    let mb' = (decode_csrc p h.cc 0 old.csrc mb).1 in
    (mb', rw (s, enough) (ap (λ x. decode_ext p (record old { cc = h.cc; csrc = x }) mb') e), t)

-- From the integers to the sources.
decode_tail-Takes :
    (p : Platform) (h old : Header) (mb : Mbuf) (r : List ℕ)
    → IsValid mb
    → IsWords h
    → h.cc ≤ 15
    → old.cc ≡ h.cc
    → length old.csrc ≡ 16
    → rest mb ≡ tail_bytes h r
    → (mb' : Mbuf) × (decode_tail p old mb
        ≡ decode_ext p
            (record old {
              seq = h.seq;
              ts = h.ts;
              ssrc = h.ssrc;
              csrc = take h.cc h.csrc ++ drop h.cc old.csrc;
            })
            mb')
      × Takes mb (10 + h.cc * 4) r mb'
unfolding decode_tail
decode_tail-Takes p h old mb r v w c s o b =
    let mb1 = (decode_words p old mb).1 in
    let (e1, t1) = decode_words-Takes p h old mb (csrc_bytes h.csrc h.cc 0 ++ r) v w b in
    let (mb2, e2, t2) =
      decode_sources-Takes p h (record old { seq = h.seq; ts = h.ts; ssrc = h.ssrc }) mb1 r t1.valid
        w c s o t1.left in
    (mb2, ap (λ x. decode_sources p x mb1) e1 ∙ e2, Takes-trans 10 (h.cc * 4) t1 t2)

module _ (p : Platform) (h old : Header) (mb : Mbuf) (e : IsEncodable h) (w : IsWords h) where
  -- Up to the extension.
  decode-fixed :
      (r : List ℕ)
      → IsValid mb
      → length old.csrc ≡ 16
      → rest mb ≡ header_bytes h ++ r
      → (mb' : Mbuf) × (rtp_hdr_decode p old mb ≡ decode_ext p (received h old) mb')
        × Takes mb (12 + h.cc * 4) r mb'
  unfolding rtp_hdr_decode
  decode-fixed r v o b =
      let two = first_byte h ∷ second_byte h ∷ [] in
      let (z, got, t1) =
        read_mem-Takes mb two (tail_bytes h r) 2 v refl (b ∙ header_bytes-tail h r) in
      let (mb', e2, t2) =
        decode_tail-Takes p h
          (record old { ver = h.ver; pad = h.pad; ext = h.ext; cc = h.cc; m = h.m; pt = h.pt })
          (read_mem mb 2).2 r t1.valid w e.sources refl o t1.left in
      let enough : ltb (get_left mb) 12 ≡ false =
        ltb-ge (get_left mb) 12
          (omega (arith, get_left-of mb (header_bytes h) r v b, length-header_bytes h)) in
      let count : 2 + (10 + h.cc * 4) ≡ 12 + h.cc * 4 = omega arith in
      (
        mb',
        rw (enough, z, got)
            (ap (λ x. decode_tail p x (read_mem mb 2).2) (decode_flags-eq h old e) ∙ e2),
        subst (λ n. Takes mb n r mb') count (Takes-trans 2 (10 + h.cc * 4) t1 t2),
      )

  -- A header without an extension is read back, whatever follows it.
  pub rtp_hdr_decode-Takes :
      (r : List ℕ)
      → IsValid mb
      → length old.csrc ≡ 16
      → h.ext ≡ false
      → rest mb ≡ header_bytes h ++ r
      → (mb' : Mbuf) × (rtp_hdr_decode p old mb ≡ (0, received h old, mb'))
        × Takes mb (12 + h.cc * 4) r mb'
  unfolding decode_ext
  rtp_hdr_decode-Takes r v o x b =
      let (mb', e1, t) = decode-fixed r v o b in (mb', e1 ∙ rw x refl, t)

-- RTP round trip: a version 2 header with at most 15 sources and no extension, whose fields fit
-- their widths, encoded into any valid buffer without an error, is read back from where it was
-- written: each field that the wire carries is the encoder's, and the position comes to where the
-- encoder left it, 12 bytes and 4 for each source further.
pub rtp_hdr_decode-encode :
    (p : Platform) (h old : Header) (mb : Mbuf)
    → IsEncodable h
    → IsWords h
    → IsValid mb
    → length old.csrc ≡ 16
    → h.ext ≡ false
    → (rtp_hdr_encode p mb h).0 ≡ 0
    → let sent = (rtp_hdr_encode p mb h).1 in
      let (err, h', mb') = rtp_hdr_decode p old (set_pos sent mb.pos) in
      (err ≡ 0) × (h' ≡ received h old) × (mb'.pos ≡ sent.pos) × (sent.pos ≡ mb.pos + 12 + h.cc * 4)
unfolding set_pos
rtp_hdr_decode-encode p h old mb e w v o x z =
    let a = rtp_hdr_encode-Appends p mb h v in
    let out = rtp_hdr_encode p mb h in
    let (v', b) = Appends-rewound mb (header_bytes h) out v a z in
    let (mb', e1, t) =
      rtp_hdr_decode-Takes p h old (set_pos out.1 mb.pos) e w
        (drop (length (header_bytes h)) (rest mb)) v' o x b in
    (
      ap (λ r. r.0) e1,
      ap (λ r. r.1) e1,
      ap (λ r. r.2.pos) e1 ∙ omega (arith, t.at, a.at z, length-header_bytes h),
      omega (arith, a.at z, length-header_bytes h),
    )
