-- ===== src/Stun/Header/RoundTrip.antt =====
-- A STUN header that `stun_hdr_encode` of src/stun/hdr.c wrote is read back, and what is accepted
-- is well formed.
use re_cpm.Base.{
  ==_iff, hton, ℕ, ◌+◌, ◌*◌, ◌/◌, ◌%◌, ◌≤◌, ◌<◌, ◌^◌, ◌≡◌, refl, sym, ap, subst, ◌∙◌, arith, false,
  ltb, ltb-ge, ◌==◌, bit_and, ltb-false, Bool-cases, inl, inr,
}
use re_cpm.Base.{
  List, [], ◌++◌, append_assoc, length, drop, be_bytes, length-append, length-be_bytes,
}
use re_cpm.Base.Bits.{bit_and-mask, bit_and-shift}
use re_cpm.Platform.{Platform}
use re_cpm.Mbuf.{Mbuf, set_pos, get_left, read_mem, write_mem}
use re_cpm.Mbuf.Ints.{read_u16, read_u32}
use re_cpm.Mbuf.Inv.{IsValid}
use re_cpm.Mbuf.Cursor.{rest}
use re_cpm.Mbuf.Words.{
  Appends, Appends-trans, Appends-nil, Appends-rewound, write_mem-Appends, u16_step, u32_step,
  mem_step,
}
use re_cpm.Mbuf.Takes.{
  Takes, Takes-trans, read_mem-Takes, read_u16-Takes, read_u32-Takes, get_left-of,
}
use re_cpm.Stun.Header.{Header, stun_hdr_encode, stun_hdr_decode, decode_len, decode_body}

-- A header as the protocol has it: two zero bits before the type, a length in words of 4 bytes.
pub record IsHeader (h : Header) : Type 0 where
  pub ty14 : h.ty < 2 ^ 14
  pub len16 : h.len < 2 ^ 16
  pub padded : h.len % 4 ≡ 0
  pub cookie32 : h.cookie < 2 ^ 32
  pub tid12 : length h.tid ≡ 12

-- The 20 bytes of RFC 5389, section 6.
abbrev pub header_bytes : Header → List ℕ
header_bytes h = be_bytes 2 h.ty ++ (be_bytes 2 h.len ++ (be_bytes 4 h.cookie ++ h.tid))

length-header_bytes : (h : Header) → IsHeader h → length (header_bytes h) ≡ 20
length-header_bytes h w = omega (
  arith,
  w,
  length-append {0} (be_bytes 2 h.ty) (be_bytes 2 h.len ++ (be_bytes 4 h.cookie ++ h.tid)),
  length-append {0} (be_bytes 2 h.len) (be_bytes 4 h.cookie ++ h.tid),
  length-append {0} (be_bytes 4 h.cookie) h.tid,
  length-be_bytes 2 h.ty,
  length-be_bytes 2 h.len,
  length-be_bytes 4 h.cookie,
)

-- `stun_hdr_encode` writes those bytes.
pub stun_hdr_encode-Appends :
    (p : Platform) (mb : Mbuf) (h : Header)
    → IsHeader h
    → IsValid mb
    → Appends mb (header_bytes h) (stun_hdr_encode p mb h)
unfolding stun_hdr_encode
stun_hdr_encode-Appends p mb h w v =
    let ty : bit_and h.ty 0x3fff ≡ h.ty = bit_and-mask 14 h.ty ∙ omega (arith, w) in
    let a1 = u16_step p mb _ _ (Appends-nil mb v) (bit_and h.ty 0x3fff) in
    let a2 = u16_step p mb _ _ a1 h.len in
    let a3 = u32_step p mb _ _ a2 h.cookie in
    let a4 = mem_step p mb _ _ a3 h.tid (omega (arith, w)) in
    subst (λ bs. Appends mb bs (stun_hdr_encode p mb h)) (simp ty) a4

-- What follows the header must be there.
decode_body-Takes :
    (p : Platform) (h old : Header) (mb : Mbuf) (r : List ℕ)
    → IsValid mb
    → IsHeader h
    → old.len ≤ length r
    → rest mb ≡ be_bytes 4 h.cookie ++ (h.tid ++ r)
    → (mb' : Mbuf) × (decode_body p old mb
        ≡ (0, record old { cookie = h.cookie; tid = h.tid }, mb'))
      × Takes mb 16 r mb'
unfolding decode_body
decode_body-Takes p h old mb r v w l b =
    let (e1, t1) = read_u32-Takes p mb h.cookie (h.tid ++ r) v w.cookie32 b in
    let mb1 = (read_u32 p mb).1 in
    let (z, e2, t2) = read_mem-Takes mb1 h.tid r 12 t1.valid (sym w.tid12) t1.left in
    let enough : ltb (get_left (read_mem mb1 12).2) old.len ≡ false =
      ltb-ge _ old.len (omega (arith, get_left-of (read_mem mb1 12).2 [] r t2.valid t2.left)) in
    ((read_mem mb1 12).2, rw (z, enough, e1, e2) refl, Takes-trans 4 12 t1 t2)

decode_len-Takes :
    (p : Platform) (h old : Header) (mb : Mbuf) (r : List ℕ)
    → IsValid mb
    → IsHeader h
    → h.len ≤ length r
    → rest mb ≡ be_bytes 2 h.len ++ (be_bytes 4 h.cookie ++ (h.tid ++ r))
    → (mb' : Mbuf) × (decode_len p old mb
        ≡ (0, record old { len = h.len; cookie = h.cookie; tid = h.tid }, mb'))
      × Takes mb 18 r mb'
unfolding decode_len
decode_len-Takes p h old mb r v w l b =
    let (e1, t1) = read_u16-Takes p mb h.len _ v w.len16 b in
    let (mb', e2, t2) =
      decode_body-Takes p h (record old { len = h.len }) _ r t1.valid w l t1.left in
    let mask : bit_and h.len 3 ≡ 0 = bit_and-mask 2 h.len ∙ w.padded in
    (mb', rw (e1, mask) e2, Takes-trans 2 16 t1 t2)

-- A header on the wire is read, if the bytes that it announces follow it.
pub stun_hdr_decode-Takes :
    (p : Platform) (h old : Header) (mb : Mbuf) (r : List ℕ)
    → IsValid mb
    → IsHeader h
    → h.len ≤ length r
    → rest mb ≡ header_bytes h ++ r
    → (mb' : Mbuf) × (stun_hdr_decode p mb old ≡ (0, h, mb')) × Takes mb 20 r mb'
unfolding stun_hdr_decode
stun_hdr_decode-Takes p h old mb r v w l b =
    let (e1, t1) =
      read_u16-Takes p mb h.ty (be_bytes 2 h.len ++ (be_bytes 4 h.cookie ++ (h.tid ++ r))) v
        (omega (arith, w)) (b ∙ simp append_assoc) in
    let (mb', e2, t2) = decode_len-Takes p h (record old { ty = h.ty }) _ r t1.valid w l t1.left in
    let high : h.ty / 2 ^ 14 ≡ 0 = omega (arith, w) in
    let mask : bit_and h.ty 0xc000 ≡ 0 =
      bit_and-shift 14 h.ty 3 ∙ ap (λ x. bit_and x 3 * 2 ^ 14) high ∙ refl in
    let enough : ltb (get_left mb) 20 ≡ false =
      ltb-ge (get_left mb) 20
        (omega (arith, get_left-of mb (header_bytes h) r v b, length-header_bytes h w)) in
    (mb', rw (enough, e1, mask) e2, Takes-trans 2 18 t1 t2)

-- STUN round trip: a well formed header, encoded into a valid buffer, with the announced bytes
-- written behind it, and no error, is read back whole from where it was written.
pub stun_hdr_decode-encode :
    (p : Platform) (h old : Header) (mb : Mbuf) (body : List ℕ)
    → IsHeader h
    → IsValid mb
    → length body ≡ h.len
    → (stun_hdr_encode p mb h).0 ≡ 0
    → (write_mem p (stun_hdr_encode p mb h).1 body).0 ≡ 0
    → let sent = (write_mem p (stun_hdr_encode p mb h).1 body).1 in
      let (err, h', mb') = stun_hdr_decode p (set_pos sent mb.pos) old in
      (err ≡ 0) × (h' ≡ h) × (mb'.pos ≡ mb.pos + 20)
unfolding set_pos
stun_hdr_decode-encode p h old mb body w v l z s =
    let a = stun_hdr_encode-Appends p mb h w v in
    let out = write_mem p (stun_hdr_encode p mb h).1 body in
    let b = write_mem-Appends p (stun_hdr_encode p mb h).1 body a.valid (omega (arith, w)) in
    let both = Appends-trans mb (header_bytes h) body (stun_hdr_encode p mb h) out z a b in
    let (v', r) = Appends-rewound mb (header_bytes h ++ body) out v both s in
    let tail = drop (length (header_bytes h ++ body)) (rest mb) in
    let (m, e, t) =
      stun_hdr_decode-Takes p h old (set_pos out.1 mb.pos) (body ++ tail) v' w
        (omega (arith, length-append {0} body tail))
        (r ∙ append_assoc (header_bytes h) body tail) in
    (ap (λ x. x.0) e, ap (λ x. x.1) e, ap (λ x. x.2.pos) e ∙ t.at)

decode_body_accepts :
    (p : Platform) (h : Header) (mb : Mbuf)
    → let (err, h', mb') = decode_body p h mb in
      (h'.ty ≡ h.ty) × (h'.len ≡ h.len) × (err ≡ 0 → h.len ≤ get_left mb')
unfolding decode_body
decode_body_accepts p h mb =
    elim (Bool-cases (ltb (get_left (read_mem (read_u32 p mb).1 12).2) h.len)) [
      | inl short ↦ rw short (refl, refl, λ e. absurd (omega arith))
      | inr enough ↦ rw enough (refl, refl, λ _. ltb-false _ h.len enough)
    ]

decode_len_accepts :
    (p : Platform) (h : Header) (mb : Mbuf)
    → let (err, h', mb') = decode_len p h mb in
      (h'.ty ≡ h.ty) × (err ≡ 0 → (bit_and h'.len 3 ≡ 0) × (h'.len ≤ get_left mb'))
unfolding decode_len
decode_len_accepts p h mb =
    let len = hton p.endian 2 (read_u16 p mb).0 in
    let (same, l, body) = decode_body_accepts p (record h { len = len }) (read_u16 p mb).1 in
    elim (Bool-cases (bit_and len 3 == 0)) [
      | inl fine ↦ rw fine (same, λ e. (rw l ((==_iff _ _).0 fine), rw l (body e)))
      | inr odd ↦ rw odd (refl, λ e. absurd (omega arith))
    ]

-- What `stun_hdr_decode` accepts: the two high bits of the type are clear, the length is in words of
-- 4 bytes, and so many bytes are left behind the header.
pub stun_hdr_decode_accepts :
    (p : Platform) (mb : Mbuf) (old : Header)
    → let (err, h, mb') = stun_hdr_decode p mb old in
      err ≡ 0 → (bit_and h.ty 0xc000 ≡ 0) × (h.len % 4 ≡ 0) × (h.len ≤ get_left mb')
unfolding stun_hdr_decode
stun_hdr_decode_accepts p mb old =
    let ty = hton p.endian 2 (read_u16 p mb).0 in
    let (same, rest) = decode_len_accepts p (record old { ty = ty }) (read_u16 p mb).1 in
    elim (Bool-cases (ltb (get_left mb) 20)) [
      | inl short ↦ rw short (λ e. absurd (omega arith))
      | inr enough ↦ elim (Bool-cases (bit_and ty 0xc000 == 0)) [
        | inl fine ↦
            rw (enough, fine)
              (λ e.
                (rw same ((==_iff _ _).0 fine), sym (bit_and-mask 2 _) ∙ (rest e).0, (rest e).1))
        | inr odd ↦ rw (enough, odd) (λ e. absurd (omega arith))
      ]
    ]
