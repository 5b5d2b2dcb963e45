-- ===== src/Rtp/Header/Bytes.antt =====
-- The two first bytes of the RTP header of src/rtp/rtp.c as arithmetic.
use re_cpm.Base.{
  ℕ, zero, suc, ◌+◌, ◌*◌, ◌/◌, ◌%◌, ◌^◌, ◌≤◌, ◌<◌, ◌≡◌, refl, ◌∙◌, arith, Bool, true, false,
}
use re_cpm.Base.{bit_and, bit_or, List, [], ◌∷◌, ◌++◌, append-nil, append_assoc, get_or, be_bytes}
use re_cpm.Base.Bits.{bit_and-mask, bit_or-add}
use re_cpm.Platform.{Platform}
use re_cpm.Mbuf.{Mbuf}
use re_cpm.Mbuf.Inv.{IsValid}
use re_cpm.Mbuf.Words.{Appends, write_mem-Appends, u16_step, u32_step}
use re_cpm.Rtp.Header.{
  Header, encode_csrc, rtp_hdr_encode, of_bool, to_bool, first_byte, second_byte, decode_flags,
}

-- What the encoder can carry: version 2, at most 15 sources, a payload type of 7 bits.
pub record IsEncodable (h : Header) : Type 0 where
  pub version : h.ver ≡ 2
  pub sources : h.cc ≤ 15
  pub payload : h.pt < 128

of_bool-lt : (b : Bool) → of_bool b < 2
of_bool-lt true = omega arith
of_bool-lt false = omega arith

bool_mask : (b : Bool) → bit_and (of_bool b) 0x01 ≡ of_bool b
bool_mask true = refl
bool_mask false = refl

flag_bits :
    (pad ext : Bool) (c : ℕ)
    → c < 16
    → bit_or (bit_or (bit_or 128 (of_bool pad * 32)) (of_bool ext * 16)) c
      ≡ 128 + of_bool pad * 32 + of_bool ext * 16 + c
flag_bits true true c h = bit_or-add 4 11 c h
flag_bits true false c h = bit_or-add 4 10 c h
flag_bits false true c h = bit_or-add 4 9 c h
flag_bits false false c h = bit_or-add 4 8 c h

pub first_byte-eq :
    (h : Header)
    → IsEncodable h
    → first_byte h ≡ 128 + of_bool h.pad * 32 + of_bool h.ext * 16 + h.cc
unfolding first_byte
first_byte-eq h e =
    rw (e.version, bool_mask h.pad, bool_mask h.ext, bit_and-mask 4 h.cc)
      (flag_bits h.pad h.ext (h.cc % 2 ^ 4) (omega arith) ∙ omega (arith, e))

pub second_byte-eq : (h : Header) → IsEncodable h → second_byte h ≡ of_bool h.m * 128 + h.pt
unfolding second_byte
second_byte-eq h e =
    rw (bool_mask h.m, bit_and-mask 7 h.pt, bit_or-add 7 (of_bool h.m) (h.pt % 2 ^ 7) (omega arith))
      (omega (arith, e))

to_bool-of_bool : (b : Bool) (n : ℕ) → n ≡ of_bool b → to_bool n ≡ b
to_bool-of_bool true n e = rw e
to_bool-of_bool false n e = rw e

-- The flags of a header that can be encoded are read back.
pub decode_flags-eq :
    (h old : Header)
    → IsEncodable h
    → decode_flags old (first_byte h) (second_byte h)
      ≡ record old { ver = h.ver; pad = h.pad; ext = h.ext; cc = h.cc; m = h.m; pt = h.pt }
unfolding decode_flags
decode_flags-eq h old e =
    let b0 = first_byte h in
    let b1 = second_byte h in
    let e0 = first_byte-eq h e in
    let e1 = second_byte-eq h e in
    let p = of_bool-lt h.pad in
    let x = of_bool-lt h.ext in
    let ver : bit_and (b0 / 64) 0x03 ≡ h.ver = bit_and-mask 2 (b0 / 64) ∙ omega (arith, e) in
    let cc : bit_and b0 0x0f ≡ h.cc = bit_and-mask 4 b0 ∙ omega (arith, e) in
    let pt : bit_and b1 0x7f ≡ h.pt = bit_and-mask 7 b1 ∙ omega (arith, e) in
    let pad : to_bool (bit_and (b0 / 32) 0x01) ≡ h.pad =
      to_bool-of_bool h.pad _ (bit_and-mask 1 (b0 / 32) ∙ omega (arith, e)) in
    let ext : to_bool (bit_and (b0 / 16) 0x01) ≡ h.ext =
      to_bool-of_bool h.ext _ (bit_and-mask 1 (b0 / 16) ∙ omega (arith, e)) in
    let m : to_bool (bit_and (b1 / 128) 0x01) ≡ h.m =
      to_bool-of_bool h.m _ (bit_and-mask 1 (b1 / 128) ∙ omega (arith, e, of_bool-lt h.m)) in
    λ i. record old { ver = ver i; pad = pad i; ext = ext i; cc = cc i; m = m i; pt = pt i }

-- The bytes of `n` sources from index `i` on.
abbrev pub csrc_bytes : List ℕ → ℕ → ℕ → List ℕ
csrc_bytes csrc zero i = []
csrc_bytes csrc (suc n) i = be_bytes 4 (get_or csrc i 0) ++ csrc_bytes csrc n (i + 1)

abbrev pub fixed_bytes : Header → List ℕ
fixed_bytes h =
    (((first_byte h ∷ second_byte h ∷ []) ++ be_bytes 2 h.seq) ++ be_bytes 4 h.ts)
    ++ be_bytes 4 h.ssrc

-- The header on the wire (RFC 3550, section 5.1).
abbrev pub header_bytes : Header → List ℕ
header_bytes h = fixed_bytes h ++ csrc_bytes h.csrc h.cc 0

encode_csrc-Appends :
    (p : Platform) (csrc : List ℕ) (n i : ℕ) (mb : Mbuf) (xs : List ℕ) (out : ℕ × Mbuf)
    → Appends mb xs out
    → Appends mb (xs ++ csrc_bytes csrc n i) (encode_csrc p csrc n i out)
unfolding encode_csrc
encode_csrc-Appends p csrc zero i mb xs out a = rw append-nil a
encode_csrc-Appends p csrc (suc n) i mb xs out a =
    let word = be_bytes 4 (get_or csrc i 0) in
    let step = u32_step p mb xs out a (get_or csrc i 0) in
    rw (append_assoc xs word (csrc_bytes csrc n (i + 1))) at
      (encode_csrc-Appends p csrc n (i + 1) mb (xs ++ word) _ step)

-- `rtp_hdr_encode` writes exactly the header's bytes, on every buffer that can grow.
pub rtp_hdr_encode-Appends :
    (p : Platform) (mb : Mbuf) (h : Header)
    → IsValid mb
    → Appends mb (header_bytes h) (rtp_hdr_encode p mb h)
unfolding rtp_hdr_encode
rtp_hdr_encode-Appends p mb h v =
    let a1 = write_mem-Appends p mb (first_byte h ∷ second_byte h ∷ []) v (omega arith) in
    let a2 = u16_step p mb _ _ a1 h.seq in
    let a3 = u32_step p mb _ _ a2 h.ts in
    let a4 = u32_step p mb _ _ a3 h.ssrc in
    encode_csrc-Appends p h.csrc h.cc 0 mb (fixed_bytes h) _ a4
