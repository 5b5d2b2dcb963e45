-- ===== src/Rtp/Header.antt =====
-- src/rtp/rtp.c: `rtp_hdr_encode` and `rtp_hdr_decode`, over the `struct rtp_header` of
-- include/re/re_rtp.h.
pub mod Bytes
pub mod Decode
pub mod RoundTrip
use re_cpm.Base.{
  ℕ, zero, suc, ◌+◌, ◌*◌, ◌/◌, ◌%◌, ◌^◌, ltb, ◌==◌, if◌then◌else◌, Bool, true, false, not,
}
use re_cpm.Base.{List, [], ◌∷◌, get_or, set, bit_and, bit_or, hton}
use re_cpm.Base.Errno.{ebadmsg}
use re_cpm.Platform.{Platform, add_size}
use re_cpm.Mbuf.{Mbuf, get_left, write_mem, read_mem}
use re_cpm.Mbuf.Ints.{write_u16, write_u32, read_u16, read_u32, ◌|=◌}

-- `struct rtp_header`; `csrc` has 16 entries.
pub record Header : Type 0 where
  pub ver : ℕ
  pub pad : Bool
  pub ext : Bool
  pub cc : ℕ
  pub m : Bool
  pub pt : ℕ
  pub seq : ℕ
  pub ts : ℕ
  pub ts_arrive : ℕ
  pub ssrc : ℕ
  pub csrc : List ℕ
  pub x_type : ℕ
  pub x_len : ℕ

abbrev pub rtp_header_size : ℕ
rtp_header_size = 12

-- a C `bool` as a number, and a number as a `bool`
abbrev pub of_bool : Bool → ℕ
of_bool false = 0
of_bool true = 1

abbrev pub to_bool : ℕ → Bool
to_bool n = not (n == 0)

-- The two bytes `buf[0]` and `buf[1]` of the encoder.
unfoldable pub first_byte : Header → ℕ
first_byte h =
    bit_or
      (bit_or (bit_or (bit_and h.ver 0x02 * 2 ^ 6) (bit_and (of_bool h.pad) 0x01 * 2 ^ 5))
        (bit_and (of_bool h.ext) 0x01 * 2 ^ 4))
      (bit_and h.cc 0x0f)

unfoldable pub second_byte : Header → ℕ
second_byte h = bit_or (bit_and (of_bool h.m) 0x01 * 2 ^ 7) (bit_and h.pt 0x7f)

-- The loop over `hdr->csrc[i]`, with the rounds left.
unfoldable pub encode_csrc : Platform → List ℕ → ℕ → ℕ → ℕ × Mbuf → ℕ × Mbuf
encode_csrc p csrc zero i out = out
encode_csrc p csrc (suc n) i out =
    encode_csrc p csrc n (i + 1) (out |= λ mb. write_u32 p mb (hton p.endian 4 (get_or csrc i 0)))

unfoldable pub rtp_hdr_encode : Platform → Mbuf → Header → ℕ × Mbuf
unfolding encode_csrc
rtp_hdr_encode p mb h = encode_csrc p h.csrc h.cc 0 (
    write_mem p mb (first_byte h ∷ second_byte h ∷ [])
    |= (λ mb. write_u16 p mb (hton p.endian 2 h.seq))
    |= (λ mb. write_u32 p mb (hton p.endian 4 h.ts))
    |= (λ mb. write_u32 p mb (hton p.endian 4 h.ssrc)))

-- The fields of the two first bytes.
unfoldable pub decode_flags : Header → ℕ → ℕ → Header
decode_flags h b0 b1 = record h {
  ver = bit_and (b0 / 2 ^ 6) 0x03;
  pad = to_bool (bit_and (b0 / 2 ^ 5) 0x01);
  ext = to_bool (bit_and (b0 / 2 ^ 4) 0x01);
  cc = bit_and b0 0x0f;
  m = to_bool (bit_and (b1 / 2 ^ 7) 0x01);
  pt = bit_and b1 0x7f;
}

-- The three integers.
unfoldable pub decode_words : Platform → Header → Mbuf → Header × Mbuf
decode_words p h mb =
    let (seq, mb1) = read_u16 p mb in
    let (ts, mb2) = read_u32 p mb1 in
    let (ssrc, mb3) = read_u32 p mb2 in
    (
      record h { seq = hton p.endian 2 seq; ts = hton p.endian 4 ts; ssrc = hton p.endian 4 ssrc },
      mb3,
    )

unfoldable pub decode_csrc : Platform → ℕ → ℕ → List ℕ → Mbuf → List ℕ × Mbuf
decode_csrc p zero i csrc mb = (csrc, mb)
decode_csrc p (suc n) i csrc mb =
    let (x, mb') = read_u32 p mb in decode_csrc p n (i + 1) (set csrc i (hton p.endian 4 x)) mb'

-- `if (hdr->ext)`: the header of the extension is read, and its words are skipped.
unfoldable pub decode_ext : Platform → Header → Mbuf → ℕ × Header × Mbuf
decode_ext p h mb =
    if h.ext
    then (if ltb (get_left mb) 4
        then (ebadmsg, h, mb)
        else (let (ty, mb1) = read_u16 p mb in
            let (len, mb2) = read_u16 p mb1 in
            let h' = record h { x_type = hton p.endian 2 ty; x_len = hton p.endian 2 len } in
            if ltb (get_left mb2) (h'.x_len * 4)
            then (ebadmsg, h', mb2)
            else (0, h', record mb2 { pos = add_size mb2.pos (h'.x_len * 4) })))
    else (0, h, mb)

-- The sources, which must be there, and the extension.
unfoldable pub decode_sources : Platform → Header → Mbuf → ℕ × Header × Mbuf
unfolding decode_csrc decode_ext
decode_sources p h mb =
    if ltb (get_left mb) (h.cc * 4)
    then (ebadmsg, h, mb)
    else (let (csrc, mb') = decode_csrc p h.cc 0 h.csrc mb in
        decode_ext p (record h { csrc = csrc }) mb')

-- From the integers on.
unfoldable pub decode_tail : Platform → Header → Mbuf → ℕ × Header × Mbuf
unfolding decode_sources decode_words
decode_tail p h mb = let (h', mb') = decode_words p h mb in decode_sources p h' mb'

unfoldable pub rtp_hdr_decode : Platform → Header → Mbuf → ℕ × Header × Mbuf
unfolding decode_tail
rtp_hdr_decode p h mb =
    if ltb (get_left mb) rtp_header_size
    then (ebadmsg, h, mb)
    else (let (err, buf, mb1) = read_mem mb 2 in
        if err == 0
        then decode_tail p (decode_flags h (get_or buf 0 0) (get_or buf 1 0)) mb1
        else (err, h, mb1))
