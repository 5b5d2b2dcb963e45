-- ===== src/Tests/Codecs.antt =====
-- Runs of the codecs: src/base64/b64.c, src/rtp/rtp.c, src/stun/hdr.c.
use re_cpm.Base.{
  ℕ, ◌+◌, ◌*◌, ◌%◌, ◌<◌, ◌≤◌, ◌≡◌, refl, arith, true, false, List, [], ◌∷◌, length, replicate,
  bit_and, hton, host_value,
}
use re_cpm.Base.Errno.{eoverflow}
use re_cpm.Mbuf.{Mbuf, set_pos, get_left, write_mem, read_mem}
use re_cpm.Mbuf.Ints.{read_u16, read_u32}
use re_cpm.Mbuf.Words.{Appends, write_mem-Appends}
use re_cpm.Base64.{codes, base64_encode, base64_decode}
use re_cpm.Base64.RoundTrip.{base64_decode-encode}
use re_cpm.Base64.Bounds.{decode_overrun}
use re_cpm.Rtp.Header.{Header, rtp_hdr_encode, rtp_hdr_decode}
use re_cpm.Rtp.Header.Bytes.{IsEncodable, rtp_hdr_encode-Appends}
use re_cpm.Rtp.Header.Decode.{IsWords}
use re_cpm.Rtp.Header.RoundTrip.{received, rtp_hdr_decode-encode}
use re_cpm.Stun.Header.{Header as StunHeader, stun_hdr_encode, stun_hdr_decode}
use re_cpm.Stun.Header.RoundTrip.{
  IsHeader, header_bytes, stun_hdr_encode-Appends, stun_hdr_decode-encode, stun_hdr_decode_accepts,
}
use re_cpm.Tests.Host.{host, blank, blank-IsValid}

encode_two_bytes : base64_encode (b'M' ∷ b'a' ∷ []) 4 ≡ (0, codes "TWE=")
unfolding base64_encode
encode_two_bytes = refl

decode_two_bytes : base64_decode (codes "TWE=") 3 ≡ (0, b'M' ∷ b'a' ∷ [])
unfolding base64_decode
decode_two_bytes = refl

encode_no_room : base64_encode (1 ∷ []) 3 ≡ (eoverflow, [])
unfolding base64_encode
encode_no_room = refl

base64_decode-encode_example :
    let (err, text) = base64_encode (77 ∷ 97 ∷ []) 4 in
    (err ≡ 0) × (base64_decode text 3 ≡ (0, 77 ∷ 97 ∷ []))
base64_decode-encode_example =
    base64_decode-encode (77 ∷ 97 ∷ []) 4 3 (omega arith) (omega arith) (omega arith) (omega arith)

-- Two characters, and no room at all: a byte is written.
decode_overrun_example :
    let (err, out) = base64_decode (codes "TQ") 0 in (err ≡ 0) × (length out ≡ 1) × (0 < length out)
decode_overrun_example = decode_overrun (codes "TQ") (omega arith) (omega arith) (omega arith)

abbrev packet : Header
packet = record {
  ver = 2;
  pad = false;
  ext = false;
  cc = 1;
  m = true;
  pt = 96;
  seq = 4660;
  ts = 160;
  ts_arrive = 0;
  ssrc = 0xdeadbeef;
  csrc = 5 ∷ replicate 15 0;
  x_type = 0;
  x_len = 0;
}

abbrev empty_header : Header
empty_header = record packet { ver = 0; cc = 0; m = false; seq = 0; csrc = replicate 16 0 }

packet-IsEncodable : IsEncodable packet
packet-IsEncodable = record { version = refl; sources = omega arith; payload = omega arith }

packet-IsWords : IsWords packet
packet-IsWords = record {
  seq16 = omega arith;
  ts32 = omega arith;
  ssrc32 = omega arith;
  csrc16 = refl;
  csrc32 = omega arith;
}

rtp_hdr_decode-encode_example :
    let sent = (rtp_hdr_encode host blank packet).1 in
    let (err, h', mb') = rtp_hdr_decode host empty_header (set_pos sent 0) in
    (err ≡ 0)
    × (h' ≡ received packet empty_header)
    × (mb'.pos ≡ sent.pos)
    × (sent.pos ≡ 0 + 12 + 1 * 4)
rtp_hdr_decode-encode_example =
    rtp_hdr_decode-encode host packet empty_header blank packet-IsEncodable packet-IsWords
      blank-IsValid refl refl
      ((rtp_hdr_encode-Appends host blank packet blank-IsValid).fits (omega arith))

abbrev binding : StunHeader
binding = record { ty = 1; len = 4; cookie = 0x2112a442; tid = replicate 12 7 }

binding-IsHeader : IsHeader binding
binding-IsHeader = record {
  ty14 = omega arith;
  len16 = omega arith;
  padded = refl;
  cookie32 = omega arith;
  tid12 = refl;
}

abbrev encoded : ℕ × Mbuf
encoded = stun_hdr_encode host blank binding

encoded-Appends : Appends blank (header_bytes binding) encoded
encoded-Appends = stun_hdr_encode-Appends host blank binding binding-IsHeader blank-IsValid

abbrev body : List ℕ
body = 0 ∷ 1 ∷ 2 ∷ 3 ∷ []

encoded_ok : encoded.0 ≡ 0
encoded_ok = encoded-Appends.fits (omega arith)

body_ok : (write_mem host encoded.1 body).0 ≡ 0
body_ok =
    (write_mem-Appends host encoded.1 body encoded-Appends.valid (omega arith)).fits
      (omega (arith, encoded-Appends.at encoded_ok, encoded-Appends.grows))

stun_hdr_decode-encode_example :
    let sent = (write_mem host encoded.1 body).1 in
    let (err, h', mb') =
      stun_hdr_decode host (set_pos sent 0) (record binding { ty = 0; len = 0 }) in
    (err ≡ 0) × (h' ≡ binding) × (mb'.pos ≡ 0 + 20)
stun_hdr_decode-encode_example =
    stun_hdr_decode-encode host binding (record binding { ty = 0; len = 0 }) blank body
      binding-IsHeader blank-IsValid refl encoded_ok body_ok

-- A request with no attributes, as it comes from the network.
abbrev request : Mbuf
request = record {
  buf = 0 ∷ 1 ∷ 0 ∷ 0 ∷ 0x21 ∷ 0x12 ∷ 0xa4 ∷ 0x42 ∷ replicate 12 7;
  size = 20;
  pos = 0;
  end = 20;
}

request_accepted : (stun_hdr_decode host request binding).0 ≡ 0
unfolding stun_hdr_decode read_u16 read_u32 read_mem get_left hton host_value
request_accepted = refl

stun_hdr_decode_accepts_example :
    let (err, h, mb') = stun_hdr_decode host request binding in
    (bit_and h.ty 0xc000 ≡ 0) × (h.len % 4 ≡ 0) × (h.len ≤ get_left mb')
stun_hdr_decode_accepts_example = stun_hdr_decode_accepts host request binding request_accepted
