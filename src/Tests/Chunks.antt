-- ===== src/Tests/Chunks.antt =====
-- Runs of src/rtmp/hdr.c.
use re_cpm.Base.{◌≡◌, refl, true, arith, host_bytes, hton}
use re_cpm.Mbuf.{Mbuf, set_pos, write_mem, reserve, put}
use re_cpm.Mbuf.Ints.{write_u8, write_u16, write_u32, write_int}
use re_cpm.Mbuf.Cursor.{rest}
use re_cpm.Rtmp.Header.{
  Header, zeroed, encode_basic_hdr, rtmp_header_encode, rtmp_header_decode, encode_fields,
  write_u24_hton, ts_24, ts_ext,
}
use re_cpm.Rtmp.Header.Wire.{IsHeader}
use re_cpm.Rtmp.Header.RoundTrip.{rtmp_header_decode-encode}
use re_cpm.Rtmp.Header.Basic.{IsChunk}
use re_cpm.Tests.Host.{host, blank, blank-IsValid}

large-IsChunk : IsChunk 2 65599
large-IsChunk = omega arith

encode_fine : (encode_basic_hdr host blank 2 65599).0 ≡ 0
unfolding encode_basic_hdr write_u8 write_u16 write_int write_mem reserve put host_bytes hton
encode_fine = refl

-- A header of format 1 with a difference that needs 32 bits.
abbrev later : Header
later = record zeroed {
  format = 1;
  chunk_id = 700;
  timestamp_delta = 0x01000000;
  len = 70000;
  type_id = 9;
}

later-IsHeader : IsHeader later
later-IsHeader = record {
  chunk = omega arith;
  time32 = omega arith;
  delta32 = omega arith;
  ext32 = omega arith;
  len24 = omega arith;
  type8 = omega arith;
  stream32 = omega arith;
}

later_fine : (rtmp_header_encode host blank later).0 ≡ 0
unfolding rtmp_header_encode encode_fields encode_basic_hdr write_u24_hton ts_24 ts_ext write_u8
    write_u16 write_u32 write_int write_mem reserve put host_bytes hton
later_fine = refl

rtmp_header_decode-encode_example :
    let (err, h', sent) = rtmp_header_encode host blank later in
    (mb' : Mbuf) × (rtmp_header_decode host zeroed (set_pos sent 0)
      ≡ (0, record later { ext_ts = true }, mb'))
    × (rest mb' ≡ rest sent)
    × (h' ≡ record later { timestamp_ext = 0x01000000 })
    × (sent.pos ≡ 14)
unfolding ts_ext
rtmp_header_decode-encode_example =
    rtmp_header_decode-encode host later zeroed blank later-IsHeader blank-IsValid later_fine
