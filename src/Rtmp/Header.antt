-- ===== src/Rtmp/Header.antt =====
-- src/rtmp/hdr.c: the header of an RTMP chunk, over the `struct rtmp_header` of src/rtmp/rtmp.h.
pub mod Basic
pub mod Words
pub mod Wire
pub mod Receive
pub mod RoundTrip
use re_cpm.Base.{
  ℕ, ◌+◌, ◌-◌, ◌*◌, ◌/◌, ◌%◌, ◌^◌, ltb, leb, ◌==◌, if◌then◌else◌, Bool, true, false, bit_and,
  bit_or, hton,
}
use re_cpm.Base.Errno.{enodata}
use re_cpm.Platform.{Platform}
use re_cpm.Mbuf.{Mbuf, get_left}
use re_cpm.Mbuf.Ints.{write_u8, write_u16, write_u32, read_u8, read_u16, read_u32, ◌|=◌}
use re_cpm.Sys.Endian.{sys_htoll, sys_ltohl}

-- `struct rtmp_header`; the format has two bits.
pub record Header : Type 0 where
  pub format : ℕ
  pub chunk_id : ℕ
  pub timestamp : ℕ
  pub timestamp_delta : ℕ
  pub timestamp_ext : ℕ
  pub len : ℕ
  pub type_id : ℕ
  pub stream_id : ℕ
  pub ext_ts : Bool

abbrev pub chunk_offset : ℕ
chunk_offset = 64

abbrev pub timestamp_24max : ℕ
timestamp_24max = 0x00ffffff

unfoldable pub write_u24_hton : Platform → Mbuf → ℕ → ℕ × Mbuf
write_u24_hton p mb u24 =
    (0, mb)
    |= (λ m. write_u8 p m (u24 / 2 ^ 16 % 2 ^ 8))
    |= (λ m. write_u8 p m (u24 / 2 ^ 8 % 2 ^ 8))
    |= (λ m. write_u8 p m (u24 % 2 ^ 8))

unfoldable pub read_u24_ntoh : Platform → Mbuf → ℕ × Mbuf
read_u24_ntoh p mb =
    let (a, mb1) = read_u8 p mb in
    let (b, mb2) = read_u8 p mb1 in
    let (c, mb3) = read_u8 p mb2 in (bit_or (bit_or (a * 2 ^ 16) (b * 2 ^ 8)) c, mb3)

unfoldable pub encode_basic_hdr : Platform → Mbuf → ℕ → ℕ → ℕ × Mbuf
encode_basic_hdr p mb fmt chunk_id =
    if leb 320 chunk_id
    then (0, mb)
      |= (λ m. write_u8 p m (bit_or (fmt * 2 ^ 6) 1 % 2 ^ 8))
      |= (λ m. write_u16 p m (hton p.endian 2 ((chunk_id - chunk_offset) % 2 ^ 16)))
    else if leb chunk_offset chunk_id
    then (0, mb)
      |= (λ m. write_u8 p m (bit_or (fmt * 2 ^ 6) 0 % 2 ^ 8))
      |= (λ m. write_u8 p m ((chunk_id - chunk_offset) % 2 ^ 8))
    else (0, mb) |= (λ m. write_u8 p m (bit_or (fmt * 2 ^ 6) chunk_id % 2 ^ 8))

-- What follows the first byte, `cs_id` its six low bits.
unfoldable pub decode_chunk_id : Platform → ℕ → Header → Mbuf → ℕ × Header × Mbuf
decode_chunk_id p cs_id h mb =
    if cs_id == 0
    then (if ltb (get_left mb) 1
        then (enodata, h, mb)
        else (let (x, mb') = read_u8 p mb in (0, record h { chunk_id = x + chunk_offset }, mb')))
    else if cs_id == 1
    then (if ltb (get_left mb) 2
        then (enodata, h, mb)
        else (let (x, mb') = read_u16 p mb in
            (0, record h { chunk_id = hton p.endian 2 x + chunk_offset }, mb')))
    else (0, record h { chunk_id = cs_id }, mb)

unfoldable pub decode_basic_hdr : Platform → Header → Mbuf → ℕ × Header × Mbuf
decode_basic_hdr p h mb =
    if ltb (get_left mb) 1
    then (enodata, h, mb)
    else (let (v, mb') = read_u8 p mb in
        decode_chunk_id p (bit_and v 0x3f) (record h { format = v / 2 ^ 6 }) mb')

unfoldable pub ts_24 : ℕ → ℕ
ts_24 ts = if leb timestamp_24max ts then timestamp_24max else ts

unfoldable pub ts_ext : ℕ → ℕ
ts_ext ts = if leb timestamp_24max ts then ts else 0

-- The fields of each format, and the header with `timestamp_ext` set.
unfoldable pub encode_fields : Platform → Header → ℕ × Mbuf → (ℕ × Mbuf) × Header
encode_fields p h out =
    if h.format == 0
    then (
      out
          |= (λ m. write_u24_hton p m (ts_24 h.timestamp))
          |= (λ m. write_u24_hton p m h.len)
          |= (λ m. write_u8 p m h.type_id)
          |= (λ m. write_u32 p m (sys_htoll p.endian h.stream_id)),
      record h { timestamp_ext = ts_ext h.timestamp },
    )
    else if h.format == 1
    then (
      out
          |= (λ m. write_u24_hton p m (ts_24 h.timestamp_delta))
          |= (λ m. write_u24_hton p m h.len)
          |= (λ m. write_u8 p m h.type_id),
      record h { timestamp_ext = ts_ext h.timestamp_delta },
    )
    else if h.format == 2
    then (
      out |= (λ m. write_u24_hton p m (ts_24 h.timestamp_delta)),
      record h { timestamp_ext = ts_ext h.timestamp_delta },
    )
    else (out, h)

-- The error number, the header and the buffer.
unfoldable pub rtmp_header_encode : Platform → Mbuf → Header → ℕ × Header × Mbuf
rtmp_header_encode p mb h =
    let out = encode_basic_hdr p mb h.format h.chunk_id in
    if out.0 == 0
    then (let (done, h') = encode_fields p h out in
        if h'.timestamp_ext == 0
        then (done.0, h', done.1)
        else (let last = done |= (λ m. write_u32 p m (hton p.endian 4 h'.timestamp_ext)) in
            (last.0, h', last.1)))
    else (out.0, h, out.1)

-- `memset(hdr, 0, sizeof(*hdr))`
abbrev pub zeroed : Header
zeroed = record {
  format = 0;
  chunk_id = 0;
  timestamp = 0;
  timestamp_delta = 0;
  timestamp_ext = 0;
  len = 0;
  type_id = 0;
  stream_id = 0;
  ext_ts = false;
}

-- The extended timestamp, where the three bytes announce one.
unfoldable pub decode_ext_ts : Platform → Header → Mbuf → ℕ × Header × Mbuf
decode_ext_ts p h mb =
    if h.timestamp == timestamp_24max
    then (if ltb (get_left mb) 4
        then (enodata, h, mb)
        else (let (x, mb') = read_u32 p mb in
            (0, record h { timestamp = hton p.endian 4 x; ext_ts = true }, mb')))
    else if h.timestamp_delta == timestamp_24max
    then (if ltb (get_left mb) 4
        then (enodata, h, mb)
        else (let (x, mb') = read_u32 p mb in
            (0, record h { timestamp_delta = hton p.endian 4 x; ext_ts = true }, mb')))
    else (0, h, mb)

-- The fields of each format.
unfoldable pub decode_fields : Platform → Header → Mbuf → ℕ × Header × Mbuf
decode_fields p h mb =
    if h.format == 0
    then (if ltb (get_left mb) 11
        then (enodata, h, mb)
        else (let (ts, mb1) = read_u24_ntoh p mb in
            let (len, mb2) = read_u24_ntoh p mb1 in
            let (ty, mb3) = read_u8 p mb2 in
            let (id, mb4) = read_u32 p mb3 in
            decode_ext_ts p
              (record h {
                timestamp = ts;
                len = len;
                type_id = ty;
                stream_id = sys_ltohl p.endian id;
              })
              mb4))
    else if h.format == 1
    then (if ltb (get_left mb) 7
        then (enodata, h, mb)
        else (let (delta, mb1) = read_u24_ntoh p mb in
            let (len, mb2) = read_u24_ntoh p mb1 in
            let (ty, mb3) = read_u8 p mb2 in
            decode_ext_ts p (record h { timestamp_delta = delta; len = len; type_id = ty }) mb3))
    else if h.format == 2
    then (if ltb (get_left mb) 3
        then (enodata, h, mb)
        else (let (delta, mb1) = read_u24_ntoh p mb in
            decode_ext_ts p (record h { timestamp_delta = delta }) mb1))
    else decode_ext_ts p h mb

unfoldable pub rtmp_header_decode : Platform → Header → Mbuf → ℕ × Header × Mbuf
rtmp_header_decode p h mb =
    let (err, h', mb') = decode_basic_hdr p zeroed mb in
    if err == 0 then decode_fields p h' mb' else (err, h', mb')
