-- ===== src/Rtpext.antt =====
-- src/rtpext/rtpext.c: RTP header extensions (RFC 8285), over the `struct rtpext` of
-- include/re/re_rtpext.h. The two loops run on fuel; a `none` is a loop that needs more.
pub mod Padding
pub mod RoundTrip
pub mod Returns
use re_cpm.Base.{
  ℕ, zero, suc, ◌+◌, ◌-◌, ◌*◌, ◌/◌, ◌%◌, ◌^◌, ltb, leb, ◌==◌, if◌then◌else◌, Bool, not, ◌||◌,
}
use re_cpm.Base.{
  List, [], ◌∷◌, length, get_or, replicate, overwrite, Option, none, some, bit_and, bit_or, hton,
}
use re_cpm.Base.Int.{pos}
use re_cpm.Base.Errno.{einval, ebadmsg, enodata}
use re_cpm.Platform.{Platform}
use re_cpm.Mbuf.{Mbuf, get_left, advance, write_mem, read_mem}
use re_cpm.Mbuf.Ints.{write_u8, write_u16, read_u8, ◌|=◌}

-- `struct rtpext`; the data has room for 256 bytes.
pub record Rtpext : Type 0 where
  pub id : ℕ
  pub len : ℕ
  pub data_bytes : List ℕ

abbrev pub type_magic : ℕ
type_magic = 0xbede

abbrev pub type_magic_long : ℕ
type_magic_long = 0x1000

abbrev pub id_min : ℕ
id_min = 1

abbrev pub id_max : ℕ
id_max = 14

abbrev pub len_min : ℕ
len_min = 1

abbrev pub len_max : ℕ
len_max = 16

abbrev pub len_max_long : ℕ
len_max_long = 256

-- The header of all extensions, of either form.
unfoldable pub write_magic : Platform → ℕ → Mbuf → ℕ → ℕ × Mbuf
write_magic p magic mb num_bytes =
    if num_bytes == 0
    then (einval, mb)
    else if not (bit_and num_bytes 0x3 == 0)
    then (einval, mb)
    else (0, mb)
      |= (λ m. write_u16 p m (hton p.endian 2 magic))
      |= (λ m. write_u16 p m (hton p.endian 2 (num_bytes / 4 % 2 ^ 16)))

unfoldable pub rtpext_hdr_encode : Platform → Mbuf → ℕ → ℕ × Mbuf
rtpext_hdr_encode p mb num_bytes = write_magic p type_magic mb num_bytes

unfoldable pub rtpext_hdr_encode_long : Platform → Mbuf → ℕ → ℕ × Mbuf
rtpext_hdr_encode_long p mb num_bytes = write_magic p type_magic_long mb num_bytes

-- `while ((mb->pos - start) & 0x03) err |= mbuf_write_u8(mb, 0x00);`
unfoldable pub write_padding : Platform → ℕ → ℕ → ℕ × Mbuf → Option (ℕ × Mbuf)
write_padding p zero start out = none
write_padding p (suc fuel) start out =
    let more = write_padding p fuel start (out |= λ m. write_u8 p m 0) in
    if bit_and ((out.1.pos + 2 ^ 64 - start) % 2 ^ 64) 0x03 == 0 then some out else more

-- `rtpext_encode` of the bytes `data`, with `len` their number.
unfoldable pub rtpext_encode : Platform → ℕ → Mbuf → ℕ → List ℕ → Option (ℕ × Mbuf)
rtpext_encode p fuel mb id bytes =
    let len = length bytes in
    if ltb id id_min || ltb id_max id
    then some (einval, mb)
    else if ltb len len_min || ltb len_max len
    then some (einval, mb)
    else (let out =
          write_u8 p mb (bit_or (id * 2 ^ 4) (len - 1) % 2 ^ 8) |= (λ m. write_mem p m bytes) in
        if out.0 == 0 then write_padding p fuel mb.pos out else some out)

-- The loop behind the data: zero bytes are skipped.
unfoldable pub skip_padding : ℕ → Mbuf → Option Mbuf
skip_padding zero mb = none
skip_padding (suc fuel) mb =
    let more = skip_padding fuel (advance mb (pos 1)) in
    if get_left mb == 0 then some mb else if get_or mb.buf mb.pos 0 == 0 then more else some mb

-- `memset(ext, 0, sizeof(*ext))`
abbrev pub cleared : Rtpext
cleared = record { id = 0; len = 0; data_bytes = replicate len_max_long 0 }

-- From the check of the length on, the same in both decoders.
unfoldable pub decode_data : ℕ → Rtpext → Mbuf → Option (ℕ × Rtpext × Mbuf)
decode_data fuel ext mb =
    if ltb (get_left mb) ext.len
    then some (enodata, ext, mb)
    else (let (err, bytes, mb') = read_mem mb ext.len in
        let ext' = record ext { data_bytes = overwrite ext.data_bytes 0 bytes } in
        if err == 0
        then elim (skip_padding fuel mb') [ none ↦ none | some mb'' ↦ some (0, ext', mb'') ]
        else some (err, ext, mb'))

unfoldable pub rtpext_decode : Platform → ℕ → Rtpext → Mbuf → Option (ℕ × Rtpext × Mbuf)
rtpext_decode p fuel ext mb =
    if ltb (get_left mb) 1
    then some (ebadmsg, ext, mb)
    else (let (v, mb') = read_u8 p mb in
        let ext' = record cleared { id = v / 2 ^ 4; len = bit_and v 0x0f + 1 } in
        if ltb ext'.id id_min || ltb id_max ext'.id
        then some (ebadmsg, ext', mb')
        else decode_data fuel ext' mb')

-- `rtpext_encode_long` of the bytes `data`, with `len` their number.
unfoldable pub rtpext_encode_long : Platform → Mbuf → ℕ → List ℕ → ℕ × Mbuf
rtpext_encode_long p mb id bytes =
    let out = write_u8 p mb id |= (λ m. write_u8 p m (length bytes)) in
    if length bytes == 0 then out else (out |= λ m. write_mem p m bytes)

unfoldable pub rtpext_decode_long : Platform → ℕ → Rtpext → Mbuf → Option (ℕ × Rtpext × Mbuf)
rtpext_decode_long p fuel ext mb =
    if ltb (get_left mb) 2
    then some (ebadmsg, ext, mb)
    else (let (id, mb1) = read_u8 p mb in
        let (len, mb2) = read_u8 p mb1 in
        let ext' = record cleared { id = id; len = len } in
        if id == 0 then some (ebadmsg, ext', mb2) else decode_data fuel ext' mb2)
