-- ===== src/Stun/Header.antt =====
-- src/stun/hdr.c: the STUN header on the wire.
pub mod RoundTrip
use re_cpm.Base.{ℕ, ltb, ◌==◌, if◌then◌else◌, Bool, not, List, bit_and, hton}
use re_cpm.Base.Errno.{ebadmsg}
use re_cpm.Platform.{Platform}
use re_cpm.Mbuf.{Mbuf, get_left, write_mem, read_mem}
use re_cpm.Mbuf.Ints.{write_u16, write_u32, read_u16, read_u32, ◌|=◌}

-- `struct stun_hdr`; the transaction has 12 bytes.
pub record Header : Type 0 where
  pub ty : ℕ
  pub len : ℕ
  pub cookie : ℕ
  pub tid : List ℕ

abbrev pub stun_header_size : ℕ
stun_header_size = 20

abbrev pub stun_tid_size : ℕ
stun_tid_size = 12

unfoldable pub stun_hdr_encode : Platform → Mbuf → Header → ℕ × Mbuf
stun_hdr_encode p mb h =
    (0, mb)
    |= (λ m. write_u16 p m (hton p.endian 2 (bit_and h.ty 0x3fff)))
    |= (λ m. write_u16 p m (hton p.endian 2 h.len))
    |= (λ m. write_u32 p m (hton p.endian 4 h.cookie))
    |= (λ m. write_mem p m h.tid)

-- The transaction is copied if the read succeeds; its error is not looked at.
unfoldable pub decode_body : Platform → Header → Mbuf → ℕ × Header × Mbuf
decode_body p h mb =
    let (cookie, mb1) = read_u32 p mb in
    let (err, tid, mb2) = read_mem mb1 stun_tid_size in
    let h' = record h { cookie = hton p.endian 4 cookie; tid = if err == 0 then tid else h.tid } in
    if ltb (get_left mb2) h'.len then (ebadmsg, h', mb2) else (0, h', mb2)

unfoldable pub decode_len : Platform → Header → Mbuf → ℕ × Header × Mbuf
unfolding decode_body
decode_len p h mb =
    let (len, mb') = read_u16 p mb in
    let h' = record h { len = hton p.endian 2 len } in
    if not (bit_and h'.len 0x3 == 0) then (ebadmsg, h', mb') else decode_body p h' mb'

unfoldable pub stun_hdr_decode : Platform → Mbuf → Header → ℕ × Header × Mbuf
unfolding decode_len
stun_hdr_decode p mb h =
    if ltb (get_left mb) stun_header_size
    then (ebadmsg, h, mb)
    else (let (ty, mb') = read_u16 p mb in
        let h' = record h { ty = hton p.endian 2 ty } in
        if not (bit_and h'.ty 0xc000 == 0) then (ebadmsg, h', mb') else decode_len p h' mb')
