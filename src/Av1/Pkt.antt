-- ===== src/Av1/Pkt.antt =====
-- src/av1/pkt.c, the packetizer, and src/av1/depack.c, the aggregation header. The warnings that
-- are printed are left out.
pub mod Flags
pub mod Flow
pub mod Copy
pub mod Sent
use re_cpm.Base.{
  ℕ, zero, suc, ◌+◌, ◌-◌, ◌*◌, ◌/◌, ◌%◌, ◌^◌, ltb, ◌==◌, if◌then◌else◌, Bool, true, false, not,
  ◌||◌, Option, none, some, List, [], ◌∷◌, ◌++◌, length, take, drop, bit_and, bit_or,
}
use re_cpm.Base.Int.{pos}
use re_cpm.Base.Errno.{einval, ebadmsg, enomem, eproto}
use re_cpm.Platform.{Platform}
use re_cpm.Mbuf.{Mbuf, alloc, get_left, at_pos, advance, set_pos, write_mem}
use re_cpm.Mbuf.Ints.{read_u8}
use re_cpm.Av1.Obu.{
  ObuHdr, zero_obu, bit_of, wrapped, av1_leb128_encode, av1_obu_encode, av1_obu_decode,
  obu_allowed_rtp, av1_obu_count_rtp,
}

abbrev pub max_obus : ℕ
max_obus = 3

unfoldable pub hdr_encode : Bool → Bool → ℕ → Bool → ℕ
hdr_encode z y w n =
    bit_or (bit_or (bit_or (bit_of z * 2 ^ 7) (bit_of y * 2 ^ 6)) (w * 2 ^ 4)) (bit_of n * 2 ^ 3)
    % 2 ^ 8

-- `none` is NULL.
unfoldable pub encode_obu : Platform → ℕ → List ℕ → Option Mbuf
encode_obu p ty bytes = elim (alloc p (length bytes)) [
  | none ↦ none
  | some mb ↦
      let (err, mb') = av1_obu_encode p mb ty false (length bytes) (some bytes) in
      if err == 0 then some (set_pos mb' 0) else none
]

-- The element of `len` bytes behind its size, if it gets one.
unfoldable pub write_element : Platform → Bool → ℕ → List ℕ → Mbuf → ℕ × Mbuf
write_element p with_size len bytes pkt =
    let (err, pkt') = if with_size then av1_leb128_encode p pkt len else (0, pkt) in
    if err == 0 then write_mem p pkt' bytes else (err, pkt')

-- What follows `encode_obu`.
unfoldable pub copy_encoded : Platform → Bool → Option Mbuf → Mbuf → ℕ × Mbuf
copy_encoded p with_size none pkt = (enomem, pkt)
copy_encoded p with_size (some obu) pkt =
    write_element p with_size obu.end (take obu.end obu.buf) pkt

-- The `switch` of `copy_obus`, for a unit whose payload is next in `wrap`.
unfoldable pub copy_obu : Platform → Bool → ObuHdr → Mbuf → Mbuf → ℕ × Mbuf
copy_obu p w0 hdr wrap pkt =
    let last = hdr.size == get_left wrap in
    if obu_allowed_rtp hdr.ty
    then copy_encoded p (not last || w0) (encode_obu p hdr.ty (take hdr.size (at_pos wrap))) pkt
    else (0, pkt)

-- On fuel.
unfoldable pub copy_obus : ℕ → Platform → Bool → Mbuf → Mbuf → Option (ℕ × Mbuf)
copy_obus zero p w0 wrap pkt = none
copy_obus (suc fuel) p w0 wrap pkt =
    let (err, hdr, wrap') = av1_obu_decode p zero_obu wrap in
    let (err', pkt') = copy_obu p w0 hdr wrap' pkt in
    let more = copy_obus fuel p w0 (advance wrap' (pos hdr.size)) pkt' in
    if ltb (get_left wrap) 2
    then some (0, pkt)
    else if not (err == 0)
    then some (err, pkt)
    else if err' == 0
    then more
    else some (err', pkt')

-- What the packet handler gets.
pub record Packet : Type 0 where
  pub marker : Bool
  pub rtp_ts : ℕ
  pub hdr : ℕ
  pub payload : List ℕ

-- What changes in the loop of `av1_packetize_internal`: `*newp`, `cont`, `w`, what is left of
-- `buf`, `err`, and the packets that the handler got.
pub record Run : Type 0 where
  pub new : Bool
  pub cont : Bool
  pub w : ℕ
  pub buf : List ℕ
  pub err : ℕ
  pub sent : List Packet

-- One call of the handler, which answers to the packets so far and the new one.
unfoldable pub send : (List Packet → Packet → ℕ) → Packet → Run → Run
send pkth pkt r = record r {
  new = false;
  err = bit_or r.err (pkth r.sent pkt);
  sent = r.sent ++ (pkt ∷ []);
}

-- One round: a full packet.
unfoldable pub send_full : (List Packet → Packet → ℕ) → ℕ → ℕ → Run → Run
send_full pkth rtp_ts maxlen r =
    let hdr = hdr_encode r.cont true r.w r.new in
    let pkt : Packet = record {
      marker = false;
      rtp_ts = rtp_ts;
      hdr = hdr;
      payload = take maxlen r.buf;
    } in
    let r' = send pkth pkt r in
    record r' { cont = true; w = if r.w == 2 then 1 else r.w; buf = drop maxlen r.buf }

-- The loop, on fuel.
unfoldable pub send_loop : ℕ → (List Packet → Packet → ℕ) → ℕ → ℕ → Run → Option Run
send_loop zero pkth rtp_ts maxlen r = none
send_loop (suc fuel) pkth rtp_ts maxlen r =
    let more = send_loop fuel pkth rtp_ts maxlen (send_full pkth rtp_ts maxlen r) in
    if ltb maxlen (length r.buf) then more else some r

-- The packet behind the loop.
unfoldable pub send_last : (List Packet → Packet → ℕ) → Bool → ℕ → Run → Run
send_last pkth marker rtp_ts r =
    let hdr = hdr_encode r.cont false r.w r.new in
    send pkth (record { marker = marker; rtp_ts = rtp_ts; hdr = hdr; payload = r.buf }) r

-- What follows the loop. The answer has the error number, `*newp` and the packets.
unfoldable pub after_loop :
    (List Packet → Packet → ℕ) → Bool → ℕ → Option Run → Option (ℕ × Bool × List Packet)
after_loop pkth marker rtp_ts none = none
after_loop pkth marker rtp_ts (some r) =
    let r' = send_last pkth marker rtp_ts r in some (r'.err, r'.new, r'.sent)

unfoldable pub av1_packetize_internal :
    ℕ
    → (List Packet → Packet → ℕ)
    → Bool
    → Bool
    → ℕ
    → List ℕ
    → ℕ
    → ℕ
    → Option (ℕ × Bool × List Packet)
av1_packetize_internal fuel pkth new marker rtp_ts buf maxlen w =
    let start : Run = record { new = new; cont = false; w = w; buf = buf; err = 0; sent = [] } in
    if ltb 3 w
    then some (eproto, new, [])
    else after_loop pkth marker rtp_ts
        (send_loop fuel pkth rtp_ts ((maxlen + 2 ^ 64 - 1) % 2 ^ 64) start)

-- What follows `copy_obus`.
unfoldable pub after_copy :
    ℕ
    → (List Packet → Packet → ℕ)
    → Bool
    → Bool
    → ℕ
    → ℕ
    → ℕ
    → Option (ℕ × Mbuf)
    → Option (ℕ × Bool × List Packet)
after_copy fuel pkth new marker rtp_ts maxlen w none = none
after_copy fuel pkth new marker rtp_ts maxlen w (some (err, pkt)) =
    if err == 0
    then av1_packetize_internal fuel pkth new marker rtp_ts (take pkt.end pkt.buf) maxlen w
    else some (err, new, [])

-- What follows the count of the units.
unfoldable pub after_count :
    ℕ
    → Platform
    → (List Packet → Packet → ℕ)
    → Bool
    → Bool
    → ℕ
    → List ℕ
    → ℕ
    → Mbuf
    → Option ℕ
    → Option (ℕ × Bool × List Packet)
after_count fuel p pkth new marker rtp_ts buf maxlen mb_pkt none = none
after_count fuel p pkth new marker rtp_ts buf maxlen mb_pkt (some count) =
    let w = if ltb max_obus count then 0 else count in
    after_copy fuel pkth new marker rtp_ts maxlen w
      (copy_obus fuel p (ltb max_obus count) (wrapped buf) mb_pkt)

unfoldable pub av1_packetize_high :
    ℕ
    → Platform
    → (List Packet → Packet → ℕ)
    → Bool
    → Bool
    → ℕ
    → List ℕ
    → ℕ
    → Option (ℕ × Bool × List Packet)
av1_packetize_high fuel p pkth new marker rtp_ts buf maxlen =
    if (length buf == 0) || ltb maxlen 2
    then some (einval, new, [])
    else elim (alloc p (length buf)) [
      | none ↦ some (enomem, new, [])
      | some mb_pkt ↦
          after_count fuel p pkth new marker rtp_ts buf maxlen mb_pkt (av1_obu_count_rtp fuel p buf)
    ]

-- `struct av1_aggr_hdr`
pub record AggrHdr : Type 0 where
  pub z : Bool
  pub y : Bool
  pub w : ℕ
  pub n : Bool

abbrev pub zero_aggr : AggrHdr
zero_aggr = record { z = false; y = false; w = 0; n = false }

unfoldable pub av1_aggr_hdr_decode : Platform → Mbuf → ℕ × AggrHdr × Mbuf
av1_aggr_hdr_decode p mb =
    if ltb (get_left mb) 1
    then (ebadmsg, zero_aggr, mb)
    else let (v, mb') = read_u8 p mb in
      (
        0,
        record {
          z = not (bit_and (v / 2 ^ 7) 1 == 0);
          y = not (bit_and (v / 2 ^ 6) 1 == 0);
          w = bit_and (v / 2 ^ 4) 3;
          n = not (bit_and (v / 2 ^ 3) 1 == 0);
        },
        mb',
      )
