-- ===== src/Tests/Video.antt =====
-- Runs of the packetizer of src/av1.
use re_cpm.Base.{
  ℕ, ◌+◌, ◌^◌, ◌%◌, ◌<◌, ◌≡◌, ◌≢◌, refl, arith, true, false, some, List, [], ◌∷◌, host_bytes,
  host_value,
}
use re_cpm.Base.Order.{lt_wf}
use native.Mathlib.Decide.{dec_lt, dec_le}
use native.Mathlib.Bridge.{IsLe}
use re_cpm.Mem.{mem_alloc, realloc_exclusive, grown}
use re_cpm.Platform.{uninitialised}
use re_cpm.Mbuf.Ints.{write_u8, write_int, read_u8, read_int}
use re_cpm.Mbuf.{
  Mbuf, set_pos, advance, alloc, resize, new_block, init, get_left, write_mem, read_mem, reserve,
  wanted, put,
}
use re_cpm.Mbuf.Cursor.{rest}
use re_cpm.Av1.Obu.{
  zero_obu, av1_leb128_encode, av1_leb128_decode, av1_obu_encode, av1_obu_decode, av1_obu_count_rtp,
  obu_count_loop, obu_size, leb128_rounds, leb128_loop,
}
use re_cpm.Av1.Obu.RoundTrip.{leb, av1_leb128_decode-encode, av1_leb128_decode-too_long}
use re_cpm.Av1.Obu.Unit.{av1_obu_decode-encode}
use re_cpm.Av1.Obu.Stream.{ObuUnit, stream}
use re_cpm.Av1.Pkt.{
  Packet, av1_packetize_high, after_count, after_copy, copy_obus, copy_obu, copy_encoded,
  write_element, encode_obu, av1_packetize_internal, send_loop, send_full, send_last, send,
  after_loop, hdr_encode,
}
use re_cpm.Tests.Host.{host, blank, blank-IsValid}

av1_leb128_decode-encode_example :
    let (err, out) = av1_leb128_encode host blank 300 in
    let (err', got, mb') = av1_leb128_decode host 0 (set_pos out 0) in
    (err ≡ 0) × (err' ≡ 0) × (got ≡ 300) × (mb'.pos ≡ out.pos)
av1_leb128_decode-encode_example =
    av1_leb128_decode-encode host blank 0 300 blank-IsValid (omega arith) (omega arith)

av1_leb128_decode-too_long_example :
    let (err, out) = av1_leb128_encode host blank (2 ^ 56 + 5) in
    let (err', got, mb') = av1_leb128_decode host 0 (set_pos out 0) in
    (err ≡ 0)
    × (err' ≡ 0)
    × (got ≡ (2 ^ 56 + 5) % 2 ^ 56)
    × (got ≢ 2 ^ 56 + 5)
    × (mb'.pos < out.pos)
av1_leb128_decode-too_long_example =
    av1_leb128_decode-too_long host blank 0 (2 ^ 56 + 5) blank-IsValid (omega arith) (omega arith)
      (omega arith)

av1_obu_decode-encode_example :
    let (err, out) = av1_obu_encode host blank 6 true 2 (some (8 ∷ 9 ∷ [])) in
    (mb' : Mbuf) × (err ≡ 0)
    × (av1_obu_decode host zero_obu (set_pos out 0)
        ≡ (0, record { ty = 6; x = false; s = true; size = 2 }, mb'))
    × (rest mb' ≡ 8 ∷ 9 ∷ [])
av1_obu_decode-encode_example =
    av1_obu_decode-encode host blank 6 true (8 ∷ 9 ∷ []) zero_obu blank-IsValid (omega arith)
      (omega arith) (omega arith) refl (omega arith)

-- A temporal delimiter, a sequence header and a frame.
abbrev units : List ObuUnit
units =
    record { ty = 2; payload = [] }
    ∷ record { ty = 1; payload = 10 ∷ 11 ∷ [] }
    ∷ record { ty = 6; payload = 20 ∷ 21 ∷ 22 ∷ [] }
    ∷ []

-- The handler takes every packet.
abbrev takes_all : List Packet → Packet → ℕ
takes_all sent pkt = 0

-- Two elements in two packets, the first of five bytes.
abbrev first_packet : Packet
first_packet = record {
  marker = false;
  rtp_ts = 90000;
  hdr = 104;
  payload = 3 ∷ 8 ∷ 10 ∷ 11 ∷ 48 ∷ [];
}

abbrev second_packet : Packet
second_packet = record { marker = true; rtp_ts = 90000; hdr = 144; payload = 20 ∷ 21 ∷ 22 ∷ [] }

packets_of_units :
    av1_packetize_high 20 host takes_all true true 90000 (stream units) 6
    ≡ some (0, false, first_packet ∷ second_packet ∷ [])
unfolding av1_packetize_high after_count after_copy copy_obus copy_obu copy_encoded write_element
    encode_obu av1_packetize_internal send_loop send_full send_last send after_loop hdr_encode
    av1_obu_count_rtp obu_count_loop av1_obu_decode obu_size av1_leb128_decode leb128_rounds
    av1_obu_encode av1_leb128_encode leb128_loop leb lt_wf dec_lt dec_le IsLe advance alloc resize
    new_block init mem_alloc uninitialised get_left write_u8 write_int read_u8 read_int read_mem
    host_bytes host_value write_mem reserve wanted put set_pos realloc_exclusive grown
packets_of_units = refl
