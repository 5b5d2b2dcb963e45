-- ===== src/Lib.antt =====
-- Verification of re, a library for real-time communication in C.
--
-- The library's codecs stand on one buffer type. `mem` gives reference counted blocks, `mbuf` a
-- growing buffer with a position and an end on top of it, and the protocol modules read and write
-- their headers through the calls of `mbuf` alone. The models follow that order: a protocol's
-- operation is composed from the buffer's, as in the code.
--
-- Which file models what:
--   Base: shared types, number and list lemmas, byte order; Base/Errno: the error numbers of Linux.
--   Platform: what the C library and the machine decide.
--   Mem: src/mem/mem.c, `mem_alloc` and `mem_realloc` on the bytes of a block.
--   Mbuf, Mbuf/Ints: src/mbuf/mbuf.c and include/re/re_mbuf.h. `struct mbuf` is the record `Mbuf`;
--     `mbuf_write_u16` is `write_u16`, and so on. Mbuf/Inv has the invariant, Mbuf/Cursor the
--     view of a buffer as a text that is read and written, Mbuf/Words that of the integers written
--     and Mbuf/Takes that of those read.
--   Base64: src/base64/b64.c.
--   Rtp/Header: `rtp_hdr_encode` and `rtp_hdr_decode` of src/rtp/rtp.c.
--   Rtp/Source: src/rtp/source.c, a source's sequence numbers and statistics.
--   Srtp/Replay: src/srtp/replay.c, the replay window.
--   Stun/Header: src/stun/hdr.c, the message header.
--   Rtpext: src/rtpext/rtpext.c, RTP header extensions; Rtpext/Padding has its loops, Rtpext/Returns
--     when they end.
--   Sys/Endian: src/sys/endian.c, conversions to and from little endian and network order.
--   Rtmp/Header: src/rtmp/hdr.c, the header of a chunk; Rtmp/Header/Basic has its first bytes,
--     Rtmp/Header/Wire what is written and Rtmp/Header/Receive what is read.
--   Rtmp/Chunk: src/rtmp/chunk.c, the chunker; `rtmp_chunker` answers with the buffer that it gives
--     to `tcp_send`.
--   Rtmp/Dechunk: src/rtmp/dechunk.c. A `Dechunker` has the chunk streams in the order of its list;
--     `rtmp_dechunker_receive` answers with the message that its handler got, if any.
--   Hash: src/hash/func.c, the one-at-a-time hash.
--   Linked: src/list/list.c and include/re/re_list.h, doubly linked lists. A `Store` has every
--     `struct le` and every `struct list`, by address. Linked/Chain has the elements of a list in a
--     row, Linked/World all lists at once, Linked/Splice and Linked/Local what a call writes;
--     Linked/Spec says what the calls do to sequences.
--   Av1/Obu: src/av1/obu.c, LEB128 and the units; Av1/Obu/Stream has units one behind the other.
--   Av1/Pkt: src/av1/pkt.c and src/av1/depack.c; the packet handler is a function of the packets so
--     far and the new one. Av1/Pkt/Copy has the elements, Av1/Pkt/Flow the packets.
--   Fmt/Pl, Fmt/Trim: src/fmt/pl.c, on a memory that gives a byte for each address. Fmt/Itoa:
--     `str_itoa` of src/fmt/str.c. Fmt/Chars: src/fmt/ch.c. Fmt/Regex: src/fmt/regex.c.
--   Hash/Table: src/hash/hash.c, on the store of Linked.
--   Tests: runs on concrete inputs.
--
-- How the code is read: an operation takes the state and returns its error number, 0 if none, and
-- the new state; output parameters are further results. Integers are natural numbers with the
-- wrap of their width written out; `size_t` has 64 bits, `int` 32 bits in two's complement. Bytes
-- in host order go through the platform's byte order, so that the theorems hold for both. What
-- malloc and realloc grant, and what uninitialised memory holds, are arguments. The loops run over
-- a list, or down from their count; those of Rtpext, which wait for a position, run on fuel, and
-- it is proved that four rounds, or one for each byte and one more, are enough. So do the loops
-- over a linked list, with a round for each element and one more; `list_sort` has a pass for each
-- pair of elements that stands the wrong way round and one more. The chunker has a round for each
-- byte of the payload and one more, the packetizer one for each unit and each byte of the
-- elements and one more. `av1_leb128_encode` recurs on what is left of its value.
--
-- Not modelled: arguments that are NULL pointers (the guards that answer EINVAL to them), two
-- objects that share one block, formatted output, and everything that only calls the operating
-- system or a library: sockets, timers, threads, TLS and the ciphers.
pub mod Base
pub mod Platform
pub mod Mem
pub mod Mbuf
pub mod Av1
pub mod Base64
pub mod Fmt
pub mod Hash
pub mod Linked
pub mod Rtp
pub mod Rtmp
pub mod Rtpext
pub mod Srtp
pub mod Stun
pub mod Sys
mod Tests
