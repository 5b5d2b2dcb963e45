-- ===== src/Tests/Messages.antt =====
-- Runs of src/rtmp/chunk.c and src/rtmp/dechunk.c: five bytes in chunks of two.
use re_cpm.Base.{
  ℕ, suc, ◌≡◌, refl, arith, true, inr, Option, none, some, List, [], ◌∷◌, ◌++◌, host_bytes, hton,
}
use re_cpm.Mem.{mem_alloc}
use re_cpm.Platform.{uninitialised}
use re_cpm.Mbuf.{Mbuf, alloc, init, resize, new_block, set_pos, write_mem, reserve, put}
use re_cpm.Mbuf.Ints.{write_u8, write_u16, write_u32, write_int}
use re_cpm.Rtmp.Header.{
  Header, rtmp_header_encode, encode_fields, encode_basic_hdr, write_u24_hton, ts_24, ts_ext,
}
use re_cpm.Sys.Endian.{sys_htoll, gather_up}
use re_cpm.Mbuf.Inv.{IsValid}
use re_cpm.Mbuf.Cursor.{rest}
use re_cpm.Rtmp.Header.Wire.{IsHeader, header_bytes}
use re_cpm.Rtmp.Dechunk.Empty.{waiting, receive_empty}
use re_cpm.Rtmp.Header.Receive.{received}
use re_cpm.Rtmp.Chunk.{first_header, write_chunk, chunk_loop, write_chunks, rtmp_chunker}
use re_cpm.Rtmp.Chunk.Stream.{stream_bytes}
use re_cpm.Rtmp.Chunk.Sent.{Holds, rtmp_chunker-Returns}
use re_cpm.Rtmp.Dechunk.{Dechunker, find_chunk, rtmp_dechunker_receive}
use re_cpm.Rtmp.Dechunk.Parts.{message}
use re_cpm.Rtmp.Dechunk.Stream.{calls, Delivers}
use re_cpm.Rtmp.Dechunk.RoundTrip.{rtmp_chunker-Delivers}
use re_cpm.Tests.Host.{host, blank}

abbrev payload : List ℕ
payload = 1 ∷ 2 ∷ 3 ∷ 4 ∷ 5 ∷ []

abbrev accepted : Mbuf → ℕ
accepted m = 0

abbrev run : Option (ℕ × Option Mbuf)
run = rtmp_chunker 6 host accepted 0 3 7 0 9 1 payload 2

abbrev sent_of : Option (ℕ × Option Mbuf) → Mbuf
sent_of (some (e, some mb)) = mb
sent_of (some (e, none)) = blank
sent_of none = blank

abbrev head : Header
head = first_header 0 3 7 0 9 1 payload

head-IsHeader : IsHeader head
head-IsHeader = record {
  chunk = omega arith;
  time32 = omega arith;
  delta32 = omega arith;
  ext32 = omega arith;
  len24 = omega arith;
  type8 = omega arith;
  stream32 = omega arith;
}

rtmp_chunker-Returns_example :
    (out : ℕ × Option Mbuf) × (rtmp_chunker 6 host accepted 0 3 7 0 9 1 payload 2 ≡ some out)
    × Holds (stream_bytes 6 head 2 payload) accepted out
rtmp_chunker-Returns_example =
    rtmp_chunker-Returns host accepted 6 0 3 7 0 9 1 payload 2 head-IsHeader (omega arith)
      (omega arith)

sent_run : rtmp_chunker 6 host accepted 0 3 7 0 9 1 payload 2 ≡ some (0, some (sent_of run))
unfolding rtmp_chunker write_chunks write_chunk chunk_loop rtmp_header_encode encode_fields
    encode_basic_hdr write_u24_hton ts_24 ts_ext sys_htoll gather_up write_u8 write_u16 write_u32
    write_int write_mem reserve put host_bytes hton alloc init resize new_block mem_alloc
    uninitialised set_pos
sent_run = refl

abbrev fresh : Dechunker
fresh = record { chunks = []; chunk_sz = 2 }

abbrev block_of : Option Mbuf → Mbuf
block_of none = blank
block_of (some b) = b

memory : alloc host 5 ≡ some (block_of (alloc host 5))
unfolding alloc init resize new_block mem_alloc
memory = refl

unknown : find_chunk fresh.chunks 3 ≡ none
unfolding find_chunk
unknown = refl

rtmp_chunker-Delivers_example :
    Delivers host true
      (λ h m. 0)
      (λ n. calls host true (λ h m. 0) (suc n) fresh (sent_of run))
      3
      (received head)
      (message 5 payload)
      []
rtmp_chunker-Delivers_example =
    rtmp_chunker-Delivers host host accepted true (λ h m. 0) 6 3 7 9 1 2 0 payload fresh
      (sent_of run) (block_of (alloc host 5)) head-IsHeader (omega arith) (omega arith)
      (omega arith) (omega arith) sent_run refl (inr (unknown, omega arith, refl)) memory

-- The header of an empty message, and its bytes.
abbrev head_of_none : Header
head_of_none = first_header 0 3 7 0 9 1 []

head_of_none-IsHeader : IsHeader head_of_none
head_of_none-IsHeader = record {
  chunk = omega arith;
  time32 = omega arith;
  delta32 = omega arith;
  ext32 = omega arith;
  len24 = omega arith;
  type8 = omega arith;
  stream32 = omega arith;
}

abbrev input : Mbuf
input = record {
  buf = 3 ∷ 0 ∷ 0 ∷ 7 ∷ 0 ∷ 0 ∷ 0 ∷ 9 ∷ 1 ∷ 0 ∷ 0 ∷ 0 ∷ [];
  size = 12;
  pos = 0;
  end = 12;
}

input-IsValid : IsValid input
input-IsValid = omega arith

input-rest : rest input ≡ header_bytes head_of_none ++ []
unfolding ts_24 ts_ext
input-rest = refl

default_memory : alloc host 0 ≡ some (block_of (alloc host 0))
unfolding alloc init resize new_block mem_alloc
default_memory = refl

receive_empty_example :
    (rd' : Dechunker) × (mb' : Mbuf) × (rtmp_dechunker_receive host true (λ h m. 0) fresh input
      ≡ (0, rd', mb', none))
    × (rest mb' ≡ [])
    × (find_chunk rd'.chunks 3 ≡ some (waiting (received head_of_none) (block_of (alloc host 0))))
    × ((block_of (alloc host 0)).size ≡ 512)
receive_empty_example =
    receive_empty host true (λ h m. 0) head_of_none fresh (block_of (alloc host 0)) input []
      head_of_none-IsHeader refl refl (inr (unknown, omega arith, refl)) default_memory
      input-IsValid input-rest
