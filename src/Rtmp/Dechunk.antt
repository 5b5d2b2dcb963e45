-- ===== src/Rtmp/Dechunk.antt =====
-- The dechunker of src/rtmp/dechunk.c: it takes one chunk per call, and gives a message to its
-- handler when the last one came.
pub mod Parts
pub mod Stream
pub mod RoundTrip
pub mod Empty
use re_cpm.Base.{
  ℕ, ◌+◌, ◌%◌, ◌^◌, min, ltb, leb, ◌==◌, if◌then◌else◌, Bool, true, false, not, ◌||◌, Option, none,
  some, List, [], ◌∷◌, ◌++◌, length, overwrite, hton,
}
use re_cpm.Base.Errno.{einval, enoent, enomem, enodata, eproto, eoverflow}
use re_cpm.Platform.{Platform, add_size}
use re_cpm.Mbuf.{Mbuf, alloc, get_left, get_space, read_mem}
use re_cpm.Mbuf.Ints.{read_u32}
use re_cpm.Rtmp.Header.{Header, zeroed, rtmp_header_decode}

abbrev pub max_chunks : ℕ
max_chunks = 64

-- `struct rtmp_chunk`, and `struct rtmp_dechunker` with its list of chunks in order.
pub record Chunk : Type 0 where
  pub hdr : Header
  pub mb : Option Mbuf

pub record Dechunker : Type 0 where
  pub chunks : List Chunk
  pub chunk_sz : ℕ

-- `grants` is whether there is memory for it.
abbrev pub rtmp_dechunker_alloc : Bool → ℕ → ℕ × Option Dechunker
rtmp_dechunker_alloc grants chunk_sz =
    if chunk_sz == 0
    then (einval, none)
    else if grants
    then (0, some (record { chunks = []; chunk_sz = chunk_sz }))
    else (enomem, none)

unfoldable pub find_chunk : List Chunk → ℕ → Option Chunk
find_chunk [] chunk_id = none
find_chunk (c ∷ cs) chunk_id = if chunk_id == c.hdr.chunk_id then some c else find_chunk cs chunk_id

-- What is written through the pointer that `find_chunk` found.
unfoldable pub update_chunk : List Chunk → ℕ → Chunk → List Chunk
update_chunk [] chunk_id c' = []
update_chunk (c ∷ cs) chunk_id c' =
    if chunk_id == c.hdr.chunk_id then c' ∷ cs else c ∷ update_chunk cs chunk_id c'

-- What a chunk of format 0, 1 or 2 sets in the header of its chunk stream.
unfoldable pub merge_header : Header → Header → Header
merge_header hdr old =
    if hdr.format == 0
    then hdr
    else if hdr.format == 1
    then record old { timestamp_delta = hdr.timestamp_delta; len = hdr.len; type_id = hdr.type_id }
    else record old { timestamp_delta = hdr.timestamp_delta }

-- What it sets when its data came.
unfoldable pub settle_header : Header → Header → Header
settle_header hdr h =
    let h' = record h { format = hdr.format; ext_ts = hdr.ext_ts } in
    if hdr.format == 1 || hdr.format == 2
    then record h' { timestamp = (h.timestamp + hdr.timestamp_delta) % 2 ^ 32 }
    else h'

-- Its first `n` bytes, with the stream's header `h`.
unfoldable pub begin_data : Platform → ℕ → Header → Header → Chunk → Mbuf → ℕ × Chunk × Mbuf
begin_data p n hdr h c mb =
    if ltb (get_left mb) n then (enodata, record c { hdr = h }, mb) else elim (alloc p h.len) [
      | none ↦ (enomem, record { hdr = h; mb = none }, mb)
      | some b ↦
          let (err, got, mb') = read_mem mb n in
          if err == 0
          then (
            0,
            record {
              hdr = settle_header hdr h;
              mb = some (record b { buf = overwrite b.buf 0 got; pos = n; end = n });
            },
            mb',
          )
          else (err, record { hdr = h; mb = some b }, mb')
    ]

-- A chunk of format 0, 1 or 2 begins a message.
unfoldable pub begin_message : Platform → ℕ → Header → Chunk → Mbuf → ℕ × Chunk × Mbuf
begin_message p chunk_sz hdr c mb =
    let h = merge_header hdr c.hdr in begin_data p (min h.len chunk_sz) hdr h c mb

-- The extended timestamp of a chunk of format 3.
unfoldable pub next_ext_ts : Platform → Chunk → Mbuf → ℕ × Chunk × Mbuf
next_ext_ts p c mb =
    if c.hdr.ext_ts
    then (if ltb (get_left mb) 4
        then (enodata, c, mb)
        else (let (x, mb') = read_u32 p mb in
            let ext_ts = hton p.endian 4 x in
            if c.hdr.format == 0
            then (0, record c { hdr = record c.hdr { timestamp = ext_ts } }, mb')
            else (0, record c { hdr = record c.hdr { timestamp_delta = ext_ts } }, mb')))
    else (0, c, mb)

-- The header of a message that begins with a chunk of format 3.
unfoldable pub repeat_header : Header → Header
repeat_header h =
    let delta = if h.format == 0 then h.timestamp else h.timestamp_delta in
    record h { timestamp_delta = delta; timestamp = (h.timestamp + delta) % 2 ^ 32 }

-- The buffer of the message, with the chunk's header.
unfoldable pub message_buffer : Platform → Chunk → Option (Header × Mbuf)
message_buffer p c = elim (c.mb) [
  | some b ↦ some (c.hdr, b)
  | none ↦ elim (alloc p c.hdr.len) [ none ↦ none | some b ↦ some (repeat_header c.hdr, b) ]
]

-- The data of a chunk of format 3.
unfoldable pub next_data : ℕ → Header → Mbuf → Mbuf → ℕ × Chunk × Mbuf
next_data chunk_sz h b mb =
    let n = min (get_space b) chunk_sz in
    if ltb (get_left mb) n
    then (enodata, record { hdr = h; mb = some b }, mb)
    else (let (err, got, mb') = read_mem mb n in
        if err == 0
        then (
          0,
          record {
            hdr = h;
            mb = some (record b {
              buf = overwrite b.buf b.pos got;
              pos = add_size b.pos n;
              end = add_size b.end n;
            });
          },
          mb',
        )
        else (err, record { hdr = h; mb = some b }, mb'))

-- The data, once the timestamp was read.
unfoldable pub after_ext_ts : Platform → ℕ → ℕ × Chunk × Mbuf → ℕ × Chunk × Mbuf
after_ext_ts p chunk_sz (err, c, mb) =
    if err == 0
    then elim (message_buffer p c) [
      | none ↦ (enomem, c, mb)
      | some (h, b) ↦ next_data chunk_sz h b mb
    ]
    else (err, c, mb)

-- A chunk of format 3 goes on with a message, or repeats one.
unfoldable pub continue_message : Platform → ℕ → Chunk → Mbuf → ℕ × Chunk × Mbuf
continue_message p chunk_sz c mb = after_ext_ts p chunk_sz (next_ext_ts p c mb)

-- The handler gets a message that is complete; its answer is `handler`.
unfoldable pub finish_message : (Header → Mbuf → ℕ) → Chunk → ℕ × Chunk × Option (Header × Mbuf)
finish_message handler c = elim (c.mb) [
  | none ↦ (0, c, none)
  | some b ↦
      let whole = record b { pos = 0 } in
      if leb b.size b.pos
      then (handler c.hdr whole, record c { mb = none }, some (c.hdr, whole))
      else (0, c, none)
]

-- The end of the call, with the chunk of the stream `chunk_id`.
unfoldable pub after_data :
    (Header → Mbuf → ℕ)
    → Dechunker
    → ℕ
    → ℕ × Chunk × Mbuf
    → ℕ × Dechunker × Mbuf × Option (Header × Mbuf)
after_data handler rd chunk_id (err, c, mb) =
    if err == 0
    then (let (err', c', message) = finish_message handler c in
        (err', record rd { chunks = update_chunk rd.chunks chunk_id c' }, mb, message))
    else (err, record rd { chunks = update_chunk rd.chunks chunk_id c }, mb, none)

-- What is done with the chunk of the stream that the header names.
unfoldable pub on_chunk :
    Platform
    → (Header → Mbuf → ℕ)
    → Header
    → Chunk
    → Dechunker
    → Mbuf
    → ℕ × Dechunker × Mbuf × Option (Header × Mbuf)
on_chunk p handler hdr c rd mb = after_data handler rd hdr.chunk_id (
    if leb hdr.format 2
    then begin_message p rd.chunk_sz hdr c mb
    else if hdr.format == 3
    then continue_message p rd.chunk_sz c mb
    else (eproto, c, mb))

-- The call from the decoded header on.
unfoldable pub after_header :
    Platform
    → Bool
    → (Header → Mbuf → ℕ)
    → Dechunker
    → ℕ × Header × Mbuf
    → ℕ × Dechunker × Mbuf × Option (Header × Mbuf)
after_header p grants handler rd (err, hdr, mb) =
    if not (err == 0) then (err, rd, mb, none) else elim (find_chunk rd.chunks hdr.chunk_id) [
      | some c ↦ on_chunk p handler hdr c rd mb
      | none ↦
          if hdr.format == 0
          then (if ltb max_chunks (length rd.chunks % 2 ^ 32)
              then (eoverflow, rd, mb, none)
              else if grants
              then (let c : Chunk = record { hdr = hdr; mb = none } in
                  on_chunk p handler hdr c (record rd { chunks = rd.chunks ++ (c ∷ []) }) mb)
              else (enomem, rd, mb, none))
          else (enoent, rd, mb, none)
    ]

-- The error number, the dechunker, the input, and the message that the handler got. `grants` is
-- whether there is memory for a new chunk.
unfoldable pub rtmp_dechunker_receive :
    Platform
    → Bool
    → (Header → Mbuf → ℕ)
    → Dechunker
    → Mbuf
    → ℕ × Dechunker × Mbuf × Option (Header × Mbuf)
rtmp_dechunker_receive p grants handler rd mb =
    after_header p grants handler rd (rtmp_header_decode p zeroed mb)

abbrev pub rtmp_dechunker_set_chunksize : Dechunker → ℕ → Dechunker
rtmp_dechunker_set_chunksize rd chunk_sz =
    if chunk_sz == 0 then rd else record rd { chunk_sz = chunk_sz }
