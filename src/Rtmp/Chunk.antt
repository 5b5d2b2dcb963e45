-- ===== src/Rtmp/Chunk.antt =====
-- `rtmp_chunker` of src/rtmp/chunk.c: a message is sent in chunks, each with a header.
pub mod Stream
pub mod Sent
use re_cpm.Base.{
  ℕ, zero, suc, ◌+◌, ◌%◌, ◌^◌, min, ◌==◌, if◌then◌else◌, ◌||◌, Option, none, some, List, [], ◌∷◌,
  length, take, drop,
}
use re_cpm.Base.Errno.{einval, enomem}
use re_cpm.Platform.{Platform, add_size}
use re_cpm.Mbuf.{Mbuf, alloc, set_pos, write_mem}
use re_cpm.Mbuf.Ints.{◌|=◌}
use re_cpm.Rtmp.Header.{Header, zeroed, rtmp_header_encode}

-- `err = rtmp_header_encode(mb, &hdr)` and `err |= mbuf_write_mem(mb, payload, chunk_sz)`
unfoldable pub write_chunk : Platform → Header → List ℕ → Mbuf → (ℕ × Mbuf) × Header
write_chunk p h part mb =
    let (err, h', mb') = rtmp_header_encode p mb h in ((err, mb') |= (λ m. write_mem p m part), h')

-- The loop over the rest of the payload, on fuel.
unfoldable pub chunk_loop : ℕ → Platform → Header → ℕ → List ℕ → Mbuf → Option (ℕ × Mbuf)
chunk_loop zero p h max_chunk_sz payload mb = none
chunk_loop (suc fuel) p h max_chunk_sz payload mb =
    let chunk_sz = min (length payload) max_chunk_sz in
    let (out, h') = write_chunk p h (take chunk_sz payload) mb in
    let more = chunk_loop fuel p h' max_chunk_sz (drop chunk_sz payload) out.1 in
    if length payload == 0 then some (0, mb) else if out.0 == 0 then more else some out

-- The header of the first chunk.
abbrev pub first_header : ℕ → ℕ → ℕ → ℕ → ℕ → ℕ → List ℕ → Header
first_header format chunk_id timestamp timestamp_delta msg_type_id msg_stream_id payload =
    record zeroed {
      format = format;
      chunk_id = chunk_id;
      timestamp = timestamp;
      timestamp_delta = timestamp_delta;
      len = length payload % 2 ^ 32;
      type_id = msg_type_id;
      stream_id = msg_stream_id;
    }

-- All chunks, from the header of the first on.
unfoldable pub write_chunks : ℕ → Platform → Header → List ℕ → ℕ → Mbuf → Option (ℕ × Mbuf)
write_chunks fuel p h payload max_chunk_sz mb =
    let chunk_sz = min (length payload) max_chunk_sz in
    let (out, h') = write_chunk p h (take chunk_sz payload) mb in
    if out.0 == 0
    then chunk_loop fuel p (record h' { format = 3 }) max_chunk_sz (drop chunk_sz payload) out.1
    else some out

-- The error number and the buffer that is handed to `tcp_send`, whose answer is `send`.
unfoldable pub rtmp_chunker :
    ℕ → Platform → (Mbuf → ℕ) → ℕ → ℕ → ℕ → ℕ → ℕ → ℕ → List ℕ → ℕ → Option (ℕ × Option Mbuf)
rtmp_chunker fuel p send format chunk_id timestamp timestamp_delta type_id stream_id payload sz =
    if length payload == 0 || sz == 0
    then some (einval, none)
    else elim (alloc p (add_size (length payload) 256)) [
      | none ↦ some (enomem, none)
      | some mb ↦
          let h =
            first_header format chunk_id timestamp timestamp_delta type_id stream_id payload in
          elim (write_chunks fuel p h payload sz mb) [
            | none ↦ none
            | some (err, mb') ↦
                if err == 0
                then some (send (set_pos mb' 0), some (set_pos mb' 0))
                else some (err, none)
          ]
    ]
