-- ===== src/Rtmp/Dechunk/Empty.antt =====
-- Messages of length 0 at the dechunker of src/rtmp/dechunk.c.
use re_cpm.Base.{
  ℕ, ◌<◌, ◌≡◌, refl, sym, ap, ◌∙◌, arith, Bool, false, leb, ltb, ltb-ge, inl, inr, min, none, some,
  List, [], ◌∷◌, ◌++◌,
}
use re_cpm.Platform.{Platform}
use re_cpm.Mbuf.{Mbuf, alloc, default_size, get_left, read_mem}
use re_cpm.Mbuf.Alloc.{alloc-eq}
use re_cpm.Mbuf.Inv.{IsValid}
use re_cpm.Mbuf.Cursor.{rest}
use re_cpm.Mbuf.Takes.{read_mem-Takes}
use re_cpm.Rtmp.Header.{Header, zeroed}
use re_cpm.Rtmp.Header.Wire.{IsHeader, header_bytes}
use re_cpm.Rtmp.Header.Receive.{received, rtmp_header_decode-Gives}
use re_cpm.Rtmp.Dechunk.{
  Chunk, Dechunker, find_chunk, update_chunk, begin_message, begin_data, finish_message,
  rtmp_dechunker_receive,
}
use re_cpm.Rtmp.Dechunk.Parts.{
  find_chunk-new, find_chunk-update, merge_same, settle_same, overwrite-nil,
}
use re_cpm.Rtmp.Dechunk.Stream.{receive-found, receive-new, on_chunk-begin, took, took-eq}
use re_cpm.Rtmp.Dechunk.RoundTrip.{HasRoom}

-- `mbuf_alloc(0)` gives what `mbuf_alloc` of the default size gives.
alloc_zero : (p : Platform) → alloc p 0 ≡ alloc p default_size
unfolding alloc
alloc_zero p = refl

-- The chunk stream after an empty message: a buffer of the default size, none of it there.
abbrev pub waiting : Header → Mbuf → Chunk
waiting hd block = record { hdr = hd; mb = some (record block { pos = 0; end = 0 }) }

begin_empty :
    (p : Platform) (sz : ℕ) (hd : Header) (c : Chunk) (block mb : Mbuf)
    → hd.format ≡ 0
    → hd.len ≡ 0
    → alloc p 0 ≡ some block
    → IsValid mb
    → (begin_message p sz hd c mb ≡ (0, waiting hd block, (read_mem mb 0).2))
      × IsValid (read_mem mb 0).2
      × (rest (read_mem mb 0).2 ≡ rest mb)
unfolding begin_message begin_data
begin_empty p sz hd c block mb f0 len memory v =
    let (z, got, t) = read_mem-Takes mb [] (rest mb) 0 v refl refl in
    let room : ltb (get_left mb) 0 ≡ false = ltb-ge (get_left mb) 0 (omega arith) in
    let size : min hd.len sz ≡ 0 = omega arith in
    let step : begin_data p 0 hd hd c mb ≡ (0, waiting hd block, (read_mem mb 0).2) =
      rw (room, ap (alloc p) len ∙ memory, z, got, overwrite-nil block.buf, settle_same hd f0)
        refl in
    (
      ap (λ h. begin_data p (min h.len sz) hd h c mb) (merge_same hd c.hdr f0)
          ∙ ap (λ k. begin_data p k hd hd c mb) size
          ∙ step,
      t.valid,
      t.left,
    )

not_complete :
    (handler : Header → Mbuf → ℕ) (hd : Header) (block : Mbuf)
    → 0 < block.size
    → finish_message handler (waiting hd block) ≡ (0, waiting hd block, none)
unfolding finish_message
not_complete handler hd block some_size =
    let less : leb block.size 0 ≡ false = ground arith in rw less refl

-- A chunk of format 0 that announces a message of length 0, on a stream that is known or has room,
-- is accepted, but the handler gets no message: the stream keeps a buffer of 512 bytes with nothing
-- in it, as if they were to come.
pub receive_empty :
    (p : Platform) (grants : Bool) (handler : Header → Mbuf → ℕ) (h : Header) (rd : Dechunker)
    (block mb : Mbuf) (r : List ℕ)
    → IsHeader h
    → h.format ≡ 0
    → h.len ≡ 0
    → HasRoom grants rd h.chunk_id
    → alloc p 0 ≡ some block
    → IsValid mb
    → rest mb ≡ header_bytes h ++ r
    → (rd' : Dechunker) × (mb' : Mbuf) × (rtmp_dechunker_receive p grants handler rd mb
        ≡ (0, rd', mb', none))
      × (rest mb' ≡ r)
      × (find_chunk rd'.chunks h.chunk_id ≡ some (waiting (received h) block))
      × (block.size ≡ 512)
receive_empty p grants handler h rd block mb r w f0 len room memory v b =
    let hd = received h in
    let fmt : hd.format ≡ 0 = rw f0 refl in
    let rid : hd.chunk_id ≡ h.chunk_id = rw f0 refl in
    let rlen : hd.len ≡ 0 = rw f0 len in
    let (fresh, stored, low) =
      alloc-eq p default_size block (omega arith) (sym (alloc_zero p) ∙ memory) in
    let size : block.size ≡ 512 = ap (λ x. x.size) fresh in
    let (mb1, e1, v1, b1) = rtmp_header_decode-Gives p h zeroed mb r w v b in
    let b1' : rest mb1 ≡ r = b1 ∙ rw f0 refl in
    let c1 = waiting hd block in
    let quiet = not_complete handler hd block (omega arith) in
    elim room [
      | inl (c, found) ↦
          let (e2, v2, b2) = begin_empty p rd.chunk_sz hd c block mb1 fmt rlen memory v1 in
          (
            record rd { chunks = update_chunk rd.chunks h.chunk_id c1 },
            (read_mem mb1 0).2,
            receive-found p grants handler rd hd c mb mb1 e1 (ap (find_chunk rd.chunks) rid ∙ found)
                ∙ on_chunk-begin p grants handler rd hd c c1 mb1 (read_mem mb1 0).2 fmt e2
                ∙ ap (λ k. took p grants handler rd k c1 (read_mem mb1 0).2) rid
                ∙ took-eq p grants handler rd h.chunk_id c1 c1 (read_mem mb1 0).2 0 none quiet,
            b2 ∙ b1',
            find_chunk-update rd.chunks h.chunk_id c c1 found rid,
            size,
          )
      | inr (new, few, granted) ↦
          let c : Chunk = record { hdr = hd; mb = none } in
          let rd1 = record rd { chunks = rd.chunks ++ (c ∷ []) } in
          let (e2, v2, b2) = begin_empty p rd.chunk_sz hd c block mb1 fmt rlen memory v1 in
          (
            record rd1 { chunks = update_chunk rd1.chunks h.chunk_id c1 },
            (read_mem mb1 0).2,
            receive-new p grants handler rd hd mb mb1 e1 (ap (find_chunk rd.chunks) rid ∙ new) fmt
                  few granted
                ∙ on_chunk-begin p grants handler rd1 hd c c1 mb1 (read_mem mb1 0).2 fmt e2
                ∙ ap (λ k. took p grants handler rd1 k c1 (read_mem mb1 0).2) rid
                ∙ took-eq p grants handler rd1 h.chunk_id c1 c1 (read_mem mb1 0).2 0 none quiet,
            b2 ∙ b1',
            find_chunk-update rd1.chunks h.chunk_id c c1
                (find_chunk-new rd.chunks h.chunk_id c new rid) rid,
            size,
          )
    ]
