-- ===== src/Rtmp/Dechunk/Stream.antt =====
-- What `rtmp_chunker` of src/rtmp/chunk.c sends is put together by the dechunker of
-- src/rtmp/dechunk.c.
use re_cpm.Base.{
  ℕ, zero, suc, ◌+◌, ◌%◌, ◌^◌, ◌<◌, ◌≤◌, ◌≡◌, refl, ap, subst, ◌∙◌, arith, Bool, true, false, not,
  leb, ltb, ltb-ge, ◌==◌, if◌then◌else◌, Bool-cases, inl, inr, min, Option, none, some, List, [],
  ◌∷◌, ◌++◌, append_assoc, length, length-append, length-drop, length-take, take, drop,
  take-append-drop,
}
use re_cpm.Base.Errno.{eproto}
use re_cpm.Platform.{Platform}
use re_cpm.Mem.{mem_size_max}
use re_cpm.Mbuf.{Mbuf}
use re_cpm.Mbuf.Inv.{IsValid}
use re_cpm.Mbuf.Cursor.{rest}
use re_cpm.Rtmp.Header.{Header, zeroed, rtmp_header_decode}
use re_cpm.Rtmp.Header.Wire.{IsHeader, header_bytes, ext_bytes}
use re_cpm.Rtmp.Header.Receive.{received, unread, rtmp_header_decode-Gives}
use re_cpm.Rtmp.Chunk.Stream.{tail_bytes}
use re_cpm.Rtmp.Dechunk.{
  Chunk, Dechunker, max_chunks, find_chunk, update_chunk, begin_message, continue_message,
  message_buffer, finish_message, on_chunk, rtmp_dechunker_receive, next_ext_ts, next_data,
  after_header, after_data, after_ext_ts,
}
use re_cpm.Rtmp.Dechunk.Parts.{
  find_chunk-update, held, partial, next_data-eq, next_ext_ts-eq, message, finish_message-last,
  finish_message-more,
}

abbrev pub Result : Type 0
Result = ℕ × Dechunker × Mbuf × Option (Header × Mbuf)

abbrev pub given : Option (Header × Mbuf) → List (Header × Mbuf)
given none = []
given (some m) = m ∷ []

module _ (p : Platform) (grants : Bool) (handler : Header → Mbuf → ℕ) where
  -- Calls of `rtmp_dechunker_receive` on the same input while they succeed, and the messages that
  -- the handler got.
  abbrev pub calls : ℕ → Dechunker → Mbuf → ℕ × Dechunker × Mbuf × List (Header × Mbuf)
  calls zero rd mb = (0, rd, mb, [])
  calls (suc n) rd mb =
      let (err, rd', mb', m) = rtmp_dechunker_receive p grants handler rd mb in
      let (err', rd2, mb2, ms) = calls n rd' mb' in
      if err == 0 then (err', rd2, mb2, given m ++ ms) else (err, rd', mb', given m)

  -- The calls after one that had this result.
  abbrev pub then_calls : ℕ → Result → ℕ × Dechunker × Mbuf × List (Header × Mbuf)
  then_calls n (err, rd', mb', m) =
      let (err', rd2, mb2, ms) = calls n rd' mb' in
      if err == 0 then (err', rd2, mb2, given m ++ ms) else (err, rd', mb', given m)

  -- The end of a call that took a chunk.
  abbrev pub took : Dechunker → ℕ → Chunk → Mbuf → Result
  took rd id c mb = after_data handler rd id (0, c, mb)

  pub receive-found :
      (rd : Dechunker) (hdr : Header) (c : Chunk) (mb mb1 : Mbuf)
      → rtmp_header_decode p zeroed mb ≡ (0, hdr, mb1)
      → find_chunk rd.chunks hdr.chunk_id ≡ some c
      → rtmp_dechunker_receive p grants handler rd mb ≡ on_chunk p handler hdr c rd mb1
  unfolding rtmp_dechunker_receive after_header
  receive-found rd hdr c mb mb1 e f = ap (after_header p grants handler rd) e ∙ rw f refl

  on_chunk-continue :
      (rd : Dechunker) (hdr : Header) (c c1 : Chunk) (mb mb1 : Mbuf)
      → hdr.format ≡ 3
      → continue_message p rd.chunk_sz c mb ≡ (0, c1, mb1)
      → on_chunk p handler hdr c rd mb ≡ took rd hdr.chunk_id c1 mb1
  unfolding on_chunk after_data
  on_chunk-continue rd hdr c c1 mb mb1 f e =
      ap
        (λ n. after_data handler rd hdr.chunk_id (
          if leb n 2
          then begin_message p rd.chunk_sz hdr c mb
          else if n == 3
          then continue_message p rd.chunk_sz c mb
          else (eproto, c, mb)))
        f
      ∙ ap (after_data handler rd hdr.chunk_id) e

  pub receive-new :
      (rd : Dechunker) (hdr : Header) (mb mb1 : Mbuf)
      → rtmp_header_decode p zeroed mb ≡ (0, hdr, mb1)
      → find_chunk rd.chunks hdr.chunk_id ≡ none
      → hdr.format ≡ 0
      → length rd.chunks ≤ max_chunks
      → grants ≡ true
      → let c : Chunk = record { hdr = hdr; mb = none } in
        rtmp_dechunker_receive p grants handler rd mb
        ≡ on_chunk p handler hdr c (record rd { chunks = rd.chunks ++ (c ∷ []) }) mb1
  unfolding rtmp_dechunker_receive after_header
  receive-new rd hdr mb mb1 e f fmt few granted =
      let first : (hdr.format == 0) ≡ true = ground arith in
      let room : ltb max_chunks (length rd.chunks % 2 ^ 32) ≡ false =
        ltb-ge max_chunks (length rd.chunks % 2 ^ 32) (omega arith) in
      ap (after_header p grants handler rd) e ∙ rw (f, first, room, granted) refl

  pub on_chunk-begin :
      (rd : Dechunker) (hdr : Header) (c c1 : Chunk) (mb mb1 : Mbuf)
      → hdr.format ≡ 0
      → begin_message p rd.chunk_sz hdr c mb ≡ (0, c1, mb1)
      → on_chunk p handler hdr c rd mb ≡ took rd hdr.chunk_id c1 mb1
  unfolding on_chunk after_data
  on_chunk-begin rd hdr c c1 mb mb1 f e =
      ap
        (λ n. after_data handler rd hdr.chunk_id (
          if leb n 2
          then begin_message p rd.chunk_sz hdr c mb
          else if n == 3
          then continue_message p rd.chunk_sz c mb
          else (eproto, c, mb)))
        f
      ∙ ap (after_data handler rd hdr.chunk_id) e

  continue_message-eq :
      (sz : ℕ) (hd : Header) (b : Mbuf) (c1 : Chunk) (mb mb1 mb2 : Mbuf)
      → let c : Chunk = record { hdr = hd; mb = some b } in
        next_ext_ts p c mb ≡ (0, c, mb1)
        → next_data sz hd b mb1 ≡ (0, c1, mb2)
        → continue_message p sz c mb ≡ (0, c1, mb2)
  unfolding continue_message after_ext_ts message_buffer
  continue_message-eq sz hd b c1 mb mb1 mb2 e f = ap (after_ext_ts p sz) e ∙ f

  pub took-eq :
      (rd : Dechunker) (id : ℕ) (c c2 : Chunk) (mb : Mbuf) (e : ℕ) (m : Option (Header × Mbuf))
      → finish_message handler c ≡ (e, c2, m)
      → took rd id c mb ≡ (e, record rd { chunks = update_chunk rd.chunks id c2 }, mb, m)
  unfolding after_data
  took-eq rd id c c2 mb e m h =
      ap
        (λ (f : ℕ × Chunk × Option (Header × Mbuf)).
          (f.0, record rd { chunks = update_chunk rd.chunks id f.1 }, mb, f.2))
        h

  no_more :
      (e : ℕ) (rd : Dechunker) (mb : Mbuf) (m : Header × Mbuf)
      → then_calls 0 (e, rd, mb, some m) ≡ (e, rd, mb, m ∷ [])
  no_more e rd mb m = elim (Bool-cases (e == 0)) [
    | inl fine ↦ let z : e ≡ 0 = ground arith in rw z refl
    | inr wrong ↦ rw wrong refl
  ]

  -- Some calls later the handler got the message, and `r` is left of the input.
  abbrev pub Delivers :
      (ℕ → ℕ × Dechunker × Mbuf × List (Header × Mbuf)) → ℕ → Header → Mbuf → List ℕ → Type 0
  Delivers run id hd m r =
      (n : ℕ) × (rd' : Dechunker) × (mb' : Mbuf) × (run n ≡ (handler hd m, rd', mb', (hd, m) ∷ []))
      × (rest mb' ≡ r)
      × (find_chunk rd'.chunks id ≡ some (record { hdr = hd; mb = none }))

  module _ (sz : ℕ) (some_sz : 0 < sz) (hd h : Header) (w : IsHeader h) (f3 : h.format ≡ 3)
      (f0 : hd.format ≡ 0) (same_id : hd.chunk_id ≡ h.chunk_id)
      (ext : hd.ext_ts ≡ not (h.timestamp_ext == 0))
      (time : (h.timestamp_ext == 0) ≡ false → hd.timestamp ≡ h.timestamp_ext) where
    -- One call takes a chunk of format 3.
    one_more :
        (rd : Dechunker) (size : ℕ) (done junk part r : List ℕ) (mb : Mbuf)
        → rd.chunk_sz ≡ sz
        → find_chunk rd.chunks h.chunk_id ≡ some (partial hd size done junk)
        → length done + length junk ≡ size
        → size ≤ mem_size_max
        → 0 < length junk
        → length part ≡ min (length junk) sz
        → IsValid mb
        → rest mb ≡ header_bytes h ++ (part ++ r)
        → (mb' : Mbuf) × (rtmp_dechunker_receive p grants handler rd mb
            ≡ took rd h.chunk_id (partial hd size (done ++ part) (drop (length part) junk)) mb')
          × IsValid mb'
          × (rest mb' ≡ r)
    one_more rd size done junk part r mb at found whole small some_left n v b =
        let c = partial hd size done junk in
        let (mb1, e1, v1, b1) = rtmp_header_decode-Gives p h zeroed mb (part ++ r) w v b in
        let fmt : (received h).format ≡ 3 = rw f3 refl in
        let rid : (received h).chunk_id ≡ h.chunk_id = rw f3 refl in
        let opened : unread h ≡ ext_bytes h.timestamp_ext = rw f3 refl in
        let (mb2, e2, v2, b2) =
          next_ext_ts-eq p c h.timestamp_ext (part ++ r) mb1 w.ext32 f0 ext time v1
            (b1 ∙ ap (λ t. t ++ (part ++ r)) opened) in
        let (mb3, e3, v3, b3) =
          next_data-eq hd sz size done junk part r mb2 whole small some_left n v2 b2 in
        let c1 = partial hd size (done ++ part) (drop (length part) junk) in
        (
          mb3,
          receive-found rd (received h) c mb mb1 e1 (ap (find_chunk rd.chunks) rid ∙ found)
              ∙ on_chunk-continue rd (received h) c c1 mb1 mb3 fmt (
                  ap (λ k. continue_message p k c mb1) at
                  ∙ continue_message-eq sz hd (held size done junk) c1 mb1 mb2 mb3 e2 e3)
              ∙ ap (λ k. took rd k c1 mb3) rid,
          v3,
          b3,
        )

    -- A chunk was taken, and `pr` of the payload is to come.
    pub took-Delivers :
        (fuel : ℕ) (rd : Dechunker) (size : ℕ) (done junk pr r : List ℕ) (c : Chunk) (mb : Mbuf)
        → rd.chunk_sz ≡ sz
        → find_chunk rd.chunks h.chunk_id ≡ some c
        → length done + length junk ≡ size
        → length pr ≡ length junk
        → length pr < fuel
        → size ≤ mem_size_max
        → IsValid mb
        → rest mb ≡ tail_bytes fuel h sz pr ++ r
        → Delivers
            (λ n. then_calls n (took rd h.chunk_id (partial hd size done junk) mb))
            h.chunk_id
            hd
            (message size (done ++ pr))
            r
    took-Delivers zero rd size done junk pr r c mb at found whole len k small v b =
        absurd (omega arith)
    took-Delivers (suc fuel) rd size done [] [] r c mb at found whole len k small v b =
        let last = finish_message-last handler hd size done (omega arith) in
        let c2 : Chunk = record { hdr = hd; mb = none } in
        (
          0,
          record rd { chunks = update_chunk rd.chunks h.chunk_id c2 },
          mb,
          ap (then_calls 0) (took-eq rd h.chunk_id _ c2 mb _ _ last)
              ∙ no_more _ (record rd { chunks = update_chunk rd.chunks h.chunk_id c2 }) mb _,
          b,
          find_chunk-update rd.chunks h.chunk_id c c2 found same_id,
        )
    took-Delivers (suc fuel) rd size done [] (x ∷ xs) r c mb at found whole len k small v b =
        absurd (omega arith)
    took-Delivers (suc fuel) rd size done (j ∷ js) [] r c mb at found whole len k small v b =
        absurd (omega arith)
    took-Delivers (suc fuel) rd size done (j ∷ js) (x ∷ xs) r c mb at found whole len k small v b =
        let n = min (length (x ∷ xs)) sz in
        let part = take n (x ∷ xs) in
        let more = drop n (x ∷ xs) in
        let c1 = partial hd size done (j ∷ js) in
        let rd1 = record rd { chunks = update_chunk rd.chunks h.chunk_id c1 } in
        let next = finish_message-more handler hd size done (j ∷ js) (omega arith) in
        let found1 = find_chunk-update rd.chunks h.chunk_id c c1 found same_id in
        let part_len : length part ≡ n = omega (arith, length-take {0} n (x ∷ xs)) in
        let (mb1, e1, v1, b1) =
          one_more rd1 size done (j ∷ js) part (tail_bytes fuel h sz more ++ r) mb at found1 whole
            small (omega arith) (omega (arith, part_len)) v (b ∙ simp append_assoc) in
        let joined : (done ++ part) ++ more ≡ done ++ (x ∷ xs) =
          append_assoc done part more ∙ ap (λ t. done ++ t) (take-append-drop n (x ∷ xs)) in
        let (n', rd', mb', e2, left, free) =
          took-Delivers fuel rd1 size (done ++ part) (drop (length part) (j ∷ js)) more r c1 mb1 at
            found1
            (omega (
              arith,
              whole,
              part_len,
              length-append {0} done part,
              length-drop {0} (length part) (j ∷ js),
            ))
            (omega (
              arith,
              part_len,
              len,
              length-drop {0} n (x ∷ xs),
              length-drop {0} (length part) (j ∷ js),
            ))
            (omega (arith, length-drop {0} n (x ∷ xs))) small v1 b1 in
        (
          suc n',
          rd',
          mb',
          ap (then_calls (suc n')) (took-eq rd h.chunk_id c1 c1 mb 0 none next)
              ∙ ap (then_calls n') e1
              ∙ subst
                  (λ t.
                    then_calls n' (
                      took rd1 h.chunk_id
                        (partial hd size (done ++ part) (drop (length part) (j ∷ js))) mb1)
                    ≡ (handler hd (message size t), rd', mb', (hd, message size t) ∷ []))
                  joined e2,
          left,
          free,
        )
