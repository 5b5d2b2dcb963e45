-- ===== src/Rtmp/Dechunk/RoundTrip.antt =====
-- What `rtmp_chunker` of src/rtmp/chunk.c sends, the dechunker of src/rtmp/dechunk.c gives to its
-- handler.
use re_cpm.Base.{
  ℕ, suc, ◌^◌, ◌<◌, ◌≤◌, ◌≡◌, ◌⊎◌, refl, sym, ap, subst, ◌∙◌, arith, Bool, true, false, not, leb,
  ◌==◌, inl, inr, min, Option, none, some, some-eq, List, [], ◌∷◌, ◌++◌, append-nil, append_assoc,
  length, length-drop, length-take, take, drop, take-append-drop,
}
use re_cpm.Platform.{Platform}
use re_cpm.Mem.{mem_size_max}
use re_cpm.Mbuf.{Mbuf, alloc}
use re_cpm.Mbuf.Alloc.{alloc-eq}
use re_cpm.Mbuf.Inv.{IsValid}
use re_cpm.Mbuf.Cursor.{rest}
use re_cpm.Rtmp.Header.{Header, zeroed, timestamp_24max, ts_ext}
use re_cpm.Rtmp.Header.Wire.{IsHeader, header_bytes, sent_ext}
use re_cpm.Rtmp.Header.Receive.{received, rtmp_header_decode-Gives}
use re_cpm.Rtmp.Chunk.Stream.{tail_bytes, stream_bytes, next_header, next_header-IsHeader}
use re_cpm.Rtmp.Chunk.{first_header, rtmp_chunker}
use re_cpm.Rtmp.Chunk.Sent.{Holds, rtmp_chunker-Returns}
use re_cpm.Rtmp.Dechunk.{
  Chunk, Dechunker, max_chunks, find_chunk, begin_message, rtmp_dechunker_receive,
}
use re_cpm.Rtmp.Dechunk.Parts.{find_chunk-new, partial, begin_message-eq, message}
use re_cpm.Rtmp.Dechunk.Stream.{
  calls, then_calls, receive-new, took, Delivers, took-Delivers, receive-found, on_chunk-begin,
}

-- The timestamp goes out again with each chunk when it needs 32 bits.
sent_again :
    (t : ℕ)
    → (leb timestamp_24max t ≡ not (ts_ext t == 0)) × ((ts_ext t == 0) ≡ false → t ≡ ts_ext t)
unfolding ts_ext
sent_again t = (ground arith, λ h. ground arith)

-- The chunk stream is known, or there is room for another.
abbrev pub HasRoom : Bool → Dechunker → ℕ → Type 0
HasRoom grants rd id =
    ((c : Chunk) × (find_chunk rd.chunks id ≡ some c))
    ⊎ (find_chunk rd.chunks id ≡ none) × (length rd.chunks ≤ max_chunks) × (grants ≡ true)

module _ (p : Platform) (grants : Bool) (handler : Header → Mbuf → ℕ) (sz : ℕ) (some_sz : 0 < sz)
    (h : Header) (w : IsHeader h) (f0 : h.format ≡ 0) where
  first_call :
      (rd : Dechunker) (junk part r : List ℕ) (mb : Mbuf)
      → rd.chunk_sz ≡ sz
      → HasRoom grants rd h.chunk_id
      → h.len ≡ length junk
      → length part ≡ min (length junk) sz
      → alloc p (length junk) ≡ some (record { buf = junk; size = length junk; pos = 0; end = 0 })
      → IsValid mb
      → rest mb ≡ header_bytes h ++ (part ++ r)
      → (rd1 : Dechunker) × (c : Chunk) × (mb' : Mbuf) × (rtmp_dechunker_receive p grants handler rd
            mb
          ≡ took p grants handler rd1 h.chunk_id
              (partial (received h) (length junk) part (drop (length part) junk))
              mb')
        × (rd1.chunk_sz ≡ sz)
        × (find_chunk rd1.chunks h.chunk_id ≡ some c)
        × IsValid mb'
        × (rest mb' ≡ r)
  first_call rd junk part r mb at room len n memory v b =
      let hd = received h in
      let fmt : hd.format ≡ 0 = rw f0 refl in
      let rid : hd.chunk_id ≡ h.chunk_id = rw f0 refl in
      let rlen : hd.len ≡ length junk = rw f0 len in
      let (mb1, e1, v1, b1) = rtmp_header_decode-Gives p h zeroed mb (part ++ r) w v b in
      let b1' : rest mb1 ≡ part ++ r = b1 ∙ rw f0 refl in
      let c1 = partial hd (length junk) part (drop (length part) junk) in
      elim room [
        | inl (c, found) ↦
            let (mb2, e2, v2, b2) =
              begin_message-eq p sz hd c junk part r mb1 fmt rlen n memory v1 b1' in
            (
              rd,
              c,
              mb2,
              receive-found p grants handler rd hd c mb mb1 e1
                    (ap (find_chunk rd.chunks) rid ∙ found)
                  ∙ on_chunk-begin p grants handler rd hd c c1 mb1 mb2 fmt
                      (ap (λ k. begin_message p k hd c mb1) at ∙ e2)
                  ∙ ap (λ k. took p grants handler rd k c1 mb2) rid,
              at,
              found,
              v2,
              b2,
            )
        | inr (new, few, granted) ↦
            let c : Chunk = record { hdr = hd; mb = none } in
            let rd1 = record rd { chunks = rd.chunks ++ (c ∷ []) } in
            let (mb2, e2, v2, b2) =
              begin_message-eq p sz hd c junk part r mb1 fmt rlen n memory v1 b1' in
            (
              rd1,
              c,
              mb2,
              receive-new p grants handler rd hd mb mb1 e1 (ap (find_chunk rd.chunks) rid ∙ new) fmt
                    few granted
                  ∙ on_chunk-begin p grants handler rd1 hd c c1 mb1 mb2 fmt
                      (ap (λ k. begin_message p k hd c mb1) at ∙ e2)
                  ∙ ap (λ k. took p grants handler rd1 k c1 mb2) rid,
              at,
              find_chunk-new rd.chunks h.chunk_id c new rid,
              v2,
              b2,
            )
      ]

  -- All chunks of a message, wherever its bytes come from.
  pub stream-Delivers :
      (fuel : ℕ) (rd : Dechunker) (junk payload r : List ℕ) (mb : Mbuf)
      → rd.chunk_sz ≡ sz
      → HasRoom grants rd h.chunk_id
      → h.len ≡ length junk
      → length payload ≡ length junk
      → length payload < fuel
      → length junk ≤ mem_size_max
      → alloc p (length junk) ≡ some (record { buf = junk; size = length junk; pos = 0; end = 0 })
      → IsValid mb
      → rest mb ≡ stream_bytes fuel h sz payload ++ r
      → Delivers p grants handler
          (λ n. calls p grants handler (suc n) rd mb)
          h.chunk_id
          (received h)
          (message (length junk) payload)
          r
  stream-Delivers fuel rd junk payload r mb at room len same k small memory v b =
      let n = min (length payload) sz in
      let part = take n payload in
      let more = drop n payload in
      let h3 = next_header h in
      let hd = received h in
      let part_len : length part ≡ n = omega (arith, length-take {0} n payload) in
      let (rd1, c, mb1, e1, at1, found, v1, b1) =
        first_call rd junk part (tail_bytes fuel h3 sz more ++ r) mb at room len
          (omega (arith, part_len, same)) memory v (b ∙ simp append_assoc) in
      let sent : sent_ext h ≡ ts_ext h.timestamp = rw f0 refl in
      let long : hd.ext_ts ≡ leb timestamp_24max h.timestamp = rw f0 refl in
      let time : hd.timestamp ≡ h.timestamp = rw f0 refl in
      let again = sent_again h.timestamp in
      let (n', rd', mb', e2, left, free) =
        took-Delivers p grants handler sz some_sz hd h3 (next_header-IsHeader h w) refl (rw f0 refl)
          (rw f0 refl) (long ∙ again.0 ∙ ap (λ x. not (x == 0)) (sym sent))
          (λ some_ext. time ∙ again.1 (ap (λ x. x == 0) (sym sent) ∙ some_ext) ∙ sym sent) fuel rd1
          (length junk) part (drop (length part) junk) more r c mb1 at1 found
          (omega (arith, part_len, same, length-drop {0} (length part) junk))
          (omega
            (arith, part_len, same, length-drop {0} n payload, length-drop {0} (length part) junk))
          (omega (arith, length-drop {0} n payload)) small v1 b1 in
      (
        n',
        rd',
        mb',
        ap (then_calls p grants handler n') e1
            ∙ subst
                (λ t.
                  then_calls p grants handler n' (
                    took p grants handler rd1 h.chunk_id
                      (partial hd (length junk) part (drop (length part) junk)) mb1)
                  ≡ (
                    handler hd (message (length junk) t),
                    rd',
                    mb',
                    (hd, message (length junk) t) ∷ [],
                  ))
                (take-append-drop n payload) e2,
        left,
        free,
      )

-- The buffer that is known to be handed over.
handed :
    (send : Mbuf → ℕ) (bytes : List ℕ) (out : ℕ × Option Mbuf) (err : ℕ) (sent : Mbuf)
    → out ≡ (err, some sent)
    → Holds bytes send out
    → IsValid sent × (rest sent ≡ bytes)
handed send bytes out err sent same (inl (mb, e, v, b)) =
    let is : mb ≡ sent =
      some-eq
        (sym (ap (λ (x : ℕ × Option Mbuf). x.1) e) ∙ ap (λ (x : ℕ × Option Mbuf). x.1) same) in
    subst (λ m. IsValid m × (rest m ≡ bytes)) is (v, b)
handed send bytes out err sent same (inr (wrong, nothing)) =
    let none_is : none ≡ some sent = sym nothing ∙ ap (λ (x : ℕ × Option Mbuf). x.1) same in
    absurd (ground (arith, none_is))

-- A message that `rtmp_chunker` hands to `tcp_send` in chunks, from a header of format 0, reaches the
-- handler of a dechunker with the same chunk size: after some calls of `rtmp_dechunker_receive` the
-- handler got it once, with its header and exactly the payload, and nothing of the input is left.
-- The payload has 1 to 2^24 - 1 bytes; the chunker is given a round for each byte and one more; the
-- dechunker knows the chunk stream or has room and memory for it, and memory for the message. The
-- hosts may differ in their byte order.
pub rtmp_chunker-Delivers :
    (p q : Platform) (send : Mbuf → ℕ) (grants : Bool) (handler : Header → Mbuf → ℕ)
    (fuel id time ty stream sz err : ℕ) (payload : List ℕ) (rd : Dechunker) (sent block : Mbuf)
    → IsHeader (first_header 0 id time 0 ty stream payload)
    → 0 < length payload
    → length payload < 2 ^ 24
    → length payload < fuel
    → 0 < sz
    → rtmp_chunker fuel p send 0 id time 0 ty stream payload sz ≡ some (err, some sent)
    → rd.chunk_sz ≡ sz
    → HasRoom grants rd id
    → alloc q (length payload) ≡ some block
    → Delivers q grants handler
        (λ n. calls q grants handler (suc n) rd sent)
        id
        (received (first_header 0 id time 0 ty stream payload))
        (message (length payload) payload)
        []
rtmp_chunker-Delivers p q send grants handler fuel id time ty stream sz err payload rd sent block w
      some_payload small k some_sz run at room memory =
    let h = first_header 0 id time 0 ty stream payload in
    let (out, e, holds) =
      rtmp_chunker-Returns p send fuel 0 id time 0 ty stream payload sz w small k in
    let same : out ≡ (err, some sent) = some-eq (sym e ∙ run) in
    let (v, b) = handed send _ out err sent same holds in
    let (fresh, len, low) = alloc-eq q (length payload) block some_payload memory in
    let junk = block.buf in
    let whole : block ≡ record { buf = junk; size = length junk; pos = 0; end = 0 } =
      fresh ∙ ap (λ n. record { buf = junk; size = n; pos = 0; end = 0 }) (sym len) in
    subst
      (λ n.
        Delivers q grants handler (λ i. calls q grants handler (suc i) rd sent) id (received h)
          (message n payload) [])
      len
      (stream-Delivers q grants handler sz some_sz h w refl fuel rd junk payload [] sent at room
        (omega (arith, len)) (sym len) k (omega (arith, len, low))
        (ap (alloc q) len ∙ memory ∙ ap some whole) v (b ∙ sym (append-nil _)))
