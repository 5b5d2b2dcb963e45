-- ===== src/Rtmp/Chunk/Stream.antt =====
-- The bytes that `rtmp_chunker` of src/rtmp/chunk.c sends.
use re_cpm.Base.{
  ℕ, zero, suc, ◌<◌, ◌≡◌, refl, ap, arith, false, ◌==◌, Bool-cases, inl, inr, min, Option, some,
  List, [], ◌∷◌, ◌++◌, append_assoc, length, take, drop, length-take, length-drop,
}
use re_cpm.Base.Bits.{bit_or-eq_zero}
use re_cpm.Platform.{Platform}
use re_cpm.Mbuf.{Mbuf, write_mem}
use re_cpm.Mbuf.Inv.{IsValid}
use re_cpm.Mbuf.Cursor.{IsObject}
use re_cpm.Mbuf.Words.{Appends-as, Appends, Appends-nil, Appends-trans, mem_step}
use re_cpm.Rtmp.Header.{Header, ts_ext, rtmp_header_encode}
use re_cpm.Rtmp.Header.Wire.{IsHeader, header_bytes, sent_ext, rtmp_header_encode-Appends}
use re_cpm.Rtmp.Chunk.{write_chunk, chunk_loop, write_chunks}

-- The chunks behind the first one, each with the same header.
abbrev pub tail_bytes : ℕ → Header → ℕ → List ℕ → List ℕ
tail_bytes zero h sz payload = []
tail_bytes (suc fuel) h sz [] = []
tail_bytes (suc fuel) h sz (x ∷ xs) =
    let n = min (length (x ∷ xs)) sz in
    header_bytes h ++ (take n (x ∷ xs) ++ tail_bytes fuel h sz (drop n (x ∷ xs)))

-- The header of those chunks.
abbrev pub next_header : Header → Header
next_header h = record h { format = 3; timestamp_ext = sent_ext h }

abbrev pub stream_bytes : ℕ → Header → ℕ → List ℕ → List ℕ
stream_bytes fuel h sz payload =
    let n = min (length payload) sz in
    header_bytes h ++ (take n payload ++ tail_bytes fuel (next_header h) sz (drop n payload))

pub next_header-IsHeader : (h : Header) → IsHeader h → IsHeader (next_header h)
unfolding ts_ext
next_header-IsHeader h w = record {
  chunk = omega (arith, w);
  time32 = w.time32;
  delta32 = w.delta32;
  ext32 = ground (arith, w.time32, w.delta32, w.ext32);
  len24 = w.len24;
  type8 = w.type8;
  stream32 = w.stream32;
}

-- A header of format 3 stays as it is.
next_same : (h : Header) → h.format ≡ 3 → record h { timestamp_ext = sent_ext h } ≡ h
next_same h f =
    let same : sent_ext h ≡ h.timestamp_ext = rw f refl in
    ap (λ x. record h { timestamp_ext = x }) same

module _ (p : Platform) (h : Header) (w : IsHeader h) where
  write_chunk-Appends :
      (part : List ℕ) (mb : Mbuf)
      → IsValid mb
      → IsObject part
      → (write_chunk p h part mb).0.0 ≡ 0
      → Appends mb (header_bytes h ++ part) (write_chunk p h part mb).0
        × ((write_chunk p h part mb).1 ≡ record h { timestamp_ext = sent_ext h })
  unfolding write_chunk
  write_chunk-Appends part mb v small z =
      let out = rtmp_header_encode p mb h in
      let fine : out.0 ≡ 0 = (bit_or-eq_zero out.0 (write_mem p out.2 part).0 z).0 in
      let (sent, (e, a)) = rtmp_header_encode-Appends p mb h w v fine in
      (rw e (mem_step p mb (header_bytes h) (0, sent) a part small), rw e refl)

-- A run that ends, and what it has written when there was no error.
abbrev pub Ends : Option (ℕ × Mbuf) → Mbuf → List ℕ → Type 0
Ends run mb bytes = (out : ℕ × Mbuf) × (run ≡ some out) × (out.0 ≡ 0 → Appends mb bytes out)

-- One chunk, and then the others.
chunk-then :
    (mb : Mbuf) (bytes more : List ℕ) (out : ℕ × Mbuf) (run : Option (ℕ × Mbuf))
    → Appends mb bytes out
    → out.0 ≡ 0
    → Ends run out.1 more
    → Ends run mb (bytes ++ more)
chunk-then mb bytes more out run a z (last, e, b) =
    (last, e, λ fine. Appends-trans mb bytes more out last z a (b fine))

module _ (p : Platform) (sz : ℕ) (some_sz : 0 < sz) where
  chunk_loop-Ends :
      (fuel : ℕ) (h : Header) (payload : List ℕ) (mb : Mbuf)
      → IsHeader h
      → h.format ≡ 3
      → IsObject payload
      → length payload < fuel
      → IsValid mb
      → Ends (chunk_loop fuel p h sz payload mb) mb (tail_bytes fuel h sz payload)
  unfolding chunk_loop
  chunk_loop-Ends zero h payload mb w f small k v = absurd (omega arith)
  chunk_loop-Ends (suc fuel) h [] mb w f small k v = ((0, mb), refl, λ z. Appends-nil mb v)
  chunk_loop-Ends (suc fuel) h (x ∷ xs) mb w f small k v =
      let n = min (length (x ∷ xs)) sz in
      let part = take n (x ∷ xs) in
      let more = drop n (x ∷ xs) in
      let some_left : (length (x ∷ xs) == 0) ≡ false = ground arith in
      let step = write_chunk p h part mb in
      elim (Bool-cases (step.0.0 == 0)) [
        | inl fine ↦
            let z : step.0.0 ≡ 0 = ground arith in
            let (a, same) =
              write_chunk-Appends p h w part mb v (omega (arith, length-take {0} n (x ∷ xs))) z in
            let (out, e, b) =
              chunk-then mb (header_bytes h ++ part) (tail_bytes fuel h sz more) step.0 _ a z (
                chunk_loop-Ends fuel h more step.0.1 w f (omega (arith, length-drop {0} n (x ∷ xs)))
                  (omega (arith, length-drop {0} n (x ∷ xs))) a.valid) in
            (
              out,
              rw (some_left, fine, same, next_same h f) e,
              λ done.
                  Appends-as (append_assoc (header_bytes h) part (tail_bytes fuel h sz more))
                    (b done),
            )
        | inr wrong ↦
            (step.0, rw (some_left, wrong) refl, λ done. absurd (ground (arith, done, wrong)))
      ]

  -- The first chunk and the others, given a round for each byte of the payload and one more.
  pub write_chunks-Ends :
      (fuel : ℕ) (h : Header) (payload : List ℕ) (mb : Mbuf)
      → IsHeader h
      → IsHeader (next_header h)
      → IsObject payload
      → length payload < fuel
      → IsValid mb
      → Ends (write_chunks fuel p h payload sz mb) mb (stream_bytes fuel h sz payload)
  unfolding write_chunks
  write_chunks-Ends fuel h payload mb w w3 small k v =
      let n = min (length payload) sz in
      let part = take n payload in
      let more = drop n payload in
      let step = write_chunk p h part mb in
      elim (Bool-cases (step.0.0 == 0)) [
        | inl fine ↦
            let z : step.0.0 ≡ 0 = ground arith in
            let (a, same) =
              write_chunk-Appends p h w part mb v (omega (arith, length-take {0} n payload)) z in
            let (out, e, b) =
              chunk-then mb (header_bytes h ++ part) (tail_bytes fuel (next_header h) sz more)
                step.0 _ a z
                (chunk_loop-Ends fuel (next_header h) more step.0.1 w3 refl
                  (omega (arith, length-drop {0} n payload))
                  (omega (arith, length-drop {0} n payload)) a.valid) in
            (
              out,
              rw (fine, same) e,
              λ done.
                  Appends-as
                    (append_assoc (header_bytes h) part (tail_bytes fuel (next_header h) sz more))
                    (b done),
            )
        | inr wrong ↦ (step.0, rw wrong refl, λ done. absurd (ground (arith, done, wrong)))
      ]
