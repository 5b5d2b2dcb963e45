-- ===== src/Av1/Pkt/Flow.antt =====
-- The packets that av1_packetize_internal of src/av1/pkt.c sends for a text.
use re_cpm.Base.{
  ℕ, zero, suc, ◌+◌, ◌-◌, ◌%◌, ◌^◌, ◌≤◌, ◌<◌, ◌≡◌, refl, sym, ap, ◌∙◌, arith, ltb, ltb-ge, ltb→lt,
  ◌==◌, if◌then◌else◌, Bool, true, false, Bool-cases, inl, inr, some, List, [], ◌∷◌, ◌++◌,
  append_assoc, length, length-take, length-drop, take, drop, take-append-drop, bit_or,
}
use re_cpm.Platform.{Platform}
use re_cpm.Av1.Obu.{wrapped}
use re_cpm.Av1.Pkt.{
  AggrHdr, Packet, Run, hdr_encode, av1_aggr_hdr_decode, send, send_full, send_loop, send_last,
  after_loop, av1_packetize_internal,
}
use re_cpm.Av1.Pkt.Flags.{av1_aggr_hdr_decode-encode}

-- The header of a packet, as a receiver decodes it.
unfoldable pub aggr : Platform → Packet → AggrHdr
aggr p pkt = (av1_aggr_hdr_decode p (wrapped (pkt.hdr ∷ []))).1

-- The packets of a text. Each but the last is full, says that it is continued and has no marker;
-- each but the first says that it continues, and that no new sequence starts.
pub data Flow (p : Platform) (maxlen rtp_ts : ℕ) (marker : Bool)
    : Bool → Bool → ℕ → List Packet → List ℕ → Type 0 where
  final :
      {cont new : Bool} {w : ℕ} {bytes : List ℕ} (pkt : Packet)
      → aggr p pkt ≡ record { z = cont; y = false; w = w; n = new }
      → pkt.marker ≡ marker
      → pkt.rtp_ts ≡ rtp_ts
      → pkt.payload ≡ bytes
      → length bytes ≤ maxlen
      → Flow p maxlen rtp_ts marker cont new w (pkt ∷ []) bytes
  full :
      {cont new : Bool} {w : ℕ} {bytes : List ℕ} (pkt : Packet) (pkts : List Packet) (more : List ℕ)
      → aggr p pkt ≡ record { z = cont; y = true; w = w; n = new }
      → pkt.marker ≡ false
      → pkt.rtp_ts ≡ rtp_ts
      → length pkt.payload ≡ maxlen
      → bytes ≡ pkt.payload ++ more
      → Flow p maxlen rtp_ts marker true false (if w == 2 then 1 else w) pkts more
      → Flow p maxlen rtp_ts marker cont new w (pkt ∷ pkts) bytes

-- The union of the handler's answers.
abbrev pub answers : (List Packet → Packet → ℕ) → ℕ → List Packet → List Packet → ℕ
answers pkth err sent [] = err
answers pkth err sent (pkt ∷ pkts) =
    answers pkth (bit_or err (pkth sent pkt)) (sent ++ (pkt ∷ [])) pkts

aggr-hdr_encode :
    (p : Platform) (pkt : Packet) (z y : Bool) (w : ℕ) (n : Bool)
    → w < 4
    → pkt.hdr ≡ hdr_encode z y w n
    → aggr p pkt ≡ record { z = z; y = y; w = w; n = n }
unfolding aggr
aggr-hdr_encode p pkt z y w n h e =
    (av1_aggr_hdr_decode-encode p (wrapped (pkt.hdr ∷ [])) z y w n [] (omega arith) h
      (ap (λ v. v ∷ []) e)).1

module _ (p : Platform) (pkth : List Packet → Packet → ℕ) (marker : Bool) (rtp_ts maxlen : ℕ)
    (some_room : 0 < maxlen) where
  -- What the run makes of what is left to send.
  abbrev Sent : Run → Run → Type 0
  Sent r r' =
      (pkts : List Packet) × ((send_last pkth marker rtp_ts r').sent ≡ r.sent ++ pkts)
      × ((send_last pkth marker rtp_ts r').err ≡ answers pkth r.err r.sent pkts)
      × Flow p maxlen rtp_ts marker r.cont r.new r.w pkts r.buf

  last_Sent : (r : Run) → r.w < 4 → length r.buf ≤ maxlen → Sent r r
  unfolding send_last send
  last_Sent r h fits =
      let hdr = hdr_encode r.cont false r.w r.new in
      let pkt : Packet = record { marker = marker; rtp_ts = rtp_ts; hdr = hdr; payload = r.buf } in
      (
        pkt ∷ [],
        refl,
        refl,
        final pkt (aggr-hdr_encode p pkt r.cont false r.w r.new h refl) refl refl refl fits,
      )

  full_Sent :
      (r r' : Run)
      → r.w < 4
      → maxlen ≤ length r.buf
      → Sent (send_full pkth rtp_ts maxlen r) r'
      → Sent r r'
  unfolding send_full send
  full_Sent r r' h long (pkts, sent, err, flow) =
      let hdr = hdr_encode r.cont true r.w r.new in
      let pkt : Packet = record {
        marker = false;
        rtp_ts = rtp_ts;
        hdr = hdr;
        payload = take maxlen r.buf;
      } in
      (
        pkt ∷ pkts,
        sent ∙ append_assoc r.sent (pkt ∷ []) pkts,
        err,
        full pkt pkts (drop maxlen r.buf) (aggr-hdr_encode p pkt r.cont true r.w r.new h refl) refl
            refl (omega (arith, length-take {0} maxlen r.buf)) (sym (take-append-drop maxlen r.buf))
            flow,
      )

  send_full-w : (r : Run) → r.w < 4 → (send_full pkth rtp_ts maxlen r).w < 4
  unfolding send_full send
  send_full-w r h = ground arith

  send_full-shorter :
      (r : Run) → length (send_full pkth rtp_ts maxlen r).buf ≡ length r.buf - maxlen
  unfolding send_full send
  send_full-shorter r = length-drop maxlen r.buf

  after_loop-Sent :
      (r : Run) (pkts : List Packet) {err : ℕ}
      → (send_last pkth marker rtp_ts r).sent ≡ pkts
      → (send_last pkth marker rtp_ts r).err ≡ err
      → after_loop pkth marker rtp_ts (some r) ≡ some (err, false, pkts)
  unfolding after_loop send_last send
  after_loop-Sent r pkts sent err = rw (sent, err) refl

  send_loop-Sent :
      (fuel : ℕ) (r : Run)
      → r.w < 4
      → length r.buf < fuel
      → (r' : Run) × (send_loop fuel pkth rtp_ts maxlen r ≡ some r') × Sent r r'
  unfolding send_loop
  send_loop-Sent zero r h enough = absurd (omega arith)
  send_loop-Sent (suc fuel) r h enough = elim (Bool-cases (ltb maxlen (length r.buf))) [
    | inl longer ↦
        let (r', e, s) =
          send_loop-Sent fuel (send_full pkth rtp_ts maxlen r) (send_full-w r h)
            (omega (arith, send_full-shorter r, ltb→lt _ _ longer)) in
        (r', rw longer e, full_Sent r r' h (ground arith) s)
    | inr fits ↦ (r, rw fits refl, last_Sent r h (ground arith))
  ]

-- With a round for each byte and one more, av1_packetize_internal sends the text in packets of at
-- most `maxlen` bytes with their header, and answers with the union of the handler's answers; the
-- flag for a new sequence is then cleared.
pub av1_packetize_internal-Flow :
    (p : Platform) (pkth : List Packet → Packet → ℕ) (new marker : Bool) (rtp_ts maxlen w : ℕ)
    (buf : List ℕ) (fuel : ℕ)
    → w ≤ 3
    → 2 ≤ maxlen
    → maxlen < 2 ^ 64
    → length buf < fuel
    → (pkts : List Packet) × (av1_packetize_internal fuel pkth new marker rtp_ts buf maxlen w
        ≡ some (answers pkth 0 [] pkts, false, pkts))
      × Flow p (maxlen - 1) rtp_ts marker false new w pkts buf
unfolding av1_packetize_internal
av1_packetize_internal-Flow p pkth new marker rtp_ts maxlen w buf fuel h room narrow enough =
    let start : Run = record { new = new; cont = false; w = w; buf = buf; err = 0; sent = [] } in
    let fits : ltb 3 w ≡ false = ltb-ge _ _ h in
    let size : (maxlen + 2 ^ 64 - 1) % 2 ^ 64 ≡ maxlen - 1 = omega arith in
    let (r', e, (pkts, sent, err, flow)) =
      send_loop-Sent p pkth marker rtp_ts (maxlen - 1) (omega arith) fuel start (omega arith)
        enough in
    (
      pkts,
      rw fits (
          ap (λ m. after_loop pkth marker rtp_ts (send_loop fuel pkth rtp_ts m start)) size
          ∙ ap (after_loop pkth marker rtp_ts) e
          ∙ after_loop-Sent p pkth marker rtp_ts (maxlen - 1) (omega arith) r' pkts sent err),
      flow,
    )
