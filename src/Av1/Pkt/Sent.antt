-- ===== src/Av1/Pkt/Sent.antt =====
-- av1_packetize_high of src/av1/pkt.c: from a stream of units to the packets that the handler gets.
use re_cpm.Base.{ℕ, ◌-◌, ◌≡◌, ◌≢◌, ◌⊎◌, ltb, if◌then◌else◌, Bool, false, some, Option, List, []}
use re_cpm.Platform.{Platform}
use re_cpm.Mbuf.{Mbuf}
use re_cpm.Av1.Pkt.{Packet, max_obus}
use re_cpm.Av1.Pkt.Flow.{Flow, answers}

-- The number that the header gets, 0 for more than three elements.
abbrev pub w_of : ℕ → ℕ
w_of count = if ltb max_obus count then 0 else count

module _ (p : Platform) (pkth : List Packet → Packet → ℕ) (new marker : Bool)
    (rtp_ts maxlen : ℕ) where
  -- What the call answers: with an error it has sent nothing; otherwise it sent these elements.
  abbrev pub Answers : ℕ → List ℕ → Option (ℕ × Bool × List Packet) → Type 0
  Answers w text answer =
      (err : ℕ) × (new' : Bool) × (pkts : List Packet) × (answer ≡ some (err, new', pkts))
      × (((err ≢ 0) × (new' ≡ new) × (pkts ≡ []))
          ⊎ ((err ≡ answers pkth 0 [] pkts)
              × (new' ≡ false)
              × Flow p (maxlen - 1) rtp_ts marker false new w pkts text))
