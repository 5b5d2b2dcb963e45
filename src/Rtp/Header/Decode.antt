-- ===== src/Rtp/Header/Decode.antt =====
-- The stages of `rtp_hdr_decode` of src/rtp/rtp.c on the bytes of a header.
use re_cpm.Base.{ℕ, zero, suc, ◌+◌, ◌*◌, ◌≤◌, ◌<◌, ◌^◌, ◌≡◌, refl, sym, ap, ◌∙◌, arith}
use re_cpm.Base.{All, List, [], ◌∷◌, ◌++◌, append_assoc, length, take, drop, get_or, set, be_bytes}
use re_cpm.Platform.{Platform}
use re_cpm.Mbuf.{Mbuf}
use re_cpm.Mbuf.Ints.{read_u16, read_u32}
use re_cpm.Mbuf.Inv.{IsValid}
use re_cpm.Mbuf.Cursor.{rest}
use re_cpm.Mbuf.Takes.{Takes, Takes-trans, read_u16-Takes, read_u32-Takes}
use re_cpm.Rtp.Header.{Header, decode_words, decode_csrc}
use re_cpm.Rtp.Header.Bytes.{csrc_bytes}

-- The integers have the width of their fields.
pub record IsWords (h : Header) : Type 0 where
  pub seq16 : h.seq < 2 ^ 16
  pub ts32 : h.ts < 2 ^ 32
  pub ssrc32 : h.ssrc < 2 ^ 32
  pub csrc16 : length h.csrc ≡ 16
  pub csrc32 : All (λ x. x < 2 ^ 32) h.csrc

pub decode_words-Takes :
    (p : Platform) (h old : Header) (mb : Mbuf) (r : List ℕ)
    → IsValid mb
    → IsWords h
    → rest mb ≡ be_bytes 2 h.seq ++ (be_bytes 4 h.ts ++ (be_bytes 4 h.ssrc ++ r))
    → let (h', mb') = decode_words p old mb in
      (h' ≡ record old { seq = h.seq; ts = h.ts; ssrc = h.ssrc }) × Takes mb 10 r mb'
unfolding decode_words
decode_words-Takes p h old mb r v w e =
    let mb1 = (read_u16 p mb).1 in
    let mb2 = (read_u32 p mb1).1 in
    let (e1, t1) = read_u16-Takes p mb h.seq _ v w.seq16 e in
    let (e2, t2) = read_u32-Takes p mb1 h.ts _ t1.valid w.ts32 t1.left in
    let (e3, t3) = read_u32-Takes p mb2 h.ssrc r t2.valid w.ssrc32 t2.left in
    (
      λ i. record old { seq = e1 i; ts = e2 i; ssrc = e3 i },
      Takes-trans 6 4 (Takes-trans 2 4 t1 t2) t3,
    )

get_or-lt : (xs : List ℕ) (i n : ℕ) → 0 < n → All (λ x. x < n) xs → get_or xs i 0 < n
get_or-lt [] i n h a = h
get_or-lt (x ∷ xs) zero n h a = a.0
get_or-lt (x ∷ xs) (suc i) n h a = get_or-lt xs i n h a.1

-- One more source comes from the header.
set-take-drop :
    (src old : List ℕ) (i : ℕ)
    → i < length src
    → length src ≡ length old
    → set (take i src ++ drop i old) i (get_or src i 0) ≡ take (suc i) src ++ drop (suc i) old
set-take-drop [] old i h e = absurd (omega arith)
set-take-drop (x ∷ src) [] i h e = absurd (omega arith)
set-take-drop (x ∷ src) (y ∷ old) zero h e = refl
set-take-drop (x ∷ src) (y ∷ old) (suc i) h e =
    ap (λ t. x ∷ t) (set-take-drop src old i (omega arith) (omega arith))

pub decode_csrc-Takes :
    (p : Platform) (h : Header) (old : List ℕ) (n i j : ℕ) (mb : Mbuf) (r : List ℕ)
    → IsValid mb
    → IsWords h
    → length old ≡ 16
    → i + n ≡ j
    → j ≤ 16
    → rest mb ≡ csrc_bytes h.csrc n i ++ r
    → let (csrc, mb') = decode_csrc p n i (take i h.csrc ++ drop i old) mb in
      (csrc ≡ take j h.csrc ++ drop j old) × Takes mb (n * 4) r mb'
unfolding decode_csrc
decode_csrc-Takes p h old zero i j mb r v w o e k b = (
  ap (λ m. take m h.csrc ++ drop m old) (let q : i ≡ j = omega arith in q),
  record { valid = v; left = b; at = omega arith; same_buf = refl; same_end = refl },
)
decode_csrc-Takes p h old (suc n) i j mb r v w o e k b =
    let x = get_or h.csrc i 0 in
    let (e1, t1) =
      read_u32-Takes p mb x (csrc_bytes h.csrc n (i + 1) ++ r) v
        (get_or-lt h.csrc i (2 ^ 32) (omega arith) w.csrc32)
        (b ∙ append_assoc (be_bytes 4 x) (csrc_bytes h.csrc n (i + 1)) r) in
    let step : set (take i h.csrc ++ drop i old) i x ≡ take (i + 1) h.csrc ++ drop (i + 1) old =
      set-take-drop h.csrc old i (omega (arith, w.csrc16)) (w.csrc16 ∙ sym o)
      ∙ ap (λ m. take m h.csrc ++ drop m old) (let q : suc i ≡ i + 1 = omega arith in q) in
    let round : decode_csrc p (suc n) i (take i h.csrc ++ drop i old) mb
        ≡ decode_csrc p n (i + 1) (take (i + 1) h.csrc ++ drop (i + 1) old) (read_u32 p mb).1 =
      ap (λ c. decode_csrc p n (i + 1) c (read_u32 p mb).1)
        (ap (set (take i h.csrc ++ drop i old) i) e1 ∙ step) in
    let (e2, t2) =
      decode_csrc-Takes p h old n (i + 1) j (read_u32 p mb).1 r t1.valid w o (omega arith) k
        t1.left in
    rw round (
      e2,
      record {
        valid = t2.valid;
        left = t2.left;
        at = omega (arith, t1.at, t2.at);
        same_buf = t2.same_buf ∙ t1.same_buf;
        same_end = t2.same_end ∙ t1.same_end;
      },
    )
