-- ===== src/Rtmp/Chunk/Sent.antt =====
-- What `rtmp_chunker` of src/rtmp/chunk.c hands to `tcp_send`.
use re_cpm.Base.{
  ℕ, zero, suc, ◌+◌, ◌^◌, ◌<◌, ◌≡◌, ◌≢◌, ◌⊎◌, refl, ap, subst, ◌∙◌, arith, false, ◌==◌, Bool-cases,
  Option-cases, inl, inr, Option, none, some, List, [], ◌∷◌, ◌++◌, append-nil, length, drop,
}
use re_cpm.Base.Errno.{einval, enomem}
use re_cpm.Platform.{Platform, add_size}
use re_cpm.Mbuf.{Mbuf, alloc, set_pos}
use re_cpm.Mbuf.Inv.{IsValid}
use re_cpm.Mbuf.Cursor.{rest, length-rest}
use re_cpm.Mbuf.Words.{Appends-rewound}
use re_cpm.Rtmp.Header.{Header}
use re_cpm.Rtmp.Header.Wire.{IsHeader}
use re_cpm.Rtmp.Chunk.{first_header, rtmp_chunker}
use re_cpm.Rtmp.Chunk.Stream.{next_header, next_header-IsHeader, stream_bytes, write_chunks-Ends}
use re_cpm.Mbuf.Alloc.{alloc-eq}

nothing_left : (xs : List ℕ) (n : ℕ) → length xs ≡ 0 → drop n xs ≡ []
nothing_left [] zero h = refl
nothing_left [] (suc n) h = refl
nothing_left (x ∷ xs) n h = absurd (omega arith)

-- A buffer that is handed over has the chunks to be read, and nothing behind them.
abbrev pub Holds : List ℕ → (Mbuf → ℕ) → ℕ × Option Mbuf → Type 0
Holds bytes send out =
    ((sent : Mbuf) × (out ≡ (send sent, some sent)) × IsValid sent × (rest sent ≡ bytes))
    ⊎ ((out.0 ≢ 0) × (out.1 ≡ none))

module _ (p : Platform) (send : Mbuf → ℕ) (fuel format id time delta ty stream : ℕ)
    (payload : List ℕ) (sz : ℕ) (w : IsHeader (first_header format id time delta ty stream payload))
    (w3 : IsHeader (next_header (first_header format id time delta ty stream payload)))
    (small : length payload < 2 ^ 24) (k : length payload < fuel) where
  abbrev pub header : Header
  header = first_header format id time delta ty stream payload

  from_block :
      (mb : Mbuf)
      → 0 < length payload
      → 0 < sz
      → alloc p (add_size (length payload) 256) ≡ some mb
      → (out : ℕ × Option Mbuf) × (rtmp_chunker fuel p send format id time delta ty stream payload
            sz
          ≡ some out)
        × Holds (stream_bytes fuel header sz payload) send out
  unfolding rtmp_chunker set_pos
  from_block mb some_payload some_sz e =
      let bytes = stream_bytes fuel header sz payload in
      let size : add_size (length payload) 256 ≡ length payload + 256 = omega arith in
      let (fresh, len, low) = alloc-eq p _ mb (omega (arith, size)) e in
      let size_is : mb.size ≡ add_size (length payload) 256 = ap (λ b. b.size) fresh in
      let pos_is : mb.pos ≡ 0 = ap (λ b. b.pos) fresh in
      let end_is : mb.end ≡ 0 = ap (λ b. b.end) fresh in
      let v : IsValid mb = omega (arith, len, low, size_is, pos_is, end_is) in
      let (out, run, a) =
        write_chunks-Ends p sz some_sz fuel header payload mb w w3 (omega arith) k v in
      let none_empty : (length payload == 0) ≡ false = ground arith in
      let some_size : (sz == 0) ≡ false = ground arith in
      elim (Bool-cases (out.0 == 0)) [
        | inl fine ↦
            let z : out.0 ≡ 0 = ground arith in
            let empty = nothing_left (rest mb) (length bytes) (length-rest mb v ∙ omega arith) in
            let (v', b) = Appends-rewound mb (stream_bytes fuel header sz payload) out v (a z) z in
            (
              (send (set_pos out.1 0), some (set_pos out.1 0)),
              rw (none_empty, some_size, e, run, fine) refl,
              inl (
                set_pos out.1 0,
                refl,
                subst (λ i. IsValid (set_pos out.1 i)) pos_is v',
                subst (λ i. rest (set_pos out.1 i) ≡ bytes) pos_is
                    (b ∙ ap (λ t. bytes ++ t) empty ∙ append-nil bytes),
              ),
            )
        | inr wrong ↦ (
          (out.0, none),
          rw (none_empty, some_size, e, run, wrong) refl,
          inr (λ z. absurd (ground (arith, z, wrong)), refl),
        )
      ]

  -- The call returns, and what it hands over has the chunks.
  pub rtmp_chunker-Holds :
      (out : ℕ × Option Mbuf) × (rtmp_chunker fuel p send format id time delta ty stream payload sz
        ≡ some out)
      × Holds (stream_bytes fuel header sz payload) send out
  unfolding rtmp_chunker
  rtmp_chunker-Holds = elim (Bool-cases (length payload == 0)) [
    | inl empty ↦ ((einval, none), rw empty refl, inr (λ z. absurd (omega (arith, z)), refl))
    | inr some_payload ↦ elim (Bool-cases (sz == 0)) [
      | inl no_size ↦ (
        (einval, none),
        rw (some_payload, no_size) refl,
        inr (λ z. absurd (omega (arith, z)), refl),
      )
      | inr some_size ↦ elim (Option-cases (alloc p (add_size (length payload) 256))) [
        | inl e ↦ (
          (enomem, none),
          rw (some_payload, some_size, e) refl,
          inr (λ z. absurd (omega (arith, z)), refl),
        )
        | inr (mb, e) ↦ from_block mb (ground arith) (ground arith) e
      ]
    ]
  ]

-- `rtmp_chunker` of a payload of less than 2^24 bytes returns, given a round for each byte and one
-- more, whatever memory is granted: with the answer of `tcp_send` to a valid buffer that has the
-- chunks to be read, or with an error and without a call of it.
pub rtmp_chunker-Returns :
    (p : Platform) (send : Mbuf → ℕ) (fuel format id time delta ty stream : ℕ) (payload : List ℕ)
    (sz : ℕ)
    → IsHeader (first_header format id time delta ty stream payload)
    → length payload < 2 ^ 24
    → length payload < fuel
    → (out : ℕ × Option Mbuf) × (rtmp_chunker fuel p send format id time delta ty stream payload sz
        ≡ some out)
      × Holds
          (stream_bytes fuel (first_header format id time delta ty stream payload) sz payload)
          send
          out
rtmp_chunker-Returns p send fuel format id time delta ty stream payload sz w small k =
    rtmp_chunker-Holds p send fuel format id time delta ty stream payload sz w
      (next_header-IsHeader _ w) small k
