-- ===== src/Av1/Pkt/Copy.antt =====
-- The elements that copy_obus of src/av1/pkt.c makes of a stream of units.
use re_cpm.Base.{
  ℕ, zero, suc, ◌+◌, ◌^◌, ◌≤◌, ◌<◌, ◌≡◌, ◌⊎◌, refl, sym, ap, ap₂, subst, ◌∙◌, arith, ltb, lt→ltb,
  ltb-ge, ◌==◌, if◌then◌else◌, Bool, true, false, not, ◌||◌, Bool-cases, Option-cases, inl, inr,
  none, some, List, [], ◌∷◌, ◌++◌, append-nil, append_assoc, length, take, take-append, take-drop,
  length-append,
}
use re_cpm.Base.Int.{pos}
use re_cpm.Platform.{Platform}
use re_cpm.Mem.{mem_size_max}
use re_cpm.Mbuf.{Mbuf, alloc, get_left, at_pos, advance, set_pos}
use re_cpm.Mbuf.Inv.{IsValid}
use re_cpm.Mbuf.Alloc.{alloc-IsValid}
use re_cpm.Mbuf.Cursor.{written, rest, length-rest}
use re_cpm.Mbuf.Words.{Appends, Appends-trans, write_mem-Appends}
use re_cpm.Mbuf.Takes.{get_left-of}
use re_cpm.Av1.Obu.{av1_leb128_encode, av1_obu_encode, obu_allowed_rtp}
use re_cpm.Av1.Obu.RoundTrip.{leb, av1_leb128_encode-leb}
use re_cpm.Av1.Obu.Unit.{obu_bytes, av1_obu_encode-Appends}
use re_cpm.Av1.Obu.Stream.{ObuUnit, IsObu, AreObus, stream, hdr_of, lt-length-stream, next_unit}
use re_cpm.Av1.Pkt.{encode_obu, write_element, copy_encoded, copy_obu, copy_obus}

-- Whether no unit follows.
abbrev pub no_more : List ObuUnit → Bool
no_more [] = true
no_more (u ∷ us) = false

-- The element of a unit that `us` follow. The last has no size, unless all have one.
abbrev pub element : Bool → ObuUnit → List ObuUnit → List ℕ
element w0 u us =
    if obu_allowed_rtp u.ty
    then (if not (no_more us) || w0 then leb (1 + length u.payload) else [])
      ++ obu_bytes u.ty false u.payload
    else []

abbrev pub elements : Bool → List ObuUnit → List ℕ
elements w0 [] = []
elements w0 (u ∷ us) = element w0 u us ++ elements w0 us

-- With no error the bytes stand behind what was written, at the end.
pub record Grew (pkt : Mbuf) (bytes : List ℕ) (out : ℕ × Mbuf) : Type 0 where
  pub valid : IsValid out.1
  pub text : out.0 ≡ 0 → written out.1 ≡ written pkt ++ bytes
  pub at_end : out.0 ≡ 0 → out.1.end ≡ out.1.pos

Appends-Grew :
    (pkt : Mbuf) (bytes : List ℕ) (out : ℕ × Mbuf)
    → pkt.end ≡ pkt.pos
    → Appends pkt bytes out
    → Grew pkt bytes out
Appends-Grew pkt bytes out at a = record {
  valid = a.valid;
  text = a.before;
  at_end = λ z. omega (arith, a.ends z, a.at z);
}

-- An object that encode_obu gives holds the unit without its size.
encode_obu_cases :
    (p : Platform) (ty : ℕ) (bytes : List ℕ)
    → 0 < ty
    → ty < 16
    → length bytes < 2 ^ 56
    → (encode_obu p ty bytes ≡ none)
      ⊎ ((obu : Mbuf) × (encode_obu p ty bytes ≡ some obu)
          × (take obu.end obu.buf ≡ obu_bytes ty false bytes)
          × (obu.end ≡ 1 + length bytes))
unfolding encode_obu set_pos
encode_obu_cases p ty bytes some_ty small short = elim (Option-cases (alloc p (length bytes))) [
  | inl e ↦ inl (rw (e, encode_obu) refl)
  | inr (mb, e) ↦
      let fresh = alloc-IsValid p (length bytes) mb e in
      let a = av1_obu_encode-Appends p mb ty false bytes fresh.0 some_ty small short in
      elim (Bool-cases ((av1_obu_encode p mb ty false (length bytes) (some bytes)).0 == 0)) [
        | inl y ↦
            let out = av1_obu_encode p mb ty false (length bytes) (some bytes) in
            let z : out.0 ≡ 0 = ground arith in
            let ends : out.1.end ≡ 1 + length bytes = omega (arith, a.ends z, fresh) in
            let at : out.1.end ≡ out.1.pos = omega (arith, a.at z, fresh, ends) in
            inr (
              set_pos out.1 0,
              rw (e, y, encode_obu) refl,
              ap (λ n. take n out.1.buf) at
                  ∙ a.before z
                  ∙ ap (λ n. take n mb.buf ++ obu_bytes ty false bytes) fresh.1,
              ends,
            )
        | inr n ↦ inl (rw (e, n, encode_obu) refl)
      ]
]

-- The element behind its size, if it gets one.
write_element-Grew :
    (p : Platform) (with_size : Bool) (pkt : Mbuf) (bytes : List ℕ)
    → IsValid pkt
    → pkt.end ≡ pkt.pos
    → length bytes < 2 ^ 56
    → Grew pkt
        ((if with_size then leb (length bytes) else []) ++ bytes)
        (write_element p with_size (length bytes) bytes pkt)
unfolding write_element
write_element-Grew p false pkt bytes ok at short =
    Appends-Grew pkt bytes _ at (write_mem-Appends p pkt bytes ok (omega arith))
write_element-Grew p true pkt bytes ok at short =
    let out = av1_leb128_encode p pkt (length bytes) in
    let a = av1_leb128_encode-leb p pkt (length bytes) ok short in
    elim (Bool-cases (out.0 == 0)) [
      | inl y ↦
          let z : out.0 ≡ 0 = ground arith in
          rw y (
            Appends-Grew pkt _ _ at (
              Appends-trans pkt (leb (length bytes)) bytes out _ z a
                (write_mem-Appends p out.1 bytes a.valid (omega arith))))
      | inr n ↦ rw n (record {
        valid = a.valid;
        text = λ z. absurd (ground (arith, z, n));
        at_end = λ z. absurd (ground (arith, z, n));
      })
    ]

-- The payload that is next.
payload_lem :
    (wrap : Mbuf) (bytes r : List ℕ)
    → IsValid wrap
    → rest wrap ≡ bytes ++ r
    → take (length bytes) (at_pos wrap) ≡ bytes
payload_lem wrap bytes r ok text =
    let whole : length (rest wrap) ≡ length bytes + length r =
      ap length text ∙ length-append bytes r in
    take-drop wrap.buf wrap.pos wrap.end (length bytes) (omega (arith, length-rest wrap ok, whole))
      (omega (arith, ok))
    ∙ ap (take (length bytes)) text
    ∙ take-append bytes r (length bytes) refl

last_lem :
    (wrap : Mbuf) (bytes : List ℕ) (us : List ObuUnit)
    → IsValid wrap
    → rest wrap ≡ bytes ++ stream us
    → (length bytes == get_left wrap) ≡ no_more us
last_lem wrap bytes [] ok text = ground (arith, get_left-of wrap bytes [] ok text)
last_lem wrap bytes (u ∷ us) ok text =
    ground (arith, get_left-of wrap bytes (stream (u ∷ us)) ok text, lt-length-stream u us)

copy_encoded-Grew :
    (p : Platform) (with_size : Bool) (u : ObuUnit) (pkt : Mbuf)
    → IsObu u
    → length u.payload ≤ mem_size_max
    → IsValid pkt
    → pkt.end ≡ pkt.pos
    → Grew pkt
        ((if with_size then leb (1 + length u.payload) else []) ++ obu_bytes u.ty false u.payload)
        (copy_encoded p with_size (encode_obu p u.ty u.payload) pkt)
unfolding copy_encoded
copy_encoded-Grew p with_size u pkt is low ok at =
    let bytes = obu_bytes u.ty false u.payload in
    let size : length bytes ≡ 1 + length u.payload = omega arith in
    elim (encode_obu_cases p u.ty u.payload is.some_ty is.small is.short) [
      | inl e ↦ subst (Grew pkt _) (ap (λ o. copy_encoded p with_size o pkt) (sym e)) (record {
        valid = ok;
        text = λ z. absurd (omega arith);
        at_end = λ z. absurd (omega arith);
      })
      | inr (obu, e, text, len) ↦
          subst (Grew pkt _)
            (ap₂ (λ n b. write_element p with_size n b pkt) (size ∙ sym len) (sym text)
              ∙ ap (λ o. copy_encoded p with_size o pkt) (sym e))
            (subst
              (λ n.
                Grew pkt ((if with_size then leb n else []) ++ bytes)
                  (write_element p with_size (length bytes) bytes pkt))
              size (write_element-Grew p with_size pkt bytes ok at (omega arith)))
    ]

-- The unit whose payload is next.
copy_obu-Grew :
    (p : Platform) (w0 : Bool) (u : ObuUnit) (us : List ObuUnit) (wrap pkt : Mbuf)
    → IsObu u
    → IsValid wrap
    → rest wrap ≡ u.payload ++ stream us
    → IsValid pkt
    → pkt.end ≡ pkt.pos
    → Grew pkt (element w0 u us) (copy_obu p w0 (hdr_of u) wrap pkt)
unfolding copy_obu
copy_obu-Grew p w0 u us wrap pkt is ok text ok' at = elim (Bool-cases (obu_allowed_rtp u.ty)) [
  | inl sent ↦
      let whole = ap length text ∙ length-append u.payload (stream us) in
      let bytes = payload_lem wrap u.payload (stream us) ok text in
      let last = last_lem wrap u.payload us ok text in
      rw sent (
        subst (Grew pkt _)
          (ap₂ (λ b x. copy_encoded p (not b || w0) (encode_obu p u.ty x) pkt) (sym last)
            (sym bytes))
          (copy_encoded-Grew p (not (no_more us) || w0) u pkt is
            (omega (arith, whole, length-rest wrap ok, ok)) ok' at))
  | inr skipped ↦
      rw skipped
        (record { valid = ok'; text = λ _. sym (append-nil (written pkt)); at_end = λ _. at })
]

-- With a round for each unit and one more, copy_obus returns: with an error, or with the elements
-- behind what was there.
pub copy_obus-Grew :
    (p : Platform) (w0 : Bool) (fuel : ℕ) (us : List ObuUnit) (wrap pkt : Mbuf)
    → AreObus us
    → IsValid wrap
    → rest wrap ≡ stream us
    → IsValid pkt
    → pkt.end ≡ pkt.pos
    → length us < fuel
    → (out : ℕ × Mbuf) × (copy_obus fuel p w0 wrap pkt ≡ some out) × Grew pkt (elements w0 us) out
unfolding copy_obus
copy_obus-Grew p w0 zero us wrap pkt are ok text ok' at enough = absurd (omega arith)
copy_obus-Grew p w0 (suc fuel) [] wrap pkt are ok text ok' at enough =
    let none_left : ltb (get_left wrap) 2 ≡ true =
      lt→ltb _ _ (omega (arith, get_left-of wrap [] [] ok text)) in
    (
      (0, pkt),
      rw none_left refl,
      record { valid = ok'; text = λ _. sym (append-nil (written pkt)); at_end = λ _. at },
    )
copy_obus-Grew p w0 (suc fuel) (u ∷ us) wrap pkt (is, are) ok text ok' at enough =
    let (mb', e, v, left, v', text') = next_unit p u us wrap is ok text in
    let some_left : ltb (get_left wrap) 2 ≡ false =
      ltb-ge _ _
        (omega (arith, get_left-of wrap [] (stream (u ∷ us)) ok text, lt-length-stream u us)) in
    let out = copy_obu p w0 (hdr_of u) mb' pkt in
    let g = copy_obu-Grew p w0 u us mb' pkt is v left ok' at in
    elim (Bool-cases (out.0 == 0)) [
      | inl y ↦
          let z : out.0 ≡ 0 = ground (arith, y) in
          let (out', e', g') =
            copy_obus-Grew p w0 fuel us (advance mb' (pos (length u.payload))) out.1 are v' text'
              g.valid (g.at_end z) (omega arith) in
          (
            out',
            rw (some_left, e, y) e',
            record {
              valid = g'.valid;
              text = λ z'.
                  g'.text z'
                  ∙ ap (λ t. t ++ elements w0 us) (g.text z)
                  ∙ append_assoc (written pkt) (element w0 u us) (elements w0 us);
              at_end = g'.at_end;
            },
          )
      | inr n ↦ (
        out,
        rw (some_left, e, n) refl,
        record {
          valid = g.valid;
          text = λ z. absurd (ground (arith, n, z));
          at_end = λ z. absurd (ground (arith, n, z));
        },
      )
    ]
