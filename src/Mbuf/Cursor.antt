-- ===== src/Mbuf/Cursor.antt =====
-- What the writes and reads of src/mbuf/mbuf.c do to the text that a buffer holds.
use re_cpm.Base.{
  ℕ, ◌+◌, ◌-◌, ◌≤◌, ◌<◌, ◌^◌, max, ◌≡◌, ◌≢◌, ◌⊎◌, inl, inr, refl, sym, ap, ap₂, ◌∙◌, arith,
  ltb-false, if◌then◌else◌, ◌==◌, ltb, ltb→lt, Bool-cases,
}
use re_cpm.Base.{
  take-drop, List, ◌++◌, length, take, drop, replicate, length-replicate, length-overwrite,
  take-overwrite-max, take-take, drop-drop, length-drop, length-take,
}
use re_cpm.Base.Errno.{enomem, eoverflow}
use re_cpm.Platform.{Platform, add_size}
use re_cpm.Mbuf.{Mbuf, get_left, put, write_mem, fill, read_mem}
use re_cpm.Mbuf.Inv.{IsValid, Reserved, reserve-Reserved}

-- The text up to the end, the part before the position, and the part that is still to be read.
abbrev pub contents : Mbuf → List ℕ
contents mb = take mb.end mb.buf

abbrev pub written : Mbuf → List ℕ
written mb = take mb.pos mb.buf

abbrev pub rest : Mbuf → List ℕ
rest mb = drop mb.pos (contents mb)

-- A text with `bytes` laid over it from index `i` on.
abbrev pub laid : List ℕ → ℕ → List ℕ → List ℕ
laid text i bytes = take i text ++ (bytes ++ drop (i + length bytes) text)

-- A `memcpy` from outside is at most half the address space long.
abbrev pub IsObject : List ℕ → Type 0
IsObject bytes = length bytes < 2 ^ 63

-- What a write of `bytes` at the position does.
pub record Wrote (mb : Mbuf) (bytes : List ℕ) (out : ℕ × Mbuf) : Type 0 where
  pub valid : IsValid out.1
  pub outcome : (out.0 ≡ 0) ⊎ ((out.0 ≡ enomem) × (out.1 ≡ mb))
  pub fits : mb.pos + length bytes ≤ mb.size → out.0 ≡ 0
  pub grows : mb.size ≤ out.1.size
  pub at : out.0 ≡ 0 → out.1.pos ≡ mb.pos + length bytes
  pub ends : out.0 ≡ 0 → out.1.end ≡ max mb.end (mb.pos + length bytes)
  pub text : out.0 ≡ 0 → contents out.1 ≡ laid (contents mb) mb.pos bytes

put-IsValid :
    (mb : Mbuf) (bytes : List ℕ)
    → IsValid mb
    → mb.pos + length bytes ≤ mb.size
    → IsValid (put mb bytes)
unfolding put
put-IsValid mb bytes v h = omega (arith, length-overwrite {0} mb.buf mb.pos bytes)

put-contents :
    (mb : Mbuf) (bytes : List ℕ)
    → IsValid mb
    → mb.pos + length bytes ≤ mb.size
    → contents (put mb bytes) ≡ laid (contents mb) mb.pos bytes
unfolding put
put-contents mb bytes v h =
    take-overwrite-max mb.buf mb.pos bytes mb.end (mb.pos + length bytes) _ (omega arith)
      (omega arith) (omega arith) (omega arith) (omega arith)
    ∙ ap (λ t. t ++ (bytes ++ drop (mb.pos + length bytes) (contents mb)))
        (sym (take-take mb.pos mb.end mb.buf (omega arith)))

-- After `reserve`, the copy.
Reserved-Wrote :
    (mb : Mbuf) (bytes : List ℕ) (out : ℕ × Mbuf)
    → IsValid mb
    → Reserved mb (mb.pos + length bytes) out
    → Wrote mb bytes (if out.0 == 0 then (0, put out.1 bytes) else out)
Reserved-Wrote mb bytes out v r = elim (r.outcome) [
  | inl e ↦
      let small : out.1.pos + length bytes ≤ out.1.size = omega (arith, r.room e, r.same_pos) in
      let next : add_size out.1.pos (length bytes) ≡ mb.pos + length bytes =
        omega (arith, r.same_pos, r.valid) in
      rw e (record {
        valid = put-IsValid out.1 bytes r.valid small;
        outcome = inl refl;
        fits = λ _. refl;
        grows = unfold put in r.grows;
        at = λ _. unfold put in next;
        ends = λ _. unfold put in omega (arith, next, r.same_end);
        text = λ _.
            put-contents out.1 bytes r.valid small
            ∙ ap₂ (λ t i. laid t i bytes) (ap (λ n. take n out.1.buf) r.same_end ∙ r.same_bytes)
                r.same_pos;
      })
  | inr (e, same) ↦
      rw (e, same)
        (record {
          valid = v;
          outcome = inr (refl, refl);
          fits = λ h. sym e ∙ ap (λ o. o.0) (r.granted h);
          grows = omega arith;
          at = λ z. absurd (omega arith);
          ends = λ z. absurd (omega arith);
          text = λ z. absurd (omega arith);
        })
]

-- `mbuf_write_mem` of less than 2^63 bytes to a valid buffer keeps it valid; it fails with ENOMEM
-- and changes nothing, or the bytes lie over the text from the position on, the position is behind
-- them and the end not before it. With room in the block it succeeds; the block never shrinks.
pub write_mem-Wrote :
    (p : Platform) (mb : Mbuf) (bytes : List ℕ)
    → IsValid mb
    → IsObject bytes
    → Wrote mb bytes (write_mem p mb bytes)
unfolding write_mem
write_mem-Wrote p mb bytes v h =
    let e : add_size mb.pos (length bytes) ≡ mb.pos + length bytes = omega (arith, v) in
    rw e (Reserved-Wrote mb bytes _ v (reserve-Reserved p mb (mb.pos + length bytes) v))

-- `mbuf_fill` with a count that is not 0 is a write of so many equal bytes.
pub fill-eq-write_mem :
    (p : Platform) (mb : Mbuf) (c n : ℕ) → n ≢ 0 → fill p mb c n ≡ write_mem p mb (replicate n c)
unfolding fill write_mem
fill-eq-write_mem p mb c n h = ground (arith, length-replicate n c)

-- What a read of `n` bytes does.
pub record Read (mb : Mbuf) (n : ℕ) (out : ℕ × List ℕ × Mbuf) : Type 0 where
  pub valid : IsValid out.2
  pub outcome :
      (n ≤ length (rest mb)) × (out.0 ≡ 0)
      ⊎ (length (rest mb) < n) × (out.0 ≡ eoverflow) × (out.2 ≡ mb)
  pub frame : (out.2.buf ≡ mb.buf) × (out.2.size ≡ mb.size) × (out.2.end ≡ mb.end)
  pub bytes : out.0 ≡ 0 → out.1 ≡ take n (rest mb)
  pub rest_drop : out.0 ≡ 0 → rest out.2 ≡ drop n (rest mb)
  pub at : out.0 ≡ 0 → out.2.pos ≡ mb.pos + n

pub length-rest : (mb : Mbuf) → IsValid mb → length (rest mb) ≡ mb.end - mb.pos
length-rest mb v =
    omega (arith, length-drop {0} mb.pos (contents mb), length-take {0} mb.end mb.buf, v)

pub get_left-eq : (mb : Mbuf) → IsValid mb → get_left mb ≡ length (rest mb)
unfolding get_left
get_left-eq mb v = length-rest' ∙ sym (length-rest mb v)
  where
    length-rest' : (if ltb mb.pos mb.end then mb.end - mb.pos else 0) ≡ mb.end - mb.pos
    length-rest' = ground arith

-- `mbuf_read_mem` on a valid buffer keeps it valid, and block, size and end as they are. When so
-- many bytes are left it returns them, with the position behind them; otherwise it fails with
-- EOVERFLOW and changes nothing.
pub read_mem-Read : (mb : Mbuf) (n : ℕ) → IsValid mb → Read mb n (read_mem mb n)
unfolding read_mem
read_mem-Read mb n v = elim (Bool-cases (ltb (get_left mb) n)) [
  | inl short ↦ rw short (record {
    valid = v;
    outcome = inr (omega (arith, get_left-eq mb v, ltb→lt (get_left mb) n short), refl, refl);
    frame = (refl, refl, refl);
    bytes = λ z. absurd (omega arith);
    rest_drop = λ z. absurd (omega arith);
    at = λ z. absurd (omega arith);
  })
  | inr enough ↦
      let h : n ≤ length (rest mb) =
        omega (arith, get_left-eq mb v, ltb-false (get_left mb) n enough) in
      let next : add_size mb.pos n ≡ mb.pos + n = omega (arith, v, length-rest mb v) in
      rw (enough, next)
        (record {
          valid = omega (arith, v, length-rest mb v);
          outcome = inl (h, refl);
          frame = (refl, refl, refl);
          bytes =
              λ _. take-drop mb.buf mb.pos mb.end n (omega (arith, length-rest mb v)) (omega arith);
          rest_drop = λ _. sym (drop-drop mb.pos n (contents mb));
          at = λ _. refl;
        })
]
