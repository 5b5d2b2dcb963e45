-- ===== src/Mbuf/Takes.antt =====
-- Decoding through a buffer of src/mbuf/mbuf.c: reads of integers in network order.
use re_cpm.Base.{ℕ, ◌+◌, ◌<◌, ◌^◌, ◌%◌, ◌≡◌, inl, inr, refl, sym, ap, ◌∙◌, arith}
use re_cpm.Base.{List, [], ◌∷◌, ◌++◌, length, take, drop, length-append, take-append, drop-append}
use re_cpm.Base.{Endian, little, big, host_value, hton, be_bytes, length-be_bytes, hton-host_value}
use re_cpm.Platform.{Platform, add_size}
use re_cpm.Base.{drop-drop}
use re_cpm.Base.Int.{pos}
use re_cpm.Mbuf.{Mbuf, read_mem, get_left, advance}
use re_cpm.Mbuf.Ints.{read_int, read_u8, read_u16, read_u32}
use re_cpm.Mbuf.Inv.{IsValid}
use re_cpm.Mbuf.Cursor.{contents, rest, length-rest, read_mem-Read, get_left-eq}

-- A step that takes `n` bytes off what is to be read and leaves `r`.
pub record Takes (mb : Mbuf) (n : ℕ) (r : List ℕ) (mb' : Mbuf) : Type 0 where
  pub valid : IsValid mb'
  pub left : rest mb' ≡ r
  pub at : mb'.pos ≡ mb.pos + n
  pub same_buf : mb'.buf ≡ mb.buf
  pub same_end : mb'.end ≡ mb.end

pub read_mem-Takes :
    (mb : Mbuf) (bytes r : List ℕ) (n : ℕ)
    → IsValid mb
    → n ≡ length bytes
    → rest mb ≡ bytes ++ r
    → let (err, got, mb') = read_mem mb n in (err ≡ 0) × (got ≡ bytes) × Takes mb n r mb'
read_mem-Takes mb bytes r n v e h = elim ((read_mem-Read mb n v).outcome) [
  | inl (_, z) ↦
      let t = read_mem-Read mb n v in
      (
        z,
        t.bytes z ∙ ap (take n) h ∙ take-append bytes r n e,
        record {
          valid = t.valid;
          left = t.rest_drop z ∙ ap (drop n) h ∙ drop-append bytes r n e;
          at = t.at z;
          same_buf = t.frame.0;
          same_end = t.frame.2;
        },
      )
  | inr (short, _, _) ↦ absurd (omega (arith, ap length h, length-append {0} bytes r))
]

-- What each read of a decoder returns, in the host's order.
pub read_u8-Takes :
    (p : Platform) (mb : Mbuf) (b : ℕ) (r : List ℕ)
    → IsValid mb
    → rest mb ≡ b ∷ r
    → let (x, mb') = read_u8 p mb in (x ≡ b) × Takes mb 1 r mb'
unfolding read_u8
read_u8-Takes p mb b r ok h =
    let (z, got, t) = read_mem-Takes mb (b ∷ []) r 1 ok refl h in
    (rw (z, got) (host_value-one p.endian b), t)
  where
    host_value-one : (e : Endian) (v : ℕ) → host_value e (v ∷ []) ≡ v
    host_value-one little v = unfold host_value in omega arith
    host_value-one big v = unfold host_value in omega arith

-- An integer in network order is read back.
pub read_int-Takes :
    (n : ℕ) (p : Platform) (mb : Mbuf) (v : ℕ) (r : List ℕ)
    → IsValid mb
    → rest mb ≡ be_bytes n v ++ r
    → let (x, mb') = read_int n p mb in (hton p.endian n x ≡ v % 256 ^ n) × Takes mb n r mb'
unfolding read_int
read_int-Takes n p mb v r ok h =
    let (z, got, t) = read_mem-Takes mb (be_bytes n v) r n ok (sym (length-be_bytes n v)) h in
    (rw (z, got, hton-host_value) refl, t)

pub read_u16-Takes :
    (p : Platform) (mb : Mbuf) (v : ℕ) (r : List ℕ)
    → IsValid mb
    → v < 2 ^ 16
    → rest mb ≡ be_bytes 2 v ++ r
    → let (x, mb') = read_u16 p mb in (hton p.endian 2 x ≡ v) × Takes mb 2 r mb'
unfolding read_u16
read_u16-Takes p mb v r ok small h =
    let (e, t) = read_int-Takes 2 p mb v r ok h in (e ∙ omega arith, t)

pub read_u32-Takes :
    (p : Platform) (mb : Mbuf) (v : ℕ) (r : List ℕ)
    → IsValid mb
    → v < 2 ^ 32
    → rest mb ≡ be_bytes 4 v ++ r
    → let (x, mb') = read_u32 p mb in (hton p.endian 4 x ≡ v) × Takes mb 4 r mb'
unfolding read_u32
read_u32-Takes p mb v r ok small h =
    let (e, t) = read_int-Takes 4 p mb v r ok h in (e ∙ omega arith, t)

pub Takes-trans :
    {mb mb1 mb2 : Mbuf} (n m : ℕ) {r s : List ℕ}
    → Takes mb n r mb1
    → Takes mb1 m s mb2
    → Takes mb (n + m) s mb2
Takes-trans n m a b = record {
  valid = b.valid;
  left = b.left;
  at = omega (arith, a.at, b.at);
  same_buf = b.same_buf ∙ a.same_buf;
  same_end = b.same_end ∙ a.same_end;
}

-- How much is left, seen from the bytes.
pub get_left-of :
    (mb : Mbuf) (bytes r : List ℕ)
    → IsValid mb
    → rest mb ≡ bytes ++ r
    → get_left mb ≡ length bytes + length r
get_left-of mb bytes r v h = get_left-eq mb v ∙ ap length h ∙ length-append bytes r

pub Takes-as :
    {mb mb' : Mbuf} {n m : ℕ} {r s : List ℕ} → n ≡ m → r ≡ s → Takes mb n r mb' → Takes mb m s mb'
Takes-as count same t = record {
  valid = t.valid;
  left = t.left ∙ same;
  at = omega (arith, t.at);
  same_buf = t.same_buf;
  same_end = t.same_end;
}

-- A step forward over bytes that are there.
pub advance-Takes :
    (mb : Mbuf) (bytes r : List ℕ)
    → IsValid mb
    → rest mb ≡ bytes ++ r
    → Takes mb (length bytes) r (advance mb (pos (length bytes)))
unfolding advance
advance-Takes mb bytes r v h =
    let whole : length (rest mb) ≡ length bytes + length r = ap length h ∙ length-append bytes r in
    let next : add_size mb.pos (length bytes) ≡ mb.pos + length bytes =
      omega (arith, whole, length-rest mb v, v) in
    record {
      valid = omega (arith, next, whole, length-rest mb v, v);
      left =
          ap (λ i. drop i (contents mb)) next
          ∙ sym (drop-drop mb.pos (length bytes) (contents mb))
          ∙ ap (drop (length bytes)) h
          ∙ drop-append bytes r (length bytes) refl;
      at = next;
      same_buf = refl;
      same_end = refl;
    }
