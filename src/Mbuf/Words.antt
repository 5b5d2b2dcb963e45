-- ===== src/Mbuf/Words.antt =====
-- Encoding through a buffer of src/mbuf/mbuf.c: runs of `err |= mbuf_write_…`.
use re_cpm.Base.{ℕ, ◌+◌, ◌≤◌, ◌%◌, max, ◌≡◌, refl, sym, ap, subst, ◌∙◌, arith, bit_or}
use re_cpm.Base.{
  List, [], ◌∷◌, ◌++◌, length, take, drop, append-nil, append_assoc, length-append,
  take-append-drop, length-take, take-append, drop-append, take-take, drop-drop,
}
use re_cpm.Base.{Endian, little, big, host_bytes, hton, be_bytes, length-be_bytes, host_bytes-hton}
use re_cpm.Base.Bits.{bit_or-eq_zero, zero-bit_or}
use re_cpm.Platform.{Platform}
use re_cpm.Mbuf.{Mbuf, set_pos, write_mem}
use re_cpm.Mbuf.Ints.{write_int, write_u8, write_u16, write_u32, ◌|=◌}
use re_cpm.Mbuf.Inv.{IsValid}
use re_cpm.Mbuf.Cursor.{contents, written, rest, laid, IsObject, Wrote, write_mem-Wrote}

-- A step that writes `bytes` at the position: what is before and behind them stays, and with room
-- for them it succeeds.
pub record Appends (mb : Mbuf) (bytes : List ℕ) (out : ℕ × Mbuf) : Type 0 where
  pub valid : IsValid out.1
  pub fits : mb.pos + length bytes ≤ mb.size → out.0 ≡ 0
  pub grows : mb.size ≤ out.1.size
  pub at : out.0 ≡ 0 → out.1.pos ≡ mb.pos + length bytes
  pub ends : out.0 ≡ 0 → out.1.end ≡ max mb.end (mb.pos + length bytes)
  pub before : out.0 ≡ 0 → written out.1 ≡ written mb ++ bytes
  pub behind : out.0 ≡ 0 → rest out.1 ≡ drop (length bytes) (rest mb)

written-laid :
    (text : List ℕ) (i : ℕ) (bytes : List ℕ) (n : ℕ)
    → i ≤ length text
    → n ≡ i + length bytes
    → take n (laid text i bytes) ≡ take i text ++ bytes
written-laid text i bytes n h e =
    ap (take n) (sym (append_assoc (take i text) bytes _))
    ∙ take-append (take i text ++ bytes) _ n
        (omega (arith, length-append {0} (take i text) bytes, length-take {0} i text))

behind-laid :
    (text : List ℕ) (i : ℕ) (bytes : List ℕ) (n : ℕ)
    → i ≤ length text
    → n ≡ i + length bytes
    → drop n (laid text i bytes) ≡ drop (i + length bytes) text
behind-laid text i bytes n h e =
    ap (drop n) (sym (append_assoc (take i text) bytes _))
    ∙ drop-append (take i text ++ bytes) _ n
        (omega (arith, length-append {0} (take i text) bytes, length-take {0} i text))

pub Wrote-Appends :
    (mb : Mbuf) (bytes : List ℕ) {out : ℕ × Mbuf}
    → IsValid mb
    → Wrote mb bytes out
    → Appends mb bytes out
Wrote-Appends mb bytes {out} v w =
    let inside : mb.pos ≤ length (contents mb) = omega (arith, length-take {0} mb.end mb.buf, v) in
    record {
      valid = w.valid;
      fits = w.fits;
      grows = w.grows;
      at = w.at;
      ends = w.ends;
      before = λ z.
          sym (take-take out.1.pos out.1.end out.1.buf (omega (arith, w.valid)))
          ∙ ap (take out.1.pos) (w.text z)
          ∙ written-laid (contents mb) mb.pos bytes out.1.pos inside (w.at z)
          ∙ ap (λ t. t ++ bytes) (take-take mb.pos mb.end mb.buf (omega (arith, v)));
      behind = λ z.
          ap (drop out.1.pos) (w.text z)
          ∙ behind-laid (contents mb) mb.pos bytes out.1.pos inside (w.at z)
          ∙ sym (drop-drop mb.pos (length bytes) (contents mb));
    }

pub write_mem-Appends :
    (p : Platform) (mb : Mbuf) (bytes : List ℕ)
    → IsValid mb
    → IsObject bytes
    → Appends mb bytes (write_mem p mb bytes)
write_mem-Appends p mb bytes v h = Wrote-Appends mb bytes v (write_mem-Wrote p mb bytes v h)

pub Appends-as :
    {mb : Mbuf} {xs ys : List ℕ} {out : ℕ × Mbuf} → xs ≡ ys → Appends mb xs out → Appends mb ys out
Appends-as {mb} {out = out} same a = subst (λ bs. Appends mb bs out) same a

-- The start of a run.
pub Appends-nil : (mb : Mbuf) → IsValid mb → Appends mb [] (0, mb)
Appends-nil mb v = record {
  valid = v;
  fits = λ _. refl;
  grows = omega arith;
  at = λ _. omega arith;
  ends = λ _. omega arith;
  before = λ _. sym (append-nil (written mb));
  behind = λ _. refl;
}

-- One more step of a run.
pub |=-Appends :
    (mb : Mbuf) (xs ys : List ℕ) (out : ℕ × Mbuf) (f : Mbuf → ℕ × Mbuf)
    → Appends mb xs out
    → Appends out.1 ys (f out.1)
    → Appends mb (xs ++ ys) (out |= f)
|=-Appends mb xs ys out f a b =
    let len : length (xs ++ ys) ≡ length xs + length ys = length-append xs ys in
    record {
      valid = b.valid;
      fits = λ h.
          let first : out.0 ≡ 0 = a.fits (omega (arith, len)) in
          let second : (f out.1).0 ≡ 0 = b.fits (omega (arith, len, a.at first, a.grows)) in
          rw (first, second);
      grows = omega (arith, a.grows, b.grows);
      at = λ z.
          let (first, second) = bit_or-eq_zero out.0 (f out.1).0 z in
          omega (arith, a.at first, b.at second, len);
      ends = λ z.
          let (first, second) = bit_or-eq_zero out.0 (f out.1).0 z in
          omega (arith, a.at first, b.at second, a.ends first, b.ends second, len);
      before = λ z.
          let (first, second) = bit_or-eq_zero out.0 (f out.1).0 z in
          b.before second ∙ ap (λ t. t ++ ys) (a.before first) ∙ append_assoc (written mb) xs ys;
      behind = λ z.
          let (first, second) = bit_or-eq_zero out.0 (f out.1).0 z in
          b.behind second
          ∙ ap (drop (length ys)) (a.behind first)
          ∙ drop-drop (length xs) (length ys) (rest mb)
          ∙ ap (λ k. drop k (rest mb)) (sym len);
    }

-- A step after one that succeeded.
pub Appends-trans :
    (mb : Mbuf) (xs ys : List ℕ) (out after : ℕ × Mbuf)
    → out.0 ≡ 0
    → Appends mb xs out
    → Appends out.1 ys after
    → Appends mb (xs ++ ys) after
Appends-trans mb xs ys out after z a b =
    subst (Appends mb (xs ++ ys))
      (ap (λ e. (bit_or e after.0, after.1)) z ∙ ap (λ e. (e, after.1)) (zero-bit_or after.0))
      (|=-Appends mb xs ys out (λ _. after) a b)

-- An integer in network order.
pub write_int-Appends :
    (n : ℕ) (p : Platform) (mb : Mbuf) (v : ℕ)
    → n ≤ 8
    → IsValid mb
    → Appends mb (be_bytes n v) (write_int n p mb (hton p.endian n v))
unfolding write_int
write_int-Appends n p mb v h ok =
    rw host_bytes-hton
      (write_mem-Appends p mb (be_bytes n v) ok (omega (arith, length-be_bytes n v)))

pub host_bytes-one : (e : Endian) (v : ℕ) → host_bytes e 1 v ≡ v % 256 ∷ []
unfolding host_bytes
host_bytes-one little v = refl
host_bytes-one big v = refl

pub write_u8-Appends :
    (p : Platform) (mb : Mbuf) (v : ℕ) → IsValid mb → Appends mb (v % 256 ∷ []) (write_u8 p mb v)
unfolding write_u8
write_u8-Appends p mb v ok =
    rw host_bytes-one (write_mem-Appends p mb (v % 256 ∷ []) ok (omega arith))

module _ (p : Platform) (mb : Mbuf) (xs : List ℕ) (out : ℕ × Mbuf) (a : Appends mb xs out) where
  pub int_step :
      (n v : ℕ)
      → n ≤ 8
      → Appends mb (xs ++ be_bytes n v) (out |= λ m. write_int n p m (hton p.endian n v))
  int_step n v h =
      |=-Appends mb xs (be_bytes n v) out (λ m. write_int n p m (hton p.endian n v)) a
        (write_int-Appends n p out.1 v h a.valid)

  -- `err |= mbuf_write_u16(mb, htons(v))`
  pub u16_step :
      (v : ℕ) → Appends mb (xs ++ be_bytes 2 v) (out |= λ m. write_u16 p m (hton p.endian 2 v))
  unfolding write_u16
  u16_step v = int_step 2 v (omega arith)

  -- `err |= mbuf_write_u32(mb, htonl(v))`
  pub u32_step :
      (v : ℕ) → Appends mb (xs ++ be_bytes 4 v) (out |= λ m. write_u32 p m (hton p.endian 4 v))
  unfolding write_u32
  u32_step v = int_step 4 v (omega arith)

  -- `err |= mbuf_write_u8(mb, v)`
  pub u8_step : (v : ℕ) → Appends mb (xs ++ (v % 256 ∷ [])) (out |= λ m. write_u8 p m v)
  u8_step v =
      |=-Appends mb xs (v % 256 ∷ []) out (λ m. write_u8 p m v) a
        (write_u8-Appends p out.1 v a.valid)

  -- `err |= mbuf_write_mem(mb, bytes, n)`
  pub mem_step :
      (bytes : List ℕ) → IsObject bytes → Appends mb (xs ++ bytes) (out |= λ m. write_mem p m bytes)
  mem_step bytes h =
      |=-Appends mb xs bytes out (λ m. write_mem p m bytes) a
        (write_mem-Appends p out.1 bytes a.valid h)

-- After a run of writes the position is set back: what is to be read are the bytes written, and
-- behind them what was there.
pub Appends-rewound :
    (mb : Mbuf) (bytes : List ℕ) (out : ℕ × Mbuf)
    → IsValid mb
    → Appends mb bytes out
    → out.0 ≡ 0
    → IsValid (set_pos out.1 mb.pos)
      × (rest (set_pos out.1 mb.pos) ≡ bytes ++ drop (length bytes) (rest mb))
unfolding set_pos
Appends-rewound mb bytes out v a z = (
  omega (arith, a.valid, a.at z),
  ap (drop mb.pos) whole
      ∙ drop-append (written mb) (bytes ++ rest out.1) mb.pos
          (omega (arith, length-take {0} mb.pos mb.buf, v))
      ∙ ap (λ t. bytes ++ t) (a.behind z),
)
  where
    whole : contents out.1 ≡ written mb ++ (bytes ++ rest out.1)
    whole =
        sym (take-append-drop out.1.pos (contents out.1))
        ∙ ap (λ t. t ++ rest out.1)
            (take-take out.1.pos out.1.end out.1.buf (omega (arith, a.valid)) ∙ a.before z)
        ∙ append_assoc (written mb) bytes (rest out.1)
