-- ===== src/Mbuf/Inv.antt =====
-- The invariant of `struct mbuf`, and that the operations of src/mbuf/mbuf.c keep it.
use re_cpm.Base.{
  ℕ, zero, suc, take, Bool-cases, ltb, ltb→lt, ◌≤◌, ◌<◌, ◌≡◌, refl, ap, ◌∙◌, arith, List, [], ◌∷◌,
  length, some, Option-cases, inl, inr, ◌⊎◌,
}
use re_cpm.Base.Errno.{enomem}
use re_cpm.Platform.{Platform}
use re_cpm.Mem.{mem_size_max, mem_alloc, realloc_exclusive, grown}
use re_cpm.Mem.Resize.{length-grown, take-grown, mem_alloc-length, realloc_exclusive-eq}
use re_cpm.Mbuf.{Mbuf, new_block, resize, wanted, reserve, reserve_exact}

-- The block is as long as `size` says, and position and end lie in it.
pub record IsValid (mb : Mbuf) : Type 0 where
  pub stored : length mb.buf ≡ mb.size
  pub limited : mb.size ≤ mem_size_max
  pub pos_in : mb.pos ≤ mb.end
  pub end_in : mb.end ≤ mb.size

-- A block that `new_block` returns is as long as was asked.
pub new_block-length :
    (p : Platform) (old : List ℕ) (size : ℕ) (b : List ℕ)
    → new_block p old size ≡ some b
    → (length b ≡ size) × (size ≤ mem_size_max)
unfolding new_block
new_block-length p [] size b e = (mem_alloc-length p size b e, unfold mem_alloc in ground arith)
new_block-length p (x ∷ xs) size b e =
    let same : b ≡ grown p (x ∷ xs) size = realloc_exclusive-eq p (x ∷ xs) size b e in
    (ap length same ∙ length-grown p (x ∷ xs) size, unfold realloc_exclusive in ground arith)

-- `resize` fails and leaves the buffer, or the block and `size` are new.
pub resize_cases :
    (p : Platform) (mb : Mbuf) (size : ℕ)
    → (resize p mb size ≡ (enomem, mb))
      ⊎ ((b : List ℕ) × (new_block p mb.buf size ≡ some b)
          × (resize p mb size ≡ (0, record mb { buf = b; size = size })))
unfolding resize
resize_cases p mb size = elim (Option-cases (new_block p mb.buf size)) [
  | inl e ↦ inl (rw (e, resize))
  | inr (b, e) ↦ inr (b, e, rw (e, resize))
]

pub resize-IsValid :
    (p : Platform) (mb : Mbuf) (size : ℕ)
    → IsValid mb
    → mb.end ≤ size
    → IsValid (resize p mb size).1
resize-IsValid p mb size v h = elim (resize_cases p mb size) [
  | inl e ↦ rw e v
  | inr (b, f, e) ↦ rw e (omega (arith, new_block-length p mb.buf size b f))
]

-- `reserve` fails and leaves the buffer, or there is room up to `rsize` and the bytes up to the
-- end, the position and the end are as they were.
pub record Reserved (mb : Mbuf) (rsize : ℕ) (out : ℕ × Mbuf) : Type 0 where
  pub valid : IsValid out.1
  pub outcome : (out.0 ≡ 0) ⊎ ((out.0 ≡ enomem) × (out.1 ≡ mb))
  pub room : out.0 ≡ 0 → rsize ≤ out.1.size
  pub same_pos : out.1.pos ≡ mb.pos
  pub same_end : out.1.end ≡ mb.end
  pub grows : mb.size ≤ out.1.size
  pub granted : rsize ≤ mb.size → out ≡ (0, mb)
  pub same_bytes : take mb.end out.1.buf ≡ take mb.end mb.buf

-- The block after a successful resize has the bytes up to the old end.
pub new_block-take :
    (p : Platform) (old : List ℕ) (size n : ℕ) (b : List ℕ)
    → new_block p old size ≡ some b
    → n ≤ length old
    → n ≤ size
    → take n b ≡ take n old
unfolding new_block
new_block-take p [] size zero b e h k = refl
new_block-take p [] size (suc n) b e h k = absurd (omega arith)
new_block-take p (x ∷ xs) size n b e h k =
    ap (take n) (realloc_exclusive-eq p (x ∷ xs) size b e) ∙ take-grown p (x ∷ xs) size n h k

-- A resize to at least the end.
pub resize-Reserved :
    (p : Platform) (mb : Mbuf) (rsize size : ℕ)
    → IsValid mb
    → mb.size < rsize
    → rsize ≤ size
    → Reserved mb rsize (resize p mb size)
resize-Reserved p mb rsize size v h k = elim (resize_cases p mb size) [
  | inl e ↦ rw e (record {
    valid = v;
    outcome = inr (refl, refl);
    room = λ z. absurd (omega arith);
    same_pos = refl;
    same_end = refl;
    grows = omega arith;
    granted = λ z. absurd (omega arith);
    same_bytes = refl;
  })
  | inr (b, f, e) ↦ rw e (record {
    valid = omega (arith, new_block-length p mb.buf size b f);
    outcome = inl refl;
    room = λ z. k;
    same_pos = refl;
    same_end = refl;
    grows = omega arith;
    granted = λ z. absurd (omega arith);
    same_bytes = new_block-take p mb.buf size mb.end b f (omega arith) (omega arith);
  })
]

-- Nothing to do.
Reserved-self : (mb : Mbuf) (rsize : ℕ) → IsValid mb → rsize ≤ mb.size → Reserved mb rsize (0, mb)
Reserved-self mb rsize v h = record {
  valid = v;
  outcome = inl refl;
  room = λ z. h;
  same_pos = refl;
  same_end = refl;
  grows = omega arith;
  granted = λ z. refl;
  same_bytes = refl;
}

pub reserve-Reserved :
    (p : Platform) (mb : Mbuf) (rsize : ℕ) → IsValid mb → Reserved mb rsize (reserve p mb rsize)
unfolding reserve wanted
reserve-Reserved p mb rsize v = elim (Bool-cases (ltb mb.size rsize)) [
  | inl more ↦ rw more (resize-Reserved p mb rsize _ v (ltb→lt mb.size rsize more) (omega arith))
  | inr fits ↦ rw fits (Reserved-self mb rsize v (ground arith))
]

pub reserve_exact-Reserved :
    (p : Platform) (mb : Mbuf) (rsize : ℕ)
    → IsValid mb
    → Reserved mb rsize (reserve_exact p mb rsize)
unfolding reserve_exact
reserve_exact-Reserved p mb rsize v = elim (Bool-cases (ltb mb.size rsize)) [
  | inl more ↦
      rw more (resize-Reserved p mb rsize rsize v (ltb→lt mb.size rsize more) (omega arith))
  | inr fits ↦ rw fits (Reserved-self mb rsize v (ground arith))
]
