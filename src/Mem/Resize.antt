-- ===== src/Mem/Resize.antt =====
-- What `mem_realloc` of src/mem/mem.c keeps, and where it fails.
use re_cpm.Base.{
  ◌⊎◌, true, ℕ, ltb→lt, ◌-◌, ◌≤◌, ◌<◌, min, ◌≡◌, refl, ◌∙◌, List, length, take, arith, ltb,
  Bool-cases, Option-cases, inl, inr, [], ◌∷◌, ap,
}
use re_cpm.Base.{
  some, false, length-append, length-take, length-drop, take-append_le, take-take, drop, drop_all,
  ◌++◌, ◌+◌, zero, suc, ap₂, lt→ltb,
}
use re_cpm.Platform.{Platform, uninitialised, length-uninitialised}
use re_cpm.Mem.{
  mem_size_max, mem_alloc, Resized, null, block, memcpy, copied, grown, realloc_exclusive,
  mem_realloc,
}

pub length-grown : (p : Platform) (old : List ℕ) (size : ℕ) → length (grown p old size) ≡ size
unfolding grown
length-grown p old size = omega (
  arith,
  length-append {0} (take size old) (uninitialised p (length old) (size - length old)),
  length-take {0} size old,
  length-uninitialised p (length old) (size - length old),
)

-- Up to both sizes the bytes stay.
pub take-grown :
    (p : Platform) (old : List ℕ) (size n : ℕ)
    → n ≤ length old
    → n ≤ size
    → take n (grown p old size) ≡ take n old
unfolding grown
take-grown p old size n h k =
    take-append_le (take size old) _ n (omega (arith, length-take {0} size old))
    ∙ take-take n size old k

-- What a resized block must be: as long as was asked, with the old bytes kept as far as both reach,
-- and nothing written behind its end.
abbrev pub Keeps : List ℕ → ℕ → Resized → Type 0
Keeps old size null = Unit
Keeps old size (block new behind) =
    (length new ≡ size)
    × (take (min size (length old)) new ≡ take (min size (length old)) old)
    × (behind ≡ [])

-- A copy into fresh memory leaves what realloc would have left, and the bytes that do not fit go
-- behind the end.
memcpy-grown :
    (p : Platform) (old : List ℕ) (i size : ℕ)
    → memcpy (uninitialised p i size) old
      ≡ (take size old ++ uninitialised p (i + length old) (size - length old), drop size old)
unfolding memcpy uninitialised
memcpy-grown p [] i zero = refl
memcpy-grown p [] i (suc n) =
    let base : i ≡ i + 0 = omega arith in
    let size : suc n ≡ suc n - 0 = omega arith in ap₂ (λ j k. (uninitialised p j k, [])) base size
memcpy-grown p (b ∷ old) i zero =
    let none_left : 0 ≡ 0 - suc (length old) = omega arith in
    ap (λ n. (uninitialised p (i + suc (length old)) n, b ∷ old)) none_left
memcpy-grown p (b ∷ old) i (suc n) =
    ap (λ t. (b ∷ t.0, t.1)) (memcpy-grown p old (i + 1) n)
    ∙ ap₂ (λ j k. (b ∷ (take n old ++ uninitialised p j k), drop n old)) (omega arith) (omega arith)

pub mem_alloc-length :
    (p : Platform) (size : ℕ) (b : List ℕ) → mem_alloc p size ≡ some b → length b ≡ size
unfolding mem_alloc
mem_alloc-length p size b e = ground (arith, length-uninitialised p 0 size)

pub realloc_exclusive-eq :
    (p : Platform) (old : List ℕ) (size : ℕ) (new : List ℕ)
    → realloc_exclusive p old size ≡ some new
    → new ≡ grown p old size
unfolding realloc_exclusive
realloc_exclusive-eq p old size new e = ground arith

-- A shared block is copied like this, whatever the new size.
copied_lem :
    (p : Platform) (old : List ℕ) (size : ℕ)
    → copied old (uninitialised p 0 size) ≡ block (grown p old size) (drop size old)
unfolding copied grown
copied_lem p old size =
    ap (λ t. block t.0 t.1)
      (memcpy-grown p old 0 size
        ∙ ap (λ j. (take size old ++ uninitialised p j (size - length old), drop size old))
            (omega arith))

mem_alloc-eq :
    (p : Platform) (size : ℕ) (b : List ℕ) → mem_alloc p size ≡ some b → b ≡ uninitialised p 0 size
unfolding mem_alloc
mem_alloc-eq p size b e = ground arith

grown-Keeps :
    (p : Platform) (old : List ℕ) (size : ℕ) (behind : List ℕ)
    → behind ≡ []
    → Keeps old size (block (grown p old size) behind)
grown-Keeps p old size behind none_behind = (
  length-grown p old size,
  take-grown p old size (min size (length old)) (omega arith) (omega arith),
  none_behind,
)

-- `mem_realloc`, if nobody else holds the block or it does not shrink, returns NULL or a block of
-- the new size that has the old bytes as far as both sizes reach; it writes nothing outside it.
pub mem_realloc-Keeps :
    (p : Platform) (nrefs : ℕ) (old : List ℕ) (size : ℕ)
    → (nrefs ≤ 1) ⊎ (length old ≤ size)
    → Keeps old size (mem_realloc p nrefs old size)
unfolding mem_realloc
mem_realloc-Keeps p nrefs old size h = elim (Bool-cases (ltb mem_size_max size)) [
  | inl big ↦ rw big tt
  | inr fits ↦ elim (Bool-cases (ltb 1 nrefs)) [
    | inl shared ↦ elim (Option-cases (mem_alloc p size)) [
      | inl e ↦ rw (fits, shared, e) tt
      | inr (fresh, e) ↦
          rw (fits, shared, e, mem_alloc-eq p size fresh e, copied_lem p old size)
            (grown-Keeps p old size (drop size old)
              (drop_all old size (omega (arith, ltb→lt 1 nrefs shared))))
    ]
    | inr exclusive ↦ elim (Option-cases (realloc_exclusive p old size)) [
      | inl e ↦ rw (fits, exclusive, e) tt
      | inr (new, e) ↦
          rw (fits, exclusive, e, realloc_exclusive-eq p old size new e)
            (grown-Keeps p old size [] refl)
    ]
  ]
]

-- A block with more than one reference, when malloc grants the new size, becomes the block that
-- realloc would make of it, and the bytes of the old one from the new size on are written behind its
-- end, as many as the old block is longer.
pub mem_realloc_shared_overrun :
    (p : Platform) (nrefs : ℕ) (old : List ℕ) (size : ℕ)
    → 1 < nrefs
    → size ≤ mem_size_max
    → p.malloc size ≡ true
    → (mem_realloc p nrefs old size ≡ block (grown p old size) (drop size old))
      × (length (drop size old) ≡ length old - size)
unfolding mem_realloc mem_alloc
mem_realloc_shared_overrun p nrefs old size h m g =
    let small : ltb mem_size_max size ≡ false = ground arith in
    let shared : ltb 1 nrefs ≡ true = lt→ltb 1 nrefs h in
    (rw (small, shared, g) (copied_lem p old size), length-drop size old)
