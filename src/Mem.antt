-- ===== src/Mem.antt =====
-- src/mem/mem.c: blocks of memory that are counted by reference. A block is the list of its bytes.
pub mod Resize
use re_cpm.Base.{ℕ, ◌+◌, ◌-◌, ◌^◌, ltb, if◌then◌else◌, Bool, List, ◌++◌, length, take}
use re_cpm.Base.{Option, none, some, [], ◌∷◌}
use re_cpm.Platform.{Platform, uninitialised}

-- MEM_SIZE_MAX, where `size_t` is wider than `uint32_t`
abbrev pub mem_size_max : ℕ
mem_size_max = 2 ^ 32 - 1

unfoldable pub mem_alloc : Platform → ℕ → Option (List ℕ)
mem_alloc p size =
    if ltb mem_size_max size
    then none
    else if p.malloc size
    then some (uninitialised p 0 size)
    else none

-- What `mem_realloc` does: it returns NULL, or a block, and puts bytes behind the block's end.
pub data Resized : Type 0 where
  null : Resized
  block : List ℕ → List ℕ → Resized

-- `memcpy` to the start of a block: the block after it, and the bytes that went behind its end.
unfoldable pub memcpy : List ℕ → List ℕ → List ℕ × List ℕ
memcpy dst [] = (dst, [])
memcpy [] (b ∷ bs) = ([], b ∷ bs)
memcpy (x ∷ dst) (b ∷ bs) = let (dst', behind) = memcpy dst bs in (b ∷ dst', behind)

-- The new block of a shared one takes all bytes of the old one, `m->size`.
unfoldable pub copied : List ℕ → List ℕ → Resized
copied old fresh = let (new, behind) = memcpy fresh old in block new behind

-- The case of one reference: realloc keeps what fits.
unfoldable pub grown : Platform → List ℕ → ℕ → List ℕ
grown p old size = take size old ++ uninitialised p (length old) (size - length old)

unfoldable pub realloc_exclusive : Platform → List ℕ → ℕ → Option (List ℕ)
unfolding grown
realloc_exclusive p old size =
    if ltb mem_size_max size
    then none
    else if p.realloc (length old) size
    then some (grown p old size)
    else none

-- `mem_realloc(data, size)` of a block with `nrefs` references.
unfoldable pub mem_realloc : Platform → ℕ → List ℕ → ℕ → Resized
mem_realloc p nrefs old size =
    if ltb mem_size_max size
    then null
    else if ltb 1 nrefs
    then elim (mem_alloc p size) [ none ↦ null | some fresh ↦ copied old fresh ]
    else elim (realloc_exclusive p old size) [ none ↦ null | some new ↦ block new [] ]
