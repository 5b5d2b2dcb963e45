-- ===== src/Hash/Table.antt =====
-- src/hash/hash.c: a table of lists, on the store of src/list/list.c.
pub mod Lookup
pub mod Size
use re_cpm.Base.{
  ℕ, zero, suc, ◌+◌, ◌-◌, ◌*◌, ◌%◌, ◌^◌, ltb, ◌==◌, if◌then◌else◌, Bool, true, false, not, ◌&&◌,
  Option, none, some, List, [], ◌∷◌, ◌++◌, bit_and,
}
use re_cpm.Base.Errno.{einval, enomem}
use re_cpm.Linked.{
  Store, set_head, set_tail, list_append, list_unlink, list_apply, list_flush, list_clear,
}

-- `struct hash`: the address of the buckets and their number. A `struct list` has 16 bytes.
pub record Hash : Type 0 where
  pub bucket : ℕ
  pub bsize : ℕ

-- `&h->bucket[i]`
abbrev pub bucket_at : Hash → ℕ → ℕ
bucket_at h i = h.bucket + i * 16

-- `&h->bucket[key & (h->bsize-1)]`
abbrev pub hash_list : Hash → ℕ → ℕ
hash_list h key = bucket_at h (bit_and key (h.bsize - 1))

abbrev pub hash_bsize : Hash → ℕ
hash_bsize h = h.bsize

-- 0 is NULL.
unfoldable pub hash_list_idx : Hash → ℕ → ℕ
hash_list_idx h i = if ltb i h.bsize then bucket_at h i else 0

-- `mem_zalloc` of `n` buckets
unfoldable pub zeroed_buckets : Store → ℕ → ℕ → Store
zeroed_buckets s block zero = s
zeroed_buckets s block (suc n) =
    let l = block + n * 16 in zeroed_buckets (set_tail (set_head s l 0) l 0) block n

-- What the two calls of `mem_zalloc` give is an argument: whether there is a `struct hash`, and the
-- address of the buckets, 0 for NULL.
unfoldable pub hash_alloc : Bool → ℕ → Store → ℕ → ℕ × Option Hash × Store
hash_alloc grants block s bsize =
    if bsize == 0
    then (einval, none, s)
    else if not (bit_and bsize (bsize - 1) == 0)
    then (einval, none, s)
    else if not grants
    then (enomem, none, s)
    else if block == 0
    then (enomem, none, s)
    else (0, some (record { bucket = block; bsize = bsize }), zeroed_buckets s block bsize)

unfoldable pub hash_append : Store → Hash → ℕ → ℕ → ℕ → Store
hash_append s h key e v = if e == 0 then s else list_append s (hash_list h key) e v

unfoldable pub hash_unlink : Store → ℕ → Store
hash_unlink s e = list_unlink s e

unfoldable pub hash_lookup : ℕ → Store → Hash → ℕ → (ℕ → Bool) → Option ℕ
hash_lookup fuel s h key stop = list_apply fuel s (hash_list h key) true stop

-- The loop of `hash_apply` from bucket `i` on, `n` buckets to go; `le` is what was found.
unfoldable pub table_apply : ℕ → Store → Hash → (ℕ → Bool) → ℕ → ℕ → ℕ → Option ℕ
table_apply fuel s h stop zero i le = some le
table_apply fuel s h stop (suc n) i le =
    if le == 0
    then elim (list_apply fuel s (bucket_at h i) true stop) [
      | none ↦ none
      | some le' ↦ table_apply fuel s h stop n (i + 1) le'
    ]
    else some le

unfoldable pub hash_apply : ℕ → Store → Hash → (ℕ → Bool) → Option ℕ
hash_apply fuel s h stop = table_apply fuel s h stop h.bsize 0 0

-- The loops of `hash_flush` and `hash_clear`.
unfoldable pub table_flush : ℕ → Store → Hash → ℕ → ℕ → Option (Store × List ℕ)
table_flush fuel s h zero i = some (s, [])
table_flush fuel s h (suc n) i = elim (list_flush fuel s (bucket_at h i)) [
  | none ↦ none
  | some (s1, freed) ↦ elim (table_flush fuel s1 h n (i + 1)) [
    | none ↦ none
    | some (s2, more) ↦ some (s2, freed ++ more)
  ]
]

unfoldable pub hash_flush : ℕ → Store → Hash → Option (Store × List ℕ)
hash_flush fuel s h = table_flush fuel s h h.bsize 0

unfoldable pub table_clear : ℕ → Store → Hash → ℕ → ℕ → Option Store
table_clear fuel s h zero i = some s
table_clear fuel s h (suc n) i = elim (list_clear fuel s (bucket_at h i)) [
  | none ↦ none
  | some s1 ↦ table_clear fuel s1 h n (i + 1)
]

unfoldable pub hash_clear : ℕ → Store → Hash → Option Store
hash_clear fuel s h = table_clear fuel s h h.bsize 0

-- The loop of `hash_valid_size`, `k` rounds to go up to 31.
unfoldable pub size_loop : ℕ → ℕ → ℕ → ℕ
size_loop size zero x = x
size_loop size (suc k) x =
    let more = size_loop size k (x + 1) in if ltb (2 ^ x) size then more else x

unfoldable pub hash_valid_size : ℕ → ℕ
hash_valid_size size = 2 ^ size_loop size 31 0
