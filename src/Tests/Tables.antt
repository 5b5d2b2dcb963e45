-- ===== src/Tests/Tables.antt =====
-- Runs of src/hash/hash.c, on the lists of the runs of src/list/list.c: two buckets, the first of
-- them the list at 1.
use re_cpm.Base.{
  ℕ, zero, suc, ap, sym, ◌∙◌, Bool-cases, inl, inr, ◌<◌, ◌≡◌, ◌≢◌, refl, arith, ◌==◌, if◌then◌else◌,
  true, some, [], ◌∷◌, ◌++◌, bit_and,
}
use re_cpm.Linked.{put}
use re_cpm.Linked.Chain.{has}
use re_cpm.Linked.Spec.{Lists}
use re_cpm.Linked.Refine.{Stands}
use re_cpm.Hash.Table.{Hash, bucket_at, hash_list, hash_append, hash_lookup}
use re_cpm.Hash.Table.Lookup.{IsTable, hash_lookup-finds, hash_append-IsTable}
use re_cpm.Tests.Lists.{two, view, two-Stands}

abbrev table : Hash
table = record { bucket = 1; bsize = 2 }

-- The key of the element 7 is 1, and that of the others is 4.
abbrev key_of : ℕ → ℕ
key_of e = if e == 7 then 1 else 4

in_bucket :
    (i e : ℕ) → i < 2 → has e (view.members (bucket_at table i)) ≡ true → bit_and (key_of e) 1 ≡ i
in_bucket zero e inside here = elim (Bool-cases (e == 7)) [
  | inl seven ↦
      let e7 : e ≡ 7 = ground arith in
      let gone : has 7 (5 ∷ 6 ∷ []) ≡ true = ap (λ x. has x (5 ∷ 6 ∷ [])) (sym e7) ∙ here in
      absurd (cc)
  | inr other ↦ rw other refl
]
in_bucket (suc zero) e inside here = absurd (cc)
in_bucket (suc (suc i)) e inside here = absurd (omega arith)

view-IsTable : IsTable view table key_of
view-IsTable = record {
  there = λ e. omega (arith, e);
  sorted = λ i e inside here. in_bucket i e inside here;
}

hash_lookup-finds_example :
    (x : ℕ) × (hash_lookup 3 two table 4 (λ e. e == 6) ≡ some x) × ((x == 6) ≡ true) × (x ≢ 0)
hash_lookup-finds_example =
    hash_lookup-finds two view two-Stands table key_of view-IsTable 3 4 (λ e. e == 6) 0 6
      (λ x y. ground arith) (omega arith) (omega arith) refl refl

hash_append-IsTable_example :
    let l = hash_list table 1 in
    let a' : Lists = record {
      members = put view.members l (view.members l ++ (7 ∷ []));
      owner = put view.owner 7 l;
    } in
    Stands (hash_append two table 1 7 70) a' × IsTable a' table key_of
hash_append-IsTable_example =
    hash_append-IsTable two view two-Stands table key_of view-IsTable 7 70 1 (λ e. omega (arith, e))
      refl refl
