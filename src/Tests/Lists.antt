-- ===== src/Tests/Lists.antt =====
-- Runs of src/list/list.c: the list at 1 has the elements 5 and 6, the element 7 is free.
use re_cpm.Base.{
  ℕ, ◌≡◌, ◌≢◌, refl, sym, subst, arith, Bool, false, ◌==◌, ==_iff, if◌then◌else◌, leb, Bool-cases,
  inl, inr, some, List, [], ◌∷◌,
}
use mathlib.Core.List.{Perm}
use re_cpm.Linked.{
  Le, Store, put, list_insert_before, link_before, list_apply, list_insert_sorted, list_flush,
  list_sort,
}
use re_cpm.Linked.World.{IsList}
use re_cpm.Linked.Spec.{Lists, insert_before, run, spec}
use re_cpm.Linked.Refine.{Stands, run-spec}
use re_cpm.Linked.Walk.{list_apply-eq}
use re_cpm.Linked.Sorted.{IsSorted, IsTotal, Placed, list_insert_sorted-Placed}
use re_cpm.Linked.Clear.{Frees}
use re_cpm.Linked.Flush.{list_flush-Frees}
use re_cpm.Linked.Sort.{list_sort-IsSorted}

abbrev pub no_le : Le
no_le = record { prev = 0; next = 0; list = 0; value = 0 }

abbrev pub two : Store
two = record {
  le = λ a.
      if a == 5
      then record { prev = 0; next = 6; list = 1; value = 50 }
      else if a == 6
      then record { prev = 5; next = 0; list = 1; value = 60 }
      else no_le;
  ends = λ k. if k == 1 then record { head = 5; tail = 6 } else record { head = 0; tail = 0 };
}

abbrev pub members : ℕ → List ℕ
members k = if k == 1 then 5 ∷ 6 ∷ [] else []

abbrev pub owner : ℕ → ℕ
owner e = if e == 5 then 1 else if e == 6 then 1 else 0

abbrev pub view : Lists
view = record { members = members; owner = owner }

two-IsList : IsList two 1 (5 ∷ 6 ∷ [])
two-IsList = record {
  head_is = refl;
  tail_is = refl;
  chain = (
    record { there = λ z. absurd (omega arith); prev_is = refl; next_is = refl; list_is = refl },
    refl,
    (
      record { there = λ z. absurd (omega arith); prev_is = refl; next_is = refl; list_is = refl },
      refl,
      tt,
    ),
  );
}

none-IsList : (k : ℕ) → (k == 1) ≡ false → IsList two k []
none-IsList k other = record { head_is = rw other refl; tail_is = rw other refl; chain = tt }

pub two-Stands : Stands two view
two-Stands = record {
  rep = record {
    lists = λ k some_k. elim (Bool-cases (k == 1)) [
      | inl same ↦
          rw same (subst (λ x. IsList two x (5 ∷ 6 ∷ [])) (sym ((==_iff k 1).0 same)) two-IsList)
      | inr other ↦ rw other (none-IsList k other)
    ];
    owned = λ e linked. ground arith;
  };
  owner_is = λ e. ground arith;
}

-- The links of an element, and the ends of a list.
abbrev links : Store → ℕ → ℕ → (ℕ × ℕ × ℕ × ℕ) × (ℕ × ℕ)
links s e l = (
  ((s.le e).prev, (s.le e).next, (s.le e).list, (s.le e).value),
  ((s.ends l).head, (s.ends l).tail),
)

inserted : links (run two (insert_before 1 5 7 70)) 7 1 ≡ ((0, 5, 1, 70), (7, 6))
unfolding list_insert_before link_before put
inserted = refl

run-spec_example : Stands (run two (insert_before 1 5 7 70)) (spec view (insert_before 1 5 7 70))
run-spec_example = run-spec two view (insert_before 1 5 7 70) two-Stands refl

list_apply-eq_example : list_apply 3 two 1 false (λ e. leb e 6) ≡ some 6
list_apply-eq_example =
    list_apply-eq 3 two 1 (5 ∷ 6 ∷ []) false (λ e. leb e 6) (λ z. absurd (omega arith)) two-IsList
      (omega arith)

abbrev by_address : ℕ → ℕ → Bool
by_address a b = leb a b

by_address-IsTotal : IsTotal by_address
by_address-IsTotal a b h = ground arith

list_insert_sorted-Placed_example :
    (s' : Store) × (list_insert_sorted 3 two 1 by_address 4 40 ≡ some s')
    × Placed s' 1 4 40 by_address (5 ∷ 6 ∷ [])
list_insert_sorted-Placed_example =
    list_insert_sorted-Placed 3 two 1 by_address 4 40 (5 ∷ 6 ∷ []) (λ z. absurd (omega arith))
      (λ z. absurd (omega arith)) refl by_address-IsTotal two-IsList (refl, tt) (omega arith)

list_flush-Frees_example :
    (s' : Store) × (list_flush 3 two 1 ≡ some (s', 50 ∷ 60 ∷ []))
    × IsList s' 1 []
    × Frees two s' (5 ∷ 6 ∷ [])
    × ((k : ℕ) → k ≢ 1 → s'.ends k ≡ two.ends k)
list_flush-Frees_example =
    list_flush-Frees 3 two 1 (5 ∷ 6 ∷ []) (λ z. absurd (omega arith)) two-IsList (omega arith)

-- The other way round, so that the two are swapped.
abbrev downwards : ℕ → ℕ → Bool
downwards a b = leb b a

downwards-IsTotal : IsTotal downwards
downwards-IsTotal a b h = ground arith

list_sort-IsSorted_example :
    (s' : Store) × (ys : List ℕ) × (list_sort 2 3 two 1 downwards ≡ some s')
    × IsList s' 1 ys
    × IsSorted downwards ys
    × Perm ys (5 ∷ 6 ∷ [])
list_sort-IsSorted_example =
    list_sort-IsSorted 2 3 two 1 downwards (5 ∷ 6 ∷ []) (λ z. absurd (omega arith))
      downwards-IsTotal two-IsList (omega arith) (omega arith)
