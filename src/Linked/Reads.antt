-- ===== src/Linked/Reads.antt =====
-- What the calls of src/list/list.c and include/re/re_list.h read off a list.
use re_cpm.Base.{
  ℕ, ◌≡◌, ◌≢◌, refl, sym, ap, ◌∙◌, arith, Bool, true, false, ◌==◌, ==_iff, Bool-cases, inl, inr,
  List, [], ◌∷◌,
}
use re_cpm.Linked.{Store, list_head, list_tail, list_contains, list_isempty}
use re_cpm.Linked.Chain.{has, first, last, Chain-list, Chain-null}
use re_cpm.Linked.World.{Rep, ≢-of}
use re_cpm.Linked.Walk.{≢-false}

abbrev pub is_nil : List ℕ → Bool
is_nil [] = true
is_nil (x ∷ xs) = false

null_first : (xs : List ℕ) → has 0 xs ≡ false → (first xs 0 == 0) ≡ is_nil xs
null_first [] h = refl
null_first (x ∷ xs) h = ground arith

-- In a store that stands for sequences, a list is empty, has its first and its last element, and
-- contains an element other than NULL as its sequence does.
pub reads-Rep :
    (s : Store) (m : ℕ → List ℕ) (l e : ℕ)
    → Rep s m
    → l ≢ 0
    → e ≢ 0
    → (list_isempty s l ≡ is_nil (m l))
      × (list_head s l ≡ first (m l) 0)
      × (list_tail s l ≡ last 0 (m l))
      × (list_contains s l e ≡ has e (m l))
reads-Rep s m l e r some_l some_e =
    let k = r.lists l some_l in
    let null : has 0 (m l) ≡ false = Chain-null s.le l 0 (m l) 0 k.chain in
    (
      rw (≢-false l some_l, k.head_is) (null_first (m l) null),
      rw (≢-false l some_l) k.head_is,
      rw (≢-false l some_l) k.tail_is,
      rw (≢-false e some_e) (elim (Bool-cases ((s.le e).list == l)) [
        | inl here ↦
            let at : (s.le e).list ≡ l = (==_iff (s.le e).list l).0 here in
            here ∙ sym (ap (λ t. has e (m t)) (sym at) ∙ r.owned e (λ z. some_l (sym at ∙ z)))
        | inr other ↦ elim (Bool-cases (has e (m l))) [
          | inl inside ↦
              absurd (≢-of (s.le e).list l other (Chain-list s.le l e 0 (m l) 0 k.chain inside))
          | inr out ↦ other ∙ sym out
        ]
      ]),
    )
