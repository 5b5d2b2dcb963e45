-- ===== src/Linked/Sort.antt =====
-- `list_sort` of src/list/list.c returns, with the list sorted.
use re_cpm.Base.{
  ℕ, zero, suc, ◌<◌, ◌≡◌, ◌≢◌, refl, sym, ap, subst, ◌∙◌, arith, Bool, true, false, ◌||◌,
  if◌then◌else◌, Bool-cases, inl, inr, some, List, [], ◌∷◌, ◌++◌, append_assoc, length,
}
use mathlib.Core.List.{Perm}
use mathlib.Core.List.Perm
use re_cpm.Linked.{Store, list_unlink, list_insert_after, sort_pass, list_sort}
use re_cpm.Linked.Chain.{Chain-split}
use re_cpm.Linked.World.{IsList}
use re_cpm.Linked.Unlink.{list_unlink-Removes, list_unlink-Changes}
use re_cpm.Linked.Insert.{list_insert_after-Changes}
use re_cpm.Linked.Walk.{≢-false}
use re_cpm.Linked.Sorted.{IsSorted, IsTotal}
use re_cpm.Linked.Bubble.{
  bubble, swaps, inversions, inversions-bubble, IsSorted-bubble, Perm-bubble,
}

module _ (l : ℕ) (sh : ℕ → ℕ → Bool) (some_l : l ≢ 0) where
  -- One swap of neighbours, as `list_sort` does it.
  swap-IsList :
      (s : Store) (ys : List ℕ) (e z v : ℕ) (zs : List ℕ)
      → IsList s l (ys ++ (e ∷ z ∷ zs))
      → IsList (list_insert_after (list_unlink s e) l z e v) l (ys ++ (z ∷ e ∷ zs))
  swap-IsList s ys e z v zs k =
      let (early, late, apart) = Chain-split s.le l 0 ys (e ∷ z ∷ zs) 0 k.chain in
      let r = list_unlink-Removes s l e some_l ys (z ∷ zs) k in
      let c = list_unlink-Changes s l e some_l ys (z ∷ zs) k in
      (list_insert_after-Changes (list_unlink s e) l z e v some_l late.0.there
        (ap (λ c. c.list) r.at) ys zs c.new).new

  sort_pass-eq :
      (fuel : ℕ) (s : Store) (ys : List ℕ) (e : ℕ) (zs : List ℕ) (b : Bool)
      → IsList s l (ys ++ (e ∷ zs))
      → length zs < fuel
      → (s' : Store) × (sort_pass fuel s l sh e b ≡ some (s', b || swaps sh e zs))
        × IsList s' l (ys ++ bubble sh e zs)
  unfolding sort_pass
  sort_pass-eq zero s ys e zs b k h = absurd (omega arith)
  sort_pass-eq (suc fuel) s ys e [] b k h =
      let (early, late, apart) = Chain-split s.le l 0 ys (e ∷ []) 0 k.chain in
      (s, rw (≢-false e late.0.there, late.0.next_is) (ground arith), k)
  sort_pass-eq (suc fuel) s ys e (z ∷ zs) b k h =
      let (early, late, apart) = Chain-split s.le l 0 ys (e ∷ z ∷ zs) 0 k.chain in
      let some_e = ≢-false e late.0.there in
      let some_z = ≢-false z late.2.0.there in
      elim (Bool-cases (sh e z)) [
        | inl fine ↦
            let (s', g, k') =
              sort_pass-eq fuel s (ys ++ (e ∷ [])) z zs b
                (subst (IsList s l) (sym (append_assoc ys (e ∷ []) (z ∷ zs))) k) (omega arith) in
            (
              s',
              rw (some_e, late.0.next_is, some_z, fine) g,
              rw fine (subst (IsList s' l) (append_assoc ys (e ∷ []) (bubble sh z zs)) k'),
            )
        | inr wrong_way ↦
            let v = ((list_unlink s e).le e).value in
            let s1 = list_insert_after (list_unlink s e) l z e v in
            let (s', g, k') =
              sort_pass-eq fuel s1 (ys ++ (z ∷ [])) e zs true
                (subst (IsList s1 l) (sym (append_assoc ys (z ∷ []) (e ∷ zs)))
                  (swap-IsList s ys e z v zs k))
                (omega arith) in
            (
              s',
              rw (some_e, late.0.next_is, some_z, wrong_way) (g ∙ ground arith),
              rw wrong_way (subst (IsList s' l) (append_assoc ys (z ∷ []) (bubble sh e zs)) k'),
            )
      ]

  length-bubble : (e : ℕ) (zs : List ℕ) → length (bubble sh e zs) ≡ suc (length zs)
  length-bubble e [] = refl
  length-bubble e (z ∷ zs) = ground (arith, length-bubble z zs, length-bubble e zs)

sort_step :
    (fuel rounds : ℕ) (s s' : Store) (l : ℕ) (sh : ℕ → ℕ → Bool) (e : ℕ) (b c : Bool)
    → (s.ends l).head ≡ e
    → sort_pass rounds s l sh e false ≡ some (s', b)
    → b ≡ c
    → list_sort (suc fuel) rounds s l sh ≡ (if c then list_sort fuel rounds s' l sh else some s')
unfolding list_sort
sort_step fuel rounds s s' l sh e b c at h same =
    rw (list_sort, at, h) (ap (λ t. if t then list_sort fuel rounds s' l sh else some s') same)

-- With a total order, `list_sort` of a list returns, given a pass for each pair that stands the
-- wrong way round and one more, and in each pass a round for each element and one more; what stands
-- in the list is a permutation of what stood there, and it is sorted.
pub list_sort-IsSorted :
    (fuel rounds : ℕ) (s : Store) (l : ℕ) (sh : ℕ → ℕ → Bool) (xs : List ℕ)
    → l ≢ 0
    → IsTotal sh
    → IsList s l xs
    → inversions sh xs < fuel
    → length xs < rounds
    → (s' : Store) × (ys : List ℕ) × (list_sort fuel rounds s l sh ≡ some s')
      × IsList s' l ys
      × IsSorted sh ys
      × Perm ys xs
unfolding list_sort sort_pass
list_sort-IsSorted zero rounds s l sh xs some_l total k h j = absurd (omega arith)
list_sort-IsSorted (suc fuel) zero s l sh xs some_l total k h j = absurd (omega arith)
list_sort-IsSorted (suc fuel) (suc rounds) s l sh [] some_l total k h j =
    (s, [], rw (k.head_is, list_sort, sort_pass) refl, k, tt, Perm.refl [])
list_sort-IsSorted (suc fuel) rounds s l sh (x ∷ xs) some_l total k h j =
    let (s', g, k') = sort_pass-eq l sh some_l rounds s [] x xs false k (omega arith) in
    let fewer = inversions-bubble sh total x xs in
    elim (Bool-cases (swaps sh x xs)) [
      | inl swapped ↦
          let less : inversions sh (bubble sh x xs) < inversions sh (x ∷ xs) = ground arith in
          let (s2, ys, g2, k2, o, p) =
            list_sort-IsSorted fuel rounds s' l sh (bubble sh x xs) some_l total k' (omega arith)
              (omega (arith, length-bubble l sh some_l x xs)) in
          (
            s2,
            ys,
            sort_step fuel rounds s s' l sh x _ true k.head_is g swapped ∙ g2,
            k2,
            o,
            Perm.trans p (Perm-bubble sh x xs),
          )
      | inr quiet ↦
          let (same, o) = IsSorted-bubble sh x xs quiet in
          (
            s',
            x ∷ xs,
            sort_step fuel rounds s s' l sh x _ false k.head_is g quiet,
            subst (IsList s' l) same k',
            o,
            Perm.refl (x ∷ xs),
          )
    ]
