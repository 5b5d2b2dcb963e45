-- ===== src/Linked/Sorted.antt =====
-- `list_insert_sorted` of src/list/list.c keeps a list in the order of the sort handler.
use re_cpm.Base.{
  ℕ, zero, suc, ◌<◌, ◌≡◌, ◌≢◌, refl, sym, ap, subst, ◌∙◌, arith, Bool, true, false, Bool-cases, inl,
  inr, some, List, [], ◌∷◌, ◌++◌, append-nil, append_assoc, length, reverse, reverse-cons,
  reverse-reverse, length-reverse,
}
use re_cpm.Linked.{
  Store, put, set_le, list_prepend, link_head, list_insert_after, link_after, sorted_loop,
  list_insert_sorted,
}
use re_cpm.Linked.Chain.{has, last, last-append, Chain-put, Chain-other, Chain-split, put_same}
use re_cpm.Linked.World.{IsList}
use re_cpm.Linked.Append.{list_prepend-Changes}
use re_cpm.Linked.Insert.{list_insert_after-Changes}
use re_cpm.Linked.Walk.{≢-false}

-- Each element may stand before the next one; of two elements one may stand before the other.
abbrev pub IsSorted : (ℕ → ℕ → Bool) → List ℕ → Type 0
IsSorted sh [] = Unit
IsSorted sh (x ∷ []) = Unit
IsSorted sh (x ∷ y ∷ zs) = (sh x y ≡ true) × IsSorted sh (y ∷ zs)

abbrev pub IsTotal : (ℕ → ℕ → Bool) → Type 0
IsTotal sh = (a b : ℕ) → sh a b ≡ false → sh b a ≡ true

module _ (sh : ℕ → ℕ → Bool) where
  IsSorted-right : (ys zs : List ℕ) → IsSorted sh (ys ++ zs) → IsSorted sh zs
  IsSorted-right [] zs s = s
  IsSorted-right (y ∷ []) [] s = tt
  IsSorted-right (y ∷ []) (z ∷ zs) s = s.1
  IsSorted-right (y ∷ x ∷ ys) zs s = IsSorted-right (x ∷ ys) zs s.1

  -- Another element between `r` and what follows it.
  IsSorted-insert :
      (ys : List ℕ) (r i : ℕ) (zs : List ℕ)
      → IsSorted sh (ys ++ (r ∷ zs))
      → sh r i ≡ true
      → IsSorted sh (i ∷ zs)
      → IsSorted sh (ys ++ (r ∷ i ∷ zs))
  IsSorted-insert [] r i zs s h k = (h, k)
  IsSorted-insert (y ∷ []) r i zs s h k = (s.0, (h, k))
  IsSorted-insert (y ∷ x ∷ ys) r i zs s h k = (s.0, IsSorted-insert (x ∷ ys) r i zs s.1 h k)

prepend-value :
    (s : Store) (l i v : ℕ)
    → l ≢ 0
    → i ≢ 0
    → (s.le i).list ≡ 0
    → ((list_prepend s l i v).le i).value ≡ v
unfolding list_prepend link_head put
prepend-value s l i v some_l some_i free = ground arith

insert_after-value :
    (s : Store) (l e i v : ℕ)
    → l ≢ 0
    → e ≢ 0
    → i ≢ 0
    → i ≢ e
    → (s.le i).list ≡ 0
    → ((list_insert_after s l e i v).le i).value ≡ v
unfolding list_insert_after link_after put
insert_after-value s l e i v some_l some_e some_i out free = ground arith

-- Where `i` was put, in the list that had the elements `xs`.
pub record Placed (s' : Store) (l i v : ℕ) (sh : ℕ → ℕ → Bool) (xs : List ℕ) : Type 0 where
  pub before : List ℕ
  pub behind : List ℕ
  pub whole : xs ≡ before ++ behind
  pub list_is : IsList s' l (before ++ (i ∷ behind))
  pub order : IsSorted sh (before ++ (i ∷ behind))
  pub value_is : (s'.le i).value ≡ v

module _ (s : Store) (l : ℕ) (sh : ℕ → ℕ → Bool) (i : ℕ) (some_l : l ≢ 0) (some_i : i ≢ 0)
    (free : (s.le i).list ≡ 0) (total : IsTotal sh) where
  -- What is left of the place stands in `rs`, the nearest first, and what is right of it in `zs`.
  sorted_loop-Placed :
      (fuel : ℕ) (rs zs : List ℕ)
      → IsList s l (reverse rs ++ zs)
      → length rs < fuel
      → IsSorted sh (reverse rs ++ zs)
      → IsSorted sh (i ∷ zs)
      → (s' : Store) × (sorted_loop fuel s l sh i (last 0 (reverse rs)) ≡ some s')
        × Placed s' l i (s.le i).value sh (reverse rs ++ zs)
  unfolding sorted_loop
  sorted_loop-Placed zero rs zs k h o q = absurd (omega arith)
  sorted_loop-Placed (suc fuel) [] zs k h o q =
      let v = (s.le i).value in
      let c = list_prepend-Changes s l i v some_l some_i free zs k in
      (
        list_prepend s l i v,
        refl,
        record {
          before = [];
          behind = zs;
          whole = refl;
          list_is = c.new;
          order = q;
          value_is = prepend-value s l i v some_l some_i free;
        },
      )
  sorted_loop-Placed (suc fuel) (r ∷ rs) zs k h o q =
      let v = (s.le i).value in
      let w : reverse (r ∷ rs) ++ zs ≡ reverse rs ++ (r ∷ zs) =
        ap (λ t. t ++ zs) (reverse-cons r rs) ∙ append_assoc (reverse rs) (r ∷ []) zs in
      let k' : IsList s l (reverse rs ++ (r ∷ zs)) = subst (IsList s l) w k in
      let o' : IsSorted sh (reverse rs ++ (r ∷ zs)) = subst (IsSorted sh) w o in
      let (early, late, apart) = Chain-split s.le l 0 (reverse rs) (r ∷ zs) 0 k'.chain in
      let at : last 0 (reverse (r ∷ rs)) ≡ r =
        ap (last 0) (reverse-cons r rs) ∙ last-append 0 (reverse rs) (r ∷ []) in
      let some_r : r ≢ 0 = late.0.there in
      elim (Bool-cases (sh r i)) [
        | inl here ↦
            let out : i ≢ r =
              λ z. some_l (sym late.0.list_is ∙ ap (λ x. (s.le x).list) (sym z) ∙ free) in
            let c = list_insert_after-Changes s l r i v some_l some_i free (reverse rs) zs k' in
            (
              list_insert_after s l r i v,
              rw (at, ≢-false r some_r, here) refl,
              record {
                before = reverse rs ++ (r ∷ []);
                behind = zs;
                whole = ap (λ t. t ++ zs) (reverse-cons r rs);
                list_is =
                    subst (IsList _ l) (sym (append_assoc (reverse rs) (r ∷ []) (i ∷ zs))) c.new;
                order =
                    subst (IsSorted sh) (sym (append_assoc (reverse rs) (r ∷ []) (i ∷ zs)))
                      (IsSorted-insert sh (reverse rs) r i zs o' here q);
                value_is = insert_after-value s l r i v some_l some_r some_i out free;
              },
            )
        | inr on ↦
            let (s', e, p) =
              sorted_loop-Placed fuel rs (r ∷ zs) k' (omega arith) o'
                (total r i on, IsSorted-right sh (reverse rs) (r ∷ zs) o') in
            (
              s',
              rw (at, ≢-false r some_r, on, late.0.prev_is) e,
              record {
                before = p.before;
                behind = p.behind;
                whole = w ∙ p.whole;
                list_is = p.list_is;
                order = p.order;
                value_is = p.value_is;
              },
            )
      ]

-- With a total order, `list_insert_sorted` of an element that is in no list into a sorted list
-- returns, given a round for each element and one more; the element stands somewhere between the
-- others with its data pointer, and the list is sorted.
pub list_insert_sorted-Placed :
    (fuel : ℕ) (s : Store) (l : ℕ) (sh : ℕ → ℕ → Bool) (i v : ℕ) (xs : List ℕ)
    → l ≢ 0
    → i ≢ 0
    → (s.le i).list ≡ 0
    → IsTotal sh
    → IsList s l xs
    → IsSorted sh xs
    → length xs < fuel
    → (s' : Store) × (list_insert_sorted fuel s l sh i v ≡ some s') × Placed s' l i v sh xs
unfolding list_insert_sorted
list_insert_sorted-Placed fuel s l sh i v xs some_l some_i free total k o h =
    let c = record (s.le i) { value = v } in
    let s0 = set_le s i c in
    let same : s0.le i ≡ c = put_same s.le i c in
    let out : has i xs ≡ false = Chain-other s.le l i 0 xs 0 (λ z. some_l (sym z ∙ free)) k.chain in
    let twice : xs ≡ reverse (reverse xs) ++ [] =
      sym (reverse-reverse xs) ∙ sym (append-nil (reverse (reverse xs))) in
    let k0 : IsList s0 l xs = record {
      head_is = k.head_is;
      tail_is = k.tail_is;
      chain = Chain-put s.le l i c 0 xs 0 out k.chain;
    } in
    let (s', e, p) =
      sorted_loop-Placed s0 l sh i some_l some_i (ap (λ x. x.list) same ∙ free) total fuel
        (reverse xs) [] (subst (IsList s0 l) twice k0) (omega (arith, length-reverse {0} xs))
        (subst (IsSorted sh) twice o) tt in
    (
      s',
      rw (≢-false l some_l, k.tail_is)
          (ap (λ t. sorted_loop fuel s0 l sh i (last 0 t)) (sym (reverse-reverse xs)) ∙ e),
      record {
        before = p.before;
        behind = p.behind;
        whole = twice ∙ p.whole;
        list_is = p.list_is;
        order = p.order;
        value_is = p.value_is ∙ ap (λ x. x.value) same;
      },
    )
