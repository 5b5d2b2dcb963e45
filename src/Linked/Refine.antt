-- ===== src/Linked/Refine.antt =====
-- The calls of src/list/list.c do to the store what Linked/Spec says they do to the sequences.
use re_cpm.Base.{
  ℕ, ◌≡◌, ◌≢◌, ◌⊎◌, sym, ap, subst, ◌∙◌, arith, true, ◌==◌, ==_iff, Bool-cases, inl, inr, List, [],
  ◌∷◌, ◌++◌,
}
use re_cpm.Linked.{
  Store, put, list_append, list_prepend, list_insert_before, list_insert_after, list_unlink,
  unlink_from,
}
use re_cpm.Linked.Chain.{has, has-append, Chain-list, put_same, put_other}
use re_cpm.Linked.World.{IsList, Rep, Rep-Changes, Changes, ≢-of}
use re_cpm.Linked.Append.{list_append-Changes, list_prepend-Changes}
use re_cpm.Linked.Insert.{list_insert_before-Changes, list_insert_after-Changes}
use re_cpm.Linked.Unlink.{list_unlink-Changes}
use re_cpm.Linked.Spec.{
  Lists, Call, append, prepend, insert_before, insert_after, unlink, move, run, IsAllowed,
  put_before, put_after, without, join, leave, spec, member_split, put_before-at, put_after-at,
  without-at,
}

-- The store stands for the sequences.
pub record Stands (s : Store) (a : Lists) : Type 0 where
  pub rep : Rep s a.members
  pub owner_is : (e : ℕ) → (s.le e).list ≡ a.owner e

module _ (s : Store) (a : Lists) (r : Stands s a) where
  -- The owners after a change of one element.
  owners :
      (s' : Store) (l e k : ℕ) (xs xs' : List ℕ)
      → Changes s s' l e xs xs'
      → (s'.le e).list ≡ k
      → (x : ℕ) → (s'.le x).list ≡ put a.owner e k x
  owners s' l e k xs xs' c at x = elim (Bool-cases (x == e)) [
    | inl same ↦
        let is : x ≡ e = (==_iff x e).0 same in
        ap (λ y. (s'.le y).list) is
        ∙ at
        ∙ sym (put_same a.owner e k)
        ∙ ap (put a.owner e k) (sym is)
    | inr other ↦
        c.links x (≢-of x e other) ∙ r.owner_is x ∙ sym (put_other a.owner e k x (≢-of x e other))
  ]

  -- A free element that is put among the members of `l`.
  joined :
      (s' : Store) (l e : ℕ) (xs' : List ℕ)
      → l ≢ 0
      → a.owner e ≡ 0
      → has e xs' ≡ true
      → Changes s s' l e (a.members l) xs'
      → Stands s' (record { members = put a.members l xs'; owner = put a.owner e l })
  joined s' l e xs' some_l free i c = record {
    rep = Rep-Changes s s' a.members l e xs' r.rep some_l (inl (r.owner_is e ∙ free)) c;
    owner_is = owners s' l e l (a.members l) xs' c (Chain-list s'.le l e 0 xs' 0 c.new.chain i);
  }

  -- A call that does nothing where its guards stop it, and otherwise makes `e` a member.
  join-Stands :
      (s' : Store) (l e : ℕ) (xs' : List ℕ)
      → (l ≡ 0 → s' ≡ s)
      → (e ≡ 0 → s' ≡ s)
      → ((s.le e).list ≢ 0 → s' ≡ s)
      → (l ≢ 0 → e ≢ 0 → (s.le e).list ≡ 0 → Changes s s' l e (a.members l) xs')
      → has e xs' ≡ true
      → Stands s' (join a l e xs')
  join-Stands s' l e xs' no_l no_e taken c i = elim (Bool-cases (l == 0)) [
    | inl z ↦ rw z (subst (λ t. Stands t a) (sym (no_l ((==_iff l 0).0 z))) r)
    | inr some_l ↦ elim (Bool-cases (e == 0)) [
      | inl z ↦ rw (some_l, z) (subst (λ t. Stands t a) (sym (no_e ((==_iff e 0).0 z))) r)
      | inr some_e ↦ elim (Bool-cases (a.owner e == 0)) [
        | inl free ↦
            let f : a.owner e ≡ 0 = (==_iff (a.owner e) 0).0 free in
            rw (some_l, some_e, free)
              (joined s' l e xs' (≢-of l 0 some_l) f i
                (c (≢-of l 0 some_l) (≢-of e 0 some_e) (r.owner_is e ∙ f)))
        | inr busy ↦
            rw (some_l, some_e, busy)
              (subst (λ t. Stands t a)
                (sym (taken (λ z. ≢-of (a.owner e) 0 busy (sym (r.owner_is e) ∙ z)))) r)
      ]
    ]
  ]

  -- The guards of the insertions.
  append-guards :
      (l e v : ℕ)
      → ((l ≡ 0 → list_append s l e v ≡ s)
          × (e ≡ 0 → list_append s l e v ≡ s)
          × ((s.le e).list ≢ 0 → list_append s l e v ≡ s))
  unfolding list_append
  append-guards l e v = (λ z. ground arith, λ z. ground arith, λ f. ground arith)

  prepend-guards :
      (l e v : ℕ)
      → ((l ≡ 0 → list_prepend s l e v ≡ s)
          × (e ≡ 0 → list_prepend s l e v ≡ s)
          × ((s.le e).list ≢ 0 → list_prepend s l e v ≡ s))
  unfolding list_prepend
  prepend-guards l e v = (λ z. ground arith, λ z. ground arith, λ f. ground arith)

  before-guards :
      (l e i v : ℕ)
      → ((l ≡ 0 → list_insert_before s l e i v ≡ s)
          × (i ≡ 0 → list_insert_before s l e i v ≡ s)
          × ((s.le i).list ≢ 0 → list_insert_before s l e i v ≡ s))
  unfolding list_insert_before
  before-guards l e i v = (λ z. ground arith, λ z. ground arith, λ f. ground arith)

  after-guards :
      (l e i v : ℕ)
      → ((l ≡ 0 → list_insert_after s l e i v ≡ s)
          × (i ≡ 0 → list_insert_after s l e i v ≡ s)
          × ((s.le i).list ≢ 0 → list_insert_after s l e i v ≡ s))
  unfolding list_insert_after
  after-guards l e i v = (λ z. ground arith, λ z. ground arith, λ f. ground arith)

  has-middle : (i : ℕ) (ys zs : List ℕ) → has i (ys ++ (i ∷ zs)) ≡ true
  has-middle i ys zs = ground (arith, has-append i ys (i ∷ zs))

  insert_before-Stands :
      (l e i v : ℕ)
      → has e (a.members l) ≡ true
      → Stands (list_insert_before s l e i v) (spec a (insert_before l e i v))
  insert_before-Stands l e i v member =
      let (ys, zs, at, out) = member_split e (a.members l) member in
      let new : put_before e i (a.members l) ≡ ys ++ (i ∷ e ∷ zs) =
        ap (put_before e i) at ∙ put_before-at e zs i ys out in
      let (no_l, no_i, taken) = before-guards l e i v in
      join-Stands (list_insert_before s l e i v) l i (put_before e i (a.members l)) no_l no_i taken
        (λ some_l some_i free.
          subst (λ t. Changes s (list_insert_before s l e i v) l i t (put_before e i (a.members l)))
            (sym at)
            (subst (λ t. Changes s (list_insert_before s l e i v) l i (ys ++ (e ∷ zs)) t) (sym new)
              (list_insert_before-Changes s l e i v some_l some_i free ys zs
                (subst (IsList s l) at (r.rep.lists l some_l)))))
        (ap (has i) new ∙ has-middle i ys (e ∷ zs))

  insert_after-Stands :
      (l e i v : ℕ)
      → has e (a.members l) ≡ true
      → Stands (list_insert_after s l e i v) (spec a (insert_after l e i v))
  insert_after-Stands l e i v member =
      let (ys, zs, at, out) = member_split e (a.members l) member in
      let new : put_after e i (a.members l) ≡ ys ++ (e ∷ i ∷ zs) =
        ap (put_after e i) at ∙ put_after-at e zs i ys out in
      let (no_l, no_i, taken) = after-guards l e i v in
      join-Stands (list_insert_after s l e i v) l i (put_after e i (a.members l)) no_l no_i taken
        (λ some_l some_i free.
          subst (λ t. Changes s (list_insert_after s l e i v) l i t (put_after e i (a.members l)))
            (sym at)
            (subst (λ t. Changes s (list_insert_after s l e i v) l i (ys ++ (e ∷ zs)) t) (sym new)
              (list_insert_after-Changes s l e i v some_l some_i free ys zs
                (subst (IsList s l) at (r.rep.lists l some_l)))))
        (ap (has i) new ∙ has-append i ys (e ∷ i ∷ zs) ∙ ground arith)

  unlinked_owner : (e : ℕ) → e ≢ 0 → (s.le e).list ≢ 0 → ((list_unlink s e).le e).list ≡ 0
  unfolding list_unlink unlink_from put
  unlinked_owner e some_e f = ground arith

  not_linked : (e : ℕ) → (e ≡ 0) ⊎ ((s.le e).list ≡ 0) → list_unlink s e ≡ s
  unfolding list_unlink
  not_linked e (inl z) = ground arith
  not_linked e (inr z) = ground arith

  left_list :
      (e : ℕ)
      → e ≢ 0
      → a.owner e ≢ 0
      → Stands (list_unlink s e) (record {
        members = put a.members (a.owner e) (without e (a.members (a.owner e)));
        owner = put a.owner e 0;
      })
  left_list e some_e some_l =
      let l = a.owner e in
      let linked : (s.le e).list ≢ 0 = λ z. some_l (sym (r.owner_is e) ∙ z) in
      let member : has e (a.members l) ≡ true =
        ap (λ k. has e (a.members k)) (sym (r.owner_is e)) ∙ r.rep.owned e linked in
      let (ys, zs, at, out) = member_split e (a.members l) member in
      let new : without e (a.members l) ≡ ys ++ zs = ap (without e) at ∙ without-at e zs ys out in
      let c : Changes s (list_unlink s e) l e (a.members l) (without e (a.members l)) =
        subst (λ t. Changes s (list_unlink s e) l e t (without e (a.members l))) (sym at)
          (subst (λ t. Changes s (list_unlink s e) l e (ys ++ (e ∷ zs)) t) (sym new)
            (list_unlink-Changes s l e some_l ys zs
              (subst (IsList s l) at (r.rep.lists l some_l)))) in
      record {
        rep =
            Rep-Changes s (list_unlink s e) a.members l e (without e (a.members l)) r.rep some_l
              (inr (r.owner_is e)) c;
        owner_is =
            owners (list_unlink s e) l e 0 (a.members l) (without e (a.members l)) c
              (unlinked_owner e some_e linked);
      }

  unlink-Stands : (e : ℕ) → Stands (list_unlink s e) (leave a e)
  unlink-Stands e = elim (Bool-cases (e == 0)) [
    | inl z ↦ rw z (subst (λ t. Stands t a) (sym (not_linked e (inl ((==_iff e 0).0 z)))) r)
    | inr some_e ↦ elim (Bool-cases (a.owner e == 0)) [
      | inl free ↦
          rw (some_e, free)
            (subst (λ t. Stands t a)
              (sym (not_linked e (inr (r.owner_is e ∙ (==_iff (a.owner e) 0).0 free)))) r)
      | inr busy ↦ rw (some_e, busy) (left_list e (≢-of e 0 some_e) (≢-of (a.owner e) 0 busy))
    ]
  ]

  append-Stands : (l e v : ℕ) → Stands (list_append s l e v) (spec a (append l e v))
  append-Stands l e v =
      let (no_l, no_e, taken) = append-guards l e v in
      join-Stands (list_append s l e v) l e (a.members l ++ (e ∷ [])) no_l no_e taken
        (λ some_l some_e free.
          list_append-Changes s l e v some_l some_e free (a.members l) (r.rep.lists l some_l))
        (ground (arith, has-append e (a.members l) (e ∷ [])))

-- Refinement: from a store that stands for the sequences `a`, each call of the list functions, an
-- insertion at a member of its list, leads to a store that stands for what the call makes of `a`.
pub run-spec :
    (s : Store) (a : Lists) (c : Call) → Stands s a → IsAllowed a c → Stands (run s c) (spec a c)
run-spec s a (append l e v) r h = append-Stands s a r l e v
run-spec s a (prepend l e v) r h =
    let (no_l, no_e, taken) = prepend-guards s a r l e v in
    join-Stands s a r (list_prepend s l e v) l e (e ∷ a.members l) no_l no_e taken
      (λ some_l some_e free.
        list_prepend-Changes s l e v some_l some_e free (a.members l) (r.rep.lists l some_l))
      (ground arith)
run-spec s a (insert_before l e i v) r h = insert_before-Stands s a r l e i v h
run-spec s a (insert_after l e i v) r h = insert_after-Stands s a r l e i v h
run-spec s a (unlink e) r h = unlink-Stands s a r e
run-spec s a (move e l) r h =
    append-Stands (list_unlink s e) (leave a e) (unlink-Stands s a r e) l e
      ((list_unlink s e).le e).value
