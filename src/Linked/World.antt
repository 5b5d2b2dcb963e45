-- ===== src/Linked/World.antt =====
-- All lists of a store at once, against the sequences of elements that they stand for.
use re_cpm.Base.{
  ℕ, ◌≡◌, ◌≢◌, ◌⊎◌, inl, inr, sym, ap, subst, ◌∙◌, arith, true, false, ◌==◌, ==_iff, Bool-cases,
  List, [], ◌∷◌,
}
use re_cpm.Linked.{Le, Store, put}
use re_cpm.Linked.Chain.{
  has, first, last, Chain, Chain-frame, Chain-list, Chain-other, Chain-set_next, Chain-set_prev,
}

-- The list at `l` has the elements `xs`, both ways.
pub record IsList (s : Store) (l : ℕ) (xs : List ℕ) : Type 0 where
  pub head_is : (s.ends l).head ≡ first xs 0
  pub tail_is : (s.ends l).tail ≡ last 0 xs
  pub chain : Chain s.le l 0 xs 0

-- Every list of the store, and every linked element in the list that it names.
pub record Rep (s : Store) (m : ℕ → List ℕ) : Type 0 where
  pub lists : (l : ℕ) → l ≢ 0 → IsList s l (m l)
  pub owned : (e : ℕ) → (s.le e).list ≢ 0 → has e (m (s.le e).list) ≡ true

-- The successor of the last element is `m`, or the predecessor of the first is `q`.
abbrev pub relink_next : (ℕ → Le) → List ℕ → ℕ → ℕ → Le
relink_next h [] m = h
relink_next h (x ∷ xs) m = put h (last x xs) (record (h (last x xs)) { next = m })

abbrev pub relink_prev : (ℕ → Le) → List ℕ → ℕ → ℕ → Le
relink_prev h [] q = h
relink_prev h (x ∷ xs) q = put h x (record (h x) { prev = q })

pub Chain-relink_next :
    (h : ℕ → Le) (l p : ℕ) (xs : List ℕ) (n m : ℕ)
    → Chain h l p xs n
    → Chain (relink_next h xs m) l p xs m
Chain-relink_next h l p [] n m c = tt
Chain-relink_next h l p (x ∷ xs) n m c = Chain-set_next h l p x xs n m c

pub Chain-relink_prev :
    (h : ℕ → Le) (l p : ℕ) (xs : List ℕ) (n q : ℕ)
    → Chain h l p xs n
    → Chain (relink_prev h xs q) l q xs n
Chain-relink_prev h l p [] n q c = tt
Chain-relink_prev h l p (x ∷ xs) n q c = Chain-set_prev h l p x xs n q c

-- What an operation on list `l` with the element `e` makes of its elements `xs`.
pub record Changes (s s' : Store) (l e : ℕ) (xs xs' : List ℕ) : Type 0 where
  pub new : IsList s' l xs'
  pub ends : (k : ℕ) → k ≢ l → s'.ends k ≡ s.ends k
  pub others : (a : ℕ) → a ≢ e → has a xs ≡ false → s'.le a ≡ s.le a
  pub links : (a : ℕ) → a ≢ e → (s'.le a).list ≡ (s.le a).list
  pub kept : (a : ℕ) → a ≢ e → has a xs ≡ true → has a xs' ≡ true
  pub mine : (((s'.le e).list ≡ l) × (has e xs' ≡ true)) ⊎ ((s'.le e).list ≡ 0)

pub ≢-of : (a b : ℕ) → (a == b) ≡ false → a ≢ b
≢-of a b h e = ground arith

pub IsList-frame :
    (s s' : Store) (l : ℕ) (xs : List ℕ)
    → s'.ends l ≡ s.ends l
    → ((a : ℕ) → has a xs ≡ true → s'.le a ≡ s.le a)
    → IsList s l xs
    → IsList s' l xs
IsList-frame s s' l xs ends same k = record {
  head_is = ap (λ c. c.head) ends ∙ k.head_is;
  tail_is = ap (λ c. c.tail) ends ∙ k.tail_is;
  chain = Chain-frame s.le l s'.le 0 xs 0 same k.chain;
}

module _ (s s' : Store) (m : ℕ → List ℕ) (l e : ℕ) (xs' : List ℕ) (r : Rep s m) (some_l : l ≢ 0)
    (mine : ((s.le e).list ≡ 0) ⊎ ((s.le e).list ≡ l)) (c : Changes s s' l e (m l) xs') where
  -- The other lists are as they were.
  other-IsList : (k : ℕ) → k ≢ 0 → k ≢ l → IsList s' k (m k)
  other-IsList k some_k other =
      IsList-frame s s' k (m k) (c.ends k other)
        (λ a i.
          let at : (s.le a).list ≡ k = Chain-list s.le k a 0 (m k) 0 (r.lists k some_k).chain i in
          c.others a
            (λ same. elim mine [
              | inl z ↦ some_k (sym at ∙ ap (λ x. (s.le x).list) same ∙ z)
              | inr z ↦ other (sym at ∙ ap (λ x. (s.le x).list) same ∙ z)
            ])
            (Chain-other s.le l a 0 (m l) 0 (λ z. other (sym at ∙ z)) (r.lists l some_l).chain))
        (r.lists k some_k)

  in_own :
      (a k : ℕ)
      → (k ≡ l → has a xs' ≡ true)
      → (k ≢ l → has a (m k) ≡ true)
      → has a (put m l xs' k) ≡ true
  unfolding put
  in_own a k here there = elim (Bool-cases (k == l)) [
    | inl same ↦ rw same (here ((==_iff k l).0 same))
    | inr other ↦ rw other (there (≢-of k l other))
  ]

  own : (a : ℕ) → (s'.le a).list ≢ 0 → has a (put m l xs' (s'.le a).list) ≡ true
  own a linked = elim (Bool-cases (a == e)) [
    | inl same ↦
        let e_is : a ≡ e = (==_iff a e).0 same in
        elim (c.mine) [
          | inl (at, i) ↦
              in_own a (s'.le a).list (λ _. ap (λ x. has x xs') e_is ∙ i)
                (λ out. absurd (out (ap (λ x. (s'.le x).list) e_is ∙ at)))
          | inr z ↦ absurd (linked (ap (λ x. (s'.le x).list) e_is ∙ z))
        ]
    | inr other ↦
        let out = ≢-of a e other in
        let at : (s'.le a).list ≡ (s.le a).list = c.links a out in
        let i = r.owned a (λ z. linked (at ∙ z)) in
        in_own a (s'.le a).list (λ k. c.kept a out (ap (λ x. has a (m x)) (sym k ∙ at) ∙ i))
          (λ _. ap (λ x. has a (m x)) at ∙ i)
  ]

  pub Rep-Changes : Rep s' (put m l xs')
  unfolding put
  Rep-Changes = record {
    lists = λ k some_k. elim (Bool-cases (k == l)) [
      | inl same ↦ rw same (subst (λ x. IsList s' x xs') (sym ((==_iff k l).0 same)) c.new)
      | inr other ↦ rw other (other-IsList k some_k (≢-of k l other))
    ];
    owned = own;
  }
