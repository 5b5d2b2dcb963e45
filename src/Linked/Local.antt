-- ===== src/Linked/Local.antt =====
-- Operations of src/list/list.c by the few elements that they write: the element itself and its two
-- neighbours, where there are any.
use re_cpm.Base.{
  ℕ, ◌≡◌, ◌≢◌, ◌⊎◌, refl, sym, ap, ◌∙◌, arith, true, false, ◌==◌, ==_iff, Bool-cases, inl, inr,
  List, [], ◌∷◌, ◌++◌,
}
use re_cpm.Linked.{Le, Store, put}
use re_cpm.Linked.Chain.{
  has, first, last, has-append, has-last, Chain-other, Chain-null, Chain-split, put_other, put_same,
  has-≢,
}
use re_cpm.Linked.World.{IsList, relink_next, relink_prev, Changes, ≢-of}
use re_cpm.Linked.Splice.{Chain-insert, Chain-remove, has-left, has-right}

-- The neighbours `p` and `n` of a place are linked to `q` and `m`; beside them only `e` changes.
pub record Relinked (h g : ℕ → Le) (e p n q m : ℕ) : Type 0 where
  pub pred : p ≢ 0 → g p ≡ record (h p) { next = m }
  pub succ : n ≢ 0 → g n ≡ record (h n) { prev = q }
  pub else_same : (a : ℕ) → a ≢ e → (p ≢ 0 → a ≢ p) → (n ≢ 0 → a ≢ n) → g a ≡ h a

pub not_first : (a : ℕ) (zs : List ℕ) → has a zs ≡ false → first zs 0 ≢ 0 → a ≢ first zs 0
not_first a [] o f = λ z. f refl
not_first a (z ∷ zs) o f = λ same. absurd (ground arith)

pub not_last : (a : ℕ) (ys : List ℕ) → has a ys ≡ false → last 0 ys ≢ 0 → a ≢ last 0 ys
not_last a [] o f = λ z. f refl
not_last a (y ∷ ys) o f = λ same. has-≢ a (last y ys) (y ∷ ys) o (has-last y ys) (sym same)

-- Members are not the element that is out, nor NULL.
apart_from : (a b : ℕ) (xs : List ℕ) → has b xs ≡ false → has a xs ≡ true → a ≢ b
apart_from a b xs out i = has-≢ b a xs out i

pub apart_back :
    (ys zs : List ℕ) (a : ℕ)
    → ((b : ℕ) → has b ys ≡ true → has b zs ≡ false)
    → has a zs ≡ true
    → has a ys ≡ false
apart_back ys zs a apart i = elim (Bool-cases (has a ys)) [
  | inl both ↦ absurd (ground (arith, apart a both))
  | inr out ↦ out
]

left :
    (h g : ℕ → Le) (e q m : ℕ) (ys zs : List ℕ)
    → Relinked h g e (last 0 ys) (first zs 0) q m
    → has e ys ≡ false
    → has 0 ys ≡ false
    → ((a : ℕ) → has a ys ≡ true → has a zs ≡ false)
    → (a : ℕ) → has a ys ≡ true
    → g a ≡ relink_next h ys m a
left h g e q m [] zs r out null apart a i = absurd (ground arith)
left h g e q m (y ∷ ys) zs r out null apart a i =
    let t : ℕ = last y ys in
    let some_t : t ≢ 0 = apart_from t 0 (y ∷ ys) null (has-last y ys) in
    elim (Bool-cases (a == t)) [
      | inl same ↦
          let at : a ≡ t = (==_iff a t).0 same in
          ap g at
          ∙ r.pred some_t
          ∙ sym (put_same h t (record (h t) { next = m }))
          ∙ ap (put h t (record (h t) { next = m })) (sym at)
      | inr other ↦
          r.else_same a (apart_from a e (y ∷ ys) out i) (λ _. ≢-of a t other)
            (not_first a zs (apart a i))
          ∙ sym (put_other h t (record (h t) { next = m }) a (≢-of a t other))
    ]

right :
    (h g : ℕ → Le) (e q m : ℕ) (ys zs : List ℕ)
    → Relinked h g e (last 0 ys) (first zs 0) q m
    → has e zs ≡ false
    → has 0 zs ≡ false
    → ((a : ℕ) → has a ys ≡ true → has a zs ≡ false)
    → (a : ℕ) → has a zs ≡ true
    → g a ≡ relink_prev h zs q a
right h g e q m ys [] r out null apart a i = absurd (ground arith)
right h g e q m ys (z ∷ zs) r out null apart a i =
    let here : has z (z ∷ zs) ≡ true = ground arith in
    let some_z : z ≢ 0 = apart_from z 0 (z ∷ zs) null here in
    elim (Bool-cases (a == z)) [
      | inl same ↦
          let at : a ≡ z = (==_iff a z).0 same in
          ap g at
          ∙ r.succ some_z
          ∙ sym (put_same h z (record (h z) { prev = q }))
          ∙ ap (put h z (record (h z) { prev = q })) (sym at)
      | inr other ↦
          r.else_same a (apart_from a e (z ∷ zs) out i)
            (not_last a ys (apart_back ys (z ∷ zs) a apart i)) (λ _. ≢-of a z other)
          ∙ sym (put_other h z (record (h z) { prev = q }) a (≢-of a z other))
    ]

-- An address is a neighbour, or not one.
is_neighbour : (p a : ℕ) → ((p ≢ 0) × (a ≡ p)) ⊎ (p ≢ 0 → a ≢ p)
is_neighbour p a = elim (Bool-cases (p == 0)) [
  | inl z ↦ inr (λ f. absurd (f ((==_iff p 0).0 z)))
  | inr some_p ↦ elim (Bool-cases (a == p)) [
    | inl same ↦ inl (≢-of p 0 some_p, (==_iff a p).0 same)
    | inr other ↦ inr (λ _. ≢-of a p other)
  ]
]

-- What a change of the two pointers leaves of an element.
pub kept-Relinked :
    (f : Le → ℕ)
    → ((c : Le) (m : ℕ) → f (record c { next = m }) ≡ f c)
    → ((c : Le) (q : ℕ) → f (record c { prev = q }) ≡ f c)
    → (h g : ℕ → Le) (e p n q m : ℕ) → Relinked h g e p n q m
    → (a : ℕ) → a ≢ e
    → f (g a) ≡ f (h a)
kept-Relinked f next prev h g e p n q m r a out = elim (is_neighbour p a) [
  | inl (some_p, at) ↦
      ap (λ x. f (g x)) at ∙ ap f (r.pred some_p) ∙ next (h p) m ∙ ap (λ x. f (h x)) (sym at)
  | inr not_p ↦ elim (is_neighbour n a) [
    | inl (some_n, at) ↦
        ap (λ x. f (g x)) at ∙ ap f (r.succ some_n) ∙ prev (h n) q ∙ ap (λ x. f (h x)) (sym at)
    | inr not_n ↦ ap f (r.else_same a out not_p not_n)
  ]
]

links-Relinked :
    (h g : ℕ → Le) (e p n q m : ℕ)
    → Relinked h g e p n q m
    → (a : ℕ) → a ≢ e
    → (g a).list ≡ (h a).list
links-Relinked = kept-Relinked (λ c. c.list) (λ c m. refl) (λ c q. refl)

module _ (s s' : Store) (l e : ℕ) (ys zs : List ℕ) where
  -- What an insertion between `ys` and `zs` must do.
  pub record Inserts (v : ℕ) : Type 0 where
    pub at : s'.le e ≡ record { prev = last 0 ys; next = first zs 0; list = l; value = v }
    pub cells : Relinked s.le s'.le e (last 0 ys) (first zs 0) e e
    pub head_is : (s'.ends l).head ≡ first (ys ++ (e ∷ zs)) 0
    pub tail_is : (s'.ends l).tail ≡ last 0 (ys ++ (e ∷ zs))
    pub ends : (k : ℕ) → k ≢ l → s'.ends k ≡ s.ends k

  pub Inserts-Changes :
      {v : ℕ}
      → l ≢ 0
      → e ≢ 0
      → (s.le e).list ≡ 0
      → IsList s l (ys ++ zs)
      → Inserts v
      → Changes s s' l e (ys ++ zs) (ys ++ (e ∷ zs))
  Inserts-Changes some_l some_e free k i =
      let out = Chain-other s.le l e 0 (ys ++ zs) 0 (λ z. some_l (sym z ∙ free)) k.chain in
      let null = Chain-null s.le l 0 (ys ++ zs) 0 k.chain in
      let (before, behind, apart) = Chain-split s.le l 0 ys zs 0 k.chain in
      record {
        new = record {
          head_is = i.head_is;
          tail_is = i.tail_is;
          chain =
              Chain-insert s.le s'.le l ys zs k.chain e
                (record {
                  there = some_e;
                  prev_is = ap (λ c. c.prev) i.at;
                  next_is = ap (λ c. c.next) i.at;
                  list_is = ap (λ c. c.list) i.at;
                })
                out
                (left s.le s'.le e e e ys zs i.cells (has-left e ys zs out) (has-left 0 ys zs null)
                  apart)
                (right s.le s'.le e e e ys zs i.cells (has-right e ys zs out)
                  (has-right 0 ys zs null) apart);
        };
        ends = i.ends;
        others = λ a out_e o.
            i.cells.else_same a out_e (not_last a ys (has-left a ys zs o))
              (not_first a zs (has-right a ys zs o));
        links = links-Relinked s.le s'.le e (last 0 ys) (first zs 0) e e i.cells;
        kept = λ a out_e b. ground (arith, has-append a ys zs, has-append a ys (e ∷ zs));
        mine = inl (ap (λ c. c.list) i.at, ground (arith, has-append e ys (e ∷ zs)));
      }

  -- What taking `e` out from between `ys` and `zs` must do.
  pub record Removes : Type 0 where
    pub at : s'.le e ≡ record (s.le e) { prev = 0; next = 0; list = 0 }
    pub cells : Relinked s.le s'.le e (last 0 ys) (first zs 0) (last 0 ys) (first zs 0)
    pub head_is : (s'.ends l).head ≡ first (ys ++ zs) 0
    pub tail_is : (s'.ends l).tail ≡ last 0 (ys ++ zs)
    pub ends : (k : ℕ) → k ≢ l → s'.ends k ≡ s.ends k

  pub Removes-Changes :
      IsList s l (ys ++ (e ∷ zs)) → Removes → Changes s s' l e (ys ++ (e ∷ zs)) (ys ++ zs)
  Removes-Changes k r =
      let null = Chain-null s.le l 0 (ys ++ (e ∷ zs)) 0 k.chain in
      let (before, behind, apart) = Chain-split s.le l 0 ys (e ∷ zs) 0 k.chain in
      let apart' : (a : ℕ) → has a ys ≡ true → has a zs ≡ false =
        λ a i. has-right a (e ∷ []) zs (apart a i) in
      let out_ys : has e ys ≡ false = apart_back ys (e ∷ zs) e apart (ground arith) in
      record {
        new = record {
          head_is = r.head_is;
          tail_is = r.tail_is;
          chain =
              Chain-remove s.le s'.le l e ys zs k.chain
                (left s.le s'.le e (last 0 ys) (first zs 0) ys zs r.cells out_ys
                  (has-left 0 ys (e ∷ zs) null) apart')
                (right s.le s'.le e (last 0 ys) (first zs 0) ys zs r.cells behind.1
                  (has-right 0 (e ∷ []) zs (has-right 0 ys (e ∷ zs) null)) apart');
        };
        ends = r.ends;
        others = λ a out_e o.
            r.cells.else_same a out_e (not_last a ys (has-left a ys (e ∷ zs) o))
              (not_first a zs (has-right a (e ∷ []) zs (has-right a ys (e ∷ zs) o)));
        links =
            links-Relinked s.le s'.le e (last 0 ys) (first zs 0) (last 0 ys) (first zs 0) r.cells;
        kept = λ a out_e b. ground (arith, has-append a ys zs, has-append a ys (e ∷ zs));
        mine = inr (ap (λ c. c.list) r.at);
      }
