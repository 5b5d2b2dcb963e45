-- ===== src/Linked/Flush.antt =====
-- `list_flush` of src/list/list.c unlinks every element and gives its data back.
use re_cpm.Base.{
  ℕ, zero, suc, ◌<◌, ◌≡◌, ◌≢◌, refl, ap, ap₂, ◌∙◌, arith, true, Bool-cases, inl, inr, some, List,
  [], ◌∷◌, length,
}
use re_cpm.Linked.{Le, Store, set_le, list_init, list_unlink, flush_loop, list_flush}
use re_cpm.Linked.Chain.{has, first, put_other, put_same, has-≢}
use re_cpm.Linked.World.{IsList, IsList-frame}
use re_cpm.Linked.Local.{kept-Relinked}
use re_cpm.Linked.Unlink.{list_unlink-Removes, list_unlink-Changes}
use re_cpm.Linked.Walk.{≢-false}
use re_cpm.Linked.Clear.{cleared_le, Frees, init-ends}

-- The data pointers of elements.
abbrev pub values : (ℕ → Le) → List ℕ → List ℕ
values h [] = []
values h (x ∷ xs) = (h x).value ∷ values h xs

values-frame :
    (h g : ℕ → Le) (xs : List ℕ)
    → ((a : ℕ) → has a xs ≡ true → (g a).value ≡ (h a).value)
    → values g xs ≡ values h xs
values-frame h g [] same = refl
values-frame h g (x ∷ xs) same =
    ap₂ ◌∷◌ (same x (ground arith)) (values-frame h g xs (λ a i. same a (ground arith)))

abbrev no_value : Le → Le
no_value c = record c { value = 0 }

-- One round: the first element is free, without data, and the rest is the list.
module _ (s : Store) (l x : ℕ) (xs : List ℕ) (some_l : l ≢ 0) (k : IsList s l (x ∷ xs)) where
  abbrev after : Store
  after = set_le (list_unlink s x) x (record ((list_unlink s x).le x) { value = 0 })

  after-first : after.le x ≡ cleared_le
  after-first =
      put_same (list_unlink s x).le x (record ((list_unlink s x).le x) { value = 0 })
      ∙ ap no_value (list_unlink-Removes s l x some_l [] xs k).at

  after-other : (a : ℕ) → a ≢ x → after.le a ≡ (list_unlink s x).le a
  after-other = put_other (list_unlink s x).le x (record ((list_unlink s x).le x) { value = 0 })

  after-IsList : IsList after l xs
  after-IsList =
      let c = list_unlink-Changes s l x some_l [] xs k in
      IsList-frame (list_unlink s x) after l xs refl
        (λ a i. after-other a (has-≢ x a xs k.chain.1 i)) c.new

  after-values : values after.le xs ≡ values s.le xs
  after-values = values-frame s.le after.le xs (λ a i.
      let out : a ≢ x = has-≢ x a xs k.chain.1 i in
      ap (λ c. c.value) (after-other a out)
      ∙ kept-Relinked (λ c. c.value) (λ c m. refl) (λ c q. refl) s.le (list_unlink s x).le x 0
          (first xs 0) 0 (first xs 0) (list_unlink-Removes s l x some_l [] xs k).cells a out)

flush_loop-Frees :
    (fuel : ℕ) (s : Store) (l : ℕ) (xs : List ℕ)
    → l ≢ 0
    → IsList s l xs
    → length xs < fuel
    → (s' : Store) × (flush_loop fuel s (first xs 0) ≡ some (s', values s.le xs))
      × Frees s s' xs
      × ((k : ℕ) → k ≢ l → s'.ends k ≡ s.ends k)
unfolding flush_loop
flush_loop-Frees zero s l xs some_l k h = absurd (omega arith)
flush_loop-Frees (suc fuel) s l [] some_l k h =
    (s, refl, record { freed = λ a i. absurd (ground arith); others = λ a o. refl }, λ j out. refl)
flush_loop-Frees (suc fuel) s l (x ∷ xs) some_l k h =
    let s2 = after s l x xs some_l k in
    let c = list_unlink-Changes s l x some_l [] xs k in
    let (s', e, f, ends) =
      flush_loop-Frees fuel s2 l xs some_l (after-IsList s l x xs some_l k) (omega arith) in
    (
      s',
      rw (≢-false x k.chain.0.there, k.chain.0.next_is, e, after-values s l x xs some_l k) refl,
      record {
        freed = λ a i. elim (Bool-cases (has a xs)) [
          | inl later ↦ f.freed a later
          | inr first_one ↦
              let is : a ≡ x = ground arith in
              f.others a first_one ∙ ap s2.le is ∙ after-first s l x xs some_l k
        ];
        others = λ a o.
            let out : a ≢ x = λ z. absurd (ground arith) in
            f.others a (ground arith) ∙ after-other s l x xs some_l k a out ∙ c.others a out o;
      },
      λ j out. ends j out ∙ c.ends j out,
    )

-- `list_flush` returns, given a round for each element and one more: it hands the data pointers of
-- the elements to `mem_deref` in order, each once; the list is empty, its elements are in no list
-- and without data, and neither another element nor another list's ends change.
pub list_flush-Frees :
    (fuel : ℕ) (s : Store) (l : ℕ) (xs : List ℕ)
    → l ≢ 0
    → IsList s l xs
    → length xs < fuel
    → (s' : Store) × (list_flush fuel s l ≡ some (s', values s.le xs))
      × IsList s' l []
      × Frees s s' xs
      × ((k : ℕ) → k ≢ l → s'.ends k ≡ s.ends k)
unfolding list_flush
list_flush-Frees fuel s l xs some_l k h =
    let (s', e, f, ends) = flush_loop-Frees fuel s l xs some_l k h in
    let (cells, at, others) = init-ends s' l some_l in
    (
      list_init s' l,
      rw (≢-false l some_l, k.head_is, e) refl,
      record { head_is = ap (λ c. c.head) at; tail_is = ap (λ c. c.tail) at; chain = tt },
      record {
        freed = λ a i. ap (λ g. g a) cells ∙ f.freed a i;
        others = λ a o. ap (λ g. g a) cells ∙ f.others a o;
      },
      λ j out. others j out ∙ ends j out,
    )
