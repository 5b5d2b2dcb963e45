-- ===== src/Linked/Clear.antt =====
-- `list_clear` of src/list/list.c empties a list and sets its elements free.
use re_cpm.Base.{
  ℕ, zero, suc, ◌<◌, ◌≡◌, ◌≢◌, refl, ap, ◌∙◌, arith, true, false, Bool-cases, inl, inr, some, List,
  [], ◌∷◌, length,
}
use re_cpm.Linked.{Le, Store, put, set_le, list_init, clear_loop, list_clear}
use re_cpm.Linked.Chain.{has, first, Chain, Chain-put, put_other, put_same}
use re_cpm.Linked.World.{IsList}
use re_cpm.Linked.Walk.{≢-false}

-- What an element is set to.
abbrev pub cleared_le : Le
cleared_le = record { prev = 0; next = 0; list = 0; value = 0 }

-- The elements `xs` are set free, and nothing else changes.
pub record Frees (s s' : Store) (xs : List ℕ) : Type 0 where
  pub freed : (a : ℕ) → has a xs ≡ true → s'.le a ≡ cleared_le
  pub others : (a : ℕ) → has a xs ≡ false → s'.le a ≡ s.le a

clear_loop-Frees :
    (fuel : ℕ) (s : Store) (l p : ℕ) (xs : List ℕ)
    → Chain s.le l p xs 0
    → length xs < fuel
    → (s' : Store) × (clear_loop fuel s (first xs 0) ≡ some s')
      × Frees s s' xs
      × ((k : ℕ) → s'.ends k ≡ s.ends k)
unfolding clear_loop
clear_loop-Frees zero s l p xs c h = absurd (omega arith)
clear_loop-Frees (suc fuel) s l p [] c h =
    (s, refl, record { freed = λ a i. absurd (ground arith); others = λ a o. refl }, λ k. refl)
clear_loop-Frees (suc fuel) s l p (x ∷ xs) c h =
    let s1 = set_le s x cleared_le in
    let (s', e, f, ends) =
      clear_loop-Frees fuel s1 l x xs (Chain-put s.le l x cleared_le x xs 0 c.1 c.2)
        (omega arith) in
    (
      s',
      rw (≢-false x c.0.there, c.0.next_is) e,
      record {
        freed = λ a i. elim (Bool-cases (has a xs)) [
          | inl later ↦ f.freed a later
          | inr first_one ↦
              let is : a ≡ x = ground arith in
              f.others a first_one ∙ ap s1.le is ∙ put_same s.le x cleared_le
        ];
        others = λ a o.
            f.others a (ground arith) ∙ put_other s.le x cleared_le a (λ z. absurd (ground arith));
      },
      ends,
    )

pub init-ends :
    (s : Store) (l : ℕ)
    → l ≢ 0
    → ((list_init s l).le ≡ s.le)
      × ((list_init s l).ends l ≡ record { head = 0; tail = 0 })
      × ((k : ℕ) → k ≢ l → (list_init s l).ends k ≡ s.ends k)
unfolding list_init put
init-ends s l some_l = (ground arith, ground arith, λ k out. ground arith)

-- `list_clear` returns, given a round for each element and one more: the list is empty, its elements
-- are in no list, and neither another element nor another list's ends change.
pub list_clear-Frees :
    (fuel : ℕ) (s : Store) (l : ℕ) (xs : List ℕ)
    → l ≢ 0
    → IsList s l xs
    → length xs < fuel
    → (s' : Store) × (list_clear fuel s l ≡ some s')
      × IsList s' l []
      × Frees s s' xs
      × ((k : ℕ) → k ≢ l → s'.ends k ≡ s.ends k)
unfolding list_clear
list_clear-Frees fuel s l xs some_l k h =
    let (s', e, f, ends) = clear_loop-Frees fuel s l 0 xs k.chain h in
    let (cells, at, others) = init-ends s' l some_l in
    (
      list_init s' l,
      rw (≢-false l some_l, k.head_is, e) refl,
      record { head_is = ap (λ c. c.head) at; tail_is = ap (λ c. c.tail) at; chain = tt },
      record {
        freed = λ a i. ap (λ g. g a) cells ∙ f.freed a i;
        others = λ a o. ap (λ g. g a) cells ∙ f.others a o;
      },
      λ j out. others j out ∙ ends j,
    )
