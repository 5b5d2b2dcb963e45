-- ===== src/Linked/Append.antt =====
-- `list_append` and `list_prepend` of src/list/list.c put the element at an end.
use re_cpm.Base.{ℕ, ◌≡◌, ◌≢◌, refl, sym, ap, subst, ◌∙◌, arith, List, [], ◌∷◌, ◌++◌, append-nil}
use re_cpm.Linked.{Store, put, list_append, link_tail, list_prepend, link_head}
use re_cpm.Linked.Chain.{last, last-append, has-last, Chain-other, Chain-null, has-≢}
use re_cpm.Linked.World.{IsList, Changes}
use re_cpm.Linked.Local.{Inserts, Inserts-Changes}

module _ (s : Store) (l e v : ℕ) (some_l : l ≢ 0) (some_e : e ≢ 0) (free : (s.le e).list ≡ 0) where
  list_append-empty : IsList s l [] → Inserts s (list_append s l e v) l e [] [] v
  unfolding list_append link_tail put
  list_append-empty k = record {
    at = ground arith;
    cells = record {
      pred = λ f. absurd (f refl);
      succ = λ f. absurd (f refl);
      else_same = λ a out p n. ground arith;
    };
    head_is = ground arith;
    tail_is = ground arith;
    ends = λ j other. ground arith;
  }

  list_append-more :
      (x : ℕ) (xs : List ℕ)
      → IsList s l (x ∷ xs)
      → Inserts s (list_append s l e v) l e (x ∷ xs) [] v
  unfolding list_append link_tail put
  list_append-more x xs k =
      let t : ℕ = last x xs in
      let tail : (s.ends l).tail ≡ t = k.tail_is in
      let some_x : x ≢ 0 = k.chain.0.there in
      let some_t : t ≢ 0 =
        λ z. has-≢ 0 t (x ∷ xs) (Chain-null s.le l 0 (x ∷ xs) 0 k.chain) (has-last x xs) z in
      let out : t ≢ e =
        has-≢ e t (x ∷ xs) (Chain-other s.le l e 0 (x ∷ xs) 0 (λ z. some_l (sym z ∙ free)) k.chain)
          (has-last x xs) in
      let end_is : ((list_append s l e v).ends l).tail ≡ e = ground arith in
      record {
        at = ground arith;
        cells = record {
          pred = λ f. ground arith;
          succ = λ f. absurd (f refl);
          else_same = λ a o p n. let q = p some_t in ground arith;
        };
        head_is = ground arith;
        tail_is = end_is ∙ sym (last-append 0 (x ∷ xs) (e ∷ []));
        ends = λ j other. ground arith;
      }

  list_append-Inserts : (xs : List ℕ) → IsList s l xs → Inserts s (list_append s l e v) l e xs [] v
  list_append-Inserts [] k = list_append-empty k
  list_append-Inserts (x ∷ xs) k = list_append-more x xs k

  list_prepend-empty : IsList s l [] → Inserts s (list_prepend s l e v) l e [] [] v
  unfolding list_prepend link_head put
  list_prepend-empty k = record {
    at = ground arith;
    cells = record {
      pred = λ f. absurd (f refl);
      succ = λ f. absurd (f refl);
      else_same = λ a out p n. ground arith;
    };
    head_is = ground arith;
    tail_is = ground arith;
    ends = λ j other. ground arith;
  }

  list_prepend-more :
      (x : ℕ) (xs : List ℕ)
      → IsList s l (x ∷ xs)
      → Inserts s (list_prepend s l e v) l e [] (x ∷ xs) v
  unfolding list_prepend link_head put
  list_prepend-more x xs k =
      let head : (s.ends l).head ≡ x = k.head_is in
      let tail : (s.ends l).tail ≡ last x xs = k.tail_is in
      let some_x : x ≢ 0 = k.chain.0.there in
      let some_t : last x xs ≢ 0 = λ z.
        has-≢ 0 (last x xs) (x ∷ xs) (Chain-null s.le l 0 (x ∷ xs) 0 k.chain) (has-last x xs) z in
      let out : x ≢ e = λ z. some_l (sym k.chain.0.list_is ∙ ap (λ c. (s.le c).list) z ∙ free) in
      record {
        at = ground arith;
        cells = record {
          pred = λ f. absurd (f refl);
          succ = λ f. ground arith;
          else_same = λ a o p n. let q = n some_x in ground arith;
        };
        head_is = ground arith;
        tail_is = ground arith;
        ends = λ j other. ground arith;
      }

  list_prepend-Inserts :
      (xs : List ℕ) → IsList s l xs → Inserts s (list_prepend s l e v) l e [] xs v
  list_prepend-Inserts [] k = list_prepend-empty k
  list_prepend-Inserts (x ∷ xs) k = list_prepend-more x xs k

  -- The element becomes the last one, or the first; nothing else changes.
  pub list_append-Changes :
      (xs : List ℕ) → IsList s l xs → Changes s (list_append s l e v) l e xs (xs ++ (e ∷ []))
  list_append-Changes xs k =
      subst (λ t. Changes s (list_append s l e v) l e t (xs ++ (e ∷ []))) (append-nil xs)
        (Inserts-Changes s (list_append s l e v) l e xs [] some_l some_e free
          (subst (IsList s l) (sym (append-nil xs)) k) (list_append-Inserts xs k))

  pub list_prepend-Changes :
      (xs : List ℕ) → IsList s l xs → Changes s (list_prepend s l e v) l e xs (e ∷ xs)
  list_prepend-Changes xs k =
      Inserts-Changes s (list_prepend s l e v) l e [] xs some_l some_e free k
        (list_prepend-Inserts xs k)
