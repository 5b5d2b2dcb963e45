-- ===== src/Linked/Insert.antt =====
-- `list_insert_before` and `list_insert_after` of src/list/list.c, at an element of the list.
use re_cpm.Base.{
  ℕ, ◌≡◌, ◌≢◌, refl, sym, ap, subst, ◌∙◌, arith, false, ◌==◌, if◌then◌else◌, Bool-cases, inl, inr,
  List, [], ◌∷◌, ◌++◌, append_assoc,
}
use re_cpm.Linked.{Store, put, list_insert_before, list_insert_after, link_before, link_after}
use re_cpm.Linked.Chain.{
  has, first, last, last-append, first-append, has-last, Node, Chain-null, Chain-other, Chain-split,
  has-≢,
}
use re_cpm.Linked.World.{IsList, Changes}
use re_cpm.Linked.Splice.{has-left, has-right}
use re_cpm.Linked.Local.{Inserts, Inserts-Changes, Relinked, not_first, not_last, apart_back}

-- Who follows `e`, and who is last; who is first when another comes before `e`.
first_other : (e : ℕ) (zs : List ℕ) → e ≢ 0 → has e zs ≡ false → first zs 0 ≢ e
first_other e [] f o = λ z. f (sym z)
first_other e (z ∷ zs) f o = λ same. absurd (ground arith)

no_more : (e : ℕ) (zs : List ℕ) → first zs 0 ≡ 0 → has 0 zs ≡ false → last e zs ≡ e
no_more e [] h o = refl
no_more e (z ∷ zs) h o = absurd (ground arith)

last_with :
    (es ys : List ℕ) (i : ℕ) (zs : List ℕ) (tail : ℕ)
    → has 0 zs ≡ false
    → tail ≡ last (last (last 0 ys) es) zs
    → (if first zs 0 == 0 then i else tail) ≡ last 0 ((ys ++ es) ++ (i ∷ zs))
last_with es ys i [] tail o h = sym (last-append 0 (ys ++ es) (i ∷ []))
last_with es ys i (z ∷ zs) tail o h =
    let all = last-append 0 (ys ++ es) (i ∷ z ∷ zs) in ground arith

none_before_first :
    (ys : List ℕ) (e : ℕ) (zs : List ℕ)
    → has 0 ys ≡ false
    → last 0 ys ≡ 0
    → first (ys ++ (e ∷ zs)) 0 ≡ e
none_before_first [] e zs o h = refl
none_before_first (y ∷ ys) e zs o h = absurd (has-≢ 0 (last y ys) (y ∷ ys) o (has-last y ys) h)

first_with :
    (ys : List ℕ) (e : ℕ) (zs : List ℕ) (i head : ℕ)
    → has 0 ys ≡ false
    → head ≡ first (ys ++ (e ∷ zs)) 0
    → (if last 0 ys == 0 then i else head) ≡ first (ys ++ (i ∷ e ∷ zs)) 0
first_with [] e zs i head o h = refl
first_with (y ∷ ys) e zs i head o h =
    let some_t : last y ys ≢ 0 = has-≢ 0 (last y ys) (y ∷ ys) o (has-last y ys) in ground arith

module _ (s : Store) (l e i v : ℕ) (some_l : l ≢ 0) (some_i : i ≢ 0)
    (free : (s.le i).list ≡ 0) where
  after :
      (p n : ℕ)
      → Node s.le l p e n
      → n ≢ e
      → (n ≢ 0 → n ≢ i)
      → (n ≡ 0 → (s.ends l).tail ≡ e)
      → Relinked s.le (list_insert_after s l e i v).le i e n i i
        × ((list_insert_after s l e i v).le i ≡ record { prev = e; next = n; list = l; value = v })
        × ((list_insert_after s l e i v).ends l
            ≡ record (s.ends l) { tail = if n == 0 then i else (s.ends l).tail })
        × ((k : ℕ) → k ≢ l → (list_insert_after s l e i v).ends k ≡ s.ends k)
  unfolding list_insert_after link_after put
  after p n node n_e n_i tail =
      let some_e : e ≢ 0 = node.there in
      let i_e : i ≢ e = λ z. some_l (sym node.list_is ∙ ap (λ x. (s.le x).list) (sym z) ∙ free) in
      elim (Bool-cases (n == 0)) [
        | inl none_behind ↦ (
          record {
            pred = λ f. ground arith;
            succ = λ f. ground arith;
            else_same = λ a o q r. ground (arith, q some_e);
          },
          ground arith,
          ground arith,
          λ j other. ground arith,
        )
        | inr some_n ↦ (
          record {
            pred = λ f. ground arith;
            succ = λ f. ground arith;
            else_same = λ a o q r. ground (arith, q some_e);
          },
          ground arith,
          ground arith,
          λ j other. ground arith,
        )
      ]

  before :
      (p n : ℕ)
      → Node s.le l p e n
      → (p ≢ 0 → p ≢ e)
      → (p ≢ 0 → p ≢ i)
      → (p ≡ 0 → (s.ends l).head ≡ e)
      → Relinked s.le (list_insert_before s l e i v).le i p e i i
        × ((list_insert_before s l e i v).le i ≡ record { prev = p; next = e; list = l; value = v })
        × ((list_insert_before s l e i v).ends l
            ≡ record (s.ends l) { head = if p == 0 then i else (s.ends l).head })
        × ((k : ℕ) → k ≢ l → (list_insert_before s l e i v).ends k ≡ s.ends k)
  unfolding list_insert_before link_before put
  before p n node p_e p_i head =
      let some_e : e ≢ 0 = node.there in
      let i_e : i ≢ e = λ z. some_l (sym node.list_is ∙ ap (λ x. (s.le x).list) (sym z) ∙ free) in
      elim (Bool-cases (p == 0)) [
        | inl none_before ↦ (
          record {
            pred = λ f. ground arith;
            succ = λ f. ground arith;
            else_same = λ a o q r. ground (arith, r some_e);
          },
          ground arith,
          ground arith,
          λ j other. ground arith,
        )
        | inr some_p ↦ (
          record {
            pred = λ f. ground arith;
            succ = λ f. ground arith;
            else_same = λ a o q r. ground (arith, r some_e);
          },
          ground arith,
          ground arith,
          λ j other. ground arith,
        )
      ]

  after-Inserts :
      (ys zs : List ℕ)
      → IsList s l (ys ++ (e ∷ zs))
      → Inserts s (list_insert_after s l e i v) l i (ys ++ (e ∷ [])) zs v
  after-Inserts ys zs k =
      let (early, late, apart) = Chain-split s.le l 0 ys (e ∷ zs) 0 k.chain in
      let out = Chain-other s.le l i 0 (ys ++ (e ∷ zs)) 0 (λ z. some_l (sym z ∙ free)) k.chain in
      let (cells, at, ends_are, others) =
        after (last 0 ys) (first zs 0) late.0 (first_other e zs late.0.there late.1)
          (λ f z. not_first i zs (has-right i (e ∷ []) zs (has-right i ys (e ∷ zs) out)) f (sym z))
          (λ z.
            k.tail_is
            ∙ last-append 0 ys (e ∷ zs)
            ∙ no_more e zs z (Chain-null s.le l e zs 0 late.2)) in
      let e_is : e ≡ last 0 (ys ++ (e ∷ [])) = sym (last-append 0 ys (e ∷ [])) in
      record {
        at = at ∙ ap (λ x. record { prev = x; next = first zs 0; list = l; value = v }) e_is;
        cells =
            subst (λ x. Relinked s.le (list_insert_after s l e i v).le i x (first zs 0) i i) e_is
              cells;
        head_is =
            ap (λ c. c.head) ends_are
            ∙ k.head_is
            ∙ first-append ys (e ∷ zs) 0
            ∙ sym (first-append ys (e ∷ i ∷ zs) 0)
            ∙ ap (λ xs. first xs 0) (sym (append_assoc ys (e ∷ []) (i ∷ zs)));
        tail_is =
            ap (λ c. c.tail) ends_are
            ∙ last_with (e ∷ []) ys i zs (s.ends l).tail (Chain-null s.le l e zs 0 late.2)
                (k.tail_is ∙ last-append 0 ys (e ∷ zs));
        ends = others;
      }

  pub list_insert_after-Changes :
      (ys zs : List ℕ)
      → IsList s l (ys ++ (e ∷ zs))
      → Changes s (list_insert_after s l e i v) l i (ys ++ (e ∷ zs)) (ys ++ (e ∷ i ∷ zs))
  list_insert_after-Changes ys zs k =
      let s' = list_insert_after s l e i v in
      let a : (ys ++ (e ∷ [])) ++ zs ≡ ys ++ (e ∷ zs) = append_assoc ys (e ∷ []) zs in
      let b : (ys ++ (e ∷ [])) ++ (i ∷ zs) ≡ ys ++ (e ∷ i ∷ zs) =
        append_assoc ys (e ∷ []) (i ∷ zs) in
      subst (λ x. Changes s s' l i x (ys ++ (e ∷ i ∷ zs))) a
        (subst (λ x. Changes s s' l i ((ys ++ (e ∷ [])) ++ zs) x) b
          (Inserts-Changes s s' l i (ys ++ (e ∷ [])) zs some_l some_i free
            (subst (IsList s l) (sym a) k) (after-Inserts ys zs k)))

  before-Inserts :
      (ys zs : List ℕ)
      → IsList s l (ys ++ (e ∷ zs))
      → Inserts s (list_insert_before s l e i v) l i ys (e ∷ zs) v
  before-Inserts ys zs k =
      let (early, late, apart) = Chain-split s.le l 0 ys (e ∷ zs) 0 k.chain in
      let null = Chain-null s.le l 0 (ys ++ (e ∷ zs)) 0 k.chain in
      let out = Chain-other s.le l i 0 (ys ++ (e ∷ zs)) 0 (λ z. some_l (sym z ∙ free)) k.chain in
      let out_ys : has e ys ≡ false = apart_back ys (e ∷ zs) e apart (ground arith) in
      let (cells, at, ends_are, others) =
        before (last 0 ys) (first zs 0) late.0 (λ f z. not_last e ys out_ys f (sym z))
          (λ f z. not_last i ys (has-left i ys (e ∷ zs) out) f (sym z))
          (λ z. k.head_is ∙ none_before_first ys e zs (has-left 0 ys (e ∷ zs) null) z) in
      record {
        at = at;
        cells = cells;
        head_is =
            ap (λ c. c.head) ends_are
            ∙ first_with ys e zs i (s.ends l).head (has-left 0 ys (e ∷ zs) null) k.head_is;
        tail_is =
            ap (λ c. c.tail) ends_are
            ∙ k.tail_is
            ∙ last-append 0 ys (e ∷ zs)
            ∙ sym (last-append 0 ys (i ∷ e ∷ zs));
        ends = others;
      }

  pub list_insert_before-Changes :
      (ys zs : List ℕ)
      → IsList s l (ys ++ (e ∷ zs))
      → Changes s (list_insert_before s l e i v) l i (ys ++ (e ∷ zs)) (ys ++ (i ∷ e ∷ zs))
  list_insert_before-Changes ys zs k =
      Inserts-Changes s (list_insert_before s l e i v) l i ys (e ∷ zs) some_l some_i free k
        (before-Inserts ys zs k)
