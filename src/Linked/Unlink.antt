-- ===== src/Linked/Unlink.antt =====
-- `list_unlink` of src/list/list.c takes an element out of the list that it names.
use re_cpm.Base.{
  ℕ, ◌≡◌, ◌≢◌, refl, sym, ap, ◌∙◌, arith, true, false, ◌==◌, if◌then◌else◌, Bool-cases, inl, inr,
  List, [], ◌∷◌, ◌++◌,
}
use re_cpm.Linked.{Store, put, list_unlink, unlink_from}
use re_cpm.Linked.Chain.{
  has, first, last, last-append, has-last, Node, Chain-null, Chain-split, has-≢,
}
use re_cpm.Linked.World.{IsList, Changes}
use re_cpm.Linked.Splice.{has-left, has-right}
use re_cpm.Linked.Local.{Removes, Removes-Changes, Relinked, not_first, not_last, apart_back}

has-last_nonempty : (ys : List ℕ) → last 0 ys ≢ 0 → has (last 0 ys) ys ≡ true
has-last_nonempty [] f = absurd (f refl)
has-last_nonempty (y ∷ ys) f = has-last y ys

-- Who is first and last when `e` is gone.
first_without :
    (ys zs : List ℕ) (e head : ℕ)
    → has 0 ys ≡ false
    → head ≡ first (ys ++ (e ∷ zs)) 0
    → (if last 0 ys == 0 then first zs 0 else head) ≡ first (ys ++ zs) 0
first_without [] zs e head null h = refl
first_without (y ∷ ys) zs e head null h =
    let some_t : last y ys ≢ 0 = has-≢ 0 (last y ys) (y ∷ ys) null (has-last y ys) in ground arith

last_without :
    (ys zs : List ℕ) (e tail : ℕ)
    → has 0 zs ≡ false
    → tail ≡ last 0 (ys ++ (e ∷ zs))
    → (if first zs 0 == 0 then last 0 ys else tail) ≡ last 0 (ys ++ zs)
last_without ys [] e tail null h = sym (last-append 0 ys [])
last_without ys (z ∷ zs) e tail null h =
    let all = last-append 0 ys (e ∷ z ∷ zs) in let less = last-append 0 ys (z ∷ zs) in ground arith

module _ (s : Store) (l e : ℕ) (some_l : l ≢ 0) where
  -- With its neighbours known, what is written.
  unlinked :
      (p n : ℕ)
      → (p ≢ 0 → p ≢ e)
      → (n ≢ 0 → n ≢ e)
      → (p ≢ 0 → n ≢ 0 → p ≢ n)
      → Node s.le l p e n
      → Relinked s.le (list_unlink s e).le e p n p n
        × ((list_unlink s e).le e ≡ record (s.le e) { prev = 0; next = 0; list = 0 })
        × ((list_unlink s e).ends l ≡ record {
          head = if p == 0 then n else (s.ends l).head;
          tail = if n == 0 then p else (s.ends l).tail;
        })
        × ((k : ℕ) → k ≢ l → (list_unlink s e).ends k ≡ s.ends k)
  unfolding list_unlink unlink_from put
  unlinked p n p_out n_out apart node = elim (Bool-cases (p == 0)) [
    | inl no_p ↦ elim (Bool-cases (n == 0)) [
      | inl no_n ↦ (
        record {
          pred = λ f. ground arith;
          succ = λ f. ground arith;
          else_same = λ a o q r. ground arith;
        },
        ground arith,
        ground arith,
        λ j other. ground arith,
      )
      | inr some_n ↦ (
        record {
          pred = λ f. ground arith;
          succ = λ f. ground arith;
          else_same = λ a o q r. ground arith;
        },
        ground arith,
        ground arith,
        λ j other. ground arith,
      )
    ]
    | inr some_p ↦ elim (Bool-cases (n == 0)) [
      | inl no_n ↦ (
        record {
          pred = λ f. ground arith;
          succ = λ f. ground arith;
          else_same = λ a o q r. ground arith;
        },
        ground arith,
        ground arith,
        λ j other. ground arith,
      )
      | inr some_n ↦ (
        record {
          pred = λ f. ground arith;
          succ = λ f. ground arith;
          else_same = λ a o q r. ground arith;
        },
        ground arith,
        ground arith,
        λ j other. ground arith,
      )
    ]
  ]

  pub list_unlink-Removes :
      (ys zs : List ℕ) → IsList s l (ys ++ (e ∷ zs)) → Removes s (list_unlink s e) l e ys zs
  list_unlink-Removes ys zs k =
      let (before, behind, apart) = Chain-split s.le l 0 ys (e ∷ zs) 0 k.chain in
      let null = Chain-null s.le l 0 (ys ++ (e ∷ zs)) 0 k.chain in
      let out_ys : has e ys ≡ false = apart_back ys (e ∷ zs) e apart (ground arith) in
      let (cells, at, ends_are, others) =
        unlinked (last 0 ys) (first zs 0) (λ f z. not_last e ys out_ys f (sym z))
          (λ f z. not_first e zs behind.1 f (sym z))
          (λ f g.
            not_first (last 0 ys) zs
              (has-right (last 0 ys) (e ∷ []) zs (apart (last 0 ys) (has-last_nonempty ys f))) g)
          behind.0 in
      record {
        at = at;
        cells = cells;
        head_is =
            ap (λ c. c.head) ends_are
            ∙ first_without ys zs e (s.ends l).head (has-left 0 ys (e ∷ zs) null) k.head_is;
        tail_is =
            ap (λ c. c.tail) ends_are
            ∙ last_without ys zs e (s.ends l).tail
                (has-right 0 (e ∷ []) zs (has-right 0 ys (e ∷ zs) null)) k.tail_is;
        ends = others;
      }

  pub list_unlink-Changes :
      (ys zs : List ℕ)
      → IsList s l (ys ++ (e ∷ zs))
      → Changes s (list_unlink s e) l e (ys ++ (e ∷ zs)) (ys ++ zs)
  list_unlink-Changes ys zs k =
      Removes-Changes s (list_unlink s e) l e ys zs k (list_unlink-Removes ys zs k)
