-- ===== src/Hash/Table/Lookup.antt =====
-- What the table of src/hash/hash.c finds.
use re_cpm.Base.{
  ℕ, zero, suc, ◌+◌, ◌-◌, ◌<◌, ◌≡◌, ◌≢◌, ◌⊎◌, refl, sym, ap, subst, ◌∙◌, arith, ◌==◌, if◌then◌else◌,
  Bool, true, false, Bool-cases, inl, inr, Option, none, some, List, [], ◌∷◌, ◌++◌, length,
  length-append, bit_and,
}
use re_cpm.Linked.{Store, put, list_append, list_apply}
use re_cpm.Linked.Chain.{has, has-append, Chain, put_same, put_other}
use re_cpm.Linked.Walk.{≢-false, find, list_apply-eq}
use re_cpm.Linked.Spec.{Lists, Call, join, leave, without}
use re_cpm.Linked.Refine.{Stands, run-spec}
use re_cpm.Hash.Table.{
  Hash, bucket_at, hash_list, hash_append, hash_unlink, hash_lookup, table_apply, hash_apply,
}

-- The elements of the buckets from `i` on, `n` buckets.
abbrev pub entries : Lists → Hash → ℕ → ℕ → List ℕ
entries a h zero i = []
entries a h (suc n) i = a.members (bucket_at h i) ++ entries a h n (i + 1)

-- Each element is in the bucket of its key, `key_of`.
pub record IsTable (a : Lists) (h : Hash) (key_of : ℕ → ℕ) : Type 0 where
  pub there : h.bucket ≢ 0
  pub sorted :
      (i e : ℕ)
      → i < h.bsize
      → has e (a.members (bucket_at h i)) ≡ true
      → bit_and (key_of e) (h.bsize - 1) ≡ i

==→eq : (a b : ℕ) → (a == b) ≡ true → a ≡ b
==→eq a b h = ground arith

==-false→≢ : (a b : ℕ) → (a == b) ≡ false → a ≢ b
==-false→≢ a b h e = ground arith

is_zero : (n : ℕ) → (n == 0) ≡ true → n ≡ 0
is_zero n h = ground arith

not_zero : (n : ℕ) → (n == 0) ≡ false → n ≢ 0
not_zero n h z = ground arith

find-append :
    (s : Store) (l p n : ℕ) (stop : ℕ → Bool) (xs ys : List ℕ)
    → Chain s.le l p xs n
    → find stop (xs ++ ys) ≡ (if find stop xs == 0 then find stop ys else find stop xs)
find-append s l p n stop [] ys c = refl
find-append s l p n stop (x ∷ xs) ys c = elim (Bool-cases (stop x)) [
  | inl here ↦ rw (here, ≢-false x c.0.there) refl
  | inr on ↦ rw on (find-append s l x n stop xs ys c.2)
]

module _ (fuel : ℕ) (s : Store) (a : Lists) (r : Stands s a) (h : Hash) (set : h.bucket ≢ 0)
    (stop : ℕ → Bool) where
  found : (n i e : ℕ) → e ≢ 0 → table_apply fuel s h stop n i e ≡ some e
  unfolding table_apply
  found zero i e some_e = refl
  found (suc n) i e some_e = rw (≢-false e some_e) refl

  one_bucket :
      (n i : ℕ) (o : Option ℕ) (e : ℕ)
      → list_apply fuel s (bucket_at h i) true stop ≡ some e
      → table_apply fuel s h stop (suc n) i 0 ≡ table_apply fuel s h stop n (i + 1) e
  unfolding table_apply
  one_bucket n i o e is = rw is refl

  table_apply-eq :
      (n i : ℕ)
      → length (entries a h n i) < fuel
      → table_apply fuel s h stop n i 0 ≡ some (find stop (entries a h n i))
  table_apply-eq zero i enough = unfold table_apply in refl
  table_apply-eq (suc n) i enough =
      let xs = a.members (bucket_at h i) in
      let k = r.rep.lists (bucket_at h i) (λ z. omega (arith, set)) in
      let more = entries a h n (i + 1) in
      let len = length-append {0} xs more in
      let whole = find-append s (bucket_at h i) 0 0 stop xs more k.chain in
      one_bucket n i none (find stop xs) (
        list_apply-eq fuel s (bucket_at h i) xs true stop (λ z. omega (arith, set)) k
          (omega (arith, len)))
      ∙ (elim (Bool-cases (find stop xs == 0)) [
        | inl nothing ↦
            let z = is_zero (find stop xs) nothing in
            ap (table_apply fuel s h stop n (i + 1)) z
            ∙ table_apply-eq n (i + 1) (omega (arith, len))
            ∙ ap some (sym (whole ∙ rw nothing refl))
        | inr here ↦
            found n (i + 1) (find stop xs) (not_zero (find stop xs) here)
            ∙ ap some (sym (whole ∙ rw here refl))
      ])

  -- hash_apply stops at the first element, bucket by bucket and each from its head, at which the
  -- handler says so, or returns NULL, given a round for each element and one more.
  pub hash_apply-eq :
      length (entries a h h.bsize 0) < fuel
      → hash_apply fuel s h stop ≡ some (find stop (entries a h h.bsize 0))
  unfolding hash_apply
  hash_apply-eq enough = table_apply-eq h.bsize 0 enough

-- An element that the list holds once more is the new one or was there.
has-snoc : (e x : ℕ) (xs : List ℕ) → has x (xs ++ (e ∷ [])) ≡ true → (has x xs ≡ true) ⊎ (x ≡ e)
has-snoc e x xs h = elim (Bool-cases (has x xs)) [
  | inl old ↦ inl old
  | inr new ↦ inr (ground (arith, has-append x xs (e ∷ []), h, new))
]

has-without : (e x : ℕ) (xs : List ℕ) → has x (without e xs) ≡ true → has x xs ≡ true
has-without e x [] h = h
has-without e x (y ∷ ys) h = ground (arith, has-without e x ys)

module _ (s : Store) (a : Lists) (r : Stands s a) (h : Hash) (key_of : ℕ → ℕ)
    (t : IsTable a h key_of) where
  -- A list where no handler stops: NULL is found.
  none_found :
      (l p n : ℕ) (stop : ℕ → Bool) (xs : List ℕ) (e : ℕ)
      → Chain s.le l p xs n
      → has e xs ≡ true
      → stop e ≡ true
      → (stop (find stop xs) ≡ true) × (find stop xs ≢ 0)
  none_found l p n stop [] e c i y = absurd (ground arith)
  none_found l p n stop (x ∷ xs) e c i y = elim (Bool-cases (stop x)) [
    | inl here ↦ rw here (here, c.0.there)
    | inr on ↦
        let later : has e xs ≡ true = ground (arith, i, y, on) in
        rw on (none_found l x n stop xs e c.2 later y)
  ]

  -- A handler that stops only at elements with the key: hash_lookup finds an element at which it
  -- stops, in whichever bucket of the table there is one, given a round for each element of the
  -- bucket and one more.
  pub hash_lookup-finds :
      (fuel key : ℕ) (stop : ℕ → Bool) (i e : ℕ)
      → ((x : ℕ) → stop x ≡ true → key_of x ≡ key)
      → length (a.members (hash_list h key)) < fuel
      → i < h.bsize
      → has e (a.members (bucket_at h i)) ≡ true
      → stop e ≡ true
      → (x : ℕ) × (hash_lookup fuel s h key stop ≡ some x) × (stop x ≡ true) × (x ≢ 0)
  unfolding hash_lookup
  hash_lookup-finds fuel key stop i e honest enough inside here y =
      let set : hash_list h key ≢ 0 = λ z. omega (arith, t.there) in
      let k = r.rep.lists (hash_list h key) set in
      let xs = a.members (hash_list h key) in
      let same : bucket_at h i ≡ hash_list h key =
        ap (bucket_at h)
          (sym (t.sorted i e inside here) ∙ ap (λ n. bit_and n (h.bsize - 1)) (honest e y)) in
      let (stops, some_x) =
        none_found (hash_list h key) 0 0 stop xs e k.chain
          (ap (λ l. has e (a.members l)) (sym same) ∙ here) y in
      (
        find stop xs,
        list_apply-eq fuel s (hash_list h key) xs true stop set k enough,
        stops,
        some_x,
      )

  hash_append-list_append :
      (key e v : ℕ) → e ≢ 0 → hash_append s h key e v ≡ list_append s (hash_list h key) e v
  unfolding hash_append
  hash_append-list_append key e v some_e = rw (≢-false e some_e) refl

  joined-IsTable :
      (e key : ℕ) (owner : ℕ → ℕ)
      → key_of e ≡ key
      → let l = hash_list h key in
        IsTable
          (record { members = put a.members l (a.members l ++ (e ∷ [])); owner = owner })
          h
          key_of
  joined-IsTable e key owner is_key =
      let l = hash_list h key in
      let xs = a.members l in
      record {
        there = t.there;
        sorted = λ i x inside here. elim (Bool-cases (bucket_at h i == l)) [
          | inl same ↦
              let at : bucket_at h i ≡ l = ==→eq _ _ same in
              let here' : has x (xs ++ (e ∷ [])) ≡ true =
                ap (has x) (
                  sym (
                    ap (put a.members l (xs ++ (e ∷ []))) at
                    ∙ put_same a.members l (xs ++ (e ∷ []))))
                ∙ here in
              elim (has-snoc e x xs here') [
                | inl old ↦ t.sorted i x inside (ap (λ k. has x (a.members k)) at ∙ old)
                | inr new ↦
                    ap (λ k. bit_and k (h.bsize - 1)) (ap key_of new ∙ is_key) ∙ omega (arith, at)
              ]
          | inr other ↦ t.sorted i x inside (
              ap (has x) (
                sym (put_other a.members l (xs ++ (e ∷ [])) (bucket_at h i) (==-false→≢ _ _ other)))
              ∙ here)
        ];
      }

  left_lem :
      (l e : ℕ) (owner : ℕ → ℕ)
      → IsTable
          (record { members = put a.members l (without e (a.members l)); owner = owner })
          h
          key_of
  left_lem l e owner = record {
    there = t.there;
    sorted = λ i x inside here. elim (Bool-cases (bucket_at h i == l)) [
      | inl same ↦
          let at : bucket_at h i ≡ l = ==→eq _ _ same in
          let here' : has x (without e (a.members l)) ≡ true =
            ap (has x) (
              sym (
                ap (put a.members l (without e (a.members l))) at
                ∙ put_same a.members l (without e (a.members l))))
            ∙ here in
          t.sorted i x inside
            (ap (λ k. has x (a.members k)) at ∙ has-without e x (a.members l) here')
      | inr other ↦ t.sorted i x inside (
          ap (has x) (
            sym (
              put_other a.members l (without e (a.members l)) (bucket_at h i)
                (==-false→≢ _ _ other)))
          ∙ here)
    ];
  }

  -- hash_append keeps the table: an element that is in no list goes to the end of the bucket of its
  -- key, and the other lists are as they were.
  pub hash_append-IsTable :
      (e v key : ℕ)
      → e ≢ 0
      → a.owner e ≡ 0
      → key_of e ≡ key
      → let l = hash_list h key in
        let a' : Lists = record {
          members = put a.members l (a.members l ++ (e ∷ []));
          owner = put a.owner e l;
        } in
        Stands (hash_append s h key e v) a' × IsTable a' h key_of
  hash_append-IsTable e v key some_e free is_key =
      let l = hash_list h key in
      let set : l ≢ 0 = λ z. omega (arith, t.there) in
      let joins : join a l e (a.members l ++ (e ∷ [])) ≡ record {
        members = put a.members l (a.members l ++ (e ∷ []));
        owner = put a.owner e l;
      } =
        rw (≢-false l set, ≢-false e some_e, free) refl in
      (
        subst (λ b. Stands (hash_append s h key e v) b) joins
            (subst (λ q. Stands q (join a l e (a.members l ++ (e ∷ []))))
              (sym (hash_append-list_append key e v some_e))
              (run-spec s a (Call.append l e v) r tt)),
        joined-IsTable e key (put a.owner e l) is_key,
      )

  -- hash_unlink keeps the table: the element leaves its list, and the others are as they were.
  pub hash_unlink-IsTable :
      (e : ℕ) → Stands (hash_unlink s e) (leave a e) × IsTable (leave a e) h key_of
  unfolding hash_unlink
  hash_unlink-IsTable e = (
    run-spec s a (Call.unlink e) r tt,
    elim (Bool-cases (e == 0)) [
      | inl y ↦ rw y t
      | inr n ↦ elim (Bool-cases (a.owner e == 0)) [
        | inl y ↦ rw (n, y) t
        | inr m ↦ rw (n, m) (left_lem (a.owner e) e (put a.owner e 0))
      ]
    ],
  )
