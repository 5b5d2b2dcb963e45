-- ===== src/Linked/Spec.antt =====
-- What the lists of src/list/list.c stand for: sequences of elements, and for each element the list
-- that it is in. The calls on this view, and what they ask of the caller.
use re_cpm.Base.{
  ℕ, ◌≡◌, refl, ap, arith, true, false, ◌||◌, ◌==◌, if◌then◌else◌, Bool-cases, inl, inr, List, [],
  ◌∷◌, ◌++◌,
}
use re_cpm.Linked.{
  Store, put, list_append, list_prepend, list_insert_before, list_insert_after, list_unlink,
  list_move,
}
use re_cpm.Linked.Chain.{has}

pub record Lists : Type 0 where
  pub members : ℕ → List ℕ
  -- 0 where the element is in no list
  pub owner : ℕ → ℕ

-- A call, with its pointers and the data pointer.
pub data Call : Type 0 where
  append : (l e v : ℕ) → Call
  prepend : (l e v : ℕ) → Call
  insert_before : (l e i v : ℕ) → Call
  insert_after : (l e i v : ℕ) → Call
  unlink : (e : ℕ) → Call
  move : (e l : ℕ) → Call

abbrev pub run : Store → Call → Store
run s (append l e v) = list_append s l e v
run s (prepend l e v) = list_prepend s l e v
run s (insert_before l e i v) = list_insert_before s l e i v
run s (insert_after l e i v) = list_insert_after s l e i v
run s (unlink e) = list_unlink s e
run s (move e l) = list_move s e l

-- The given element of an insertion is in the list.
abbrev pub IsAllowed : Lists → Call → Type 0
IsAllowed a (append l e v) = Unit
IsAllowed a (prepend l e v) = Unit
IsAllowed a (insert_before l e i v) = has e (a.members l) ≡ true
IsAllowed a (insert_after l e i v) = has e (a.members l) ≡ true
IsAllowed a (unlink e) = Unit
IsAllowed a (move e l) = Unit

abbrev pub put_before : ℕ → ℕ → List ℕ → List ℕ
put_before e i [] = []
put_before e i (x ∷ xs) = if x == e then i ∷ x ∷ xs else x ∷ put_before e i xs

abbrev pub put_after : ℕ → ℕ → List ℕ → List ℕ
put_after e i [] = []
put_after e i (x ∷ xs) = if x == e then x ∷ i ∷ xs else x ∷ put_after e i xs

abbrev pub without : ℕ → List ℕ → List ℕ
without e [] = []
without e (x ∷ xs) = if x == e then xs else x ∷ without e xs

-- An element that is in no list joins one.
abbrev pub join : Lists → ℕ → ℕ → List ℕ → Lists
join a l e xs =
    if l == 0 || e == 0
    then a
    else if a.owner e == 0
    then record { members = put a.members l xs; owner = put a.owner e l }
    else a

abbrev pub leave : Lists → ℕ → Lists
leave a e = if e == 0 then a else if a.owner e == 0 then a else record {
  members = put a.members (a.owner e) (without e (a.members (a.owner e)));
  owner = put a.owner e 0;
}

abbrev pub spec : Lists → Call → Lists
spec a (append l e v) = join a l e (a.members l ++ (e ∷ []))
spec a (prepend l e v) = join a l e (e ∷ a.members l)
spec a (insert_before l e i v) = join a l i (put_before e i (a.members l))
spec a (insert_after l e i v) = join a l i (put_after e i (a.members l))
spec a (unlink e) = leave a e
spec a (move e l) = let out = leave a e in join out l e (out.members l ++ (e ∷ []))

-- A member splits its list in two.
pub member_split :
    (e : ℕ) (xs : List ℕ)
    → has e xs ≡ true
    → (ys : List ℕ) × (zs : List ℕ) × (xs ≡ ys ++ (e ∷ zs)) × (has e ys ≡ false)
member_split e [] h = absurd (ground arith)
member_split e (x ∷ xs) h = elim (Bool-cases (e == x)) [
  | inl same ↦ ([], xs, ap (λ a. a ∷ xs) (ground arith), refl)
  | inr other ↦
      let (ys, zs, at, out) = member_split e xs (ground arith) in
      (x ∷ ys, zs, ap (λ t. x ∷ t) at, ground arith)
]

module _ (e : ℕ) (zs : List ℕ) where
  pub put_before-at :
      (i : ℕ) (ys : List ℕ)
      → has e ys ≡ false
      → put_before e i (ys ++ (e ∷ zs)) ≡ ys ++ (i ∷ e ∷ zs)
  put_before-at i [] out = ground arith
  put_before-at i (y ∷ ys) out = ground (arith, put_before-at i ys)

  pub put_after-at :
      (i : ℕ) (ys : List ℕ) → has e ys ≡ false → put_after e i (ys ++ (e ∷ zs)) ≡ ys ++ (e ∷ i ∷ zs)
  put_after-at i [] out = ground arith
  put_after-at i (y ∷ ys) out = ground (arith, put_after-at i ys)

  pub without-at : (ys : List ℕ) → has e ys ≡ false → without e (ys ++ (e ∷ zs)) ≡ ys ++ zs
  without-at [] out = ground arith
  without-at (y ∷ ys) out = ground (arith, without-at ys)
