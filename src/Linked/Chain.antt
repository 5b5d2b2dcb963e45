-- ===== src/Linked/Chain.antt =====
-- The elements of a list of src/list/list.c, one after the other.
use re_cpm.Base.{
  ℕ, ◌≡◌, ◌≢◌, refl, sym, subst, ◌∙◌, arith, Bool, true, false, ◌||◌, ◌==◌, List, [], ◌∷◌, ◌++◌,
}
use re_cpm.Linked.{Le, put}

abbrev pub has : ℕ → List ℕ → Bool
has a [] = false
has a (x ∷ xs) = (a == x) || has a xs

-- The first address of a stretch that is followed by `n`, and the last of one that follows `p`.
abbrev pub first : List ℕ → ℕ → ℕ
first [] n = n
first (x ∷ xs) n = x

abbrev pub last : ℕ → List ℕ → ℕ
last p [] = p
last p (x ∷ xs) = last x xs

-- The element at `x` of list `l`, between `p` and `n`.
pub record Node (h : ℕ → Le) (l p x n : ℕ) : Type 0 where
  pub there : x ≢ 0
  pub prev_is : (h x).prev ≡ p
  pub next_is : (h x).next ≡ n
  pub list_is : (h x).list ≡ l

-- Distinct elements of list `l`, from `p` on and before `n`.
abbrev pub Chain : (ℕ → Le) → ℕ → ℕ → List ℕ → ℕ → Type 0
Chain h l p [] n = Unit
Chain h l p (x ∷ xs) n = Node h l p x (first xs n) × (has x xs ≡ false) × Chain h l x xs n

pub has-append : (a : ℕ) (xs ys : List ℕ) → has a (xs ++ ys) ≡ (has a xs || has a ys)
has-append a [] ys = refl
has-append a (x ∷ xs) ys = ground (arith, has-append a xs ys)

pub first-append : (xs ys : List ℕ) (n : ℕ) → first (xs ++ ys) n ≡ first xs (first ys n)
first-append [] ys n = refl
first-append (x ∷ xs) ys n = refl

pub last-append : (p : ℕ) (xs ys : List ℕ) → last p (xs ++ ys) ≡ last (last p xs) ys
last-append p [] ys = refl
last-append p (x ∷ xs) ys = last-append x xs ys

pub has-last : (x : ℕ) (xs : List ℕ) → has (last x xs) (x ∷ xs) ≡ true
has-last x [] = ground arith
has-last x (y ∷ ys) = ground (arith, has-last y ys)

-- Two addresses, one of them in the list.
pub has-≢ : (a b : ℕ) (xs : List ℕ) → has a xs ≡ false → has b xs ≡ true → b ≢ a
has-≢ a b xs out i e = ground arith

pub put_other {ℓ} : {A : Type ℓ} (h : ℕ → A) (a : ℕ) (c : A) (b : ℕ) → b ≢ a → put h a c b ≡ h b
unfolding put
put_other h a c b out = ground arith

pub put_same {ℓ} : {A : Type ℓ} (h : ℕ → A) (a : ℕ) (c : A) → put h a c a ≡ c
unfolding put
put_same h a c = ground arith

pub Node-frame :
    (h : ℕ → Le) (l : ℕ) (g : ℕ → Le) (p x n : ℕ) → g x ≡ h x → Node h l p x n → Node g l p x n
Node-frame h l g p x n same c = ground arith

module _ (h : ℕ → Le) (l : ℕ) where
  -- What no write touched is as it was.
  pub Chain-frame :
      (g : ℕ → Le) (p : ℕ) (xs : List ℕ) (n : ℕ)
      → ((a : ℕ) → has a xs ≡ true → g a ≡ h a)
      → Chain h l p xs n
      → Chain g l p xs n
  Chain-frame g p [] n same c = tt
  Chain-frame g p (x ∷ xs) n same c =
      (ground (arith, same x), c.1, Chain-frame g x xs n (λ a i. same a (ground arith)) c.2)

  pub Chain-put :
      (a : ℕ) (c : Le) (p : ℕ) (xs : List ℕ) (n : ℕ)
      → has a xs ≡ false
      → Chain h l p xs n
      → Chain (put h a c) l p xs n
  unfolding put
  Chain-put a c p xs n out k =
      Chain-frame (put h a c) p xs n (λ b i. put_other h a c b (has-≢ a b xs out i)) k

  -- An element that is in no list, or in another, is not among them; nor is NULL.
  pub Chain-other :
      (a p : ℕ) (xs : List ℕ) (n : ℕ) → (h a).list ≢ l → Chain h l p xs n → has a xs ≡ false
  Chain-other a p [] n out c = refl
  Chain-other a p (x ∷ xs) n out c = ground (arith, Chain-other a x xs n out c.2)

  pub Chain-null : (p : ℕ) (xs : List ℕ) (n : ℕ) → Chain h l p xs n → has 0 xs ≡ false
  Chain-null p [] n c = refl
  Chain-null p (x ∷ xs) n c = ground (arith, Chain-null x xs n c.2)

  pub Chain-list :
      (a p : ℕ) (xs : List ℕ) (n : ℕ) → Chain h l p xs n → has a xs ≡ true → (h a).list ≡ l
  Chain-list a p [] n c i = absurd (ground arith)
  Chain-list a p (x ∷ xs) n c i = ground (arith, Chain-list a x xs n c.2)

  pub Chain-split :
      (p : ℕ) (xs ys : List ℕ) (n : ℕ)
      → Chain h l p (xs ++ ys) n
      → Chain h l p xs (first ys n)
        × Chain h l (last p xs) ys n
        × ((a : ℕ) → has a xs ≡ true → has a ys ≡ false)
  Chain-split p [] ys n c = (tt, c, λ a i. absurd (ground arith))
  Chain-split p (x ∷ xs) ys n c =
      let (left, right, apart) = Chain-split x xs ys n c.2 in
      let out : (has x xs || has x ys) ≡ false = sym (has-append x xs ys) ∙ c.1 in
      (
        (subst (Node h l p x) (first-append xs ys n) c.0, ground arith, left),
        right,
        λ a i. ground (arith, apart a, out),
      )

  pub Chain-join :
      (p : ℕ) (xs ys : List ℕ) (n : ℕ)
      → Chain h l p xs (first ys n)
      → Chain h l (last p xs) ys n
      → ((a : ℕ) → has a xs ≡ true → has a ys ≡ false)
      → Chain h l p (xs ++ ys) n
  Chain-join p [] ys n c d apart = d
  Chain-join p (x ∷ xs) ys n c d apart = (
    subst (Node h l p x) (sym (first-append xs ys n)) c.0,
    has-append x xs ys ∙ ground (arith, c.1, apart x),
    Chain-join x xs ys n c.2 d (λ a i. apart a (ground arith)),
  )

  -- The last element is given another successor, and the first another predecessor.
  pub Chain-set_next :
      (p x : ℕ) (xs : List ℕ) (n m : ℕ)
      → Chain h l p (x ∷ xs) n
      → Chain (put h (last x xs) (record (h (last x xs)) { next = m })) l p (x ∷ xs) m
  unfolding put
  Chain-set_next p x [] n m c = (ground arith, refl, tt)
  Chain-set_next p x (y ∷ ys) n m c =
      let far : last y ys ≢ x = has-≢ x (last y ys) (y ∷ ys) c.1 (has-last y ys) in
      (
        Node-frame h l _ p x y (put_other h _ _ x (λ e. far (sym e))) c.0,
        c.1,
        Chain-set_next x y ys n m c.2,
      )

  pub Chain-set_prev :
      (p x : ℕ) (xs : List ℕ) (n q : ℕ)
      → Chain h l p (x ∷ xs) n
      → Chain (put h x (record (h x) { prev = q })) l q (x ∷ xs) n
  unfolding put
  Chain-set_prev p x xs n q c =
      (ground arith, c.1, Chain-put x (record (h x) { prev = q }) x xs n c.1 c.2)
