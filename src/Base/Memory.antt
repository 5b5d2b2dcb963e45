-- ===== src/Base/Memory.antt =====
-- Stretches of memory as lists: `memcpy` into a block, `memset`, and cutting a list in two.
use Prim.Native.Nat.{ℕ, zero, suc, ◌+◌, ◌-◌, ◌≤◌, max}
use mathlib.Core.Path.{◌≡◌, refl, ap, sym, ◌∙◌}
use mathlib.Core.List.{List, [], ◌∷◌, ◌++◌}
use native.Mathlib.Omega.{arith}
use re_cpm.Base.Lists.{length, take, drop}

module _ {ℓ} {A : Type ℓ} where
  -- `memcpy(block + i, data, length data)`; what falls outside the block is not written.
  abbrev pub overwrite : List A → ℕ → List A → List A
  overwrite [] i bs = []
  overwrite (x ∷ xs) zero [] = x ∷ xs
  overwrite (x ∷ xs) zero (b ∷ bs) = b ∷ overwrite xs zero bs
  overwrite (x ∷ xs) (suc i) bs = x ∷ overwrite xs i bs

  pub length-overwrite :
      (xs : List A) (i : ℕ) (bs : List A) → length (overwrite xs i bs) ≡ length xs
  length-overwrite [] i bs = refl
  length-overwrite (x ∷ xs) zero [] = refl
  length-overwrite (x ∷ xs) zero (b ∷ bs) = ap suc (length-overwrite xs zero bs)
  length-overwrite (x ∷ xs) (suc i) bs = ap suc (length-overwrite xs i bs)

  -- Up to its end, what was written stands behind what was there.
  pub take-overwrite :
      (xs : List A) (i : ℕ) (bs : List A) (n : ℕ)
      → n ≡ i + length bs
      → n ≤ length xs
      → take n (overwrite xs i bs) ≡ take i xs ++ bs
  take-overwrite xs zero [] zero e h = refl
  take-overwrite xs zero (b ∷ bs) zero e h = absurd (omega arith)
  take-overwrite xs (suc i) bs zero e h = absurd (omega arith)
  take-overwrite [] i bs (suc n) e h = absurd (omega arith)
  take-overwrite (x ∷ xs) zero [] (suc n) e h = absurd (omega arith)
  take-overwrite (x ∷ xs) zero (b ∷ bs) (suc n) e h =
      ap (λ t. b ∷ t) (take-overwrite xs zero bs n (omega arith) (omega arith))
  take-overwrite (x ∷ xs) (suc i) bs (suc n) e h =
      ap (λ t. x ∷ t) (take-overwrite xs i bs n (omega arith) (omega arith))

  -- Beyond it nothing changes.
  pub drop-overwrite :
      (xs : List A) (i : ℕ) (bs : List A) (n : ℕ)
      → i + length bs ≤ n
      → drop n (overwrite xs i bs) ≡ drop n xs
  drop-overwrite [] i bs n h = refl
  drop-overwrite (x ∷ xs) zero [] n h = refl
  drop-overwrite (x ∷ xs) zero (b ∷ bs) zero h = absurd (omega arith)
  drop-overwrite (x ∷ xs) zero (b ∷ bs) (suc n) h = drop-overwrite xs zero bs n (omega arith)
  drop-overwrite (x ∷ xs) (suc i) bs zero h = absurd (omega arith)
  drop-overwrite (x ∷ xs) (suc i) bs (suc n) h = drop-overwrite xs i bs n (omega arith)

  pub take-append : (xs ys : List A) (n : ℕ) → n ≡ length xs → take n (xs ++ ys) ≡ xs
  take-append [] ys zero e = refl
  take-append [] ys (suc n) e = absurd (omega arith)
  take-append (x ∷ xs) ys zero e = absurd (omega arith)
  take-append (x ∷ xs) ys (suc n) e = ap (λ t. x ∷ t) (take-append xs ys n (omega arith))

  pub drop-append : (xs ys : List A) (n : ℕ) → n ≡ length xs → drop n (xs ++ ys) ≡ ys
  drop-append [] ys zero e = refl
  drop-append [] ys (suc n) e = absurd (omega arith)
  drop-append (x ∷ xs) ys zero e = absurd (omega arith)
  drop-append (x ∷ xs) ys (suc n) e = drop-append xs ys n (omega arith)

  drop_past : (n : ℕ) → ◌≡◌ {A = List A} [] (drop n [])
  drop_past zero = refl
  drop_past (suc n) = refl

  pub drop-drop : (m n : ℕ) (xs : List A) → drop n (drop m xs) ≡ drop (m + n) xs
  drop-drop zero n xs = ap (λ k. drop k xs) (omega arith)
  drop-drop (suc m) zero [] = drop_past (suc m + 0)
  drop-drop (suc m) (suc n) [] = drop_past (suc m + suc n)
  drop-drop (suc m) n (x ∷ xs) =
      drop-drop m n xs
      ∙ ap (λ k. drop k (x ∷ xs)) (let e : suc (m + n) ≡ suc m + n = omega arith in e)

  pub take-take : (m n : ℕ) (xs : List A) → m ≤ n → take m (take n xs) ≡ take m xs
  take-take zero n xs h = refl
  take-take (suc m) zero xs h = absurd (omega arith)
  take-take (suc m) (suc n) [] h = refl
  take-take (suc m) (suc n) (x ∷ xs) h = ap (λ t. x ∷ t) (take-take m n xs (omega arith))

  pub take-append_le : (xs ys : List A) (n : ℕ) → n ≤ length xs → take n (xs ++ ys) ≡ take n xs
  take-append_le xs ys zero h = refl
  take-append_le [] ys (suc n) h = absurd (omega arith)
  take-append_le (x ∷ xs) ys (suc n) h = ap (λ t. x ∷ t) (take-append_le xs ys n (omega arith))

  -- What stands up to the end, after a write at `i`: the new bytes in place of the old.
  pub take-overwrite-max :
      (xs : List A) (i : ℕ) (bs : List A) (e j n : ℕ)
      → i ≤ e
      → e ≤ length xs
      → j ≡ i + length bs
      → j ≤ length xs
      → n ≡ max e j
      → take n (overwrite xs i bs) ≡ take i xs ++ (bs ++ drop j (take e xs))
  take-overwrite-max [] zero [] e zero n h k f l m =
      ap (λ t. take t []) (let q : n ≡ e = omega arith in q)
  take-overwrite-max (x ∷ xs) zero [] e zero n h k f l m =
      ap (λ t. take t (x ∷ xs)) (let q : n ≡ e = omega arith in q)
  take-overwrite-max [] zero [] e (suc j) n h k f l m = absurd (omega arith)
  take-overwrite-max (x ∷ xs) zero [] e (suc j) n h k f l m = absurd (omega arith)
  take-overwrite-max [] zero (b ∷ bs) e j n h k f l m = absurd (omega arith)
  take-overwrite-max [] (suc i) bs e j n h k f l m = absurd (omega arith)
  take-overwrite-max (x ∷ xs) zero (b ∷ bs) e zero n h k f l m = absurd (omega arith)
  take-overwrite-max (x ∷ xs) zero (b ∷ bs) e (suc j) zero h k f l m = absurd (omega arith)
  take-overwrite-max (x ∷ xs) zero (b ∷ bs) zero (suc j) (suc n) h k f l m =
      ap (λ t. b ∷ t)
        (take-overwrite-max xs zero bs zero j n (omega arith) (omega arith) (omega arith)
            (omega arith) (omega arith)
          ∙ ap (λ t. bs ++ t) (sym (drop_past j)))
  take-overwrite-max (x ∷ xs) zero (b ∷ bs) (suc e) (suc j) (suc n) h k f l m =
      ap (λ t. b ∷ t)
        (take-overwrite-max xs zero bs e j n (omega arith) (omega arith) (omega arith) (omega arith)
          (omega arith))
  take-overwrite-max (x ∷ xs) (suc i) bs zero j n h k f l m = absurd (omega arith)
  take-overwrite-max (x ∷ xs) (suc i) bs (suc e) zero n h k f l m = absurd (omega arith)
  take-overwrite-max (x ∷ xs) (suc i) bs (suc e) (suc j) zero h k f l m = absurd (omega arith)
  take-overwrite-max (x ∷ xs) (suc i) bs (suc e) (suc j) (suc n) h k f l m =
      ap (λ t. x ∷ t)
        (take-overwrite-max xs i bs e j n (omega arith) (omega arith) (omega arith) (omega arith)
          (omega arith))

  pub drop-take : (xs : List A) (i j e : ℕ) → i + j ≡ e → drop i (take e xs) ≡ take j (drop i xs)
  drop-take xs zero j e h = ap (λ k. take k xs) (let q : e ≡ j = omega arith in q)
  drop-take xs (suc i) j zero h = absurd (omega arith)
  drop-take [] (suc i) zero (suc e) h = refl
  drop-take [] (suc i) (suc j) (suc e) h = refl
  drop-take (x ∷ xs) (suc i) j (suc e) h = drop-take xs i j e (omega arith)

  -- Reading `n` bytes at `i` does not depend on what stands behind the end.
  pub take-drop :
      (xs : List A) (i e n : ℕ)
      → n ≤ e - i
      → i ≤ e
      → take n (drop i xs) ≡ take n (drop i (take e xs))
  take-drop xs i e n h k =
      sym (take-take n (e - i) (drop i xs) h)
      ∙ ap (take n) (sym (drop-take xs i (e - i) e (omega arith)))
