-- ===== src/Linked/Bubble.antt =====
-- One pass of `list_sort` of src/list/list.c on the sequence that the list stands for.
use re_cpm.Base.{
  ℕ, ◌+◌, ◌≤◌, ◌≡◌, refl, arith, Bool, true, false, if◌then◌else◌, Bool-cases, inl, inr, List, [],
  ◌∷◌,
}
use mathlib.Core.List.{Perm}
use mathlib.Core.List.Perm
use re_cpm.Linked.Sorted.{IsSorted, IsTotal}

module _ (sh : ℕ → ℕ → Bool) where
  -- The element `e` moves behind those that it may not stand before, up to one that takes over.
  abbrev pub bubble : ℕ → List ℕ → List ℕ
  bubble e [] = e ∷ []
  bubble e (z ∷ zs) = if sh e z then e ∷ bubble z zs else z ∷ bubble e zs

  -- Whether the pass swaps anything.
  abbrev pub swaps : ℕ → List ℕ → Bool
  swaps e [] = false
  swaps e (z ∷ zs) = if sh e z then swaps z zs else true

  -- How many of `zs` may not follow `x`, and how many pairs stand the wrong way round.
  abbrev pub wrong : ℕ → List ℕ → ℕ
  wrong x [] = 0
  wrong x (z ∷ zs) = (if sh x z then 0 else 1) + wrong x zs

  abbrev pub inversions : List ℕ → ℕ
  inversions [] = 0
  inversions (x ∷ xs) = wrong x xs + inversions xs

  wrong-bubble : (x e : ℕ) (zs : List ℕ) → wrong x (bubble e zs) ≡ wrong x (e ∷ zs)
  wrong-bubble x e [] = refl
  wrong-bubble x e (z ∷ zs) = ground (arith, wrong-bubble x z zs, wrong-bubble x e zs)

  fine_count : (x z : ℕ) (zs : List ℕ) → sh x z ≡ true → wrong x (z ∷ zs) ≡ wrong x zs
  fine_count x z zs h = ground arith

  -- A pass leaves no more inversions, and fewer when it swaps.
  pub inversions-bubble :
      IsTotal sh
      → (e : ℕ) (zs : List ℕ)
      → (if swaps e zs then 1 else 0) + inversions (bubble e zs) ≤ inversions (e ∷ zs)
  inversions-bubble total e [] = omega arith
  inversions-bubble total e (z ∷ zs) = elim (Bool-cases (sh e z)) [
    | inl fine ↦
        rw fine
          (omega (arith, inversions-bubble total z zs, wrong-bubble e z zs, fine_count e z zs fine))
    | inr wrong_way ↦ rw wrong_way (
        omega (
          arith,
          inversions-bubble total e zs,
          wrong-bubble z e zs,
          fine_count z e zs (total e z wrong_way),
        ))
  ]

  -- A pass that swaps nothing has found the list sorted.
  pub IsSorted-bubble :
      (e : ℕ) (zs : List ℕ) → swaps e zs ≡ false → (bubble e zs ≡ e ∷ zs) × IsSorted sh (e ∷ zs)
  IsSorted-bubble e [] h = (refl, tt)
  IsSorted-bubble e (z ∷ zs) h = elim (Bool-cases (sh e z)) [
    | inl fine ↦
        let (same, o) = IsSorted-bubble z zs (ground arith) in (ground (arith, same), (fine, o))
    | inr wrong_way ↦ absurd (ground arith)
  ]

  pub Perm-bubble : (e : ℕ) (zs : List ℕ) → Perm (bubble e zs) (e ∷ zs)
  Perm-bubble e [] = Perm.refl (e ∷ [])
  Perm-bubble e (z ∷ zs) = elim (Bool-cases (sh e z)) [
    | inl fine ↦ rw fine (Perm.cons e (Perm-bubble z zs))
    | inr wrong_way ↦ rw wrong_way (Perm.trans (Perm.cons z (Perm-bubble e zs)) (Perm.swap e z zs))
  ]
