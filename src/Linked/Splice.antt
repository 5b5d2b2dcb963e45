-- ===== src/Linked/Splice.antt =====
-- An element is put between two stretches of a list, or taken out from between them.
use re_cpm.Base.{ℕ, ◌≡◌, arith, true, false, List, ◌∷◌, ◌++◌}
use re_cpm.Linked.{Le}
use re_cpm.Linked.Chain.{
  has, first, last, has-append, Node, Chain, Chain-frame, Chain-join, Chain-split,
}
use re_cpm.Linked.World.{relink_next, relink_prev, Chain-relink_next, Chain-relink_prev}

pub has-left : (a : ℕ) (ys zs : List ℕ) → has a (ys ++ zs) ≡ false → has a ys ≡ false
has-left a ys zs h = ground (arith, has-append a ys zs)

pub has-right : (a : ℕ) (ys zs : List ℕ) → has a (ys ++ zs) ≡ false → has a zs ≡ false
has-right a ys zs h = ground (arith, has-append a ys zs)

module _ (h g : ℕ → Le) (l : ℕ) (ys zs : List ℕ) (c : Chain h l 0 (ys ++ zs) 0) where
  pub Chain-insert :
      (e : ℕ)
      → Node g l (last 0 ys) e (first zs 0)
      → has e (ys ++ zs) ≡ false
      → ((a : ℕ) → has a ys ≡ true → g a ≡ relink_next h ys e a)
      → ((a : ℕ) → has a zs ≡ true → g a ≡ relink_prev h zs e a)
      → Chain g l 0 (ys ++ (e ∷ zs)) 0
  Chain-insert e node out left right =
      let (before, behind, apart) = Chain-split h l 0 ys zs 0 c in
      Chain-join g l 0 ys (e ∷ zs) 0
        (Chain-frame (relink_next h ys e) l g 0 ys e left
          (Chain-relink_next h l 0 ys (first zs 0) e before))
        (
          node,
          has-right e ys zs out,
          Chain-frame (relink_prev h zs e) l g e zs 0 right
              (Chain-relink_prev h l (last 0 ys) zs 0 e behind),
        )
        (λ a i. ground (arith, apart a i, has-left e ys zs out))

module _ (h g : ℕ → Le) (l e : ℕ) (ys zs : List ℕ) (c : Chain h l 0 (ys ++ (e ∷ zs)) 0) where
  pub Chain-remove :
      ((a : ℕ) → has a ys ≡ true → g a ≡ relink_next h ys (first zs 0) a)
      → ((a : ℕ) → has a zs ≡ true → g a ≡ relink_prev h zs (last 0 ys) a)
      → Chain g l 0 (ys ++ zs) 0
  Chain-remove left right =
      let (before, behind, apart) = Chain-split h l 0 ys (e ∷ zs) 0 c in
      Chain-join g l 0 ys zs 0
        (Chain-frame (relink_next h ys (first zs 0)) l g 0 ys (first zs 0) left
          (Chain-relink_next h l 0 ys e (first zs 0) before))
        (Chain-frame (relink_prev h zs (last 0 ys)) l g (last 0 ys) zs 0 right
          (Chain-relink_prev h l e zs 0 (last 0 ys) behind.2))
        (λ a i. ground (arith, apart a i))
