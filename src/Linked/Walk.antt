-- ===== src/Linked/Walk.antt =====
-- The loops of src/list/list.c that only read: `list_count` and `list_apply`.
use re_cpm.Base.{
  ℕ, zero, suc, ◌+◌, ◌%◌, ◌^◌, ◌<◌, ◌≡◌, ◌≢◌, refl, sym, ap, subst, ◌∙◌, arith, Bool, true, false,
  ◌==◌, if◌then◌else◌, Bool-cases, inl, inr, some, List, [], ◌∷◌, length, reverse, reverse-cons,
  reverse-reverse, length-reverse,
}
use re_cpm.Linked.{Store, count_loop, list_count, apply_loop, list_apply}
use re_cpm.Linked.Chain.{first, last, last-append, Chain, Chain-split}
use re_cpm.Linked.World.{IsList}

pub ≢-false : (n : ℕ) → n ≢ 0 → (n == 0) ≡ false
≢-false n h = ground arith

-- The first element at which the handler stops; 0 is NULL.
abbrev pub find : (ℕ → Bool) → List ℕ → ℕ
find stop [] = 0
find stop (x ∷ xs) = if stop x then x else find stop xs

module _ (s : Store) (l : ℕ) where
  count_loop-eq :
      (fuel p : ℕ) (xs : List ℕ) (n : ℕ)
      → Chain s.le l p xs 0
      → length xs < fuel
      → n + length xs < 2 ^ 32
      → count_loop fuel s (first xs 0) n ≡ some (n + length xs)
  unfolding count_loop
  count_loop-eq zero p xs n c h k = absurd (omega arith)
  count_loop-eq (suc fuel) p [] n c h k = ap some (omega arith)
  count_loop-eq (suc fuel) p (x ∷ xs) n c h k =
      let next : (n + 1) % 2 ^ 32 ≡ n + 1 = omega arith in
      rw (≢-false x c.0.there, c.0.next_is, next)
        (count_loop-eq fuel x xs (n + 1) c.2 (omega arith) (omega arith) ∙ ap some (omega arith))

  forward :
      (fuel p : ℕ) (stop : ℕ → Bool) (xs : List ℕ)
      → Chain s.le l p xs 0
      → length xs < fuel
      → apply_loop fuel (λ c. c.next) s stop (first xs 0) ≡ some (find stop xs)
  unfolding apply_loop
  forward zero p stop xs c h = absurd (omega arith)
  forward (suc fuel) p stop [] c h = refl
  forward (suc fuel) p stop (x ∷ xs) c h =
      let more = forward fuel x stop xs c.2 (omega arith) in
      elim (Bool-cases (stop x)) [
        | inl here ↦ rw (≢-false x c.0.there, here) refl
        | inr on ↦ rw (≢-false x c.0.there, on, c.0.next_is) more
      ]

  -- The elements before the place that is reached stand in `rs`, the nearest first.
  backward :
      (fuel n : ℕ) (stop : ℕ → Bool) (rs : List ℕ)
      → Chain s.le l 0 (reverse rs) n
      → length rs < fuel
      → apply_loop fuel (λ c. c.prev) s stop (last 0 (reverse rs)) ≡ some (find stop rs)
  unfolding apply_loop
  backward zero n stop rs c h = absurd (omega arith)
  backward (suc fuel) n stop [] c h = refl
  backward (suc fuel) n stop (r ∷ rs) c h =
      let (early, late, apart) =
        Chain-split s.le l 0 (reverse rs) (r ∷ []) n
          (subst (λ t. Chain s.le l 0 t n) (reverse-cons r rs) c) in
      let at : last 0 (reverse (r ∷ rs)) ≡ r =
        ap (last 0) (reverse-cons r rs) ∙ last-append 0 (reverse rs) (r ∷ []) in
      let more = backward fuel r stop rs early (omega arith) in
      elim (Bool-cases (stop r)) [
        | inl here ↦ rw (at, ≢-false r late.0.there, here) refl
        | inr on ↦ rw (at, ≢-false r late.0.there, on, late.0.prev_is) more
      ]

-- `list_count` of a list of less than 2^32 elements is their number, given a round for each and one
-- more.
pub list_count-eq :
    (fuel : ℕ) (s : Store) (l : ℕ) (xs : List ℕ)
    → l ≢ 0
    → IsList s l xs
    → length xs < fuel
    → length xs < 2 ^ 32
    → list_count fuel s l ≡ some (length xs)
unfolding list_count
list_count-eq fuel s l xs some_l k h small =
    rw (≢-false l some_l, k.head_is)
      (count_loop-eq s l fuel 0 xs 0 k.chain h (omega arith) ∙ ap some (omega arith))

-- `list_apply` stops at the first element from the head, or from the tail, at which the handler says
-- so, or returns NULL, given a round for each element and one more.
pub list_apply-eq :
    (fuel : ℕ) (s : Store) (l : ℕ) (xs : List ℕ) (fwd : Bool) (stop : ℕ → Bool)
    → l ≢ 0
    → IsList s l xs
    → length xs < fuel
    → list_apply fuel s l fwd stop ≡ some (find stop (if fwd then xs else reverse xs))
unfolding list_apply
list_apply-eq fuel s l xs true stop some_l k h =
    rw (≢-false l some_l, k.head_is) (forward s l fuel 0 stop xs k.chain h)
list_apply-eq fuel s l xs false stop some_l k h =
    let twice : xs ≡ reverse (reverse xs) = sym (reverse-reverse xs) in
    rw (≢-false l some_l, k.tail_is)
      (ap (λ t. apply_loop fuel (λ c. c.prev) s stop (last 0 t)) twice
        ∙ backward s l fuel 0 stop (reverse xs) (subst (λ t. Chain s.le l 0 t 0) twice k.chain)
            (omega (arith, length-reverse {0} xs)))
