-- ===== src/Fmt/Trim.antt =====
-- pl_ltrim, pl_rtrim and pl_trim of src/fmt/pl.c.
use re_cpm.Base.{
  ℕ, zero, suc, ◌+◌, ◌≡◌, ◌≢◌, refl, ap, ◌∙◌, arith, ◌==◌, if◌then◌else◌, Bool, false, not, ◌&&◌,
  List, [], ◌∷◌, bit_or, Bool-cases, inl, inr,
}
use re_cpm.Base.Bits.{zero-bit_or}
use re_cpm.Base.Errno.{einval}
use re_cpm.Fmt.Pl.{Pl}
use re_cpm.Fmt.Regex.{
  Chr, attempt, round, plain_char, class_char, add_chr, and_then, after_attempt, regex_from,
  re_regex,
}

-- "[ \t\r\n]"
abbrev pub space_expr : List ℕ
space_expr = b'[' ∷ 32 ∷ 9 ∷ 13 ∷ 10 ∷ b']' ∷ []

abbrev pub pl_isset : Pl → Bool
pl_isset pl = not (pl.p == 0) && not (pl.l == 0)

module _ (m tolower : ℕ → ℕ) (stale : ℕ → Chr) where
  -- The loops, with so many characters left.
  unfoldable pub ltrim_loop : ℕ → ℕ → ℕ × Pl
  ltrim_loop zero p = (einval, record { p = p; l = 0 })
  ltrim_loop (suc l) p =
      let more = ltrim_loop l (p + 1) in
      if (re_regex m tolower stale p 1 space_expr).0 == 0
      then more
      else (0, record { p = p; l = suc l })

  unfoldable pub rtrim_loop : ℕ → ℕ → ℕ × Pl
  rtrim_loop zero p = (einval, record { p = p; l = 0 })
  rtrim_loop (suc l) p =
      let more = rtrim_loop l p in
      if (re_regex m tolower stale (p + l) 1 space_expr).0 == 0
      then more
      else (0, record { p = p; l = suc l })

  unfoldable pub pl_ltrim : Pl → ℕ × Pl
  pl_ltrim pl = if not (pl_isset pl) then (einval, pl) else ltrim_loop pl.l pl.p

  unfoldable pub pl_rtrim : Pl → ℕ × Pl
  pl_rtrim pl = if not (pl_isset pl) then (einval, pl) else rtrim_loop pl.l pl.p

  unfoldable pub pl_trim : Pl → ℕ × Pl
  pl_trim pl =
      let (err, pl') = pl_ltrim pl in let (err', pl'') = pl_rtrim pl' in (bit_or err err', pl'')

  -- A class with no count behind it: re_regex gives EINVAL, whatever the text is.
  space_expr-einval : (ptr : ℕ) → (re_regex m tolower stale ptr 1 space_expr).0 ≡ einval
  unfolding re_regex regex_from after_attempt attempt and_then round plain_char class_char add_chr
  space_expr-einval ptr = elim (Bool-cases (ptr == 0)) [ inl y ↦ rw y refl | inr n ↦ rw n refl ]

  ltrim_loop-eq : (l p : ℕ) → ltrim_loop (suc l) p ≡ (0, record { p = p; l = suc l })
  unfolding ltrim_loop
  ltrim_loop-eq l p =
      let fails : ((re_regex m tolower stale p 1 space_expr).0 == 0) ≡ false =
        ground (arith, space_expr-einval p) in
      rw fails refl

  rtrim_loop-eq : (l p : ℕ) → rtrim_loop (suc l) p ≡ (0, record { p = p; l = suc l })
  unfolding rtrim_loop
  rtrim_loop-eq l p =
      let fails : ((re_regex m tolower stale (p + l) 1 space_expr).0 == 0) ≡ false =
        ground (arith, space_expr-einval (p + l)) in
      rw fails refl

  -- On a text that is set and not empty pl_ltrim, pl_rtrim and pl_trim succeed and change nothing,
  -- whatever stands at its ends: re_regex refuses the expression that they give it.
  pub pl_trim-same :
      (p l : ℕ)
      → p ≢ 0
      → let pl : Pl = record { p = p; l = suc l } in
        (pl_ltrim pl ≡ (0, pl)) × (pl_rtrim pl ≡ (0, pl)) × (pl_trim pl ≡ (0, pl))
  unfolding pl_ltrim pl_rtrim pl_trim
  pl_trim-same p l set =
      let pl : Pl = record { p = p; l = suc l } in
      let is_set : (p == 0) ≡ false = ground arith in
      let some_l : (suc l == 0) ≡ false = ground arith in
      let left : pl_ltrim pl ≡ (0, pl) = rw (is_set, some_l) (ltrim_loop-eq l p) in
      let right : pl_rtrim pl ≡ (0, pl) = rw (is_set, some_l) (rtrim_loop-eq l p) in
      (
        left,
        right,
        ap (λ o. (bit_or o.0 (pl_rtrim o.1).0, (pl_rtrim o.1).1)) left
            ∙ ap (λ o. (bit_or 0 o.0, o.1)) right
            ∙ ap (λ n. (n, pl)) (zero-bit_or 0),
      )
