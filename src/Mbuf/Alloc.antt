-- ===== src/Mbuf/Alloc.antt =====
-- What `mbuf_alloc` of src/mbuf/mbuf.c returns.
use re_cpm.Base.{
  ℕ, zero, suc, ◌<◌, ◌≤◌, ◌≡◌, refl, sym, ap, ◌∙◌, arith, ◌==◌, false, inl, inr, none, some,
  some-eq, [], length,
}
use re_cpm.Platform.{Platform}
use re_cpm.Mem.{mem_size_max}
use re_cpm.Mbuf.{Mbuf, init, alloc, default_size}
use re_cpm.Mbuf.Inv.{IsValid, new_block-length, resize_cases}

-- A block that `mbuf_alloc` returns.
pub alloc-eq :
    (p : Platform) (n : ℕ) (b : Mbuf)
    → 0 < n
    → alloc p n ≡ some b
    → (b ≡ record { buf = b.buf; size = n; pos = 0; end = 0 })
      × (length b.buf ≡ n)
      × (n ≤ mem_size_max)
unfolding alloc init
alloc-eq p n b some_n e =
    let some_size : (n == 0) ≡ false = ground arith in
    elim (resize_cases p init n) [
      | inl failed ↦
          let no_memory : alloc p n ≡ none = rw (some_size, failed) refl in
          absurd (ground (arith, no_memory, e))
      | inr (block, got, same) ↦
          let full : Mbuf = record { buf = block; size = n; pos = 0; end = 0 } in
          let out : alloc p n ≡ some full = rw (some_size, same) refl in
          let is : full ≡ b = some-eq (sym out ∙ e) in
          let (len, small) = new_block-length p [] n block got in
          (
            sym is ∙ ap (λ x. record { buf = x.buf; size = n; pos = 0; end = 0 }) is,
            ap (λ x. length x.buf) (sym is) ∙ len,
            small,
          )
    ]

-- It is valid, and empty.
pub alloc-IsValid :
    (p : Platform) (n : ℕ) (b : Mbuf)
    → alloc p n ≡ some b
    → IsValid b × (b.pos ≡ 0) × (b.end ≡ 0) × (n ≤ mem_size_max)
alloc-IsValid p zero b e =
    let same : alloc p 0 ≡ alloc p default_size = unfold alloc in refl in
    let (is, len, fits) = alloc-eq p default_size b (omega arith) (sym same ∙ e) in
    let at = ap (λ m. m.pos) is in
    let end_at = ap (λ m. m.end) is in
    let size_is = ap (λ m. m.size) is in
    (omega (arith, len, fits, at, end_at, size_is), at, end_at, omega arith)
alloc-IsValid p (suc n) b e =
    let (is, len, fits) = alloc-eq p (suc n) b (omega arith) e in
    let at = ap (λ m. m.pos) is in
    let end_at = ap (λ m. m.end) is in
    let size_is = ap (λ m. m.size) is in
    (omega (arith, len, fits, at, end_at, size_is), at, end_at, fits)
