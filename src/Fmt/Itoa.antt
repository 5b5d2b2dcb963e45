-- ===== src/Fmt/Itoa.antt =====
-- `str_itoa` of src/fmt/str.c, and that src/fmt/pl.c reads what it writes.
use re_cpm.Base.{
  ℕ, zero, suc, ◌+◌, ◌-◌, ◌*◌, ◌/◌, ◌%◌, ◌^◌, ◌≤◌, ◌<◌, ◌≡◌, ◌≢◌, refl, sym, ap, ◌∙◌, arith, ◌==◌,
  if◌then◌else◌, true, Bool-cases, inl, inr, Option, none, some, some-eq, all_below, all_below→eq,
  ==_iff, List, [], ◌∷◌, get_or,
}
use re_cpm.Base64.{codes}
use re_cpm.Fmt.Chars.{between, text, text_last, store, store_here, store_else}
use re_cpm.Fmt.Pl.{Pl, hex_digit, pl_u32, pl_u64, pl_x32, pl_x64}
use re_cpm.Fmt.Pl.Numerals.{
  decimal, numeral, numeral-snoc, next, AreBytes, pl_numbers-eq, pl_hex-eq, converted,
}
use native.Mathlib.Nat.{
  div-add-mod', mod-lt, mod-eq_of_lt, pow-suc, pow-zero, div-lt_iff_lt-mul, pow-le-pow_left,
}

abbrev pub itoa_bufsz : ℕ
itoa_bufsz = 34

abbrev pub itoa_digit : ℕ → ℕ
itoa_digit d = get_or (codes "0123456789abcdef") d 0

-- The loop: the index behind it, and the memory. The buffer is at `buf`.
unfoldable pub itoa_loop : ℕ → ℕ → ℕ → ℕ → (ℕ → ℕ) → ℕ × (ℕ → ℕ)
itoa_loop buf base zero val m = (0, m)
itoa_loop buf base (suc i) val m =
    let more =
      itoa_loop buf base i (val / base) (store m (buf + suc i) (itoa_digit (val % base))) in
    if val == 0 then (suc i, m) else more

-- The address that is returned, and the memory.
unfoldable pub str_itoa : (ℕ → ℕ) → ℕ → ℕ → ℕ → ℕ × (ℕ → ℕ)
str_itoa m val buf base =
    let i = itoa_bufsz - 2 in
    let m1 = store m (buf + (itoa_bufsz - 1)) 0 in
    let (j, m2) = itoa_loop buf base i val m1 in
    if val == 0 then (buf + i, store m1 (buf + i) b'0') else (buf + j + 1, m2)

-- Agreement of two functions on a table.
agree_below→eq :
    (f g : ℕ → ℕ) (n : ℕ) → all_below n (λ i. f i == g i) ≡ true → (i : ℕ) → i < n → f i ≡ g i
agree_below→eq f g n e i h = (==_iff _ _).0 (all_below→eq n (λ j. f j == g j) i e h)

value_or : Option ℕ → ℕ
value_or none = 99
value_or (some d) = d

some_value : (o : Option ℕ) (d : ℕ) → d < 99 → value_or o ≡ d → o ≡ some d
unfolding value_or
some_value none d h e = absurd (omega arith)
some_value (some x) d h e = ap some e

hex_itoa : (d : ℕ) → d < 16 → hex_digit (itoa_digit d) ≡ some d
unfolding hex_digit all_below value_or
hex_itoa d h =
    some_value _ d (omega arith)
      (agree_below→eq (λ x. value_or (hex_digit (itoa_digit x))) (λ x. x) 16 refl d h)

decimal_itoa : (d : ℕ) → d < 10 → decimal (itoa_digit d) ≡ some d
unfolding all_below value_or
decimal_itoa d h =
    some_value _ d (omega arith)
      (agree_below→eq (λ x. value_or (decimal (itoa_digit x))) (λ x. x) 10 refl d h)

itoa_byte : (d : ℕ) → d < 16 → itoa_digit d < 256
unfolding all_below
itoa_byte d h = omega (arith, agree_below→eq (λ x. itoa_digit x / 256) (λ x. 0) 16 refl d h)

module _ (buf base : ℕ) (digit : ℕ → Option ℕ) (wide : 2 ≤ base)
    (reads : (d : ℕ) → d < base → digit (itoa_digit d) ≡ some d) where
  -- Behind the loop the characters from the index on are the numeral of `val`; those that were
  -- there already stay.
  abbrev Written : ℕ → ℕ → (ℕ → ℕ) → ℕ × (ℕ → ℕ) → Type 0
  Written i val m (j, m') =
      (j ≤ i)
      × (numeral base digit (text m' (buf + j + 1) (i - j)) 0 ≡ some val)
      × ((a : ℕ) → buf + i < a → m' a ≡ m a)

  itoa_loop-Written :
      (i val : ℕ) (m : ℕ → ℕ) → val < base ^ i → Written i val m (itoa_loop buf base i val m)
  unfolding itoa_loop
  itoa_loop-Written zero val m h =
      (omega arith, unfold text in ap some (omega (arith, pow-zero base)), λ a k. refl)
  itoa_loop-Written (suc i) val m h = elim (Bool-cases (val == 0)) [
    | inl none_left ↦
        let z : val ≡ 0 = ground arith in
        let nothing : suc i - suc i ≡ 0 = omega arith in
        rw (none_left, nothing) (omega arith, unfold text in ap some (sym z), λ a k. refl)
    | inr some_left ↦
        let d = val % base in
        let m1 = store m (buf + suc i) (itoa_digit d) in
        let out = itoa_loop buf base i (val / base) m1 in
        let (at, read, kept) = itoa_loop-Written i (val / base) m1 (
          (div-lt_iff_lt-mul {x = val} {y = base ^ i} (omega arith)).1
            (omega (arith, pow-suc base i))) in
        let here : out.1 (buf + out.0 + 1 + (i - out.0)) ≡ itoa_digit d =
          ap out.1 (omega (arith, at))
          ∙ kept (buf + suc i) (omega arith)
          ∙ store_here m (buf + suc i) (itoa_digit d) (buf + suc i) refl in
        let one_more : suc i - out.0 ≡ suc (i - out.0) = omega (arith, at) in
        let whole : val / base * base + d ≡ val = div-add-mod' val base in
        rw some_left (
          omega (arith, at),
          ap (λ n. numeral base digit (text out.1 (buf + out.0 + 1) n) 0) one_more
              ∙ ap (λ t. numeral base digit t 0) (text_last out.1 (buf + out.0 + 1) (i - out.0))
              ∙ numeral-snoc base digit (text out.1 (buf + out.0 + 1) (i - out.0)) _ 0
              ∙ ap (λ o. next base o (digit (out.1 (buf + out.0 + 1 + (i - out.0))))) read
              ∙ ap (next base (some (val / base)))
                  (ap digit here ∙ reads d (mod-lt val (omega arith)))
              ∙ ap some whole,
          λ a k. kept a (omega arith) ∙ store_else m (buf + suc i) (itoa_digit d) a (omega arith),
        )
  ]

  -- The text that str_itoa gives, up to its zero, is the numeral.
  abbrev Prints : ℕ → ℕ × (ℕ → ℕ) → Type 0
  Prints val (q, m') =
      (buf ≤ q)
      × (q < buf + 33)
      × (numeral base digit (text m' q (buf + 33 - q)) 0 ≡ some val)
      × (m' (buf + 33) ≡ 0)

  some_chars :
      (m : ℕ → ℕ) (a n val : ℕ) → val ≢ 0 → numeral base digit (text m a n) 0 ≡ some val → 0 < n
  unfolding text
  some_chars m a zero val h e = absurd (h (sym (some-eq e)))
  some_chars m a (suc n) val h e = omega arith

  one_zero : (m : ℕ → ℕ) (a : ℕ) → m a ≡ itoa_digit 0 → numeral base digit (text m a 1) 0 ≡ some 0
  unfolding text
  one_zero m a h =
      numeral-snoc base digit [] (m a) 0
      ∙ ap (next base (some 0)) (ap digit h ∙ reads 0 (omega arith))
      ∙ ap some (omega arith)

  str_itoa-Prints : (m : ℕ → ℕ) (val : ℕ) → val < 2 ^ 32 → Prints val (str_itoa m val buf base)
  unfolding str_itoa
  str_itoa-Prints m val h = elim (Bool-cases (val == 0)) [
    | inl zero_val ↦
        let z : val ≡ 0 = ground arith in
        let m1 = store m (buf + 33) 0 in
        let m2 = store m1 (buf + 32) b'0' in
        let one : buf + 33 - (buf + 32) ≡ 1 = omega arith in
        rw zero_val (
          omega arith,
          omega arith,
          ap (λ n. numeral base digit (text m2 (buf + 32) n) 0) one
              ∙ one_zero m2 (buf + 32) (store_here m1 (buf + 32) b'0' (buf + 32) refl)
              ∙ ap some (sym z),
          store_else m1 (buf + 32) b'0' (buf + 33) (omega arith)
              ∙ store_here m (buf + 33) 0 (buf + 33) refl,
        )
    | inr some_val ↦
        let m1 = store m (buf + 33) 0 in
        let (at, read, kept) =
          itoa_loop-Written 32 val m1 (omega (arith, pow-le-pow_left wide 32)) in
        let out = itoa_loop buf base 32 val m1 in
        let count : buf + 33 - (buf + out.0 + 1) ≡ 32 - out.0 = omega (arith, at) in
        rw some_val (
          omega arith,
          omega (
            arith,
            at,
            some_chars out.1 (buf + out.0 + 1) (32 - out.0) val (λ z. ground (arith, z, some_val))
                read,
          ),
          ap (λ n. numeral base digit (text out.1 (buf + out.0 + 1) n) 0) count ∙ read,
          kept (buf + 33) (omega arith) ∙ store_here m (buf + 33) 0 (buf + 33) refl,
        )
  ]

no_value : (v : ℕ) → ◌≢◌ {A = Option ℕ} none (some v)
no_value v e = absurd (cc)

decimal-AreBytes : (chs : List ℕ) (acc v : ℕ) → numeral 10 decimal chs acc ≡ some v → AreBytes chs
decimal-AreBytes [] acc v e = refl
decimal-AreBytes (x ∷ xs) acc v e =
    let f : ℕ → Option ℕ = λ d. numeral 10 decimal xs (acc * 10 + d) in
    elim (Bool-cases (between b'0' b'9' x)) [
      | inl y ↦
          let digit : decimal x ≡ some (x - b'0') = rw y refl in
          (
            ground arith,
            decimal-AreBytes xs (acc * 10 + (x - b'0')) v
                (sym (ap (λ o. elim o [ none ↦ none | some d ↦ f d ]) digit) ∙ e),
          )
      | inr n ↦
          let digit : decimal x ≡ none = rw n refl in
          absurd (no_value v (sym (ap (λ o. elim o [ none ↦ none | some d ↦ f d ]) digit) ∙ e))
    ]

converted_lem : (w : ℕ) (o : Option ℕ) (val : ℕ) → val < 2 ^ w → o ≡ some val → converted w o ≡ val
converted_lem w o val h e = ap (converted w) e ∙ mod-eq_of_lt h

-- What str_itoa writes for a number of 32 bits in base 10 is read back by pl_u32 and pl_u64, and in
-- base 16 by pl_x32 and pl_x64; the text ends with a zero, within the buffer.
pub pl_u32-str_itoa :
    (m : ℕ → ℕ) (val buf : ℕ)
    → val < 2 ^ 32
    → 0 < buf
    → let (q, m') = str_itoa m val buf 10 in
      let (r, m'') = str_itoa m val buf 16 in
      let dec : Pl = record { p = q; l = buf + 33 - q } in
      let hex : Pl = record { p = r; l = buf + 33 - r } in
      (buf ≤ q)
      × (buf ≤ r)
      × (q < buf + 33)
      × (r < buf + 33)
      × (m' (buf + 33) ≡ 0)
      × (m'' (buf + 33) ≡ 0)
      × (pl_u32 m' dec ≡ val)
      × (pl_u64 m' dec ≡ val)
      × (pl_x32 m'' hex ≡ val)
      × (pl_x64 m'' hex ≡ val)
pl_u32-str_itoa m val buf small some_buf =
    let (low, high, read, ends) =
      str_itoa-Prints buf 10 decimal (omega arith) decimal_itoa m val small in
    let (low', high', read', ends') =
      str_itoa-Prints buf 16 hex_digit (omega arith) hex_itoa m val small in
    let (q, m1) = str_itoa m val buf 10 in
    let (r, m2) = str_itoa m val buf 16 in
    let dec : Pl = record { p = q; l = buf + 33 - q } in
    let hex : Pl = record { p = r; l = buf + 33 - r } in
    let (u32, u64, x, y) =
      pl_numbers-eq m1 dec (λ z. omega (arith, z, low))
        (decimal-AreBytes (text m1 q (buf + 33 - q)) 0 val read) in
    let (x32, x64) = pl_hex-eq m2 hex (λ z. omega (arith, z, low')) in
    let wide : val < 2 ^ 64 = omega arith in
    (
      low,
      low',
      high,
      high',
      ends,
      ends',
      u32 ∙ converted_lem 32 _ val small read,
      u64 ∙ converted_lem 64 _ val wide read,
      x32 ∙ converted_lem 32 _ val small read',
      x64 ∙ converted_lem 64 _ val wide read',
    )
