-- ===== src/Fmt/Regex.antt =====
-- src/fmt/regex.c: `re_regex`. `tolower` is the C library's, an argument, as in src/hash/func.c; the
-- output arguments get a log of what is written to them, by number.
pub mod Digits
use re_cpm.Base.{
  ℕ, zero, suc, ◌+◌, ◌-◌, ◌%◌, ◌^◌, ltb, leb, ◌==◌, if◌then◌else◌, Bool, true, false, not, ◌&&◌,
  ◌||◌, Option, none, some, List, [], ◌∷◌, ◌++◌,
}
use re_cpm.Base.Errno.{einval, enoent}
use re_cpm.Hash.{of_char}
use re_cpm.Fmt.Chars.{between}
use re_cpm.Fmt.Pl.{Pl}

-- `struct chr`
pub record Chr : Type 0 where
  pub min : ℕ
  pub max : ℕ

-- The loop of `expr_match` from index `i` on, `k` to go: whether it breaks.
unfoldable pub match_loop : (ℕ → Chr) → ℕ → ℕ → ℕ → Bool
match_loop chrv zero i c = false
match_loop chrv (suc k) i c =
    let rest = match_loop chrv k (i + 1) c in
    if ltb c (chrv i).min then rest else if ltb (chrv i).max c then rest else true

unfoldable pub expr_match : (ℕ → Chr) → ℕ → ℕ → Bool → Bool
expr_match chrv n c neg = let found = match_loop chrv n 0 c in if neg then not found else found

-- The local variables of `re_regex`: `arg` is the number of the next argument.
pub record Regex : Type 0 where
  pub p : ℕ
  pub l : ℕ
  pub eesc : Bool
  pub fm : Bool
  pub range : Bool
  pub ec : Bool
  pub neg : Bool
  pub qesc : Bool
  pub n : ℕ
  pub chrv : ℕ → Chr
  pub arg : ℕ
  pub log : List (ℕ × Pl)

-- What a round of the loop over the expression does: goes on, starts again, or breaks.
pub data Round : Type 0 where
  on : Regex → Round
  again : Regex → Round
  break : Regex → Round

-- `tolower` of a character, and as a `uint8_t`.
abbrev pub low : (ℕ → ℕ) → ℕ → ℕ
low tolower c = tolower (of_char c)

abbrev pub low_8 : (ℕ → ℕ) → ℕ → ℕ
low_8 tolower c = low tolower c % 2 ^ 8

-- `nmin` and `nmax`
unfoldable pub bounds : ℕ → Option (ℕ × ℕ)
bounds c =
    if c == b'*'
    then some (0, 2 ^ 32 - 1)
    else if c == b'+'
    then some (1, 2 ^ 32 - 1)
    else if between b'1' b'9' c
    then some (c - b'0', c - b'0')
    else none

-- One round of the loop over the text: the new `quote` and `esc`, or a break.
unfoldable pub class_step : (ℕ → ℕ) → Regex → Bool → Bool → ℕ → Option (Bool × Bool)
class_step tolower st quote esc ch =
    let found = expr_match st.chrv st.n (low_8 tolower ch) st.neg in
    if st.qesc && esc
    then some (quote, false)
    else if st.qesc && (ch == b'\\')
    then some (quote, true)
    else if st.qesc && (ch == b'"')
    then some (not quote, esc)
    else if st.qesc && quote
    then some (quote, esc)
    else if found
    then some (quote, esc)
    else none

-- The loop: `nm` at its end.
unfoldable pub class_loop : (ℕ → ℕ) → (ℕ → ℕ) → Regex → ℕ → ℕ → ℕ → ℕ → Bool → Bool → ℕ
class_loop m tolower st nmax zero nm p quote esc = nm
class_loop m tolower st nmax (suc l) nm p quote esc =
    let rest : ℕ = elim (class_step tolower st quote esc (m p)) [
      | none ↦ nm
      | some (quote', esc') ↦ class_loop m tolower st nmax l (nm + 1) (p + 1) quote' esc'
    ] in
    if ltb nm nmax then rest else nm

-- The quotes are stripped off what was matched.
unfoldable pub strip : (ℕ → ℕ) → Bool → ℕ → ℕ → Pl
strip m qesc p k =
    if qesc && (ltb 1 k && ((m p == b'"') && (m (p + k - 1) == b'"')))
    then record { p = p + 1; l = k - 2 }
    else record { p = p; l = k }

-- The character behind a class.
unfoldable pub class_end : (ℕ → ℕ) → (ℕ → ℕ) → ℕ → Regex → Round
class_end m tolower c st = elim (bounds c) [
  | none ↦ Round.break (record st { arg = st.arg + 1 })
  | some (nmin, nmax) ↦
      let k = class_loop m tolower st nmax st.l 0 st.p false false in
      let lpl = strip m st.qesc st.p k in
      let st' = record st { fm = false; p = st.p + k; l = st.l - k; arg = st.arg + 1 } in
      if ltb lpl.l nmin || ltb nmax lpl.l
      then Round.again st'
      else Round.on (record st' { eesc = false; log = st.log ++ ((st.arg, lpl) ∷ []) })
]

-- What stands behind `chr:`.
unfoldable pub add_chr : (ℕ → ℕ) → ℕ → Regex → Round
add_chr tolower c st =
    let old = st.chrv st.n in
    let chr : Chr = record {
      min = if st.range then old.min else low_8 tolower c;
      max = low_8 tolower c;
    } in
    if leb 64 st.n
    then Round.break st
    else Round.on (record st {
      range = false;
      n = st.n + 1;
      chrv = λ i. if i == st.n then chr else st.chrv i;
    })

-- A character in a class.
unfoldable pub class_char : (ℕ → ℕ) → ℕ → Regex → Round
class_char tolower c st =
    if st.eesc
    then add_chr tolower c (record st { eesc = false })
    else if c == b']'
    then Round.on (record st { ec = true })
    else if (c == b'~') && (st.n == 0)
    then Round.on (record st { qesc = true; neg = true })
    else if (c == b'^') && (st.n == 0)
    then Round.on (record st { neg = true })
    else if (c == b'-') && (not (st.n == 0) && not st.range)
    then Round.on (record st { range = true; n = st.n - 1 })
    else add_chr tolower c st

-- A character outside a class.
unfoldable pub plain_char : (ℕ → ℕ) → (ℕ → ℕ) → ℕ → Regex → Round
plain_char m tolower c st =
    if (c == b'[') && not st.eesc
    then Round.on
        (record st { n = 0; fm = true; ec = false; neg = false; range = false; qesc = false })
    else if st.l == 0
    then Round.break st
    else if low tolower c == low tolower (m st.p)
    then Round.on (record st { eesc = false; p = st.p + 1; l = st.l - 1 })
    else Round.again st

unfoldable pub round : (ℕ → ℕ) → (ℕ → ℕ) → ℕ → Regex → Round
round m tolower c st =
    if (c == b'\\') && not st.eesc
    then Round.on (record st { eesc = true })
    else if not st.fm
    then plain_char m tolower c st
    else if st.ec
    then class_end m tolower c st
    else class_char tolower c st

-- The next round, unless the loop ended.
unfoldable pub and_then : Round → (Regex → Round) → Round
and_then (Round.on st) f = f st
and_then (Round.again st) f = Round.again st
and_then (Round.break st) f = Round.break st

-- The loop over the expression.
unfoldable pub attempt : (ℕ → ℕ) → (ℕ → ℕ) → List ℕ → Regex → Round
attempt m tolower [] st = Round.on st
attempt m tolower (c ∷ cs) st = and_then (round m tolower c st) (λ st'. attempt m tolower cs st')

-- What follows the loop.
unfoldable pub after_attempt : (Regex → ℕ × List (ℕ × Pl)) → Round → ℕ × List (ℕ × Pl)
after_attempt retry (Round.on st) = (if st.fm then einval else 0, st.log)
after_attempt retry (Round.again st) = retry st
after_attempt retry (Round.break st) = (if st.fm then einval else enoent, st.log)

-- From `again:` on.
unfoldable pub regex_from : (ℕ → ℕ) → (ℕ → ℕ) → List ℕ → ℕ → ℕ → Regex → ℕ × List (ℕ × Pl)
regex_from m tolower expr zero ptr st = (elim expr [ [] ↦ 0 | c ∷ cs ↦ enoent ], st.log)
regex_from m tolower expr (suc len) ptr st =
    after_attempt (λ st'. regex_from m tolower expr len (ptr + 1) st')
      (attempt m tolower expr
        (record st { p = ptr; l = suc len; eesc = false; fm = false; arg = 0 }))

-- `chrv` is not initialised: `stale` says what stands there.
unfoldable pub re_regex : (ℕ → ℕ) → (ℕ → ℕ) → (ℕ → Chr) → ℕ → ℕ → List ℕ → ℕ × List (ℕ × Pl)
re_regex m tolower stale ptr len expr =
    if ptr == 0
    then (einval, [])
    else regex_from m tolower expr len ptr (record {
      p = ptr;
      l = len;
      eesc = false;
      fm = false;
      range = false;
      ec = false;
      neg = false;
      qesc = false;
      n = 0;
      chrv = stale;
      arg = 0;
      log = [];
    })
