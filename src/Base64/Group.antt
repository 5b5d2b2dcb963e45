-- ===== src/Base64/Group.antt =====
-- One group of four characters of src/base64/b64.c, as arithmetic.
use re_cpm.Base.{
  all_below, all_below→eq, ℕ, ◌+◌, ◌*◌, ◌/◌, ◌%◌, ◌^◌, ◌<◌, ◌≡◌, refl, ap, ap₂, ◌∙◌, arith, ◌==◌,
  ==_iff, [], ◌∷◌, get_or, bit_and, bit_or,
}
use re_cpm.Base.Bits.{bit_and-mask, bit_and-one_bit, bit_or-add, bit_or-high, bit_or-split}
use re_cpm.Base64.{b64_table, b64url_table, digit, join, b64val, gather, emit}

-- Each character of the tables has its place for a value.
pub b64val-table : (i : ℕ) → i < 64 → b64val (get_or b64_table i 0) ≡ i
unfolding all_below b64val
b64val-table i h =
    (==_iff _ i).0 (all_below→eq 64 (λ j. b64val (get_or b64_table j 0) == j) i refl h)

pub b64val-url_table : (i : ℕ) → i < 64 → b64val (get_or b64url_table i 0) ≡ i
unfolding all_below b64val
b64val-url_table i h =
    (==_iff _ i).0 (all_below→eq 64 (λ j. b64val (get_or b64url_table j 0) == j) i refl h)

-- A digit of a word is read back.
pub b64val-digit : (v s : ℕ) → b64val (digit b64_table v s) ≡ v / 2 ^ s % 64
unfolding digit
b64val-digit v s =
    ap (λ i. b64val (get_or b64_table i 0)) (bit_and-mask 6 (v / 2 ^ s))
    ∙ b64val-table (v / 2 ^ s % 64) (omega arith)

pub b64val-url_digit : (v s : ℕ) → b64val (digit b64url_table v s) ≡ v / 2 ^ s % 64
unfolding digit
b64val-url_digit v s =
    ap (λ i. b64val (get_or b64url_table i 0)) (bit_and-mask 6 (v / 2 ^ s))
    ∙ b64val-url_table (v / 2 ^ s % 64) (omega arith)

pub join_two : (a b : ℕ) → b < 256 → bit_or (a * 2 ^ 16) (b * 2 ^ 8) ≡ a * 2 ^ 16 + b * 2 ^ 8
join_two a b h = bit_or-add 16 a (b * 2 ^ 8) (omega arith)

pub join-eq : (a b c : ℕ) → b < 256 → c < 256 → join a b c ≡ a * 2 ^ 16 + b * 2 ^ 8 + c
unfolding join
join-eq a b c h k =
    let e : a * 2 ^ 16 + b * 2 ^ 8 ≡ (a * 2 ^ 8 + b) * 2 ^ 8 = omega arith in
    ap (λ x. bit_or x c) (join_two a b h ∙ e)
    ∙ bit_or-add 8 (a * 2 ^ 8 + b) c (omega arith)
    ∙ omega arith

gather_two :
    (w x : ℕ)
    → w < 64
    → x < 64
    → bit_or (w * 2 ^ 18 % 2 ^ 32) (x * 2 ^ 12 % 2 ^ 32) ≡ w * 2 ^ 18 + x * 2 ^ 12
gather_two w x h k =
    let ew : w * 2 ^ 18 % 2 ^ 32 ≡ w * 2 ^ 18 = omega arith in
    let ex : x * 2 ^ 12 % 2 ^ 32 ≡ x * 2 ^ 12 = omega arith in
    ap₂ bit_or ew ex ∙ bit_or-add 18 w (x * 2 ^ 12) (omega arith)

-- Digits that fit: the first three.
gather_three :
    (w x y : ℕ)
    → w < 64
    → x < 64
    → y < 64
    → bit_or (bit_or (w * 2 ^ 18 % 2 ^ 32) (x * 2 ^ 12 % 2 ^ 32)) (y * 2 ^ 6 % 2 ^ 32)
      ≡ w * 2 ^ 18 + x * 2 ^ 12 + y * 2 ^ 6
gather_three w x y h k l =
    let ey : y * 2 ^ 6 % 2 ^ 32 ≡ y * 2 ^ 6 = omega arith in
    let two : w * 2 ^ 18 + x * 2 ^ 12 ≡ (w * 2 ^ 6 + x) * 2 ^ 12 = omega arith in
    ap₂ bit_or (gather_two w x h k ∙ two) ey
    ∙ bit_or-add 12 (w * 2 ^ 6 + x) (y * 2 ^ 6) (omega arith)
    ∙ omega arith

pub gather-eq :
    (w x y z : ℕ)
    → w < 64
    → x < 64
    → y < 64
    → z < 64
    → gather w x y z ≡ w * 2 ^ 18 + x * 2 ^ 12 + y * 2 ^ 6 + z
unfolding gather
gather-eq w x y z h k l m =
    let e : w * 2 ^ 18 + x * 2 ^ 12 + y * 2 ^ 6 ≡ (w * 2 ^ 12 + x * 2 ^ 6 + y) * 2 ^ 6 =
      omega arith in
    ap (λ t. bit_or t z) (gather_three w x y h k l ∙ e)
    ∙ bit_or-add 6 (w * 2 ^ 12 + x * 2 ^ 6 + y) z m
    ∙ omega arith

-- One padding character sets bit 24, two set bit 30 as well.
pub gather_one_pad :
    (w x y : ℕ)
    → w < 64
    → x < 64
    → y < 64
    → gather w x y (2 ^ 24) ≡ 1 * 2 ^ 24 + (w * 2 ^ 18 + x * 2 ^ 12 + y * 2 ^ 6)
unfolding gather
gather_one_pad w x y h k l =
    ap (λ t. bit_or t (2 ^ 24)) (gather_three w x y h k l)
    ∙ bit_or-high 24 1 (w * 2 ^ 18 + x * 2 ^ 12 + y * 2 ^ 6) (omega arith)

pub gather_two_pads :
    (w x : ℕ)
    → w < 64
    → x < 64
    → gather w x (2 ^ 24) (2 ^ 24) ≡ 65 * 2 ^ 24 + (w * 2 ^ 18 + x * 2 ^ 12)
unfolding gather
gather_two_pads w x h k =
    let low : ℕ = w * 2 ^ 18 + x * 2 ^ 12 in
    let shifted : bit_or low (1 * 2 ^ 30) ≡ 64 * 2 ^ 24 + low =
      bit_or-high 30 1 low (omega arith) ∙ omega arith in
    ap (λ t. bit_or (bit_or t (1 * 2 ^ 30)) (1 * 2 ^ 24)) (gather_two w x h k)
    ∙ ap (λ t. bit_or t (1 * 2 ^ 24)) shifted
    ∙ bit_or-split 24 64 1 low (omega arith)

-- The bytes of a word with no padding, with one, with two.
pub emit_full : (v : ℕ) → v < 2 ^ 24 → emit v ≡ v / 2 ^ 16 ∷ v / 2 ^ 8 % 256 ∷ v % 256 ∷ []
unfolding emit
emit_full v h =
    let b30 : bit_and v (2 ^ 30) ≡ 0 = bit_and-one_bit 30 v ∙ omega arith in
    let b24 : bit_and v (2 ^ 24) ≡ 0 = bit_and-one_bit 24 v ∙ omega arith in
    let top : v / 2 ^ 16 % 256 ≡ v / 2 ^ 16 = omega arith in
    rw (b30, b24, top, bit_and-mask 8 (v / 2 ^ 8), bit_and-mask 8 v)

pub emit_one_pad : (v : ℕ) → v < 2 ^ 24 → emit (1 * 2 ^ 24 + v) ≡ v / 2 ^ 16 ∷ v / 2 ^ 8 % 256 ∷ []
unfolding emit
emit_one_pad v h =
    let u : ℕ = 1 * 2 ^ 24 + v in
    let b30 : bit_and u (2 ^ 30) ≡ 0 = bit_and-one_bit 30 u ∙ omega arith in
    let b24 : bit_and u (2 ^ 24) ≡ 2 ^ 24 = bit_and-one_bit 24 u ∙ omega arith in
    let top : u / 2 ^ 16 % 256 ≡ v / 2 ^ 16 = omega arith in
    let mid : bit_and (u / 2 ^ 8) 0xff ≡ v / 2 ^ 8 % 256 =
      bit_and-mask 8 (u / 2 ^ 8) ∙ omega arith in
    rw (b30, b24, top, mid)

pub emit_two_pads : (v : ℕ) → v < 2 ^ 24 → emit (65 * 2 ^ 24 + v) ≡ v / 2 ^ 16 ∷ []
unfolding emit
emit_two_pads v h =
    let u : ℕ = 65 * 2 ^ 24 + v in
    let b30 : bit_and u (2 ^ 30) ≡ 2 ^ 30 = bit_and-one_bit 30 u ∙ omega arith in
    let b24 : bit_and u (2 ^ 24) ≡ 2 ^ 24 = bit_and-one_bit 24 u ∙ omega arith in
    let top : u / 2 ^ 16 % 256 ≡ v / 2 ^ 16 = omega arith in rw (b30, b24, top)
