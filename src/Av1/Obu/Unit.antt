-- ===== src/Av1/Obu/Unit.antt =====
-- One open bitstream unit on the wire: av1_obu_encode and av1_obu_decode of src/av1/obu.c.
use re_cpm.Base.{
  ℕ, ◌+◌, ◌*◌, ◌/◌, ◌%◌, ◌^◌, ◌≤◌, ◌<◌, ◌≡◌, refl, ap, ◌∙◌, sym, arith, ltb, ltb-ge, ◌==◌,
  if◌then◌else◌, Bool, true, false, not, some, List, [], ◌∷◌, ◌++◌, append_assoc, length,
  length-append, drop, drop-nil, append-nil, bit_and, bit_or,
}
use re_cpm.Base.Bits.{bit_and-mask, bit_or-add}
use re_cpm.Platform.{Platform}
use re_cpm.Mbuf.{Mbuf, get_left, set_pos}
use re_cpm.Mbuf.Ints.{write_u8, read_u8, ◌|=◌}
use re_cpm.Mbuf.Inv.{IsValid}
use re_cpm.Mbuf.Cursor.{rest}
use re_cpm.Mbuf.Words.{Appends, Appends-as, Appends-rewound, |=-Appends, write_u8-Appends, mem_step}
use re_cpm.Mbuf.Takes.{Takes, Takes-trans, get_left-of, read_u8-Takes}
use re_cpm.Av1.Obu.{
  ObuHdr, bit_of, av1_leb128_encode, av1_leb128_decode, av1_obu_encode, obu_size, av1_obu_decode,
}
use re_cpm.Av1.Obu.RoundTrip.{leb, length-leb-le, av1_leb128_encode-leb, av1_leb128_decode-leb}

abbrev pub head_byte : ℕ → Bool → ℕ
head_byte ty s = ty * 8 + bit_of s * 2

abbrev pub size_bytes : Bool → ℕ → List ℕ
size_bytes s n = if s then leb n else []

-- The header, the size if there is one, and the payload.
abbrev pub obu_bytes : ℕ → Bool → List ℕ → List ℕ
obu_bytes ty s payload = head_byte ty s ∷ (size_bytes s (length payload) ++ payload)

head_byte_lem :
    (ty : ℕ) (s : Bool)
    → ty < 16
    → bit_or (bit_and ty 0xf * 2 ^ 3) (bit_of s * 2 ^ 1) % 256 ≡ head_byte ty s
head_byte_lem ty s h =
    let bit : bit_of s ≤ 1 = ground arith in
    let low : bit_of s * 2 ^ 1 < 2 ^ 3 = omega arith in
    omega (arith, bit_and-mask 4 ty, bit_or-add 3 (bit_and ty 0xf) (bit_of s * 2 ^ 1) low)

-- The header byte and the size.
sized : Platform → Mbuf → ℕ → Bool → ℕ → ℕ × Mbuf
sized p mb ty s len =
    let out = write_u8 p mb (bit_or (bit_and ty 0xf * 2 ^ 3) (bit_of s * 2 ^ 1)) in
    if s then out |= (λ m. av1_leb128_encode p m len) else out

sized-Appends :
    (p : Platform) (mb : Mbuf) (ty : ℕ) (s : Bool) (len : ℕ)
    → IsValid mb
    → ty < 16
    → len < 2 ^ 56
    → Appends mb (head_byte ty s ∷ size_bytes s len) (sized p mb ty s len)
unfolding sized
sized-Appends p mb ty true len ok small short =
    let byte = write_u8-Appends p mb (bit_or (bit_and ty 0xf * 2 ^ 3) (bit_of true * 2 ^ 1)) ok in
    Appends-as (ap (λ b. b ∷ leb len) (head_byte_lem ty true small)) (
      |=-Appends mb _ _ _ (λ m. av1_leb128_encode p m len) byte
        (av1_leb128_encode-leb p _ len byte.valid short))
sized-Appends p mb ty false len ok small short =
    Appends-as (ap (λ b. b ∷ []) (head_byte_lem ty false small))
      (write_u8-Appends p mb (bit_or (bit_and ty 0xf * 2 ^ 3) (bit_of false * 2 ^ 1)) ok)

pub av1_obu_encode-Appends :
    (p : Platform) (mb : Mbuf) (ty : ℕ) (s : Bool) (payload : List ℕ)
    → IsValid mb
    → 0 < ty
    → ty < 16
    → length payload < 2 ^ 56
    → Appends mb (obu_bytes ty s payload) (av1_obu_encode p mb ty s (length payload) (some payload))
unfolding av1_obu_encode sized
av1_obu_encode-Appends p mb ty s [] ok some_ty small short =
    let not_zero : (ty == 0) ≡ false = ground arith in
    rw not_zero (Appends-as (sym (append-nil _)) (sized-Appends p mb ty s 0 ok small short))
av1_obu_encode-Appends p mb ty s (x ∷ xs) ok some_ty small short =
    let not_zero : (ty == 0) ≡ false = ground arith in
    let some_len : (length (x ∷ xs) == 0) ≡ false = ground arith in
    rw (not_zero, some_len)
      (mem_step p mb _ _ (sized-Appends p mb ty s (length (x ∷ xs)) ok small short) (x ∷ xs)
        (omega arith))

-- What the decoder makes of the header byte.
pub head_lem :
    (ty : ℕ) (s : Bool)
    → 0 < ty
    → ty < 16
    → let val = head_byte ty s in
      (bit_and (val / 2 ^ 3) 0xf ≡ ty)
      × ((bit_and (val / 2 ^ 2) 1 == 0) ≡ true)
      × (not (bit_and (val / 2 ^ 1) 1 == 0) ≡ s)
      × ((bit_and (val / 2 ^ 7) 1 == 0) ≡ true)
head_lem ty true h k =
    let val = head_byte ty true in
    (
      omega (arith, bit_and-mask 4 (val / 2 ^ 3)),
      ground (arith, bit_and-mask 1 (val / 2 ^ 2)),
      ground (arith, bit_and-mask 1 (val / 2 ^ 1)),
      ground (arith, bit_and-mask 1 (val / 2 ^ 7)),
    )
head_lem ty false h k =
    let val = head_byte ty false in
    (
      omega (arith, bit_and-mask 4 (val / 2 ^ 3)),
      ground (arith, bit_and-mask 1 (val / 2 ^ 2)),
      ground (arith, bit_and-mask 1 (val / 2 ^ 1)),
      ground (arith, bit_and-mask 1 (val / 2 ^ 7)),
    )

obu_size-sized :
    (p : Platform) (ty len : ℕ) (mb : Mbuf) (r : List ℕ)
    → IsValid mb
    → len < 2 ^ 56
    → len ≤ length r
    → rest mb ≡ leb len ++ r
    → let hdr : ObuHdr = record { ty = ty; x = false; s = true; size = 0 } in
      (mb' : Mbuf) × (obu_size p hdr mb ≡ (0, record hdr { size = len }, mb'))
      × Takes mb (length (leb len)) r mb'
unfolding obu_size
obu_size-sized p ty len mb r ok short fits text =
    let (z, got, t) = av1_leb128_decode-leb p 0 len mb r ok text short in
    let enough : ltb (get_left ((av1_leb128_decode p 0 mb).2)) len ≡ false =
      ltb-ge _ _ (omega (arith, get_left-of _ [] r t.valid t.left)) in
    (_, rw (z, got, enough) refl, t)

pub av1_obu_decode-sized :
    (p : Platform) (mb : Mbuf) (ty : ℕ) (payload : List ℕ) (old : ObuHdr) (r : List ℕ)
    → IsValid mb
    → 0 < ty
    → ty < 16
    → length payload < 2 ^ 56
    → rest mb ≡ obu_bytes ty true payload ++ r
    → (mb' : Mbuf) × (av1_obu_decode p old mb
        ≡ (0, record { ty = ty; x = false; s = true; size = length payload }, mb'))
      × Takes mb (1 + length (leb (length payload))) (payload ++ r) mb'
unfolding av1_obu_decode
av1_obu_decode-sized p mb ty payload old r ok some_ty small short text =
    let some_left : ltb (get_left mb) 1 ≡ false =
      ltb-ge _ _ (omega (arith, get_left-of mb (obu_bytes ty true payload) r ok text)) in
    let (byte_is, t) = read_u8-Takes p mb _ _ ok text in
    let (ty_is, x_is, s_is, f_is) = head_lem ty true some_ty small in
    let not_zero : (ty == 0) ≡ false = ground arith in
    let (mb', e, u) =
      obu_size-sized p ty (length payload) _ (payload ++ r) t.valid short
        (omega (arith, length-append {0} payload r))
        (t.left ∙ append_assoc (leb (length payload)) payload r) in
    (mb', rw (some_left, byte_is, ty_is, x_is, s_is, f_is, not_zero) e, Takes-trans 1 _ t u)

pub av1_obu_decode-unsized :
    (p : Platform) (mb : Mbuf) (ty : ℕ) (payload : List ℕ) (old : ObuHdr)
    → IsValid mb
    → 0 < ty
    → ty < 16
    → rest mb ≡ obu_bytes ty false payload
    → (mb' : Mbuf) × (av1_obu_decode p old mb
        ≡ (0, record { ty = ty; x = false; s = false; size = length payload }, mb'))
      × Takes mb 1 payload mb'
unfolding av1_obu_decode obu_size
av1_obu_decode-unsized p mb ty payload old ok some_ty small text =
    let whole : rest mb ≡ obu_bytes ty false payload ++ [] = text ∙ sym (append-nil _) in
    let some_left : ltb (get_left mb) 1 ≡ false =
      ltb-ge _ _ (omega (arith, get_left-of mb (obu_bytes ty false payload) [] ok whole)) in
    let (byte_is, t) = read_u8-Takes p mb _ _ ok text in
    let (ty_is, x_is, s_is, f_is) = head_lem ty false some_ty small in
    let not_zero : (ty == 0) ≡ false = ground arith in
    let left : get_left (read_u8 p mb).1 ≡ length payload =
      omega (arith, get_left-of _ [] payload t.valid t.left) in
    (_, rw (some_left, byte_is, ty_is, x_is, s_is, f_is, not_zero, left) refl, t)

pub length-obu_bytes-le :
    (ty : ℕ) (s : Bool) (payload : List ℕ) → length (obu_bytes ty s payload) ≤ 9 + length payload
length-obu_bytes-le ty true payload =
    omega (arith, length-append {0} (leb (length payload)) payload, length-leb-le (length payload))
length-obu_bytes-le ty false payload = omega arith

read_back :
    (p : Platform) (mb : Mbuf) (ty : ℕ) (s : Bool) (payload : List ℕ) (old : ObuHdr)
    → IsValid mb
    → 0 < ty
    → ty < 16
    → length payload < 2 ^ 56
    → rest mb ≡ obu_bytes ty s payload
    → (mb' : Mbuf) × (av1_obu_decode p old mb
        ≡ (0, record { ty = ty; x = false; s = s; size = length payload }, mb'))
      × (rest mb' ≡ payload)
read_back p mb ty true payload old ok some_ty small short text =
    let (mb', e, t) =
      av1_obu_decode-sized p mb ty payload old [] ok some_ty small short
        (text ∙ sym (append-nil _)) in
    (mb', e, t.left ∙ append-nil payload)
read_back p mb ty false payload old ok some_ty small short text =
    let (mb', e, t) = av1_obu_decode-unsized p mb ty payload old ok some_ty small text in
    (mb', e, t.left)

-- A unit of a type from 1 to 15, encoded at the end of a buffer that has room for it, with or
-- without its size, is decoded again: the header is the same, and the payload is what is left.
pub av1_obu_decode-encode :
    (p : Platform) (mb : Mbuf) (ty : ℕ) (s : Bool) (payload : List ℕ) (old : ObuHdr)
    → IsValid mb
    → 0 < ty
    → ty < 16
    → length payload < 2 ^ 56
    → rest mb ≡ []
    → mb.pos + (9 + length payload) ≤ mb.size
    → let (err, out) = av1_obu_encode p mb ty s (length payload) (some payload) in
      (mb' : Mbuf) × (err ≡ 0)
      × (av1_obu_decode p old (set_pos out mb.pos)
          ≡ (0, record { ty = ty; x = false; s = s; size = length payload }, mb'))
      × (rest mb' ≡ payload)
av1_obu_decode-encode p mb ty s payload old ok some_ty small short at_end room =
    let a = av1_obu_encode-Appends p mb ty s payload ok some_ty small short in
    let z = a.fits (omega (arith, length-obu_bytes-le ty s payload)) in
    let (ok', text) = Appends-rewound mb (obu_bytes ty s payload) _ ok a z in
    let (mb', e, left) = read_back p (set_pos _ mb.pos) ty s payload old ok' some_ty small short (
      text
      ∙ ap (λ r. obu_bytes ty s payload ++ drop (length (obu_bytes ty s payload)) r) at_end
      ∙ ap (λ r. obu_bytes ty s payload ++ r) (drop-nil (length (obu_bytes ty s payload)))
      ∙ append-nil (obu_bytes ty s payload)) in
    (mb', z, e, left)
