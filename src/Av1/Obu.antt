-- ===== src/Av1/Obu.antt =====
-- src/av1/obu.c: numbers in LEB128 and the headers of open bitstream units. The warnings that are
-- printed are left out.
pub mod Leb128
pub mod RoundTrip
pub mod Unit
pub mod Stream
use re_cpm.Base.{
  ℕ, zero, suc, ◌+◌, ◌*◌, ◌/◌, ◌%◌, ◌^◌, ◌≤◌, ◌<◌, arith, ltb, ◌==◌, if◌then◌else◌, Bool, true,
  false, not, ◌||◌, Option, none, some, List, [], ◌∷◌, length, bit_and, bit_or,
}
use re_cpm.Base.Int.{pos}
use re_cpm.Base.Errno.{einval, ebadmsg, enotsup}
use re_cpm.Base.Order.{lt_wf}
use re_cpm.Platform.{Platform}
use re_cpm.Mbuf.{Mbuf, get_left, advance, write_mem}
use re_cpm.Mbuf.Ints.{write_u8, read_u8, ◌|=◌}
use mathlib.Core.Logic.{dite}
use mathlib.Core.WellFounded.{Acc}
use native.Mathlib.Decide.{dec_lt}

pub shrinks : (v : ℕ) → 0x7f < v → v / 2 ^ 7 < v
shrinks v h = omega arith

-- The loop of `av1_leb128_encode`, and the write behind it.
unfoldable pub leb128_loop : Platform → (v : ℕ) → Acc ◌<◌ v → ℕ × Mbuf → ℕ × Mbuf
leb128_loop p v (Acc.intro _ smaller) out =
    dite (dec_lt 0x7f v)
      (λ more.
        leb128_loop p (v / 2 ^ 7) (smaller _ (shrinks v more))
          (out |= (λ m. write_u8 p m (bit_or 0x80 (bit_and v 0x7f)))))
      (λ _. out |= (λ m. write_u8 p m (v % 2 ^ 8)))

unfoldable pub av1_leb128_encode : Platform → Mbuf → ℕ → ℕ × Mbuf
av1_leb128_encode p mb value = leb128_loop p value (lt_wf.apply value) (0, mb)

-- The rounds that are left, the number of the round and what was read. `old` is what the result
-- was before the call. The sum has at most 56 bits.
unfoldable pub leb128_rounds : Platform → ℕ → ℕ → ℕ → ℕ → Mbuf → ℕ × ℕ × Mbuf
leb128_rounds p old zero i ret mb = (0, ret, mb)
leb128_rounds p old (suc n) i ret mb =
    let (byte, mb') = read_u8 p mb in
    let ret' = bit_or ret (bit_and byte 0x7f * 2 ^ (i * 7)) in
    let more = leb128_rounds p old n (i + 1) ret' mb' in
    if ltb (get_left mb) 1
    then (ebadmsg, old, mb)
    else if bit_and byte 0x80 == 0
    then (0, ret', mb')
    else more

unfoldable pub av1_leb128_decode : Platform → ℕ → Mbuf → ℕ × ℕ × Mbuf
av1_leb128_decode p old mb = leb128_rounds p old 8 0 0 mb

-- `struct av1_obu_hdr`
pub record ObuHdr : Type 0 where
  pub ty : ℕ
  pub x : Bool
  pub s : Bool
  pub size : ℕ

abbrev pub bit_of : Bool → ℕ
bit_of b = if b then 1 else 0

-- The payload is NULL, or has `len` bytes.
unfoldable pub av1_obu_encode : Platform → Mbuf → ℕ → Bool → ℕ → Option (List ℕ) → ℕ × Mbuf
av1_obu_encode p mb ty has_size len payload =
    if ty == 0
    then (einval, mb)
    else let val = bit_or (bit_and ty 0xf * 2 ^ 3) (bit_of has_size * 2 ^ 1) in
      let out = write_u8 p mb val in
      let sized = if has_size then out |= (λ m. av1_leb128_encode p m len) else out in
      elim payload [
        | none ↦ sized
        | some bytes ↦ if len == 0 then sized else sized |= (λ m. write_mem p m bytes)
      ]

abbrev pub zero_obu : ObuHdr
zero_obu = record { ty = 0; x = false; s = false; size = 0 }

-- The size of the unit, from its header on.
unfoldable pub obu_size : Platform → ObuHdr → Mbuf → ℕ × ObuHdr × Mbuf
obu_size p hdr mb =
    if hdr.s
    then (let (err, size, mb') = av1_leb128_decode p 0 mb in
        if not (err == 0)
        then (err, hdr, mb')
        else if ltb (get_left mb') size
        then (ebadmsg, hdr, mb')
        else (0, record hdr { size = size }, mb'))
    else (0, record hdr { size = get_left mb }, mb)

unfoldable pub av1_obu_decode : Platform → ObuHdr → Mbuf → ℕ × ObuHdr × Mbuf
av1_obu_decode p old mb =
    if ltb (get_left mb) 1
    then (ebadmsg, old, mb)
    else let (val, mb') = read_u8 p mb in
      let hdr : ObuHdr = record {
        ty = bit_and (val / 2 ^ 3) 0xf;
        x = not (bit_and (val / 2 ^ 2) 1 == 0);
        s = not (bit_and (val / 2 ^ 1) 1 == 0);
        size = 0;
      } in
      if not (bit_and (val / 2 ^ 7) 1 == 0)
      then (ebadmsg, hdr, mb')
      else if hdr.ty == 0
      then (ebadmsg, hdr, mb')
      else if hdr.x
      then (enotsup, hdr, mb')
      else obu_size p hdr mb'

abbrev pub obu_allowed_rtp : ℕ → Bool
obu_allowed_rtp ty =
    (ty == 1) || ((ty == 3) || ((ty == 5) || ((ty == 6) || ((ty == 7) || (ty == 4)))))

-- The loops of `av1_obu_count` and `av1_obu_count_rtp`, on fuel; `counts` says which types count.
unfoldable pub obu_count_loop : ℕ → Platform → (ℕ → Bool) → Mbuf → ℕ → Option ℕ
obu_count_loop zero p counts wrap count = none
obu_count_loop (suc fuel) p counts wrap count =
    let (err, hdr, mb) = av1_obu_decode p zero_obu wrap in
    let count' = if counts hdr.ty then (count + 1) % 2 ^ 32 else count in
    let more = obu_count_loop fuel p counts (advance mb (pos hdr.size)) count' in
    if ltb 1 (get_left wrap) then (if err == 0 then more else some 0) else some count

abbrev pub wrapped : List ℕ → Mbuf
wrapped buf = record { buf = buf; size = length buf; pos = 0; end = length buf }

unfoldable pub av1_obu_count : ℕ → Platform → List ℕ → Option ℕ
av1_obu_count fuel p buf = obu_count_loop fuel p (λ ty. true) (wrapped buf) 0

unfoldable pub av1_obu_count_rtp : ℕ → Platform → List ℕ → Option ℕ
av1_obu_count_rtp fuel p buf = obu_count_loop fuel p obu_allowed_rtp (wrapped buf) 0
