-- ===== src/Rtpext/Returns.antt =====
-- When `rtpext_encode` of src/rtpext/rtpext.c returns: its loop writes until the item is padded, and
-- a write that fails does not bring it nearer.
use re_cpm.Base.{
  ℕ, zero, suc, ◌+◌, ◌-◌, ◌*◌, ◌%◌, ◌^◌, ◌≤◌, ◌<◌, ◌≡◌, ◌≢◌, refl, ap, ◌∙◌, arith, true, false,
  Bool-cases, inl, inr, ◌==◌, ltb, lt→ltb, List, [], ◌∷◌, length, none, some, bit_and, bit_or,
}
use re_cpm.Base.Bits.{bit_and-mask}
use re_cpm.Base.Errno.{enomem}
use re_cpm.Platform.{Platform, add_size}
use re_cpm.Mem.{realloc_exclusive}
use re_cpm.Mbuf.{Mbuf, reserve, put, resize, new_block, wanted, write_mem}
use re_cpm.Mbuf.Ints.{write_u8, write_int}
use re_cpm.Mbuf.Inv.{IsValid}
use re_cpm.Mbuf.Words.{host_bytes-one, write_u8-Appends}
use re_cpm.Rtpext.{rtpext_encode, write_padding}
use re_cpm.Rtpext.Padding.{missing, write_padding-returns}
use re_cpm.Rtpext.RoundTrip.{IsShort, head, unpadded, unpadded-Appends, encode_checked}

-- With room in the block for the padded item, `rtpext_encode` returns without an error, after four
-- rounds of its loop at most.
pub rtpext_encode-returns :
    (p : Platform) (fuel id : ℕ) (bytes : List ℕ) (mb : Mbuf)
    → IsShort id bytes
    → IsValid mb
    → 4 ≤ fuel
    → mb.pos + 1 + length bytes + missing (length bytes + 1) ≤ mb.size
    → (sent : Mbuf) × (rtpext_encode p fuel mb id bytes ≡ some (0, sent))
rtpext_encode-returns p fuel id bytes mb w v f room =
    let a = unpadded-Appends p id bytes w mb v in
    let ok : ((unpadded p id bytes w mb).0 == 0) ≡ true = ap (λ n. n == 0) (a.fits (omega arith)) in
    let (sent, e) =
      write_padding-returns p mb fuel (head id bytes ∷ bytes) (unpadded p id bytes w mb) a
        (omega arith) (omega arith) (omega arith) in
    (sent, encode_checked p id bytes w fuel mb ∙ rw ok e)

-- On a machine that grants no larger block, a write behind a full one fails and changes nothing.
new_block-refused :
    (p : Platform) (old : List ℕ) (size : ℕ)
    → ((n k : ℕ) → p.realloc n k ≡ false)
    → 0 < length old
    → new_block p old size ≡ none
unfolding new_block realloc_exclusive
new_block-refused p [] size refused h = absurd (omega arith)
new_block-refused p (b ∷ bs) size refused h = rw refused (ground arith)

module _ (p : Platform) (mb : Mbuf) (refused : (n k : ℕ) → p.realloc n k ≡ false) (v : IsValid mb)
    (big : 0 < mb.size) where
  resize-refused : (size : ℕ) → resize p mb size ≡ (enomem, mb)
  unfolding resize
  resize-refused size = rw (resize, new_block-refused p mb.buf size refused (omega (arith, v))) refl

  write_mem_same_size : (bytes : List ℕ) → (write_mem p mb bytes).1.size ≡ mb.size
  unfolding write_mem reserve put
  write_mem_same_size bytes =
      let rsize = add_size mb.pos (length bytes) in
      elim (Bool-cases (ltb mb.size rsize)) [
        | inl more ↦ rw (more, resize-refused (wanted mb rsize)) refl
        | inr fits ↦ rw fits refl
      ]

  write_mem-refused : (b : ℕ) → mb.pos ≡ mb.size → write_mem p mb (b ∷ []) ≡ (enomem, mb)
  unfolding write_mem reserve
  write_mem-refused b full =
      let more : ltb mb.size (add_size mb.pos (length (b ∷ []))) ≡ true =
        lt→ltb mb.size (add_size mb.pos (length (b ∷ []))) (omega (arith, v)) in
      rw (more, resize-refused (wanted mb (add_size mb.pos (length (b ∷ []))))) refl

-- The loop on a buffer that a write leaves as it is.
pub write_padding_spins :
    (p : Platform) (fuel start : ℕ) (err : ℕ) (mb : Mbuf)
    → write_u8 p mb 0 ≡ (enomem, mb)
    → (bit_and ((mb.pos + 2 ^ 64 - start) % 2 ^ 64) 0x03 == 0) ≡ false
    → write_padding p fuel start (err, mb) ≡ none
unfolding write_padding
write_padding_spins p zero start err mb stays odd = refl
write_padding_spins p (suc fuel) start err mb stays odd = rw odd (
    ap (λ (o : ℕ × Mbuf). write_padding p fuel start (bit_or err o.0, o.1)) stays
    ∙ write_padding_spins p fuel start (bit_or err enomem) mb stays odd)

write_u8-write_mem :
    (p : Platform) (mb : Mbuf) (v : ℕ) → write_u8 p mb v ≡ write_mem p mb (v % 256 ∷ [])
unfolding write_u8 write_int
write_u8-write_mem p mb v = ap (write_mem p mb) (host_bytes-one p.endian v)

unpadded_same_size :
    (p : Platform) (id : ℕ) (bytes : List ℕ) (w : IsShort id bytes) (mb : Mbuf)
    → ((n k : ℕ) → p.realloc n k ≡ false)
    → IsValid mb
    → 0 < mb.size
    → (unpadded p id bytes w mb).1.size ≡ mb.size
unpadded_same_size p id bytes w mb refused v big =
    let x = bit_or (id * 2 ^ 4) (length bytes - 1) % 2 ^ 8 in
    let first = write_u8 p mb x in
    let s : first.1.size ≡ mb.size =
      ap (λ (o : ℕ × Mbuf). o.1.size) (write_u8-write_mem p mb x)
      ∙ write_mem_same_size p mb refused v big (x % 256 ∷ []) in
    write_mem_same_size p first.1 refused (write_u8-Appends p mb x v).valid (omega (arith, s)) bytes
    ∙ s

≢→false : (n : ℕ) → n ≢ 0 → (n == 0) ≡ false
≢→false n h = ground arith

-- If the data fills the block, the item is not a multiple of four bytes and realloc refuses to grow
-- the block, `rtpext_encode` does not return, however many rounds its loop is given.
pub rtpext_encode_spins :
    (p : Platform) (fuel id : ℕ) (bytes : List ℕ) (mb : Mbuf)
    → IsShort id bytes
    → IsValid mb
    → mb.pos + 1 + length bytes ≡ mb.size
    → (1 + length bytes) % 4 ≢ 0
    → ((n k : ℕ) → p.realloc n k ≡ false)
    → rtpext_encode p fuel mb id bytes ≡ none
rtpext_encode_spins p fuel id bytes mb w v full odd refused =
    let a = unpadded-Appends p id bytes w mb v in
    let out = unpadded p id bytes w mb in
    let z : out.0 ≡ 0 = a.fits (omega arith) in
    let same : out.1.size ≡ mb.size = unpadded_same_size p id bytes w mb refused v (omega arith) in
    let stays : write_u8 p out.1 0 ≡ (enomem, out.1) =
      write_u8-write_mem p out.1 0
      ∙ write_mem-refused p out.1 refused a.valid (omega (arith, same)) 0
          (omega (arith, a.at z, same)) in
    let len : (out.1.pos + 2 ^ 64 - mb.pos) % 2 ^ 64 ≡ 1 + length bytes =
      omega (arith, a.at z, v) in
    let unaligned : (bit_and ((out.1.pos + 2 ^ 64 - mb.pos) % 2 ^ 64) 0x03 == 0) ≡ false =
      ap (λ n. bit_and n 0x03 == 0) len
      ∙ ap (λ n. n == 0) (bit_and-mask 2 (1 + length bytes))
      ∙ ≢→false ((1 + length bytes) % 4) odd in
    let fine : (out.0 == 0) ≡ true = ap (λ n. n == 0) z in
    encode_checked p id bytes w fuel mb
    ∙ rw fine (write_padding_spins p fuel mb.pos out.0 out.1 stays unaligned)
