-- ===== src/Rtpext/RoundTrip.antt =====
-- What the encoders of src/rtpext/rtpext.c write is read back by the decoders.
use re_cpm.Base.{
  ℕ, suc, ◌+◌, ◌-◌, ◌*◌, ◌/◌, ◌%◌, ◌^◌, ◌≤◌, ◌<◌, ◌≡◌, refl, sym, ap, ap₂, subst, ◌∙◌, arith, false,
  Bool-cases, inl, inr, ◌==◌, ltb, ltb-ge, if◌then◌else◌,
}
use re_cpm.Base.{
  List, [], ◌∷◌, ◌++◌, append_assoc, length, drop, replicate, overwrite, length-append,
  length-replicate, some, some-eq, bit_and, bit_or,
}
use re_cpm.Base.Bits.{bit_and-mask, bit_or-add}
use re_cpm.Platform.{Platform}
use re_cpm.Mbuf.{Mbuf, set_pos, get_left, write_mem, read_mem}
use re_cpm.Mbuf.Ints.{write_u8, read_u8, ◌|=◌}
use re_cpm.Mbuf.Inv.{IsValid}
use re_cpm.Mbuf.Cursor.{rest, length-rest}
use re_cpm.Mbuf.Words.{Appends, Appends-rewound, write_u8-Appends, mem_step, u8_step}
use re_cpm.Mbuf.Takes.{read_mem-Takes, read_u8-Takes, get_left-of}
use re_cpm.Rtpext.{
  Rtpext, cleared, rtpext_encode, rtpext_decode, rtpext_encode_long, rtpext_decode_long,
  decode_data, write_padding,
}
use re_cpm.Rtpext.Padding.{
  missing, write_padding-Appends, drop_zeros, drop_zeros-replicate, skip_padding-eq,
}

-- The item that the one byte form can carry.
pub record IsShort (id : ℕ) (bytes : List ℕ) : Type 0 where
  pub id_low : 1 ≤ id
  pub id_high : id ≤ 14
  pub some_data : 1 ≤ length bytes
  pub few_data : length bytes ≤ 16

-- What a decoder fills in.
abbrev pub item : ℕ → List ℕ → Rtpext
item id bytes = record cleared {
  id = id;
  len = length bytes;
  data_bytes = overwrite cleared.data_bytes 0 bytes;
}

-- The first byte of the one byte form.
abbrev pub head : ℕ → List ℕ → ℕ
head id bytes = id * 16 + (length bytes - 1)

module _ (p : Platform) (id : ℕ) (bytes : List ℕ) (w : IsShort id bytes) where
  -- The byte and the data, before the padding.
  abbrev pub unpadded : Mbuf → ℕ × Mbuf
  unpadded mb =
      write_u8 p mb (bit_or (id * 2 ^ 4) (length bytes - 1) % 2 ^ 8) |= (λ m. write_mem p m bytes)

  pub unpadded-Appends : (mb : Mbuf) → IsValid mb → Appends mb (head id bytes ∷ bytes) (unpadded mb)
  unpadded-Appends mb v =
      let h : bit_or (id * 2 ^ 4) (length bytes - 1) % 2 ^ 8 % 256 ≡ head id bytes =
        omega (arith, w, bit_or-add 4 id (length bytes - 1) (omega (arith, w))) in
      subst (λ b. Appends mb (b ∷ bytes) (unpadded mb)) h
        (mem_step p mb _ _ (write_u8-Appends p mb _ v) bytes (omega (arith, w)))

  pub encode_checked :
      (fuel : ℕ) (mb : Mbuf)
      → rtpext_encode p fuel mb id bytes ≡ (
          if (unpadded mb).0 == 0
          then write_padding p fuel mb.pos (unpadded mb)
          else some (unpadded mb))
  unfolding rtpext_encode
  encode_checked fuel mb =
      let a : ltb id 1 ≡ false = ltb-ge id 1 (omega (arith, w)) in
      let b : ltb 14 id ≡ false = ltb-ge 14 id (omega (arith, w)) in
      let c : ltb (length bytes) 1 ≡ false = ltb-ge (length bytes) 1 (omega (arith, w)) in
      let d : ltb 16 (length bytes) ≡ false = ltb-ge 16 (length bytes) (omega (arith, w)) in
      rw (a, b, c, d) refl

  -- The bytes on the wire.
  abbrev pub wire : List ℕ
  wire = (head id bytes ∷ bytes) ++ replicate (missing (suc (length bytes))) 0

  pub rtpext_encode-Appends :
      (fuel : ℕ) (mb sent : Mbuf)
      → IsValid mb
      → rtpext_encode p fuel mb id bytes ≡ some (0, sent)
      → Appends mb wire (0, sent)
  rtpext_encode-Appends fuel mb sent v e = elim (Bool-cases ((unpadded mb).0 == 0)) [
    | inl fine ↦
        write_padding-Appends p mb fuel (head id bytes ∷ bytes) (unpadded mb) (0, sent)
          (unpadded-Appends mb v) (omega (arith, w))
          (ap (λ b. if b then write_padding p fuel mb.pos (unpadded mb) else some (unpadded mb))
              (sym fine)
            ∙ sym (encode_checked fuel mb)
            ∙ e)
          refl
    | inr wrong ↦
        let same : unpadded mb ≡ (0, sent) = some-eq (
          ap (λ b. if b then write_padding p fuel mb.pos (unpadded mb) else some (unpadded mb))
            (sym wrong)
          ∙ sym (encode_checked fuel mb)
          ∙ e) in
        absurd (ground (arith, ap (λ (x : ℕ × Mbuf). x.0) same))
  ]

-- The data of an item, and the zeros behind it.
decode_data-Takes :
    (fuel : ℕ) (ext : Rtpext) (mb : Mbuf) (bytes r : List ℕ)
    → IsValid mb
    → ext.len ≡ length bytes
    → rest mb ≡ bytes ++ r
    → length r < fuel
    → (mb' : Mbuf) × (decode_data fuel ext mb
        ≡ some (0, record ext { data_bytes = overwrite ext.data_bytes 0 bytes }, mb'))
      × (rest mb' ≡ drop_zeros r)
unfolding decode_data
decode_data-Takes fuel ext mb bytes r v l b h =
    let enough : ltb (get_left mb) ext.len ≡ false =
      ltb-ge (get_left mb) ext.len (omega (arith, get_left-of mb bytes r v b)) in
    let (z, got, t) = read_mem-Takes mb bytes r ext.len v l b in
    let (mb', found, r', _) = skip_padding-eq fuel (read_mem mb ext.len).2 r t.valid t.left h in
    (mb', rw (z, found, got, enough) refl, r')

-- What the one byte form of an item is decoded to, whatever follows it.
rtpext_decode-Takes :
    (p : Platform) (fuel id : ℕ) (old : Rtpext) (mb : Mbuf) (bytes r : List ℕ)
    → IsShort id bytes
    → IsValid mb
    → rest mb ≡ head id bytes ∷ (bytes ++ r)
    → length r < fuel
    → (mb' : Mbuf) × (rtpext_decode p fuel old mb ≡ some (0, item id bytes, mb'))
      × (rest mb' ≡ drop_zeros r)
unfolding rtpext_decode
rtpext_decode-Takes p fuel id old mb bytes r w v b h =
    let (e, t) = read_u8-Takes p mb (head id bytes) (bytes ++ r) v b in
    let (mb', found, r') =
      decode_data-Takes fuel (record cleared { id = id; len = length bytes }) (read_u8 p mb).1 bytes
        r t.valid refl t.left h in
    let some_left : ltb (get_left mb) 1 ≡ false =
      ltb-ge (get_left mb) 1
        (omega (arith, get_left-of mb (head id bytes ∷ []) (bytes ++ r) v b)) in
    let high : head id bytes / 2 ^ 4 ≡ id = omega (arith, w) in
    let low : bit_and (head id bytes) 15 + 1 ≡ length bytes =
      omega (arith, w, bit_and-mask 4 (head id bytes)) in
    let c : ltb id 1 ≡ false = ltb-ge id 1 (omega (arith, w)) in
    let d : ltb 14 id ≡ false = ltb-ge 14 id (omega (arith, w)) in
    (mb', rw (e, high, low, c, d, some_left) found, r')

-- An item of the one byte form, with an identifier of 1 to 14 and 1 to 16 bytes, that
-- `rtpext_encode` writes into a valid buffer without an error ends on a multiple of four bytes from
-- its start, and `rtpext_decode` reads it back from there, given a round for every byte of the
-- block; behind it only zeros are skipped.
pub rtpext_decode-encode :
    (p : Platform) (fuel n id : ℕ) (bytes : List ℕ) (old : Rtpext) (mb sent : Mbuf)
    → IsShort id bytes
    → IsValid mb
    → rtpext_encode p fuel mb id bytes ≡ some (0, sent)
    → sent.size < n
    → (mb' : Mbuf) × (rtpext_decode p n old (set_pos sent mb.pos) ≡ some (0, item id bytes, mb'))
      × (rest mb' ≡ drop_zeros (rest sent))
      × ((sent.pos - mb.pos) % 4 ≡ 0)
unfolding set_pos
rtpext_decode-encode p fuel n id bytes old mb sent w v e h =
    let a = rtpext_encode-Appends p id bytes w fuel mb sent v e in
    let (v', b) = Appends-rewound mb (wire p id bytes w) (0, sent) v a refl in
    let k = missing (suc (length bytes)) in
    let zeros = replicate k 0 in
    let zeros_length : length zeros ≡ k = length-replicate {0} k 0 in
    let tail = drop (length (wire p id bytes w)) (rest mb) in
    let (mb', found, r) =
      rtpext_decode-Takes p n id old (set_pos sent mb.pos) bytes (zeros ++ tail) w v'
        (b ∙ ap (λ t. head id bytes ∷ t) (append_assoc bytes zeros tail))
        (omega (
          arith,
          ap length b,
          length-rest (set_pos sent mb.pos) v',
          length-append {0} (wire p id bytes w) tail,
          length-append {0} bytes zeros,
          length-append {0} zeros tail,
          v',
        )) in
    (
      mb',
      found,
      r ∙ drop_zeros-replicate k tail ∙ ap drop_zeros (sym (a.behind refl)),
      omega (arith, a.at refl, length-append {0} bytes zeros, zeros_length),
    )

-- The item that the two byte form can carry.
pub record IsLong (id : ℕ) (bytes : List ℕ) : Type 0 where
  pub id_some : 1 ≤ id
  pub id_byte : id < 256
  pub len_byte : length bytes < 256

module _ (p : Platform) (id : ℕ) (mb : Mbuf) (v : IsValid mb) where
  two_bytes : ℕ → ℕ × Mbuf
  two_bytes n = write_u8 p mb id |= (λ m. write_u8 p m n)

  two_bytes-Appends : (n : ℕ) → id < 256 → n < 256 → Appends mb (id ∷ n ∷ []) (two_bytes n)
  unfolding two_bytes
  two_bytes-Appends n h k =
      let a : id % 256 ≡ id = omega arith in
      let b : n % 256 ≡ n = omega arith in
      subst (λ bs. Appends mb bs (write_u8 p mb id |= (λ m. write_u8 p m n)))
        (ap₂ (λ c d. c ∷ d ∷ []) a b) (u8_step p mb _ _ (write_u8-Appends p mb id v) n)

  pub rtpext_encode_long-Appends :
      (bytes : List ℕ)
      → IsLong id bytes
      → Appends mb (id ∷ length bytes ∷ bytes) (rtpext_encode_long p mb id bytes)
  unfolding rtpext_encode_long two_bytes
  rtpext_encode_long-Appends [] w = two_bytes-Appends 0 (omega (arith, w)) (omega arith)
  rtpext_encode_long-Appends (x ∷ xs) w =
      let some_data : (length (x ∷ xs) == 0) ≡ false = ground arith in
      rw some_data (
        mem_step p mb _ _
          (two_bytes-Appends (length (x ∷ xs)) (omega (arith, w)) (omega (arith, w))) (x ∷ xs)
          (omega (arith, w)))

rtpext_decode_long-Takes :
    (p : Platform) (fuel id : ℕ) (old : Rtpext) (mb : Mbuf) (bytes r : List ℕ)
    → IsLong id bytes
    → IsValid mb
    → rest mb ≡ id ∷ length bytes ∷ (bytes ++ r)
    → length r < fuel
    → (mb' : Mbuf) × (rtpext_decode_long p fuel old mb ≡ some (0, item id bytes, mb'))
      × (rest mb' ≡ drop_zeros r)
unfolding rtpext_decode_long
rtpext_decode_long-Takes p fuel id old mb bytes r w v b h =
    let (e1, t1) = read_u8-Takes p mb id (length bytes ∷ (bytes ++ r)) v b in
    let (e2, t2) = read_u8-Takes p (read_u8 p mb).1 (length bytes) (bytes ++ r) t1.valid t1.left in
    let (mb', found, r') =
      decode_data-Takes fuel (record cleared { id = id; len = length bytes })
        (read_u8 p (read_u8 p mb).1).1 bytes r t2.valid refl t2.left h in
    let two_left : ltb (get_left mb) 2 ≡ false =
      ltb-ge (get_left mb) 2
        (omega (arith, get_left-of mb (id ∷ length bytes ∷ []) (bytes ++ r) v b)) in
    let c : (id == 0) ≡ false = ground (arith, w) in (mb', rw (e1, e2, c, two_left) found, r')

-- An item of the two byte form, with an identifier of 1 to 255 and less than 256 bytes, that
-- `rtpext_encode_long` writes into a valid buffer without an error takes two bytes and the data, and
-- `rtpext_decode_long` reads it back from its start, given a round for every byte of the block;
-- behind it only zeros are skipped.
pub rtpext_decode_long-encode :
    (p : Platform) (n id : ℕ) (bytes : List ℕ) (old : Rtpext) (mb : Mbuf)
    → IsLong id bytes
    → IsValid mb
    → (rtpext_encode_long p mb id bytes).0 ≡ 0
    → let sent = (rtpext_encode_long p mb id bytes).1 in
      sent.size < n
      → (mb' : Mbuf) × (rtpext_decode_long p n old (set_pos sent mb.pos)
          ≡ some (0, item id bytes, mb'))
        × (rest mb' ≡ drop_zeros (rest sent))
        × (sent.pos ≡ mb.pos + 2 + length bytes)
unfolding set_pos
rtpext_decode_long-encode p n id bytes old mb w v z h =
    let out = rtpext_encode_long p mb id bytes in
    let wire = id ∷ length bytes ∷ bytes in
    let a = rtpext_encode_long-Appends p id mb v bytes w in
    let (v', b) = Appends-rewound mb wire out v a z in
    let tail = drop (length wire) (rest mb) in
    let (mb', found, r) =
      rtpext_decode_long-Takes p n id old (set_pos out.1 mb.pos) bytes tail w v' b (
        omega (
          arith,
          ap length b,
          length-rest (set_pos out.1 mb.pos) v',
          length-append {0} wire tail,
          v',
        )) in
    (mb', found, r ∙ ap drop_zeros (sym (a.behind z)), omega (arith, a.at z))
