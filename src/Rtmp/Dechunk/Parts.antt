-- ===== src/Rtmp/Dechunk/Parts.antt =====
-- The parts of `rtmp_dechunker_receive` of src/rtmp/dechunk.c: the list of chunk streams, and the
-- buffer of a message that is not complete yet.
use re_cpm.Base.{
  ℕ, ◌+◌, ◌-◌, ◌^◌, ◌<◌, ◌≤◌, ◌≡◌, refl, sym, ap, ◌∙◌, arith, true, false, not, leb, ltb, ltb-ge,
  ◌==◌, Bool-cases, inl, inr, min, none, some, List, [], ◌∷◌, ◌++◌, length, length-append, drop,
  overwrite, be_bytes, length-be_bytes,
}
use re_cpm.Platform.{Platform, add_size}
use re_cpm.Mem.{mem_size_max}
use re_cpm.Mbuf.{Mbuf, alloc, get_left, get_space, read_mem}
use re_cpm.Mbuf.Ints.{read_u32}
use re_cpm.Mbuf.Inv.{IsValid}
use re_cpm.Mbuf.Cursor.{rest}
use re_cpm.Mbuf.Takes.{get_left-of, read_u32-Takes, read_mem-Takes}
use re_cpm.Rtmp.Header.{Header}
use re_cpm.Rtmp.Header.Wire.{ext_bytes}
use re_cpm.Rtmp.Dechunk.{
  Chunk, find_chunk, update_chunk, begin_message, begin_data, merge_header, settle_header,
  next_ext_ts, next_data, finish_message,
}

-- The stream that is written is found again, and the others are as they were.
pub find_chunk-update :
    (cs : List Chunk) (id : ℕ) (c c' : Chunk)
    → find_chunk cs id ≡ some c
    → c'.hdr.chunk_id ≡ id
    → find_chunk (update_chunk cs id c') id ≡ some c'
unfolding find_chunk update_chunk
find_chunk-update [] id c c' h k = absurd (ground arith)
find_chunk-update (x ∷ xs) id c c' h k = elim (Bool-cases (id == x.hdr.chunk_id)) [
  | inl here ↦ let found : (id == c'.hdr.chunk_id) ≡ true = ground arith in rw (here, found) refl
  | inr on ↦ rw (on, on) (find_chunk-update xs id c c' (sym (rw on refl) ∙ h) k)
]

pub find_chunk-new :
    (cs : List Chunk) (id : ℕ) (c : Chunk)
    → find_chunk cs id ≡ none
    → c.hdr.chunk_id ≡ id
    → find_chunk (cs ++ (c ∷ [])) id ≡ some c
unfolding find_chunk
find_chunk-new [] id c h k =
    let found : (id == c.hdr.chunk_id) ≡ true = ground arith in rw found refl
find_chunk-new (x ∷ xs) id c h k = elim (Bool-cases (id == x.hdr.chunk_id)) [
  | inl here ↦ absurd (ground (arith, here, h))
  | inr on ↦ rw on (find_chunk-new xs id c (sym (rw on refl) ∙ h) k)
]

-- A buffer of `size` bytes, `done` of them there, `junk` to come.
abbrev pub held : ℕ → List ℕ → List ℕ → Mbuf
held size done junk = record {
  buf = done ++ junk;
  size = size;
  pos = length done;
  end = length done;
}

pub overwrite-nil : (xs : List ℕ) → overwrite xs 0 [] ≡ xs
overwrite-nil [] = refl
overwrite-nil (x ∷ xs) = refl

pub overwrite-append :
    (done junk got : List ℕ)
    → length got ≤ length junk
    → overwrite (done ++ junk) (length done) got ≡ (done ++ got) ++ drop (length got) junk
overwrite-append [] [] [] h = refl
overwrite-append [] [] (g ∷ gs) h = absurd (omega arith)
overwrite-append [] (x ∷ xs) [] h = refl
overwrite-append [] (x ∷ xs) (g ∷ gs) h = ap (λ t. g ∷ t) (overwrite-append [] xs gs (omega arith))
overwrite-append (d ∷ ds) junk got h = ap (λ t. d ∷ t) (overwrite-append ds junk got h)

-- What the chunk stream has while a message comes in.
abbrev pub partial : Header → ℕ → List ℕ → List ℕ → Chunk
partial hd size done junk = record { hdr = hd; mb = some (held size done junk) }

pub next_data-eq :
    (hd : Header) (sz size : ℕ) (done junk part r : List ℕ) (mb : Mbuf)
    → length done + length junk ≡ size
    → size ≤ mem_size_max
    → 0 < length junk
    → length part ≡ min (length junk) sz
    → IsValid mb
    → rest mb ≡ part ++ r
    → (mb' : Mbuf) × (next_data sz hd (held size done junk) mb
        ≡ (0, partial hd size (done ++ part) (drop (length part) junk), mb'))
      × IsValid mb'
      × (rest mb' ≡ r)
unfolding next_data get_space
next_data-eq hd sz size done junk part r mb whole small some_left n v b =
    let below : ltb (length done) size ≡ true = ground arith in
    let space : min (size - length done) sz ≡ length part = omega arith in
    let room : ltb (get_left mb) (length part) ≡ false =
      ltb-ge (get_left mb) (length part) (omega (arith, get_left-of mb part r v b)) in
    let (z, got, t) = read_mem-Takes mb part r (length part) v refl b in
    let over = overwrite-append done junk part (omega arith) in
    let next : add_size (length done) (length part) ≡ length (done ++ part) =
      omega (arith, length-append {0} done part) in
    (
      (read_mem mb (length part)).2,
      rw (below, space, room, z, got, over, next) refl,
      t.valid,
      t.left,
    )

pub merge_same : (hd old : Header) → hd.format ≡ 0 → merge_header hd old ≡ hd
unfolding merge_header
merge_same hd old f0 = let t : (hd.format == 0) ≡ true = ground arith in rw t refl

pub settle_same : (hd : Header) → hd.format ≡ 0 → settle_header hd hd ≡ hd
unfolding settle_header
settle_same hd f0 =
    let one : (hd.format == 1) ≡ false = ground arith in
    let two : (hd.format == 2) ≡ false = ground arith in rw (one, two) refl

-- The first chunk of a message of format 0.
pub begin_message-eq :
    (p : Platform) (sz : ℕ) (hd : Header) (c : Chunk) (junk part r : List ℕ) (mb : Mbuf)
    → hd.format ≡ 0
    → hd.len ≡ length junk
    → length part ≡ min (length junk) sz
    → alloc p (length junk) ≡ some (record { buf = junk; size = length junk; pos = 0; end = 0 })
    → IsValid mb
    → rest mb ≡ part ++ r
    → (mb' : Mbuf) × (begin_message p sz hd c mb
        ≡ (0, partial hd (length junk) part (drop (length part) junk), mb'))
      × IsValid mb'
      × (rest mb' ≡ r)
unfolding begin_message begin_data
begin_message-eq p sz hd c junk part r mb f0 len n memory v b =
    let room : ltb (get_left mb) (length part) ≡ false =
      ltb-ge (get_left mb) (length part) (omega (arith, get_left-of mb part r v b)) in
    let (z, got, t) = read_mem-Takes mb part r (length part) v refl b in
    let over = overwrite-append [] junk part (omega arith) in
    let size : min hd.len sz ≡ length part = ap (λ k. min k sz) len ∙ sym n in
    let step : begin_data p (length part) hd hd c mb ≡ (
      0,
      partial hd (length junk) part (drop (length part) junk),
      (read_mem mb (length part)).2,
    ) =
      rw (room, ap (alloc p) len ∙ memory, z, got, over, settle_same hd f0) refl in
    (
      (read_mem mb (length part)).2,
      ap (λ h. begin_data p (min h.len sz) hd h c mb) (merge_same hd c.hdr f0)
          ∙ ap (λ k. begin_data p k hd hd c mb) size
          ∙ step,
      t.valid,
      t.left,
    )

-- The extended timestamp of the first chunk comes again with each other one.
pub next_ext_ts-eq :
    (p : Platform) (c : Chunk) (x : ℕ) (r : List ℕ) (mb : Mbuf)
    → x < 2 ^ 32
    → c.hdr.format ≡ 0
    → c.hdr.ext_ts ≡ not (x == 0)
    → ((x == 0) ≡ false → c.hdr.timestamp ≡ x)
    → IsValid mb
    → rest mb ≡ ext_bytes x ++ r
    → (mb' : Mbuf) × (next_ext_ts p c mb ≡ (0, c, mb')) × IsValid mb' × (rest mb' ≡ r)
unfolding next_ext_ts
next_ext_ts-eq p c x r mb small f0 ext time v b = elim (Bool-cases (x == 0)) [
  | inl short ↦
      let off : c.hdr.ext_ts ≡ false = ext ∙ rw short refl in
      (mb, rw off refl, v, b ∙ rw short refl)
  | inr long ↦
      let on : c.hdr.ext_ts ≡ true = ext ∙ rw long refl in
      let b' : rest mb ≡ be_bytes 4 x ++ r = b ∙ rw long refl in
      let room : ltb (get_left mb) 4 ≡ false =
        ltb-ge (get_left mb) 4
          (omega (arith, get_left-of mb (be_bytes 4 x) r v b', length-be_bytes 4 x)) in
      let (e, t) = read_u32-Takes p mb x r v small b' in
      ((read_u32 p mb).1, rw (on, room, f0, e, time long) refl, t.valid, t.left)
]

-- The message that the handler gets.
abbrev pub message : ℕ → List ℕ → Mbuf
message size bytes = record { buf = bytes; size = size; pos = 0; end = size }

pub finish_message-last :
    (handler : Header → Mbuf → ℕ) (hd : Header) (size : ℕ) (done : List ℕ)
    → length done ≡ size
    → finish_message handler (partial hd size done []) ≡ (
      handler hd (message size (done ++ [])),
      record { hdr = hd; mb = none },
      some (hd, message size (done ++ [])),
    )
unfolding finish_message
finish_message-last handler hd size done h =
    let whole : leb size (length done) ≡ true = ground arith in rw (whole, h) refl

pub finish_message-more :
    (handler : Header → Mbuf → ℕ) (hd : Header) (size : ℕ) (done junk : List ℕ)
    → length done < size
    → finish_message handler (partial hd size done junk) ≡ (0, partial hd size done junk, none)
unfolding finish_message
finish_message-more handler hd size done junk h =
    let less : leb size (length done) ≡ false = ground arith in rw less refl
