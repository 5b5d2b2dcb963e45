-- ===== src/Mbuf/Ints.antt =====
-- The integer reads and writes of src/mbuf/mbuf.c: values of 1, 2, 4 or 8 bytes in host order, and
-- the strings. A `none` of `read_str` is an input that the loop has not copied.
use re_cpm.Base.{
  ℕ, zero, suc, ◌+◌, ◌-◌, ◌==◌, ltb, if◌then◌else◌, ◌||◌, List, [], ◌∷◌, ◌++◌, take, drop,
}
use re_cpm.Base.{Option, none, some, host_bytes, host_value, bit_or}
use re_cpm.Base.Errno.{erange, enomem}
use re_cpm.Platform.{Platform, add_size}
use re_cpm.Mem.{mem_alloc}
use re_cpm.Mbuf.{Mbuf, write_mem, read_mem}

-- `mbuf_write_u8` to `mbuf_write_u64` are this at 1, 2, 4 and 8 bytes.
unfoldable pub write_int : ℕ → Platform → Mbuf → ℕ → ℕ × Mbuf
write_int n p mb v = write_mem p mb (host_bytes p.endian n v)

unfoldable pub write_u8 : Platform → Mbuf → ℕ → ℕ × Mbuf
unfolding write_int
write_u8 = write_int 1

unfoldable pub write_u16 : Platform → Mbuf → ℕ → ℕ × Mbuf
unfolding write_int
write_u16 = write_int 2

unfoldable pub write_u32 : Platform → Mbuf → ℕ → ℕ × Mbuf
unfolding write_int
write_u32 = write_int 4

unfoldable pub write_u64 : Platform → Mbuf → ℕ → ℕ × Mbuf
unfolding write_int
write_u64 = write_int 8

-- `(0 == mbuf_read_mem(mb, &v, sizeof(v))) ? v : 0`
unfoldable pub read_int : ℕ → Platform → Mbuf → ℕ × Mbuf
read_int n p mb =
    let (err, bytes, mb') = read_mem mb n in
    (if err == 0 then host_value p.endian bytes else 0, mb')

unfoldable pub read_u8 : Platform → Mbuf → ℕ × Mbuf
unfolding read_int
read_u8 = read_int 1

unfoldable pub read_u16 : Platform → Mbuf → ℕ × Mbuf
unfolding read_int
read_u16 = read_int 2

unfoldable pub read_u32 : Platform → Mbuf → ℕ × Mbuf
unfolding read_int
read_u32 = read_int 4

unfoldable pub read_u64 : Platform → Mbuf → ℕ × Mbuf
unfolding read_int
read_u64 = read_int 8

-- `mbuf_read_str`: bytes up to a zero or to `size`; with the buffer used up the reads give zeros.
unfoldable pub read_str : Platform → Mbuf → ℕ → List ℕ × Mbuf
unfolding read_u8
read_str p mb zero = ([], mb)
read_str p mb (suc size) =
    let (c, mb') = read_u8 p mb in
    let more = read_str p mb' size in if c == 0 then (0 ∷ [], mb') else (c ∷ more.0, more.1)

-- `mbuf_strdup`: the error number, the new string with its zero, and the buffer.
unfoldable pub strdup : Platform → Mbuf → ℕ → ℕ × Option (List ℕ) × Mbuf
strdup p mb len = elim (mem_alloc p (add_size len 1)) [
  | none ↦ (enomem, none, mb)
  | some block ↦
      let (err, bytes, mb') = read_mem mb len in
      if err == 0 then (0, some (bytes ++ (0 ∷ [])), mb') else (err, none, mb')
]

-- `mbuf_write_pl_skip`: the bytes of `pl` without those of `skip`, both in one text. A `struct pl`
-- is its start and its length.
unfoldable pub write_pl_skip : Platform → Mbuf → List ℕ → ℕ → ℕ → ℕ → ℕ → ℕ × Mbuf
write_pl_skip p mb text start len skip_start skip_len =
    if ltb skip_start start || ltb (start + len) (skip_start + skip_len)
    then (erange, mb)
    else (let (err, mb') = write_mem p mb (take (skip_start - start) (drop start text)) in
        if err == 0
        then write_mem p mb'
            (take (start + len - (skip_start + skip_len)) (drop (skip_start + skip_len) text))
        else (err, mb'))

-- `err |= f(mb)`: the next call runs whatever the last one returned.
infixl 5 ◌|=◌
abbrev pub ◌|=◌ : ℕ × Mbuf → (Mbuf → ℕ × Mbuf) → ℕ × Mbuf
out |= f = let (err, mb) = f out.1 in (bit_or out.0 err, mb)
