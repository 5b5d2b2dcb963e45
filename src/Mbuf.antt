-- ===== src/Mbuf.antt =====
-- src/mbuf/mbuf.c and include/re/re_mbuf.h: a growing buffer with a position and an end.
-- An operation returns the error number and the new buffer. `buf` is the block behind the pointer,
-- exclusively owned; the empty list also stands for NULL. NULL arguments are left out.
pub mod Ints
pub mod Inv
pub mod Cursor
pub mod Words
pub mod Takes
pub mod Alloc
use re_cpm.Base.{
  ℕ, zero, suc, ◌+◌, ◌-◌, ◌%◌, ◌^◌, max, ltb, leb, ◌==◌, if◌then◌else◌, Bool, ◌&&◌, ◌||◌,
}
use re_cpm.Base.{List, [], ◌∷◌, ◌++◌, length, take, drop, replicate, overwrite, Option, none, some}
use re_cpm.Base.Int.{ℤ, pos, negsuc, ◌+ℤ◌, ltb_ℤ, sub_ℕ}
use re_cpm.Base.Errno.{enomem, einval, erange, eoverflow}
use re_cpm.Platform.{Platform, add_size, mul_size}
use re_cpm.Mem.{mem_alloc, realloc_exclusive}

pub record Mbuf : Type 0 where
  pub buf : List ℕ
  pub size : ℕ
  pub pos : ℕ
  pub end : ℕ

abbrev pub default_size : ℕ
default_size = 512

-- `mbuf_get_left` and `mbuf_get_space`
unfoldable pub get_left : Mbuf → ℕ
get_left mb = if ltb mb.pos mb.end then mb.end - mb.pos else 0

unfoldable pub get_space : Mbuf → ℕ
get_space mb = if ltb mb.pos mb.size then mb.size - mb.pos else 0

-- the bytes from `mbuf_buf` on
abbrev pub at_pos : Mbuf → List ℕ
at_pos mb = drop mb.pos mb.buf

unfoldable pub set_pos : Mbuf → ℕ → Mbuf
set_pos mb n = record mb { pos = n }

unfoldable pub set_end : Mbuf → ℕ → Mbuf
set_end mb n = record mb { end = n }

-- `mbuf_advance`: a signed step, added to a `size_t`
unfoldable pub advance : Mbuf → ℤ → Mbuf
advance mb (pos n) = record mb { pos = add_size mb.pos n }
advance mb (negsuc n) = record mb { pos = (mb.pos + 2 ^ 64 - suc n) % 2 ^ 64 }

unfoldable pub rewind : Mbuf → Mbuf
rewind mb = record mb { pos = 0; end = 0 }

unfoldable pub skip_to_end : Mbuf → Mbuf
skip_to_end mb = record mb { pos = mb.end }

-- `mbuf_init`
unfoldable pub init : Mbuf
init = record { buf = []; size = 0; pos = 0; end = 0 }

-- `mbuf->buf ? mem_realloc(mb->buf, size) : mem_alloc(size, NULL)`
unfoldable pub new_block : Platform → List ℕ → ℕ → Option (List ℕ)
new_block p [] size = mem_alloc p size
new_block p (b ∷ bs) size = realloc_exclusive p (b ∷ bs) size

unfoldable pub resize : Platform → Mbuf → ℕ → ℕ × Mbuf
resize p mb size = elim (new_block p mb.buf size) [
  | none ↦ (enomem, mb)
  | some b ↦ (0, record mb { buf = b; size = size })
]

-- `mbuf_alloc`; `none` is NULL.
unfoldable pub alloc : Platform → ℕ → Option Mbuf
alloc p size =
    let (err, mb) = resize p init (if size == 0 then default_size else size) in
    if err == 0 then some mb else none

-- `mbuf_dup`
unfoldable pub dup : Platform → Mbuf → Option Mbuf
dup p mbd = elim (alloc p mbd.size) [
  | none ↦ none
  | some mb ↦ some (record mb {
    buf = overwrite mb.buf 0 (take mbd.size mbd.buf);
    size = mbd.size;
    pos = mbd.pos;
    end = mbd.end;
  })
]

unfoldable pub trim : Platform → Mbuf → Mbuf
trim p mb = if mb.end == 0 || mb.end == mb.size then mb else (resize p mb mb.end).1

-- the room that a write to `rsize` asks for
unfoldable pub wanted : Mbuf → ℕ → ℕ
wanted mb rsize = max rsize (if mb.size == 0 then default_size else mul_size mb.size 2)

-- what `mbuf_write_mem` and `mbuf_fill` do first
unfoldable pub reserve : Platform → Mbuf → ℕ → ℕ × Mbuf
reserve p mb rsize = if ltb mb.size rsize then resize p mb (wanted mb rsize) else (0, mb)

-- `memcpy(mb->buf + mb->pos, bytes, ...)`, and the position and end behind it
unfoldable pub put : Mbuf → List ℕ → Mbuf
put mb bytes =
    let pos' = add_size mb.pos (length bytes) in
    record mb { buf = overwrite mb.buf mb.pos bytes; pos = pos'; end = max mb.end pos' }

unfoldable pub write_mem : Platform → Mbuf → List ℕ → ℕ × Mbuf
write_mem p mb bytes =
    let (err, mb') = reserve p mb (add_size mb.pos (length bytes)) in
    if err == 0 then (0, put mb' bytes) else (err, mb')

-- `mbuf_fill`
unfoldable pub fill : Platform → Mbuf → ℕ → ℕ → ℕ × Mbuf
fill p mb c n =
    if n == 0
    then (einval, mb)
    else (let (err, mb') = reserve p mb (add_size mb.pos n) in
        if err == 0 then (0, put mb' (replicate n c)) else (err, mb'))

-- `mbuf_read_mem`: the error number, the bytes copied out, and the buffer.
unfoldable pub read_mem : Mbuf → ℕ → ℕ × List ℕ × Mbuf
read_mem mb n =
    if ltb (get_left mb) n
    then (eoverflow, [], mb)
    else (0, take n (at_pos mb), record mb { pos = add_size mb.pos n })

-- `mbuf_set_posend`
unfoldable pub set_posend : Mbuf → ℕ → ℕ → Mbuf
set_posend mb p e =
    if ltb e p then mb else if ltb mb.size e then mb else record mb { pos = p; end = e }

-- a `size_t` as an `ssize_t`
abbrev pub to_ssize : ℕ → ℤ
to_ssize n = if ltb n (2 ^ 63) then pos n else sub_ℕ n (2 ^ 64)

-- `n + shift` in `size_t`
abbrev pub shifted : ℕ → ℤ → ℕ
shifted n (pos k) = add_size n k
shifted n (negsuc k) = (n + 2 ^ 64 - suc k) % 2 ^ 64

-- the resize in `mbuf_shift`
unfoldable pub reserve_exact : Platform → Mbuf → ℕ → ℕ × Mbuf
reserve_exact p mb rsize = if ltb mb.size rsize then resize p mb rsize else (0, mb)

-- `mbuf_shift`: the bytes between position and end move, and both with them.
unfoldable pub shift : Platform → Mbuf → ℤ → ℕ × Mbuf
shift p mb s =
    if ltb_ℤ (to_ssize mb.pos +ℤ s) (pos 0) || ltb_ℤ (to_ssize mb.end +ℤ s) (pos 0)
    then (erange, mb)
    else (let (err, mb') = reserve_exact p mb (shifted mb.end s) in
        if err == 0
        then (
          0,
          record mb' {
            buf = overwrite mb'.buf (shifted mb'.pos s) (take (get_left mb') (at_pos mb'));
            pos = shifted mb'.pos s;
            end = shifted mb'.end s;
          },
        )
        else (err, mb'))
