-- ===== src/Tests/Memory.antt =====
-- Runs of src/mem/mem.c and src/mbuf/mbuf.c.
use re_cpm.Base.{ℕ, List, ◌-◌, drop, length, ◌≡◌, inr, refl, arith, [], ◌∷◌}
use re_cpm.Mem.{mem_realloc, block, grown}
use re_cpm.Mem.Resize.{Keeps, mem_realloc-Keeps, mem_realloc_shared_overrun}
use re_cpm.Mbuf.{write_mem, read_mem, reserve, put}
use re_cpm.Mbuf.Cursor.{Wrote, write_mem-Wrote, Read, read_mem-Read}
use re_cpm.Tests.Host.{host, three, three-IsValid}

mem_realloc-Keeps_example : Keeps (1 ∷ 2 ∷ []) 3 (mem_realloc host 2 (1 ∷ 2 ∷ []) 3)
mem_realloc-Keeps_example = mem_realloc-Keeps host 2 (1 ∷ 2 ∷ []) 3 (inr (omega arith))

mem_realloc_shared_overrun_example :
    let old : List ℕ = 1 ∷ 2 ∷ 3 ∷ [] in
    (mem_realloc host 2 old 2 ≡ block (grown host old 2) (drop 2 old))
    × (length (drop 2 old) ≡ length old - 2)
mem_realloc_shared_overrun_example =
    mem_realloc_shared_overrun host 2 (1 ∷ 2 ∷ 3 ∷ []) 2 (omega arith) (omega arith) refl

write_mem_over :
    write_mem host three (5 ∷ []) ≡ (0, record three { buf = 7 ∷ 5 ∷ 9 ∷ 0 ∷ []; pos = 2 })
unfolding write_mem reserve put
write_mem_over = refl

write_mem-Wrote_example :
    Wrote three (4 ∷ 5 ∷ 6 ∷ 7 ∷ []) (write_mem host three (4 ∷ 5 ∷ 6 ∷ 7 ∷ []))
write_mem-Wrote_example =
    write_mem-Wrote host three (4 ∷ 5 ∷ 6 ∷ 7 ∷ []) three-IsValid (omega arith)

read_mem-Read_example : Read three 2 (read_mem three 2)
read_mem-Read_example = read_mem-Read three 2 three-IsValid
