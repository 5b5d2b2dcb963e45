-- ===== src/Linked.antt =====
-- src/list/list.c and include/re/re_list.h: doubly linked lists through `struct le` members of the
-- elements. Pointers are numbers, 0 is NULL. The store has a `struct le` at each address, linked in
-- or not, and a `struct list` at each address. The warnings that are printed are left out.
pub mod Chain
pub mod World
pub mod Splice
pub mod Local
pub mod Append
pub mod Unlink
pub mod Insert
pub mod Spec
pub mod Refine
pub mod Walk
pub mod Reads
pub mod Sorted
pub mod Clear
pub mod Flush
pub mod Bubble
pub mod Sort
use re_cpm.Base.{
  ℕ, zero, suc, ◌+◌, ◌%◌, ◌^◌, ◌==◌, if◌then◌else◌, Bool, true, false, not, ◌||◌, Option, none,
  some, List, [], ◌∷◌,
}

-- `struct le`; `value` is its data pointer.
pub record Le : Type 0 where
  pub prev : ℕ
  pub next : ℕ
  pub list : ℕ
  pub value : ℕ

-- `struct list`
pub record Ends : Type 0 where
  pub head : ℕ
  pub tail : ℕ

pub record Store : Type 0 where
  pub le : ℕ → Le
  pub ends : ℕ → Ends

unfoldable pub put {ℓ} : {A : Type ℓ} → (ℕ → A) → ℕ → A → ℕ → A
put h a c b = if b == a then c else h b

abbrev pub set_le : Store → ℕ → Le → Store
set_le s a c = record s { le = put s.le a c }

-- `a->prev = p` and so on
abbrev pub set_prev : Store → ℕ → ℕ → Store
set_prev s a p = set_le s a (record (s.le a) { prev = p })

abbrev pub set_next : Store → ℕ → ℕ → Store
set_next s a n = set_le s a (record (s.le a) { next = n })

abbrev pub set_head : Store → ℕ → ℕ → Store
set_head s l a = record s { ends = put s.ends l (record (s.ends l) { head = a }) }

abbrev pub set_tail : Store → ℕ → ℕ → Store
set_tail s l a = record s { ends = put s.ends l (record (s.ends l) { tail = a }) }

unfoldable pub list_init : Store → ℕ → Store
list_init s l = if l == 0 then s else set_tail (set_head s l 0) l 0

-- `if (!list->head) list->head = le`, `if (list->tail) list->tail->next = le`
unfoldable pub link_tail : Store → ℕ → ℕ → Store
link_tail s l e =
    let s1 = if (s.ends l).head == 0 then set_head s l e else s in
    let s2 = if (s1.ends l).tail == 0 then s1 else set_next s1 (s1.ends l).tail e in set_tail s2 l e

unfoldable pub list_append : Store → ℕ → ℕ → ℕ → Store
list_append s l e v =
    if l == 0 || e == 0
    then s
    else if not ((s.le e).list == 0)
    then s
    else link_tail (set_le s e (record { prev = (s.ends l).tail; next = 0; list = l; value = v })) l
        e

unfoldable pub link_head : Store → ℕ → ℕ → Store
link_head s l e =
    let s1 = if (s.ends l).head == 0 then s else set_prev s (s.ends l).head e in
    let s2 = if (s1.ends l).tail == 0 then set_tail s1 l e else s1 in set_head s2 l e

unfoldable pub list_prepend : Store → ℕ → ℕ → ℕ → Store
list_prepend s l e v =
    if l == 0 || e == 0
    then s
    else if not ((s.le e).list == 0)
    then s
    else link_head (set_le s e (record { prev = 0; next = (s.ends l).head; list = l; value = v })) l
        e

-- The last part of `list_insert_before`, and of `list_insert_after`.
unfoldable pub link_before : Store → ℕ → ℕ → ℕ → ℕ → Store
link_before s l e i v =
    let s1 =
      if not ((s.le e).prev == 0)
      then set_next s (s.le e).prev i
      else if (s.ends l).head == e
      then set_head s l i
      else s in
    let s2 = set_le s1 i (record { prev = (s1.le e).prev; next = e; list = l; value = v }) in
    set_prev s2 e i

unfoldable pub list_insert_before : Store → ℕ → ℕ → ℕ → ℕ → Store
list_insert_before s l e i v =
    if l == 0 || (e == 0 || i == 0)
    then s
    else if not ((s.le i).list == 0)
    then s
    else link_before s l e i v

unfoldable pub link_after : Store → ℕ → ℕ → ℕ → ℕ → Store
link_after s l e i v =
    let s1 =
      if not ((s.le e).next == 0)
      then set_prev s (s.le e).next i
      else if (s.ends l).tail == e
      then set_tail s l i
      else s in
    let s2 = set_le s1 i (record { prev = e; next = (s1.le e).next; list = l; value = v }) in
    set_next s2 e i

unfoldable pub list_insert_after : Store → ℕ → ℕ → ℕ → ℕ → Store
list_insert_after s l e i v =
    if l == 0 || (e == 0 || i == 0)
    then s
    else if not ((s.le i).list == 0)
    then s
    else link_after s l e i v

-- `list_unlink` of an element of the list `l`
unfoldable pub unlink_from : Store → ℕ → ℕ → Store
unlink_from s l e =
    let s1 =
      if (s.le e).prev == 0
      then set_head s l (s.le e).next
      else set_next s (s.le e).prev (s.le e).next in
    let s2 =
      if (s1.le e).next == 0
      then set_tail s1 l (s1.le e).prev
      else set_prev s1 (s1.le e).next (s1.le e).prev in
    set_le s2 e (record (s2.le e) { prev = 0; next = 0; list = 0 })

unfoldable pub list_unlink : Store → ℕ → Store
list_unlink s e =
    if e == 0 then s else if (s.le e).list == 0 then s else unlink_from s (s.le e).list e

abbrev pub list_head : Store → ℕ → ℕ
list_head s l = if l == 0 then 0 else (s.ends l).head

abbrev pub list_tail : Store → ℕ → ℕ
list_tail s l = if l == 0 then 0 else (s.ends l).tail

-- The inline functions of include/re/re_list.h
abbrev pub list_ledata : Store → ℕ → ℕ
list_ledata s e = if e == 0 then 0 else (s.le e).value

abbrev pub list_contains : Store → ℕ → ℕ → Bool
list_contains s l e = if e == 0 then false else (s.le e).list == l

abbrev pub list_isempty : Store → ℕ → Bool
list_isempty s l = if l == 0 then true else (s.ends l).head == 0

abbrev pub list_move : Store → ℕ → ℕ → Store
list_move s e l = let out = list_unlink s e in list_append out l e (out.le e).value

-- The loops run on fuel; `none` is one that needs more.
unfoldable pub count_loop : ℕ → Store → ℕ → ℕ → Option ℕ
count_loop zero s e n = none
count_loop (suc fuel) s e n =
    let more = count_loop fuel s (s.le e).next ((n + 1) % 2 ^ 32) in if e == 0 then some n else more

unfoldable pub list_count : ℕ → Store → ℕ → Option ℕ
list_count fuel s l = if l == 0 then some 0 else count_loop fuel s (s.ends l).head 0

-- The handler of `list_apply` tells whether to stop at an element; it leaves the links.
unfoldable pub apply_loop : ℕ → (Le → ℕ) → Store → (ℕ → Bool) → ℕ → Option ℕ
apply_loop zero step s stop e = none
apply_loop (suc fuel) step s stop e =
    let more = apply_loop fuel step s stop (step (s.le e)) in
    if e == 0 then some 0 else if stop e then some e else more

unfoldable pub list_apply : ℕ → Store → ℕ → Bool → (ℕ → Bool) → Option ℕ
list_apply fuel s l fwd stop =
    if l == 0
    then some 0
    else if fwd
    then apply_loop fuel (λ c. c.next) s stop (s.ends l).head
    else apply_loop fuel (λ c. c.prev) s stop (s.ends l).tail

-- The loop of `list_clear`: each element is taken out without its neighbours.
unfoldable pub clear_loop : ℕ → Store → ℕ → Option Store
clear_loop zero s e = none
clear_loop (suc fuel) s e =
    let more =
      clear_loop fuel (set_le s e (record { prev = 0; next = 0; list = 0; value = 0 }))
        (s.le e).next in
    if e == 0 then some s else more

unfoldable pub list_clear : ℕ → Store → ℕ → Option Store
list_clear fuel s l =
    if l == 0
    then some s
    else elim (clear_loop fuel s (s.ends l).head) [ none ↦ none | some s' ↦ some (list_init s' l) ]

-- The loop of `list_flush`. The data pointers are handed to `mem_deref` one by one: the last result
-- says which. What their destructors do is taken to leave the lists.
unfoldable pub flush_loop : ℕ → Store → ℕ → Option (Store × List ℕ)
flush_loop zero s e = none
flush_loop (suc fuel) s e =
    let s1 = list_unlink s e in
    let s2 = set_le s1 e (record (s1.le e) { value = 0 }) in
    let more = flush_loop fuel s2 (s.le e).next in
    if e == 0
    then some (s, [])
    else elim more [ none ↦ none | some (s', freed) ↦ some (s', (s.le e).value ∷ freed) ]

unfoldable pub list_flush : ℕ → Store → ℕ → Option (Store × List ℕ)
list_flush fuel s l = if l == 0 then some (s, []) else elim (flush_loop fuel s (s.ends l).head) [
  | none ↦ none
  | some (s', freed) ↦ some (list_init s' l, freed)
]

-- The loop of `list_insert_sorted` from an element backwards; `sh e i` is the sort handler.
unfoldable pub sorted_loop : ℕ → Store → ℕ → (ℕ → ℕ → Bool) → ℕ → ℕ → Option Store
sorted_loop zero s l sh i e = none
sorted_loop (suc fuel) s l sh i e =
    let more = sorted_loop fuel s l sh i (s.le e).prev in
    if e == 0
    then some (list_prepend s l i (s.le i).value)
    else if sh e i
    then some (list_insert_after s l e i (s.le i).value)
    else more

unfoldable pub list_insert_sorted : ℕ → Store → ℕ → (ℕ → ℕ → Bool) → ℕ → ℕ → Option Store
list_insert_sorted fuel s l sh i v =
    if l == 0
    then some s
    else sorted_loop fuel (set_le s i (record (s.le i) { value = v })) l sh i (s.ends l).tail

-- The inner loop of `list_sort` from an element on; the flag tells whether something was swapped.
unfoldable pub sort_pass : ℕ → Store → ℕ → (ℕ → ℕ → Bool) → ℕ → Bool → Option (Store × Bool)
sort_pass zero s l sh e swapped = none
sort_pass (suc fuel) s l sh e swapped =
    let t = (s.le e).next in
    let out = list_unlink s e in
    let on = sort_pass fuel s l sh t swapped in
    let back = sort_pass fuel (list_insert_after out l t e (out.le e).value) l sh e true in
    if e == 0 || t == 0 then some (s, swapped) else if sh e t then on else back

-- `list_sort`, with fuel for the passes and for the rounds of each. NULL arguments are left out.
unfoldable pub list_sort : ℕ → ℕ → Store → ℕ → (ℕ → ℕ → Bool) → Option Store
list_sort zero rounds s l sh = none
list_sort (suc fuel) rounds s l sh = elim (sort_pass rounds s l sh (s.ends l).head false) [
  | none ↦ none
  | some (s', swapped) ↦ if swapped then list_sort fuel rounds s' l sh else some s'
]
