-- ===== src/User/Heap.antt =====
-- `brk` of kernel-core/src/user.rs: the heap of a process, page by page.
use open_kernel.Prelude.{
  ℕ, zero, suc, ◌+◌, ◌-◌, ◌*◌, ◌/◌, Bool, true, false, ◌||◌, if◌then◌else◌, ◌==◌, ltb, leb, Option,
  none, some, ok, err,
}
use open_kernel.Memory.{page_size}
use open_kernel.Elf.Image.{user_read_write}
use open_kernel.Paging.{PageTables, allocate_physical_frame, zero_table, map_user_page_with_flags}
use open_kernel.User.{u64_max, user_heap_base, user_heap_limit, Users, state_of, set_state_of}

-- The body of the loop: a cleared frame is mapped at `page`.
unfoldable pub map_heap_page : ℕ → PageTables → Bool × PageTables
map_heap_page page s =
    let (r, s') = allocate_physical_frame s in
    elim r [
      | none ↦ (false, s')
      | some frame ↦
          let (r', s'') =
            map_user_page_with_flags page frame user_read_write (zero_table frame s') in
          elim r' [ err _ ↦ (false, s'') | ok _ ↦ (true, s'') ]
    ]

-- `while page < required_end`, in at most as many rounds as the first argument says; the flag says
-- whether the loop came to its end.
unfoldable pub grow_heap : ℕ → ℕ → ℕ → PageTables → Bool × PageTables
grow_heap zero page required_end s = (leb required_end page, s)
grow_heap (suc fuel) page required_end s =
    let (mapped, s') = map_heap_page page s in
    let rest = grow_heap fuel (page + page_size) required_end s' in
    if leb required_end page then (true, s) else if mapped then rest else (false, s')

-- Enough rounds: one for each page.
abbrev pub heap_rounds : ℕ → ℕ → ℕ
heap_rounds page required_end = (required_end - page + (page_size - 1)) / page_size

-- `requested_break.checked_add(PAGE_SIZE - 1)`, rounded down; the sum is under 2^64 for a break
-- under the limit.
abbrev pub heap_end : ℕ → ℕ
heap_end requested = (requested + (page_size - 1)) / page_size * page_size

unfoldable pub brk : Option ℕ → ℕ → Users → ℕ × Users
brk owner requested u =
    let p = state_of owner u in
    let grown =
      grow_heap (heap_rounds p.heap_mapped_end (heap_end requested)) p.heap_mapped_end
        (heap_end requested) u.tables in
    let u' = record (u) { tables = grown.1 } in
    if requested == 0
    then (p.heap_break, u)
    else if ltb requested user_heap_base || ltb user_heap_limit requested
    then (u64_max, u)
    else if leb requested p.heap_break
    then (requested, set_state_of owner (record (p) { heap_break = requested }) u)
    else if grown.0
    then (
      requested,
      set_state_of owner
          (record (p) { heap_break = requested; heap_mapped_end = heap_end requested }) u',
    )
    else (u64_max, u')
