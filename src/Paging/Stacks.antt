-- ===== src/Paging/Stacks.antt =====
-- The stacks of kernel-core/src/paging.rs. Slots are thread numbers, under 64 in the callers, for
-- which no address leaves the range of `u64`.
use open_kernel.Prelude.{ℕ, zero, suc, ◌+◌, ◌-◌, ◌*◌, none, some, Result, ok, err}
use open_kernel.Memory.{page_size}
use open_kernel.Elf.Image.{PagingError, frame_allocation_failed, kernel_read_write, user_read_write}
use open_kernel.Paging.{
  PageTables, allocate_physical_frame, map_page, map_user_page_in, zero_table, user_space_limit,
  active_address_space,
}

abbrev pub kernel_stack_guard_page : ℕ
kernel_stack_guard_page = 0xFFFFFF1000000000

abbrev pub stack_pages : ℕ
stack_pages = 4

abbrev pub kernel_stack_base : ℕ → ℕ
kernel_stack_base slot = kernel_stack_guard_page + slot * (stack_pages + 1) * page_size + page_size

abbrev pub user_stack_top : ℕ → ℕ
user_stack_top slot = user_space_limit - page_size - slot * (stack_pages + 1) * page_size

-- The loop of `allocate_kernel_stack` over `n` pages from `address` on.
unfoldable pub map_kernel_stack : ℕ → ℕ → PageTables → Result PagingError (Unit {0}) × PageTables
map_kernel_stack zero address s = (ok tt, s)
map_kernel_stack (suc n) address s =
    let (r', s') = allocate_physical_frame s in
    elim r' [
      | none ↦ (err frame_allocation_failed, s')
      | some frame ↦
          let (r'', s'') = map_page address frame kernel_read_write s' in
          elim r'' [ err e ↦ (err e, s'') | ok _ ↦ map_kernel_stack n (address + page_size) s'' ]
    ]

unfoldable pub allocate_kernel_stack : ℕ → PageTables → Result PagingError ℕ × PageTables
allocate_kernel_stack slot s =
    let (r', s') = map_kernel_stack stack_pages (kernel_stack_base slot) s in
    elim r' [
      | err e ↦ (err e, s')
      | ok _ ↦ (ok (kernel_stack_base slot + stack_pages * page_size), s')
    ]

-- The loop of `allocate_user_stack_in` over `n` pages under `top`, downwards.
unfoldable pub map_user_stack : ℕ → ℕ → ℕ → PageTables → Result PagingError (Unit {0}) × PageTables
map_user_stack zero space top s = (ok tt, s)
map_user_stack (suc n) space top s =
    let (r', s') = allocate_physical_frame s in
    elim r' [
      | none ↦ (err frame_allocation_failed, s')
      | some frame ↦
          let (r'', s'') =
            map_user_page_in space (top - page_size) frame user_read_write (zero_table frame s') in
          elim r'' [ err e ↦ (err e, s'') | ok _ ↦ map_user_stack n space (top - page_size) s'' ]
    ]

unfoldable pub allocate_user_stack_in : ℕ → ℕ → PageTables → Result PagingError ℕ × PageTables
allocate_user_stack_in space slot s =
    let (r', s') = map_user_stack stack_pages space (user_stack_top slot) s in
    elim r' [ err e ↦ (err e, s') | ok _ ↦ (ok (user_stack_top slot), s') ]

unfoldable pub allocate_user_stack : ℕ → PageTables → Result PagingError ℕ × PageTables
allocate_user_stack slot s = allocate_user_stack_in (active_address_space s) slot s
