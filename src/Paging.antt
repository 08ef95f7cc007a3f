-- ===== src/Paging.antt =====
-- kernel-core/src/paging.rs: the page tables. A table is found by its physical address, which the
-- code turns into a pointer by adding `PHYSICAL_MEMORY_OFFSET`; the flush of the translation cache
-- has no effect in the model. The frames come from the allocator of Memory.
pub mod Stacks
pub mod Release
pub mod Mapped
pub mod Calls
pub mod Bytes
pub mod Loads
pub mod Runs
pub mod Spaces
mod Tests
use open_kernel.Prelude.{
  ℕ, ◌+◌, ◌*◌, ◌/◌, ◌%◌, ◌^◌, Bool, true, false, not, ◌&&◌, ◌||◌, if◌then◌else◌, ◌==◌, ltb, leb,
  Option, none, some, List, [], ◌∷◌, Result, ok, err, update, bit_and, bit_or,
}
use open_kernel.Memory.{Memory, allocate, page_size}
use open_kernel.Elf.Image.{
  PagingError, frame_allocation_failed, huge_page_conflict, already_mapped, invalid_user_address,
  PageFlags, kernel_read_write, device, user_read_only, user_read_write, user_read_execute,
  user_read_write_execute, future_user_space_base,
}

abbrev pub entry_address_mask : ℕ
entry_address_mask = 0x000FFFFFFFFFF000

abbrev pub present : ℕ
present = 1

abbrev pub writable : ℕ
writable = 2

abbrev pub user : ℕ
user = 4

abbrev pub huge_page : ℕ
huge_page = 128

abbrev pub no_execute : ℕ
no_execute = 2 ^ 63

abbrev pub device_window_base : ℕ
device_window_base = 0xFFFFFF0000000000

abbrev pub user_space_limit : ℕ
user_space_limit = 0x800000000000

unfoldable pub bits : PageFlags → ℕ
bits kernel_read_write = bit_or (bit_or present writable) no_execute
bits device = bit_or (bit_or present writable) no_execute
bits user_read_only = bit_or (bit_or present user) no_execute
bits user_read_write = bit_or (bit_or (bit_or present writable) user) no_execute
bits user_read_execute = bit_or present user
bits user_read_write_execute = bit_or (bit_or present writable) user

-- The allocator, the tables by physical address and index, and the register of the active space.
pub record PageTables : Type 0 where
  pub memory : Memory
  pub entries : ℕ → ℕ → ℕ
  pub cr3 : ℕ

abbrev pub is_present : ℕ → Bool
is_present entry = not (bit_and entry present == 0)

abbrev pub set_entry : ℕ → ℕ → ℕ → PageTables → PageTables
set_entry table index value s = record (s) {
  entries = update s.entries table (update (s.entries table) index value);
}

unfoldable pub zero_table : ℕ → PageTables → PageTables
zero_table frame s = record (s) { entries = update s.entries frame (λ _. 0) }

unfoldable pub allocate_physical_frame : PageTables → Option ℕ × PageTables
allocate_physical_frame s = let r = allocate s.memory in (r.0, record (s) { memory = r.1 })

abbrev pub active_address_space : PageTables → ℕ
active_address_space s = bit_and s.cr3 entry_address_mask

unfoldable pub switch_address_space : ℕ → PageTables → PageTables
switch_address_space space s = record (s) { cr3 = space }

-- `indices[..3]` and `indices[3]`
abbrev pub upper_indices : ℕ → List ℕ
upper_indices address =
    address / 2 ^ 39 % 512 ∷ address / 2 ^ 30 % 512 ∷ address / 2 ^ 21 % 512 ∷ []

abbrev pub leaf_index : ℕ → ℕ
leaf_index address = address / 2 ^ 12 % 512

abbrev pub table_entry : ℕ → PageFlags → ℕ
table_entry frame flags =
    bit_or (bit_or (bit_or frame present) writable)
      (if bit_and (bits flags) user == 0 then 0 else user)

-- `if *entry & PRESENT == 0`: the frame of the table is taken, and cleared after the entry is set.
unfoldable pub make_table : PageFlags → ℕ → ℕ → PageTables → Result PagingError ℕ × PageTables
make_table flags index table s =
    let (r', s') = allocate_physical_frame s in
    elim r' [
      | none ↦ (err frame_allocation_failed, s')
      | some frame ↦
          let made = zero_table frame (set_entry table index (table_entry frame flags) s') in
          (ok (bit_and (made.entries table index) entry_address_mask), made)
    ]

-- The body of the loop of `map_page_in`: the table under an entry.
unfoldable pub enter_table : PageFlags → ℕ → ℕ → PageTables → Result PagingError ℕ × PageTables
enter_table flags index table s =
    if not (is_present (s.entries table index))
    then make_table flags index table s
    else if not (bit_and (s.entries table index) huge_page == 0)
    then (err huge_page_conflict, s)
    else (ok (bit_and (s.entries table index) entry_address_mask), s)

unfoldable pub descend : PageFlags → List ℕ → ℕ → PageTables → Result PagingError ℕ × PageTables
descend flags [] table s = (ok table, s)
descend flags (index ∷ rest) table s =
    let (r', s') = enter_table flags index table s in
    elim r' [ err e ↦ (err e, s') | ok next ↦ descend flags rest next s' ]

unfoldable pub map_leaf :
    ℕ → ℕ → PageFlags → ℕ → PageTables → Result PagingError (Unit {0}) × PageTables
map_leaf index physical flags table s =
    if is_present (s.entries table index) then (err already_mapped, s) else (
      ok tt,
      set_entry table index (bit_or (bit_and physical entry_address_mask) (bits flags)) s,
    )

unfoldable pub map_page_in :
    ℕ → ℕ → ℕ → PageFlags → PageTables → Result PagingError (Unit {0}) × PageTables
map_page_in space address physical flags s =
    let (r', s') = descend flags (upper_indices address) (bit_and space entry_address_mask) s in
    elim r' [
      | err e ↦ (err e, s')
      | ok table ↦ map_leaf (leaf_index address) physical flags table s'
    ]

-- The same body, from the active space.
unfoldable pub map_page :
    ℕ → ℕ → PageFlags → PageTables → Result PagingError (Unit {0}) × PageTables
map_page address physical flags s = map_page_in s.cr3 address physical flags s

abbrev pub is_outside_user_space : ℕ → Bool
is_outside_user_space address = ltb address future_user_space_base || leb user_space_limit address

unfoldable pub map_user_page_in :
    ℕ → ℕ → ℕ → PageFlags → PageTables → Result PagingError (Unit {0}) × PageTables
map_user_page_in space address physical flags s =
    if is_outside_user_space address
    then (err invalid_user_address, s)
    else map_page_in space address physical flags s

unfoldable pub map_user_page_with_flags :
    ℕ → ℕ → PageFlags → PageTables → Result PagingError (Unit {0}) × PageTables
map_user_page_with_flags address physical flags s =
    if is_outside_user_space address
    then (err invalid_user_address, s)
    else map_page address physical flags s

unfoldable pub map_user_page : ℕ → ℕ → PageTables → Result PagingError (Unit {0}) × PageTables
map_user_page address physical s =
    if is_outside_user_space address
    then (err invalid_user_address, s)
    else map_page address physical user_read_write s

unfoldable pub map_user_code_page : ℕ → ℕ → PageTables → Result PagingError (Unit {0}) × PageTables
map_user_code_page address physical s =
    if is_outside_user_space address
    then (err invalid_user_address, s)
    else map_page address physical user_read_execute s

unfoldable pub map_device_page : ℕ → ℕ → PageTables → Result PagingError (Unit {0}) × PageTables
map_device_page address physical s =
    if not (address % page_size == 0) || not (physical % page_size == 0)
    then (err invalid_user_address, s)
    else map_page address physical device s

unfoldable pub initialize_virtual_memory : PageTables → Result PagingError (Unit {0}) × PageTables
initialize_virtual_memory s = map_page device_window_base 0xB8000 device s

-- `for index in 256..512 { destination.0[index] = source.0[index]; }`
abbrev pub share_kernel_half : ℕ → ℕ → PageTables → PageTables
share_kernel_half source destination s = record (s) {
  entries = update s.entries destination (λ index.
      if leb 256 index && ltb index 512
      then s.entries source index
      else s.entries destination index);
}

unfoldable pub create_user_address_space : PageTables → Result PagingError ℕ × PageTables
create_user_address_space s =
    let (r', s') = allocate_physical_frame s in
    elim r' [
      | none ↦ (err frame_allocation_failed, s')
      | some frame ↦
          (ok frame, share_kernel_half (active_address_space s') frame (zero_table frame s'))
    ]
