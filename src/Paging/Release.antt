-- ===== src/Paging/Release.antt =====
-- The walks of kernel-core/src/paging.rs, and the calls that give frames back.
use open_kernel.Prelude.{
  ℕ, zero, suc, ◌+◌, ◌-◌, Bool, false, not, ◌&&◌, ◌||◌, if◌then◌else◌, ◌==◌, Option, none, some,
  List, [], ◌∷◌, bit_and, bit_or,
}
use open_kernel.Memory.{free, page_size}
use open_kernel.Paging.{
  PageTables, is_present, set_entry, present, user, huge_page, no_execute, entry_address_mask,
  upper_indices, leaf_index, active_address_space, is_outside_user_space,
}
use open_kernel.Paging.Stacks.{kernel_stack_base, user_stack_top, stack_pages}

unfoldable pub free_physical_frame : ℕ → PageTables → PageTables
free_physical_frame frame s = record (s) { memory = free frame s.memory }

-- The tables that a walk passes while its entries pass the test.
unfoldable pub walk : (ℕ → Bool) → List ℕ → ℕ → PageTables → Option ℕ
walk passes [] table s = some table
walk passes (index ∷ rest) table s =
    let entry = s.entries table index in
    let found = walk passes rest (bit_and entry entry_address_mask) s in
    if passes entry then found else none

abbrev pub is_user_table : ℕ → Bool
is_user_table entry = bit_and entry (bit_or (bit_or present user) huge_page) == bit_or present user

abbrev pub is_user_entry : ℕ → Bool
is_user_entry entry = bit_and entry (bit_or present user) == bit_or present user

abbrev pub user_leaf : ℕ → PageTables → Option ℕ
user_leaf address s = elim (walk is_user_table (upper_indices address) (active_address_space s) s) [
  | none ↦ none
  | some table ↦ some (s.entries table (leaf_index address))
]

unfoldable pub is_user_mapped : ℕ → PageTables → Bool
is_user_mapped address s =
    if is_outside_user_space address
    then false
    else elim (user_leaf address s) [ none ↦ false | some leaf ↦ is_user_entry leaf ]

unfoldable pub is_user_executable : ℕ → PageTables → Bool
is_user_executable address s =
    if is_outside_user_space address then false else elim (user_leaf address s) [
      | none ↦ false
      | some leaf ↦ is_user_entry leaf && bit_and leaf no_execute == 0
    ]

abbrev pub is_table : ℕ → Bool
is_table entry = not (not (is_present entry) || not (bit_and entry huge_page == 0))

unfoldable pub unmap_page : ℕ → PageTables → Option ℕ × PageTables
unmap_page address s = elim (walk is_table (upper_indices address) (active_address_space s) s) [
  | none ↦ (none, s)
  | some table ↦ if not (is_present (s.entries table (leaf_index address))) then (none, s) else (
    some (bit_and (s.entries table (leaf_index address)) entry_address_mask),
    set_entry table (leaf_index address) 0 s,
  )
]

-- The body of both loops over the pages of a stack.
unfoldable pub release_page : ℕ → PageTables → PageTables
release_page address s =
    let (r', s') = unmap_page address s in
    elim r' [ none ↦ s' | some frame ↦ free_physical_frame frame s' ]

unfoldable pub release_upwards : ℕ → ℕ → PageTables → PageTables
release_upwards zero address s = s
release_upwards (suc n) address s = release_upwards n (address + page_size) (release_page address s)

unfoldable pub release_downwards : ℕ → ℕ → PageTables → PageTables
release_downwards zero top s = s
release_downwards (suc n) top s =
    release_downwards n (top - page_size) (release_page (top - page_size) s)

unfoldable pub release_kernel_stack : ℕ → PageTables → PageTables
release_kernel_stack slot s = release_upwards stack_pages (kernel_stack_base slot) s

unfoldable pub release_user_stack : ℕ → PageTables → PageTables
release_user_stack slot s = release_downwards stack_pages (user_stack_top slot) s

-- The loop over `n` entries of a table from `index` on, of which each present one is handed to
-- `release` and then cleared.
unfoldable pub release_entries : (ℕ → PageTables → PageTables) → ℕ → ℕ → ℕ → PageTables → PageTables
release_entries release table index zero s = s
release_entries release table index (suc n) s = release_entries release table (index + 1) n (
    if not (is_present (s.entries table index))
    then s
    else set_entry table index 0 (release (s.entries table index) s))

-- The first argument is the level less one: 2, 1 or 0.
unfoldable pub release_user_table : ℕ → ℕ → PageTables → PageTables
release_user_table zero frame s = free_physical_frame frame (
    release_entries (λ entry. free_physical_frame (bit_and entry entry_address_mask)) frame 0 512 s)
release_user_table (suc below) frame s = free_physical_frame frame (
    release_entries
      (λ entry. λ s'.
        let child = bit_and entry entry_address_mask in
        let deeper = release_user_table below child s' in
        if bit_and entry huge_page == 0 then deeper else free_physical_frame child s')
      frame 0 512 s)

unfoldable pub destroy_user_address_space : ℕ → PageTables → PageTables
destroy_user_address_space space s =
    let root = bit_and space entry_address_mask in
    free_physical_frame root (
      release_entries (λ entry. release_user_table 2 (bit_and entry entry_address_mask)) root 0 256
        s)
