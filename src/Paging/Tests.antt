-- ===== src/Paging/Tests.antt =====
-- Runs of kernel-core/src/paging.rs on a machine with 16 pages above the first MiB.
use open_kernel.Elf.{load_user_elf_into}
use open_kernel.Paging.Loads.{page_loader, load_user_elf_into-Extends}
use open_kernel.Prelude.{ℕ, zero, suc, ◌++◌, ◌≡◌, refl, true, List, [], ◌∷◌, ok, first_from}
use open_kernel.Memory.{
  MemoryRegion, usable, reserved, initialize, allocate, mark_region, mark_usable, mark_reserved,
  mark_range, mark_reserved_range, set_range,
}
use open_kernel.Memory.Bytes.{bit, set, has_bit, with_bit}
use open_kernel.Memory.Ranges.{initialize-IsSoundMemory}
use open_kernel.Elf.Image.{user_read_write, user_read_execute}
use open_kernel.Paging.{
  PageTables, bits, zero_table, allocate_physical_frame, make_table, enter_table, descend, map_leaf,
  map_page_in, create_user_address_space, map_user_page_in,
}
use open_kernel.Paging.Release.{is_user_mapped, walk}
use open_kernel.Paging.Mapped.{Extends}
use open_kernel.Paging.Spaces.{Created, create_user_address_space-Created}
use open_kernel.Paging.Runs.{
  map_calls, map_calls-Extends, call_create, call_map_in, call_kernel_stack, call_switch,
}

abbrev machine : List MemoryRegion
machine = record { base = 0x100000; length = 0x10000; kind = usable } ∷ []

-- The active table is empty, and in the first MiB.
abbrev early : PageTables
early = record { memory = initialize machine []; entries = λ _. λ _. 0; cr3 = 0x1000 }

abbrev zeros : ℕ → List ℕ
zeros zero = []
zeros (suc n) = 0 ∷ zeros n

-- A word of eight bytes with the given first and fourth byte.
abbrev low_word : ℕ → ℕ → List ℕ
low_word first fourth = first ∷ 0 ∷ 0 ∷ fourth ∷ zeros 4

map_calls_example : Extends early (
    map_calls
      (call_create
        ∷ call_map_in 0x100000 0x40000000 0x5000 user_read_execute
        ∷ call_kernel_stack 3
        ∷ call_switch 0x100000
        ∷ [])
      early)
map_calls_example =
    map_calls-Extends
      (call_create
        ∷ call_map_in 0x100000 0x40000000 0x5000 user_read_execute
        ∷ call_kernel_stack 3
        ∷ call_switch 0x100000
        ∷ [])
      early (initialize-IsSoundMemory machine [])

abbrev after_map : PageTables
after_map = (map_user_page_in 0x1000 0x40000000 0x5000 user_read_write early).1

mapped_after_map : is_user_mapped 0x40000000 after_map ≡ true
unfolding map_user_page_in map_page_in descend enter_table make_table map_leaf
    allocate_physical_frame zero_table bits is_user_mapped walk allocate initialize mark_region
    mark_usable mark_reserved mark_range mark_reserved_range set_range bit set has_bit with_bit
    first_from
mapped_after_map = refl

active_in_use : reserved (initialize machine []) 1 ≡ true
unfolding initialize mark_region mark_usable mark_reserved mark_range mark_reserved_range set_range
    bit set has_bit with_bit
active_in_use = refl

create_example : Created early (create_user_address_space early)
create_example =
    create_user_address_space-Created early (initialize-IsSoundMemory machine []) active_in_use

create_succeeds : (create_user_address_space early).0 ≡ ok 0x100000
unfolding create_user_address_space allocate_physical_frame allocate initialize mark_region
    mark_usable mark_reserved mark_range mark_reserved_range set_range bit set has_bit with_bit
    first_from
create_succeeds = refl

-- An executable of one segment, which is the file itself at 0x40000000.
abbrev program : List ℕ
program =
    (0x7F ∷ 0x45 ∷ 0x4C ∷ 0x46 ∷ 2 ∷ 1 ∷ 1 ∷ [])
    ++ (zeros 9
        ++ ((2 ∷ 0 ∷ 0x3E ∷ 0 ∷ 1 ∷ 0 ∷ 0 ∷ 0 ∷ [])
            ++ (low_word 0 0x40
                ++ (low_word 64 0
                    ++ (zeros 12
                        ++ ((64 ∷ 0 ∷ 56 ∷ 0 ∷ 1 ∷ 0 ∷ [])
                            ++ (zeros 6
                                ++ ((1 ∷ 0 ∷ 0 ∷ 0 ∷ 5 ∷ 0 ∷ 0 ∷ 0 ∷ [])
                                    ++ (zeros 8
                                        ++ (low_word 0 0x40
                                            ++ (zeros 8
                                                ++ (low_word 120 0
                                                    ++ (low_word 120 0
                                                        ++ (0 ∷ 0x10 ∷ zeros 6))))))))))))))

load_example : Extends early (load_user_elf_into page_loader program 0x1000 0 early).1
load_example =
    load_user_elf_into-Extends program 0x1000 0 early (initialize-IsSoundMemory machine [])
