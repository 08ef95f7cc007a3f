-- ===== src/Paging/Runs.antt =====
-- Runs of the calls of kernel-core/src/paging.rs that map pages.
use open_kernel.Prelude.{ℕ, refl, List, [], ◌∷◌}
use open_kernel.Memory.Invariant.{IsSoundMemory}
use open_kernel.Elf.Image.{PageFlags, device}
use open_kernel.Paging.{
  PageTables, map_user_page_in, map_user_page, map_user_code_page, map_user_page_with_flags,
  map_device_page, initialize_virtual_memory, create_user_address_space, switch_address_space,
  device_window_base, active_address_space,
}
use open_kernel.Paging.Stacks.{allocate_kernel_stack, allocate_user_stack_in, allocate_user_stack}
use open_kernel.Paging.Mapped.{Extends, Extends-refl, Extends-trans}
use open_kernel.Paging.Calls.{
  map_page-Extends, map_user_page_in-Extends, map_user_page_with_flags-Extends,
  map_user_page-Extends, map_user_code_page-Extends, map_device_page-Extends,
  create_user_address_space-Extends, allocate_kernel_stack-Extends, allocate_user_stack_in-Extends,
}

pub data MapCall : Type 0 where
  call_initialize call_create : MapCall
  call_switch : ℕ → MapCall
  call_map_device : (address physical : ℕ) → MapCall
  call_map_page call_map_code : (address physical : ℕ) → MapCall
  call_map : (address physical : ℕ) → PageFlags → MapCall
  call_map_in : (space address physical : ℕ) → PageFlags → MapCall
  call_kernel_stack : ℕ → MapCall
  call_user_stack : ℕ → MapCall
  call_user_stack_in : (space slot : ℕ) → MapCall

unfoldable pub map_call : MapCall → PageTables → PageTables
map_call call_initialize s = (initialize_virtual_memory s).1
map_call call_create s = (create_user_address_space s).1
map_call (call_switch space) s = switch_address_space space s
map_call (call_map_device address physical) s = (map_device_page address physical s).1
map_call (call_map_page address physical) s = (map_user_page address physical s).1
map_call (call_map_code address physical) s = (map_user_code_page address physical s).1
map_call (call_map address physical flags) s = (map_user_page_with_flags address physical flags s).1
map_call (call_map_in space address physical flags) s =
    (map_user_page_in space address physical flags s).1
map_call (call_kernel_stack slot) s = (allocate_kernel_stack slot s).1
map_call (call_user_stack slot) s = (allocate_user_stack slot s).1
map_call (call_user_stack_in space slot) s = (allocate_user_stack_in space slot s).1

unfoldable pub map_calls : List MapCall → PageTables → PageTables
map_calls [] s = s
map_calls (call ∷ rest) s = map_calls rest (map_call call s)

map_call-Extends :
    (call : MapCall) (s : PageTables) → IsSoundMemory s.memory → Extends s (map_call call s)
unfolding map_call initialize_virtual_memory switch_address_space allocate_user_stack
map_call-Extends call_initialize s h = map_page-Extends device_window_base 0xB8000 device s h
map_call-Extends call_create s h = create_user_address_space-Extends s h
map_call-Extends (call_switch space) s h = record {
  in_use = λ frame used. used;
  kept = λ table index used p. refl;
  sound = h;
}
map_call-Extends (call_map_device address physical) s h =
    map_device_page-Extends address physical s h
map_call-Extends (call_map_page address physical) s h = map_user_page-Extends address physical s h
map_call-Extends (call_map_code address physical) s h =
    map_user_code_page-Extends address physical s h
map_call-Extends (call_map address physical flags) s h =
    map_user_page_with_flags-Extends address physical flags s h
map_call-Extends (call_map_in space address physical flags) s h =
    map_user_page_in-Extends space address physical flags s h
map_call-Extends (call_kernel_stack slot) s h = allocate_kernel_stack-Extends slot s h
map_call-Extends (call_user_stack slot) s h =
    allocate_user_stack_in-Extends (active_address_space s) slot s h
map_call-Extends (call_user_stack_in space slot) s h = allocate_user_stack_in-Extends space slot s h

-- No sequence of the calls that create address spaces, map pages and allocate stacks, whether they
-- succeed or fail, changes a present entry of a table whose frame was in use before, or puts a frame
-- that was in use back among the free ones; the accounts of the allocator stay right.
pub map_calls-Extends :
    (calls : List MapCall) (s : PageTables) → IsSoundMemory s.memory → Extends s (map_calls calls s)
unfolding map_calls
map_calls-Extends [] s h = Extends-refl s h
map_calls-Extends (call ∷ rest) s h =
    let f = map_call-Extends call s h in
    Extends-trans s (map_call call s) _ f (map_calls-Extends rest (map_call call s) f.sound)
