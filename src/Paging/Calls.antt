-- ===== src/Paging/Calls.antt =====
-- Each call of kernel-core/src/paging.rs that maps pages leaves what was mapped as it is.
use open_kernel.Prelude.{
  Result-cases, ℕ, zero, suc, ◌+◌, ◌-◌, ◌%◌, inl, inr, not, ◌||◌, ◌==◌, Option-cases, Bool-cases,
}
use open_kernel.Memory.{page_size}
use open_kernel.Memory.Invariant.{IsSoundMemory}
use open_kernel.Elf.Image.{PageFlags, kernel_read_write, user_read_write, user_read_execute, device}
use open_kernel.Paging.{
  PageTables, allocate_physical_frame, map_page, map_user_page_in, map_user_page,
  map_user_code_page, map_user_page_with_flags, map_device_page, create_user_address_space,
  zero_table, is_outside_user_space,
}
use open_kernel.Paging.Stacks.{
  map_kernel_stack, map_user_stack, allocate_kernel_stack, allocate_user_stack_in, stack_pages,
  kernel_stack_base, user_stack_top,
}
use open_kernel.Paging.Mapped.{
  Extends, Extends-refl, Extends-trans, allocate-Extends, allocate-fresh, zero_table-Extends,
  refill-Extends, map_page_in-Extends,
}

pub map_page-Extends :
    (address physical : ℕ) (flags : PageFlags) (s : PageTables)
    → IsSoundMemory s.memory
    → Extends s (map_page address physical flags s).1
unfolding map_page
map_page-Extends address physical flags s h = map_page_in-Extends s.cr3 address physical flags s h

pub map_user_page_in-Extends :
    (space address physical : ℕ) (flags : PageFlags) (s : PageTables)
    → IsSoundMemory s.memory
    → Extends s (map_user_page_in space address physical flags s).1
unfolding map_user_page_in
map_user_page_in-Extends space address physical flags s h =
    elim (Bool-cases (is_outside_user_space address)) [
      | inl out ↦ rw (out, map_user_page_in) (Extends-refl s h)
      | inr inside ↦
          rw (inside, map_user_page_in) (map_page_in-Extends space address physical flags s h)
    ]

pub map_user_page_with_flags-Extends :
    (address physical : ℕ) (flags : PageFlags) (s : PageTables)
    → IsSoundMemory s.memory
    → Extends s (map_user_page_with_flags address physical flags s).1
unfolding map_user_page_with_flags
map_user_page_with_flags-Extends address physical flags s h =
    elim (Bool-cases (is_outside_user_space address)) [
      | inl out ↦ rw (out, map_user_page_with_flags) (Extends-refl s h)
      | inr inside ↦
          rw (inside, map_user_page_with_flags) (map_page-Extends address physical flags s h)
    ]

pub map_user_page-Extends :
    (address physical : ℕ) (s : PageTables)
    → IsSoundMemory s.memory
    → Extends s (map_user_page address physical s).1
unfolding map_user_page
map_user_page-Extends address physical s h = elim (Bool-cases (is_outside_user_space address)) [
  | inl out ↦ rw (out, map_user_page) (Extends-refl s h)
  | inr inside ↦ rw (inside, map_user_page) (map_page-Extends address physical user_read_write s h)
]

pub map_user_code_page-Extends :
    (address physical : ℕ) (s : PageTables)
    → IsSoundMemory s.memory
    → Extends s (map_user_code_page address physical s).1
unfolding map_user_code_page
map_user_code_page-Extends address physical s h =
    elim (Bool-cases (is_outside_user_space address)) [
      | inl out ↦ rw (out, map_user_code_page) (Extends-refl s h)
      | inr inside ↦
          rw (inside, map_user_code_page) (map_page-Extends address physical user_read_execute s h)
    ]

pub map_device_page-Extends :
    (address physical : ℕ) (s : PageTables)
    → IsSoundMemory s.memory
    → Extends s (map_device_page address physical s).1
unfolding map_device_page
map_device_page-Extends address physical s h =
    elim (Bool-cases (not (address % page_size == 0) || not (physical % page_size == 0))) [
      | inl bad ↦ rw (bad, map_device_page) (Extends-refl s h)
      | inr fine ↦ rw (fine, map_device_page) (map_page-Extends address physical device s h)
    ]

pub create_user_address_space-Extends :
    (s : PageTables) → IsSoundMemory s.memory → Extends s (create_user_address_space s).1
unfolding create_user_address_space
create_user_address_space-Extends s h =
    let f = allocate-Extends s h in
    elim (Option-cases (allocate_physical_frame s).0) [
      | inl e ↦ rw (e, create_user_address_space) f
      | inr (frame, e) ↦
          let fresh = allocate-fresh s frame h e in
          rw (e, create_user_address_space)
            (refill-Extends s _ frame _ fresh (zero_table-Extends s _ frame fresh f))
    ]

pub map_kernel_stack-Extends :
    (n address : ℕ) (s : PageTables)
    → IsSoundMemory s.memory
    → Extends s (map_kernel_stack n address s).1
unfolding map_kernel_stack
map_kernel_stack-Extends zero address s h = Extends-refl s h
map_kernel_stack-Extends (suc n) address s h =
    let f = allocate-Extends s h in
    elim (Option-cases (allocate_physical_frame s).0) [
      | inl e ↦ rw (e, map_kernel_stack) f
      | inr (frame, e) ↦
          let s' = (allocate_physical_frame s).1 in
          let g =
            Extends-trans s s' _ f (map_page-Extends address frame kernel_read_write s' f.sound) in
          elim (Result-cases (map_page address frame kernel_read_write s').0) [
            | inr (_, e') ↦ rw (e, e', map_kernel_stack) g
            | inl (_, e') ↦
                rw (e, e', map_kernel_stack)
                  (Extends-trans s _ _ g
                    (map_kernel_stack-Extends n (address + page_size) _ g.sound))
          ]
    ]

pub map_user_stack-Extends :
    (n space top : ℕ) (s : PageTables)
    → IsSoundMemory s.memory
    → Extends s (map_user_stack n space top s).1
unfolding map_user_stack
map_user_stack-Extends zero space top s h = Extends-refl s h
map_user_stack-Extends (suc n) space top s h =
    let f = allocate-Extends s h in
    elim (Option-cases (allocate_physical_frame s).0) [
      | inl e ↦ rw (e, map_user_stack) f
      | inr (frame, e) ↦
          let z = zero_table frame (allocate_physical_frame s).1 in
          let k = zero_table-Extends s _ frame (allocate-fresh s frame h e) f in
          let page =
            map_user_page_in-Extends space (top - page_size) frame user_read_write z k.sound in
          let g = Extends-trans s z _ k page in
          elim (Result-cases (map_user_page_in space (top - page_size) frame user_read_write z).0) [
            | inr (_, e') ↦ rw (e, e', map_user_stack) g
            | inl (_, e') ↦
                rw (e, e', map_user_stack)
                  (Extends-trans s _ _ g
                    (map_user_stack-Extends n space (top - page_size) _ g.sound))
          ]
    ]

pub allocate_kernel_stack-Extends :
    (slot : ℕ) (s : PageTables)
    → IsSoundMemory s.memory
    → Extends s (allocate_kernel_stack slot s).1
unfolding allocate_kernel_stack
allocate_kernel_stack-Extends slot s h =
    let f = map_kernel_stack-Extends stack_pages (kernel_stack_base slot) s h in
    elim (Result-cases (map_kernel_stack stack_pages (kernel_stack_base slot) s).0) [
      | inr (_, e) ↦ rw (e, allocate_kernel_stack) f
      | inl (_, e) ↦ rw (e, allocate_kernel_stack) f
    ]

pub allocate_user_stack_in-Extends :
    (space slot : ℕ) (s : PageTables)
    → IsSoundMemory s.memory
    → Extends s (allocate_user_stack_in space slot s).1
unfolding allocate_user_stack_in
allocate_user_stack_in-Extends space slot s h =
    let f = map_user_stack-Extends stack_pages space (user_stack_top slot) s h in
    elim (Result-cases (map_user_stack stack_pages space (user_stack_top slot) s).0) [
      | inr (_, e) ↦ rw (e, allocate_user_stack_in) f
      | inl (_, e) ↦ rw (e, allocate_user_stack_in) f
    ]
