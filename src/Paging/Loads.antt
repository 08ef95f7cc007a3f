-- ===== src/Paging/Loads.antt =====
-- The calls of kernel-core/src/paging.rs that the loader of kernel-core/src/elf.rs makes: they fill
-- its interface, and loading a program leaves what was mapped as it is.
use open_kernel.Prelude.{
  ℕ, ◌/◌, ◌%◌, ◌≡◌, inl, inr, sym, ◌∙◌, false, true≢false, Bool-cases, Option, none, some, List,
  arith,
}
use open_kernel.Memory.{Memory, page_size, reserved, allocate}
use open_kernel.Memory.Invariant.{IsSoundMemory, AllocateResult, allocate_lem}
use open_kernel.Elf.{Loader, load_user_elf_into}
use open_kernel.Elf.Image.{PageFlags}
use open_kernel.Elf.Safety.{Respects}
use open_kernel.Elf.Loads.{load_user_elf_into-kept}
use open_kernel.Paging.{PageTables, allocate_physical_frame, zero_table, map_user_page_in}
use open_kernel.Paging.Stacks.{allocate_user_stack_in}
use open_kernel.Paging.Bytes.{write_physical_frame, write_physical_frame-Extends}
use open_kernel.Paging.Mapped.{
  Extends, Extends-refl, Extends-trans, allocate-Extends, allocate-fresh, zero_table-Extends,
}
use open_kernel.Paging.Calls.{map_user_page_in-Extends, allocate_user_stack_in-Extends}

-- The calls that elf.rs imports.
abbrev pub page_loader : Loader PageTables
page_loader = record {
  allocate_physical_frame = allocate_physical_frame;
  zero_physical_frame = zero_table;
  map_user_page_in = map_user_page_in;
  write_physical_frame = write_physical_frame;
  allocate_user_stack_in = allocate_user_stack_in;
}

allocated_aligned :
    (m : Memory) (r : Option ℕ × Memory) (frame : ℕ)
    → AllocateResult m r
    → r.0 ≡ some frame
    → frame % page_size ≡ 0
allocated_aligned m (none, m') frame h e = cc
allocated_aligned m (some address, m') frame h e =
    let same : address ≡ frame = ground arith in omega (arith, h.at, same)

allocate-aligned :
    (s : PageTables) (frame : ℕ)
    → IsSoundMemory s.memory
    → (allocate_physical_frame s).0 ≡ some frame
    → frame % page_size ≡ 0
unfolding allocate_physical_frame
allocate-aligned s frame h e =
    allocated_aligned s.memory (allocate s.memory) frame (allocate_lem s.memory h) e

-- A frame that is not in use later was not in use before.
was_free :
    (s s' : PageTables) (frame : ℕ)
    → Extends s s'
    → reserved s'.memory frame ≡ false
    → reserved s.memory frame ≡ false
was_free s s' frame f free = elim (Bool-cases (reserved s.memory frame)) [
  | inr e ↦ e
  | inl used ↦ absurd (true≢false (sym (f.in_use frame used) ∙ free))
]

mapped-Extends :
    (s s' : PageTables) (space page frame : ℕ) (flags : PageFlags)
    → Extends s s'
    → (allocate_physical_frame s').0 ≡ some frame
    → Extends s
        (map_user_page_in space page frame flags
          (zero_table frame (allocate_physical_frame s').1)).1
mapped-Extends s s' space page frame flags f e =
    let fresh = was_free s s' (frame / page_size) f (allocate-fresh s' frame f.sound e) in
    let z =
      zero_table-Extends s _ frame fresh (Extends-trans s s' _ f (allocate-Extends s' f.sound)) in
    Extends-trans s _ _ z (map_user_page_in-Extends space page frame flags _ z.sound)

page_loader-Respects : (s : PageTables) → Respects page_loader (λ _. Unit) (λ s'. Extends s s')
page_loader-Respects s = record {
  on_allocate = λ s' f. Extends-trans s s' _ f (allocate-Extends s' f.sound);
  on_map = λ space page frame flags s' _ e f. mapped-Extends s s' space page frame flags f e;
  on_write = λ space page frame offset flags bytes s' _ e inside f.
      write_physical_frame-Extends s _ frame offset bytes (allocate-aligned s' frame f.sound e)
        inside (was_free s s' (frame / page_size) f (allocate-fresh s' frame f.sound e))
        (mapped-Extends s s' space page frame flags f e);
}

-- From a state whose accounts are right, loading a program into an address space, whatever its image
-- and whether it succeeds or fails, changes no present entry of a table whose frame was in use before,
-- and puts no frame that was in use back among the free ones; the accounts stay right.
pub load_user_elf_into-Extends :
    (image : List ℕ) (space slot : ℕ) (s : PageTables)
    → IsSoundMemory s.memory
    → Extends s (load_user_elf_into page_loader image space slot s).1
load_user_elf_into-Extends image space slot s sound =
    load_user_elf_into-kept page_loader (λ _. Unit) (λ s'. Extends s s') (page_loader-Respects s)
      (λ page. tt)
      (λ space slot s' f.
        Extends-trans s s' _ f (allocate_user_stack_in-Extends space slot s' f.sound))
      image space slot s (Extends-refl s sound)
