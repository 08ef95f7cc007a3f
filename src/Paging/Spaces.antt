-- ===== src/Paging/Spaces.antt =====
-- What a new address space of kernel-core/src/paging.rs holds.
use open_kernel.Prelude.{
  ℕ, ◌/◌, ◌≡◌, ◌≢◌, inl, inr, refl, sym, ap, ◌∙◌, true, false, true≢false, ◌&&◌, if◌then◌else◌, ltb,
  leb, some, Option-cases, Result, ok, err, update_other, ==_refl, ==_of_ne, none,
}
use open_kernel.Memory.{reserved, page_size}
use open_kernel.Memory.Invariant.{IsSoundMemory}
use open_kernel.Elf.Image.{PagingError}
use open_kernel.Paging.{
  PageTables, allocate_physical_frame, zero_table, share_kernel_half, active_address_space,
  create_user_address_space,
}
use open_kernel.Paging.Mapped.{allocate-fresh, allocate-entries}

-- The new table, where the active one is another.
filled :
    (frame index : ℕ) (s : PageTables)
    → active_address_space s ≢ frame
    → (share_kernel_half (active_address_space s) frame (zero_table frame s)).entries frame index
      ≡ (if leb 256 index && ltb index 512 then s.entries (active_address_space s) index else 0)
unfolding zero_table
filled frame index s ne =
    rw (update_other s.entries frame (λ _. 0) (active_address_space s) ne, ==_refl frame) refl

created :
    (s : PageTables) (frame : ℕ)
    → (allocate_physical_frame s).0 ≡ some frame
    → create_user_address_space s ≡ (
      ok frame,
      share_kernel_half
          (active_address_space (allocate_physical_frame s).1)
          frame
          (zero_table frame (allocate_physical_frame s).1),
    )
unfolding create_user_address_space
created s frame e = rw (e, create_user_address_space) refl

-- A space that was not in use, with the kernel's half of the active one and nothing below it; every
-- other table is as it was.
pub record NewSpace (s s' : PageTables) (space : ℕ) : Type 0 where
  pub was_free : reserved s.memory (space / page_size) ≡ false
  pub content :
      (index : ℕ)
      → s'.entries space index
        ≡ (if leb 256 index && ltb index 512 then s.entries (active_address_space s) index else 0)
  pub others : (table index : ℕ) → table ≢ space → s'.entries table index ≡ s.entries table index

made :
    (s : PageTables) (frame : ℕ)
    → reserved s.memory (frame / page_size) ≡ false
    → reserved s.memory (active_address_space s / page_size) ≡ true
    → NewSpace s
        (share_kernel_half
          (active_address_space (allocate_physical_frame s).1)
          frame
          (zero_table frame (allocate_physical_frame s).1))
        frame
unfolding allocate_physical_frame zero_table
made s frame fresh used =
    let ne : active_address_space s ≢ frame = λ at. true≢false (sym used ∙ rw at fresh) in
    record {
      was_free = fresh;
      content = λ index. filled frame index (allocate_physical_frame s).1 ne;
      others = λ table index other. rw (==_of_ne table frame other) refl;
    }

abbrev pub Created : PageTables → Result PagingError ℕ × PageTables → Type 0
Created s (err _, s') = (table index : ℕ) → s'.entries table index ≡ s.entries table index
Created s (ok space, s') = NewSpace s s' space

refused :
    (s : PageTables)
    → (allocate_physical_frame s).0 ≡ none
    → Created s (create_user_address_space s)
unfolding create_user_address_space
refused s e =
    rw (e, create_user_address_space) (λ table index. ap (λ f. f table index) (allocate-entries s))

-- From a state with right accounts, whose active table is in a frame in use, a new address space is
-- a table that was not in use, with the kernel's half of the active table and an empty user half,
-- and every other table is as it was; where there is no frame for it, no table changes.
pub create_user_address_space-Created :
    (s : PageTables)
    → IsSoundMemory s.memory
    → reserved s.memory (active_address_space s / page_size) ≡ true
    → Created s (create_user_address_space s)
create_user_address_space-Created s h used = elim (Option-cases (allocate_physical_frame s).0) [
  | inl e ↦ refused s e
  | inr (frame, e) ↦ rw (created s frame e) (made s frame (allocate-fresh s frame h e) used)
]
