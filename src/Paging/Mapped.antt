-- ===== src/Paging/Mapped.antt =====
-- What the calls of kernel-core/src/paging.rs that map pages leave as it is.
use open_kernel.Prelude.{
  Result-cases, ℕ, ◌/◌, ◌≡◌, inl, inr, refl, sym, ◌∙◌, true, false, true≢false, ◌==◌, Option, none,
  some, Option-cases, Bool-cases, ℕ_discrete, List, [], ◌∷◌, update, update_self, update_other,
  bit_and, arith,
}
use open_kernel.Memory.{Memory, reserved, page_size, allocate}
use open_kernel.Memory.Invariant.{
  IsSoundMemory, AllocateResult, allocate_lem, allocate-IsSoundMemory,
}
use open_kernel.Elf.Image.{PageFlags}
use open_kernel.Paging.{
  PageTables, is_present, set_entry, zero_table, allocate_physical_frame, make_table, enter_table,
  descend, map_leaf, map_page_in, upper_indices, entry_address_mask, leaf_index, huge_page,
}

-- The frames in use stay in use, and no present entry of a table in such a frame changes.
pub record Extends (s s' : PageTables) : Type 0 where
  pub in_use : (frame : ℕ) → reserved s.memory frame ≡ true → reserved s'.memory frame ≡ true
  pub kept :
      (table index : ℕ)
      → reserved s.memory (table / page_size) ≡ true
      → is_present (s.entries table index) ≡ true
      → s'.entries table index ≡ s.entries table index
  pub sound : IsSoundMemory s'.memory

pub Extends-refl : (s : PageTables) → IsSoundMemory s.memory → Extends s s
Extends-refl s sound = record {
  in_use = λ frame h. h;
  kept = λ table index h p. refl;
  sound = sound;
}

pub Extends-trans : (s s' s'' : PageTables) → Extends s s' → Extends s' s'' → Extends s s''
Extends-trans s s' s'' f g = record {
  in_use = λ frame h. g.in_use frame (f.in_use frame h);
  kept = λ table index h p.
      g.kept table index (f.in_use (table / page_size) h) (rw (f.kept table index h p) p)
      ∙ f.kept table index h p;
  sound = g.sound;
}

-- An entry that is not present is set.
pub set_entry-Extends :
    (table index value : ℕ) (s : PageTables)
    → IsSoundMemory s.memory
    → is_present (s.entries table index) ≡ false
    → Extends s (set_entry table index value s)
set_entry-Extends table index value s sound absent = record {
  in_use = λ frame h. h;
  kept = λ t i h p. elim (ℕ_discrete t table) [
    | no ne ↦ rw (update_other s.entries table (update (s.entries table) index value) t ne) refl
    | yes at ↦ elim (ℕ_discrete i index) [
      | no nei ↦
          rw
            (
              at,
              update_self s.entries table (update (s.entries table) index value),
              update_other (s.entries table) index value i nei,
            )
            refl
      | yes ati ↦ absurd (true≢false (sym p ∙ rw (at, ati) absent))
    ]
  ];
  sound = sound;
}

allocated_fresh :
    (m : Memory) (r : Option ℕ × Memory) (frame : ℕ)
    → AllocateResult m r
    → r.0 ≡ some frame
    → reserved m (frame / page_size) ≡ false
allocated_fresh m (none, m') frame h e = cc
allocated_fresh m (some address, m') frame h e =
    let same : address ≡ frame = ground arith in
    let at : frame / page_size ≡ h.frame = omega (arith, h.at, same) in rw at h.was_free

allocated_kept :
    (m : Memory) (r : Option ℕ × Memory) (other : ℕ)
    → AllocateResult m r
    → reserved m other ≡ true
    → reserved r.1 other ≡ true
allocated_kept m (none, m') other h used = rw h.0 used
allocated_kept m (some address, m') other h used = ground (arith, h.now_reserved other)

-- A frame that is handed out was not in use.
pub allocate-fresh :
    (s : PageTables) (frame : ℕ)
    → IsSoundMemory s.memory
    → (allocate_physical_frame s).0 ≡ some frame
    → reserved s.memory (frame / page_size) ≡ false
unfolding allocate_physical_frame
allocate-fresh s frame h e =
    allocated_fresh s.memory (allocate s.memory) frame (allocate_lem s.memory h) e

pub allocate-Extends :
    (s : PageTables) → IsSoundMemory s.memory → Extends s (allocate_physical_frame s).1
unfolding allocate_physical_frame
allocate-Extends s h = record {
  in_use = λ frame used.
      allocated_kept s.memory (allocate s.memory) frame (allocate_lem s.memory h) used;
  kept = λ table index used p. refl;
  sound = allocate-IsSoundMemory s.memory h;
}

-- Filling a frame that `s` does not use.
pub refill-Extends :
    (s s' : PageTables) (frame : ℕ) (content : ℕ → ℕ)
    → reserved s.memory (frame / page_size) ≡ false
    → Extends s s'
    → Extends s (record (s') { entries = update s'.entries frame content })
refill-Extends s s' frame content fresh f = record {
  in_use = f.in_use;
  kept = λ table index used p. elim (ℕ_discrete table frame) [
    | no ne ↦ rw (update_other s'.entries frame content table ne) (f.kept table index used p)
    | yes at ↦ absurd (true≢false (sym used ∙ rw at fresh))
  ];
  sound = f.sound;
}

pub zero_table-Extends :
    (s s' : PageTables) (frame : ℕ)
    → reserved s.memory (frame / page_size) ≡ false
    → Extends s s'
    → Extends s (zero_table frame s')
unfolding zero_table
zero_table-Extends s s' frame fresh f = refill-Extends s s' frame (λ _. 0) fresh f

pub allocate-entries : (s : PageTables) → (allocate_physical_frame s).1.entries ≡ s.entries
unfolding allocate_physical_frame
allocate-entries s = refl

make_table-Extends :
    (flags : PageFlags) (index table : ℕ) (s : PageTables)
    → IsSoundMemory s.memory
    → is_present (s.entries table index) ≡ false
    → Extends s (make_table flags index table s).1
unfolding make_table
make_table-Extends flags index table s h absent =
    let f = allocate-Extends s h in
    elim (Option-cases (allocate_physical_frame s).0) [
      | inl e ↦ rw (e, make_table) f
      | inr (frame, e) ↦
          rw (e, make_table)
            (zero_table-Extends s _ frame (allocate-fresh s frame h e) (
              Extends-trans s _ _ f (
                set_entry-Extends table index _ (allocate_physical_frame s).1 f.sound
                  (rw (allocate-entries s) absent))))
    ]

enter_table-Extends :
    (flags : PageFlags) (index table : ℕ) (s : PageTables)
    → IsSoundMemory s.memory
    → Extends s (enter_table flags index table s).1
unfolding enter_table
enter_table-Extends flags index table s h = elim (Bool-cases (is_present (s.entries table index))) [
  | inr absent ↦ rw (absent, enter_table) (make_table-Extends flags index table s h absent)
  | inl there ↦ elim (Bool-cases (bit_and (s.entries table index) huge_page == 0)) [
    | inl small ↦ rw (there, small, enter_table) (Extends-refl s h)
    | inr huge ↦ rw (there, huge, enter_table) (Extends-refl s h)
  ]
]

descend-Extends :
    (flags : PageFlags) (indices : List ℕ) (table : ℕ) (s : PageTables)
    → IsSoundMemory s.memory
    → Extends s (descend flags indices table s).1
unfolding descend
descend-Extends flags [] table s h = Extends-refl s h
descend-Extends flags (index ∷ rest) table s h =
    let f = enter_table-Extends flags index table s h in
    elim (Result-cases (enter_table flags index table s).0) [
      | inr (_, e) ↦ rw (e, descend) f
      | inl (next, e) ↦
          rw (e, descend) (Extends-trans s _ _ f (descend-Extends flags rest next _ f.sound))
    ]

map_leaf-Extends :
    (index physical : ℕ) (flags : PageFlags) (table : ℕ) (s : PageTables)
    → IsSoundMemory s.memory
    → Extends s (map_leaf index physical flags table s).1
unfolding map_leaf
map_leaf-Extends index physical flags table s h =
    elim (Bool-cases (is_present (s.entries table index))) [
      | inl there ↦ rw (there, map_leaf) (Extends-refl s h)
      | inr absent ↦ rw (absent, map_leaf) (set_entry-Extends table index _ s h absent)
    ]

pub map_page_in-Extends :
    (space address physical : ℕ) (flags : PageFlags) (s : PageTables)
    → IsSoundMemory s.memory
    → Extends s (map_page_in space address physical flags s).1
unfolding map_page_in
map_page_in-Extends space address physical flags s h =
    let root = bit_and space entry_address_mask in
    let f = descend-Extends flags (upper_indices address) root s h in
    elim (Result-cases (descend flags (upper_indices address) root s).0) [
      | inr (_, e) ↦ rw (e, map_page_in) f
      | inl (table, e) ↦
          rw (e, map_page_in)
            (Extends-trans s _ _ f
              (map_leaf-Extends (leaf_index address) physical flags table _ f.sound))
    ]
