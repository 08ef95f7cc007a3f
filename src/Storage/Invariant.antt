-- ===== src/Storage/Invariant.antt =====
-- The invariant of the RAM files (kernel-core/src/storage.rs).
use open_kernel.Prelude.{
  ℕ, ◌+◌, ◌≤◌, ◌<◌, ◌≡◌, ◌≢◌, inl, inr, refl, sym, ◌∙◌, true, false, not, ◌==◌, List, [], ◌∷◌,
  length, update, update_self, update_other, first_from-IsFirst, false_of_not, copy_from_outside,
  slice_from-copy_from, arith, Bool-cases, ℕ_discrete, true≢false,
}
use open_kernel.Storage.{
  Storage, RamFile, empty_ram_file, boot_storage, max_ram_files, max_file_name, max_ram_file_size,
  created, written, create, write_at, delete,
}
use open_kernel.Storage.Steps.{
  name_of, put, create_cases, write_at_cases, delete_cases, find_ram_file-Finds, find_ram_file-none,
}

-- The lengths fit the arrays, and no byte of an older file is left behind the end of a file: a
-- file that grows over a gap reads zeros there.
pub record IsSoundFile (f : RamFile) : Type 0 where
  pub name_fits : f.name_length < max_file_name
  pub size_fits : f.size ≤ max_ram_file_size
  pub clean : (j : ℕ) → f.size ≤ j → f.bytes j ≡ 0
  pub free_is_empty : f.used ≡ false → f.size ≡ 0

-- No two files have one name.
abbrev pub NamesDiffer : (ℕ → RamFile) → Type 0
NamesDiffer ram =
    (i j : ℕ)
    → i < max_ram_files
    → j < max_ram_files
    → (ram i).used ≡ true
    → (ram j).used ≡ true
    → name_of (ram i) ≡ name_of (ram j)
    → i ≡ j

pub record IsSound (st : Storage) : Type 0 where
  pub files_sound : (i : ℕ) → IsSoundFile (st.ram_files i)
  pub names_differ : NamesDiffer st.ram_files

pub boot-IsSound : IsSound boot_storage
boot-IsSound = record {
  files_sound = λ i. record {
    name_fits = omega arith;
    size_fits = omega arith;
    clean = λ j h. refl;
    free_is_empty = λ e. refl;
  };
  names_differ = λ i j hi hj ui uj e. absurd (true≢false (sym ui));
}

created-IsSoundFile :
    (name : List ℕ) (f : RamFile)
    → length name < max_file_name
    → IsSoundFile f
    → f.used ≡ false
    → IsSoundFile (created name f)
created-IsSoundFile name f short s free = record {
  name_fits = short;
  size_fits = omega arith;
  clean = λ j h. s.clean j (omega (arith, s.free_is_empty free));
  free_is_empty = λ e. refl;
}

written-IsSoundFile :
    (offset : ℕ) (content : List ℕ) (f : RamFile)
    → offset + length content ≤ max_ram_file_size
    → IsSoundFile f
    → f.used ≡ true
    → IsSoundFile (written offset content (offset + length content) f)
written-IsSoundFile offset content f fits s used = record {
  name_fits = s.name_fits;
  size_fits = omega (arith, s.size_fits);
  clean = λ j h. copy_from_outside f.bytes offset content j (omega arith) ∙ s.clean j (omega arith);
  free_is_empty = λ e. absurd (true≢false (sym used ∙ e));
}

empty-IsSoundFile : IsSoundFile empty_ram_file
empty-IsSoundFile = record {
  name_fits = omega arith;
  size_fits = omega arith;
  clean = λ j h. refl;
  free_is_empty = λ e. refl;
}

-- Rewriting one entry keeps the invariant, if no other file in use has the new entry's name.
put-IsSound :
    (st : Storage) (slot : ℕ) (f : RamFile)
    → IsSound st
    → IsSoundFile f
    → (f.used ≡ true
        → (j : ℕ) → j < max_ram_files
        → j ≢ slot
        → (st.ram_files j).used ≡ true
        → name_of (st.ram_files j) ≢ name_of f)
    → IsSound (put slot f st)
put-IsSound st slot f s sf fresh = record {
  files_sound =
      λ i. elim (Bool-cases (i == slot)) [ inl e ↦ rw e sf | inr e ↦ rw e (s.files_sound i) ];
  names_differ = λ i j hi hj ui uj e. elim (ℕ_discrete i slot) [
    | yes ei ↦ elim (ℕ_discrete j slot) [
      | yes ej ↦ ei ∙ sym ej
      | no nj ↦
          let old = update_other st.ram_files slot f j nj in
          let new = at_slot i ei in
          absurd (fresh (rw new at ui) j hj nj (rw old at uj) (rw (new, old) at (sym e)))
    ]
    | no ni ↦ elim (ℕ_discrete j slot) [
      | yes ej ↦
          let old = update_other st.ram_files slot f i ni in
          let new = at_slot j ej in
          absurd (fresh (rw new at uj) i hi ni (rw old at ui) (rw (new, old) at e))
      | no nj ↦
          let oi = update_other st.ram_files slot f i ni in
          let oj = update_other st.ram_files slot f j nj in
          s.names_differ i j hi hj (rw oi at ui) (rw oj at uj) (rw (oi, oj) at e)
    ]
  ];
}
  where
    at_slot : (i : ℕ) → i ≡ slot → update st.ram_files slot f i ≡ f
    at_slot i e = rw e (update_self st.ram_files slot f)

-- Creating a file keeps the invariant, on every branch.
pub create-IsSound : (name : List ℕ) (st : Storage) → IsSound st → IsSound (create name st).1
create-IsSound name st s = elim (create_cases name st) [
  | inl (e, failed) ↦ rw failed s
  | inr (slot, c) ↦
      let f = first_from-IsFirst (λ i. not (st.ram_files i).used) 0 max_ram_files slot c.free in
      rw c.result (
        put-IsSound st slot (created name (st.ram_files slot)) s
          (created-IsSoundFile name (st.ram_files slot) c.short (s.files_sound slot)
            (false_of_not _ f.passes))
          (λ u j h ne used same.
            find_ram_file-none name st.ram_files j c.absent h used
              (same ∙ slice_from-copy_from (st.ram_files slot).name 0 name)))
]

-- Writing keeps the invariant, on every branch.
pub write_at-IsSound :
    (name : List ℕ) (offset : ℕ) (content : List ℕ) (st : Storage)
    → IsSound st
    → IsSound (write_at name offset content st).1
write_at-IsSound name offset content st s = elim (write_at_cases name offset content st) [
  | inl (e, failed) ↦ rw failed s
  | inr (slot, w) ↦
      let f = find_ram_file-Finds name st.ram_files slot w.found in
      rw w.result (
        put-IsSound st slot _ s
          (written-IsSoundFile offset content (st.ram_files slot) w.fits (s.files_sound slot)
            f.used)
          (λ u j h ne used same. ne (s.names_differ j slot h f.in_range used f.used same)))
]

-- Deleting keeps the invariant, on every branch.
pub delete-IsSound : (name : List ℕ) (st : Storage) → IsSound st → IsSound (delete name st).1
delete-IsSound name st s = elim (delete_cases name st) [
  | inl (e, failed) ↦ rw failed s
  | inr (slot, d) ↦
      rw d.result
        (put-IsSound st slot empty_ram_file s empty-IsSoundFile (λ u. absurd (true≢false (sym u))))
]

-- A call that changes the RAM files.
pub data Call : Type 0 where
  create_call : (name : List ℕ) → Call
  write_call : (name : List ℕ) (offset : ℕ) (content : List ℕ) → Call
  delete_call : (name : List ℕ) → Call

unfoldable pub run : List Call → Storage → Storage
run [] st = st
run (create_call name ∷ cs) st = run cs (create name st).1
run (write_call name offset content ∷ cs) st = run cs (write_at name offset content st).1
run (delete_call name ∷ cs) st = run cs (delete name st).1

-- No sequence of calls, whether they succeed or fail, breaks the invariant: lengths fit their
-- arrays, no two files have one name, and no byte is left behind the end of a file.
pub run_files-IsSound : (cs : List Call) (st : Storage) → IsSound st → IsSound (run cs st)
unfolding run
run_files-IsSound [] st s = s
run_files-IsSound (create_call name ∷ cs) st s = run_files-IsSound cs _ (create-IsSound name st s)
run_files-IsSound (write_call name offset content ∷ cs) st s =
    run_files-IsSound cs _ (write_at-IsSound name offset content st s)
run_files-IsSound (delete_call name ∷ cs) st s = run_files-IsSound cs _ (delete-IsSound name st s)
