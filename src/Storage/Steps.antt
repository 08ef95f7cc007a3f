-- ===== src/Storage/Steps.antt =====
-- How each call on the RAM files ends (kernel-core/src/storage.rs): with an error and nothing
-- changed, or with one entry rewritten.
use open_kernel.Prelude.{
  ℕ, ◌+◌, ◌≤◌, ◌<◌, ◌≡◌, ◌≢◌, ◌⊎◌, inl, inr, refl, sym, ◌∙◌, ap, true, not, ◌||◌, ◌==◌, leb, none,
  some, List, length, update, first_from, first_from-IsFirst, first_from-none, slice, ok, err,
  arith, Option-cases, true≢false, length-slice_from, ==_refl, dec_lt, Bool-cases,
}
use open_kernel.Storage.{
  Storage, RamFile, empty_ram_file, RamFsError, already_exists, not_found, name_too_long,
  file_too_large, no_space, max_ram_files, max_file_name, max_ram_file_size, is_named,
  find_ram_file, created, written, validate_name, create, write_at, delete,
}
use open_kernel.Storage.Names.{names_equal, names_equal_iff}

-- The name that an entry holds.
abbrev pub name_of : RamFile → List ℕ
name_of f = slice f.name f.name_length

pub is_named_iff :
    (f : RamFile) (name : List ℕ) → is_named f name ≡ true → (f.used ≡ true) × (name_of f ≡ name)
is_named_iff f name h =
    let used : f.used ≡ true = ground arith in
    let size : f.name_length ≡ length name = ground arith in
    let same : names_equal (slice f.name (length name)) name ≡ true = ground arith in
    (used, ap (slice f.name) size ∙ (names_equal_iff _ name).0 same)

pub is_named_of : (f : RamFile) → f.used ≡ true → is_named f (name_of f) ≡ true
is_named_of f h =
    let size = length-slice_from f.name 0 f.name_length in
    let same = (names_equal_iff (name_of f) (name_of f)).1 refl in
    rw (h, size, ==_refl f.name_length) same

valid_cases :
    (name : List ℕ)
    → (validate_name name ≡ err name_too_long)
      ⊎ ((validate_name name ≡ ok name) × (0 < length name) × (length name < max_file_name))
unfolding validate_name
valid_cases name = elim (Bool-cases (length name == 0 || leb max_file_name (length name))) [
  | inl bad ↦ inl (rw bad)
  | inr good ↦ inr (rw good, ground arith, ground arith)
]

-- An entry rewritten in place.
abbrev pub put : ℕ → RamFile → Storage → Storage
put slot f st = record st { ram_files = update st.ram_files slot f }

pub record Creates (name : List ℕ) (st : Storage) (slot : ℕ) : Type 0 where
  pub not_empty : 0 < length name
  pub short : length name < max_file_name
  pub absent : find_ram_file name st.ram_files ≡ none
  pub free : first_from (λ i. not (st.ram_files i).used) 0 max_ram_files ≡ some slot
  pub result : create name st ≡ (ok tt, put slot (created name (st.ram_files slot)) st)

pub create_cases :
    (name : List ℕ) (st : Storage)
    → ((e : RamFsError) × (create name st ≡ (err e, st))) ⊎ ((slot : ℕ) × Creates name st slot)
unfolding create
create_cases name st = elim (valid_cases name) [
  | inl bad ↦ inl (name_too_long, rw (bad, create))
  | inr (v, pos, small) ↦ elim (Option-cases (find_ram_file name st.ram_files)) [
    | inr (slot, e) ↦ inl (already_exists, ground arith)
    | inl absent ↦
        elim (Option-cases (first_from (λ i. not (st.ram_files i).used) 0 max_ram_files)) [
          | inl full ↦ inl (no_space, ground arith)
          | inr (slot, e) ↦ inr (
            slot,
            record {
              not_empty = pos;
              short = small;
              absent = absent;
              free = e;
              result = ground arith;
            },
          )
        ]
  ]
]

pub record Writes (name : List ℕ) (offset : ℕ) (content : List ℕ) (st : Storage) (slot : ℕ)
    : Type 0 where
  pub fits : offset + length content ≤ max_ram_file_size
  pub found : find_ram_file name st.ram_files ≡ some slot
  pub result :
      write_at name offset content st
      ≡ (ok tt, put slot (written offset content (offset + length content) (st.ram_files slot)) st)

pub write_at_cases :
    (name : List ℕ) (offset : ℕ) (content : List ℕ) (st : Storage)
    → ((e : RamFsError) × (write_at name offset content st ≡ (err e, st)))
      ⊎ ((slot : ℕ) × Writes name offset content st slot)
unfolding write_at
write_at_cases name offset content st = elim (valid_cases name) [
  | inl bad ↦ inl (name_too_long, rw (bad, write_at))
  | inr (v, _, _) ↦ elim (dec_lt max_ram_file_size (offset + length content)) [
    | yes big ↦ inl (file_too_large, ground arith)
    | no fits ↦ elim (Option-cases (find_ram_file name st.ram_files)) [
      | inl absent ↦ inl (not_found, ground arith)
      | inr (slot, e) ↦ inr (slot, record { fits = omega arith; found = e; result = ground arith })
    ]
  ]
]

pub record Deletes (name : List ℕ) (st : Storage) (slot : ℕ) : Type 0 where
  pub found : find_ram_file name st.ram_files ≡ some slot
  pub result : delete name st ≡ (ok tt, put slot empty_ram_file st)

pub delete_cases :
    (name : List ℕ) (st : Storage)
    → ((e : RamFsError) × (delete name st ≡ (err e, st))) ⊎ ((slot : ℕ) × Deletes name st slot)
unfolding delete
delete_cases name st = elim (valid_cases name) [
  | inl bad ↦ inl (name_too_long, rw (bad, delete))
  | inr (v, _, _) ↦ elim (Option-cases (find_ram_file name st.ram_files)) [
    | inl absent ↦ inl (not_found, ground arith)
    | inr (slot, e) ↦ inr (slot, record { found = e; result = ground arith })
  ]
]

-- An entry that `find_ram_file` returns is in range, in use and has the name.
pub record Finds (name : List ℕ) (ram : ℕ → RamFile) (slot : ℕ) : Type 0 where
  pub in_range : slot < max_ram_files
  pub used : (ram slot).used ≡ true
  pub named : name_of (ram slot) ≡ name

pub find_ram_file-Finds :
    (name : List ℕ) (ram : ℕ → RamFile) (slot : ℕ)
    → find_ram_file name ram ≡ some slot
    → Finds name ram slot
unfolding find_ram_file
find_ram_file-Finds name ram slot e =
    let f = first_from-IsFirst (λ i. is_named (ram i) name) 0 max_ram_files slot e in
    let n = is_named_iff (ram slot) name f.passes in
    record { in_range = omega (arith, f.upper); used = n.0; named = n.1 }

-- Where it returns nothing, no entry in use has the name.
pub find_ram_file-none :
    (name : List ℕ) (ram : ℕ → RamFile) (i : ℕ)
    → find_ram_file name ram ≡ none
    → i < max_ram_files
    → (ram i).used ≡ true
    → name_of (ram i) ≢ name
unfolding find_ram_file
find_ram_file-none name ram i e h u same =
    let miss =
      first_from-none (λ j. is_named (ram j) name) 0 max_ram_files e i (omega arith)
        (omega arith) in
    true≢false (sym (is_named_of (ram i) u) ∙ rw same miss)
