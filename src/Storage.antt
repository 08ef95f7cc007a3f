-- ===== src/Storage.antt =====
-- kernel-core/src/storage.rs: the boot files that the loader registers, and the RAM files.
-- The statics `FILES`, `FILE_COUNT` and `RAM_FILES` are one record, passed in and handed back.
-- A name or a content is the list of its bytes; arrays are functions of the index, and every index
-- below is under the array's size (`Storage.Invariant`).
pub mod Names
pub mod Steps
pub mod Invariant
pub mod Slices
pub mod Spec
pub mod View
pub mod Create
pub mod Write
pub mod Delete
mod Tests
use open_kernel.Prelude.{
  ℕ, ◌+◌, ◌-◌, ◌^◌, max, Bool, true, false, not, ◌&&◌, ◌||◌, if◌then◌else◌, ◌==◌, ltb, leb, Option,
  none, some, List, [], ◌∷◌, length, get_elem?, update, first_from, slice, copy_from, Result, ok,
  err,
}
use Names.{names_equal}

abbrev pub max_files : ℕ
max_files = 32

abbrev pub max_ram_files : ℕ
max_ram_files = 32

abbrev pub max_file_name : ℕ
max_file_name = 64

abbrev pub max_ram_file_size : ℕ
max_ram_file_size = 4096

-- `struct File`
pub record File : Type 0 where
  pub name : List ℕ
  pub content : List ℕ

pub data RamFsError : Type 0 where
  already_exists not_found name_too_long file_too_large no_space : RamFsError

pub record RamFile : Type 0 where
  pub used : Bool
  pub name : ℕ → ℕ
  pub name_length : ℕ
  pub bytes : ℕ → ℕ
  pub size : ℕ

-- `RamFile::EMPTY`
abbrev pub empty_ram_file : RamFile
empty_ram_file = record { used = false; name = λ _. 0; name_length = 0; bytes = λ _. 0; size = 0 }

pub record Storage : Type 0 where
  pub files : ℕ → Option File
  pub file_count : ℕ
  pub ram_files : ℕ → RamFile

-- The statics as the kernel starts.
abbrev pub boot_storage : Storage
boot_storage = record { files = λ _. none; file_count = 0; ram_files = λ _. empty_ram_file }

unfoldable pub register_boot_file : List ℕ → List ℕ → Storage → Bool × Storage
register_boot_file name content st = if st.file_count == max_files then (false, st) else (
  true,
  record st {
    files = update st.files st.file_count (some (record { name = name; content = content }));
    file_count = st.file_count + 1;
  },
)

-- `.iter().flatten()`
unfoldable pub flatten {ℓ} : {A : Type ℓ} → List (Option A) → List A
flatten [] = []
flatten (none ∷ os) = flatten os
flatten (some a ∷ os) = a ∷ flatten os

-- The test of `find_ram_file` on one entry.
abbrev pub is_named : RamFile → List ℕ → Bool
is_named f name =
    f.used && (f.name_length == length name && names_equal (slice f.name (length name)) name)

unfoldable pub find_ram_file : List ℕ → (ℕ → RamFile) → Option ℕ
find_ram_file name ram = first_from (λ i. is_named (ram i) name) 0 max_ram_files

-- `&file.data[..file.length]`
abbrev pub content_of : RamFile → List ℕ
content_of f = slice f.bytes f.size

unfoldable pub read : List ℕ → Storage → Option (List ℕ)
read name st = elim (find_ram_file name st.ram_files) [
  | none ↦ none
  | some slot ↦ some (content_of (st.ram_files slot))
]

-- The loop of `open` over the boot files.
unfoldable pub find_boot_file : List ℕ → List File → Option (List ℕ)
find_boot_file name [] = none
find_boot_file name (file ∷ rest) =
    let later = find_boot_file name rest in
    if names_equal file.name name then some file.content else later

unfoldable pub open_file : List ℕ → Storage → Option (List ℕ)
open_file name st = elim (find_boot_file name (flatten (slice st.files st.file_count))) [
  | some content ↦ some content
  | none ↦ read name st
]

unfoldable pub boot_file_name : ℕ → Storage → Option (List ℕ)
boot_file_name index st = elim (get_elem? (flatten (slice st.files st.file_count)) index) [
  | none ↦ none
  | some file ↦ some file.name
]

unfoldable pub validate_name : List ℕ → Result RamFsError (List ℕ)
validate_name name =
    if length name == 0 || leb max_file_name (length name) then err name_too_long else ok name

-- What `create` writes into the free entry.
abbrev pub created : List ℕ → RamFile → RamFile
created name f = record f {
  used = true;
  name_length = length name;
  size = 0;
  name = copy_from f.name 0 name;
}

unfoldable pub create : List ℕ → Storage → Result RamFsError (Unit {0}) × Storage
create name st = elim (validate_name name) [
  | err e ↦ (err e, st)
  | ok name ↦ elim (find_ram_file name st.ram_files) [
    | some slot ↦ (err already_exists, st)
    | none ↦ elim (first_from (λ i. not (st.ram_files i).used) 0 max_ram_files) [
      | some slot ↦ (
        ok tt,
        record st { ram_files = update st.ram_files slot (created name (st.ram_files slot)) },
      )
      | none ↦ (err no_space, st)
    ]
  ]
]

-- `a.checked_add(b)` on `usize`
abbrev pub checked_add : ℕ → ℕ → Option ℕ
checked_add a b = if ltb (a + b) (2 ^ 64) then some (a + b) else none

-- What `write_at` writes into the entry of the file.
abbrev pub written : ℕ → List ℕ → ℕ → RamFile → RamFile
written offset content end f = record f {
  bytes = copy_from f.bytes offset content;
  size = max f.size end;
}

unfoldable pub write_at : List ℕ → ℕ → List ℕ → Storage → Result RamFsError (Unit {0}) × Storage
write_at name offset content st = elim (validate_name name) [
  | err e ↦ (err e, st)
  | ok name ↦ elim (checked_add offset (length content)) [
    | none ↦ (err file_too_large, st)
    | some end ↦
        if ltb max_ram_file_size end
        then (err file_too_large, st)
        else elim (find_ram_file name st.ram_files) [
          | none ↦ (err not_found, st)
          | some slot ↦ (
            ok tt,
            record st {
              ram_files = update st.ram_files slot (written offset content end (st.ram_files slot));
            },
          )
        ]
  ]
]

unfoldable pub write : List ℕ → List ℕ → Storage → Result RamFsError (Unit {0}) × Storage
write name content st = write_at name 0 content st

unfoldable pub delete : List ℕ → Storage → Result RamFsError (Unit {0}) × Storage
delete name st = elim (validate_name name) [
  | err e ↦ (err e, st)
  | ok name ↦ elim (find_ram_file name st.ram_files) [
    | none ↦ (err not_found, st)
    | some slot ↦ (ok tt, record st { ram_files = update st.ram_files slot empty_ram_file })
  ]
]

-- `.iter().filter(|file| file.used)`
unfoldable pub used_files : List RamFile → List RamFile
used_files [] = []
used_files (f ∷ fs) = let rest = used_files fs in if f.used then f ∷ rest else rest

unfoldable pub ram_file_count : Storage → ℕ
ram_file_count st = length (used_files (slice st.ram_files max_ram_files))

-- `room` is `output.len()`. The bytes returned are those written to the front of `output`.
unfoldable pub ram_file_name : ℕ → ℕ → Storage → Option (List ℕ)
ram_file_name index room st =
    elim (get_elem? (used_files (slice st.ram_files max_ram_files)) index) [
      | none ↦ none
      | some file ↦
          if ltb room file.name_length then none else some (slice file.name file.name_length)
    ]
