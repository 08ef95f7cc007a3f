-- ===== src/Storage/Spec.antt =====
-- The RAM files as a map from names to contents: what each call of kernel-core/src/storage.rs promises.
use open_kernel.Prelude.{
  ℕ, ◌+◌, Bool, ◌&&◌, if◌then◌else◌, ltb, Option, none, some, List, [], length, Result, ok, err,
}
use open_kernel.Storage.{
  Storage, RamFsError, already_exists, not_found, name_too_long, file_too_large, no_space,
  max_file_name, max_ram_file_size, read,
}
use open_kernel.Storage.Names.{names_equal}
use open_kernel.Storage.Slices.{overwrite}

-- The abstract state.
abbrev pub FileMap : Type 0
FileMap = List ℕ → Option (List ℕ)

abbrev pub view : Storage → FileMap
view st name = read name st

abbrev pub bind : List ℕ → Option (List ℕ) → FileMap → FileMap
bind name content m other = if names_equal other name then content else m other

abbrev pub is_valid_name : List ℕ → Bool
is_valid_name name = ltb 0 (length name) && ltb (length name) max_file_name

abbrev pub spec_create : Bool → List ℕ → FileMap → Result RamFsError (Unit {0}) × FileMap
spec_create full name m =
    if is_valid_name name
    then elim (m name) [
      | some old ↦ (err already_exists, m)
      | none ↦ if full then (err no_space, m) else (ok tt, bind name (some []) m)
    ]
    else (err name_too_long, m)

abbrev pub spec_write_at : List ℕ → ℕ → List ℕ → FileMap → Result RamFsError (Unit {0}) × FileMap
spec_write_at name offset new m =
    if is_valid_name name
    then if ltb max_ram_file_size (offset + length new)
      then (err file_too_large, m)
      else elim (m name) [
        | none ↦ (err not_found, m)
        | some old ↦ (ok tt, bind name (some (overwrite offset new old)) m)
      ]
    else (err name_too_long, m)

abbrev pub spec_delete : List ℕ → FileMap → Result RamFsError (Unit {0}) × FileMap
spec_delete name m =
    if is_valid_name name
    then elim (m name) [ none ↦ (err not_found, m) | some old ↦ (ok tt, bind name none m) ]
    else (err name_too_long, m)
