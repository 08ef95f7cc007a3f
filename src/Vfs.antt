-- ===== src/Vfs.antt =====
-- kernel-core/src/vfs.rs: paths, over the files of storage.rs. `ROOT_MOUNT` and the statics of
-- storage.rs are one record. A path is the list of its bytes, without a null byte.
pub mod Paths
pub mod Confinement
pub mod Files
mod Tests
use open_kernel.Prelude.{
  ℕ, ◌-◌, Bool, true, false, not, ◌||◌, if◌then◌else◌, ◌==◌, ltb, Option, none, some, has_value,
  List, [], ◌∷◌, ◌++◌, length, Result, ok, err,
}
use open_kernel.Storage.{
  Storage, RamFsError, already_exists, not_found, name_too_long, file_too_large, no_space, read,
  create, write_at, open_file, boot_file_name, ram_file_name,
}
use open_kernel.Storage.Names.{names_equal}
use Paths.{slash, root_path, tmp_path, tmp_name, strip_prefix, contains}

pub data VfsError : Type 0 where
  already_mounted invalid_mount_point not_mounted missing read_only invalid_path long_name full :
      VfsError

-- `&'static dyn FileSystem`: the kernel mounts `INITRAMFS` alone.
pub data FileSystem : Type 0 where
  init_ram_fs : FileSystem

pub record Mount : Type 0 where
  pub mount_point : List ℕ
  pub file_system : FileSystem

pub record Vfs : Type 0 where
  pub root_mount : Option Mount
  pub storage : Storage

-- `FileSystem::open`
abbrev pub open_in : FileSystem → List ℕ → Storage → Option (List ℕ)
open_in init_ram_fs name st = open_file name st

abbrev pub mounted : Vfs → Bool
mounted v = has_value v.root_mount

abbrev pub mount_count : Vfs → ℕ
mount_count v = if mounted v then 1 else 0

unfoldable pub mount_initramfs : Vfs → Result VfsError (Unit {0}) × Vfs
mount_initramfs v = if mounted v then (err already_mounted, v) else (
  ok tt,
  record v { root_mount = some (record { mount_point = root_path; file_system = init_ram_fs }) },
)

-- `name.is_empty() || name.contains('/')`
abbrev pub is_bad_name : List ℕ → Bool
is_bad_name name = length name == 0 || contains slash name

unfoldable pub vfs_open : List ℕ → Vfs → Option (List ℕ)
vfs_open path v = elim (strip_prefix root_path path) [
  | none ↦ none
  | some relative_path ↦ elim v.root_mount [
    | none ↦ none
    | some mount ↦
        if not (names_equal mount.mount_point root_path)
        then none
        else elim (strip_prefix tmp_name relative_path) [
          | some name ↦ if is_bad_name name then none else read name v.storage
          | none ↦
              if is_bad_name relative_path
              then none
              else open_in mount.file_system relative_path v.storage
        ]
  ]
]

abbrev pub ram_error : RamFsError → VfsError
ram_error not_found = missing
ram_error name_too_long = long_name
ram_error no_space = full
ram_error file_too_large = full
ram_error already_exists = invalid_path

-- `.map_err(ram_error)`
abbrev pub mapped : Vfs → Result RamFsError (Unit {0}) × Storage → Result VfsError (Unit {0}) × Vfs
mapped v (ok u, st) = (ok tt, record v { storage = st })
mapped v (err e, st) = (err (ram_error e), record v { storage = st })

unfoldable pub vfs_open_file : List ℕ → Bool → Bool → Vfs → Result VfsError (Unit {0}) × Vfs
vfs_open_file path writable may_create v =
    if names_equal path root_path || names_equal path tmp_path
    then (err invalid_path, v)
    else elim (strip_prefix (root_path ++ tmp_name) path) [
      | some name ↦
          if is_bad_name name
          then (err invalid_path, v)
          else if has_value (read name v.storage)
          then (ok tt, v)
          else if not may_create
          then (err missing, v)
          else mapped v (create name v.storage)
      | none ↦
          if writable || may_create
          then (err read_only, v)
          else ((if has_value (vfs_open path v) then ok tt else err missing), v)
    ]

unfoldable pub vfs_write_at : List ℕ → ℕ → List ℕ → Vfs → Result VfsError (Unit {0}) × Vfs
vfs_write_at path offset content v = elim (strip_prefix (root_path ++ tmp_name) path) [
  | none ↦ (err read_only, v)
  | some name ↦ mapped v (write_at name offset content v.storage)
]

unfoldable pub vfs_write : List ℕ → List ℕ → Vfs → Result VfsError (Unit {0}) × Vfs
vfs_write path content v = vfs_write_at path 0 content v

-- The bytes written to the front of `output`, whose length is `room`.
abbrev pub copy_name : ℕ → List ℕ → Option (List ℕ)
copy_name room name = if ltb room (length name) then none else some name

unfoldable pub directory_entry : List ℕ → ℕ → ℕ → Vfs → Option (List ℕ)
directory_entry path index room v =
    if names_equal path root_path
    then (if index == 0
        then copy_name room (116 ∷ 109 ∷ 112 ∷ [])
        else elim (boot_file_name (index - 1) v.storage) [
          | none ↦ none
          | some name ↦ copy_name room name
        ])
    else if names_equal path tmp_path
    then ram_file_name index room v.storage
    else none

unfoldable pub is_directory : List ℕ → Bool
is_directory path = names_equal path root_path || names_equal path tmp_path
