-- ===== src/Vfs/Tests.antt =====
-- Paths of kernel-core/src/vfs.rs, over a RAM file system with one file.
use open_kernel.Prelude.{
  ℕ, ◌≡◌, ◌⊎◌, ◌↔◌, refl, List, [], ◌∷◌, true, false, ◌||◌, some, ok, err, arith, first_from,
  copy_from, slice_from,
}
use open_kernel.Storage.{Storage, boot_storage, create, read, find_ram_file, validate_name}
use open_kernel.Storage.Names.{names_equal}
use open_kernel.Storage.Slices.{overwrite}
use open_kernel.Storage.Invariant.{boot-IsSound, create-IsSound}
use open_kernel.Vfs.{
  Vfs, read_only, invalid_path, init_ram_fs, vfs_open, vfs_open_file, vfs_write_at,
}
use open_kernel.Vfs.Paths.{root_path, strip_prefix, contains}
use open_kernel.Vfs.Files.{in_tmp, Shows, vfs_write_at-in_tmp}
use open_kernel.Vfs.Confinement.{Reaches, vfs_open-Reaches, outside_tmp_is_read_only}

-- `"log"`
abbrev log : List ℕ
log = 108 ∷ 111 ∷ 103 ∷ []

abbrev mounted_at : Storage → Vfs
mounted_at st = record {
  root_mount = some (record { mount_point = root_path; file_system = init_ram_fs });
  storage = st;
}

abbrev fresh : Vfs
fresh = mounted_at boot_storage

abbrev with_log : Vfs
with_log = mounted_at (create log boot_storage).1

log-open : vfs_open (in_tmp log) with_log ≡ some []
unfolding vfs_open strip_prefix contains names_equal read find_ram_file first_from create
    validate_name copy_from slice_from
log-open = refl

vfs_write_at_example :
    let (result, v') = vfs_write_at (in_tmp log) 2 (7 ∷ 8 ∷ []) with_log in
    (result ≡ ok tt) × Shows with_log v' log (overwrite 2 (7 ∷ 8 ∷ []) [])
unfolding contains
vfs_write_at_example =
    vfs_write_at-in_tmp log (7 ∷ 8 ∷ []) [] 2 with_log refl
      (create-IsSound log boot_storage boot-IsSound) refl refl log-open (omega arith)

vfs_open-Reaches_example :
    (vfs_open (in_tmp log) with_log ≡ some []) ↔ Reaches with_log (in_tmp log) []
vfs_open-Reaches_example = vfs_open-Reaches (in_tmp log) [] with_log refl

-- `"/log"`
outside_tmp_example :
    (vfs_write_at (47 ∷ log) 0 (7 ∷ []) with_log ≡ (err read_only, with_log))
    × ((vfs_open_file (47 ∷ log) true false with_log).1 ≡ with_log)
    × ((true || false) ≡ true
        → ((vfs_open_file (47 ∷ log) true false with_log).0 ≡ err read_only)
          ⊎ ((vfs_open_file (47 ∷ log) true false with_log).0 ≡ err invalid_path))
unfolding strip_prefix
outside_tmp_example = outside_tmp_is_read_only (47 ∷ log) (7 ∷ []) 0 true false with_log refl
