-- ===== src/Storage/Tests.antt =====
-- Runs of the RAM files of kernel-core/src/storage.rs.
use open_kernel.Prelude.{ℕ, ◌≡◌, List, [], ◌∷◌}
use open_kernel.Storage.{Storage, boot_storage, create, write_at, delete}
use open_kernel.Storage.Spec.{view, spec_create, spec_write_at, spec_delete, FileMap}
use open_kernel.Storage.Create.{is_full, create_refines}
use open_kernel.Storage.Write.{write_at_refines}
use open_kernel.Storage.Delete.{delete_refines}
use open_kernel.Storage.View.{Out}
use open_kernel.Storage.Invariant.{
  IsSound, boot-IsSound, create-IsSound, create_call, write_call, delete_call, run,
  run_files-IsSound,
}

-- `"log"`
abbrev log : List ℕ
log = 108 ∷ 111 ∷ 103 ∷ []

abbrev with_log : Storage
with_log = (create log boot_storage).1

with_log-IsSound : IsSound with_log
with_log-IsSound = create-IsSound log boot_storage boot-IsSound

create_refines_example :
    ◌≡◌ {A = Out × FileMap}
      ((create log boot_storage).0, view (create log boot_storage).1)
      (spec_create (is_full boot_storage) log (view boot_storage))
create_refines_example = create_refines log boot_storage

write_at_refines_example :
    ◌≡◌ {A = Out × FileMap}
      ((write_at log 2 (7 ∷ 8 ∷ []) with_log).0, view (write_at log 2 (7 ∷ 8 ∷ []) with_log).1)
      (spec_write_at log 2 (7 ∷ 8 ∷ []) (view with_log))
write_at_refines_example = write_at_refines log 2 (7 ∷ 8 ∷ []) with_log with_log-IsSound

delete_refines_example :
    ◌≡◌ {A = Out × FileMap}
      ((delete log with_log).0, view (delete log with_log).1)
      (spec_delete log (view with_log))
delete_refines_example = delete_refines log with_log with_log-IsSound

run_files_example :
    IsSound
      (run (create_call log ∷ write_call log 4000 (1 ∷ 2 ∷ []) ∷ delete_call log ∷ []) boot_storage)
run_files_example =
    run_files-IsSound (create_call log ∷ write_call log 4000 (1 ∷ 2 ∷ []) ∷ delete_call log ∷ [])
      boot_storage boot-IsSound
