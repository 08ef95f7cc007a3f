-- ===== src/Storage/Delete.antt =====
-- `delete` of kernel-core/src/storage.rs implements its specification.
use open_kernel.Prelude.{
  ℕ, ◌≡◌, inl, inr, refl, sym, ◌∙◌, true≢false, none, some, List, update, update_self, update_other,
  ok, err, Option-cases, Bool-cases, ℕ_discrete,
}
use open_kernel.Storage.{
  Storage, empty_ram_file, not_found, name_too_long, find_ram_file, read, delete,
}
use open_kernel.Storage.Steps.{put, Finds, find_ram_file-Finds}
use open_kernel.Storage.Invariant.{IsSound}
use open_kernel.Storage.Spec.{view, bind, is_valid_name, spec_delete}
use open_kernel.Storage.View.{
  read_found, read_absent, is_named_other, view-put, invalid_name, valid_name, conclude,
}

pub delete_new :
    (name : List ℕ) (st : Storage) (slot : ℕ)
    → IsSound st
    → find_ram_file name st.ram_files ≡ some slot
    → view (put slot empty_ram_file st) ≡ bind name none (view st)
delete_new name st slot s e = view-put st slot empty_ram_file name none new λ other ne.
    (is_named_other (st.ram_files slot) other (λ same. ne (sym found.named ∙ same)), refl)
  where
    found : Finds name st.ram_files slot
    found = find_ram_file-Finds name st.ram_files slot e

    gone : (i : ℕ) → find_ram_file name (update st.ram_files slot empty_ram_file) ≡ some i → ⊥
    gone i at =
        let f = find_ram_file-Finds name (update st.ram_files slot empty_ram_file) i at in
        elim (ℕ_discrete i slot) [
          | yes same ↦
              true≢false (sym f.used ∙ rw (same, update_self st.ram_files slot empty_ram_file))
          | no ne ↦
              let old = update_other st.ram_files slot empty_ram_file i ne in
              ne (
                s.names_differ i slot f.in_range found.in_range (rw old at f.used) found.used
                  ((rw old at f.named) ∙ sym found.named))
        ]

    new : read name (put slot empty_ram_file st) ≡ none
    new = elim (Option-cases (find_ram_file name (update st.ram_files slot empty_ram_file))) [
      | inl absent ↦ read_absent name (put slot empty_ram_file st) absent
      | inr (i, at) ↦ absurd (gone i at)
    ]

-- `delete` removes the file from the abstract map, with the same result on every branch.
pub delete_refines :
    (name : List ℕ) (st : Storage)
    → IsSound st
    → let (result, after) = delete name st in (result, view after) ≡ spec_delete name (view st)
unfolding delete
delete_refines name st s = elim (Bool-cases (is_valid_name name)) [
  | inr bad ↦
      conclude _ (err name_too_long) st _ (view st) (rw (invalid_name name bad, delete)) refl
        (rw bad)
  | inl good ↦ elim (Option-cases (find_ram_file name st.ram_files)) [
    | inl e ↦
        conclude _ (err not_found) st _ (view st) (rw (valid_name name good, e, delete)) refl
          (rw (good, read_absent name st e))
    | inr (slot, e) ↦
        conclude _ (ok tt) (put slot empty_ram_file st) _ (bind name none (view st))
          (rw (valid_name name good, e, delete)) (delete_new name st slot s e)
          (rw (good, read_found name st slot e))
  ]
]
