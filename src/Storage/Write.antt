-- ===== src/Storage/Write.antt =====
-- `write_at` of kernel-core/src/storage.rs implements its specification.
use open_kernel.Prelude.{
  ℕ, ◌+◌, ◌≡◌, inl, inr, refl, sym, ◌∙◌, ap, ltb, some, List, length, ok, err, arith, Option-cases,
  Bool-cases,
}
use open_kernel.Storage.{
  Storage, RamFile, not_found, name_too_long, file_too_large, max_ram_file_size, find_ram_file,
  content_of, read, written, write_at,
}
use open_kernel.Storage.Steps.{put, Finds, find_ram_file-Finds}
use open_kernel.Storage.Invariant.{IsSound}
use open_kernel.Storage.Slices.{overwrite, slice-copy_from}
use open_kernel.Storage.Spec.{view, bind, is_valid_name, spec_write_at}
use open_kernel.Storage.View.{
  read_found, read_absent, find-put, is_named_other, view-put, content-put, invalid_name,
  valid_name, conclude,
}

pub write_new :
    (name : List ℕ) (offset : ℕ) (content : List ℕ) (st : Storage) (slot : ℕ)
    → IsSound st
    → find_ram_file name st.ram_files ≡ some slot
    → view (put slot (written offset content (offset + length content) (st.ram_files slot)) st)
      ≡ bind name (some (overwrite offset content (content_of (st.ram_files slot)))) (view st)
write_new name offset content st slot s e = view-put st slot f name _ new λ other ne. (
  is_named_other (st.ram_files slot) other (λ same. ne (sym found.named ∙ same)),
  is_named_other f other (λ same. ne (sym found.named ∙ same)),
)
  where
    f : RamFile
    f = written offset content (offset + length content) (st.ram_files slot)

    found : Finds name st.ram_files slot
    found = find_ram_file-Finds name st.ram_files slot e

    new :
        read name (put slot f st) ≡ some (overwrite offset content (content_of (st.ram_files slot)))
    new =
        content-put st slot f name (find-put st slot f name refl ∙ e)
        ∙ ap some (
            slice-copy_from (st.ram_files slot).bytes (st.ram_files slot).size offset content
              (s.files_sound slot).clean)

-- `write_at` overwrites the file in the abstract map, with the same result on every branch.
pub write_at_refines :
    (name : List ℕ) (offset : ℕ) (content : List ℕ) (st : Storage)
    → IsSound st
    → let (result, after) = write_at name offset content st in
      (result, view after) ≡ spec_write_at name offset content (view st)
unfolding write_at
write_at_refines name offset content st s = elim (Bool-cases (is_valid_name name)) [
  | inr bad ↦
      conclude _ (err name_too_long) st _ (view st) (rw (invalid_name name bad, write_at)) refl
        (rw bad)
  | inl good ↦ elim (Bool-cases (ltb max_ram_file_size (offset + length content))) [
    | inl big ↦
        conclude _ (err file_too_large) st _ (view st) (ground (arith, valid_name name good)) refl
          (rw (good, big))
    | inr fits ↦ elim (Option-cases (find_ram_file name st.ram_files)) [
      | inl e ↦
          conclude _ (err not_found) st _ (view st) (ground (arith, valid_name name good)) refl
            (rw (good, fits, read_absent name st e))
      | inr (slot, e) ↦
          conclude _ (ok tt)
            (put slot (written offset content (offset + length content) (st.ram_files slot)) st) _ _
            (ground (arith, valid_name name good)) (write_new name offset content st slot s e)
            (rw (good, fits, read_found name st slot e))
    ]
  ]
]
