-- ===== src/User/Proofs/Calls.antt =====
-- The calls of kernel-core/src/user.rs on an open descriptor keep the invariant.
use open_kernel.Prelude.{
  ◌⊎◌, ℕ, ◌-◌, ◌≡◌, inl, inr, refl, not, ◌||◌, ltb, Option, Option-cases, Bool-cases, List,
}
use open_kernel.Vfs.{vfs_open, vfs_write_at, directory_entry}
use open_kernel.User.{
  DescriptorKind, empty_kind, file_kind, directory_kind, is_empty_kind, is_file_kind,
  empty_descriptor, Users, path_of, current_state_slot, set_descriptor, descriptor_of,
}
use open_kernel.User.Utf8.{is_utf8}
use open_kernel.User.Files.{
  fd_index, read_file, read_directory, read_at, read_fd, write_file, write_fd, close_fd,
  seek_descriptor, seek_base, seek_position, seek_fd, is_ok,
}
use open_kernel.User.Proofs.Invariant.{
  Keeps, same-Keeps, Keeps-refl, Keeps-trans, set_descriptor-Keeps, empty-IsSoundDescriptor,
}

-- The position of a descriptor moves.
moved-Keeps :
    (owner : Option ℕ) (index position : ℕ) (u : Users)
    → Keeps (current_state_slot owner) u (
        set_descriptor owner index (record (descriptor_of owner index u) { position = position }) u)
moved-Keeps owner index position u =
    set_descriptor-Keeps owner index (record (descriptor_of owner index u) { position = position })
      u (λ d. record { short = d.short; text = d.text })

read_file-Keeps :
    (owner : Option ℕ) (index room : ℕ) (output : ℕ → ℕ) (u : Users)
    → Keeps (current_state_slot owner) u (read_file owner index room output u).2
unfolding read_file
read_file-Keeps owner index room output u =
    elim (Option-cases (vfs_open (path_of (descriptor_of owner index u)) u.vfs)) [
      | inl e ↦ rw (e, read_file) (Keeps-refl (current_state_slot owner) u)
      | inr (content, e) ↦ rw (e, read_file) (moved-Keeps owner index _ u)
    ]

read_directory-Keeps :
    (owner : Option ℕ) (index room : ℕ) (output : ℕ → ℕ) (u : Users)
    → Keeps (current_state_slot owner) u (read_directory owner index room output u).2
unfolding read_directory
read_directory-Keeps owner index room output u =
    let d = descriptor_of owner index u in
    elim (Bool-cases (ltb room 2)) [
      | inl small ↦ rw (small, read_directory) (Keeps-refl (current_state_slot owner) u)
      | inr big ↦ elim (Option-cases (directory_entry (path_of d) d.position (room - 1) u.vfs)) [
        | inl e ↦ rw (big, e, read_directory) (Keeps-refl (current_state_slot owner) u)
        | inr (name, e) ↦ rw (big, e, read_directory) (moved-Keeps owner index _ u)
      ]
    ]

pub Kind-cases : (k : DescriptorKind) → (k ≡ empty_kind) ⊎ ((k ≡ file_kind) ⊎ (k ≡ directory_kind))
Kind-cases empty_kind = inl refl
Kind-cases file_kind = inr (inl refl)
Kind-cases directory_kind = inr (inr refl)

pub read_fd-Keeps :
    (owner : Option ℕ) (fd room : ℕ) (output : ℕ → ℕ) (u : Users)
    → Keeps (current_state_slot owner) u (read_fd owner fd room output u).2
unfolding read_fd read_at
read_fd-Keeps owner fd room output u =
    let same = Keeps-refl (current_state_slot owner) u in
    elim (Option-cases (fd_index fd)) [
      | inl e ↦ rw (e, read_fd) same
      | inr (index, e) ↦ elim (Bool-cases (is_utf8 (path_of (descriptor_of owner index u)))) [
        | inr other ↦ rw (e, other, read_fd, read_at) same
        | inl text ↦ elim (Kind-cases (descriptor_of owner index u).kind) [
          | inl k ↦ rw (e, text, k, read_fd, read_at) same
          | inr (inl k) ↦
              rw (e, text, k, read_fd, read_at) (read_file-Keeps owner index room output u)
          | inr (inr k) ↦
              rw (e, text, k, read_fd, read_at) (read_directory-Keeps owner index room output u)
        ]
      ]
    ]

write_file-Keeps :
    (owner : Option ℕ) (index : ℕ) (input : List ℕ) (u : Users)
    → Keeps (current_state_slot owner) u (write_file owner index input u).1
unfolding write_file
write_file-Keeps owner index input u =
    let slot = current_state_slot owner in
    let d = descriptor_of owner index u in
    let out = vfs_write_at (path_of d) d.position input u.vfs in
    let u' = record (u) { vfs = out.1 } in
    let k = same-Keeps slot u u' refl in
    elim (Bool-cases (not (is_file_kind d.kind) || not d.writable)) [
      | inl bad ↦ rw (bad, write_file) (Keeps-refl slot u)
      | inr good ↦ elim (Bool-cases (is_utf8 (path_of d))) [
        | inr other ↦ rw (good, other, write_file) (Keeps-refl slot u)
        | inl text ↦ elim (Bool-cases (is_ok out.0)) [
          | inl done ↦
              rw (good, text, done, write_file)
                (Keeps-trans slot u u' _ k (moved-Keeps owner index _ u'))
          | inr failed ↦ rw (good, text, failed, write_file) k
        ]
      ]
    ]

pub write_fd-Keeps :
    (owner : Option ℕ) (fd : ℕ) (input : List ℕ) (u : Users)
    → Keeps (current_state_slot owner) u (write_fd owner fd input u).1
unfolding write_fd
write_fd-Keeps owner fd input u = elim (Option-cases (fd_index fd)) [
  | inl e ↦ rw (e, write_fd) (Keeps-refl (current_state_slot owner) u)
  | inr (index, e) ↦ rw (e, write_fd) (write_file-Keeps owner index input u)
]

pub close_fd-Keeps :
    (owner : Option ℕ) (fd : ℕ) (u : Users)
    → Keeps (current_state_slot owner) u (close_fd owner fd u).1
unfolding close_fd
close_fd-Keeps owner fd u =
    let same = Keeps-refl (current_state_slot owner) u in
    elim (Option-cases (fd_index fd)) [
      | inl e ↦ rw (e, close_fd) same
      | inr (index, e) ↦ elim (Bool-cases (is_empty_kind (descriptor_of owner index u).kind)) [
        | inl free ↦ rw (e, free, close_fd) same
        | inr used ↦
            rw (e, used, close_fd)
              (set_descriptor-Keeps owner index empty_descriptor u (λ d. empty-IsSoundDescriptor))
      ]
    ]

seek_descriptor-Keeps :
    (owner : Option ℕ) (index offset whence : ℕ) (u : Users)
    → Keeps (current_state_slot owner) u (seek_descriptor owner index offset whence u).1
unfolding seek_descriptor
seek_descriptor-Keeps owner index offset whence u =
    let same = Keeps-refl (current_state_slot owner) u in
    elim (Option-cases (seek_base (descriptor_of owner index u) whence u.vfs)) [
      | inl e ↦ rw (e, seek_descriptor) same
      | inr (base, e) ↦ elim (Option-cases (seek_position base offset)) [
        | inl e' ↦ rw (e, e', seek_descriptor) same
        | inr (position, e') ↦ rw (e, e', seek_descriptor) (moved-Keeps owner index position u)
      ]
    ]

pub seek_fd-Keeps :
    (owner : Option ℕ) (fd offset whence : ℕ) (u : Users)
    → Keeps (current_state_slot owner) u (seek_fd owner fd offset whence u).1
unfolding seek_fd
seek_fd-Keeps owner fd offset whence u =
    let same = Keeps-refl (current_state_slot owner) u in
    elim (Option-cases (fd_index fd)) [
      | inl e ↦ rw (e, seek_fd) same
      | inr (index, e) ↦ elim (Bool-cases (is_empty_kind (descriptor_of owner index u).kind)) [
        | inl free ↦ rw (e, free, seek_fd) same
        | inr used ↦ rw (e, used, seek_fd) (seek_descriptor-Keeps owner index offset whence u)
      ]
    ]
