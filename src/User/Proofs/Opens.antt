-- ===== src/User/Proofs/Opens.antt =====
-- Paths and opening in kernel-core/src/user.rs: what a descriptor holds is a short text.
use open_kernel.Prelude.{
  ℕ, ◌+◌, ◌<◌, ◌≡◌, inl, inr, refl, sym, ap, ◌∙◌, true, false, leb, Option, none, some,
  Option-cases, Bool-cases, List, ◌++◌, length, slice_from-copy_from, first_from, arith,
}
use open_kernel.Vfs.{is_directory, vfs_open_file}
use open_kernel.User.{
  max_fds, fd_path_length, Descriptor, is_empty_kind, Users, current_state_slot, state_of,
  descriptor_of, is_relative, directory_prefix, checked_path, resolve_path,
}
use open_kernel.User.Utf8.{is_utf8}
use open_kernel.User.Files.{
  opened_descriptor, take_descriptor, open_path, open_fd, is_ok, has_open_flag, open_directory,
  open_write, open_create,
}
use open_kernel.User.Proofs.Invariant.{
  IsSoundDescriptor, Keeps, same-Keeps, Keeps-refl, Keeps-trans, set_descriptor-Keeps,
}

-- A resolved path is short, and is text.
pub record IsPath (path : List ℕ) : Type 0 where
  pub short : length path < fd_path_length
  pub text : is_utf8 path ≡ true

checked_path-IsPath : (bytes path : List ℕ) → checked_path bytes ≡ some path → IsPath path
checked_path-IsPath bytes path e = elim (Bool-cases (leb fd_path_length (length bytes))) [
  | inl long ↦ absurd (let bad : none ≡ some path = sym (rw long refl) ∙ e in cc)
  | inr short ↦ elim (Bool-cases (is_utf8 bytes)) [
    | inr other ↦ absurd (let bad : none ≡ some path = sym (rw (short, other) refl) ∙ e in cc)
    | inl text ↦
        let same : bytes ≡ path =
          (let found : some bytes ≡ some path = sym (rw (short, text) refl) ∙ e in cc) in
        rw (← same) (record { short = ground (arith, short); text = text })
  ]
]

pub resolve_path-IsPath :
    (owner : Option ℕ) (path resolved : List ℕ) (u : Users)
    → resolve_path owner path u ≡ some resolved
    → IsPath resolved
unfolding resolve_path
resolve_path-IsPath owner path resolved u e =
    let p = state_of owner u in
    elim (Bool-cases (is_relative path)) [
      | inr absolute ↦
          checked_path-IsPath path resolved (sym (rw (absolute, resolve_path) refl) ∙ e)
      | inl relative ↦ elim (Bool-cases (leb fd_path_length (p.cwd_length + 1 + length path))) [
        | inl long ↦ absurd (
            let bad : none ≡ some resolved = sym (rw (relative, long, resolve_path) refl) ∙ e in cc)
        | inr fits ↦
            checked_path-IsPath (directory_prefix p ++ path) resolved
              (sym (rw (relative, fits, resolve_path) refl) ∙ e)
      ]
    ]

opened-IsSoundDescriptor :
    (path : List ℕ) (flags : ℕ) (d : Descriptor)
    → IsPath path
    → IsSoundDescriptor (opened_descriptor path flags d)
opened-IsSoundDescriptor path flags d h = record {
  short = h.short;
  text = ap is_utf8 (slice_from-copy_from d.path 0 path) ∙ h.text;
}

take_descriptor-Keeps :
    (owner : Option ℕ) (path : List ℕ) (flags : ℕ) (u : Users)
    → IsPath path
    → Keeps (current_state_slot owner) u (take_descriptor owner path flags u).1
unfolding take_descriptor
take_descriptor-Keeps owner path flags u h =
    let slot = current_state_slot owner in
    elim (Option-cases (first_from (λ i. is_empty_kind (descriptor_of owner i u).kind) 0 max_fds)) [
      | inl none_left ↦ rw (none_left, take_descriptor) (Keeps-refl slot u)
      | inr (index, found) ↦
          let fits : leb fd_path_length (length path) ≡ false = ground (arith, h.short) in
          rw (found, fits, take_descriptor)
            (set_descriptor-Keeps owner index
              (opened_descriptor path flags (descriptor_of owner index u)) u
              (λ d. opened-IsSoundDescriptor path flags (descriptor_of owner index u) h))
    ]

open_path-Keeps :
    (owner : Option ℕ) (path : List ℕ) (flags : ℕ) (u : Users)
    → IsPath path
    → Keeps (current_state_slot owner) u (open_path owner path flags u).1
unfolding open_path
open_path-Keeps owner path flags u h =
    let slot = current_state_slot owner in
    elim (Bool-cases (has_open_flag flags open_directory)) [
      | inl dir ↦ elim (Bool-cases (is_directory path)) [
        | inl there ↦ rw (dir, there, open_path) (take_descriptor-Keeps owner path flags u h)
        | inr other ↦ rw (dir, other, open_path) (Keeps-refl slot u)
      ]
      | inr file ↦
          let out =
            vfs_open_file path (has_open_flag flags open_write) (has_open_flag flags open_create)
              u.vfs in
          let u' = record (u) { vfs = out.1 } in
          let k = same-Keeps slot u u' refl in
          elim (Bool-cases (is_ok out.0)) [
            | inl done ↦
                rw (file, done, open_path)
                  (Keeps-trans slot u u' _ k (take_descriptor-Keeps owner path flags u' h))
            | inr failed ↦ rw (file, failed, open_path) k
          ]
    ]

pub open_fd-Keeps :
    (owner : Option ℕ) (path : List ℕ) (flags : ℕ) (u : Users)
    → Keeps (current_state_slot owner) u (open_fd owner path flags u).1
unfolding open_fd
open_fd-Keeps owner path flags u = elim (Option-cases (resolve_path owner path u)) [
  | inl e ↦ rw (e, open_fd) (Keeps-refl (current_state_slot owner) u)
  | inr (resolved, e) ↦
      rw (e, open_fd)
        (open_path-Keeps owner resolved flags u (resolve_path-IsPath owner path resolved u e))
]
