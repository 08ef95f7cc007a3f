-- ===== src/User/Proofs/Refused.antt =====
-- The calls of kernel-core/src/user.rs on a number that is no open descriptor.
use open_kernel.Prelude.{
  ℕ, ◌≡◌, inl, inr, refl, sym, ◌∙◌, Bool, true, false, true≢false, not, ltb, Option, none, some,
  Option-cases, Bool-cases, List,
}
use open_kernel.User.{
  u64_max, DescriptorKind, directory_kind, file_kind, empty_kind, is_empty_kind, Users, path_of,
  descriptor_of,
}
use open_kernel.User.Utf8.{is_utf8}
use open_kernel.User.Files.{
  fd_index, write_file, write_fd, seek_fd, read_at, read_fd, close_fd, stat_fd,
}

-- The number is that of a descriptor that is not empty.
unfoldable pub is_open : Option ℕ → ℕ → Users → Bool
is_open owner fd u = elim (fd_index fd) [
  | none ↦ false
  | some index ↦ not (is_empty_kind (descriptor_of owner index u).kind)
]

-- What it is to be refused.
pub record Refused (owner : Option ℕ) (fd : ℕ) (output : ℕ → ℕ) (u : Users) : Type 0 where
  pub reading : (room : ℕ) → read_fd owner fd room output u ≡ (u64_max, output, u)
  pub writing : (input : List ℕ) → write_fd owner fd input u ≡ (u64_max, u)
  pub closing : close_fd owner fd u ≡ (u64_max, u)
  pub seeking : (offset whence : ℕ) → seek_fd owner fd offset whence u ≡ (u64_max, u)
  pub asking : (room : ℕ) → stat_fd owner fd room output u ≡ (u64_max, output)

out_of_range :
    (owner : Option ℕ) (fd : ℕ) (output : ℕ → ℕ) (u : Users)
    → fd_index fd ≡ none
    → Refused owner fd output u
unfolding read_fd write_fd close_fd seek_fd stat_fd
out_of_range owner fd output u e = record {
  reading = λ room. rw (e, read_fd) refl;
  writing = λ input. rw (e, write_fd) refl;
  closing = rw (e, close_fd) refl;
  seeking = λ offset whence. rw (e, seek_fd) refl;
  asking = λ room. elim (Bool-cases (ltb room 16)) [
    | inl small ↦ rw (small, stat_fd) refl
    | inr large ↦ rw (large, e, stat_fd) refl
  ];
}

is_empty : (k : DescriptorKind) → is_empty_kind k ≡ true → k ≡ empty_kind
is_empty empty_kind e = refl
is_empty file_kind e = cc
is_empty directory_kind e = cc

not_open :
    (owner : Option ℕ) (fd index : ℕ) (output : ℕ → ℕ) (u : Users)
    → fd_index fd ≡ some index
    → (descriptor_of owner index u).kind ≡ empty_kind
    → Refused owner fd output u
unfolding read_fd read_at write_fd write_file close_fd seek_fd stat_fd
not_open owner fd index output u e k = record {
  reading = λ room. elim (Bool-cases (is_utf8 (path_of (descriptor_of owner index u)))) [
    | inl text ↦ rw (e, read_fd) (rw (text, k, read_at) refl)
    | inr other ↦ rw (e, read_fd) (rw (other, read_at) refl)
  ];
  writing = λ input. rw (e, write_fd) (rw (k, write_file) refl);
  closing = rw (e, close_fd) (rw k refl);
  seeking = λ offset whence. rw (e, seek_fd) (rw k refl);
  asking = λ room. elim (Bool-cases (ltb room 16)) [
    | inl small ↦ rw (small, stat_fd) refl
    | inr large ↦
        let free : is_empty_kind (descriptor_of owner index u).kind ≡ true = rw k refl in
        elim (Bool-cases (is_utf8 (path_of (descriptor_of owner index u)))) [
          | inl text ↦ rw (large, e, stat_fd) (rw (text, free) refl)
          | inr other ↦ rw (large, e, stat_fd) (rw other refl)
        ]
  ];
}

-- A number that is no open descriptor of the process is refused by every call: reading, writing,
-- closing, seeking and asking for the status return `u64::MAX`, and change neither the buffer nor
-- anything that the kernel keeps.
pub not_open-Refused :
    (owner : Option ℕ) (fd : ℕ) (output : ℕ → ℕ) (u : Users)
    → is_open owner fd u ≡ false
    → Refused owner fd output u
unfolding is_open
not_open-Refused owner fd output u h = elim (Option-cases (fd_index fd)) [
  | inl e ↦ out_of_range owner fd output u e
  | inr (index, e) ↦ elim (Bool-cases (is_empty_kind (descriptor_of owner index u).kind)) [
    | inl free ↦
        not_open owner fd index output u e (is_empty (descriptor_of owner index u).kind free)
    | inr used ↦ absurd (true≢false (sym (rw (e, used, is_open) refl) ∙ h))
  ]
]
