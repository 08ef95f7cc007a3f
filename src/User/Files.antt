-- ===== src/User/Files.antt =====
-- The file descriptors of kernel-core/src/user.rs.
use open_kernel.Prelude.{
  ℕ, ◌+◌, ◌-◌, ◌/◌, ◌%◌, ◌^◌, min, Bool, true, false, not, ◌&&◌, ◌||◌, if◌then◌else◌, ◌==◌, ltb,
  leb, Option, none, some, List, [], ◌∷◌, length, take, drop, update, copy_from, first_from, Result,
  ok, err, bit_and,
}
use open_kernel.Vfs.{Vfs, vfs_open, vfs_open_file, vfs_write_at, directory_entry, is_directory}
use open_kernel.User.{
  u64_max, max_fds, fd_path_length, Descriptor, DescriptorKind, empty_kind, file_kind,
  directory_kind, is_empty_kind, is_file_kind, empty_descriptor, Users, descriptor_of,
  set_descriptor, path_of, resolve_path,
}
use open_kernel.User.Utf8.{is_utf8}

abbrev pub open_write : ℕ
open_write = 1

abbrev pub open_create : ℕ
open_create = 2

abbrev pub open_directory : ℕ
open_directory = 4

abbrev pub has_open_flag : ℕ → ℕ → Bool
has_open_flag flags flag = not (bit_and flags flag == 0)

-- The descriptor that `open` leaves in the entry that it takes.
abbrev pub opened_descriptor : List ℕ → ℕ → Descriptor → Descriptor
opened_descriptor path flags d = record {
  kind = if has_open_flag flags open_directory then directory_kind else file_kind;
  path = copy_from d.path 0 path;
  path_length = length path;
  position = 0;
  writable = has_open_flag flags open_write;
}

-- The loop of `open` over the descriptors, of which it takes the first empty one.
unfoldable pub take_descriptor : Option ℕ → List ℕ → ℕ → Users → ℕ × Users
take_descriptor owner path flags u =
    elim (first_from (λ i. is_empty_kind (descriptor_of owner i u).kind) 0 max_fds) [
      | none ↦ (u64_max, u)
      | some index ↦ if leb fd_path_length (length path) then (u64_max, u) else (
        index + 3,
        set_descriptor owner index (opened_descriptor path flags (descriptor_of owner index u)) u,
      )
    ]

abbrev pub is_ok : {A B : Type 0} → Result A B → Bool
is_ok (ok _) = true
is_ok (err _) = false

unfoldable pub open_path : Option ℕ → List ℕ → ℕ → Users → ℕ × Users
open_path owner path flags u =
    if has_open_flag flags open_directory
    then (if is_directory path then take_descriptor owner path flags u else (u64_max, u))
    else (let (result, vfs) =
          vfs_open_file path (has_open_flag flags open_write) (has_open_flag flags open_create)
            u.vfs in
        let u' = record (u) { vfs = vfs } in
        if is_ok result then take_descriptor owner path flags u' else (u64_max, u'))

unfoldable pub open_fd : Option ℕ → List ℕ → ℕ → Users → ℕ × Users
open_fd owner path flags u = elim (resolve_path owner path u) [
  | none ↦ (u64_max, u)
  | some resolved ↦ open_path owner resolved flags u
]

-- `fd.checked_sub(3)...filter(|index| *index < MAX_FDS)`
unfoldable pub fd_index : ℕ → Option ℕ
fd_index fd = if ltb fd 3 || leb max_fds (fd - 3) then none else some (fd - 3)

-- `descriptor.position += n`
abbrev pub advance : Option ℕ → ℕ → ℕ → Users → Users
advance owner index n u =
    let d = descriptor_of owner index u in
    set_descriptor owner index (record (d) { position = d.position + n }) u

unfoldable pub read_file : Option ℕ → ℕ → ℕ → (ℕ → ℕ) → Users → ℕ × (ℕ → ℕ) × Users
read_file owner index room output u =
    let d = descriptor_of owner index u in
    elim (vfs_open (path_of d) u.vfs) [
      | none ↦ (u64_max, output, u)
      | some content ↦
          let remaining = drop d.position content in
          let count = min (length remaining) room in
          (count, copy_from output 0 (take count remaining), advance owner index count u)
    ]

unfoldable pub read_directory : Option ℕ → ℕ → ℕ → (ℕ → ℕ) → Users → ℕ × (ℕ → ℕ) × Users
read_directory owner index room output u =
    let d = descriptor_of owner index u in
    if ltb room 2
    then (u64_max, output, u)
    else elim (directory_entry (path_of d) d.position (room - 1) u.vfs) [
      | none ↦ (0, output, u)
      | some name ↦ (
        length name + 1,
        update (copy_from output 0 name) (length name) 0,
        advance owner index 1 u,
      )
    ]

unfoldable pub read_at : Option ℕ → ℕ → ℕ → (ℕ → ℕ) → Users → ℕ × (ℕ → ℕ) × Users
read_at owner index room output u =
    if not (is_utf8 (path_of (descriptor_of owner index u)))
    then (u64_max, output, u)
    else elim (descriptor_of owner index u).kind [
      | empty_kind ↦ (u64_max, output, u)
      | file_kind ↦ read_file owner index room output u
      | directory_kind ↦ read_directory owner index room output u
    ]

unfoldable pub read_fd : Option ℕ → ℕ → ℕ → (ℕ → ℕ) → Users → ℕ × (ℕ → ℕ) × Users
read_fd owner fd room output u = elim (fd_index fd) [
  | none ↦ (u64_max, output, u)
  | some index ↦ read_at owner index room output u
]

unfoldable pub write_file : Option ℕ → ℕ → List ℕ → Users → ℕ × Users
write_file owner index input u =
    let d = descriptor_of owner index u in
    let (result, vfs) = vfs_write_at (path_of d) d.position input u.vfs in
    let u' = record (u) { vfs = vfs } in
    if not (is_file_kind d.kind) || not d.writable
    then (u64_max, u)
    else if not (is_utf8 (path_of d))
    then (u64_max, u)
    else if is_ok result
    then (length input, advance owner index (length input) u')
    else (u64_max, u')

unfoldable pub write_fd : Option ℕ → ℕ → List ℕ → Users → ℕ × Users
write_fd owner fd input u = elim (fd_index fd) [
  | none ↦ (u64_max, u)
  | some index ↦ write_file owner index input u
]

unfoldable pub close_fd : Option ℕ → ℕ → Users → ℕ × Users
close_fd owner fd u = elim (fd_index fd) [
  | none ↦ (u64_max, u)
  | some index ↦
      if is_empty_kind (descriptor_of owner index u).kind
      then (u64_max, u)
      else (0, set_descriptor owner index empty_descriptor u)
]

-- `for byte in 0..8 { output[8 + byte] = (size >> (byte * 8)) as u8; }`
abbrev pub size_bytes : ℕ → List ℕ
size_bytes n =
    n % 256
    ∷ n / 2 ^ 8 % 256
    ∷ n / 2 ^ 16 % 256
    ∷ n / 2 ^ 24 % 256
    ∷ n / 2 ^ 32 % 256
    ∷ n / 2 ^ 40 % 256
    ∷ n / 2 ^ 48 % 256
    ∷ n / 2 ^ 56 % 256
    ∷ []

-- `vfs_open(path).map_or(0, |file| file.len())`
abbrev pub file_size : Option (List ℕ) → ℕ
file_size none = 0
file_size (some content) = length content

abbrev pub kind_number : DescriptorKind → ℕ
kind_number file_kind = 1
kind_number directory_kind = 2
kind_number empty_kind = 0

unfoldable pub stat_fd : Option ℕ → ℕ → ℕ → (ℕ → ℕ) → Users → ℕ × (ℕ → ℕ)
stat_fd owner fd room output u = if ltb room 16 then (u64_max, output) else elim (fd_index fd) [
  | none ↦ (u64_max, output)
  | some index ↦
      let d = descriptor_of owner index u in
      let size = if is_file_kind d.kind then file_size (vfs_open (path_of d) u.vfs) else 0 in
      if not (is_utf8 (path_of d)) || is_empty_kind d.kind then (u64_max, output) else (
        0,
        copy_from (update (update output 0 (kind_number d.kind)) 1 (if d.writable then 0 else 1)) 8
            (size_bytes size),
      )
]

-- `base.checked_add(offset).filter(|position| *position >= 0)` on `i64`, whose values are given as
-- the words of 64 bits that represent them.
abbrev pub is_negative : ℕ → Bool
is_negative w = leb (2 ^ 63) w

unfoldable pub seek_position : ℕ → ℕ → Option ℕ
seek_position base offset =
    if is_negative base
    then (if is_negative offset || ltb offset (2 ^ 64 - base)
        then none
        else some (offset - (2 ^ 64 - base)))
    else if is_negative offset
    then (if ltb base (2 ^ 64 - offset) then none else some (base - (2 ^ 64 - offset)))
    else if is_negative (base + offset)
    then none
    else some (base + offset)

-- `match whence`; `as i64` keeps the word.
unfoldable pub seek_base : Descriptor → ℕ → Vfs → Option ℕ
seek_base d whence vfs =
    if whence == 0
    then some 0
    else if whence == 1
    then some d.position
    else if whence == 2 && is_file_kind d.kind
    then (if is_utf8 (path_of d) then some (file_size (vfs_open (path_of d) vfs)) else none)
    else none

unfoldable pub seek_descriptor : Option ℕ → ℕ → ℕ → ℕ → Users → ℕ × Users
seek_descriptor owner index offset whence u =
    let d = descriptor_of owner index u in
    elim (seek_base d whence u.vfs) [
      | none ↦ (u64_max, u)
      | some base ↦ elim (seek_position base offset) [
        | none ↦ (u64_max, u)
        | some position ↦
            (position, set_descriptor owner index (record (d) { position = position }) u)
      ]
    ]

unfoldable pub seek_fd : Option ℕ → ℕ → ℕ → ℕ → Users → ℕ × Users
seek_fd owner fd offset whence u = elim (fd_index fd) [
  | none ↦ (u64_max, u)
  | some index ↦
      if is_empty_kind (descriptor_of owner index u).kind
      then (u64_max, u)
      else seek_descriptor owner index offset whence u
]
