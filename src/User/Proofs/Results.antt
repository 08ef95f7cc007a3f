-- ===== src/User/Proofs/Results.antt =====
-- What the calls of kernel-core/src/user.rs on descriptors return.
use open_kernel.Prelude.{
  ℕ, zero, suc, ◌+◌, ◌-◌, ◌^◌, ◌≤◌, ◌<◌, ◌≡◌, inl, refl, ap, ap₂, ◌∙◌, true, false, min, Option,
  some, List, [], ◌∷◌, ◌++◌, length, length-append, take, drop, slice_from, slice, copy_from,
  copy_from_outside, update, update_self, ok, arith,
}
use open_kernel.Storage.{max_ram_file_size}
use open_kernel.Storage.Slices.{overwrite, drop-overwrite}
use open_kernel.Storage.Spec.{is_valid_name}
use open_kernel.Storage.Invariant.{IsSound}
use open_kernel.Vfs.{vfs_open, vfs_write_at, is_bad_name}
use open_kernel.Vfs.Files.{IsMounted, Shows, in_tmp, vfs_write_at-in_tmp}
use open_kernel.User.{
  file_kind, is_empty_kind, Descriptor, Users, path_of, descriptor_of, set_descriptor, state_of,
  current_state_slot,
}
use open_kernel.User.Utf8.{is_utf8}
use open_kernel.User.Files.{
  fd_index, advance, write_file, write_fd, seek_position, seek_base, seek_descriptor, seek_fd,
  read_file, read_at, read_fd,
}

-- A descriptor that was set is found.
descriptor-set :
    (owner : Option ℕ) (index : ℕ) (d : Descriptor) (u : Users)
    → descriptor_of owner index (set_descriptor owner index d u) ≡ d
descriptor-set owner index d u =
    ap (λ p. p.descriptors index) (update_self u.states (current_state_slot owner) _)
    ∙ update_self (state_of owner u).descriptors index d

take-prefix :
    (n : ℕ) (xs rest : List ℕ)
    → length xs ≤ n
    → take n (xs ++ rest) ≡ xs ++ take (n - length xs) rest
take-prefix n [] rest h = ap (λ k. take k rest) (omega arith)
take-prefix zero (x ∷ xs) rest h = absurd (omega arith)
take-prefix (suc n) (x ∷ xs) rest h =
    ap (λ l. x ∷ l)
      (take-prefix n xs rest (omega arith) ∙ ap (λ k. xs ++ take k rest) (omega arith))

slice-copy_prefix :
    (a : ℕ → ℕ) (i : ℕ) (xs rest : List ℕ)
    → slice_from (copy_from a i (xs ++ rest)) i (length xs) ≡ xs
unfolding slice_from copy_from
slice-copy_prefix a i [] rest = refl
slice-copy_prefix a i (x ∷ xs) rest =
    ap₂ ◌∷◌
      (copy_from_outside (update a i x) (i + 1) (xs ++ rest) i (inl (omega arith)) ∙ ground arith)
      (slice-copy_prefix (update a i x) (i + 1) xs rest)

-- A file of /tmp that is open for writing, and has a content.
pub record IsOpenFile (owner : Option ℕ) (fd index : ℕ) (name content : List ℕ) (u : Users)
    : Type 0 where
  pub number : fd_index fd ≡ some index
  pub kind : (descriptor_of owner index u).kind ≡ file_kind
  pub writes : (descriptor_of owner index u).writable ≡ true
  pub text : is_utf8 (path_of (descriptor_of owner index u)) ≡ true
  pub path : path_of (descriptor_of owner index u) ≡ in_tmp name
  pub good : is_bad_name name ≡ false
  pub valid : is_valid_name name ≡ true
  pub is_mounted : IsMounted u.vfs
  pub sound : IsSound u.vfs.storage
  pub there : vfs_open (in_tmp name) u.vfs ≡ some content

-- What a write leaves.
wrote :
    (owner : Option ℕ) (fd index : ℕ) (name old input : List ℕ) (u : Users)
    → IsOpenFile owner fd index name old u
    → let d = descriptor_of owner index u in
      let (result, vfs) = vfs_write_at (path_of d) d.position input u.vfs in
      result ≡ ok tt
      → write_fd owner fd input u
        ≡ (length input, advance owner index (length input) (record (u) { vfs = vfs }))
unfolding write_fd write_file
wrote owner fd index name old input u h e =
    rw (h.number, write_fd, write_file) (rw (h.kind, h.writes, h.text, e) refl)

seek_from_start : (position : ℕ) → position < 2 ^ 63 → seek_position 0 position ≡ some position
unfolding seek_position
seek_from_start position h = ground (arith, h)

-- Seeking to a place under 2^63.
sought :
    (owner : Option ℕ) (fd index position : ℕ) (u : Users)
    → fd_index fd ≡ some index
    → (descriptor_of owner index u).kind ≡ file_kind
    → position < 2 ^ 63
    → seek_fd owner fd position 0 u ≡ (
      position,
      set_descriptor owner index (record (descriptor_of owner index u) { position = position }) u,
    )
unfolding seek_fd seek_descriptor seek_base
sought owner fd index position u number kind small =
    let to : seek_position 0 position ≡ some position = seek_from_start position small in
    let used : is_empty_kind (descriptor_of owner index u).kind ≡ false = rw kind refl in
    rw (number, used, seek_fd) (rw (to, seek_descriptor) refl)

-- Reading a file whose content from the position on begins with `xs`.
reads :
    (owner : Option ℕ) (fd index room : ℕ) (output : ℕ → ℕ) (content xs rest : List ℕ) (u : Users)
    → fd_index fd ≡ some index
    → (descriptor_of owner index u).kind ≡ file_kind
    → is_utf8 (path_of (descriptor_of owner index u)) ≡ true
    → vfs_open (path_of (descriptor_of owner index u)) u.vfs ≡ some content
    → drop (descriptor_of owner index u).position content ≡ xs ++ rest
    → length xs ≤ room
    → slice (read_fd owner fd room output u).1 (length xs) ≡ xs
unfolding read_fd read_at read_file
reads owner fd index room output content xs rest u number kind text there from fits =
    let longer : length xs ≤ min (length (xs ++ rest)) room =
      omega (arith, length-append xs rest) in
    rw (number, read_fd)
      (rw (text, kind, read_at)
        (rw (there, from, read_file)
          (rw (take-prefix (min (length (xs ++ rest)) room) xs rest longer)
            (slice-copy_prefix output 0 xs _))))

-- A file of /tmp that is open for writing gives back what is written to it: after a write that fits
-- into a RAM file, seeking to where it began and reading into a buffer that is large enough puts the
-- written bytes at the front of the buffer; write and seek return the count and the position.
pub read_fd-write_fd :
    (owner : Option ℕ) (fd index room : ℕ) (name old input : List ℕ) (output : ℕ → ℕ) (u : Users)
    → IsOpenFile owner fd index name old u
    → (descriptor_of owner index u).position + length input ≤ max_ram_file_size
    → length input ≤ room
    → let start = (descriptor_of owner index u).position in
      let (count, u') = write_fd owner fd input u in
      let (position, u'') = seek_fd owner fd start 0 u' in
      (count ≡ length input)
      × (position ≡ start)
      × (slice (read_fd owner fd room output u'').1 (length input) ≡ input)
read_fd-write_fd owner fd index room name old input output u h fits large =
    let d = descriptor_of owner index u in
    let n = length input in
    let vfs = (vfs_write_at (path_of d) d.position input u.vfs).1 in
    let u1 = advance owner index n (record (u) { vfs = vfs }) in
    let d1 : Descriptor = record (d) { position = d.position + n } in
    let set1 : descriptor_of owner index u1 ≡ d1 =
      descriptor-set owner index d1 (record (u) { vfs = vfs }) in
    let d2 : Descriptor = record (descriptor_of owner index u1) { position = d.position } in
    let u2 = set_descriptor owner index d2 u1 in
    let set2 : descriptor_of owner index u2 ≡ d =
      descriptor-set owner index d2 u1
      ∙ ap (λ (x : Descriptor). record (x) { position = d.position }) set1 in
    let stored : ((vfs_write_at (path_of d) d.position input u.vfs).0 ≡ ok tt)
        × Shows u.vfs vfs name (overwrite d.position input old) =
      rw h.path (
        vfs_write_at-in_tmp name input old d.position u.vfs h.is_mounted h.sound h.good h.valid
          h.there fits) in
    let first = wrote owner fd index name old input u h stored.0 in
    let second =
      sought owner fd index d.position u1 h.number (rw set1 h.kind) (omega (arith, fits)) in
    rw (first, second)
      (
        refl,
        refl,
        reads owner fd index room output (overwrite d.position input old) input
            (drop (d.position + n) old) u2 h.number (rw set2 h.kind) (rw set2 h.text)
            (ap (λ p. vfs_open p vfs) (ap path_of set2 ∙ h.path) ∙ stored.1.new)
            (rw set2 (drop-overwrite d.position input old)) large,
      )
