-- ===== src/Vfs/Confinement.antt =====
-- Which files the paths of kernel-core/src/vfs.rs reach.
use open_kernel.Prelude.{
  ℕ, ◌≡◌, ◌≢◌, ◌⊎◌, ◌↔◌, ◌==◌, ==_iff, true≢false, [], ◌∷◌, inl, inr, refl, sym, ap, ◌∙◌, Bool,
  true, false, ◌||◌, none, some, has_value, List, ◌++◌, err, Bool-cases, Option-cases, arith,
}
use open_kernel.Storage.{Storage, open_file, read}
use open_kernel.Storage.Names.{names_equal}
use open_kernel.Vfs.{
  Vfs, FileSystem, Mount, read_only, invalid_path, is_bad_name, open_in, init_ram_fs, vfs_open,
  vfs_open_file, vfs_write_at,
}
use open_kernel.Vfs.Paths.{
  slash, root_path, tmp_path, tmp_name, contains, strip_prefix, strip_prefix-some,
}
use open_kernel.Vfs.Files.{IsMounted, vfs_open-in_tmp}

-- A name that is not empty and has no slash in it.
pub record IsPlain (name : List ℕ) : Type 0 where
  pub not_empty : name ≢ []
  pub no_slash : (before after : List ℕ) → name ≢ before ++ (slash ∷ after)

-- How a path can be opened: as a RAM file under /tmp, or as a file of the root.
pub data Reaches (v : Vfs) (path content : List ℕ) : Type 0 where
  in_tmp_file :
      (name : List ℕ)
      → path ≡ root_path ++ (tmp_name ++ name)
      → IsPlain name
      → read name v.storage ≡ some content
      → Reaches v path content
  in_root_file :
      (name : List ℕ)
      → path ≡ root_path ++ name
      → IsPlain name
      → open_file name v.storage ≡ some content
      → Reaches v path content

contains-middle : (before after : List ℕ) → contains slash (before ++ (slash ∷ after)) ≡ true
unfolding contains
contains-middle [] after = refl
contains-middle (c ∷ before) after = rw (contains-middle before after) (ground arith)

contains-split :
    (name : List ℕ)
    → contains slash name ≡ true
    → ((before : List ℕ) × ((after : List ℕ) × (name ≡ before ++ (slash ∷ after))))
unfolding contains
contains-split [] h = absurd cc
contains-split (c ∷ name) h = elim (Bool-cases (c == slash)) [
  | inl at ↦ ([], (name, ap (λ d. d ∷ name) ((==_iff c slash).0 at)))
  | inr other ↦
      let (before, (after, e)) = contains-split name (rw other at h) in
      (c ∷ before, (after, ap (λ l. c ∷ l) e))
]

is_bad_name-IsPlain : (name : List ℕ) → is_bad_name name ≡ false → IsPlain name
is_bad_name-IsPlain name good = record {
  not_empty = λ e. absurd (true≢false (sym (ap is_bad_name e) ∙ good));
  no_slash = λ before after e.
      let there : contains slash name ≡ true =
        ap (contains slash) e ∙ contains-middle before after in
      true≢false (sym there ∙ ground (arith, good));
}

IsPlain-is_bad_name : (name : List ℕ) → IsPlain name → is_bad_name name ≡ false
IsPlain-is_bad_name [] h = absurd (h.not_empty refl)
IsPlain-is_bad_name (c ∷ name) h = elim (Bool-cases (contains slash (c ∷ name))) [
  | inr without ↦ rw without (ground arith)
  | inl there ↦
      let (before, (after, e)) = contains-split (c ∷ name) there in
      absurd (h.no_slash before after e)
]

open_in-open_file :
    (f : FileSystem) (name : List ℕ) (st : Storage) → open_in f name st ≡ open_file name st
open_in-open_file init_ram_fs name st = refl

Reaches-vfs_open :
    (mount : Mount) (v : Vfs) (path relative content : List ℕ)
    → v.root_mount ≡ some mount
    → strip_prefix root_path path ≡ some relative
    → vfs_open path v ≡ some content
    → Reaches v path content
unfolding vfs_open
Reaches-vfs_open mount v path relative content m s e =
    let start = strip_prefix-some root_path path relative s in
    elim (Bool-cases (names_equal mount.mount_point root_path)) [
      | inr other ↦ absurd (let h : none ≡ some content = rw (s, m, other, vfs_open) at e in cc)
      | inl root ↦ elim (Option-cases (strip_prefix tmp_name relative)) [
        | inl t ↦ elim (Bool-cases (is_bad_name relative)) [
          | inl bad ↦
              absurd (let h : none ≡ some content = rw (s, m, root, t, bad, vfs_open) at e in cc)
          | inr good ↦ in_root_file relative start (is_bad_name-IsPlain relative good) (
              sym (open_in-open_file mount.file_system relative v.storage)
              ∙ (rw (s, m, root, t, good, vfs_open) at e))
        ]
        | inr (name, t) ↦ elim (Bool-cases (is_bad_name name)) [
          | inl bad ↦
              absurd (let h : none ≡ some content = rw (s, m, root, t, bad, vfs_open) at e in cc)
          | inr good ↦
              in_tmp_file name
                (start ∙ ap (λ r. root_path ++ r) (strip_prefix-some tmp_name relative name t))
                (is_bad_name-IsPlain name good) (rw (s, m, root, t, good, vfs_open) at e)
        ]
      ]
    ]

opens-Reaches :
    (path content : List ℕ) (v : Vfs) → vfs_open path v ≡ some content → Reaches v path content
unfolding vfs_open
opens-Reaches path content v e = elim (Option-cases (strip_prefix root_path path)) [
  | inl s ↦ absurd (let h : none ≡ some content = rw (s, vfs_open) at e in cc)
  | inr (relative, s) ↦ elim (Option-cases v.root_mount) [
    | inl m ↦ absurd (let h : none ≡ some content = rw (s, m, vfs_open) at e in cc)
    | inr (mount, m) ↦ Reaches-vfs_open mount v path relative content m s e
  ]
]

-- A plain name does not begin with `tmp/`.
IsPlain-strip_prefix : (name : List ℕ) → IsPlain name → strip_prefix tmp_name name ≡ none
IsPlain-strip_prefix name h = elim (Option-cases (strip_prefix tmp_name name)) [
  | inl absent ↦ absent
  | inr (rest, e) ↦
      absurd (h.no_slash (116 ∷ 109 ∷ 112 ∷ []) rest (strip_prefix-some tmp_name name rest e))
]

Reaches-opens :
    (path content : List ℕ) (v : Vfs)
    → IsMounted v
    → Reaches v path content
    → vfs_open path v ≡ some content
unfolding vfs_open strip_prefix names_equal
Reaches-opens path content v m (in_tmp_file name at plain there) =
    rw at (vfs_open-in_tmp name v m (IsPlain-is_bad_name name plain) ∙ there)
Reaches-opens path content v m (in_root_file name at plain there) =
    rw at (rw (m, IsPlain-strip_prefix name plain, IsPlain-is_bad_name name plain) there)

-- With the file system of the kernel at the root, a path opens exactly if it is a slash and a plain
-- name, which is not empty and has no slash in it, of a file of the root, or /tmp/ and a plain name of
-- a RAM file; and it opens with the content of that file.
pub vfs_open-Reaches :
    (path content : List ℕ) (v : Vfs)
    → IsMounted v
    → (vfs_open path v ≡ some content) ↔ Reaches v path content
vfs_open-Reaches path content v m = (opens-Reaches path content v, Reaches-opens path content v m)

-- Outside /tmp nothing is changed: there a write is refused, and so is an opening for writing or
-- creation.
pub outside_tmp_is_read_only :
    (path content : List ℕ) (offset : ℕ) (writable may_create : Bool) (v : Vfs)
    → strip_prefix (root_path ++ tmp_name) path ≡ none
    → (vfs_write_at path offset content v ≡ (err read_only, v))
      × ((vfs_open_file path writable may_create v).1 ≡ v)
      × ((writable || may_create) ≡ true
          → ((vfs_open_file path writable may_create v).0 ≡ err read_only)
            ⊎ ((vfs_open_file path writable may_create v).0 ≡ err invalid_path))
unfolding vfs_write_at vfs_open_file
outside_tmp_is_read_only path content offset writable may_create v e =
    elim (Bool-cases (names_equal path root_path || names_equal path tmp_path)) [
      | inl dir ↦ rw (e, dir, vfs_open_file, vfs_write_at) (refl, refl, λ h. inr refl)
      | inr file ↦ elim (Bool-cases (writable || may_create)) [
        | inl w ↦ rw (e, file, w, vfs_open_file, vfs_write_at) (refl, refl, λ h. inl refl)
        | inr w ↦ rw (e, file, w, vfs_open_file, vfs_write_at) (refl, refl, λ h. absurd cc)
      ]
    ]

-- Without the flag to create, opening changes nothing, whatever the path.
pub vfs_open_file-keeps :
    (path : List ℕ) (writable : Bool) (v : Vfs) → (vfs_open_file path writable false v).1 ≡ v
unfolding vfs_open_file
vfs_open_file-keeps path writable v =
    elim (Bool-cases (names_equal path root_path || names_equal path tmp_path)) [
      | inl dir ↦ rw dir refl
      | inr file ↦ elim (Option-cases (strip_prefix (root_path ++ tmp_name) path)) [
        | inl out ↦ ground arith
        | inr (name, inside) ↦ elim (Bool-cases (is_bad_name name)) [
          | inl bad ↦ rw (file, inside, bad, vfs_open_file) refl
          | inr good ↦ elim (Bool-cases (has_value (read name v.storage))) [
            | inl there ↦ rw (file, inside, good, there, vfs_open_file) refl
            | inr absent ↦ rw (file, inside, good, absent, vfs_open_file) refl
          ]
        ]
      ]
    ]
