-- ===== src/Vfs/Files.antt =====
-- What opening and writing a path of kernel-core/src/vfs.rs do to the files under /tmp.
use open_kernel.Prelude.{
  ℕ, ◌+◌, ◌≤◌, ◌≡◌, ◌≢◌, inl, inr, refl, sym, ap, ◌∙◌, Bool, true, false, ◌||◌, none, some, List,
  [], ◌++◌, length, Result, ok, err, Bool-cases, arith,
}
use open_kernel.Storage.{Storage, RamFsError, read, create, write_at, max_ram_file_size}
use open_kernel.Storage.Names.{names_equal, names_equal_iff}
use open_kernel.Storage.Slices.{overwrite}
use open_kernel.Storage.Spec.{FileMap, view, bind, is_valid_name}
use open_kernel.Storage.View.{Out}
use open_kernel.Storage.Invariant.{IsSound}
use open_kernel.Storage.Create.{create_refines, is_full}
use open_kernel.Storage.Write.{write_at_refines}
use open_kernel.Vfs.{Vfs, init_ram_fs, is_bad_name, vfs_open, vfs_open_file, vfs_write_at, mapped}
use open_kernel.Vfs.Paths.{root_path, tmp_path, tmp_name, strip_prefix}

-- The path of a file under /tmp.
abbrev pub in_tmp : List ℕ → List ℕ
in_tmp name = (root_path ++ tmp_name) ++ name

-- The state after `mount_initramfs`.
abbrev pub IsMounted : Vfs → Type 0
IsMounted v = v.root_mount ≡ some (record { mount_point = root_path; file_system = init_ram_fs })

-- A file under /tmp is the RAM file of that name.
pub vfs_open-in_tmp :
    (name : List ℕ) (v : Vfs)
    → IsMounted v
    → is_bad_name name ≡ false
    → vfs_open (in_tmp name) v ≡ read name v.storage
unfolding vfs_open strip_prefix names_equal
vfs_open-in_tmp name v m good = rw (m, vfs_open) (rw (good, vfs_open) refl)

differs : (other name : List ℕ) → other ≢ name → names_equal other name ≡ false
differs other name ne = elim (Bool-cases (names_equal other name)) [
  | inl same ↦ absurd (ne ((names_equal_iff other name).0 same))
  | inr new ↦ new
]

-- What a change of the files shows through the paths.
pub record Shows (v v' : Vfs) (name content : List ℕ) : Type 0 where
  pub new : vfs_open (in_tmp name) v' ≡ some content
  pub others :
      (other : List ℕ)
      → other ≢ name
      → is_bad_name other ≡ false
      → vfs_open (in_tmp other) v' ≡ vfs_open (in_tmp other) v

Shows-bind :
    (v : Vfs) (st : Storage) (name content : List ℕ)
    → IsMounted v
    → is_bad_name name ≡ false
    → view st ≡ bind name (some content) (view v.storage)
    → Shows v (record v { storage = st }) name content
Shows-bind v st name content m good e = record {
  new =
      vfs_open-in_tmp name (record v { storage = st }) m good
      ∙ ap (λ (f : FileMap). f name) e
      ∙ rw ((names_equal_iff name name).1 refl) refl;
  others = λ other ne fine.
      vfs_open-in_tmp other (record v { storage = st }) m fine
      ∙ ap (λ (f : FileMap). f other) e
      ∙ rw (differs other name ne) refl
      ∙ sym (vfs_open-in_tmp other v m fine);
}

Shows-mapped :
    (v : Vfs) (out : Result RamFsError (Unit {0}) × Storage) (name content : List ℕ)
    → IsMounted v
    → is_bad_name name ≡ false
    → ◌≡◌ {A = Out × FileMap} (out.0, view out.1) (ok tt, bind name (some content) (view v.storage))
    → ((mapped v out).0 ≡ ok tt) × Shows v (mapped v out).1 name content
Shows-mapped v (ok u, st) name content m good e =
    (refl, Shows-bind v st name content m good (ap (λ (o : Out × FileMap). o.1) e))
Shows-mapped v (err r, st) name content m good e =
    let ended : err r ≡ ok tt = ap (λ (o : Out × FileMap). o.0) e in absurd cc

-- Writing to a file of /tmp that exists, within the size of a RAM file, succeeds: opening the path
-- then gives the old content overwritten from the offset on, and no other file of /tmp changes.
pub vfs_write_at-in_tmp :
    (name content old : List ℕ) (offset : ℕ) (v : Vfs)
    → IsMounted v
    → IsSound v.storage
    → is_bad_name name ≡ false
    → is_valid_name name ≡ true
    → vfs_open (in_tmp name) v ≡ some old
    → offset + length content ≤ max_ram_file_size
    → let (result, v') = vfs_write_at (in_tmp name) offset content v in
      (result ≡ ok tt) × Shows v v' name (overwrite offset content old)
unfolding vfs_write_at strip_prefix
vfs_write_at-in_tmp name content old offset v m s good valid e fits =
    let there : read name v.storage ≡ some old = sym (vfs_open-in_tmp name v m good) ∙ e in
    let spec = write_at_refines name offset content v.storage s in
    Shows-mapped v (write_at name offset content v.storage) name (overwrite offset content old) m
      good (spec ∙ rw (valid, there) (ground (arith, fits)))

is_no_directory :
    (name : List ℕ)
    → (names_equal (in_tmp name) root_path || names_equal (in_tmp name) tmp_path) ≡ false
is_no_directory name =
    rw
      (
        differs (in_tmp name) root_path (λ e. absurd cc),
        differs (in_tmp name) tmp_path (λ e. absurd cc),
      )
      refl

-- Opening a path of /tmp for creation, where there is no such file and an entry is free, makes an
-- empty file and changes no other file of /tmp.
pub vfs_open_file-creates :
    (name : List ℕ) (writable : Bool) (v : Vfs)
    → IsMounted v
    → is_bad_name name ≡ false
    → is_valid_name name ≡ true
    → vfs_open (in_tmp name) v ≡ none
    → is_full v.storage ≡ false
    → let (result, v') = vfs_open_file (in_tmp name) writable true v in
      (result ≡ ok tt) × Shows v v' name []
unfolding vfs_open_file strip_prefix
vfs_open_file-creates name writable v m good valid e room =
    let missing : read name v.storage ≡ none = sym (vfs_open-in_tmp name v m good) ∙ e in
    let spec = create_refines name v.storage in
    rw (is_no_directory name, good, missing, vfs_open_file)
      (Shows-mapped v (create name v.storage) name [] m good
        (spec ∙ rw (valid, missing, room) refl))
