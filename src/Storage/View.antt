-- ===== src/Storage/View.antt =====
-- How the map that the RAM files stand for depends on one entry (kernel-core/src/storage.rs).
use open_kernel.Prelude.{
  ℕ, ◌<◌, ◌≡◌, ◌≢◌, inl, inr, sym, ◌∙◌, ap, fun_ext, true, false, true≢false, Option, none, some,
  List, update, update_self, update_other, first_from-IsFirst, first_from-none, first_from-congr,
  first_from_finds, Result, ok, err, arith, Option-cases, Bool-cases, ℕ_discrete,
}
use open_kernel.Storage.{
  Storage, RamFile, RamFsError, name_too_long, max_ram_files, is_named, find_ram_file, content_of,
  read, validate_name,
}
use open_kernel.Storage.Names.{names_equal, names_equal_iff}
use open_kernel.Storage.Steps.{name_of, put, is_named_iff}
use open_kernel.Storage.Spec.{FileMap, view, bind, is_valid_name}

pub read_found :
    (name : List ℕ) (st : Storage) (slot : ℕ)
    → find_ram_file name st.ram_files ≡ some slot
    → read name st ≡ some (content_of (st.ram_files slot))
unfolding read
read_found name st slot e = rw (e, read)

pub read_absent :
    (name : List ℕ) (st : Storage) → find_ram_file name st.ram_files ≡ none → read name st ≡ none
unfolding read
read_absent name st e = rw (e, read)

pub find_ram_file-congr :
    (name : List ℕ) (r r' : ℕ → RamFile)
    → ((i : ℕ) → is_named (r i) name ≡ is_named (r' i) name)
    → find_ram_file name r ≡ find_ram_file name r'
unfolding find_ram_file
find_ram_file-congr name r r' h =
    first_from-congr (λ i. is_named (r i) name) (λ i. is_named (r' i) name) 0 max_ram_files
      (λ j lo hi. h j)

-- A rewritten entry that has a name, or has it not, as before leaves the search as it was.
pub find-put :
    (st : Storage) (slot : ℕ) (f : RamFile) (name : List ℕ)
    → is_named f name ≡ is_named (st.ram_files slot) name
    → find_ram_file name (put slot f st).ram_files ≡ find_ram_file name st.ram_files
find-put st slot f name h = find_ram_file-congr name (put slot f st).ram_files st.ram_files λ i.
    elim (ℕ_discrete i slot) [
      | yes e ↦ rw (e, update_self st.ram_files slot f) h
      | no ne ↦ ap (λ g. is_named g name) (update_other st.ram_files slot f i ne)
    ]

pub find-is_named :
    (name : List ℕ) (ram : ℕ → RamFile) (i : ℕ)
    → find_ram_file name ram ≡ some i
    → is_named (ram i) name ≡ true
unfolding find_ram_file
find-is_named name ram i e =
    (first_from-IsFirst (λ j. is_named (ram j) name) 0 max_ram_files i e).passes

-- An entry rewritten: what any other name reads, if neither the old nor the new entry has it.
pub read-put_other :
    (st : Storage) (slot : ℕ) (f : RamFile) (other : List ℕ)
    → is_named (st.ram_files slot) other ≡ false
    → is_named f other ≡ false
    → read other (put slot f st) ≡ read other st
read-put_other st slot f other old new = elim (Option-cases (find_ram_file other st.ram_files)) [
  | inl e ↦ read_absent other (put slot f st) (same ∙ e) ∙ sym (read_absent other st e)
  | inr (i, e) ↦
      read_found other (put slot f st) i (same ∙ e)
      ∙ ap (λ g. some (content_of g)) (update_other st.ram_files slot f i (elsewhere i e))
      ∙ sym (read_found other st i e)
]
  where
    same : find_ram_file other (put slot f st).ram_files ≡ find_ram_file other st.ram_files
    same = find-put st slot f other (new ∙ sym old)

    elsewhere : (i : ℕ) → find_ram_file other st.ram_files ≡ some i → i ≢ slot
    elsewhere i e = λ at. true≢false (sym (find-is_named other st.ram_files i e) ∙ rw at old)

-- A name is not that of an entry with another name.
pub is_named_other : (f : RamFile) (other : List ℕ) → name_of f ≢ other → is_named f other ≡ false
is_named_other f other ne = elim (Bool-cases (is_named f other)) [
  | inl e ↦ absurd (ne (is_named_iff f other e).1)
  | inr e ↦ e
]

pub is_named_free : (f : RamFile) (other : List ℕ) → f.used ≡ false → is_named f other ≡ false
is_named_free f other e = rw e

pub names_differ_of : (other name : List ℕ) → names_equal other name ≡ false → name ≢ other
names_differ_of other name e same = true≢false (sym ((names_equal_iff other name).1 (sym same)) ∙ e)

-- The view after one entry is rewritten: the name of the new entry changes, the others do not.
pub view-put :
    (st : Storage) (slot : ℕ) (f : RamFile) (name : List ℕ) (content : Option (List ℕ))
    → read name (put slot f st) ≡ content
    → ((other : List ℕ)
        → name ≢ other
        → (is_named (st.ram_files slot) other ≡ false) × (is_named f other ≡ false))
    → view (put slot f st) ≡ bind name content (view st)
view-put st slot f name content new others = fun_ext λ other.
    elim (Bool-cases (names_equal other name)) [
      | inl e ↦ rw (e, (names_equal_iff other name).0 e) new
      | inr e ↦
          let apart = others other (names_differ_of other name e) in
          rw e (read-put_other st slot f other apart.0 apart.1)
    ]

pub find_new :
    (name : List ℕ) (ram : ℕ → RamFile) (slot : ℕ) (f : RamFile)
    → find_ram_file name ram ≡ none
    → slot < max_ram_files
    → is_named f name ≡ true
    → find_ram_file name (update ram slot f) ≡ some slot
unfolding find_ram_file
find_new name ram slot f absent h named =
    first_from_finds (λ i. is_named (update ram slot f i) name) 0 max_ram_files slot
      (record {
        lower = omega arith;
        upper = omega arith;
        passes = ap (λ g. is_named g name) (update_self ram slot f) ∙ named;
        least = λ j lo hi.
            ap (λ g. is_named g name) (update_other ram slot f j (omega arith))
            ∙ first_from-none (λ i. is_named (ram i) name) 0 max_ram_files absent j lo
                (omega arith);
      })

pub content-put :
    (st : Storage) (slot : ℕ) (f : RamFile) (name : List ℕ)
    → find_ram_file name (put slot f st).ram_files ≡ some slot
    → read name (put slot f st) ≡ some (content_of f)
content-put st slot f name e =
    read_found name (put slot f st) slot e
    ∙ ap (λ g. some (content_of g)) (update_self st.ram_files slot f)

pub invalid_name :
    (name : List ℕ) → is_valid_name name ≡ false → validate_name name ≡ err name_too_long
unfolding validate_name
invalid_name name bad = ground arith

pub valid_name : (name : List ℕ) → is_valid_name name ≡ true → validate_name name ≡ ok name
unfolding validate_name
valid_name name good = ground arith

abbrev pub Out : Type 0
Out = Result RamFsError (Unit {0})

-- The call ends as the specification does, if both are known.
pub conclude :
    (out : Out × Storage) (result : Out) (after : Storage) (spec : Out × FileMap) (m : FileMap)
    → out ≡ (result, after)
    → view after ≡ m
    → spec ≡ (result, m)
    → (out.0, view out.1) ≡ spec
conclude out result after spec m e v sp =
    ap (λ (o : Out × Storage). (o.0, view o.1)) e
    ∙ ap {B = Out × FileMap} (λ n. (result, n)) v
    ∙ sym sp
