-- ===== src/Storage/Create.antt =====
-- `create` of kernel-core/src/storage.rs implements its specification.
use open_kernel.Prelude.{
  ℕ, zero, suc, ◌+◌, ◌≤◌, ◌<◌, ◌≡◌, inl, inr, refl, sym, ◌∙◌, ap, Bool, true, false, not, ◌==◌,
  none, some, List, [], length, first_from, first_from-IsFirst, IsFirst, false_of_not, slice_from,
  slice_from-copy_from, ok, err, arith, Option-cases, ==_iff, ==_of_ne, Bool-cases,
}
use open_kernel.Storage.{
  Storage, RamFile, already_exists, name_too_long, no_space, max_ram_files, find_ram_file,
  content_of, read, created, create, used_files, ram_file_count,
}
use open_kernel.Storage.Steps.{name_of, put, is_named_of}
use open_kernel.Storage.Spec.{view, bind, is_valid_name, spec_create}
use open_kernel.Storage.View.{
  read_found, read_absent, is_named_other, is_named_free, view-put, find_new, content-put,
  invalid_name, valid_name, conclude,
}

-- The number of entries in use, and the search for a free one.
pub count-le : (ram : ℕ → RamFile) (i n : ℕ) → length (used_files (slice_from ram i n)) ≤ n
unfolding used_files slice_from
count-le ram i zero = omega arith
count-le ram i (suc n) = ground (arith, count-le ram (i + 1) n)

pub count_full :
    (ram : ℕ → RamFile) (i n : ℕ)
    → first_from (λ j. not (ram j).used) i n ≡ none
    → length (used_files (slice_from ram i n)) ≡ n
unfolding used_files slice_from first_from
count_full ram i zero e = refl
count_full ram i (suc n) e = ground (arith, count_full ram (i + 1) n)

pub count_free :
    (ram : ℕ → RamFile) (i n slot : ℕ)
    → first_from (λ j. not (ram j).used) i n ≡ some slot
    → length (used_files (slice_from ram i n)) < n
unfolding used_files slice_from first_from
count_free ram i zero slot e = cc
count_free ram i (suc n) slot e =
    ground (arith, count_free ram (i + 1) n slot, count-le ram (i + 1) n)

abbrev pub is_full : Storage → Bool
is_full st = ram_file_count st == max_ram_files

pub is_full_of :
    (st : Storage)
    → first_from (λ j. not (st.ram_files j).used) 0 max_ram_files ≡ none
    → is_full st ≡ true
unfolding ram_file_count
is_full_of st e = (==_iff _ max_ram_files).1 (count_full st.ram_files 0 max_ram_files e)

pub not-is_full_of :
    (st : Storage) (slot : ℕ)
    → first_from (λ j. not (st.ram_files j).used) 0 max_ram_files ≡ some slot
    → is_full st ≡ false
unfolding ram_file_count
not-is_full_of st slot e =
    ==_of_ne _ max_ram_files
      (λ same. absurd (omega (arith, same, count_free st.ram_files 0 max_ram_files slot e)))

pub no_content : (name : List ℕ) (f : RamFile) → content_of (created name f) ≡ []
unfolding slice_from
no_content name f = refl

pub create_new :
    (name : List ℕ) (st : Storage) (slot : ℕ)
    → find_ram_file name st.ram_files ≡ none
    → first_from (λ i. not (st.ram_files i).used) 0 max_ram_files ≡ some slot
    → view (put slot (created name (st.ram_files slot)) st) ≡ bind name (some []) (view st)
create_new name st slot absent unused = view-put st slot f name (some []) new λ other ne. (
  is_named_free (st.ram_files slot) other free,
  is_named_other f other (λ same. ne (sym named ∙ same)),
)
  where
    f : RamFile
    f = created name (st.ram_files slot)

    first : IsFirst (λ i. not (st.ram_files i).used) 0 max_ram_files slot
    first = first_from-IsFirst (λ i. not (st.ram_files i).used) 0 max_ram_files slot unused

    free : (st.ram_files slot).used ≡ false
    free = false_of_not _ first.passes

    named : name_of f ≡ name
    named = slice_from-copy_from (st.ram_files slot).name 0 name

    new : read name (put slot f st) ≡ some []
    new =
        content-put st slot f name (
          find_new name st.ram_files slot f absent (omega (arith, first.upper))
            (rw named at (is_named_of f refl)))
        ∙ ap some (no_content name (st.ram_files slot))

-- `create` is the creation of an empty file in the abstract map, with the same result on every
-- branch; it reports no space exactly if all entries are in use.
pub create_refines :
    (name : List ℕ) (st : Storage)
    → let (result, after) = create name st in
      (result, view after) ≡ spec_create (is_full st) name (view st)
unfolding create
create_refines name st = elim (Bool-cases (is_valid_name name)) [
  | inr bad ↦
      conclude _ (err name_too_long) st _ (view st) (rw (invalid_name name bad, create)) refl
        (rw bad)
  | inl good ↦ elim (Option-cases (find_ram_file name st.ram_files)) [
    | inr (slot, e) ↦
        conclude _ (err already_exists) st _ (view st) (rw (valid_name name good, e, create)) refl
          (rw (good, read_found name st slot e))
    | inl e ↦ elim (Option-cases (first_from (λ i. not (st.ram_files i).used) 0 max_ram_files)) [
      | inl full ↦
          conclude _ (err no_space) st _ (view st) (rw (valid_name name good, e, full, create)) refl
            (rw (good, read_absent name st e, is_full_of st full))
      | inr (slot, free) ↦
          conclude _ (ok tt) (put slot (created name (st.ram_files slot)) st) _
            (bind name (some []) (view st)) (rw (valid_name name good, e, free, create))
            (create_new name st slot e free)
            (rw (good, read_absent name st e, not-is_full_of st slot free))
    ]
  ]
]
