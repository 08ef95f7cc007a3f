-- ===== src/User/Stack/Writes.antt =====
-- What the stores of `initialize_process_stack` (kernel-core/src/user.rs) leave in memory.
use open_kernel.Prelude.{
  ℕ, suc, ◌+◌, ◌-◌, ◌*◌, ◌≤◌, ◌≡◌, inl, inr, refl, sym, ap, ap₂, subst, ◌∙◌, Bool, true, false,
  List, [], ◌∷◌, ◌++◌, length, slice_from, slice_from-append, slice_from-congr, copy_from_outside,
  slice_from-copy_from, arith,
}
use open_kernel.User.Stack.{
  Cursor, word_bytes, write_user_bytes, store_arguments, store_bytes, push_all,
}

-- Nothing changes from an address on.
abbrev pub SameFrom : ℕ → (ℕ → ℕ) → (ℕ → ℕ) → Type 0
SameFrom a m m' = (j : ℕ) → a ≤ j → m' j ≡ m j

pub slice-same :
    (a p n : ℕ) (m m' : ℕ → ℕ) → SameFrom a m m' → a ≤ p → slice_from m' p n ≡ slice_from m p n
slice-same a p n m m' same h = slice_from-congr m' m p n (λ j lo hi. same j (omega arith))

-- The words lie one behind the other, from an address on.
abbrev pub Words : (ℕ → ℕ) → ℕ → List ℕ → Type 0
Words m a [] = Unit
Words m a (w ∷ ws) = (slice_from m a 8 ≡ word_bytes w) × Words m (a + 8) ws

Words-same :
    (a b : ℕ) (ws : List ℕ) (m m' : ℕ → ℕ) → SameFrom a m m' → a ≤ b → Words m b ws → Words m' b ws
Words-same a b [] m m' same le h = h
Words-same a b (w ∷ ws) m m' same le h =
    (slice-same a b 8 m m' same le ∙ h.0, Words-same a (b + 8) ws m m' same (omega arith) h.1)

-- At each address, from `low` on, stands a string with a zero behind it.
abbrev pub Strings : ℕ → (ℕ → ℕ) → List ℕ → List (List ℕ) → Type 0
Strings low m [] [] = Unit
Strings low m (p ∷ ps) (value ∷ rest) =
    (low ≤ p) × (slice_from m p (length value + 1) ≡ value ++ (0 ∷ [])) × Strings low m ps rest
Strings low m [] (value ∷ rest) = ◌≡◌ {A = Bool} true false
Strings low m (p ∷ ps) [] = ◌≡◌ {A = Bool} true false

pub Strings-same :
    (low low' : ℕ) (ps : List ℕ) (values : List (List ℕ)) (m m' : ℕ → ℕ)
    → SameFrom low m m'
    → low' ≤ low
    → Strings low m ps values
    → Strings low' m' ps values
Strings-same low low' [] [] m m' same le h = h
Strings-same low low' [] (value ∷ values) m m' same le h = h
Strings-same low low' (p ∷ ps) [] m m' same le h = h
Strings-same low low' (p ∷ ps) (value ∷ values) m m' same le (here, is, h) = (
  omega arith,
  slice-same low p (length value + 1) m m' same here ∙ is,
  Strings-same low low' ps values m m' same le h,
)

-- The room that strings take, each with its zero.
abbrev pub size_of : List (List ℕ) → ℕ
size_of [] = 0
size_of (value ∷ rest) = length value + 1 + size_of rest

-- The effect of a store of `n` bytes.
pub record Stored (n : ℕ) (s s' : Cursor) : Type 0 where
  pub moved : s'.cursor + n ≡ s.cursor
  pub above : SameFrom s.cursor s.bytes s'.bytes

pub Stored-trans :
    (n k total : ℕ) (s s' s'' : Cursor)
    → Stored n s s'
    → Stored k s' s''
    → n + k ≡ total
    → Stored total s s''
Stored-trans n k total s s' s'' f g e = record {
  moved = omega (arith, f.moved, g.moved);
  above = λ j h. g.above j (omega (arith, f.moved)) ∙ f.above j h;
}

pub store_bytes-Stored :
    (bytes : List ℕ) (s : Cursor)
    → length bytes ≤ s.cursor
    → Stored (length bytes) s (store_bytes bytes s)
unfolding store_bytes
store_bytes-Stored bytes s h = record {
  moved = omega arith;
  above = λ j le. copy_from_outside s.bytes (s.cursor - length bytes) bytes j (inr (omega arith));
}

pub store_bytes-found :
    (bytes : List ℕ) (s : Cursor)
    → let s' = store_bytes bytes s in slice_from s'.bytes s'.cursor (length bytes) ≡ bytes
unfolding store_bytes
store_bytes-found bytes s = slice_from-copy_from s.bytes (s.cursor - length bytes) bytes

pub push_all-Stored :
    (ws : List ℕ) (s : Cursor)
    → length ws * 8 ≤ s.cursor
    → let s' = push_all ws s in Stored (length ws * 8) s s' × Words s'.bytes s'.cursor ws
unfolding push_all
push_all-Stored [] s h = (record { moved = omega arith; above = λ j le. refl }, tt)
push_all-Stored (w ∷ ws) s h =
    let rest = push_all ws s in
    let (stored, words) = push_all-Stored ws s (omega arith) in
    let f = store_bytes-Stored (word_bytes w) rest (omega (arith, stored.moved)) in
    (
      Stored-trans (length ws * 8) 8 (length (w ∷ ws) * 8) s rest _ stored f (omega arith),
      (
        store_bytes-found (word_bytes w) rest,
        subst (λ a. Words (store_bytes (word_bytes w) rest).bytes a ws) (sym f.moved)
            (Words-same rest.cursor rest.cursor ws rest.bytes _ f.above (omega arith) words),
      ),
    )

-- A string is written with its zero behind it.
string_written :
    (at : ℕ) (value : List ℕ) (m : ℕ → ℕ)
    → slice_from
        (write_user_bytes (at + length value) (0 ∷ []) (write_user_bytes at value m))
        at
        (length value + 1)
      ≡ value ++ (0 ∷ [])
string_written at value m =
    let once = write_user_bytes at value m in
    let twice = write_user_bytes (at + length value) (0 ∷ []) once in
    slice_from-append twice at (length value) 1
    ∙ ap₂ ◌++◌
        (slice_from-congr twice once at (length value)
            (λ j lo hi. copy_from_outside once (at + length value) (0 ∷ []) j (inl (omega arith)))
          ∙ slice_from-copy_from m at value)
        (slice_from-copy_from once (at + length value) (0 ∷ []))

pub store_arguments-Stored :
    (values : List (List ℕ)) (s : Cursor)
    → size_of values ≤ s.cursor
    → let (pointers, s') = store_arguments values s in
      Stored (size_of values) s s'
      × (Strings s'.cursor s'.bytes pointers values × (length pointers ≡ length values))
unfolding store_arguments
store_arguments-Stored [] s h = (record { moved = omega arith; above = λ j le. refl }, (tt, refl))
store_arguments-Stored (value ∷ rest) s h =
    let (pointers, s') = store_arguments rest s in
    let (f, (strings, same)) = store_arguments-Stored rest s (omega arith) in
    let n = length value + 1 in
    let at = s'.cursor - n in
    let once = write_user_bytes at value s'.bytes in
    let g : Stored n s'
        (record { cursor = at; bytes = write_user_bytes (at + length value) (0 ∷ []) once }) =
      record {
        moved = omega (arith, f.moved);
        above = λ j le.
            copy_from_outside once (at + length value) (0 ∷ []) j (inr (omega (arith, f.moved)))
            ∙ copy_from_outside s'.bytes at value j (inr (omega (arith, f.moved)));
      } in
    (
      Stored-trans (size_of rest) n (size_of (value ∷ rest)) s s' _ f g (omega arith),
      (
        (
          omega arith,
          string_written at value s'.bytes,
          Strings-same s'.cursor at pointers rest s'.bytes _ g.above (omega (arith, g.moved))
              strings,
        ),
        ap suc same,
      ),
    )
