-- ===== src/Prelude/Arrays.antt =====
-- Fixed arrays as functions from the index, with the searches that the kernel makes in them.
use Prim.Native.Nat.{ℕ, zero, suc, ◌+◌, ◌≤◌, ◌<◌}
use mathlib.Core.Path.{◌≡◌, refl, sym, ap, ap₂, ◌∙◌}
use mathlib.Core.Logic.{◌≢◌, ◌⊎◌, inl, inr}
use mathlib.Core.Bool.{Bool, true, false, true≢false}
use mathlib.Core.Option.{Option, none, some}
use mathlib.Core.List.{List, [], ◌∷◌, ◌++◌}
use native.Mathlib.Decide.{dec_le, dec_lt}
use native.Mathlib.Omega.{arith}
use open_kernel.Prelude.Tests.{◌==◌, if◌then◌else◌, Bool-cases, ==_refl, ==_of_ne, Option-cases}
use open_kernel.Prelude.Lists.{length}

-- `a[i] = v`
abbrev pub update {ℓ} : {A : Type ℓ} → (ℕ → A) → ℕ → A → ℕ → A
update a i v j = if j == i then v else a j

pub update_self {ℓ} : {A : Type ℓ} (a : ℕ → A) (i : ℕ) (v : A) → update a i v i ≡ v
update_self a i v = rw (==_refl i)

pub update_other {ℓ} :
    {A : Type ℓ} (a : ℕ → A) (i : ℕ) (v : A) (j : ℕ) → j ≢ i → update a i v j ≡ a j
update_other a i v j ne = rw (==_of_ne j i ne)

-- The first index from `i` on, of `n` indices, that passes the test.
unfoldable pub first_from : (ℕ → Bool) → ℕ → ℕ → Option ℕ
first_from p i zero = none
first_from p i (suc n) = let rest = first_from p (i + 1) n in if p i then some i else rest

-- A search that returns an index returns the least one that passes.
pub record IsFirst (p : ℕ → Bool) (i n s : ℕ) : Type 0 where
  pub lower : i ≤ s
  pub upper : s < i + n
  pub passes : p s ≡ true
  pub least : (j : ℕ) → i ≤ j → j < s → p j ≡ false

pub first_from-IsFirst : (p : ℕ → Bool) (i n s : ℕ) → first_from p i n ≡ some s → IsFirst p i n s
unfolding first_from
first_from-IsFirst p i zero s e = cc
first_from-IsFirst p i (suc n) s e = elim (Bool-cases (p i)) [
  | inl pass ↦
      let here : i ≡ s = ground arith in
      record {
        lower = omega arith;
        upper = omega arith;
        passes = rw (← here) pass;
        least = λ j lo hi. absurd (omega arith);
      }
  | inr fail ↦
      let r = first_from-IsFirst p (i + 1) n s (ground arith) in
      record {
        lower = omega arith;
        upper = omega arith;
        passes = r.passes;
        least = λ j lo hi. elim (dec_le (i + 1) j) [
          | yes h ↦ r.least j h hi
          | no h ↦ let same : j ≡ i = omega arith in rw same fail
        ];
      }
]

-- A search that returns nothing has seen no index that passes.
pub first_from-none :
    (p : ℕ → Bool) (i n : ℕ) → first_from p i n ≡ none → (j : ℕ) → i ≤ j → j < i + n → p j ≡ false
unfolding first_from
first_from-none p i zero e j lo hi = absurd (omega arith)
first_from-none p i (suc n) e j lo hi = elim (dec_le (i + 1) j) [
  | yes h ↦ first_from-none p (i + 1) n (ground arith) j h (omega arith)
  | no h ↦ let same : j ≡ i = omega arith in rw same (ground arith)
]

-- The least index that passes is found.
pub first_from_finds : (p : ℕ → Bool) (i n s : ℕ) → IsFirst p i n s → first_from p i n ≡ some s
first_from_finds p i n s f = elim (Option-cases (first_from p i n)) [
  | inl absent ↦ absurd (true≢false (sym f.passes ∙ first_from-none p i n absent s f.lower f.upper))
  | inr (t, found) ↦
      let g = first_from-IsFirst p i n t found in
      let same : t ≡ s = elim (dec_lt t s) [
        | yes h ↦ absurd (true≢false (sym g.passes ∙ f.least t g.lower h))
        | no h ↦ elim (dec_lt s t) [
          | yes k ↦ absurd (true≢false (sym f.passes ∙ g.least s f.lower k))
          | no k ↦ omega arith
        ]
      ] in
      found ∙ ap some same
]

-- Tests that agree on the range find the same index.
pub first_from-congr :
    (p q : ℕ → Bool) (i n : ℕ)
    → ((j : ℕ) → i ≤ j → j < i + n → p j ≡ q j)
    → first_from p i n ≡ first_from q i n
unfolding first_from
first_from-congr p q i zero h = refl
first_from-congr p q i (suc n) h = ground (
  arith,
  h i (omega arith) (omega arith),
  first_from-congr p q (i + 1) n (λ j lo hi. h j (omega arith) (omega arith)),
)

-- The first `n` elements, as a list (`&a[..n]`).
unfoldable pub slice_from {ℓ} : {A : Type ℓ} → (ℕ → A) → ℕ → ℕ → List A
slice_from a i zero = []
slice_from a i (suc n) = a i ∷ slice_from a (i + 1) n

abbrev pub slice {ℓ} : {A : Type ℓ} → (ℕ → A) → ℕ → List A
slice a n = slice_from a 0 n

-- `destination[i..].copy_from_slice(source)`, byte by byte.
unfoldable pub copy_from {ℓ} : {A : Type ℓ} → (ℕ → A) → ℕ → List A → ℕ → A
copy_from a i [] = a
copy_from a i (x ∷ xs) = copy_from (update a i x) (i + 1) xs

module _ {ℓ} {A : Type ℓ} where
  pub length-slice_from : (a : ℕ → A) (i n : ℕ) → length (slice_from a i n) ≡ n
  unfolding slice_from
  length-slice_from a i zero = refl
  length-slice_from a i (suc n) = ap suc (length-slice_from a (i + 1) n)

  pub slice_from-append :
      (a : ℕ → A) (i m n : ℕ) → slice_from a i (m + n) ≡ slice_from a i m ++ slice_from a (i + m) n
  unfolding slice_from
  slice_from-append a i zero n = ap₂ (slice_from a) {x = i} (omega arith) (omega arith)
  slice_from-append a i (suc m) n =
      let longer : suc m + n ≡ suc (m + n) = omega arith in
      let later : i + suc m ≡ i + 1 + m = omega arith in
      rw (longer, later) (ap (λ l. a i ∷ l) (slice_from-append a (i + 1) m n))

  -- Two arrays that agree on the range have one slice.
  pub slice_from-congr :
      (a b : ℕ → A) (i n : ℕ)
      → ((j : ℕ) → i ≤ j → j < i + n → a j ≡ b j)
      → slice_from a i n ≡ slice_from b i n
  unfolding slice_from
  slice_from-congr a b i zero h = refl
  slice_from-congr a b i (suc n) h =
      ap₂ ◌∷◌ (h i (omega arith) (omega arith))
        (slice_from-congr a b (i + 1) n (λ j lo hi. h j (omega arith) (omega arith)))

  pub copy_from_outside :
      (a : ℕ → A) (i : ℕ) (xs : List A) (j : ℕ)
      → (j < i) ⊎ (i + length xs ≤ j)
      → copy_from a i xs j ≡ a j
  unfolding copy_from
  copy_from_outside a i [] j h = refl
  copy_from_outside a i (x ∷ xs) j h =
      copy_from_outside (update a i x) (i + 1) xs j (omega arith) ∙ ground arith

  -- What was copied is read back.
  pub slice_from-copy_from :
      (a : ℕ → A) (i : ℕ) (xs : List A) → slice_from (copy_from a i xs) i (length xs) ≡ xs
  unfolding slice_from copy_from
  slice_from-copy_from a i [] = refl
  slice_from-copy_from a i (x ∷ xs) =
      ap₂ ◌∷◌ (copy_from_outside (update a i x) (i + 1) xs i (inl (omega arith)) ∙ ground arith)
        (slice_from-copy_from (update a i x) (i + 1) xs)
