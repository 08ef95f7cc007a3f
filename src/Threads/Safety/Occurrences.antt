-- ===== src/Threads/Safety/Occurrences.antt =====
-- How often a thread waits in the run queue of kernel-core/src/threads.rs.
use open_kernel.Prelude.{
  ℕ, zero, suc, ◌+◌, ◌≤◌, ◌<◌, ◌≡◌, refl, if◌then◌else◌, ◌==◌, ltb, List, [], ◌∷◌, ◌++◌, length,
  arith, Bool-cases, inl, inr,
}

unfoldable pub occurs : ℕ → List ℕ → ℕ
occurs t [] = 0
occurs t (x ∷ xs) = (if x == t then 1 else 0) + occurs t xs

-- All threads in the list are entries of the table.
abbrev pub AllBelow : ℕ → List ℕ → Type 0
AllBelow n [] = Unit
AllBelow n (x ∷ xs) = (x < n) × AllBelow n xs

pub AllBelow-snoc : (n x : ℕ) (xs : List ℕ) → AllBelow n xs → x < n → AllBelow n (xs ++ (x ∷ []))
AllBelow-snoc n x [] h hx = (hx, tt)
AllBelow-snoc n x (y ∷ ys) h hx = (h.0, AllBelow-snoc n x ys h.1 hx)

pub occurs-snoc :
    (t x : ℕ) (xs : List ℕ) → occurs t (xs ++ (x ∷ [])) ≡ occurs t xs + (if x == t then 1 else 0)
unfolding occurs
occurs-snoc t x [] = omega arith
occurs-snoc t x (y ∷ ys) = omega (arith, occurs-snoc t x ys)

sum_below : ℕ → (ℕ → ℕ) → ℕ
sum_below zero f = 0
sum_below (suc n) f = f n + sum_below n f

sum-zero : (n : ℕ) → sum_below n (λ t. occurs t []) ≡ 0
unfolding sum_below occurs
sum-zero zero = refl
sum-zero (suc n) = omega (arith, sum-zero n)

sum-cons :
    (x : ℕ) (xs : List ℕ) (n : ℕ)
    → sum_below n (λ t. occurs t (x ∷ xs))
      ≡ (if ltb x n then 1 else 0) + sum_below n (λ t. occurs t xs)
unfolding sum_below occurs
sum-cons x xs zero = ground arith
sum-cons x xs (suc n) = ground (arith, sum-cons x xs n)

-- The occurrences of all entries of the table add up to the length.
sum-occurs : (n : ℕ) (l : List ℕ) → AllBelow n l → sum_below n (λ t. occurs t l) ≡ length l
sum-occurs n [] h = sum-zero n
sum-occurs n (x ∷ xs) h = ground (arith, sum-cons x xs n, sum-occurs n xs h.1)

sum-le : (n : ℕ) (f : ℕ → ℕ) → ((t : ℕ) → t < n → f t ≤ 1) → sum_below n f ≤ n
unfolding sum_below
sum-le zero f h = omega arith
sum-le (suc n) f h = omega (arith, h n (omega arith), sum-le n f (λ t ht. h t (omega arith)))

sum-lt :
    (n : ℕ) (f : ℕ → ℕ) (u : ℕ) → ((t : ℕ) → t < n → f t ≤ 1) → u < n → f u ≡ 0 → sum_below n f < n
unfolding sum_below
sum-lt zero f u h hu e = absurd (omega arith)
sum-lt (suc n) f u h hu e = elim (Bool-cases (u == n)) [
  | inl same ↦
      let at : u ≡ n = ground arith in
      omega (arith, rw at at e, sum-le n f (λ t ht. h t (omega arith)))
  | inr ne ↦
      omega (arith, h n (omega arith), sum-lt n f u (λ t ht. h t (omega arith)) (ground arith) e)
]

-- A queue without repetition that lacks an entry of the table is not full.
pub length-lt :
    (n : ℕ) (l : List ℕ) (u : ℕ)
    → AllBelow n l
    → ((t : ℕ) → t < n → occurs t l ≤ 1)
    → u < n
    → occurs u l ≡ 0
    → length l < n
length-lt n l u below once hu absent =
    rw (← sum-occurs n l below) (sum-lt n (λ t. occurs t l) u once hu absent)
