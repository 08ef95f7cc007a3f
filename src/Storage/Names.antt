-- ===== src/Storage/Names.antt =====
-- kernel-core/src/storage.rs: the comparison of names.
use open_kernel.Prelude.{
  ℕ, ◌≡◌, refl, ◌↔◌, Bool, true, false, if◌then◌else◌, ◌==◌, List, [], ◌∷◌, length, arith,
}

-- The loop, over two names of one length.
same_bytes : List ℕ → List ℕ → Bool
same_bytes [] right = true
same_bytes (x ∷ left) [] = true
same_bytes (x ∷ left) (y ∷ right) =
    let rest = same_bytes left right in if x == y then rest else false

unfoldable pub names_equal : List ℕ → List ℕ → Bool
unfolding same_bytes
names_equal left right = if length left == length right then same_bytes left right else false

same_bytes_refl : (a : List ℕ) → same_bytes a a ≡ true
unfolding same_bytes
same_bytes_refl [] = refl
same_bytes_refl (x ∷ a) = ground (arith, same_bytes_refl a)

eq_of_same_bytes : (a b : List ℕ) → length a ≡ length b → same_bytes a b ≡ true → a ≡ b
unfolding same_bytes
eq_of_same_bytes [] [] e h = refl
eq_of_same_bytes [] (y ∷ b) e h = absurd (omega arith)
eq_of_same_bytes (x ∷ a) [] e h = absurd (omega arith)
eq_of_same_bytes (x ∷ a) (y ∷ b) e h = ground (arith, eq_of_same_bytes a b (omega arith))

-- The comparison decides equality.
pub names_equal_iff : (a b : List ℕ) → (names_equal a b ≡ true) ↔ (a ≡ b)
unfolding names_equal
names_equal_iff a b = (
  λ h. eq_of_same_bytes a b (ground arith) (ground arith),
  λ e. rw (← e) (ground (arith, same_bytes_refl a)),
)
