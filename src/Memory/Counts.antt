-- ===== src/Memory/Counts.antt =====
-- Counting the free frames of kernel-core/src/memory.rs.
use open_kernel.Prelude.{
  ℕ, zero, suc, ◌+◌, ◌<◌, ◌≡◌, ◌≢◌, refl, sym, Bool, true, false, ℕ_discrete, arith,
}
use open_kernel.Memory.{count_free}

pub count_free-same :
    (p q : ℕ → Bool) (n : ℕ) → ((i : ℕ) → i < n → p i ≡ q i) → count_free p n ≡ count_free q n
unfolding count_free
count_free-same p q zero h = refl
count_free-same p q (suc n) h =
    rw (count_free-same p q n (λ i hi. h i (omega arith)), h n (omega arith)) refl

-- One free frame less.
pub count_free-taken :
    (p q : ℕ → Bool) (n frame : ℕ)
    → frame < n
    → p frame ≡ false
    → q frame ≡ true
    → ((i : ℕ) → i ≢ frame → q i ≡ p i)
    → count_free q n + 1 ≡ count_free p n
unfolding count_free
count_free-taken p q zero frame h pf qt same = absurd (omega arith)
count_free-taken p q (suc n) frame h pf qt same = elim (ℕ_discrete frame n) [
  | yes at ↦
      let rest : count_free q n ≡ count_free p n =
        count_free-same q p n (λ i hi. same i (λ e. omega (arith, e, at, hi))) in
      ground (arith, rest, pf, qt, at)
  | no ne ↦
      ground
        (arith, count_free-taken p q n frame (omega arith) pf qt same, same n (λ e. ne (sym e)))
]

-- Nothing is counted where every frame is reserved.
pub count_free-zero : (p : ℕ → Bool) (n : ℕ) → ((i : ℕ) → i < n → p i ≡ true) → count_free p n ≡ 0
unfolding count_free
count_free-zero p zero h = refl
count_free-zero p (suc n) h =
    rw (h n (omega arith)) (omega (arith, count_free-zero p n (λ i hi. h i (omega arith))))
