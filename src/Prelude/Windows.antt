-- ===== src/Prelude/Windows.antt =====
-- The part of a circular array that a queue occupies, for any capacity.
use Prim.Native.Nat.{ℕ, zero, suc, ◌+◌, ◌-◌, ◌%◌, ◌<◌}
use mathlib.Core.Path.{◌≡◌, refl, sym, ap, ap₂, ◌∙◌}
use mathlib.Core.Logic.{◌≢◌}
use mathlib.Core.List.{List, [], ◌∷◌, ◌++◌}
use native.Mathlib.Decide.{dec_lt}
use native.Mathlib.Nat.{mod-eq_of_lt, mod-add-mod, mod-eq-sub-mod, mod-mod, mod-lt}
use native.Mathlib.Omega.{arith}
use open_kernel.Prelude.Lists.{length}
use open_kernel.Prelude.Arrays.{update, update_self, update_other}

-- The `n` elements from index `h` on, going round at the capacity.
unfoldable pub window {ℓ} : {A : Type ℓ} → ℕ → (ℕ → A) → ℕ → ℕ → List A
window cap b h zero = []
window cap b h (suc n) = b (h % cap) ∷ window cap b (h + 1) n

mod_step : (cap h k : ℕ) → h % cap ≡ k % cap → (h + 1) % cap ≡ (k + 1) % cap
mod_step cap h k e = sym (mod-add-mod h cap 1) ∙ ap (λ t. (t + 1) % cap) e ∙ mod-add-mod k cap 1

-- Fewer than `cap` steps round the array do not come back.
mod_ne_reduced : (cap r n : ℕ) → r < cap → suc n < cap → (r + suc n) % cap ≢ r
mod_ne_reduced cap r n hr hn = elim (dec_lt (r + suc n) cap) [
  | yes p ↦ omega (arith, mod-eq_of_lt p)
  | no p ↦ omega (
    arith,
    mod-eq-sub-mod {n = r + suc n} {m = cap} (omega arith),
    mod-eq_of_lt {n = r + suc n - cap} {m = cap} (omega arith),
  )
]

mod-ne : (cap h n : ℕ) → suc n < cap → (h + suc n) % cap ≢ h % cap
mod-ne cap h n hn e =
    mod_ne_reduced cap (h % cap) n (mod-lt h (omega arith)) hn (mod-add-mod h cap (suc n) ∙ e)

module _ {ℓ} {A : Type ℓ} (cap : ℕ) where
  pub length-window : (b : ℕ → A) (h n : ℕ) → length (window cap b h n) ≡ n
  unfolding window
  length-window b h zero = refl
  length-window b h (suc n) = ap suc (length-window b (h + 1) n)

  pub window_of_zero : (b : ℕ → A) (h n : ℕ) → n ≡ 0 → window cap b h n ≡ []
  unfolding window
  window_of_zero b h zero e = refl
  window_of_zero b h (suc n) e = absurd (omega arith)

  pub window_round :
      (b : ℕ → A) (h k n : ℕ) → h % cap ≡ k % cap → window cap b h n ≡ window cap b k n
  unfolding window
  window_round b h k zero e = refl
  window_round b h k (suc n) e =
      ap₂ ◌∷◌ (ap b e) (window_round b (h + 1) (k + 1) n (mod_step cap h k e))

  -- `window` matches on `suc`, code tests whether the count is zero.
  pub window_of_pos :
      (b : ℕ → A) (h n : ℕ)
      → h < cap
      → 0 < n
      → window cap b h n ≡ b h ∷ window cap b ((h + 1) % cap) (n - 1)
  unfolding window
  window_of_pos b h zero hh hn = absurd (omega arith)
  window_of_pos b h (suc n) hh hn = ap₂ ◌∷◌ (ap b (mod-eq_of_lt hh)) (
      window_round b (h + 1) ((h + 1) % cap) n (sym (mod-mod (h + 1) cap))
      ∙ ap (window cap b ((h + 1) % cap)) {x = n} (omega arith))

  -- An element written just behind a window extends it.
  pub window-update :
      (b : ℕ → A) (x : A) (h n at : ℕ)
      → n < cap
      → at ≡ (h + n) % cap
      → window cap (update b at x) h (suc n) ≡ window cap b h n ++ (x ∷ [])
  unfolding window
  window-update b x h zero at hn e =
      ap (λ y. y ∷ [])
        (ap (update b at x) (ap (λ t. t % cap) {y = h + 0} (omega arith) ∙ sym e)
          ∙ update_self b at x)
  window-update b x h (suc n) at hn e =
      ap₂ ◌∷◌ (update_other b at x (h % cap) (λ same. mod-ne cap h n hn (sym (same ∙ e)))) (
        window-update b x (h + 1) n at (omega arith)
          (e ∙ ap (λ t. t % cap) {x = h + suc n} (omega arith)))
