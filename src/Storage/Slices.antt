-- ===== src/Storage/Slices.antt =====
-- What a write does to the content of a file, as lists (kernel-core/src/storage.rs).
use open_kernel.Prelude.{
  ℕ, zero, suc, ◌+◌, ◌-◌, ◌≤◌, ◌≡◌, refl, sym, ◌∙◌, ap, ap₂, max, List, [], ◌∷◌, ◌++◌, length, drop,
  slice_from, slice_from-append, slice_from-congr, copy_from, copy_from_outside,
  slice_from-copy_from, arith,
}

-- The first `n` bytes, with zeros where the list ends before.
pub pad : ℕ → List ℕ → List ℕ
pad zero xs = []
pad (suc n) [] = 0 ∷ pad n []
pad (suc n) (x ∷ xs) = x ∷ pad n xs

-- The content after a write of `new` at `offset`: the old bytes before it, zeros in a gap, the new
-- bytes, and the old bytes behind them.
unfoldable pub overwrite : ℕ → List ℕ → List ℕ → List ℕ
unfolding pad
overwrite offset new old = pad offset old ++ (new ++ drop (offset + length new) old)

drop-slice_from : (b : ℕ → ℕ) (i n k : ℕ) → drop n (slice_from b i k) ≡ slice_from b (i + n) (k - n)
unfolding slice_from
drop-slice_from b i zero k = ap₂ (slice_from b) {x = i} (omega arith) (omega arith)
drop-slice_from b i (suc n) zero =
    ap (slice_from b (i + suc n)) {x = 0} {y = 0 - suc n} (omega arith)
drop-slice_from b i (suc n) (suc k) =
    drop-slice_from b (i + 1) n k ∙ ap₂ (slice_from b) (omega arith) (omega arith)

pad-slice_from :
    (b : ℕ → ℕ) (i n k : ℕ)
    → ((j : ℕ) → i + k ≤ j → b j ≡ 0)
    → slice_from b i n ≡ pad n (slice_from b i k)
unfolding slice_from pad
pad-slice_from b i zero k clean = refl
pad-slice_from b i (suc n) zero clean =
    ap₂ ◌∷◌ (clean i (omega arith)) (pad-slice_from b (i + 1) n 0 (λ j h. clean j (omega arith)))
pad-slice_from b i (suc n) (suc k) clean =
    ap (λ l. b i ∷ l) (pad-slice_from b (i + 1) n k (λ j h. clean j (omega arith)))

-- The bytes of an array that is clean behind `size`, after a copy into it.
pub slice-copy_from :
    (b : ℕ → ℕ) (size offset : ℕ) (new : List ℕ)
    → ((j : ℕ) → size ≤ j → b j ≡ 0)
    → slice_from (copy_from b offset new) 0 (max size (offset + length new))
      ≡ overwrite offset new (slice_from b 0 size)
unfolding overwrite
slice-copy_from b size offset new clean =
    let b' = copy_from b offset new in
    let n = length new in
    let rest = size - (offset + n) in
    let total : max size (offset + n) ≡ offset + (n + rest) = omega arith in
    let before : slice_from b' 0 offset ≡ pad offset (slice_from b 0 size) =
      slice_from-congr b' b 0 offset (λ j lo hi. copy_from_outside b offset new j (omega arith))
      ∙ pad-slice_from b 0 offset size (λ j h. clean j (omega arith)) in
    let after : slice_from b' (offset + n) rest ≡ drop (offset + n) (slice_from b 0 size) =
      slice_from-congr b' b (offset + n) rest
        (λ j lo hi. copy_from_outside b offset new j (omega arith))
      ∙ ap (λ i. slice_from b i rest) (omega arith)
      ∙ sym (drop-slice_from b 0 (offset + n) size) in
    ap (slice_from b' 0) total
    ∙ slice_from-append b' 0 offset (n + rest)
    ∙ ap₂ ◌++◌ before (
        ap (λ i. slice_from b' i (n + rest)) (omega arith)
        ∙ slice_from-append b' offset n rest
        ∙ ap₂ ◌++◌ (slice_from-copy_from b offset new) after)

drop-pad : (n : ℕ) (xs rest : List ℕ) → drop n (pad n xs ++ rest) ≡ rest
unfolding pad
drop-pad zero xs rest = refl
drop-pad (suc n) [] rest = drop-pad n [] rest
drop-pad (suc n) (x ∷ xs) rest = drop-pad n xs rest

-- From the offset of a write on, the content begins with what was written.
pub drop-overwrite :
    (offset : ℕ) (new old : List ℕ)
    → drop offset (overwrite offset new old) ≡ new ++ drop (offset + length new) old
unfolding overwrite
drop-overwrite offset new old = drop-pad offset old (new ++ drop (offset + length new) old)
