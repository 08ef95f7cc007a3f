-- ===== src/Arch/Counts.antt =====
-- The number of blocked threads, which a wake of kernel-core/src/threads.rs lowers by one or leaves.
use open_kernel.Prelude.{
  ℕ, zero, suc, ◌+◌, ◌<◌, ◌≡◌, inl, inr, refl, sym, ap, ap₂, ◌∙◌, Bool, true, false, not, ◌&&◌,
  if◌then◌else◌, ◌==◌, ==_refl, ==_of_ne, leb, ltb, Bool-cases, ℕ_discrete, arith,
}
use open_kernel.Threads.State.{Kernel, max_threads, is_blocked}
use open_kernel.Threads.Switch.{wake}
use open_kernel.Arch.Wakes.{wake-WokenBy, still_blocked}

-- How many indices below `n` pass the test.
unfoldable pub count_below : (ℕ → Bool) → ℕ → ℕ
count_below p zero = 0
count_below p (suc n) = (if p n then 1 else 0) + count_below p n

-- How many threads of the table are blocked.
abbrev pub blocked_threads : {M : Type 0} → Kernel M → ℕ
blocked_threads k = count_below (λ t. is_blocked (k.threads t).state) max_threads

count_below-congr :
    (p q : ℕ → Bool) (n : ℕ) → ((t : ℕ) → t < n → p t ≡ q t) → count_below p n ≡ count_below q n
unfolding count_below
count_below-congr p q zero h = refl
count_below-congr p q (suc n) h =
    ap₂ (λ b m. (if b then 1 else 0) + m) (h n (omega arith))
      (count_below-congr p q n (λ t lt. h t (omega arith)))

-- Without one index that passes there is one less.
count_below-without :
    (p : ℕ → Bool) (x n : ℕ)
    → count_below (λ t. not (t == x) && p t) n + (if ltb x n && p x then 1 else 0) ≡ count_below p n
unfolding count_below
count_below-without p x zero = ground arith
count_below-without p x (suc n) = elim (ℕ_discrete n x) [
  | yes same ↦
      let at : (n == x) ≡ true = rw same (==_refl x) in
      let not_below : ltb x n ≡ false = ground (arith, same) in
      let below : ltb x (suc n) ≡ true = ground (arith, same) in
      let px : p x ≡ p n = ap p (sym same) in
      let rest : count_below (λ t. not (t == x) && p t) n + 0 ≡ count_below p n =
        rw not_below at (count_below-without p x n) in
      rw (at, below, px) (omega (arith, rest))
  | no ne ↦
      let apart : (n == x) ≡ false = ==_of_ne n x ne in
      let same_range : ltb x (suc n) ≡ ltb x n = ground (arith, ne) in
      rw (apart, same_range) (omega (arith, count_below-without p x n))
]

module _ {M : Type 0} where
  wake_result :
      (thread : ℕ) (k : Kernel M)
      → (wake thread k).0 ≡ (ltb thread max_threads && is_blocked (k.threads thread).state)
  unfolding wake
  wake_result thread k = elim (Bool-cases (leb max_threads thread)) [
    | inl out ↦
        let no_entry : ltb thread max_threads ≡ false = ground (arith, out) in
        rw (out, no_entry, wake) refl
    | inr inside ↦
        let entry : ltb thread max_threads ≡ true = ground (arith, inside) in
        elim (Bool-cases (is_blocked (k.threads thread).state)) [
          | inl asleep ↦ rw (inside, entry, asleep, wake) refl
          | inr awake ↦ rw (inside, entry, awake, wake) refl
        ]
  ]

  -- A wake that reports a thread leaves one blocked thread less, and another leaves as many.
  pub wake-blocked_threads :
      (thread : ℕ) (k : Kernel M)
      → blocked_threads (wake thread k).1 + (if (wake thread k).0 then 1 else 0) ≡ blocked_threads k
  wake-blocked_threads thread k =
      let states : blocked_threads (wake thread k).1
          ≡ count_below (λ t. not (t == thread) && is_blocked (k.threads t).state) max_threads =
        count_below-congr _ _ max_threads (λ t lt.
          ap is_blocked ((wake-WokenBy thread k).states t lt)
          ∙ still_blocked (t == thread) (k.threads t).state) in
      ap₂ (λ n b. n + (if b then 1 else 0)) states (wake_result thread k)
      ∙ count_below-without (λ t. is_blocked (k.threads t).state) thread max_threads
