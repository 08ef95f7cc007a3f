-- ===== src/Arch/Rounds.antt =====
-- One entry of the loop of `syscall_futex_wake` of kernel-core/src/arch.rs.
use open_kernel.Prelude.{
  ◌⊎◌, ℕ, ◌+◌, ◌≤◌, ◌<◌, ◌≡◌, ◌≢◌, inl, inr, refl, sym, ap, ◌∙◌, Bool, true, false, ◌&&◌,
  if◌then◌else◌, ◌==◌, ltb, none, some, Bool-cases, Option-cases, update, update_self, update_other,
  ℕ_discrete, arith,
}
use open_kernel.Threads.State.{Kernel, max_threads, is_blocked}
use open_kernel.Threads.Switch.{wake}
use open_kernel.Arch.{Waits, FutexWaiter, wake_waiter}
use open_kernel.Arch.Counts.{blocked_threads, wake-blocked_threads}
use open_kernel.Arch.Wakes.{wake-WokenBy, still_blocked}

-- A wake that is counted.
one_more :
    (b : Bool) (woken before after : ℕ)
    → after + (if b then 1 else 0) ≡ before
    → after + (if b then woken + 1 else woken) ≡ before + woken
one_more true woken before after h = omega (arith, h)
one_more false woken before after h = omega (arith, h)

module _ {M : Type 0} where
  -- A thread that is not blocked stays so when others are woken, and one that is woken is not.
  wake_frees :
      (t thread : ℕ) (k : Kernel M)
      → t < max_threads
      → is_blocked (k.threads t).state ≡ false
      → is_blocked ((wake thread k).1.threads t).state ≡ false
  wake_frees t thread k lt free =
      ap is_blocked ((wake-WokenBy thread k).states t lt)
      ∙ still_blocked (t == thread) (k.threads t).state
      ∙ rw free (ground arith)

  wake_itself :
      (thread : ℕ) (k : Kernel M)
      → thread < max_threads
      → is_blocked ((wake thread k).1.threads thread).state ≡ false
  wake_itself thread k lt =
      ap is_blocked ((wake-WokenBy thread k).states thread lt)
      ∙ still_blocked (thread == thread) (k.threads thread).state
      ∙ ground arith

  -- One entry.
  pub record Round (address count i : ℕ) (s s' : ℕ × Waits M) : Type 0 where
    pub bound : s.0 ≤ count → s'.0 ≤ count
    pub grows : s.0 ≤ s'.0
    pub counted : blocked_threads s'.1.kernel + s'.0 ≡ blocked_threads s.1.kernel + s.0
    pub outside : (j : ℕ) → j ≢ i → s'.1.futex_waiters j ≡ s.1.futex_waiters j
    pub here :
        (s'.1.futex_waiters i ≡ s.1.futex_waiters i)
        ⊎ ((e : FutexWaiter) × (s.1.futex_waiters i ≡ some e)
            × (e.address ≡ address)
            × (s'.1.futex_waiters i ≡ none)
            × (e.thread < max_threads → is_blocked (s'.1.kernel.threads e.thread).state ≡ false))
    pub none_left :
        s.0 < count → (e : FutexWaiter) → s'.1.futex_waiters i ≡ some e → e.address ≢ address
    pub stays :
        (t : ℕ)
        → t < max_threads
        → is_blocked (s.1.kernel.threads t).state ≡ false
        → is_blocked (s'.1.kernel.threads t).state ≡ false

  -- Entries of other addresses are passed over.
  pub round_other :
      {address count i : ℕ} {s s' : ℕ × Waits M}
      → Round address count i s s'
      → (j : ℕ) (e : FutexWaiter) → s.1.futex_waiters j ≡ some e
      → e.address ≢ address
      → s'.1.futex_waiters j ≡ some e
  round_other {address} {count} {i} {s} {s'} f j e there ne = elim (ℕ_discrete j i) [
    | no apart ↦ f.outside j apart ∙ there
    | yes at ↦ elim f.here [
      | inl same ↦ rw at same ∙ there
      | inr (x, was, hit, _, _) ↦
          let one : x ≡ e = (let q : some x ≡ some e = sym was ∙ rw (← at) there in cc) in
          absurd (ne (rw (← one) hit))
    ]
  ]

  -- An entry that is gone after one round belongs to a thread that is not blocked.
  pub round_freed :
      {address count i : ℕ} {s s' : ℕ × Waits M}
      → Round address count i s s'
      → (j : ℕ) (e : FutexWaiter) → s.1.futex_waiters j ≡ some e
      → (s'.1.futex_waiters j ≡ some e)
        ⊎ (e.thread < max_threads → is_blocked (s'.1.kernel.threads e.thread).state ≡ false)
  round_freed {address} {count} {i} {s} {s'} f j e there = elim (ℕ_discrete j i) [
    | no apart ↦ inl (f.outside j apart ∙ there)
    | yes at ↦ elim f.here [
      | inl same ↦ inl (rw at same ∙ there)
      | inr (x, was, _, _, free) ↦
          let one : x ≡ e = (let q : some x ≡ some e = sym was ∙ rw (← at) there in cc) in
          inr (rw (← one) free)
    ]
  ]

  -- An entry that is passed over.
  passed :
      (address count i : ℕ) (s : ℕ × Waits M)
      → (s.0 < count → (e : FutexWaiter) → s.1.futex_waiters i ≡ some e → e.address ≢ address)
      → Round address count i s s
  passed address count i s h = record {
    bound = λ b. b;
    grows = omega arith;
    counted = refl;
    outside = λ j ne. refl;
    here = inl refl;
    none_left = h;
    stays = λ t lt free. free;
  }

  -- An entry that is taken.
  taken :
      (address count i woken : ℕ) (w : Waits M) (x : FutexWaiter)
      → w.futex_waiters i ≡ some x
      → (x.address == address && ltb woken count) ≡ true
      → Round address count i
          (woken, w)
          (
            (if (wake x.thread w.kernel).0 then woken + 1 else woken),
            record (w) {
              kernel = (wake x.thread w.kernel).1;
              futex_waiters = update w.futex_waiters i none;
            },
          )
  taken address count i woken w x e on =
      let b = (wake x.thread w.kernel).0 in
      let room : woken < count = ground (arith, on) in
      record {
        bound = λ le. ground (arith, room);
        grows = ground arith;
        counted = one_more b woken _ _ (wake-blocked_threads x.thread w.kernel);
        outside = λ j ne. update_other w.futex_waiters i none j ne;
        here = inr (
          x,
          e,
          ground (arith, on),
          update_self w.futex_waiters i none,
          λ lt. wake_itself x.thread w.kernel lt,
        );
        none_left = λ lt y there.
            let wrong : none ≡ some y = sym (update_self w.futex_waiters i none) ∙ there in
            absurd cc;
        stays = λ t lt free. wake_frees t x.thread w.kernel lt free;
      }

  pub wake_waiter-Round :
      (address count i : ℕ) (s : ℕ × Waits M)
      → Round address count i s (wake_waiter address count i s)
  unfolding wake_waiter
  wake_waiter-Round address count i (woken, w) = elim (Option-cases (w.futex_waiters i)) [
    | inl e ↦
        rw (e, wake_waiter)
          (passed address count i (woken, w)
            (λ lt y there. let wrong : none ≡ some y = sym e ∙ there in absurd cc))
    | inr (x, e) ↦ elim (Bool-cases (x.address == address && ltb woken count)) [
      | inl on ↦ rw (e, on, wake_waiter) (taken address count i woken w x e on)
      | inr off ↦
          rw (e, off, wake_waiter)
            (passed address count i (woken, w)
              (λ lt y there same.
                let one : x ≡ y = (let q : some x ≡ some y = sym e ∙ there in cc) in
                let hit : x.address ≡ address = rw one same in ground (arith, off, hit, lt)))
    ]
  ]
