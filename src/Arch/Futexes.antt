-- ===== src/Arch/Futexes.antt =====
-- Waking the threads that wait on a word (`syscall_futex_wake` of kernel-core/src/arch.rs).
use open_kernel.Prelude.{
  ℕ, zero, suc, ◌+◌, ◌≤◌, ◌<◌, ◌≡◌, ◌≢◌, inl, inr, refl, sym, ap, ◌∙◌, true, false, true≢false,
  none, some, ℕ_discrete, arith,
}
use open_kernel.Threads.State.{max_threads, is_blocked}
use open_kernel.Arch.{
  Waits, FutexWaiter, max_sleepers, wake_waiter, wake_waiters_on, syscall_futex_wake,
}
use open_kernel.Arch.Counts.{blocked_threads}
use open_kernel.Arch.Guards.{valid_user_word}
use open_kernel.Arch.Sweeps.{in_range, range_zero, range_here, range_other, range_passed}
use open_kernel.Arch.Rounds.{round_other, round_freed, wake_waiter-Round}

inside_table : (j : ℕ) → j < max_sleepers → in_range 0 max_sleepers j ≡ true
unfolding in_range
inside_table j h = ground (arith, h)

module _ {M : Type 0} where
  -- What the loop over `n` entries from `i` on does, with the count of threads woken so far.
  record Loop (address count i n : ℕ) (s s' : ℕ × Waits M) : Type 0 where
    bound : s.0 ≤ count → s'.0 ≤ count
    grows : s.0 ≤ s'.0
    counted : blocked_threads s'.1.kernel + s'.0 ≡ blocked_threads s.1.kernel + s.0
    outside : (j : ℕ) → in_range i n j ≡ false → s'.1.futex_waiters j ≡ s.1.futex_waiters j
    other :
        (j : ℕ) (e : FutexWaiter)
        → s.1.futex_waiters j ≡ some e
        → e.address ≢ address
        → s'.1.futex_waiters j ≡ some e
    none_left :
        s'.0 < count
        → (j : ℕ) (e : FutexWaiter) → in_range i n j ≡ true
        → s'.1.futex_waiters j ≡ some e
        → e.address ≢ address
    freed :
        (j : ℕ) (e : FutexWaiter)
        → s.1.futex_waiters j ≡ some e
        → s'.1.futex_waiters j ≡ none
        → e.thread < max_threads
        → is_blocked (s'.1.kernel.threads e.thread).state ≡ false
    stays :
        (t : ℕ)
        → t < max_threads
        → is_blocked (s.1.kernel.threads t).state ≡ false
        → is_blocked (s'.1.kernel.threads t).state ≡ false

  wake_waiters_on-Loop :
      (address count i n : ℕ) (s : ℕ × Waits M)
      → Loop address count i n s (wake_waiters_on address count i n s)
  unfolding wake_waiters_on
  wake_waiters_on-Loop address count i zero s = record {
    bound = λ b. b;
    grows = omega arith;
    counted = refl;
    outside = λ j out. refl;
    other = λ j e there ne. there;
    none_left = λ lt j e inside there. absurd (true≢false (sym inside ∙ range_zero i j));
    freed = λ j e there gone. let wrong : none ≡ some e = sym gone ∙ there in absurd cc;
    stays = λ t lt free. free;
  }
  wake_waiters_on-Loop address count i (suc n) s =
      let s' = wake_waiter address count i s in
      let f = wake_waiter-Round address count i s in
      let g = wake_waiters_on-Loop address count (i + 1) n s' in
      let kept : (wake_waiters_on address count (i + 1) n s').1.futex_waiters i
          ≡ s'.1.futex_waiters i =
        g.outside i (range_passed i n) in
      record {
        bound = λ b. g.bound (f.bound b);
        grows = omega (arith, f.grows, g.grows);
        counted = g.counted ∙ f.counted;
        outside = λ j out. elim (ℕ_discrete j i) [
          | yes at ↦
              absurd (true≢false (sym (range_here i n) ∙ ap (in_range i (suc n)) (sym at) ∙ out))
          | no ne ↦ g.outside j (sym (range_other i n j ne) ∙ out) ∙ f.outside j ne
        ];
        other = λ j e there ne. g.other j e (round_other f j e there ne) ne;
        none_left = λ lt j e inside there. elim (ℕ_discrete j i) [
          | yes at ↦ f.none_left (omega (arith, g.grows, f.grows)) e (
              sym kept
              ∙ ap (λ a. (wake_waiters_on address count (i + 1) n s').1.futex_waiters a) (sym at)
              ∙ there)
          | no ne ↦ g.none_left lt j e (sym (range_other i n j ne) ∙ inside) there
        ];
        freed = λ j e there gone lt. elim (round_freed f j e there) [
          | inl still ↦ g.freed j e still gone lt
          | inr free ↦ g.stays e.thread lt (free lt)
        ];
        stays = λ t lt free. g.stays t lt (f.stays t lt free);
      }

  -- What a wake of at most `count` threads that wait on an address does.
  pub record FutexWoken (address count : ℕ) (w : Waits M) (r : ℕ × Waits M) : Type 0 where
    pub at_most : r.0 ≤ count
    pub counted : blocked_threads r.1.kernel + r.0 ≡ blocked_threads w.kernel
    pub stays :
        (t : ℕ)
        → t < max_threads
        → is_blocked (w.kernel.threads t).state ≡ false
        → is_blocked (r.1.kernel.threads t).state ≡ false
    pub other :
        (j : ℕ) (e : FutexWaiter)
        → w.futex_waiters j ≡ some e
        → e.address ≢ address
        → r.1.futex_waiters j ≡ some e
    pub none_left :
        r.0 < count
        → (j : ℕ) (e : FutexWaiter) → j < max_sleepers
        → r.1.futex_waiters j ≡ some e
        → e.address ≢ address
    pub freed :
        (j : ℕ) (e : FutexWaiter)
        → w.futex_waiters j ≡ some e
        → r.1.futex_waiters j ≡ none
        → e.thread < max_threads
        → is_blocked (r.1.kernel.threads e.thread).state ≡ false

  -- A wake on a valid word returns the number of threads that it wakes: it leaves so many fewer threads
  -- of the table blocked, and blocks none. They are at most as many as asked for, and fewer only where
  -- no entry is left for the word; a thread of the table whose entry is taken is not blocked any more,
  -- and the entries for other words stay.
  pub syscall_futex_wake-FutexWoken :
      (address count : ℕ) (w : Waits M)
      → valid_user_word address ≡ true
      → FutexWoken address count w (syscall_futex_wake address count w)
  unfolding syscall_futex_wake
  syscall_futex_wake-FutexWoken address count w valid =
      let f = wake_waiters_on-Loop address count 0 max_sleepers (0, w) in
      rw (valid, syscall_futex_wake)
        (record {
          at_most = f.bound (omega arith);
          counted = omega (arith, f.counted);
          stays = f.stays;
          other = f.other;
          none_left = λ lt j e inside there. f.none_left lt j e (inside_table j inside) there;
          freed = f.freed;
        })
