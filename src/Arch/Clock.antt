-- ===== src/Arch/Clock.antt =====
-- The timer's interrupt (kernel-core/src/arch.rs), and when it ends a sleep.
use open_kernel.Prelude.{
  ℕ, zero, suc, ◌+◌, ◌%◌, ◌^◌, ◌≡◌, ◌≢◌, refl, Bool, true, ◌&&◌, ◌||◌, if◌then◌else◌, Option, none,
  some,
}
use open_kernel.Threads.State.{is_blocked}
use open_kernel.Threads.Safety.Keeps.{Keeps, Keeps-trans}
use open_kernel.Arch.{
  Waits, Sleeper, FutexWaiter, max_sleepers, slept_enough, timed_out, wake_entries,
  wake_expired_sleepers, wake_expired_futexes, timer_interrupt,
}
use open_kernel.Arch.Wakes.{WokenBy, WokenBy-trans}
use open_kernel.Arch.Sweeps.{due_entry, names, in_range, wake_entries-Swept}

-- The tests and the threads of both tables.
abbrev pub sleeper_due : ℕ → Option Sleeper → Bool
sleeper_due ticks e = due_entry (λ s. s.thread) (slept_enough ticks) e

abbrev pub waiter_due : ℕ → Option FutexWaiter → Bool
waiter_due ticks e = due_entry (λ f. f.thread) (timed_out ticks) e

module _ {M : Type 0} where
  abbrev pub named_by : ℕ → Waits M → ℕ → Bool
  named_by ticks w t =
      names (λ s. s.thread) (slept_enough ticks) 0 max_sleepers w.sleepers t
      || names (λ f. f.thread) (timed_out ticks) 0 max_sleepers w.futex_waiters t

  -- What an interrupt of the timer does.
  pub record Ticked (w w' : Waits M) (ticks : ℕ) : Type 0 where
    pub clock : w'.ticks ≡ ticks
    pub sleepers_left :
        (j : ℕ)
        → w'.sleepers j ≡ (
            if in_range 0 max_sleepers j && sleeper_due ticks (w.sleepers j)
            then none
            else w.sleepers j)
    pub waiters_left :
        (j : ℕ)
        → w'.futex_waiters j ≡ (
            if in_range 0 max_sleepers j && waiter_due ticks (w.futex_waiters j)
            then none
            else w.futex_waiters j)
    pub woken : WokenBy (named_by ticks w) w.kernel w'.kernel
    pub keeps : Keeps w.kernel w'.kernel

  -- The timer's interrupt counts one tick, clears exactly the entries of sleepers and of waiters
  -- whose deadline has come, and makes exactly those of their threads ready that are blocked.
  pub timer_interrupt-Ticked : (w : Waits M) → Ticked w (timer_interrupt w) ((w.ticks + 1) % 2 ^ 64)
  unfolding timer_interrupt wake_expired_sleepers wake_expired_futexes
  timer_interrupt-Ticked w =
      let ticks = (w.ticks + 1) % 2 ^ 64 in
      let first =
        wake_entries-Swept (λ (s : Sleeper). s.thread) (slept_enough ticks) 0 max_sleepers
          w.sleepers w.kernel in
      let k' =
        (wake_entries (λ (s : Sleeper). s.thread) (slept_enough ticks) 0 max_sleepers w.sleepers
          w.kernel).1 in
      let second =
        wake_entries-Swept (λ (f : FutexWaiter). f.thread) (timed_out ticks) 0 max_sleepers
          w.futex_waiters k' in
      record {
        clock = refl;
        sleepers_left = first.cleared;
        waiters_left = second.cleared;
        woken =
            WokenBy-trans _ _ (named_by ticks w) w.kernel k' _ first.woken second.woken (λ t. refl);
        keeps = Keeps-trans first.keeps second.keeps;
      }

  unfoldable pub timer_interrupts : ℕ → Waits M → Waits M
  timer_interrupts zero w = w
  timer_interrupts (suc n) w = timer_interrupts n (timer_interrupt w)

  -- A thread sleeps until a tick, and nothing else is to wake it.
  pub record Asleep (t i deadline : ℕ) (w : Waits M) : Type 0 where
    pub entry : w.sleepers i ≡ some (record { thread = t; deadline = deadline })
    pub alone : (j : ℕ) → j ≢ i → (e : Sleeper) → w.sleepers j ≡ some e → e.thread ≢ t
    pub no_waiter : (j : ℕ) (e : FutexWaiter) → w.futex_waiters j ≡ some e → e.thread ≢ t
    pub is_asleep : is_blocked (w.kernel.threads t).state ≡ true
