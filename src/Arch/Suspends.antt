-- ===== src/Arch/Suspends.antt =====
-- What `syscall_sleep` of kernel-core/src/arch.rs promises to its caller.
use open_kernel.Prelude.{
  ℕ, suc, ◌+◌, ◌*◌, ◌^◌, ◌<◌, ◌≤◌, ◌≡◌, ◌≢◌, inl, inr, refl, sym, ap, subst, ◌∙◌, true, not, ◌==◌,
  some, Bool-cases, Option-cases, update, update_self, update_other, arith, first_from-IsFirst,
  has_value,
}
use open_kernel.Threads.State.{Paging, no_thread, current_id, ready, max_threads, is_blocked}
use open_kernel.Arch.{
  Waits, Sleeper, FutexWaiter, max_sleepers, block, syscall_sleep, deadline_after, ticks_of,
  free_entry, word_max,
}
use open_kernel.Threads.Switch.{block_current}
use open_kernel.Threads.Join.{Progress, returned, suspended}
use open_kernel.Threads.Outcomes.Blocks.{block_current-state}
use open_kernel.Arch.Clock.{Asleep, timer_interrupts}
use open_kernel.Arch.Sleeps.{sleep_ends}

ticks_of_exact :
    (milliseconds n : ℕ)
    → n * 10 < milliseconds
    → milliseconds ≤ suc n * 10
    → n < 2 ^ 60
    → ticks_of milliseconds ≡ suc n
ticks_of_exact milliseconds n longer within small = omega (arith, longer, within, small)

module _ {M : Type 0} where
  -- Nothing is to wake the thread yet.
  pub record IsUnnamed (t : ℕ) (w : Waits M) : Type 0 where
    pub no_sleeper : (j : ℕ) (e : Sleeper) → w.sleepers j ≡ some e → e.thread ≢ t
    pub no_waiter : (j : ℕ) (e : FutexWaiter) → w.futex_waiters j ≡ some e → e.thread ≢ t

  -- What a call of `syscall_sleep` that suspends its thread leaves.
  record Suspended (t deadline : ℕ) (w w' : Waits M) : Type 0 where
    i : ℕ
    inside : i < max_sleepers
    asleep : Asleep t i deadline w'
    clock : w'.ticks ≡ w.ticks

module _ {M : Type 0} (paging : Paging M) where
  entered :
      (t i deadline : ℕ) (w : Waits M)
      → i < max_sleepers
      → t ≡ w.kernel.current_thread
      → IsUnnamed t w
      → let w1 = record (w) {
        sleepers = update w.sleepers i (some (record { thread = t; deadline = deadline }));
      } in
        (block paging w1).0 ≡ suspended → Suspended t deadline w (block paging w1).1
  unfolding block
  entered t i deadline w inside is free s =
      let k = w.kernel in
      let switched : (block_current paging k).0 ≡ true =
        elim (Bool-cases (block_current paging k).0) [
          | inl e ↦ e
          | inr e ↦
              let wrong : ◌≡◌ {A = Progress ℕ} (returned 0) suspended = sym (rw e refl) ∙ s in cc
        ] in
      record {
        i = i;
        inside = inside;
        asleep = record {
          entry = update_self w.sleepers i _;
          alone =
              λ j ne e there. free.no_sleeper j e (sym (update_other w.sleepers i _ j ne) ∙ there);
          no_waiter = free.no_waiter;
          is_asleep = rw is (ap is_blocked (block_current-state paging k switched));
        };
        clock = refl;
      }

  syscall_sleep-Suspended :
      (milliseconds : ℕ) (w : Waits M)
      → (syscall_sleep paging milliseconds w).0 ≡ suspended
      → IsUnnamed w.kernel.current_thread w
      → Suspended w.kernel.current_thread
          (deadline_after w.ticks (ticks_of milliseconds))
          w
          (syscall_sleep paging milliseconds w).1
  unfolding syscall_sleep current_id free_entry
  syscall_sleep-Suspended milliseconds w s free =
      let t = w.kernel.current_thread in
      elim (Bool-cases (milliseconds == 0)) [
        | inl nothing ↦
            let wrong : ◌≡◌ {A = Progress ℕ} (returned 0) suspended =
              sym (rw (nothing, syscall_sleep) refl) ∙ s in
            absurd cc
        | inr some_time ↦ elim (Bool-cases (t == no_thread)) [
          | inl nobody ↦
              let wrong : ◌≡◌ {A = Progress ℕ} (returned word_max) suspended =
                sym (rw (some_time, nobody, syscall_sleep) refl) ∙ s in
              absurd cc
          | inr somebody ↦ elim (Option-cases (free_entry w.sleepers)) [
            | inl full ↦
                let wrong : ◌≡◌ {A = Progress ℕ} (returned word_max) suspended =
                  sym (rw (some_time, somebody, full, syscall_sleep) refl) ∙ s in
                absurd cc
            | inr (i, found) ↦
                let f =
                  first_from-IsFirst (λ j. not (has_value (w.sleepers j))) 0 max_sleepers i found in
                rw (some_time, somebody, found, syscall_sleep)
                  (entered t i (deadline_after w.ticks (ticks_of milliseconds)) w
                    (omega (arith, f.upper)) refl free
                    (sym (rw (some_time, somebody, found, syscall_sleep) refl) ∙ s))
          ]
        ]
      ]

  -- A thread of the table that goes to sleep with `syscall_sleep`, while no other entry names it,
  -- sleeps through all interrupts of the timer before the first that comes no earlier than its time
  -- (an interrupt comes every 10 ms; there are fewer than 2^60 of them), and is ready after that one.
  -- The clock does not wrap on the way.
  pub syscall_sleep_ends :
      (milliseconds n : ℕ) (w : Waits M)
      → (syscall_sleep paging milliseconds w).0 ≡ suspended
      → IsUnnamed w.kernel.current_thread w
      → w.kernel.current_thread < max_threads
      → n * 10 < milliseconds
      → milliseconds ≤ suc n * 10
      → w.ticks + suc n < 2 ^ 64
      → n < 2 ^ 60
      → let t = w.kernel.current_thread in
        let w' = (syscall_sleep paging milliseconds w).1 in
        (is_blocked ((timer_interrupts n w').kernel.threads t).state ≡ true)
        × (((timer_interrupts (suc n) w').kernel.threads t).state ≡ ready)
  syscall_sleep_ends milliseconds n w s free lt longer within clock small =
      let time = ticks_of_exact milliseconds n longer within small in
      let t = w.kernel.current_thread in
      let w' = (syscall_sleep paging milliseconds w).1 in
      let f = syscall_sleep-Suspended milliseconds w s free in
      let deadline : deadline_after w.ticks (ticks_of milliseconds) ≡ w'.ticks + suc n =
        rw (time, f.clock) (omega arith) in
      let ends =
        sleep_ends n t f.i w' (subst (λ d. Asleep t f.i d w') deadline f.asleep)
          (omega (arith, f.clock)) (omega (arith, small)) lt f.inside in
      (ends.0.is_asleep, ends.1)
