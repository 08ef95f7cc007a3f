-- ===== src/Arch/Runs.antt =====
-- The waiting calls and the timer of kernel-core/src/arch.rs keep the scheduler's invariant.
use open_kernel.Prelude.{
  ℕ, zero, suc, ◌+◌, inl, inr, ◌&&◌, ◌==◌, ltb, Bool-cases, Option-cases, List, [], ◌∷◌,
}
use open_kernel.Threads.State.{Paging, current_id}
use open_kernel.Threads.Switch.{yield_now}
use open_kernel.Threads.Safety.Invariant.{IsConsistent}
use open_kernel.Threads.Safety.Keeps.{
  Keeps, Keeps-refl, Keeps-trans, Keeps-IsConsistent, wake-Keeps,
}
use open_kernel.Threads.Safety.Suspends.{block_current-IsConsistent, yield_now-IsConsistent}
use open_kernel.Arch.{
  Waits, max_sleepers, block, free_entry, syscall_sleep, syscall_futex_wait, syscall_futex_wake,
  wake_waiter, wake_waiters_on, timer_interrupt,
}
use open_kernel.Arch.Guards.{valid_user_word}
use open_kernel.Arch.Clock.{timer_interrupt-Ticked}

pub data WaitCall : Type 0 where
  call_sleep : ℕ → WaitCall
  call_futex_wait : (address expected actual timeout : ℕ) → WaitCall
  call_futex_wake : (address count : ℕ) → WaitCall
  call_yield call_timer : WaitCall

module _ {M : Type 0} where
  wake_waiter-Keeps :
      (address count i : ℕ) (s : ℕ × Waits M)
      → Keeps s.1.kernel (wake_waiter address count i s).1.kernel
  unfolding wake_waiter
  wake_waiter-Keeps address count i (woken, w) = elim (Option-cases (w.futex_waiters i)) [
    | inl e ↦ rw (e, wake_waiter) (Keeps-refl w.kernel)
    | inr (x, e) ↦ elim (Bool-cases (x.address == address && ltb woken count)) [
      | inl on ↦ rw (e, on, wake_waiter) (wake-Keeps x.thread w.kernel)
      | inr off ↦ rw (e, off, wake_waiter) (Keeps-refl w.kernel)
    ]
  ]

  wake_waiters_on-Keeps :
      (address count i n : ℕ) (s : ℕ × Waits M)
      → Keeps s.1.kernel (wake_waiters_on address count i n s).1.kernel
  unfolding wake_waiters_on
  wake_waiters_on-Keeps address count i zero s = Keeps-refl s.1.kernel
  wake_waiters_on-Keeps address count i (suc n) s =
      Keeps-trans (wake_waiter-Keeps address count i s)
        (wake_waiters_on-Keeps address count (i + 1) n (wake_waiter address count i s))

  syscall_futex_wake-Keeps :
      (address count : ℕ) (w : Waits M)
      → Keeps w.kernel (syscall_futex_wake address count w).1.kernel
  unfolding syscall_futex_wake
  syscall_futex_wake-Keeps address count w = elim (Bool-cases (valid_user_word address)) [
    | inl valid ↦
        rw (valid, syscall_futex_wake) (wake_waiters_on-Keeps address count 0 max_sleepers (0, w))
    | inr invalid ↦ rw (invalid, syscall_futex_wake) (Keeps-refl w.kernel)
  ]

module _ {M : Type 0} (paging : Paging M) where
  block-IsConsistent :
      (w : Waits M) → IsConsistent w.kernel → IsConsistent (block paging w).1.kernel
  unfolding block
  block-IsConsistent w c = block_current-IsConsistent paging w.kernel c

  syscall_sleep-IsConsistent :
      (milliseconds : ℕ) (w : Waits M)
      → IsConsistent w.kernel
      → IsConsistent (syscall_sleep paging milliseconds w).1.kernel
  unfolding syscall_sleep
  syscall_sleep-IsConsistent milliseconds w c = elim (Bool-cases (milliseconds == 0)) [
    | inl nothing ↦ rw (nothing, syscall_sleep) c
    | inr some_time ↦ elim (Option-cases (current_id w.kernel)) [
      | inl e ↦ rw (some_time, e, syscall_sleep) c
      | inr (t, e) ↦ elim (Option-cases (free_entry w.sleepers)) [
        | inl full ↦ rw (some_time, e, full, syscall_sleep) c
        | inr (i, found) ↦ rw (some_time, e, found, syscall_sleep) (block-IsConsistent _ c)
      ]
    ]
  ]

  syscall_futex_wait-IsConsistent :
      (address expected actual timeout : ℕ) (w : Waits M)
      → IsConsistent w.kernel
      → IsConsistent (syscall_futex_wait paging address expected actual timeout w).1.kernel
  unfolding syscall_futex_wait
  syscall_futex_wait-IsConsistent address expected actual timeout w c =
      elim (Bool-cases (valid_user_word address)) [
        | inr invalid ↦ rw (invalid, syscall_futex_wait) c
        | inl valid ↦ elim (Bool-cases (actual == expected)) [
          | inr changed ↦ rw (valid, changed, syscall_futex_wait) c
          | inl same ↦ elim (Option-cases (current_id w.kernel)) [
            | inl e ↦ rw (valid, same, e, syscall_futex_wait) c
            | inr (t, e) ↦ elim (Option-cases (free_entry w.futex_waiters)) [
              | inl full ↦ rw (valid, same, e, full, syscall_futex_wait) c
              | inr (i, found) ↦
                  rw (valid, same, e, found, syscall_futex_wait) (block-IsConsistent _ c)
            ]
          ]
        ]
      ]

  unfoldable pub wait_call : WaitCall → Waits M → Waits M
  wait_call (call_sleep milliseconds) w = (syscall_sleep paging milliseconds w).1
  wait_call (call_futex_wait address expected actual timeout) w =
      (syscall_futex_wait paging address expected actual timeout w).1
  wait_call (call_futex_wake address count) w = (syscall_futex_wake address count w).1
  wait_call call_yield w = record (w) { kernel = (yield_now paging w.kernel).1 }
  wait_call call_timer w = timer_interrupt w

  unfoldable pub wait_calls : List WaitCall → Waits M → Waits M
  wait_calls [] w = w
  wait_calls (call ∷ rest) w = wait_calls rest (wait_call call w)

  wait_call-IsConsistent :
      (call : WaitCall) (w : Waits M)
      → IsConsistent w.kernel
      → IsConsistent (wait_call call w).kernel
  unfolding wait_call
  wait_call-IsConsistent (call_sleep milliseconds) w c = syscall_sleep-IsConsistent milliseconds w c
  wait_call-IsConsistent (call_futex_wait address expected actual timeout) w c =
      syscall_futex_wait-IsConsistent address expected actual timeout w c
  wait_call-IsConsistent (call_futex_wake address count) w c =
      Keeps-IsConsistent (syscall_futex_wake-Keeps address count w) c
  wait_call-IsConsistent call_yield w c = yield_now-IsConsistent paging w.kernel c
  wait_call-IsConsistent call_timer w c = Keeps-IsConsistent (timer_interrupt-Ticked w).keeps c

  -- From a consistent state of the scheduler, no sequence of sleeps, of waits and wakes on words, of
  -- yields and of interrupts of the timer leaves the scheduler inconsistent.
  pub wait_calls-IsConsistent :
      (calls : List WaitCall) (w : Waits M)
      → IsConsistent w.kernel
      → IsConsistent (wait_calls calls w).kernel
  unfolding wait_calls
  wait_calls-IsConsistent [] w c = c
  wait_calls-IsConsistent (call ∷ rest) w c =
      wait_calls-IsConsistent rest (wait_call call w) (wait_call-IsConsistent call w c)
