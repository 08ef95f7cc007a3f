-- ===== src/Threads/Safety/Suspends.antt =====
-- Yielding, blocking and exiting (kernel-core/src/threads.rs) keep the scheduler's invariant.
use open_kernel.Prelude.{
  ℕ, ◌<◌, ◌≡◌, inl, inr, refl, ap, ◌∙◌, ◌==◌, ◌||◌, update, update_self, update_other, false,
  Bool-cases, ℕ_discrete, arith,
}
use open_kernel.Threads.State.{
  Kernel, Thread, Paging, ready, blocked, max_threads, no_thread, idle_thread, is_ready, is_running,
  set_thread, set_state,
}
use open_kernel.Threads.Queue.{enqueue}
use open_kernel.Threads.Switch.{
  yield_now, block_current, exited_thread, leave, exit_current_with_status,
}
use open_kernel.Threads.Safety.Invariant.{
  WaitersIn, IsConsistent, enqueue-IsFair, current-enqueue, set_thread-IsFair, threads-enqueue,
}
use open_kernel.Threads.Safety.Keeps.{
  Keeps, Keeps-trans, waiters-update, wake_waiters-Keeps, reparent-Keeps,
}
use open_kernel.Threads.Safety.Schedule.{
  IsPaused, Keeps-IsPaused, schedule_from_current-IsConsistent,
}

module _ {M : Type 0} (paging : Paging M) where
  -- The current thread leaves its running state.
  quiet :
      (k : Kernel M) (t : Thread)
      → IsConsistent k
      → is_running t.state ≡ false
      → (u : ℕ) → u < max_threads
      → 0 < u
      → is_running (update k.threads k.current_thread t u).state ≡ false
  quiet k t c nn u hu pu = elim (ℕ_discrete u k.current_thread) [
    | yes at ↦ rw (at, update_self k.threads k.current_thread t) nn
    | no ne ↦
        ap (λ (q : Thread). is_running q.state) (update_other k.threads k.current_thread t u ne)
        ∙ elim (Bool-cases (is_running (k.threads u).state)) [
          | inl r ↦ absurd (ne (c.alone u hu pu r))
          | inr r ↦ r
        ]
  ]

  -- A thread that does not run and is not ready, before and after.
  left_by :
      (k : Kernel M) (t : Thread)
      → IsConsistent k
      → k.current_thread < max_threads
      → 0 < k.current_thread
      → is_running t.state ≡ false
      → is_ready t.state ≡ false
      → WaitersIn t
      → IsPaused (set_thread k.current_thread t k)
  left_by k t c lt pos nn nr w = record {
    fair = set_thread-IsFair k.current_thread t k (ground (arith, c.current_runs lt pos)) c.fair;
    waiters = waiters-update k.current_thread t k w c.waiters;
    none_runs = quiet k t c nn;
  }

  pub idle_pauses : (k : Kernel M) → IsConsistent k → k.current_thread ≡ 0 → IsPaused k
  idle_pauses k c at = record {
    fair = c.fair;
    waiters = c.waiters;
    none_runs = λ u hu pu. elim (Bool-cases (is_running (k.threads u).state)) [
      | inl r ↦ absurd (omega (arith, c.alone u hu pu r))
      | inr r ↦ r
    ];
  }

  pub current_in_table :
      (k : Kernel M)
      → IsConsistent k
      → (k.current_thread == no_thread) ≡ false
      → k.current_thread < max_threads
  current_in_table k c e = elim c.current_in [ inl n ↦ absurd (ground arith) | inr h ↦ h ]

  pub queued_pauses :
      (k : Kernel M)
      → IsConsistent k
      → k.current_thread < max_threads
      → 0 < k.current_thread
      → IsPaused (enqueue k.current_thread (set_state k.current_thread ready k))
  queued_pauses k c lt pos =
      let t = record (k.threads k.current_thread) { state = ready } in
      let same = threads-enqueue k.current_thread (set_thread k.current_thread t k) in
      record {
        fair =
            enqueue-IsFair k.current_thread t k lt (ground (arith, c.current_runs lt pos)) refl
              c.fair;
        waiters =
            rw same (waiters-update k.current_thread t k (c.waiters k.current_thread lt) c.waiters);
        none_runs = rw same (quiet k t c refl);
      }

  pub yield_now-IsConsistent : (k : Kernel M) → IsConsistent k → IsConsistent (yield_now paging k).1
  unfolding yield_now
  yield_now-IsConsistent k c = elim (Bool-cases (k.current_thread == no_thread)) [
    | inl e ↦ rw e c
    | inr e ↦
        let lt = current_in_table k c e in
        elim (Bool-cases (k.current_thread == idle_thread)) [
          | inl idle ↦
              rw (e, idle)
                (schedule_from_current-IsConsistent paging k.current_thread k lt refl
                  (idle_pauses k c (ground arith)))
          | inr busy ↦
              rw (e, busy)
                (schedule_from_current-IsConsistent paging k.current_thread _ lt
                  (current-enqueue k.current_thread (set_state k.current_thread ready k))
                  (queued_pauses k c lt (ground arith)))
        ]
  ]

  pub block_current-IsConsistent :
      (k : Kernel M) → IsConsistent k → IsConsistent (block_current paging k).1
  unfolding block_current
  block_current-IsConsistent k c =
      elim (Bool-cases (k.current_thread == no_thread || k.current_thread == idle_thread)) [
        | inl e ↦ rw e c
        | inr e ↦
            let lt = current_in_table k c (ground arith) in
            rw e (
              schedule_from_current-IsConsistent paging k.current_thread _ lt refl (
                left_by k (record (k.threads k.current_thread) { state = blocked }) c lt
                  (ground arith) refl refl (c.waiters k.current_thread lt)))
      ]

  leave-Keeps :
      (status : ℕ) (k : Kernel M)
      → WaitersIn (k.threads k.current_thread)
      → Keeps
          (set_thread k.current_thread (exited_thread status (k.threads k.current_thread)) k)
          (leave k.current_thread status k)
  unfolding leave
  leave-Keeps status k w =
      let t = k.threads k.current_thread in
      Keeps-trans
        (wake_waiters-Keeps t.join_waiters 0 t.join_waiter_count _ (λ j lo hi. w j (omega arith)))
        (reparent-Keeps k.current_thread _)

  pub exit_current_with_status-IsConsistent :
      (status : ℕ) (k : Kernel M)
      → IsConsistent k
      → IsConsistent (exit_current_with_status paging status k)
  unfolding exit_current_with_status
  exit_current_with_status-IsConsistent status k c =
      elim (Bool-cases (k.current_thread == no_thread || k.current_thread == idle_thread)) [
        | inl e ↦ rw e c
        | inr e ↦
            let lt = current_in_table k c (ground arith) in
            let w = c.waiters k.current_thread lt in
            let keeps = leave-Keeps status k w in
            rw e (
              schedule_from_current-IsConsistent paging k.current_thread _ lt keeps.current (
                Keeps-IsPaused keeps (
                  left_by k (exited_thread status (k.threads k.current_thread)) c lt (ground arith)
                    refl refl w)))
      ]
