-- ===== src/Threads/Safety/Boots.antt =====
-- The start of the scheduler (kernel-core/src/threads.rs) sets up its invariant.
use open_kernel.Prelude.{
  ℕ, ◌+◌, ◌≡◌, inl, inr, refl, ◌∙◌, some, true, Bool-cases, Option-cases, arith,
}
use open_kernel.Threads.State.{
  Kernel, Thread, Paging, ready, max_threads, no_thread, idle_entry, is_exited, is_running,
  Trampoline,
}
use open_kernel.Threads.Spawn.{install, ensure_idle, start}
use open_kernel.Threads.Safety.Invariant.{WaitersIn, AllWaitersIn, IsConsistent}
use open_kernel.Threads.Safety.Keeps.{
  Keeps, Keeps-refl, Keeps-trans, enqueue-Keeps, memory-Keeps, stack_words-Keeps, same-Keeps,
  Keeps-IsConsistent,
}
use open_kernel.Threads.Safety.Schedule.{IsPaused, taken-IsConsistent}
use open_kernel.Threads.Queue.Fifo.{waiting}
use open_kernel.Threads.Switch.{schedule_from_scheduler}
use open_kernel.Threads.Safety.Starts.{if-keeps, or_halted, registers-Keeps}

module _ {M : Type 0} (paging : Paging M) where
  install_idle-Keeps :
      (code : Trampoline) (t : Thread) (k : Kernel M)
      → is_exited (k.threads 0).state ≡ true
      → t.state ≡ ready
      → (AllWaitersIn k → WaitersIn t)
      → Keeps k (install paging 0 code t k)
  unfolding install
  install_idle-Keeps code t k x r w =
      Keeps-trans (stack_words-Keeps k _)
        (enqueue-Keeps 0 t _ (omega arith) (ground arith) (ground arith) r w)

  created-Keeps : (k : Kernel M) → Keeps k (record k { idle_created = true })
  unfolding waiting
  created-Keeps k =
      same-Keeps k (record k { idle_created = true }) refl
        (λ q. record { head_in = q.head_in; count_in = q.count_in; tail_at = q.tail_at }) refl refl

  ensure_idle-Keeps :
      (idle_entry_point : ℕ) (k : Kernel M)
      → is_exited (k.threads 0).state ≡ true
      → Keeps k (or_halted k (ensure_idle paging idle_entry_point k))
  unfolding ensure_idle
  ensure_idle-Keeps idle_entry_point k x =
      let first = paging.allocate_kernel_stack 0 k.memory in
      let second = paging.allocate_kernel_stack (0 + max_threads) first.1 in
      if-keeps (λ o. Keeps k (or_halted k o)) k.idle_created (some k) _ (Keeps-refl k)
        (elim (Option-cases first.0) [
          | inl f ↦ rw f (Keeps-refl k)
          | inr (top, f) ↦ rw f (elim (Option-cases second.0) [
            | inl s ↦ rw s (Keeps-refl k)
            | inr (syscall_top, s) ↦ rw s (
                Keeps-trans (memory-Keeps k second.1) (
                  Keeps-trans
                    (install_idle-Keeps idle_entry _ _ x refl (λ all. all 0 (omega arith)))
                    (created-Keeps _)))
          ])
        ])

  scheduler-IsConsistent :
      (k : Kernel M)
      → k.current_thread ≡ no_thread
      → IsConsistent k
      → IsConsistent (schedule_from_scheduler paging k)
  unfolding schedule_from_scheduler
  scheduler-IsConsistent k at c =
      let paused : IsPaused k = record {
        fair = c.fair;
        waiters = c.waiters;
        none_runs = λ t h pos. elim (Bool-cases (is_running (k.threads t).state)) [
          | inl r ↦ absurd (omega (arith, c.alone t h pos r))
          | inr r ↦ r
        ];
      } in
      Keeps-IsConsistent (registers-Keeps _ _ _) (taken-IsConsistent k paused).1

  pub start-IsConsistent :
      (idle_entry_point : ℕ) (k : Kernel M)
      → k.current_thread ≡ no_thread
      → is_exited (k.threads 0).state ≡ true
      → IsConsistent k
      → IsConsistent (or_halted k (start paging idle_entry_point k))
  unfolding start
  start-IsConsistent idle_entry_point k at x c =
      let keeps = ensure_idle-Keeps idle_entry_point k x in
      elim (Option-cases (ensure_idle paging idle_entry_point k)) [
        | inl e ↦ rw (e, start) c
        | inr (k', e) ↦
            let kept : Keeps k k' = rw e at keeps in
            rw (e, start)
              (scheduler-IsConsistent k' (kept.current ∙ at) (Keeps-IsConsistent kept c))
      ]
