-- ===== src/Threads/Outcomes/Exits.antt =====
-- Exiting and switching in kernel-core/src/threads.rs.
use open_kernel.Prelude.{
  ℕ, zero, suc, ◌+◌, ◌≡◌, ◌≢◌, inl, inr, refl, sym, ap, ◌∙◌, Bool, false, ◌&&◌, ◌||◌, if◌then◌else◌,
  ◌==◌, ==_refl, ==_of_ne, update, update_self, update_other, Bool-cases, Option-cases, ℕ_discrete,
  first_from, is_some_of, arith,
}
use open_kernel.Threads.State.{
  Kernel, ThreadState, ready, is_blocked, Context, max_threads, set_thread, set_state,
}
use open_kernel.Threads.Queue.{enqueue}
use open_kernel.Threads.Switch.{
  context_switch, wake_waiters, exited_thread, reparent_children_of_exited_process, leave,
}
use open_kernel.Threads.Safety.Invariant.{threads-enqueue}

-- A thread is one of the waiters from `i` on.
unfoldable pub is_waiter : (ℕ → ℕ) → ℕ → ℕ → ℕ → Bool
is_waiter waiters i zero t = false
is_waiter waiters i (suc n) t = waiters i == t || is_waiter waiters (i + 1) n t

abbrev pub woken_state : Bool → ThreadState → ThreadState
woken_state waits s = if waits && is_blocked s then ready else s

module _ {M : Type 0} where
  wake_one-state :
      (waiter t : ℕ) (k : Kernel M)
      → (let k' =
            (if is_blocked (k.threads waiter).state
              then enqueue waiter (set_state waiter ready k)
              else k) in
          (k'.threads t).state ≡ woken_state (waiter == t) (k.threads t).state)
  wake_one-state waiter t k = elim (Bool-cases (is_blocked (k.threads waiter).state)) [
    | inl b ↦
        rw (b, threads-enqueue waiter (set_state waiter ready k))
          (elim (ℕ_discrete t waiter) [
            | yes at ↦
                rw
                  (
                    at,
                    update_self k.threads waiter (record (k.threads waiter) { state = ready }),
                    ==_refl waiter,
                    b,
                  )
                  refl
            | no ne ↦
                rw
                  (
                    update_other k.threads waiter (record (k.threads waiter) { state = ready }) t
                        ne,
                    ==_of_ne waiter t (λ e. ne (sym e)),
                  )
                  refl
          ])
    | inr b ↦ rw b (elim (ℕ_discrete t waiter) [
      | yes at ↦ rw (at, ==_refl waiter, b) refl
      | no ne ↦ rw (==_of_ne waiter t (λ e. ne (sym e))) refl
    ])
  ]

  -- The waiters that are blocked become ready, and no other state changes.
  pub wake_waiters-state :
      (waiters : ℕ → ℕ) (i n t : ℕ) (k : Kernel M)
      → ((wake_waiters waiters i n k).threads t).state
        ≡ woken_state (is_waiter waiters i n t) (k.threads t).state
  unfolding wake_waiters is_waiter
  wake_waiters-state waiters i zero t k = refl
  wake_waiters-state waiters i (suc n) t k =
      wake_waiters-state waiters (i + 1) n t _
      ∙ ap (woken_state (is_waiter waiters (i + 1) n t)) (wake_one-state (waiters i) t k)
      ∙ twice (is_waiter waiters (i + 1) n t) (waiters i == t) (k.threads t).state
    where
      twice :
          (a b : Bool) (s : ThreadState) → woken_state a (woken_state b s) ≡ woken_state (b || a) s
      twice a b s = ground arith

  reparent_threads :
      (thread : ℕ) (k : Kernel M)
      → (reparent_children_of_exited_process thread k).threads ≡ k.threads
  unfolding reparent_children_of_exited_process
  reparent_threads thread k =
      elim (Option-cases
        (first_from (λ i. is_some_of (k.processes i).main_thread thread) 0 max_threads)) [
          | inl e ↦ rw (e, reparent_children_of_exited_process) refl
          | inr (i, e) ↦ rw (e, reparent_children_of_exited_process) refl
        ]

  -- When a thread exits, every other thread that waits for it in a join and is blocked becomes
  -- ready, and the states of the remaining threads stay.
  pub leave-state :
      (current status t : ℕ) (k : Kernel M)
      → t ≢ current
      → ((leave current status k).threads t).state
        ≡ woken_state
            (is_waiter (k.threads current).join_waiters 0 (k.threads current).join_waiter_count t)
            (k.threads t).state
  unfolding leave
  leave-state current status t k ne =
      let gone = set_thread current (exited_thread status (k.threads current)) k in
      rw
        (reparent_threads current (
          wake_waiters (k.threads current).join_waiters 0 (k.threads current).join_waiter_count
            gone))
        (wake_waiters-state (k.threads current).join_waiters 0 (k.threads current).join_waiter_count
            t gone
          ∙ rw (update_other k.threads current (exited_thread status (k.threads current)) t ne)
              refl)

  -- A thread that is switched away from and, after any changes of the registers, back to, goes on
  -- with the registers it had.
  pub context_switch-back :
      (from to : ℕ) (registers : Context) (k : Kernel M)
      → from ≢ to
      → (context_switch to from (record (context_switch from to k) { cpu = registers })).cpu ≡ k.cpu
  unfolding context_switch
  context_switch-back from to registers k ne =
      let saved = update k.threads from (record (k.threads from) { context = k.cpu }) in
      rw
        (
          update_other saved to (record (saved to) { context = registers }) from ne,
          update_self k.threads from (record (k.threads from) { context = k.cpu }),
        )
        refl
