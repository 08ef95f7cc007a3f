-- ===== src/Threads/Safety/Changes.antt =====
-- The remaining calls of kernel-core/src/threads.rs that change the entry of one thread.
use open_kernel.Prelude.{
  ℕ, ◌<◌, ◌≡◌, inl, inr, refl, sym, ◌==◌, ◌&&◌, some, false, not, Bool-cases, Option-cases, arith,
}
use open_kernel.Threads.State.{
  Kernel, Paging, max_threads, is_exited, is_ready, is_running, set_thread, UserContext,
  SyscallState, no_thread, owner_process,
}
use open_kernel.Threads.Process.{terminated_thread, child_main_thread, terminate_process}
use open_kernel.Threads.Context.{
  save_user_context, save_syscall_state, runs_user, set_current_user_fs_base,
}
use open_kernel.Threads.Safety.Invariant.{
  AllWaitersIn, IsConsistent, set_thread-IsFair, flag-update,
}
use open_kernel.Threads.Safety.Keeps.{
  Keeps, Keeps-refl, Keeps-trans, set_thread-Keeps, waiters-update, wake_waiters-Keeps,
}
use open_kernel.Threads.Safety.Suspends.{current_in_table}

module _ {M : Type 0} (paging : Paging M) where
  -- The saved registers of the current user thread change no state.
  pub save_user_context-Keeps :
      (context : UserContext) (k : Kernel M)
      → IsConsistent k
      → Keeps k (save_user_context context k)
  unfolding save_user_context
  save_user_context-Keeps context k c = elim (Bool-cases (runs_user k)) [
    | inr g ↦ rw g (Keeps-refl k)
    | inl g ↦ rw g (
        set_thread-Keeps k.current_thread _ k refl
          (λ all. all k.current_thread (current_in_table paging k c (ground arith))))
  ]

  pub save_syscall_state-Keeps :
      (s : SyscallState) (k : Kernel M) → IsConsistent k → Keeps k (save_syscall_state s k)
  unfolding save_syscall_state
  save_syscall_state-Keeps s k c = elim (Bool-cases (not (k.current_thread == no_thread))) [
    | inr g ↦ rw g (Keeps-refl k)
    | inl g ↦ rw g (
        set_thread-Keeps k.current_thread _ k refl
          (λ all. all k.current_thread (current_in_table paging k c (ground arith))))
  ]

  pub set_fs_base-Keeps :
      (base : ℕ) (k : Kernel M)
      → IsConsistent k
      → Keeps k (set_current_user_fs_base paging base k).1
  unfolding set_current_user_fs_base
  set_fs_base-Keeps base k c = elim (Bool-cases (runs_user k)) [
    | inr g ↦ rw g (Keeps-refl k)
    | inl g ↦ elim (Bool-cases (not (base == 0) && not (paging.is_user_mapped base k.memory))) [
      | inl u ↦ rw (g, u) (Keeps-refl k)
      | inr u ↦
          rw (g, u)
            (set_thread-Keeps k.current_thread _ k refl
              (λ all. all k.current_thread (current_in_table paging k c (ground arith))))
    ]
  ]

-- The thread that `terminate_process` kills is neither in the run queue nor running.
abbrev pub IsStill : {M : Type 0} → ℕ → Kernel M → Type 0
IsStill process k =
    (parent thread : ℕ)
    → owner_process k ≡ some parent
    → child_main_thread process parent k ≡ some thread
    → (thread < max_threads)
      × (is_ready (k.threads thread).state ≡ false)
      × (is_running (k.threads thread).state ≡ false)

module _ {M : Type 0} where
  pub terminate_process-Keeps :
      (process : ℕ) (k : Kernel M)
      → AllWaitersIn k
      → IsStill process k
      → Keeps k (terminate_process process k).1
  unfolding terminate_process
  terminate_process-Keeps process k w still = elim (Option-cases (owner_process k)) [
    | inl e ↦ rw (e, terminate_process) (Keeps-refl k)
    | inr (parent, e) ↦ elim (Option-cases (child_main_thread process parent k)) [
      | inl m ↦ rw (e, m, terminate_process) (Keeps-refl k)
      | inr (thread, m) ↦
          let h = still parent thread e m in
          let t = k.threads thread in
          elim (Bool-cases (is_exited t.state)) [
            | inl x ↦ rw (e, m, x, terminate_process) (Keeps-refl k)
            | inr x ↦
                rw (e, m, x, terminate_process)
                  (Keeps-trans (killed-Keeps thread k h.0 h.1 h.2) (
                    wake_waiters-Keeps t.join_waiters 0 t.join_waiter_count _
                      (λ j lo hi. w thread h.0 j (omega arith))))
          ]
    ]
  ]
    where
      killed-Keeps :
          (thread : ℕ) (k : Kernel M)
          → thread < max_threads
          → is_ready (k.threads thread).state ≡ false
          → is_running (k.threads thread).state ≡ false
          → Keeps k (set_thread thread (terminated_thread (k.threads thread)) k)
      killed-Keeps thread k h nr nn = record {
        fair = set_thread-IsFair thread (terminated_thread (k.threads thread)) k (sym nr);
        current = refl;
        running_same = λ u. flag-update is_running k thread _ u (sym nn);
        waiters = λ all. waiters-update thread _ k (all thread h) all;
      }
