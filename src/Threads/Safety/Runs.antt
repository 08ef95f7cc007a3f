-- ===== src/Threads/Safety/Runs.antt =====
-- Runs of the calls of kernel-core/src/threads.rs, from the boot of the kernel.
use open_kernel.Prelude.{
  ℕ, ◌<◌, ◌≡◌, inl, refl, sym, Option, true, true≢false, List, [], ◌∷◌, arith,
}
use open_kernel.Threads.State.{
  Kernel, Paging, max_threads, no_thread, is_exited, UserContext, SyscallState, boot_kernel,
  Context,
}
use open_kernel.Threads.Queue.Fifo.{waiting}
use open_kernel.Threads.Switch.{
  yield_now, block_current, exit_current_with_status, wake, request_preemption,
}
use open_kernel.Threads.Spawn.{UserStart, spawn, spawn_user, spawn_user_for_process, start}
use open_kernel.Threads.Join.{join_resume, try_join, join}
use open_kernel.Threads.Process.{
  initialize_user_process, create_process, set_process_main_thread, terminate_process,
  try_wait_process, wait_process, wait_resume, reap_any_child,
}
use open_kernel.Threads.Context.{save_user_context, save_syscall_state, set_current_user_fs_base}
use open_kernel.Prelude.Windows.{window, window_of_zero}
use open_kernel.Threads.Safety.Occurrences.{occurs}
use open_kernel.Threads.Safety.Invariant.{IsConsistent}
use open_kernel.Threads.Safety.Keeps.{
  Keeps, Keeps-trans, Keeps-IsConsistent, wake-Keeps, same-Keeps,
}
use open_kernel.Threads.Safety.Suspends.{
  yield_now-IsConsistent, block_current-IsConsistent, exit_current_with_status-IsConsistent,
}
use open_kernel.Threads.Safety.Starts.{
  spawn-Keeps, spawn_user-Keeps, spawn_user_for_process-Keeps, or_halted,
}
use open_kernel.Threads.Safety.Boots.{start-IsConsistent}
use open_kernel.Threads.Safety.Calls.{
  try_join-Keeps, join_resume-Keeps, create_process-Keeps, set_process-Keeps,
  set_process_main_thread-Keeps, try_wait_process-Keeps, reap_any_child-Keeps, join-IsConsistent,
  wait_process-IsConsistent, after_join-Keeps,
}
use open_kernel.Threads.Safety.Changes.{
  save_user_context-Keeps, save_syscall_state-Keeps, set_fs_base-Keeps, terminate_process-Keeps,
  IsStill,
}

-- A call of the module, with its arguments. The `_resume` calls are what is left of a call that
-- blocked.
pub data ThreadCall : Type 0 where
  call_yield call_block call_reap_any call_preempt : ThreadCall
  call_exit call_wake call_spawn call_join call_try_join : ℕ → ThreadCall
  call_join_resume call_create call_wait call_try_wait call_initialize : ℕ → ThreadCall
  call_terminate call_set_fs_base : ℕ → ThreadCall
  call_set_main call_wait_resume : ℕ → ℕ → ThreadCall
  call_start : ℕ → ThreadCall
  call_spawn_user : UserStart → Option ℕ → ThreadCall
  call_spawn_user_for : ℕ → UserStart → Option ℕ → ThreadCall
  call_save : UserContext → ThreadCall
  call_save_syscall : SyscallState → ThreadCall

module _ {M : Type 0} where
  preempt-Keeps : (k : Kernel M) → Keeps k (record k { preempt_requested = true })
  unfolding waiting
  preempt-Keeps k =
      same-Keeps k (record k { preempt_requested = true }) refl
        (λ q. record { head_in = q.head_in; count_in = q.count_in; tail_at = q.tail_at }) refl refl

  boot-IsConsistent : (memory : M) (cpu : Context) → IsConsistent (boot_kernel memory cpu)
  unfolding waiting occurs
  boot-IsConsistent memory cpu = record {
    fair =
        let empty : window 8 (λ _. no_thread) 0 0 ≡ [] =
          window_of_zero 8 (λ _. no_thread) 0 0 refl in
        record {
          queue = record { head_in = omega arith; count_in = omega arith; tail_at = refl };
          entries = rw empty tt;
          counted = λ t h. rw empty refl;
        };
    waiters = λ t h j hj. absurd (omega (arith, hj));
    current_in = inl refl;
    current_runs = λ lt. absurd (omega (arith, lt));
    alone = λ t h pos r. absurd (true≢false (sym r));
  }

module _ {M : Type 0} (paging : Paging M) where
  unfoldable pub perform : ThreadCall → Kernel M → Kernel M
  perform call_yield k = (yield_now paging k).1
  perform call_block k = (block_current paging k).1
  perform call_reap_any k = (reap_any_child paging k).1
  perform call_preempt k = request_preemption k
  perform (call_exit status) k = exit_current_with_status paging status k
  perform (call_wake thread) k = (wake thread k).1
  perform (call_spawn entry) k = (spawn paging entry k).1
  perform (call_join thread) k = (join paging thread k).1
  perform (call_try_join thread) k = (try_join thread k).1
  perform (call_join_resume thread) k = (join_resume thread k).1
  perform (call_create address_space) k = (create_process address_space k).1
  perform (call_wait process) k = (wait_process paging process k).1
  perform (call_try_wait process) k = (try_wait_process paging process k).1
  perform (call_initialize address_space) k = initialize_user_process address_space k
  perform (call_terminate process) k = (terminate_process process k).1
  perform (call_set_fs_base base) k = (set_current_user_fs_base paging base k).1
  perform (call_set_main process thread) k = set_process_main_thread process thread k
  perform (call_wait_resume process thread) k = (wait_resume paging process thread k).1
  perform (call_spawn_user start stack) k = (spawn_user paging start stack k).1
  perform (call_start idle_entry_point) k = or_halted k (start paging idle_entry_point k)
  perform (call_spawn_user_for process start stack) k =
      (spawn_user_for_process paging process start stack k).1
  perform (call_save context) k = save_user_context context k
  perform (call_save_syscall s) k = save_syscall_state s k

  unfoldable pub perform_all : List ThreadCall → Kernel M → Kernel M
  perform_all [] k = k
  perform_all (c ∷ cs) k = perform_all cs (perform c k)

  -- What a call relies on: a resumed join is of a thread of the table, a killed thread is neither
  -- ready nor running, and the scheduler is started while there is neither a current thread nor an
  -- idle one.
  unfoldable pub IsAllowed : ThreadCall → Kernel M → Type 0
  IsAllowed (call_join_resume thread) k = thread < max_threads
  IsAllowed (call_wait_resume process thread) k = thread < max_threads
  IsAllowed (call_terminate process) k = IsStill process k
  IsAllowed (call_start idle_entry_point) k =
      (k.current_thread ≡ no_thread) × (is_exited (k.threads 0).state ≡ true)
  IsAllowed _ k = Unit

  -- Every call of the run is allowed in the state that it is made in.
  unfoldable pub AllAllowed : List ThreadCall → Kernel M → Type 0
  AllAllowed [] k = Unit
  AllAllowed (c ∷ cs) k = IsAllowed c k × AllAllowed cs (perform c k)

  perform-IsConsistent :
      (c : ThreadCall) (k : Kernel M) → IsAllowed c k → IsConsistent k → IsConsistent (perform c k)
  unfolding perform IsAllowed request_preemption initialize_user_process wait_resume
  perform-IsConsistent call_yield k a c = yield_now-IsConsistent paging k c
  perform-IsConsistent call_block k a c = block_current-IsConsistent paging k c
  perform-IsConsistent call_reap_any k a c = Keeps-IsConsistent (reap_any_child-Keeps paging k) c
  perform-IsConsistent call_preempt k a c = Keeps-IsConsistent (preempt-Keeps k) c
  perform-IsConsistent (call_exit status) k a c =
      exit_current_with_status-IsConsistent paging status k c
  perform-IsConsistent (call_wake thread) k a c = Keeps-IsConsistent (wake-Keeps thread k) c
  perform-IsConsistent (call_spawn entry) k a c = Keeps-IsConsistent (spawn-Keeps paging entry k) c
  perform-IsConsistent (call_join thread) k a c = join-IsConsistent paging thread k c
  perform-IsConsistent (call_try_join thread) k a c = Keeps-IsConsistent (try_join-Keeps thread k) c
  perform-IsConsistent (call_join_resume thread) k a c =
      Keeps-IsConsistent (join_resume-Keeps thread k a) c
  perform-IsConsistent (call_create address_space) k a c =
      Keeps-IsConsistent (create_process-Keeps address_space k) c
  perform-IsConsistent (call_wait process) k a c = wait_process-IsConsistent paging process k c
  perform-IsConsistent (call_try_wait process) k a c =
      Keeps-IsConsistent (try_wait_process-Keeps paging process k) c
  perform-IsConsistent (call_initialize address_space) k a c =
      Keeps-IsConsistent (set_process-Keeps 0 _ k) c
  perform-IsConsistent (call_terminate process) k a c =
      Keeps-IsConsistent (terminate_process-Keeps process k c.waiters a) c
  perform-IsConsistent (call_set_fs_base base) k a c =
      Keeps-IsConsistent (set_fs_base-Keeps paging base k c) c
  perform-IsConsistent (call_set_main process thread) k a c =
      Keeps-IsConsistent (set_process_main_thread-Keeps process thread k) c
  perform-IsConsistent (call_wait_resume process thread) k a c =
      let out = join_resume thread k in
      Keeps-IsConsistent
        (Keeps-trans (join_resume-Keeps thread k a) (after_join-Keeps paging process out.0 out.1)) c
  perform-IsConsistent (call_spawn_user start stack) k a c =
      Keeps-IsConsistent (spawn_user-Keeps paging start stack k) c
  perform-IsConsistent (call_spawn_user_for process start stack) k a c =
      Keeps-IsConsistent (spawn_user_for_process-Keeps paging process start stack k) c
  perform-IsConsistent (call_save_syscall s) k a c =
      Keeps-IsConsistent (save_syscall_state-Keeps paging s k c) c
  perform-IsConsistent (call_start idle_entry_point) k a c =
      start-IsConsistent paging idle_entry_point k a.0 a.1 c
  perform-IsConsistent (call_save context) k a c =
      Keeps-IsConsistent (save_user_context-Keeps paging context k c) c

  run_keeps :
      (cs : List ThreadCall) (k : Kernel M)
      → AllAllowed cs k
      → IsConsistent k
      → IsConsistent (perform_all cs k)
  unfolding AllAllowed perform_all
  run_keeps [] k a c = c
  run_keeps (call ∷ rest) k a c =
      run_keeps rest (perform call k) a.1 (perform-IsConsistent call k a.0 c)

  -- After every run of the calls that `ThreadCall` lists, from the boot of the kernel, a thread waits
  -- in the run queue exactly once if it is ready and not at all otherwise, the entries of the queue
  -- and the waiters of the threads are in the table, and of the threads but the idle one the current
  -- one runs and no other. The calls of the run are allowed: a resumed join is of a thread of the
  -- table, a process is terminated only while its main thread is neither ready nor running, and the
  -- scheduler is started while there is neither a current thread nor an idle one.
  pub perform_all-IsConsistent :
      (cs : List ThreadCall) (memory : M) (cpu : Context)
      → AllAllowed cs (boot_kernel memory cpu)
      → IsConsistent (perform_all cs (boot_kernel memory cpu))
  perform_all-IsConsistent cs memory cpu a =
      run_keeps cs (boot_kernel memory cpu) a (boot-IsConsistent memory cpu)
