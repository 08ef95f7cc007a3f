-- ===== src/Threads/Safety/Tests.antt =====
-- A run of the scheduler of kernel-core/src/threads.rs from boot.
use open_kernel.Prelude.{
  ℕ, ◌+◌, ◌≡◌, refl, List, [], ◌∷◌, ◌++◌, length, none, some, true, arith, first_from,
}
use open_kernel.Prelude.Windows.{window}
use open_kernel.Threads.Queue.Fifo.{waiting}
use open_kernel.Threads.Safety.Rotation.{yields, yields-turn}
use open_kernel.Threads.State.{
  Kernel, Paging, empty_syscall_state, context_at, boot_kernel, process_address_space, find_process,
  owner_process, current_id, process_id,
}
use open_kernel.Threads.Queue.{enqueue, dequeue, next_ready, next_ready_loop}
use open_kernel.Threads.Process.{
  initialize_user_process, create_process, set_process_main_thread, terminate_process,
  child_main_thread, try_wait_process, forget_process,
}
use open_kernel.Threads.Join.{try_join}
use open_kernel.Threads.Switch.{schedule_from_scheduler, wake_waiters}
use open_kernel.Threads.Spawn.{
  spawn, free_slot, release_resources, allocate_stacks, install, start, ensure_idle, spawn_user,
  spawn_user_for_process, user_stack_for,
}
use open_kernel.Threads.Safety.Invariant.{IsConsistent}
use open_kernel.Threads.Safety.Runs.{
  ThreadCall, call_start, call_spawn, call_yield, call_join, call_join_resume, call_exit,
  call_initialize, call_create, call_block, call_wake, call_preempt, call_spawn_user,
  call_spawn_user_for, call_save_syscall, call_set_main, call_terminate, call_try_wait, perform,
  perform_all, AllAllowed, IsAllowed, perform_all-IsConsistent,
}

-- Paging that hands out addresses one after the other.
abbrev paging : Paging ℕ
paging = record {
  allocate_kernel_stack = λ slot m. (some (m + 0x1000), m + 0x1000);
  release_kernel_stack = λ slot m. m;
  allocate_user_stack = λ slot m. (some (m + 0x1000), m + 0x1000);
  release_user_stack = λ slot m. m;
  destroy_user_address_space = λ space m. m;
  switch_address_space = λ space m. m;
  is_user_executable = λ address m. true;
  is_user_mapped = λ address m. true;
}

-- Two threads start; the first joins the second, which exits, and goes on with the status.
abbrev calls : List ThreadCall
calls =
    call_initialize 100
    ∷ call_spawn 0x1000
    ∷ call_spawn 0x2000
    ∷ call_start 0x3000
    ∷ call_preempt
    ∷ call_yield
    ∷ call_join 2
    ∷ call_exit 5
    ∷ call_join_resume 2
    ∷ call_block
    ∷ call_wake 1
    ∷ call_create 200
    ∷ call_spawn_user_for 2 (record { entry = 0x1000; argument = 0; tls_base = 0 }) (some 0x7000)
    ∷ call_save_syscall empty_syscall_state
    ∷ []

calls-AllAllowed : AllAllowed paging calls (boot_kernel 0x4000 (context_at 0))
unfolding AllAllowed IsAllowed perform initialize_user_process spawn free_slot first_from
    release_resources allocate_stacks install enqueue
calls-AllAllowed = (
  tt,
  (
    tt,
    (tt, ((refl, refl), (tt, (tt, (tt, (tt, (omega arith, (tt, (tt, (tt, (tt, (tt, tt)))))))))))),
  ),
)

perform_all_example : IsConsistent (perform_all paging calls (boot_kernel 0x4000 (context_at 0)))
perform_all_example = perform_all-IsConsistent paging calls 0x4000 (context_at 0) calls-AllAllowed

-- Thread 1 runs; 2, 3 and the idle thread wait.
abbrev three : List ThreadCall
three = call_spawn 0x1000 ∷ call_spawn 0x2000 ∷ call_spawn 0x3000 ∷ call_start 0x4000 ∷ []

three-AllAllowed : AllAllowed paging three (boot_kernel 0x4000 (context_at 0))
unfolding AllAllowed IsAllowed perform spawn free_slot first_from release_resources allocate_stacks
    install enqueue
three-AllAllowed = (tt, (tt, (tt, ((refl, refl), tt))))

abbrev running_three : Kernel ℕ
running_three = perform_all paging three (boot_kernel 0x4000 (context_at 0))

three-current : running_three.current_thread ≡ 1
unfolding perform_all perform spawn free_slot first_from release_resources allocate_stacks install
    enqueue schedule_from_scheduler start ensure_idle next_ready next_ready_loop dequeue
three-current = refl

three-waiting : waiting running_three ≡ (2 ∷ []) ++ (3 ∷ 0 ∷ [])
unfolding perform_all perform spawn free_slot first_from release_resources allocate_stacks install
    enqueue schedule_from_scheduler start ensure_idle next_ready next_ready_loop dequeue waiting
    window
three-waiting = refl

yields-turn_example : (yields paging (length {A = ℕ} (2 ∷ []) + 1) running_three).current_thread ≡ 3
yields-turn_example =
    yields-turn paging (2 ∷ []) (0 ∷ []) 3 running_three
      (perform_all-IsConsistent paging three 0x4000 (context_at 0) three-AllAllowed)
      (omega (arith, three-current)) three-waiting

-- A parent starts a process whose thread has not run yet, terminates and reaps it, and starts a
-- thread, which takes the freed entry: the entry then waits twice in the run queue.
abbrev reused : List ThreadCall
reused =
    call_initialize 100
    ∷ call_spawn_user (record { entry = 0x1000; argument = 0; tls_base = 0 }) none
    ∷ call_start 0x3000
    ∷ call_create 200
    ∷ call_spawn 0x2000
    ∷ call_set_main 2 2
    ∷ call_terminate 2
    ∷ call_try_wait 2
    ∷ call_spawn 0x2000
    ∷ []

reused-queued_twice :
    let k = perform_all paging reused (boot_kernel 0x4000 (context_at 0)) in
    (k.run_head ≡ 1) × (k.run_count ≡ 3) × (k.run_queue 2 ≡ 2) × (k.run_queue 3 ≡ 2)
unfolding perform_all perform initialize_user_process spawn free_slot first_from release_resources
    allocate_stacks install enqueue create_process set_process_main_thread terminate_process
    child_main_thread try_wait_process forget_process try_join schedule_from_scheduler wake_waiters
    start ensure_idle spawn_user spawn_user_for_process user_stack_for process_address_space
    find_process owner_process current_id process_id next_ready next_ready_loop dequeue
reused-queued_twice = (refl, refl, refl, refl)
