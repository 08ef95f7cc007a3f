-- ===== src/Threads/Outcomes/Tests.antt =====
-- Runs of the calls of kernel-core/src/threads.rs on one machine.
use open_kernel.Threads.Outcomes.Created.{IsNumbered}
use open_kernel.Prelude.{
  inl, inr, sym, ap, Bool-cases, ==_iff, ℕ, ◌+◌, ◌≡◌, refl, ◌==◌, if◌then◌else◌, true, false,
  Option, none, some, arith, first_from,
}
use open_kernel.Threads.State.{
  Kernel, Thread, Paging, ThreadState, ready, running, blocked, exited, context_at, empty_process,
  empty_thread, boot_kernel, owner_process, current_id, process_id, is_exited,
}
use open_kernel.Threads.Queue.{next_ready}
use open_kernel.Threads.Queue.Fifo.{IsQueue, waiting, skip_exited, next_ready_refines}
use open_kernel.Threads.Switch.{leave}
use open_kernel.Threads.Join.{try_join}
use open_kernel.Threads.Process.{try_wait_process, child_main_thread}
use open_kernel.Threads.Outcomes.Exits.{is_waiter, woken_state, leave-state}
use open_kernel.Threads.Outcomes.Processes.{WaitOutcome, try_wait_process-Waited}

-- Paging that hands out addresses one after the other.
abbrev paging : Paging ℕ
paging = record {
  allocate_kernel_stack = λ slot m. (some (m + 0x1000), m + 0x1000);
  release_kernel_stack = λ slot m. m;
  allocate_user_stack = λ slot m. (some (m + 0x1000), m + 0x1000);
  release_user_stack = λ slot m. m;
  destroy_user_address_space = λ space m. m;
  switch_address_space = λ space m. m;
  is_user_executable = λ address m. true;
  is_user_mapped = λ address m. true;
}

abbrev thread_in : ThreadState → Option ℕ → Thread
thread_in s process = record empty_thread {
  state = s;
  process = process;
  reapable = false;
  exit_status = 7;
  join_waiters = λ _. 2;
  join_waiter_count = 1;
}

-- Thread 1 runs for process 1, whose child, process 2, has the exited thread 3. Thread 2 waits for
-- all of them.
abbrev machine : Kernel ℕ
machine = record (boot_kernel 0x4000 (context_at 0x900)) {
  threads = λ i.
      if i == 1
      then thread_in running (some 1)
      else if i == 2
      then thread_in blocked (some 1)
      else if i == 3
      then thread_in exited (some 2)
      else empty_thread;
  current_thread = 1;
  run_queue = λ i. i;
  run_head = 7;
  run_tail = 1;
  run_count = 2;
  processes = λ i.
      if i == 0
      then record { id = 1; address_space = 100; parent = none; main_thread = none }
      else if i == 1
      then record { id = 2; address_space = 200; parent = some 1; main_thread = some 3 }
      else empty_process;
}

machine-IsQueue : IsQueue machine
machine-IsQueue = record { head_in = omega arith; count_in = omega arith; tail_at = refl }

next_ready_example :
    let (taken, k') = next_ready machine in
    ((taken, waiting k') ≡ skip_exited (λ t. is_exited (machine.threads t).state) (waiting machine))
    × IsQueue k'
next_ready_example = next_ready_refines machine machine-IsQueue

leave_example :
    ((leave 1 9 machine).threads 2).state ≡ woken_state (is_waiter (λ _. 2) 0 1 2) blocked
leave_example = leave-state 1 9 2 machine (λ e. absurd (omega (arith, e)))

waiter_is_woken : woken_state (is_waiter (λ _. 2) 0 1 2) blocked ≡ ready
unfolding is_waiter
waiter_is_woken = refl

machine-IsNumbered : IsNumbered machine
machine-IsNumbered i h = elim (Bool-cases (i == 0)) [
  | inl e ↦ rw e (inl (sym (ap (λ j. j + 1) ((==_iff i 0).0 e))))
  | inr n ↦ elim (Bool-cases (i == 1)) [
    | inl e ↦ rw (n, e) (inl (sym (ap (λ j. j + 1) ((==_iff i 1).0 e))))
    | inr m ↦ rw (n, m) (inr refl)
  ]
]

waited : (try_wait_process paging 2 machine).0 ≡ some 7
unfolding try_wait_process owner_process current_id process_id child_main_thread first_from try_join
waited = refl

try_wait_process_example : WaitOutcome paging 2 machine (try_wait_process paging 2 machine)
try_wait_process_example =
    try_wait_process-Waited paging 2 machine machine-IsNumbered (λ e. absurd (omega (arith, e)))
