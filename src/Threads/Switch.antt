-- ===== src/Threads/Switch.antt =====
-- Switching, yielding, blocking, waking and exiting (kernel-core/src/threads.rs).
use open_kernel.Prelude.{
  ℕ, zero, suc, ◌+◌, if◌then◌else◌, ◌==◌, leb, Option, none, some, Bool, true, false, not, ◌||◌,
  first_from, is_some_of,
}
use open_kernel.Threads.State.{
  Kernel, Thread, ready, running, blocked, exited, is_blocked, Process, Paging, max_threads,
  no_thread, idle_thread, user_process_id, set_thread, set_state, process_address_space,
}
use open_kernel.Threads.Queue.{enqueue, next_ready}

abbrev pub or_idle : Option ℕ → ℕ
or_idle none = idle_thread
or_idle (some thread) = thread

-- `for record in PROCESSES.iter_mut()`
abbrev pub reparented : ℕ → (ℕ → Process) → ℕ → Process
reparented process processes i =
    if is_some_of (processes i).parent process
    then record (processes i) { parent = some user_process_id }
    else processes i

-- What `exit_current_with_status` leaves in the entry of the thread.
abbrev pub exited_thread : ℕ → Thread → Thread
exited_thread status t = record t {
  state = exited;
  entry = none;
  exit_status = status;
  reapable = not t.is_user;
}

module _ {M : Type 0} where
  -- `scheduler_context_switch` between two entries of `THREADS`: it saves the registers, then loads
  -- those of the other.
  unfoldable pub context_switch : ℕ → ℕ → Kernel M → Kernel M
  context_switch from to k =
      let saved = set_thread from (record (k.threads from) { context = k.cpu }) k in
      record saved { cpu = (saved.threads to).context }

  -- `for waiter_index in i..i + n`: those still blocked are made ready.
  unfoldable pub wake_waiters : (ℕ → ℕ) → ℕ → ℕ → Kernel M → Kernel M
  wake_waiters waiters i zero k = k
  wake_waiters waiters i (suc n) k =
      let waiter = waiters i in
      wake_waiters waiters (i + 1) n (
        if is_blocked (k.threads waiter).state
        then enqueue waiter (set_state waiter ready k)
        else k)

  unfoldable pub reparent_children_of_exited_process : ℕ → Kernel M → Kernel M
  reparent_children_of_exited_process thread k =
      elim (first_from (λ i. is_some_of (k.processes i).main_thread thread) 0 max_threads) [
        | none ↦ k
        | some i ↦ record k { processes = reparented (k.processes i).id k.processes }
      ]

  unfoldable pub wake : ℕ → Kernel M → Bool × Kernel M
  wake thread k =
      if leb max_threads thread
      then (false, k)
      else if not (is_blocked (k.threads thread).state)
      then (false, k)
      else (true, enqueue thread (set_state thread ready k))

  unfoldable pub request_preemption : Kernel M → Kernel M
  request_preemption k = record k { preempt_requested = true }

  -- Up to the switch, without it.
  unfoldable pub leave : ℕ → ℕ → Kernel M → Kernel M
  leave current status k =
      let t = k.threads current in
      reparent_children_of_exited_process current (
        wake_waiters t.join_waiters 0 t.join_waiter_count
          (set_thread current (exited_thread status t) k))

module _ {M : Type 0} (paging : Paging M) where
  -- The address space that the scheduler loads for a user thread.
  unfoldable pub enter_address_space : Thread → Kernel M → Kernel M
  enter_address_space thread k =
      if thread.is_user
      then (elim thread.process [
        | none ↦ k
        | some process ↦ elim (process_address_space process k) [
          | none ↦ k
          | some space ↦ record k { memory = paging.switch_address_space space k.memory }
        ]
      ])
      else k

  -- The flag says whether the processor went to another thread; what follows the call in the
  -- source then runs only when that thread switches back.
  unfoldable pub schedule_from_current : ℕ → Kernel M → Bool × Kernel M
  schedule_from_current current k =
      let (taken, k') = next_ready k in
      let next = or_idle taken in
      if next == current then (false, set_state current running k') else (
        true,
        context_switch current next (
            enter_address_space (k'.threads next)
              (set_state next running (record k' { current_thread = next }))),
      )

  unfoldable pub schedule_from_scheduler : Kernel M → Kernel M
  schedule_from_scheduler k =
      let (taken, k') = next_ready k in
      let next = or_idle taken in
      let chosen = set_state next running (record k' { current_thread = next }) in
      record chosen { scheduler_context = chosen.cpu; cpu = (chosen.threads next).context }

  unfoldable pub yield_now : Kernel M → Bool × Kernel M
  yield_now k =
      let current = k.current_thread in
      if current == no_thread
      then (false, k)
      else schedule_from_current current
          (if current == idle_thread then k else enqueue current (set_state current ready k))

  unfoldable pub block_current : Kernel M → Bool × Kernel M
  block_current k =
      let current = k.current_thread in
      if current == no_thread || current == idle_thread
      then (false, k)
      else schedule_from_current current (set_state current blocked k)

  -- The call does not return: for no thread or the idle thread it goes on in `idle_loop`.
  unfoldable pub exit_current_with_status : ℕ → Kernel M → Kernel M
  exit_current_with_status status k =
      let current = k.current_thread in
      if current == no_thread || current == idle_thread
      then k
      else (schedule_from_current current (leave current status k)).1

  unfoldable pub exit_current : Kernel M → Kernel M
  exit_current k = exit_current_with_status 0 k
