-- ===== src/Threads/Process.antt =====
-- Processes: creating, waiting, reaping and terminating (kernel-core/src/threads.rs).
use open_kernel.Prelude.{
  ℕ, ◌+◌, ◌-◌, if◌then◌else◌, ◌==◌, Option, none, some, Bool, true, false, ◌&&◌, first_from,
  is_some_of,
}
use open_kernel.Threads.State.{
  Kernel, Thread, exited, is_exited, Process, empty_process, Paging, max_threads, no_thread,
  user_process_id, set_thread, set_process, owner_process, find_process,
}
use open_kernel.Threads.Switch.{wake_waiters}
use open_kernel.Threads.Join.{Progress, returned, suspended, join, join_resume, try_join}

-- `TERMINATED_STATUS`
abbrev pub terminated_status : ℕ
terminated_status = 0x8000_0000_0000_0000

abbrev pub is_child : ℕ → ℕ → Process → Bool
is_child process parent record_ = record_.id == process && is_some_of record_.parent parent

-- What `terminate_process` leaves in the entry of the thread.
abbrev pub terminated_thread : Thread → Thread
terminated_thread t = record t { state = exited; entry = none; exit_status = terminated_status }

module _ {M : Type 0} where
  unfoldable pub initialize_user_process : ℕ → Kernel M → Kernel M
  initialize_user_process address_space k =
      set_process 0
        (record {
          id = user_process_id;
          address_space = address_space;
          parent = none;
          main_thread = none;
        })
        k

  unfoldable pub create_process : ℕ → Kernel M → Option ℕ × Kernel M
  create_process address_space k =
      elim (first_from (λ i. (k.processes i).id == no_thread) 1 (max_threads - 1)) [
        | none ↦ (none, k)
        | some slot ↦ (
          some (slot + 1),
          set_process slot
              (record {
                id = slot + 1;
                address_space = address_space;
                parent = owner_process k;
                main_thread = none;
              })
              k,
        )
      ]

  unfoldable pub set_process_main_thread : ℕ → ℕ → Kernel M → Kernel M
  set_process_main_thread process thread k = elim (find_process process k) [
    | none ↦ k
    | some i ↦ set_process i (record (k.processes i) { main_thread = some thread }) k
  ]

  -- The main thread of a child of the given process.
  unfoldable pub child_main_thread : ℕ → ℕ → Kernel M → Option ℕ
  child_main_thread process parent k =
      elim (first_from (λ i. is_child process parent (k.processes i)) 0 max_threads) [
        | none ↦ none
        | some i ↦ (k.processes i).main_thread
      ]

  unfoldable pub terminate_process : ℕ → Kernel M → Bool × Kernel M
  terminate_process process k = elim (owner_process k) [
    | none ↦ (false, k)
    | some current_process ↦ elim (child_main_thread process current_process k) [
      | none ↦ (false, k)
      | some main_thread ↦
          let t = k.threads main_thread in
          if is_exited t.state then (true, k) else (
            true,
            wake_waiters t.join_waiters 0 t.join_waiter_count
                (set_thread main_thread (terminated_thread t) k),
          )
    ]
  ]

  -- The search of `reap_any_child`: a child whose main thread has exited.
  abbrev pub is_dead_child : ℕ → Kernel M → ℕ → Bool
  is_dead_child parent k i = elim (k.processes i).main_thread [
    | none ↦ false
    | some main_thread ↦
        is_some_of (k.processes i).parent parent && is_exited (k.threads main_thread).state
  ]

module _ {M : Type 0} (paging : Paging M) where
  -- What follows the join in `wait_process`, `try_wait_process` and `reap_any_child`: the address
  -- space is destroyed and the entry freed.
  unfoldable pub forget_process : ℕ → Kernel M → Kernel M
  forget_process process k = elim (find_process process k) [
    | none ↦ k
    | some i ↦ record (set_process i empty_process k) {
      memory = paging.destroy_user_address_space (k.processes i).address_space k.memory;
    }
  ]

  abbrev pub after_join : ℕ → Option ℕ × Kernel M → Option ℕ × Kernel M
  after_join process (none, k) = (none, k)
  after_join process (some status, k) = (some status, forget_process process k)

  unfoldable pub try_wait_process : ℕ → Kernel M → Option ℕ × Kernel M
  try_wait_process process k = elim (owner_process k) [
    | none ↦ (none, k)
    | some current_process ↦ elim (child_main_thread process current_process k) [
      | none ↦ (none, k)
      | some main_thread ↦ after_join process (try_join main_thread k)
    ]
  ]

  -- `wait_process` up to the point where it returns or blocks; `wait_resume` is the rest.
  unfoldable pub wait_process : ℕ → Kernel M → Progress (Option ℕ) × Kernel M
  wait_process process k = elim (owner_process k) [
    | none ↦ (returned none, k)
    | some current_process ↦ elim (child_main_thread process current_process k) [
      | none ↦ (returned none, k)
      | some main_thread ↦
          let (progress, k') = join paging main_thread k in
          elim progress [
            | suspended ↦ (suspended, k')
            | returned status ↦
                let (result, k'') = after_join process (status, k') in (returned result, k'')
          ]
    ]
  ]

  unfoldable pub wait_resume : ℕ → ℕ → Kernel M → Option ℕ × Kernel M
  wait_resume process main_thread k = after_join process (join_resume main_thread k)

  unfoldable pub reap_any_child : Kernel M → Option (ℕ × ℕ) × Kernel M
  reap_any_child k = elim (owner_process k) [
    | none ↦ (none, k)
    | some current_process ↦ elim (first_from (is_dead_child current_process k) 0 max_threads) [
      | none ↦ (none, k)
      | some i ↦ elim (k.processes i).main_thread [
        | none ↦ (none, k)
        | some main_thread ↦
            let process = (k.processes i).id in
            let (status, k') = after_join process (try_join main_thread k) in
            elim status [ none ↦ (none, k') | some value ↦ (some (process, value), k') ]
      ]
    ]
  ]
