-- ===== src/Threads/Spawn.antt =====
-- Starting threads, and reusing the entries of dead ones (kernel-core/src/threads.rs).
use open_kernel.Prelude.{
  ℕ, ◌+◌, ◌-◌, if◌then◌else◌, ◌==◌, leb, Option, none, some, update, Bool, true, false, not, ◌||◌,
  ◌&&◌, first_from, has_value,
}
use open_kernel.Threads.State.{
  Kernel, Thread, ready, is_exited, Paging, Trampoline, thread_trampoline, user_thread_trampoline,
  idle_entry, empty_user_context, context_at, empty_syscall_state, max_threads, no_thread,
  idle_thread, user_process_id, set_thread, process_address_space,
}
use open_kernel.Threads.Queue.{enqueue}
use open_kernel.Threads.Switch.{schedule_from_scheduler}

-- `for slot in 1..MAX_THREADS`, with `continue` for an entry that is alive or not yet reaped.
abbrev pub is_reusable : Thread → Bool
is_reusable t = is_exited t.state && t.reapable

-- What `spawn` stores in the entry.
abbrev pub kernel_thread : ℕ → ℕ → ℕ → Thread
kernel_thread entry stack_top syscall_stack_top = record {
  context = context_at (stack_top - 16);
  entry = some entry;
  process = none;
  user_context = empty_user_context;
  is_user = false;
  state = ready;
  syscall_state = empty_syscall_state;
  stack_top = stack_top;
  syscall_stack_top = syscall_stack_top;
  stack_allocated = true;
  owns_user_stack = false;
  reapable = false;
  exit_status = 0;
  join_waiters = λ _. no_thread;
  join_waiter_count = 0;
}

-- The arguments that a user thread starts with.
pub record UserStart : Type 0 where
  pub entry : ℕ
  pub argument : ℕ
  pub tls_base : ℕ

-- What `spawn_user_for_process` stores in the entry.
abbrev pub user_thread : ℕ → UserStart → ℕ → Bool → ℕ → ℕ → Thread
user_thread process start user_stack owns_user_stack stack_top syscall_stack_top = record {
  context = context_at (stack_top - 16);
  entry = none;
  process = some process;
  user_context = record empty_user_context {
    rip = start.entry;
    rsp = user_stack;
    rdi = start.argument;
    fs_base = start.tls_base;
  };
  is_user = true;
  state = ready;
  syscall_state = empty_syscall_state;
  stack_top = stack_top;
  syscall_stack_top = syscall_stack_top;
  stack_allocated = true;
  owns_user_stack = owns_user_stack;
  reapable = false;
  exit_status = 0;
  join_waiters = λ _. no_thread;
  join_waiter_count = 0;
}

module _ {M : Type 0} where
  unfoldable pub free_slot : Kernel M → Option ℕ
  free_slot k = first_from (λ i. is_reusable (k.threads i)) 1 (max_threads - 1)

module _ {M : Type 0} (paging : Paging M) where
  unfoldable pub release_resources : ℕ → Kernel M → Kernel M
  release_resources slot k =
      let t = k.threads slot in
      if not t.stack_allocated
      then k
      else (let m =
            paging.release_kernel_stack (slot + max_threads)
              (paging.release_kernel_stack slot k.memory) in
          record (set_thread slot
            (record t {
              stack_top = 0;
              syscall_stack_top = 0;
              stack_allocated = false;
              owns_user_stack = false;
            })
            k) { memory = if t.owns_user_stack then paging.release_user_stack slot m else m })

  -- `if !thread.stack_allocated { … }`; the flag is false where an allocation fails, and the call
  -- of the source then ends with `None`.
  unfoldable pub allocate_stacks : ℕ → Kernel M → Bool × Kernel M
  allocate_stacks slot k =
      let t = k.threads slot in
      if t.stack_allocated
      then (true, k)
      else (let (top, m) = paging.allocate_kernel_stack slot k.memory in
          elim top [
            | none ↦ (false, record k { memory = m })
            | some stack_top ↦
                let (syscall_top, m') = paging.allocate_kernel_stack (slot + max_threads) m in
                elim syscall_top [
                  | none ↦ (
                    false,
                    record (set_thread slot (record t { stack_top = stack_top }) k) { memory = m' },
                  )
                  | some syscall_stack_top ↦ (
                    true,
                    record (set_thread slot
                        (record t {
                          stack_top = stack_top;
                          syscall_stack_top = syscall_stack_top;
                          stack_allocated = true;
                        })
                        k) { memory = m' },
                  )
                ]
          ])

  -- The word at the top of the new stack, the entry, and the queue.
  unfoldable pub install : ℕ → Trampoline → Thread → Kernel M → Kernel M
  install slot code t k =
      enqueue slot (
        set_thread slot t (record k { stack_words = update k.stack_words (t.stack_top - 16) code }))

  unfoldable pub spawn : ℕ → Kernel M → Option ℕ × Kernel M
  spawn entry k = elim (free_slot k) [
    | none ↦ (none, k)
    | some slot ↦
        let (allocated, k') = allocate_stacks slot (release_resources slot k) in
        let t = k'.threads slot in
        if allocated
        then (
          some slot,
          install slot thread_trampoline (kernel_thread entry t.stack_top t.syscall_stack_top) k',
        )
        else (none, k')
  ]

  -- The stack that a user thread starts on: the one given, or a new one, eight bytes below its top.
  unfoldable pub user_stack_for : ℕ → Option ℕ → Kernel M → Option (ℕ × Bool) × Kernel M
  user_stack_for slot (some stack) k = (some (stack, false), k)
  user_stack_for slot none k =
      let (top, m) = paging.allocate_user_stack slot k.memory in
      elim top [
        | none ↦ (none, record k { memory = m })
        | some stack_top ↦
            (if leb 8 stack_top then some (stack_top - 8, true) else none, record k { memory = m })
      ]

  unfoldable pub spawn_user_for_process : ℕ → UserStart → Option ℕ → Kernel M → Option ℕ × Kernel M
  spawn_user_for_process process start initial_stack k =
      if not (has_value (process_address_space process k)) then (none, k) else (elim (free_slot k) [
        | none ↦ (none, k)
        | some slot ↦
            let (allocated, k') = allocate_stacks slot (release_resources slot k) in
            if not allocated
            then (none, k')
            else (let (stack, k'') = user_stack_for slot initial_stack k' in
                elim stack [
                  | none ↦ (none, k'')
                  | some (user_stack, owns) ↦
                      let t = k''.threads slot in
                      (
                        some slot,
                        install slot user_thread_trampoline
                            (user_thread process start user_stack owns t.stack_top
                              t.syscall_stack_top)
                            k'',
                      )
                ])
      ])

  unfoldable pub spawn_user : UserStart → Option ℕ → Kernel M → Option ℕ × Kernel M
  spawn_user start initial_stack k =
      if not (paging.is_user_executable start.entry k.memory)
        || (not (start.tls_base == 0) && not (paging.is_user_mapped start.tls_base k.memory))
      then (none, k)
      else spawn_user_for_process user_process_id start initial_stack k

  -- `idle_entry_point` is the address of `idle_thread`. Nothing is returned where the kernel halts.
  unfoldable pub ensure_idle : ℕ → Kernel M → Option (Kernel M)
  ensure_idle idle_entry_point k =
      if k.idle_created
      then some k
      else (let (top, m) = paging.allocate_kernel_stack idle_thread k.memory in
          elim top [
            | none ↦ none
            | some stack_top ↦
                let (syscall_top, m') =
                  paging.allocate_kernel_stack (idle_thread + max_threads) m in
                elim syscall_top [
                  | none ↦ none
                  | some syscall_stack_top ↦
                      let t = k.threads idle_thread in
                      let idle = record t {
                        stack_top = stack_top;
                        syscall_stack_top = syscall_stack_top;
                        stack_allocated = true;
                        context = record (t.context) { stack_pointer = stack_top - 16 };
                        entry = some idle_entry_point;
                        state = ready;
                      } in
                      some
                        (record (install idle_thread idle_entry idle (record k { memory = m' })) {
                          idle_created = true;
                        })
                ]
          ])

  -- Up to the switch to the first thread.
  unfoldable pub start : ℕ → Kernel M → Option (Kernel M)
  start idle_entry_point k = elim (ensure_idle idle_entry_point k) [
    | none ↦ none
    | some k' ↦ some (schedule_from_scheduler paging k')
  ]
