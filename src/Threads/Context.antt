-- ===== src/Threads/Context.antt =====
-- The registers that a thread leaves at a system call (kernel-core/src/threads.rs).
use open_kernel.Prelude.{
  ℕ, if◌then◌else◌, ◌==◌, Option, none, some, Bool, true, false, not, ◌||◌, ◌&&◌,
}
use open_kernel.Threads.State.{Kernel, UserContext, SyscallState, Paging, no_thread, set_thread}

module _ {M : Type 0} where
  -- The guard of the calls on the context of a user thread.
  abbrev pub runs_user : Kernel M → Bool
  runs_user k = not (k.current_thread == no_thread || not (k.threads k.current_thread).is_user)

  unfoldable pub syscall_stack_top : Kernel M → ℕ
  syscall_stack_top k =
      if k.current_thread == no_thread then 0 else (k.threads k.current_thread).syscall_stack_top

  unfoldable pub current_kernel_stack_top : Kernel M → ℕ
  current_kernel_stack_top k =
      if k.current_thread == no_thread then 0 else (k.threads k.current_thread).stack_top

  unfoldable pub save_syscall_state : SyscallState → Kernel M → Kernel M
  save_syscall_state s k =
      let thread = k.current_thread in
      let t = k.threads thread in
      if not (thread == no_thread)
      then set_thread thread
          (record t {
            syscall_state = s;
            user_context = record (t.user_context) {
              rsp = s.stack_pointer;
              rip = s.instruction_pointer;
              rflags = s.flags;
            };
          })
          k
      else k

  unfoldable pub save_user_context : UserContext → Kernel M → Kernel M
  save_user_context context k =
      let thread = k.current_thread in
      if runs_user k
      then set_thread thread (record (k.threads thread) { user_context = context }) k
      else k

  -- A null pointer is `none`.
  unfoldable pub current_user_context : Kernel M → Option UserContext
  current_user_context k =
      if runs_user k then some (k.threads k.current_thread).user_context else none

  unfoldable pub current_user_fs_base : Kernel M → ℕ
  current_user_fs_base k =
      if runs_user k then (k.threads k.current_thread).user_context.fs_base else 0

  unfoldable pub current_syscall_state : Kernel M → Option SyscallState
  current_syscall_state k =
      if k.current_thread == no_thread
      then none
      else some (k.threads k.current_thread).syscall_state

module _ {M : Type 0} (paging : Paging M) where
  unfoldable pub set_current_user_fs_base : ℕ → Kernel M → Bool × Kernel M
  set_current_user_fs_base base k =
      let thread = k.current_thread in
      let t = k.threads thread in
      if not (runs_user k)
      then (false, k)
      else if not (base == 0) && not (paging.is_user_mapped base k.memory)
      then (false, k)
      else (
        true,
        set_thread thread (record t { user_context = record (t.user_context) { fs_base = base } })
            k,
      )
