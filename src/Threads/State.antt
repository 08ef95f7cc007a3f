-- ===== src/Threads/State.antt =====
-- The types and statics of kernel-core/src/threads.rs, and what it calls of paging.rs.
use open_kernel.Prelude.{
  ℕ, ◌-◌, ◌^◌, Bool, true, false, if◌then◌else◌, ◌==◌, leb, Option, none, some, update, first_from,
}

-- `MAX_THREADS`, and `MAX_PROCESSES`, which equals it.
abbrev pub max_threads : ℕ
max_threads = 8

-- `usize::MAX`
abbrev pub no_thread : ℕ
no_thread = 2 ^ 64 - 1

abbrev pub idle_thread : ℕ
idle_thread = 0

abbrev pub user_process_id : ℕ
user_process_id = 1

pub data ThreadState : Type 0 where
  ready running blocked exited : ThreadState

abbrev pub is_exited : ThreadState → Bool
is_exited exited = true
is_exited _ = false

abbrev pub is_blocked : ThreadState → Bool
is_blocked blocked = true
is_blocked _ = false

abbrev pub is_ready : ThreadState → Bool
is_ready ready = true
is_ready _ = false

abbrev pub is_running : ThreadState → Bool
is_running running = true
is_running _ = false

pub record UserContext : Type 0 where
  pub rip : ℕ
  pub rsp : ℕ
  pub rflags : ℕ
  pub rax : ℕ
  pub rbx : ℕ
  pub rcx : ℕ
  pub rdx : ℕ
  pub rsi : ℕ
  pub rdi : ℕ
  pub rbp : ℕ
  pub r8 : ℕ
  pub r9 : ℕ
  pub r10 : ℕ
  pub r11 : ℕ
  pub r12 : ℕ
  pub r13 : ℕ
  pub r14 : ℕ
  pub r15 : ℕ
  pub fs_base : ℕ

-- `UserContext::EMPTY`
abbrev pub empty_user_context : UserContext
empty_user_context = record {
  rip = 0;
  rsp = 0;
  rflags = 0x202;
  rax = 0;
  rbx = 0;
  rcx = 0;
  rdx = 0;
  rsi = 0;
  rdi = 0;
  rbp = 0;
  r8 = 0;
  r9 = 0;
  r10 = 0;
  r11 = 0;
  r12 = 0;
  r13 = 0;
  r14 = 0;
  r15 = 0;
  fs_base = 0;
}

pub record Process : Type 0 where
  pub id : ℕ
  pub address_space : ℕ
  pub parent : Option ℕ
  pub main_thread : Option ℕ

-- `Process::EMPTY`
abbrev pub empty_process : Process
empty_process = record { id = no_thread; address_space = 0; parent = none; main_thread = none }

-- The registers that a switch saves.
pub record Context : Type 0 where
  pub stack_pointer : ℕ
  pub rbx : ℕ
  pub rbp : ℕ
  pub r12 : ℕ
  pub r13 : ℕ
  pub r14 : ℕ
  pub r15 : ℕ

-- `Context::EMPTY` with a stack pointer.
abbrev pub context_at : ℕ → Context
context_at stack_pointer = record {
  stack_pointer = stack_pointer;
  rbx = 0;
  rbp = 0;
  r12 = 0;
  r13 = 0;
  r14 = 0;
  r15 = 0;
}

pub record SyscallState : Type 0 where
  pub stack_pointer : ℕ
  pub instruction_pointer : ℕ
  pub flags : ℕ

-- `SyscallState::EMPTY`
abbrev pub empty_syscall_state : SyscallState
empty_syscall_state = record { stack_pointer = 0; instruction_pointer = 0; flags = 0 }

-- A kernel entry point (`TaskEntry`) is its address.
pub record Thread : Type 0 where
  pub context : Context
  pub entry : Option ℕ
  pub process : Option ℕ
  pub user_context : UserContext
  pub is_user : Bool
  pub state : ThreadState
  pub syscall_state : SyscallState
  pub stack_top : ℕ
  pub syscall_stack_top : ℕ
  pub stack_allocated : Bool
  pub owns_user_stack : Bool
  pub reapable : Bool
  pub exit_status : ℕ
  pub join_waiters : ℕ → ℕ
  pub join_waiter_count : ℕ

-- `Thread::EMPTY`
abbrev pub empty_thread : Thread
empty_thread = record {
  context = context_at 0;
  entry = none;
  process = none;
  user_context = empty_user_context;
  is_user = false;
  state = exited;
  syscall_state = empty_syscall_state;
  stack_top = 0;
  syscall_stack_top = 0;
  stack_allocated = false;
  owns_user_stack = false;
  reapable = true;
  exit_status = 0;
  join_waiters = λ _. no_thread;
  join_waiter_count = 0;
}

-- The code that the first switch to a thread returns to.
pub data Trampoline : Type 0 where
  no_code thread_trampoline user_thread_trampoline idle_entry : Trampoline

-- The calls of paging.rs, over the state `M` that they read and change. An allocation gives the top
-- of the stack, or nothing where paging reports an error.
pub record Paging (M : Type 0) : Type 0 where
  pub allocate_kernel_stack : ℕ → M → Option ℕ × M
  pub release_kernel_stack : ℕ → M → M
  pub allocate_user_stack : ℕ → M → Option ℕ × M
  pub release_user_stack : ℕ → M → M
  pub destroy_user_address_space : ℕ → M → M
  pub switch_address_space : ℕ → M → M
  pub is_user_executable : ℕ → M → Bool
  pub is_user_mapped : ℕ → M → Bool

-- The statics, the registers of the processor (`cpu`), the words that `spawn` stores on new stacks
-- (`stack_words`, by address) and the state of paging.
pub record Kernel (M : Type 0) : Type 0 where
  pub threads : ℕ → Thread
  pub run_queue : ℕ → ℕ
  pub run_head : ℕ
  pub run_tail : ℕ
  pub run_count : ℕ
  pub scheduler_context : Context
  pub current_thread : ℕ
  pub preempt_requested : Bool
  pub idle_created : Bool
  pub processes : ℕ → Process
  pub cpu : Context
  pub stack_words : ℕ → Trampoline
  pub memory : M

-- The statics as the kernel starts.
abbrev pub boot_kernel : {M : Type 0} → M → Context → Kernel M
boot_kernel memory cpu = record {
  threads = λ _. empty_thread;
  run_queue = λ _. no_thread;
  run_head = 0;
  run_tail = 0;
  run_count = 0;
  scheduler_context = context_at 0;
  current_thread = no_thread;
  preempt_requested = false;
  idle_created = false;
  processes = λ _. empty_process;
  cpu = cpu;
  stack_words = λ _. no_code;
  memory = memory;
}

module _ {M : Type 0} where
  -- `THREADS[i] = t`
  abbrev pub set_thread : ℕ → Thread → Kernel M → Kernel M
  set_thread i t k = record k { threads = update k.threads i t }

  abbrev pub set_state : ℕ → ThreadState → Kernel M → Kernel M
  set_state i s k = set_thread i (record (k.threads i) { state = s }) k

  -- `PROCESSES[i] = p`
  abbrev pub set_process : ℕ → Process → Kernel M → Kernel M
  set_process i p k = record k { processes = update k.processes i p }

  unfoldable pub current_id : Kernel M → Option ℕ
  current_id k = if k.current_thread == no_thread then none else some k.current_thread

  unfoldable pub process_id : ℕ → Kernel M → Option ℕ
  process_id thread k = if leb max_threads thread then none else (k.threads thread).process

  unfoldable pub state : ℕ → Kernel M → Option ThreadState
  state thread k = if leb max_threads thread then none else some (k.threads thread).state

  -- `current_id().and_then(process_id)`, which pty.rs calls `owner_process`.
  unfoldable pub owner_process : Kernel M → Option ℕ
  unfolding current_id process_id
  owner_process k = elim (current_id k) [ none ↦ none | some thread ↦ process_id thread k ]

  -- `PROCESSES.iter().find(|record| record.id == process)`, as an index.
  unfoldable pub find_process : ℕ → Kernel M → Option ℕ
  find_process process k = first_from (λ i. (k.processes i).id == process) 0 max_threads

  unfoldable pub process_address_space : ℕ → Kernel M → Option ℕ
  process_address_space id k = elim (find_process id k) [
    | none ↦ none
    | some i ↦ some (k.processes i).address_space
  ]
