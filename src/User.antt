-- ===== src/User.antt =====
-- kernel-core/src/user.rs: what the kernel keeps for each user process. `PROCESS_STATE` is a field of
-- a record that every call takes and hands back, with the files and the page tables that the calls
-- use. `owner` is `current_thread_id().and_then(thread_process_id)`, the process of the thread that
-- calls (`Threads.State.owner_process`). A buffer of the caller is a function of the offset, with its
-- length `room`. `RESOLVED_PATH` is written before it is read in every call, so a resolved path is a
-- value. The code `u64::MAX` reports an error.
pub mod Utf8
pub mod Files
pub mod Heap
pub mod Stack
pub mod Proofs
mod Tests
use open_kernel.Console.{tty_count}
use open_kernel.Prelude.{
  ℕ, ◌+◌, ◌-◌, ◌^◌, min, Bool, true, false, not, ◌&&◌, ◌||◌, if◌then◌else◌, ◌==◌, ltb, leb, Option,
  none, some, List, [], ◌∷◌, ◌++◌, length, update, slice, copy_from,
}
use open_kernel.Vfs.{Vfs, is_directory}
use open_kernel.Vfs.Paths.{slash}
use open_kernel.Paging.{PageTables}
use Utf8.{is_utf8}

-- `u64::MAX`
abbrev pub u64_max : ℕ
u64_max = 2 ^ 64 - 1

abbrev pub user_heap_base : ℕ
user_heap_base = 0x500000000000

abbrev pub user_heap_limit : ℕ
user_heap_limit = 0x700000000000

abbrev pub current_directory_max : ℕ
current_directory_max = 5

abbrev pub max_fds : ℕ
max_fds = 16

abbrev pub fd_path_length : ℕ
fd_path_length = 64

-- `b"/init"`
abbrev pub executable_path : List ℕ
executable_path = slash ∷ 105 ∷ 110 ∷ 105 ∷ 116 ∷ []

pub data DescriptorKind : Type 0 where
  empty_kind file_kind directory_kind : DescriptorKind

abbrev pub is_empty_kind : DescriptorKind → Bool
is_empty_kind empty_kind = true
is_empty_kind _ = false

abbrev pub is_file_kind : DescriptorKind → Bool
is_file_kind file_kind = true
is_file_kind _ = false

pub record Descriptor : Type 0 where
  pub kind : DescriptorKind
  pub path : ℕ → ℕ
  pub path_length : ℕ
  pub position : ℕ
  pub writable : Bool

-- `Descriptor::EMPTY`
abbrev pub empty_descriptor : Descriptor
empty_descriptor = record {
  kind = empty_kind;
  path = λ _. 0;
  path_length = 0;
  position = 0;
  writable = false;
}

pub data ConsoleTarget : Type 0 where
  to_tty to_pty : ℕ → ConsoleTarget

pub record ProcessUserState : Type 0 where
  pub heap_break : ℕ
  pub heap_mapped_end : ℕ
  pub cwd : ℕ → ℕ
  pub cwd_length : ℕ
  pub executable_entry : ℕ
  pub descriptors : ℕ → Descriptor
  pub console : ConsoleTarget

-- `ProcessUserState::EMPTY`
abbrev pub empty_user_state : ProcessUserState
empty_user_state = record {
  heap_break = user_heap_base;
  heap_mapped_end = user_heap_base;
  cwd = λ _. 0;
  cwd_length = 1;
  executable_entry = 0;
  descriptors = λ _. empty_descriptor;
  console = to_tty 0;
}

pub record Users : Type 0 where
  pub states : ℕ → ProcessUserState
  pub vfs : Vfs
  pub tables : PageTables

unfoldable pub current_state_slot : Option ℕ → ℕ
current_state_slot none = 0
current_state_slot (some process) = min (process - 1) 7

-- `PROCESS_STATE[current_state_slot()]`
abbrev pub state_of : Option ℕ → Users → ProcessUserState
state_of owner u = u.states (current_state_slot owner)

abbrev pub set_state_of : Option ℕ → ProcessUserState → Users → Users
set_state_of owner p u = record (u) { states = update u.states (current_state_slot owner) p }

abbrev pub descriptor_of : Option ℕ → ℕ → Users → Descriptor
descriptor_of owner index u = (state_of owner u).descriptors index

abbrev pub set_descriptor : Option ℕ → ℕ → Descriptor → Users → Users
set_descriptor owner index d u =
    set_state_of owner
      (record (state_of owner u) { descriptors = update (state_of owner u).descriptors index d }) u

-- `&descriptor.path[..descriptor.path_length]`
abbrev pub path_of : Descriptor → List ℕ
path_of d = slice d.path d.path_length

-- `path.first() != Some(&b'/')`
abbrev pub is_relative : List ℕ → Bool
is_relative [] = true
is_relative (c ∷ path) = not (c == slash)

-- The current directory in front of a relative path.
abbrev pub directory_prefix : ProcessUserState → List ℕ
directory_prefix p = slice p.cwd p.cwd_length ++ (if p.cwd_length == 1 then [] else slash ∷ [])

-- `core::str::from_utf8(bytes).ok()`
abbrev pub from_utf8 : List ℕ → Option (List ℕ)
from_utf8 bytes = if is_utf8 bytes then some bytes else none

abbrev pub checked_path : List ℕ → Option (List ℕ)
checked_path bytes = if leb fd_path_length (length bytes) then none else from_utf8 bytes

unfoldable pub resolve_path : Option ℕ → List ℕ → Users → Option (List ℕ)
resolve_path owner path u =
    let p = state_of owner u in
    if is_relative path
    then (if leb fd_path_length (p.cwd_length + 1 + length path)
        then none
        else checked_path (directory_prefix p ++ path))
    else checked_path path

unfoldable pub console_target : Option ℕ → Users → ConsoleTarget
console_target owner u = (state_of owner u).console

unfoldable pub bind_tty : Option ℕ → ℕ → Users → Users
bind_tty owner tty u =
    set_state_of owner (record (state_of owner u) { console = to_tty (min tty (tty_count - 1)) }) u

unfoldable pub bind_pty : Option ℕ → ℕ → Users → Users
bind_pty owner pty u = set_state_of owner (record (state_of owner u) { console = to_pty pty }) u

unfoldable pub chdir : Option ℕ → List ℕ → Users → ℕ × Users
chdir owner path u = elim (resolve_path owner path u) [
  | none ↦ (u64_max, u)
  | some resolved ↦ if not (is_directory resolved) then (u64_max, u) else (
    0,
    set_state_of owner
        (record (state_of owner u) {
          cwd_length = length resolved;
          cwd = copy_from (state_of owner u).cwd 0 resolved;
        })
        u,
  )
]

unfoldable pub getcwd : Option ℕ → ℕ → (ℕ → ℕ) → Users → ℕ × (ℕ → ℕ)
getcwd owner room output u =
    let p = state_of owner u in
    if ltb room (p.cwd_length + 1)
    then (u64_max, output)
    else (p.cwd_length, update (copy_from output 0 (slice p.cwd p.cwd_length)) p.cwd_length 0)

unfoldable pub executable_info : Option ℕ → ℕ → (ℕ → ℕ) → Users → ℕ × (ℕ → ℕ)
executable_info owner room output u =
    if ltb room (length executable_path + 1) then (u64_max, output) else (
      (state_of owner u).executable_entry,
      update (copy_from output 0 executable_path) (length executable_path) 0,
    )

-- What `spawn` writes for a new process, and `run_demo` for the first one.
unfoldable pub reset_user_state : ProcessUserState → ProcessUserState
reset_user_state p = record (p) {
  heap_break = user_heap_base;
  heap_mapped_end = user_heap_base;
  cwd = update p.cwd 0 slash;
  cwd_length = 1;
  executable_entry = 0;
  console = to_tty 0;
  descriptors = λ _. empty_descriptor;
}
