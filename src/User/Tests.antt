-- ===== src/User/Tests.antt =====
-- Runs of kernel-core/src/user.rs: two processes, one file under /tmp, and a heap.
use open_kernel.User.{state_of}
use open_kernel.Prelude.{
  ◌≤◌, ◌≢◌, ℕ, ◌+◌, ◌≡◌, ◌≤◌, refl, List, [], ◌∷◌, Option, some, arith, first_from, copy_from,
  slice_from, slice,
}
use open_kernel.Memory.{
  usable, initialize, allocate, mark_region, mark_usable, mark_reserved, mark_range,
  mark_reserved_range, set_range,
}
use open_kernel.Memory.Bytes.{bit, set, has_bit, with_bit}
use open_kernel.Storage.{boot_storage, create, read, find_ram_file, validate_name}
use open_kernel.Storage.Names.{names_equal}
use open_kernel.Storage.Invariant.{boot-IsSound, create-IsSound}
use open_kernel.Vfs.{Vfs, init_ram_fs, vfs_open, vfs_open_file}
use open_kernel.Vfs.Paths.{root_path, strip_prefix, contains}
use open_kernel.Vfs.Files.{in_tmp}
use open_kernel.Paging.{
  PageTables, bits, zero_table, allocate_physical_frame, make_table, enter_table, descend, map_leaf,
  map_page_in, map_page, map_user_page_with_flags,
}
use open_kernel.User.{
  Users, empty_user_state, reset_user_state, current_state_slot, descriptor_of, u64_max,
  resolve_path,
}
use open_kernel.User.Utf8.{is_utf8}
use open_kernel.User.Files.{
  open_fd, open_path, take_descriptor, fd_index, write_fd, seek_fd, read_fd,
}
use open_kernel.User.Heap.{brk, grow_heap, map_heap_page}
use open_kernel.User.Stack.{initialize_process_stack, kept_arguments}
use open_kernel.User.Stack.Layout.{Started, initialize_process_stack-Started}
use open_kernel.User.Proofs.Invariant.{IsSoundUsers, empty-IsSoundDescriptor}
use open_kernel.User.Proofs.Results.{IsOpenFile, read_fd-write_fd}
use open_kernel.User.Proofs.Refused.{Refused, not_open-Refused, is_open}
use open_kernel.User.Proofs.Runs.{
  UserCall, call_open, call_write, call_close, call_chdir, call_brk, user_calls,
  user_calls-IsSoundUsers, user_calls-isolated,
}

-- `"log"`
abbrev log : List ℕ
log = 108 ∷ 111 ∷ 103 ∷ []

abbrev tables : PageTables
tables = record {
  memory = initialize (record { base = 0x100000; length = 0x10000; kind = usable } ∷ []) [];
  entries = λ _. λ _. 0;
  cr3 = 0x1000;
}

abbrev vfs : Vfs
vfs = record {
  root_mount = some (record { mount_point = root_path; file_system = init_ram_fs });
  storage = (create log boot_storage).1;
}

abbrev started : Users
started = record { states = λ _. reset_user_state empty_user_state; vfs = vfs; tables = tables }

started-IsSoundUsers : IsSoundUsers started
unfolding reset_user_state
started-IsSoundUsers = record {
  each = λ slot. record {
    heap = record {
      above = omega arith;
      mapped = omega arith;
      below = omega arith;
      aligned = refl;
    };
    cwd_short = omega arith;
    files = λ index. empty-IsSoundDescriptor;
  };
}

-- Process 2 opens a file and writes to it, and process 3 changes its directory and grows its heap.
abbrev calls : List (Option ℕ × UserCall)
calls =
    (some 2, call_open (in_tmp log) 1)
    ∷ (some 3, call_chdir (47 ∷ 116 ∷ 109 ∷ 112 ∷ []))
    ∷ (some 2, call_write 3 (7 ∷ 8 ∷ []))
    ∷ (some 3, call_brk 0x500000001000)
    ∷ (some 2, call_close 3)
    ∷ []

user_calls_example : IsSoundUsers (user_calls calls started)
user_calls_example = user_calls-IsSoundUsers calls started started-IsSoundUsers

other :
    (p : ℕ)
    → p ≢ 1
    → 1 ≤ p
    → p ≤ 8
    → ((other : ℕ) × (some p ≡ some other) × (other ≢ 1) × (1 ≤ other) × (other ≤ 8))
other p ne lo hi = (p, refl, ne, lo, hi)

isolated_example : state_of (some 1) (user_calls calls started) ≡ state_of (some 1) started
isolated_example = user_calls-isolated calls 1 started (omega arith) (omega arith) (
  other 2 (λ e. omega arith) (omega arith) (omega arith),
  (
    other 3 (λ e. omega arith) (omega arith) (omega arith),
    (
      other 2 (λ e. omega arith) (omega arith) (omega arith),
      (
        other 3 (λ e. omega arith) (omega arith) (omega arith),
        (other 2 (λ e. omega arith) (omega arith) (omega arith), tt),
      ),
    ),
  ),
)

-- Process 2 after it has opened the file for writing.
abbrev opened : Users
opened = (open_fd (some 2) (in_tmp log) 1 started).1

opened-IsOpenFile : IsOpenFile (some 2) 3 0 log [] opened
unfolding open_fd open_path take_descriptor resolve_path fd_index is_utf8 vfs_open vfs_open_file
    strip_prefix contains names_equal read find_ram_file first_from create validate_name copy_from
    slice_from current_state_slot reset_user_state
opened-IsOpenFile = record {
  number = refl;
  kind = refl;
  writes = refl;
  text = refl;
  path = refl;
  good = refl;
  valid = refl;
  is_mounted = refl;
  sound = create-IsSound log boot_storage boot-IsSound;
  there = refl;
}

opened_small : (descriptor_of (some 2) 0 opened).position + 2 ≤ 4096
unfolding open_fd open_path take_descriptor resolve_path is_utf8 vfs_open_file strip_prefix contains
    names_equal read find_ram_file first_from create validate_name copy_from slice_from
    current_state_slot reset_user_state
opened_small = omega arith

read_fd_example :
    let start = (descriptor_of (some 2) 0 opened).position in
    let (count, u') = write_fd (some 2) 3 (7 ∷ 8 ∷ []) opened in
    let (position, u'') = seek_fd (some 2) 3 start 0 u' in
    (count ≡ 2) × (position ≡ start) × (slice (read_fd (some 2) 3 5 (λ _. 0) u'').1 2 ≡ 7 ∷ 8 ∷ [])
read_fd_example =
    read_fd-write_fd (some 2) 3 0 5 log [] (7 ∷ 8 ∷ []) (λ _. 0) opened opened-IsOpenFile
      opened_small (omega arith)

-- Number 7 is not open.
not_open_example : Refused (some 2) 7 (λ _. 0) started
unfolding is_open fd_index reset_user_state
not_open_example = not_open-Refused (some 2) 7 (λ _. 0) started refl

-- `"sh"` with the argument `"x"`.
stack_example :
    Started 0x7FFFFFFFE000
      (kept_arguments (115 ∷ 104 ∷ []) ((120 ∷ []) ∷ []))
      (λ _. 0)
      (initialize_process_stack 0x7FFFFFFFE000 (115 ∷ 104 ∷ []) ((120 ∷ []) ∷ []) (λ _. 0))
stack_example =
    initialize_process_stack-Started 0x7FFFFFFFE000 (115 ∷ 104 ∷ []) ((120 ∷ []) ∷ []) (λ _. 0)
      (omega arith)

-- The heap grows by three pages, shrinks to one byte, grows by one page, and then cannot grow again:
-- the end of what is mapped was moved down, and its next page is mapped already.
abbrev regrown : Users
regrown =
    (brk (some 2) 0x500000001001
      (brk (some 2) 0x500000000001 (brk (some 2) 0x500000003000 started).1).1).1

heap_is_stuck : (brk (some 2) 0x500000003000 regrown).0 ≡ u64_max
unfolding brk grow_heap map_heap_page current_state_slot reset_user_state map_user_page_with_flags
    map_page map_page_in descend enter_table make_table map_leaf allocate_physical_frame zero_table
    bits allocate initialize mark_region mark_usable mark_reserved mark_range mark_reserved_range
    set_range bit set has_bit with_bit first_from
heap_is_stuck = refl
