-- ===== src/Lib.antt =====
-- Verification of the kernel of open-kernel (kernel-core): what its state is, what its calls do to it,
-- and what they promise to each other. The numbers are natural numbers; where the code can wrap or
-- saturate, the model writes it out. A static is a field of a record that every call takes and hands
-- back; an array is a function of the index, together with an invariant that the indices are in
-- range; a name, a path or a content is the list of its bytes. A loop is structural recursion over
-- the rest of its range, or over fuel with a proof that the fuel is enough.
--
-- * Threads models kernel-core/src/threads.rs, which lib.rs calls `scheduler`. Its statics are
--   `Threads.State.Kernel`, over a state of paging that the record `Paging` stands for, whose fields
--   are the calls of paging.rs with the results that threads.rs looks at. Queue has the run queue
--   (`enqueue`, `dequeue`, `next_ready`, whose loop has `run_count + 1` rounds of fuel); Switch has
--   `yield_now`, `block_current`, `wake`, exiting and the choice of the next thread; Spawn the entries
--   of new threads; Join and Process the calls that wait, create, terminate and reap; Context the
--   saved registers of user threads. A call that blocks ends where the processor goes to another
--   thread, and the rest of it is a call of its own (`join_resume`, `wait_resume`). `idle_loop`, the
--   trampolines and the debug output on the serial port are not modelled.
-- * Pty models kernel-core/src/pty.rs: the pool, its rings (Pty.Rings) and the two streams between
--   owner and slave. The caller's process is what `Threads.State.owner_process` computes.
-- * Storage models kernel-core/src/storage.rs: the boot files and the RAM files, with a map from names
--   to contents as their specification (Storage.Spec).
-- * Vfs models kernel-core/src/vfs.rs: the paths over the files of Storage.
-- * Memory models kernel-core/src/memory.rs: both bitmaps byte by byte, the marking of ranges, and the
--   allocator of frames.
-- * Paging models kernel-core/src/paging.rs: the tables as a function of physical address and index,
--   mapping (`map_page_in`, `map_page` and the guarded forms of them), new address spaces, the stacks
--   (Paging.Stacks), the walks and the release of spaces (Paging.Release), and the writes to frames
--   (Paging.Bytes). Frames come from Memory. Paging.Loads fills the interface of Elf with these calls.
--   The flush of the translation cache is left out.
-- * User models kernel-core/src/user.rs: the states of the processes, with the files of Vfs and the page
--   tables of Paging: paths and directories (User), descriptors (User.Files), `brk` (User.Heap, whose
--   loop has one round of fuel for each page), the stack of a new process (User.Stack), and
--   `core::str::from_utf8` (User.Utf8). `spawn` and `run_demo` are not modelled.
-- * Arch models the parts of kernel-core/src/arch.rs that are not about the processor: sleeping threads,
--   threads that wait on a word, and the timer's interrupt, over the threads of Threads; the checks of
--   user addresses (Arch.Guards); the printing of numbers (Arch.Digits).
-- * Console models kernel-core/src/console.rs: the memory of the screen and of the terminals' buffers
--   byte by byte, the font (Console.Glyphs), the keys (Console.Keys), and the calls that draw
--   (Console.Terminals). User takes the number of terminals from it.
-- * Mouse models the decoding of packets in kernel-core/src/mouse.rs, with positions in 32-bit signed
--   integers (Mouse.Ints); its port access is hardware.
-- * Pci models the enumeration and the searches of kernel-core/src/pci.rs over a configuration space.
-- * Elf models kernel-core/src/elf.rs: the checks of the headers (Elf.Image), the loops over headers and
--   pages, and the thread-local storage, over a record `Loader` of the calls of paging.rs.
-- * Drivers models the loopback network device of kernel-core/src/drivers.rs.
-- * Prelude passes on the names that the modules share, and has lists, arrays and searches in them.
--
-- Not modelled: random.rs (kernel-core/src), the entropy pool; the dispatch of system calls, the
-- descriptor tables and the assembly of arch.rs; the start-up and the VGA text screen of console.rs;
-- scheduler.rs, which is not compiled; sata.rs, xhci.rs and serial.rs, which talk to devices; the
-- boot adapters, which translate what the boot loaders hand over; and the programs init,
-- user-program and std-program with their runtime, which run above the system calls.
pub mod Prelude
pub mod Pty
pub mod Storage
pub mod Threads
pub mod Memory
pub mod Vfs
pub mod Mouse
pub mod Pci
pub mod Elf
pub mod Paging
pub mod Console
pub mod User
pub mod Arch
pub mod Drivers
