-- ===== src/Pty.antt =====
-- kernel-core/src/pty.rs: the pool of pseudo-terminals and its calls.
-- The static `PTYS` is passed in and handed back; `caller` is what `owner_process()` returns, the
-- process of the thread that makes the call (`Threads.owner_process`).
pub mod Rings
pub mod Ownership
pub mod Invariant
pub mod Streams
mod Tests
use open_kernel.Prelude.{
  ℕ, ◌+◌, Bool, true, false, not, ◌&&◌, ◌||◌, if◌then◌else◌, Option, none, some, List, ltb, update,
  is_some_of, first_from,
}
use Rings.{Ring, empty_ring, reset, pop, drain, feed}

-- `PTY_COUNT`
abbrev pub pty_count : ℕ
pty_count = 4

-- `struct Pty`
pub record Pty : Type 0 where
  pub allocated : Bool
  pub owner : Option ℕ
  pub to_master : Ring
  pub to_slave : Ring

-- `Pty::EMPTY`
abbrev pub empty_pty : Pty
empty_pty = record {
  allocated = false;
  owner = none;
  to_master = empty_ring;
  to_slave = empty_ring;
}

-- The static `PTYS`; every access below is at an index under `pty_count`.
abbrev pub Ptys : Type 0
Ptys = ℕ → Pty

-- What `open` leaves in the entry that it hands out.
abbrev pub opened : ℕ → Pty → Pty
opened process p = record {
  allocated = true;
  owner = some process;
  to_master = reset p.to_master;
  to_slave = reset p.to_slave;
}

-- What `close` leaves.
abbrev pub closed : Pty → Pty
closed p = record {
  allocated = false;
  owner = none;
  to_master = reset p.to_master;
  to_slave = reset p.to_slave;
}

pub open_pty : Option ℕ → Ptys → Option ℕ × Ptys
open_pty none ptys = (none, ptys)
open_pty (some process) ptys = elim (first_from (λ i. not (ptys i).allocated) 0 pty_count) [
  | none ↦ (none, ptys)
  | some index ↦ (some index, update ptys index (opened process (ptys index)))
]

pub exists : Ptys → ℕ → Bool
exists ptys id = ltb id pty_count && (ptys id).allocated

-- The guard of `close`, `read_master` and `write_master`: in range, in use, and the caller's own.
abbrev pub may_use : Option ℕ → Ptys → ℕ → Bool
may_use none ptys id = false
may_use (some process) ptys id =
    ltb id pty_count && ((ptys id).allocated && is_some_of (ptys id).owner process)

pub close : Option ℕ → ℕ → Ptys → Bool × Ptys
close caller id ptys =
    if may_use caller ptys id then (true, update ptys id (closed (ptys id))) else (false, ptys)

-- `size` is `output.len()`. The bytes returned are those written to the front of `output`, and
-- their number is the count that the call returns.
pub read_master : Option ℕ → ℕ → ℕ → Ptys → Option (List ℕ) × Ptys
read_master caller id size ptys =
    if may_use caller ptys id
    then (let (bytes, rest) = drain size (ptys id).to_master in
        (some bytes, update ptys id (record (ptys id) { to_master = rest })))
    else (none, ptys)

pub write_master : Option ℕ → ℕ → List ℕ → Ptys → Option ℕ × Ptys
write_master caller id input ptys =
    if may_use caller ptys id
    then (let (count, ring) = feed (ptys id).to_slave input in
        (some count, update ptys id (record (ptys id) { to_slave = ring })))
    else (none, ptys)

-- The slave side asks for no owner. The loop is that of `write_master`, its count unused.
pub slave_write : ℕ → List ℕ → Ptys → Ptys
slave_write id bytes ptys =
    if exists ptys id
    then update ptys id (record (ptys id) { to_master = (feed (ptys id).to_master bytes).1 })
    else ptys

pub slave_poll_key : ℕ → Ptys → Option ℕ × Ptys
slave_poll_key id ptys =
    if exists ptys id
    then (let (byte, ring) = pop (ptys id).to_slave in
        (byte, update ptys id (record (ptys id) { to_slave = ring })))
    else (none, ptys)
