-- ===== src/Threads/Queue.antt =====
-- The run queue of kernel-core/src/threads.rs.
pub mod Fifo
use open_kernel.Prelude.{
  ℕ, zero, suc, ◌+◌, ◌-◌, ◌%◌, if◌then◌else◌, ◌==◌, Option, none, some, update, Bool, true, false,
}
use open_kernel.Threads.State.{Kernel, max_threads, is_exited}

module _ {M : Type 0} where
  -- A full queue drops the thread.
  unfoldable pub enqueue : ℕ → Kernel M → Kernel M
  enqueue thread k = if k.run_count == max_threads then k else record k {
    run_queue = update k.run_queue k.run_tail thread;
    run_tail = (k.run_tail + 1) % max_threads;
    run_count = k.run_count + 1;
  }

  unfoldable pub dequeue : Kernel M → Option ℕ × Kernel M
  dequeue k = if k.run_count == 0 then (none, k) else (
    some (k.run_queue k.run_head),
    record k { run_head = (k.run_head + 1) % max_threads; run_count = k.run_count - 1 },
  )

  -- The loop of `next_ready`, of at most `fuel` rounds; `Queue.Fifo` shows that `run_count + 1`
  -- rounds are enough.
  unfoldable pub next_ready_loop : ℕ → Kernel M → Option ℕ × Kernel M
  next_ready_loop zero k = (none, k)
  next_ready_loop (suc fuel) k =
      let (taken, k') = dequeue k in
      elim taken [
        | none ↦ (none, k')
        | some candidate ↦
            let rest = next_ready_loop fuel k' in
            if is_exited (k'.threads candidate).state then rest else (some candidate, k')
      ]

  unfoldable pub next_ready : Kernel M → Option ℕ × Kernel M
  next_ready k = next_ready_loop (k.run_count + 1) k
