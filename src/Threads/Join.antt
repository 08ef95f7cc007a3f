-- ===== src/Threads/Join.antt =====
-- Waiting for a thread to exit (kernel-core/src/threads.rs). `join` may block: the call then ends
-- in `blocked`, and `join_resume` is the rest of it, which runs when its thread is switched to.
use open_kernel.Prelude.{
  ℕ, ◌+◌, ◌-◌, if◌then◌else◌, ◌==◌, leb, Option, none, some, update, Bool, true, not, ◌||◌,
}
use open_kernel.Threads.State.{
  Kernel, Thread, is_exited, Paging, max_threads, no_thread, set_thread,
}
use open_kernel.Threads.Switch.{block_current}

-- How far a call has come.
pub data Progress (A : Type 0) : Type 0 where
  returned : A → Progress A
  suspended : Progress A

abbrev pub reapable_if_unwaited : Thread → Thread
reapable_if_unwaited t = if t.join_waiter_count == 0 then record t { reapable = true } else t

-- `target.join_waiters[target.join_waiter_count] = current; target.join_waiter_count += 1;`
abbrev pub with_waiter : ℕ → Thread → Thread
with_waiter waiter t = record t {
  join_waiters = update t.join_waiters t.join_waiter_count waiter;
  join_waiter_count = t.join_waiter_count + 1;
}

module _ {M : Type 0} where
  -- The guard that `join` and `try_join` share.
  abbrev pub may_not_join : ℕ → Kernel M → Bool
  may_not_join thread k =
      k.current_thread == no_thread || (k.current_thread == thread || leb max_threads thread)

  unfoldable pub join_resume : ℕ → Kernel M → Option ℕ × Kernel M
  join_resume thread k =
      let t = k.threads thread in
      if not (is_exited t.state) then (none, k) else (
        some t.exit_status,
        set_thread thread
            (reapable_if_unwaited (record t { join_waiter_count = t.join_waiter_count - 1 })) k,
      )

  unfoldable pub try_join : ℕ → Kernel M → Option ℕ × Kernel M
  try_join thread k =
      let t = k.threads thread in
      if may_not_join thread k
      then (none, k)
      else if not (is_exited t.state)
      then (none, k)
      else (some t.exit_status, set_thread thread (reapable_if_unwaited t) k)

module _ {M : Type 0} (paging : Paging M) where
  unfoldable pub join : ℕ → Kernel M → Progress (Option ℕ) × Kernel M
  join thread k =
      let t = k.threads thread in
      if may_not_join thread k
      then (returned none, k)
      else if is_exited t.state
      then (returned (some t.exit_status), set_thread thread (reapable_if_unwaited t) k)
      else if t.join_waiter_count == max_threads
      then (returned none, k)
      else (let (switched, k') =
            block_current paging (set_thread thread (with_waiter k.current_thread t) k) in
          let (status, k'') = join_resume thread k' in
          if switched then (suspended, k') else (returned status, k''))
