-- ===== src/Arch.antt =====
-- kernel-core/src/arch.rs: the clock, the sleeping threads and the threads that wait on a word of user
-- memory, over the threads of Threads; the checks of user addresses; power requests; the printing of
-- numbers; the descriptors of the processor. The statics of the first are the record `Waits`, which
-- every handler takes and hands back. The assembly, the ports and the debug output are not modelled.
pub mod Guards
pub mod Digits
pub mod Wakes
pub mod Sweeps
pub mod Clock
pub mod Sleeps
pub mod Suspends
pub mod Counts
pub mod Rounds
pub mod Futexes
pub mod Runs
mod Tests
use open_kernel.Prelude.{
  ℕ, zero, suc, ◌+◌, ◌-◌, ◌*◌, ◌/◌, ◌%◌, ◌^◌, min, max, Bool, true, false, not, ◌&&◌, ◌||◌,
  if◌then◌else◌, ◌==◌, ltb, Option, none, some, has_value, update, first_from,
}
use open_kernel.Threads.State.{Kernel, Paging, current_id}
use open_kernel.Threads.Switch.{wake, block_current}
use open_kernel.Threads.Join.{Progress, returned, suspended}
use Guards.{valid_user_word}

-- `u64::MAX`
abbrev pub word_max : ℕ
word_max = 2 ^ 64 - 1

-- `MAX_SLEEPERS` and `MAX_FUTEX_WAITERS`
abbrev pub max_sleepers : ℕ
max_sleepers = 8

abbrev pub pit_hz : ℕ
pit_hz = 100

pub record Sleeper : Type 0 where
  pub thread : ℕ
  pub deadline : ℕ

pub record FutexWaiter : Type 0 where
  pub address : ℕ
  pub thread : ℕ
  pub deadline : Option ℕ

-- The statics `TIMER_TICKS`, `SLEEPERS` and `FUTEX_WAITERS`, with the threads.
pub record Waits (M : Type 0) : Type 0 where
  pub kernel : Kernel M
  pub ticks : ℕ
  pub sleepers : ℕ → Option Sleeper
  pub futex_waiters : ℕ → Option FutexWaiter

-- `a.wrapping_sub(b) < (1_u64 << 63)`
abbrev pub has_come : ℕ → ℕ → Bool
has_come ticks deadline = ltb ((ticks + (2 ^ 64 - deadline)) % 2 ^ 64) (2 ^ 63)

-- `milliseconds.saturating_add(9) / 10`, at least 1.
abbrev pub ticks_of : ℕ → ℕ
ticks_of milliseconds = max (min (milliseconds + 9) word_max / 10) 1

-- `timer_ticks().wrapping_add(n)`
abbrev pub deadline_after : ℕ → ℕ → ℕ
deadline_after ticks n = (ticks + n) % 2 ^ 64

-- `timer_ticks().saturating_mul(1_000 / PIT_HZ)`
unfoldable pub monotonic_milliseconds : ℕ → ℕ
monotonic_milliseconds ticks = min (ticks * (1000 / pit_hz)) word_max

-- `iter_mut()` finds the first entry that is none.
unfoldable pub free_entry : {E : Type 0} → (ℕ → Option E) → Option ℕ
free_entry entries = first_from (λ i. not (has_value (entries i))) 0 max_sleepers

module _ {M E : Type 0} (thread_of : E → ℕ) (is_due : E → Bool) where
  -- The body of the loops over `SLEEPERS` and `FUTEX_WAITERS` in the timer's handler.
  unfoldable pub wake_entry : ℕ → (ℕ → Option E) → Kernel M → (ℕ → Option E) × Kernel M
  wake_entry i entries k = elim (entries i) [
    | none ↦ (entries, k)
    | some entry ↦
        if is_due entry then (update entries i none, (wake (thread_of entry) k).1) else (entries, k)
  ]

  unfoldable pub wake_entries : ℕ → ℕ → (ℕ → Option E) → Kernel M → (ℕ → Option E) × Kernel M
  wake_entries i zero entries k = (entries, k)
  wake_entries i (suc n) entries k =
      let (entries', k') = wake_entry i entries k in wake_entries (i + 1) n entries' k'

-- `entry.deadline.is_some_and(...)`
abbrev pub timed_out : ℕ → FutexWaiter → Bool
timed_out ticks w = elim w.deadline [ none ↦ false | some deadline ↦ has_come ticks deadline ]

abbrev pub slept_enough : ℕ → Sleeper → Bool
slept_enough ticks s = has_come ticks s.deadline

module _ {M : Type 0} where
  unfoldable pub wake_expired_sleepers : ℕ → Waits M → Waits M
  wake_expired_sleepers ticks w =
      let (sleepers, kernel) =
        wake_entries (λ s. s.thread) (slept_enough ticks) 0 max_sleepers w.sleepers w.kernel in
      record (w) { sleepers = sleepers; kernel = kernel }

  unfoldable pub wake_expired_futexes : ℕ → Waits M → Waits M
  wake_expired_futexes ticks w =
      let (futex_waiters, kernel) =
        wake_entries (λ f. f.thread) (timed_out ticks) 0 max_sleepers w.futex_waiters w.kernel in
      record (w) { futex_waiters = futex_waiters; kernel = kernel }

  -- `irq_dispatch` on vector 32, without the blinking of the cursor.
  unfoldable pub timer_interrupt : Waits M → Waits M
  timer_interrupt w =
      let ticks = (w.ticks + 1) % 2 ^ 64 in
      wake_expired_futexes ticks (wake_expired_sleepers ticks (record (w) { ticks = ticks }))

  -- The body of the loop of `syscall_futex_wake`, with `woken`.
  unfoldable pub wake_waiter : ℕ → ℕ → ℕ → ℕ × Waits M → ℕ × Waits M
  wake_waiter address count i (woken, w) = elim (w.futex_waiters i) [
    | none ↦ (woken, w)
    | some entry ↦
        let (was_blocked, kernel) = wake entry.thread w.kernel in
        if entry.address == address && ltb woken count
        then (
          (if was_blocked then woken + 1 else woken),
          record (w) { kernel = kernel; futex_waiters = update w.futex_waiters i none },
        )
        else (woken, w)
  ]

  unfoldable pub wake_waiters_on : ℕ → ℕ → ℕ → ℕ → ℕ × Waits M → ℕ × Waits M
  wake_waiters_on address count i zero s = s
  wake_waiters_on address count i (suc n) s =
      wake_waiters_on address count (i + 1) n (wake_waiter address count i s)

  unfoldable pub syscall_futex_wake : ℕ → ℕ → Waits M → ℕ × Waits M
  syscall_futex_wake address count w =
      if not (valid_user_word address)
      then (word_max, w)
      else wake_waiters_on address count 0 max_sleepers (0, w)

module _ {M : Type 0} (paging : Paging M) where
  -- A call that blocks ends where another thread runs; when its thread runs again it returns 0.
  unfoldable pub block : Waits M → Progress ℕ × Waits M
  block w =
      let (switched, kernel) = block_current paging w.kernel in
      ((if switched then suspended else returned 0), record (w) { kernel = kernel })

  unfoldable pub syscall_sleep : ℕ → Waits M → Progress ℕ × Waits M
  syscall_sleep milliseconds w =
      if milliseconds == 0 then (returned 0, w) else elim (current_id w.kernel) [
        | none ↦ (returned word_max, w)
        | some thread ↦ elim (free_entry w.sleepers) [
          | none ↦ (returned word_max, w)
          | some i ↦ block (record (w) {
            sleepers = update w.sleepers i (
                some (record {
                  thread = thread;
                  deadline = deadline_after w.ticks (ticks_of milliseconds);
                }));
          })
        ]
      ]

  -- `actual` is the word of user memory at the address.
  unfoldable pub syscall_futex_wait : ℕ → ℕ → ℕ → ℕ → Waits M → Progress ℕ × Waits M
  syscall_futex_wait address expected actual timeout w =
      if not (valid_user_word address)
      then (returned word_max, w)
      else if not (actual == expected)
      then (returned 1, w)
      else elim (current_id w.kernel) [
        | none ↦ (returned word_max, w)
        | some thread ↦ elim (free_entry w.futex_waiters) [
          | none ↦ (returned word_max, w)
          | some i ↦ block (record (w) {
            futex_waiters = update w.futex_waiters i (
                some (record {
                  address = address;
                  thread = thread;
                  deadline =
                      if timeout == word_max
                      then none
                      else some (deadline_after w.ticks (ticks_of timeout));
                }));
          })
        ]
      ]
