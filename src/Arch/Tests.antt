-- ===== src/Arch/Tests.antt =====
-- Runs of kernel-core/src/arch.rs: one thread that sleeps, and one that waits on a word.
use open_kernel.Prelude.{
  ℕ, ◌+◌, ◌^◌, ◌≡◌, ◌≢◌, ◌≤◌, refl, List, [], ◌∷◌, true, none, some, arith, first_from, length,
  update, ℕ_discrete, update_other, sym, ◌∙◌, ap, ◌%◌, ◌-◌,
}
use open_kernel.Threads.State.{
  Kernel, Paging, ready, running, blocked, empty_thread, boot_kernel, context_at, is_blocked,
  current_id,
}
use open_kernel.Threads.Queue.{enqueue, dequeue, next_ready, next_ready_loop}
use open_kernel.Threads.Switch.{block_current, schedule_from_current, wake}
use open_kernel.Threads.Spawn.{spawn, free_slot, release_resources, allocate_stacks, install}
use open_kernel.Threads.Process.{initialize_user_process}
use open_kernel.Threads.Join.{suspended}
use open_kernel.Threads.Safety.Invariant.{IsConsistent}
use open_kernel.Threads.Safety.Runs.{
  ThreadCall, call_initialize, call_spawn, call_start, perform, perform_all, AllAllowed, IsAllowed,
  perform_all-IsConsistent,
}
use open_kernel.Arch.{
  Waits, Sleeper, FutexWaiter, syscall_sleep, syscall_futex_wake, block, free_entry,
  timer_interrupt, max_sleepers, ticks_of,
}
use open_kernel.Arch.Guards.{valid_user_word}
use open_kernel.Arch.Digits.{
  decimal, parse_from, parse-decimal, max_digits, digits_from, reverse, hex_from, hex_digit,
}
use open_kernel.Arch.Clock.{Ticked, timer_interrupt-Ticked, timer_interrupts}
use open_kernel.Arch.Suspends.{IsUnnamed, syscall_sleep_ends}
use open_kernel.Arch.Futexes.{FutexWoken, syscall_futex_wake-FutexWoken}
use open_kernel.Arch.Runs.{
  WaitCall, call_sleep, call_futex_wait, call_futex_wake, call_timer, call_yield, wait_calls,
  wait_calls-IsConsistent,
}

-- Paging that hands out addresses one after the other.
abbrev paging : Paging ℕ
paging = record {
  allocate_kernel_stack = λ slot m. (some (m + 0x1000), m + 0x1000);
  release_kernel_stack = λ slot m. m;
  allocate_user_stack = λ slot m. (some (m + 0x1000), m + 0x1000);
  release_user_stack = λ slot m. m;
  destroy_user_address_space = λ space m. m;
  switch_address_space = λ space m. m;
  is_user_executable = λ address m. true;
  is_user_mapped = λ address m. true;
}

-- Thread 1 runs, and thread 2 is blocked.
abbrev kernel : Kernel ℕ
kernel = record (boot_kernel 0x4000 (context_at 0)) {
  threads =
      update (update (λ _. empty_thread) 1 (record (empty_thread) { state = running })) 2
        (record (empty_thread) { state = blocked });
  current_thread = 1;
}

abbrev two_waits : FutexWaiter
two_waits = record { address = 0x50000000; thread = 2; deadline = none }

-- Thread 2 waits on a word.
abbrev waits : Waits ℕ
waits = record {
  kernel = kernel;
  ticks = 41;
  sleepers = λ _. none;
  futex_waiters = update (λ _. none) 0 (some two_waits);
}

sleeps : (syscall_sleep paging 25 waits).0 ≡ suspended
unfolding syscall_sleep current_id free_entry first_from block block_current schedule_from_current
    next_ready next_ready_loop dequeue
sleeps = refl

unnamed : (j : ℕ) (e : FutexWaiter) → waits.futex_waiters j ≡ some e → e.thread ≢ 1
unnamed j e there same = elim (ℕ_discrete j 0) [
  | yes at ↦
      let found : some two_waits ≡ some e = ap waits.futex_waiters (sym at) ∙ there in
      let one : two_waits ≡ e = cc in
      let wrong : ◌≡◌ {A = ℕ} 2 1 = ap (λ (f : FutexWaiter). f.thread) one ∙ same in
      absurd (omega arith)
  | no ne ↦
      let wrong : none ≡ some e = sym (update_other (λ _. none) 0 (some two_waits) j ne) ∙ there in
      cc
]

waits-IsUnnamed : IsUnnamed 1 waits
waits-IsUnnamed = record {
  no_sleeper = λ j e there. let wrong : none ≡ some e = there in absurd cc;
  no_waiter = λ j e there same. unnamed j e there same;
}

abbrev after_sleep : Waits ℕ
after_sleep = (syscall_sleep paging 25 waits).1

sleep_example :
    (is_blocked ((timer_interrupts 2 after_sleep).kernel.threads 1).state ≡ true)
    × (((timer_interrupts 3 after_sleep).kernel.threads 1).state ≡ ready)
sleep_example =
    syscall_sleep_ends paging 25 2 waits sleeps waits-IsUnnamed (omega arith) (omega arith)
      (omega arith) (omega arith) (omega arith)

timer_example : Ticked after_sleep (timer_interrupt after_sleep) ((after_sleep.ticks + 1) % 2 ^ 64)
timer_example = timer_interrupt-Ticked after_sleep

futex_wake_example : FutexWoken 0x50000000 1 waits (syscall_futex_wake 0x50000000 1 waits)
unfolding valid_user_word
futex_wake_example = syscall_futex_wake-FutexWoken 0x50000000 1 waits refl

woken_is_counted : (syscall_futex_wake 0x50000000 1 waits).0 ≡ 1
unfolding syscall_futex_wake valid_user_word open_kernel.Arch.wake_waiters_on
    open_kernel.Arch.wake_waiter wake enqueue
woken_is_counted = refl

abbrev start : List ThreadCall
start = call_initialize 100 ∷ call_spawn 0x1000 ∷ call_spawn 0x2000 ∷ call_start 0x3000 ∷ []

abbrev boot : Kernel ℕ
boot = boot_kernel 0x4000 (context_at 0)

start-AllAllowed : AllAllowed paging start boot
unfolding AllAllowed IsAllowed perform initialize_user_process spawn free_slot first_from
    release_resources allocate_stacks install enqueue
start-AllAllowed = (tt, (tt, (tt, ((refl, refl), tt))))

abbrev running_two : Waits ℕ
running_two = record {
  kernel = perform_all paging start boot;
  ticks = 0;
  sleepers = λ _. none;
  futex_waiters = λ _. none;
}

abbrev calls : List WaitCall
calls =
    call_sleep 30
    ∷ call_timer
    ∷ call_futex_wait 0x50000000 1 1 (2 ^ 64 - 1)
    ∷ call_timer
    ∷ call_timer
    ∷ call_futex_wake 0x50000000 1
    ∷ call_yield
    ∷ []

wait_calls_example : IsConsistent (wait_calls paging calls running_two).kernel
wait_calls_example =
    wait_calls-IsConsistent paging calls running_two
      (perform_all-IsConsistent paging start 0x4000 (context_at 0) start-AllAllowed)

parse_example : (parse_from 0 (decimal 4096) ≡ 4096) × (length (decimal 4096) ≤ max_digits)
parse_example = parse-decimal 4096 (omega arith)

-- "4096", and 0x1F as "001F".
prints : (decimal 4096 ≡ 52 ∷ 48 ∷ 57 ∷ 54 ∷ []) × (hex_from 4 0x1F ≡ 48 ∷ 48 ∷ 49 ∷ 70 ∷ [])
unfolding decimal digits_from reverse hex_from hex_digit
prints = (refl, refl)
