-- ===== src/Arch/Sleeps.antt =====
-- When a sleep ends (kernel-core/src/arch.rs): at its tick, and not before.
use open_kernel.Prelude.{
  ℕ, zero, suc, ◌+◌, ◌-◌, ◌%◌, ◌^◌, ◌<◌, ◌≡◌, ◌≢◌, inl, inr, refl, sym, ap, subst, ◌∙◌, Bool, true,
  false, ◌&&◌, if◌then◌else◌, ==_refl, ==_of_ne, Option, none, some, Option-cases, ℕ_discrete,
  arith,
}
use open_kernel.Threads.State.{ready, max_threads, is_blocked}
use open_kernel.Arch.{
  Waits, Sleeper, FutexWaiter, max_sleepers, has_come, slept_enough, timed_out, timer_interrupt,
}
use open_kernel.Arch.Sweeps.{names_entry, names, names-false, names-true, in_range}
use open_kernel.Arch.Clock.{Ticked, Asleep, sleeper_due, timer_interrupts, timer_interrupt-Ticked}

-- An entry that is left was there.
was_there :
    {E : Type 0} (b : Bool) (x : Option E) (e : E) → (if b then none else x) ≡ some e → x ≡ some e
was_there true x e h = cc
was_there false x e h = h

too_early :
    (ticks deadline : ℕ)
    → ticks < deadline
    → deadline < ticks + 2 ^ 63
    → deadline < 2 ^ 64
    → has_come ticks deadline ≡ false
too_early ticks deadline h g small =
    let gap : (ticks + (2 ^ 64 - deadline)) % 2 ^ 64 ≡ 2 ^ 64 - (deadline - ticks) = omega arith in
    rw gap (ground (arith, h, g))

on_time : (ticks : ℕ) → ticks < 2 ^ 64 → has_come ticks ticks ≡ true
on_time ticks h = let gap : (ticks + (2 ^ 64 - ticks)) % 2 ^ 64 ≡ 0 = omega arith in rw gap refl

module _ {M : Type 0} where
  -- No other entry names the thread.
  others_silent :
      (t i deadline ticks j : ℕ) (w : Waits M)
      → Asleep t i deadline w
      → j ≢ i
      → names_entry (λ (s : Sleeper). s.thread) (slept_enough ticks) (w.sleepers j) t ≡ false
  others_silent t i deadline ticks j w h ne = elim (Option-cases (w.sleepers j)) [
    | inl e ↦ rw e refl
    | inr (x, e) ↦ rw (e, ==_of_ne t x.thread (λ same. h.alone j ne x e (sym same))) (ground arith)
  ]

  waiters_silent :
      (t i deadline ticks : ℕ) (w : Waits M)
      → Asleep t i deadline w
      → names (λ (f : FutexWaiter). f.thread) (timed_out ticks) 0 max_sleepers w.futex_waiters t
        ≡ false
  waiters_silent t i deadline ticks w h =
      names-false (λ (f : FutexWaiter). f.thread) (timed_out ticks) 0 max_sleepers w.futex_waiters t
        (λ j. elim (Option-cases (w.futex_waiters j)) [
          | inl e ↦ rw e refl
          | inr (x, e) ↦
              rw (e, ==_of_ne t x.thread (λ same. h.no_waiter j x e (sym same))) (ground arith)
        ])

  -- Before its deadline a thread sleeps on.
  sleeps_on :
      (t i deadline ticks : ℕ) (w w' : Waits M)
      → Ticked w w' ticks
      → Asleep t i deadline w
      → t < max_threads
      → has_come ticks deadline ≡ false
      → Asleep t i deadline w'
  sleeps_on t i deadline ticks w w' f h lt early = record {
    entry = f.sleepers_left i ∙ rw h.entry (rw early (ground arith));
    alone = λ j ne e there. h.alone j ne e (
        was_there (in_range 0 max_sleepers j && sleeper_due ticks (w.sleepers j)) (w.sleepers j) e
          (sym (f.sleepers_left j) ∙ there));
    no_waiter = λ j e there.
        h.no_waiter j e (was_there _ (w.futex_waiters j) e (sym (f.waiters_left j) ∙ there));
    is_asleep =
        let silent : names (λ (s : Sleeper). s.thread) (slept_enough ticks) 0 max_sleepers
              w.sleepers t
            ≡ false =
          names-false (λ (s : Sleeper). s.thread) (slept_enough ticks) 0 max_sleepers w.sleepers t
            (λ j. elim (ℕ_discrete j i) [
              | yes at ↦ rw (at, h.entry, early) refl
              | no ne ↦ others_silent t i deadline ticks j w h ne
            ]) in
        ap is_blocked (f.woken.states t lt)
        ∙ rw (silent, waiters_silent t i deadline ticks w h) h.is_asleep;
  }

  -- At its deadline it is made ready.
  wakes_up :
      (t i deadline ticks : ℕ) (w w' : Waits M)
      → Ticked w w' ticks
      → Asleep t i deadline w
      → t < max_threads
      → i < max_sleepers
      → has_come ticks deadline ≡ true
      → (w'.kernel.threads t).state ≡ ready
  wakes_up t i deadline ticks w w' f h lt inside due =
      let called : names (λ (s : Sleeper). s.thread) (slept_enough ticks) 0 max_sleepers w.sleepers
            t
          ≡ true =
        names-true (λ (s : Sleeper). s.thread) (slept_enough ticks) 0 max_sleepers i w.sleepers t
          (omega arith) (omega arith) (rw (h.entry, due, ==_refl t) refl) in
      f.woken.states t lt ∙ rw (called, h.is_asleep) refl

  -- A thread that sleeps until a tick, and that no other entry names, sleeps through the interrupts of
  -- the timer before that tick, and is ready after the interrupt that reaches it: no sleep ends early,
  -- and none is missed. The clock does not wrap on the way.
  pub sleep_ends :
      (n t i : ℕ) (w : Waits M)
      → Asleep t i (w.ticks + suc n) w
      → w.ticks + suc n < 2 ^ 64
      → n < 2 ^ 62
      → t < max_threads
      → i < max_sleepers
      → Asleep t i (w.ticks + suc n) (timer_interrupts n w)
        × (((timer_interrupts (suc n) w).kernel.threads t).state ≡ ready)
  unfolding timer_interrupts
  sleep_ends zero t i w h clock small lt inside =
      let f = timer_interrupt-Ticked w in
      let now : (w.ticks + 1) % 2 ^ 64 ≡ w.ticks + 1 = omega arith in
      (
        h,
        wakes_up t i (w.ticks + 1) ((w.ticks + 1) % 2 ^ 64) w _ f h lt inside
            (rw now (on_time (w.ticks + 1) clock)),
      )
  sleep_ends (suc n) t i w h clock small lt inside =
      let f = timer_interrupt-Ticked w in
      let now : (w.ticks + 1) % 2 ^ 64 ≡ w.ticks + 1 = omega arith in
      let w' = timer_interrupt w in
      let tick : w'.ticks ≡ w.ticks + 1 = f.clock ∙ omega arith in
      let deadline : w.ticks + suc (suc n) ≡ w'.ticks + suc n = omega (arith, tick) in
      let h' = sleeps_on t i (w.ticks + suc (suc n)) ((w.ticks + 1) % 2 ^ 64) w w' f h lt (
        rw now
          (too_early (w.ticks + 1) (w.ticks + suc (suc n)) (omega arith) (omega arith) clock)) in
      rw deadline (
        sleep_ends n t i w' (subst (λ d. Asleep t i d w') deadline h') (omega (arith, tick))
          (omega arith) lt inside)
