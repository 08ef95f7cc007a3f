-- ===== src/Threads/Safety/Rotation.antt =====
-- Every ready thread of kernel-core/src/threads.rs gets its turn.
use open_kernel.Prelude.{
  ℕ, zero, suc, ◌+◌, ◌<◌, ◌≡◌, refl, sym, ap, ◌∙◌, subst, false, ◌==◌, ==_iff, Option, some, List,
  [], ◌∷◌, ◌++◌, append-nil, append_assoc, length, Bool-cases, inl, inr, arith,
}
use open_kernel.Threads.State.{
  Kernel, Paging, ready, running, max_threads, no_thread, idle_thread, is_exited, set_thread,
  set_state,
}
use open_kernel.Threads.Queue.{enqueue, next_ready}
use open_kernel.Threads.Queue.Fifo.{
  waiting, skip_exited, next_ready_refines, next_ready-OnlyDequeued,
}
use open_kernel.Threads.Switch.{context_switch, schedule_from_current, yield_now}
use open_kernel.Threads.Safety.Invariant.{IsFair, IsConsistent, waiting-enqueue, current-enqueue}
use open_kernel.Threads.Safety.Takes.{next_is_ready}
use open_kernel.Threads.Safety.Schedule.{enter-only}
use open_kernel.Threads.Safety.Suspends.{queued_pauses, yield_now-IsConsistent}

module _ {M : Type 0} (paging : Paging M) where
  -- The first thread of the queue is taken.
  taken :
      (k : Kernel M) (x : ℕ) (rest : List ℕ)
      → IsFair k
      → waiting k ≡ x ∷ rest
      → ((next_ready k).0 ≡ some x) × (waiting (next_ready k).1 ≡ rest)
  unfolding skip_exited
  taken k x rest f e =
      let next = next_is_ready k x rest e f in
      let live : is_exited (k.threads x).state ≡ false = ground (arith, next.1) in
      first live (rw e at (next_ready_refines k f.queue).0)
    where
      first :
          is_exited (k.threads x).state ≡ false
          → ◌≡◌ {A = Option ℕ × List ℕ}
              ((next_ready k).0, waiting (next_ready k).1)
              (skip_exited (λ t. is_exited (k.threads t).state) (x ∷ rest))
          → ((next_ready k).0 ≡ some x) × (waiting (next_ready k).1 ≡ rest)
      first live r = ground arith

  -- The scheduler gives the processor to the first thread of the queue.
  scheduled :
      (current : ℕ) (k : Kernel M) (x : ℕ) (rest : List ℕ)
      → IsFair k
      → k.current_thread ≡ current
      → waiting k ≡ x ∷ rest
      → let k' = (schedule_from_current paging current k).1 in
        (k'.current_thread ≡ x) × (waiting k' ≡ rest)
  unfolding schedule_from_current context_switch waiting
  scheduled current k x rest f at e =
      let t = taken k x rest f e in
      let same = ap (λ (q : Kernel M). q.current_thread) (next_ready-OnlyDequeued k).same in
      elim (Bool-cases (x == current)) [
        | inl own ↦ rw (t.0, own) (same ∙ at ∙ sym ((==_iff x current).0 own), t.1)
        | inr other ↦
            rw (t.0, other)
              (let chosen = set_state x running (record (next_ready k).1 { current_thread = x }) in
                let (m, entered) = enter-only paging ((next_ready k).1.threads x) chosen in
                rw entered (refl, t.1))
      ]

  -- A call of `yield_now` runs the first thread of the queue and moves the others up.
  yielded :
      (k : Kernel M) (x : ℕ) (rest : List ℕ)
      → IsConsistent k
      → k.current_thread < max_threads
      → waiting k ≡ x ∷ rest
      → let k' = (yield_now paging k).1 in
        (k'.current_thread ≡ x) × ((more : List ℕ) × (waiting k' ≡ rest ++ more))
  unfolding yield_now
  yielded k x rest c lt e =
      let live : (k.current_thread == no_thread) ≡ false = ground (arith, lt) in
      elim (Bool-cases (k.current_thread == idle_thread)) [
        | inl idle ↦
            let out = scheduled k.current_thread k x rest c.fair refl e in
            rw (live, idle) (out.0, ([], out.1 ∙ sym (append-nil rest)))
        | inr busy ↦
            let pos : 0 < k.current_thread = ground arith in
            let t = record (k.threads k.current_thread) { state = ready } in
            let queued = enqueue k.current_thread (set_thread k.current_thread t k) in
            let w =
              waiting-enqueue k.current_thread t k lt (ground (arith, c.current_runs lt pos))
                c.fair in
            let out =
              scheduled k.current_thread queued x (rest ++ (k.current_thread ∷ []))
                (queued_pauses paging k c lt pos).fair
                (current-enqueue k.current_thread (set_thread k.current_thread t k))
                (w ∙ rw e refl) in
            rw (live, busy) (out.0, (k.current_thread ∷ [], out.1))
      ]

  -- `n` calls of `yield_now`, one after the other.
  unfoldable pub yields : ℕ → Kernel M → Kernel M
  yields zero k = k
  yields (suc n) k = yields n (yield_now paging k).1

  -- Bounded waiting: of a consistent state with a current thread, a thread that waits behind `n`
  -- others runs after `n + 1` calls of `yield_now`, whoever makes them.
  pub yields-turn :
      (before after : List ℕ) (t : ℕ) (k : Kernel M)
      → IsConsistent k
      → k.current_thread < max_threads
      → waiting k ≡ before ++ (t ∷ after)
      → (yields (length before + 1) k).current_thread ≡ t
  unfolding yields
  yields-turn [] after t k c lt e = (yielded k t after c lt e).0
  yields-turn (x ∷ before) after t k c lt e =
      let (now, (more, queue)) = yielded k x (before ++ (t ∷ after)) c lt e in
      let k' = (yield_now paging k).1 in
      let inside : k'.current_thread < max_threads =
        subst (λ i. i < max_threads) (sym now)
          (next_is_ready k x (before ++ (t ∷ after)) e c.fair).0 in
      let count : length (x ∷ before) + 1 ≡ suc (length before + 1) = omega arith in
      rw count (
        yields-turn before (after ++ more) t k' (yield_now-IsConsistent paging k c) inside
          (queue ∙ append_assoc before (t ∷ after) more))
