-- ===== src/Threads/Safety/Schedule.antt =====
-- The calls of kernel-core/src/threads.rs that hand the processor to another thread.
use open_kernel.Prelude.{
  ℕ, ◌<◌, ◌≡◌, inl, inr, refl, sym, ap, ◌∙◌, subst, ◌==◌, ==_iff, update_self, update_other, true,
  false, true≢false, Bool-cases, Option-cases, ℕ_discrete, arith,
}
use open_kernel.Threads.State.{
  Kernel, Thread, Paging, running, max_threads, is_running, set_thread, set_state,
  process_address_space,
}
use open_kernel.Threads.Queue.{next_ready}
use open_kernel.Threads.Queue.Fifo.{waiting, next_ready-OnlyDequeued}
use open_kernel.Threads.Switch.{or_idle, context_switch, enter_address_space, schedule_from_current}
use open_kernel.Threads.Safety.Invariant.{IsFair, IsFair-same, AllWaitersIn, IsConsistent}
use open_kernel.Threads.Safety.Takes.{take_next-IsFair}
use open_kernel.Threads.Safety.Keeps.{
  Keeps, Keeps-trans, Keeps-IsConsistent, set_thread-Keeps, memory-Keeps, cpu-Keeps,
}

-- The state in which the scheduler is entered: the caller has left its running state.
pub record IsPaused {M : Type 0} (k : Kernel M) : Type 0 where
  pub fair : IsFair k
  pub waiters : AllWaitersIn k
  pub none_runs : (t : ℕ) → t < max_threads → 0 < t → is_running (k.threads t).state ≡ false

module _ {M : Type 0} where
  pub Keeps-IsPaused : {k k' : Kernel M} → Keeps k k' → IsPaused k → IsPaused k'
  Keeps-IsPaused h p = record {
    fair = h.fair p.fair;
    waiters = h.waiters p.waiters;
    none_runs = λ t lt pos. h.running_same t ∙ p.none_runs t lt pos;
  }

  -- A saved context changes no state.
  context_switch-Keeps :
      (from to : ℕ) (k : Kernel M) → from < max_threads → Keeps k (context_switch from to k)
  unfolding context_switch
  context_switch-Keeps from to k h =
      let saved = set_thread from (record (k.threads from) { context = k.cpu }) k in
      Keeps-trans
        (set_thread-Keeps from (record (k.threads from) { context = k.cpu }) k refl
          (λ all. all from h))
        (cpu-Keeps saved (saved.threads to).context)

  -- A thread marked as running becomes the current one, where none runs.
  chosen-IsConsistent :
      (k : Kernel M) (next : ℕ)
      → next < max_threads
      → IsFair (set_state next running k)
      → AllWaitersIn k
      → ((t : ℕ) → t < max_threads → 0 < t → is_running (k.threads t).state ≡ false)
      → IsConsistent (set_state next running (record k { current_thread = next }))
  unfolding waiting
  chosen-IsConsistent k next h f w quiet =
      let chosen = record (k.threads next) { state = running } in
      record {
        fair =
            IsFair-same (set_state next running k)
              (set_state next running (record k { current_thread = next })) refl
              (record {
                head_in = f.queue.head_in;
                count_in = f.queue.count_in;
                tail_at = f.queue.tail_at;
              })
              (λ u hu. refl) f;
        waiters = λ u hu. elim (Bool-cases (u == next)) [
          | inl e ↦ rw e (w next h)
          | inr e ↦ rw e (w u hu)
        ];
        current_in = inr h;
        current_runs = λ lt pos. rw (update_self k.threads next chosen);
        alone = λ t lt pos r. elim (ℕ_discrete t next) [
          | yes same ↦ same
          | no ne ↦ absurd (
              true≢false (
                sym r
                ∙ ap (λ (q : Thread). is_running q.state) (update_other k.threads next chosen t ne)
                ∙ quiet t lt pos))
        ];
      }

  -- Taking the next thread, from a paused state.
  pub taken-IsConsistent :
      (k : Kernel M)
      → IsPaused k
      → let (taken, k') = next_ready k in
        let next = or_idle taken in
        (next < max_threads)
        × IsConsistent (set_state next running (record k' { current_thread = next }))
  taken-IsConsistent k p =
      let out = take_next-IsFair k running p.fair refl in
      let same : (next_ready k).1.threads ≡ k.threads =
        ap (λ (q : Kernel M). q.threads) (next_ready-OnlyDequeued k).same in
      (
        out.0,
        chosen-IsConsistent (next_ready k).1 (or_idle (next_ready k).0) out.0 out.1
            (rw same p.waiters) (rw same p.none_runs),
      )

module _ {M : Type 0} (paging : Paging M) where
  pub enter-only :
      (t : Thread) (k : Kernel M)
      → (m : M) × (enter_address_space paging t k ≡ record k { memory = m })
  unfolding enter_address_space
  enter-only t k = elim (Bool-cases t.is_user) [
    | inr e ↦ (k.memory, rw e)
    | inl e ↦ elim (Option-cases t.process) [
      | inl none_ ↦ (k.memory, rw (e, none_))
      | inr (process, some_) ↦ elim (Option-cases (process_address_space process k)) [
        | inl unmapped ↦ (k.memory, ground arith)
        | inr (space, found) ↦ (paging.switch_address_space space k.memory, ground arith)
      ]
    ]
  ]

  pub enter-Keeps : (t : Thread) (k : Kernel M) → Keeps k (enter_address_space paging t k)
  enter-Keeps t k = let (m, e) = enter-only t k in rw e (memory-Keeps k m)

  -- From a paused state the scheduler leaves a consistent one, on both branches.
  pub schedule_from_current-IsConsistent :
      (current : ℕ) (k : Kernel M)
      → current < max_threads
      → k.current_thread ≡ current
      → IsPaused k
      → IsConsistent (schedule_from_current paging current k).1
  unfolding schedule_from_current
  schedule_from_current-IsConsistent current k h cur p =
      let out = taken-IsConsistent k p in
      elim (Bool-cases (or_idle (next_ready k).0 == current)) [
        | inl same ↦ rw same (unmoved same out.1)
        | inr other ↦ rw other (
            Keeps-IsConsistent (Keeps-trans (enter-Keeps _ _) (context_switch-Keeps current _ _ h))
              out.1)
      ]
    where
      unmoved :
          (or_idle (next_ready k).0 == current) ≡ true
          → IsConsistent (
              set_state
                (or_idle (next_ready k).0)
                running
                (record ((next_ready k).1) { current_thread = or_idle (next_ready k).0 }))
          → IsConsistent (set_state current running (next_ready k).1)
      unmoved same c =
          let k' = (next_ready k).1 in
          let at : k'.current_thread ≡ current =
            ap (λ (q : Kernel M). q.current_thread) (next_ready-OnlyDequeued k).same ∙ cur in
          subst (λ d. IsConsistent (set_state current running (record k' { current_thread = d })))
            (sym at)
            (subst (λ d. IsConsistent (set_state d running (record k' { current_thread = d })))
              ((==_iff _ current).0 same) c)
