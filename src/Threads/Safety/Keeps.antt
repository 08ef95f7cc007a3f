-- ===== src/Threads/Safety/Keeps.antt =====
-- The calls of kernel-core/src/threads.rs that leave the running threads as they are.
use open_kernel.Prelude.{
  ℕ, zero, suc, ◌+◌, ◌≤◌, ◌<◌, ◌≡◌, inl, inr, refl, sym, ap, ◌∙◌, if◌then◌else◌, ◌==◌, leb, true,
  false, Bool-cases, Option-cases, arith, first_from, is_some_of,
}
use open_kernel.Threads.State.{
  Kernel, Thread, ready, max_threads, is_ready, is_running, is_blocked, set_thread, set_state,
  Process, Trampoline, Context,
}
use open_kernel.Threads.Queue.{enqueue}
use open_kernel.Threads.Queue.Fifo.{IsQueue, waiting}
use open_kernel.Threads.Switch.{wake_waiters, wake, reparent_children_of_exited_process, reparented}
use open_kernel.Threads.Safety.Invariant.{
  IsFair, IsFair-same, WaitersIn, AllWaitersIn, IsConsistent, flag-update, set_thread-IsFair,
  enqueue-IsFair, threads-enqueue, current-enqueue,
}

pub record Keeps {M : Type 0} (k k' : Kernel M) : Type 0 where
  pub fair : IsFair k → IsFair k'
  pub current : k'.current_thread ≡ k.current_thread
  pub running_same : (t : ℕ) → is_running (k'.threads t).state ≡ is_running (k.threads t).state
  pub waiters : AllWaitersIn k → AllWaitersIn k'

module _ {M : Type 0} where
  pub Keeps-refl : (k : Kernel M) → Keeps k k
  Keeps-refl k = record {
    fair = λ f. f;
    current = refl;
    running_same = λ t. refl;
    waiters = λ w. w;
  }

  pub Keeps-trans : {j k l : Kernel M} → Keeps j k → Keeps k l → Keeps j l
  Keeps-trans a b = record {
    fair = λ f. b.fair (a.fair f);
    current = b.current ∙ a.current;
    running_same = λ t. b.running_same t ∙ a.running_same t;
    waiters = λ w. b.waiters (a.waiters w);
  }

  pub Keeps-IsConsistent : {k k' : Kernel M} → Keeps k k' → IsConsistent k → IsConsistent k'
  Keeps-IsConsistent {k} {k'} h c = record {
    fair = h.fair c.fair;
    waiters = h.waiters c.waiters;
    current_in = rw h.current c.current_in;
    current_runs = rw h.current λ lt pos. h.running_same k.current_thread ∙ c.current_runs lt pos;
    alone = λ t lt pos r. c.alone t lt pos (sym (h.running_same t) ∙ r) ∙ sym h.current;
  }

  pub waiters-update :
      (i : ℕ) (t : Thread) (k : Kernel M)
      → WaitersIn t
      → AllWaitersIn k
      → AllWaitersIn (set_thread i t k)
  waiters-update i t k w all u hu = elim (Bool-cases (u == i)) [
    | inl e ↦ rw e w
    | inr e ↦ rw e (all u hu)
  ]

  -- An entry rewritten without a change of state.
  pub set_thread-Keeps :
      (i : ℕ) (t : Thread) (k : Kernel M)
      → t.state ≡ (k.threads i).state
      → (AllWaitersIn k → WaitersIn t)
      → Keeps k (set_thread i t k)
  set_thread-Keeps i t k e w = record {
    fair = set_thread-IsFair i t k (ap is_ready e);
    current = refl;
    running_same = λ u. flag-update is_running k i t u (ap is_running e);
    waiters = λ all. waiters-update i t k (w all) all;
  }

  -- An entry that is neither running nor ready made ready, and queued.
  pub enqueue-Keeps :
      (i : ℕ) (t : Thread) (k : Kernel M)
      → i < max_threads
      → is_ready (k.threads i).state ≡ false
      → is_running (k.threads i).state ≡ false
      → t.state ≡ ready
      → (AllWaitersIn k → WaitersIn t)
      → Keeps k (enqueue i (set_thread i t k))
  enqueue-Keeps i t k h nr nn e w = record {
    fair = enqueue-IsFair i t k h nr (ap is_ready e);
    current = current-enqueue i (set_thread i t k);
    running_same = λ u.
        rw (threads-enqueue i (set_thread i t k))
          (flag-update is_running k i t u (ap is_running e ∙ sym nn));
    waiters = λ all. rw (threads-enqueue i (set_thread i t k)) (waiters-update i t k (w all) all);
  }

  -- A blocked thread woken.
  pub wake_one-Keeps :
      (i : ℕ) (k : Kernel M)
      → i < max_threads
      → is_blocked (k.threads i).state ≡ true
      → Keeps k (enqueue i (set_state i ready k))
  wake_one-Keeps i k h b =
      enqueue-Keeps i (record (k.threads i) { state = ready }) k h (ground arith) (ground arith)
        refl (λ all. all i h)

  pub wake-Keeps : (thread : ℕ) (k : Kernel M) → Keeps k (wake thread k).1
  unfolding wake
  wake-Keeps thread k = elim (Bool-cases (leb max_threads thread)) [
    | inl out ↦ rw out (Keeps-refl k)
    | inr inside ↦ elim (Bool-cases (is_blocked (k.threads thread).state)) [
      | inl b ↦ rw (inside, b) (wake_one-Keeps thread k (ground arith) b)
      | inr b ↦ rw (inside, b) (Keeps-refl k)
    ]
  ]

  pub wake_waiters-Keeps :
      (waiters : ℕ → ℕ) (i n : ℕ) (k : Kernel M)
      → ((j : ℕ) → i ≤ j → j < i + n → waiters j < max_threads)
      → Keeps k (wake_waiters waiters i n k)
  unfolding wake_waiters
  wake_waiters-Keeps waiters i zero k h = Keeps-refl k
  wake_waiters-Keeps waiters i (suc n) k h =
      Keeps-trans first
        (wake_waiters-Keeps waiters (i + 1) n woken (λ j lo hi. h j (omega arith) (omega arith)))
    where
      woken : Kernel M
      woken =
          if is_blocked (k.threads (waiters i)).state
          then enqueue (waiters i) (set_state (waiters i) ready k)
          else k

      first : Keeps k woken
      first = elim (Bool-cases (is_blocked (k.threads (waiters i)).state)) [
        | inl b ↦ rw b (wake_one-Keeps (waiters i) k (h i (omega arith) (omega arith)) b)
        | inr b ↦ rw b (Keeps-refl k)
      ]

  -- What the rest of the state is does not matter.
  pub same-Keeps :
      (k k' : Kernel M)
      → waiting k' ≡ waiting k
      → (IsQueue k → IsQueue k')
      → k'.threads ≡ k.threads
      → k'.current_thread ≡ k.current_thread
      → Keeps k k'
  same-Keeps k k' w q t c = record {
    fair = λ f. IsFair-same k k' w (q f.queue) (λ u h. rw t) f;
    current = c;
    running_same = λ u. rw t;
    waiters = λ all. rw t all;
  }

  IsQueue-same :
      (k k' : Kernel M)
      → k'.run_head ≡ k.run_head
      → k'.run_tail ≡ k.run_tail
      → k'.run_count ≡ k.run_count
      → IsQueue k
      → IsQueue k'
  IsQueue-same k k' h t c q = record {
    head_in = rw h q.head_in;
    count_in = rw c q.count_in;
    tail_at = rw (h, t, c) q.tail_at;
  }

  pub processes-Keeps : (k : Kernel M) (p : ℕ → Process) → Keeps k (record k { processes = p })
  unfolding waiting
  processes-Keeps k p =
      same-Keeps k (record k { processes = p }) refl
        (IsQueue-same k (record k { processes = p }) refl refl refl) refl refl

  pub memory-Keeps : (k : Kernel M) (m : M) → Keeps k (record k { memory = m })
  unfolding waiting
  memory-Keeps k m =
      same-Keeps k (record k { memory = m }) refl
        (IsQueue-same k (record k { memory = m }) refl refl refl) refl refl

  pub stack_words-Keeps :
      (k : Kernel M) (w : ℕ → Trampoline) → Keeps k (record k { stack_words = w })
  unfolding waiting
  stack_words-Keeps k w =
      same-Keeps k (record k { stack_words = w }) refl
        (IsQueue-same k (record k { stack_words = w }) refl refl refl) refl refl

  pub cpu-Keeps : (k : Kernel M) (c : Context) → Keeps k (record k { cpu = c })
  unfolding waiting
  cpu-Keeps k c =
      same-Keeps k (record k { cpu = c }) refl
        (IsQueue-same k (record k { cpu = c }) refl refl refl) refl refl

  reparent_only :
      (thread : ℕ) (k : Kernel M)
      → (p : ℕ → Process) × (reparent_children_of_exited_process thread k
          ≡ record k { processes = p })
  unfolding reparent_children_of_exited_process
  reparent_only thread k =
      elim (Option-cases
        (first_from (λ i. is_some_of (k.processes i).main_thread thread) 0 max_threads)) [
          | inl e ↦ (k.processes, rw (e, reparent_children_of_exited_process))
          | inr (i, e) ↦ (
            reparented (k.processes i).id k.processes,
            rw (e, reparent_children_of_exited_process),
          )
        ]

  pub reparent-Keeps :
      (thread : ℕ) (k : Kernel M) → Keeps k (reparent_children_of_exited_process thread k)
  reparent-Keeps thread k = let (p, e) = reparent_only thread k in rw e (processes-Keeps k p)
