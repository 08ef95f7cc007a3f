-- ===== src/Threads/Safety/Takes.antt =====
-- Taking a thread out of the run queue of kernel-core/src/threads.rs.
use open_kernel.Prelude.{
  ℕ, ◌<◌, ◌≡◌, inl, inr, sym, ap, ◌∙◌, subst, if◌then◌else◌, Option, none, some, update_self,
  update_other, true, false, List, [], ◌∷◌, List-cases, ℕ_discrete, arith,
}
use open_kernel.Threads.State.{Kernel, ThreadState, max_threads, is_exited, is_ready, set_state}
use open_kernel.Threads.Queue.{next_ready}
use open_kernel.Threads.Queue.Fifo.{
  IsQueue, waiting, next_ready_refines, skip_exited, next_ready-OnlyDequeued,
}
use open_kernel.Threads.Switch.{or_idle}
use open_kernel.Threads.Safety.Occurrences.{occurs}
use open_kernel.Threads.Safety.Invariant.{IsFair, IsFair-same, flag-update}

module _ {M : Type 0} where
  after_take :
      (k k' : Kernel M) (c : ℕ) (cs : List ℕ) (s : ThreadState)
      → waiting k ≡ c ∷ cs
      → waiting k' ≡ cs
      → IsQueue k'
      → k'.threads ≡ k.threads
      → IsFair k
      → is_ready s ≡ false
      → IsFair (set_state c s k')
  unfolding waiting occurs
  after_take k k' c cs s e e' q same f n = record {
    queue = record { head_in = q.head_in; count_in = q.count_in; tail_at = q.tail_at };
    entries = rw w (rw e at f.entries).1;
    counted = λ u hu. rw w (elim (ℕ_discrete u c) [
      | yes at ↦
          rw (at, update_self k'.threads c (record (k'.threads c) { state = s }), n)
            (ground (arith, before c (rw e at f.entries).0))
      | no ne ↦
          rw (update_other k'.threads c (record (k'.threads c) { state = s }) u ne, same)
            (ground (arith, before u hu))
    ]);
  }
    where
      w : waiting (set_state c s k') ≡ cs
      w = e'

      before :
          (t : ℕ)
          → t < max_threads
          → occurs t (c ∷ cs) ≡ (if is_ready (k.threads t).state then 1 else 0)
      before t h =
          subst (λ l. occurs t l ≡ (if is_ready (k.threads t).state then 1 else 0)) e
            (f.counted t h)

  -- An empty queue: the idle thread is chosen, which is not ready.
  from_empty :
      (k : Kernel M) (s : ThreadState)
      → IsFair k
      → is_ready s ≡ false
      → ◌≡◌ {A = Option ℕ × List ℕ} ((next_ready k).0, waiting (next_ready k).1) (none, [])
      → IsQueue (next_ready k).1
      → (next_ready k).1.threads ≡ k.threads
      → waiting k ≡ []
      → let (taken, k') = next_ready k in
        (or_idle taken < max_threads) × IsFair (set_state (or_idle taken) s k')
  unfolding waiting occurs
  from_empty k s f e r q same empty =
      let t : (next_ready k).0 ≡ none = ap (λ (o : Option ℕ × List ℕ). o.0) r in
      let w : waiting (next_ready k).1 ≡ [] = ap (λ (o : Option ℕ × List ℕ). o.1) r in
      let idle : (if is_ready (k.threads 0).state then 1 else 0) ≡ 0 =
        sym (f.counted 0 (omega arith)) ∙ rw empty in
      rw t (
        omega arith,
        IsFair-same k (set_state 0 s (next_ready k).1) (w ∙ sym empty)
            (record { head_in = q.head_in; count_in = q.count_in; tail_at = q.tail_at })
            (λ u h.
              flag-update is_ready (next_ready k).1 0 _ u (rw same (ground (arith, idle)))
              ∙ rw same)
            f,
      )

  pub next_is_ready :
      (k : Kernel M) (c : ℕ) (cs : List ℕ)
      → waiting k ≡ c ∷ cs
      → IsFair k
      → (c < max_threads) × (is_ready (k.threads c).state ≡ true)
  unfolding occurs
  next_is_ready k c cs e f =
      let below = (rw e at f.entries).0 in
      let n : occurs c (c ∷ cs) ≡ (if is_ready (k.threads c).state then 1 else 0) =
        subst (λ l. occurs c l ≡ (if is_ready (k.threads c).state then 1 else 0)) e
          (f.counted c below) in
      (below, ground (arith, n))

  -- Taking the next thread out of the queue and marking it so that it is not ready.
  pub take_next-IsFair :
      (k : Kernel M) (s : ThreadState)
      → IsFair k
      → is_ready s ≡ false
      → let (taken, k') = next_ready k in
        (or_idle taken < max_threads) × IsFair (set_state (or_idle taken) s k')
  unfolding skip_exited
  take_next-IsFair k s f e =
      let r = next_ready_refines k f.queue in
      let same = ap (λ (q : Kernel M). q.threads) (next_ready-OnlyDequeued k).same in
      elim (List-cases (waiting k)) [
        | inl empty ↦ from_empty k s f e (rw empty at r.0) r.1 same empty
        | inr (c, cs, full) ↦
            let next = next_is_ready k c cs full f in
            let live : is_exited (k.threads c).state ≡ false = ground (arith, next.1) in
            let out = skipped c cs live (rw full at r.0) in
            rw out.0 (next.0, after_take k (next_ready k).1 c cs s full out.1 r.1 same f e)
      ]
    where
      skipped :
          (c : ℕ) (cs : List ℕ)
          → is_exited (k.threads c).state ≡ false
          → ((next_ready k).0, waiting (next_ready k).1)
            ≡ skip_exited (λ t. is_exited (k.threads t).state) (c ∷ cs)
          → ((next_ready k).0 ≡ some c) × (waiting (next_ready k).1 ≡ cs)
      skipped c cs live r = ground arith
