-- ===== src/Threads/Safety/Invariant.antt =====
-- The invariant of the scheduler of kernel-core/src/threads.rs.
use open_kernel.Prelude.{
  ℕ, ◌<◌, ◌≡◌, ◌⊎◌, refl, sym, ap, ◌∙◌, if◌then◌else◌, ==_of_ne, ==_refl, update, update_self,
  update_other, Bool, true, false, [], ◌∷◌, ◌++◌, length, ℕ_discrete, arith,
}
use open_kernel.Threads.State.{
  Kernel, Thread, ThreadState, max_threads, no_thread, is_ready, is_running, set_thread,
}
use open_kernel.Threads.Queue.{enqueue}
use open_kernel.Threads.Queue.Fifo.{IsQueue, waiting, enqueue_refines}
use open_kernel.Threads.Safety.Occurrences.{occurs, AllBelow, AllBelow-snoc, occurs-snoc, length-lt}

-- A thread waits in the run queue exactly once if it is ready, and not at all if it is not.
pub record IsFair {M : Type 0} (k : Kernel M) : Type 0 where
  pub queue : IsQueue k
  pub entries : AllBelow max_threads (waiting k)
  pub counted :
      (t : ℕ)
      → t < max_threads
      → occurs t (waiting k) ≡ (if is_ready (k.threads t).state then 1 else 0)

-- The threads that a thread remembers to wake are entries of the table.
abbrev pub WaitersIn : Thread → Type 0
WaitersIn t = (j : ℕ) → j < t.join_waiter_count → t.join_waiters j < max_threads

abbrev pub AllWaitersIn : {M : Type 0} → Kernel M → Type 0
AllWaitersIn k = (t : ℕ) → t < max_threads → WaitersIn (k.threads t)

-- Of the threads but the idle one, the current thread runs and no other.
pub record IsConsistent {M : Type 0} (k : Kernel M) : Type 0 where
  pub fair : IsFair k
  pub waiters : AllWaitersIn k
  pub current_in : (k.current_thread ≡ no_thread) ⊎ (k.current_thread < max_threads)
  pub current_runs :
      k.current_thread < max_threads
      → 0 < k.current_thread
      → is_running (k.threads k.current_thread).state ≡ true
  pub alone :
      (t : ℕ)
      → t < max_threads
      → 0 < t
      → is_running (k.threads t).state ≡ true
      → t ≡ k.current_thread

module _ {M : Type 0} where
  -- The invariant of the queue reads only the queue and which threads are ready.
  pub IsFair-same :
      (k k' : Kernel M)
      → waiting k' ≡ waiting k
      → IsQueue k'
      → ((t : ℕ) → t < max_threads → is_ready (k'.threads t).state ≡ is_ready (k.threads t).state)
      → IsFair k
      → IsFair k'
  IsFair-same k k' w q same f = record {
    queue = q;
    entries = rw w f.entries;
    counted = λ t h. rw (w, same t h) (f.counted t h);
  }

  pub flag-update :
      (p : ThreadState → Bool) (k : Kernel M) (i : ℕ) (t : Thread) (u : ℕ)
      → p t.state ≡ p (k.threads i).state
      → p (update k.threads i t u).state ≡ p (k.threads u).state
  flag-update p k i t u e = elim (ℕ_discrete u i) [
    | yes same ↦ rw (same, update_self k.threads i t) e
    | no ne ↦ ap (λ (q : Thread). p q.state) (update_other k.threads i t u ne)
  ]

  pub set_thread-IsFair :
      (i : ℕ) (t : Thread) (k : Kernel M)
      → is_ready t.state ≡ is_ready (k.threads i).state
      → IsFair k
      → IsFair (set_thread i t k)
  unfolding waiting
  set_thread-IsFair i t k e f =
      IsFair-same k (set_thread i t k) refl
        (record {
          head_in = f.queue.head_in;
          count_in = f.queue.count_in;
          tail_at = f.queue.tail_at;
        })
        (λ u h. flag-update is_ready k i t u e) f

  not_waiting :
      (k : Kernel M) (i : ℕ)
      → IsFair k
      → i < max_threads
      → is_ready (k.threads i).state ≡ false
      → occurs i (waiting k) ≡ 0
  not_waiting k i f h e = f.counted i h ∙ rw e

  room :
      (k : Kernel M) (i : ℕ)
      → IsFair k
      → i < max_threads
      → is_ready (k.threads i).state ≡ false
      → length (waiting k) < max_threads
  room k i f h e =
      length-lt max_threads (waiting k) i f.entries (λ t ht. ground (arith, f.counted t ht)) h
        (not_waiting k i f h e)

  pub threads-enqueue : (i : ℕ) (k : Kernel M) → (enqueue i k).threads ≡ k.threads
  unfolding enqueue
  threads-enqueue i k = ground arith

  pub current-enqueue : (i : ℕ) (k : Kernel M) → (enqueue i k).current_thread ≡ k.current_thread
  unfolding enqueue
  current-enqueue i k = ground arith

  -- The queue after a thread becomes ready.
  pub waiting-enqueue :
      (i : ℕ) (t : Thread) (k : Kernel M)
      → i < max_threads
      → is_ready (k.threads i).state ≡ false
      → IsFair k
      → waiting (enqueue i (set_thread i t k)) ≡ waiting k ++ (i ∷ [])
  unfolding waiting
  waiting-enqueue i t k h e f =
      let q1 : IsQueue (set_thread i t k) = record {
        head_in = f.queue.head_in;
        count_in = f.queue.count_in;
        tail_at = f.queue.tail_at;
      } in
      (enqueue_refines i (set_thread i t k) q1).0
      ∙ rw (==_of_ne (length (waiting k)) max_threads (λ same. omega (arith, room k i f h e)))

  -- A thread that becomes ready is queued: there is always room for it.
  pub enqueue-IsFair :
      (i : ℕ) (t : Thread) (k : Kernel M)
      → i < max_threads
      → is_ready (k.threads i).state ≡ false
      → is_ready t.state ≡ true
      → IsFair k
      → IsFair (enqueue i (set_thread i t k))
  unfolding waiting
  enqueue-IsFair i t k h e r f =
      let k1 = set_thread i t k in
      let q1 : IsQueue k1 = record {
        head_in = f.queue.head_in;
        count_in = f.queue.count_in;
        tail_at = f.queue.tail_at;
      } in
      let out = enqueue_refines i k1 q1 in
      let w : waiting (enqueue i k1) ≡ waiting k ++ (i ∷ []) =
        out.0
        ∙ rw (==_of_ne (length (waiting k)) max_threads (λ same. omega (arith, room k i f h e))) in
      record {
        queue = out.1;
        entries = rw w (AllBelow-snoc max_threads i (waiting k) f.entries h);
        counted = λ u hu.
            rw (w, occurs-snoc u i (waiting k), threads-enqueue i k1)
              (elim (ℕ_discrete u i) [
                | yes same ↦
                    rw (same, update_self k.threads i t, not_waiting k i f h e, r, ==_refl i) refl
                | no ne ↦
                    rw
                      (
                        update_other k.threads i t u ne,
                        f.counted u hu,
                        ==_of_ne i u (λ q. ne (sym q)),
                      )
                      (omega arith)
              ]);
      }
