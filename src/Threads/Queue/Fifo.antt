-- ===== src/Threads/Queue/Fifo.antt =====
-- The run queue of kernel-core/src/threads.rs is a first-in first-out queue of at most eight threads.
use open_kernel.Prelude.{
  ℕ, zero, suc, ◌+◌, ◌-◌, ◌%◌, ◌≤◌, ◌<◌, ◌≡◌, inl, inr, refl, ap, ◌∙◌, if◌then◌else◌, ◌==◌, Option,
  none, some, Bool, List, [], ◌∷◌, ◌++◌, length, List-cases, Bool-cases, Option-cases, arith,
}
use open_kernel.Prelude.Windows.{
  window, length-window, window_of_zero, window_of_pos, window-update,
}
use open_kernel.Threads.State.{Kernel, Thread, max_threads, is_exited}
use open_kernel.Threads.Queue.{enqueue, dequeue, next_ready_loop, next_ready}

-- The three counters agree, and lie inside the array.
pub record IsQueue {M : Type 0} (k : Kernel M) : Type 0 where
  pub head_in : k.run_head < max_threads
  pub count_in : k.run_count ≤ max_threads
  pub tail_at : k.run_tail ≡ (k.run_head + k.run_count) % max_threads

-- The queue of the live threads: the dead ones at its front are skipped.
unfoldable pub skip_exited {ℓ} : {A : Type ℓ} → (A → Bool) → List A → Option A × List A
skip_exited dead [] = (none, [])
skip_exited dead (x ∷ xs) = let rest = skip_exited dead xs in if dead x then rest else (some x, xs)

module _ {M : Type 0} where
  -- The threads that wait, the next one first.
  unfoldable pub waiting : Kernel M → List ℕ
  waiting k = window max_threads k.run_queue k.run_head k.run_count

  pub length-waiting : (k : Kernel M) → length (waiting k) ≡ k.run_count
  unfolding waiting
  length-waiting k = length-window max_threads k.run_queue k.run_head k.run_count

  -- `enqueue` puts the thread last, and drops it exactly if eight wait already.
  pub enqueue_refines :
      (thread : ℕ) (k : Kernel M)
      → IsQueue k
      → (waiting (enqueue thread k)
          ≡ (if length (waiting k) == max_threads then waiting k else waiting k ++ (thread ∷ [])))
        × IsQueue (enqueue thread k)
  unfolding waiting enqueue
  enqueue_refines thread k q = ground (
    arith,
    length-window max_threads k.run_queue k.run_head k.run_count,
    window-update max_threads k.run_queue thread k.run_head k.run_count k.run_tail,
  )

  dequeue-empty : (k : Kernel M) → waiting k ≡ [] → dequeue k ≡ (none, k)
  unfolding dequeue
  dequeue-empty k e = ground (arith, length-waiting k, ap {B = ℕ} length e)

  dequeue-next :
      (k : Kernel M) (x : ℕ) (xs : List ℕ)
      → IsQueue k
      → waiting k ≡ x ∷ xs
      → ((dequeue k).0 ≡ some x) × (waiting (dequeue k).1 ≡ xs) × IsQueue (dequeue k).1
  unfolding dequeue waiting
  dequeue-next k x xs q e = ground (
    arith,
    window_of_zero max_threads k.run_queue k.run_head k.run_count,
    window_of_pos max_threads k.run_queue k.run_head k.run_count,
  )

  -- Only the head and the count of the queue change.
  pub record OnlyDequeued (k k' : Kernel M) : Type 0 where
    pub head : ℕ
    pub count : ℕ
    pub same : k' ≡ record k { run_head = head; run_count = count }

  dequeue-OnlyDequeued : (k : Kernel M) → OnlyDequeued k (dequeue k).1
  unfolding dequeue
  dequeue-OnlyDequeued k = elim (Bool-cases (k.run_count == 0)) [
    | inl e ↦ record { head = k.run_head; count = k.run_count; same = rw e }
    | inr e ↦ record { head = (k.run_head + 1) % max_threads; count = k.run_count - 1; same = rw e }
  ]

  OnlyDequeued-trans : {j k l : Kernel M} → OnlyDequeued j k → OnlyDequeued k l → OnlyDequeued j l
  OnlyDequeued-trans a b = record {
    head = b.head;
    count = b.count;
    same =
        b.same ∙ ap (λ (q : Kernel M). record q { run_head = b.head; run_count = b.count }) a.same;
  }

  loop-empty :
      (fuel : ℕ) (k : Kernel M)
      → (dequeue k).0 ≡ none
      → next_ready_loop (suc fuel) k ≡ (none, (dequeue k).1)
  unfolding next_ready_loop
  loop-empty fuel k e = rw (e, next_ready_loop)

  loop-next :
      (fuel : ℕ) (k : Kernel M) (c : ℕ)
      → (dequeue k).0 ≡ some c
      → next_ready_loop (suc fuel) k ≡ (
          if is_exited ((dequeue k).1.threads c).state
          then next_ready_loop fuel (dequeue k).1
          else (some c, (dequeue k).1))
  unfolding next_ready_loop
  loop-next fuel k c e = rw (e, next_ready_loop)

  loop-OnlyDequeued : (fuel : ℕ) (k : Kernel M) → OnlyDequeued k (next_ready_loop fuel k).1
  unfolding next_ready_loop
  loop-OnlyDequeued zero k = record { head = k.run_head; count = k.run_count; same = refl }
  loop-OnlyDequeued (suc fuel) k = elim (Option-cases (dequeue k).0) [
    | inl e ↦ rw (loop-empty fuel k e) (dequeue-OnlyDequeued k)
    | inr (c, e) ↦ elim (Bool-cases (is_exited ((dequeue k).1.threads c).state)) [
      | inl dead ↦
          rw (loop-next fuel k c e, dead)
            (OnlyDequeued-trans (dequeue-OnlyDequeued k) (loop-OnlyDequeued fuel (dequeue k).1))
      | inr live ↦ rw (loop-next fuel k c e, live) (dequeue-OnlyDequeued k)
    ]
  ]

  -- Choosing the next thread changes nothing but the queue.
  pub next_ready-OnlyDequeued : (k : Kernel M) → OnlyDequeued k (next_ready k).1
  unfolding next_ready
  next_ready-OnlyDequeued k = loop-OnlyDequeued (k.run_count + 1) k

  threads-dequeue : (k : Kernel M) → (dequeue k).1.threads ≡ k.threads
  threads-dequeue k = ap (λ (q : Kernel M). q.threads) (dequeue-OnlyDequeued k).same

  next_ready_loop_refines :
      (threads : ℕ → Thread) (fuel : ℕ) (k : Kernel M)
      → k.threads ≡ threads
      → IsQueue k
      → length (waiting k) < fuel
      → let (taken, k') = next_ready_loop fuel k in
        ((taken, waiting k') ≡ skip_exited (λ t. is_exited (threads t).state) (waiting k))
        × IsQueue k'
  unfolding skip_exited
  next_ready_loop_refines threads zero k same q h = absurd (omega arith)
  next_ready_loop_refines threads (suc fuel) k same q h = elim (List-cases (waiting k)) [
    | inl e ↦
        let none_left = dequeue-empty k e in
        rw (loop-empty fuel k (ap (λ (o : Option ℕ × Kernel M). o.0) none_left), none_left, e)
          (refl, q)
    | inr (c, cs, e) ↦
        let d = dequeue-next k c cs q e in
        let kept = threads-dequeue k ∙ same in
        let ih =
          next_ready_loop_refines threads fuel (dequeue k).1 kept d.2
            (omega (arith, ap {B = ℕ} length d.1, ap {B = ℕ} length e)) in
        rw (loop-next fuel k c d.0, kept, e)
          (elim (Bool-cases (is_exited (threads c).state)) [
            | inl dead ↦ rw dead (rw d.1 at ih)
            | inr live ↦ rw (live, d.1) (refl, d.2)
          ])
  ]

  -- The next thread is the first in the queue that has not exited; the dead ones before it are
  -- dropped, the loop ends within its rounds, and the counters stay valid.
  pub next_ready_refines :
      (k : Kernel M)
      → IsQueue k
      → let (taken, k') = next_ready k in
        ((taken, waiting k') ≡ skip_exited (λ t. is_exited (k.threads t).state) (waiting k))
        × IsQueue k'
  unfolding next_ready
  next_ready_refines k q =
      next_ready_loop_refines k.threads (k.run_count + 1) k refl q (omega (arith, length-waiting k))
