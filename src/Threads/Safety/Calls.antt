-- ===== src/Threads/Safety/Calls.antt =====
-- Runs of the calls of kernel-core/src/threads.rs.
use open_kernel.Prelude.{
  ℕ, ◌-◌, ◌<◌, ◌≡◌, ◌⊎◌, inl, inr, refl, ◌==◌, Option, none, some, update, update_self,
  update_other, true, false, Bool-cases, Option-cases, ℕ_discrete, arith, first_from,
}
use open_kernel.Threads.State.{
  Kernel, Thread, Paging, max_threads, no_thread, is_exited, set_thread, Process, owner_process,
  find_process, set_process,
}
use open_kernel.Threads.Switch.{block_current}
use open_kernel.Threads.Join.{
  Progress, returned, suspended, reapable_if_unwaited, with_waiter, may_not_join, join_resume,
  try_join, join,
}
use open_kernel.Threads.Process.{
  create_process, set_process_main_thread, child_main_thread, forget_process, after_join,
  try_wait_process, wait_process, reap_any_child, is_dead_child,
}
use open_kernel.Threads.Safety.Invariant.{WaitersIn, AllWaitersIn, IsConsistent}
use open_kernel.Threads.Safety.Keeps.{
  Keeps, Keeps-refl, Keeps-trans, Keeps-IsConsistent, set_thread-Keeps, processes-Keeps,
  memory-Keeps,
}
use open_kernel.Threads.Safety.Suspends.{current_in_table, block_current-IsConsistent}

Progress-cases : {A : Type 0} → (p : Progress A) → (p ≡ suspended) ⊎ ((a : A) × (p ≡ returned a))
Progress-cases suspended = inl refl
Progress-cases (returned a) = inr (a, refl)

with_waiter-WaitersIn :
    (waiter : ℕ) (t : Thread)
    → waiter < max_threads
    → WaitersIn t
    → WaitersIn (with_waiter waiter t)
with_waiter-WaitersIn waiter t h w j hj = elim (ℕ_discrete j t.join_waiter_count) [
  | yes at ↦ rw (at, update_self t.join_waiters t.join_waiter_count waiter) h
  | no ne ↦ rw (update_other t.join_waiters t.join_waiter_count waiter j ne) (w j (omega arith))
]

module _ {M : Type 0} where
  reapable-Keeps :
      (i : ℕ) (t : Thread) (k : Kernel M)
      → t.state ≡ (k.threads i).state
      → (AllWaitersIn k → WaitersIn t)
      → Keeps k (set_thread i (reapable_if_unwaited t) k)
  reapable-Keeps i t k e w = elim (Bool-cases (t.join_waiter_count == 0)) [
    | inl z ↦ rw z (set_thread-Keeps i (record t { reapable = true }) k e w)
    | inr z ↦ rw z (set_thread-Keeps i t k e w)
  ]

  pub try_join-Keeps : (thread : ℕ) (k : Kernel M) → Keeps k (try_join thread k).1
  unfolding try_join
  try_join-Keeps thread k = elim (Bool-cases (may_not_join thread k)) [
    | inl g ↦ rw g (Keeps-refl k)
    | inr g ↦ elim (Bool-cases (is_exited (k.threads thread).state)) [
      | inr x ↦ rw (g, x) (Keeps-refl k)
      | inl x ↦
          rw (g, x)
            (reapable-Keeps thread (k.threads thread) k refl (λ all. all thread (ground arith)))
    ]
  ]

  pub join_resume-Keeps :
      (thread : ℕ) (k : Kernel M) → thread < max_threads → Keeps k (join_resume thread k).1
  unfolding join_resume
  join_resume-Keeps thread k h = elim (Bool-cases (is_exited (k.threads thread).state)) [
    | inr x ↦ rw x (Keeps-refl k)
    | inl x ↦ rw x (
        reapable-Keeps thread _ k refl (λ all j (hj : j < (k.threads thread).join_waiter_count - 1).
          all thread h j (omega arith)))
  ]

  pub set_process-Keeps : (i : ℕ) (p : Process) (k : Kernel M) → Keeps k (set_process i p k)
  set_process-Keeps i p k = processes-Keeps k (update k.processes i p)

  pub create_process-Keeps :
      (address_space : ℕ) (k : Kernel M) → Keeps k (create_process address_space k).1
  unfolding create_process
  create_process-Keeps address_space k =
      elim (Option-cases (first_from (λ i. (k.processes i).id == no_thread) 1 (max_threads - 1))) [
        | inl e ↦ rw (e, create_process) (Keeps-refl k)
        | inr (slot, e) ↦ rw (e, create_process) (set_process-Keeps slot _ k)
      ]

  pub set_process_main_thread-Keeps :
      (process thread : ℕ) (k : Kernel M) → Keeps k (set_process_main_thread process thread k)
  unfolding set_process_main_thread
  set_process_main_thread-Keeps process thread k = elim (Option-cases (find_process process k)) [
    | inl e ↦ rw (e, set_process_main_thread) (Keeps-refl k)
    | inr (i, e) ↦ rw (e, set_process_main_thread) (set_process-Keeps i _ k)
  ]

module _ {M : Type 0} (paging : Paging M) where
  forget_process-Keeps : (process : ℕ) (k : Kernel M) → Keeps k (forget_process paging process k)
  unfolding forget_process
  forget_process-Keeps process k = elim (Option-cases (find_process process k)) [
    | inl e ↦ rw (e, forget_process) (Keeps-refl k)
    | inr (i, e) ↦ rw (e, forget_process) (Keeps-trans (set_process-Keeps i _ k) (memory-Keeps _ _))
  ]

  pub after_join-Keeps :
      (process : ℕ) (r : Option ℕ) (k : Kernel M) → Keeps k (after_join paging process (r, k)).1
  after_join-Keeps process none k = Keeps-refl k
  after_join-Keeps process (some status) k = forget_process-Keeps process k

  pub try_wait_process-Keeps :
      (process : ℕ) (k : Kernel M) → Keeps k (try_wait_process paging process k).1
  unfolding try_wait_process
  try_wait_process-Keeps process k = elim (Option-cases (owner_process k)) [
    | inl e ↦ rw (e, try_wait_process) (Keeps-refl k)
    | inr (parent, e) ↦ elim (Option-cases (child_main_thread process parent k)) [
      | inl c ↦ rw (e, c, try_wait_process) (Keeps-refl k)
      | inr (thread, c) ↦
          rw (e, c, try_wait_process)
            (Keeps-trans (try_join-Keeps thread k) (after_join-Keeps process _ _))
    ]
  ]

  pub reap_any_child-Keeps : (k : Kernel M) → Keeps k (reap_any_child paging k).1
  unfolding reap_any_child
  reap_any_child-Keeps k = elim (Option-cases (owner_process k)) [
    | inl e ↦ rw (e, reap_any_child) (Keeps-refl k)
    | inr (parent, e) ↦ elim (Option-cases (first_from (is_dead_child parent k) 0 max_threads)) [
      | inl c ↦ rw (e, c, reap_any_child) (Keeps-refl k)
      | inr (i, c) ↦ elim (Option-cases (k.processes i).main_thread) [
        | inl m ↦ rw (e, c, m, reap_any_child) (Keeps-refl k)
        | inr (thread, m) ↦
            let process = (k.processes i).id in
            let out = try_join thread k in
            let keeps =
              Keeps-trans (try_join-Keeps thread k) (after_join-Keeps process out.0 out.1) in
            elim (Option-cases (after_join paging process out).0) [
              | inl r ↦ rw (e, c, m, r, reap_any_child) keeps
              | inr (value, r) ↦ rw (e, c, m, r, reap_any_child) keeps
            ]
      ]
    ]
  ]

  with_waiter-Keeps :
      (thread : ℕ) (k : Kernel M)
      → IsConsistent k
      → may_not_join thread k ≡ false
      → Keeps k (set_thread thread (with_waiter k.current_thread (k.threads thread)) k)
  with_waiter-Keeps thread k c g =
      set_thread-Keeps thread (with_waiter k.current_thread (k.threads thread)) k refl (λ all.
        with_waiter-WaitersIn k.current_thread (k.threads thread)
          (current_in_table paging k c (ground arith)) (all thread (ground arith)))

  pub join-IsConsistent :
      (thread : ℕ) (k : Kernel M) → IsConsistent k → IsConsistent (join paging thread k).1
  unfolding join
  join-IsConsistent thread k c = elim (Bool-cases (may_not_join thread k)) [
    | inl g ↦ rw g c
    | inr g ↦ elim (Bool-cases (is_exited (k.threads thread).state)) [
      | inl x ↦
          rw (g, x)
            (Keeps-IsConsistent
              (reapable-Keeps thread (k.threads thread) k refl (λ all. all thread (ground arith)))
              c)
      | inr x ↦ elim (Bool-cases ((k.threads thread).join_waiter_count == max_threads)) [
        | inl full ↦ rw (g, x, full) c
        | inr room ↦
            let asked = set_thread thread (with_waiter k.current_thread (k.threads thread)) k in
            let asks = Keeps-IsConsistent (with_waiter-Keeps thread k c g) c in
            let blocks = block_current-IsConsistent paging asked asks in
            let out = block_current paging asked in
            elim (Bool-cases out.0) [
              | inl s ↦ rw (g, x, room, s, join) blocks
              | inr s ↦
                  rw (g, x, room, s, join)
                    (Keeps-IsConsistent (join_resume-Keeps thread out.1 (ground arith)) blocks)
            ]
      ]
    ]
  ]

  pub wait_process-IsConsistent :
      (process : ℕ) (k : Kernel M) → IsConsistent k → IsConsistent (wait_process paging process k).1
  unfolding wait_process
  wait_process-IsConsistent process k c = elim (Option-cases (owner_process k)) [
    | inl e ↦ rw (e, wait_process) c
    | inr (parent, e) ↦ elim (Option-cases (child_main_thread process parent k)) [
      | inl m ↦ rw (e, m, wait_process) c
      | inr (thread, m) ↦
          let out = join paging thread k in
          let joined = join-IsConsistent thread k c in
          elim (Progress-cases out.0) [
            | inl s ↦ rw (e, m, s, wait_process) joined
            | inr (status, s) ↦
                rw (e, m, s, wait_process)
                  (Keeps-IsConsistent (after_join-Keeps process status out.1) joined)
          ]
    ]
  ]
