-- ===== src/Threads/Safety/Starts.antt =====
-- Starting threads (kernel-core/src/threads.rs) keeps the scheduler's invariant.
use open_kernel.Prelude.{
  ℕ, ◌+◌, ◌-◌, ◌<◌, ◌≡◌, inl, inr, refl, ap, ◌∙◌, if◌then◌else◌, ◌==◌, ◌||◌, ◌&&◌, Option, none,
  some, update_self, update_other, Bool, true, false, not, Bool-cases, Option-cases, ℕ_discrete,
  arith, first_from-IsFirst, has_value,
}
use open_kernel.Threads.State.{
  Kernel, Thread, Paging, ready, max_threads, is_exited, set_thread, Trampoline, thread_trampoline,
  user_thread_trampoline, process_address_space, Context,
}
use open_kernel.Threads.Spawn.{
  is_reusable, free_slot, release_resources, allocate_stacks, install, UserStart, spawn,
  user_stack_for, spawn_user_for_process, spawn_user, start,
}
use open_kernel.Threads.Safety.Keeps.{
  Keeps, Keeps-refl, Keeps-trans, set_thread-Keeps, enqueue-Keeps, memory-Keeps, stack_words-Keeps,
  same-Keeps,
}
use open_kernel.Threads.Queue.Fifo.{waiting}

pub if-keeps :
    {A : Type 0} → (P : A → Type 0) (b : Bool) (x y : A) → P x → P y → P (if b then x else y)
if-keeps P true x y px py = px
if-keeps P false x y px py = py

-- The state of every thread is as it was.
record Stays {M : Type 0} (k k' : Kernel M) : Type 0 where
  keeps : Keeps k k'
  states : (t : ℕ) → (k'.threads t).state ≡ (k.threads t).state

-- The state after a start, which halts where it gives none.
abbrev pub or_halted : {M : Type 0} → Kernel M → Option (Kernel M) → Kernel M
or_halted k none = k
or_halted k (some k') = k'

module _ {M : Type 0} where
  pub registers-Keeps :
      (k : Kernel M) (s c : Context) → Keeps k (record k { scheduler_context = s; cpu = c })
  unfolding waiting
  registers-Keeps k s c =
      same-Keeps k (record k { scheduler_context = s; cpu = c }) refl
        (λ q. record { head_in = q.head_in; count_in = q.count_in; tail_at = q.tail_at }) refl refl

  Stays-refl : (k : Kernel M) → Stays k k
  Stays-refl k = record { keeps = Keeps-refl k; states = λ t. refl }

  Stays-trans : {j k l : Kernel M} → Stays j k → Stays k l → Stays j l
  Stays-trans a b = record {
    keeps = Keeps-trans a.keeps b.keeps;
    states = λ t. b.states t ∙ a.states t;
  }

  memory-Stays : (k : Kernel M) (m : M) → Stays k (record k { memory = m })
  memory-Stays k m = record { keeps = memory-Keeps k m; states = λ t. refl }

  thread-Stays :
      (i : ℕ) (t : Thread) (k : Kernel M)
      → i < max_threads
      → t.state ≡ (k.threads i).state
      → t.join_waiters ≡ (k.threads i).join_waiters
      → t.join_waiter_count ≡ (k.threads i).join_waiter_count
      → Stays k (set_thread i t k)
  thread-Stays i t k h e w n = record {
    keeps = set_thread-Keeps i t k e (λ all. rw (w, n) (all i h));
    states = λ u. elim (ℕ_discrete u i) [
      | yes at ↦ rw (at, update_self k.threads i t) e
      | no ne ↦ ap (λ (q : Thread). q.state) (update_other k.threads i t u ne)
    ];
  }

  free_slot-exited :
      (k : Kernel M) (slot : ℕ)
      → free_slot k ≡ some slot
      → (slot < max_threads) × (is_exited (k.threads slot).state ≡ true)
  unfolding free_slot
  free_slot-exited k slot e =
      let f = first_from-IsFirst (λ i. is_reusable (k.threads i)) 1 (max_threads - 1) slot e in
      (omega (arith, f.upper), ground (arith, f.passes))

module _ {M : Type 0} (paging : Paging M) where
  release_resources-Stays :
      (slot : ℕ) (k : Kernel M) → slot < max_threads → Stays k (release_resources paging slot k)
  unfolding release_resources
  release_resources-Stays slot k h = elim (Bool-cases (k.threads slot).stack_allocated) [
    | inr e ↦ rw e (Stays-refl k)
    | inl e ↦ rw e (Stays-trans (thread-Stays slot _ k h refl refl refl) (memory-Stays _ _))
  ]

  allocate_stacks-Stays :
      (slot : ℕ) (k : Kernel M) → slot < max_threads → Stays k (allocate_stacks paging slot k).1
  unfolding allocate_stacks
  allocate_stacks-Stays slot k h =
      let first = paging.allocate_kernel_stack slot k.memory in
      let second = paging.allocate_kernel_stack (slot + max_threads) first.1 in
      elim (Bool-cases (k.threads slot).stack_allocated) [
        | inl e ↦ rw e (Stays-refl k)
        | inr e ↦ rw e (elim (Option-cases first.0) [
          | inl f ↦ rw f (memory-Stays k _)
          | inr (top, f) ↦ rw f (elim (Option-cases second.0) [
            | inl s ↦ rw s (Stays-trans (thread-Stays slot _ k h refl refl refl) (memory-Stays _ _))
            | inr (syscall_top, s) ↦
                rw s (Stays-trans (thread-Stays slot _ k h refl refl refl) (memory-Stays _ _))
          ])
        ])
      ]

  user_stack_for-Stays :
      (slot : ℕ) (initial_stack : Option ℕ) (k : Kernel M)
      → Stays k (user_stack_for paging slot initial_stack k).1
  unfolding user_stack_for
  user_stack_for-Stays slot (some stack) k = Stays-refl k
  user_stack_for-Stays slot none k =
      elim (Option-cases (paging.allocate_user_stack slot k.memory).0) [
        | inl e ↦ rw (e, user_stack_for) (memory-Stays k _)
        | inr (top, e) ↦ rw (e, user_stack_for) (memory-Stays k _)
      ]

  install-Keeps :
      (slot : ℕ) (code : Trampoline) (t : Thread) (k : Kernel M)
      → slot < max_threads
      → is_exited (k.threads slot).state ≡ true
      → t.state ≡ ready
      → t.join_waiter_count ≡ 0
      → Keeps k (install paging slot code t k)
  unfolding install
  install-Keeps slot code t k h x r n = Keeps-trans (stack_words-Keeps k _) (
      enqueue-Keeps slot t _ h (ground arith) (ground arith) r
        (λ all j hj. absurd (omega (arith, n, hj))))

  pub spawn-Keeps : (entry : ℕ) (k : Kernel M) → Keeps k (spawn paging entry k).1
  unfolding spawn
  spawn-Keeps entry k = elim (Option-cases (free_slot k)) [
    | inl e ↦ rw (e, spawn) (Keeps-refl k)
    | inr (slot, e) ↦
        let (h, x) = free_slot-exited k slot e in
        let both =
          Stays-trans (release_resources-Stays slot k h)
            (allocate_stacks-Stays slot (release_resources paging slot k) h) in
        rw (e, spawn)
          (elim (Bool-cases (allocate_stacks paging slot (release_resources paging slot k)).0) [
            | inr a ↦ rw a both.keeps
            | inl a ↦ rw a (
                Keeps-trans both.keeps
                  (install-Keeps slot thread_trampoline _ _ h (rw (both.states slot) x) refl refl))
          ])
  ]

  pub spawn_user_for_process-Keeps :
      (process : ℕ) (start : UserStart) (initial_stack : Option ℕ) (k : Kernel M)
      → Keeps k (spawn_user_for_process paging process start initial_stack k).1
  unfolding spawn_user_for_process
  spawn_user_for_process-Keeps process start initial_stack k =
      elim (Bool-cases (not (has_value (process_address_space process k)))) [
        | inl g ↦ rw g (Keeps-refl k)
        | inr g ↦ rw g (elim (Option-cases (free_slot k)) [
          | inl e ↦ rw e (Keeps-refl k)
          | inr (slot, e) ↦
              let (h, x) = free_slot-exited k slot e in
              let both =
                Stays-trans (release_resources-Stays slot k h)
                  (allocate_stacks-Stays slot (release_resources paging slot k) h) in
              let out = allocate_stacks paging slot (release_resources paging slot k) in
              let three = Stays-trans both (user_stack_for-Stays slot initial_stack out.1) in
              rw e (elim (Bool-cases out.0) [
                | inr a ↦ rw a both.keeps
                | inl a ↦
                    rw a (elim (Option-cases (user_stack_for paging slot initial_stack out.1).0) [
                      | inl s ↦ rw s three.keeps
                      | inr (stack, s) ↦ rw s (
                          Keeps-trans three.keeps (
                            install-Keeps slot user_thread_trampoline _ _ h
                              (rw (three.states slot) x) refl refl))
                    ])
              ])
        ])
      ]

  pub spawn_user-Keeps :
      (start : UserStart) (initial_stack : Option ℕ) (k : Kernel M)
      → Keeps k (spawn_user paging start initial_stack k).1
  unfolding spawn_user
  spawn_user-Keeps start initial_stack k =
      elim (Bool-cases (
        not (paging.is_user_executable start.entry k.memory)
        || (not (start.tls_base == 0) && not (paging.is_user_mapped start.tls_base k.memory)))) [
          | inl g ↦ rw g (Keeps-refl k)
          | inr g ↦ rw g (spawn_user_for_process-Keeps 1 start initial_stack k)
        ]
