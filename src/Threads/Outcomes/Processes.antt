-- ===== src/Threads/Outcomes/Processes.antt =====
-- Waiting for processes in kernel-core/src/threads.rs.
use open_kernel.Prelude.{
  ℕ, ◌+◌, ◌<◌, ◌≡◌, ◌≢◌, ◌⊎◌, inl, inr, refl, sym, ap, subst, ◌∙◌, Bool, true, false, true≢false,
  ◌==◌, none, some, Option, update, Bool-cases, Option-cases, is_some_of, first_from,
  first_from-IsFirst, first_from-none, arith,
}
use open_kernel.Threads.State.{
  Kernel, Thread, is_exited, Process, empty_process, Paging, max_threads, no_thread, owner_process,
  current_id, find_process,
}
use open_kernel.Threads.Join.{try_join, may_not_join}
use open_kernel.Threads.Process.{
  is_child, child_main_thread, forget_process, after_join, try_wait_process,
}
use open_kernel.Threads.Outcomes.Created.{IsNumbered, find_process-at}

-- The table without the entry of the process.
unfoldable pub without : {M : Type 0} → ℕ → Kernel M → ℕ → Process
without process k = elim (find_process process k) [
  | none ↦ k.processes
  | some i ↦ update k.processes i empty_process
]

-- The process is in the table, as a child of the parent, with a main thread.
pub record IsChild {M : Type 0} (process parent thread : ℕ) (k : Kernel M) : Type 0 where
  pub entry : ℕ
  pub inside : entry < max_threads
  pub id : (k.processes entry).id ≡ process
  pub of_parent : (k.processes entry).parent ≡ some parent
  pub main : (k.processes entry).main_thread ≡ some thread

some_of : (o : Option ℕ) (n : ℕ) → is_some_of o n ≡ true → o ≡ some n
some_of none n h = absurd cc
some_of (some m) n h = let same : m ≡ n = ground (arith, h) in ap some same

-- A number stands in one entry.
one_entry :
    {process : ℕ} {a b : ℕ} (i j : ℕ)
    → (a ≡ i + 1) ⊎ (a ≡ no_thread)
    → (b ≡ j + 1) ⊎ (b ≡ no_thread)
    → a ≡ process
    → b ≡ process
    → process ≢ no_thread
    → i ≡ j
one_entry i j (inl x) (inl y) p q live = omega (arith, x, y, p, q)
one_entry i j (inr x) y p q live = absurd (live (sym p ∙ x))
one_entry i j (inl x) (inr y) p q live = absurd (live (sym q ∙ y))

module _ {M : Type 0} where
  no_caller :
      (parent thread : ℕ) (k : Kernel M)
      → owner_process k ≡ some parent
      → thread ≢ k.current_thread
      → thread < max_threads
      → may_not_join thread k ≢ true
  unfolding owner_process current_id
  no_caller parent thread k o ne lt g = elim (Bool-cases (k.current_thread == no_thread)) [
    | inl nobody ↦
        let wrong : none ≡ some parent = sym (rw (nobody, owner_process, current_id) refl) ∙ o in
        absurd cc
    | inr somebody ↦ ground (arith, g, somebody, ne, lt)
  ]

  child_main_thread-IsChild :
      (process parent thread : ℕ) (k : Kernel M)
      → child_main_thread process parent k ≡ some thread
      → IsChild process parent thread k
  unfolding child_main_thread
  child_main_thread-IsChild process parent thread k e =
      elim (Option-cases
        (first_from (λ i. is_child process parent (k.processes i)) 0 max_threads)) [
          | inl absent ↦
              absurd (let h : none ≡ some thread = rw (absent, child_main_thread) at e in cc)
          | inr (i, found) ↦
              let f =
                first_from-IsFirst (λ i. is_child process parent (k.processes i)) 0 max_threads i
                  found in
              record {
                entry = i;
                inside = omega (arith, f.upper);
                id = ground (arith, f.passes);
                of_parent = some_of (k.processes i).parent parent (ground (arith, f.passes));
                main = rw (found, child_main_thread) at e;
              }
        ]

  -- In a numbered table a child is found.
  IsChild-child_main_thread :
      (process parent thread : ℕ) (k : Kernel M)
      → IsNumbered k
      → process ≢ no_thread
      → IsChild process parent thread k
      → child_main_thread process parent k ≡ some thread
  unfolding child_main_thread
  IsChild-child_main_thread process parent thread k num live c =
      let p : ℕ → Bool = λ i. is_child process parent (k.processes i) in
      let here : p c.entry ≡ true = rw (c.id, c.of_parent) (ground arith) in
      elim (Option-cases (first_from p 0 max_threads)) [
        | inl absent ↦ absurd (
            true≢false (
              sym here
              ∙ first_from-none p 0 max_threads absent c.entry (omega arith)
                  (omega (arith, c.inside))))
        | inr (i, found) ↦
            let f = first_from-IsFirst p 0 max_threads i found in
            let id : (k.processes i).id ≡ process = ground (arith, f.passes) in
            let same : i ≡ c.entry =
              one_entry i c.entry (num i (omega (arith, f.upper))) (num c.entry c.inside) id c.id
                live in
            rw (found, child_main_thread) (rw same c.main)
      ]

  -- A child of the caller's process is the one that the search finds.
  found_child :
      (process parent parent' thread : ℕ) (k : Kernel M)
      → IsNumbered k
      → process ≢ no_thread
      → owner_process k ≡ some parent
      → owner_process k ≡ some parent'
      → IsChild process parent' thread k
      → child_main_thread process parent k ≡ some thread
  found_child process parent parent' thread k num live o o' child =
      let same : parent' ≡ parent = (let s : some parent' ≡ some parent = sym o' ∙ o in cc) in
      subst (λ p. child_main_thread process p k ≡ some thread) same
        (IsChild-child_main_thread process parent' thread k num live child)

  same_child :
      (process parent parent' thread thread' : ℕ) (k : Kernel M)
      → IsNumbered k
      → process ≢ no_thread
      → owner_process k ≡ some parent
      → child_main_thread process parent k ≡ some thread
      → owner_process k ≡ some parent'
      → IsChild process parent' thread' k
      → thread' ≡ thread
  same_child process parent parent' thread thread' k num live o c o' child =
      let s : some thread' ≡ some thread =
        sym (found_child process parent parent' thread' k num live o o' child) ∙ c in
      cc

  without-entry :
      (process parent thread : ℕ) (k : Kernel M)
      → IsNumbered k
      → process ≢ no_thread
      → (c : IsChild process parent thread k)
      → without process k ≡ update k.processes c.entry empty_process
  unfolding without
  without-entry process parent thread k num live c = elim (num c.entry c.inside) [
    | inr free ↦ absurd (live (sym c.id ∙ free))
    | inl own ↦
        let number : c.entry + 1 ≡ process = sym own ∙ c.id in
        let found : find_process process k ≡ some c.entry =
          subst (λ n. find_process n k ≡ some c.entry) number
            (find_process-at k c.entry num c.inside own) in
        rw (found, without) refl
  ]

module _ {M : Type 0} (paging : Paging M) where
  processes-forget :
      (process : ℕ) (k : Kernel M) → (forget_process paging process k).processes ≡ without process k
  unfolding forget_process without
  processes-forget process k = elim (Option-cases (find_process process k)) [
    | inl e ↦ rw (e, forget_process, without) refl
    | inr (i, e) ↦ rw (e, forget_process, without) refl
  ]

  same_without :
      (process : ℕ) (threads : ℕ → Thread) (k : Kernel M)
      → without process (record k { threads = threads }) ≡ without process k
  unfolding without find_process
  same_without process threads k = refl

  -- What a call that returns a status says and does.
  pub record Waited (k k' : Kernel M) (process status : ℕ) : Type 0 where
    pub parent : ℕ
    pub thread : ℕ
    pub caller : owner_process k ≡ some parent
    pub child : IsChild process parent thread k
    pub other : thread ≢ k.current_thread
    pub in_table : thread < max_threads
    pub dead : is_exited (k.threads thread).state ≡ true
    pub reported : status ≡ (k.threads thread).exit_status
    pub forgotten : k'.processes ≡ update k.processes child.entry empty_process

  -- What a call says that returns nothing.
  pub record NotWaited (k k' : Kernel M) (process : ℕ) : Type 0 where
    pub unchanged : k' ≡ k
    pub alive :
        (parent thread : ℕ)
        → owner_process k ≡ some parent
        → IsChild process parent thread k
        → thread ≢ k.current_thread
        → thread < max_threads
        → is_exited (k.threads thread).state ≡ false

  abbrev pub WaitOutcome : ℕ → Kernel M → Option ℕ × Kernel M → Type 0
  WaitOutcome process k (none, k') = NotWaited k k' process
  WaitOutcome process k (some status, k') = Waited k k' process status

  joined :
      (process parent thread : ℕ) (k : Kernel M)
      → IsNumbered k
      → process ≢ no_thread
      → owner_process k ≡ some parent
      → child_main_thread process parent k ≡ some thread
      → WaitOutcome process k (after_join paging process (try_join thread k))
  unfolding try_join forget_process
  joined process parent thread k num live o c = elim (Bool-cases (may_not_join thread k)) [
    | inl g ↦
        rw (g, try_join)
          (record {
            unchanged = refl;
            alive = λ parent' thread' o' child ne lt.
                let same =
                  same_child process parent parent' thread thread' k num live o c o' child in
                absurd (no_caller parent' thread' k o' ne lt (rw same g));
          })
    | inr g ↦ elim (Bool-cases (is_exited (k.threads thread).state)) [
      | inr x ↦
          rw (g, x, try_join)
            (record {
              unchanged = refl;
              alive = λ parent' thread' o' child ne lt.
                  let same =
                    same_child process parent parent' thread thread' k num live o c o' child in
                  rw same x;
            })
      | inl x ↦
          rw (g, x, try_join)
            (record {
              parent = parent;
              thread = thread;
              caller = o;
              child = child_main_thread-IsChild process parent thread k c;
              other = λ e. ground (arith, g, e);
              in_table = ground (arith, g);
              dead = x;
              reported = refl;
              forgotten =
                  processes-forget process _
                  ∙ same_without process _ k
                  ∙ without-entry process parent thread k num live
                      (child_main_thread-IsChild process parent thread k c);
            })
    ]
  ]

  -- In a table whose entries hold their own numbers, `try_wait_process` of a process returns a status
  -- exactly if the process is a child of the caller's process with a main thread in the table that is
  -- another one than the caller and has exited: then the status is that of the thread, and the entry
  -- of the process is freed. Otherwise nothing changes.
  pub try_wait_process-Waited :
      (process : ℕ) (k : Kernel M)
      → IsNumbered k
      → process ≢ no_thread
      → WaitOutcome process k (try_wait_process paging process k)
  unfolding try_wait_process
  try_wait_process-Waited process k num live = elim (Option-cases (owner_process k)) [
    | inl o ↦
        rw (o, try_wait_process)
          (record {
            unchanged = refl;
            alive = λ parent thread o' child ne lt.
                let wrong : none ≡ some parent = sym o ∙ o' in absurd cc;
          })
    | inr (parent, o) ↦ elim (Option-cases (child_main_thread process parent k)) [
      | inl c ↦
          rw (o, c, try_wait_process)
            (record {
              unchanged = refl;
              alive = λ parent' thread o' child ne lt.
                  let wrong : none ≡ some thread =
                    sym c ∙ found_child process parent parent' thread k num live o o' child in
                  absurd cc;
            })
      | inr (thread, c) ↦ rw (o, c, try_wait_process) (joined process parent thread k num live o c)
    ]
  ]
