-- ===== src/Threads/Outcomes/Created.antt =====
-- Creating processes in kernel-core/src/threads.rs.
use open_kernel.Prelude.{
  ℕ, ◌+◌, ◌-◌, ◌<◌, ◌≡◌, ◌≢◌, ◌⊎◌, inl, inr, refl, sym, ap, ◌∙◌, ◌==◌, ==_refl, ==_iff, ==_of_ne,
  none, some, Option-cases, ℕ_discrete, first_from, first_from-IsFirst, first_from_finds,
  first_from-congr, arith,
}
use open_kernel.Threads.State.{
  Kernel, max_threads, no_thread, set_process, owner_process, find_process, process_address_space,
}
use open_kernel.Threads.Process.{create_process}

-- An entry of the table of processes that is in use holds its own number plus one.
abbrev pub IsNumbered : {M : Type 0} → Kernel M → Type 0
IsNumbered k =
    (i : ℕ) → i < max_threads → ((k.processes i).id ≡ i + 1) ⊎ ((k.processes i).id ≡ no_thread)

module _ {M : Type 0} where
  -- In a numbered table a process is found in its own entry or nowhere.
  pub find_process-at :
      (k : Kernel M) (i : ℕ)
      → IsNumbered k
      → i < max_threads
      → (k.processes i).id ≡ i + 1
      → find_process (i + 1) k ≡ some i
  unfolding find_process
  find_process-at k i num h e =
      first_from_finds (λ j. (k.processes j).id == i + 1) 0 max_threads i
        (record {
          lower = omega arith;
          upper = omega arith;
          passes = rw e (==_refl (i + 1));
          least = λ j lo lt. elim (num j (omega arith)) [
            | inl own ↦ ==_of_ne (k.processes j).id (i + 1) (λ same. omega (arith, own, same))
            | inr free ↦ ==_of_ne (k.processes j).id (i + 1) (λ same. omega (arith, free, same, h))
          ];
        })

  found_at :
      (process j : ℕ) (k : Kernel M)
      → find_process process k ≡ some j
      → first_from (λ i. (k.processes i).id == process) 0 max_threads ≡ some j
  unfolding find_process
  found_at process j k e = e

  find_process-gone :
      (k : Kernel M) (i : ℕ)
      → IsNumbered k
      → i < max_threads
      → (k.processes i).id ≡ no_thread
      → find_process (i + 1) k ≡ none
  unfolding find_process
  find_process-gone k i num h e = elim (Option-cases (find_process (i + 1) k)) [
    | inl absent ↦ absent
    | inr (j, found) ↦
        let f = first_from-IsFirst (λ j. (k.processes j).id == i + 1) 0 max_threads j found in
        let id : (k.processes j).id ≡ i + 1 = (==_iff (k.processes j).id (i + 1)).0 f.passes in
        elim (num j f.upper) [
          | inl own ↦
              let at : j ≡ i = omega (arith, own, id) in absurd (omega (arith, h, rw at at id, e))
          | inr free ↦ absurd (omega (arith, h, id, free))
        ]
  ]

  abbrev added : ℕ → ℕ → Kernel M → Kernel M
  added address_space slot k =
      set_process slot
        (record {
          id = slot + 1;
          address_space = address_space;
          parent = owner_process k;
          main_thread = none;
        })
        k

  added-IsNumbered :
      (address_space slot : ℕ) (k : Kernel M)
      → IsNumbered k
      → IsNumbered (added address_space slot k)
  added-IsNumbered address_space slot k num i h = elim (ℕ_discrete i slot) [
    | yes at ↦ inl (rw (at, ==_refl slot) refl)
    | no ne ↦ rw (==_of_ne i slot ne) (num i h)
  ]

  added-find :
      (address_space slot other : ℕ) (k : Kernel M)
      → (k.processes slot).id ≡ no_thread
      → other ≢ slot + 1
      → other ≢ no_thread
      → find_process other (added address_space slot k) ≡ find_process other k
  unfolding find_process
  added-find address_space slot other k was ne live =
      first_from-congr (λ i. ((added address_space slot k).processes i).id == other)
        (λ i. (k.processes i).id == other) 0 max_threads
        λ i lo hi. elim (ℕ_discrete i slot) [
          | yes at ↦
              rw (at, ==_refl slot, was)
                (==_of_ne (slot + 1) other (λ e. ne (sym e))
                  ∙ sym (==_of_ne no_thread other (λ e. live (sym e))))
          | no apart ↦ rw (==_of_ne i slot apart) refl
        ]

  added-lookup :
      (address_space slot : ℕ) (k : Kernel M)
      → IsNumbered k
      → slot < max_threads
      → (k.processes slot).id ≡ no_thread
      → let k' = added address_space slot k in
        (process_address_space (slot + 1) k ≡ none)
        × (process_address_space (slot + 1) k' ≡ some address_space)
        × IsNumbered k'
        × ((other : ℕ)
            → other ≢ slot + 1
            → other ≢ no_thread
            → process_address_space other k' ≡ process_address_space other k)
  unfolding process_address_space
  added-lookup address_space slot k num h was =
      let k' = added address_space slot k in
      let numbered = added-IsNumbered address_space slot k num in
      let own : (k'.processes slot).id ≡ slot + 1 = rw (==_refl slot) refl in
      (
        rw (find_process-gone k slot num h was, process_address_space) refl,
        rw (find_process-at k' slot numbered h own, process_address_space) (rw (==_refl slot) refl),
        numbered,
        λ other ne live. elim (Option-cases (find_process other k)) [
          | inl absent ↦
              rw (added-find address_space slot other k was ne live, absent, process_address_space)
                refl
          | inr (j, found) ↦
              let f =
                first_from-IsFirst (λ j. (k.processes j).id == other) 0 max_threads j
                  (found_at other j k found) in
              let id : (k.processes j).id ≡ other = (==_iff (k.processes j).id other).0 f.passes in
              let apart : j ≢ slot = λ at. live (sym id ∙ ap (λ i. (k.processes i).id) at ∙ was) in
              rw (added-find address_space slot other k was ne live, found, process_address_space)
                (rw (==_of_ne j slot apart) refl)
        ],
      )

  -- `create_process` gives a number that no process has, the space and the parent asked for, and
  -- leaves the other processes alone.
  pub create_process-lookup :
      (address_space process : ℕ) (k : Kernel M)
      → IsNumbered k
      → (create_process address_space k).0 ≡ some process
      → let k' = (create_process address_space k).1 in
        (process_address_space process k ≡ none)
        × (process_address_space process k' ≡ some address_space)
        × IsNumbered k'
        × ((other : ℕ)
            → other ≢ process
            → other ≢ no_thread
            → process_address_space other k' ≡ process_address_space other k)
  unfolding create_process
  create_process-lookup address_space process k num e =
      elim (Option-cases (first_from (λ i. (k.processes i).id == no_thread) 1 (max_threads - 1))) [
        | inl full ↦ absurd (let h : none ≡ some process = rw (full, create_process) at e in cc)
        | inr (slot, free) ↦
            let f =
              first_from-IsFirst (λ i. (k.processes i).id == no_thread) 1 (max_threads - 1) slot
                free in
            let was : (k.processes slot).id ≡ no_thread =
              (==_iff (k.processes slot).id no_thread).0 f.passes in
            let given : some (slot + 1) ≡ some process = rw (free, create_process) at e in
            let at : slot + 1 ≡ process = cc in
            rw (← at) (
              rw (free, create_process)
                (added-lookup address_space slot k num (omega (arith, f.upper)) was))
      ]
