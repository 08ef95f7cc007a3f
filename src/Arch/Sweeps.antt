-- ===== src/Arch/Sweeps.antt =====
-- The loops over entries with deadlines in kernel-core/src/arch.rs: what they clear and whom they wake.
use open_kernel.Prelude.{
  ℕ, zero, suc, ◌+◌, ◌≤◌, ◌<◌, ◌≡◌, ◌≢◌, inl, inr, refl, sym, ap, ap₂, ◌∙◌, Bool, true, false, ◌&&◌,
  ◌||◌, if◌then◌else◌, ◌==◌, leb, ltb, Option, none, some, Bool-cases, Option-cases, update_self,
  update_other, ℕ_discrete, arith,
}
use open_kernel.Threads.State.{Kernel}
use open_kernel.Threads.Safety.Keeps.{Keeps, Keeps-refl, Keeps-trans, wake-Keeps}
use open_kernel.Arch.{wake_entry, wake_entries}
use open_kernel.Arch.Wakes.{WokenBy, WokenBy-none, WokenBy-trans, wake-WokenBy}

-- `i ≤ j < i + n`
unfoldable pub in_range : ℕ → ℕ → ℕ → Bool
in_range i n j = leb i j && ltb j (i + n)

pub range_zero : (i j : ℕ) → in_range i 0 j ≡ false
unfolding in_range
range_zero i j = ground arith

pub range_here : (i n : ℕ) → in_range i (suc n) i ≡ true
unfolding in_range
range_here i n = ground arith

pub range_passed : (i n : ℕ) → in_range (i + 1) n i ≡ false
unfolding in_range
range_passed i n = ground arith

pub range_other : (i n j : ℕ) → j ≢ i → in_range i (suc n) j ≡ in_range (i + 1) n j
unfolding in_range
range_other i n j ne = elim (Bool-cases (ltb j (i + suc n))) [
  | inl low ↦ ground arith
  | inr high ↦ ground arith
]

module _ {E : Type 0} (thread_of : E → ℕ) (is_due : E → Bool) where
  abbrev pub due_entry : Option E → Bool
  due_entry none = false
  due_entry (some e) = is_due e

  abbrev pub names_entry : Option E → ℕ → Bool
  names_entry none t = false
  names_entry (some e) t = is_due e && t == thread_of e

  -- The threads of the entries that are due, of `n` entries from `i` on.
  abbrev pub names : ℕ → ℕ → (ℕ → Option E) → ℕ → Bool
  names i zero entries t = false
  names i (suc n) entries t = names_entry (entries i) t || names (i + 1) n entries t

  -- A thread that no entry names is not woken; one that an entry names is.
  pub names-false :
      (i n : ℕ) (entries : ℕ → Option E) (t : ℕ)
      → ((j : ℕ) → names_entry (entries j) t ≡ false)
      → names i n entries t ≡ false
  names-false i zero entries t h = refl
  names-false i (suc n) entries t h = ap₂ ◌||◌ (h i) (names-false (i + 1) n entries t h)

  pub names-true :
      (i n j : ℕ) (entries : ℕ → Option E) (t : ℕ)
      → i ≤ j
      → j < i + n
      → names_entry (entries j) t ≡ true
      → names i n entries t ≡ true
  names-true i zero j entries t lo hi h = absurd (omega arith)
  names-true i (suc n) j entries t lo hi h = elim (ℕ_discrete i j) [
    | yes at ↦ let here : names_entry (entries i) t ≡ true = rw at h in rw here refl
    | no ne ↦
        let later = names-true (i + 1) n j entries t (omega arith) (omega arith) h in
        rw later (ground arith)
  ]

  names-congr :
      (i n : ℕ) (a b : ℕ → Option E) (t : ℕ)
      → ((j : ℕ) → i ≤ j → a j ≡ b j)
      → names i n a t ≡ names i n b t
  names-congr i zero a b t h = refl
  names-congr i (suc n) a b t h =
      ap₂ ◌||◌ (ap (λ e. names_entry e t) (h i (omega arith)))
        (names-congr (i + 1) n a b t (λ j lo. h j (omega arith)))

  -- What the loop leaves: the entries that are due are cleared, and their threads woken.
  pub record Swept {M : Type 0} (i n : ℕ) (entries : ℕ → Option E) (k : Kernel M)
      (r : (ℕ → Option E) × Kernel M) : Type 0 where
    pub cleared :
        (j : ℕ) → r.0 j ≡ (if in_range i n j && due_entry (entries j) then none else entries j)
    pub woken : WokenBy (names i n entries) k r.1
    pub keeps : Keeps k r.1

  -- One entry.
  record Step {M : Type 0} (i : ℕ) (entries : ℕ → Option E) (k : Kernel M)
      (r : (ℕ → Option E) × Kernel M) : Type 0 where
    here : r.0 i ≡ (if due_entry (entries i) then none else entries i)
    others : (j : ℕ) → j ≢ i → r.0 j ≡ entries j
    woke : WokenBy (names_entry (entries i)) k r.1
    keeps : Keeps k r.1

  wake_entry-Step :
      {M : Type 0} (i : ℕ) (entries : ℕ → Option E) (k : Kernel M)
      → Step i entries k (wake_entry thread_of is_due i entries k)
  unfolding wake_entry
  wake_entry-Step i entries k = elim (Option-cases (entries i)) [
    | inl e ↦
        rw (e, wake_entry)
          (record {
            here = rw e refl;
            others = λ j ne. refl;
            woke = WokenBy-none _ k (λ t. rw e refl);
            keeps = Keeps-refl k;
          })
    | inr (x, e) ↦ elim (Bool-cases (is_due x)) [
      | inr early ↦
          rw (e, early, wake_entry)
            (record {
              here = rw (e, early) refl;
              others = λ j ne. refl;
              woke = WokenBy-none _ k (λ t. rw (e, early) refl);
              keeps = Keeps-refl k;
            })
      | inl due ↦
          rw (e, due, wake_entry)
            (record {
              here = update_self entries i none ∙ rw (e, due) refl;
              others = λ j ne. update_other entries i none j ne;
              woke = record {
                states = λ t lt. (wake-WokenBy (thread_of x) k).states t lt ∙ rw (e, due) refl;
              };
              keeps = wake-Keeps (thread_of x) k;
            })
    ]
  ]

  pub wake_entries-Swept :
      {M : Type 0} (i n : ℕ) (entries : ℕ → Option E) (k : Kernel M)
      → Swept i n entries k (wake_entries thread_of is_due i n entries k)
  unfolding wake_entries
  wake_entries-Swept i zero entries k = record {
    cleared = λ j. rw (range_zero i j) refl;
    woken = WokenBy-none _ k (λ t. refl);
    keeps = Keeps-refl k;
  }
  wake_entries-Swept i (suc n) entries k =
      let (entries', k') = wake_entry thread_of is_due i entries k in
      let s = wake_entry-Step i entries k in
      let r = wake_entries-Swept (i + 1) n entries' k' in
      record {
        cleared = λ j. elim (ℕ_discrete j i) [
          | yes at ↦ rw at (r.cleared i ∙ rw (range_passed i n, range_here i n, s.here) refl)
          | no ne ↦ r.cleared j ∙ rw (range_other i n j ne, s.others j ne) refl
        ];
        woken =
            WokenBy-trans (names_entry (entries i)) (names (i + 1) n entries')
              (names i (suc n) entries) k k' _ s.woke r.woken
              (λ t.
                ap (λ b. names_entry (entries i) t || b)
                  (names-congr (i + 1) n entries entries' t
                    (λ j lo. sym (s.others j (omega arith)))));
        keeps = Keeps-trans s.keeps r.keeps;
      }
