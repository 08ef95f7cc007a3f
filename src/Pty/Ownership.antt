-- ===== src/Pty/Ownership.antt =====
-- Who may use a pseudo-terminal, and what a call leaves alone (kernel-core/src/pty.rs).
use open_kernel.Prelude.{
  ℕ, ◌<◌, ◌≡◌, ◌≢◌, ◌⊎◌, refl, sym, subst, true, false, not, Option, none, some, List, update,
  first_from, first_from-IsFirst, first_from-none, arith, Option-cases, true_of_not, false_of_not,
  inl, inr,
}
use open_kernel.Pty.{Ptys, pty_count, opened, open_pty, close, read_master, write_master}

-- A process that is not the owner reads nothing, injects nothing and closes nothing, and the pool
-- stays as it was.
pub stranger_is_refused :
    (caller : Option ℕ) (id size : ℕ) (input : List ℕ) (ptys : Ptys)
    → ((process : ℕ) → caller ≡ some process → (ptys id).owner ≢ some process)
    → (read_master caller id size ptys ≡ (none, ptys))
      × (write_master caller id input ptys ≡ (none, ptys))
      × (close caller id ptys ≡ (false, ptys))
unfolding read_master write_master close
stranger_is_refused none id size input ptys h = ground arith
stranger_is_refused (some process) id size input ptys h = ground (arith, h process refl)

-- What `open` promises: it hands out the first entry that is not in use, with both rings empty and
-- owned by the caller, and touches no other; it refuses only a call from no process, or when all
-- entries are in use, and then changes nothing.
pub record Opens (caller : Option ℕ) (before : Ptys) (index : ℕ) (after : Ptys) : Type 0 where
  pub in_range : index < pty_count
  pub was_free : (before index).allocated ≡ false
  pub lower_in_use : (j : ℕ) → j < index → (before j).allocated ≡ true
  pub in_use : (after index).allocated ≡ true
  pub owned : (after index).owner ≡ caller
  pub nothing_to_read : (after index).to_master.count ≡ 0
  pub nothing_to_poll : (after index).to_slave.count ≡ 0
  pub others : (j : ℕ) → j ≢ index → after j ≡ before j

abbrev pub OpenResult : Option ℕ → Ptys → Option ℕ × Ptys → Type 0
OpenResult caller before (some index, after) = Opens caller before index after
OpenResult caller before (none, after) =
    (after ≡ before) × ((caller ≡ none) ⊎ ((j : ℕ) → j < pty_count → (before j).allocated ≡ true))

-- The two ways in which a call from a process ends.
pub open_pty-none :
    (process : ℕ) (ptys : Ptys)
    → first_from (λ i. not (ptys i).allocated) 0 pty_count ≡ none
    → open_pty (some process) ptys ≡ (none, ptys)
unfolding open_pty
open_pty-none process ptys e = rw (e, open_pty)

pub open_pty-some :
    (process : ℕ) (ptys : Ptys) (index : ℕ)
    → first_from (λ i. not (ptys i).allocated) 0 pty_count ≡ some index
    → open_pty (some process) ptys ≡ (some index, update ptys index (opened process (ptys index)))
unfolding open_pty
open_pty-some process ptys index e = rw (e, open_pty)

-- `open` does what `Opens` says: it hands out the first entry that is not in use, with both rings
-- empty and owned by the caller, and touches no other; it refuses only a call from no process, or
-- when all entries are in use, and then changes nothing.
pub open_lem : (caller : Option ℕ) (ptys : Ptys) → OpenResult caller ptys (open_pty caller ptys)
unfolding open_pty
open_lem none ptys = (refl, inl refl)
open_lem (some process) ptys =
    elim (Option-cases (first_from (λ i. not (ptys i).allocated) 0 pty_count)) [
      | inl e ↦ subst (OpenResult (some process) ptys) (sym (open_pty-none process ptys e)) (
        refl,
        inr (λ j h. true_of_not _ (first_from-none _ 0 pty_count e j (omega arith) (omega arith))),
      )
      | inr (s, e) ↦
          let f = first_from-IsFirst (λ i. not (ptys i).allocated) 0 pty_count s e in
          subst (OpenResult (some process) ptys) (sym (open_pty-some process ptys s e)) (record {
            in_range = omega (arith, f.upper);
            was_free = false_of_not _ f.passes;
            lower_in_use = λ j h. true_of_not _ (f.least j (omega arith) h);
            in_use = ground arith;
            owned = ground arith;
            nothing_to_read = ground arith;
            nothing_to_poll = ground arith;
            others = λ j h. ground arith;
          })
    ]
