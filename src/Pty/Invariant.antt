-- ===== src/Pty/Invariant.antt =====
-- The invariant of the pool, for any sequence of calls (kernel-core/src/pty.rs).
use open_kernel.Prelude.{
  ℕ, ◌≡◌, not, Option, none, some, List, [], ◌∷◌, update, first_from, arith, Option-cases,
  Bool-cases, ◌==◌, has_value, inl, inr,
}
use open_kernel.Pty.Rings.Queue.{IsValid, feed-Fed, drain-Drained, pop_refines}
use open_kernel.Pty.Ownership.{open_pty-none, open_pty-some}
use open_kernel.Pty.{
  Pty, Ptys, pty_count, opened, closed, open_pty, exists, may_use, close, read_master, write_master,
  slave_write, slave_poll_key,
}

-- Both rings are valid, and an entry is in use exactly if it has an owner.
pub record IsSoundPty (p : Pty) : Type 0 where
  pub to_master_valid : IsValid p.to_master
  pub to_slave_valid : IsValid p.to_slave
  pub used_iff_owned : has_value p.owner ≡ p.allocated

abbrev pub IsSound : Ptys → Type 0
IsSound ptys = (i : ℕ) → IsSoundPty (ptys i)

-- A call of the component, with the process that makes it.
pub data Call : Type 0 where
  open_call : (caller : Option ℕ) → Call
  close_call : (caller : Option ℕ) (id : ℕ) → Call
  read_call : (caller : Option ℕ) (id size : ℕ) → Call
  write_call : (caller : Option ℕ) (id : ℕ) (input : List ℕ) → Call
  slave_write_call : (id : ℕ) (input : List ℕ) → Call
  poll_call : (id : ℕ) → Call

pub exec : Call → Ptys → Ptys
exec (open_call caller) ptys = (open_pty caller ptys).1
exec (close_call caller id) ptys = (close caller id ptys).1
exec (read_call caller id size) ptys = (read_master caller id size ptys).1
exec (write_call caller id input) ptys = (write_master caller id input ptys).1
exec (slave_write_call id input) ptys = slave_write id input ptys
exec (poll_call id) ptys = (slave_poll_key id ptys).1

pub run : List Call → Ptys → Ptys
run [] ptys = ptys
run (c ∷ cs) ptys = run cs (exec c ptys)

IsSound-update :
    (ptys : Ptys) (i : ℕ) (p : Pty) → IsSound ptys → IsSoundPty p → IsSound (update ptys i p)
IsSound-update ptys i p s sp j = elim (Bool-cases (j == i)) [ inl e ↦ rw e sp | inr e ↦ rw e (s j) ]

module _ (ptys : Ptys) (s : IsSound ptys) where
  open-IsSound : (caller : Option ℕ) → IsSound (open_pty caller ptys).1
  unfolding open_pty
  open-IsSound none = s
  open-IsSound (some process) =
      elim (Option-cases (first_from (λ i. not (ptys i).allocated) 0 pty_count)) [
        | inl e ↦ rw (open_pty-none process ptys e) s
        | inr (i, e) ↦
            rw (open_pty-some process ptys i e)
              (IsSound-update ptys i (opened process (ptys i)) s (ground (arith, s i)))
      ]

  close-IsSound : (caller : Option ℕ) (id : ℕ) → IsSound (close caller id ptys).1
  unfolding close
  close-IsSound caller id = elim (Bool-cases (may_use caller ptys id)) [
    | inl e ↦ rw e (IsSound-update ptys id (closed (ptys id)) s (ground (arith, s id)))
    | inr e ↦ rw e s
  ]

  read-IsSound : (caller : Option ℕ) (id size : ℕ) → IsSound (read_master caller id size ptys).1
  unfolding read_master
  read-IsSound caller id size = elim (Bool-cases (may_use caller ptys id)) [
    | inl e ↦ rw e (
        IsSound-update ptys id _ s
          (ground (arith, s id, drain-Drained size (ptys id).to_master (s id).to_master_valid)))
    | inr e ↦ rw e s
  ]

  write-IsSound :
      (caller : Option ℕ) (id : ℕ) (input : List ℕ) → IsSound (write_master caller id input ptys).1
  unfolding write_master
  write-IsSound caller id input = elim (Bool-cases (may_use caller ptys id)) [
    | inl e ↦ rw e (
        IsSound-update ptys id _ s
          (ground (arith, s id, feed-Fed input (ptys id).to_slave (s id).to_slave_valid)))
    | inr e ↦ rw e s
  ]

  slave_write-IsSound : (id : ℕ) (input : List ℕ) → IsSound (slave_write id input ptys)
  unfolding slave_write
  slave_write-IsSound id input = elim (Bool-cases (exists ptys id)) [
    | inl e ↦ rw e (
        IsSound-update ptys id _ s
          (ground (arith, s id, feed-Fed input (ptys id).to_master (s id).to_master_valid)))
    | inr e ↦ rw e s
  ]

  poll-IsSound : (id : ℕ) → IsSound (slave_poll_key id ptys).1
  unfolding slave_poll_key
  poll-IsSound id = elim (Bool-cases (exists ptys id)) [
    | inl e ↦ rw e (
        IsSound-update ptys id _ s
          (ground (arith, s id, pop_refines (ptys id).to_slave (s id).to_slave_valid)))
    | inr e ↦ rw e s
  ]

exec-IsSound : (c : Call) (ptys : Ptys) → IsSound ptys → IsSound (exec c ptys)
unfolding exec
exec-IsSound (open_call caller) ptys s = open-IsSound ptys s caller
exec-IsSound (close_call caller id) ptys s = close-IsSound ptys s caller id
exec-IsSound (read_call caller id size) ptys s = read-IsSound ptys s caller id size
exec-IsSound (write_call caller id input) ptys s = write-IsSound ptys s caller id input
exec-IsSound (slave_write_call id input) ptys s = slave_write-IsSound ptys s id input
exec-IsSound (poll_call id) ptys s = poll-IsSound ptys s id

-- From the boot state on, no sequence of calls breaks the invariant: every ring index stays inside
-- its array, and an entry is in use exactly if it has an owner.
pub run_ptys-IsSound : (cs : List Call) (ptys : Ptys) → IsSound ptys → IsSound (run cs ptys)
unfolding run
run_ptys-IsSound [] ptys s = s
run_ptys-IsSound (c ∷ cs) ptys s = run_ptys-IsSound cs (exec c ptys) (exec-IsSound c ptys s)
