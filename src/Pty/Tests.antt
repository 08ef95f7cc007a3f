-- ===== src/Pty/Tests.antt =====
-- Runs of the pseudo-terminals of kernel-core/src/pty.rs.
use open_kernel.Prelude.{
  ℕ, ◌-◌, ◌≡◌, ◌≢◌, refl, sym, ap, ◌∙◌, [], ◌∷◌, ◌++◌, take, drop, true, false, Option, none, some,
  arith, first_from,
}
use open_kernel.Pty.Rings.{Ring, empty_ring, ring_capacity}
use open_kernel.Pty.Rings.Queue.{IsValid, contents}
use open_kernel.Pty.{Ptys, empty_pty, open_pty, close, read_master, write_master, slave_write}
use open_kernel.Pty.Ownership.{stranger_is_refused, OpenResult, open_lem}
use open_kernel.Pty.Invariant.{
  IsSound, open_call, close_call, read_call, write_call, slave_write_call, poll_call, run,
  run_ptys-IsSound,
}
use open_kernel.Pty.Streams.{read_master-slave_write}

-- The last entry of the array, and then the first.
abbrev wrapped : Ring
wrapped = record { buffer = λ _. 65; head = 255; count = 2 }

wrapped-IsValid : IsValid wrapped
wrapped-IsValid = record { head_in = omega arith; count_in = omega arith }

abbrev boot : Ptys
boot _ = empty_pty

empty-IsValid : IsValid empty_ring
empty-IsValid = record { head_in = omega arith; count_in = omega arith }

-- Process 2 owns the first pseudo-terminal.
abbrev pool : Ptys
pool = (open_pty (some 2) boot).1

three_is_not_two : ◌≢◌ {A = Option ℕ} (some 3) (some 2)
three_is_not_two e = absurd (omega (arith, ap value e))
  where
    value : Option ℕ → ℕ
    value none = 0
    value (some x) = x

stranger_example :
    (read_master (some 3) 0 8 pool ≡ (none, pool))
    × (write_master (some 3) 0 (65 ∷ []) pool ≡ (none, pool))
    × (close (some 3) 0 pool ≡ (false, pool))
unfolding open_pty first_from
stranger_example =
    stranger_is_refused (some 3) 0 8 (65 ∷ []) pool
      (λ process e same. absurd (three_is_not_two (e ∙ sym same)))

open_example : OpenResult (some 2) boot (open_pty (some 2) boot)
open_example = open_lem (some 2) boot

run_ptys_example : IsSound (
    run
      (open_call (some 2)
        ∷ slave_write_call 0 (65 ∷ 66 ∷ [])
        ∷ read_call (some 2) 0 1
        ∷ write_call (some 2) 0 (67 ∷ [])
        ∷ poll_call 0
        ∷ close_call (some 3) 0
        ∷ [])
      boot)
run_ptys_example =
    run_ptys-IsSound
      (open_call (some 2)
        ∷ slave_write_call 0 (65 ∷ 66 ∷ [])
        ∷ read_call (some 2) 0 1
        ∷ write_call (some 2) 0 (67 ∷ [])
        ∷ poll_call 0
        ∷ close_call (some 3) 0
        ∷ [])
      boot
      (λ i. record {
        to_master_valid = empty-IsValid;
        to_slave_valid = empty-IsValid;
        used_iff_owned = refl;
      })

-- A pseudo-terminal of process 2 whose rings hold two bytes each.
abbrev busy : Ptys
busy _ = record { allocated = true; owner = some 2; to_master = wrapped; to_slave = wrapped }

read_master_example :
    let stream = contents wrapped ++ take (ring_capacity - 2) (66 ∷ 67 ∷ []) in
    let (got, after) = read_master (some 2) 1 3 (slave_write 1 (66 ∷ 67 ∷ []) busy) in
    (got ≡ some (take 3 stream)) × (contents (after 1).to_master ≡ drop 3 stream)
read_master_example = read_master-slave_write 2 1 3 (66 ∷ 67 ∷ []) busy refl wrapped-IsValid
