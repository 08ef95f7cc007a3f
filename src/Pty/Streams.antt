-- ===== src/Pty/Streams.antt =====
-- What crosses a pseudo-terminal in either direction (kernel-core/src/pty.rs).
use open_kernel.Prelude.{
  ℕ, zero, suc, ◌-◌, ◌≡◌, refl, ap, ◌∙◌, true, none, some, List, [], ◌∷◌, ◌++◌, update, min, take,
  drop, ==_refl, update_self, arith, length, Option-cases, inl, inr,
}
use open_kernel.Pty.Rings.{Ring, ring_capacity, feed, drain, pop}
use open_kernel.Pty.Rings.Queue.{IsValid, contents, feed-Fed, drain-Drained}
use open_kernel.Pty.{
  Pty, Ptys, exists, may_use, read_master, write_master, slave_write, slave_poll_key,
}

-- The slave polls until nothing is left or it has asked `n` times.
pub poll_keys : ℕ → ℕ → Ptys → List ℕ × Ptys
poll_keys id zero ptys = ([], ptys)
poll_keys id (suc n) ptys =
    let (key, after) = slave_poll_key id ptys in
    elim key [
      | some byte ↦ let (bytes, last) = poll_keys id n after in (byte ∷ bytes, last)
      | none ↦ ([], after)
    ]

read_master_own :
    (process id size : ℕ) (ptys : Ptys)
    → may_use (some process) ptys id ≡ true
    → let (bytes, rest) = drain size (ptys id).to_master in
      read_master (some process) id size ptys
      ≡ (some bytes, update ptys id (record (ptys id) { to_master = rest }))
unfolding read_master
read_master_own process id size ptys own = rw own

write_master_own :
    (process id : ℕ) (input : List ℕ) (ptys : Ptys)
    → may_use (some process) ptys id ≡ true
    → let (count, ring) = feed (ptys id).to_slave input in
      write_master (some process) id input ptys
      ≡ (some count, update ptys id (record (ptys id) { to_slave = ring }))
unfolding write_master
write_master_own process id input ptys own = rw own

exists_of_may_use :
    (process id : ℕ) (ptys : Ptys) → may_use (some process) ptys id ≡ true → exists ptys id ≡ true
unfolding exists
exists_of_may_use process id ptys own = ground arith

slave_write_at :
    (id : ℕ) (bytes : List ℕ) (ptys : Ptys)
    → exists ptys id ≡ true
    → slave_write id bytes ptys id
      ≡ record (ptys id) { to_master = (feed (ptys id).to_master bytes).1 }
unfolding slave_write
slave_write_at id bytes ptys e = rw (e, ==_refl id)

-- After the slave has written, the owner reads what was there and then as much of the new bytes as
-- there was room for, in order, cut to the size of the caller's buffer; the rest stays for later.
pub read_master-slave_write :
    (process id size : ℕ) (bytes : List ℕ) (ptys : Ptys)
    → may_use (some process) ptys id ≡ true
    → IsValid (ptys id).to_master
    → let old = (ptys id).to_master in
      let stream = contents old ++ take (ring_capacity - old.count) bytes in
      let (got, after) = read_master (some process) id size (slave_write id bytes ptys) in
      (got ≡ some (take size stream)) × (contents (after id).to_master ≡ drop size stream)
read_master-slave_write process id size bytes ptys own valid =
    let fed = feed-Fed bytes (ptys id).to_master valid in
    let out = drain-Drained size (feed (ptys id).to_master bytes).1 fed.valid in
    let written = slave_write_at id bytes ptys (exists_of_may_use process id ptys own) in
    let still = own_after written in
    rw (read_master_own process id size (slave_write id bytes ptys) still, written, ==_refl id)
      (
        ap some out.bytes ∙ ap (λ l. some (take size l)) fed.queued,
        out.left ∙ ap (drop size) fed.queued,
      )
  where
    own_after :
        slave_write id bytes ptys id
          ≡ record (ptys id) { to_master = (feed (ptys id).to_master bytes).1 }
        → may_use (some process) (slave_write id bytes ptys) id ≡ true
    own_after e = rw e own

slave_poll_key_live :
    (id : ℕ) (ptys : Ptys)
    → exists ptys id ≡ true
    → let (byte, ring) = pop (ptys id).to_slave in
      slave_poll_key id ptys ≡ (byte, update ptys id (record (ptys id) { to_slave = ring }))
unfolding slave_poll_key
slave_poll_key_live id ptys e = rw e

exists-update :
    (id : ℕ) (ptys : Ptys) (ring : Ring)
    → exists ptys id ≡ true
    → exists (update ptys id (record (ptys id) { to_slave = ring })) id ≡ true
unfolding exists
exists-update id ptys ring e = ground arith

-- Polling is the reading loop on the ring towards the slave.
poll_keys-eq-drain :
    (id n : ℕ) (ptys : Ptys)
    → exists ptys id ≡ true
    → (poll_keys id n ptys).0 ≡ (drain n (ptys id).to_slave).0
unfolding poll_keys drain
poll_keys-eq-drain id zero ptys e = refl
poll_keys-eq-drain id (suc n) ptys e =
    let ring = (pop (ptys id).to_slave).1 in
    let later = update ptys id (record (ptys id) { to_slave = ring }) in
    let ih : (poll_keys id n later).0 ≡ (drain n ring).0 =
      poll_keys-eq-drain id n later (exists-update id ptys ring e)
      ∙ ap (λ (p : Pty). (drain n p.to_slave).0) (update_self ptys id _) in
    elim (Option-cases (pop (ptys id).to_slave).0) [
      | inl empty ↦ ground (arith, slave_poll_key_live id ptys e)
      | inr (byte, got) ↦ ground (arith, slave_poll_key_live id ptys e, ih)
    ]

-- What the owner injects, the slave polls in the same order behind what was waiting; the count
-- that the owner gets back is the number of bytes that there was room for.
pub poll_keys-write_master :
    (process id n : ℕ) (input : List ℕ) (ptys : Ptys)
    → may_use (some process) ptys id ≡ true
    → IsValid (ptys id).to_slave
    → let old = (ptys id).to_slave in
      let room = ring_capacity - old.count in
      let (count, after) = write_master (some process) id input ptys in
      (count ≡ some (min (length input) room))
      × ((poll_keys id n after).0 ≡ take n (contents old ++ take room input))
poll_keys-write_master process id n input ptys own valid =
    let ring = (feed (ptys id).to_slave input).1 in
    let fed = feed-Fed input (ptys id).to_slave valid in
    let out = drain-Drained n ring fed.valid in
    let live = exists-update id ptys ring (exists_of_may_use process id ptys own) in
    rw (write_master_own process id input ptys own) (
      ap some fed.taken,
      poll_keys-eq-drain id n _ live
          ∙ ap (λ (p : Pty). (drain n p.to_slave).0) (update_self ptys id _)
          ∙ out.bytes
          ∙ ap (take n) fed.queued,
    )
