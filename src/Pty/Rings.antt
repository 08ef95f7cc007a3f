-- ===== src/Pty/Rings.antt =====
-- kernel-core/src/pty.rs: `struct Ring`, and the loops that fill and empty one.
pub mod Queue
use open_kernel.Prelude.{
  ℕ, zero, suc, ◌+◌, ◌-◌, ◌%◌, Bool, true, false, if◌then◌else◌, ◌==◌, Option, none, some, List, [],
  ◌∷◌, update,
}

-- `RING_CAPACITY`
abbrev pub ring_capacity : ℕ
ring_capacity = 256

pub record Ring : Type 0 where
  pub buffer : ℕ → ℕ
  pub head : ℕ
  pub count : ℕ

-- `Ring::EMPTY`
abbrev pub empty_ring : Ring
empty_ring = record { buffer = λ _. 0; head = 0; count = 0 }

-- The bytes stay in the array.
abbrev pub reset : Ring → Ring
reset r = record r { head = 0; count = 0 }

unfoldable pub push : Ring → ℕ → Bool × Ring
push r byte = if r.count == ring_capacity then (false, r) else (
  true,
  record r {
    buffer = update r.buffer ((r.head + r.count) % ring_capacity) byte;
    count = r.count + 1;
  },
)

unfoldable pub pop : Ring → Option ℕ × Ring
pop r = if r.count == 0 then (none, r) else (
  some (r.buffer r.head),
  record r { head = (r.head + 1) % ring_capacity; count = r.count - 1 },
)

-- `for byte in input { if !ring.push(*byte) { break; } count += 1; }`
unfoldable pub feed : Ring → List ℕ → ℕ × Ring
feed r [] = (0, r)
feed r (byte ∷ bytes) =
    let (pushed, r') = push r byte in
    elim pushed [ true ↦ let (n, r'') = feed r' bytes in (n + 1, r'') | false ↦ (0, r') ]

-- `while count < output.len() { let Some(byte) = ring.pop() else { break; }; … }`
unfoldable pub drain : ℕ → Ring → List ℕ × Ring
drain zero r = ([], r)
drain (suc room) r =
    let (popped, r') = pop r in
    elim popped [
      | some byte ↦ let (bytes, r'') = drain room r' in (byte ∷ bytes, r'')
      | none ↦ ([], r')
    ]
