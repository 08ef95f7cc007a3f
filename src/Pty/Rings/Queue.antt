-- ===== src/Pty/Rings/Queue.antt =====
-- A ring behaves as a bounded first-in first-out queue of bytes.
use open_kernel.Prelude.{
  ℕ, zero, suc, ◌+◌, ◌-◌, ◌%◌, ◌≤◌, ◌<◌, min, ◌≡◌, refl, ap, ◌∙◌, Bool, true, false, if◌then◌else◌,
  ◌==◌, Option, none, some, List, [], ◌∷◌, ◌++◌, append-nil, append_assoc, length, take, drop,
  arith, dec_lt, List-cases, inl, inr, take-cons, take_all, sym,
}
use open_kernel.Prelude.Windows.{
  window, length-window, window_of_zero, window_of_pos, window-update,
}
use open_kernel.Pty.Rings.{Ring, ring_capacity, push, pop, feed, drain}

-- The indices that the code uses lie inside the array.
pub record IsValid (r : Ring) : Type 0 where
  pub head_in : r.head < ring_capacity
  pub count_in : r.count ≤ ring_capacity

-- The bytes that a ring holds, the oldest first.
pub contents : Ring → List ℕ
contents r = window ring_capacity r.buffer r.head r.count

pub length-contents : (r : Ring) → length (contents r) ≡ r.count
unfolding contents
length-contents r = length-window ring_capacity r.buffer r.head r.count

-- The bounded queue that a ring stands for.
pub queue_push : List ℕ → ℕ → Bool × List ℕ
queue_push q x = if length q == ring_capacity then (false, q) else (true, q ++ (x ∷ []))

pub queue_pop : List ℕ → Option ℕ × List ℕ
queue_pop [] = (none, [])
queue_pop (x ∷ q) = (some x, q)

-- `push` refuses exactly when the queue is full, and otherwise adds its byte behind the others;
-- the ring stays valid.
pub push_refines :
    (r : Ring) (x : ℕ)
    → IsValid r
    → let (done, r') = push r x in ((done, contents r') ≡ queue_push (contents r) x) × IsValid r'
unfolding push queue_push contents
push_refines r x v = ground (
  arith,
  length-window ring_capacity r.buffer r.head r.count,
  window-update ring_capacity r.buffer x r.head r.count ((r.head + r.count) % ring_capacity),
)

-- `pop` gives the oldest byte and removes it, or nothing from an empty ring; the ring stays valid.
pub pop_refines :
    (r : Ring)
    → IsValid r
    → let (byte, r') = pop r in ((byte, contents r') ≡ queue_pop (contents r)) × IsValid r'
unfolding pop queue_pop contents
pop_refines r v = ground (
  arith,
  window_of_zero ring_capacity r.buffer r.head r.count,
  window_of_pos ring_capacity r.buffer r.head r.count,
)

-- What the writing loop does: it takes as many bytes as there is room for.
pub record Fed (r : Ring) (bytes : List ℕ) (out : ℕ × Ring) : Type 0 where
  pub taken : out.0 ≡ min (length bytes) (ring_capacity - r.count)
  pub queued : contents out.1 ≡ contents r ++ take (ring_capacity - r.count) bytes
  pub valid : IsValid out.1

push-full : (r : Ring) (x : ℕ) → r.count ≡ ring_capacity → push r x ≡ (false, r)
unfolding push
push-full r x e = ground arith

push-ok :
    (r : Ring) (x : ℕ)
    → IsValid r
    → r.count < ring_capacity
    → let (done, r') = push r x in
      (done ≡ true) × (r'.count ≡ r.count + 1) × (contents r' ≡ contents r ++ (x ∷ []))
unfolding push queue_push
push-ok r x v h = ground (arith, push_refines r x v, length-contents r)

pub feed-Fed : (bytes : List ℕ) (r : Ring) → IsValid r → Fed r bytes (feed r bytes)
unfolding feed
feed-Fed [] r v = record {
  taken = omega arith;
  queued = sym (
      ap (λ l. contents r ++ l) (take_all (ring_capacity - r.count) [] (omega arith))
      ∙ append-nil (contents r));
  valid = v;
}
feed-Fed (x ∷ bytes) r v = elim (dec_lt r.count ring_capacity) [
  | no h ↦ ground (arith, push-full r x, append-nil (contents r))
  | yes h ↦ ground (
    arith,
    push-ok r x v h,
    push_refines r x v,
    feed-Fed bytes (push r x).1,
    take-cons (ring_capacity - r.count) x bytes,
    append_assoc (contents r) (x ∷ []) (take (ring_capacity - r.count - 1) bytes),
  )
]

-- What the reading loop does.
pub record Drained (n : ℕ) (r : Ring) (out : List ℕ × Ring) : Type 0 where
  pub bytes : out.0 ≡ take n (contents r)
  pub left : contents out.1 ≡ drop n (contents r)
  pub valid : IsValid out.1

pub drain-Drained : (n : ℕ) (r : Ring) → IsValid r → Drained n r (drain n r)
unfolding drain queue_pop
drain-Drained zero r v = record { bytes = refl; left = refl; valid = v }
drain-Drained (suc n) r v = elim (List-cases (contents r)) [
  | inl e ↦ ground (arith, pop_refines r v)
  | inr (x, q, e) ↦ ground (arith, pop_refines r v, drain-Drained n (pop r).1)
]
