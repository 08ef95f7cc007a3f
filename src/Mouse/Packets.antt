-- ===== src/Mouse/Packets.antt =====
-- What the bytes of the mouse do to the position (kernel-core/src/mouse.rs).
use open_kernel.Prelude.{
  ℕ, zero, suc, ap, leb, ◌+◌, ◌-◌, ◌≤◌, ◌<◌, min, Bool-cases, inl, inr, ltb, ◌≡◌, ◌≢◌, refl, ◌∙◌,
  Bool, false, not, ◌&&◌, ◌||◌, ◌==◌, ==_of_ne, List, [], ◌∷◌, ◌++◌, update, bit_and, arith,
}
use open_kernel.Mouse.{Mouse, handle_byte, handle_bytes}
use open_kernel.Mouse.Ints.{
  ℤ, pos, negsuc, sub_ℕ, neg, ◌+ℤ◌, delta, max_position, saturating_add_i32, saturating_sub_i32,
  max_zero, saturate,
}

-- Not negative, and one of `i32`.
abbrev pub IsCoordinate : ℤ → Type 0
IsCoordinate z = (p : ℕ) × (z ≡ pos p) × (p ≤ 0x7FFFFFFF)

-- The index is in the packet, and the position is on the screen's side of the origin.
pub record IsOnScreen (m : Mouse) : Type 0 where
  pub index_in : m.packet_index < 3
  pub x_in : IsCoordinate m.x
  pub y_in : IsCoordinate m.y

abbrev pub IsNoise : List ℕ → Type 0
IsNoise [] = Unit
IsNoise (byte ∷ rest) = (bit_and byte 0x08 ≡ 0) × IsNoise rest

saturate-IsCoordinate : (z : ℤ) → IsCoordinate (max_zero (saturate z))
saturate-IsCoordinate (pos n) = (min n max_position, refl, omega arith)
saturate-IsCoordinate (negsuc n) = (0, refl, omega arith)

handle_byte-IsOnScreen : (byte : ℕ) (m : Mouse) → IsOnScreen m → IsOnScreen (handle_byte byte m).1
unfolding handle_byte
handle_byte-IsOnScreen byte m h =
    elim (Bool-cases (m.packet_index == 0 && bit_and byte 0x08 == 0)) [
      | inl noise ↦ rw noise h
      | inr sync ↦ elim (Bool-cases (m.packet_index + 1 == 3)) [
        | inr open_ ↦
            rw (sync, open_)
              record { index_in = ground (arith, open_, h.index_in); x_in = h.x_in; y_in = h.y_in }
        | inl full ↦ elim (Bool-cases (bit_and (update m.packet m.packet_index byte 0) 0xC0 == 0)) [
          | inr overflow ↦
              rw (sync, full, overflow)
                record { index_in = omega arith; x_in = h.x_in; y_in = h.y_in }
          | inl fits ↦
              rw (sync, full, fits)
                record {
                  index_in = omega arith;
                  x_in = saturate-IsCoordinate _;
                  y_in = saturate-IsCoordinate _;
                }
        ]
      ]
    ]

-- From a position that is not negative, whatever bytes the device sends, the index stays in the
-- packet, and neither coordinate becomes negative or exceeds `i32::MAX`.
pub handle_bytes-IsOnScreen :
    (bytes : List ℕ) (m : Mouse) → IsOnScreen m → IsOnScreen (handle_bytes bytes m).1
unfolding handle_bytes
handle_bytes-IsOnScreen [] m h = h
handle_bytes-IsOnScreen (byte ∷ rest) m h =
    handle_bytes-IsOnScreen rest (handle_byte byte m).1 (handle_byte-IsOnScreen byte m h)

or_false : (b : Bool) → (b || false) ≡ b
or_false b = ground arith

-- The first two bytes of a packet are stored.
stored :
    (byte : ℕ) (m : Mouse)
    → m.packet_index < 2
    → (m.packet_index == 0 && bit_and byte 0x08 == 0) ≡ false
    → handle_byte byte m ≡ (
      false,
      record m { packet = update m.packet m.packet_index byte; packet_index = m.packet_index + 1 },
    )
unfolding handle_byte
stored byte m h sync =
    let open_ : (m.packet_index + 1 == 3) ≡ false = ground (arith, h) in rw (sync, open_) refl

-- The third byte of a packet moves the position.
applied :
    (byte : ℕ) (m : Mouse)
    → m.packet_index ≡ 2
    → bit_and (m.packet 0) 0xC0 ≡ 0
    → let (moved, m') = handle_byte byte m in
      (moved ≡ (not (m.packet 1 == 0) || not (byte == 0)))
      × (m'.x ≡ max_zero (saturating_add_i32 m.x (delta (m.packet 1))))
      × (m'.y ≡ max_zero (saturating_sub_i32 m.y (delta byte)))
      × (m'.packet_index ≡ 0)
unfolding handle_byte
applied byte m at fits = rw (at, fits) (refl, refl, refl, refl)

-- A difference is cut off at zero.
lowered : (p n : ℕ) → p ≤ max_position → max_zero (saturate (sub_ℕ p n)) ≡ pos (p - n)
lowered p n h = elim (Bool-cases (leb n p)) [
  | inl below ↦ rw below (ap pos (ground (arith, h)))
  | inr above ↦ rw above (ap pos (ground (arith, above)))
]

lowered_by : (p n : ℕ) → p ≤ max_position → max_zero (saturate (pos p +ℤ neg (pos n))) ≡ pos (p - n)
lowered_by p zero h = ap pos (ground (arith, h))
lowered_by p (suc n) h =
    let opposite : neg (pos (suc n)) ≡ negsuc n = ground arith in
    ap (λ z. max_zero (saturate (pos p +ℤ z))) opposite ∙ lowered p (n + 1) h ∙ ap pos (omega arith)

-- A byte below 128 moves to the right, the others to the left, as far as the position goes.
moved_right :
    (p byte : ℕ)
    → p ≤ max_position
    → byte < 256
    → let z = max_zero (saturating_add_i32 (pos p) (delta byte)) in
      (byte < 128 → z ≡ pos (min (p + byte) max_position))
      × (128 ≤ byte → z ≡ pos (p - (256 - byte)))
moved_right p byte p_in b_in = elim (Bool-cases (ltb byte 128)) [
  | inl right ↦ rw right (λ near. refl, λ far. absurd (ground (arith, right, far)))
  | inr left ↦ rw left (
    λ near. absurd (ground (arith, left, near)),
    λ far.
        ap (λ n. max_zero (saturate (sub_ℕ p n))) (omega (arith, b_in))
        ∙ lowered p (256 - byte) p_in,
  )
]

moved_down :
    (p byte : ℕ)
    → p ≤ max_position
    → byte < 256
    → let z = max_zero (saturating_sub_i32 (pos p) (delta byte)) in
      (byte < 128 → z ≡ pos (p - byte))
      × (128 ≤ byte → z ≡ pos (min (p + (256 - byte)) max_position))
moved_down p byte p_in b_in = elim (Bool-cases (ltb byte 128)) [
  | inl down ↦ rw down (λ near. lowered_by p byte p_in, λ far. absurd (ground (arith, down, far)))
  | inr up ↦ rw up (
    λ near. absurd (ground (arith, up, near)),
    λ far. ap (λ n. pos (min (p + n) max_position)) (omega (arith, b_in)),
  )
]

-- A packet that begins with the always-set bit and reports no overflow moves a position that is not
-- negative by its two signed bytes: `x` by the first, `y` against the second, not below zero and not
-- above `i32::MAX`. The next packet begins after it, and the flag says whether a byte is not zero.
pub handle_bytes-packet :
    (first dx dy p q : ℕ) (m : Mouse)
    → m.packet_index ≡ 0
    → m.x ≡ pos p
    → m.y ≡ pos q
    → p ≤ 0x7FFFFFFF
    → q ≤ 0x7FFFFFFF
    → dx < 256
    → dy < 256
    → bit_and first 0x08 ≢ 0
    → bit_and first 0xC0 ≡ 0
    → let (moved, m') = handle_bytes (first ∷ dx ∷ dy ∷ []) m in
      (moved ≡ (not (dx == 0) || not (dy == 0)))
      × (dx < 128 → m'.x ≡ pos (min (p + dx) 0x7FFFFFFF))
      × (128 ≤ dx → m'.x ≡ pos (p - (256 - dx)))
      × (dy < 128 → m'.y ≡ pos (q - dy))
      × (128 ≤ dy → m'.y ≡ pos (min (q + (256 - dy)) 0x7FFFFFFF))
      × (m'.packet_index ≡ 0)
unfolding handle_bytes
handle_bytes-packet first dx dy p q m at left top p_in q_in dx_in dy_in sync fits =
    let one : Mouse = record m { packet = update m.packet 0 first; packet_index = 1 } in
    let two : Mouse = record one { packet = update one.packet 1 dx; packet_index = 2 } in
    let begins : handle_byte first m ≡ (false, one) =
      stored first m (omega (arith, at)) (rw at (==_of_ne (bit_and first 0x08) 0 sync))
      ∙ rw at refl in
    let goes_on : handle_byte dx one ≡ (false, two) = stored dx one (omega arith) refl in
    let ends = applied dy two refl fits in
    let across = moved_right p dx p_in dx_in in
    let along = moved_down q dy q_in dy_in in
    rw (begins, goes_on)
      (
        or_false _ ∙ ends.0,
        λ h. ends.1 ∙ rw left (across.0 h),
        λ h. ends.1 ∙ rw left (across.1 h),
        λ h. ends.2 ∙ rw top (along.0 h),
        λ h. ends.2 ∙ rw top (along.1 h),
        ends.3,
      )

-- Bytes without the always-set bit, which begin no packet, are dropped between packets.
pub handle_bytes-noise :
    (noise rest : List ℕ) (m : Mouse)
    → m.packet_index ≡ 0
    → IsNoise noise
    → handle_bytes (noise ++ rest) m ≡ handle_bytes rest m
unfolding handle_bytes handle_byte
handle_bytes-noise [] rest m at n = refl
handle_bytes-noise (byte ∷ noise) rest m at n =
    let dropped : handle_byte byte m ≡ (false, m) = rw (at, n.0) refl in
    rw dropped (handle_bytes-noise noise rest m at n.1)
