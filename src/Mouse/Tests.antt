-- ===== src/Mouse/Tests.antt =====
-- Packets of kernel-core/src/mouse.rs.
use open_kernel.Prelude.{◌≡◌, ◌<◌, ◌≤◌, ◌+◌, ◌-◌, min, refl, [], ◌∷◌, not, ◌||◌, ◌==◌, arith}
use open_kernel.Mouse.{boot_mouse, handle_byte, handle_bytes}
use open_kernel.Mouse.Ints.{pos}
use open_kernel.Mouse.Packets.{IsOnScreen, handle_bytes-IsOnScreen, handle_bytes-packet}

boot-IsOnScreen : IsOnScreen boot_mouse
boot-IsOnScreen = record {
  index_in = omega arith;
  x_in = (64, refl, omega arith);
  y_in = (64, refl, omega arith);
}

-- Five to the right and three down.
handle_bytes-packet_example :
    let (moved, m') = handle_bytes (0x28 ∷ 5 ∷ 253 ∷ []) boot_mouse in
    (moved ≡ (not (5 == 0) || not (253 == 0)))
    × (5 < 128 → m'.x ≡ pos (min (64 + 5) 0x7FFFFFFF))
    × (128 ≤ 5 → m'.x ≡ pos (64 - (256 - 5)))
    × (253 < 128 → m'.y ≡ pos (64 - 253))
    × (128 ≤ 253 → m'.y ≡ pos (min (64 + (256 - 253)) 0x7FFFFFFF))
    × (m'.packet_index ≡ 0)
handle_bytes-packet_example =
    handle_bytes-packet 0x28 5 253 64 64 boot_mouse refl refl refl (omega arith) (omega arith)
      (omega arith) (omega arith) (λ e. absurd (omega (arith, e))) refl

-- A packet far to the left and up ends at the left edge.
corner :
    ((handle_bytes (0x38 ∷ 128 ∷ 100 ∷ []) boot_mouse).1.x ≡ pos 0)
    × ((handle_bytes (0x38 ∷ 128 ∷ 100 ∷ []) boot_mouse).1.y ≡ pos 0)
unfolding handle_bytes handle_byte
corner = (refl, refl)

handle_bytes-IsOnScreen_example : IsOnScreen (handle_bytes (0x38 ∷ 128 ∷ 127 ∷ 9 ∷ []) boot_mouse).1
handle_bytes-IsOnScreen_example =
    handle_bytes-IsOnScreen (0x38 ∷ 128 ∷ 127 ∷ 9 ∷ []) boot_mouse boot-IsOnScreen
