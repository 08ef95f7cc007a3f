-- ===== src/Mouse.antt =====
-- kernel-core/src/mouse.rs: the packets of the PS/2 mouse. The statics are one record. `X` and `Y`
-- are signed integers, which the operations of Mouse/Ints.antt keep in 32 bits. The commands to the
-- device and the polling of its ports are hardware.
pub mod Ints
pub mod Packets
mod Tests
use open_kernel.Prelude.{
  ℕ, ◌+◌, ◌-◌, ◌^◌, min, Bool, true, false, not, ◌&&◌, ◌||◌, if◌then◌else◌, ◌==◌, ltb, List, [],
  ◌∷◌, update, bit_and,
}
use open_kernel.Mouse.Ints.{ℤ, pos, delta, saturating_add_i32, saturating_sub_i32, max_zero}

pub record Mouse : Type 0 where
  pub x : ℤ
  pub y : ℤ
  pub packet : ℕ → ℕ
  pub packet_index : ℕ

-- The statics as the kernel starts.
abbrev pub boot_mouse : Mouse
boot_mouse = record { x = pos 64; y = pos 64; packet = λ _. 0; packet_index = 0 }

unfoldable pub handle_byte : ℕ → Mouse → Bool × Mouse
handle_byte byte m =
    if m.packet_index == 0 && bit_and byte 0x08 == 0
    then (false, m)
    else (let packet = update m.packet m.packet_index byte in
        if not (m.packet_index + 1 == 3)
        then (false, record m { packet = packet; packet_index = m.packet_index + 1 })
        else if not (bit_and (packet 0) 0xC0 == 0)
        then (false, record m { packet = packet; packet_index = 0 })
        else (
          not (packet 1 == 0) || not (packet 2 == 0),
          record {
            x = max_zero (saturating_add_i32 m.x (delta (packet 1)));
            y = max_zero (saturating_sub_i32 m.y (delta (packet 2)));
            packet = packet;
            packet_index = 0;
          },
        ))

-- Bytes of the device, one after the other; the flag says whether one of them moved the position.
unfoldable pub handle_bytes : List ℕ → Mouse → Bool × Mouse
handle_bytes [] m = (false, m)
handle_bytes (byte ∷ rest) m =
    let (moved, m') = handle_byte byte m in
    let (later, m'') = handle_bytes rest m' in (moved || later, m'')
