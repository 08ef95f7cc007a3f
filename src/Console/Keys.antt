-- ===== src/Console/Keys.antt =====
-- The keyboard of kernel-core/src/console.rs: scancodes, and the terminal that gets a key.
use open_kernel.Prelude.{
  ℕ, ◌+◌, ◌-◌, Bool, true, false, not, ◌&&◌, if◌then◌else◌, ◌==◌, ltb, leb, Option, none, some,
  List, [], ◌∷◌, bit_and,
}
use open_kernel.Console.{Consoles, tty_count, set_tty_state, tty_target, blit_to_primary}

abbrev pub scancode_alt_make : ℕ
scancode_alt_make = 0x38

abbrev pub scancode_alt_break : ℕ
scancode_alt_break = 0xB8

abbrev pub scancode_f1 : ℕ
scancode_f1 = 0x3B

abbrev key_of : List (ℕ × ℕ) → ℕ → Option ℕ
key_of [] scancode = none
key_of ((key, byte) ∷ rest) scancode =
    let later = key_of rest scancode in if scancode == key then some byte else later

abbrev keys : List (ℕ × ℕ)
keys =
    (0x0E, 8)
    ∷ (0x0F, 9)
    ∷ (0x10, 113)
    ∷ (0x11, 119)
    ∷ (0x12, 101)
    ∷ (0x13, 114)
    ∷ (0x14, 116)
    ∷ (0x15, 121)
    ∷ (0x16, 117)
    ∷ (0x17, 105)
    ∷ (0x18, 111)
    ∷ (0x19, 112)
    ∷ (0x1C, 10)
    ∷ (0x1E, 97)
    ∷ (0x1F, 115)
    ∷ (0x20, 100)
    ∷ (0x21, 102)
    ∷ (0x22, 103)
    ∷ (0x23, 104)
    ∷ (0x24, 106)
    ∷ (0x25, 107)
    ∷ (0x26, 108)
    ∷ (0x2C, 122)
    ∷ (0x2D, 120)
    ∷ (0x2E, 99)
    ∷ (0x2F, 118)
    ∷ (0x30, 98)
    ∷ (0x31, 110)
    ∷ (0x32, 109)
    ∷ (0x39, 32)
    ∷ []

unfoldable pub decode_scancode : ℕ → Option ℕ
decode_scancode scancode =
    if not (bit_and scancode 0x80 == 0)
    then none
    else if leb 0x02 scancode && leb scancode 0x0B
    then some (49 + scancode - 0x02)
    else key_of keys scancode

-- `value` is the pending key, which the call takes.
unfoldable pub poll_user_key : ℕ → Consoles → Option ℕ × Consoles
poll_user_key tty c =
    if leb tty_count tty
    then (none, c)
    else (let value = (c.tty_states tty).pending_key in
        let c' = set_tty_state tty (record (c.tty_states tty) { pending_key = 0 }) c in
        if value == 0 then (none, c') else (decode_scancode value, c'))

unfoldable pub switch_tty : ℕ → Consoles → Consoles
switch_tty tty c =
    if leb tty_count tty
    then c
    else (let c' = record (c) { active_tty = tty } in
        elim (tty_target tty c') [ none ↦ c' | some target ↦ blit_to_primary target c' ])

-- `ALT_HELD && (SCANCODE_F1..SCANCODE_F1 + TTY_COUNT).contains(&byte)`
abbrev pub is_switch : ℕ → Consoles → Bool
is_switch byte c = c.alt_held && leb scancode_f1 byte && ltb byte (scancode_f1 + tty_count)

unfoldable pub handle_scancode : ℕ → Consoles → Consoles
handle_scancode byte c =
    if byte == scancode_alt_make
    then record (c) { alt_held = true }
    else if byte == scancode_alt_break
    then record (c) { alt_held = false }
    else if is_switch byte c
    then switch_tty (byte - scancode_f1) c
    else if bit_and byte 0x80 == 0
    then set_tty_state c.active_tty (record (c.tty_states c.active_tty) { pending_key = byte }) c
    else c
