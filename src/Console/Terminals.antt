-- ===== src/Console/Terminals.antt =====
-- The terminals of kernel-core/src/console.rs: the cursor, and the calls that draw.
use open_kernel.Prelude.{
  ℕ, ◌+◌, ◌-◌, ◌%◌, Bool, true, false, not, ◌&&◌, if◌then◌else◌, ◌==◌, ltb, leb, none, some, List,
  [], ◌∷◌,
}
use open_kernel.Console.{
  background, foreground, margin, scale, line_height, character_width, tty_count, max_tty_width,
  max_tty_height, Framebuffer, Consoles, for_range, fill, set_tty_state, tty_target, blit_if_active,
}
use open_kernel.Console.Glyphs.{draw_framebuffer_text}

-- The two lowest rows of the character at the cursor.
unfoldable pub draw_cursor : ℕ → Framebuffer → ℕ → Consoles → Consoles
draw_cursor tty target color c =
    let s = c.tty_states tty in
    fill target s.cursor_x (s.cursor_y + (line_height - 2)) character_width 2 color c

abbrev pub set_visible : ℕ → Bool → Consoles → Consoles
set_visible tty visible c =
    set_tty_state tty (record (c.tty_states tty) { cursor_visible = visible }) c

unfoldable pub show_cursor : ℕ → Framebuffer → Consoles → Consoles
show_cursor tty target c = set_visible tty true (draw_cursor tty target foreground c)

unfoldable pub hide_cursor : ℕ → Framebuffer → Consoles → Consoles
hide_cursor tty target c =
    if not (c.tty_states tty).cursor_visible
    then c
    else set_visible tty false (draw_cursor tty target background c)

abbrev pub set_cursor : ℕ → ℕ → ℕ → Consoles → Consoles
set_cursor tty x y c =
    set_tty_state tty (record (c.tty_states tty) { cursor_x = x; cursor_y = y }) c

unfoldable pub clear_tty : ℕ → Consoles → Consoles
clear_tty tty c = elim (tty_target tty c) [
  | none ↦ c
  | some target ↦
      let c1 = fill target 0 0 target.width target.height background c in
      let c2 = set_visible tty false (set_cursor tty margin margin c1) in
      blit_if_active tty target (show_cursor tty target c2)
]

abbrev pub user_console_clear : ℕ → Consoles → Consoles
user_console_clear tty = clear_tty tty

unfoldable pub newline : ℕ → Framebuffer → Consoles → Consoles
newline tty target c =
    let next_y = (c.tty_states tty).cursor_y + line_height in
    if ltb target.height (next_y + line_height)
    then clear_tty tty c
    else set_cursor tty margin next_y c

-- A byte that is neither `\r` nor `\n`, where the line has room for it.
unfoldable pub draw_byte : ℕ → Framebuffer → ℕ → Consoles → Consoles
draw_byte tty target byte c =
    let x = (c.tty_states tty).cursor_x in
    let y = (c.tty_states tty).cursor_y in
    let c' = draw_framebuffer_text target (byte ∷ []) x y scale foreground c in
    set_tty_state tty (record (c'.tty_states tty) { cursor_x = x + character_width }) c'

unfoldable pub write_byte : ℕ → Framebuffer → ℕ → Consoles → Consoles
write_byte tty target byte c =
    if byte == 13
    then c
    else if byte == 10
    then newline tty target c
    else if ltb target.width ((c.tty_states tty).cursor_x + character_width)
    then draw_byte tty target byte (newline tty target c)
    else draw_byte tty target byte c

unfoldable pub write_bytes : ℕ → Framebuffer → List ℕ → Consoles → Consoles
write_bytes tty target [] c = c
write_bytes tty target (byte ∷ text) c = write_bytes tty target text (write_byte tty target byte c)

unfoldable pub user_console_write : ℕ → List ℕ → Consoles → Consoles
user_console_write tty text c = elim (tty_target tty c) [
  | none ↦ c
  | some target ↦
      blit_if_active tty target
        (show_cursor tty target (write_bytes tty target text (hide_cursor tty target c)))
]

-- The character that ends at `x` is painted over, and the cursor moves to it.
unfoldable pub erase_before : ℕ → Framebuffer → ℕ → ℕ → Consoles → Consoles
erase_before tty target x y c =
    let previous_x = x - character_width in
    let c' = fill target previous_x y character_width line_height background c in
    set_tty_state tty (record (c'.tty_states tty) { cursor_x = previous_x }) c'

-- A backspace with the cursor at `x`, `y`, after the cursor is hidden.
unfoldable pub backspace_at : ℕ → Framebuffer → ℕ → ℕ → Consoles → Consoles
backspace_at tty target x y c =
    if leb x margin
    then show_cursor tty target c
    else blit_if_active tty target (show_cursor tty target (erase_before tty target x y c))

unfoldable pub user_console_backspace : ℕ → Consoles → Consoles
user_console_backspace tty c = elim (tty_target tty c) [
  | none ↦ c
  | some target ↦
      let c' = hide_cursor tty target c in
      backspace_at tty target (c'.tty_states tty).cursor_x (c'.tty_states tty).cursor_y c'
]

-- The cursor of a terminal is hidden or shown.
unfoldable pub blink : ℕ → Framebuffer → Consoles → Consoles
blink tty target c =
    if (c.tty_states tty).cursor_visible then hide_cursor tty target c else show_cursor tty target c

abbrev pub set_blink_ticks : ℕ → ℕ → Consoles → Consoles
set_blink_ticks tty ticks c =
    set_tty_state tty (record (c.tty_states tty) { blink_ticks = ticks }) c

unfoldable pub tick_in : ℕ → Framebuffer → Consoles → Consoles
tick_in tty target c =
    let ticks = ((c.tty_states tty).blink_ticks + 1) % 256 in
    if ltb ticks 50
    then set_blink_ticks tty ticks c
    else blit_if_active tty target (blink tty target (set_blink_ticks tty 0 c))

-- The body of the loop of `user_console_tick`.
unfoldable pub tick_tty : ℕ → Consoles → Consoles
tick_tty tty c = elim (tty_target tty c) [ none ↦ c | some target ↦ tick_in tty target c ]

unfoldable pub user_console_tick : Consoles → Consoles
user_console_tick = for_range 0 tty_count tick_tty

unfoldable pub enable_user_console : Framebuffer → Consoles → Consoles
enable_user_console f c = for_range 0 tty_count clear_tty (record (c) {
  primary_framebuffer = some f;
  multi_tty_enabled =
      f.bits_per_pixel == 32 && leb f.width max_tty_width && leb f.height max_tty_height;
})
