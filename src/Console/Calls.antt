-- ===== src/Console/Calls.antt =====
-- The calls of kernel-core/src/console.rs that draw on a terminal do no more than `Drawn` says.
use open_kernel.Prelude.{
  ℕ, ◌+◌, ◌-◌, ◌*◌, ◌^◌, inl, inr, Bool, true, false, not, ◌==◌, ltb, Bool-cases, none, some,
  Option-cases, List, [], ◌∷◌, bit_and,
}
use open_kernel.Console.{
  background, foreground, margin, scale, line_height, character_width, Framebuffer, Consoles, fill,
  set_tty_state, tty_target, blit_if_active,
}
use open_kernel.Console.Glyphs.{
  draw_row, draw_rows, draw_framebuffer_text, framebuffer_glyph, to_ascii_uppercase,
}
use open_kernel.Console.Terminals.{
  draw_cursor, set_visible, show_cursor, hide_cursor, set_cursor, clear_tty, newline, draw_byte,
  write_byte, write_bytes, user_console_write,
}
use open_kernel.Console.Drawn.{
  IsSoundConsole, Drawn, Drawn-refl, Draws, Draws-then, for_range-Draws, set_tty_state-Drawn,
}
use open_kernel.Console.Drawing.{fill-Draws}
use open_kernel.Console.Blits.{blit_if_active-Draws}

pub draw_row-Draws :
    (tty : ℕ) (target : Framebuffer) (bits x y size color : ℕ)
    → Draws tty target (draw_row target bits x y size color)
unfolding draw_row
draw_row-Draws tty target bits x y size color = for_range-Draws tty target 0 5 _ (λ i c t.
    elim (Bool-cases (not (bit_and bits (2 ^ (4 - i)) == 0))) [
      | inl set ↦ rw set (fill-Draws tty (x + i * size) y size size color target c t)
      | inr clear ↦ rw clear (Drawn-refl tty c)
    ])

pub draw_rows-Draws :
    (tty : ℕ) (target : Framebuffer) (rows : List ℕ) (x y size color : ℕ)
    → Draws tty target (draw_rows target rows x y size color)
unfolding draw_rows
draw_rows-Draws tty target [] x y size color = λ c _. Drawn-refl tty c
draw_rows-Draws tty target (bits ∷ rows) x y size color =
    Draws-then tty target (draw_row target bits x y size color)
      (draw_rows target rows x (y + size) size color)
      (draw_row-Draws tty target bits x y size color)
      (draw_rows-Draws tty target rows x (y + size) size color)

pub draw_framebuffer_text-Draws :
    (tty : ℕ) (target : Framebuffer) (text : List ℕ) (x y size color : ℕ)
    → Draws tty target (draw_framebuffer_text target text x y size color)
unfolding draw_framebuffer_text
draw_framebuffer_text-Draws tty target [] x y size color = λ c _. Drawn-refl tty c
draw_framebuffer_text-Draws tty target (byte ∷ text) x y size color =
    let glyph = framebuffer_glyph (to_ascii_uppercase byte) in
    Draws-then tty target (draw_rows target glyph x y size color)
      (draw_framebuffer_text target text (x + 6 * size) y size color)
      (draw_rows-Draws tty target glyph x y size color)
      (draw_framebuffer_text-Draws tty target text (x + 6 * size) y size color)

draw_cursor-Draws :
    (tty color : ℕ) (target : Framebuffer) → Draws tty target (draw_cursor tty target color)
unfolding draw_cursor
draw_cursor-Draws tty color target c t =
    fill-Draws tty (c.tty_states tty).cursor_x ((c.tty_states tty).cursor_y + (line_height - 2))
      character_width 2 color target c t

set_visible-Draws :
    (tty : ℕ) (visible : Bool) (target : Framebuffer) → Draws tty target (set_visible tty visible)
set_visible-Draws tty visible target c t = set_tty_state-Drawn tty _ c

pub show_cursor-Draws : (tty : ℕ) (target : Framebuffer) → Draws tty target (show_cursor tty target)
unfolding show_cursor
show_cursor-Draws tty target =
    Draws-then tty target (draw_cursor tty target foreground) (set_visible tty true)
      (draw_cursor-Draws tty foreground target) (set_visible-Draws tty true target)

pub hide_cursor-Draws : (tty : ℕ) (target : Framebuffer) → Draws tty target (hide_cursor tty target)
unfolding hide_cursor
hide_cursor-Draws tty target c t = elim (Bool-cases (c.tty_states tty).cursor_visible) [
  | inr hidden ↦ rw (hidden, hide_cursor) (Drawn-refl tty c)
  | inl visible ↦
      rw (visible, hide_cursor)
        (Draws-then tty target (draw_cursor tty target background) (set_visible tty false)
          (draw_cursor-Draws tty background target) (set_visible-Draws tty false target) c t)
]

-- A call that looks up its target, and draws into it, draws.
pub with_target-Drawn :
    (tty : ℕ) (c : Consoles) (step : Framebuffer → Consoles → Consoles)
    → IsSoundConsole c
    → ((target : Framebuffer) → Draws tty target (step target))
    → Drawn tty c (elim (tty_target tty c) [ none ↦ c | some target ↦ step target c ])
with_target-Drawn tty c step sound h = elim (Option-cases (tty_target tty c)) [
  | inl e ↦ rw e (Drawn-refl tty c)
  | inr (target, e) ↦ rw e (h target c (record { sound = sound; is_target = e }))
]

-- All of a clearing but its last step, the copy to the screen.
pub cleared-Draws :
    (tty : ℕ) (target : Framebuffer)
    → Draws tty target (λ c. show_cursor tty target (
        set_visible tty false
          (set_cursor tty margin margin (fill target 0 0 target.width target.height background c))))
cleared-Draws tty target =
    Draws-then tty target (fill target 0 0 target.width target.height background) _
      (fill-Draws tty 0 0 target.width target.height background target)
      (Draws-then tty target (λ c. set_visible tty false (set_cursor tty margin margin c)) _
        (Draws-then tty target (set_cursor tty margin margin) (set_visible tty false)
          (λ c _. set_tty_state-Drawn tty _ c) (set_visible-Draws tty false target))
        (show_cursor-Draws tty target))

pub clear_tty-Drawn : (tty : ℕ) (c : Consoles) → IsSoundConsole c → Drawn tty c (clear_tty tty c)
unfolding clear_tty
clear_tty-Drawn tty c sound = with_target-Drawn tty c _ sound (λ target.
    Draws-then tty target _ (blit_if_active tty target) (cleared-Draws tty target)
      (blit_if_active-Draws tty target))

newline-Draws : (tty : ℕ) (target : Framebuffer) → Draws tty target (newline tty target)
unfolding newline
newline-Draws tty target c t =
    elim (Bool-cases
      (ltb target.height ((c.tty_states tty).cursor_y + line_height + line_height))) [
        | inl full ↦ rw (full, newline) (clear_tty-Drawn tty c t.sound)
        | inr room ↦ rw (room, newline) (set_tty_state-Drawn tty _ c)
      ]

draw_byte-Draws :
    (tty : ℕ) (target : Framebuffer) (byte : ℕ) → Draws tty target (draw_byte tty target byte)
unfolding draw_byte
draw_byte-Draws tty target byte c t =
    let s = c.tty_states tty in
    Draws-then tty target
      (draw_framebuffer_text target (byte ∷ []) s.cursor_x s.cursor_y scale foreground)
      (λ c'.
        set_tty_state tty (record (c'.tty_states tty) { cursor_x = s.cursor_x + character_width })
          c')
      (draw_framebuffer_text-Draws tty target (byte ∷ []) s.cursor_x s.cursor_y scale foreground)
      (λ c' _. set_tty_state-Drawn tty _ c') c t

write_byte-Draws :
    (tty : ℕ) (target : Framebuffer) (byte : ℕ) → Draws tty target (write_byte tty target byte)
unfolding write_byte
write_byte-Draws tty target byte c t = elim (Bool-cases (byte == 13)) [
  | inl return ↦ rw (return, write_byte) (Drawn-refl tty c)
  | inr other ↦ elim (Bool-cases (byte == 10)) [
    | inl feed ↦ rw (other, feed, write_byte) (newline-Draws tty target c t)
    | inr text ↦
        elim (Bool-cases (ltb target.width ((c.tty_states tty).cursor_x + character_width))) [
          | inl full ↦
              rw (other, text, full, write_byte)
                (Draws-then tty target (newline tty target) (draw_byte tty target byte)
                  (newline-Draws tty target) (draw_byte-Draws tty target byte) c t)
          | inr room ↦ rw (other, text, room, write_byte) (draw_byte-Draws tty target byte c t)
        ]
  ]
]

write_bytes-Draws :
    (tty : ℕ) (target : Framebuffer) (text : List ℕ)
    → Draws tty target (write_bytes tty target text)
unfolding write_bytes
write_bytes-Draws tty target [] = λ c _. Drawn-refl tty c
write_bytes-Draws tty target (byte ∷ text) =
    Draws-then tty target (write_byte tty target byte) (write_bytes tty target text)
      (write_byte-Draws tty target byte) (write_bytes-Draws tty target text)

-- All of a write but its last step, the copy to the screen.
pub written-Draws :
    (tty : ℕ) (text : List ℕ) (target : Framebuffer)
    → Draws tty target
        (λ c. show_cursor tty target (write_bytes tty target text (hide_cursor tty target c)))
written-Draws tty text target =
    Draws-then tty target (hide_cursor tty target)
      (λ c. show_cursor tty target (write_bytes tty target text c)) (hide_cursor-Draws tty target)
      (Draws-then tty target (write_bytes tty target text) (show_cursor tty target)
        (write_bytes-Draws tty target text) (show_cursor-Draws tty target))

pub user_console_write-Drawn :
    (tty : ℕ) (text : List ℕ) (c : Consoles)
    → IsSoundConsole c
    → Drawn tty c (user_console_write tty text c)
unfolding user_console_write
user_console_write-Drawn tty text c sound = with_target-Drawn tty c _ sound (λ target.
    Draws-then tty target _ (blit_if_active tty target) (written-Draws tty text target)
      (blit_if_active-Draws tty target))
