-- ===== src/Console/Isolation.antt =====
-- The terminals of kernel-core/src/console.rs do not get in each other's way.
use open_kernel.Prelude.{ℕ, ◌+◌, ◌-◌, ◌%◌, inl, inr, ltb, leb, Bool-cases, List}
use open_kernel.Console.{
  margin, background, character_width, line_height, Framebuffer, Consoles, set_tty_state,
  blit_if_active,
}
use open_kernel.Console.Terminals.{
  show_cursor, hide_cursor, user_console_write, user_console_clear, erase_before, backspace_at,
  user_console_backspace, blink, set_blink_ticks, tick_in, tick_tty,
}
use open_kernel.Console.Drawn.{
  IsSoundConsole, Drawn, Drawn-trans, Targets-Drawn, Draws, Draws-then, set_tty_state-Drawn,
}
use open_kernel.Console.Drawing.{fill-Draws}
use open_kernel.Console.Blits.{blit_if_active-Draws}
use open_kernel.Console.Calls.{
  show_cursor-Draws, hide_cursor-Draws, with_target-Drawn, clear_tty-Drawn,
  user_console_write-Drawn,
}

erase_before-Draws :
    (tty : ℕ) (target : Framebuffer) (x y : ℕ) → Draws tty target (erase_before tty target x y)
unfolding erase_before
erase_before-Draws tty target x y c t =
    Draws-then tty target _
      (λ c'. set_tty_state tty (record (c'.tty_states tty) { cursor_x = x - character_width }) c')
      (fill-Draws tty (x - character_width) y character_width line_height background target)
      (λ c' _. set_tty_state-Drawn tty _ c') c t

-- A character erased, and the cursor shown.
pub erased-Draws :
    (tty : ℕ) (target : Framebuffer) (x y : ℕ)
    → Draws tty target (λ c. show_cursor tty target (erase_before tty target x y c))
erased-Draws tty target x y =
    Draws-then tty target (erase_before tty target x y) (show_cursor tty target)
      (erase_before-Draws tty target x y) (show_cursor-Draws tty target)

pub user_console_backspace-Drawn :
    (tty : ℕ) (c : Consoles) → IsSoundConsole c → Drawn tty c (user_console_backspace tty c)
unfolding user_console_backspace backspace_at
user_console_backspace-Drawn tty c sound = with_target-Drawn tty c _ sound (λ target c t.
    let c' = hide_cursor tty target c in
    let x = (c'.tty_states tty).cursor_x in
    let y = (c'.tty_states tty).cursor_y in
    let d = hide_cursor-Draws tty target c t in
    let t' = Targets-Drawn tty target c c' t d in
    Drawn-trans tty c c' (backspace_at tty target x y c') d (elim (Bool-cases (leb x margin)) [
      | inl at_margin ↦ rw (at_margin, backspace_at) (show_cursor-Draws tty target c' t')
      | inr inside ↦
          rw (inside, backspace_at)
            (Draws-then tty target _ (blit_if_active tty target) (erased-Draws tty target x y)
              (blit_if_active-Draws tty target) c' t')
    ]))

blink-Draws : (tty : ℕ) (target : Framebuffer) → Draws tty target (blink tty target)
unfolding blink
blink-Draws tty target c t = elim (Bool-cases (c.tty_states tty).cursor_visible) [
  | inl on ↦ rw (on, blink) (hide_cursor-Draws tty target c t)
  | inr off ↦ rw (off, blink) (show_cursor-Draws tty target c t)
]

-- The blinking itself, which the copy to the screen follows.
pub blinked-Draws :
    (tty : ℕ) (target : Framebuffer)
    → Draws tty target (λ c. blink tty target (set_blink_ticks tty 0 c))
blinked-Draws tty target =
    Draws-then tty target (set_blink_ticks tty 0) (blink tty target)
      (λ c _. set_tty_state-Drawn tty _ c) (blink-Draws tty target)

pub tick_tty-Drawn : (tty : ℕ) (c : Consoles) → IsSoundConsole c → Drawn tty c (tick_tty tty c)
unfolding tick_tty tick_in
tick_tty-Drawn tty c sound = with_target-Drawn tty c (tick_in tty) sound (λ target c t.
    elim (Bool-cases (ltb (((c.tty_states tty).blink_ticks + 1) % 256) 50)) [
      | inl early ↦ rw (early, tick_in) (set_tty_state-Drawn tty _ c)
      | inr due ↦
          rw (due, tick_in)
            (Draws-then tty target _ (blit_if_active tty target) (blinked-Draws tty target)
              (blit_if_active-Draws tty target) c t)
    ])

-- The calls on one terminal.
pub data TerminalCall : Type 0 where
  call_write : List ℕ → TerminalCall
  call_clear call_backspace call_blink : TerminalCall

unfoldable pub terminal_call : ℕ → TerminalCall → Consoles → Consoles
terminal_call tty (call_write text) = user_console_write tty text
terminal_call tty call_clear = user_console_clear tty
terminal_call tty call_backspace = user_console_backspace tty
terminal_call tty call_blink = tick_tty tty

-- Terminals are isolated. Where the primary frame buffer is the screen, its rows are at least as long
-- as its pixels need (four bytes each), and it fits the terminals' buffers where they are used:
-- writing to a terminal, clearing it, a backspace and the blinking of its cursor change no other
-- terminal and no other's buffer, do not change the screen where every terminal has a buffer and another
-- one is active, and change no byte behind the terminal's buffer or the frame buffer of the screen.
pub terminal_call-Drawn :
    (tty : ℕ) (call : TerminalCall) (c : Consoles)
    → IsSoundConsole c
    → Drawn tty c (terminal_call tty call c)
unfolding terminal_call
terminal_call-Drawn tty (call_write text) c h = user_console_write-Drawn tty text c h
terminal_call-Drawn tty call_clear c h = clear_tty-Drawn tty c h
terminal_call-Drawn tty call_backspace c h = user_console_backspace-Drawn tty c h
terminal_call-Drawn tty call_blink c h = tick_tty-Drawn tty c h
