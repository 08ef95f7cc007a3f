-- ===== src/Console/Runs.antt =====
-- The screen shows the active terminal after every run of calls of kernel-core/src/console.rs.
use open_kernel.Prelude.{
  ℕ, ◌*◌, ◌≤◌, ◌<◌, ◌≡◌, refl, sym, subst, ◌&&◌, ◌==◌, leb, some, List, [], ◌∷◌, arith,
}
use open_kernel.Console.{
  margin, tty_count, max_tty_width, max_tty_height, on_screen, Framebuffer, Consoles, boot_consoles,
  for_range,
}
use open_kernel.Console.Keys.{poll_user_key, handle_scancode}
use open_kernel.Console.Terminals.{clear_tty, user_console_tick, enable_user_console}
use open_kernel.Console.Drawn.{IsSoundConsole}
use open_kernel.Console.Calls.{cleared-Draws}
use open_kernel.Console.Isolation.{
  TerminalCall, call_write, call_clear, call_backspace, call_blink, terminal_call,
}
use open_kernel.Console.Mirrors.{IsMirrored, Shows, drawn_active}
use open_kernel.Console.Screens.{
  with_target, no_target-Shows, write-IsMirrored, clear-IsMirrored, tick_tty-IsMirrored,
  backspace-IsMirrored, handle_scancode-IsMirrored, poll_user_key-IsMirrored,
}

-- The first terminal is cleared, and shown if it is active.
first_clear-IsMirrored :
    (c : Consoles) → IsSoundConsole c → c.active_tty ≡ 0 → IsMirrored (clear_tty 0 c)
unfolding clear_tty
first_clear-IsMirrored c sound at =
    let lt : c.active_tty < tty_count = rw at (omega arith) in
    with_target IsMirrored 0 c _
      (λ e. record {
        sound = sound;
        active_inside = lt;
        shows = subst (λ t. Shows t c) (sym at) (no_target-Shows 0 c refl e);
      })
      (λ target e.
        drawn_active 0 target _ c (cleared-Draws 0 target) (record { sound = sound; is_target = e })
          (sym at) lt)

enable-IsMirrored :
    (f : Framebuffer) (pixels : ℕ → ℕ)
    → f.address ≡ on_screen
    → f.width * 4 ≤ f.pitch
    → IsMirrored (enable_user_console f (boot_consoles pixels))
unfolding enable_user_console for_range
enable-IsMirrored f pixels at wide =
    let b = boot_consoles pixels in
    let multi =
      f.bits_per_pixel == 32 && leb f.width max_tty_width && leb f.height max_tty_height in
    let c = record (b) { primary_framebuffer = some f; multi_tty_enabled = multi } in
    let sound : IsSoundConsole c = record {
      address = λ g e. let same : f ≡ g = cc in subst (λ g. g.address ≡ on_screen) same at;
      rows = λ g e. let same : f ≡ g = cc in subst (λ g. g.width * 4 ≤ g.pitch) same wide;
      fits = λ g e on.
          let same : f ≡ g = cc in
          subst (λ g. (g.width ≤ max_tty_width) × (g.height ≤ max_tty_height)) same
            (ground (arith, on), ground (arith, on));
    } in
    clear-IsMirrored 2 _ (clear-IsMirrored 1 _ (first_clear-IsMirrored c sound refl))

-- The calls on the consoles; a tick is one call on each terminal.
pub data ConsoleCall : Type 0 where
  on_terminal : ℕ → TerminalCall → ConsoleCall
  call_tick : ConsoleCall
  call_scancode call_poll : ℕ → ConsoleCall

unfoldable pub console_call : ConsoleCall → Consoles → Consoles
console_call (on_terminal tty call) c = terminal_call tty call c
console_call call_tick c = user_console_tick c
console_call (call_scancode byte) c = handle_scancode byte c
console_call (call_poll tty) c = (poll_user_key tty c).1

unfoldable pub console_calls : List ConsoleCall → Consoles → Consoles
console_calls [] c = c
console_calls (call ∷ rest) c = console_calls rest (console_call call c)

-- No backspace at the left margin.
abbrev pub Allowed : ConsoleCall → Consoles → Type 0
Allowed (on_terminal tty call_backspace) c = margin < (c.tty_states tty).cursor_x
Allowed (on_terminal tty (call_write text)) c = Unit
Allowed (on_terminal tty call_clear) c = Unit
Allowed (on_terminal tty call_blink) c = Unit
Allowed call_tick c = Unit
Allowed (call_scancode byte) c = Unit
Allowed (call_poll tty) c = Unit

abbrev pub AllowedCalls : List ConsoleCall → Consoles → Type 0
AllowedCalls [] c = Unit
AllowedCalls (call ∷ rest) c = Allowed call c × AllowedCalls rest (console_call call c)

console_call-IsMirrored :
    (call : ConsoleCall) (c : Consoles)
    → Allowed call c
    → IsMirrored c
    → IsMirrored (console_call call c)
unfolding console_call terminal_call user_console_tick for_range
console_call-IsMirrored (on_terminal tty (call_write text)) c a h = write-IsMirrored tty text c h
console_call-IsMirrored (on_terminal tty call_clear) c a h = clear-IsMirrored tty c h
console_call-IsMirrored (on_terminal tty call_backspace) c a h = backspace-IsMirrored tty c a h
console_call-IsMirrored (on_terminal tty call_blink) c a h = tick_tty-IsMirrored tty c h
console_call-IsMirrored call_tick c a h =
    tick_tty-IsMirrored 2 _ (tick_tty-IsMirrored 1 _ (tick_tty-IsMirrored 0 c h))
console_call-IsMirrored (call_scancode byte) c a h = handle_scancode-IsMirrored byte c h
console_call-IsMirrored (call_poll tty) c a h = poll_user_key-IsMirrored tty c h

calls-IsMirrored :
    (calls : List ConsoleCall) (c : Consoles)
    → AllowedCalls calls c
    → IsMirrored c
    → IsMirrored (console_calls calls c)
unfolding console_calls
calls-IsMirrored [] c a h = h
calls-IsMirrored (call ∷ rest) c a h =
    calls-IsMirrored rest (console_call call c) a.1 (console_call-IsMirrored call c a.0 h)

-- Where every terminal has a buffer of its own, the screen shows the active terminal, byte by byte,
-- after every run of calls from the start of the consoles on a frame buffer of the screen, whose rows
-- are at least as long as its pixels need: writing, clearing, erasing, blinking, keys and the switch of
-- terminals, without a backspace at the left margin.
pub console_calls-IsMirrored :
    (calls : List ConsoleCall) (f : Framebuffer) (pixels : ℕ → ℕ)
    → f.address ≡ on_screen
    → f.width * 4 ≤ f.pitch
    → AllowedCalls calls (enable_user_console f (boot_consoles pixels))
    → IsMirrored (console_calls calls (enable_user_console f (boot_consoles pixels)))
console_calls-IsMirrored calls f pixels at wide allowed =
    calls-IsMirrored calls (enable_user_console f (boot_consoles pixels)) allowed
      (enable-IsMirrored f pixels at wide)
