-- ===== src/Console/Tests.antt =====
-- Small pictures, keys, and the theorems of the console at concrete inputs.
use open_kernel.Prelude.{
  subst, ◌≤◌, copy_from, ◌+◌, ◌*◌, ◌≡◌, refl, true, some, List, [], ◌∷◌, arith,
}
use open_kernel.Console.{
  on_screen, Framebuffer, Consoles, boot_consoles, empty_tty, tty_target, framebuffer_pixel,
}
use open_kernel.Console.Keys.{decode_scancode, handle_scancode}
use open_kernel.Console.Terminals.{user_console_backspace, user_console_write}
use open_kernel.Console.Drawn.{IsSoundConsole, Drawn}
use open_kernel.Console.Isolation.{call_write, call_clear, terminal_call, terminal_call-Drawn}
use open_kernel.Console.Pressed.{Pressed, handle_scancode-Pressed}
use open_kernel.Console.Mirrors.{IsMirrored}
use open_kernel.Console.Runs.{
  ConsoleCall, on_terminal, call_tick, call_scancode, call_poll, console_calls,
  console_calls-IsMirrored,
}
use open_kernel.Console.Terminals.{enable_user_console}

abbrev vga : Framebuffer
vga = record { address = on_screen; width = 640; height = 480; pitch = 2560; bits_per_pixel = 32 }

-- Terminals with buffers, nothing drawn.
abbrev blank : Consoles
blank = record (boot_consoles (λ _. 0)) { primary_framebuffer = some vga; multi_tty_enabled = true }

blank-IsSound : IsSoundConsole blank
blank-IsSound = record {
  address = λ f e. let same : vga ≡ f = cc in subst (λ g. g.address ≡ on_screen) same refl;
  rows = λ f e. let same : vga ≡ f = cc in subst (λ g. g.width * 4 ≤ g.pitch) same (omega arith);
  fits = λ f e on.
      let same : vga ≡ f = cc in
      subst (λ g. (g.width ≤ 1280) × (g.height ≤ 800)) same (omega arith, omega arith);
}

terminal_call_example : Drawn 1 blank (terminal_call 1 (call_write (104 ∷ 105 ∷ 10 ∷ [])) blank)
terminal_call_example = terminal_call-Drawn 1 (call_write (104 ∷ 105 ∷ 10 ∷ [])) blank blank-IsSound

-- The key `a`.
key_example : Pressed 0x1E blank (handle_scancode 0x1E blank)
key_example = handle_scancode-Pressed 0x1E blank (omega arith) refl (omega arith) (omega arith) refl

-- A word is written, terminal 1 is chosen with Alt and F2, and its key is polled.
abbrev session : List ConsoleCall
session =
    on_terminal 0 (call_write (104 ∷ 105 ∷ []))
    ∷ call_scancode 0x38
    ∷ call_scancode 0x3C
    ∷ call_scancode 0xB8
    ∷ on_terminal 1 (call_write (62 ∷ []))
    ∷ call_tick
    ∷ call_scancode 0x1E
    ∷ call_poll 1
    ∷ on_terminal 1 call_clear
    ∷ []

session_example :
    IsMirrored (console_calls session (enable_user_console vga (boot_consoles (λ _. 0))))
session_example =
    console_calls-IsMirrored session vga (λ _. 0) refl (omega arith)
      (tt, (tt, (tt, (tt, (tt, (tt, (tt, (tt, (tt, tt)))))))))

-- The key 0 decodes to `:`, which follows `9`.
zero_key : decode_scancode 0x0B ≡ some 58
unfolding decode_scancode
zero_key = refl

-- At the left margin a backspace shows a cursor that was hidden, in the buffer and not on the screen.
cursor_in_buffer : (user_console_backspace 0 blank).tty_buffers 0 (46 * 2560 + 32 * 4) ≡ 255
unfolding user_console_backspace open_kernel.Console.Terminals.backspace_at
    open_kernel.Console.Terminals.show_cursor open_kernel.Console.Terminals.hide_cursor
    open_kernel.Console.Terminals.draw_cursor open_kernel.Console.fill open_kernel.Console.for_range
    open_kernel.Console.put_framebuffer_pixel framebuffer_pixel open_kernel.Console.set_bytes_at
    open_kernel.Console.bytes_at open_kernel.Console.tty_target open_kernel.Console.target_of
    copy_from
cursor_in_buffer = refl

cursor_not_on_screen : (user_console_backspace 0 blank).screen (46 * 2560 + 32 * 4) ≡ 0
unfolding user_console_backspace open_kernel.Console.Terminals.backspace_at
    open_kernel.Console.Terminals.show_cursor open_kernel.Console.Terminals.hide_cursor
    open_kernel.Console.Terminals.draw_cursor open_kernel.Console.fill open_kernel.Console.for_range
    open_kernel.Console.put_framebuffer_pixel framebuffer_pixel open_kernel.Console.set_bytes_at
    open_kernel.Console.bytes_at open_kernel.Console.tty_target open_kernel.Console.target_of
    copy_from
cursor_not_on_screen = refl

-- The letter `l` has its upper left pixel.
written_pixel : (user_console_write 1 (108 ∷ []) blank).tty_buffers 1 (32 * 2560 + 32 * 4) ≡ 255
unfolding user_console_write open_kernel.Console.Terminals.show_cursor
    open_kernel.Console.Terminals.hide_cursor open_kernel.Console.Terminals.draw_cursor
    open_kernel.Console.fill open_kernel.Console.for_range open_kernel.Console.put_framebuffer_pixel
    framebuffer_pixel open_kernel.Console.set_bytes_at open_kernel.Console.bytes_at
    open_kernel.Console.tty_target open_kernel.Console.target_of copy_from
    open_kernel.Console.blit_if_active open_kernel.Console.Terminals.write_bytes
    open_kernel.Console.Terminals.write_byte open_kernel.Console.Terminals.draw_byte
    open_kernel.Console.Glyphs.draw_framebuffer_text open_kernel.Console.Glyphs.draw_rows
    open_kernel.Console.Glyphs.draw_row open_kernel.Console.Glyphs.framebuffer_glyph
written_pixel = refl

-- With 24 bits for a pixel, the last one is written past the end of the frame buffer.
past_the_end :
    framebuffer_pixel
      (record { address = on_screen; width = 64; height = 48; pitch = 192; bits_per_pixel = 24 })
      63
      47
    ≡ some (48 * 192 + 60)
unfolding framebuffer_pixel
past_the_end = refl
