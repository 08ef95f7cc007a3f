-- ===== src/Console/Screens.antt =====
-- Each call of kernel-core/src/console.rs leaves the active terminal on the screen.
use open_kernel.Prelude.{
  ℕ, ◌+◌, ◌-◌, ◌%◌, ◌<◌, ◌≡◌, inl, inr, refl, sym, ◌∙◌, subst, false, ◌==◌, ltb, leb, Bool-cases,
  none, some, Option-cases, List, arith, bit_and,
}
use open_kernel.Console.{
  margin, tty_count, Framebuffer, Consoles, target_of, tty_target, blit_to_primary,
}
use open_kernel.Console.Keys.{
  scancode_alt_make, scancode_alt_break, scancode_f1, poll_user_key, switch_tty, is_switch,
  handle_scancode,
}
use open_kernel.Console.Terminals.{
  show_cursor, hide_cursor, clear_tty, user_console_write, user_console_backspace, erase_before,
  backspace_at, blink, set_blink_ticks, tick_in, tick_tty,
}
use open_kernel.Console.Drawn.{IsSoundConsole, Drawn-IsSound, Targets, Draws-then}
use open_kernel.Console.Drawing.{buffer_of}
use open_kernel.Console.Blits.{blit_to_primary-Drawn}
use open_kernel.Console.Calls.{cleared-Draws, written-Draws, hide_cursor-Draws}
use open_kernel.Console.Isolation.{erased-Draws, blinked-Draws}
use open_kernel.Console.Mirrors.{
  IsMirrored, Shows, same_picture, blit_to_primary-Shows, drawn-IsMirrored,
}
use open_kernel.Console.Cursors.{hide_cursor-cursor}

-- What holds where there is no target, and after the step where there is one, holds after a call that
-- looks it up.
pub with_target :
    (P : Consoles → Type 0) (tty : ℕ) (c : Consoles) (step : Framebuffer → Consoles)
    → (tty_target tty c ≡ none → P c)
    → ((target : Framebuffer) → tty_target tty c ≡ some target → P (step target))
    → P (elim (tty_target tty c) [ none ↦ c | some target ↦ step target ])
with_target P tty c step without h = elim (Option-cases (tty_target tty c)) [
  | inl e ↦ rw e (without e)
  | inr (target, e) ↦ rw e (h target e)
]

pub write-IsMirrored :
    (tty : ℕ) (text : List ℕ) (c : Consoles)
    → IsMirrored c
    → IsMirrored (user_console_write tty text c)
unfolding user_console_write
write-IsMirrored tty text c h =
    with_target IsMirrored tty c _ (λ _. h)
      (λ target e. drawn-IsMirrored tty target _ c (written-Draws tty text target) e h)

pub clear-IsMirrored : (tty : ℕ) (c : Consoles) → IsMirrored c → IsMirrored (clear_tty tty c)
unfolding clear_tty
clear-IsMirrored tty c h =
    with_target IsMirrored tty c _ (λ _. h)
      (λ target e. drawn-IsMirrored tty target _ c (cleared-Draws tty target) e h)

pub tick_tty-IsMirrored : (tty : ℕ) (c : Consoles) → IsMirrored c → IsMirrored (tick_tty tty c)
unfolding tick_tty tick_in
tick_tty-IsMirrored tty c h =
    with_target IsMirrored tty c (λ target. tick_in tty target c) (λ _. h)
      (λ target e. elim (Bool-cases (ltb (((c.tty_states tty).blink_ticks + 1) % 256) 50)) [
        | inl early ↦ rw (early, tick_in) (same_picture c _ refl refl refl refl refl h)
        | inr due ↦
            rw (due, tick_in)
              (drawn-IsMirrored tty target (λ c. blink tty target (set_blink_ticks tty 0 c)) c
                (blinked-Draws tty target) e h)
      ])

pub backspace-IsMirrored :
    (tty : ℕ) (c : Consoles)
    → margin < (c.tty_states tty).cursor_x
    → IsMirrored c
    → IsMirrored (user_console_backspace tty c)
unfolding user_console_backspace backspace_at
backspace-IsMirrored tty c inside h =
    with_target IsMirrored tty c
      (λ target.
        let c' = hide_cursor tty target c in
        backspace_at tty target (c'.tty_states tty).cursor_x (c'.tty_states tty).cursor_y c')
      (λ _. h)
      (λ target e.
        let c' = hide_cursor tty target c in
        let x = (c'.tty_states tty).cursor_x in
        let y = (c'.tty_states tty).cursor_y in
        let no : leb x margin ≡ false =
          rw (hide_cursor-cursor tty target c) (ground (arith, inside)) in
        rw (no, backspace_at)
          (drawn-IsMirrored tty target
            (λ c. show_cursor tty target (erase_before tty target x y (hide_cursor tty target c))) c
            (Draws-then tty target (hide_cursor tty target) _ (hide_cursor-Draws tty target)
              (erased-Draws tty target x y))
            e h))

-- Without a target there is no picture to show.
pub no_target-Shows :
    (tty : ℕ) (c : Consoles) → leb tty_count tty ≡ false → tty_target tty c ≡ none → Shows tty c
unfolding tty_target target_of
no_target-Shows tty c inside h p e on =
    let wrong : some (buffer_of tty p) ≡ none = sym (rw (inside, e, on) refl) ∙ h in absurd cc

switch_tty-IsMirrored : (tty : ℕ) (c : Consoles) → IsMirrored c → IsMirrored (switch_tty tty c)
unfolding switch_tty
switch_tty-IsMirrored tty c h = elim (Bool-cases (leb tty_count tty)) [
  | inl out ↦ rw (out, switch_tty) h
  | inr inside ↦
      let c' = record (c) { active_tty = tty } in
      let sound' : IsSoundConsole c' = record {
        address = h.sound.address;
        rows = h.sound.rows;
        fits = h.sound.fits;
      } in
      let lt : tty < tty_count = ground (arith, inside) in
      elim (Option-cases (tty_target tty c')) [
        | inl e ↦
            rw (inside, e, switch_tty)
              (record {
                sound = sound';
                active_inside = lt;
                shows = no_target-Shows tty c' inside e;
              })
        | inr (target, e) ↦
            let t : Targets tty target c' = record { sound = sound'; is_target = e } in
            let d = blit_to_primary-Drawn tty target c' t refl in
            rw (inside, e, switch_tty)
              (record {
                sound = Drawn-IsSound tty c' _ d sound';
                active_inside = rw d.active lt;
                shows =
                    subst (λ t. Shows t (blit_to_primary target c')) (sym d.active)
                      (blit_to_primary-Shows tty target c' t refl);
              })
      ]
]

pub handle_scancode-IsMirrored :
    (byte : ℕ) (c : Consoles) → IsMirrored c → IsMirrored (handle_scancode byte c)
unfolding handle_scancode
handle_scancode-IsMirrored byte c h = elim (Bool-cases (byte == scancode_alt_make)) [
  | inl e ↦ rw (e, handle_scancode) (same_picture c _ refl refl refl refl refl h)
  | inr no_make ↦ elim (Bool-cases (byte == scancode_alt_break)) [
    | inl e ↦ rw (no_make, e, handle_scancode) (same_picture c _ refl refl refl refl refl h)
    | inr no_break ↦ elim (Bool-cases (is_switch byte c)) [
      | inl e ↦
          rw (no_make, no_break, e, handle_scancode)
            (switch_tty-IsMirrored (byte - scancode_f1) c h)
      | inr stays ↦ elim (Bool-cases (bit_and byte 0x80 == 0)) [
        | inl e ↦
            rw (no_make, no_break, stays, e, handle_scancode)
              (same_picture c _ refl refl refl refl refl h)
        | inr e ↦ rw (no_make, no_break, stays, e, handle_scancode) h
      ]
    ]
  ]
]

pub poll_user_key-IsMirrored :
    (tty : ℕ) (c : Consoles) → IsMirrored c → IsMirrored (poll_user_key tty c).1
unfolding poll_user_key
poll_user_key-IsMirrored tty c h = elim (Bool-cases (leb tty_count tty)) [
  | inl out ↦ rw (out, poll_user_key) h
  | inr inside ↦ elim (Bool-cases ((c.tty_states tty).pending_key == 0)) [
    | inl e ↦ rw (inside, e, poll_user_key) (same_picture c _ refl refl refl refl refl h)
    | inr e ↦ rw (inside, e, poll_user_key) (same_picture c _ refl refl refl refl refl h)
  ]
]
