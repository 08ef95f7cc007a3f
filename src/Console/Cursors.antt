-- ===== src/Console/Cursors.antt =====
-- Drawing, in kernel-core/src/console.rs, leaves the states of the terminals.
use open_kernel.Prelude.{
  ℕ, zero, suc, ◌+◌, ◌≡◌, inl, inr, refl, ap, ◌∙◌, Bool-cases, Option-cases, update_self,
}
use open_kernel.Console.{
  background, character_width, Surface, on_screen, in_buffer, Framebuffer, Consoles, set_bytes_at,
  for_range, framebuffer_pixel, put_framebuffer_pixel, fill,
}
use open_kernel.Console.Terminals.{draw_cursor, hide_cursor}

-- Drawing does not move the cursor.
set_bytes_at-states :
    (s : Surface) (bytes : ℕ → ℕ) (c : Consoles)
    → (set_bytes_at s bytes c).tty_states ≡ c.tty_states
unfolding set_bytes_at
set_bytes_at-states on_screen bytes c = refl
set_bytes_at-states (in_buffer t) bytes c = refl

put-states :
    (f : Framebuffer) (x y color : ℕ) (c : Consoles)
    → (put_framebuffer_pixel f x y color c).tty_states ≡ c.tty_states
unfolding put_framebuffer_pixel
put-states f x y color c = elim (Option-cases (framebuffer_pixel f x y)) [
  | inl e ↦ rw (e, put_framebuffer_pixel) refl
  | inr (o, e) ↦ rw (e, put_framebuffer_pixel) (set_bytes_at-states f.address _ c)
]

for_range-states :
    (start rounds : ℕ) (body : ℕ → Consoles → Consoles)
    → ((i : ℕ) (c : Consoles) → (body i c).tty_states ≡ c.tty_states)
    → (c : Consoles) → (for_range start rounds body c).tty_states ≡ c.tty_states
unfolding for_range
for_range-states start zero body h c = refl
for_range-states start (suc n) body h c =
    for_range-states (start + 1) n body h (body start c) ∙ h start c

draw_cursor-states :
    (tty : ℕ) (target : Framebuffer) (color : ℕ) (c : Consoles)
    → (draw_cursor tty target color c).tty_states ≡ c.tty_states
unfolding draw_cursor fill
draw_cursor-states tty target color c =
    for_range-states 0 2 _
      (λ j. for_range-states 0 character_width _ (λ i. put-states target _ _ color)) c

pub hide_cursor-cursor :
    (tty : ℕ) (target : Framebuffer) (c : Consoles)
    → ((hide_cursor tty target c).tty_states tty).cursor_x ≡ (c.tty_states tty).cursor_x
unfolding hide_cursor
hide_cursor-cursor tty target c = elim (Bool-cases (c.tty_states tty).cursor_visible) [
  | inr hidden ↦ rw (hidden, hide_cursor) refl
  | inl visible ↦
      let c' = draw_cursor tty target background c in
      rw (visible, hide_cursor)
        (ap (λ s. s.cursor_x) (update_self c'.tty_states tty _)
          ∙ ap (λ s. (s tty).cursor_x) (draw_cursor-states tty target background c))
]
