-- ===== src/Console/Blits.antt =====
-- The copy of a terminal's buffer to the screen, of kernel-core/src/console.rs, changes no more than
-- `Drawn` says.
use open_kernel.Prelude.{
  ℕ, ◌+◌, ◌*◌, ◌<◌, ◌≡◌, inl, inr, sym, ap, ◌∙◌, subst, ◌&&◌, ◌==◌, Bool-cases, none, some, arith,
  slice_from, length-slice_from,
}
use open_kernel.Console.{
  on_screen, in_buffer, Framebuffer, Consoles, for_range, blit_pixel, blit_to_primary,
  blit_if_active, bytes_at,
}
use open_kernel.Console.Drawn.{Drawn, Drawn-refl, Targets, Targets-Drawn, Draws, for_range-Drawn}
use open_kernel.Console.Drawing.{
  pixel_inside, set_bytes_at-Drawn, tty_target-IsTargetOf, target_size,
}

-- What a blit of the terminal's target meets.
record Blits (tty : ℕ) (target primary : Framebuffer) (c : Consoles) : Type 0 where
  targets : Targets tty target c
  is_primary : c.primary_framebuffer ≡ some primary
  active : tty ≡ c.active_tty
  width : target.width ≡ primary.width
  height : target.height ≡ primary.height

Blits-Drawn :
    (tty : ℕ) (target primary : Framebuffer) (c c' : Consoles)
    → Drawn tty c c'
    → Blits tty target primary c
    → Blits tty target primary c'
Blits-Drawn tty target primary c c' d b = record {
  targets = Targets-Drawn tty target c c' b.targets d;
  is_primary = d.primary ∙ b.is_primary;
  active = b.active ∙ sym d.active;
  width = b.width;
  height = b.height;
}

blit_pixel-Drawn :
    (tty row column : ℕ) (target primary : Framebuffer) (c : Consoles)
    → Blits tty target primary c
    → row < target.height
    → column < target.width
    → Drawn tty c (blit_pixel target primary row column c)
unfolding blit_pixel
blit_pixel-Drawn tty row column target primary c b hr hc =
    let inside =
      pixel_inside column row primary.width primary.height primary.pitch
        (subst (λ w. column < w) b.width hc) (subst (λ k. row < k) b.height hr)
        (b.targets.sound.rows primary b.is_primary) in
    let at = b.targets.sound.address primary b.is_primary in
    set_bytes_at-Drawn tty (row * primary.pitch + column * 4) primary.address
      (slice_from (bytes_at target.address c) (row * target.pitch + column * 4) 4) c
      (length-slice_from (bytes_at target.address c) (row * target.pitch + column * 4) 4)
      (record {
        in_own_buffer = λ j same. let wrong : on_screen ≡ in_buffer j = sym at ∙ same in absurd cc;
        in_screen = λ _. (rw b.is_primary inside, inr b.active);
      })

-- The loops of a blit, where there is a primary frame buffer.
pub blit_to_primary_loops :
    (source primary : Framebuffer) (c : Consoles)
    → c.primary_framebuffer ≡ some primary
    → blit_to_primary source c
      ≡ for_range 0 source.height
          (λ row. for_range 0 source.width (blit_pixel source primary row))
          c
unfolding blit_to_primary
blit_to_primary_loops source primary c e =
    ap
      (λ o. elim o [
        | none ↦ c
        | some p ↦
            for_range 0 source.height (λ row. for_range 0 source.width (blit_pixel source p row)) c
      ])
      e

pub blit_to_primary-Drawn :
    (tty : ℕ) (target : Framebuffer) (c : Consoles)
    → Targets tty target c
    → tty ≡ c.active_tty
    → Drawn tty c (blit_to_primary target c)
blit_to_primary-Drawn tty target c t active =
    let f = tty_target-IsTargetOf tty c target t.is_target in
    let Q = Blits tty target f.p in
    let keep = Blits-Drawn tty target f.p in
    let loop =
      for_range-Drawn tty Q keep 0 target.height _
        (λ row hr.
          for_range-Drawn tty (λ c. Q c) keep 0 target.width (blit_pixel target f.p row)
            (λ column hc c' b.
              blit_pixel-Drawn tty row column target f.p c' b (omega (arith, hr))
                (omega (arith, hc))))
        c
        (record {
          targets = t;
          is_primary = f.primary;
          active = active;
          width = (target_size tty c target f).0;
          height = (target_size tty c target f).1;
        }) in
    subst (Drawn tty c) (sym (blit_to_primary_loops target f.p c f.primary)) loop

pub blit_if_active-Draws :
    (tty : ℕ) (target : Framebuffer) → Draws tty target (blit_if_active tty target)
unfolding blit_if_active
blit_if_active-Draws tty target c t =
    elim (Bool-cases (c.multi_tty_enabled && tty == c.active_tty)) [
      | inr inactive ↦ rw inactive (Drawn-refl tty c)
      | inl active ↦ rw active (blit_to_primary-Drawn tty target c t (ground (arith, active)))
    ]
