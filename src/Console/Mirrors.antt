-- ===== src/Console/Mirrors.antt =====
-- The screen shows the active terminal (kernel-core/src/console.rs), step by step.
use open_kernel.Prelude.{
  ℕ, ◌+◌, ◌*◌, ◌<◌, ◌≡◌, inl, inr, refl, sym, ap, ◌∙◌, subst, true, true≢false, ◌==◌, ==_refl, some,
  arith, ℕ_discrete,
}
use open_kernel.Console.{
  tty_count, Framebuffer, Consoles, for_range, blit_pixel, blit_to_primary, blit_if_active,
  tty_target,
}
use open_kernel.Console.Drawn.{
  IsSoundConsole, Drawn-IsSound, Targets, Targets-Drawn, Draws, Draws-then,
}
use open_kernel.Console.Drawing.{buffer_of, tty_target-IsTargetOf}
use open_kernel.Console.Blits.{blit_to_primary_loops, blit_to_primary-Drawn, blit_if_active-Draws}
use open_kernel.Console.Copies.{Shown, rows-Shown}

-- The picture of the terminal is on the screen.
abbrev pub Shows : ℕ → Consoles → Type 0
Shows tty c =
    (p : Framebuffer)
    → c.primary_framebuffer ≡ some p
    → c.multi_tty_enabled ≡ true
    → (y x : ℕ) → y < p.height
    → x < p.width * 4
    → c.screen (y * p.pitch + x) ≡ c.tty_buffers tty (y * (p.width * 4) + x)

-- Where every terminal has a buffer, the screen shows the active one, byte by byte.
pub record IsMirrored (c : Consoles) : Type 0 where
  pub sound : IsSoundConsole c
  pub active_inside : c.active_tty < tty_count
  pub shows : Shows c.active_tty c

-- A change of the terminals' states only.
pub same_picture :
    (c c' : Consoles)
    → c'.primary_framebuffer ≡ c.primary_framebuffer
    → c'.multi_tty_enabled ≡ c.multi_tty_enabled
    → c'.active_tty ≡ c.active_tty
    → c'.screen ≡ c.screen
    → c'.tty_buffers ≡ c.tty_buffers
    → IsMirrored c
    → IsMirrored c'
same_picture c c' primary multi active screen buffers h = record {
  sound = record {
    address = λ f e. h.sound.address f (sym primary ∙ e);
    rows = λ f e. h.sound.rows f (sym primary ∙ e);
    fits = λ f e on. h.sound.fits f (sym primary ∙ e) (sym multi ∙ on);
  };
  active_inside = rw active h.active_inside;
  shows = λ p e on y x hy hx.
      ap (λ s. s (y * p.pitch + x)) screen
      ∙ h.shows p (sym primary ∙ e) (sym multi ∙ on) y x hy hx
      ∙ ap (λ t. c.tty_buffers t (y * (p.width * 4) + x)) (sym active)
      ∙ ap (λ b. b c'.active_tty (y * (p.width * 4) + x)) (sym buffers);
}

-- A blit of a terminal's buffer shows it.
pub blit_to_primary-Shows :
    (tty : ℕ) (target : Framebuffer) (c : Consoles)
    → Targets tty target c
    → tty ≡ c.active_tty
    → Shows tty (blit_to_primary target c)
blit_to_primary-Shows tty target c t active p e on y x hy hx =
    let d = blit_to_primary-Drawn tty target c t active in
    let e' : c.primary_framebuffer ≡ some p = sym d.primary ∙ e in
    let on' : c.multi_tty_enabled ≡ true = sym d.multi ∙ on in
    let f = tty_target-IsTargetOf tty c target t.is_target in
    let same : f.p ≡ p = let s : some f.p ≡ some p = sym f.primary ∙ e' in cc in
    elim f.is [
      | inr (off, _) ↦ absurd (true≢false (sym on' ∙ off))
      | inl (_, buffer) ↦
          let buffer' : target ≡ buffer_of tty p = buffer ∙ ap (buffer_of tty) same in
          let c' =
            for_range 0 p.height (λ row. for_range 0 p.width (blit_pixel (buffer_of tty p) p row))
              c in
          let s : Shown tty 0 p.height p c c' =
            rows-Shown tty 0 p.height p c (t.sound.address p e') (t.sound.rows p e') in
          let loops : blit_to_primary target c ≡ c' =
            ap (λ g. blit_to_primary g c) buffer'
            ∙ blit_to_primary_loops (buffer_of tty p) p c e' in
          subst (λ r. r.screen (y * p.pitch + x) ≡ r.tty_buffers tty (y * (p.width * 4) + x))
            (sym loops)
            (s.inside y x (omega arith) (omega (arith, hy)) hx
              ∙ ap (λ b. b tty (y * (p.width * 4) + x)) (sym s.buffers))
    ]

-- A step that draws, and then the copy to the screen, on the active terminal: then the screen shows
-- it, whatever it showed before.
pub drawn_active :
    (tty : ℕ) (target : Framebuffer) (step : Consoles → Consoles) (c : Consoles)
    → Draws tty target step
    → Targets tty target c
    → tty ≡ c.active_tty
    → c.active_tty < tty_count
    → IsMirrored (blit_if_active tty target (step c))
unfolding blit_if_active
drawn_active tty target step c draws t active inside =
    let c1 = step c in
    let d1 = draws c t in
    let t1 = Targets-Drawn tty target c c1 t d1 in
    let d =
      Draws-then tty target step (blit_if_active tty target) draws (blit_if_active-Draws tty target)
        c t in
    let active1 : tty ≡ c1.active_tty = active ∙ sym d1.active in
    record {
      sound = Drawn-IsSound tty c _ d t.sound;
      active_inside = rw d.active inside;
      shows = λ p e on.
          let on1 : c1.multi_tty_enabled ≡ true = d1.multi ∙ sym d.multi ∙ on in
          let is : blit_if_active tty target c1 ≡ blit_to_primary target c1 =
            let at : (tty == c1.active_tty) ≡ true = rw⁻¹ active1 (==_refl tty) in
            rw (on1, at, blit_if_active) refl in
          let shown = subst (Shows tty) (sym is) (blit_to_primary-Shows tty target c1 t1 active1) in
          subst (λ t. Shows t (blit_if_active tty target c1)) (active ∙ sym d.active) shown p e on;
    }

pub drawn-IsMirrored :
    (tty : ℕ) (target : Framebuffer) (step : Consoles → Consoles) (c : Consoles)
    → Draws tty target step
    → tty_target tty c ≡ some target
    → IsMirrored c
    → IsMirrored (blit_if_active tty target (step c))
drawn-IsMirrored tty target step c draws is h =
    let t : Targets tty target c = record { sound = h.sound; is_target = is } in
    let d =
      Draws-then tty target step (blit_if_active tty target) draws (blit_if_active-Draws tty target)
        c t in
    elim (ℕ_discrete tty c.active_tty) [
      | yes active ↦ drawn_active tty target step c draws t active h.active_inside
      | no background ↦ record {
        sound = Drawn-IsSound tty c _ d h.sound;
        active_inside = rw d.active h.active_inside;
        shows = λ p e on y x hy hx.
            let on' : c.multi_tty_enabled ≡ true = sym d.multi ∙ on in
            ap (λ s. s (y * p.pitch + x)) (d.screen_left on' background)
            ∙ h.shows p (sym d.primary ∙ e) on' y x hy hx
            ∙ ap (λ b. b (y * (p.width * 4) + x))
                (sym (d.buffers c.active_tty (λ e. background (sym e))))
            ∙ ap (λ t. (blit_if_active tty target (step c)).tty_buffers t (y * (p.width * 4) + x))
                (sym d.active);
      }
    ]
