-- ===== src/Console/Drawing.antt =====
-- Every call that draws on a terminal of kernel-core/src/console.rs does no more than `Drawn` says.
use native.Mathlib.Nat.{mul-le-mul_right}
use open_kernel.Prelude.{
  ℕ, suc, ◌+◌, ◌*◌, ◌≤◌, ◌<◌, ◌≡◌, ◌⊎◌, inl, inr, refl, sym, ap, ◌∙◌, subst, true, false,
  true≢false, ◌||◌, ◌==◌, leb, Bool-cases, none, some, Option-cases, List, length, arith, update,
  update_self, update_other, copy_from, copy_from_outside,
}
use open_kernel.Console.{
  tty_count, max_tty_width, max_tty_height, tty_buffer_bytes, Surface, on_screen, in_buffer,
  Framebuffer, Consoles, bytes_at, set_bytes_at, pixel_bytes, framebuffer_pixel, fill,
  put_framebuffer_pixel, target_of, tty_target,
}
use open_kernel.Console.Drawn.{screen_bytes, Drawn, Drawn-refl, Targets, Draws, for_range-Draws}

-- A pixel of the picture lies inside its rows.
pub pixel_inside :
    (x y width height pitch : ℕ)
    → x < width
    → y < height
    → width * 4 ≤ pitch
    → y * pitch + x * 4 + 4 ≤ height * pitch
pixel_inside x y width height pitch hx hy hp =
    let below : suc y * pitch ≤ height * pitch = mul-le-mul_right pitch hy in omega (arith, below)

pub buffer_inside :
    (width height : ℕ)
    → width ≤ max_tty_width
    → height ≤ max_tty_height
    → height * (width * 4) ≤ tty_buffer_bytes
buffer_inside width height hw hh =
    let a : height * (width * 4) ≤ max_tty_height * (width * 4) = mul-le-mul_right (width * 4) hh in
    omega (arith, a)

-- Four bytes written to a surface that the terminal draws into.
pub record IsOwn (tty o : ℕ) (surface : Surface) (c : Consoles) : Type 0 where
  pub in_own_buffer : (j : ℕ) → surface ≡ in_buffer j → (j ≡ tty) × (o + 4 ≤ tty_buffer_bytes)
  pub in_screen :
      surface ≡ on_screen
      → (o + 4 ≤ screen_bytes c) × ((c.multi_tty_enabled ≡ false) ⊎ (tty ≡ c.active_tty))

pub set_bytes_at-Drawn :
    (tty o : ℕ) (surface : Surface) (bytes : List ℕ) (c : Consoles)
    → length bytes ≡ 4
    → IsOwn tty o surface c
    → Drawn tty c (set_bytes_at surface (copy_from (bytes_at surface c) o bytes) c)
unfolding set_bytes_at bytes_at
set_bytes_at-Drawn tty o on_screen bytes c len own = record {
  primary = refl;
  active = refl;
  alt = refl;
  multi = refl;
  states = λ _ _. refl;
  buffers = λ _ _. refl;
  screen_left = λ on ne. elim (own.in_screen refl).1 [
    | inl off ↦ absurd (true≢false (sym on ∙ off))
    | inr same ↦ absurd (ne same)
  ];
  inside_buffer = λ _ _. refl;
  inside_screen = λ j h.
      copy_from_outside c.screen o bytes j (inr (omega (arith, (own.in_screen refl).0, len)));
}
set_bytes_at-Drawn tty o (in_buffer t) bytes c len own =
    let f = own.in_own_buffer t refl in
    record {
      primary = refl;
      active = refl;
      alt = refl;
      multi = refl;
      states = λ _ _. refl;
      buffers = λ j ne. update_other c.tty_buffers t _ j (λ e. ne (e ∙ f.0));
      screen_left = λ _ _. refl;
      inside_buffer = λ j h.
          subst
            (λ k.
              update c.tty_buffers t (copy_from (c.tty_buffers t) o bytes) k j ≡ c.tty_buffers k j)
            f.0
            (ap (λ a. a j) (update_self c.tty_buffers t _)
              ∙ copy_from_outside (c.tty_buffers t) o bytes j (inr (omega (arith, f.1, len))));
      inside_screen = λ _ _. refl;
    }

-- The buffer of a terminal, as a frame buffer.
abbrev pub buffer_of : ℕ → Framebuffer → Framebuffer
buffer_of tty p = record {
  address = in_buffer tty;
  width = p.width;
  height = p.height;
  pitch = p.width * 4;
  bits_per_pixel = p.bits_per_pixel;
}

-- The target of a terminal is its buffer, or the primary frame buffer.
pub record IsTargetOf (tty : ℕ) (c : Consoles) (target : Framebuffer) : Type 0 where
  pub p : Framebuffer
  pub primary : c.primary_framebuffer ≡ some p
  pub is :
      ((c.multi_tty_enabled ≡ true) × (target ≡ buffer_of tty p))
      ⊎ ((c.multi_tty_enabled ≡ false) × (target ≡ p))

pub tty_target-IsTargetOf :
    (tty : ℕ) (c : Consoles) (target : Framebuffer)
    → tty_target tty c ≡ some target
    → IsTargetOf tty c target
unfolding tty_target target_of
tty_target-IsTargetOf tty c target h = elim (Bool-cases (leb tty_count tty)) [
  | inl out ↦ let wrong : none ≡ some target = sym (rw out refl) ∙ h in absurd cc
  | inr inside ↦ elim (Option-cases c.primary_framebuffer) [
    | inl e ↦ let wrong : none ≡ some target = sym (rw (inside, e) refl) ∙ h in absurd cc
    | inr (p, e) ↦ record {
      p = p;
      primary = e;
      is = elim (Bool-cases c.multi_tty_enabled) [
        | inl on ↦
            let s : some (buffer_of tty p) ≡ some target = sym (rw (inside, e, on) refl) ∙ h in
            inl (on, cc)
        | inr off ↦ elim (Bool-cases (tty == 0)) [
          | inl first ↦
              let s : some p ≡ some target = sym (rw (inside, e, off, first) refl) ∙ h in
              inr (off, cc)
          | inr other ↦
              let wrong : none ≡ some target = sym (rw (inside, e, off, other) refl) ∙ h in
              absurd cc
        ]
      ];
    }
  ]
]

-- The target shows the picture of the primary frame buffer.
pub target_size :
    (tty : ℕ) (c : Consoles) (target : Framebuffer) (t : IsTargetOf tty c target)
    → (target.width ≡ t.p.width) × (target.height ≡ t.p.height)
target_size tty c target t = elim t.is [
  | inl (_, e) ↦ (ap (λ f. f.width) e, ap (λ f. f.height) e)
  | inr (_, e) ↦ (ap (λ f. f.width) e, ap (λ f. f.height) e)
]

pub put-IsOwn :
    (tty x y : ℕ) (target : Framebuffer) (c : Consoles)
    → Targets tty target c
    → x < target.width
    → y < target.height
    → IsOwn tty (y * target.pitch + x * 4) target.address c
put-IsOwn tty x y target c h hx hy =
    let t = tty_target-IsTargetOf tty c target h.is_target in
    elim t.is [
      | inl (on, e) ↦
          let fits = h.sound.fits t.p t.primary on in
          let inside = buffer_inside t.p.width t.p.height fits.0 fits.1 in
          let wx : x < t.p.width = subst (λ f. x < f.width) e hx in
          let hy' : y < t.p.height = subst (λ f. y < f.height) e hy in
          let o = pixel_inside x y t.p.width t.p.height (t.p.width * 4) wx hy' (omega arith) in
          rw e (record {
            in_own_buffer = λ j same.
                ((let s : in_buffer tty ≡ in_buffer j = same in cc), omega (arith, o, inside));
            in_screen = λ wrong. absurd cc;
          })
      | inr (off, e) ↦
          let rows = h.sound.rows t.p t.primary in
          let wx : x < t.p.width = subst (λ f. x < f.width) e hx in
          let hy' : y < t.p.height = subst (λ f. y < f.height) e hy in
          let o = pixel_inside x y t.p.width t.p.height t.p.pitch wx hy' rows in
          rw e (record {
            in_own_buffer = λ j same.
                let wrong : on_screen ≡ in_buffer j = sym (h.sound.address t.p t.primary) ∙ same in
                absurd cc;
            in_screen = λ _. (rw t.primary o, inl off);
          })
    ]

pub put_framebuffer_pixel-Draws :
    (tty x y color : ℕ) (target : Framebuffer)
    → Draws tty target (put_framebuffer_pixel target x y color)
unfolding put_framebuffer_pixel framebuffer_pixel
put_framebuffer_pixel-Draws tty x y color target c h =
    elim (Bool-cases (leb target.width x || leb target.height y)) [
      | inl out ↦ rw (out, put_framebuffer_pixel) (Drawn-refl tty c)
      | inr inside ↦
          rw (inside, put_framebuffer_pixel)
            (set_bytes_at-Drawn tty (y * target.pitch + x * 4) target.address (pixel_bytes color) c
              refl (put-IsOwn tty x y target c h (ground (arith, inside)) (ground (arith, inside))))
    ]

pub fill-Draws :
    (tty x y width height color : ℕ) (target : Framebuffer)
    → Draws tty target (fill target x y width height color)
unfolding fill
fill-Draws tty x y width height color target = for_range-Draws tty target 0 height _ (λ j.
    for_range-Draws tty target 0 width _
      (λ i. put_framebuffer_pixel-Draws tty (x + i) (y + j) color target))
