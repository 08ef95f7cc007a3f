-- ===== src/Console/Drawn.antt =====
-- What drawing on one terminal may change (kernel-core/src/console.rs).
use open_kernel.Prelude.{
  ℕ, zero, suc, ◌+◌, ◌*◌, ◌≤◌, ◌<◌, ◌≡◌, ◌≢◌, refl, sym, ap₂, ◌∙◌, true, leb, if◌then◌else◌, none,
  some, arith, update_other,
}
use open_kernel.Console.{
  tty_count, max_tty_width, max_tty_height, tty_buffer_bytes, on_screen, Framebuffer, TtyState,
  Consoles, for_range, set_tty_state, target_of, tty_target,
}

-- The primary frame buffer is the screen, with rows that hold its pixels, and where each terminal has
-- a buffer of its own, the picture fits the buffer.
pub record IsSoundConsole (c : Consoles) : Type 0 where
  pub address : (f : Framebuffer) → c.primary_framebuffer ≡ some f → f.address ≡ on_screen
  pub rows : (f : Framebuffer) → c.primary_framebuffer ≡ some f → f.width * 4 ≤ f.pitch
  pub fits :
      (f : Framebuffer)
      → c.primary_framebuffer ≡ some f
      → c.multi_tty_enabled ≡ true
      → (f.width ≤ max_tty_width) × (f.height ≤ max_tty_height)

-- The bytes of the primary frame buffer.
abbrev pub screen_bytes : Consoles → ℕ
screen_bytes c = elim c.primary_framebuffer [ none ↦ 0 | some f ↦ f.height * f.pitch ]

-- What a step that draws on the terminal leaves: all other terminals and their buffers, the modes,
-- the screen if it shows another terminal, and every byte outside of the buffer and the frame buffer.
pub record Drawn (tty : ℕ) (c c' : Consoles) : Type 0 where
  pub primary : c'.primary_framebuffer ≡ c.primary_framebuffer
  pub active : c'.active_tty ≡ c.active_tty
  pub alt : c'.alt_held ≡ c.alt_held
  pub multi : c'.multi_tty_enabled ≡ c.multi_tty_enabled
  pub states : (j : ℕ) → j ≢ tty → c'.tty_states j ≡ c.tty_states j
  pub buffers : (j : ℕ) → j ≢ tty → c'.tty_buffers j ≡ c.tty_buffers j
  pub screen_left : c.multi_tty_enabled ≡ true → tty ≢ c.active_tty → c'.screen ≡ c.screen
  pub inside_buffer : (o : ℕ) → tty_buffer_bytes ≤ o → c'.tty_buffers tty o ≡ c.tty_buffers tty o
  pub inside_screen : (o : ℕ) → screen_bytes c ≤ o → c'.screen o ≡ c.screen o

pub Drawn-refl : (tty : ℕ) (c : Consoles) → Drawn tty c c
Drawn-refl tty c = record {
  primary = refl;
  active = refl;
  alt = refl;
  multi = refl;
  states = λ _ _. refl;
  buffers = λ _ _. refl;
  screen_left = λ _ _. refl;
  inside_buffer = λ _ _. refl;
  inside_screen = λ _ _. refl;
}

pub Drawn-trans :
    (tty : ℕ) (c c' c'' : Consoles) → Drawn tty c c' → Drawn tty c' c'' → Drawn tty c c''
Drawn-trans tty c c' c'' f g = record {
  primary = g.primary ∙ f.primary;
  active = g.active ∙ f.active;
  alt = g.alt ∙ f.alt;
  multi = g.multi ∙ f.multi;
  states = λ j ne. g.states j ne ∙ f.states j ne;
  buffers = λ j ne. g.buffers j ne ∙ f.buffers j ne;
  screen_left =
      λ on ne. g.screen_left (f.multi ∙ on) (λ e. ne (e ∙ f.active)) ∙ f.screen_left on ne;
  inside_buffer = λ o h. g.inside_buffer o h ∙ f.inside_buffer o h;
  inside_screen = λ o h. g.inside_screen o (rw f.primary h) ∙ f.inside_screen o h;
}

pub Drawn-IsSound :
    (tty : ℕ) (c c' : Consoles) → Drawn tty c c' → IsSoundConsole c → IsSoundConsole c'
Drawn-IsSound tty c c' d h = record {
  address = λ f e. h.address f (sym d.primary ∙ e);
  rows = λ f e. h.rows f (sym d.primary ∙ e);
  fits = λ f e on. h.fits f (sym d.primary ∙ e) (sym d.multi ∙ on);
}

pub Drawn-target : (tty t : ℕ) (c c' : Consoles) → Drawn tty c c' → tty_target t c' ≡ tty_target t c
unfolding tty_target
Drawn-target tty t c c' d =
    ap₂ (λ p m. if leb tty_count t then none else target_of t p m) d.primary d.multi

pub set_tty_state-Drawn :
    (tty : ℕ) (s : TtyState) (c : Consoles) → Drawn tty c (set_tty_state tty s c)
set_tty_state-Drawn tty s c = record {
  primary = refl;
  active = refl;
  alt = refl;
  multi = refl;
  states = λ j ne. update_other c.tty_states tty s j ne;
  buffers = λ _ _. refl;
  screen_left = λ _ _. refl;
  inside_buffer = λ _ _. refl;
  inside_screen = λ _ _. refl;
}

-- The frame buffer that a terminal draws into, and that it draws.
pub record Targets (tty : ℕ) (target : Framebuffer) (c : Consoles) : Type 0 where
  pub sound : IsSoundConsole c
  pub is_target : tty_target tty c ≡ some target

pub Targets-Drawn :
    (tty : ℕ) (target : Framebuffer) (c c' : Consoles)
    → Targets tty target c
    → Drawn tty c c'
    → Targets tty target c'
Targets-Drawn tty target c c' h d = record {
  sound = Drawn-IsSound tty c c' d h.sound;
  is_target = Drawn-target tty tty c c' d ∙ h.is_target;
}

-- A step that draws, from every state with the target.
abbrev pub Draws : ℕ → Framebuffer → (Consoles → Consoles) → Type 0
Draws tty target step = (c : Consoles) → Targets tty target c → Drawn tty c (step c)

pub Draws-then :
    (tty : ℕ) (target : Framebuffer) (f g : Consoles → Consoles)
    → Draws tty target f
    → Draws tty target g
    → Draws tty target (λ c. g (f c))
Draws-then tty target f g df dg c h =
    let d = df c h in
    Drawn-trans tty c (f c) (g (f c)) d (dg (f c) (Targets-Drawn tty target c (f c) h d))

-- A loop of steps that draw wherever `Q` holds, which drawing keeps.
pub for_range-Drawn :
    (tty : ℕ) (Q : Consoles → Type 0)
    → ((c c' : Consoles) → Drawn tty c c' → Q c → Q c')
    → (start rounds : ℕ) (body : ℕ → Consoles → Consoles)
    → ((i : ℕ) → i < start + rounds → (c : Consoles) → Q c → Drawn tty c (body i c))
    → (c : Consoles) → Q c
    → Drawn tty c (for_range start rounds body c)
unfolding for_range
for_range-Drawn tty Q keep start zero body h c q = Drawn-refl tty c
for_range-Drawn tty Q keep start (suc rounds) body h c q =
    let d = h start (omega arith) c q in
    Drawn-trans tty c (body start c) (for_range (start + 1) rounds body (body start c)) d (
      for_range-Drawn tty Q keep (start + 1) rounds body (λ i lt. h i (omega arith)) (body start c)
        (keep c (body start c) d q))

pub for_range-Draws :
    (tty : ℕ) (target : Framebuffer) (start rounds : ℕ) (body : ℕ → Consoles → Consoles)
    → ((i : ℕ) → Draws tty target (body i))
    → Draws tty target (for_range start rounds body)
for_range-Draws tty target start rounds body h =
    for_range-Drawn tty (Targets tty target) (λ c c' d t. Targets-Drawn tty target c c' t d) start
      rounds body (λ i _. h i)
