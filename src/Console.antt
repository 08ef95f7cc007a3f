-- ===== src/Console.antt =====
-- kernel-core/src/console.rs: the terminals, their frame buffers and the screen. The statics are the
-- record `Consoles`. The memory of a frame buffer is a function from the offset to a byte: the screen
-- behind the primary frame buffer is one, each of `TTY_BUFFERS` is one; a pixel is four bytes.
pub mod Glyphs
pub mod Keys
pub mod Terminals
pub mod Drawn
pub mod Drawing
pub mod Calls
pub mod Isolation
pub mod Copies
pub mod Blits
pub mod Mirrors
pub mod Pressed
pub mod Cursors
pub mod Screens
pub mod Runs
mod Tests
use open_kernel.Prelude.{
  ℕ, zero, suc, ◌+◌, ◌*◌, ◌/◌, ◌%◌, ◌^◌, Bool, true, false, ◌||◌, ◌&&◌, if◌then◌else◌, ◌==◌, ltb,
  leb, Option, none, some, List, [], ◌∷◌, update, slice_from, copy_from,
}

abbrev pub background : ℕ
background = 0x00162D3D

abbrev pub foreground : ℕ
foreground = 0x00FFFFFF

abbrev pub margin : ℕ
margin = 32

abbrev pub scale : ℕ
scale = 2

abbrev pub line_height : ℕ
line_height = 16

abbrev pub character_width : ℕ
character_width = 12

abbrev pub tty_count : ℕ
tty_count = 3

abbrev pub max_tty_width : ℕ
max_tty_width = 1280

abbrev pub max_tty_height : ℕ
max_tty_height = 800

abbrev pub tty_buffer_bytes : ℕ
tty_buffer_bytes = max_tty_width * max_tty_height * 4

-- Where a frame buffer's address points to.
pub data Surface : Type 0 where
  on_screen : Surface
  in_buffer : ℕ → Surface

pub record Framebuffer : Type 0 where
  pub address : Surface
  pub width : ℕ
  pub height : ℕ
  pub pitch : ℕ
  pub bits_per_pixel : ℕ

pub record TtyState : Type 0 where
  pub cursor_x : ℕ
  pub cursor_y : ℕ
  pub cursor_visible : Bool
  pub blink_ticks : ℕ
  pub pending_key : ℕ

abbrev pub empty_tty : TtyState
empty_tty = record {
  cursor_x = margin;
  cursor_y = margin;
  cursor_visible = false;
  blink_ticks = 0;
  pending_key = 0;
}

pub record Consoles : Type 0 where
  pub primary_framebuffer : Option Framebuffer
  pub screen : ℕ → ℕ
  pub tty_buffers : ℕ → ℕ → ℕ
  pub tty_states : ℕ → TtyState
  pub active_tty : ℕ
  pub alt_held : Bool
  pub multi_tty_enabled : Bool

-- The statics as the kernel starts, with what is on the screen.
abbrev pub boot_consoles : (ℕ → ℕ) → Consoles
boot_consoles pixels = record {
  primary_framebuffer = none;
  screen = pixels;
  tty_buffers = λ _ _. 0;
  tty_states = λ _. empty_tty;
  active_tty = 0;
  alt_held = false;
  multi_tty_enabled = false;
}

unfoldable pub bytes_at : Surface → Consoles → ℕ → ℕ
bytes_at on_screen c = c.screen
bytes_at (in_buffer tty) c = c.tty_buffers tty

unfoldable pub set_bytes_at : Surface → (ℕ → ℕ) → Consoles → Consoles
set_bytes_at on_screen bytes c = record (c) { screen = bytes }
set_bytes_at (in_buffer tty) bytes c = record (c) { tty_buffers = update c.tty_buffers tty bytes }

-- `for index in start..start + rounds`
unfoldable pub for_range {ℓ} : {S : Type ℓ} → ℕ → ℕ → (ℕ → S → S) → S → S
for_range start zero body s = s
for_range start (suc rounds) body s = for_range (start + 1) rounds body (body start s)

-- The bytes of a word of 32 bits, the lowest first.
abbrev pub pixel_bytes : ℕ → List ℕ
pixel_bytes color =
    (color % 256) ∷ (color / 2 ^ 8 % 256) ∷ (color / 2 ^ 16 % 256) ∷ (color / 2 ^ 24 % 256) ∷ []

-- The offset from the frame buffer's address.
unfoldable pub framebuffer_pixel : Framebuffer → ℕ → ℕ → Option ℕ
framebuffer_pixel f x y =
    if leb f.width x || leb f.height y then none else some (y * f.pitch + x * 4)

unfoldable pub put_framebuffer_pixel : Framebuffer → ℕ → ℕ → ℕ → Consoles → Consoles
put_framebuffer_pixel f x y color c = elim (framebuffer_pixel f x y) [
  | none ↦ c
  | some pixel ↦
      set_bytes_at f.address (copy_from (bytes_at f.address c) pixel (pixel_bytes color)) c
]

-- The rectangle from `x`, `y` of that width and height, row by row.
unfoldable pub fill : Framebuffer → ℕ → ℕ → ℕ → ℕ → ℕ → Consoles → Consoles
fill f x y width height color = for_range 0 height (λ pixel_y.
    for_range 0 width (λ pixel_x. put_framebuffer_pixel f (x + pixel_x) (y + pixel_y) color))

abbrev pub set_tty_state : ℕ → TtyState → Consoles → Consoles
set_tty_state tty s c = record (c) { tty_states = update c.tty_states tty s }

-- The frame buffer that a terminal draws into, for a primary frame buffer and `MULTI_TTY_ENABLED`.
unfoldable pub target_of : ℕ → Option Framebuffer → Bool → Option Framebuffer
target_of tty none multi = none
target_of tty (some primary) multi =
    if multi
    then some (record {
      address = in_buffer tty;
      width = primary.width;
      height = primary.height;
      pitch = primary.width * 4;
      bits_per_pixel = primary.bits_per_pixel;
    })
    else if tty == 0
    then some primary
    else none

unfoldable pub tty_target : ℕ → Consoles → Option Framebuffer
tty_target tty c =
    if leb tty_count tty then none else target_of tty c.primary_framebuffer c.multi_tty_enabled

-- The pixel at `row` and `column` is read from the source and written to the primary frame buffer.
unfoldable pub blit_pixel : Framebuffer → Framebuffer → ℕ → ℕ → Consoles → Consoles
blit_pixel source primary row column c =
    set_bytes_at primary.address
      (copy_from (bytes_at primary.address c) (row * primary.pitch + column * 4)
        (slice_from (bytes_at source.address c) (row * source.pitch + column * 4) 4))
      c

unfoldable pub blit_to_primary : Framebuffer → Consoles → Consoles
blit_to_primary source c = elim c.primary_framebuffer [
  | none ↦ c
  | some primary ↦
      for_range 0 source.height (λ row. for_range 0 source.width (blit_pixel source primary row)) c
]

unfoldable pub blit_if_active : ℕ → Framebuffer → Consoles → Consoles
blit_if_active tty target c =
    if c.multi_tty_enabled && tty == c.active_tty then blit_to_primary target c else c
