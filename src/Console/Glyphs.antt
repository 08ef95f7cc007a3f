-- ===== src/Console/Glyphs.antt =====
-- The font of kernel-core/src/console.rs, and text on a frame buffer.
use open_kernel.Prelude.{
  ℕ, ◌+◌, ◌-◌, ◌*◌, ◌^◌, not, ◌&&◌, if◌then◌else◌, ◌==◌, leb, List, [], ◌∷◌, bit_and,
}
use open_kernel.Console.{Framebuffer, Consoles, for_range, fill}

-- A table from bytes to rows of pixels; the rows of other bytes come first.
abbrev row_of : List ℕ → List (ℕ × List ℕ) → ℕ → List ℕ
row_of other [] byte = other
row_of other ((key, rows) ∷ rest) byte =
    let later = row_of other rest byte in if byte == key then rows else later

-- The patterns of the letters, the digits, `>` and the space.
abbrev glyphs : List (ℕ × List ℕ)
glyphs =
    (65, 0x0E ∷ 0x11 ∷ 0x11 ∷ 0x1F ∷ 0x11 ∷ 0x11 ∷ 0x11 ∷ [])
    ∷ (66, 0x1E ∷ 0x11 ∷ 0x11 ∷ 0x1E ∷ 0x11 ∷ 0x11 ∷ 0x1E ∷ [])
    ∷ (67, 0x0E ∷ 0x11 ∷ 0x10 ∷ 0x10 ∷ 0x10 ∷ 0x11 ∷ 0x0E ∷ [])
    ∷ (68, 0x1E ∷ 0x11 ∷ 0x11 ∷ 0x11 ∷ 0x11 ∷ 0x11 ∷ 0x1E ∷ [])
    ∷ (69, 0x1F ∷ 0x10 ∷ 0x10 ∷ 0x1E ∷ 0x10 ∷ 0x10 ∷ 0x1F ∷ [])
    ∷ (70, 0x1F ∷ 0x10 ∷ 0x10 ∷ 0x1E ∷ 0x10 ∷ 0x10 ∷ 0x10 ∷ [])
    ∷ (71, 0x0E ∷ 0x11 ∷ 0x10 ∷ 0x17 ∷ 0x11 ∷ 0x11 ∷ 0x0F ∷ [])
    ∷ (72, 0x11 ∷ 0x11 ∷ 0x11 ∷ 0x1F ∷ 0x11 ∷ 0x11 ∷ 0x11 ∷ [])
    ∷ (73, 0x1F ∷ 0x04 ∷ 0x04 ∷ 0x04 ∷ 0x04 ∷ 0x04 ∷ 0x1F ∷ [])
    ∷ (74, 0x01 ∷ 0x01 ∷ 0x01 ∷ 0x01 ∷ 0x11 ∷ 0x11 ∷ 0x0E ∷ [])
    ∷ (75, 0x11 ∷ 0x12 ∷ 0x14 ∷ 0x18 ∷ 0x14 ∷ 0x12 ∷ 0x11 ∷ [])
    ∷ (76, 0x10 ∷ 0x10 ∷ 0x10 ∷ 0x10 ∷ 0x10 ∷ 0x10 ∷ 0x1F ∷ [])
    ∷ (77, 0x11 ∷ 0x1B ∷ 0x15 ∷ 0x15 ∷ 0x11 ∷ 0x11 ∷ 0x11 ∷ [])
    ∷ (78, 0x11 ∷ 0x19 ∷ 0x15 ∷ 0x13 ∷ 0x11 ∷ 0x11 ∷ 0x11 ∷ [])
    ∷ (79, 0x0E ∷ 0x11 ∷ 0x11 ∷ 0x11 ∷ 0x11 ∷ 0x11 ∷ 0x0E ∷ [])
    ∷ (80, 0x1E ∷ 0x11 ∷ 0x11 ∷ 0x1E ∷ 0x10 ∷ 0x10 ∷ 0x10 ∷ [])
    ∷ (81, 0x0E ∷ 0x11 ∷ 0x11 ∷ 0x11 ∷ 0x15 ∷ 0x12 ∷ 0x0D ∷ [])
    ∷ (82, 0x1E ∷ 0x11 ∷ 0x11 ∷ 0x1E ∷ 0x14 ∷ 0x12 ∷ 0x11 ∷ [])
    ∷ (83, 0x0F ∷ 0x10 ∷ 0x10 ∷ 0x0E ∷ 0x01 ∷ 0x01 ∷ 0x1E ∷ [])
    ∷ (84, 0x1F ∷ 0x04 ∷ 0x04 ∷ 0x04 ∷ 0x04 ∷ 0x04 ∷ 0x04 ∷ [])
    ∷ (85, 0x11 ∷ 0x11 ∷ 0x11 ∷ 0x11 ∷ 0x11 ∷ 0x11 ∷ 0x0E ∷ [])
    ∷ (86, 0x11 ∷ 0x11 ∷ 0x11 ∷ 0x11 ∷ 0x11 ∷ 0x0A ∷ 0x04 ∷ [])
    ∷ (87, 0x11 ∷ 0x11 ∷ 0x11 ∷ 0x15 ∷ 0x15 ∷ 0x15 ∷ 0x0A ∷ [])
    ∷ (88, 0x11 ∷ 0x11 ∷ 0x0A ∷ 0x04 ∷ 0x0A ∷ 0x11 ∷ 0x11 ∷ [])
    ∷ (89, 0x11 ∷ 0x11 ∷ 0x0A ∷ 0x04 ∷ 0x04 ∷ 0x04 ∷ 0x04 ∷ [])
    ∷ (90, 0x1F ∷ 0x01 ∷ 0x02 ∷ 0x04 ∷ 0x08 ∷ 0x10 ∷ 0x1F ∷ [])
    ∷ (48, 0x0E ∷ 0x11 ∷ 0x13 ∷ 0x15 ∷ 0x19 ∷ 0x11 ∷ 0x0E ∷ [])
    ∷ (49, 0x04 ∷ 0x0C ∷ 0x04 ∷ 0x04 ∷ 0x04 ∷ 0x04 ∷ 0x0E ∷ [])
    ∷ (50, 0x0E ∷ 0x11 ∷ 0x01 ∷ 0x02 ∷ 0x04 ∷ 0x08 ∷ 0x1F ∷ [])
    ∷ (51, 0x1E ∷ 0x01 ∷ 0x01 ∷ 0x0E ∷ 0x01 ∷ 0x01 ∷ 0x1E ∷ [])
    ∷ (52, 0x02 ∷ 0x06 ∷ 0x0A ∷ 0x12 ∷ 0x1F ∷ 0x02 ∷ 0x02 ∷ [])
    ∷ (53, 0x1F ∷ 0x10 ∷ 0x10 ∷ 0x1E ∷ 0x01 ∷ 0x01 ∷ 0x1E ∷ [])
    ∷ (54, 0x0E ∷ 0x10 ∷ 0x10 ∷ 0x1E ∷ 0x11 ∷ 0x11 ∷ 0x0E ∷ [])
    ∷ (55, 0x1F ∷ 0x01 ∷ 0x02 ∷ 0x04 ∷ 0x08 ∷ 0x08 ∷ 0x08 ∷ [])
    ∷ (56, 0x0E ∷ 0x11 ∷ 0x11 ∷ 0x0E ∷ 0x11 ∷ 0x11 ∷ 0x0E ∷ [])
    ∷ (57, 0x0E ∷ 0x11 ∷ 0x11 ∷ 0x0F ∷ 0x01 ∷ 0x01 ∷ 0x0E ∷ [])
    ∷ (62, 0x10 ∷ 0x08 ∷ 0x04 ∷ 0x02 ∷ 0x04 ∷ 0x08 ∷ 0x10 ∷ [])
    ∷ (32, 0 ∷ 0 ∷ 0 ∷ 0 ∷ 0 ∷ 0 ∷ 0 ∷ [])
    ∷ []

unfoldable pub framebuffer_glyph : ℕ → List ℕ
framebuffer_glyph = row_of (0x1F ∷ 0x01 ∷ 0x02 ∷ 0x04 ∷ 0x04 ∷ 0x00 ∷ 0x04 ∷ []) glyphs

-- `u8::to_ascii_uppercase`
abbrev pub to_ascii_uppercase : ℕ → ℕ
to_ascii_uppercase byte = if leb 97 byte && leb byte 122 then byte - 32 else byte

-- The row of a glyph at height `y`: a square of pixels for each bit that is set.
unfoldable pub draw_row : Framebuffer → ℕ → ℕ → ℕ → ℕ → ℕ → Consoles → Consoles
draw_row f bits x y scale color = for_range 0 5 (λ glyph_column c.
    if not (bit_and bits (2 ^ (4 - glyph_column)) == 0)
    then fill f (x + glyph_column * scale) y scale scale color c
    else c)

unfoldable pub draw_rows : Framebuffer → List ℕ → ℕ → ℕ → ℕ → ℕ → Consoles → Consoles
draw_rows f [] x y scale color c = c
draw_rows f (bits ∷ rows) x y scale color c =
    draw_rows f rows x (y + scale) scale color (draw_row f bits x y scale color c)

unfoldable pub draw_framebuffer_text : Framebuffer → List ℕ → ℕ → ℕ → ℕ → ℕ → Consoles → Consoles
draw_framebuffer_text f [] cursor y scale color c = c
draw_framebuffer_text f (byte ∷ text) cursor y scale color c =
    draw_framebuffer_text f text (cursor + 6 * scale) y scale color
      (draw_rows f (framebuffer_glyph (to_ascii_uppercase byte)) cursor y scale color c)
