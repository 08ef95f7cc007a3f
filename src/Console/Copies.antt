-- ===== src/Console/Copies.antt =====
-- What a blit of kernel-core/src/console.rs copies: the whole picture.
use open_kernel.Prelude.{
  ℕ, zero, suc, ◌+◌, ◌-◌, ◌*◌, ◌≤◌, ◌<◌, ◌≡◌, ◌⊎◌, inl, inr, refl, sym, ap, ◌∙◌, subst, arith,
  update, update_self, slice_from, copy_from, copy_from_outside, length-slice_from, dec_lt,
}
use open_kernel.Console.{
  on_screen, Framebuffer, Consoles, bytes_at, set_bytes_at, for_range, blit_pixel,
}
use open_kernel.Console.Drawing.{buffer_of}

-- A copied slice, byte by byte.
copied_at :
    (a b : ℕ → ℕ) (o s n k : ℕ) → k < n → copy_from a o (slice_from b s n) (o + k) ≡ b (s + k)
unfolding copy_from slice_from
copied_at a b o s zero k h = absurd (omega arith)
copied_at a b o s (suc n) zero h =
    let o0 : o + 0 ≡ o = omega arith in
    let s0 : s + 0 ≡ s = omega arith in
    rw (o0, s0)
      (copy_from_outside (update a o (b s)) (o + 1) (slice_from b (s + 1) n) o (inl (omega arith))
        ∙ update_self a o (b s))
copied_at a b o s (suc n) (suc k) h =
    let o1 : o + suc k ≡ o + 1 + k = omega arith in
    let s1 : s + suc k ≡ s + 1 + k = omega arith in
    rw (o1, s1) (copied_at (update a o (b s)) b (o + 1) (s + 1) n k (omega arith))

-- A part of the screen, from `low` to `high` with the picture's row at `o`, holds the bytes of the
-- buffer's row at `s`; the rest of the screen and the buffers are as before.
record Copied (tty o s low high : ℕ) (c c' : Consoles) : Type 0 where
  buffers : c'.tty_buffers ≡ c.tty_buffers
  inside : (x : ℕ) → low ≤ x → x < high → c'.screen (o + x) ≡ c.tty_buffers tty (s + x)
  outside : (j : ℕ) → (j < o + low) ⊎ (o + high ≤ j) → c'.screen j ≡ c.screen j

blit_pixel-Copied :
    (tty row column : ℕ) (p : Framebuffer) (c : Consoles)
    → p.address ≡ on_screen
    → Copied tty
        (row * p.pitch)
        (row * (p.width * 4))
        (column * 4)
        (column * 4 + 4)
        c
        (blit_pixel (buffer_of tty p) p row column c)
unfolding blit_pixel bytes_at set_bytes_at
blit_pixel-Copied tty row column p c at =
    let o = row * p.pitch + column * 4 in
    let s = row * (p.width * 4) + column * 4 in
    let bytes = slice_from (c.tty_buffers tty) s 4 in
    rw at (record {
      buffers = refl;
      inside = λ x low high.
          let ox : row * p.pitch + x ≡ o + (x - column * 4) = omega arith in
          let sx : row * (p.width * 4) + x ≡ s + (x - column * 4) = omega arith in
          ap (copy_from c.screen o bytes) ox
          ∙ copied_at c.screen (c.tty_buffers tty) o s 4 (x - column * 4) (omega arith)
          ∙ ap (c.tty_buffers tty) (sym sx);
      outside = λ j h. copy_from_outside c.screen o bytes j (elim h [
        | inl before ↦ inl (omega (arith, before))
        | inr behind ↦ inr (omega (arith, behind, length-slice_from (c.tty_buffers tty) s 4))
      ]);
    })

-- Neighbouring parts of a row make one.
Copied-then :
    (tty o s low mid high : ℕ) (c c' c'' : Consoles)
    → low ≤ mid
    → mid ≤ high
    → Copied tty o s low mid c c'
    → Copied tty o s mid high c' c''
    → Copied tty o s low high c c''
Copied-then tty o s low mid high c c' c'' lm mh f g = record {
  buffers = g.buffers ∙ f.buffers;
  inside = λ x lo hi. elim (dec_lt x mid) [
    | yes left ↦ g.outside (o + x) (inl (omega arith)) ∙ f.inside x lo left
    | no right ↦ g.inside x (omega arith) hi ∙ ap (λ b. b tty (s + x)) f.buffers
  ];
  outside = λ j h. elim h [
    | inl before ↦ g.outside j (inl (omega arith)) ∙ f.outside j (inl before)
    | inr behind ↦ g.outside j (inr behind) ∙ f.outside j (inr (omega arith))
  ];
}

row-Copied :
    (tty row column n : ℕ) (p : Framebuffer) (c : Consoles)
    → p.address ≡ on_screen
    → Copied tty
        (row * p.pitch)
        (row * (p.width * 4))
        (column * 4)
        ((column + n) * 4)
        c
        (for_range column n (blit_pixel (buffer_of tty p) p row) c)
unfolding for_range
row-Copied tty row column zero p c at = record {
  buffers = refl;
  inside = λ x low high. absurd (omega arith);
  outside = λ _ _. refl;
}
row-Copied tty row column (suc n) p c at =
    let c' = blit_pixel (buffer_of tty p) p row column c in
    let c'' = for_range (column + 1) n (blit_pixel (buffer_of tty p) p row) c' in
    let rest : Copied tty (row * p.pitch) (row * (p.width * 4)) (column * 4 + 4)
        ((column + suc n) * 4) c' c'' =
      let l : (column + 1) * 4 ≡ column * 4 + 4 = omega arith in
      let u : (column + 1 + n) * 4 ≡ (column + suc n) * 4 = omega arith in
      subst (λ k. Copied tty (row * p.pitch) (row * (p.width * 4)) k ((column + suc n) * 4) c' c'')
        l
        (subst (λ k. Copied tty (row * p.pitch) (row * (p.width * 4)) ((column + 1) * 4) k c' c'') u
          (row-Copied tty row (column + 1) n p c' at)) in
    Copied-then tty (row * p.pitch) (row * (p.width * 4)) (column * 4) (column * 4 + 4)
      ((column + suc n) * 4) c c' c'' (omega arith) (omega arith)
      (blit_pixel-Copied tty row column p c at) rest

-- The rows from `start` on, `n` of them, are on the screen.
pub record Shown (tty start n : ℕ) (p : Framebuffer) (c c' : Consoles) : Type 0 where
  pub buffers : c'.tty_buffers ≡ c.tty_buffers
  pub inside :
      (y x : ℕ)
      → start ≤ y
      → y < start + n
      → x < p.width * 4
      → c'.screen (y * p.pitch + x) ≡ c.tty_buffers tty (y * (p.width * 4) + x)
  pub above : (j : ℕ) → j < start * p.pitch → c'.screen j ≡ c.screen j

pub rows-Shown :
    (tty start n : ℕ) (p : Framebuffer) (c : Consoles)
    → p.address ≡ on_screen
    → p.width * 4 ≤ p.pitch
    → Shown tty start n p c
        (for_range start n (λ row. for_range 0 p.width (blit_pixel (buffer_of tty p) p row)) c)
unfolding for_range
rows-Shown tty start zero p c at wide = record {
  buffers = refl;
  inside = λ y x lo hi. absurd (omega arith);
  above = λ _ _. refl;
}
rows-Shown tty start (suc n) p c at wide =
    let c' = for_range 0 p.width (blit_pixel (buffer_of tty p) p start) c in
    let row = row-Copied tty start 0 p.width p c at in
    let rest = rows-Shown tty (start + 1) n p c' at wide in
    record {
      buffers = rest.buffers ∙ row.buffers;
      inside = λ y x lo hi hx. elim (dec_lt start y) [
        | yes later ↦
            rest.inside y x (omega arith) (omega arith) hx
            ∙ ap (λ b. b tty (y * (p.width * 4) + x)) row.buffers
        | no first ↦
            let same : y ≡ start = omega arith in
            rw same (
              rest.above (start * p.pitch + x) (omega (arith, wide, hx))
              ∙ row.inside x (omega arith) (omega (arith, hx)))
      ];
      above = λ j h. rest.above j (omega (arith, h)) ∙ row.outside j (inl (omega (arith, h)));
    }
