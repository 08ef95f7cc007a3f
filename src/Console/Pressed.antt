-- ===== src/Console/Pressed.antt =====
-- Keys that are pressed and polled, of kernel-core/src/console.rs.
use open_kernel.Prelude.{
  ℕ, ◌<◌, ◌≡◌, ◌≢◌, inl, inr, refl, sym, ap, ◌∙◌, false, ◌==◌, ==_of_ne, leb, Bool-cases, none,
  arith, update_self, update_other, bit_and,
}
use open_kernel.Console.{Consoles, tty_count}
use open_kernel.Console.Keys.{
  scancode_alt_make, scancode_alt_break, is_switch, decode_scancode, poll_user_key, handle_scancode,
}

-- A key that waits for the terminal is polled once.
waiting_key :
    (tty : ℕ) (c : Consoles)
    → tty < tty_count
    → (c.tty_states tty).pending_key ≢ 0
    → (poll_user_key tty c).0 ≡ decode_scancode (c.tty_states tty).pending_key
unfolding poll_user_key
waiting_key tty c inside key =
    let no : leb tty_count tty ≡ false = ground (arith, inside) in
    rw (no, ==_of_ne (c.tty_states tty).pending_key 0 key, poll_user_key) refl

no_key :
    (tty : ℕ) (c : Consoles) → (c.tty_states tty).pending_key ≡ 0 → (poll_user_key tty c).0 ≡ none
unfolding poll_user_key
no_key tty c empty = elim (Bool-cases (leb tty_count tty)) [
  | inl out ↦ rw (out, poll_user_key) refl
  | inr inside ↦ rw (inside, empty, poll_user_key) refl
]

poll_takes :
    (tty : ℕ) (c : Consoles)
    → tty < tty_count
    → (((poll_user_key tty c).1).tty_states tty).pending_key ≡ 0
unfolding poll_user_key
poll_takes tty c inside =
    let no : leb tty_count tty ≡ false = ground (arith, inside) in
    elim (Bool-cases ((c.tty_states tty).pending_key == 0)) [
      | inl empty ↦
          rw (no, empty, poll_user_key) (ap (λ s. s.pending_key) (update_self c.tty_states tty _))
      | inr key ↦
          rw (no, key, poll_user_key) (ap (λ s. s.pending_key) (update_self c.tty_states tty _))
    ]

-- What a key that is pressed does.
pub record Pressed (byte : ℕ) (c c' : Consoles) : Type 0 where
  pub polled : (poll_user_key c.active_tty c').0 ≡ decode_scancode byte
  pub once : (poll_user_key c.active_tty (poll_user_key c.active_tty c').1).0 ≡ none
  pub others : (tty : ℕ) → tty ≢ c.active_tty → c'.tty_states tty ≡ c.tty_states tty
  pub picture : (c'.screen ≡ c.screen) × (c'.tty_buffers ≡ c.tty_buffers)

queued :
    (byte : ℕ) (c : Consoles)
    → bit_and byte 0x80 ≡ 0
    → byte ≢ scancode_alt_make
    → byte ≢ scancode_alt_break
    → is_switch byte c ≡ false
    → handle_scancode byte c
      ≡ open_kernel.Console.set_tty_state c.active_tty
          (record (c.tty_states c.active_tty) { pending_key = byte })
          c
unfolding handle_scancode
queued byte c make no_make no_break stays =
    rw
      (
        ==_of_ne byte scancode_alt_make no_make,
        ==_of_ne byte scancode_alt_break no_break,
        stays,
        make,
        handle_scancode,
      )
      refl

-- A key that is pressed, and is neither Alt nor a key that switches terminals, is polled by the active
-- terminal once, as what its scancode decodes to, whatever key was pressed before and not polled; no
-- other terminal and no picture changes.
pub handle_scancode-Pressed :
    (byte : ℕ) (c : Consoles)
    → c.active_tty < tty_count
    → bit_and byte 0x80 ≡ 0
    → byte ≢ 0
    → byte ≢ scancode_alt_make
    → is_switch byte c ≡ false
    → Pressed byte c (handle_scancode byte c)
handle_scancode-Pressed byte c inside make some_key no_make stays =
    let no_break : byte ≢ scancode_alt_break = λ e.
      let wrong : bit_and scancode_alt_break 0x80 ≡ 0 = ap (λ b. bit_and b 0x80) (sym e) ∙ make in
      omega (arith, wrong) in
    let tty = c.active_tty in
    let s = update_self c.tty_states tty (record (c.tty_states tty) { pending_key = byte }) in
    let key = ap (λ t. t.pending_key) s in
    rw (queued byte c make no_make no_break stays) (record {
      polled = waiting_key tty _ inside (λ e. some_key (sym key ∙ e)) ∙ ap decode_scancode key;
      once = no_key tty _ (poll_takes tty _ inside);
      others = λ t ne. update_other c.tty_states tty _ t ne;
      picture = (refl, refl);
    })
