-- ===== src/Memory/Bytes.antt =====
-- The bits of a byte, as kernel-core/src/memory.rs sets and tests them.
use open_kernel.Prelude.{
  ℕ, has_value, first_from, first_from-none, Option-cases, inl, inr, true≢false, ◌-◌, ◌^◌, ◌<◌, ◌≡◌,
  refl, Bool, true, false, not, ◌&&◌, if◌then◌else◌, ◌==◌, ltb, bit_and, bit_or, arith, ◌/◌, ◌%◌,
  update, update_self, update_other, ℕ_discrete, ap, ◌∙◌, ==_of_ne, ==_refl, sym,
}

-- `byte & (1 << i) != 0`
unfoldable pub has_bit : ℕ → ℕ → Bool
has_bit byte i = not (bit_and byte (2 ^ i) == 0)

-- `current | mask` or `current & !mask`, on `u8`.
unfoldable pub with_bit : ℕ → ℕ → Bool → ℕ
with_bit byte i value = if value then bit_or byte (2 ^ i) else bit_and byte (255 - 2 ^ i)

-- No index under `n` fails the test.
none_fails : (ℕ → Bool) → ℕ → Bool
none_fails p n = not (has_value (first_from (λ i. not (p i)) 0 n))

none_fails_at : (p : ℕ → Bool) (n i : ℕ) → none_fails p n ≡ true → i < n → p i ≡ true
unfolding none_fails
none_fails_at p n i h lt = elim (Option-cases (first_from (λ i. not (p i)) 0 n)) [
  | inl passed ↦
      ground (arith, first_from-none (λ i. not (p i)) 0 n passed i (omega arith) (omega arith))
  | inr (failed, e) ↦ absurd (true≢false (sym h ∙ rw e refl))
]

same_bool : Bool → Bool → Bool
same_bool true b = b
same_bool false b = not b

same_bool_sound : (a b : Bool) → same_bool a b ≡ true → a ≡ b
unfolding same_bool
same_bool_sound a b h = ground arith

-- One entry of the table: a bit written, another read back, and the range of the byte.
entry_holds : Bool → ℕ → ℕ → ℕ → Bool
entry_holds value byte i j =
    ltb (with_bit byte i value) 256
    && same_bool (has_bit (with_bit byte i value) j) (if j == i then value else has_bit byte j)

-- The rows of the table: bytes, the bits written, the bits read back.
row : Bool → ℕ → ℕ → Bool
row value byte i = none_fails (entry_holds value byte i) 8

rows : Bool → ℕ → Bool
rows value byte = none_fails (row value byte) 8

rows_of_true : none_fails (rows true) 256 ≡ true
unfolding rows row none_fails first_from entry_holds same_bool with_bit has_bit
rows_of_true = refl

rows_of_false : none_fails (rows false) 256 ≡ true
unfolding rows row none_fails first_from entry_holds same_bool with_bit has_bit
rows_of_false = refl

rows_of : (value : Bool) → none_fails (rows value) 256 ≡ true
rows_of true = rows_of_true
rows_of false = rows_of_false

entry_sound :
    (value : Bool) (byte i j : ℕ) → byte < 256 → i < 8 → j < 8 → entry_holds value byte i j ≡ true
unfolding rows row
entry_sound value byte i j hb hi hj =
    none_fails_at (entry_holds value byte i) 8 j
      (none_fails_at (row value byte) 8 i (none_fails_at (rows value) 256 byte (rows_of value) hb)
        hi)
      hj

pub with_bit-lt : (byte i : ℕ) (value : Bool) → byte < 256 → i < 8 → with_bit byte i value < 256
unfolding entry_holds
with_bit-lt byte i value hb hi = ground (arith, entry_sound value byte i 0 hb hi (omega arith))

pub has_bit-with_bit :
    (byte i j : ℕ) (value : Bool)
    → byte < 256
    → i < 8
    → j < 8
    → has_bit (with_bit byte i value) j ≡ (if j == i then value else has_bit byte j)
unfolding entry_holds
has_bit-with_bit byte i j value hb hi hj =
    same_bool_sound (has_bit (with_bit byte i value) j) (if j == i then value else has_bit byte j)
      (ground (arith, entry_sound value byte i j hb hi hj))

full_byte : (i : ℕ) → i < 8 → has_bit 255 i ≡ true
unfolding has_bit none_fails first_from
full_byte i h = none_fails_at (has_bit 255) 8 i refl h

empty_byte : (i : ℕ) → i < 8 → not (has_bit 0 i) ≡ true
unfolding has_bit none_fails first_from
empty_byte i h = none_fails_at (λ i. not (has_bit 0 i)) 8 i refl h

-- The bit of a frame in a bitmap.
unfoldable pub bit : (ℕ → ℕ) → ℕ → Bool
bit bitmap frame = has_bit (bitmap (frame / 8)) (frame % 8)

-- `set`
unfoldable pub set : ℕ → Bool → (ℕ → ℕ) → ℕ → ℕ
set frame value bitmap = update bitmap (frame / 8) (with_bit (bitmap (frame / 8)) (frame % 8) value)

-- Every byte of a bitmap is a byte.
abbrev pub IsBitmap : (ℕ → ℕ) → Type 0
IsBitmap bitmap = (i : ℕ) → bitmap i < 256

pub set-IsBitmap :
    (frame : ℕ) (value : Bool) (m : ℕ → ℕ) → IsBitmap m → IsBitmap (set frame value m)
unfolding set
set-IsBitmap frame value m h i = elim (ℕ_discrete i (frame / 8)) [
  | yes at ↦
      rw (at, update_self m (frame / 8) (with_bit (m (frame / 8)) (frame % 8) value))
        (with_bit-lt (m (frame / 8)) (frame % 8) value (h (frame / 8)) (omega arith))
  | no ne ↦ rw (update_other m (frame / 8) (with_bit (m (frame / 8)) (frame % 8) value) i ne) (h i)
]

same_test : (frame other : ℕ) → other / 8 ≡ frame / 8 → (other % 8 == frame % 8) ≡ (other == frame)
same_test frame other at = elim (ℕ_discrete other frame) [
  | yes e ↦ rw e (==_refl (frame % 8) ∙ sym (==_refl frame))
  | no e ↦
      ==_of_ne (other % 8) (frame % 8) (λ s. e (omega (arith, at, s)))
      ∙ sym (==_of_ne other frame e)
]

-- A bitmap holds what was last set for each frame.
pub bit-set :
    (frame other : ℕ) (value : Bool) (m : ℕ → ℕ)
    → IsBitmap m
    → bit (set frame value m) other ≡ (if other == frame then value else bit m other)
unfolding bit set
bit-set frame other value m h = elim (ℕ_discrete (other / 8) (frame / 8)) [
  | yes at ↦
      rw (at, update_self m (frame / 8) (with_bit (m (frame / 8)) (frame % 8) value))
        (has_bit-with_bit (m (frame / 8)) (frame % 8) (other % 8) value (h (frame / 8))
            (omega arith) (omega arith)
          ∙ ap (λ (b : Bool). if b then value else has_bit (m (frame / 8)) (other % 8))
              (same_test frame other at))
  | no ne ↦
      rw
        (
          update_other m (frame / 8) (with_bit (m (frame / 8)) (frame % 8) value) (other / 8) ne,
          ==_of_ne other frame (λ e. ne (ap (λ x. x / 8) e)),
        )
        refl
]

pub full-IsBitmap : IsBitmap (λ _. 255)
full-IsBitmap i = omega arith

pub bit-full : (frame : ℕ) → bit (λ _. 255) frame ≡ true
unfolding bit
bit-full frame = full_byte (frame % 8) (omega arith)

pub bit-empty : (frame : ℕ) → bit (λ _. 0) frame ≡ false
unfolding bit
bit-empty frame = ground (arith, empty_byte (frame % 8) (omega arith))

pub empty-IsBitmap : IsBitmap (λ _. 0)
empty-IsBitmap i = omega arith
