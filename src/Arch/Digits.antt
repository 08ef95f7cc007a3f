-- ===== src/Arch/Digits.antt =====
-- The printing of numbers in kernel-core/src/arch.rs.
use open_kernel.Prelude.{
  ℕ, zero, suc, ◌+◌, ◌-◌, ◌*◌, ◌/◌, ◌%◌, ◌^◌, ◌≤◌, ◌<◌, ◌≡◌, inl, inr, refl, ◌∙◌, if◌then◌else◌,
  ◌==◌, ltb, Bool-cases, List, [], ◌∷◌, ◌++◌, length, length-append, arith,
}

-- `while value != 0`, lowest digit first, in at most as many rounds as the array has places.
unfoldable pub digits_from : ℕ → ℕ → List ℕ
digits_from zero value = []
digits_from (suc places) value =
    let rest = digits_from places (value / 10) in
    if value == 0 then [] else (48 + value % 10) ∷ rest

unfoldable pub reverse : List ℕ → List ℕ
reverse [] = []
reverse (c ∷ rest) = reverse rest ++ (c ∷ [])

-- `[0_u8; 20]`
abbrev pub max_digits : ℕ
max_digits = 20

-- What `console_output_decimal` and `syscall_pci_status` print.
unfoldable pub decimal : ℕ → List ℕ
decimal value = if value == 0 then 48 ∷ [] else reverse (digits_from max_digits value)

unfoldable pub hex_digit : ℕ → ℕ
hex_digit value = if ltb value 10 then 48 + value else 65 + value - 10

-- `write_hex`, with `n` digits left.
unfoldable pub hex_from : ℕ → ℕ → List ℕ
hex_from zero value = []
hex_from (suc n) value = hex_digit (value / 2 ^ (n * 4) % 16) ∷ hex_from n value

-- How a decimal is read.
unfoldable pub parse_from : ℕ → List ℕ → ℕ
parse_from acc [] = acc
parse_from acc (c ∷ rest) = parse_from (acc * 10 + (c - 48)) rest

parse_from-snoc :
    (acc c : ℕ) (cs : List ℕ) → parse_from acc (cs ++ (c ∷ [])) ≡ parse_from acc cs * 10 + (c - 48)
unfolding parse_from
parse_from-snoc acc c [] = refl
parse_from-snoc acc c (d ∷ cs) = parse_from-snoc (acc * 10 + (d - 48)) c cs

-- The powers of ten, as sizes.
abbrev limit : ℕ → ℕ
limit zero = 1
limit (suc n) = 10 * limit n

parse-digits :
    (places value : ℕ)
    → value < limit places
    → parse_from 0 (reverse (digits_from places value)) ≡ value
unfolding digits_from reverse parse_from
parse-digits zero value h = omega arith
parse-digits (suc places) value h = elim (Bool-cases (value == 0)) [
  | inl none_left ↦ rw none_left (ground arith)
  | inr more ↦ rw more (
      parse_from-snoc 0 (48 + value % 10) (reverse (digits_from places (value / 10)))
      ∙ rw (parse-digits places (value / 10) (omega arith)) (omega arith))
]

length-reverse : (cs : List ℕ) → length (reverse cs) ≡ length cs
unfolding reverse
length-reverse [] = refl
length-reverse (c ∷ cs) = omega (arith, length-append (reverse cs) (c ∷ []), length-reverse cs)

length-digits : (places value : ℕ) → length (digits_from places value) ≤ places
unfolding digits_from
length-digits zero value = omega arith
length-digits (suc places) value = ground (arith, length-digits places (value / 10))

-- Every number of 64 bits is printed in at most 20 digits, and reads back as itself: the array is
-- large enough, and the loop ends.
pub parse-decimal :
    (value : ℕ)
    → value < 2 ^ 64
    → (parse_from 0 (decimal value) ≡ value) × (length (decimal value) ≤ max_digits)
unfolding decimal parse_from
parse-decimal value h = elim (Bool-cases (value == 0)) [
  | inl nothing ↦ rw nothing (ground arith, omega arith)
  | inr something ↦ rw something (
    parse-digits max_digits value (omega arith),
    omega (arith, length-reverse (digits_from max_digits value), length-digits max_digits value),
  )
]
