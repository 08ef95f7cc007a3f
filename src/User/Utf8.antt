-- ===== src/User/Utf8.antt =====
-- `core::str::from_utf8`, which kernel-core/src/user.rs calls on the bytes of a path.
use open_kernel.Prelude.{ℕ, Bool, true, ◌&&◌, if◌then◌else◌, ◌==◌, ltb, leb, List, [], ◌∷◌}

abbrev within : ℕ → ℕ → ℕ → Bool
within low high byte = leb low byte && leb byte high

abbrev is_tail : ℕ → Bool
is_tail byte = within 0x80 0xBF byte

-- The second bytes that may follow a first byte of a sequence of three.
abbrev second_of_three : ℕ → ℕ → Bool
second_of_three first byte =
    if first == 0xE0
    then within 0xA0 0xBF byte
    else if first == 0xED
    then within 0x80 0x9F byte
    else within 0xE1 0xEF first && is_tail byte

abbrev second_of_four : ℕ → ℕ → Bool
second_of_four first byte =
    if first == 0xF0
    then within 0x90 0xBF byte
    else if first == 0xF4
    then within 0x80 0x8F byte
    else within 0xF1 0xF3 first && is_tail byte

unfoldable pub is_utf8 : List ℕ → Bool
is_utf8 [] = true
is_utf8 (a ∷ []) = ltb a 0x80
is_utf8 (a ∷ b ∷ []) = if ltb a 0x80 then ltb b 0x80 else within 0xC2 0xDF a && is_tail b
is_utf8 (a ∷ b ∷ c ∷ []) =
    let one = is_utf8 (b ∷ c ∷ []) in
    let two = ltb c 0x80 in
    if ltb a 0x80
    then one
    else if within 0xC2 0xDF a
    then is_tail b && two
    else second_of_three a b && is_tail c
is_utf8 (a ∷ b ∷ c ∷ d ∷ rest) =
    let one = is_utf8 (b ∷ c ∷ d ∷ rest) in
    let two = is_utf8 (c ∷ d ∷ rest) in
    let three = is_utf8 (d ∷ rest) in
    let four = is_utf8 rest in
    if ltb a 0x80
    then one
    else if within 0xC2 0xDF a
    then is_tail b && two
    else if within 0xE0 0xEF a
    then second_of_three a b && (is_tail c && three)
    else second_of_four a b && (is_tail c && (is_tail d && four))
