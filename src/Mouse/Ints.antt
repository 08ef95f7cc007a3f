-- ===== src/Mouse/Ints.antt =====
-- The `i32` of kernel-core/src/mouse.rs: integers over the native numbers, with the saturating
-- operations of 32-bit integers.
use open_kernel.Prelude.{ℕ, ◌+◌, ◌-◌, ◌^◌, min, if◌then◌else◌, leb, ltb}

-- `negsuc n` is -(n + 1).
pub data ℤ : Type 0 where
  pos : ℕ → ℤ
  negsuc : ℕ → ℤ

-- The difference of two natural numbers.
abbrev pub sub_ℕ : ℕ → ℕ → ℤ
sub_ℕ a b = if leb b a then pos (a - b) else negsuc (b - a - 1)

abbrev pub neg : ℤ → ℤ
neg (pos n) = sub_ℕ 0 n
neg (negsuc n) = pos (n + 1)

infixl 65 ◌+ℤ◌
abbrev pub ◌+ℤ◌ : ℤ → ℤ → ℤ
pos a +ℤ pos b = pos (a + b)
pos a +ℤ negsuc b = sub_ℕ a (b + 1)
negsuc a +ℤ pos b = sub_ℕ b (a + 1)
negsuc a +ℤ negsuc b = negsuc (a + b + 1)

-- `i32::MAX`; `i32::MIN` is -(2^31 - 1 + 1).
abbrev pub max_position : ℕ
max_position = 2 ^ 31 - 1

-- The nearest `i32`.
abbrev pub saturate : ℤ → ℤ
saturate (pos n) = pos (min n max_position)
saturate (negsuc n) = negsuc (min n max_position)

abbrev pub saturating_add_i32 : ℤ → ℤ → ℤ
saturating_add_i32 a b = saturate (a +ℤ b)

abbrev pub saturating_sub_i32 : ℤ → ℤ → ℤ
saturating_sub_i32 a b = saturate (a +ℤ neg b)

-- `z.max(0)`
abbrev pub max_zero : ℤ → ℤ
max_zero (pos n) = pos n
max_zero (negsuc _) = pos 0

-- `byte as i8 as i32`
abbrev pub delta : ℕ → ℤ
delta byte = if ltb byte 128 then pos byte else negsuc (255 - byte)
