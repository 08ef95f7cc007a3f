-- ===== src/Arch/Guards.antt =====
-- The checks of user addresses in kernel-core/src/arch.rs.
use open_kernel.Prelude.{
  ℕ, ◌+◌, ◌%◌, ◌^◌, ◌≤◌, ◌≡◌, ◌↔◌, Bool, true, false, ◌&&◌, ◌||◌, if◌then◌else◌, ◌==◌, ltb, leb,
  Option, none, some, arith,
}
use open_kernel.Elf.Image.{future_user_space_base}

-- `USER_SPACE_END` of `user_bytes` and `valid_user_word`.
abbrev pub user_bytes_end : ℕ
user_bytes_end = 0x800000000000

-- `a.checked_add(b)`
abbrev pub add_checked : ℕ → ℕ → Option ℕ
add_checked a b = if ltb (a + b) (2 ^ 64) then some (a + b) else none

-- The slice that `user_bytes` and `user_bytes_mut` give: where it begins, and its length.
unfoldable pub user_bytes : ℕ → ℕ → ℕ → Option (ℕ × ℕ)
user_bytes pointer size maximum = elim (add_checked pointer size) [
  | none ↦ none
  | some end ↦
      if ltb pointer future_user_space_base || (ltb user_bytes_end end || ltb maximum size)
      then none
      else some (pointer, size)
]

unfoldable pub valid_user_word : ℕ → Bool
valid_user_word address =
    address % 4 == 0
    && (leb future_user_space_base address
        && (elim (add_checked address 4) [ none ↦ false | some end ↦ leb end user_bytes_end ]))

-- A slice is given exactly if it lies in user space as a whole and is not longer than allowed; the
-- end does not wrap.
pub user_bytes_iff :
    (pointer size maximum : ℕ)
    → (user_bytes pointer size maximum ≡ some (pointer, size))
      ↔ ((future_user_space_base ≤ pointer) × (pointer + size ≤ user_bytes_end) × (size ≤ maximum))
unfolding user_bytes
user_bytes_iff pointer size maximum = (λ e. ground arith, λ h. ground arith)

-- A word is valid exactly if its four bytes lie in user space and it is aligned.
pub valid_user_word_iff :
    (address : ℕ)
    → (valid_user_word address ≡ true)
      ↔ ((address % 4 ≡ 0) × (future_user_space_base ≤ address) × (address + 4 ≤ user_bytes_end))
unfolding valid_user_word
valid_user_word_iff address = (λ e. ground arith, λ h. ground arith)
