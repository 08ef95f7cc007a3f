-- ===== src/User/Stack.antt =====
-- `initialize_process_stack` of kernel-core/src/user.rs: the arguments and the environment of a new
-- process, over the bytes of its memory by address. The stack is larger than what is written.
pub mod Writes
pub mod Layout
use open_kernel.Prelude.{
  ℕ, ◌+◌, ◌-◌, ◌*◌, ◌/◌, ◌%◌, ◌^◌, List, [], ◌∷◌, ◌++◌, length, take, copy_from,
}

-- `b"PATH=/bin\0"`
abbrev pub path_variable : List ℕ
path_variable = 80 ∷ 65 ∷ 84 ∷ 72 ∷ 61 ∷ 47 ∷ 98 ∷ 105 ∷ 110 ∷ 0 ∷ []

-- `b"PWD=/\0"`
abbrev pub pwd_variable : List ℕ
pwd_variable = 80 ∷ 87 ∷ 68 ∷ 61 ∷ 47 ∷ 0 ∷ []

abbrev pub write_user_bytes : ℕ → List ℕ → (ℕ → ℕ) → ℕ → ℕ
write_user_bytes address bytes m = copy_from m address bytes

-- A word of 64 bits, lowest byte first.
abbrev pub word_bytes : ℕ → List ℕ
word_bytes n =
    n % 256
    ∷ n / 2 ^ 8 % 256
    ∷ n / 2 ^ 16 % 256
    ∷ n / 2 ^ 24 % 256
    ∷ n / 2 ^ 32 % 256
    ∷ n / 2 ^ 40 % 256
    ∷ n / 2 ^ 48 % 256
    ∷ n / 2 ^ 56 % 256
    ∷ []

abbrev pub write_user_word : ℕ → ℕ → (ℕ → ℕ) → ℕ → ℕ
write_user_word address n m = write_user_bytes address (word_bytes n) m

-- `cursor`, and the memory.
pub record Cursor : Type 0 where
  pub cursor : ℕ
  pub bytes : ℕ → ℕ

-- The loop that stores the arguments, from the last to the first, with their addresses in order.
unfoldable pub store_arguments : List (List ℕ) → Cursor → List ℕ × Cursor
store_arguments [] s = ([], s)
store_arguments (value ∷ rest) s =
    let (pointers, s') = store_arguments rest s in
    let at = s'.cursor - (length value + 1) in
    (
      at ∷ pointers,
      record {
        cursor = at;
        bytes = write_user_bytes (at + length value) (0 ∷ []) (write_user_bytes at value s'.bytes);
      },
    )

-- `cursor -= bytes.len(); write_user_bytes(cursor, bytes);`
unfoldable pub store_bytes : List ℕ → Cursor → Cursor
store_bytes bytes s = record {
  cursor = s.cursor - length bytes;
  bytes = write_user_bytes (s.cursor - length bytes) bytes s.bytes;
}

-- `cursor -= 8; write_user_word(cursor, value);`
abbrev pub push : ℕ → Cursor → Cursor
push value s = store_bytes (word_bytes value) s

-- Words are pushed from the last of the list to the first.
unfoldable pub push_all : List ℕ → Cursor → Cursor
push_all [] s = s
push_all (value ∷ rest) s = push value (push_all rest s)

-- `cursor &= !0xF`
unfoldable pub align : Cursor → Cursor
align s = record (s) { cursor = s.cursor / 16 * 16 }

-- The strings: the arguments, then `PATH` and `PWD`.
unfoldable pub store_strings : ℕ → List (List ℕ) → (ℕ → ℕ) → List ℕ × Cursor
store_strings stack_pointer arguments m =
    let (pointers, s) =
      store_arguments arguments (record { cursor = stack_pointer + 8; bytes = m }) in
    (pointers, store_bytes pwd_variable (store_bytes path_variable s))

-- The padding, and the vector that the program starts with: the number of arguments, their
-- addresses, zero, the addresses of `PATH` and `PWD`, zero.
unfoldable pub store_vector : List ℕ → Cursor → Cursor
store_vector pointers s =
    let pwd = s.cursor in
    let path = s.cursor + length pwd_variable in
    push_all (length pointers ∷ (pointers ++ (0 ∷ path ∷ pwd ∷ 0 ∷ 0 ∷ []))) (align s)

-- `arguments.len() - 1` of the caller's arguments are kept.
abbrev pub kept_arguments : List ℕ → List (List ℕ) → List (List ℕ)
kept_arguments program_name argv = program_name ∷ take 4 argv

unfoldable pub initialize_process_stack : ℕ → List ℕ → List (List ℕ) → (ℕ → ℕ) → ℕ × (ℕ → ℕ)
initialize_process_stack stack_pointer program_name argv m =
    let (pointers, s) = store_strings stack_pointer (kept_arguments program_name argv) m in
    let done = store_vector pointers s in (done.cursor, done.bytes)
