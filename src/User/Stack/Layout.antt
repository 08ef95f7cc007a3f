-- ===== src/User/Stack/Layout.antt =====
-- The stack of a new process (`initialize_process_stack` of kernel-core/src/user.rs).
use open_kernel.Prelude.{
  ℕ, ◌+◌, ◌*◌, ◌%◌, ◌≤◌, ◌≡◌, ap, subst, ◌∙◌, List, [], ◌∷◌, ◌++◌, length, length-append,
  slice_from, arith,
}
use open_kernel.User.Stack.{
  Cursor, path_variable, pwd_variable, store_arguments, store_bytes, push_all, align, store_strings,
  store_vector, kept_arguments, initialize_process_stack,
}
use open_kernel.User.Stack.Writes.{
  SameFrom, Words, Strings, Strings-same, slice-same, size_of, store_bytes-Stored,
  store_bytes-found, push_all-Stored, store_arguments-Stored,
}

-- What a program finds: `r` is its stack pointer and its memory.
pub record Started (stack_pointer : ℕ) (values : List (List ℕ)) (m : ℕ → ℕ) (r : ℕ × (ℕ → ℕ))
    : Type 0 where
  pub pointers : List ℕ
  pub path : ℕ
  pub pwd : ℕ
  pub vector : Words r.1 r.0 (length values ∷ (pointers ++ (0 ∷ path ∷ pwd ∷ 0 ∷ 0 ∷ [])))
  pub strings : Strings r.0 r.1 pointers values
  pub path_is : slice_from r.1 path (length path_variable) ≡ path_variable
  pub pwd_is : slice_from r.1 pwd (length pwd_variable) ≡ pwd_variable
  pub above : SameFrom (stack_pointer + 8) m r.1
  pub aligned : r.0 % 16 ≡ 8 * (length values % 2)

-- What is written, with the loss of the alignment.
abbrev pub room_of : List (List ℕ) → ℕ
room_of values =
    size_of values + (length path_variable + length pwd_variable) + 16 + (length values + 6) * 8

laid_out :
    (stack_pointer : ℕ) (values : List (List ℕ)) (m : ℕ → ℕ)
    → room_of values ≤ stack_pointer + 8
    → let (pointers, s) = store_strings stack_pointer values m in
      let done = store_vector pointers s in Started stack_pointer values m (done.cursor, done.bytes)
unfolding store_strings store_vector align
laid_out stack_pointer values m room =
    let s0 : Cursor = record { cursor = stack_pointer + 8; bytes = m } in
    let (pointers, s1) = store_arguments values s0 in
    let (f1, (strings, same)) = store_arguments-Stored values s0 (omega arith) in
    let s2 = store_bytes path_variable s1 in
    let f2 = store_bytes-Stored path_variable s1 (omega (arith, f1.moved)) in
    let s3 = store_bytes pwd_variable s2 in
    let f3 = store_bytes-Stored pwd_variable s2 (omega (arith, f1.moved, f2.moved)) in
    let s4 = align s3 in
    let ws =
      length pointers
      ∷ (pointers ++ (0 ∷ (s3.cursor + length pwd_variable) ∷ s3.cursor ∷ 0 ∷ 0 ∷ [])) in
    let long : length ws ≡ length values + 6 = omega (
      arith,
      same,
      length-append pointers (0 ∷ (s3.cursor + length pwd_variable) ∷ s3.cursor ∷ 0 ∷ 0 ∷ []),
    ) in
    let (f5, words) = push_all-Stored ws s4 (omega (arith, long, f1.moved, f2.moved, f3.moved)) in
    let s5 = push_all ws s4 in
    let low : s4.cursor ≤ s3.cursor = omega arith in
    let after3 : SameFrom s3.cursor s3.bytes s5.bytes = λ j h. f5.above j (omega (arith, low)) in
    let after2 : SameFrom s2.cursor s2.bytes s5.bytes =
      λ j h. after3 j (omega (arith, f3.moved)) ∙ f3.above j h in
    let after1 : SameFrom s1.cursor s1.bytes s5.bytes =
      λ j h. after2 j (omega (arith, f2.moved)) ∙ f2.above j h in
    record {
      pointers = pointers;
      path = s3.cursor + length pwd_variable;
      pwd = s3.cursor;
      vector =
          subst
            (λ n.
              Words s5.bytes s5.cursor (
                n ∷ (pointers ++ (0 ∷ (s3.cursor + length pwd_variable) ∷ s3.cursor ∷ 0 ∷ 0 ∷ []))))
            same words;
      strings =
          Strings-same s1.cursor s5.cursor pointers values s1.bytes s5.bytes after1
            (omega (arith, f5.moved, f3.moved, f2.moved, low)) strings;
      path_is =
          ap (λ a. slice_from s5.bytes a (length path_variable)) f3.moved
          ∙ slice-same s2.cursor s2.cursor (length path_variable) s2.bytes s5.bytes after2
              (omega arith)
          ∙ store_bytes-found path_variable s1;
      pwd_is =
          slice-same s3.cursor s3.cursor (length pwd_variable) s3.bytes s5.bytes after3
            (omega arith)
          ∙ store_bytes-found pwd_variable s2;
      above = λ j h. after1 j (omega (arith, f1.moved)) ∙ f1.above j h;
      aligned = omega (arith, f5.moved, long);
    }

-- On a stack with enough room, a new process starts with the number of its arguments on top, then
-- their addresses in order (its name first, and at most four more), zero, the addresses of `PATH`
-- and `PWD`, and zero; at each address stands its string, with a zero behind it, and nothing at or
-- above the first word behind the given stack pointer changes. The stack pointer is 8 modulo 16
-- exactly if the number of arguments is odd, and 0 otherwise.
pub initialize_process_stack-Started :
    (stack_pointer : ℕ) (program_name : List ℕ) (argv : List (List ℕ)) (m : ℕ → ℕ)
    → room_of (kept_arguments program_name argv) ≤ stack_pointer + 8
    → Started stack_pointer
        (kept_arguments program_name argv)
        m
        (initialize_process_stack stack_pointer program_name argv m)
unfolding initialize_process_stack
initialize_process_stack-Started stack_pointer program_name argv m room =
    laid_out stack_pointer (kept_arguments program_name argv) m room
