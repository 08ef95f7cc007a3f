-- ===== src/Elf/Loads.antt =====
-- What the whole of `load_user_elf_into` of kernel-core/src/elf.rs keeps, with the stack and the
-- thread-local storage.
use open_kernel.Prelude.{
  Result-cases, ℕ, ◌+◌, ◌-◌, ◌*◌, ◌/◌, max, false, none, ltb, List, length, Bool-cases,
  Option-cases, inl, inr,
}
use open_kernel.Elf.{
  Loader, Progress, load_pages, load_headers, load_initial_tls, finish, load_user_elf_into,
  user_tls_base, tls_tcb_size,
}
use open_kernel.Elf.Image.{
  TlsImage, checked_add, page_of, page_size, user_read_write, header_is_valid, read_u16, read_u64,
  program_header_size,
}
use open_kernel.Elf.Safety.{Respects, pages-kept, headers-kept}

module _ {M : Type 0} (loader : Loader M) (In : ℕ → Type 0) (I : M → Type 0)
    (respects : Respects loader In I) (admits : (page : ℕ) → In page)
    (on_stack : (space slot : ℕ) (m : M)
      → I m
      → I (loader.allocate_user_stack_in space slot m).1) where
  tls-kept :
      (image : List ℕ) (space slot : ℕ) (t : TlsImage) (m : M)
      → I m
      → I (load_initial_tls loader image space slot t m).1
  unfolding load_initial_tls
  tls-kept image space slot t m i =
      let align = max t.align 16 in
      let base = user_tls_base + slot * 0x10000 in
      elim (Option-cases (checked_add (max t.memory_size 1) (align - 1))) [
        | inl e ↦ rw (e, load_initial_tls) i
        | inr (sum, e) ↦ elim (Option-cases (checked_add base (sum / align * align))) [
          | inl f ↦ rw (e, f, load_initial_tls) i
          | inr (fs_base, f) ↦ elim (Option-cases (checked_add fs_base tls_tcb_size)) [
            | inl g ↦ rw (e, f, g, load_initial_tls) i
            | inr (end_, g) ↦
                let n = (page_of (end_ - 1) - page_of base) / page_size in
                let kept =
                  pages-kept loader In I respects n space (page_of base) base t.file_offset
                    t.file_size user_read_write image m (λ k le. admits _) i in
                elim (Result-cases
                  (load_pages loader space user_read_write base t.file_offset t.file_size image
                    (page_of base) n m).0) [
                      | inr (bad, r) ↦ rw (e, f, g, r, load_initial_tls) kept
                      | inl (u, r) ↦ rw (e, f, g, r, load_initial_tls) kept
                    ]
          ]
        ]
      ]

  finish-kept :
      (image : List ℕ) (space slot entry : ℕ) (p : Progress) (m : M)
      → I m
      → I (finish loader image space slot entry p m).1
  unfolding finish
  finish-kept image space slot entry p m i =
      let out = loader.allocate_user_stack_in space slot m in
      let kept = on_stack space slot m i in
      elim (Bool-cases p.entry_is_executable) [
        | inr stays ↦ rw (stays, finish) i
        | inl runs ↦ elim (Result-cases out.0) [
          | inr (bad, r) ↦ rw (runs, r, finish) kept
          | inl (top, r) ↦ elim (Option-cases p.tls) [
            | inl e ↦ rw (runs, r, e, finish) kept
            | inr (t, e) ↦
                let kept' = tls-kept image space slot t out.1 kept in
                elim (Result-cases (load_initial_tls loader image space slot t out.1).0) [
                  | inr (bad, l) ↦ rw (runs, r, e, l, finish) kept'
                  | inl (base, l) ↦ rw (runs, r, e, l, finish) kept'
                ]
          ]
        ]
      ]

  pub load_user_elf_into-kept :
      (image : List ℕ) (space slot : ℕ) (m : M)
      → I m
      → I (load_user_elf_into loader image space slot m).1
  unfolding load_user_elf_into
  load_user_elf_into-kept image space slot m i = elim (Bool-cases (header_is_valid image)) [
    | inr bad ↦ rw (bad, load_user_elf_into) i
    | inl good ↦ elim (Option-cases (read_u64 image 24)) [
      | inl e ↦ rw (good, e, load_user_elf_into) i
      | inr (entry, e) ↦ elim (Option-cases (read_u64 image 32)) [
        | inl f ↦ rw (good, e, f, load_user_elf_into) i
        | inr (table, f) ↦ elim (Option-cases (read_u16 image 56)) [
          | inl g ↦ rw (good, e, f, g, load_user_elf_into) i
          | inr (count, g) ↦ elim (Option-cases (checked_add table (count * program_header_size))) [
            | inl h ↦ rw (good, e, f, g, h, load_user_elf_into) i
            | inr (table_end, h) ↦ elim (Bool-cases (ltb (length image) table_end)) [
              | inl short ↦ rw (good, e, f, g, h, short, load_user_elf_into) i
              | inr long ↦
                  let p : Progress = record { entry_is_executable = false; tls = none } in
                  let kept =
                    headers-kept loader In I respects (λ page _. admits page) count space image
                      entry table p m i in
                  elim (Result-cases (load_headers loader space image entry table count p m).0) [
                    | inr (bad, l) ↦ rw (good, e, f, g, h, long, l, load_user_elf_into) kept
                    | inl (q, l) ↦
                        rw (good, e, f, g, h, long, l, load_user_elf_into)
                          (finish-kept image space slot entry q _ kept)
                  ]
            ]
          ]
        ]
      ]
    ]
  ]
