-- ===== src/Elf.antt =====
-- kernel-core/src/elf.rs: loading a user program. The calls of paging.rs are the record `Loader`,
-- over a state that they read and change. An image is the list of its bytes; addresses are `u64`.
pub mod Image
pub mod Segments
pub mod Safety
pub mod Loads
mod Tests
use open_kernel.Prelude.{
  ℕ, zero, suc, ◌+◌, ◌-◌, ◌*◌, ◌/◌, ◌%◌, ◌^◌, min, max, Bool, true, false, not, ◌&&◌, ◌||◌,
  if◌then◌else◌, ◌==◌, ltb, leb, Option, none, some, has_value, List, [], ◌∷◌, length, take, drop,
  Result, ok, err, first_from, bit_and,
}
use Image.{
  PageFlags, user_read_only, user_read_write, user_read_execute, user_read_write_execute, ElfError,
  invalid_header, invalid_program_header, no_executable_segment, paging_error, PagingError,
  frame_allocation_failed, Segment, TlsImage, checked_segment, checked_tls, read_u16, read_u32,
  read_u64, header_is_valid, checked_add, page_of, page_size, program_header_size,
  program_header_load, program_header_tls, has_flag, flags_of,
}

-- `USER_TLS_BASE`
abbrev pub user_tls_base : ℕ
user_tls_base = 0x300000000000

-- `TLS_TCB_SIZE`
abbrev pub tls_tcb_size : ℕ
tls_tcb_size = 64

-- The calls of paging.rs and memory.rs.
pub record Loader (M : Type 0) : Type 0 where
  pub allocate_physical_frame : M → Option ℕ × M
  pub zero_physical_frame : ℕ → M → M
  pub map_user_page_in : ℕ → ℕ → ℕ → PageFlags → M → Result PagingError (Unit {0}) × M
  pub write_physical_frame : ℕ → List ℕ → M → M
  pub allocate_user_stack_in : ℕ → ℕ → M → Result PagingError ℕ × M

pub record LoadedImage : Type 0 where
  pub entry : ℕ
  pub stack_pointer : ℕ
  pub tls : Option TlsImage
  pub fs_base : ℕ

-- The part of a file that goes to one page: where it lies in the file, where in the page, and how
-- long it is; nothing where the page holds none of it. `base` is the address of the file part.
pub record Chunk : Type 0 where
  pub source_offset : ℕ
  pub page_offset : ℕ
  pub byte_count : ℕ

unfoldable pub chunk_of : ℕ → ℕ → ℕ → ℕ → Option Chunk
chunk_of base file_offset file_size page =
    let copy_start = max page base in
    let copy_end = min (page + page_size) (base + file_size) in
    if ltb copy_start copy_end
    then some (record {
      source_offset = file_offset + copy_start - base;
      page_offset = copy_start - page;
      byte_count = copy_end - copy_start;
    })
    else none

-- `&image[offset..offset + count]`
abbrev pub image_slice : ℕ → ℕ → List ℕ → List ℕ
image_slice offset count image = take count (drop offset image)

-- What the loops over the headers carry.
pub record Progress : Type 0 where
  pub entry_is_executable : Bool
  pub tls : Option TlsImage

module _ {M : Type 0} (loader : Loader M) where
  unfoldable pub write_chunk : Option Chunk → ℕ → List ℕ → M → M
  write_chunk none frame image m = m
  write_chunk (some c) frame image m =
      loader.write_physical_frame (frame + c.page_offset)
        (image_slice c.source_offset c.byte_count image) m

  -- One round of the loops over the pages.
  unfoldable pub load_page :
      ℕ → PageFlags → ℕ → ℕ → ℕ → List ℕ → ℕ → M → Result ElfError (Unit {0}) × M
  load_page space flags base file_offset file_size image page m =
      let (frame, m1) = loader.allocate_physical_frame m in
      elim frame [
        | none ↦ (err (paging_error frame_allocation_failed), m1)
        | some frame ↦
            let (mapped, m2) =
              loader.map_user_page_in space page frame flags
                (loader.zero_physical_frame frame m1) in
            elim mapped [
              | err e ↦ (err (paging_error e), m2)
              | ok u ↦
                  (ok tt, write_chunk (chunk_of base file_offset file_size page) frame image m2)
            ]
      ]

  -- `loop { … if page == last_page { break; } page += PAGE_SIZE; }`, for `n` pages after the first.
  unfoldable pub load_pages :
      ℕ → PageFlags → ℕ → ℕ → ℕ → List ℕ → ℕ → ℕ → M → Result ElfError (Unit {0}) × M
  load_pages space flags base file_offset file_size image page zero m =
      load_page space flags base file_offset file_size image page m
  load_pages space flags base file_offset file_size image page (suc n) m =
      let (loaded, m1) = load_page space flags base file_offset file_size image page m in
      let rest = load_pages space flags base file_offset file_size image (page + page_size) n m1 in
      elim loaded [ err e ↦ (err e, m1) | ok u ↦ rest ]

  unfoldable pub load_segment : ℕ → List ℕ → Segment → M → Result ElfError (Unit {0}) × M
  load_segment space image s m =
      let first_page = page_of s.virtual_address in
      let last_page = page_of (s.virtual_address + s.memory_size - 1) in
      load_pages space (flags_of s.flags) s.virtual_address s.file_offset s.file_size image
        first_page ((last_page - first_page) / page_size) m

  -- One round of the loop over the program headers.
  unfoldable pub load_header : ℕ → List ℕ → ℕ → ℕ → Progress → M → Result ElfError Progress × M
  load_header space image entry header_offset p m = elim (read_u32 image header_offset) [
    | none ↦ (err invalid_header, m)
    | some header_type ↦
        if header_type == program_header_tls
        then (if has_value p.tls
            then (err invalid_program_header, m)
            else elim (checked_tls image header_offset) [
              | err e ↦ (err e, m)
              | ok t ↦ (ok (record p { tls = some t }), m)
            ])
        else if not (header_type == program_header_load)
        then (ok p, m)
        else elim (checked_segment image header_offset) [
          | err e ↦ (err e, m)
          | ok s ↦
              let executes =
                has_flag s.flags 1
                && (leb s.virtual_address entry && ltb entry (s.virtual_address + s.memory_size)) in
              let (loaded, m1) = load_segment space image s m in
              elim loaded [
                | err e ↦ (err e, m1)
                | ok u ↦
                    (ok (record p { entry_is_executable = executes || p.entry_is_executable }), m1)
              ]
        ]
  ]

  unfoldable pub load_headers : ℕ → List ℕ → ℕ → ℕ → ℕ → Progress → M → Result ElfError Progress × M
  load_headers space image entry header_offset zero p m = (ok p, m)
  load_headers space image entry header_offset (suc n) p m =
      let (loaded, m1) = load_header space image entry header_offset p m in
      elim loaded [
        | err e ↦ (err e, m1)
        | ok p' ↦ load_headers space image entry (header_offset + program_header_size) n p' m1
      ]

  -- The alignment is a power of two, so that `& !(align - 1)` rounds down to a multiple of it.
  unfoldable pub load_initial_tls : List ℕ → ℕ → ℕ → TlsImage → M → Result ElfError ℕ × M
  load_initial_tls image space slot t m =
      let align = max t.align 16 in
      let tls_size = max t.memory_size 1 in
      let base = user_tls_base + slot * 0x10000 in
      elim (checked_add tls_size (align - 1)) [
        | none ↦ (err invalid_program_header, m)
        | some sum ↦ elim (checked_add base (sum / align * align)) [
          | none ↦ (err invalid_program_header, m)
          | some fs_base ↦ elim (checked_add fs_base tls_tcb_size) [
            | none ↦ (err invalid_program_header, m)
            | some end_ ↦
                let first_page = page_of base in
                let (loaded, m1) =
                  load_pages space user_read_write base t.file_offset t.file_size image first_page
                    ((page_of (end_ - 1) - first_page) / page_size) m in
                elim loaded [ err e ↦ (err e, m1) | ok u ↦ (ok fs_base, m1) ]
          ]
        ]
      ]

  -- What follows the loop over the headers.
  unfoldable pub finish : List ℕ → ℕ → ℕ → ℕ → Progress → M → Result ElfError LoadedImage × M
  finish image space slot entry p m =
      let (stack, m1) = loader.allocate_user_stack_in space slot m in
      if not p.entry_is_executable then (err no_executable_segment, m) else elim stack [
        | err e ↦ (err (paging_error e), m1)
        | ok stack_top ↦ elim p.tls [
          | none ↦ (
            ok (record { entry = entry; stack_pointer = stack_top - 8; tls = none; fs_base = 0 }),
            m1,
          )
          | some t ↦
              let (initial, m2) = load_initial_tls image space slot t m1 in
              elim initial [
                | err e ↦ (err e, m2)
                | ok fs_base ↦ (
                  ok (record {
                    entry = entry;
                    stack_pointer = stack_top - 8;
                    tls = some t;
                    fs_base = fs_base;
                  }),
                  m2,
                )
              ]
        ]
      ]

  unfoldable pub load_user_elf_into : List ℕ → ℕ → ℕ → M → Result ElfError LoadedImage × M
  load_user_elf_into image space slot m =
      if not (header_is_valid image) then (err invalid_header, m) else elim (read_u64 image 24) [
        | none ↦ (err invalid_header, m)
        | some entry ↦ elim (read_u64 image 32) [
          | none ↦ (err invalid_header, m)
          | some table ↦ elim (read_u16 image 56) [
            | none ↦ (err invalid_header, m)
            | some count ↦ elim (checked_add table (count * program_header_size)) [
              | none ↦ (err invalid_header, m)
              | some table_end ↦ elim (ltb (length image) table_end) [
                | true ↦ (err invalid_header, m)
                | false ↦
                    let (loaded, m1) =
                      load_headers space image entry table count
                        (record { entry_is_executable = false; tls = none }) m in
                    elim loaded [ err e ↦ (err e, m1) | ok p ↦ finish image space slot entry p m1 ]
              ]
            ]
          ]
        ]
      ]
