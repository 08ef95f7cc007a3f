-- ===== src/Elf/Tests.antt =====
-- Loading an image of kernel-core/src/elf.rs with one program header.
use open_kernel.Prelude.{ℕ, ◌+◌, ◌≤◌, ◌≡◌, refl, List, [], ◌∷◌, ◌++◌, none, some, false, ok}
use open_kernel.Elf.{Loader, Chunk, load_headers}
use open_kernel.Elf.Image.{
  Segment, page_size, user_space_end, future_user_space_base, checked_segment, segment_of, read_u32,
  read_u64, from_le_bytes,
}
use open_kernel.Elf.Safety.{Respects, UserPage, load_headers-Respects}

-- A 64-bit word whose two lower bytes and fourth byte are given.
abbrev word : ℕ → ℕ → ℕ → List ℕ
word low high fourth = low ∷ high ∷ 0 ∷ fourth ∷ 0 ∷ 0 ∷ 0 ∷ 0 ∷ []

-- A loadable header: 56 bytes of the file at 0x40000ff0, in 4112 bytes of memory.
abbrev image : List ℕ
image =
    (1 ∷ 0 ∷ 0 ∷ 0 ∷ 5 ∷ 0 ∷ 0 ∷ 0 ∷ [])
    ++ (word 0 0 0
        ++ (word 0xF0 0x0F 0x40
            ++ (word 0 0 0 ++ (word 56 0 0 ++ (word 0x10 0x10 0 ++ word 0 0x10 0)))))

abbrev segment : Segment
segment = record {
  flags = 5;
  file_offset = 0;
  virtual_address = 0x40000FF0;
  file_size = 56;
  memory_size = 4112;
}

segment-checked : checked_segment image 0 ≡ ok segment
unfolding checked_segment read_u32 read_u64 from_le_bytes segment_of
segment-checked = refl

abbrev second_chunk : Chunk
second_chunk = record { source_offset = 16; page_offset = 0; byte_count = 40 }

-- A loader that records the pages it maps.
abbrev tracer : Loader (List ℕ)
tracer = record {
  allocate_physical_frame = λ m. (some 0x5000, m);
  zero_physical_frame = λ frame m. m;
  map_user_page_in = λ space page frame flags m. (ok tt, page ∷ m);
  write_physical_frame = λ address bytes m. m;
  allocate_user_stack_in = λ space slot m. (ok 0x7000, m);
}

abbrev AllUser : List ℕ → Type 0
AllUser [] = Unit
AllUser (page ∷ pages) =
    (future_user_space_base ≤ page) × (page + page_size ≤ user_space_end) × AllUser pages

tracer-Respects : Respects tracer UserPage AllUser
tracer-Respects = record {
  on_allocate = λ m i. i;
  on_map = λ space page frame flags m user e i. (user.0, user.1, i);
  on_write = λ space page frame offset flags bytes m user e h i. (user.0, user.1, i);
}

load_headers-Respects_example :
    AllUser
      (load_headers tracer 7 image 0x40000FF0 0 1
        (record { entry_is_executable = false; tls = none })
        []).1
load_headers-Respects_example =
    load_headers-Respects tracer AllUser tracer-Respects 1 7 image 0x40000FF0 0
      (record { entry_is_executable = false; tls = none }) [] tt
