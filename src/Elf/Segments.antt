-- ===== src/Elf/Segments.antt =====
-- What the checks of kernel-core/src/elf.rs secure for the copying of a segment.
use open_kernel.Prelude.{
  ℕ, ◌+◌, ◌-◌, ◌^◌, min, max, ◌≤◌, ◌<◌, ◌≡◌, subst, ◌||◌, ◌==◌, ltb, none, some, List, length,
  Result, ok, err, Bool-cases, Option-cases, inl, inr, arith,
}
use open_kernel.Elf.{Chunk, chunk_of}
use open_kernel.Elf.Image.{
  Segment, ElfError, invalid_segment, invalid_header, checked_segment, segment_of, page_size,
  user_space_end, future_user_space_base, read_u32, read_u64,
}

-- The bytes of the segment lie in the image, and its memory in the space of user programs.
pub record Fits (image : List ℕ) (s : Segment) : Type 0 where
  pub file_in_memory : s.file_size ≤ s.memory_size
  pub not_empty : 0 < s.memory_size
  pub file_in : s.file_offset + s.file_size ≤ length image
  pub above : future_user_space_base ≤ s.virtual_address
  pub below : s.virtual_address + s.memory_size ≤ user_space_end

refused : {t : Segment} → ◌≡◌ {A = Result ElfError Segment} (err invalid_segment) (ok t) → ⊥
refused e = absurd cc

pub segment_of-Fits :
    (image : List ℕ) (s t : Segment) → segment_of image s ≡ ok t → (s ≡ t) × Fits image s
unfolding segment_of
segment_of-Fits image s t e = elim (Bool-cases (ltb s.memory_size s.file_size)) [
  | inl bad ↦ absurd (refused (rw bad at e))
  | inr a ↦ elim (Bool-cases (ltb (s.file_offset + s.file_size) (2 ^ 64))) [
    | inr bad ↦ absurd (refused (rw (a, bad) at e))
    | inl b ↦ elim (Bool-cases (ltb (s.virtual_address + s.memory_size) (2 ^ 64))) [
      | inr bad ↦ absurd (refused (rw (a, b, bad) at e))
      | inl c ↦
          elim (Bool-cases (
            s.memory_size == 0
            || (ltb (length image) (s.file_offset + s.file_size)
                || (ltb s.virtual_address future_user_space_base
                    || ltb user_space_end (s.virtual_address + s.memory_size))))) [
                      | inl bad ↦ absurd (refused (rw (a, b, c, bad) at e))
                      | inr d ↦
                          let same : ◌≡◌ {A = Result ElfError Segment} (ok s) (ok t) =
                            rw (a, b, c, d) at e in
                          (
                            cc,
                            record {
                              file_in_memory = ground (arith, a);
                              not_empty = ground (arith, d);
                              file_in = ground (arith, d);
                              above = ground (arith, d);
                              below = ground (arith, d);
                            },
                          )
                    ]
    ]
  ]
]

-- Where a chunk lies.
pub record InBounds (image : List ℕ) (s : Segment) (page : ℕ) (c : Chunk) : Type 0 where
  pub in_image : c.source_offset + c.byte_count ≤ length image
  pub in_page : c.page_offset + c.byte_count ≤ page_size
  pub in_place : page + c.page_offset + s.file_offset ≡ s.virtual_address + c.source_offset

-- A chunk of an accepted segment lies in the image, so that the slice of the copy does not fail, and
-- in its page; and the bytes that it copies go to the addresses that the segment gives them.
pub chunk_of-InBounds :
    (image : List ℕ) (s : Segment) (page : ℕ) (c : Chunk)
    → Fits image s
    → chunk_of s.virtual_address s.file_offset s.file_size page ≡ some c
    → InBounds image s page c
unfolding chunk_of
chunk_of-InBounds image s page c f e =
    let start = max page s.virtual_address in
    let end_ = min (page + page_size) (s.virtual_address + s.file_size) in
    elim (Bool-cases (ltb start end_)) [
      | inr no_bytes ↦ absurd (let h : none ≡ some c = rw no_bytes at e in cc)
      | inl bytes ↦
          let whole : Chunk = record {
            source_offset = s.file_offset + start - s.virtual_address;
            page_offset = start - page;
            byte_count = end_ - start;
          } in
          let given : some whole ≡ some c = rw bytes at e in
          let same : whole ≡ c = cc in
          subst (InBounds image s page) same (record {
            in_image = ground (arith, bytes, f.file_in);
            in_page = ground (arith, bytes);
            in_place = ground (arith, bytes);
          })
    ]

unread : {s : Segment} → ◌≡◌ {A = Result ElfError Segment} (err invalid_header) (ok s) → ⊥
unread e = absurd cc

-- A program header that passes the checks describes a segment whose bytes lie in the image and whose
-- memory lies in the space of user programs.
pub checked_segment-Fits :
    (image : List ℕ) (at : ℕ) (s : Segment) → checked_segment image at ≡ ok s → Fits image s
unfolding checked_segment
checked_segment-Fits image at s e = elim (Option-cases (read_u32 image (at + 4))) [
  | inl r ↦ absurd (unread (rw (r, checked_segment) at e))
  | inr (flags, r1) ↦ elim (Option-cases (read_u64 image (at + 8))) [
    | inl r ↦ absurd (unread (rw (r1, r, checked_segment) at e))
    | inr (file_offset, r2) ↦ elim (Option-cases (read_u64 image (at + 16))) [
      | inl r ↦ absurd (unread (rw (r1, r2, r, checked_segment) at e))
      | inr (virtual_address, r3) ↦ elim (Option-cases (read_u64 image (at + 32))) [
        | inl r ↦ absurd (unread (rw (r1, r2, r3, r, checked_segment) at e))
        | inr (file_size, r4) ↦ elim (Option-cases (read_u64 image (at + 40))) [
          | inl r ↦ absurd (unread (rw (r1, r2, r3, r4, r, checked_segment) at e))
          | inr (memory_size, r5) ↦
              let found : Segment = record {
                flags = flags;
                file_offset = file_offset;
                virtual_address = virtual_address;
                file_size = file_size;
                memory_size = memory_size;
              } in
              let (same, fits) =
                segment_of-Fits image found s (rw (r1, r2, r3, r4, r5, checked_segment) at e) in
              subst (Fits image) same fits
        ]
      ]
    ]
  ]
]

-- Whatever the file part, a chunk ends in its page.
pub chunk_of-in_page :
    (base offset size page : ℕ) (c : Chunk)
    → chunk_of base offset size page ≡ some c
    → c.page_offset + c.byte_count ≤ page_size
unfolding chunk_of
chunk_of-in_page base offset size page c e =
    let start = max page base in
    let end_ = min (page + page_size) (base + size) in
    elim (Bool-cases (ltb start end_)) [
      | inr no_bytes ↦ absurd (let h : none ≡ some c = rw no_bytes at e in cc)
      | inl bytes ↦
          let whole : Chunk = record {
            source_offset = offset + start - base;
            page_offset = start - page;
            byte_count = end_ - start;
          } in
          let given : some whole ≡ some c = rw bytes at e in
          let same : whole ≡ c = cc in
          subst (λ c. c.page_offset + c.byte_count ≤ page_size) same (ground (arith, bytes))
    ]
