-- ===== src/Elf/Safety.antt =====
-- Where the loop over the program headers of kernel-core/src/elf.rs maps and writes.
use open_kernel.Prelude.{
  Result-cases, ℕ, zero, suc, ◌+◌, ◌*◌, ◌≤◌, ◌≡◌, ◌==◌, some, subst, has_value, List, length, drop,
  length-take, Bool-cases, Option-cases, inl, inr, arith,
}
use open_kernel.Elf.{
  Loader, Progress, chunk_of, image_slice, write_chunk, load_page, load_pages, load_segment,
  load_header, load_headers,
}
use open_kernel.Elf.Image.{
  Segment, PageFlags, checked_segment, checked_tls, page_of, page_size, user_space_end,
  future_user_space_base, program_header_size, program_header_load, program_header_tls, read_u32,
  flags_of,
}
use open_kernel.Elf.Segments.{Fits, checked_segment-Fits, chunk_of-in_page}

-- A property that is kept by the allocation of a frame, by the mapping of a page that `In` admits to
-- the frame that was just allocated and zeroed, and by a write inside that frame after it.
pub record Respects {M : Type 0} (loader : Loader M) (In : ℕ → Type 0) (I : M → Type 0)
    : Type 0 where
  pub on_allocate : (m : M) → I m → I (loader.allocate_physical_frame m).1
  pub on_map :
      (space page frame : ℕ) (flags : PageFlags) (m : M)
      → In page
      → (loader.allocate_physical_frame m).0 ≡ some frame
      → I m
      → let zeroed = loader.zero_physical_frame frame (loader.allocate_physical_frame m).1 in
        I (loader.map_user_page_in space page frame flags zeroed).1
  pub on_write :
      (space page frame offset : ℕ) (flags : PageFlags) (bytes : List ℕ) (m : M)
      → In page
      → (loader.allocate_physical_frame m).0 ≡ some frame
      → offset + length bytes ≤ page_size
      → I m
      → let zeroed = loader.zero_physical_frame frame (loader.allocate_physical_frame m).1 in
        I (
          loader.write_physical_frame
            (frame + offset)
            bytes
            (loader.map_user_page_in space page frame flags zeroed).1)

-- A page of user space.
abbrev pub UserPage : ℕ → Type 0
UserPage page = (future_user_space_base ≤ page) × (page + page_size ≤ user_space_end)

module _ {M : Type 0} (loader : Loader M) (In : ℕ → Type 0) (I : M → Type 0)
    (respects : Respects loader In I) where
  pub page-kept :
      (space page base offset size : ℕ) (flags : PageFlags) (image : List ℕ) (m : M)
      → In page
      → I m
      → I (load_page loader space flags base offset size image page m).1
  unfolding load_page write_chunk
  page-kept space page base offset size flags image m admitted i =
      let out = loader.allocate_physical_frame m in
      elim (Option-cases out.0) [
        | inl e ↦ rw (e, load_page) (respects.on_allocate m i)
        | inr (frame, e) ↦
            let zeroed = loader.zero_physical_frame frame out.1 in
            let mapped = loader.map_user_page_in space page frame flags zeroed in
            let kept = respects.on_map space page frame flags m admitted e i in
            elim (Result-cases mapped.0) [
              | inr (bad, r) ↦ rw (e, r, load_page) kept
              | inl (u, r) ↦ elim (Option-cases (chunk_of base offset size page)) [
                | inl none_here ↦ rw (e, r, none_here, load_page, write_chunk) kept
                | inr (c, here) ↦
                    rw (e, r, here, load_page, write_chunk)
                      (respects.on_write space page frame c.page_offset flags
                        (image_slice c.source_offset c.byte_count image) m admitted e
                        (omega (
                          arith,
                          chunk_of-in_page base offset size page c here,
                          length-take c.byte_count (drop c.source_offset image),
                        ))
                        i)
              ]
            ]
      ]

  pub pages-kept :
      (n space page base offset size : ℕ) (flags : PageFlags) (image : List ℕ) (m : M)
      → ((k : ℕ) → k ≤ n → In (page + k * page_size))
      → I m
      → I (load_pages loader space flags base offset size image page n m).1
  unfolding load_pages
  pages-kept zero space page base offset size flags image m admitted i =
      page-kept space page base offset size flags image m
        (let at : page + 0 * page_size ≡ page = omega arith in rw (← at) (admitted 0 (omega arith)))
        i
  pages-kept (suc n) space page base offset size flags image m admitted i =
      let out = load_page loader space flags base offset size image page m in
      let first : In page =
        let at : page + 0 * page_size ≡ page = omega arith in
        subst In at (admitted 0 (omega arith)) in
      let kept = page-kept space page base offset size flags image m first i in
      elim (Result-cases out.0) [
        | inr (bad, r) ↦ rw (r, load_pages) kept
        | inl (u, r) ↦
            rw (r, load_pages)
              (pages-kept n space (page + page_size) base offset size flags image out.1
                (λ k le.
                  let at : page + suc k * page_size ≡ page + page_size + k * page_size =
                    omega arith in
                  subst In at (admitted (suc k) (omega arith)))
                kept)
      ]

module _ {M : Type 0} (loader : Loader M) (In : ℕ → Type 0) (I : M → Type 0)
    (respects : Respects loader In I) (admits : (page : ℕ) → UserPage page → In page) where
  segment-kept :
      (space : ℕ) (image : List ℕ) (s : Segment) (m : M)
      → Fits image s
      → I m
      → I (load_segment loader space image s m).1
  unfolding load_segment
  segment-kept space image s m f i =
      pages-kept loader In I respects _ space (page_of s.virtual_address) s.virtual_address
        s.file_offset s.file_size (flags_of s.flags) image m
        (λ k le.
          admits (page_of s.virtual_address + k * page_size)
            (omega (arith, f.above), omega (arith, f.below, f.not_empty, le)))
        i

  header-kept :
      (space : ℕ) (image : List ℕ) (entry at : ℕ) (p : Progress) (m : M)
      → I m
      → I (load_header loader space image entry at p m).1
  unfolding load_header
  header-kept space image entry at p m i = elim (Option-cases (read_u32 image at)) [
    | inl r ↦ rw (r, load_header) i
    | inr (kind, r) ↦ elim (Bool-cases (kind == program_header_tls)) [
      | inl tls ↦ elim (Bool-cases (has_value p.tls)) [
        | inl second ↦ rw (r, tls, second, load_header) i
        | inr first ↦ elim (Result-cases (checked_tls image at)) [
          | inr (bad, c) ↦ rw (r, tls, first, c, load_header) i
          | inl (t, c) ↦ rw (r, tls, first, c, load_header) i
        ]
      ]
      | inr other ↦ elim (Bool-cases (kind == program_header_load)) [
        | inr skipped ↦ rw (r, other, skipped, load_header) i
        | inl load ↦ elim (Result-cases (checked_segment image at)) [
          | inr (bad, c) ↦ rw (r, other, load, c, load_header) i
          | inl (s, c) ↦
              let kept = segment-kept space image s m (checked_segment-Fits image at s c) i in
              elim (Result-cases (load_segment loader space image s m).0) [
                | inr (bad, l) ↦ rw (r, other, load, c, l, load_header) kept
                | inl (u, l) ↦ rw (r, other, load, c, l, load_header) kept
              ]
        ]
      ]
    ]
  ]

  pub headers-kept :
      (n space : ℕ) (image : List ℕ) (entry at : ℕ) (p : Progress) (m : M)
      → I m
      → I (load_headers loader space image entry at n p m).1
  unfolding load_headers
  headers-kept zero space image entry at p m i = i
  headers-kept (suc n) space image entry at p m i =
      let out = load_header loader space image entry at p m in
      let kept = header-kept space image entry at p m i in
      elim (Result-cases out.0) [
        | inr (bad, r) ↦ rw (r, load_headers) kept
        | inl (next, r) ↦
            rw (r, load_headers)
              (headers-kept n space image entry (at + program_header_size) next out.1 kept)
      ]

-- A property that is kept by the allocation of a frame, by the mapping of a page of user space to the
-- frame that was just allocated and zeroed, and by a write inside that frame, is kept by the loop over
-- the program headers of every image, whether it ends in an error or not: the loop maps no page
-- outside user space, and writes only inside the frame that it has just allocated.
pub load_headers-Respects :
    {M : Type 0} (loader : Loader M) (I : M → Type 0)
    → Respects loader UserPage I
    → (n space : ℕ) (image : List ℕ) (entry at : ℕ) (p : Progress) (m : M) → I m
    → I (load_headers loader space image entry at n p m).1
load_headers-Respects loader I respects =
    headers-kept loader UserPage I respects (λ page user. user)
