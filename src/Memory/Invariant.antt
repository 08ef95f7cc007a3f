-- ===== src/Memory/Invariant.antt =====
-- The accounting of the frames in kernel-core/src/memory.rs.
use open_kernel.Prelude.{
  ℕ, ◌+◌, ◌-◌, ◌*◌, ◌/◌, ◌%◌, ◌<◌, ◌≡◌, ◌⊎◌, inl, inr, refl, sym, ◌∙◌, Bool, true, false,
  true≢false, not, ◌||◌, if◌then◌else◌, ◌==◌, ==_refl, ==_of_ne, leb, Option, none, some,
  Bool-cases, Option-cases, ℕ_discrete, arith, first_from, first_from-IsFirst, first_from-none,
}
use open_kernel.Memory.{
  Memory, max_physical_frames, max_physical_address, page_size, reserved, count_free, allocate,
  free,
}
use open_kernel.Memory.Bytes.{bit, set, IsBitmap, set-IsBitmap, bit-set}
use open_kernel.Memory.Counts.{count_free-taken, count_free-zero}

abbrev pub allocated : Memory → ℕ → Bool
allocated m frame = bit m.allocated_bitmap frame

-- The frames handed out are reserved, and the count is that of the frames that are not.
pub record IsSoundMemory (m : Memory) : Type 0 where
  pub frame_bytes : IsBitmap m.frame_bitmap
  pub allocated_bytes : IsBitmap m.allocated_bitmap
  pub taken : (frame : ℕ) → allocated m frame ≡ true → reserved m frame ≡ true
  pub counted : m.stats.free_frames ≡ count_free (reserved m) max_physical_frames

-- A free frame is found wherever one is counted.
abbrev pub free_frame : Memory → Option ℕ
free_frame m = first_from (λ frame. not (reserved m frame)) 0 max_physical_frames

-- What `allocate` and `free` leave when they act on a frame.
abbrev pub handed_out : Memory → ℕ → Memory
handed_out m frame = record {
  frame_bitmap = set frame true m.frame_bitmap;
  allocated_bitmap = set frame true m.allocated_bitmap;
  stats = record (m.stats) { free_frames = m.stats.free_frames - 1 };
}

abbrev pub released : Memory → ℕ → Memory
released m frame = record {
  frame_bitmap = set frame false m.frame_bitmap;
  allocated_bitmap = set frame false m.allocated_bitmap;
  stats = record (m.stats) { free_frames = m.stats.free_frames + 1 };
}

-- What `allocate` promises.
pub record Allocated (m m' : Memory) (address : ℕ) : Type 0 where
  pub frame : ℕ
  pub at : address ≡ frame * page_size
  pub in_range : address < max_physical_address
  pub was_free : reserved m frame ≡ false
  pub lowest : (other : ℕ) → other < frame → reserved m other ≡ true
  pub now_reserved :
      (other : ℕ) → reserved m' other ≡ (if other == frame then true else reserved m other)
  pub now_allocated :
      (other : ℕ) → allocated m' other ≡ (if other == frame then true else allocated m other)
  pub counted : m'.stats.free_frames + 1 ≡ m.stats.free_frames

abbrev pub AllocateResult : Memory → Option ℕ × Memory → Type 0
AllocateResult m (none, m') =
    (m' ≡ m)
    × (m.stats.free_frames ≡ 0)
    × ((frame : ℕ) → frame < max_physical_frames → reserved m frame ≡ true)
AllocateResult m (some address, m') = Allocated m m' address

pub allocate-some :
    (m : Memory) (frame : ℕ)
    → free_frame m ≡ some frame
    → allocate m ≡ (some (frame * page_size), handed_out m frame)
unfolding allocate
allocate-some m frame e = rw (e, allocate) refl

pub allocate-none : (m : Memory) → free_frame m ≡ none → allocate m ≡ (none, m)
unfolding allocate
allocate-none m e = rw (e, allocate) refl

-- From a state whose accounts are right, `allocate` gives the lowest free frame, as an aligned
-- address under 4 GiB, and marks that frame and no other; it gives nothing, and changes nothing,
-- only where no frame is free.
pub allocate_lem : (m : Memory) → IsSoundMemory m → AllocateResult m (allocate m)
allocate_lem m h = elim (Option-cases (free_frame m)) [
  | inl e ↦
      let full : (frame : ℕ) → frame < max_physical_frames → reserved m frame ≡ true = λ frame hf.
        ground (
          arith,
          first_from-none (λ f. not (reserved m f)) 0 max_physical_frames e frame (omega arith)
              (omega arith),
        ) in
      rw (allocate-none m e)
        (refl, h.counted ∙ count_free-zero (reserved m) max_physical_frames full, full)
  | inr (frame, e) ↦
      let f = first_from-IsFirst (λ f. not (reserved m f)) 0 max_physical_frames frame e in
      let was : reserved m frame ≡ false = ground (arith, f.passes) in
      let mark : (other : ℕ)
          → bit (set frame true m.frame_bitmap) other
            ≡ (if other == frame then true else reserved m other) =
        λ other. bit-set frame other true m.frame_bitmap h.frame_bytes in
      let counts =
        count_free-taken (reserved m) (bit (set frame true m.frame_bitmap)) max_physical_frames
          frame f.upper was (mark frame ∙ rw (==_refl frame) refl)
          (λ i ne. mark i ∙ rw (==_of_ne i frame ne) refl) in
      rw (allocate-some m frame e) (record {
        frame = frame;
        at = refl;
        in_range = omega (arith, f.upper);
        was_free = was;
        lowest = λ other lt. ground (arith, f.least other (omega arith) lt);
        now_reserved = mark;
        now_allocated = λ other. bit-set frame other true m.allocated_bitmap h.allocated_bytes;
        counted = omega (arith, h.counted, counts);
      })
]

handed-IsSoundMemory :
    (m : Memory) (frame : ℕ)
    → frame < max_physical_frames
    → reserved m frame ≡ false
    → IsSoundMemory m
    → IsSoundMemory (handed_out m frame)
handed-IsSoundMemory m frame hf was h =
    let mark : (other : ℕ)
        → bit (set frame true m.frame_bitmap) other
          ≡ (if other == frame then true else reserved m other) =
      λ other. bit-set frame other true m.frame_bitmap h.frame_bytes in
    let counts =
      count_free-taken (reserved m) (bit (set frame true m.frame_bitmap)) max_physical_frames frame
        hf was (mark frame ∙ rw (==_refl frame) refl)
        (λ i ne. mark i ∙ rw (==_of_ne i frame ne) refl) in
    record {
      frame_bytes = set-IsBitmap frame true m.frame_bitmap h.frame_bytes;
      allocated_bytes = set-IsBitmap frame true m.allocated_bitmap h.allocated_bytes;
      taken = λ other e. elim (ℕ_discrete other frame) [
        | yes at ↦ mark other ∙ rw (at, ==_refl frame) refl
        | no ne ↦
            mark other
            ∙ rw (==_of_ne other frame ne) (
                h.taken other (
                  rw (==_of_ne other frame ne) at
                    (sym (bit-set frame other true m.allocated_bitmap h.allocated_bytes) ∙ e)))
      ];
      counted = omega (arith, h.counted, counts);
    }

released-IsSoundMemory :
    (m : Memory) (frame : ℕ)
    → frame < max_physical_frames
    → allocated m frame ≡ true
    → IsSoundMemory m
    → IsSoundMemory (released m frame)
released-IsSoundMemory m frame hf given h =
    let clear : (other : ℕ)
        → bit (set frame false m.frame_bitmap) other
          ≡ (if other == frame then false else reserved m other) =
      λ other. bit-set frame other false m.frame_bitmap h.frame_bytes in
    let counts =
      count_free-taken (bit (set frame false m.frame_bitmap)) (reserved m) max_physical_frames frame
        hf (clear frame ∙ rw (==_refl frame) refl) (h.taken frame given)
        (λ i ne. sym (clear i ∙ rw (==_of_ne i frame ne) refl)) in
    record {
      frame_bytes = set-IsBitmap frame false m.frame_bitmap h.frame_bytes;
      allocated_bytes = set-IsBitmap frame false m.allocated_bitmap h.allocated_bytes;
      taken = λ other e. elim (ℕ_discrete other frame) [
        | yes at ↦ absurd (
            true≢false (
              sym e
              ∙ bit-set frame other false m.allocated_bitmap h.allocated_bytes
              ∙ rw (at, ==_refl frame) refl))
        | no ne ↦
            clear other
            ∙ rw (==_of_ne other frame ne) (
                h.taken other (
                  rw (==_of_ne other frame ne) at
                    (sym (bit-set frame other false m.allocated_bitmap h.allocated_bytes) ∙ e)))
      ];
      counted = omega (arith, h.counted, counts);
    }

pub allocate-IsSoundMemory : (m : Memory) → IsSoundMemory m → IsSoundMemory (allocate m).1
allocate-IsSoundMemory m h = elim (Option-cases (free_frame m)) [
  | inl e ↦ rw (allocate-none m e) h
  | inr (frame, e) ↦
      let f = first_from-IsFirst (λ f. not (reserved m f)) 0 max_physical_frames frame e in
      rw (allocate-some m frame e)
        (handed-IsSoundMemory m frame f.upper (ground (arith, f.passes)) h)
]

-- `free` gives back the frame of an aligned address that is handed out, and else does nothing.
pub free-cases :
    (m : Memory) (address : ℕ)
    → (free address m ≡ m)
      ⊎ ((frame : ℕ) × (address ≡ frame * page_size)
          × (frame < max_physical_frames)
          × (allocated m frame ≡ true)
          × (free address m ≡ released m frame))
unfolding free
free-cases m address =
    elim (Bool-cases (not (address % page_size == 0) || leb max_physical_address address)) [
      | inl e ↦ inl (rw e refl)
      | inr e ↦ elim (Bool-cases (allocated m (address / page_size))) [
        | inr g ↦ inl (rw (e, g) refl)
        | inl g ↦ inr (address / page_size, ground arith, ground arith, g, rw (e, g) refl)
      ]
    ]

pub free-IsSoundMemory :
    (m : Memory) (address : ℕ) → IsSoundMemory m → IsSoundMemory (free address m)
free-IsSoundMemory m address h = elim (free-cases m address) [
  | inl e ↦ rw e h
  | inr (frame, at, hf, given, e) ↦ rw e (released-IsSoundMemory m frame hf given h)
]
