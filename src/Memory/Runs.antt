-- ===== src/Memory/Runs.antt =====
-- Runs of the allocator of kernel-core/src/memory.rs.
use open_kernel.Prelude.{
  ℕ, ◌*◌, ◌/◌, ◌%◌, ◌<◌, ◌≡◌, inl, inr, refl, sym, ap, ◌∙◌, subst, true, false, true≢false, ==_refl,
  ==_of_ne, leb, List, [], ◌∷◌, Option, none, some, Option-cases, Bool-cases, ℕ_discrete, arith,
}
use open_kernel.Memory.{
  Memory, MemoryRegion, PhysicalMemoryRange, max_physical_frames, max_physical_address, page_size,
  reserved, initialize, allocate, free,
}
use open_kernel.Memory.Bytes.{bit, set, IsBitmap, set-IsBitmap, bit-set}
use open_kernel.Memory.Invariant.{
  IsSoundMemory, allocated, Allocated, AllocateResult, allocate_lem, allocate-some, allocate-none,
  allocate-IsSoundMemory, free-IsSoundMemory, free_frame, handed_out, released,
}
use open_kernel.Memory.Ranges.{initialize-IsSoundMemory}

pub data FrameCall : Type 0 where
  call_allocate : FrameCall
  call_free : ℕ → FrameCall

unfoldable pub use_frames : List FrameCall → Memory → Memory
use_frames [] m = m
use_frames (call_allocate ∷ rest) m = use_frames rest (allocate m).1
use_frames (call_free address ∷ rest) m = use_frames rest (free address m)

from : (calls : List FrameCall) (m : Memory) → IsSoundMemory m → IsSoundMemory (use_frames calls m)
unfolding use_frames
from [] m h = h
from (call_allocate ∷ rest) m h = from rest (allocate m).1 (allocate-IsSoundMemory m h)
from (call_free address ∷ rest) m h = from rest (free address m) (free-IsSoundMemory m address h)

-- After every run of `allocate` and `free` from `initialize`, whatever addresses are freed, the
-- frames handed out are reserved, and the statistics count the frames that are not reserved.
pub use_frames-IsSoundMemory :
    (calls : List FrameCall) (regions : List MemoryRegion) (ranges : List PhysicalMemoryRange)
    → IsSoundMemory (use_frames calls (initialize regions ranges))
use_frames-IsSoundMemory calls regions ranges =
    from calls (initialize regions ranges) (initialize-IsSoundMemory regions ranges)

-- What a frame's bits say, and the count.
pub record SameFrames (m m' : Memory) : Type 0 where
  pub reserved_same : (frame : ℕ) → reserved m' frame ≡ reserved m frame
  pub allocated_same : (frame : ℕ) → allocated m' frame ≡ allocated m frame
  pub count_same : m'.stats.free_frames ≡ m.stats.free_frames

freed_again :
    (m : Memory) (frame : ℕ)
    → frame < max_physical_frames
    → IsSoundMemory m
    → free (frame * page_size) (handed_out m frame) ≡ released (handed_out m frame) frame
unfolding free
freed_again m frame hf h =
    let at : frame * page_size / page_size ≡ frame = omega arith in
    let aligned : frame * page_size % page_size ≡ 0 = omega arith in
    let inside : leb max_physical_address (frame * page_size) ≡ false = ground (arith, hf) in
    let given : bit (set frame true m.allocated_bitmap) frame ≡ true =
      bit-set frame frame true m.allocated_bitmap h.allocated_bytes ∙ rw (==_refl frame) refl in
    rw (at, aligned, inside, given) refl

written_back :
    (frame other : ℕ) (m : ℕ → ℕ)
    → IsBitmap m
    → bit m frame ≡ false
    → bit (set frame false (set frame true m)) other ≡ bit m other
written_back frame other m h clear =
    bit-set frame other false (set frame true m) (set-IsBitmap frame true m h)
    ∙ elim (ℕ_discrete other frame) [
      | yes at ↦ rw (at, ==_refl frame) (sym clear)
      | no ne ↦
          rw (==_of_ne other frame ne)
            (bit-set frame other true m h ∙ rw (==_of_ne other frame ne) refl)
    ]

-- A frame that is handed out by `allocate` and freed leaves the allocator as it was.
pub free-allocate :
    (m : Memory) (address : ℕ)
    → IsSoundMemory m
    → (allocate m).0 ≡ some address
    → SameFrames m (free address (allocate m).1)
free-allocate m address h e = elim (Option-cases (free_frame m)) [
  | inl n ↦
      let no_address : none ≡ some address =
        ap (λ (o : Option ℕ × Memory). o.0) (sym (allocate-none m n)) ∙ e in
      absurd cc
  | inr (frame, f) ↦
      let found : some (frame * page_size) ≡ some address =
        ap (λ (o : Option ℕ × Memory). o.0) (sym (allocate-some m frame f)) ∙ e in
      let at : frame * page_size ≡ address = cc in
      let r : Allocated m (handed_out m frame) (frame * page_size) =
        subst (AllocateResult m) (allocate-some m frame f) (allocate_lem m h) in
      let same : r.frame ≡ frame = omega (arith, r.at) in
      let free_before : reserved m frame ≡ false = rw (← same) r.was_free in
      let not_given : allocated m frame ≡ false = elim (Bool-cases (allocated m frame)) [
        | inl g ↦ absurd (true≢false (sym (h.taken frame g) ∙ free_before))
        | inr g ↦ g
      ] in
      rw (← at) (
        rw (allocate-some m frame f, freed_again m frame (omega (arith, r.in_range)) h)
          (record {
            reserved_same =
                λ other. written_back frame other m.frame_bitmap h.frame_bytes free_before;
            allocated_same =
                λ other. written_back frame other m.allocated_bitmap h.allocated_bytes not_given;
            count_same = r.counted;
          }))
]
