-- ===== src/Memory/Ranges.antt =====
-- The ranges that `initialize` marks in kernel-core/src/memory.rs.
use open_kernel.Prelude.{
  ℕ, zero, suc, ◌+◌, ◌*◌, ◌^◌, ◌<◌, ◌≡◌, refl, sym, ◌∙◌, Bool, true, false, true≢false, not, ◌||◌,
  ◌&&◌, if◌then◌else◌, leb, ltb, List, [], ◌∷◌, arith,
}
use open_kernel.Memory.{
  MemoryRegion, MemoryRegionKind, usable, reserved_region, PhysicalMemoryRange, max_physical_frames,
  page_size, reserved, set_range, mark_range, mark_reserved_range, mark_region, mark_usable,
  mark_reserved, initialize,
}
use open_kernel.Memory.Bytes.{
  bit, set, IsBitmap, set-IsBitmap, bit-set, bit-full, bit-empty, full-IsBitmap, empty-IsBitmap,
}
use open_kernel.Memory.Invariant.{IsSoundMemory}

set_range-IsBitmap :
    (start n : ℕ) (value : Bool) (m : ℕ → ℕ) → IsBitmap m → IsBitmap (set_range start n value m)
unfolding set_range
set_range-IsBitmap start zero value m h = h
set_range-IsBitmap start (suc n) value m h =
    set_range-IsBitmap (start + 1) n value (set start value m) (set-IsBitmap start value m h)

bit-set_range :
    (start n : ℕ) (value : Bool) (m : ℕ → ℕ) (frame : ℕ)
    → IsBitmap m
    → bit (set_range start n value m) frame
      ≡ (if leb start frame && ltb frame (start + n) then value else bit m frame)
unfolding set_range
bit-set_range start zero value m frame h = ground arith
bit-set_range start (suc n) value m frame h =
    let rest =
      bit-set_range (start + 1) n value (set start value m) frame (set-IsBitmap start value m h) in
    rest ∙ rw (bit-set start frame value m h) (ground arith)

-- The frames that lie whole in a region.
abbrev pub lies_in : ℕ → MemoryRegion → Bool
lies_in frame region =
    leb region.base (frame * page_size)
    && leb (frame * page_size + page_size) (region.base + region.length)

-- The frames that a range touches, and no more where the range is empty but not aligned.
abbrev pub touches : ℕ → ℕ → ℕ → Bool
touches frame base length =
    ltb base (frame * page_size + page_size) && ltb (frame * page_size) (base + length)

bit-mark_range :
    (base length : ℕ) (value : Bool) (m : ℕ → ℕ) (frame : ℕ)
    → IsBitmap m
    → frame < max_physical_frames
    → base < 2 ^ 64
    → bit (mark_range base length value m) frame ≡ (
        if leb base (frame * page_size) && leb (frame * page_size + page_size) (base + length)
        then value
        else bit m frame)
unfolding mark_range
bit-mark_range base length value m frame h hf hb = bit-set_range _ _ value m frame h ∙ ground arith

bit-mark_reserved_range :
    (base length : ℕ) (m : ℕ → ℕ) (frame : ℕ)
    → IsBitmap m
    → frame < max_physical_frames
    → 0 < length
    → bit (mark_reserved_range base length m) frame
      ≡ (if touches frame base length then true else bit m frame)
unfolding mark_reserved_range
bit-mark_reserved_range base length m frame h hf pos =
    bit-set_range _ _ true m frame h ∙ ground arith

mark_range-IsBitmap :
    (base length : ℕ) (value : Bool) (m : ℕ → ℕ)
    → IsBitmap m
    → IsBitmap (mark_range base length value m)
unfolding mark_range
mark_range-IsBitmap base length value m h = set_range-IsBitmap _ _ value m h

mark_reserved_range-IsBitmap :
    (base length : ℕ) (m : ℕ → ℕ) → IsBitmap m → IsBitmap (mark_reserved_range base length m)
unfolding mark_reserved_range
mark_reserved_range-IsBitmap base length m h = set_range-IsBitmap _ _ true m h

mark_region-IsBitmap :
    (kind : MemoryRegionKind) (base length : ℕ) (m : ℕ → ℕ)
    → IsBitmap m
    → IsBitmap (mark_region kind base length m)
unfolding mark_region
mark_region-IsBitmap usable base length m h = mark_range-IsBitmap base length false m h
mark_region-IsBitmap reserved_region base length m h = h

mark_usable-IsBitmap :
    (regions : List MemoryRegion) (m : ℕ → ℕ) → IsBitmap m → IsBitmap (mark_usable regions m)
unfolding mark_usable
mark_usable-IsBitmap [] m h = h
mark_usable-IsBitmap (region ∷ rest) m h =
    mark_usable-IsBitmap rest _ (mark_region-IsBitmap region.kind region.base region.length m h)

mark_reserved-IsBitmap :
    (ranges : List PhysicalMemoryRange) (m : ℕ → ℕ) → IsBitmap m → IsBitmap (mark_reserved ranges m)
unfolding mark_reserved
mark_reserved-IsBitmap [] m h = h
mark_reserved-IsBitmap (range ∷ rest) m h =
    mark_reserved-IsBitmap rest _ (mark_reserved_range-IsBitmap range.base range.length m h)

abbrev pub is_usable_kind : MemoryRegionKind → Bool
is_usable_kind usable = true
is_usable_kind reserved_region = false

-- Some usable region holds the frame.
unfoldable pub is_usable : ℕ → List MemoryRegion → Bool
is_usable frame [] = false
is_usable frame (region ∷ rest) =
    (is_usable_kind region.kind && lies_in frame region) || is_usable frame rest

-- Some range touches the frame.
unfoldable pub is_touched : ℕ → List PhysicalMemoryRange → Bool
is_touched frame [] = false
is_touched frame (range ∷ rest) = touches frame range.base range.length || is_touched frame rest

abbrev pub AllWords : List MemoryRegion → Type 0
AllWords [] = Unit
AllWords (region ∷ rest) = (region.base < 2 ^ 64) × AllWords rest

abbrev pub AllNonempty : List PhysicalMemoryRange → Type 0
AllNonempty [] = Unit
AllNonempty (range ∷ rest) = (0 < range.length) × AllNonempty rest

bit-mark_region :
    (kind : MemoryRegionKind) (base length : ℕ) (m : ℕ → ℕ) (frame : ℕ)
    → IsBitmap m
    → frame < max_physical_frames
    → base < 2 ^ 64
    → bit (mark_region kind base length m) frame ≡ (
        if is_usable_kind kind
          && (leb base (frame * page_size) && leb (frame * page_size + page_size) (base + length))
        then false
        else bit m frame)
unfolding mark_region
bit-mark_region usable base length m frame h hf w = bit-mark_range base length false m frame h hf w
bit-mark_region reserved_region base length m frame h hf w = refl

bit-mark_usable :
    (regions : List MemoryRegion) (m : ℕ → ℕ) (frame : ℕ)
    → IsBitmap m
    → frame < max_physical_frames
    → AllWords regions
    → IsBitmap (mark_usable regions m)
      × (bit (mark_usable regions m) frame
          ≡ (if is_usable frame regions then false else bit m frame))
unfolding mark_usable is_usable
bit-mark_usable [] m frame h hf w = (h, refl)
bit-mark_usable (region ∷ rest) m frame h hf w =
    let marked = mark_region region.kind region.base region.length m in
    let out =
      bit-mark_usable rest marked frame
        (mark_region-IsBitmap region.kind region.base region.length m h) hf w.1 in
    (
      out.0,
      out.1
          ∙ rw (bit-mark_region region.kind region.base region.length m frame h hf w.0)
              (ground arith),
    )

bit-mark_reserved :
    (ranges : List PhysicalMemoryRange) (m : ℕ → ℕ) (frame : ℕ)
    → IsBitmap m
    → frame < max_physical_frames
    → AllNonempty ranges
    → IsBitmap (mark_reserved ranges m)
      × (bit (mark_reserved ranges m) frame
          ≡ (if is_touched frame ranges then true else bit m frame))
unfolding mark_reserved is_touched
bit-mark_reserved [] m frame h hf w = (h, refl)
bit-mark_reserved (range ∷ rest) m frame h hf w =
    let marked = mark_reserved_range range.base range.length m in
    let out =
      bit-mark_reserved rest marked frame (mark_reserved_range-IsBitmap range.base range.length m h)
        hf w.1 in
    (
      out.0,
      out.1 ∙ rw (bit-mark_reserved_range range.base range.length m frame h hf w.0) (ground arith),
    )

-- After `initialize`, whose regions start below 2^64 and whose reserved ranges are not empty, a
-- frame is free exactly if it lies whole in a usable region and neither the first MiB nor a reserved
-- range touches it.
pub initialize_refines :
    (regions : List MemoryRegion) (ranges : List PhysicalMemoryRange) (frame : ℕ)
    → frame < max_physical_frames
    → AllWords regions
    → AllNonempty ranges
    → reserved (initialize regions ranges) frame
      ≡ not (
          is_usable frame regions && not (touches frame 0 (1024 * 1024) || is_touched frame ranges))
unfolding initialize
initialize_refines regions ranges frame hf w n =
    let (usable_bytes, usable_bit) = bit-mark_usable regions (λ _. 255) frame full-IsBitmap hf w in
    let low =
      bit-mark_reserved_range 0 (1024 * 1024) (mark_usable regions (λ _. 255)) frame usable_bytes hf
        (omega arith) in
    let out =
      bit-mark_reserved ranges _ frame (mark_reserved_range-IsBitmap 0 (1024 * 1024) _ usable_bytes)
        hf n in
    out.1 ∙ rw (low, usable_bit, bit-full frame) (ground arith)

-- The accounts are right after `initialize`.
pub initialize-IsSoundMemory :
    (regions : List MemoryRegion) (ranges : List PhysicalMemoryRange)
    → IsSoundMemory (initialize regions ranges)
unfolding initialize
initialize-IsSoundMemory regions ranges = record {
  frame_bytes = mark_reserved-IsBitmap ranges _ (
      mark_reserved_range-IsBitmap 0 (1024 * 1024) _
        (mark_usable-IsBitmap regions _ full-IsBitmap));
  allocated_bytes = empty-IsBitmap;
  taken = λ frame e. absurd (true≢false (sym e ∙ bit-empty frame));
  counted = refl;
}
