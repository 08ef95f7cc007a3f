-- ===== src/Memory.antt =====
-- kernel-core/src/memory.rs: the allocator of physical frames. The statics `FRAME_BITMAP`,
-- `ALLOCATED_BITMAP` and `MEMORY_STATS` are one record, passed in and handed back. Addresses and
-- lengths are `u64`; every frame number below is under `max_physical_frames`.
pub mod Bytes
pub mod Counts
pub mod Invariant
pub mod Ranges
pub mod Runs
mod Tests
use open_kernel.Prelude.{
  ℕ, zero, suc, ◌+◌, ◌-◌, ◌*◌, ◌/◌, ◌%◌, ◌^◌, min, Bool, true, false, not, ◌||◌, if◌then◌else◌,
  ◌==◌, ltb, leb, Option, none, some, List, [], ◌∷◌, first_from,
}
use Bytes.{bit, set}

abbrev pub page_size : ℕ
page_size = 4096

abbrev pub max_physical_address : ℕ
max_physical_address = 4 * 1024 * 1024 * 1024

-- `MAX_PHYSICAL_ADDRESS / PAGE_SIZE`
abbrev pub max_physical_frames : ℕ
max_physical_frames = 1048576

pub data MemoryRegionKind : Type 0 where
  usable reserved_region : MemoryRegionKind

pub record MemoryRegion : Type 0 where
  pub base : ℕ
  pub length : ℕ
  pub kind : MemoryRegionKind

pub record PhysicalMemoryRange : Type 0 where
  pub base : ℕ
  pub length : ℕ

pub record PhysicalMemoryStats : Type 0 where
  pub free_frames : ℕ
  pub tracked_frames : ℕ

pub record Memory : Type 0 where
  pub frame_bitmap : ℕ → ℕ
  pub allocated_bitmap : ℕ → ℕ
  pub stats : PhysicalMemoryStats

-- `a.saturating_add(b)` on `u64`
abbrev pub saturating_add : ℕ → ℕ → ℕ
saturating_add a b = min (a + b) (2 ^ 64 - 1)

abbrev pub reserved : Memory → ℕ → Bool
reserved m frame = bit m.frame_bitmap frame

-- `for frame in start..start + n { set(bitmap, frame, value); }`
unfoldable pub set_range : ℕ → ℕ → Bool → (ℕ → ℕ) → ℕ → ℕ
set_range start zero value bitmap = bitmap
set_range start (suc n) value bitmap = set_range (start + 1) n value (set start value bitmap)

-- `for frame in start.min(MAX_PHYSICAL_FRAMES as u64)..end`
abbrev pub set_frames : ℕ → ℕ → Bool → (ℕ → ℕ) → ℕ → ℕ
set_frames start end value bitmap =
    let first = min start max_physical_frames in set_range first (end - first) value bitmap

unfoldable pub mark_range : ℕ → ℕ → Bool → (ℕ → ℕ) → ℕ → ℕ
mark_range base length is_reserved bitmap =
    set_frames (saturating_add base (page_size - 1) / page_size)
      (min (saturating_add base length) max_physical_address / page_size) is_reserved bitmap

unfoldable pub mark_reserved_range : ℕ → ℕ → (ℕ → ℕ) → ℕ → ℕ
mark_reserved_range base length bitmap =
    set_frames (base / page_size)
      (min (saturating_add (saturating_add base length) (page_size - 1)) max_physical_address
        / page_size)
      true bitmap

-- `if matches!(region.kind, MemoryRegionKind::Usable)`
unfoldable pub mark_region : MemoryRegionKind → ℕ → ℕ → (ℕ → ℕ) → ℕ → ℕ
mark_region usable base length bitmap = mark_range base length false bitmap
mark_region reserved_region base length bitmap = bitmap

-- The loop of `initialize` over the regions.
unfoldable pub mark_usable : List MemoryRegion → (ℕ → ℕ) → ℕ → ℕ
mark_usable [] bitmap = bitmap
mark_usable (region ∷ rest) bitmap =
    mark_usable rest (mark_region region.kind region.base region.length bitmap)

unfoldable pub mark_reserved : List PhysicalMemoryRange → (ℕ → ℕ) → ℕ → ℕ
mark_reserved [] bitmap = bitmap
mark_reserved (range ∷ rest) bitmap =
    mark_reserved rest (mark_reserved_range range.base range.length bitmap)

-- The loop of `initialize` that counts the frames under `n` whose bit is clear.
unfoldable pub count_free : (ℕ → Bool) → ℕ → ℕ
count_free p zero = 0
count_free p (suc n) = count_free p n + (if p n then 0 else 1)

unfoldable pub initialize : List MemoryRegion → List PhysicalMemoryRange → Memory
initialize regions reserved_ranges =
    let bitmap =
      mark_reserved reserved_ranges
        (mark_reserved_range 0 (1024 * 1024) (mark_usable regions (λ _. 255))) in
    record {
      frame_bitmap = bitmap;
      allocated_bitmap = λ _. 0;
      stats = record {
        free_frames = count_free (bit bitmap) max_physical_frames;
        tracked_frames = max_physical_frames;
      };
    }

unfoldable pub allocate : Memory → Option ℕ × Memory
allocate m = elim (first_from (λ frame. not (reserved m frame)) 0 max_physical_frames) [
  | none ↦ (none, m)
  | some frame ↦ (
    some (frame * page_size),
    record {
      frame_bitmap = set frame true m.frame_bitmap;
      allocated_bitmap = set frame true m.allocated_bitmap;
      stats = record (m.stats) { free_frames = m.stats.free_frames - 1 };
    },
  )
]

unfoldable pub free : ℕ → Memory → Memory
free address m =
    let frame = address / page_size in
    if not (address % page_size == 0) || leb max_physical_address address
    then m
    else if bit m.allocated_bitmap frame
    then record {
      frame_bitmap = set frame false m.frame_bitmap;
      allocated_bitmap = set frame false m.allocated_bitmap;
      stats = record (m.stats) { free_frames = m.stats.free_frames + 1 };
    }
    else m
