-- ===== src/Memory/Tests.antt =====
-- Runs of the allocator of kernel-core/src/memory.rs on one memory map.
use open_kernel.Prelude.{
  ◌*◌, ◌≡◌, refl, true, false, not, ◌&&◌, ◌||◌, List, [], ◌∷◌, some, arith, first_from,
}
use open_kernel.Memory.{
  Memory, MemoryRegion, usable, reserved_region, PhysicalMemoryRange, reserved, initialize,
  mark_region, mark_usable, mark_reserved, mark_range, mark_reserved_range, set_range, allocate,
}
use open_kernel.Memory.Bytes.{bit, set, has_bit, with_bit}
use open_kernel.Memory.Invariant.{IsSoundMemory, AllocateResult, allocate_lem}
use open_kernel.Memory.Ranges.{
  is_usable, touches, is_touched, initialize_refines, initialize-IsSoundMemory,
}
use open_kernel.Memory.Runs.{call_allocate, call_free, use_frames, use_frames-IsSoundMemory}

abbrev regions : List MemoryRegion
regions =
    record { base = 0; length = 0x9FC00; kind = usable }
    ∷ record { base = 0x100000; length = 0x300000; kind = usable }
    ∷ record { base = 0xFEC00000; length = 0x1000; kind = reserved_region }
    ∷ []

-- The kernel's image.
abbrev image : List PhysicalMemoryRange
image = record { base = 0x100000; length = 0x1800 } ∷ []

abbrev booted : Memory
booted = initialize regions image

-- The first frame after the image is free.
initialize_refines_example :
    reserved booted 258
    ≡ not (is_usable 258 regions && not (touches 258 0 (1024 * 1024) || is_touched 258 image))
initialize_refines_example =
    initialize_refines regions image 258 (omega arith)
      (omega arith, (omega arith, (omega arith, tt))) (omega arith, tt)

frame_258_is_free :
    not (is_usable 258 regions && not (touches 258 0 (1024 * 1024) || is_touched 258 image)) ≡ false
unfolding is_usable is_touched
frame_258_is_free = refl

frame_257_is_taken :
    not (is_usable 257 regions && not (touches 257 0 (1024 * 1024) || is_touched 257 image)) ≡ true
unfolding is_usable is_touched
frame_257_is_taken = refl

use_frames_example :
    IsSoundMemory
      (use_frames (call_allocate ∷ call_allocate ∷ call_free 0x102000 ∷ call_free 5 ∷ []) booted)
use_frames_example =
    use_frames-IsSoundMemory (call_allocate ∷ call_allocate ∷ call_free 0x102000 ∷ call_free 5 ∷ [])
      regions image

allocate_example : AllocateResult booted (allocate booted)
allocate_example = allocate_lem booted (initialize-IsSoundMemory regions image)

-- A machine with one page above the first MiB.
abbrev small : Memory
small = initialize (record { base = 0x100000; length = 0x1000; kind = usable } ∷ []) []

small-allocate : (allocate small).0 ≡ some 0x100000
unfolding allocate initialize mark_region mark_usable mark_reserved mark_range mark_reserved_range
    set_range first_from bit set has_bit with_bit
small-allocate = refl
