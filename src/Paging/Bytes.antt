-- ===== src/Paging/Bytes.antt =====
-- The bytes of physical frames, `write_physical_frame` of kernel-core/src/paging.rs. A frame is the
-- same memory whether it is a table or the page of a program: 512 words of eight bytes.
use open_kernel.Prelude.{
  ℕ, suc, ◌+◌, ◌*◌, ◌/◌, ◌%◌, ◌^◌, ◌≤◌, ◌≡◌, subst, false, List, [], ◌∷◌, length, update, arith,
}
use open_kernel.Memory.{page_size, reserved}
use open_kernel.Paging.{PageTables, set_entry}
use open_kernel.Paging.Mapped.{Extends, refill-Extends}

-- The word with its byte `k` replaced.
abbrev pub put_byte : ℕ → ℕ → ℕ → ℕ
put_byte k byte word = word / 256 ^ (k + 1) * 256 ^ (k + 1) + byte * 256 ^ k + word % 256 ^ k

-- `write_volatile` of a byte.
unfoldable pub write_byte : ℕ → ℕ → PageTables → PageTables
write_byte address byte s =
    let frame = address / page_size * page_size in
    let index = address % page_size / 8 in
    set_entry frame index (put_byte (address % 8) byte (s.entries frame index)) s

unfoldable pub write_physical_frame : ℕ → List ℕ → PageTables → PageTables
write_physical_frame address [] s = s
write_physical_frame address (byte ∷ bytes) s =
    write_physical_frame (address + 1) bytes (write_byte address byte s)

-- A byte written to a frame that `s` does not use.
write_byte-Extends :
    (s s' : PageTables) (frame offset byte : ℕ)
    → frame % page_size ≡ 0
    → suc offset ≤ page_size
    → reserved s.memory (frame / page_size) ≡ false
    → Extends s s'
    → Extends s (write_byte (frame + offset) byte s')
unfolding write_byte
write_byte-Extends s s' frame offset byte aligned inside fresh f =
    let at : (frame + offset) / page_size * page_size ≡ frame = omega arith in
    rw at (
      refill-Extends s s' frame (update (s'.entries frame) ((frame + offset) % page_size / 8) _)
        fresh f)

-- A write inside a frame that `s` does not use changes nothing that `s` maps.
pub write_physical_frame-Extends :
    (s s' : PageTables) (frame offset : ℕ) (bytes : List ℕ)
    → frame % page_size ≡ 0
    → offset + length bytes ≤ page_size
    → reserved s.memory (frame / page_size) ≡ false
    → Extends s s'
    → Extends s (write_physical_frame (frame + offset) bytes s')
unfolding write_physical_frame
write_physical_frame-Extends s s' frame offset [] aligned inside fresh f = f
write_physical_frame-Extends s s' frame offset (byte ∷ bytes) aligned inside fresh f =
    let next : frame + (offset + 1) ≡ frame + offset + 1 = omega arith in
    subst (λ a. Extends s (write_physical_frame a bytes (write_byte (frame + offset) byte s'))) next
      (write_physical_frame-Extends s (write_byte (frame + offset) byte s') frame (offset + 1) bytes
        aligned (omega (arith, inside)) fresh
        (write_byte-Extends s s' frame offset byte aligned (omega (arith, inside)) fresh f))
