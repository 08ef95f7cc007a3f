-- ===== src/User/Proofs/Growth.antt =====
-- The loop of `brk` in kernel-core/src/user.rs ends.
use open_kernel.Prelude.{ℕ, zero, suc, ◌+◌, ◌*◌, ◌≤◌, ◌<◌, ◌≡◌, ◌⊎◌, Bool, true, false}
use open_kernel.Memory.{page_size}
use open_kernel.Paging.{PageTables}
use open_kernel.User.Heap.{map_heap_page}

-- The first `n` pages from `page` on, mapped one after the other.
unfoldable pub map_pages : ℕ → ℕ → PageTables → PageTables
map_pages zero page s = s
map_pages (suc n) page s = map_pages n (page + page_size) (map_heap_page page s).1

-- Each of them is mapped.
unfoldable pub AllMapped : ℕ → ℕ → PageTables → Type 0
AllMapped zero page s = Unit
AllMapped (suc n) page s =
    ((map_heap_page page s).0 ≡ true) × AllMapped n (page + page_size) (map_heap_page page s).1

-- How the loop ends: `n` pages are mapped, and then either the end is reached, or the next page is
-- not mapped.
pub record Ended (page required_end : ℕ) (s : PageTables) (r : Bool × PageTables) : Type 0 where
  pub n : ℕ
  pub mapped : AllMapped n page s
  pub within : (k : ℕ) → k < n → page + k * page_size < required_end
  pub ends :
      ((r ≡ (true, map_pages n page s)) × (required_end ≤ page + n * page_size))
      ⊎ (((map_heap_page (page + n * page_size) (map_pages n page s)).0 ≡ false)
          × (r ≡ (false, (map_heap_page (page + n * page_size) (map_pages n page s)).1))
          × (page + n * page_size < required_end))
