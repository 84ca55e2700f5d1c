-- ===== src/Pages.antt =====
-- The bitmap of physical pages of kernel/memory.c. A word of the bitmap is given by its 32 bits, so
-- `word & (1 << bit)` is the bit itself.
pub mod Scan
pub mod Alloc
mod Tests
use pxos.Base.{
  ℕ, zero, suc, ◌+◌, ◌*◌, ◌/◌, ◌%◌, ◌^◌, Bool, true, false, not, ◌&&◌, Option, none, some, ltb,
  ◌==◌, if◌then◌else◌,
}
use pxos.Heap.{Heap, update_memory_stats}

-- `physical_page_bitmap`, `bitmap_size`, and `memory_stats` with the heap that its sums are about.
pub record Pages : Type 0 where
  pub bitmap : ℕ → ℕ → Bool
  pub bitmap_size : ℕ
  pub page_allocations : ℕ
  pub page_deallocations : ℕ
  pub heap : Heap

-- `get_bitmap_bit`
unfoldable pub get_bitmap_bit : (ℕ → ℕ → Bool) → ℕ → Bool
get_bitmap_bit bitmap page = bitmap (page / 32) (page % 32)

-- `set_bitmap_bit`
unfoldable pub set_bitmap_bit : (ℕ → ℕ → Bool) → ℕ → Bool → ℕ → ℕ → Bool
set_bitmap_bit bitmap page set i j = if i == page / 32 && j == page % 32 then set else bitmap i j

-- The loop that marks the pages from `i` on.
unfoldable pub mark_pages : (ℕ → ℕ → Bool) → ℕ → ℕ → ℕ → ℕ → Bool
mark_pages bitmap i zero = bitmap
mark_pages bitmap i (suc n) = mark_pages (set_bitmap_bit bitmap i true) (i + 1) n

-- `init_physical_page_bitmap`: 256 MB of pages, of which the first 6 MB are in use.
unfoldable pub init_physical_page_bitmap : Pages → Pages
init_physical_page_bitmap p = record p {
  bitmap_size = (0x10000000 / 4096 + 31) / 32;
  bitmap = mark_pages (λ i j. false) 0 (0x600000 / 4096);
}

-- `word == 0xFFFFFFFF`, for the bits from `j` on.
unfoldable pub is_full : (ℕ → Bool) → ℕ → ℕ → Bool
is_full word j zero = true
is_full word j (suc n) = word j && is_full word (j + 1) n

-- The inner loop of `find_free_physical_page`.
unfoldable pub find_bit : (ℕ → Bool) → ℕ → ℕ → Option ℕ
find_bit word j zero = none
find_bit word j (suc n) =
    let rest = find_bit word (j + 1) n in if not (word j) then some j else rest

abbrev pub page_in : ℕ → Option ℕ → Option ℕ → Option ℕ
page_in i none rest = rest
page_in i (some j) rest = some (i * 32 + j)

-- The outer loop, over `n` words from `i` on.
unfoldable pub find_page : (ℕ → ℕ → Bool) → ℕ → ℕ → Option ℕ
find_page bitmap i zero = none
find_page bitmap i (suc n) =
    let rest = find_page bitmap (i + 1) n in
    if not (is_full (bitmap i) 0 32) then page_in i (find_bit (bitmap i) 0 32) rest else rest

abbrev pub or_zero : Option ℕ → ℕ
or_zero none = 0
or_zero (some page) = page

-- `find_free_physical_page`
unfoldable pub find_free_physical_page : Pages → ℕ
find_free_physical_page p = or_zero (find_page p.bitmap 0 p.bitmap_size)

-- `alloc_physical_page` with the page that was found, 0 for none: the page's address.
unfoldable pub claim_page : Pages → ℕ → ℕ × Pages
claim_page p page = (
  page * 4096 % 2 ^ 32,
  (if not (page == 0)
      then record p {
        bitmap = set_bitmap_bit p.bitmap page true;
        page_allocations = (p.page_allocations + 1) % 2 ^ 32;
        heap = update_memory_stats p.heap;
      }
      else p),
)

-- `alloc_physical_page`
unfoldable pub alloc_physical_page : Pages → ℕ × Pages
alloc_physical_page p = claim_page p (find_free_physical_page p)

-- `free_physical_page` of an address.
unfoldable pub free_physical_page : Pages → ℕ → Pages
free_physical_page p page =
    let page_num = page / 4096 in
    if ltb page_num (p.bitmap_size * 32)
    then record p {
      bitmap = set_bitmap_bit p.bitmap page_num false;
      page_deallocations = (p.page_deallocations + 1) % 2 ^ 32;
      heap = update_memory_stats p.heap;
    }
    else p

-- `is_page_allocated`, `mark_page_allocated` and `mark_page_free`
unfoldable pub is_page_allocated : Pages → ℕ → Bool
is_page_allocated p page = get_bitmap_bit p.bitmap (page / 4096)

unfoldable pub mark_page_allocated : Pages → ℕ → Pages
mark_page_allocated p page = record p { bitmap = set_bitmap_bit p.bitmap (page / 4096) true }

unfoldable pub mark_page_free : Pages → ℕ → Pages
mark_page_free p page = record p { bitmap = set_bitmap_bit p.bitmap (page / 4096) false }
