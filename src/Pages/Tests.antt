-- ===== src/Pages/Tests.antt =====
-- The theorems on the bitmap of pages at a small bitmap, and runs.
use pxos.Base.{◌*◌, ◌≡◌, ◌≢◌, refl, arith, false, []}
use pxos.Heap.{Heap}
use pxos.Pages.{
  Pages, set_bitmap_bit, mark_pages, is_full, find_bit, find_page, find_free_physical_page,
  claim_page, alloc_physical_page, free_physical_page,
}
use pxos.Pages.Alloc.{Allocates, alloc_physical_page-Allocates, alloc_physical_page_blocked}

abbrev no_heap : Heap
no_heap = record { blocks = []; used_memory = 0; free_memory = 0 }

-- Two words, of which the first 33 pages are in use.
abbrev some_used : Pages
some_used = record {
  bitmap = mark_pages (λ i j. false) 0 33;
  bitmap_size = 2;
  page_allocations = 0;
  page_deallocations = 0;
  heap = no_heap;
}

alloc_physical_page-Allocates_example : Allocates some_used (alloc_physical_page some_used)
alloc_physical_page-Allocates_example = alloc_physical_page-Allocates some_used (omega arith)

alloc_physical_page_blocked_example :
    alloc_physical_page (free_physical_page some_used 8) ≡ (0, free_physical_page some_used 8)
alloc_physical_page_blocked_example =
    alloc_physical_page_blocked some_used 8 (omega arith) (omega arith)

allocated_address : (alloc_physical_page some_used).0 ≡ 33 * 4096
unfolding alloc_physical_page claim_page find_free_physical_page find_page is_full find_bit
    mark_pages set_bitmap_bit
allocated_address = refl

allocated_nonzero : (alloc_physical_page some_used).0 ≢ 0
allocated_nonzero e = omega (arith, e, allocated_address)
