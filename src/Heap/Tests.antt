-- ===== src/Heap/Tests.antt =====
-- The theorems of the heap at concrete heaps, and a run.
use pxos.Base.{◌≡◌, refl, some, []}
use pxos.Heap.{
  Heap, heap_init, find_free_block, split_block, set_type, size_at, start_at, take_block, sum_sizes,
  update_memory_stats, kmalloc, kfree,
}
use pxos.Heap.Api.{IsValid, Allocates, kmalloc-Allocates}
use pxos.Heap.Free.{kfree-kmalloc, kfree-IsValid, heap_init-IsValid}

abbrev fresh : Heap
fresh = heap_init (record { blocks = []; used_memory = 0; free_memory = 0 })

fresh-IsValid : IsValid fresh
fresh-IsValid = heap_init-IsValid (record { blocks = []; used_memory = 0; free_memory = 0 })

-- 10 bytes, rounded to 12, behind the first header.
ten : (h : Heap) × (kmalloc fresh 10 ≡ (some 0x200014, h))
unfolding heap_init kmalloc find_free_block take_block split_block set_type size_at start_at
    update_memory_stats sum_sizes
ten = (_, refl)

kmalloc-Allocates_example : Allocates fresh 10 (kmalloc fresh 10)
kmalloc-Allocates_example = kmalloc-Allocates fresh 10 fresh-IsValid

kfree-kmalloc_example : (h : Heap) × (kfree ten.0 0x200014 ≡ some h) × (h.blocks ≡ fresh.blocks)
kfree-kmalloc_example = kfree-kmalloc fresh 10 0x200014 ten.0 fresh-IsValid ten.1

ten-IsValid : IsValid ten.0
unfolding heap_init kmalloc find_free_block take_block split_block set_type size_at start_at
    update_memory_stats sum_sizes ten
ten-IsValid = record { layout = (refl, (refl, refl)); coalesced = (refl, (tt, tt)) }

kfree-IsValid_example : IsValid (kfree-kmalloc fresh 10 0x200014 ten.0 fresh-IsValid ten.1).0
kfree-IsValid_example =
    kfree-IsValid ten.0 0x200014 (kfree-kmalloc fresh 10 0x200014 ten.0 fresh-IsValid ten.1).0
      ten-IsValid (kfree-kmalloc fresh 10 0x200014 ten.0 fresh-IsValid ten.1).1
