-- ===== src/Heap.antt =====
-- The kernel heap of kernel/memory.c: `kmalloc`, `kfree` and the list of blocks behind them.
-- The list follows the `next` pointers from `memory_map`; a block stands for its header, whose
-- address is `start_addr` less the header's 20 bytes. The `prev` pointers are written and never read.
pub mod Layout
pub mod Coalesced
pub mod Api
pub mod Free
mod Tests
use pxos.Base.{
  ℕ, zero, suc, ◌+◌, ◌-◌, ◌*◌, ◌/◌, ◌%◌, ◌^◌, Bool, true, false, not, ◌&&◌, Option, none, some,
  List, [], ◌∷◌, ltb, leb, ◌==◌, if◌then◌else◌,
}

-- `memory_type_t`
pub data MemoryType : Type 0 where
  free allocated reserved kernel : MemoryType

-- `memory_block_t`
pub record Block : Type 0 where
  pub start_addr : ℕ
  pub size : ℕ
  pub type : MemoryType

-- `memory_map`, and the two fields of `memory_stats` that `update_memory_stats` writes.
pub record Heap : Type 0 where
  pub blocks : List Block
  pub used_memory : ℕ
  pub free_memory : ℕ

abbrev pub header : ℕ
header = 20

abbrev pub heap_start : ℕ
heap_start = 0x200000

abbrev pub heap_size : ℕ
heap_size = 0x100000

-- Sums of `uint32_t`.
abbrev pub add32 : ℕ → ℕ → ℕ
add32 a b = (a + b) % 2 ^ 32

-- a - b, where b ≤ a or the difference wraps.
abbrev pub sub32 : ℕ → ℕ → ℕ
sub32 a b = (a + 2 ^ 32 - b % 2 ^ 32) % 2 ^ 32

abbrev pub is_free : MemoryType → Bool
is_free free = true
is_free _ = false

abbrev pub is_allocated : MemoryType → Bool
is_allocated allocated = true
is_allocated _ = false

-- A position behind one more block.
abbrev pub later : Option ℕ → Option ℕ
later none = none
later (some i) = some (suc i)

-- `find_free_block`, as a position in the list.
unfoldable pub find_free_block : List Block → ℕ → Option ℕ
find_free_block [] n = none
find_free_block (b ∷ bs) n =
    if is_free b.type && leb n b.size then some 0 else later (find_free_block bs n)

-- `split_block` of the block at a position.
unfoldable pub split_block : List Block → ℕ → ℕ → List Block
split_block [] i n = []
split_block (b ∷ bs) (suc i) n = b ∷ split_block bs i n
split_block (b ∷ bs) zero n =
    if leb b.size (add32 n header)
    then b ∷ bs
    else record b { size = n }
      ∷ record {
        start_addr = add32 (add32 b.start_addr n) header;
        size = sub32 (sub32 b.size n) header;
        type = free;
      }
      ∷ bs

-- `block->type = t`
unfoldable pub set_type : List Block → ℕ → MemoryType → List Block
set_type [] i t = []
set_type (b ∷ bs) zero t = record b { type = t } ∷ bs
set_type (b ∷ bs) (suc i) t = b ∷ set_type bs i t

-- `block->size` and `block->start_addr`
unfoldable pub size_at : List Block → ℕ → ℕ
size_at [] i = 0
size_at (b ∷ bs) zero = b.size
size_at (b ∷ bs) (suc i) = size_at bs i

unfoldable pub start_at : List Block → ℕ → ℕ
start_at [] i = 0
start_at (b ∷ bs) zero = b.start_addr
start_at (b ∷ bs) (suc i) = start_at bs i

-- The loop of `merge_adjacent_blocks` from `current` on.
unfoldable pub merge_from : Block → List Block → List Block
merge_from current [] = current ∷ []
merge_from current (b ∷ bs) =
    elim (is_free current.type
      && is_free b.type
      && add32 (add32 current.start_addr current.size) header == b.start_addr) [
        | true ↦ merge_from (record current { size = add32 (add32 current.size b.size) header }) bs
        | false ↦ current ∷ merge_from b bs
      ]

-- `merge_adjacent_blocks`
unfoldable pub merge_adjacent_blocks : List Block → List Block
merge_adjacent_blocks [] = []
merge_adjacent_blocks (b ∷ bs) = merge_from b bs

-- The two sums of `update_memory_stats`.
unfoldable pub sum_sizes : (MemoryType → Bool) → List Block → ℕ → ℕ
sum_sizes counts [] acc = acc
sum_sizes counts (b ∷ bs) acc =
    sum_sizes counts bs (if counts b.type then add32 acc b.size else acc)

-- `update_memory_stats`
unfoldable pub update_memory_stats : Heap → Heap
update_memory_stats h = record h {
  used_memory = sum_sizes is_allocated h.blocks 0;
  free_memory = sum_sizes is_free h.blocks 0;
}

-- `heap_init`, which leaves the statistics alone.
unfoldable pub heap_init : Heap → Heap
heap_init h = record h {
  blocks = record { start_addr = heap_start + header; size = heap_size - header; type = free } ∷ [];
}

-- `(size + 3) & ~3`
abbrev pub round_up : ℕ → ℕ
round_up size = add32 size 3 / 4 * 4

-- The part of `kmalloc` behind the search, for the block at a position.
unfoldable pub take_block : List Block → ℕ → ℕ → List Block
take_block bs i n =
    set_type (if ltb (add32 n header) (size_at bs i) then split_block bs i n else bs) i allocated

-- `kmalloc`; `none` is NULL.
unfoldable pub kmalloc : Heap → ℕ → Option ℕ × Heap
kmalloc h size = if size == 0 then (none, h) else elim (find_free_block h.blocks (round_up size)) [
  | none ↦ (none, h)
  | some i ↦
      let bs = take_block h.blocks i (round_up size) in
      (some (start_at bs i), update_memory_stats (record h { blocks = bs }))
]

-- The block whose header `kfree` finds before the pointer.
unfoldable pub block_at : List Block → ℕ → Option ℕ
block_at [] p = none
block_at (b ∷ bs) p = if b.start_addr == p then some 0 else later (block_at bs p)

unfoldable pub type_at : List Block → ℕ → MemoryType
type_at [] i = free
type_at (b ∷ bs) zero = b.type
type_at (b ∷ bs) (suc i) = type_at bs i

-- `kfree` of NULL or of the start of a block; `none` for any other pointer, where the code reads 20
-- bytes that are the header of no block of the list.
unfoldable pub kfree : Heap → ℕ → Option Heap
kfree h p = if p == 0 then some h else elim (block_at h.blocks p) [
  | none ↦ none
  | some i ↦
      if is_allocated (type_at h.blocks i)
      then some (
          update_memory_stats
            (record h { blocks = merge_adjacent_blocks (set_type h.blocks i free) }))
      else some h
]
