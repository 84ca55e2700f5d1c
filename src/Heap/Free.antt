-- ===== src/Heap/Free.antt =====
-- `kfree`: it keeps the heap in order, and undoes a `kmalloc`.
use pxos.Base.{
  ℕ, zero, suc, ◌+◌, ◌≡◌, ◌≢◌, ◌<◌, refl, sym, ap, ◌∙◌, arith, Option, none, some, Option-cases,
  inl, inr, List, [], ◌∷◌, length, ◌==◌, if_cases,
}
use native.Mathlib.Decide.{ℕ_discrete}
use mathlib.Core.Path.{subst}
use pxos.Heap.{
  MemoryType, free, allocated, Block, Heap, heap_start, heap_size, round_up, is_allocated,
  find_free_block, split_block, set_type, start_at, type_at, block_at, merge_adjacent_blocks,
  update_memory_stats, heap_init, kmalloc, kfree,
}
use pxos.Heap.Layout.{Layout, Fits, Search, find_free_block-Search, set_type-Layout, merge-Layout}
use pxos.Heap.Coalesced.{merge-Coalesced, merge-split_block}
use pxos.Heap.Api.{
  IsValid, taken, after_take, after_take-IsValid, kmalloc_at, kmalloc-none, kmalloc_zero,
}

start_at-gt :
    (a e : ℕ) (bs : List Block) (i : ℕ) → Layout a bs e → i < length bs → a < start_at bs i
unfolding start_at
start_at-gt a e [] i h lt = absurd (omega arith)
start_at-gt a e (b ∷ bs) zero h lt = omega (arith, h.0)
start_at-gt a e (b ∷ bs) (suc i) h lt =
    omega (arith, h.0, start_at-gt (b.start_addr + b.size) e bs i h.1 (omega arith))

-- `kfree` finds the block that starts at the pointer.
block_at-start_at :
    (a e : ℕ) (bs : List Block) (i : ℕ)
    → Layout a bs e
    → i < length bs
    → block_at bs (start_at bs i) ≡ some i
unfolding start_at block_at
block_at-start_at a e [] i h lt = absurd (omega arith)
block_at-start_at a e (b ∷ bs) zero h lt = ground arith
block_at-start_at a e (b ∷ bs) (suc i) h lt = ground (
  arith,
  start_at-gt (b.start_addr + b.size) e bs i h.1 (omega arith),
  block_at-start_at (b.start_addr + b.size) e bs i h.1 (omega arith),
)

length-set_type : (bs : List Block) (i : ℕ) (t : MemoryType) → length (set_type bs i t) ≡ length bs
unfolding set_type
length-set_type [] i t = refl
length-set_type (b ∷ bs) zero t = refl
length-set_type (b ∷ bs) (suc i) t = ap suc (length-set_type bs i t)

Fits-lt : (n : ℕ) (bs : List Block) (i : ℕ) → Fits n bs i → i < length (split_block bs i n)
unfolding split_block
Fits-lt n [] i f = absurd f
Fits-lt n (b ∷ bs) zero f = ground arith
Fits-lt n (b ∷ bs) (suc i) f = omega (arith, Fits-lt n bs i f)

type_at-set_type :
    (bs : List Block) (i : ℕ) (t : MemoryType) → i < length bs → type_at (set_type bs i t) i ≡ t
unfolding type_at set_type
type_at-set_type [] i t lt = absurd (omega arith)
type_at-set_type (b ∷ bs) zero t lt = refl
type_at-set_type (b ∷ bs) (suc i) t lt = type_at-set_type bs i t (omega arith)

-- Freeing the block that was taken leaves the split alone.
set_type-taken :
    (n : ℕ) (bs : List Block) (i : ℕ)
    → Fits n bs i
    → set_type (taken bs i n) i free ≡ split_block bs i n
unfolding set_type split_block
set_type-taken n [] i f = absurd f
set_type-taken n (b ∷ bs) zero f = ground arith
set_type-taken n (b ∷ bs) (suc i) f = ap (◌∷◌ b) (set_type-taken n bs i f)

kfree-found :
    (h : Heap) (p i : ℕ)
    → p ≢ 0
    → block_at h.blocks p ≡ some i
    → type_at h.blocks i ≡ allocated
    → kfree h p
      ≡ some (
          update_memory_stats
            (record h { blocks = merge_adjacent_blocks (set_type h.blocks i free) }))
unfolding kfree
kfree-found h p i ne e t = ground arith

blocks_of : (h : Heap) → (update_memory_stats h).blocks ≡ h.blocks
unfolding update_memory_stats
blocks_of h = refl

taken-lt : (n : ℕ) (bs : List Block) (i : ℕ) → Fits n bs i → i < length (taken bs i n)
taken-lt n bs i f =
    omega (arith, length-set_type (split_block bs i n) i allocated, Fits-lt n bs i f)

-- Freeing a block that was just taken brings the list back.
kfree-taken :
    (h : Heap) (i n : ℕ)
    → IsValid h
    → Fits n h.blocks i
    → (h' : Heap) × (kfree (after_take h i n) (start_at (taken h.blocks i n) i) ≡ some h')
      × (h'.blocks ≡ h.blocks)
unfolding update_memory_stats
kfree-taken h i n v f = (
  update_memory_stats (record (after_take h i n) {
    blocks = merge_adjacent_blocks (set_type (taken h.blocks i n) i free);
  }),
  kfree-found (after_take h i n) (start_at (taken h.blocks i n) i) i
      (λ z. absurd (
        omega
          (arith, start_at-gt heap_start (heap_start + heap_size) (taken h.blocks i n) i laid lt)))
      (block_at-start_at heap_start (heap_start + heap_size) (taken h.blocks i n) i laid lt)
      (type_at-set_type (split_block h.blocks i n) i allocated (Fits-lt n h.blocks i f)),
  ap merge_adjacent_blocks (set_type-taken n h.blocks i f)
      ∙ merge-split_block heap_start (heap_start + heap_size) n h.blocks i (omega arith) v.layout
          v.coalesced f,
)
  where
    lt : i < length (taken h.blocks i n)
    lt = taken-lt n h.blocks i f

    laid : Layout heap_start (taken h.blocks i n) (heap_start + heap_size)
    laid = (after_take-IsValid h i n v f).layout

kfree-kmalloc_of :
    (h : Heap) (size p : ℕ) (h' : Heap) (o : Option ℕ)
    → IsValid h
    → size ≢ 0
    → kmalloc h size ≡ (some p, h')
    → find_free_block h.blocks (round_up size) ≡ o
    → Search (round_up size) h.blocks o
    → (h'' : Heap) × (kfree h' p ≡ some h'') × (h''.blocks ≡ h.blocks)
kfree-kmalloc_of h size p h' none v ne e q s =
    absurd (none_some (sym (kmalloc-none h size ne q) ∙ e))
  where
    none_some : ◌≡◌ {A = Option ℕ × Heap} (none, h) (some p, h') → ⊥
    none_some z = cc
kfree-kmalloc_of h size p h' (some i) v ne e q f =
    subst (λ (r : Option ℕ × Heap). Undone r) (sym (kmalloc_at h size i ne q f) ∙ e)
      (kfree-taken h i (round_up size) v f)
  where
    Undone : Option ℕ × Heap → Type 0
    Undone (none, g) = Unit {0}
    Undone (some a, g) = (h'' : Heap) × (kfree g a ≡ some h'') × (h''.blocks ≡ h.blocks)

-- On a heap in order, where `kmalloc` returns a pointer, `kfree` of that pointer right after it
-- succeeds and brings back the list of blocks that was there before.
pub kfree-kmalloc :
    (h : Heap) (size p : ℕ) (h' : Heap)
    → IsValid h
    → kmalloc h size ≡ (some p, h')
    → (h'' : Heap) × (kfree h' p ≡ some h'') × (h''.blocks ≡ h.blocks)
kfree-kmalloc h size p h' v e = elim (ℕ_discrete size 0) [
  | yes z ↦ absurd (none_some (sym (kmalloc_zero h size z) ∙ e))
  | no ne ↦
      kfree-kmalloc_of h size p h' (find_free_block h.blocks (round_up size)) v ne e refl
        (find_free_block-Search (round_up size) h.blocks)
]
  where
    none_some : ◌≡◌ {A = Option ℕ × Heap} (none, h) (some p, h') → ⊥
    none_some z = cc

-- The heap of a result is in order.
abbrev Kept : Option Heap → Type 0
Kept none = Unit {0}
Kept (some g) = IsValid g

freed-IsValid :
    (h : Heap) (i : ℕ)
    → IsValid h
    → IsValid (
        update_memory_stats
          (record h { blocks = merge_adjacent_blocks (set_type h.blocks i free) }))
unfolding update_memory_stats
freed-IsValid h i v = record {
  layout =
      merge-Layout heap_start (heap_start + heap_size) (set_type h.blocks i free) (omega arith)
        laid;
  coalesced =
      merge-Coalesced heap_start (heap_start + heap_size) (set_type h.blocks i free) (omega arith)
        laid;
}
  where
    laid : Layout heap_start (set_type h.blocks i free) (heap_start + heap_size)
    laid = set_type-Layout heap_start (heap_start + heap_size) h.blocks i free v.layout

kfree-Kept : (h : Heap) (p : ℕ) → IsValid h → Kept (kfree h p)
unfolding kfree
kfree-Kept h p v =
    if_cases Kept (p == 0) _ _ (λ z. v)
      λ ne. elim (Option-cases (block_at h.blocks p)) [
        | inl e ↦ rw e tt
        | inr (i, e) ↦ rw e (
            if_cases Kept (is_allocated (type_at h.blocks i)) _ _ (λ t. freed-IsValid h i v)
              (λ t. v))
      ]

-- On a heap in order, what `kfree` leaves for NULL or for the address of a block, allocated or not,
-- is in order: the blocks fill the heap and do not overlap, and no two free ones are neighbours.
pub kfree-IsValid : (h : Heap) (p : ℕ) (h' : Heap) → IsValid h → kfree h p ≡ some h' → IsValid h'
kfree-IsValid h p h' v e = subst Kept e (kfree-Kept h p v)

-- `heap_init` sets up a heap in order with one free block, from whatever state.
pub heap_init-IsValid : (h : Heap) → IsValid (heap_init h)
unfolding heap_init
heap_init-IsValid h = record { layout = (refl, refl); coalesced = (tt, tt) }
