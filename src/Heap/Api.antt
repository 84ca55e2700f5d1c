-- ===== src/Heap/Api.antt =====
-- `kmalloc` and `kfree` on a heap in order.
use pxos.Base.{
  ℕ, zero, suc, ◌+◌, ◌≡◌, ◌≢◌, ◌≤◌, refl, sym, ap, ◌∙◌, arith, Option, none, some, ◌⊎◌, Bool-cases,
  inl, inr, List, [], ◌∷◌, leb,
}
use native.Mathlib.Decide.{ℕ_discrete}
use pxos.Heap.{
  free, allocated, Block, Heap, header, heap_start, heap_size, add32, round_up, find_free_block,
  split_block, set_type, start_at, take_block, update_memory_stats, kmalloc,
}
use pxos.Heap.Layout.{
  Layout, Fits, NoFit, Search, find_free_block-Search, take_block-eq, set_type-Layout,
  split_block-Layout,
}
use pxos.Heap.Coalesced.{Coalesced, take-Coalesced}

-- The blocks fill the heap's megabyte, and no two neighbours are free.
pub record IsValid (h : Heap) : Type 0 where
  pub layout : Layout heap_start h.blocks (heap_start + heap_size)
  pub coalesced : Coalesced h.blocks

-- A block of the list.
abbrev pub Has : Block → List Block → Type 0
Has c [] = ⊥
Has c (b ∷ bs) = (c ≡ b) ⊎ Has c bs

-- The list that a successful `kmalloc` leaves.
abbrev pub taken : List Block → ℕ → ℕ → List Block
taken bs i n = set_type (split_block bs i n) i allocated

-- The block that it hands out is allocated and large enough.
taken-Has :
    (n : ℕ) (bs : List Block) (i : ℕ)
    → Fits n bs i
    → (b : Block) × Has b (taken bs i n)
      × (b.start_addr ≡ start_at (taken bs i n) i)
      × (b.type ≡ allocated)
      × (n ≤ b.size)
unfolding set_type split_block start_at
taken-Has n [] i f = absurd f
taken-Has n (b ∷ bs) zero f = elim (Bool-cases (leb b.size (add32 n header))) [
  | inl le ↦ (record b { type = allocated }, rw le (inl refl), rw le, refl, f.1)
  | inr gt ↦ (record b { type = allocated; size = n }, rw gt (inl refl), rw gt, refl, omega arith)
]
taken-Has n (b ∷ bs) (suc i) f =
    let (c, here, at, ty, le) = taken-Has n bs i f in (c, inr here, at, ty, le)

free-ne-allocated : free ≡ allocated → ⊥
free-ne-allocated e = cc

-- Allocated blocks stay as they are.
taken_keeps :
    (n : ℕ) (bs : List Block) (i : ℕ) (c : Block)
    → Fits n bs i
    → c.type ≡ allocated
    → Has c bs
    → Has c (taken bs i n)
unfolding set_type split_block
taken_keeps n [] i c f ty h = h
taken_keeps n (b ∷ bs) zero c f ty (inl e) =
    absurd (free-ne-allocated (sym f.0 ∙ ap (λ (d : Block). d.type) (sym e) ∙ ty))
taken_keeps n (b ∷ bs) zero c f ty (inr h) = elim (Bool-cases (leb b.size (add32 n header))) [
  | inl le ↦ rw le (inr h)
  | inr gt ↦ rw gt (inr (inr h))
]
taken_keeps n (b ∷ bs) (suc i) c f ty (inl e) = inl e
taken_keeps n (b ∷ bs) (suc i) c f ty (inr h) = inr (taken_keeps n bs i c f ty h)

-- What `kmalloc` may do.
pub data Allocates (h : Heap) (size : ℕ) : Option ℕ × Heap → Type 0 where
  empty : size ≡ 0 → Allocates h size (none, h)
  refused : NoFit (round_up size) h.blocks → Allocates h size (none, h)
  granted :
      (b : Block) (h' : Heap)
      → IsValid h'
      → Has b h'.blocks
      → b.type ≡ allocated
      → round_up size ≤ b.size
      → ((c : Block) → c.type ≡ allocated → Has c h.blocks → Has c h'.blocks)
      → Allocates h size (some b.start_addr, h')

pub kmalloc-none :
    (h : Heap) (size : ℕ)
    → size ≢ 0
    → find_free_block h.blocks (round_up size) ≡ none
    → kmalloc h size ≡ (none, h)
unfolding kmalloc
kmalloc-none h size ne e = ground arith

kmalloc-some :
    (h : Heap) (size i : ℕ)
    → size ≢ 0
    → find_free_block h.blocks (round_up size) ≡ some i
    → kmalloc h size ≡ (
      some (start_at (take_block h.blocks i (round_up size)) i),
      update_memory_stats (record h { blocks = take_block h.blocks i (round_up size) }),
    )
unfolding kmalloc
kmalloc-some h size i ne e = ground arith

blocks-update : (h : Heap) → (update_memory_stats h).blocks ≡ h.blocks
unfolding update_memory_stats
blocks-update h = refl

-- The heap after `kmalloc` took the block at a position.
abbrev pub after_take : Heap → ℕ → ℕ → Heap
after_take h i n = update_memory_stats (record h { blocks = taken h.blocks i n })

pub after_take-IsValid :
    (h : Heap) (i n : ℕ) → IsValid h → Fits n h.blocks i → IsValid (after_take h i n)
unfolding update_memory_stats
after_take-IsValid h i n v f = record {
  layout =
      set_type-Layout heap_start (heap_start + heap_size) (split_block h.blocks i n) i allocated (
        split_block-Layout heap_start (heap_start + heap_size) n h.blocks i (omega arith) v.layout
          f);
  coalesced = (take-Coalesced n h.blocks i v.coalesced f).0;
}

pub kmalloc_at :
    (h : Heap) (size i : ℕ)
    → size ≢ 0
    → find_free_block h.blocks (round_up size) ≡ some i
    → Fits (round_up size) h.blocks i
    → kmalloc h size
      ≡ (some (start_at (taken h.blocks i (round_up size)) i), after_take h i (round_up size))
kmalloc_at h size i ne e f =
    kmalloc-some h size i ne e
    ∙ ap (λ bs. (some (start_at bs i), update_memory_stats (record h { blocks = bs })))
        (take_block-eq (round_up size) h.blocks i f)

kmalloc_found :
    (h : Heap) (size : ℕ) (o : Option ℕ)
    → IsValid h
    → size ≢ 0
    → find_free_block h.blocks (round_up size) ≡ o
    → Search (round_up size) h.blocks o
    → Allocates h size (kmalloc h size)
unfolding update_memory_stats
kmalloc_found h size none v ne e s = rw (kmalloc-none h size ne e) (refused s)
kmalloc_found h size (some i) v ne e f =
    let (b, here, at, ty, le) = taken-Has (round_up size) h.blocks i f in
    rw (kmalloc_at h size i ne e f, ← at)
      (granted b (after_take h i (round_up size)) (after_take-IsValid h i (round_up size) v f) here
        ty le (λ c cty ch. taken_keeps (round_up size) h.blocks i c f cty ch))

pub kmalloc_zero : (h : Heap) (size : ℕ) → size ≡ 0 → kmalloc h size ≡ (none, h)
unfolding kmalloc
kmalloc_zero h size e = ground arith

-- On a heap in order `kmalloc` does one of three things. For size 0 it returns NULL and changes
-- nothing. If no free block has the rounded size, likewise. Otherwise it returns the address of an
-- allocated block of at least the rounded size; every block that was allocated still is, at the same
-- address and of the same size; and the heap is in order again: its blocks fill it and do not
-- overlap, and no two free ones are neighbours.
pub kmalloc-Allocates : (h : Heap) (size : ℕ) → IsValid h → Allocates h size (kmalloc h size)
kmalloc-Allocates h size v = elim (ℕ_discrete size 0) [
  | yes e ↦ rw (kmalloc_zero h size e) (empty e)
  | no ne ↦
      kmalloc_found h size (find_free_block h.blocks (round_up size)) v ne refl
        (find_free_block-Search (round_up size) h.blocks)
]
