-- ===== src/Heap/Layout.antt =====
-- The blocks of the heap cover it: each header lies where the block before it ends.
use pxos.Base.{
  ℕ, zero, suc, ◌+◌, ◌-◌, ◌^◌, ◌≡◌, ◌≤◌, ◌<◌, refl, arith, true, false, ◌&&◌, Option, none, some,
  Bool-cases, inl, inr, List, [], ◌∷◌, leb, ltb, if◌then◌else◌,
}
use pxos.Heap.{
  MemoryType, free, allocated, Block, header, add32, is_free, find_free_block, later, split_block,
  set_type, size_at, merge_from, merge_adjacent_blocks, take_block,
}

-- The blocks fill the addresses from `a` to `e`.
abbrev pub Layout : ℕ → List Block → ℕ → Type 0
Layout a [] e = a ≡ e
Layout a (b ∷ bs) e = (b.start_addr ≡ a + header) × Layout (b.start_addr + b.size) bs e

pub Layout-le : (a : ℕ) (bs : List Block) (e : ℕ) → Layout a bs e → a ≤ e
Layout-le a [] e h = omega arith
Layout-le a (b ∷ bs) e h = omega (arith, Layout-le (b.start_addr + b.size) bs e h.1)

-- A free block of at least `n` bytes at a position.
abbrev pub Fits : ℕ → List Block → ℕ → Type 0
Fits n [] i = ⊥
Fits n (b ∷ bs) zero = (b.type ≡ free) × (n ≤ b.size)
Fits n (b ∷ bs) (suc i) = Fits n bs i

-- No free block of at least `n` bytes.
abbrev pub NoFit : ℕ → List Block → Type 0
NoFit n [] = Unit {0}
NoFit n (b ∷ bs) = ((is_free b.type && leb n b.size) ≡ false) × NoFit n bs

abbrev pub Search : ℕ → List Block → Option ℕ → Type 0
Search n bs none = NoFit n bs
Search n bs (some i) = Fits n bs i

is_free-eq : (t : MemoryType) → is_free t ≡ true → t ≡ free
is_free-eq t h = ground arith

Search-later :
    (n : ℕ) (b : Block) (bs : List Block) (o : Option ℕ)
    → (is_free b.type && leb n b.size) ≡ false
    → Search n bs o
    → Search n (b ∷ bs) (later o)
Search-later n b bs none h s = (h, s)
Search-later n b bs (some i) h s = s

pub find_free_block-Search : (n : ℕ) (bs : List Block) → Search n bs (find_free_block bs n)
unfolding find_free_block
find_free_block-Search n [] = tt
find_free_block-Search n (b ∷ bs) = elim (Bool-cases (is_free b.type && leb n b.size)) [
  | inl e ↦ rw e (is_free-eq b.type (ground arith), ground arith)
  | inr e ↦ rw e (Search-later n b bs (find_free_block bs n) e (find_free_block-Search n bs))
]

-- `kmalloc` calls `split_block` only if it will split; the test in `split_block` is the same.
split_tested :
    (n : ℕ) (bs : List Block) (i : ℕ)
    → Fits n bs i
    → (if ltb (add32 n header) (size_at bs i) then split_block bs i n else bs) ≡ split_block bs i n
unfolding size_at split_block
split_tested n [] i f = absurd f
split_tested n (b ∷ bs) zero f = ground arith
split_tested n (b ∷ bs) (suc i) f = ground (arith, split_tested n bs i f)

pub take_block-eq :
    (n : ℕ) (bs : List Block) (i : ℕ)
    → Fits n bs i
    → take_block bs i n ≡ set_type (split_block bs i n) i allocated
unfolding take_block
take_block-eq n bs i f = rw (split_tested n bs i f)

pub set_type-Layout :
    (a e : ℕ) (bs : List Block) (i : ℕ) (t : MemoryType)
    → Layout a bs e
    → Layout a (set_type bs i t) e
unfolding set_type
set_type-Layout a e [] i t h = h
set_type-Layout a e (b ∷ bs) zero t h = h
set_type-Layout a e (b ∷ bs) (suc i) t h =
    (h.0, set_type-Layout (b.start_addr + b.size) e bs i t h.1)

-- The two blocks that a split makes, where nothing wraps.
pub split_block-head :
    (a e n : ℕ) (b : Block) (bs : List Block)
    → e < 2 ^ 31
    → Layout a (b ∷ bs) e
    → n ≤ b.size
    → split_block (b ∷ bs) 0 n ≡ (
        if leb b.size (n + header)
        then b ∷ bs
        else record b { size = n }
          ∷ record {
            start_addr = b.start_addr + n + header;
            size = b.size - n - header;
            type = free;
          }
          ∷ bs)
unfolding split_block
split_block-head a e n b bs small h f = ground (arith, Layout-le (b.start_addr + b.size) bs e h.1)

pub split_block-tail :
    (n : ℕ) (b : Block) (bs : List Block) (i : ℕ)
    → split_block (b ∷ bs) (suc i) n ≡ b ∷ split_block bs i n
unfolding split_block
split_block-tail n b bs i = refl

pub Layout-shift : {a a' : ℕ} (bs : List Block) (e : ℕ) → a ≡ a' → Layout a bs e → Layout a' bs e
Layout-shift bs e p h = rw (← p) h

pub split_block-Layout :
    (a e n : ℕ) (bs : List Block) (i : ℕ)
    → e < 2 ^ 31
    → Layout a bs e
    → Fits n bs i
    → Layout a (split_block bs i n) e
split_block-Layout a e n [] i small h f = absurd f
split_block-Layout a e n (b ∷ bs) zero small h f =
    rw (split_block-head a e n b bs small h f.1) (elim (Bool-cases (leb b.size (n + header))) [
      | inl le ↦ rw le h
      | inr gt ↦ rw gt (h.0, (refl, Layout-shift bs e (ground arith) h.1))
    ])
split_block-Layout a e n (b ∷ bs) (suc i) small h f =
    rw (split_block-tail n b bs i)
      (h.0, split_block-Layout (b.start_addr + b.size) e n bs i small h.1 f)

-- Where nothing wraps, two blocks are merged exactly if both are free.
pub merge_from-joined :
    (a e : ℕ) (b c : Block) (bs : List Block)
    → e < 2 ^ 31
    → Layout a (b ∷ c ∷ bs) e
    → (is_free b.type && is_free c.type) ≡ true
    → merge_from b (c ∷ bs) ≡ merge_from (record b { size = b.size + c.size + header }) bs
unfolding merge_from
merge_from-joined a e b c bs small h t =
    ground (arith, Layout-le (c.start_addr + c.size) bs e h.1.1)

pub merge_from-apart :
    (b c : Block) (bs : List Block)
    → (is_free b.type && is_free c.type) ≡ false
    → merge_from b (c ∷ bs) ≡ b ∷ merge_from c bs
unfolding merge_from
merge_from-apart b c bs t = ground arith

pub joined-Layout :
    (a e : ℕ) (b c : Block) (bs : List Block)
    → Layout a (b ∷ c ∷ bs) e
    → Layout a (record b { size = b.size + c.size + header } ∷ bs) e
joined-Layout a e b c bs h = (h.0, Layout-shift bs e (omega (arith, h.1.0)) h.1.1)

pub merge_from-Layout :
    (a e : ℕ) (b : Block) (bs : List Block)
    → e < 2 ^ 31
    → Layout a (b ∷ bs) e
    → Layout a (merge_from b bs) e
merge_from-Layout a e b [] small h = unfold merge_from in h
merge_from-Layout a e b (c ∷ bs) small h = elim (Bool-cases (is_free b.type && is_free c.type)) [
  | inl t ↦ rw (merge_from-joined a e b c bs small h t) (
      merge_from-Layout a e (record b { size = b.size + c.size + header }) bs small
        (joined-Layout a e b c bs h))
  | inr t ↦
      rw (merge_from-apart b c bs t)
        (h.0, merge_from-Layout (b.start_addr + b.size) e c bs small h.1)
]

pub merge-Layout :
    (a e : ℕ) (bs : List Block) → e < 2 ^ 31 → Layout a bs e → Layout a (merge_adjacent_blocks bs) e
unfolding merge_adjacent_blocks
merge-Layout a e [] small h = h
merge-Layout a e (b ∷ bs) small h = merge_from-Layout a e b bs small h
