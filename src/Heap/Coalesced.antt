-- ===== src/Heap/Coalesced.antt =====
-- No two neighbours of the heap are both free: the merge brings this about, and undoes a split.
use pxos.Base.{
  ℕ, zero, suc, ◌+◌, ◌-◌, ◌^◌, ◌≡◌, ◌<◌, refl, sym, ap, ◌∙◌, arith, false, ◌&&◌, Bool-cases, inl,
  inr, List, [], ◌∷◌, leb,
}
use pxos.Heap.{
  free, allocated, Block, header, add32, sub32, is_free, split_block, set_type, merge_from,
  merge_adjacent_blocks,
}
use pxos.Heap.Layout.{
  Layout, Fits, split_block-head, split_block-tail, merge_from-joined, merge_from-apart,
  joined-Layout, Layout-shift,
}

-- The first block of a list, if there is one, is not free where `b` is.
abbrev pub Apart : Block → List Block → Type 0
Apart b [] = Unit {0}
Apart b (c ∷ bs) = (is_free b.type && is_free c.type) ≡ false

abbrev pub Coalesced : List Block → Type 0
Coalesced [] = Unit {0}
Coalesced (b ∷ bs) = Apart b bs × Coalesced bs

-- On such a list the merge does nothing.
merge_from_id : (b : Block) (bs : List Block) → Apart b bs → Coalesced bs → merge_from b bs ≡ b ∷ bs
merge_from_id b [] h k = unfold merge_from in refl
merge_from_id b (c ∷ bs) h k = merge_from-apart b c bs h ∙ ap (◌∷◌ b) (merge_from_id c bs k.0 k.1)

-- After the merge from `b` on, the first block has the type and the address of `b`.
pub merge_from-Coalesced :
    (a e : ℕ) (b : Block) (bs : List Block)
    → e < 2 ^ 31
    → Layout a (b ∷ bs) e
    → Coalesced (merge_from b bs)
      × ((c : Block) → (is_free c.type && is_free b.type) ≡ false → Apart c (merge_from b bs))
merge_from-Coalesced a e b [] small h = unfold merge_from in ((tt, tt), λ c k. k)
merge_from-Coalesced a e b (c ∷ bs) small h = elim (Bool-cases (is_free b.type && is_free c.type)) [
  | inl t ↦ rw (merge_from-joined a e b c bs small h t) (
      merge_from-Coalesced a e (record b { size = b.size + c.size + header }) bs small
        (joined-Layout a e b c bs h))
  | inr t ↦
      let (k, near) = merge_from-Coalesced (b.start_addr + b.size) e c bs small h.1 in
      rw (merge_from-apart b c bs t) ((near b t, k), λ d q. q)
]

pub merge-Coalesced :
    (a e : ℕ) (bs : List Block) → e < 2 ^ 31 → Layout a bs e → Coalesced (merge_adjacent_blocks bs)
unfolding merge_adjacent_blocks
merge-Coalesced a e [] small h = tt
merge-Coalesced a e (b ∷ bs) small h = (merge_from-Coalesced a e b bs small h).0

merge_of : (b : Block) (bs : List Block) → merge_adjacent_blocks (b ∷ bs) ≡ merge_from b bs
unfolding merge_adjacent_blocks
merge_of b bs = refl

-- The first block of a split list has the type that it had.
split_block-first :
    (n : ℕ) (c : Block) (bs : List Block) (i : ℕ)
    → (c' : Block) × (r : List Block) × (split_block (c ∷ bs) i n ≡ c' ∷ r) × (c'.type ≡ c.type)
unfolding split_block
split_block-first n c bs (suc i) = (c, split_block bs i n, refl, refl)
split_block-first n c bs zero = elim (Bool-cases (leb c.size (add32 n header))) [
  | inl le ↦ (c, bs, rw le, refl)
  | inr gt ↦ (record c { size = n }, second ∷ bs, rw gt refl, refl)
]
  where
    second : Block
    second = record {
      start_addr = add32 (add32 c.start_addr n) header;
      size = sub32 (sub32 c.size n) header;
      type = free;
    }

merge_from-halves :
    (a e n : ℕ) (b : Block) (bs : List Block)
    → e < 2 ^ 31
    → Layout a (b ∷ bs) e
    → b.type ≡ free
    → n + header < b.size
    → merge_from
        (record b { size = n })
        (record { start_addr = b.start_addr + n + header; size = b.size - n - header; type = free }
          ∷ bs)
      ≡ merge_from b bs
merge_from-halves a e n b bs small h f lt =
    merge_from-joined a e (record b { size = n }) second bs small
      (h.0, (refl, Layout-shift bs e (omega arith) h.1)) (rw f)
    ∙ ap (λ x. merge_from (record b { size = x }) bs) whole
  where
    second : Block
    second = record {
      start_addr = b.start_addr + n + header;
      size = b.size - n - header;
      type = free;
    }

    whole : n + second.size + header ≡ b.size
    whole = omega arith

-- The merge undoes a split of a free block.
pub merge-split_block :
    (a e n : ℕ) (bs : List Block) (i : ℕ)
    → e < 2 ^ 31
    → Layout a bs e
    → Coalesced bs
    → Fits n bs i
    → merge_adjacent_blocks (split_block bs i n) ≡ bs
merge-split_block a e n [] i small h k f = absurd f
merge-split_block a e n (b ∷ bs) zero small h k f =
    rw (split_block-head a e n b bs small h f.1) (elim (Bool-cases (leb b.size (n + header))) [
      | inl le ↦ rw le (merge_of b bs ∙ merge_from_id b bs k.0 k.1)
      | inr gt ↦ rw gt (
          merge_of (record b { size = n }) _
          ∙ merge_from-halves a e n b bs small h f.0 (ground arith)
          ∙ merge_from_id b bs k.0 k.1)
    ])
merge-split_block a e n (b ∷ []) (suc i) small h k f = absurd f
merge-split_block a e n (b ∷ c ∷ bs) (suc i) small h k f =
    let (c', r, eq, ty) = split_block-first n c bs i in
    rw (split_block-tail n b (c ∷ bs) i, eq)
      (merge_of b (c' ∷ r)
        ∙ merge_from-apart b c' r (rw ty k.0)
        ∙ ap (◌∷◌ b) (
            sym (merge_of c' r)
            ∙ (rw eq at
                (merge-split_block (b.start_addr + b.size) e n (c ∷ bs) i small h.1 k.1 f))))

Apart-free :
    (b c : Block) (bs : List Block) → b.type ≡ free → c.type ≡ free → Apart b bs → Apart c bs
Apart-free b c [] h k a = tt
Apart-free b c (d ∷ bs) h k a = ground arith

-- Splitting and taking a free block leaves no two free neighbours.
pub take-Coalesced :
    (n : ℕ) (bs : List Block) (i : ℕ)
    → Coalesced bs
    → Fits n bs i
    → Coalesced (set_type (split_block bs i n) i allocated)
      × ((c : Block) → Apart c bs → Apart c (set_type (split_block bs i n) i allocated))
unfolding set_type split_block
take-Coalesced n [] i k f = absurd f
take-Coalesced n (b ∷ bs) zero k f = elim (Bool-cases (leb b.size (add32 n header))) [
  | inl le ↦
      rw le ((allocated_apart (record b { type = allocated }) refl bs, k.1), λ c a. ground arith)
  | inr gt ↦ rw gt ((ground arith, (Apart-free b second bs f.0 refl k.0, k.1)), λ c a. ground arith)
]
  where
    second : Block
    second = record {
      start_addr = add32 (add32 b.start_addr n) header;
      size = sub32 (sub32 b.size n) header;
      type = free;
    }

    allocated_apart : (c : Block) → c.type ≡ allocated → (ds : List Block) → Apart c ds
    allocated_apart c e [] = tt
    allocated_apart c e (d ∷ ds) = ground arith
take-Coalesced n (b ∷ bs) (suc i) k f =
    let (k', near) = take-Coalesced n bs i k.1 f in ((near b k.0, k'), λ c a. a)
