-- ===== src/Pages/Alloc.antt =====
-- What `alloc_physical_page` and `free_physical_page` of kernel/memory.c do to the bitmap.
use mathlib.Core.Path.{fun_ext, subst}
use native.Mathlib.Decide.{ℕ_discrete}
use pxos.Base.{
  ℕ, ◌+◌, ◌*◌, ◌/◌, ◌%◌, ◌^◌, ◌≡◌, ◌≢◌, ◌≤◌, ◌<◌, refl, sym, ap, ap₂, ◌∙◌, arith, Bool, true, false,
  not, ◌&&◌, Option, ltb, ◌==◌, if_cases, if_true, if_false,
}
use pxos.Heap.{update_memory_stats}
use pxos.Pages.{
  Pages, get_bitmap_bit, set_bitmap_bit, find_page, or_zero, find_free_physical_page, claim_page,
  alloc_physical_page, free_physical_page,
}
use pxos.Pages.Scan.{Scan, found, nothing, find_page-Scan}

-- The number of pages, and whether a page is in use.
abbrev pub page_count : Pages → ℕ
page_count p = p.bitmap_size * 32

abbrev pub used : Pages → ℕ → Bool
used p page = get_bitmap_bit p.bitmap page

-- Two states of the bitmap that differ in one page only.
abbrev pub OnlyPage : Pages → Pages → ℕ → Type 0
OnlyPage p p' page = (j : ℕ) → j ≢ page → used p' j ≡ used p j

-- What an allocation may do: hand out the first page that is not in use, which then is; or return 0
-- and change nothing, because page 0 is not in use or because all pages are.
pub data Allocates (p : Pages) : ℕ × Pages → Type 0 where
  granted :
      (page : ℕ) (p' : Pages)
      → page ≢ 0
      → page < page_count p
      → used p page ≡ false
      → ((j : ℕ) → j < page → used p j ≡ true)
      → used p' page ≡ true
      → OnlyPage p p' page
      → Allocates p (page * 4096, p')
  first_is_free : used p 0 ≡ false → Allocates p (0, p)
  all_used : ((j : ℕ) → j < page_count p → used p j ≡ true) → Allocates p (0, p)

get_bitmap_bit-set_self :
    (bitmap : ℕ → ℕ → Bool) (page : ℕ) (b : Bool)
    → get_bitmap_bit (set_bitmap_bit bitmap page b) page ≡ b
unfolding get_bitmap_bit set_bitmap_bit
get_bitmap_bit-set_self bitmap page b = ground arith

get_bitmap_bit-set_ne :
    (bitmap : ℕ → ℕ → Bool) (page j : ℕ) (b : Bool)
    → j ≢ page
    → get_bitmap_bit (set_bitmap_bit bitmap page b) j ≡ get_bitmap_bit bitmap j
unfolding get_bitmap_bit set_bitmap_bit
get_bitmap_bit-set_ne bitmap page j b ne = ground arith

-- The bitmap after page `k` is claimed.
claimed : Pages → ℕ → Pages
claimed p k = record p {
  bitmap = set_bitmap_bit p.bitmap k true;
  page_allocations = (p.page_allocations + 1) % 2 ^ 32;
  heap = update_memory_stats p.heap;
}

claim_page_zero : (p : Pages) (k : ℕ) → k ≡ 0 → claim_page p k ≡ (0, p)
unfolding claim_page
claim_page_zero p k e =
    ap₂ (λ a q. (a, q)) (omega arith) (if_false {b = not (k == 0)} _ _ (ground (arith, e)))

claim_page-claimed :
    (p : Pages) (k : ℕ) → k ≢ 0 → k * 4096 < 2 ^ 32 → claim_page p k ≡ (k * 4096, claimed p k)
unfolding claim_page claimed
claim_page-claimed p k ne h =
    ap₂ (λ a q. (a, q)) (omega arith) (if_true {b = not (k == 0)} _ _ (ground (arith, ne)))

claim_page-Allocates :
    (p : Pages) {o : Option ℕ}
    → page_count p * 4096 ≤ 2 ^ 32
    → Scan (used p) 0 (page_count p) o
    → Allocates p (claim_page p (or_zero o))
unfolding claimed
claim_page-Allocates p small (nothing all) =
    subst (Allocates p) (sym (claim_page_zero p 0 refl)) (all_used (λ j h. all j (omega arith) h))
claim_page-Allocates p small (found k le lt f below) = elim (ℕ_discrete k 0) [
  | yes z ↦
      subst (Allocates p) (sym (claim_page_zero p k z)) (first_is_free (ap (used p) (sym z) ∙ f))
  | no nz ↦ subst (Allocates p) (sym (claim_page-claimed p k nz (omega arith))) (
      granted k (claimed p k) nz lt f (λ j h. below j (omega arith) h)
        (get_bitmap_bit-set_self p.bitmap k true)
        (λ j ne. get_bitmap_bit-set_ne p.bitmap k j true ne))
]

search_all : (p : Pages) → Scan (used p) 0 (page_count p) (find_page p.bitmap 0 p.bitmap_size)
search_all p =
    subst (λ high. Scan (used p) 0 high (find_page p.bitmap 0 p.bitmap_size)) (omega arith)
      (find_page-Scan p.bitmap 0 p.bitmap_size)

-- On a bitmap of at most 4 GB of pages `alloc_physical_page` returns the address of the first page
-- that is not in use, marks it and changes the mark of no other page; or it returns 0 and changes
-- nothing, because all pages are in use or because page 0 is not.
pub alloc_physical_page-Allocates :
    (p : Pages) → page_count p * 4096 ≤ 2 ^ 32 → Allocates p (alloc_physical_page p)
unfolding alloc_physical_page find_free_physical_page
alloc_physical_page-Allocates p small = claim_page-Allocates p small (search_all p)

-- Freeing the page that was claimed gives the bitmap back.
set_bitmap_bit-undo :
    (bitmap : ℕ → ℕ → Bool) (page : ℕ)
    → get_bitmap_bit bitmap page ≡ false
    → set_bitmap_bit (set_bitmap_bit bitmap page true) page false ≡ bitmap
unfolding set_bitmap_bit get_bitmap_bit
set_bitmap_bit-undo bitmap page h = fun_ext (λ i. fun_ext (λ j.
    if_cases (λ b. b ≡ bitmap i j) (i == page / 32 && j == page % 32) _ _
      (λ t. sym (ap₂ bitmap (ground (arith, t)) (ground (arith, t)) ∙ h)) (λ f. if_false _ _ f)))

free-claimed :
    (p : Pages) (k : ℕ)
    → k < page_count p
    → used p k ≡ false
    → (free_physical_page (claimed p k) (k * 4096)).bitmap ≡ p.bitmap
unfolding free_physical_page claimed
free-claimed p k lt f =
    ap (λ (q : Pages). q.bitmap)
      (if_true {b = ltb (k * 4096 / 4096) (p.bitmap_size * 32)} _ _ (ground (arith, lt)))
    ∙ ap (λ n. set_bitmap_bit (set_bitmap_bit p.bitmap k true) n false) (omega arith)
    ∙ set_bitmap_bit-undo p.bitmap k f

-- Freeing what an allocation returned gives the bitmap back.
abbrev Undone : Pages → ℕ × Pages → Type 0
Undone p (address, p') = address ≢ 0 → (free_physical_page p' address).bitmap ≡ p.bitmap

claim_page-Undone :
    (p : Pages) {o : Option ℕ}
    → page_count p * 4096 ≤ 2 ^ 32
    → Scan (used p) 0 (page_count p) o
    → Undone p (claim_page p (or_zero o))
claim_page-Undone p small (nothing all) =
    subst (Undone p) (sym (claim_page_zero p 0 refl)) (λ h. absurd (h refl))
claim_page-Undone p small (found k le lt f below) = elim (ℕ_discrete k 0) [
  | yes z ↦ subst (Undone p) (sym (claim_page_zero p k z)) (λ h. absurd (h refl))
  | no nz ↦
      subst (Undone p) (sym (claim_page-claimed p k nz (omega arith))) (λ h. free-claimed p k lt f)
]

-- Where `alloc_physical_page` returns an address other than 0, `free_physical_page` of that address
-- gives the bitmap back as it was.
pub free_physical_page-alloc :
    (p : Pages)
    → page_count p * 4096 ≤ 2 ^ 32
    → (alloc_physical_page p).0 ≢ 0
    → (free_physical_page (alloc_physical_page p).1 (alloc_physical_page p).0).bitmap ≡ p.bitmap
unfolding alloc_physical_page find_free_physical_page
free_physical_page-alloc p small = claim_page-Undone p small (search_all p)

true-ne-false : true ≡ false → ⊥
true-ne-false e = cc

first_found :
    (bit : ℕ → Bool) (n : ℕ) {o : Option ℕ} → bit 0 ≡ false → Scan bit 0 n o → or_zero o ≡ 0
first_found bit n f (nothing all) = refl
first_found bit n f (found k le lt g below) = elim (ℕ_discrete k 0) [
  | yes z ↦ z
  | no nz ↦ absurd (true-ne-false (sym (below 0 (omega arith) (omega arith)) ∙ f))
]

alloc_first : (p : Pages) → used p 0 ≡ false → alloc_physical_page p ≡ (0, p)
unfolding alloc_physical_page find_free_physical_page
alloc_first p f =
    claim_page_zero p (or_zero (find_page p.bitmap 0 p.bitmap_size))
      (first_found (used p) (page_count p) f (search_all p))

first_freed :
    (p : Pages) (address : ℕ)
    → address < 4096
    → 0 < p.bitmap_size
    → used (free_physical_page p address) 0 ≡ false
unfolding free_physical_page
first_freed p address h some_words =
    if_cases (λ q. used q 0 ≡ false) (ltb (address / 4096) (p.bitmap_size * 32)) _ _
      (λ t.
        ap (λ n. get_bitmap_bit (set_bitmap_bit p.bitmap n false) 0) (omega arith)
        ∙ get_bitmap_bit-set_self p.bitmap 0 false)
      (λ f. absurd (ground (arith, f, h, some_words)))

-- After `free_physical_page` of an address in page 0, which the bitmap holds, `alloc_physical_page`
-- returns 0 and changes nothing, however many other pages are free: page 0 is found, and its number
-- is taken for a failure.
pub alloc_physical_page_blocked :
    (p : Pages) (address : ℕ)
    → address < 4096
    → 0 < p.bitmap_size
    → alloc_physical_page (free_physical_page p address) ≡ (0, free_physical_page p address)
alloc_physical_page_blocked p address h some_words =
    alloc_first (free_physical_page p address) (first_freed p address h some_words)
