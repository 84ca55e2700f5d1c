-- ===== src/Pages/Scan.antt =====
-- The search of `find_free_physical_page` in kernel/memory.c finds the first page that is not used.
use pxos.Base.{
  ℕ, zero, suc, ◌+◌, ◌-◌, ◌*◌, ◌≡◌, ◌≤◌, ◌<◌, ap, ap₂, ◌∙◌, arith, Bool, true, false, not, Option,
  none, some, if_cases, Bool-cases, inl, inr, ltb,
}
use native.Mathlib.Decide.{ℕ_discrete}
use pxos.Pages.{get_bitmap_bit, is_full, find_bit, page_in, find_page}

-- A search for `false` from `low` below `high`.
pub data Scan (bit : ℕ → Bool) (low high : ℕ) : Option ℕ → Type 0 where
  found :
      (k : ℕ)
      → low ≤ k
      → k < high
      → bit k ≡ false
      → ((j : ℕ) → low ≤ j → j < k → bit j ≡ true)
      → Scan bit low high (some k)
  nothing : ((j : ℕ) → low ≤ j → j < high → bit j ≡ true) → Scan bit low high none

-- The first place is `true`, and so are those behind it.
extend :
    (bit : ℕ → Bool) (low k : ℕ)
    → bit low ≡ true
    → ((j : ℕ) → low + 1 ≤ j → j < k → bit j ≡ true)
    → (j : ℕ) → low ≤ j
    → j < k
    → bit j ≡ true
extend bit low k here later j le lt = elim (ℕ_discrete j low) [
  | yes e ↦ ap bit e ∙ here
  | no ne ↦ later j (omega arith) lt
]

find_bit-Scan : (word : ℕ → Bool) (j n : ℕ) → Scan word j (j + n) (find_bit word j n)
unfolding find_bit
find_bit-Scan word j zero = nothing (λ k le lt. absurd (omega arith))
find_bit-Scan word j (suc n) =
    if_cases (Scan word j (j + suc n)) (not (word j)) _ _
      (λ t.
        found j (omega arith) (omega arith) (ground (arith, t)) (λ k le lt. absurd (omega arith)))
      (λ t. skip (ground (arith, t)) (find_bit-Scan word (j + 1) n))
  where
    skip :
        {o : Option ℕ} → word j ≡ true → Scan word (j + 1) (j + 1 + n) o → Scan word j (j + suc n) o
    skip here (found k le lt f below) =
        found k (omega arith) (omega arith) f (extend word j k here below)
    skip here (nothing all) =
        nothing (λ k le lt. extend word j (j + suc n) here (λ i l h. all i l (omega arith)) k le lt)

is_full_all :
    (word : ℕ → Bool) (j n : ℕ)
    → is_full word j n ≡ true
    → (k : ℕ) → j ≤ k
    → k < j + n
    → word k ≡ true
unfolding is_full
is_full_all word j zero h k le lt = absurd (omega arith)
is_full_all word j (suc n) h k le lt =
    extend word j (j + suc n) (ground arith)
      (λ i l u. is_full_all word (j + 1) n (ground arith) i l (omega arith)) k le lt

-- A word of the bitmap is 32 pages.
word_page :
    (bitmap : ℕ → ℕ → Bool) (i j : ℕ) → j < 32 → get_bitmap_bit bitmap (i * 32 + j) ≡ bitmap i j
unfolding get_bitmap_bit
word_page bitmap i j h = ap₂ bitmap (omega arith) (omega arith)

page_word :
    (bitmap : ℕ → ℕ → Bool) (i k : ℕ)
    → i * 32 ≤ k
    → k < i * 32 + 32
    → get_bitmap_bit bitmap k ≡ bitmap i (k - i * 32)
unfolding get_bitmap_bit
page_word bitmap i k le lt = ap₂ bitmap (omega arith) (omega arith)

before_end :
    (bitmap : ℕ → ℕ → Bool) (i k : ℕ)
    → ((j : ℕ) → j < 32 → bitmap i j ≡ true)
    → ((j : ℕ) → (i + 1) * 32 ≤ j → j < k → get_bitmap_bit bitmap j ≡ true)
    → (j : ℕ) → i * 32 ≤ j
    → j < k
    → get_bitmap_bit bitmap j ≡ true
before_end bitmap i k used below j l u = elim (Bool-cases (ltb j (i * 32 + 32))) [
  | inl t ↦ page_word bitmap i j l (ground (arith, t)) ∙ used (j - i * 32) (ground (arith, t, l))
  | inr t ↦ below j (ground (arith, t)) u
]

-- Behind a word of used pages the search goes on.
skip_word :
    (bitmap : ℕ → ℕ → Bool) (i n : ℕ) {o : Option ℕ}
    → ((j : ℕ) → j < 32 → bitmap i j ≡ true)
    → Scan (get_bitmap_bit bitmap) ((i + 1) * 32) ((i + 1 + n) * 32) o
    → Scan (get_bitmap_bit bitmap) (i * 32) ((i + suc n) * 32) o
skip_word bitmap i n used (found k le lt f below) =
    found k (omega arith) (omega arith) f (before_end bitmap i k used below)
skip_word bitmap i n used (nothing all) =
    nothing (before_end bitmap i ((i + suc n) * 32) used (λ j l u. all j l (omega arith)))

in_word-Scan :
    (bitmap : ℕ → ℕ → Bool) (i n : ℕ) {o rest : Option ℕ}
    → Scan (bitmap i) 0 32 o
    → Scan (get_bitmap_bit bitmap) ((i + 1) * 32) ((i + 1 + n) * 32) rest
    → Scan (get_bitmap_bit bitmap) (i * 32) ((i + suc n) * 32) (page_in i o rest)
in_word-Scan bitmap i n (nothing all) s = skip_word bitmap i n (λ j h. all j (omega arith) h) s
in_word-Scan bitmap i n (found k le lt f below) s =
    found (i * 32 + k) (omega arith) (omega arith) (word_page bitmap i k lt ∙ f) (λ j l u.
      page_word bitmap i j l (omega arith) ∙ below (j - i * 32) (omega arith) (omega arith))

pub find_page-Scan :
    (bitmap : ℕ → ℕ → Bool) (i n : ℕ)
    → Scan (get_bitmap_bit bitmap) (i * 32) ((i + n) * 32) (find_page bitmap i n)
unfolding find_page
find_page-Scan bitmap i zero = nothing (λ j le lt. absurd (omega arith))
find_page-Scan bitmap i (suc n) =
    if_cases (Scan (get_bitmap_bit bitmap) (i * 32) ((i + suc n) * 32))
      (not (is_full (bitmap i) 0 32)) _ _
      (λ t.
        in_word-Scan bitmap i n (find_bit-Scan (bitmap i) 0 32) (find_page-Scan bitmap (i + 1) n))
      (λ t.
        skip_word bitmap i n
          (λ j h. is_full_all (bitmap i) 0 32 (ground (arith, t)) j (omega arith) (omega arith))
          (find_page-Scan bitmap (i + 1) n))
