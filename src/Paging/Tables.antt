-- ===== src/Paging/Tables.antt =====
-- The page tables in order, and the table that `map_page` makes for an entry of the directory.
use pxos.Base.{
  ℕ, ◌+◌, ◌*◌, ◌%◌, ◌^◌, ◌≡◌, ◌≢◌, ◌<◌, ◌⊎◌, refl, sym, ap, ◌∙◌, arith, Bool, true, false, not,
  if◌then◌else◌, Bool-cases, inl, inr,
}
use mathlib.Core.Path.{subst}
use native.Mathlib.Decide.{ℕ_discrete}
use pxos.Paging.{
  PageEntry, Paging, store, get_page_directory_index, get_page_table_index, zero_entry,
  create_page_table, ensure_table, get_physical_address,
}

-- The tables in use are below the next one, and no two entries of the directory share one.
pub record IsValid (m : Paging) : Type 0 where
  pub below : (i : ℕ) → (m.directory i).present ≡ true → (m.directory i).address < m.next_table
  pub apart :
      (i j : ℕ)
      → (m.directory i).present ≡ true
      → (m.directory j).present ≡ true
      → (m.directory i).address ≡ (m.directory j).address
      → i ≡ j

store-same : {A : Type 0} (f : ℕ → A) (i : ℕ) (v : A) → store f i v i ≡ v
unfolding store
store-same f i v = ground arith

store-ne : {A : Type 0} (f : ℕ → A) (i : ℕ) (v : A) (j : ℕ) → j ≢ i → store f i v j ≡ f j
unfolding store
store-ne f i v j h = ground arith

pub ensure_table-present : (m : Paging) (pd : ℕ) → ((ensure_table m pd).directory pd).present ≡ true
unfolding ensure_table create_page_table store
ensure_table-present m pd = ground arith

-- The address that the two entries give.
abbrev pub value : Bool → PageEntry → ℕ → ℕ
value d e offset = if not d then 0 else if not e.present then 0 else e.address * 2 ^ 12 + offset

pub value_absent : (d : Bool) (e e' : PageEntry) (o : ℕ) → d ≡ false → value d e o ≡ value d e' o
value_absent d e e' o h = ground arith

-- A cell of a table after one has been written.
pub store-store :
    (t : ℕ → ℕ → PageEntry) (f i : ℕ) (e : PageEntry) → store t f (store (t f) i e) f i ≡ e
store-store t f i e = ap (λ (g : ℕ → PageEntry). g i) (store-same t f _) ∙ store-same (t f) i e

pub store-store_ne :
    (t : ℕ → ℕ → PageEntry) (f i : ℕ) (e : PageEntry) (f' i' : ℕ)
    → (f' ≡ f → i' ≢ i)
    → store t f (store (t f) i e) f' i' ≡ t f' i'
store-store_ne t f i e f' i' h = elim (ℕ_discrete f' f) [
  | yes same ↦
      ap (λ g. store t f (store (t f) i e) g i') same
      ∙ ap (λ (g : ℕ → PageEntry). g i') (store-same t f _)
      ∙ store-ne (t f) i e i' (h same)
      ∙ ap (λ g. t g i') (sym same)
  | no other ↦ ap (λ (g : ℕ → PageEntry). g i') (store-ne t f _ f' other)
]

-- The state after a table is made for an entry of the directory.
abbrev table_entry : Paging → ℕ → PageEntry
table_entry m pd = record (m.directory pd) {
  address = m.next_table % 2 ^ 20;
  present = true;
  rw_bit = true;
  user = true;
}

abbrev with_table : Paging → ℕ → Paging
with_table m pd = record {
  directory = store m.directory pd (table_entry m pd);
  tables = store m.tables m.next_table (λ i. zero_entry);
  next_table = (m.next_table + 1) % 2 ^ 20;
}

ensure_table-cases :
    (m : Paging) (pd : ℕ)
    → (ensure_table m pd ≡ m)
      ⊎ (((m.directory pd).present ≡ false) × (ensure_table m pd ≡ with_table m pd))
unfolding ensure_table create_page_table
ensure_table-cases m pd = elim (Bool-cases (m.directory pd).present) [
  | inl e ↦ inl (rw e refl)
  | inr e ↦ inr (e, rw e refl)
]

with_table-keeps :
    (m : Paging) (pd w : ℕ)
    → IsValid m
    → m.next_table < 2 ^ 20
    → (m.directory pd).present ≡ false
    → get_physical_address (with_table m pd) w ≡ get_physical_address m w
unfolding get_physical_address
with_table-keeps m pd w i lt absent = elim (ℕ_discrete (get_page_directory_index w) pd) [
  | yes same ↦
      ap (λ (e : PageEntry). value e.present (fresh e.address j) (w % 4096))
        (ap (store m.directory pd (table_entry m pd)) same
          ∙ store-same m.directory pd (table_entry m pd))
      ∙ ap (λ (e : PageEntry). value true e (w % 4096)) zeroed
      ∙ sym (
          ap (λ q. value (m.directory q).present (m.tables (m.directory q).address j) (w % 4096))
            same
          ∙ ap (λ d. value d (m.tables (m.directory pd).address j) (w % 4096)) absent)
  | no other ↦
      ap (λ (e : PageEntry). value e.present (fresh e.address j) (w % 4096))
        (store-ne m.directory pd (table_entry m pd) (get_page_directory_index w) other)
      ∙ elim (Bool-cases (m.directory (get_page_directory_index w)).present) [
        | inl here ↦
            ap
              (λ (t : ℕ → PageEntry).
                value (m.directory (get_page_directory_index w)).present (t j) (w % 4096))
              (store-ne m.tables m.next_table (λ k. zero_entry) _
                (λ e. absurd (omega (arith, e, i.below _ here))))
        | inr gone ↦
            value_absent _ (fresh (m.directory (get_page_directory_index w)).address j)
              (m.tables (m.directory (get_page_directory_index w)).address j) (w % 4096) gone
      ]
]
  where
    j : ℕ
    j = get_page_table_index w

    fresh : ℕ → ℕ → PageEntry
    fresh = store m.tables m.next_table (λ k. zero_entry)

    zeroed : fresh (m.next_table % 2 ^ 20) j ≡ zero_entry
    zeroed =
        ap (λ f. fresh f j) (omega arith)
        ∙ ap (λ (t : ℕ → PageEntry). t j) (store-same m.tables m.next_table (λ k. zero_entry))

pub ensure_table-keeps :
    (m : Paging) (pd w : ℕ)
    → IsValid m
    → m.next_table < 2 ^ 20
    → get_physical_address (ensure_table m pd) w ≡ get_physical_address m w
ensure_table-keeps m pd w i lt = elim (ensure_table-cases m pd) [
  | inl same ↦ ap (λ n. get_physical_address n w) same
  | inr (absent, made) ↦
      ap (λ n. get_physical_address n w) made ∙ with_table-keeps m pd w i lt absent
]

-- What an entry of the directory is after a table is made for `pd`.
with_table_at :
    (m : Paging) (pd i : ℕ)
    → ((i ≡ pd) × ((with_table m pd).directory i ≡ table_entry m pd))
      ⊎ ((i ≢ pd) × ((with_table m pd).directory i ≡ m.directory i))
with_table_at m pd i = elim (ℕ_discrete i pd) [
  | yes e ↦ inl (
    e,
    ap (store m.directory pd (table_entry m pd)) e ∙ store-same m.directory pd (table_entry m pd),
  )
  | no ne ↦ inr (ne, store-ne m.directory pd (table_entry m pd) i ne)
]

with_table-IsValid :
    (m : Paging) (pd : ℕ) → IsValid m → m.next_table + 1 < 2 ^ 20 → IsValid (with_table m pd)
with_table-IsValid m pd v lt = record { below = below'; apart = apart' }
  where
    addr : PageEntry → ℕ
    addr e = e.address

    pres : PageEntry → Bool
    pres e = e.present

    below' :
        (i : ℕ)
        → ((with_table m pd).directory i).present ≡ true
        → ((with_table m pd).directory i).address < (m.next_table + 1) % 2 ^ 20
    below' i h = elim (with_table_at m pd i) [
      | inl (e, d) ↦ omega (arith, ap addr d)
      | inr (ne, d) ↦ omega (arith, ap addr d, v.below i (sym (ap pres d) ∙ h))
    ]

    apart' :
        (i j : ℕ)
        → ((with_table m pd).directory i).present ≡ true
        → ((with_table m pd).directory j).present ≡ true
        → ((with_table m pd).directory i).address ≡ ((with_table m pd).directory j).address
        → i ≡ j
    apart' i j hi hj e = elim (with_table_at m pd i) [
      | inl (ei, di) ↦ elim (with_table_at m pd j) [
        | inl (ej, dj) ↦ ei ∙ sym ej
        | inr (nj, dj) ↦
            absurd (omega (arith, e, ap addr di, ap addr dj, v.below j (sym (ap pres dj) ∙ hj)))
      ]
      | inr (ni, di) ↦ elim (with_table_at m pd j) [
        | inl (ej, dj) ↦
            absurd (omega (arith, e, ap addr di, ap addr dj, v.below i (sym (ap pres di) ∙ hi)))
        | inr (nj, dj) ↦
            v.apart i j (sym (ap pres di) ∙ hi) (sym (ap pres dj) ∙ hj)
              (sym (ap addr di) ∙ e ∙ ap addr dj)
      ]
    ]

pub ensure_table-IsValid :
    (m : Paging) (pd : ℕ) → IsValid m → m.next_table + 1 < 2 ^ 20 → IsValid (ensure_table m pd)
ensure_table-IsValid m pd v lt = elim (ensure_table-cases m pd) [
  | inl same ↦ subst IsValid (sym same) v
  | inr (absent, made) ↦ subst IsValid (sym made) (with_table-IsValid m pd v lt)
]
