-- ===== src/Paging/Translate.antt =====
-- The translation after a page is mapped: of its own addresses, and of all others.
use pxos.Base.{
  ℕ, ◌+◌, ◌*◌, ◌/◌, ◌%◌, ◌^◌, ◌≡◌, ◌≢◌, ◌<◌, refl, ap, ◌∙◌, arith, true, false, ◌==◌, Bool-cases,
  inl, inr,
}
use pxos.Paging.{
  PageEntry, Paging, store, get_page_directory_index, get_page_table_index, ensure_table, set_entry,
  map_page, unmap_page, get_physical_address,
}
use pxos.Paging.Tables.{
  IsValid, ensure_table-present, value, value_absent, store-store, store-store_ne,
  ensure_table-keeps, ensure_table-IsValid,
}

-- The entry that `map_page` writes.
abbrev mapped : ℕ → ℕ → PageEntry
mapped p flags = record {
  address = p / 2 ^ 12 % 2 ^ 20;
  present = flags % 2 == 1;
  rw_bit = flags / 2 % 2 == 1;
  user = flags / 4 % 2 == 1;
  global = flags / 256 % 2 == 1;
}

set_entry-get_physical_address :
    (n : Paging) (v p flags : ℕ)
    → (n.directory (get_page_directory_index v)).present ≡ true
    → flags % 2 ≡ 1
    → get_physical_address (set_entry n v p flags) v ≡ p / 2 ^ 12 % 2 ^ 20 * 2 ^ 12 + v % 4096
unfolding get_physical_address set_entry
set_entry-get_physical_address n v p flags h f =
    ap
      (λ d.
        value d (store n.tables frame (store (n.tables frame) i (mapped p flags)) frame i)
          (v % 4096))
      h
    ∙ ap (λ e. value true e (v % 4096)) (store-store n.tables frame i (mapped p flags))
    ∙ rw f refl
  where
    frame : ℕ
    frame = (n.directory (get_page_directory_index v)).address

    i : ℕ
    i = get_page_table_index v

set_entry-keeps :
    (n : Paging) (v p flags w : ℕ)
    → IsValid n
    → (n.directory (get_page_directory_index v)).present ≡ true
    → v / 2 ^ 12 % 2 ^ 20 ≢ w / 2 ^ 12 % 2 ^ 20
    → get_physical_address (set_entry n v p flags) w ≡ get_physical_address n w
unfolding get_physical_address set_entry
set_entry-keeps n v p flags w i h d =
    elim (Bool-cases (n.directory (get_page_directory_index w)).present) [
      | inl here ↦
          ap (λ e. value (n.directory (get_page_directory_index w)).present e (w % 4096))
            (store-store_ne n.tables _ (get_page_table_index v) (mapped p flags) _
              (get_page_table_index w) (λ same. other_place (i.apart _ _ here h same)))
      | inr absent ↦
          value_absent _ ((set_entry n v p flags).tables frame_w (get_page_table_index w))
            (n.tables frame_w (get_page_table_index w)) (w % 4096) absent
    ]
  where
    frame_w : ℕ
    frame_w = (n.directory (get_page_directory_index w)).address

    other_place :
        get_page_directory_index w ≡ get_page_directory_index v
        → get_page_table_index w ≢ get_page_table_index v
    other_place e = λ e'. absurd (d (omega (arith, e, e')))

set_entry-IsValid : (n : Paging) (v p flags : ℕ) → IsValid n → IsValid (set_entry n v p flags)
unfolding set_entry
set_entry-IsValid n v p flags i = record { below = i.below; apart = i.apart }

-- Where the tables in use lie below the next one, no two entries of the directory share one and
-- there is room for one more, `map_page` with the flag PRESENT makes the address translate to the
-- frame given, with the same offset; it changes the translation of no address of another page; and
-- the tables are in order again in that sense.
pub map_page-get_physical_address :
    (m : Paging) (v p flags w : ℕ)
    → IsValid m
    → m.next_table + 1 < 2 ^ 20
    → flags % 2 ≡ 1
    → v / 2 ^ 12 % 2 ^ 20 ≢ w / 2 ^ 12 % 2 ^ 20
    → (get_physical_address (map_page m v p flags) v ≡ p / 2 ^ 12 % 2 ^ 20 * 2 ^ 12 + v % 4096)
      × (get_physical_address (map_page m v p flags) w ≡ get_physical_address m w)
      × IsValid (map_page m v p flags)
unfolding map_page
map_page-get_physical_address m v p flags w i lt f d = (
  set_entry-get_physical_address n v p flags (ensure_table-present m (get_page_directory_index v))
      f,
  set_entry-keeps n v p flags w valid (ensure_table-present m (get_page_directory_index v)) d
      ∙ ensure_table-keeps m (get_page_directory_index v) w i (omega arith),
  set_entry-IsValid n v p flags valid,
)
  where
    n : Paging
    n = ensure_table m (get_page_directory_index v)

    valid : IsValid n
    valid = ensure_table-IsValid m (get_page_directory_index v) i lt

-- `unmap_page` tells whether the directory has a table for the address; the address translates to 0
-- afterwards, whether or not it was mapped.
pub unmap_page-get_physical_address :
    (m : Paging) (v : ℕ)
    → ((unmap_page m v).0 ≡ (m.directory (get_page_directory_index v)).present)
      × (get_physical_address (unmap_page m v).1 v ≡ 0)
unfolding unmap_page get_physical_address
unmap_page-get_physical_address m v = (
  ground arith,
  elim (Bool-cases d.present) [
    | inl here ↦ rw here (
        ap (λ b. value b cell (v % 4096)) here
        ∙ ap (λ e. value true e (v % 4096))
            (store-store m.tables d.address i (record (m.tables d.address i) { present = false })))
    | inr absent ↦ rw absent (ap (λ b. value b (m.tables d.address i) (v % 4096)) absent)
  ],
)
  where
    d : PageEntry
    d = m.directory (get_page_directory_index v)

    i : ℕ
    i = get_page_table_index v

    cell : PageEntry
    cell =
        store m.tables d.address
          (store (m.tables d.address) i (record (m.tables d.address i) { present = false }))
          d.address i
