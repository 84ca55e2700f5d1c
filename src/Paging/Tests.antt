-- ===== src/Paging/Tests.antt =====
-- The theorems of the page tables at concrete tables.
use pxos.Base.{◌+◌, ◌*◌, ◌/◌, ◌%◌, ◌^◌, ◌≡◌, refl, arith, true, false}
use pxos.Paging.{Paging, zero_entry, map_page, get_physical_address}
use pxos.Paging.Tables.{IsValid}
use pxos.Paging.Translate.{map_page-get_physical_address}

-- After `paging_init` has cleared the directory.
abbrev no_tables : Paging
no_tables = record { directory = λ i. zero_entry; tables = λ f i. zero_entry; next_table = 0x700 }

no_tables-IsValid : IsValid no_tables
no_tables-IsValid = record {
  below = λ i h. absurd (false_true h);
  apart = λ i j h h' e. absurd (false_true h);
}
  where
    false_true : false ≡ true → ⊥
    false_true z = cc

map_page-get_physical_address_example :
    (get_physical_address (map_page no_tables 0x403025 0x100000 3) 0x403025
      ≡ 0x100000 / 2 ^ 12 % 2 ^ 20 * 2 ^ 12 + 0x403025 % 4096)
    × (get_physical_address (map_page no_tables 0x403025 0x100000 3) 0x5000
        ≡ get_physical_address no_tables 0x5000)
    × IsValid (map_page no_tables 0x403025 0x100000 3)
map_page-get_physical_address_example =
    map_page-get_physical_address no_tables 0x403025 0x100000 3 0x5000 no_tables-IsValid
      (omega arith) refl (omega arith)
