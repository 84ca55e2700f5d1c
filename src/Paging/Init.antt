-- ===== src/Paging/Init.antt =====
-- `paging_init` of kernel/memory.c: the first 4 MB are mapped to themselves.
use pxos.Base.{
  ℕ, zero, suc, ◌+◌, ◌*◌, ◌/◌, ◌%◌, ◌^◌, ◌≡◌, ◌≤◌, ◌<◌, refl, ap, ◌∙◌, arith, Bool, true, false,
  ◌&&◌, ltb, leb, ◌==◌, if◌then◌else◌, if_cases,
}
use pxos.Paging.{
  Paging, zero_entry, create_page_table, ensure_table, set_entry, map_page, get_physical_address,
}
use pxos.Paging.Tables.{IsValid}
use pxos.Paging.Translate.{map_page-get_physical_address}

-- The loops of `setup_identity_paging` and `setup_kernel_paging`: `n` pages from page `i` of an area
-- on, each mapped to itself.
unfoldable pub map_area : Paging → ℕ → ℕ → ℕ → ℕ → Paging
map_area m start flags i zero = m
map_area m start flags i (suc n) =
    let address = (start + i * 4096) % 2 ^ 32 in
    map_area (map_page m address address flags) start flags (i + 1) n

-- `setup_identity_paging`, with PRESENT, WRITABLE and GLOBAL.
unfoldable pub setup_identity_paging : Paging → Paging
setup_identity_paging m = map_area m 0 0x103 0 1024

-- `setup_kernel_paging`, with PRESENT and WRITABLE.
unfoldable pub setup_kernel_paging : Paging → Paging
setup_kernel_paging m = map_area m 0x100000 3 0 256

-- `paging_init`: the directory is cleared; the tables are taken where the last one was.
unfoldable pub paging_init : Paging → Paging
paging_init m =
    setup_kernel_paging (setup_identity_paging (record m { directory = λ i. zero_entry }))

-- `align_to_page` and `is_page_aligned`
unfoldable pub align_to_page : ℕ → ℕ
align_to_page a = (a + 4095) % 2 ^ 32 / 4096 * 4096

unfoldable pub is_page_aligned : ℕ → Bool
is_page_aligned a = a % 4096 == 0

next_table-map_page :
    (m : Paging) (v p flags : ℕ)
    → m.next_table + 1 < 2 ^ 20
    → (map_page m v p flags).next_table ≤ m.next_table + 1
unfolding map_page ensure_table create_page_table set_entry
next_table-map_page m v p flags h = ground arith

-- `map_page` reads of an address only its two indices.
map_page_same :
    (m : Paging) (v w p flags : ℕ)
    → v / 2 ^ 22 % 1024 ≡ w / 2 ^ 22 % 1024
    → v / 2 ^ 12 % 1024 ≡ w / 2 ^ 12 % 1024
    → map_page m v p flags ≡ map_page m w p flags
unfolding map_page set_entry
map_page_same m v w p flags d t = cc (d, t)

-- The address of a page.
in_page : ℕ → ℕ → Bool
in_page a w = leb a w && ltb w (a + 4096)

map_page_identity :
    (m : Paging) (a flags w : ℕ)
    → IsValid m
    → m.next_table + 1 < 2 ^ 20
    → flags % 2 ≡ 1
    → a % 4096 ≡ 0
    → a < 2 ^ 32
    → w < 2 ^ 32
    → get_physical_address (map_page m a a flags) w
      ≡ (if in_page a w then w else get_physical_address m w)
unfolding in_page
map_page_identity m a flags w i room f al ha hw =
    if_cases (λ r. get_physical_address (map_page m a a flags) w ≡ r) (leb a w && ltb w (a + 4096))
      _ _
      (λ t.
        ap (λ x. get_physical_address x w)
          (map_page_same m a w a flags (ground (arith, t)) (ground (arith, t)))
        ∙ (map_page-get_physical_address m w a flags (w + 4096) i room f (omega arith)).0
        ∙ ground (arith, t))
      (λ t. (map_page-get_physical_address m a a flags w i room f (ground (arith, t))).1)

map_page-IsValid :
    (m : Paging) (a flags : ℕ)
    → IsValid m
    → m.next_table + 1 < 2 ^ 20
    → flags % 2 ≡ 1
    → IsValid (map_page m a a flags)
map_page-IsValid m a flags i room f =
    (map_page-get_physical_address m a a flags (a + 4096) i room f (omega arith)).2

in_area : ℕ → ℕ → ℕ → Bool
in_area low high w = leb low w && ltb w high

-- What mapping the area from `low` to `high` to itself does to the translation.
record Maps (m m' : Paging) (low high n : ℕ) : Type 0 where
  valid : IsValid m'
  room : m'.next_table ≤ m.next_table + n
  translates :
      (w : ℕ)
      → w < 2 ^ 32
      → get_physical_address m' w ≡ (if in_area low high w then w else get_physical_address m w)

map_area-Maps :
    (n : ℕ) (m : Paging) (start flags i : ℕ)
    → IsValid m
    → m.next_table + n < 2 ^ 20
    → flags % 2 ≡ 1
    → start % 4096 ≡ 0
    → start + (i + n) * 4096 ≤ 2 ^ 32
    → Maps m (map_area m start flags i n) (start + i * 4096) (start + (i + n) * 4096) n
unfolding map_area in_area in_page
map_area-Maps zero m start flags i v room f al le = record {
  valid = v;
  room = omega arith;
  translates = λ w hw. ground arith;
}
map_area-Maps (suc n) m start flags i v room f al le =
    let a = (start + i * 4096) % 2 ^ 32 in
    let m1 = map_page m a a flags in
    let one = next_table-map_page m a a flags (omega arith) in
    let rest =
      map_area-Maps n m1 start flags (i + 1) (map_page-IsValid m a flags v (omega arith) f)
        (omega (arith, one, room)) f al (omega arith) in
    record {
      valid = rest.valid;
      room = omega (arith, one, rest.room);
      translates = λ w hw. ground (
        arith,
        rest.translates w hw,
        map_page_identity m a flags w v (omega arith) f (omega arith) (omega arith) hw,
      );
    }

cleared-IsValid : (m : Paging) → IsValid (record m { directory = λ i. zero_entry })
cleared-IsValid m = record {
  below = λ i h. absurd (false_true h);
  apart = λ i j h h' e. absurd (false_true h);
}
  where
    false_true : false ≡ true → ⊥
    false_true z = cc

unmapped :
    (m : Paging) (w : ℕ) → get_physical_address (record m { directory = λ i. zero_entry }) w ≡ 0
unfolding get_physical_address
unmapped m w = refl

-- After `paging_init`, wherever the page tables are taken from, every address below 4 MB translates to
-- itself and every other address is not mapped; the tables in use lie below the next one and no two
-- entries of the directory share one.
pub paging_init_identity :
    (m : Paging)
    → m.next_table + 1280 < 2 ^ 20
    → IsValid (paging_init m)
      × ((w : ℕ)
          → w < 2 ^ 32
          → get_physical_address (paging_init m) w ≡ (if ltb w 0x400000 then w else 0))
unfolding paging_init setup_identity_paging setup_kernel_paging in_area
paging_init_identity m room =
    let m0 = record m { directory = λ i. zero_entry } in
    let first =
      map_area-Maps 1024 m0 0 0x103 0 (cleared-IsValid m) (omega (arith, room)) (omega arith)
        (omega arith) (omega arith) in
    let second =
      map_area-Maps 256 (setup_identity_paging m0) 0x100000 3 0 first.valid
        (omega (arith, first.room, room)) (omega arith) (omega arith) (omega arith) in
    (
      second.valid,
      λ w hw. ground (arith, second.translates w hw, first.translates w hw, unmapped m w),
    )
