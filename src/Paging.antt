-- ===== src/Paging.antt =====
-- The page tables of kernel/memory.c: `map_page`, `unmap_page` and `get_physical_address`. A page
-- table is named by its frame, its address over 4096, as in the directory's entries; the tables are
-- taken one after the other from `next_page_table_addr` on, below the directory's own page. The
-- entries' bits that are never written are left out.
pub mod Tables
pub mod Translate
pub mod Init
mod Tests
use pxos.Base.{ℕ, ◌+◌, ◌-◌, ◌*◌, ◌/◌, ◌%◌, ◌^◌, Bool, true, false, not, ◌==◌, if◌then◌else◌}

-- `page_entry_t`; its field `rw` is `rw_bit` here.
pub record PageEntry : Type 0 where
  pub present : Bool
  pub rw_bit : Bool
  pub user : Bool
  pub global : Bool
  pub address : ℕ

-- `current_page_directory`, the tables by frame, and the frame of `next_page_table_addr`.
pub record Paging : Type 0 where
  pub directory : ℕ → PageEntry
  pub tables : ℕ → ℕ → PageEntry
  pub next_table : ℕ

-- A write to one place.
unfoldable pub store : {A : Type 0} → (ℕ → A) → ℕ → A → ℕ → A
store f i v j = if j == i then v else f j

-- `get_page_directory_index`, `get_page_table_index` and `get_page_offset`
abbrev pub get_page_directory_index : ℕ → ℕ
get_page_directory_index v = v / 2 ^ 22 % 1024

abbrev pub get_page_table_index : ℕ → ℕ
get_page_table_index v = v / 2 ^ 12 % 1024

abbrev pub get_page_offset : ℕ → ℕ
get_page_offset v = v % 4096

-- An entry of zero bytes.
abbrev pub zero_entry : PageEntry
zero_entry = record { present = false; rw_bit = false; user = false; global = false; address = 0 }

-- `create_page_table`: the frame, and the state with the table zeroed.
unfoldable pub create_page_table : Paging → ℕ × Paging
create_page_table m = (
  m.next_table,
  record m {
    tables = store m.tables m.next_table (λ i. zero_entry);
    next_table = (m.next_table + 1) % 2 ^ 20;
  },
)

-- The first part of `map_page`: a table for the directory's entry, if it has none.
unfoldable pub ensure_table : Paging → ℕ → Paging
ensure_table m pd =
    if not (m.directory pd).present
    then (let (frame, m') = create_page_table m in
        record m' {
          directory = store m'.directory pd (record (m'.directory pd) {
            address = frame % 2 ^ 20;
            present = true;
            rw_bit = true;
            user = true;
          });
        })
    else m

-- The second part: the entry of the table, with the flags PRESENT, WRITABLE, USER and GLOBAL.
unfoldable pub set_entry : Paging → ℕ → ℕ → ℕ → Paging
set_entry m v p flags =
    let frame = (m.directory (get_page_directory_index v)).address in
    let i = get_page_table_index v in
    record m {
      tables = store m.tables frame (
          store (m.tables frame) i (record {
            address = p / 2 ^ 12 % 2 ^ 20;
            present = flags % 2 == 1;
            rw_bit = flags / 2 % 2 == 1;
            user = flags / 4 % 2 == 1;
            global = flags / 256 % 2 == 1;
          }));
    }

-- `map_page`, which always returns true.
unfoldable pub map_page : Paging → ℕ → ℕ → ℕ → Paging
map_page m v p flags = set_entry (ensure_table m (get_page_directory_index v)) v p flags

-- `unmap_page`
unfoldable pub unmap_page : Paging → ℕ → Bool × Paging
unmap_page m v =
    if not (m.directory (get_page_directory_index v)).present
    then (false, m)
    else let frame = (m.directory (get_page_directory_index v)).address in
      let i = get_page_table_index v in
      (
        true,
        record m {
          tables =
              store m.tables frame
                (store (m.tables frame) i (record (m.tables frame i) { present = false }));
        },
      )

-- `get_physical_address`; the frame and the offset share no bit, so `|` is a sum.
unfoldable pub get_physical_address : Paging → ℕ → ℕ
get_physical_address m v =
    if not (m.directory (get_page_directory_index v)).present
    then 0
    else let e =
        m.tables (m.directory (get_page_directory_index v)).address (get_page_table_index v) in
      if not e.present then 0 else e.address * 2 ^ 12 + get_page_offset v
