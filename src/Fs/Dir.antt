-- ===== src/Fs/Dir.antt =====
-- The root directory of fs/filesystem.c: the functions that search it and that add, remove and
-- replace an entry.
pub mod Slots
pub mod Add
use pxos.Base.{
  ℕ, ◌-◌, ◌*◌, ◌+◌, Bool, true, false, not, ◌&&◌, ◌||◌, Option, none, some, List, [], ◌∷◌, ◌++◌,
  length, replicate, drop, ◌==◌, if◌then◌else◌, ◌/◌, ◌%◌,
}
use pxos.Str.{deref, next, strcmp, strcasecmp, memcmp}
use pxos.Fs.State.{Status, success, not_found, access_denied, disk_full, io_error, Dirent, FsState}
use pxos.Fs.Names.{is_zero, convert_filename, convert_filename_back}

-- `name[0] != 0 && name[0] != 0xE5`: the slot is in use and not deleted.
unfoldable pub is_live : Dirent → Bool
is_live d = not (deref d.name == 0) && not (deref d.name == 0xE5)

-- The two `memcmp` tests.
unfoldable pub has_name : List ℕ → List ℕ → Dirent → Bool
has_name n e d = is_zero (memcmp d.name n 8) && is_zero (memcmp d.ext e 3)

-- The two nested tests of the search loops.
unfoldable pub hits : List ℕ → List ℕ → Dirent → Bool
hits n e d = if is_live d then has_name n e d else false

-- `attr & FS_ATTR_DIRECTORY`
abbrev pub is_directory : Dirent → Bool
is_directory d = d.attr / 16 % 2 == 1

-- A name without the `/` that it may begin with.
abbrev pub strip_slash : List ℕ → List ℕ
strip_slash f = if deref f == b'/' then next f else f

-- The loop of `find_directory_entry`.
unfoldable pub find_slot : List ℕ → List ℕ → List Dirent → Option Dirent
find_slot n e [] = none
find_slot n e (d ∷ ds) = if hits n e d then some d else find_slot n e ds

-- `find_directory_entry`, with what goes through `entry`.
unfoldable pub find_directory_entry : FsState → List ℕ → Status × Option Dirent
find_directory_entry s path =
    if not s.initialized
    then (io_error, none)
    else let (n, e) = convert_filename (strip_slash path) in
      elim (find_slot n e s.root_dir) [ some d ↦ (success, some d) | none ↦ (not_found, none) ]

abbrev pub cons_on : Dirent → Option (List Dirent) → Option (List Dirent)
cons_on d none = none
cons_on d (some ds) = some (d ∷ ds)

-- The loop that fills the first unused slot; `none` if there is none.
unfoldable pub fill_slot : Dirent → List Dirent → Option (List Dirent)
fill_slot new [] = none
fill_slot new (d ∷ ds) = if not (is_live d) then some (new ∷ ds) else cons_on d (fill_slot new ds)

-- The entry that `add_directory_entry_to_dir` writes.
abbrev pub new_entry : List ℕ → List ℕ → ℕ → ℕ → ℕ → Dirent
new_entry n e attr cluster size = record {
  name = n;
  ext = e;
  attr = attr;
  reserved = replicate 10 0;
  time = 0;
  date = 0;
  cluster = cluster;
  size = size;
}

-- The branch of `add_directory_entry_to_dir` for the root directory.
unfoldable pub add_to_root : FsState → Dirent → Status × FsState
add_to_root s new = elim (fill_slot new s.root_dir) [
  | some ds ↦ (success, record s { root_dir = ds })
  | none ↦ (disk_full, s)
]

-- The branch for a subdirectory. `fs_read_sector` leaves the buffer as it is and `fs_write_sector`
-- writes nothing, so only the status depends on the buffer: `sector` are its 16 entries, which the
-- code does not initialise. The first two are skipped.
unfoldable pub add_to_sector : List Dirent → Dirent → Status
add_to_sector sector new = elim (fill_slot new (drop 2 sector)) [
  | some ds ↦ success
  | none ↦ disk_full
]

-- `add_directory_entry_to_dir`
unfoldable pub add_directory_entry_to_dir :
    List Dirent → FsState → List ℕ → ℕ → ℕ → ℕ → List ℕ → Status × FsState
add_directory_entry_to_dir sector s path attr cluster size target_dir =
    if not s.initialized
    then (io_error, s)
    else let (n, e) = convert_filename (strip_slash path) in
      let new = new_entry n e attr cluster size in
      if is_zero (strcmp target_dir (b'/' ∷ []))
      then add_to_root s new
      else let (st, entry) = find_directory_entry s target_dir in
        elim entry [
          | none ↦ (not_found, s)
          | some d ↦
              if not (is_directory d) then (access_denied, s) else (add_to_sector sector new, s)
        ]

-- The loop of `remove_directory_entry`: the first hit is marked as deleted.
unfoldable pub delete_slot : List ℕ → List ℕ → List Dirent → Option (List Dirent)
delete_slot n e [] = none
delete_slot n e (d ∷ ds) =
    if hits n e d
    then some (record d { name = 0xE5 ∷ next d.name } ∷ ds)
    else cons_on d (delete_slot n e ds)

-- `remove_directory_entry`; it does not strip the `/` of the path.
unfoldable pub remove_directory_entry : FsState → List ℕ → Status × FsState
remove_directory_entry s path =
    if not s.initialized
    then (io_error, s)
    else let (n, e) = convert_filename path in
      elim (delete_slot n e s.root_dir) [
        | some ds ↦ (success, record s { root_dir = ds })
        | none ↦ (not_found, s)
      ]

-- The loop of `update_directory_entry`.
unfoldable pub replace_slot : List ℕ → List ℕ → Dirent → List Dirent → Option (List Dirent)
replace_slot n e new [] = none
replace_slot n e new (d ∷ ds) =
    if hits n e d then some (new ∷ ds) else cons_on d (replace_slot n e new ds)

-- `update_directory_entry`; it does not strip the `/` of the path.
unfoldable pub update_directory_entry : FsState → List ℕ → Dirent → Status × FsState
update_directory_entry s path new =
    if not s.initialized
    then (io_error, s)
    else let (n, e) = convert_filename path in
      elim (replace_slot n e new s.root_dir) [
        | some ds ↦ (success, record s { root_dir = ds })
        | none ↦ (not_found, s)
      ]

-- The loop of `find_entry`: it skips the slots that were never used, and no deleted ones.
unfoldable pub find_by_text : List ℕ → List Dirent → Option Dirent
find_by_text f [] = none
find_by_text f (d ∷ ds) =
    if deref d.name == 0
    then find_by_text f ds
    else if is_zero (strcasecmp (convert_filename_back d.name d.ext) f)
    then some d
    else find_by_text f ds

-- `find_entry`
unfoldable pub find_entry : FsState → List ℕ → Option Dirent
find_entry s path =
    if not s.initialized
    then none
    else if is_zero (strcmp path (b'/' ∷ []))
    then none
    else find_by_text (strip_slash path) s.root_dir
