-- ===== src/Fs/Files/Create.antt =====
-- `fs_create` in the root directory.
use pxos.Base.{
  ℕ, ◌≡◌, ◌≢◌, ◌≤◌, ◌<◌, refl, sym, ap, ◌∙◌, arith, true, Option, none, some, List, [], ◌∷◌,
  Option-cases, inl, inr,
}
use native.Mathlib.Decide.{ℕ_discrete}
use pxos.Fs.State.{
  Status, success, not_found, disk_full, io_error, Dirent, FsState, Bytes, max_cluster,
}
use pxos.Fs.Fat.{fat_entry, allocate_cluster, free_cluster_chain}
use pxos.Fs.Fat.Codec.{IsBytes}
use pxos.Fs.Fat.Alloc.{
  IsFirstFree, OnlyEntry, Allocates, granted, refused, allocate_cluster-Allocates,
}
use pxos.Fs.Fat.Chain.{Frees, free_cluster_chain-Frees}
use pxos.Fs.Names.{validate_path}
use pxos.Fs.Dir.{is_live, find_directory_entry, fill_slot, add_to_root, add_directory_entry_to_dir}
use pxos.Fs.Dir.Add.{entry_for, add-root, Added, fill-Added}
use pxos.Fs.Files.{Opened, open_entry, create_entry, fs_open, fs_create}

-- What a creation of a new file may do.
pub data Creates (s : FsState) (path : List ℕ) : Option (Status × FsState) → Type 0 where
  created :
      (c : ℕ) (m : Bytes) (ds : List Dirent)
      → IsFirstFree s.fat_table 2 c
      → OnlyEntry s.fat_table m c 0xFFF
      → Added s (record s { fat_table = m; root_dir = ds }) path (entry_for path 0x20 c 0)
      → Creates s path (some (success, record s { fat_table = m; root_dir = ds }))
  no_cluster :
      ((d : ℕ) → 2 ≤ d → d < max_cluster → fat_entry s.fat_table d ≢ 0)
      → Creates s path (some (disk_full, s))
  no_slot :
      (c : ℕ) (m : Bytes)
      → IsBytes m
      → ((d : ℕ) → fat_entry m d ≡ fat_entry s.fat_table d)
      → fill_slot (entry_for path 0x20 c 0) s.root_dir ≡ none
      → Creates s path (some (io_error, record s { fat_table = m }))

-- What `fs_create` is called on: a mounted filesystem in its root directory whose table holds
-- bytes, and a valid path that names no entry and whose name field does not begin with 0 or 0xE5.
pub record CanCreate (s : FsState) (path : List ℕ) : Type 0 where
  pub mounted : s.initialized ≡ true
  pub bytes : IsBytes s.fat_table
  pub at_root : s.current_directory ≡ b'/' ∷ []
  pub valid : validate_path path ≡ success
  pub missing : find_directory_entry s path ≡ (not_found, none)
  pub live : is_live (entry_for path 0x20 0 0) ≡ true

-- The statuses and states of `create_entry`, with the handle dropped.
abbrev drop_handle : Option Opened → Option (Status × FsState)
drop_handle none = none
drop_handle (some (st, s, f)) = some (st, s)

fs_create-refused :
    (fuel : ℕ) (sector : List Dirent) (s : FsState) (path : List ℕ)
    → CanCreate s path
    → allocate_cluster s ≡ (disk_full, none, s)
    → fs_create fuel sector s path ≡ some (disk_full, s)
unfolding fs_create fs_open
fs_create-refused fuel sector s path v e = ground arith

fs_create-granted :
    (fuel : ℕ) (sector : List Dirent) (s : FsState) (path : List ℕ) (c : ℕ) (m : Bytes)
    → CanCreate s path
    → allocate_cluster s ≡ (success, some c, record s { fat_table = m })
    → fs_create fuel sector s path
      ≡ drop_handle (create_entry fuel sector (record s { fat_table = m }) path 0x0A c)
unfolding fs_create fs_open
fs_create-granted fuel sector s path c m v e = ground arith

entry_for-live :
    (path : List ℕ) (c : ℕ)
    → is_live (entry_for path 0x20 0 0) ≡ true
    → is_live (entry_for path 0x20 c 0) ≡ true
unfolding is_live
entry_for-live path c h = h

create_entry-full :
    (fuel : ℕ) (sector : List Dirent) (s : FsState) (path : List ℕ) (c : ℕ) (m : Bytes)
    → add_directory_entry_to_dir sector s path 0x20 c 0 s.current_directory ≡ (disk_full, s)
    → free_cluster_chain fuel s c ≡ some (success, record s { fat_table = m })
    → drop_handle (create_entry fuel sector s path 0x0A c)
      ≡ some (io_error, record s { fat_table = m })
unfolding create_entry
create_entry-full fuel sector s path c m a e = ground arith

create_entry-success :
    (fuel : ℕ) (sector : List Dirent) (s s' : FsState) (path : List ℕ) (c : ℕ)
    → add_directory_entry_to_dir sector s path 0x20 c 0 s.current_directory ≡ (success, s')
    → find_directory_entry s' path ≡ (success, some (entry_for path 0x20 c 0))
    → drop_handle (create_entry fuel sector s path 0x0A c) ≡ some (success, s')
unfolding create_entry open_entry
create_entry-success fuel sector s s' path c a e = ground arith

add_to_root-full :
    (s : FsState) (d : Dirent) → fill_slot d s.root_dir ≡ none → add_to_root s d ≡ (disk_full, s)
unfolding add_to_root
add_to_root-full s d e = rw (e, add_to_root)

add_to_root-success :
    (s : FsState) (d : Dirent) (ds : List Dirent)
    → fill_slot d s.root_dir ≡ some ds
    → add_to_root s d ≡ (success, record s { root_dir = ds })
unfolding add_to_root
add_to_root-success s d ds e = rw (e, add_to_root)

-- Adding an entry in the current directory, which is the root.
add-cwd :
    (sector : List Dirent) (s : FsState) (path : List ℕ) (c : ℕ)
    → s.initialized ≡ true
    → s.current_directory ≡ b'/' ∷ []
    → add_directory_entry_to_dir sector s path 0x20 c 0 s.current_directory
      ≡ add_to_root s (entry_for path 0x20 c 0)
add-cwd sector s path c init e =
    ap (add_directory_entry_to_dir sector s path 0x20 c 0) e ∙ add-root sector s path 0x20 c 0 init

-- The release of the one cluster that was just allocated brings every entry back.
release_allocated :
    (s : FsState) (c : ℕ) (m m' : Bytes)
    → IsFirstFree s.fat_table 2 c
    → OnlyEntry s.fat_table m c 0xFFF
    → Frees m m' (c ∷ [])
    → (d : ℕ) → fat_entry m' d ≡ fat_entry s.fat_table d
release_allocated s c m m' first only fr d = elim (ℕ_discrete d c) [
  | yes e ↦ fr.freed d (inl e) ∙ rw e (sym first.free)
  | no ne ↦ fr.others d (elim [ inl e ↦ ne e | inr i ↦ i ]) ∙ only.others d ne
]

-- Lookups do not read the table.
Added-fat :
    (s : FsState) (m : Bytes) (s' : FsState) (path : List ℕ) (c : ℕ)
    → Added (record s { fat_table = m }) s' path (entry_for path 0x20 c 0)
    → Added s s' path (entry_for path 0x20 c 0)
unfolding find_directory_entry
Added-fat s m s' path c a = record { found = a.found; others = a.others }

missing-fat :
    (s : FsState) (m : Bytes) (path : List ℕ)
    → find_directory_entry s path ≡ (not_found, none)
    → find_directory_entry (record s { fat_table = m }) path ≡ (not_found, none)
unfolding find_directory_entry
missing-fat s m path h = h

Creates-granted :
    (fuel : ℕ) (sector : List Dirent) (s : FsState) (path : List ℕ) (c : ℕ) (m : Bytes)
    → 1 < fuel
    → CanCreate s path
    → IsFirstFree s.fat_table 2 c
    → OnlyEntry s.fat_table m c 0xFFF
    → Creates s path
        (drop_handle (create_entry fuel sector (record s { fat_table = m }) path 0x0A c))
Creates-granted fuel sector s path c m lt v first only =
    elim (Option-cases (fill_slot (entry_for path 0x20 c 0) s.root_dir)) [
      | inl full ↦
          let (m', e, fr) =
            free_cluster_chain-Frees fuel s1 c (c ∷ []) v.mounted only.bytes
              (refl, first.upper, omega (arith, only.written)) lt in
          rw
            (create_entry-full fuel sector s1 path c m'
              (added ∙ add_to_root-full s1 (entry_for path 0x20 c 0) full) e)
            (no_slot c m' fr.bytes (release_allocated s c m m' first only fr) full)
      | inr (ds, filled) ↦
          let new : Added s1 (record s1 { root_dir = ds }) path (entry_for path 0x20 c 0) =
            fill-Added s1 path 0x20 c 0 ds v.mounted (entry_for-live path c v.live)
              (missing-fat s m path v.missing) filled in
          rw
            (create_entry-success fuel sector s1 (record s1 { root_dir = ds }) path c
              (added ∙ add_to_root-success s1 (entry_for path 0x20 c 0) ds filled) new.found)
            (created c m ds first only (Added-fat s m (record s1 { root_dir = ds }) path c new))
    ]
  where
    s1 : FsState
    s1 = record s { fat_table = m }

    added :
        add_directory_entry_to_dir sector s1 path 0x20 c 0 s1.current_directory
        ≡ add_to_root s1 (entry_for path 0x20 c 0)
    added = add-cwd sector s1 path c v.mounted v.at_root

Creates-allocated :
    (fuel : ℕ) (sector : List Dirent) (s : FsState) (path : List ℕ)
    {r : Status × Option ℕ × FsState}
    → 1 < fuel
    → CanCreate s path
    → allocate_cluster s ≡ r
    → Allocates s r
    → Creates s path (fs_create fuel sector s path)
Creates-allocated fuel sector s path lt v e (granted c m first only) =
    rw (fs_create-granted fuel sector s path c m v e)
      (Creates-granted fuel sector s path c m lt v first only)
Creates-allocated fuel sector s path lt v e (refused full) =
    rw (fs_create-refused fuel sector s path v e) (no_cluster full)

-- On a mounted filesystem whose table holds bytes, with the root as the current directory, for a
-- valid path that has no entry and whose name field would not begin with NUL or 0xE5, and with two
-- rounds or more for a release, `fs_create` ends in one of three ways. It succeeds: the first free
-- cluster is taken and no other entry of the table changes, a lookup of the path gives an entry of
-- size 0 with that cluster, and a lookup of a path with other fields gives what it gave before. No
-- cluster from 2 on is free: FS_ERROR_DISK_FULL, and nothing changes. Every slot of the root
-- directory is in use: FS_ERROR_IO_ERROR, and every entry of the table and the rest of the state
-- are as before.
pub fs_create-Creates :
    (fuel : ℕ) (sector : List Dirent) (s : FsState) (path : List ℕ)
    → 1 < fuel
    → CanCreate s path
    → Creates s path (fs_create fuel sector s path)
fs_create-Creates fuel sector s path lt v =
    Creates-allocated fuel sector s path lt v refl (allocate_cluster-Allocates s v.mounted v.bytes)
