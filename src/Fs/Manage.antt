-- ===== src/Fs/Manage.antt =====
-- The other operations on names in fs/filesystem.c: mkdir, rename, exists, size, and the current
-- directory.
pub mod Rename
pub mod Chdir
use pxos.Base.{
  ℕ, ◌+◌, ◌-◌, ◌*◌, ◌%◌, ◌^◌, Bool, true, false, not, ◌||◌, Option, none, some, List, [], ◌∷◌, leb,
  ◌==◌, if◌then◌else◌,
}
use pxos.Base.Int.{ℤ, pos, negsuc}
use pxos.Str.{strlen, strcmp, text, memcpy}
use pxos.Fs.State.{
  Status, success, not_found, access_denied, disk_full, invalid_path, file_exists, io_error,
  not_directory, is_success, Dirent, FsState,
}
use pxos.Fs.Fat.{allocate_cluster, free_cluster_chain}
use pxos.Fs.Names.{is_zero, convert_filename, validate_path}
use pxos.Fs.Dir.{
  is_directory, find_directory_entry, add_directory_entry_to_dir, update_directory_entry,
  find_entry,
}

-- `fs_write_sector` writes nothing and succeeds.
unfoldable pub fs_write_sector : ℕ → Status
fs_write_sector sector = success

-- FS_DATA_SECTOR + (cluster - 2) * 2, on `uint32_t`.
unfoldable pub cluster_sector : ℕ → ℕ
cluster_sector c = (33 + (c + 2 ^ 32 - 2) % 2 ^ 32 * 2) % 2 ^ 32

-- A status that is returned after a chain has been released.
abbrev pub after_free : Option (Status × FsState) → Option (Status × FsState)
after_free none = none
after_free (some (_, s)) = some (io_error, s)

-- `fs_mkdir`: the entry goes to the root directory.
unfoldable pub fs_mkdir : ℕ → FsState → List ℕ → Option (Status × FsState)
fs_mkdir fuel s path =
    if not s.initialized
    then some (io_error, s)
    else if not (is_success (validate_path path))
    then some (invalid_path, s)
    else let (found, _) = find_directory_entry s path in
      if is_success found
      then some (file_exists, s)
      else let (_, cluster, s') = allocate_cluster s in
        elim cluster [
          | none ↦ some (disk_full, s')
          | some c ↦
              let (st, s'') = add_directory_entry_to_dir [] s' path 0x10 c 0 (b'/' ∷ []) in
              if not (is_success st)
              then after_free (free_cluster_chain fuel s'' c)
              else if not (is_success (fs_write_sector (cluster_sector c)))
              then after_free (free_cluster_chain fuel s'' c)
              else some (success, s'')
        ]

-- `fs_rename` once the old path has been looked up.
unfoldable pub rename_entry : FsState → List ℕ → List ℕ → Option Dirent → Status × FsState
rename_entry s old_path new_path none = (not_found, s)
rename_entry s old_path new_path (some d) =
    let (taken, _) = find_directory_entry s new_path in
    if is_success taken
    then (file_exists, s)
    else let (n, e) = convert_filename new_path in
      let (st, s') =
        update_directory_entry s old_path
          (record d { name = memcpy d.name n 8; ext = memcpy d.ext e 3 }) in
      if is_success st then (success, s') else (io_error, s')

-- `fs_rename`
unfoldable pub fs_rename : FsState → List ℕ → List ℕ → Status × FsState
fs_rename s old_path new_path =
    if not s.initialized
    then (io_error, s)
    else if not (is_success (validate_path old_path)) || not (is_success (validate_path new_path))
    then (invalid_path, s)
    else let (_, entry) = find_directory_entry s old_path in rename_entry s old_path new_path entry

-- `fs_exists`
unfoldable pub fs_exists : FsState → List ℕ → Status
fs_exists s path =
    if not s.initialized
    then io_error
    else let (found, _) = find_directory_entry s path in
      if is_success found then success else not_found

-- `fs_get_size`; `none` is -1. The size is returned as an `int`.
unfoldable pub fs_get_size : FsState → List ℕ → Option ℕ
fs_get_size s path =
    if not s.initialized
    then none
    else let (_, entry) = find_directory_entry s path in
      elim entry [ none ↦ none | some d ↦ some d.size ]

-- The end of `fs_chdir`, on what `find_entry` returns.
unfoldable pub enter_directory : FsState → List ℕ → Option Dirent → Status × FsState
enter_directory s path none = (not_found, s)
enter_directory s path (some d) =
    if not (is_directory d)
    then (not_directory, s)
    else (success, record s { current_directory = text path })

-- `fs_chdir`
unfoldable pub fs_chdir : FsState → List ℕ → Status × FsState
fs_chdir s path =
    if not s.initialized
    then (io_error, s)
    else if not (is_success (validate_path path))
    then (invalid_path, s)
    else if is_zero (strcmp path (b'/' ∷ []))
    then (success, record s { current_directory = b'/' ∷ [] })
    else if is_zero (strcmp path (b'.' ∷ b'.' ∷ []))
    then (if is_zero (strcmp s.current_directory (b'/' ∷ []))
        then (access_denied, s)
        else (success, record s { current_directory = b'/' ∷ [] }))
    else enter_directory s path (find_entry s path)

-- `fs_get_cwd` into a buffer of `size` bytes, with the string that it copies.
unfoldable pub fs_get_cwd : FsState → ℕ → Status × Option (List ℕ)
fs_get_cwd s size =
    if size == 0
    then (invalid_path, none)
    else if leb size (strlen s.current_directory)
    then (invalid_path, none)
    else (success, some s.current_directory)
