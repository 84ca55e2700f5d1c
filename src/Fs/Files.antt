-- ===== src/Fs/Files.antt =====
-- The operations on files and directories of fs/filesystem.c. A call that may release a cluster
-- chain takes the rounds that the release is given; its result is `none` if that loop has not ended.
pub mod Delete
pub mod Create
pub mod Seek
use pxos.Base.{
  ℕ, ◌-◌, ◌*◌, ◌+◌, ◌/◌, ◌%◌, ◌^◌, Bool, true, false, not, ◌&&◌, ◌||◌, Option, none, some, List, [],
  ◌∷◌, ◌++◌, length, ltb, leb, ◌==◌, if◌then◌else◌,
}
use pxos.Base.Int.{ℤ, pos, negsuc}
use pxos.Str.{deref, strlen, strcmp, text}
use pxos.Fs.State.{
  Status, success, not_found, access_denied, disk_full, invalid_path, file_exists, io_error,
  not_directory, is_success, Dirent, FsState,
}
use pxos.Fs.Fat.{allocate_cluster, free_cluster_chain}
use pxos.Fs.Names.{is_zero, convert_filename, validate_path}
use pxos.Fs.Dir.{
  is_directory, find_directory_entry, add_directory_entry_to_dir, remove_directory_entry,
  update_directory_entry, find_entry,
}

-- `fs_file_t`. The name is what `strcpy` writes to `name`, which may be longer than the field.
pub record File : Type 0 where
  pub cluster : ℕ
  pub offset : ℕ
  pub size : ℕ
  pub mode : ℕ
  pub valid : Bool
  pub name : List ℕ

-- The bits of FS_MODE_READ, FS_MODE_WRITE and FS_MODE_CREATE, and of FS_ATTR_READ_ONLY.
abbrev pub mode_read : ℕ → Bool
mode_read m = m % 2 == 1

abbrev pub mode_write : ℕ → Bool
mode_write m = m / 2 % 2 == 1

abbrev pub mode_create : ℕ → Bool
mode_create m = m / 8 % 2 == 1

abbrev pub is_read_only : Dirent → Bool
is_read_only d = d.attr % 2 == 1

-- What a call returns, with the new state and the handle that it fills.
abbrev pub Opened : Type 0
Opened = Status × FsState × Option File

-- The end of `fs_open`, once the entry is known.
unfoldable pub open_entry : FsState → List ℕ → ℕ → Dirent → Opened
open_entry s path mode d = if mode_write mode && is_read_only d then (access_denied, s, none) else (
  success,
  s,
  some (record {
    cluster = d.cluster;
    offset = 0;
    size = d.size;
    mode = mode;
    valid = true;
    name = text path;
  }),
)

-- The part of `fs_open` that creates the file, after the cluster is allocated.
unfoldable pub create_entry : ℕ → List Dirent → FsState → List ℕ → ℕ → ℕ → Option Opened
create_entry fuel sector s path mode cluster =
    let (st, s') = add_directory_entry_to_dir sector s path 0x20 cluster 0 s.current_directory in
    if not (is_success st)
    then elim (free_cluster_chain fuel s' cluster) [
      | none ↦ none
      | some (_, s'') ↦ some (io_error, s'', none)
    ]
    else let (_, entry) = find_directory_entry s' path in
      elim entry [ none ↦ some (io_error, s', none) | some d ↦ some (open_entry s' path mode d) ]

-- `fs_open` on a handle that is not NULL. `sector`: see `add_to_sector`.
unfoldable pub fs_open : ℕ → List Dirent → FsState → List ℕ → ℕ → Option Opened
fs_open fuel sector s path mode =
    if not s.initialized
    then some (io_error, s, none)
    else if not (is_success (validate_path path))
    then some (invalid_path, s, none)
    else let (_, entry) = find_directory_entry s path in
      elim entry [
        | some d ↦ some (open_entry s path mode d)
        | none ↦
            if not (mode_create mode)
            then some (not_found, s, none)
            else let (_, cluster, s') = allocate_cluster s in
              elim cluster [
                | none ↦ some (disk_full, s', none)
                | some c ↦ create_entry fuel sector s' path mode c
              ]
      ]

-- `fs_close`
unfoldable pub fs_close : File → Status × File
fs_close f = if not f.valid then (io_error, f) else (success, record f { valid = false })

-- `fs_create`: FS_MODE_CREATE | FS_MODE_WRITE, and the handle is closed again.
unfoldable pub fs_create : ℕ → List Dirent → FsState → List ℕ → Option (Status × FsState)
fs_create fuel sector s path = elim (fs_open fuel sector s path 0x0A) [
  | none ↦ none
  | some (st, s', f) ↦ some (st, s')
]

-- `fs_seek`: `offset` is the bit pattern of the `int32_t`; sums of `uint32_t` wrap.
abbrev pub seek_target : File → ℕ → ℕ → Option ℕ
seek_target f offset whence =
    if whence == 0
    then some offset
    else if whence == 1
    then some ((f.offset + offset) % 2 ^ 32)
    else if whence == 2
    then some ((f.size + offset) % 2 ^ 32)
    else none

unfoldable pub seek_to : File → Option ℕ → Status × File
seek_to f none = (io_error, f)
seek_to f (some o) = if ltb f.size o then (io_error, f) else (success, record f { offset = o })

unfoldable pub fs_seek : File → ℕ → ℕ → Status × File
fs_seek f offset whence =
    if not f.valid then (io_error, f) else seek_to f (seek_target f offset whence)

-- `fs_tell`; an offset from 2 ^ 31 on would be returned as a negative `int`.
unfoldable pub fs_tell : File → ℤ
fs_tell f =
    if not f.valid
    then negsuc 0
    else if ltb f.offset (2 ^ 31)
    then pos f.offset
    else negsuc (2 ^ 32 - f.offset - 1)

-- The end of `fs_delete` and `fs_rmdir`, once the entry and its kind are checked.
unfoldable pub remove_found : ℕ → FsState → List ℕ → Dirent → Option (Status × FsState)
remove_found fuel s path d =
    elim (if d.cluster == 0 then some (success, s) else free_cluster_chain fuel s d.cluster) [
      | none ↦ none
      | some (_, s') ↦
          let (st, s'') = remove_directory_entry s' path in
          some ((if is_success st then success else io_error), s'')
    ]

-- `fs_delete`
unfoldable pub fs_delete : ℕ → FsState → List ℕ → Option (Status × FsState)
fs_delete fuel s path =
    if not s.initialized
    then some (io_error, s)
    else if not (is_success (validate_path path))
    then some (invalid_path, s)
    else let (_, entry) = find_directory_entry s path in
      elim entry [
        | none ↦ some (not_found, s)
        | some d ↦ if is_directory d then some (access_denied, s) else remove_found fuel s path d
      ]

-- `fs_rmdir`
unfoldable pub fs_rmdir : ℕ → FsState → List ℕ → Option (Status × FsState)
fs_rmdir fuel s path =
    if not s.initialized
    then some (io_error, s)
    else if not (is_success (validate_path path))
    then some (invalid_path, s)
    else let (_, entry) = find_directory_entry s path in
      elim entry [
        | none ↦ some (not_found, s)
        | some d ↦
            if not (is_directory d) then some (access_denied, s) else remove_found fuel s path d
      ]
