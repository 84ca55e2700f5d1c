-- ===== src/Fs/State.antt =====
-- The state of fs/filesystem.c (`fs_state`, `current_directory`) and the types of filesystem.h.
use pxos.Base.{ℕ, Bool, true, false, List, if◌then◌else◌, ◌==◌}

-- The error codes FS_SUCCESS .. FS_ERROR_NOT_DIRECTORY.
pub data Status : Type 0 where
  success not_found access_denied disk_full invalid_path : Status
  file_exists invalid_mode io_error not_directory : Status

abbrev pub is_success : Status → Bool
is_success success = true
is_success _ = false

-- `fs_dirent_t`: a directory entry of 32 bytes. Bytes are numbers below 256.
pub record Dirent : Type 0 where
  pub name : List ℕ
  pub ext : List ℕ
  pub attr : ℕ
  pub reserved : List ℕ
  pub time : ℕ
  pub date : ℕ
  pub cluster : ℕ
  pub size : ℕ

-- `fs_stats_t`
pub record Stats : Type 0 where
  pub total_sectors : ℕ
  pub free_sectors : ℕ
  pub used_sectors : ℕ
  pub total_files : ℕ
  pub total_dirs : ℕ

-- The bytes of `fat_table`, by their offset.
abbrev pub Bytes : Type 0
Bytes = ℕ → ℕ

-- `fs_state_t` with `current_directory`, a string without its NUL.
pub record FsState : Type 0 where
  pub initialized : Bool
  pub fat_table : Bytes
  pub root_dir : List Dirent
  pub stats : Stats
  pub current_directory : List ℕ

-- FS_FAT_SIZE * FS_SECTOR_SIZE, the bytes that `fat_table_static` has.
abbrev pub fat_bytes : ℕ
fat_bytes = 4608

abbrev pub root_entries : ℕ
root_entries = 224

-- The bound that the FAT functions check a cluster against.
abbrev pub max_cluster : ℕ
max_cluster = 2880

-- A byte write.
unfoldable pub update : Bytes → ℕ → ℕ → Bytes
update m a v b = if b == a then v else m b
