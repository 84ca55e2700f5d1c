-- ===== src/Fs/Volume.antt =====
-- Mounting, formatting and counting in fs/filesystem.c. The messages on the screen are left out.
pub mod Fresh
pub mod Counts
use pxos.Base.{
  ℕ, zero, suc, ◌+◌, ◌-◌, ◌*◌, ◌%◌, ◌^◌, Bool, true, false, not, Option, none, some, List, [], ◌∷◌,
  replicate, ◌==◌, if◌then◌else◌,
}
use pxos.Fs.State.{
  Status, success, io_error, is_success, Dirent, Stats, FsState, Bytes, max_cluster, root_entries,
}
use pxos.Fs.Fat.{read_fat, write_fat}
use pxos.Fs.Dir.{is_live, is_directory}
use pxos.Fs.Manage.{fs_write_sector}

-- A slot and a root directory of zero bytes.
unfoldable pub zero_dirent : Dirent
zero_dirent = record {
  name = replicate 8 0;
  ext = replicate 3 0;
  attr = 0;
  reserved = replicate 10 0;
  time = 0;
  date = 0;
  cluster = 0;
  size = 0;
}

unfoldable pub zero_root : List Dirent
zero_root = replicate root_entries zero_dirent

abbrev pub zero_table : Bytes
zero_table a = 0

abbrev pub zero_stats : Stats
zero_stats = record {
  total_sectors = 0;
  free_sectors = 0;
  used_sectors = 0;
  total_files = 0;
  total_dirs = 0;
}

-- The loop over the clusters from `i` on, `left` of them: `fs_read_fat(i, NULL)` returns the status,
-- which is 0 for FS_SUCCESS.
unfoldable pub count_sectors : FsState → ℕ → ℕ → Stats → Stats
count_sectors s zero i c = c
count_sectors s (suc left) i c = count_sectors s left (i + 1) (
    if is_success (read_fat s i).0
    then record c { free_sectors = c.free_sectors + 1 }
    else record c { used_sectors = c.used_sectors + 1 })

-- The loop over the root directory.
unfoldable pub count_entries : List Dirent → Stats → Stats
count_entries [] c = c
count_entries (d ∷ ds) c = count_entries ds (
    if is_live d
    then (if is_directory d
        then record c { total_dirs = c.total_dirs + 1 }
        else record c { total_files = c.total_files + 1 })
    else c)

-- The counts that `update_fs_stats` makes, over the total that was there.
unfoldable pub recount : FsState → Stats
recount s = count_entries s.root_dir (
    count_sectors s (max_cluster - 2) 2
      (record zero_stats { total_sectors = s.stats.total_sectors }))

-- `update_fs_stats`
unfoldable pub update_fs_stats : FsState → FsState
update_fs_stats s = if not s.initialized then s else record s { stats = recount s }

-- The state after `memset(&fs_state, 0, ...)` and with the static arrays zeroed.
abbrev cleared : FsState → FsState
cleared s = record s {
  initialized = false;
  fat_table = zero_table;
  root_dir = zero_root;
  stats = record zero_stats { total_sectors = 2880 };
}

-- `fs_init`: the reserved clusters are written, and the sectors counted, before `initialized` is
-- set. `fs_read_sector` always succeeds.
unfoldable pub fs_init : FsState → Status × FsState
fs_init s =
    let s0 = cleared s in
    let (_, s1) = write_fat s0 0 0xFF8 in
    let (_, s2) = write_fat s1 1 0xFFF in
    (success, record s2 { stats = recount s2; initialized = true })

-- `fs_cleanup`; the arrays that the NULL pointers stand for are empty.
unfoldable pub fs_cleanup : FsState → FsState
fs_cleanup s = record s { fat_table = zero_table; root_dir = []; initialized = false }

-- `fs_get_stats`
unfoldable pub fs_get_stats : FsState → Status × Option Stats × FsState
fs_get_stats s =
    if not s.initialized
    then (io_error, none, s)
    else let s' = update_fs_stats s in (success, some s'.stats, s')

-- `fs_get_free_space`
unfoldable pub fs_get_free_space : FsState → Status × Option ℕ
fs_get_free_space s =
    if not s.initialized
    then (io_error, none)
    else (success, some (s.stats.free_sectors * 512 % 2 ^ 32))

-- The loop of `fs_format` that writes the table back, sectors `i` on, `left` of them.
unfoldable pub write_fat_sectors : ℕ → ℕ → Status
write_fat_sectors zero i = success
write_fat_sectors (suc left) i =
    let rest = write_fat_sectors left (i + 1) in
    if is_success (fs_write_sector (1 + i)) then rest else io_error

-- `fs_format`
unfoldable pub fs_format : FsState → Status × FsState
fs_format s =
    if not s.initialized
    then (io_error, s)
    else let s' = record s { fat_table = zero_table; root_dir = zero_root } in
      if not (is_success (write_fat_sectors 9 0))
      then (io_error, s')
      else if not (is_success (fs_write_sector 19))
      then (io_error, s')
      else (
        success,
        record s' {
          stats = record (s.stats) {
            free_sectors = 2880 - 33;
            used_sectors = 33;
            total_files = 0;
            total_dirs = 0;
          };
        },
      )
