-- ===== src/Fs/Volume/Counts.antt =====
-- What the counts of `update_fs_stats` say.
use pxos.Base.{
  ℕ, zero, suc, ◌+◌, ◌-◌, ◌≡◌, ◌<◌, ◌∙◌, arith, true, some, List, [], ◌∷◌, if◌then◌else◌,
}
use pxos.Fs.State.{success, Dirent, Stats, FsState, max_cluster}
use pxos.Fs.Fat.{read_fat}
use pxos.Fs.Dir.{is_live, is_directory}
use pxos.Fs.Volume.{
  zero_stats, count_sectors, count_entries, recount, update_fs_stats, fs_get_stats,
}

-- How many entries are in use, and how many of them are directories.
pub live_count : List Dirent → ℕ
live_count [] = 0
live_count (d ∷ ds) = (if is_live d then 1 else 0) + live_count ds

pub dir_count : List Dirent → ℕ
dir_count [] = 0
dir_count (d ∷ ds) = (if is_live d then (if is_directory d then 1 else 0) else 0) + dir_count ds

reads-success :
    (s : FsState) (i : ℕ) → s.initialized ≡ true → i < max_cluster → (read_fat s i).0 ≡ success
unfolding read_fat
reads-success s i init h = ground arith

count_sectors_lem :
    (s : FsState) (left i : ℕ) (c : Stats)
    → s.initialized ≡ true
    → i + left ≡ max_cluster
    → count_sectors s left i c ≡ record c { free_sectors = c.free_sectors + left }
unfolding count_sectors
count_sectors_lem s zero i c init e = ground arith
count_sectors_lem s (suc left) i c init e = rw (reads-success s i init (omega arith)) (
    count_sectors_lem s left (i + 1) (record c { free_sectors = c.free_sectors + 1 }) init
      (omega arith)
    ∙ ground arith)

count_entries_lem :
    (ds : List Dirent) (c : Stats)
    → ((count_entries ds c).total_dirs ≡ c.total_dirs + dir_count ds)
      × ((count_entries ds c).total_dirs + (count_entries ds c).total_files
          ≡ c.total_dirs + c.total_files + live_count ds)
      × ((count_entries ds c).free_sectors ≡ c.free_sectors)
      × ((count_entries ds c).used_sectors ≡ c.used_sectors)
unfolding count_entries live_count dir_count
count_entries_lem [] c = omega arith
count_entries_lem (d ∷ ds) c = ground (
  arith,
  count_entries_lem ds c,
  count_entries_lem ds (record c { total_dirs = c.total_dirs + 1 }),
  count_entries_lem ds (record c { total_files = c.total_files + 1 }),
)

recount_lem :
    (s : FsState)
    → s.initialized ≡ true
    → ((recount s).free_sectors ≡ max_cluster - 2)
      × ((recount s).used_sectors ≡ 0)
      × ((recount s).total_dirs ≡ dir_count s.root_dir)
      × ((recount s).total_dirs + (recount s).total_files ≡ live_count s.root_dir)
unfolding recount
recount_lem s init =
    rw
      (count_sectors_lem s (max_cluster - 2) 2
        (record zero_stats { total_sectors = s.stats.total_sectors }) init (omega arith))
      (omega (
        arith,
        count_entries_lem s.root_dir
            (record zero_stats { total_sectors = s.stats.total_sectors; free_sectors = 2878 }),
      ))

-- On a mounted filesystem `fs_get_stats` succeeds, changes only the counts, and reports all 2878
-- clusters from 2 on as free and none as used, whatever the table holds; its directories are the
-- live entries of the root directory with the directory bit, and its files the other live entries.
pub fs_get_stats_lem :
    (s : FsState)
    → s.initialized ≡ true
    → (st : Stats) × (fs_get_stats s ≡ (success, some st, record s { stats = st }))
      × (st.free_sectors ≡ 2878)
      × (st.used_sectors ≡ 0)
      × (st.total_dirs ≡ dir_count s.root_dir)
      × (st.total_dirs + st.total_files ≡ live_count s.root_dir)
unfolding fs_get_stats update_fs_stats
fs_get_stats_lem s init = (
  recount s,
  ground arith,
  (recount_lem s init).0,
  (recount_lem s init).1,
  (recount_lem s init).2,
  (recount_lem s init).3,
)
