-- ===== src/Fs/Tests.antt =====
-- The theorems of the filesystem at concrete states, and runs of its functions.
use pxos.Base.{
  ℕ, ◌≡◌, ◌+◌, refl, arith, true, false, none, some, List, [], ◌∷◌, ◌++◌, map, replicate,
}
use pxos.Str.{strlen, strchr, strcmp, strcasecmp, lower, char_diff, memcmp, memcpy}
use pxos.Fs.State.{success, io_error, is_success, Dirent, Stats, FsState, Bytes, update}
use pxos.Fs.Fat.{
  fat_entry, put_entry, get_bits, set_bits, store16, allocate_cluster, free_cluster_chain,
}
use pxos.Fs.Fat.Codec.{IsBytes, fat_entry-put_ne, put_entry-IsBytes}
use pxos.Fs.Fat.Alloc.{Allocates, allocate_cluster-Allocates}
use pxos.Fs.Fat.Chain.{IsChain, Frees, free_cluster_chain-Frees}
use pxos.Fs.Fat.Hang.{free_cluster_chain-none}
use pxos.Fs.Names.{
  upper, convert_filename, convert_at, blank_padded, convert_filename_back, validate_path,
  is_valid_filename, field_text,
}
use pxos.Fs.Names.RoundTrip.{IsPart, convert_filename_back-convert_filename}
use pxos.Fs.Paths.{parse_path, join_path}
use pxos.Fs.Paths.RoundTrip.{parse_path-join_path}
use pxos.Fs.Dir.{find_directory_entry, find_slot, hits, is_live, has_name, find_entry, find_by_text}
use pxos.Fs.Files.{File, fs_create, fs_delete}
use pxos.Fs.Files.Create.{CanCreate, Creates, fs_create-Creates}
use pxos.Fs.Files.Delete.{IsDeletable, fs_delete_keeps_entry, fs_delete_twice-none}
use pxos.Fs.Manage.{fs_rename, fs_chdir, enter_directory}
use pxos.Fs.Manage.Chdir.{Chdir, fs_chdir-Chdir}
use pxos.Fs.Manage.Rename.{fs_rename_fails}
use pxos.Fs.Volume.{zero_table, zero_stats, fs_get_stats, fs_init}
use pxos.Fs.Volume.Counts.{live_count, dir_count, fs_get_stats_lem}
use pxos.Fs.Volume.Fresh.{IsEmpty, fs_init-IsEmpty}

abbrev mounted : Bytes → List Dirent → FsState
mounted m ds = record {
  initialized = true;
  fat_table = m;
  root_dir = ds;
  stats = zero_stats;
  current_directory = b'/' ∷ [];
}

zero-IsBytes : IsBytes zero_table
zero-IsBytes a = omega arith

-- Cluster 2 alone, and the chain of 2 and 3.
abbrev one_file : Bytes
one_file = put_entry zero_table 2 0xFFF

abbrev two_clusters : Bytes
two_clusters = put_entry (put_entry zero_table 2 3) 3 0xFFF

one_file-IsBytes : IsBytes one_file
one_file-IsBytes = put_entry-IsBytes zero_table 2 0xFFF zero-IsBytes

two_clusters-IsBytes : IsBytes two_clusters
two_clusters-IsBytes =
    put_entry-IsBytes (put_entry zero_table 2 3) 3 0xFFF
      (put_entry-IsBytes zero_table 2 3 zero-IsBytes)

fat_entry-put_ne_example : fat_entry (put_entry two_clusters 2 0xABC) 3 ≡ fat_entry two_clusters 3
fat_entry-put_ne_example =
    fat_entry-put_ne two_clusters 2 3 0xABC two_clusters-IsBytes (omega arith)

allocate_cluster-Allocates_example :
    Allocates (mounted two_clusters []) (allocate_cluster (mounted two_clusters []))
allocate_cluster-Allocates_example =
    allocate_cluster-Allocates (mounted two_clusters []) refl two_clusters-IsBytes

two_clusters-IsChain : IsChain two_clusters 2 (2 ∷ 3 ∷ [])
unfolding fat_entry put_entry get_bits set_bits store16 update
two_clusters-IsChain = (refl, omega arith, (refl, omega arith, omega arith))

free_cluster_chain-Frees_example :
    (m : Bytes) × (free_cluster_chain 3 (mounted two_clusters []) 2 ≡ some (success, mounted m []))
    × Frees two_clusters m (2 ∷ 3 ∷ [])
free_cluster_chain-Frees_example =
    free_cluster_chain-Frees 3 (mounted two_clusters []) 2 (2 ∷ 3 ∷ []) refl two_clusters-IsBytes
      two_clusters-IsChain (omega arith)

zero_entry : (c : ℕ) → fat_entry zero_table c ≡ 0
unfolding fat_entry get_bits
zero_entry c = ground arith

free_cluster_chain-none_example : free_cluster_chain 9999 (mounted zero_table []) 5 ≡ none
free_cluster_chain-none_example =
    free_cluster_chain-none 9999 (mounted zero_table []) 5 refl zero-IsBytes (omega arith)
      (zero_entry 5) (zero_entry 0)

-- "README" and "MD", "/A" and the entry of the file A.
abbrev readme : List ℕ
readme = b'r' ∷ b'e' ∷ b'a' ∷ b'd' ∷ b'm' ∷ b'e' ∷ []

abbrev md : List ℕ
md = b'm' ∷ b'd' ∷ []

readme-IsPart : IsPart 8 readme
readme-IsPart = omega arith

md-IsPart : IsPart 3 md
md-IsPart = omega arith

convert_filename_back-convert_filename_example :
    (let (name, ext) = convert_filename (readme ++ b'.' ∷ md) in
      convert_filename_back name ext ≡ map upper (readme ++ b'.' ∷ md))
    × (let (name, ext) = convert_filename readme in
        convert_filename_back name ext ≡ map upper readme)
convert_filename_back-convert_filename_example =
    convert_filename_back-convert_filename readme md readme-IsPart md-IsPart (λ e. cc)

abbrev path_a : List ℕ
path_a = b'/' ∷ b'A' ∷ []

abbrev file_a : Dirent
file_a = record {
  name = b'A' ∷ replicate 7 b' ';
  ext = replicate 3 b' ';
  attr = 0x20;
  reserved = replicate 10 0;
  time = 0;
  date = 0;
  cluster = 2;
  size = 0;
}

can_create : CanCreate (mounted zero_table []) path_a
unfolding validate_path is_valid_filename strlen strchr strcmp find_directory_entry find_slot
    is_live convert_filename convert_at blank_padded memcpy upper
can_create = record {
  mounted = refl;
  bytes = zero-IsBytes;
  at_root = refl;
  valid = refl;
  missing = refl;
  live = refl;
}

fs_create-Creates_example :
    Creates (mounted zero_table []) path_a (fs_create 2 [] (mounted zero_table []) path_a)
fs_create-Creates_example =
    fs_create-Creates 2 [] (mounted zero_table []) path_a (omega arith) can_create

deletable : IsDeletable (mounted one_file (file_a ∷ [])) (b'A' ∷ []) file_a (2 ∷ [])
unfolding validate_path is_valid_filename strlen strchr strcmp memcmp find_directory_entry find_slot
    hits has_name is_live convert_filename convert_at blank_padded memcpy upper fat_entry put_entry
    get_bits set_bits store16 update
deletable = record {
  mounted = refl;
  bytes = one_file-IsBytes;
  no_slash = omega arith;
  valid = refl;
  found = refl;
  file = refl;
  nonzero = omega arith;
  chain = (refl, omega arith, omega arith);
}

fs_delete_keeps_entry_example :
    (m : Bytes) × (fs_delete 2 (mounted one_file (file_a ∷ [])) path_a
      ≡ some (io_error, mounted m (file_a ∷ [])))
    × Frees one_file m (2 ∷ [])
fs_delete_keeps_entry_example =
    fs_delete_keeps_entry 2 (mounted one_file (file_a ∷ [])) (b'A' ∷ []) file_a (2 ∷ []) deletable
      (omega arith)

-- What the deletion of the file leaves.
first_delete :
    (m : Bytes) × (fs_delete 2 (mounted one_file (file_a ∷ [])) path_a
      ≡ some (io_error, mounted m (file_a ∷ [])))
    × Frees one_file m (2 ∷ [])
first_delete =
    fs_delete_keeps_entry 2 (mounted one_file (file_a ∷ [])) (b'A' ∷ []) file_a (2 ∷ []) deletable
      (omega arith)

one_file_zero : fat_entry one_file 0 ≡ 0
unfolding fat_entry put_entry get_bits set_bits store16 update
one_file_zero = refl

fs_delete_twice-none_example : fs_delete 9999 (mounted (first_delete.0) (file_a ∷ [])) path_a ≡ none
fs_delete_twice-none_example =
    fs_delete_twice-none 2 9999 (mounted one_file (file_a ∷ [])) (b'A' ∷ []) file_a (2 ∷ [])
      (mounted (first_delete.0) (file_a ∷ [])) deletable (omega arith) (omega arith) one_file_zero
      (first_delete.1)

abbrev handle : File
handle = record { cluster = 2; offset = 5; size = 100; mode = 1; valid = true; name = path_a }

fs_rename_fails_example :
    ((fs_rename (mounted one_file (file_a ∷ [])) path_a (b'/' ∷ b'B' ∷ [])).1
      ≡ mounted one_file (file_a ∷ []))
    × (is_success (fs_rename (mounted one_file (file_a ∷ [])) path_a (b'/' ∷ b'B' ∷ [])).0 ≡ false)
fs_rename_fails_example =
    fs_rename_fails (mounted one_file (file_a ∷ [])) (b'A' ∷ []) (b'/' ∷ b'B' ∷ []) refl
      (omega arith)

fs_get_stats_lem_example :
    (st : Stats) × (fs_get_stats (mounted one_file (file_a ∷ []))
      ≡ (success, some st, record (mounted one_file (file_a ∷ [])) { stats = st }))
    × (st.free_sectors ≡ 2878)
    × (st.used_sectors ≡ 0)
    × (st.total_dirs ≡ dir_count (file_a ∷ []))
    × (st.total_dirs + st.total_files ≡ live_count (file_a ∷ []))
fs_get_stats_lem_example = fs_get_stats_lem (mounted one_file (file_a ∷ [])) refl

fs_init-IsEmpty_example :
    ((fs_init (mounted one_file (file_a ∷ []))).0 ≡ success)
    × IsEmpty (fs_init (mounted one_file (file_a ∷ []))).1
fs_init-IsEmpty_example = fs_init-IsEmpty (mounted one_file (file_a ∷ []))

-- The entry of the path as a directory.
abbrev folder : Dirent
folder = record file_a { attr = 0x10 }

fs_chdir-Chdir_example :
    Chdir (mounted one_file (folder ∷ [])) path_a (fs_chdir (mounted one_file (folder ∷ [])) path_a)
fs_chdir-Chdir_example = fs_chdir-Chdir (mounted one_file (folder ∷ [])) path_a

entered_folder :
    fs_chdir (mounted one_file (folder ∷ [])) path_a
    ≡ (success, record (mounted one_file (folder ∷ [])) { current_directory = path_a })
unfolding fs_chdir validate_path is_valid_filename strlen strchr strcmp strcasecmp lower char_diff
    find_entry find_by_text convert_filename_back field_text enter_directory
entered_folder = refl

parse_path-join_path_example :
    (parse_path (join_path readme md) ≡ some (readme, md))
    × (parse_path (join_path (b'/' ∷ []) md) ≡ some ([], md))
parse_path-join_path_example =
    parse_path-join_path readme md (omega arith) (omega arith) (omega arith) (omega arith)
      (omega arith) (omega arith)
