-- ===== src/Fs/Transfer/Tests.antt =====
-- Reads and writes through a handle of one file, and runs.
use pxos.Base.{ℕ, ◌≡◌, refl, arith, true, some, none, List, [], ◌∷◌, min, ◌-◌}
use pxos.Fs.State.{FsState, Bytes, update}
use pxos.Fs.Fat.{fat_entry, put_entry, get_bits, set_bits, store16, read_fat}
use pxos.Fs.Fat.Codec.{IsBytes, put_entry-IsBytes}
use pxos.Fs.Files.{File}
use pxos.Fs.Volume.{zero_table, zero_stats}
use pxos.Fs.Transfer.{
  Count, bytes, fs_read, fs_write, read_loop, read_total, begin_transfer, piece, sector_of,
  read_move, follow,
}
use pxos.Fs.Transfer.Read.{Returns, Reads, fs_read-Reads}
use pxos.Fs.Transfer.Write.{Writes, fs_write-Writes}

zero-IsBytes : IsBytes zero_table
zero-IsBytes a = omega arith

-- A file of one cluster.
abbrev table : Bytes
table = put_entry zero_table 2 0xFFF

abbrev volume : FsState
volume = record {
  initialized = true;
  fat_table = table;
  root_dir = [];
  stats = zero_stats;
  current_directory = [];
}

table-IsBytes : IsBytes table
table-IsBytes = put_entry-IsBytes zero_table 2 0xFFF zero-IsBytes

abbrev handle : ℕ → File
handle n = record { cluster = 2; offset = 0; size = n; mode = 3; valid = true; name = [] }

-- The read comes to the end of the only cluster's first sector.
fs_read-Reads_example :
    Returns
      (Reads volume (handle 600) (min 600 (600 - 0)))
      (fs_read volume (λ n o. 7) (handle 600) 600)
fs_read-Reads_example = fs_read-Reads volume (λ n o. 7) (handle 600) 600 refl refl (omega arith)

fs_write-Writes_example : Returns (Writes volume (handle 0) 600) (fs_write 9 volume (handle 0) 600)
fs_write-Writes_example =
    fs_write-Writes 9 volume (handle 0) 600 refl refl (omega arith) (omega arith) table-IsBytes

abbrev count : Count × File × List ℕ → Count
count (n, f, b) = n

abbrev read_count : FsState → File → ℕ → List Count
read_count s f n = elim (fs_read s (λ k o. 7) f n) [ none ↦ [] | some r ↦ count r ∷ [] ]

-- A cluster has two sectors, but the loop leaves it after the first: of a file of 600 bytes in one
-- cluster of 1024 only 512 can be read.
read_stops_early : read_count volume (handle 600) 600 ≡ bytes 512 ∷ []
unfolding fs_read read_loop read_total begin_transfer piece sector_of read_move follow read_fat
    fat_entry put_entry get_bits set_bits store16 update
read_stops_early = refl
