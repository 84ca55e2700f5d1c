-- ===== src/Fs/Volume/Fresh.antt =====
-- A filesystem that `fs_init` or `fs_format` leaves.
use pxos.Base.{
  ℕ, zero, suc, ◌≡◌, refl, arith, true, none, List, replicate, length, length-replicate,
}
use pxos.Fs.State.{success, not_found, FsState, root_entries}
use pxos.Fs.Fat.{fat_entry, get_bits, write_fat}
use pxos.Fs.Fat.Codec.{IsBytes}
use pxos.Fs.Dir.{is_live, hits, find_slot, strip_slash, find_directory_entry}
use pxos.Fs.Files.Delete.{NoSlash}
use pxos.Fs.Names.{convert_filename}
use pxos.Fs.Manage.{fs_write_sector}
use pxos.Fs.Volume.{write_fat_sectors, zero_dirent, zero_root, zero_table, fs_init, fs_format}

-- A mounted filesystem with no file: every entry of the table is 0, those of the reserved clusters 0
-- and 1 too, and every slot of the root directory is unused.
pub record IsEmpty (s : FsState) : Type 0 where
  pub mounted : s.initialized ≡ true
  pub bytes : IsBytes s.fat_table
  pub free : (c : ℕ) → fat_entry s.fat_table c ≡ 0
  pub slots : length s.root_dir ≡ root_entries
  pub no_slash : NoSlash s.root_dir
  pub nothing : (path : List ℕ) → find_directory_entry s path ≡ (not_found, none)

fat_entry-zero : (c : ℕ) → fat_entry zero_table c ≡ 0
unfolding fat_entry get_bits
fat_entry-zero c = ground arith

NoSlash-replicate : (n : ℕ) → NoSlash (replicate n zero_dirent)
unfolding zero_dirent
NoSlash-replicate zero = tt
NoSlash-replicate (suc n) = (omega arith, NoSlash-replicate n)

find_slot-replicate : (n : ℕ) (x e : List ℕ) → find_slot x e (replicate n zero_dirent) ≡ none
unfolding find_slot hits is_live zero_dirent
find_slot-replicate zero x e = refl
find_slot-replicate (suc n) x e = find_slot-replicate n x e

IsEmpty-zero :
    (s : FsState)
    → s.initialized ≡ true
    → s.fat_table ≡ zero_table
    → s.root_dir ≡ zero_root
    → IsEmpty s
unfolding zero_root find_directory_entry
IsEmpty-zero s init t r = record {
  mounted = init;
  bytes = λ a. rw t (omega arith);
  free = λ c. rw t (fat_entry-zero c);
  slots = rw r (length-replicate 224 zero_dirent);
  no_slash = rw r (NoSlash-replicate 224);
  nothing = λ path. rw (
    init,
    r,
    find_slot-replicate 224 (convert_filename (strip_slash path)).0
        (convert_filename (strip_slash path)).1,
  );
}

-- `fs_init` succeeds from any state and leaves a mounted filesystem on which no lookup finds an
-- entry and every entry of the table is 0, those of the reserved clusters 0 and 1 too.
pub fs_init-IsEmpty : (s : FsState) → ((fs_init s).0 ≡ success) × IsEmpty (fs_init s).1
unfolding fs_init write_fat
fs_init-IsEmpty s = (refl, IsEmpty-zero (fs_init s).1 refl refl refl)

fs_format_parts :
    (s : FsState)
    → s.initialized ≡ true
    → ((fs_format s).0 ≡ success)
      × ((fs_format s).1.initialized ≡ true)
      × ((fs_format s).1.fat_table ≡ zero_table)
      × ((fs_format s).1.root_dir ≡ zero_root)
unfolding fs_format write_fat_sectors fs_write_sector
fs_format_parts s init = simp init (refl, refl, refl, refl)

-- `fs_format` on a mounted filesystem succeeds and leaves one on which no lookup finds an entry and
-- every entry of the table is 0, those of the reserved clusters 0 and 1 too.
pub fs_format-IsEmpty :
    (s : FsState) → s.initialized ≡ true → ((fs_format s).0 ≡ success) × IsEmpty (fs_format s).1
fs_format-IsEmpty s init =
    let (st, i, t, r) = fs_format_parts s init in (st, IsEmpty-zero (fs_format s).1 i t r)
