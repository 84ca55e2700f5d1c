-- ===== src/Fs/Listing/Tests.antt =====
-- Listings of the root directory and of a directory in it.
use pxos.Base.{ℕ, List, ◌≡◌, refl, true, [], ◌∷◌, replicate}
use pxos.Str.{strcmp, strlen, strchr, memcmp, memcpy}
use pxos.Fs.State.{success, Dirent, FsState}
use pxos.Fs.Names.{
  convert_filename_back, field_text, convert_filename, convert_at, blank_padded, upper,
}
use pxos.Fs.Dir.{is_live, find_directory_entry, find_slot, hits, has_name}
use pxos.Fs.Volume.{zero_table, zero_stats}
use pxos.Fs.Listing.{
  file, directory, info, list_slots, list_found, is_root, fs_listdir, Lists, fs_listdir-Lists,
}

abbrev slot : ℕ → ℕ → Dirent
slot first attr = record {
  name = first ∷ replicate 7 b' ';
  ext = replicate 3 b' ';
  attr = attr;
  reserved = replicate 10 0;
  time = 0;
  date = 0;
  cluster = 5;
  size = 9;
}

-- A file, a deleted entry and a directory.
abbrev volume : FsState
volume = record {
  initialized = true;
  fat_table = zero_table;
  root_dir = slot b'A' 0x20 ∷ slot 0xE5 0x20 ∷ slot b'B' 0x10 ∷ [];
  stats = zero_stats;
  current_directory = b'/' ∷ [];
}

-- The stack held an entry Z at the third place.
abbrev junk : List Dirent
junk = slot b'X' 0x20 ∷ slot b'Y' 0x20 ∷ slot b'Z' 0x20 ∷ []

abbrev path_b : List ℕ
path_b = b'/' ∷ b'B' ∷ []

fs_listdir-Lists_example : Lists volume junk path_b 32 (fs_listdir volume junk path_b 32)
fs_listdir-Lists_example = fs_listdir-Lists volume junk path_b 32 refl

-- The directory B has no entries of its own, and Z is listed.
junk_listed : fs_listdir volume junk path_b 32 ≡ (
  success,
  record { name = b'Z' ∷ []; file_type = file; size = 9; cluster = 5; attr = 0x20 } ∷ [],
)
unfolding fs_listdir is_root strcmp list_found list_slots is_live info convert_filename_back
    field_text find_directory_entry find_slot hits has_name convert_filename convert_at blank_padded
    memcpy memcmp upper strchr strlen
junk_listed = refl

listed : fs_listdir volume [] (b'/' ∷ []) 32 ≡ (
  success,
  record { name = b'A' ∷ []; file_type = file; size = 9; cluster = 5; attr = 0x20 }
      ∷ record { name = b'B' ∷ []; file_type = directory; size = 9; cluster = 5; attr = 0x10 }
      ∷ [],
)
unfolding fs_listdir is_root strcmp list_slots is_live info convert_filename_back field_text
listed = refl
