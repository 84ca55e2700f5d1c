-- ===== src/Fs/Manage/Rename.antt =====
-- What `fs_rename` does with the path of an existing entry.
use pxos.Base.{ℕ, ◌≡◌, refl, arith, true, false, Option, none, some, List, [], ◌∷◌}
use pxos.Str.{deref, memcpy}
use pxos.Fs.State.{not_found, Dirent, FsState, is_success}
use pxos.Fs.Names.{convert_filename}
use pxos.Fs.Dir.{has_name, hits, find_directory_entry, replace_slot, update_directory_entry}
use pxos.Fs.Files.Delete.{NoSlash, memcmp-ne, convert_filename-slash}
use pxos.Fs.Manage.{rename_entry, fs_rename}

replace_slot-none :
    (n e : List ℕ) (new : Dirent) (ds : List Dirent)
    → deref n ≡ b'/'
    → NoSlash ds
    → replace_slot n e new ds ≡ none
unfolding replace_slot hits has_name
replace_slot-none n e new [] h ns = refl
replace_slot-none n e new (d ∷ ds) h ns =
    ground (arith, memcmp-ne d.name n 7, replace_slot-none n e new ds h ns.1)

update_directory_entry-slash :
    (s : FsState) (f : List ℕ) (new : Dirent)
    → s.initialized ≡ true
    → NoSlash s.root_dir
    → update_directory_entry s (b'/' ∷ f) new ≡ (not_found, s)
unfolding update_directory_entry
update_directory_entry-slash s f new init ns = ground (
  arith,
  replace_slot-none (convert_filename (b'/' ∷ f)).0 (convert_filename (b'/' ∷ f)).1 new s.root_dir
      (convert_filename-slash f) ns,
)

rename_entry-slash :
    (s : FsState) (f new_path : List ℕ) (o : Option Dirent)
    → s.initialized ≡ true
    → NoSlash s.root_dir
    → ((rename_entry s (b'/' ∷ f) new_path o).1 ≡ s)
      × (is_success (rename_entry s (b'/' ∷ f) new_path o).0 ≡ false)
unfolding rename_entry
rename_entry-slash s f new_path none init ns = (refl, refl)
rename_entry-slash s f new_path (some d) init ns = ground (
  arith,
  update_directory_entry-slash s f (record d { name = memcpy d.name n 8; ext = memcpy d.ext e 3 }),
)
  where
    n : List ℕ
    n = (convert_filename new_path).0

    e : List ℕ
    e = (convert_filename new_path).1

-- While no name in the root directory of a mounted filesystem begins with `/`, `fs_rename` of a path
-- that begins with `/` changes nothing and does not succeed, whatever the new path.
pub fs_rename_fails :
    (s : FsState) (f new_path : List ℕ)
    → s.initialized ≡ true
    → NoSlash s.root_dir
    → ((fs_rename s (b'/' ∷ f) new_path).1 ≡ s)
      × (is_success (fs_rename s (b'/' ∷ f) new_path).0 ≡ false)
unfolding fs_rename
fs_rename_fails s f new_path init ns =
    ground (arith, rename_entry-slash s f new_path (find_directory_entry s (b'/' ∷ f)).1)
