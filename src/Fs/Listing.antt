-- ===== src/Fs/Listing.antt =====
-- `fs_listdir` of fs/filesystem.c.
mod Tests
use mathlib.Core.Path.{subst}
use pxos.Base.{
  ℕ, zero, suc, ◌+◌, ◌-◌, ◌*◌, ◌≡◌, ◌<◌, refl, ap, ap₂, ◌∙◌, arith, Bool, true, false, not, ◌||◌,
  Option, none, some, List, [], ◌∷◌, map, take, drop, length, ltb, ◌==◌, if◌then◌else◌, if_cases,
  if_true, if_false, ◌≢◌, sym,
}
use pxos.Str.{strcmp}
use pxos.Fs.State.{Status, success, not_found, access_denied, io_error, is_success, Dirent, FsState}
use pxos.Fs.Names.{is_zero, convert_filename_back}
use pxos.Fs.Dir.{is_live, is_directory, find_directory_entry}

-- `fs_file_type_t`
pub data FileType : Type 0 where
  file directory volume : FileType

-- `fs_dirent_info_t`; the name is the string that is written, without its NUL.
pub record Info : Type 0 where
  pub name : List ℕ
  pub file_type : FileType
  pub size : ℕ
  pub cluster : ℕ
  pub attr : ℕ

-- The body of the loops: what one slot is listed as.
unfoldable pub info : Dirent → Info
info d = record {
  name = convert_filename_back d.name d.ext;
  file_type = if is_directory d then directory else file;
  size = d.size;
  cluster = d.cluster;
  attr = d.attr;
}

-- The loop over slots, while `room` entries are free.
unfoldable pub list_slots : ℕ → List Dirent → List Info
list_slots zero ds = []
list_slots (suc room) [] = []
list_slots (suc room) (d ∷ ds) =
    let rest = list_slots (if is_live d then room else suc room) ds in
    if is_live d then info d ∷ rest else rest

-- The branch for another directory, whose first sector is a buffer that `fs_read_sector` leaves as it
-- is: `sector` has the slots that it holds. The first two are passed over.
unfoldable pub list_found : List Dirent → ℕ → Option Dirent → Status × List Info
list_found sector max_entries none = (not_found, [])
list_found sector max_entries (some d) =
    if not (is_directory d)
    then (access_denied, [])
    else if d.cluster == 0
    then (success, [])
    else (success, list_slots max_entries (take 14 (drop 2 sector)))

-- `strcmp(path, "/") == 0 || strcmp(path, "") == 0`
unfoldable pub is_root : List ℕ → Bool
is_root path = is_zero (strcmp path (b'/' ∷ [])) || is_zero (strcmp path [])

-- `fs_listdir` with what it puts into `entries` and counts in `count`, neither of them NULL.
unfoldable pub fs_listdir : FsState → List Dirent → List ℕ → ℕ → Status × List Info
fs_listdir s sector path max_entries =
    if not s.initialized
    then (io_error, [])
    else if is_root path
    then (success, list_slots max_entries s.root_dir)
    else list_found sector max_entries (find_directory_entry s path).1

-- The slots in use.
abbrev pub live : List Dirent → List Dirent
live [] = []
live (d ∷ ds) = if is_live d then d ∷ live ds else live ds

list_slots-live :
    (room : ℕ) (ds : List Dirent) → list_slots room ds ≡ take room (map info (live ds))
unfolding list_slots
list_slots-live zero ds = refl
list_slots-live (suc room) [] = refl
list_slots-live (suc room) (d ∷ ds) =
    if_cases (λ xs. xs ≡ take (suc room) (map info (live (d ∷ ds)))) (is_live d) _ _
      (λ t.
        ap (λ r. info d ∷ list_slots r ds) (if_true _ _ t)
        ∙ ap (λ xs. info d ∷ xs) (list_slots-live room ds)
        ∙ sym (ap (λ xs. take (suc room) (map info xs)) (if_true _ _ t)))
      (λ f.
        ap (λ r. list_slots r ds) (if_false _ _ f)
        ∙ list_slots-live (suc room) ds
        ∙ sym (ap (λ xs. take (suc room) (map info xs)) (if_false _ _ f)))

-- What a listing of `path` gives; `sector` is what the uninitialised sector buffer holds, which is
-- listed for a directory with a cluster, whatever that has for entries.
pub data Lists (s : FsState) (sector : List Dirent) (path : List ℕ) (room : ℕ)
    : Status × List Info → Type 0 where
  root_listed :
      is_root path ≡ true
      → Lists s sector path room (success, take room (map info (live s.root_dir)))
  missing :
      is_root path ≡ false
      → (find_directory_entry s path).1 ≡ none
      → Lists s sector path room (not_found, [])
  not_listable :
      (d : Dirent)
      → is_root path ≡ false
      → (find_directory_entry s path).1 ≡ some d
      → is_directory d ≡ false
      → Lists s sector path room (access_denied, [])
  without_cluster :
      (d : Dirent)
      → is_root path ≡ false
      → (find_directory_entry s path).1 ≡ some d
      → is_directory d ≡ true
      → d.cluster ≡ 0
      → Lists s sector path room (success, [])
  uninitialised :
      (d : Dirent)
      → is_root path ≡ false
      → (find_directory_entry s path).1 ≡ some d
      → is_directory d ≡ true
      → d.cluster ≢ 0
      → Lists s sector path room (success, take room (map info (live (take 14 (drop 2 sector)))))

list_found-Lists :
    (s : FsState) (sector : List Dirent) (path : List ℕ) (room : ℕ) (o : Option Dirent)
    → is_root path ≡ false
    → (find_directory_entry s path).1 ≡ o
    → Lists s sector path room (list_found sector room o)
unfolding list_found
list_found-Lists s sector path room none r e = missing r e
list_found-Lists s sector path room (some d) r e =
    if_cases (Lists s sector path room) (not (is_directory d)) _ _
      (λ t. not_listable d r e (ground (arith, t)))
      (λ t.
        if_cases (Lists s sector path room) (d.cluster == 0) _ _
          (λ z. without_cluster d r e (ground (arith, t)) (ground (arith, z)))
          (λ z.
            subst (λ xs. Lists s sector path room (success, xs))
              (sym (list_slots-live room (take 14 (drop 2 sector))))
              (uninitialised d r e (ground (arith, t)) (ground (arith, z)))))

-- On a mounted volume `fs_listdir` lists, for `/` and the empty path, the slots of the root directory
-- that are in use, in their order and up to the number asked for. For the path of a directory with a
-- cluster it reads nothing of the directory: it lists what the slots 2 to 15 of its uninitialised
-- sector buffer happen to hold, the used ones, in their order and up to the number asked for. It
-- gives FS_ERROR_NOT_FOUND for a path without an entry, FS_ERROR_ACCESS_DENIED for that of a file,
-- and no entries for that of a directory without a cluster.
pub fs_listdir-Lists :
    (s : FsState) (sector : List Dirent) (path : List ℕ) (room : ℕ)
    → s.initialized ≡ true
    → Lists s sector path room (fs_listdir s sector path room)
unfolding fs_listdir
fs_listdir-Lists s sector path room init =
    if_cases (Lists s sector path room) (not s.initialized) _ _
      (λ t. absurd (ground (arith, t, init)))
      (λ t.
        if_cases (Lists s sector path room) (is_root path) _ _
          (λ r.
            subst (λ xs. Lists s sector path room (success, xs))
              (sym (list_slots-live room s.root_dir)) (root_listed r))
          (λ r. list_found-Lists s sector path room (find_directory_entry s path).1 r refl))
