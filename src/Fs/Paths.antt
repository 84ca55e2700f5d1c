-- ===== src/Fs/Paths.antt =====
-- `parse_path` and `join_path` of fs/filesystem.c, with what goes through their out parameters as
-- strings without the NUL.
pub mod RoundTrip
use pxos.Base.{
  ℕ, suc, ◌-◌, ◌*◌, true, false, not, ◌&&◌, Option, none, some, List, [], ◌∷◌, ◌++◌, take, drop,
  get_or, ltb, leb, ◌==◌, if◌then◌else◌,
}
use pxos.Str.{strlen, strrchr, text}
use pxos.Fs.State.{Status, success, invalid_path, FsState}
use pxos.Fs.Manage.{fs_chdir}

-- `parse_path` on where `strrchr` found the last `/`.
unfoldable pub parse_at : List ℕ → Option ℕ → Option (List ℕ × List ℕ)
parse_at path none = none
parse_at path (some i) = if leb 256 i then none else some (take i path, text (drop (suc i) path))

-- `parse_path`: the directory and the file name; `none` is FS_ERROR_INVALID_PATH.
unfoldable pub parse_path : List ℕ → Option (List ℕ × List ℕ)
parse_path path = parse_at path (strrchr path b'/')

-- `join_path`: what `result` holds.
unfoldable pub join_path : List ℕ → List ℕ → List ℕ
join_path dir filename =
    let d = text dir in
    if ltb 0 (strlen d) && not (get_or d (strlen d - 1) 0 == b'/')
    then d ++ b'/' ∷ text filename
    else d ++ text filename

-- `fs_set_cwd`
unfoldable pub fs_set_cwd : FsState → List ℕ → Status × FsState
fs_set_cwd s path = fs_chdir s path
