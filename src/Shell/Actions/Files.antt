-- ===== src/Shell/Actions/Files.antt =====
-- The commands of kernel/kernel.c on files and directories.
use pxos.Base.{
  ℕ, Bool, false, ◌&&◌, ◌||◌, Option, none, some, List, [], ◌∷◌, ◌++◌, codes, if◌then◌else◌,
}
use pxos.Str.{strcmp}
use pxos.Fs.State.{Status, is_success, FsState}
use pxos.Fs.Names.{is_zero}
use pxos.Fs.Files.{fs_create, fs_delete, fs_rmdir}
use pxos.Fs.Manage.{fs_mkdir, fs_chdir, fs_get_cwd}
use pxos.Fs.Listing.{FileType, directory, Info, fs_listdir}
use pxos.Syscall.{Machine}
use pxos.Shell.{
  State, Call, text, hex, Outcome, print_success, print_error, print_warning, print_info,
}
use pxos.Shell.Actions.{put_fs}

-- `strcpy(full_path, "/")` and `strcat`
abbrev pub full_path : List ℕ → List ℕ
full_path name = codes "/" ++ name

-- The message for a status.
abbrev pub report : List ℕ → List ℕ → Status → List Call
report ok failed st = if is_success st then print_success ok else print_error failed

abbrev pub reported : State → List ℕ → List ℕ → Option (Status × FsState) → Outcome
reported s ok failed none = none
reported s ok failed (some (st, fs)) = some (put_fs s fs, report ok failed st)

-- `shell_touch`
unfoldable pub shell_touch : Machine → State → List (List ℕ) → Outcome
shell_touch c s (name ∷ filename ∷ args) =
    reported s (codes "File created successfully\n") (codes "Failed to create file\n")
      (fs_create c.release_fuel c.directory_sector s.kernel.fs (full_path filename))
shell_touch c s _ = some (s, text (codes "Usage: touch <filename>\n") ∷ [])

-- `shell_rm`
unfoldable pub shell_rm : Machine → State → List (List ℕ) → Outcome
shell_rm c s (name ∷ filename ∷ args) =
    reported s (codes "File deleted successfully\n") (codes "Failed to delete file\n")
      (fs_delete c.release_fuel s.kernel.fs (full_path filename))
shell_rm c s _ = some (s, text (codes "Usage: rm <filename>\n") ∷ [])

-- `shell_mkdir`
unfoldable pub shell_mkdir : Machine → State → List (List ℕ) → Outcome
shell_mkdir c s (name ∷ dirname ∷ args) =
    reported s (codes "Directory created successfully\n") (codes "Failed to create directory\n")
      (fs_mkdir c.release_fuel s.kernel.fs (full_path dirname))
shell_mkdir c s _ = some (s, text (codes "Usage: mkdir <dirname>\n") ∷ [])

-- `shell_rmdir`
unfoldable pub shell_rmdir : Machine → State → List (List ℕ) → Outcome
shell_rmdir c s (name ∷ dirname ∷ args) =
    reported s (codes "Directory removed successfully\n") (codes "Failed to remove directory\n")
      (fs_rmdir c.release_fuel s.kernel.fs (full_path dirname))
shell_rmdir c s _ = some (s, text (codes "Usage: rmdir <dirname>\n") ∷ [])

-- Whether the current directory is shown as `/`.
abbrev pub at_root : Status × Option (List ℕ) → Bool
at_root (st, none) = false
at_root (st, some cwd) = is_zero (strcmp cwd (codes "/"))

-- The path of `shell_cd`.
abbrev pub cd_path : List ℕ → List ℕ
cd_path dirname =
    if is_zero (strcmp dirname (codes ".."))
      || is_zero (strcmp dirname (codes "."))
      || is_zero (strcmp dirname (codes "/"))
    then dirname
    else full_path dirname

-- `shell_cd`
unfoldable pub shell_cd : State → List (List ℕ) → Outcome
shell_cd s (name ∷ dirname ∷ args) =
    if is_zero (strcmp dirname (codes "..")) && at_root (fs_get_cwd s.kernel.fs 256)
    then some (s, print_warning (codes "Already at root directory.\n"))
    else reported s (codes "Changed directory successfully\n")
        (codes "Failed to change directory\n") (some (fs_chdir s.kernel.fs (cd_path dirname)))
shell_cd s _ = some (s, text (codes "Usage: cd <dirname>\n") ∷ [])

abbrev pub type_label : FileType → List ℕ
type_label directory = codes "DIR\t\t"
type_label _ = codes "FILE\t\t"

-- The loop of `shell_ls`.
unfoldable pub listing_lines : List Info → List Call
listing_lines [] = []
listing_lines (i ∷ is) =
    text i.name
    ∷ text (codes "\t\t")
    ∷ text (type_label i.file_type)
    ∷ hex i.size
    ∷ text (codes "\n")
    ∷ listing_lines is

-- `shell_ls` with the result of `fs_listdir`.
unfoldable pub listing : Status × List Info → List Call
listing (st, entries) =
    if is_success st
    then print_info (codes "Directory listing:\n")
      ++ print_info (codes "Name\t\tType\t\tSize\n")
      ++ print_info (codes "----------------------------------------\n")
      ++ listing_lines entries
    else print_error (codes "Failed to list directory\n")

-- `shell_ls` with the result of `fs_get_cwd`, which is not looked at: where it fails, the path that
-- is listed has not been written.
unfoldable pub list_directory : Machine → State → Status × Option (List ℕ) → Outcome
list_directory c s (st, none) = none
list_directory c s (st, some path) =
    some (s, listing (fs_listdir s.kernel.fs c.directory_sector path 32))

-- `shell_ls`
unfoldable pub shell_ls : Machine → State → Outcome
shell_ls c s = list_directory c s (fs_get_cwd s.kernel.fs 256)
