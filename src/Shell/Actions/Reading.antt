-- ===== src/Shell/Actions/Reading.antt =====
-- `shell_cat` of kernel/kernel.c.
pub mod Total
use pxos.Base.{
  ℕ, zero, suc, ◌+◌, Option, none, some, List, [], ◌∷◌, ◌++◌, codes, take, ltb, if◌then◌else◌,
}
use pxos.Fs.State.{Status, success, not_found, Dirent, FsState}
use pxos.Fs.Files.{File, Opened, fs_open}
use pxos.Fs.Transfer.{bytes, failed, ReadResult, fs_read}
use pxos.Syscall.{Machine}
use pxos.Shell.{State, Call, text, Outcome, print_error}
use pxos.Shell.Actions.{put_fs}
use pxos.Shell.Actions.Files.{full_path}

-- What the sector buffers hold during one call of `fs_read`: something else at every place of the
-- file.
abbrev pub sector_junk : Machine → File → ℕ → ℕ → ℕ
sector_junk c f done = c.sector_bytes (f.offset + done)

-- The body of the loop, with the result of `fs_read` and the later rounds.
abbrev pub show_piece : (File → Option (List Call)) → Option ReadResult → Option (List Call)
show_piece again none = none
show_piece again (some (failed st, f, buf)) = some []
show_piece again (some (bytes n, f, buf)) =
    if ltb 0 n
    then elim (again f) [ none ↦ none | some calls ↦ some (text (take n buf) ∷ calls) ]
    else some []

-- The loop: the texts that it shows. `none`: `fuel` rounds are not enough, or `fs_read` does not
-- return.
unfoldable pub cat_loop : ℕ → Machine → FsState → File → Option (List Call)
cat_loop zero c s f = none
cat_loop (suc fuel) c s f = show_piece (cat_loop fuel c s) (fs_read s (sector_junk c f) f 255)

abbrev pub cat_shown : State → FsState → Option (List Call) → Outcome
cat_shown s fs none = none
cat_shown s fs (some calls) = some (put_fs s fs, calls)

-- The file that was opened. A round moves the handle by at least one byte, so that a round more than
-- the bytes of the file is enough. `fs_close` changes only the handle. `fs_open`
-- shows a text itself when there is no file.
abbrev pub cat_opened : Machine → State → Option Opened → Outcome
cat_opened c s none = none
cat_opened c s (some (success, fs, some f)) = cat_shown s fs (cat_loop (f.size + 1) c fs f)
cat_opened c s (some (not_found, fs, f)) = some (
  put_fs s fs,
  text (codes "fs_open: file not found and not creating\n")
      ∷ print_error (codes "Failed to open file\n"),
)
cat_opened c s (some (st, fs, f)) = some (put_fs s fs, print_error (codes "Failed to open file\n"))

-- `shell_cat`; FS_MODE_READ is 1.
unfoldable pub shell_cat : Machine → State → List (List ℕ) → Outcome
shell_cat c s (name ∷ filename ∷ args) =
    cat_opened c s (fs_open c.release_fuel c.directory_sector s.kernel.fs (full_path filename) 1)
shell_cat c s _ = some (s, text (codes "Usage: cat <filename>\n") ∷ [])
