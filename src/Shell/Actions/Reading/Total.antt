-- ===== src/Shell/Actions/Reading/Total.antt =====
-- The loop of `shell_cat` in kernel/kernel.c ends.
use mathlib.Core.Path.{subst}
use pxos.Base.{
  ℕ, zero, suc, ◌+◌, ◌-◌, ◌^◌, ◌≡◌, ◌≤◌, ◌<◌, arith, true, Option, none, some, List, [], ◌∷◌, take,
  length, length-take, min, ltb, if_cases,
}
use pxos.Fs.State.{FsState}
use pxos.Fs.Files.{File, mode_read}
use pxos.Fs.Transfer.{bytes, ReadResult}
use pxos.Fs.Transfer.Read.{moved, Reads, all, ended, unreadable, Returns, returns, fs_read-Reads}
use pxos.Syscall.{Machine}
use pxos.Shell.{Call, text}
use pxos.Shell.Actions.Reading.{sector_junk, show_piece, cat_loop}

abbrev pub total_length : List (List ℕ) → ℕ
total_length [] = 0
total_length (s ∷ ss) = length s + total_length ss

abbrev pub texts : List (List ℕ) → List Call
texts [] = []
texts (s ∷ ss) = text s ∷ texts ss

-- Texts are shown, of `room` bytes at most.
pub data Shows (room : ℕ) : Option (List Call) → Type 0 where
  shows : (pieces : List (List ℕ)) → total_length pieces ≤ room → Shows room (some (texts pieces))

piece_shown :
    (n room : ℕ) (buf : List ℕ) (x : Option (List Call))
    → n ≤ room
    → Shows (room - n) x
    → Shows room (elim x [ none ↦ none | some calls ↦ some (text (take n buf) ∷ calls) ])
piece_shown n room buf _ h (shows pieces le) =
    shows (take n buf ∷ pieces) (omega (arith, length-take n buf, le, h))

-- The later rounds show no more than what is left behind `n` more bytes.
abbrev LaterShows : File → (File → Option (List Call)) → Type 0
LaterShows f again =
    (n : ℕ) → 0 < n → n ≤ f.size - f.offset → Shows (f.size - f.offset - n) (again (moved f n))

counted-Shows :
    (f : File) (again : File → Option (List Call)) (n : ℕ) (buf : List ℕ)
    → n ≤ f.size - f.offset
    → LaterShows f again
    → Shows (f.size - f.offset) (show_piece again (some (bytes n, moved f n, buf)))
counted-Shows f again n buf h later =
    if_cases (Shows (f.size - f.offset)) (ltb 0 n) _ _
      (λ t.
        piece_shown n (f.size - f.offset) buf (again (moved f n)) h (later n (ground (arith, t)) h))
      (λ t. shows [] (omega arith))

show_piece-Shows :
    (s : FsState) (f : File) (again : File → Option (List Call)) (total : ℕ) (x : Option ReadResult)
    → Returns (Reads s f total) x
    → total ≤ f.size - f.offset
    → LaterShows f again
    → Shows (f.size - f.offset) (show_piece again x)
show_piece-Shows s f again total _ (returns _ (all buf c e w)) h later =
    counted-Shows f again total buf h later
show_piece-Shows s f again total _ (returns _ (ended buf c le a ok end)) h later =
    counted-Shows f again (length buf) buf (omega (arith, le, h)) later
show_piece-Shows s f again total _ (returns _ (unreadable buf c le a bad)) h later =
    shows [] (omega arith)

-- With a handle that is open for reading at a place in a file of fewer than 2 ^ 32 - 255 bytes, the
-- loop of `shell_cat` ends, in no more rounds than one more than the bytes that are left of the
-- file, and shows texts of no more bytes than those.
pub cat_loop-Shows :
    (fuel : ℕ) (c : Machine) (s : FsState) (f : File)
    → f.valid ≡ true
    → mode_read f.mode ≡ true
    → f.size + 255 < 2 ^ 32
    → f.offset ≤ f.size
    → f.size - f.offset < fuel
    → Shows (f.size - f.offset) (cat_loop fuel c s f)
unfolding cat_loop
cat_loop-Shows zero c s f v m small at enough = absurd (omega (arith, enough))
cat_loop-Shows (suc fuel) c s f v m small at enough =
    show_piece-Shows s f (cat_loop fuel c s) (min 255 (f.size - f.offset)) _
      (fs_read-Reads s (sector_junk c f) f 255 v m (omega (arith, small, at))) (ground arith)
      (λ n pos le.
        let left : f.size - (f.offset + n) ≡ f.size - f.offset - n = omega arith in
        subst (λ room. Shows room (cat_loop fuel c s (moved f n))) left
          (cat_loop-Shows fuel c s (moved f n) v m small (omega (arith, at, le))
            (omega (arith, enough, pos, at, le))))
