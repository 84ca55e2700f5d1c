-- ===== src/Fs/Files/Seek.antt =====
-- The position of a handle: `fs_seek`, `fs_tell` and `fs_close`.
use pxos.Base.{
  ℕ, ◌^◌, ◌≡◌, ◌≤◌, ◌<◌, refl, arith, true, false, not, Option, none, some, if_cases, ltb,
}
use pxos.Base.Int.{pos, negsuc}
use pxos.Fs.State.{Status, success, io_error}
use pxos.Fs.Files.{File, seek_target, seek_to, fs_seek, fs_tell, fs_close}

-- What a seek does: it fails on a closed handle, an unknown `whence` or a target past the end of
-- the file, and changes nothing; otherwise it moves to the target.
pub data Seeks (f : File) (offset whence : ℕ) : Status × File → Type 0 where
  closed : f.valid ≡ false → Seeks f offset whence (io_error, f)
  no_target : seek_target f offset whence ≡ none → Seeks f offset whence (io_error, f)
  past_end :
      (o : ℕ)
      → seek_target f offset whence ≡ some o
      → f.size < o
      → Seeks f offset whence (io_error, f)
  moved :
      (o : ℕ)
      → f.valid ≡ true
      → seek_target f offset whence ≡ some o
      → o ≤ f.size
      → Seeks f offset whence (success, record f { offset = o })

seek_to-Seeks :
    (f : File) (offset whence : ℕ) (t : Option ℕ)
    → f.valid ≡ true
    → seek_target f offset whence ≡ t
    → Seeks f offset whence (seek_to f t)
unfolding seek_to
seek_to-Seeks f offset whence none v e = no_target e
seek_to-Seeks f offset whence (some o) v e =
    if_cases (Seeks f offset whence) (ltb f.size o) _ _ (λ h. past_end o e (ground arith))
      (λ h. moved o v e (ground arith))

-- Every call of `fs_seek` does one of four things: it fails and changes nothing on a closed handle,
-- on an unknown `whence`, or on a target past the end of the file; or the handle is open, the
-- target is not past the end, and it succeeds and moves to the target.
pub fs_seek-Seeks : (f : File) (offset whence : ℕ) → Seeks f offset whence (fs_seek f offset whence)
unfolding fs_seek
fs_seek-Seeks f offset whence =
    if_cases (Seeks f offset whence) (not f.valid) _ _ (λ h. closed (ground arith))
      (λ h. seek_to-Seeks f offset whence (seek_target f offset whence) (ground arith) refl)

-- On a file smaller than 2 GB, `fs_tell` after a successful absolute seek gives the offset asked
-- for, and after `fs_close` it gives -1.
pub fs_tell-fs_seek :
    (f : File) (offset : ℕ)
    → f.valid ≡ true
    → offset ≤ f.size
    → f.size < 2 ^ 31
    → (let (st, f') = fs_seek f offset 0 in (st ≡ success) × (fs_tell f' ≡ pos offset))
      × (fs_tell (fs_close (fs_seek f offset 0).1).1 ≡ negsuc 0)
unfolding fs_seek seek_to fs_tell fs_close
fs_tell-fs_seek f offset v h small = (ground arith, ground arith)
