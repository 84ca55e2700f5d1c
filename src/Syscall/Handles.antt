-- ===== src/Syscall/Handles.antt =====
-- File descriptors of kernel/syscall.c: `sys_open` returns the address of its local variable.
use mathlib.Core.Path.{subst}
use pxos.Base.{
  ℕ, ◌%◌, ◌≡◌, ◌≢◌, refl, sym, ◌∙◌, arith, Option, none, some, List, ◌==◌, if_true, if_false,
}
use pxos.Base.Int.{ℤ}
use pxos.Fs.State.{success, FsState}
use pxos.Fs.Files.{File, Opened, fs_open}
use pxos.Syscall.{Kernel, Machine, Result, syscall_error, int32, user_path}
use pxos.Syscall.Files.{opened, open_path, sys_open}

-- The handle that `fs_open` gives for the path and the flags of a call stands at the address of
-- `sys_open`'s local variable, which is the descriptor.
pub record Holds (c : Machine) (k : Kernel) (path_ptr flags : ℕ) (r : ℤ) (k' : Kernel)
    : Type 0 where
  pub path : List ℕ
  pub handle : File
  pub volume : FsState
  pub named : user_path k path_ptr ≡ some path
  pub opens :
      fs_open c.release_fuel c.directory_sector k.fs path (flags % 256)
      ≡ some (success, volume, some handle)
  pub descriptor : r ≡ int32 c.open_frame
  pub held : k'.files c.open_frame ≡ handle
  pub others : (fd : ℕ) → fd ≢ c.open_frame → k'.files fd ≡ k.files fd

-- A call that returns a descriptor.
Opens : Machine → Kernel → ℕ → ℕ → Result → Type 0
Opens c k path_ptr flags none = Unit {0}
Opens c k path_ptr flags (some (r, k')) = r ≢ syscall_error → Holds c k path_ptr flags r k'

opened-Opens :
    (c : Machine) (k : Kernel) (path_ptr flags : ℕ) (path : List ℕ) (o : Option Opened)
    → user_path k path_ptr ≡ some path
    → fs_open c.release_fuel c.directory_sector k.fs path (flags % 256) ≡ o
    → Opens c k path_ptr flags (opened c k o)
unfolding Opens
opened-Opens c k path_ptr flags path none n e = tt
opened-Opens c k path_ptr flags path (some (success, s, some f)) n e = λ ok. record {
  path = path;
  handle = f;
  volume = s;
  named = n;
  opens = e;
  descriptor = refl;
  held = if_true {b = c.open_frame == c.open_frame} _ _ (ground arith);
  others = λ fd ne. if_false {b = fd == c.open_frame} _ _ (ground (arith, ne));
}
opened-Opens c k path_ptr flags path (some (success, s, none)) n e = λ ok. absurd (ok refl)
opened-Opens c k path_ptr flags path (some (st, s, f)) n e = λ ok. absurd (ok refl)

open_path-Opens :
    (c : Machine) (k : Kernel) (path_ptr flags : ℕ) (path : Option (List ℕ))
    → user_path k path_ptr ≡ path
    → Opens c k path_ptr flags (open_path c k flags path)
unfolding Opens open_path
open_path-Opens c k path_ptr flags none n = λ ok. absurd (ok refl)
open_path-Opens c k path_ptr flags (some path) n = opened-Opens c k path_ptr flags path _ n refl

sys_open-Holds :
    (c : Machine) (k k' : Kernel) (path_ptr flags mode : ℕ) (r : ℤ)
    → sys_open c path_ptr flags mode 0 0 k ≡ some (r, k')
    → r ≢ syscall_error
    → Holds c k path_ptr flags r k'
unfolding Opens sys_open
sys_open-Holds c k k' path_ptr flags mode r e =
    subst (Opens c k path_ptr flags) e
      (open_path-Opens c k path_ptr flags (user_path k path_ptr) refl)

-- Two calls of `sys_open` from frames at the same place that both succeed return the same descriptor,
-- the address of the local variable, for whatever two files. Behind the first call the handle that
-- `fs_open` gives for the first path stands there, behind the second that for the second path, in
-- its place; the handles at all other addresses stay as they are.
pub sys_open_twice :
    (c : Machine) (k k1 k2 : Kernel) (path1 path2 flags1 flags2 mode1 mode2 : ℕ) (fd1 fd2 : ℤ)
    → sys_open c path1 flags1 mode1 0 0 k ≡ some (fd1, k1)
    → sys_open c path2 flags2 mode2 0 0 k1 ≡ some (fd2, k2)
    → fd1 ≢ syscall_error
    → fd2 ≢ syscall_error
    → (fd1 ≡ fd2)
      × Holds c k path1 flags1 fd1 k1
      × Holds c k1 path2 flags2 fd2 k2
      × ((fd : ℕ) → fd ≢ c.open_frame → k2.files fd ≡ k.files fd)
sys_open_twice c k k1 k2 path1 path2 flags1 flags2 mode1 mode2 fd1 fd2 e1 e2 ok1 ok2 =
    let one = sys_open-Holds c k k1 path1 flags1 mode1 fd1 e1 ok1 in
    let two = sys_open-Holds c k1 k2 path2 flags2 mode2 fd2 e2 ok2 in
    (one.descriptor ∙ sym two.descriptor, one, two, λ fd ne. two.others fd ne ∙ one.others fd ne)
