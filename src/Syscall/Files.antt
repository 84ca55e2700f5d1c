-- ===== src/Syscall/Files.antt =====
-- The system calls of kernel/syscall.c on open files. A file descriptor is the address of a handle;
-- `sys_open` returns that of its own local variable.
use pxos.Base.{ℕ, ◌%◌, ◌||◌, Option, none, some, List, ltb, ◌==◌, if◌then◌else◌}
use pxos.Base.Int.{pos, ltb_ℤ}
use pxos.Fs.State.{Status, success, is_success, FsState}
use pxos.Fs.Files.{File, Opened, fs_open, fs_close, fs_seek, fs_tell}
use pxos.Fs.Transfer.{bytes, failed, ReadResult, WriteResult, fs_read, fs_write}
use pxos.Syscall.{
  Kernel, Machine, Result, syscall_success, syscall_error, int32, user_path, store_bytes,
}

-- The handle at an address.
abbrev pub set_file : (ℕ → File) → ℕ → File → ℕ → File
set_file files fd f j = if j == fd then f else files j

abbrev pub with_fs : Kernel → FsState → Kernel
with_fs k s = record k { fs = s }

-- What `sys_open` makes of the result of `fs_open`.
abbrev pub opened : Machine → Kernel → Option Opened → Result
opened c k none = none
opened c k (some (success, s, some f)) =
    some (int32 c.open_frame, record k { fs = s; files = set_file k.files c.open_frame f })
opened c k (some (_, s, _)) = some (syscall_error, with_fs k s)

unfoldable pub open_path : Machine → Kernel → ℕ → Option (List ℕ) → Result
open_path c k flags none = some (syscall_error, k)
open_path c k flags (some path) =
    opened c k (fs_open c.release_fuel c.directory_sector k.fs path (flags % 256))

-- `sys_open`; the flags become a byte.
unfoldable pub sys_open : Machine → ℕ → ℕ → ℕ → ℕ → ℕ → Kernel → Result
sys_open c path_ptr flags mode a4 a5 k = open_path c k flags (user_path k path_ptr)

-- A status and a handle, of which the status is only tested for FS_SUCCESS.
abbrev pub handle_result : Kernel → ℕ → Status × File → Result
handle_result k fd (st, f) = some (
  (if is_success st then syscall_success else syscall_error),
  record k { files = set_file k.files fd f },
)

-- `sys_close`
unfoldable pub sys_close : Machine → ℕ → ℕ → ℕ → ℕ → ℕ → Kernel → Result
sys_close c fd a2 a3 a4 a5 k =
    if fd == 0 then some (syscall_error, k) else handle_result k fd (fs_close (k.files fd))

-- `sizeof(kernel_buf)` bounds what one call moves.
abbrev pub at_most_1024 : ℕ → ℕ
at_most_1024 count = if ltb 1024 count then 1024 else count

-- What `sys_read` makes of the result of `fs_read`: the bytes go to the user's buffer.
abbrev pub read_result : Kernel → ℕ → ℕ → Option ReadResult → Result
read_result k fd buf_ptr none = none
read_result k fd buf_ptr (some (failed st, f, buf)) =
    some (syscall_error, record k { files = set_file k.files fd f })
read_result k fd buf_ptr (some (bytes n, f, buf)) =
    some
      (pos n, record k { files = set_file k.files fd f; bytes = store_bytes k.bytes buf_ptr buf })

-- `sys_read`
unfoldable pub sys_read : Machine → ℕ → ℕ → ℕ → ℕ → ℕ → Kernel → Result
sys_read c fd buf_ptr count a4 a5 k =
    if fd == 0 || buf_ptr == 0
    then some (syscall_error, k)
    else read_result k fd buf_ptr (fs_read k.fs c.sector_bytes (k.files fd) (at_most_1024 count))

abbrev pub write_result : Kernel → ℕ → Option WriteResult → Result
write_result k fd none = none
write_result k fd (some (failed st, f, s)) =
    some (syscall_error, record k { files = set_file k.files fd f; fs = s })
write_result k fd (some (bytes n, f, s)) =
    some (pos n, record k { files = set_file k.files fd f; fs = s })

-- `sys_write`; what the bytes are does not matter, since no sector is written.
unfoldable pub sys_write : Machine → ℕ → ℕ → ℕ → ℕ → ℕ → Kernel → Result
sys_write c fd buf_ptr count a4 a5 k =
    if fd == 0 || buf_ptr == 0
    then some (syscall_error, k)
    else write_result k fd (fs_write c.release_fuel k.fs (k.files fd) (at_most_1024 count))

-- `sys_seek`
unfoldable pub sys_seek : Machine → ℕ → ℕ → ℕ → ℕ → ℕ → Kernel → Result
sys_seek c fd offset whence a4 a5 k =
    if fd == 0
    then some (syscall_error, k)
    else handle_result k fd (fs_seek (k.files fd) offset whence)

-- `sys_tell`
unfoldable pub sys_tell : Machine → ℕ → ℕ → ℕ → ℕ → ℕ → Kernel → Result
sys_tell c fd a2 a3 a4 a5 k =
    if fd == 0
    then some (syscall_error, k)
    else let place = fs_tell (k.files fd) in
      some ((if ltb_ℤ place (pos 0) then syscall_error else place), k)
