-- ===== src/Syscall/Directories.antt =====
-- The system calls of kernel/syscall.c on paths and directories.
use pxos.Base.{
  ℕ, ◌+◌, ◌||◌, Option, none, some, List, [], ◌∷◌, ◌++◌, length, take, leb, ◌==◌, if◌then◌else◌,
}
use pxos.Base.Int.{pos}
use pxos.Str.{strlen}
use pxos.Fs.State.{Status, success, is_success, FsState}
use pxos.Fs.Files.{fs_create, fs_delete, fs_rmdir}
use pxos.Fs.Manage.{fs_rename, fs_mkdir, fs_chdir, fs_get_cwd}
use pxos.Fs.Listing.{Info, fs_listdir}
use pxos.Syscall.{
  Kernel, Machine, Result, syscall_success, syscall_error, int32, user_path, store_bytes,
  store_word,
}
use pxos.Syscall.Files.{with_fs}

-- A status that is only tested for FS_SUCCESS.
abbrev pub status_result : Kernel → Option (Status × FsState) → Result
status_result k none = none
status_result k (some (st, s)) =
    some ((if is_success st then syscall_success else syscall_error), with_fs k s)

-- The handlers that copy one path and pass it on.
unfoldable pub on_path : Kernel → Option (List ℕ) → (List ℕ → Option (Status × FsState)) → Result
on_path k none call = some (syscall_error, k)
on_path k (some path) call = status_result k (call path)

-- `sys_create`
unfoldable pub sys_create : Machine → ℕ → ℕ → ℕ → ℕ → ℕ → Kernel → Result
sys_create c path_ptr mode a3 a4 a5 k =
    on_path k (user_path k path_ptr) (λ path. fs_create c.release_fuel c.directory_sector k.fs path)

-- `sys_delete`
unfoldable pub sys_delete : Machine → ℕ → ℕ → ℕ → ℕ → ℕ → Kernel → Result
sys_delete c path_ptr a2 a3 a4 a5 k =
    on_path k (user_path k path_ptr) (λ path. fs_delete c.release_fuel k.fs path)

-- `sys_mkdir`
unfoldable pub sys_mkdir : Machine → ℕ → ℕ → ℕ → ℕ → ℕ → Kernel → Result
sys_mkdir c path_ptr mode a3 a4 a5 k =
    on_path k (user_path k path_ptr) (λ path. fs_mkdir c.release_fuel k.fs path)

-- `sys_rmdir`
unfoldable pub sys_rmdir : Machine → ℕ → ℕ → ℕ → ℕ → ℕ → Kernel → Result
sys_rmdir c path_ptr a2 a3 a4 a5 k =
    on_path k (user_path k path_ptr) (λ path. fs_rmdir c.release_fuel k.fs path)

-- `sys_chdir`
unfoldable pub sys_chdir : Machine → ℕ → ℕ → ℕ → ℕ → ℕ → Kernel → Result
sys_chdir c path_ptr a2 a3 a4 a5 k =
    on_path k (user_path k path_ptr) (λ path. some (fs_chdir k.fs path))

-- `sys_rename` with the two paths that it copies.
unfoldable pub rename_paths : Kernel → Option (List ℕ) → Option (List ℕ) → Result
rename_paths k (some old_path) (some new_path) =
    status_result k (some (fs_rename k.fs old_path new_path))
rename_paths k (some old_path) none = some (syscall_error, k)
rename_paths k none new_path = some (syscall_error, k)

-- `sys_rename`
unfoldable pub sys_rename : Machine → ℕ → ℕ → ℕ → ℕ → ℕ → Kernel → Result
sys_rename c old_path_ptr new_path_ptr a3 a4 a5 k =
    rename_paths k (user_path k old_path_ptr) (user_path k new_path_ptr)

-- `sys_getcwd` with what `fs_get_cwd` gives.
unfoldable pub put_cwd : Kernel → ℕ → ℕ → Status × Option (List ℕ) → Result
put_cwd k buf_ptr size (success, some s) =
    if leb size (strlen s)
    then some (syscall_error, k)
    else some (pos (strlen s), record k { bytes = store_bytes k.bytes buf_ptr (s ++ 0 ∷ []) })
put_cwd k buf_ptr size (_, _) = some (syscall_error, k)

-- `sys_getcwd`
unfoldable pub sys_getcwd : Machine → ℕ → ℕ → ℕ → ℕ → ℕ → Kernel → Result
sys_getcwd c buf_ptr size a3 a4 a5 k =
    if buf_ptr == 0 || size == 0
    then some (syscall_error, k)
    else put_cwd k buf_ptr size (fs_get_cwd k.fs 256)

-- A loop that copies structures to the array at `p`, from place `i` on.
unfoldable pub store_infos : (ℕ → ℕ → Info) → ℕ → ℕ → List Info → ℕ → ℕ → Info
store_infos m p i [] = m
store_infos m p i (b ∷ bs) =
    store_infos (λ q j. if q == p then (if j == i then b else m q j) else m q j) p (i + 1) bs

-- `sys_listdir` with the entries that `fs_listdir` gives.
unfoldable pub put_entries : Kernel → ℕ → ℕ → ℕ → Status × List Info → Result
put_entries k entries_ptr max_entries count_ptr (success, es) =
    let copied = take max_entries es in
    some (
      int32 (length copied),
      record k {
        infos = store_infos k.infos entries_ptr 0 copied;
        bytes = store_word k.bytes count_ptr (length copied);
      },
    )
put_entries k entries_ptr max_entries count_ptr (_, es) = some (syscall_error, k)

unfoldable pub list_path : Machine → Kernel → ℕ → ℕ → ℕ → Option (List ℕ) → Result
list_path c k entries_ptr max_entries count_ptr none = some (syscall_error, k)
list_path c k entries_ptr max_entries count_ptr (some path) =
    put_entries k entries_ptr max_entries count_ptr (fs_listdir k.fs c.directory_sector path 32)

-- `sys_listdir`
unfoldable pub sys_listdir : Machine → ℕ → ℕ → ℕ → ℕ → ℕ → Kernel → Result
sys_listdir c path_ptr entries_ptr max_entries count_ptr a5 k =
    if entries_ptr == 0 || count_ptr == 0
    then some (syscall_error, k)
    else list_path c k entries_ptr max_entries count_ptr (user_path k path_ptr)
