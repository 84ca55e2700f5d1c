-- ===== src/Syscall/Init.antt =====
-- `syscall_init` of kernel/syscall.c. The gate of vector 0x80 that it sets is in
-- Boot.
use pxos.Base.{ℕ, none, some, List, [], ◌∷◌, codes}
use pxos.Syscall.{Handler, Machine, Entry, Table, syscall_register}
use pxos.Syscall.Processes.{
  sys_exit, sys_fork, sys_exec, sys_wait, sys_getpid, sys_getppid, sys_kill, sys_yield, sys_ps,
  sys_setpriority, sys_getinfo,
}
use pxos.Syscall.Files.{sys_open, sys_close, sys_read, sys_write, sys_seek, sys_tell}
use pxos.Syscall.Directories.{
  sys_create, sys_delete, sys_rename, sys_mkdir, sys_rmdir, sys_chdir, sys_getcwd, sys_listdir,
}
use pxos.Syscall.Memory.{sys_malloc, sys_free, sys_mmap, sys_munmap}

abbrev entry : Handler → List ℕ → List ℕ → Entry
entry h name description = record { handler = h; name = name; description = description }

-- The calls of `syscall_register`, in their order.
abbrev pub registrations : Machine → List (ℕ × Entry)
registrations c =
    (1, entry (sys_exit c) (codes "exit") (codes "Terminate current process"))
    ∷ (2, entry (sys_fork c) (codes "fork") (codes "Create new process"))
    ∷ (3, entry (sys_exec c) (codes "exec") (codes "Execute program"))
    ∷ (4, entry (sys_wait c) (codes "wait") (codes "Wait for child process"))
    ∷ (5, entry (sys_getpid c) (codes "getpid") (codes "Get process ID"))
    ∷ (6, entry (sys_getppid c) (codes "getppid") (codes "Get parent process ID"))
    ∷ (7, entry (sys_kill c) (codes "kill") (codes "Send signal to process"))
    ∷ (8, entry (sys_yield c) (codes "yield") (codes "Yield CPU to other process"))
    ∷ (10, entry (sys_open c) (codes "open") (codes "Open file"))
    ∷ (11, entry (sys_close c) (codes "close") (codes "Close file"))
    ∷ (12, entry (sys_read c) (codes "read") (codes "Read from file"))
    ∷ (13, entry (sys_write c) (codes "write") (codes "Write to file"))
    ∷ (14, entry (sys_seek c) (codes "seek") (codes "Seek file position"))
    ∷ (15, entry (sys_tell c) (codes "tell") (codes "Get file position"))
    ∷ (16, entry (sys_create c) (codes "create") (codes "Create file"))
    ∷ (17, entry (sys_delete c) (codes "delete") (codes "Delete file"))
    ∷ (18, entry (sys_rename c) (codes "rename") (codes "Rename file"))
    ∷ (19, entry (sys_mkdir c) (codes "mkdir") (codes "Create directory"))
    ∷ (20, entry (sys_rmdir c) (codes "rmdir") (codes "Remove directory"))
    ∷ (21, entry (sys_chdir c) (codes "chdir") (codes "Change directory"))
    ∷ (22, entry (sys_getcwd c) (codes "getcwd") (codes "Get current directory"))
    ∷ (23, entry (sys_listdir c) (codes "listdir") (codes "List directory contents"))
    ∷ (30, entry (sys_malloc c) (codes "malloc") (codes "Allocate memory"))
    ∷ (31, entry (sys_free c) (codes "free") (codes "Free memory"))
    ∷ (32, entry (sys_mmap c) (codes "mmap") (codes "Map memory"))
    ∷ (33, entry (sys_munmap c) (codes "munmap") (codes "Unmap memory"))
    ∷ (40, entry (sys_ps c) (codes "ps") (codes "List processes"))
    ∷ (41, entry (sys_setpriority c) (codes "setpriority") (codes "Set process priority"))
    ∷ (42, entry (sys_getinfo c) (codes "getinfo") (codes "Get system information"))
    ∷ []

-- Registrations made one after the other; the results are not looked at.
unfoldable pub register_all : Table → List (ℕ × Entry) → Table
register_all t [] = t
register_all t ((n, e) ∷ rs) = register_all (syscall_register t n (some e)).1 rs

-- `syscall_init`: the table is cleared first.
unfoldable pub syscall_init : Machine → Table → Table
syscall_init c t =
    register_all (record t { syscall_table = λ j. none; syscall_count = 0 }) (registrations c)
