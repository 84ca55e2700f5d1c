-- ===== src/Syscall/Processes.antt =====
-- The system calls of kernel/syscall.c on processes.
use pxos.Base.{
  ℕ, ◌+◌, ◌||◌, Option, none, some, List, [], ◌∷◌, codes, length, take, ltb, ◌==◌, if◌then◌else◌,
}
use pxos.Base.Int.{ℤ, pos, ltb_ℤ}
use pxos.Process.{Pcb, Manager, ProcessError, put, process_yield}
use pxos.Process.Life.{process_create, process_terminate, process_set_priority}
use pxos.Process.Listing.{process_get_list}
use pxos.Syscall.{Kernel, Machine, Result, syscall_success, syscall_error, int32, store_word}

-- A manager as part of the kernel's state.
abbrev pub with_processes : Kernel → Manager → Kernel
with_processes k m = record k { processes = m }

-- A result that is only tested for PROCESS_SUCCESS.
abbrev pub process_result : Kernel → Option (Option ProcessError × Manager) → Result
process_result k none = none
process_result k (some (none, m)) = some (syscall_success, with_processes k m)
process_result k (some (some e, m)) = some (syscall_error, with_processes k m)

abbrev pub ignore_error : Kernel → Option (Option ProcessError × Manager) → Result
ignore_error k none = none
ignore_error k (some (e, m)) = some (syscall_success, with_processes k m)

-- `sys_exit` with the current process.
unfoldable pub exit_process : Machine → Kernel → ℕ → Option ℕ → Result
exit_process c k exit_code none = some (syscall_success, k)
exit_process c k exit_code (some p) =
    let m = k.processes in
    let m' = record m { pool = put m.pool p (record (m.pool p) { exit_code = exit_code }) } in
    ignore_error k (process_terminate c.walk_fuel m' (m'.pool p).pid)

-- `sys_exit`
unfoldable pub sys_exit : Machine → ℕ → ℕ → ℕ → ℕ → ℕ → Kernel → Result
sys_exit c exit_code a2 a3 a4 a5 k = exit_process c k exit_code k.processes.running_process

-- The result of `process_create`: the pid, as an `int`, or an error code, which is negative.
abbrev pub created : Kernel → Option ProcessError × Option ℕ × Manager → Result
created k (none, some pid, m) =
    some ((if ltb_ℤ (int32 pid) (pos 0) then syscall_error else int32 pid), with_processes k m)
created k (_, _, m) = some (syscall_error, with_processes k m)

-- `sys_fork` with the current process.
unfoldable pub fork_process : Kernel → Option ℕ → Result
fork_process k none = some (syscall_error, k)
fork_process k (some p) =
    let b = k.processes.pool p in
    created k (process_create k.processes (codes "forked_process") b.eip b.priority)

-- `sys_fork`
unfoldable pub sys_fork : Machine → ℕ → ℕ → ℕ → ℕ → ℕ → Kernel → Result
sys_fork c a1 a2 a3 a4 a5 k = fork_process k k.processes.running_process

-- `sys_exec` and `sys_wait`, which are not implemented.
unfoldable pub sys_exec : Machine → ℕ → ℕ → ℕ → ℕ → ℕ → Kernel → Result
sys_exec c path_ptr argv_ptr envp_ptr a4 a5 k = some (syscall_error, k)

unfoldable pub sys_wait : Machine → ℕ → ℕ → ℕ → ℕ → ℕ → Kernel → Result
sys_wait c pid_ptr status_ptr options a4 a5 k = some (syscall_success, k)

abbrev pub pid_of : Kernel → Option ℕ → ℤ
pid_of k none = syscall_error
pid_of k (some p) = int32 (k.processes.pool p).pid

-- `sys_getpid`
unfoldable pub sys_getpid : Machine → ℕ → ℕ → ℕ → ℕ → ℕ → Kernel → Result
sys_getpid c a1 a2 a3 a4 a5 k = some (pid_of k k.processes.running_process, k)

abbrev pub parent_of : Kernel → Option ℕ → ℤ
parent_of k none = syscall_error
parent_of k (some p) = pid_of k (k.processes.pool p).parent

-- `sys_getppid`
unfoldable pub sys_getppid : Machine → ℕ → ℕ → ℕ → ℕ → ℕ → Kernel → Result
sys_getppid c a1 a2 a3 a4 a5 k = some (parent_of k k.processes.running_process, k)

-- `sys_kill`; `process_kill` is `process_terminate`.
unfoldable pub sys_kill : Machine → ℕ → ℕ → ℕ → ℕ → ℕ → Kernel → Result
sys_kill c pid signal a3 a4 a5 k = process_result k (process_terminate c.walk_fuel k.processes pid)

abbrev pub yielded : Kernel → Option Manager → Result
yielded k none = none
yielded k (some m) = some (syscall_success, with_processes k m)

-- `sys_yield`
unfoldable pub sys_yield : Machine → ℕ → ℕ → ℕ → ℕ → ℕ → Kernel → Result
sys_yield c a1 a2 a3 a4 a5 k = yielded k (process_yield c.walk_fuel k.processes)

-- A loop that copies structures to the array at `p`, from place `i` on.
unfoldable pub store_pcbs : (ℕ → ℕ → Pcb) → ℕ → ℕ → List Pcb → ℕ → ℕ → Pcb
store_pcbs m p i [] = m
store_pcbs m p i (b ∷ bs) =
    store_pcbs (λ q j. if q == p then (if j == i then b else m q j) else m q j) p (i + 1) bs

-- `sys_ps`
unfoldable pub sys_ps : Machine → ℕ → ℕ → ℕ → ℕ → ℕ → Kernel → Result
sys_ps c processes_ptr max_count count_ptr a4 a5 k =
    if processes_ptr == 0 || count_ptr == 0
    then some (syscall_error, k)
    else let copied = take max_count (process_get_list k.processes 64) in
      some (
        int32 (length copied),
        record k {
          pcbs = store_pcbs k.pcbs processes_ptr 0 copied;
          bytes = store_word k.bytes count_ptr (length copied);
        },
      )

-- `sys_setpriority`
unfoldable pub sys_setpriority : Machine → ℕ → ℕ → ℕ → ℕ → ℕ → Kernel → Result
sys_setpriority c pid priority a3 a4 a5 k =
    if ltb priority 1 || ltb 4 priority
    then some (syscall_error, k)
    else process_result k (process_set_priority c.walk_fuel k.processes pid priority)

unfoldable pub copy_info : Kernel → ℕ → Option ℕ → Result
copy_info k info_ptr none = some (syscall_error, k)
copy_info k info_ptr (some p) =
    some
      (syscall_success, record k { pcbs = store_pcbs k.pcbs info_ptr 0 (k.processes.pool p ∷ []) })

-- `sys_getinfo`
unfoldable pub sys_getinfo : Machine → ℕ → ℕ → ℕ → ℕ → ℕ → Kernel → Result
sys_getinfo c info_ptr a2 a3 a4 a5 k =
    if info_ptr == 0
    then some (syscall_error, k)
    else copy_info k info_ptr k.processes.running_process
