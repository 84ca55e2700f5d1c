-- ===== src/Syscall/Memory.antt =====
-- The system calls of kernel/syscall.c on memory. The heap is the one that stacks come from.
use pxos.Base.{ℕ, Option, none, some, ◌==◌, if◌then◌else◌}
use pxos.Heap.{Heap, kmalloc, kfree}
use pxos.Syscall.{Kernel, Machine, Result, syscall_success, syscall_error, int32}

abbrev pub with_heap : Kernel → Heap → Kernel
with_heap k h = record k { processes = record (k.processes) { heap = h } }

abbrev pub allocated_result : Kernel → Option ℕ × Heap → Result
allocated_result k (none, h) = some (syscall_error, with_heap k h)
allocated_result k (some p, h) = some (int32 p, with_heap k h)

-- `sys_malloc`
unfoldable pub sys_malloc : Machine → ℕ → ℕ → ℕ → ℕ → ℕ → Kernel → Result
sys_malloc c size a2 a3 a4 a5 k =
    if size == 0
    then some (syscall_error, k)
    else allocated_result k (kmalloc k.processes.heap size)

abbrev pub freed_result : Kernel → Option Heap → Result
freed_result k none = none
freed_result k (some h) = some (syscall_success, with_heap k h)

-- `sys_free`
unfoldable pub sys_free : Machine → ℕ → ℕ → ℕ → ℕ → ℕ → Kernel → Result
sys_free c ptr a2 a3 a4 a5 k =
    if ptr == 0 then some (syscall_error, k) else freed_result k (kfree k.processes.heap ptr)

-- `sys_mmap` and `sys_munmap`, which are not implemented.
unfoldable pub sys_mmap : Machine → ℕ → ℕ → ℕ → ℕ → ℕ → Kernel → Result
sys_mmap c addr length prot flags fd k = some (syscall_error, k)

unfoldable pub sys_munmap : Machine → ℕ → ℕ → ℕ → ℕ → ℕ → Kernel → Result
sys_munmap c addr length a3 a4 a5 k = some (syscall_error, k)
