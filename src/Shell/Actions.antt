-- ===== src/Shell/Actions.antt =====
-- The commands of the shell of kernel/kernel.c that need no argument and those on memory; child
-- modules have those on files and processes. A command takes the words of the line, its own name
-- first. NULs do not occur in them.
pub mod Files
pub mod Processes
pub mod Reading
use pxos.Base.{ℕ, ◌==◌, Option, none, some, List, [], ◌∷◌, ◌++◌, codes, if◌then◌else◌}
use pxos.Str.{strcmp}
use pxos.Fs.Names.{is_zero}
use pxos.Fs.State.{Status, Stats, FsState}
use pxos.Fs.Volume.{fs_get_stats, fs_get_free_space}
use pxos.Fs.Manage.{fs_get_cwd}
use pxos.Heap.{MemoryType, free, allocated, reserved, kernel, Block, Heap, kmalloc, kfree}
use pxos.Syscall.{Kernel}
use pxos.Shell.{State, MemoryStats, Call, text, char, hex, clear, Outcome, shown_directory}
use pxos.Shell.Numbers.{parse_decimal, parse_hex, skip_prefix}

abbrev pub put_fs : State → FsState → State
put_fs s fs = record s { kernel = record (s.kernel) { fs = fs } }

abbrev pub heap_of : State → Heap
heap_of s = s.kernel.processes.heap

abbrev pub put_heap : State → Heap → State
put_heap s h = record s {
  kernel = record (s.kernel) { processes = record (s.kernel.processes) { heap = h } };
}

-- A number on a line of its own, between two texts.
abbrev hex_line : List ℕ → ℕ → List ℕ → List Call
hex_line label n behind = text label ∷ hex n ∷ text behind ∷ []

-- `shell_clear`
unfoldable pub shell_clear : State → Outcome
shell_clear s = some (s, clear ∷ [])

-- `shell_info`
unfoldable pub shell_info : State → Outcome
shell_info s = some (
  s,
  text (codes "=== System Information ===\n")
      ∷ text (codes "Kernel Version: PXOS Kernel v1.0\n")
      ∷ text (codes "Architecture: x86-32\n")
      ∷ text (codes "Memory: Virtual Memory Management Enabled\n")
      ∷ text (codes "Display: VGA text mode 80x25\n")
      ∷ text (codes "Shell: Enhanced command line interface\n")
      ∷ [],
)

-- `print_memory_info` of kernel/memory.c
unfoldable pub print_memory_info : MemoryStats → Heap → List Call
print_memory_info m h =
    text (codes "=== Memory Information ===\n")
      ∷ hex_line (codes "Total Memory: ") m.total_memory (codes " bytes\n")
    ++ hex_line (codes "Used Memory: ") h.used_memory (codes " bytes\n")
    ++ hex_line (codes "Free Memory: ") h.free_memory (codes " bytes\n")
    ++ hex_line (codes "Page Allocations: ") m.page_allocations (codes "\n")
    ++ hex_line (codes "Page Deallocations: ") m.page_deallocations (codes "\n")
    ++ hex_line (codes "Page Faults: ") m.page_faults (codes "\n")

-- `shell_memory`
unfoldable pub shell_memory : State → Outcome
shell_memory s = some (s, print_memory_info s.memory_stats (heap_of s))

-- The `switch` of `print_memory_map`.
unfoldable pub type_name : MemoryType → List ℕ
type_name free = codes "FREE"
type_name allocated = codes "ALLOCATED"
type_name reserved = codes "RESERVED"
type_name kernel = codes "KERNEL"

-- The loop of `print_memory_map`.
unfoldable pub map_lines : List Block → List Call
map_lines [] = []
map_lines (b ∷ bs) =
    hex b.start_addr
    ∷ text (codes "\t")
    ∷ hex b.size
    ∷ text (codes "\t\t")
    ∷ text (type_name b.type)
    ∷ text (codes "\n")
    ∷ map_lines bs

-- `print_memory_map` of kernel/memory.c
unfoldable pub print_memory_map : Heap → List Call
print_memory_map h =
    text (codes "=== Memory Map ===\n")
    ∷ text (codes "Address\t\tSize\t\tType\n")
    ∷ text (codes "----------------------------------------\n")
    ∷ map_lines h.blocks

-- `shell_memmap`
unfoldable pub shell_memmap : State → Outcome
shell_memmap s = some (s, print_memory_map (heap_of s))

-- `shell_paging`
unfoldable pub shell_paging : State → Outcome
shell_paging s = some (
  s,
  text (codes "=== Paging Information ===\n")
      ∷ text (codes "Page Size: 4KB\n")
      ∷ text (codes "Page Directory Entries: 1024\n")
      ∷ text (codes "Page Table Entries: 1024\n")
      ∷ text (codes "Paging system initialized.\n")
      ∷ [],
)

-- `shell_malloc` with the result of `kmalloc`.
unfoldable pub report_allocated : State → ℕ → Option ℕ × Heap → Outcome
report_allocated s size (none, h) =
    some (put_heap s h, text (codes "Memory allocation failed!\n") ∷ [])
report_allocated s size (some p, h) = some (
  put_heap s h,
  text (codes "Allocated ")
      ∷ hex size
      ∷ text (codes " bytes at address: ")
      ∷ hex p
      ∷ text (codes "\n")
      ∷ [],
)

abbrev pub malloc_size : State → Option ℕ → Outcome
malloc_size s none = some (s, text (codes "Invalid size format!\n") ∷ [])
malloc_size s (some size) =
    if size == 0
    then some (s, text (codes "Size must be greater than 0!\n") ∷ [])
    else report_allocated s size (kmalloc (heap_of s) size)

-- `shell_malloc`
unfoldable pub shell_malloc : State → List (List ℕ) → Outcome
shell_malloc s (name ∷ size ∷ args) = malloc_size s (parse_decimal 0 size)
shell_malloc s _ = some (s, text (codes "Usage: malloc <size_in_bytes>\n") ∷ [])

abbrev pub report_freed : State → ℕ → Option Heap → Outcome
report_freed s addr none = none
report_freed s addr (some h) =
    some
      (put_heap s h, text (codes "Freed memory at address: 0x") ∷ hex addr ∷ text (codes "\n") ∷ [])

abbrev pub free_address : State → Option ℕ → Outcome
free_address s none = some (s, text (codes "Invalid address format!\n") ∷ [])
free_address s (some addr) = report_freed s addr (kfree (heap_of s) addr)

-- `shell_free`
unfoldable pub shell_free : State → List (List ℕ) → Outcome
shell_free s (name ∷ address ∷ args) = free_address s (parse_hex 0 (skip_prefix address))
shell_free s _ = some (s, text (codes "Usage: free <address>\n") ∷ [])

abbrev pub pwd_lines : Status × Option (List ℕ) → List Call
pwd_lines (st, none) = text (codes "Failed to get current directory\n") ∷ []
pwd_lines (st, some cwd) =
    text (codes "Current directory: ") ∷ text (shown_directory cwd) ∷ text (codes "\n") ∷ []

-- `shell_pwd`
unfoldable pub shell_pwd : State → Outcome
shell_pwd s = some (s, pwd_lines (fs_get_cwd s.kernel.fs 256))

abbrev pub free_space_line : Status × Option ℕ → List Call
free_space_line (st, none) = []
free_space_line (st, some n) = hex_line (codes "Free Space: ") n (codes " bytes\n")

-- `shell_fs_info` with the result of `fs_get_stats`.
unfoldable pub stats_lines : State → Status × Option Stats × FsState → Outcome
stats_lines s (st, none, fs) =
    some (put_fs s fs, text (codes "Failed to get filesystem information\n") ∷ [])
stats_lines s (st, some stats, fs) = some (
  put_fs s fs,
  text (codes "=== Filesystem Information ===\n")
        ∷ hex_line (codes "Total Sectors: ") stats.total_sectors (codes "\n")
      ++ hex_line (codes "Free Sectors: ") stats.free_sectors (codes "\n")
      ++ hex_line (codes "Used Sectors: ") stats.used_sectors (codes "\n")
      ++ hex_line (codes "Total Files: ") stats.total_files (codes "\n")
      ++ hex_line (codes "Total Directories: ") stats.total_dirs (codes "\n")
      ++ free_space_line (fs_get_free_space fs),
)

-- `shell_fs_info`
unfoldable pub shell_fs_info : State → Outcome
shell_fs_info s = stats_lines s (fs_get_stats s.kernel.fs)
