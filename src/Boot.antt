-- ===== src/Boot.antt =====
-- `kmain` of kernel/kernel.c up to the shell's loop, and `memory_init` of kernel/memory.c, with the
-- texts that the initialisations show.
pub mod Ready
mod Tests
use pxos.Base.{ℕ, ◌-◌, ◌^◌, Option, none, some, List, [], ◌∷◌, ◌++◌, codes}
use pxos.Heap.{Heap, heap_start, heap_init}
use pxos.Fs.State.{
  Status, success, not_found, access_denied, disk_full, invalid_path, file_exists, invalid_mode,
  io_error, not_directory, FsState,
}
use pxos.Fs.Volume.{fs_init}
use pxos.Keyboard.{Keyboard, keyboard_init}
use pxos.Pages.{Pages, init_physical_page_bitmap}
use pxos.Paging.{Paging}
use pxos.Paging.Init.{paging_init}
use pxos.Process.{ProcessError, no_memory, invalid_param, queue_full, Manager}
use pxos.Process.Life.{process_manager_init}
use pxos.Vga.{Terminal, vga_init}
use pxos.Interrupts.{Routine, Interrupts, idt_set_entry, idt_init}
use pxos.Syscall.{Kernel, Machine, Table}
use pxos.Syscall.Init.{syscall_init}
use pxos.Shell.{State, MemoryStats, Call, text, hex, color, clear, draw, shell_init}

-- The state of all parts. `state` has the filesystem, the processes with the heap, the system calls
-- and the counters of the memory's statistics.
pub record System : Type 0 where
  pub screen : Terminal
  pub interrupts : Interrupts
  pub keyboard : Keyboard
  pub pages : Pages
  pub paging : Paging
  pub state : State

-- The addresses that the linker gives.
pub record Linked : Type 0 where
  pub routine : Routine → ℕ
  pub idt_address : ℕ
  pub syscall_handler : ℕ

-- The statistics that `memory_init` clears.
abbrev pub cleared_heap : Heap → Heap
cleared_heap h = record h { used_memory = 0; free_memory = 0x10000000 }

-- `memory_init`. The heap that the pages' statistics count is that of the processes.
unfoldable pub memory_init : System → System
memory_init s =
    let k = s.state.kernel in
    let heap = heap_init (cleared_heap k.processes.heap) in
    record s {
      pages =
          init_physical_page_bitmap
            (record (s.pages) { page_allocations = 0; page_deallocations = 0; heap = heap });
      paging = paging_init s.paging;
      state = record (s.state) {
        kernel = record k { processes = record (k.processes) { heap = heap } };
        memory_stats = record {
          total_memory = 0x10000000;
          page_allocations = 0;
          page_deallocations = 0;
          page_faults = 0;
        };
      };
    }

-- What `memory_init`, `paging_init` and `heap_init` show.
unfoldable pub memory_lines : List Call
memory_lines =
    text (codes "Initializing memory management...\n")
    ∷ text (codes "Setting up paging...\n")
    ∷ text (codes "Paging setup completed (not enabled)\n")
    ∷ text (codes "Heap initialized at 0x")
    ∷ hex heap_start
    ∷ text (codes "\n")
    ∷ text (codes "Memory management initialized successfully!\n")
    ∷ []

-- What `fs_init` shows.
unfoldable pub fs_lines : List Call
fs_lines =
    text (codes "Initializing filesystem...\n")
    ∷ text (codes "Filesystem validation skipped (simulation mode)\n")
    ∷ text (codes "FAT table initialized (simulation mode)\n")
    ∷ text (codes "Root directory initialized (simulation mode)\n")
    ∷ text (codes "Filesystem initialized successfully\n")
    ∷ []

-- An error code as the number that `vga_puthex` takes; `none` for success.
unfoldable pub fs_code : Status → Option ℕ
fs_code success = none
fs_code not_found = some (2 ^ 32 - 1)
fs_code access_denied = some (2 ^ 32 - 2)
fs_code disk_full = some (2 ^ 32 - 3)
fs_code invalid_path = some (2 ^ 32 - 4)
fs_code file_exists = some (2 ^ 32 - 5)
fs_code invalid_mode = some (2 ^ 32 - 6)
fs_code io_error = some (2 ^ 32 - 7)
fs_code not_directory = some (2 ^ 32 - 8)

unfoldable pub process_code : Option ProcessError → Option ℕ
process_code none = none
process_code (some ProcessError.not_found) = some (2 ^ 32 - 2)
process_code (some no_memory) = some (2 ^ 32 - 5)
process_code (some invalid_param) = some (2 ^ 32 - 6)
process_code (some queue_full) = some (2 ^ 32 - 7)

abbrev pub result_lines : List ℕ → List ℕ → Option ℕ → List Call
result_lines ok failed none = text ok ∷ []
result_lines ok failed (some code) = text failed ∷ hex code ∷ text (codes "\n") ∷ []

-- What `kmain` shows from `vga_init` to `vga_clear`, with the results and the state at `shell_init`.
unfoldable pub boot_lines : Status → Option ProcessError → State → List Call
boot_lines fs_result process_result s =
    color 11
      ∷ text (codes "=== PXOS Kernel v1.0 ===\n")
      ∷ color 10
      ∷ text (codes "Initializing Kernel...\n")
      ∷ text (codes "Step 1: Initializing interrupts...\n")
      ∷ text (codes "Step 1: Interrupts initialized.\n")
      ∷ text (codes "Step 2: Initializing keyboard...\n")
      ∷ text (codes "Step 2: Keyboard initialized.\n")
      ∷ text (codes "Step 3: Initializing memory...\n")
      ∷ memory_lines
    ++ text (codes "Step 3: Memory initialized.\n")
      ∷ text (codes "Step 4: Initializing filesystem...\n")
      ∷ fs_lines
    ++ result_lines (codes "Step 4: Filesystem initialized successfully\n")
        (codes "Step 4: Filesystem initialization failed with code: ") (fs_code fs_result)
    ++ text (codes "Step 5: Initializing process manager...\n")
      ∷ result_lines (codes "Step 5: Process manager initialized successfully\n")
          (codes "Step 5: Process manager initialization failed with code: ")
          (process_code process_result)
    ++ text (codes "Step 6: Initializing system calls...\n")
      ∷ text (codes "Step 6: System calls initialized successfully\n")
      ∷ text (codes "Step 7: Initializing shell...\n")
      ∷ shell_init s
    ++ text (codes "Step 7: Shell initialized.\n")
      ∷ text (codes "Enabling interrupts...\n")
      ∷ text (codes "Interrupts enabled.\n")
      ∷ text (codes "Kernel initialized successfully!\n")
      ∷ clear
      ∷ []

-- The steps on everything but the screen: `idt_init`, `keyboard_init`, `memory_init`, `fs_init`,
-- `process_manager_init` and `syscall_init`, which sets the gate of vector 0x80 too.
unfoldable pub initialised : Machine → Linked → System → System
initialised c l s =
    let s1 = record s {
      interrupts = idt_init l.routine l.idt_address s.interrupts;
      keyboard = keyboard_init;
    } in
    let s2 = memory_init s1 in
    record s2 {
      interrupts = record (s2.interrupts) {
        idt = idt_set_entry s2.interrupts.idt 0x80 l.syscall_handler 8 0xEF;
      };
      state = record (s2.state) {
        kernel = record (s2.state.kernel) {
          fs = (fs_init s2.state.kernel.fs).1;
          processes = (process_manager_init s2.state.kernel.processes.heap).1;
        };
        table = syscall_init c s2.state.table;
      };
    }

abbrev pub on_screen : System → Option Terminal → Option System
on_screen s none = none
on_screen s (some t) = some (record s { screen = t })

-- `kmain` up to `shell_run`; `none`: a number that is shown does not end.
unfoldable pub kmain : Machine → Linked → System → Option System
kmain c l s =
    let booted = initialised c l s in
    on_screen booted (
      draw (vga_init s.screen) (
        boot_lines (fs_init (memory_init s).state.kernel.fs).0
          (process_manager_init (memory_init s).state.kernel.processes.heap).0 booted.state))
