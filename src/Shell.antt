-- ===== src/Shell.antt =====
-- The shell of kernel/kernel.c: its state, the calls of the screen driver that it makes, its prompt
-- and its coloured messages. Input has the reading of a line, Parse its words, Numbers the numbers
-- among them, Actions the commands, Execute the table of commands and their execution, and
-- Run the loop.
pub mod Input
pub mod Parse
pub mod Numbers
pub mod Actions
pub mod Execute
pub mod Run
mod Tests
use pxos.Base.{ℕ, Bool, true, false, Option, none, some, List, [], ◌∷◌, codes, if◌then◌else◌}
use pxos.Str.{strcmp}
use pxos.Fs.State.{Status}
use pxos.Fs.Names.{is_zero}
use pxos.Fs.Manage.{fs_get_cwd}
use pxos.Vga.{Terminal, vga_putchar, vga_putstr, vga_puthex, vga_set_color, vga_clear}
use pxos.Syscall.{Kernel, Table, syscall_list}

-- The counters of `memory_stats` that `print_memory_info` prints and no command changes.
pub record MemoryStats : Type 0 where
  pub total_memory : ℕ
  pub page_allocations : ℕ
  pub page_deallocations : ℕ
  pub page_faults : ℕ

-- What the commands work on.
pub record State : Type 0 where
  pub kernel : Kernel
  pub table : Table
  pub memory_stats : MemoryStats

-- A call that the shell makes of the screen driver, or of `syscall_list`, which draws too. The
-- commands read nothing from the screen, so that their output is the list of these calls.
pub data Call : Type 0 where
  text : List ℕ → Call
  char : ℕ → Call
  hex : ℕ → Call
  color : ℕ → Call
  clear : Call
  syscalls : Table → Call

-- The call; the background is always black.
unfoldable pub draw_call : Terminal → Call → Option Terminal
draw_call t (text s) = some (vga_putstr t s)
draw_call t (char c) = some (vga_putchar t c)
draw_call t (hex n) = vga_puthex t n
draw_call t (color fg) = some (vga_set_color t fg 0)
draw_call t clear = some (vga_clear t)
draw_call t (syscalls table) = syscall_list table t

-- The calls one after the other.
unfoldable pub draw : Terminal → List Call → Option Terminal
draw t [] = some t
draw t (c ∷ cs) = elim (draw_call t c) [ none ↦ none | some t' ↦ draw t' cs ]

-- The result of a command. `none`: a walk along pointers has not ended, `kfree` was given no block,
-- or a buffer is read that was not written.
abbrev pub Outcome : Type 0
Outcome = Option (State × List Call)

abbrev pub light_grey : ℕ
light_grey = 7

abbrev pub light_green : ℕ
light_green = 10

abbrev pub light_cyan : ℕ
light_cyan = 11

abbrev pub light_red : ℕ
light_red = 12

abbrev pub yellow : ℕ
yellow = 14

abbrev pub white : ℕ
white = 15

-- `print_success`, `print_error`, `print_warning` and `print_info`
unfoldable pub print_success : List ℕ → List Call
print_success message = color light_green ∷ text message ∷ color light_grey ∷ []

unfoldable pub print_error : List ℕ → List Call
print_error message = color light_red ∷ text message ∷ color light_grey ∷ []

unfoldable pub print_warning : List ℕ → List Call
print_warning message = color yellow ∷ text message ∷ color light_grey ∷ []

unfoldable pub print_info : List ℕ → List Call
print_info message = color light_cyan ∷ text message ∷ color light_grey ∷ []

-- The current directory as it is shown: `~` for the root.
abbrev pub shown_directory : List ℕ → List ℕ
shown_directory cwd = if is_zero (strcmp cwd (codes "/")) then codes "~" else cwd

abbrev pub directory_or_root : Status × Option (List ℕ) → List ℕ
directory_or_root (st, none) = codes "/"
directory_or_root (st, some cwd) = shown_directory cwd

-- `shell_prompt`
unfoldable pub shell_prompt : State → List Call
shell_prompt s =
    color light_green
    ∷ text (codes "PXOS@os:")
    ∷ text (directory_or_root (fs_get_cwd s.kernel.fs 256))
    ∷ text (codes "$ ")
    ∷ color white
    ∷ []

-- `shell_init`
unfoldable pub shell_init : State → List Call
shell_init s =
    text (codes "OS Kernel Shell v1.0\n")
    ∷ text (codes "Type 'help' to see available commands.\n")
    ∷ text (codes "Keyboard input enabled!\n\n")
    ∷ shell_prompt s
