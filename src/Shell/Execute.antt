-- ===== src/Shell/Execute.antt =====
-- The table of commands of kernel/kernel.c, and `shell_execute_command`.
pub mod Outcomes
use pxos.Base.{ℕ, Option, none, some, List, [], ◌∷◌, ◌++◌, codes, if◌then◌else◌}
use pxos.Str.{strcmp}
use pxos.Fs.Names.{is_zero}
use pxos.Syscall.{Machine}
use pxos.Shell.{State, Call, text, char, color, Outcome, light_grey, light_red, shell_prompt}
use pxos.Shell.Parse.{skip_spaces, parse_arguments}
use pxos.Shell.Actions.{
  shell_clear, shell_info, shell_memory, shell_memmap, shell_paging, shell_malloc, shell_free,
  shell_pwd, shell_fs_info,
}
use pxos.Shell.Actions.Files.{shell_ls, shell_touch, shell_rm, shell_mkdir, shell_rmdir, shell_cd}
use pxos.Shell.Actions.Reading.{shell_cat}
use pxos.Shell.Actions.Processes.{shell_ps, shell_kill, shell_priority, shell_syscall}

-- The functions in the table.
pub data Func : Type 0 where
  help clear info memory malloc free paging memmap ls cat touch rm : Func
  mkdir rmdir cd pwd fs_info ps kill priority syscall : Func

-- `command_t`
pub record Command : Type 0 where
  pub name : List ℕ
  pub func : Func
  pub description : List ℕ

abbrev command : List ℕ → Func → List ℕ → Command
command name func description = record { name = name; func = func; description = description }

-- `commands`, without its end marker.
abbrev pub commands : List Command
commands =
    command (codes "help") help (codes "Show all available commands.")
    ∷ command (codes "clear") clear (codes "Clear the screen.")
    ∷ command (codes "info") info (codes "Show System information.")
    ∷ command (codes "memory") memory (codes "Show memory information and statistics.")
    ∷ command (codes "malloc") malloc (codes "Allocate memory (usage: malloc <size>).")
    ∷ command (codes "free") free (codes "Free allocated memory (usage: free <address>).")
    ∷ command (codes "paging") paging (codes "Show paging information.")
    ∷ command (codes "memmap") memmap (codes "Show memory map.")
    ∷ command (codes "ls") ls (codes "List directory contents.")
    ∷ command (codes "cat") cat (codes "Display file contents (usage: cat <filename>).")
    ∷ command (codes "touch") touch (codes "Create empty file (usage: touch <filename>).")
    ∷ command (codes "rm") rm (codes "Remove file (usage: rm <filename>).")
    ∷ command (codes "mkdir") mkdir (codes "Create directory (usage: mkdir <dirname>).")
    ∷ command (codes "rmdir") rmdir (codes "Remove directory (usage: rmdir <dirname>).")
    ∷ command (codes "cd") cd (codes "Change directory (usage: cd <dirname>).")
    ∷ command (codes "pwd") pwd (codes "Print current working directory.")
    ∷ command (codes "fsinfo") fs_info (codes "Show filesystem information.")
    ∷ command (codes "ps") ps (codes "List all processes.")
    ∷ command (codes "kill") kill (codes "Kill a process (usage: kill <pid>).")
    ∷ command (codes "priority") priority
        (codes "Set process priority (usage: priority <pid> <level>).")
    ∷ command (codes "syscall") syscall
        (codes "System call interface (usage: syscall <num> [args...]).")
    ∷ []

-- The loop of `shell_help`.
unfoldable pub help_lines : List Command → List Call
help_lines [] = []
help_lines (c ∷ cs) =
    text (codes "  ")
    ∷ text c.name
    ∷ text (codes " - ")
    ∷ text c.description
    ∷ char 10
    ∷ help_lines cs

-- `shell_help`
unfoldable pub shell_help : State → Outcome
shell_help s = some (s, text (codes "Available commands:\n") ∷ help_lines commands)

-- The call of `func` with the words of the line.
unfoldable pub run_func : Machine → State → Func → List (List ℕ) → Outcome
run_func c s help args = shell_help s
run_func c s clear args = shell_clear s
run_func c s info args = shell_info s
run_func c s memory args = shell_memory s
run_func c s malloc args = shell_malloc s args
run_func c s free args = shell_free s args
run_func c s paging args = shell_paging s
run_func c s memmap args = shell_memmap s
run_func c s ls args = shell_ls c s
run_func c s cat args = shell_cat c s args
run_func c s touch args = shell_touch c s args
run_func c s rm args = shell_rm c s args
run_func c s mkdir args = shell_mkdir c s args
run_func c s rmdir args = shell_rmdir c s args
run_func c s cd args = shell_cd s args
run_func c s pwd args = shell_pwd s
run_func c s fs_info args = shell_fs_info s
run_func c s ps args = shell_ps s
run_func c s kill args = shell_kill c s args
run_func c s priority args = shell_priority c s args
run_func c s syscall args = shell_syscall s args

-- The search of the table for a name.
unfoldable pub find_command : List Command → List ℕ → Option Func
find_command [] name = none
find_command (c ∷ cs) name =
    let rest = find_command cs name in if is_zero (strcmp name c.name) then some c.func else rest

-- What follows a command: a new line and the prompt.
abbrev pub after_command : Outcome → Outcome
after_command none = none
after_command (some (s, calls)) = some (s, calls ++ char 10 ∷ color light_grey ∷ shell_prompt s)

abbrev pub not_found_lines : State → List ℕ → List Call
not_found_lines s name =
    color light_red
    ∷ text (codes "Command not found: ")
    ∷ text name
    ∷ char 10
    ∷ color light_grey
    ∷ shell_prompt s

-- The words of a line, with the command that was found.
unfoldable pub run_command : Machine → State → List ℕ → List (List ℕ) → Option Func → Outcome
run_command c s name args none = some (s, not_found_lines s name)
run_command c s name args (some f) = after_command (run_func c s f (name ∷ args))

abbrev pub run_words : Machine → State → List (List ℕ) → Outcome
run_words c s [] = some (s, shell_prompt s)
run_words c s (name ∷ args) = run_command c s name args (find_command commands name)

abbrev pub execute_from : Machine → State → List ℕ → Outcome
execute_from c s [] = some (s, shell_prompt s)
execute_from c s (ch ∷ input) = run_words c s (parse_arguments 8 (ch ∷ input))

-- `shell_execute_command`
unfoldable pub shell_execute_command : Machine → State → List ℕ → Outcome
shell_execute_command c s input = execute_from c s (skip_spaces input)
