-- ===== src/Shell/Actions/Processes.antt =====
-- The commands of kernel/kernel.c on processes and system calls.
use pxos.Base.{
  ℕ, zero, suc, ◌-◌, ◌%◌, ◌^◌, ◌||◌, Option, none, some, List, [], ◌∷◌, ◌++◌, codes, length, take,
  replicate, ltb, ◌==◌, if◌then◌else◌,
}
use pxos.Base.Int.{ℤ, pos, negsuc}
use pxos.Str.{strcmp, strlen, strncpy}
use pxos.Fs.Names.{is_zero}
use pxos.Process.{
  ProcessState, new, ready, running, blocked, terminated, Pcb, Manager, ProcessError, not_found,
}
use pxos.Process.Life.{process_terminate, process_set_priority}
use pxos.Process.Listing.{process_get_list}
use pxos.Syscall.{Kernel, Table, Machine, syscall_execute}
use pxos.Shell.{State, Call, text, hex, syscalls, Outcome, print_success, print_error, print_info}
use pxos.Shell.Numbers.{parse_decimal, parse_hex, has_prefix, skip_prefix}

-- `process_state_to_string` of kernel/process/process.c
unfoldable pub process_state_to_string : ProcessState → List ℕ
process_state_to_string new = codes "NEW"
process_state_to_string ready = codes "READY"
process_state_to_string running = codes "RUNNING"
process_state_to_string blocked = codes "BLOCKED"
process_state_to_string terminated = codes "TERMINATED"

-- `process_priority_to_string` of kernel/process/process.c
unfoldable pub process_priority_to_string : ℕ → List ℕ
process_priority_to_string priority =
    if priority == 1
    then codes "LOW"
    else if priority == 2
    then codes "NORMAL"
    else if priority == 3
    then codes "HIGH"
    else if priority == 4
    then codes "CRITICAL"
    else codes "UNKNOWN"

-- The loops that pad a column.
unfoldable pub blanks : ℕ → List Call
blanks zero = []
blanks (suc n) = text (codes " ") ∷ blanks n

abbrev pub column : List ℕ → ℕ → List Call
column s width = text s ∷ blanks (width - strlen s) ++ text (codes " | ") ∷ []

-- The body of the loop of `shell_ps`. `name[20]` is set to NUL.
unfoldable pub process_line : Pcb → List Call
process_line p =
    text (codes " ")
      ∷ hex p.pid
      ∷ text (codes "  | ")
      ∷ column (strncpy (replicate 21 0) p.name 20) 20
    ++ column (process_state_to_string p.state) 9
    ++ column (process_priority_to_string p.priority) 9
    ++ hex p.cpu_time ∷ text (codes "\n") ∷ []

unfoldable pub process_lines : List Pcb → List Call
process_lines [] = []
process_lines (p ∷ ps) = process_line p ++ process_lines ps

-- `shell_ps`; `process_get_list` into 64 places always succeeds.
unfoldable pub shell_ps : State → Outcome
shell_ps s =
    let processes = process_get_list s.kernel.processes 64 in
    some (
      s,
      print_info (codes "Process List:\n")
          ++ text (codes "PID | Name                | State     | Priority  | CPU Time\n")
            ∷ text (codes "----|---------------------|-----------|-----------|---------\n")
            ∷ process_lines processes
          ++ text (codes "Total processes: ") ∷ hex (length processes) ∷ text (codes "\n") ∷ [],
    )

abbrev pub put_processes : State → Manager → State
put_processes s m = record s { kernel = record (s.kernel) { processes = m } }

-- The messages for the result of a call of the process manager.
abbrev pub process_report : List ℕ → List ℕ → Option ProcessError → List Call
process_report ok failed none = print_success ok
process_report ok failed (some not_found) = print_error (codes "Process not found\n")
process_report ok failed (some _) = print_error failed

abbrev pub process_reported :
    State → List ℕ → List ℕ → Option (Option ProcessError × Manager) → Outcome
process_reported s ok failed none = none
process_reported s ok failed (some (e, m)) = some (put_processes s m, process_report ok failed e)

-- `shell_kill` with the number that was read.
unfoldable pub kill_pid : Machine → State → Option ℕ → Outcome
kill_pid c s none = some (s, print_error (codes "Invalid PID format\n"))
kill_pid c s (some pid) =
    if pid == 0
    then some (s, print_error (codes "Cannot kill idle process (PID 0)\n"))
    else process_reported s (codes "Process killed successfully\n")
        (codes "Failed to kill process\n") (process_terminate c.walk_fuel s.kernel.processes pid)

-- `shell_kill`; `process_kill` is `process_terminate`.
unfoldable pub shell_kill : Machine → State → List (List ℕ) → Outcome
shell_kill c s (name ∷ pid ∷ args) = kill_pid c s (parse_decimal 0 pid)
shell_kill c s _ = some (s, print_error (codes "Usage: kill <pid>\n"))

-- `shell_priority` with the numbers that were read.
unfoldable pub set_level : Machine → State → Option ℕ → Option ℕ → Outcome
set_level c s none level = some (s, print_error (codes "Invalid PID format\n"))
set_level c s (some pid) none = some (s, print_error (codes "Invalid priority level format\n"))
set_level c s (some pid) (some level) =
    if ltb level 1 || ltb 4 level
    then some (s, print_error (codes "Priority level must be 1-4\n"))
    else process_reported s (codes "Process priority updated successfully\n")
        (codes "Failed to update process priority\n")
        (process_set_priority c.walk_fuel s.kernel.processes pid level)

-- `shell_priority`
unfoldable pub shell_priority : Machine → State → List (List ℕ) → Outcome
shell_priority c s (name ∷ pid ∷ level ∷ args) =
    set_level c s (parse_decimal 0 pid) (parse_decimal 0 level)
shell_priority c s _ = some (
  s,
  print_error (codes "Usage: priority <pid> <level>\n")
      ++ print_info (codes "Levels: 1=Low, 2=Normal, 3=High, 4=Critical\n"),
)

-- The arguments of a system call, or the message for one that is no number.
pub data Parsed : Type 0 where
  numbers : List ℕ → Parsed
  invalid : List ℕ → Parsed

abbrev pub with_number : List ℕ → Option ℕ → Parsed → Parsed
with_number message none later = invalid message
with_number message (some n) (numbers ns) = numbers (n ∷ ns)
with_number message (some n) (invalid later) = invalid later

-- The loop of `shell_syscall` over the arguments, in hexadecimal behind `0x`.
unfoldable pub parse_numbers : List (List ℕ) → Parsed
parse_numbers [] = numbers []
parse_numbers (a ∷ rest) =
    let later = parse_numbers rest in
    if has_prefix a
    then with_number (codes "Invalid hex format\n") (parse_hex 0 (skip_prefix a)) later
    else with_number (codes "Invalid decimal format\n") (parse_decimal 0 a) later

-- `args[i]`, which is 0 where no argument was given.
abbrev pub argument : List ℕ → ℕ → ℕ
argument [] i = 0
argument (n ∷ ns) zero = n
argument (n ∷ ns) (suc i) = argument ns i

-- An `int32_t` as the `uint32_t` that `vga_puthex` takes.
unfoldable pub uint32 : ℤ → ℕ
uint32 (pos n) = n % 2 ^ 32
uint32 (negsuc n) = 2 ^ 32 - 1 - n % 2 ^ 32

abbrev pub syscall_reported : State → Option (ℤ × Table × Kernel) → Outcome
syscall_reported s none = none
syscall_reported s (some (result, t, k)) = some (
  record s { kernel = k; table = t },
  text (codes "System call result: ") ∷ hex (uint32 result) ∷ text (codes "\n") ∷ [],
)

abbrev pub call_with : State → ℕ → Parsed → Outcome
call_with s n (invalid message) = some (s, print_error message)
call_with s n (numbers ns) = syscall_reported s (
    syscall_execute s.table s.kernel (record {
      syscall_num = n;
      arg1 = argument ns 0;
      arg2 = argument ns 1;
      arg3 = argument ns 2;
      arg4 = argument ns 3;
      arg5 = argument ns 4;
    }))

abbrev pub call_number : State → List (List ℕ) → Option ℕ → Outcome
call_number s args none = some (s, print_error (codes "Invalid system call number format\n"))
call_number s args (some n) = call_with s n (parse_numbers (take 5 args))

-- `shell_syscall`
unfoldable pub shell_syscall : State → List (List ℕ) → Outcome
shell_syscall s (name ∷ num ∷ args) =
    if is_zero (strcmp num (codes "list"))
    then some (s, syscalls s.table ∷ [])
    else call_number s args (parse_decimal 0 num)
shell_syscall s _ = some (
  s,
  text (codes "Usage: syscall <num> [arg1] [arg2] [arg3] [arg4] [arg5]\n")
      ∷ text (codes "Use 'syscall list' to see available system calls.\n")
      ∷ [],
)
