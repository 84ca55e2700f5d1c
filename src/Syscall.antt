-- ===== src/Syscall.antt =====
-- kernel/syscall.c: the table of system calls, and the state that their handlers work on. The
-- handlers stand in the child modules, by the subsystem that they call.
pub mod Processes
pub mod Files
pub mod Directories
pub mod Memory
pub mod Init
pub mod Lookup
pub mod Allocation
pub mod Handles
mod Tests
use pxos.Base.{
  ℕ, zero, suc, ◌+◌, ◌-◌, ◌/◌, ◌%◌, ◌^◌, Bool, true, false, Option, none, some, List, [], ◌∷◌,
  codes, length, take, drop, replicate, ltb, leb, ◌==◌, if◌then◌else◌, ◌++◌,
}
use pxos.Base.Int.{ℤ, pos, negsuc}
use pxos.Str.{strlen, strncpy}
use pxos.Fs.State.{Dirent, FsState}
use pxos.Fs.Files.{File}
use pxos.Fs.Listing.{Info}
use pxos.Process.{Pcb, Manager}
use pxos.Vga.{Terminal, vga_putstr, vga_puthex}

-- What the handlers reach through `uint32_t` arguments that are pointers: bytes, and the arrays of
-- structures that begin at an address. The structures of one type do not overlap bytes or structures
-- of another.
pub record Kernel : Type 0 where
  pub fs : FsState
  pub processes : Manager
  pub bytes : ℕ → ℕ
  pub files : ℕ → File
  pub infos : ℕ → ℕ → Info
  pub pcbs : ℕ → ℕ → Pcb

-- What the source does not determine: the fuel of the walks along pointers (see the subsystems), what
-- the sector buffers hold, and the address of the local variable `file` of `sys_open`.
pub record Machine : Type 0 where
  pub walk_fuel : ℕ
  pub release_fuel : ℕ
  pub directory_sector : List Dirent
  pub sector_bytes : ℕ → ℕ → ℕ
  pub open_frame : ℕ

-- The result of a handler; `none`: a walk along pointers has not ended, or `kfree` was given no block.
abbrev pub Result : Type 0
Result = Option (ℤ × Kernel)

-- `syscall_handler_t`
abbrev pub Handler : Type 0
Handler = ℕ → ℕ → ℕ → ℕ → ℕ → Kernel → Result

abbrev pub syscall_success : ℤ
syscall_success = pos 0

abbrev pub syscall_error : ℤ
syscall_error = negsuc 0

abbrev pub syscall_invalid : ℤ
syscall_invalid = negsuc 1

-- A bit pattern of 32 bits as `int32_t`.
unfoldable pub int32 : ℕ → ℤ
int32 n = if ltb n (2 ^ 31) then pos n else negsuc (2 ^ 32 - n - 1)

-- `syscall_entry_t` with a handler that is not NULL.
pub record Entry : Type 0 where
  pub handler : Handler
  pub name : List ℕ
  pub description : List ℕ

-- `syscall_args_t`
pub record Args : Type 0 where
  pub syscall_num : ℕ
  pub arg1 : ℕ
  pub arg2 : ℕ
  pub arg3 : ℕ
  pub arg4 : ℕ
  pub arg5 : ℕ

-- The file's static variables. A slot whose handler is NULL is `none`.
pub record Table : Type 0 where
  pub syscall_table : ℕ → Option Entry
  pub syscall_count : ℕ
  pub current_syscall_args : Args

-- A write to one slot.
abbrev pub set_slot : (ℕ → Option Entry) → ℕ → Entry → ℕ → Option Entry
set_slot slots n e j = if j == n then some e else slots j

abbrev pub is_none : Option Entry → Bool
is_none none = true
is_none (some e) = false

-- `syscall_register` into a slot that is free.
unfoldable pub register_new : Table → ℕ → Entry → Table
register_new t n e = record t {
  syscall_table = set_slot t.syscall_table n e;
  syscall_count = if leb t.syscall_count n then n + 1 else t.syscall_count;
}

-- `syscall_register` of a handler that is not NULL, for a number below MAX_SYSCALLS.
unfoldable pub syscall_register : Table → ℕ → Option Entry → ℤ × Table
syscall_register t n none = (syscall_error, t)
syscall_register t n (some e) =
    if leb 64 n
    then (syscall_error, t)
    else if is_none (t.syscall_table n)
    then (syscall_success, register_new t n e)
    else (syscall_error, t)

-- `syscall_find`; `none` is NULL.
unfoldable pub syscall_find : Table → ℕ → Option Entry
syscall_find t n = if leb 64 n then none else t.syscall_table n

-- `syscall_execute` with the entry that was found: the result, the table and the kernel's state.
unfoldable pub execute_entry : Table → Kernel → Args → Option Entry → Option (ℤ × Table × Kernel)
execute_entry t k a none = some (syscall_invalid, t, k)
execute_entry t k a (some e) = elim (e.handler a.arg1 a.arg2 a.arg3 a.arg4 a.arg5 k) [
  | none ↦ none
  | some (r, k') ↦ some (r, record t { current_syscall_args = a }, k')
]

-- `syscall_execute`
unfoldable pub syscall_execute : Table → Kernel → Args → Option (ℤ × Table × Kernel)
syscall_execute t k a = execute_entry t k a (syscall_find t a.syscall_num)

-- The loop that pads a name to 19 columns.
unfoldable pub put_blanks : Terminal → ℕ → Terminal
put_blanks s zero = s
put_blanks s (suc n) = put_blanks (vga_putstr s (codes " ")) n

-- The body of the loop of `syscall_list`, behind the number. `name[19]` is set to NUL.
unfoldable pub list_entry : Terminal → Entry → Terminal
list_entry s e =
    let name = strncpy (replicate 20 0) e.name 19 in
    let named = vga_putstr (vga_putstr s (codes "  | ")) name in
    let padded = put_blanks named (19 - strlen name) in
    vga_putstr (vga_putstr (vga_putstr padded (codes " | ")) e.description) (codes "\n")

abbrev pub list_slot : Terminal → ℕ → Option Entry → Option Terminal
list_slot s i none = some s
list_slot s i (some e) = elim (vga_puthex (vga_putstr s (codes " ")) i) [
  | none ↦ none
  | some s' ↦ some (list_entry s' e)
]

-- The loop of `syscall_list` over `n` numbers from `i` on.
unfoldable pub list_from : Table → Option Terminal → ℕ → ℕ → Option Terminal
list_from t none i n = none
list_from t (some s) i zero = some s
list_from t (some s) i (suc n) = list_from t (list_slot s i (t.syscall_table i)) (i + 1) n

-- `syscall_list`
unfoldable pub syscall_list : Table → Terminal → Option Terminal
syscall_list t s =
    let title = vga_putstr s (codes "System Calls:\n") in
    let heading = vga_putstr title (codes "Num | Name                | Description\n") in
    let ruled =
      vga_putstr heading
        (codes "----|---------------------|----------------------------------------\n") in
    list_from t (some ruled) 0 t.syscall_count

-- The bytes from `p` on up to a NUL, where there is one among the first `n`.
unfoldable pub string_at : (ℕ → ℕ) → ℕ → ℕ → Option (List ℕ)
string_at m p zero = none
string_at m p (suc n) =
    let rest = string_at m (p + 1) n in
    if m p == 0 then some [] else elim rest [ none ↦ none | some s ↦ some (m p ∷ s) ]

-- The path that a handler copies to `path`: `none` for NULL and for FS_MAX_PATH bytes or more.
unfoldable pub user_path : Kernel → ℕ → Option (List ℕ)
user_path k p = if p == 0 then none else string_at k.bytes p 256

-- A loop that copies bytes to `p`.
unfoldable pub store_bytes : (ℕ → ℕ) → ℕ → List ℕ → ℕ → ℕ
store_bytes m p [] = m
store_bytes m p (b ∷ bs) = store_bytes (λ j. if j == p then b else m j) (p + 1) bs

-- `*p = v` for a `uint32_t`.
unfoldable pub store_word : (ℕ → ℕ) → ℕ → ℕ → ℕ → ℕ
store_word m p v =
    store_bytes m p (v % 256 ∷ v / 256 % 256 ∷ v / 65536 % 256 ∷ v / 16777216 % 256 ∷ [])
