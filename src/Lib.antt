-- ===== src/Lib.antt =====
-- PXOS, a small kernel for x86 in C: a model of its parts and the theorems about them.
--
-- The kernel (kernel/kernel.c) sets up memory, the keyboard, the filesystem, processes and system
-- calls, and runs a shell. The parts and the modules that model them:
-- * the string functions of lib/string.c (Str), on which the filesystem's names and paths rest;
--   Str/Numbers has `atoi` and `itoa`;
-- * the screen of drivers/vga/vga.c (Vga), 80 by 25 cells with a cursor, which the shell and
--   `syscall_list` write to. Vga/Page has the screen as a typewriter's page;
-- * the filesystem of fs/filesystem.c (Fs), a FAT12 volume in memory: the table of 12-bit entries,
--   the root directory of 224 slots, the counts and the current directory. Fs/State has the state,
--   Fs/Fat the table (`fs_read_fat` .. `fs_free_cluster_chain`), Fs/Names the 8.3 names and the
--   checks of a path, Fs/Dir the search and the changes of the root directory, Fs/Files open, close,
--   create, seek, tell, delete and rmdir, Fs/Transfer read and write, Fs/Listing `fs_listdir`,
--   Fs/Manage mkdir, rename, exists, size and the current directory, Fs/Volume init, format and the
--   counts, Fs/Paths the parts of a path;
-- * the keyboard driver of drivers/keyboard/keyboard.c (Keyboard), a ring that the interrupt handler
--   fills and the shell drains;
-- * the kernel heap of kernel/memory.c (Heap), a list of blocks that `kmalloc` splits and `kfree`
--   merges. The shell and the system calls hand out its memory;
-- * the physical pages of kernel/memory.c (Pages), a bitmap of 32-bit words, and the page tables
--   (Paging): `map_page`, `unmap_page`, `get_physical_address`, and in Paging/Init the identity
--   mappings that `paging_init` sets up;
-- * the process manager of kernel/process/process.c (Process), a pool of 64 control blocks linked
--   into queues, with the scheduler; Process/Life has creation and termination, which take the stacks
--   from the heap, Process/Listing `process_get_list`;
-- * the system calls of kernel/syscall.c (Syscall): the table of handlers, and the handlers over the
--   state `Kernel` of the parts above. A pointer among their arguments is a number; what it points to
--   is memory by type: bytes, file handles, directory listings, control blocks;
-- * the shell of kernel/kernel.c (Shell): Shell/Input reads a line of keys, Shell/Parse its words,
--   Shell/Numbers the numbers, Shell/Actions has the commands, Shell/Execute their table, Shell/Run
--   the loop. The output of a command is the list of its calls of the screen driver;
-- * the descriptor table, the interrupt controllers and the handlers of kernel/interrupt.c
--   (Interrupts); its keyboard handler runs that of the keyboard driver;
-- * the start of the kernel (Boot): `kmain` up to the shell's loop, over the state of all parts.
-- A function has the name that it has in the source, without the prefix `fs_` where it works on the
-- table of clusters. It takes the state that the C code keeps in static variables and returns the new
-- one; what goes through an out parameter is an Option in the result. An error code is a constructor
-- of Status. A `char*` is the list of the bytes from it on, the C memory of the table a function
-- from offsets to bytes, the list of blocks a list in the order of the `next` pointers. What the
-- source does not determine, such as what an uninitialised buffer holds, is an argument, for the
-- system calls and the shell in the record Machine.
--
-- Numbers are natural numbers; a sum or difference that can wrap has its `% 2 ^ 32` written out. The
-- loop of `fs_free_cluster_chain` takes fuel, one unit for each round, and gives `none` when it has
-- not ended; a chain of k clusters needs k + 1 rounds, and there are chains on which it never ends
-- (`release_fuel` in Machine). A walk along the `next` pointers of control blocks takes fuel too: a
-- queue of k processes needs k + 1 (`walk_fuel`). The loops of `fs_read` and `fs_write` have as many
-- rounds as bytes to move, which is enough since each moves one at least; that of `shell_cat` has one
-- more than the file has bytes. The loop over the digits of a number has 32 rounds in base 10 and 9
-- in base 16. Every other loop of the model runs over a list or a fixed range.
--
-- Left out: the port accesses but those that move the cursor or program the interrupt controllers,
-- and `hlt`; NULL arguments, which the functions refuse at once, but for the system calls, which get
-- numbers; the contents of sectors, since `fs_read_sector` and `fs_write_sector` do nothing; the bytes
-- past the end of an array that `fs_open` writes when a name of 12 or 13 bytes is copied to
-- `name[12]`, and `convert_filename_back` when it fills 13 bytes; writes of the heap's clients over
-- its headers; the text that `fs_open` shows for a missing file, where a system call opens it. Not
-- modelled: `kcalloc`, `krealloc`, `vmalloc`, `vfree`, the memory contexts and `print_page_directory`
-- of kernel/memory.c and `process_print_info` of kernel/process/process.c, which nothing calls; the
-- assembly files.
pub mod Base
pub mod Str
pub mod Vga
pub mod Fs
pub mod Keyboard
pub mod Heap
pub mod Process
pub mod Pages
pub mod Paging
pub mod Syscall
pub mod Shell
pub mod Interrupts
pub mod Boot
