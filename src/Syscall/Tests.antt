-- ===== src/Syscall/Tests.antt =====
-- The theorems on system calls at a small kernel, and runs.
use pxos.Base.{ℕ, ◌≡◌, ◌≢◌, refl, true, false, none, some, [], ◌∷◌, codes, replicate}
use pxos.Base.Int.{pos, negsuc}
use pxos.Str.{strlen, strchr, strcmp, memcmp, memcpy}
use pxos.Heap.{
  Heap, heap_init, kmalloc, find_free_block, take_block, split_block, set_type, size_at, start_at,
  update_memory_stats, sum_sizes,
}
use pxos.Heap.Api.{IsValid}
use pxos.Heap.Free.{heap_init-IsValid}
use pxos.Process.{Manager}
use pxos.Process.Life.{zero_pcb, cleared_manager}
use pxos.Fs.State.{Dirent, FsState}
use pxos.Fs.Names.{
  validate_path, is_valid_filename, convert_filename, convert_at, blank_padded, upper,
}
use pxos.Fs.Dir.{find_directory_entry, find_slot, hits, has_name, is_live}
use pxos.Fs.Files.{File, fs_open, open_entry}
use pxos.Fs.Volume.{zero_table, zero_stats}
use pxos.Fs.Listing.{Info, file}
use pxos.Syscall.{
  Kernel, Machine, Args, Table, int32, syscall_error, syscall_find, execute_entry, syscall_execute,
  string_at, user_path, store_bytes, syscall_register, register_new,
}
use pxos.Syscall.Files.{sys_open, open_path}
use pxos.Syscall.Init.{syscall_init, register_all}
use pxos.Syscall.Lookup.{Executes, syscall_execute-Executes}
use pxos.Syscall.Allocation.{Undone, syscall_free-malloc}
use pxos.Syscall.Handles.{Holds, sys_open_twice}

abbrev machine : Machine
machine = record {
  walk_fuel = 9;
  release_fuel = 9;
  directory_sector = [];
  sector_bytes = λ n o. 0;
  open_frame = 0x9FF00;
}

abbrev slot : ℕ → ℕ → Dirent
slot first cluster = record {
  name = first ∷ replicate 7 b' ';
  ext = replicate 3 b' ';
  attr = 0x20;
  reserved = replicate 10 0;
  time = 0;
  date = 0;
  cluster = cluster;
  size = 9;
}

-- A volume with the files A and B.
abbrev volume : FsState
volume = record {
  initialized = true;
  fat_table = zero_table;
  root_dir = slot b'A' 2 ∷ slot b'B' 3 ∷ [];
  stats = zero_stats;
  current_directory = b'/' ∷ [];
}

abbrev no_heap : Heap
no_heap = record { blocks = []; used_memory = 0; free_memory = 0 }

abbrev manager : Manager
manager = cleared_manager (heap_init no_heap)

abbrev no_file : File
no_file = record { cluster = 0; offset = 0; size = 0; mode = 0; valid = false; name = [] }

abbrev no_info : Info
no_info = record { name = []; file_type = file; size = 0; cluster = 0; attr = 0 }

-- The strings "/A" at 256 and "/B" at 512.
abbrev kernel : Kernel
kernel = record {
  fs = volume;
  processes = manager;
  bytes = store_bytes (store_bytes (λ j. 0) 256 (codes "/A")) 512 (codes "/B");
  files = λ j. no_file;
  infos = λ p j. no_info;
  pcbs = λ p j. zero_pcb;
}

abbrev no_args : Args
no_args = record { syscall_num = 0; arg1 = 0; arg2 = 0; arg3 = 0; arg4 = 0; arg5 = 0 }

abbrev table : Table
table = record { syscall_table = λ j. none; syscall_count = 0; current_syscall_args = no_args }

syscall_execute-Executes_example :
    Executes machine table kernel no_args
      (syscall_execute (syscall_init machine table) kernel no_args)
syscall_execute-Executes_example = syscall_execute-Executes machine table kernel no_args

kernel-IsValid : IsValid manager.heap
kernel-IsValid = heap_init-IsValid no_heap

ten : (h : Heap) × (kmalloc manager.heap 10 ≡ (some 0x200014, h))
unfolding heap_init kmalloc find_free_block take_block split_block set_type size_at start_at
    update_memory_stats sum_sizes
ten = (_, refl)

syscall_free-malloc_example : Undone machine table kernel 10 0x200014
syscall_free-malloc_example =
    syscall_free-malloc machine table kernel 10 0x200014 ten.0 kernel-IsValid ten.1

first_open : (k1 : Kernel) × (sys_open machine 256 1 0 0 0 kernel ≡ some (pos 0x9FF00, k1))
unfolding sys_open open_path user_path string_at store_bytes fs_open validate_path is_valid_filename
    strlen strchr strcmp memcmp find_directory_entry find_slot hits has_name is_live
    convert_filename convert_at blank_padded memcpy upper open_entry int32
first_open = (_, refl)

second_open : (k2 : Kernel) × (sys_open machine 512 1 0 0 0 first_open.0 ≡ some (pos 0x9FF00, k2))
unfolding first_open sys_open open_path user_path string_at store_bytes fs_open validate_path
    is_valid_filename strlen strchr strcmp memcmp find_directory_entry find_slot hits has_name
    is_live convert_filename convert_at blank_padded memcpy upper open_entry int32
second_open = (_, refl)

descriptor_ok : pos 0x9FF00 ≢ syscall_error
descriptor_ok e = cc

sys_open_twice_example :
    (pos 0x9FF00 ≡ pos 0x9FF00)
    × Holds machine kernel 256 1 (pos 0x9FF00) first_open.0
    × Holds machine first_open.0 512 1 (pos 0x9FF00) second_open.0
    × ((fd : ℕ) → fd ≢ 0x9FF00 → second_open.0.files fd ≡ kernel.files fd)
sys_open_twice_example =
    sys_open_twice machine kernel first_open.0 second_open.0 256 512 1 1 0 0 (pos 0x9FF00)
      (pos 0x9FF00) first_open.1 second_open.1 descriptor_ok descriptor_ok

-- The descriptor now stands for the second file.
second_file : (second_open.0.files 0x9FF00).cluster ≡ 3
unfolding second_open first_open
second_file = refl

-- Number 9 is not registered.
unknown :
    syscall_execute (syscall_init machine table) kernel (record no_args { syscall_num = 9 })
    ≡ some (negsuc 1, syscall_init machine table, kernel)
unfolding syscall_execute execute_entry syscall_find syscall_init register_all syscall_register
    register_new
unknown = refl
