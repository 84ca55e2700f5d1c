-- ===== src/Boot/Tests.antt =====
-- The theorem on the start of the kernel at memory that was zero.
use pxos.Base.{◌≡◌, arith, false, none, some, []}
use pxos.Heap.{Heap}
use pxos.Fs.Files.{File}
use pxos.Fs.Listing.{Info, file}
use pxos.Fs.Volume.{zero_table, zero_stats}
use pxos.Keyboard.{keyboard_init}
use pxos.Paging.{zero_entry}
use pxos.Process.Life.{zero_pcb, cleared_manager}
use pxos.Interrupts.{gate}
use pxos.Syscall.{Machine}
use pxos.Boot.{System, Linked, kmain}
use pxos.Boot.Ready.{Ready, kmain-Ready}

abbrev machine : Machine
machine = record {
  walk_fuel = 9;
  release_fuel = 9;
  directory_sector = [];
  sector_bytes = λ n o. 0;
  open_frame = 0x9FF00;
}

abbrev linked : Linked
linked = record { routine = λ r. 0x12000; idt_address = 0x20000; syscall_handler = 0x14000 }

abbrev no_heap : Heap
no_heap = record { blocks = []; used_memory = 0; free_memory = 0 }

abbrev no_file : File
no_file = record { cluster = 0; offset = 0; size = 0; mode = 0; valid = false; name = [] }

abbrev no_info : Info
no_info = record { name = []; file_type = file; size = 0; cluster = 0; attr = 0 }

-- The page tables are taken from 7 MB on.
abbrev zeroed : System
zeroed = record {
  screen = record { buffer = λ i. 0; row = 0; column = 0; color = 0; crtc = λ i. 0 };
  interrupts = record {
    idt = λ j. gate 0 0 0;
    limit = 0;
    base = 0;
    interrupt_handlers = λ j. none;
    ports = [];
  };
  keyboard = keyboard_init;
  pages = record {
    bitmap = λ i j. false;
    bitmap_size = 0;
    page_allocations = 0;
    page_deallocations = 0;
    heap = no_heap;
  };
  paging = record { directory = λ i. zero_entry; tables = λ a i. zero_entry; next_table = 1792 };
  state = record {
    kernel = record {
      fs = record {
        initialized = false;
        fat_table = zero_table;
        root_dir = [];
        stats = zero_stats;
        current_directory = [];
      };
      processes = cleared_manager no_heap;
      bytes = λ j. 0;
      files = λ j. no_file;
      infos = λ p j. no_info;
      pcbs = λ p j. zero_pcb;
    };
    table = record {
      syscall_table = λ j. none;
      syscall_count = 0;
      current_syscall_args = record {
        syscall_num = 0;
        arg1 = 0;
        arg2 = 0;
        arg3 = 0;
        arg4 = 0;
        arg5 = 0;
      };
    };
    memory_stats = record {
      total_memory = 0;
      page_allocations = 0;
      page_deallocations = 0;
      page_faults = 0;
    };
  };
}

kmain-Ready_example :
    (s' : System) × (kmain machine linked zeroed ≡ some s') × Ready linked zeroed s'
kmain-Ready_example = kmain-Ready machine linked zeroed (omega arith) (λ r. omega arith)
