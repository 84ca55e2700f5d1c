-- ===== src/Shell/Tests.antt =====
-- The theorems on the shell at a small kernel, and runs.
use pxos.Base.{ℕ, ◌-◌, ◌≡◌, refl, arith, true, none, some, List, [], ◌∷◌, codes}
use pxos.Str.{strlen}
use pxos.Heap.{Heap}
use pxos.Process.Life.{zero_pcb, cleared_manager}
use pxos.Fs.State.{FsState}
use pxos.Fs.Files.{File}
use pxos.Fs.Volume.{zero_table, zero_stats}
use pxos.Fs.Listing.{Info, file}
use pxos.Vga.{Terminal, vga_putstr, vga_puthex}
use pxos.Syscall.{Machine}
use pxos.Shell.{State, draw, draw_call, shell_prompt}
use pxos.Shell.Input.{shell_read_input, read_line}
use pxos.Shell.Input.Edit.{Reads, typed_line, shell_read_input-Reads}
use pxos.Shell.Parse.{skip_spaces}
use pxos.Shell.Parse.Words.{
  no_blank, blank, NoBlank, no_letter, letter, Spells, gap, word, more, ends,
}
use pxos.Shell.Numbers.RoundTrip.{ReadBack, parse_hex-vga_puthex}
use pxos.Shell.Actions.Reading.{cat_loop}
use pxos.Shell.Actions.Reading.Total.{Shows, cat_loop-Shows}
use pxos.Shell.Execute.{shell_execute_command}
use pxos.Shell.Execute.Outcomes.{Executes, shell_execute_command-Executes}
use pxos.Shell.Run.{shell_round}
use pxos.Shell.Run.Echo.{shown}
use pxos.Shell.Run.Lines.{Answers, shell_round-Answers}

abbrev machine : Machine
machine = record {
  walk_fuel = 9;
  release_fuel = 9;
  directory_sector = [];
  sector_bytes = λ n o. 97;
  open_frame = 0x9FF00;
}

abbrev volume : FsState
volume = record {
  initialized = true;
  fat_table = zero_table;
  root_dir = [];
  stats = zero_stats;
  current_directory = b'/' ∷ [];
}

abbrev no_heap : Heap
no_heap = record { blocks = []; used_memory = 0; free_memory = 0 }

abbrev handle : ℕ → File
handle n = record { cluster = 2; offset = 0; size = n; mode = 1; valid = true; name = [] }

abbrev no_info : Info
no_info = record { name = []; file_type = file; size = 0; cluster = 0; attr = 0 }

abbrev state : State
state = record {
  kernel = record {
    fs = volume;
    processes = cleared_manager no_heap;
    bytes = λ j. 0;
    files = λ j. handle 0;
    infos = λ p j. no_info;
    pcbs = λ p j. zero_pcb;
  };
  table = record {
    syscall_table = λ j. none;
    syscall_count = 0;
    current_syscall_args = record {
      syscall_num = 0;
      arg1 = 0;
      arg2 = 0;
      arg3 = 0;
      arg4 = 0;
      arg5 = 0;
    };
  };
  memory_stats = record {
    total_memory = 0x10000000;
    page_allocations = 0;
    page_deallocations = 0;
    page_faults = 0;
  };
}

abbrev screen : Terminal
screen = record { buffer = λ i. 0; row = 3; column = 0; color = 7; crtc = λ i. 0 }

-- "ab", a backspace, "c" and Enter.
shell_read_input-Reads_example :
    Reads 64
      (shell_read_input 64 screen (97 ∷ 98 ∷ 8 ∷ 99 ∷ 13 ∷ []))
      (typed_line (64 - 1) [] (97 ∷ 98 ∷ 8 ∷ 99 ∷ 13 ∷ []))
shell_read_input-Reads_example =
    shell_read_input-Reads 64 screen (97 ∷ 98 ∷ 8 ∷ 99 ∷ 13 ∷ []) (omega arith)

typed : typed_line (64 - 1) [] (97 ∷ 98 ∷ 8 ∷ 99 ∷ 13 ∷ []) ≡ some (97 ∷ 99 ∷ [], [])
unfolding typed_line
typed = refl

cd_letters : NoBlank (codes "cd")
cd_letters = letter _ _ refl (letter _ _ refl no_letter)

a_letter : NoBlank (codes "a")
a_letter = letter _ _ refl no_letter

-- " cd a" with a tab behind.
line_spelled : Spells (codes "cd" ∷ codes "a" ∷ []) (codes " cd a\t")
line_spelled = gap _ (b' ' ∷ []) (codes "cd a\t") (blank _ _ refl no_blank) (
    word 99 (100 ∷ []) _ (codes " a\t") cd_letters (omega arith) (
      more b' ' _ (codes "a\t") refl (
        gap _ [] (codes "a\t") no_blank (
          word 97 [] _ (codes "\t") a_letter (omega arith)
            (more 9 [] [] refl (gap [] [] [] no_blank ends))))))

shell_execute_command-Executes_example :
    Executes machine state
      (codes "cd")
      (codes "a" ∷ [])
      (shell_execute_command machine state (codes " cd a\t"))
shell_execute_command-Executes_example =
    shell_execute_command-Executes machine state (codes "cd") (codes "a" ∷ []) (codes " cd a\t")
      line_spelled

cat_loop-Shows_example : Shows (600 - 0) (cat_loop 601 machine volume (handle 600))
cat_loop-Shows_example =
    cat_loop-Shows 601 machine volume (handle 600) refl refl (omega arith) (omega arith)
      (omega arith)

parse_hex-vga_puthex_example :
    (shown : List ℕ) × ReadBack screen (vga_puthex screen 0x200014) 0x200014 shown
parse_hex-vga_puthex_example = parse_hex-vga_puthex screen 0x200014 (omega arith)

-- "ls", two backspaces, "pwd", Enter, and a key for the next line.
abbrev keys : List ℕ
keys = 108 ∷ 115 ∷ 8 ∷ 127 ∷ 112 ∷ 119 ∷ 100 ∷ 13 ∷ 104 ∷ []

shell_round-Answers_example :
    Answers machine state
      (vga_putstr screen (shown 63 [] keys))
      (typed_line 63 [] keys)
      (shell_round machine state screen keys)
shell_round-Answers_example = shell_round-Answers machine state screen keys

line_typed : typed_line 63 [] keys ≡ some (codes "pwd", 104 ∷ [])
unfolding typed_line
line_typed = refl

line_appears : shown 63 [] keys ≡ 108 ∷ 115 ∷ 8 ∷ 8 ∷ 112 ∷ 119 ∷ 100 ∷ 10 ∷ []
unfolding shown
line_appears = refl

-- Enter on an empty line.
entered : (t : Terminal) × (shell_round machine state screen (13 ∷ []) ≡ some (state, t, []))
unfolding shell_round shell_read_input read_line shell_execute_command skip_spaces strlen draw
    draw_call shell_prompt
entered = (_, refl)
