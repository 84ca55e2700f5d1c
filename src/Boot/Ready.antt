-- ===== src/Boot/Ready.antt =====
-- The state in which `kmain` of kernel/kernel.c leaves the parts to the shell.
use mathlib.Core.Path.{subst}
use pxos.Base.{
  ℕ, ◌+◌, ◌^◌, ◌≡◌, ◌≢◌, ◌≤◌, ◌<◌, refl, ap, ap₂, ◌∙◌, arith, none, some, List, [], ◌∷◌, ltb, ◌==◌,
  if◌then◌else◌, if_cases,
}
use pxos.Heap.Api.{IsValid}
use pxos.Heap.Free.{heap_init-IsValid}
use pxos.Fs.State.{success}
use pxos.Fs.Volume.{fs_init}
use pxos.Fs.Volume.Fresh.{IsEmpty, fs_init-IsEmpty}
use pxos.Keyboard.{keyboard_init}
use pxos.Paging.{get_physical_address}
use pxos.Paging.Init.{paging_init_identity}
use pxos.Process.Life.{allocate_pcb, find_unused, process_manager_init}
use pxos.Vga.{Terminal, vga_init}
use pxos.Vga.Bounds.{Safe, Safe-trans}
use pxos.Vga.Session.{SafeResult, Session-Safe, start}
use pxos.Vga.Numbers.{vga_puthex-Shows}
use pxos.Interrupts.{Routine, gate, idt_set_entry}
use pxos.Interrupts.Gates.{Enters, idt_init-Enters}
use pxos.Syscall.{Machine}
use pxos.Shell.{
  State, Call, text, char, hex, color, clear, syscalls, draw_call, draw, shell_prompt, shell_init,
}
use pxos.Shell.Run.Screen.{draw-SafeResult}
use pxos.Boot.{
  System, Linked, memory_init, memory_lines, fs_lines, fs_code, process_code, boot_lines,
  initialised, on_screen, kmain,
}

-- Calls with numbers of 32 bits.
abbrev Plain : List Call → Type 0
Plain [] = 0 ≤ 0
Plain (text s ∷ cs) = Plain cs
Plain (char c ∷ cs) = Plain cs
Plain (hex n ∷ cs) = (n < 2 ^ 32) × Plain cs
Plain (color c ∷ cs) = Plain cs
Plain (clear ∷ cs) = Plain cs
Plain (syscalls t ∷ cs) = 1 ≤ 0

draw_returns : (cs : List Call) (t : Terminal) → Plain cs → (u : Terminal) × (draw t cs ≡ some u)
unfolding draw draw_call
draw_returns [] t p = (t, refl)
draw_returns (text s ∷ cs) t p = draw_returns cs _ p
draw_returns (char c ∷ cs) t p = draw_returns cs _ p
draw_returns (hex n ∷ cs) t p =
    let shown = vga_puthex-Shows t n p.0 in
    let later = draw_returns cs _ p.1 in
    (later.0, ap (λ r. elim r [ none ↦ none | some u ↦ draw u cs ]) shown.1.printed ∙ later.1)
draw_returns (color c ∷ cs) t p = draw_returns cs _ p
draw_returns (clear ∷ cs) t p = draw_returns cs _ p
draw_returns (syscalls table ∷ cs) t p = absurd (omega (arith, p))

boot_lines-Plain : (s : State) → Plain (boot_lines success none s)
unfolding boot_lines memory_lines fs_lines fs_code process_code shell_init shell_prompt
boot_lines-Plain s = (omega arith, omega arith)

manager_started : (s : System) → (process_manager_init s.state.kernel.processes.heap).0 ≡ none
unfolding process_manager_init allocate_pcb find_unused
manager_started s = refl

-- The lines are those of success, and end.
boot_drawn :
    (s m : System) (st : State)
    → (u : Terminal) × (draw (vga_init s.screen) (
          boot_lines
            (fs_init m.state.kernel.fs).0
            (process_manager_init m.state.kernel.processes.heap).0
            st)
        ≡ some u)
boot_drawn s m st =
    let drawn =
      draw_returns (boot_lines success none st) (vga_init s.screen) (boot_lines-Plain st) in
    (
      drawn.0,
      ap₂ (λ fs ps. draw (vga_init s.screen) (boot_lines fs ps st))
            (fs_init-IsEmpty m.state.kernel.fs).0 (manager_started m)
          ∙ drawn.1,
    )

-- A booted kernel.
pub record Ready (l : Linked) (s s' : System) : Type 0 where
  pub files : IsEmpty s'.state.kernel.fs
  pub heap : IsValid s'.state.kernel.processes.heap
  pub idle : s'.state.kernel.processes.running_process ≡ some 0
  pub identity :
      (w : ℕ) → w < 2 ^ 32 → get_physical_address s'.paging w ≡ (if ltb w 0x400000 then w else 0)
  pub no_key : s'.keyboard.count ≡ 0
  pub screen : Safe s.screen s'.screen
  pub gates : (j : ℕ) → j < 256 → j ≢ 0x80 → Enters l.routine j (s'.interrupts.idt j)
  pub syscall_gate : s'.interrupts.idt 0x80 ≡ gate l.syscall_handler 8 0xEF

initialised-Ready :
    (c : Machine) (l : Linked) (s : System) (t : Terminal)
    → s.paging.next_table + 1280 < 2 ^ 20
    → ((r : Routine) → l.routine r < 2 ^ 32)
    → Safe s.screen t
    → Ready l s (record (initialised c l s) { screen = t })
unfolding initialised memory_init keyboard_init process_manager_init allocate_pcb find_unused
    idt_set_entry
initialised-Ready c l s t room small safe = record {
  files = (fs_init-IsEmpty s.state.kernel.fs).1;
  heap = heap_init-IsValid _;
  idle = refl;
  identity = (paging_init_identity s.paging room).1;
  no_key = refl;
  screen = safe;
  gates = λ j h ne.
      if_cases (Enters l.routine j) (j == 0x80) _ _ (λ t. absurd (ground (arith, t, ne)))
        (λ f. idt_init-Enters l.routine l.idt_address s.interrupts j small h);
  syscall_gate = refl;
}

-- `kmain` reaches the shell's loop, where the page tables are taken from below the last 1280 pages
-- and addresses have 32 bits: with a mounted, empty filesystem, a heap in order, the idle process
-- running, the first 4 MB mapped to themselves and nothing else, no key waiting, the cursor on the
-- screen and no cell past it changed, the gates of `idt_init`, and in the gate of vector 0x80 the
-- function `syscall_handler` in place of the assembly entry.
pub kmain-Ready :
    (c : Machine) (l : Linked) (s : System)
    → s.paging.next_table + 1280 < 2 ^ 20
    → ((r : Routine) → l.routine r < 2 ^ 32)
    → (s' : System) × (kmain c l s ≡ some s') × Ready l s s'
unfolding kmain SafeResult
kmain-Ready c l s room small =
    let booted = initialised c l s in
    let drawn = boot_drawn s (memory_init s) booted.state in
    let first = Session-Safe {t₀ = s.screen} start in
    (
      record booted { screen = drawn.0 },
      ap (on_screen booted) drawn.1,
      initialised-Ready c l s drawn.0 room small (
          Safe-trans first (
            subst (SafeResult (vga_init s.screen)) drawn.1
              (draw-SafeResult (vga_init s.screen) _ first.on_screen))),
    )
