-- ===== src/Interrupts.antt =====
-- kernel/interrupt.c: the interrupt controller and the descriptor table, and the handlers. A handler
-- is entered by address, which the linker gives it: `address` is an argument, and so is that of the
-- table. Loading the table and returning from an interrupt are assembly.
pub mod Gates
mod Tests
use pxos.Base.{
  ℕ, zero, suc, ◌*◌, ◌-◌, ◌/◌, ◌%◌, ◌^◌, Option, none, List, [], ◌∷◌, ◌++◌, codes, ◌==◌,
  if◌then◌else◌,
}
use pxos.Vga.{Terminal, vga_putstr, vga_set_color}
use pxos.Keyboard.{Keyboard, keyboard_interrupt_handler}

-- `idt_entry_t`
pub record Gate : Type 0 where
  pub offset_low : ℕ
  pub selector : ℕ
  pub reserved : ℕ
  pub type_attr : ℕ
  pub offset_high : ℕ

-- The C functions whose addresses are put into the table, without their suffix `_handler`.
pub data Exception : Type 0 where
  divide_by_zero debug nmi breakpoint overflow bound_range invalid_opcode : Exception
  device_not_available double_fault coprocessor_segment invalid_tss : Exception
  segment_not_present stack_fault general_protection page_fault fpu_error : Exception
  alignment_check machine_check simd_fpu_error : Exception

-- All that are put there: the others are labels of the assembly files.
pub data Routine : Type 0 where
  on : Exception → Routine
  interrupt_handler_32 interrupt_handler_33 syscall_entry : Routine

-- The static variables, and the bytes that were sent to the interrupt controllers' ports, the last
-- one at the end.
pub record Interrupts : Type 0 where
  pub idt : ℕ → Gate
  pub limit : ℕ
  pub base : ℕ
  pub interrupt_handlers : ℕ → Option ℕ
  pub ports : List (ℕ × ℕ)

-- `pic_init`
unfoldable pub pic_init : Interrupts → Interrupts
pic_init s = record s {
  ports =
      s.ports
      ++ (0x20, 0x11)
        ∷ (0x21, 0x20)
        ∷ (0x21, 0x04)
        ∷ (0x21, 0x01)
        ∷ (0xA0, 0x11)
        ∷ (0xA1, 0x28)
        ∷ (0xA1, 0x02)
        ∷ (0xA1, 0x01)
        ∷ (0x21, 0xFD)
        ∷ [];
}

-- The entry that `idt_set_entry` writes.
abbrev pub gate : ℕ → ℕ → ℕ → Gate
gate handler selector attributes = record {
  offset_low = handler % 65536;
  selector = selector;
  reserved = 0;
  type_attr = attributes;
  offset_high = handler / 65536 % 65536;
}

-- `idt_set_entry`; the index is a byte.
unfoldable pub idt_set_entry : (ℕ → Gate) → ℕ → ℕ → ℕ → ℕ → ℕ → Gate
idt_set_entry idt index handler selector attributes j =
    if j == index % 256 then gate handler selector attributes else idt j

-- The loop of `idt_init` over the first `n` entries.
unfoldable pub clear_entries : ℕ → (ℕ → Gate) → ℕ → Gate
clear_entries zero idt = idt
clear_entries (suc n) idt = idt_set_entry (clear_entries n idt) n 0 0 0

unfoldable pub clear_handlers : ℕ → (ℕ → Option ℕ) → ℕ → Option ℕ
clear_handlers zero handlers j = handlers j
clear_handlers (suc n) handlers j = if j == n then none else clear_handlers n handlers j

-- The entries that are set: the vector, the function and the attributes. Present are all; 0x60 is
-- the privilege level 3, 0x0E an interrupt and 0x0F a trap.
abbrev pub vectors : List (ℕ × Routine × ℕ)
vectors =
    (0, on divide_by_zero, 0x8E)
    ∷ (1, on debug, 0x8E)
    ∷ (2, on nmi, 0x8E)
    ∷ (3, on breakpoint, 0xEF)
    ∷ (4, on overflow, 0x8E)
    ∷ (5, on bound_range, 0x8E)
    ∷ (6, on invalid_opcode, 0x8E)
    ∷ (7, on device_not_available, 0x8E)
    ∷ (8, on double_fault, 0x8E)
    ∷ (9, on coprocessor_segment, 0x8E)
    ∷ (10, on invalid_tss, 0x8E)
    ∷ (11, on segment_not_present, 0x8E)
    ∷ (12, on stack_fault, 0x8E)
    ∷ (13, on general_protection, 0x8E)
    ∷ (14, on page_fault, 0x8E)
    ∷ (16, on fpu_error, 0x8E)
    ∷ (17, on alignment_check, 0x8E)
    ∷ (18, on machine_check, 0x8E)
    ∷ (19, on simd_fpu_error, 0x8E)
    ∷ (32, interrupt_handler_32, 0x8E)
    ∷ (33, interrupt_handler_33, 0x8E)
    ∷ (0x80, syscall_entry, 0xEF)
    ∷ []

-- The calls of `idt_set_entry`, one after the other.
unfoldable pub set_vectors : (Routine → ℕ) → (ℕ → Gate) → List (ℕ × Routine × ℕ) → ℕ → Gate
set_vectors address idt [] = idt
set_vectors address idt ((index, routine, attributes) ∷ vs) =
    set_vectors address (idt_set_entry idt index (address routine) 8 attributes) vs

-- `idt_init`, with the address of `idt`; 256 entries of 8 bytes.
unfoldable pub idt_init : (Routine → ℕ) → ℕ → Interrupts → Interrupts
idt_init address idt_address s =
    let p = pic_init s in
    record p {
      limit = 256 * 8 - 1;
      base = idt_address;
      idt = set_vectors address (clear_entries 256 p.idt) vectors;
      interrupt_handlers = clear_handlers 256 p.interrupt_handlers;
    }

-- The handlers show a text in a colour.
abbrev show : ℕ → List ℕ → Terminal → Terminal
show fg message t = vga_set_color (vga_putstr (vga_set_color t fg 0) message) 7 0

-- `interrupt_handler_common` and `exception_handler_common`
unfoldable pub interrupt_handler_common : Terminal → Terminal
interrupt_handler_common t = show 12 (codes "Unhandled interrupt occurred!\n") t

unfoldable pub exception_handler_common : Terminal → Terminal
exception_handler_common t = show 12 (codes "Unhandled exception occurred!\n") t

-- `divide_by_zero_handler` .. `simd_fpu_error_handler`
unfoldable pub run_handler : Exception → Terminal → Terminal
run_handler divide_by_zero t = show 12 (codes "Exception: Division by Zero!\n") t
run_handler debug t = show 14 (codes "Debug exception occurred.\n") t
run_handler nmi t = show 13 (codes "NMI (Non-Maskable Interrupt) occurred.\n") t
run_handler breakpoint t = show 11 (codes "Breakpoint exception occurred.\n") t
run_handler overflow t = show 12 (codes "Exception: Overflow!\n") t
run_handler bound_range t = show 12 (codes "Exception: Bound Range Exceeded!\n") t
run_handler invalid_opcode t = show 12 (codes "Exception: Invalid Opcode!\n") t
run_handler device_not_available t = show 14 (codes "Exception: Device Not Available!\n") t
run_handler double_fault t = show 12 (codes "FATAL: Double Fault!\n") t
run_handler coprocessor_segment t = show 12 (codes "Exception: Coprocessor Segment Overrun!\n") t
run_handler invalid_tss t = show 12 (codes "Exception: Invalid TSS!\n") t
run_handler segment_not_present t = show 12 (codes "Exception: Segment Not Present!\n") t
run_handler stack_fault t = show 12 (codes "Exception: Stack Fault!\n") t
run_handler general_protection t = show 12 (codes "Exception: General Protection Fault!\n") t
run_handler page_fault t = show 12 (codes "Exception: Page Fault!\n") t
run_handler fpu_error t = show 14 (codes "Exception: FPU Error!\n") t
run_handler alignment_check t = show 12 (codes "Exception: Alignment Check!\n") t
run_handler machine_check t = show 12 (codes "FATAL: Machine Check!\n") t
run_handler simd_fpu_error t = show 14 (codes "Exception: SIMD FPU Error!\n") t

-- The end of an interrupt for the first controller.
abbrev pub end_of_interrupt : Interrupts → Interrupts
end_of_interrupt s = record s { ports = s.ports ++ (0x20, 0x20) ∷ [] }

-- `timer_handler`; its counter is never read.
unfoldable pub timer_handler : Interrupts → Interrupts
timer_handler s = end_of_interrupt s

-- `keyboard_handler`, with the status and the scan code that the keyboard's ports hold.
unfoldable pub keyboard_handler : Keyboard → Interrupts → ℕ → ℕ → Keyboard × Interrupts
keyboard_handler k s status scancode =
    (keyboard_interrupt_handler k status scancode, end_of_interrupt s)
