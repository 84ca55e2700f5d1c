-- ===== src/Interrupts/Tests.antt =====
-- The theorem on the descriptor table at concrete addresses, and runs.
use pxos.Base.{ℕ, ◌≡◌, ◌<◌, refl, arith, none, []}
use pxos.Interrupts.{
  Routine, on, interrupt_handler_32, interrupt_handler_33, syscall_entry, Interrupts, gate,
  idt_set_entry, clear_entries, set_vectors, pic_init, idt_init,
}
use pxos.Interrupts.Gates.{Enters, idt_init-Enters}

abbrev address : Routine → ℕ
address (on e) = 0x12000
address interrupt_handler_32 = 0x13000
address interrupt_handler_33 = 0x13040
address syscall_entry = 0x14000

abbrev power_on : Interrupts
power_on = record {
  idt = λ j. gate 7 7 7;
  limit = 0;
  base = 0;
  interrupt_handlers = λ j. none;
  ports = [];
}

address_small : (r : Routine) → address r < 0x100000000
address_small (on e) = omega arith
address_small interrupt_handler_32 = omega arith
address_small interrupt_handler_33 = omega arith
address_small syscall_entry = omega arith

idt_init-Enters_example : Enters address 33 ((idt_init address 0x20000 power_on).idt 33)
idt_init-Enters_example = idt_init-Enters address 0x20000 power_on 33 address_small (omega arith)

keyboard_gate :
    (idt_init address 0x20000 power_on).idt 33
    ≡ record { offset_low = 0x3040; selector = 8; reserved = 0; type_attr = 0x8E; offset_high = 1 }
unfolding idt_init pic_init set_vectors idt_set_entry
keyboard_gate = refl

-- Vector 15 has no handler.
vacant_gate : (idt_init address 0x20000 power_on).idt 15 ≡ gate 0 0 0
unfolding idt_init pic_init set_vectors idt_set_entry clear_entries
vacant_gate = refl
