-- ===== src/Keyboard/Tests.antt =====
-- The theorems of the keyboard driver at concrete states, and runs.
use pxos.Base.{◌≡◌, refl, arith, true, List, [], ◌∷◌}
use pxos.Keyboard.{
  keyboard_init, keyboard_get_char, keyboard_interrupt_handler, process_scancode, process_key,
  type_char, enqueue, scancode_to_char, is_special_key, apply_caps,
}
use pxos.Keyboard.Ring.{contents, keyboard_init-IsValid}
use pxos.Keyboard.Session.{Event, interrupt, get, run, run_queue, run-run_queue}
use pxos.Keyboard.Keys.{expected, scancode_to_char-expected}

-- Shift down, `a`, Shift up, `a`, a status with no data, two reads, an empty read.
abbrev session : List Event
session =
    interrupt 1 0x2A
    ∷ interrupt 1 0x1E
    ∷ interrupt 1 0xAA
    ∷ interrupt 1 0x1E
    ∷ interrupt 0 0x1E
    ∷ get
    ∷ get
    ∷ get
    ∷ []

run-session : run keyboard_init session ≡ b'A' ∷ b'a' ∷ 0 ∷ []
unfolding run keyboard_init keyboard_interrupt_handler process_scancode process_key type_char
    enqueue scancode_to_char is_special_key apply_caps keyboard_get_char
run-session = refl

run-run_queue_example :
    run keyboard_init session ≡ run_queue keyboard_init.modifiers (contents keyboard_init) session
run-run_queue_example = run-run_queue keyboard_init session keyboard_init-IsValid.0

scancode_to_char-expected_example : scancode_to_char 0x1E true true ≡ expected 0x1E true true
scancode_to_char-expected_example = scancode_to_char-expected 0x1E true true (omega arith)
