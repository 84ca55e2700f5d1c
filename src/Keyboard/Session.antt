-- ===== src/Keyboard/Session.antt =====
-- The keyboard driver against a queue of characters and the state of the modifier keys.
use pxos.Base.{
  ℕ, ◌%◌, ◌/◌, ◌≡◌, refl, ap, ap₂, ◌∙◌, arith, true, false, not, ◌||◌, Option, none, some, List, [],
  ◌∷◌, ◌==◌, Bool-cases, inl, inr, if◌then◌else◌,
}
use pxos.Keyboard.{
  Modifiers, Keyboard, scancode_to_char, type_char, process_key, process_scancode,
  keyboard_interrupt_handler, keyboard_get_char, keyboard_clear_buffer,
}
use pxos.Keyboard.Ring.{
  IsValid, contents, offered, dequeued, enqueue-IsValid, contents-enqueue, modifiers-enqueue,
  get_char-IsValid, keyboard_get_char-dequeued, clear_buffer-IsValid,
}

-- What a key press or release types: nothing for a release, a modifier or a key with no character.
abbrev pub typed : Modifiers → ℕ → Option ℕ
typed m scancode =
    let code = scancode % 128 in
    if scancode / 128 % 2 == 1
    then none
    else if code == 0x2A || code == 0x36 || code == 0x1D || code == 0x38 || code == 0x3A
    then none
    else if code == 0x1C
    then some 10
    else if code == 0x0E
    then some 8
    else let ch = scancode_to_char code m.shift_pressed m.caps_lock in
      if ch == 0 then none else some ch

abbrev pub offer : List ℕ → Option ℕ → List ℕ
offer q none = q
offer q (some ch) = offered q ch

type_char-IsValid : (k : Keyboard) (code : ℕ) → IsValid k → IsValid (type_char k code)
unfolding type_char
type_char-IsValid k code v = ground (
  arith,
  enqueue-IsValid k (scancode_to_char code k.modifiers.shift_pressed k.modifiers.caps_lock) v,
)

contents-type_char :
    (k : Keyboard) (code : ℕ)
    → IsValid k
    → contents (type_char k code) ≡ (
        let ch = scancode_to_char code k.modifiers.shift_pressed k.modifiers.caps_lock in
        if ch == 0 then contents k else offered (contents k) ch)
unfolding type_char
contents-type_char k code v = ground (
  arith,
  contents-enqueue k (scancode_to_char code k.modifiers.shift_pressed k.modifiers.caps_lock) v,
)

pub process_scancode-IsValid :
    (k : Keyboard) (scancode : ℕ) → IsValid k → IsValid (process_scancode k scancode)
unfolding process_scancode process_key
process_scancode-IsValid k scancode v =
    ground
      (arith, enqueue-IsValid k 10 v, enqueue-IsValid k 8 v, type_char-IsValid k (scancode % 128) v)

-- A scan code adds to the queue what it types with the modifiers of the moment, if there is room.
pub contents-process_scancode :
    (k : Keyboard) (scancode : ℕ)
    → IsValid k
    → contents (process_scancode k scancode) ≡ offer (contents k) (typed k.modifiers scancode)
unfolding process_scancode process_key
contents-process_scancode k scancode v = ground (
  arith,
  contents-enqueue k 10 v,
  contents-enqueue k 8 v,
  contents-type_char k (scancode % 128) v,
)

-- The modifiers after a scan code: Shift, Ctrl and Alt are down while their key is, and each press
-- of Caps Lock turns it over.
abbrev pub modifiers_after : Modifiers → ℕ → Modifiers
modifiers_after m scancode =
    let code = scancode % 128 in
    let pressed = not (scancode / 128 % 2 == 1) in
    record m {
      shift_pressed = if code == 0x2A || code == 0x36 then pressed else m.shift_pressed;
      ctrl_pressed = if code == 0x1D then pressed else m.ctrl_pressed;
      alt_pressed = if code == 0x38 then pressed else m.alt_pressed;
      caps_lock =
          if code == 0x3A then (if pressed then not m.caps_lock else m.caps_lock) else m.caps_lock;
    }

modifiers-type_char : (k : Keyboard) (code : ℕ) → (type_char k code).modifiers ≡ k.modifiers
unfolding type_char
modifiers-type_char k code = ground (
  arith,
  modifiers-enqueue k (scancode_to_char code k.modifiers.shift_pressed k.modifiers.caps_lock),
)

modifiers-process_scancode :
    (k : Keyboard) (scancode : ℕ)
    → (process_scancode k scancode).modifiers ≡ modifiers_after k.modifiers scancode
unfolding process_scancode process_key
modifiers-process_scancode k scancode =
    ground
      (arith, modifiers-enqueue k 10, modifiers-enqueue k 8, modifiers-type_char k (scancode % 128))

-- What happens to the driver: an interrupt, with what the status and data ports give; a read of a
-- character; and a clearing of the buffer.
pub data Event : Type 0 where
  interrupt : ℕ → ℕ → Event
  get : Event
  clear : Event

-- The characters that the reads of a history return, by the code.
unfoldable pub run : Keyboard → List Event → List ℕ
run k [] = []
run k (interrupt status scancode ∷ es) = run (keyboard_interrupt_handler k status scancode) es
run k (get ∷ es) = let (ch, k') = keyboard_get_char k in ch ∷ run k' es
run k (clear ∷ es) = run (keyboard_clear_buffer k) es

-- The same by the queue and the modifiers alone. An interrupt with bit 0 of the status clear is
-- ignored.
pub run_queue : Modifiers → List ℕ → List Event → List ℕ
run_queue m q [] = []
run_queue m q (interrupt status scancode ∷ es) =
    let after = run_queue (modifiers_after m scancode) (offer q (typed m scancode)) es in
    let ignored = run_queue m q es in if status % 2 == 1 then after else ignored
run_queue m q (get ∷ es) = let (ch, q') = dequeued q in ch ∷ run_queue m q' es
run_queue m q (clear ∷ es) = run_queue m [] es

run_ignored :
    (k : Keyboard) (status scancode : ℕ)
    → (status % 2 == 1) ≡ false
    → keyboard_interrupt_handler k status scancode ≡ k
unfolding keyboard_interrupt_handler
run_ignored k status scancode e = rw e

run_handled :
    (k : Keyboard) (status scancode : ℕ)
    → (status % 2 == 1) ≡ true
    → keyboard_interrupt_handler k status scancode ≡ process_scancode k scancode
unfolding keyboard_interrupt_handler
run_handled k status scancode e = rw e

modifiers-get_char : (k : Keyboard) → (keyboard_get_char k).1.modifiers ≡ k.modifiers
unfolding keyboard_get_char
modifiers-get_char k = ground arith

modifiers-clear_buffer : (k : Keyboard) → (keyboard_clear_buffer k).modifiers ≡ k.modifiers
unfolding keyboard_clear_buffer
modifiers-clear_buffer k = refl

-- From a valid ring on, the reads of every history of interrupts, reads and clearings return what a
-- queue of at most 256 characters returns that each scan code is offered to, translated with the
-- modifier keys as the earlier scan codes left them.
pub run-run_queue :
    (k : Keyboard) (es : List Event) → IsValid k → run k es ≡ run_queue k.modifiers (contents k) es
unfolding run run_queue
run-run_queue k [] v = refl
run-run_queue k (interrupt status scancode ∷ es) v = elim (Bool-cases (status % 2 == 1)) [
  | inl e ↦
      rw (run_handled k status scancode e, e)
        (run-run_queue (process_scancode k scancode) es (process_scancode-IsValid k scancode v)
          ∙ ap₂ (λ m q. run_queue m q es) (modifiers-process_scancode k scancode)
              (contents-process_scancode k scancode v))
  | inr e ↦ rw (run_ignored k status scancode e, e) (run-run_queue k es v)
]
run-run_queue k (get ∷ es) v = ap₂ ◌∷◌ (ap (λ r. r.0) taken) (
    run-run_queue (keyboard_get_char k).1 es (get_char-IsValid k v)
    ∙ ap₂ (λ m q. run_queue m q es) (modifiers-get_char k) (ap (λ r. r.1) taken))
  where
    taken :
        ◌≡◌ {A = ℕ × List ℕ}
          ((keyboard_get_char k).0, contents (keyboard_get_char k).1)
          (dequeued (contents k))
    taken = (keyboard_get_char-dequeued k v).0
run-run_queue k (clear ∷ es) v =
    run-run_queue (keyboard_clear_buffer k) es (clear_buffer-IsValid k).0
    ∙ ap₂ (λ m q. run_queue m q es) (modifiers-clear_buffer k) (clear_buffer-IsValid k).1
