-- ===== src/Keyboard.antt =====
-- drivers/keyboard/keyboard.c: the translation of scan codes, the modifier keys and the ring of
-- characters that the interrupt handler fills and the kernel drains. A `char` is the number of its
-- byte; the port accesses and `hlt` are left out.
pub mod Ring
pub mod Session
pub mod Keys
mod Tests
use pxos.Base.{
  ℕ, zero, suc, ◌+◌, ◌-◌, ◌%◌, ◌/◌, Bool, true, false, not, ◌&&◌, ◌||◌, Option, none, some, List,
  [], ◌∷◌, ◌++◌, replicate, get_or, set, ltb, leb, ◌==◌, if◌then◌else◌,
}

abbrev pub buffer_size : ℕ
buffer_size = 256

-- `keyboard_state_t`
pub record Modifiers : Type 0 where
  pub shift_pressed : Bool
  pub ctrl_pressed : Bool
  pub alt_pressed : Bool
  pub caps_lock : Bool
  pub num_lock : Bool
  pub scroll_lock : Bool

-- The file's static variables.
pub record Keyboard : Type 0 where
  pub modifiers : Modifiers
  pub input_buffer : List ℕ
  pub head : ℕ
  pub tail : ℕ
  pub count : ℕ

abbrev no_modifiers : Modifiers
no_modifiers = record {
  shift_pressed = false;
  ctrl_pressed = false;
  alt_pressed = false;
  caps_lock = false;
  num_lock = false;
  scroll_lock = false;
}

-- `keyboard_init`
unfoldable pub keyboard_init : Keyboard
keyboard_init = record {
  modifiers = no_modifiers;
  input_buffer = replicate 256 0;
  head = 0;
  tail = 0;
  count = 0;
}

-- `scancode_map`, row by row up to the last character.
abbrev pub scancode_map : List ℕ
scancode_map =
    0 ∷ 0 ∷ b'1' ∷ b'2' ∷ b'3' ∷ b'4' ∷ b'5' ∷ b'6' ∷ b'7' ∷ b'8' ∷ b'9' ∷ b'0' ∷ b'-' ∷ b'=' ∷ 0
    ∷ 0 ∷ b'q' ∷ b'w' ∷ b'e' ∷ b'r' ∷ b't' ∷ b'y' ∷ b'u' ∷ b'i' ∷ b'o' ∷ b'p' ∷ b'[' ∷ b']' ∷ 0 ∷ 0
    ∷ b'a' ∷ b's' ∷ b'd' ∷ b'f' ∷ b'g' ∷ b'h' ∷ b'j' ∷ b'k' ∷ b'l' ∷ b';' ∷ 39 ∷ 0 ∷ 0 ∷ 0 ∷ b'z'
    ∷ b'x' ∷ b'c' ∷ b'v' ∷ b'b' ∷ b'n' ∷ b'm' ∷ b',' ∷ b'.' ∷ b'/' ∷ 0 ∷ 0 ∷ 0 ∷ b' ' ∷ []

-- `shift_map`
abbrev pub shift_map : List ℕ
shift_map =
    0 ∷ 0 ∷ b'!' ∷ b'@' ∷ b'#' ∷ b'$' ∷ b'%' ∷ b'^' ∷ b'&' ∷ b'*' ∷ b'(' ∷ b')' ∷ b'_' ∷ b'+' ∷ 0
    ∷ 0 ∷ b'Q' ∷ b'W' ∷ b'E' ∷ b'R' ∷ b'T' ∷ b'Y' ∷ b'U' ∷ b'I' ∷ b'O' ∷ b'P' ∷ b'{' ∷ b'}' ∷ 0 ∷ 0
    ∷ b'A' ∷ b'S' ∷ b'D' ∷ b'F' ∷ b'G' ∷ b'H' ∷ b'J' ∷ b'K' ∷ b'L' ∷ b':' ∷ b'"' ∷ 0 ∷ 0 ∷ 0 ∷ b'Z'
    ∷ b'X' ∷ b'C' ∷ b'V' ∷ b'B' ∷ b'N' ∷ b'M' ∷ b'<' ∷ b'>' ∷ b'?' ∷ 0 ∷ 0 ∷ 0 ∷ b' ' ∷ []

-- `is_special_key`
unfoldable pub is_special_key : ℕ → Bool
is_special_key k =
    k == 0x01 || k == 0x0F || k == 0x3A || k == 0x2A || k == 0x36 || k == 0x1D || k == 0x38

-- The Caps Lock step of `scancode_to_char`.
unfoldable pub apply_caps : Bool → ℕ → ℕ
apply_caps caps c =
    if caps && leb b'a' c && leb c b'z'
    then c - b'a' + b'A'
    else if caps && leb b'A' c && leb c b'Z'
    then c - b'A' + b'a'
    else c

-- `scancode_to_char`
unfoldable pub scancode_to_char : ℕ → Bool → Bool → ℕ
scancode_to_char k shift caps =
    if leb 128 k
    then 0
    else if is_special_key k
    then 0
    else apply_caps caps (if shift then get_or shift_map k 0 else get_or scancode_map k 0)

-- The three places of `process_scancode` that append a character.
unfoldable pub enqueue : Keyboard → ℕ → Keyboard
enqueue k ch =
    if ltb k.count buffer_size
    then record k {
      input_buffer = set k.input_buffer k.tail ch;
      tail = (k.tail + 1) % buffer_size;
      count = k.count + 1;
    }
    else k

-- The `default` case, of a key that is pressed.
unfoldable pub type_char : Keyboard → ℕ → Keyboard
type_char k code =
    let ch = scancode_to_char code k.modifiers.shift_pressed k.modifiers.caps_lock in
    if ch == 0 then k else enqueue k ch

-- The `switch` of `process_scancode`.
unfoldable pub process_key : Keyboard → ℕ → Bool → Keyboard
process_key k code released =
    if code == 0x2A || code == 0x36
    then record k { modifiers = record (k.modifiers) { shift_pressed = not released } }
    else if code == 0x1D
    then record k { modifiers = record (k.modifiers) { ctrl_pressed = not released } }
    else if code == 0x38
    then record k { modifiers = record (k.modifiers) { alt_pressed = not released } }
    else if code == 0x3A
    then (if released then k else record k {
      modifiers = record (k.modifiers) { caps_lock = not k.modifiers.caps_lock };
    })
    else if code == 0x1C
    then (if released then k else enqueue k 10)
    else if code == 0x0E
    then (if released then k else enqueue k 8)
    else if released
    then k
    else type_char k code

-- `process_scancode`: bit 7 tells a release.
unfoldable pub process_scancode : Keyboard → ℕ → Keyboard
process_scancode k scancode = process_key k (scancode % 128) (scancode / 128 % 2 == 1)

-- `keyboard_interrupt_handler`, with the values that the two ports give.
unfoldable pub keyboard_interrupt_handler : Keyboard → ℕ → ℕ → Keyboard
keyboard_interrupt_handler k status scancode =
    if not (status % 2 == 1) then k else process_scancode k scancode

-- `keyboard_get_char`
unfoldable pub keyboard_get_char : Keyboard → ℕ × Keyboard
keyboard_get_char k = if k.count == 0 then (0, k) else (
  get_or k.input_buffer k.head 0,
  record k { head = (k.head + 1) % buffer_size; count = k.count - 1 },
)

-- `keyboard_has_input`
unfoldable pub keyboard_has_input : Keyboard → Bool
keyboard_has_input k = ltb 0 k.count

-- `keyboard_clear_buffer`
unfoldable pub keyboard_clear_buffer : Keyboard → Keyboard
keyboard_clear_buffer k = record k { head = 0; tail = 0; count = 0; input_buffer = replicate 256 0 }
