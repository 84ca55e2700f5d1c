-- ===== src/Shell/Input.antt =====
-- `shell_read_input` of kernel/kernel.c. The characters are those that `keyboard_get_char` returns
-- while the loop runs, in their order; the waits for input in between change nothing.
pub mod Edit
use pxos.Base.{
  ℕ, zero, suc, ◌+◌, ◌-◌, Bool, true, false, ◌&&◌, ◌||◌, Option, none, some, List, [], ◌∷◌, set,
  replicate, ltb, leb, ◌==◌, if◌then◌else◌,
}
use pxos.Vga.{Terminal, vga_putchar}

-- The local variables, with the screen.
pub record Line : Type 0 where
  pub buffer : List ℕ
  pub place : ℕ
  pub screen : Terminal

abbrev pub is_enter : ℕ → Bool
is_enter ch = ch == 13 || ch == 10

abbrev pub is_backspace : ℕ → Bool
is_backspace ch = ch == 8 || ch == 127

-- Of a `char`, which is signed, so that a byte from 128 on is not printable.
abbrev pub is_printable : ℕ → Bool
is_printable ch = leb 32 ch && leb ch 126

-- The branches for a character that does not end the line.
unfoldable pub edit_line : Line → ℕ → Line
edit_line l ch =
    if is_backspace ch
    then (if ltb 0 l.place
        then record {
          buffer = set l.buffer (l.place - 1) 0;
          place = l.place - 1;
          screen = vga_putchar l.screen 8;
        }
        else l)
    else if is_printable ch
    then record {
      buffer = set l.buffer l.place ch;
      place = l.place + 1;
      screen = vga_putchar l.screen ch;
    }
    else l

-- `buffer[pos] = '\0'` behind the loop.
abbrev pub end_line : Line → Line
end_line l = record l { buffer = set l.buffer l.place 0 }

-- The loop, with the characters that are left; `none`: it still waits for input.
unfoldable pub read_line : ℕ → Line → List ℕ → Option (Line × List ℕ)
read_line max_length l [] = if ltb l.place (max_length - 1) then none else some (end_line l, [])
read_line max_length l (ch ∷ cs) =
    let rest = read_line max_length (edit_line l ch) cs in
    if ltb l.place (max_length - 1)
    then (if is_enter ch
        then some (end_line (record l { screen = vga_putchar l.screen 10 }), cs)
        else rest)
    else some (end_line l, ch ∷ cs)

-- `shell_read_input` into a buffer of `max_length` bytes.
unfoldable pub shell_read_input : ℕ → Terminal → List ℕ → Option (Line × List ℕ)
shell_read_input max_length screen cs =
    read_line max_length (record { buffer = replicate max_length 0; place = 0; screen = screen }) cs
