-- ===== src/Vga.antt =====
-- drivers/vga/vga.c: the text screen of 25 lines of 80 cells, its cursor and what prints on it. A
-- `char` is the number of its byte; the cells are those from `VGA_MEMORY` on, and a cell past the
-- screen is a cell as well, so that a write there would show.
pub mod Art
pub mod Bounds
pub mod Session
pub mod Page
pub mod Numbers
mod Tests
use pxos.Base.{
  ℕ, zero, suc, ◌+◌, ◌-◌, ◌*◌, ◌/◌, ◌%◌, Bool, true, false, Option, none, some, List, [], ◌∷◌,
  length, codes, ltb, ◌==◌, if◌then◌else◌,
}
use pxos.Base.Int.{ℤ, pos, negsuc}
use pxos.Str.{strlen}
use pxos.Str.Numbers.{int_max, digits_loop}
use pxos.Vga.Art.{pxos_art}

-- The file's static variables, the cells, and the registers of the CRT controller that hold the
-- place of the hardware cursor.
pub record Terminal : Type 0 where
  pub buffer : ℕ → ℕ
  pub row : ℕ
  pub column : ℕ
  pub color : ℕ
  pub crtc : ℕ → ℕ

-- `terminal_buffer[index] = entry`
abbrev pub write : (ℕ → ℕ) → ℕ → ℕ → ℕ → ℕ
write cells index entry j = if j == index then entry else cells j

-- `vga_entry_color`, of two colours below 16, so that `|` adds.
unfoldable pub vga_entry_color : ℕ → ℕ → ℕ
vga_entry_color fg bg = (fg + bg * 16) % 256

-- `vga_entry`
unfoldable pub vga_entry : ℕ → ℕ → ℕ
vga_entry uc color = uc % 256 + color % 256 * 256

-- `vga_update_cursor`: each register is selected by its index and then written.
unfoldable pub vga_update_cursor : Terminal → Terminal
vga_update_cursor t =
    let place = (t.row * 80 + t.column) % 65536 in
    record t { crtc = write (write t.crtc 0x0E (place / 256 % 256)) 0x0F (place % 256) }

-- `vga_hide_cursor`
unfoldable pub vga_hide_cursor : Terminal → Terminal
vga_hide_cursor t = record t { crtc = write t.crtc 0x0A 0x20 }

-- `vga_show_cursor`
unfoldable pub vga_show_cursor : Terminal → Terminal
vga_show_cursor t = vga_update_cursor t

-- `vga_set_color`
unfoldable pub vga_set_color : Terminal → ℕ → ℕ → Terminal
vga_set_color t fg bg = record t { color = vga_entry_color fg bg }

-- `vga_putchar_at`
unfoldable pub vga_putchar_at : Terminal → ℕ → ℕ → ℕ → ℕ → ℕ → Terminal
vga_putchar_at t c fg bg x y = record t {
  buffer = write t.buffer (y * 80 + x) (vga_entry c (vga_entry_color fg bg));
}

-- The loop of `vga_putstr_at` from character `i` on; the column is a byte.
unfoldable pub putstr_at_from : Terminal → List ℕ → ℕ → ℕ → ℕ → ℕ → ℕ → Terminal
putstr_at_from t [] fg bg x y i = t
putstr_at_from t (c ∷ s) fg bg x y i =
    let rest = putstr_at_from (vga_putchar_at t c fg bg ((x + i) % 256) y) s fg bg x y (i + 1) in
    if c == 0 then t else rest

-- `vga_putstr_at`
unfoldable pub vga_putstr_at : Terminal → List ℕ → ℕ → ℕ → ℕ → ℕ → Terminal
vga_putstr_at t s fg bg x y = putstr_at_from t s fg bg x y 0

-- The inner loop of `vga_scroll`: `n` cells of line `y` from column `x` on.
unfoldable pub copy_cells : (ℕ → ℕ) → ℕ → ℕ → ℕ → ℕ → ℕ
copy_cells cells y x zero = cells
copy_cells cells y x (suc n) =
    copy_cells (write cells (y * 80 + x) (cells ((y + 1) * 80 + x))) y (x + 1) n

-- The outer loop: `n` lines from line `y` on.
unfoldable pub copy_lines : (ℕ → ℕ) → ℕ → ℕ → ℕ → ℕ
copy_lines cells y zero = cells
copy_lines cells y (suc n) = copy_lines (copy_cells cells y 0 80) (y + 1) n

-- A loop that puts one entry into `n` cells of line `y` from column `x` on.
unfoldable pub fill_line : (ℕ → ℕ) → ℕ → ℕ → ℕ → ℕ → ℕ → ℕ
fill_line cells y x entry zero = cells
fill_line cells y x entry (suc n) = fill_line (write cells (y * 80 + x) entry) y (x + 1) entry n

-- `vga_scroll`
unfoldable pub vga_scroll : Terminal → Terminal
vga_scroll t = record t {
  buffer = fill_line (copy_lines t.buffer 0 24) 24 0 (vga_entry b' ' t.color) 80;
  row = 24;
  column = 0;
}

-- `terminal_column = 0; if (++terminal_row == VGA_HEIGHT) vga_scroll();`
unfoldable pub new_line : Terminal → Terminal
new_line t =
    let next = record t { row = (t.row + 1) % 256; column = 0 } in
    if next.row == 25 then vga_scroll next else next

-- The case of a backspace.
unfoldable pub backspace : Terminal → Terminal
backspace t =
    if ltb 0 t.column
    then vga_putchar_at (record t { column = t.column - 1 }) b' ' 7 0 (t.column - 1) t.row
    else t

-- The case of any other character; the two halves of the colour are below 16.
unfoldable pub put_visible : Terminal → ℕ → Terminal
put_visible t c =
    let shown = vga_putchar_at t c (t.color % 16) (t.color / 16 % 16) t.column t.row in
    let next = record shown { column = (shown.column + 1) % 256 } in
    if next.column == 80 then new_line next else next

-- `vga_putchar`
unfoldable pub vga_putchar : Terminal → ℕ → Terminal
vga_putchar t c =
    vga_update_cursor
      (if c == 10 then new_line t else if c == 8 then backspace t else put_visible t c)

-- `vga_putstr`
unfoldable pub vga_putstr : Terminal → List ℕ → Terminal
vga_putstr t [] = t
vga_putstr t (c ∷ s) = let rest = vga_putstr (vga_putchar t c) s in if c == 0 then t else rest

-- The blanks of `vga_clear`: `n` lines from line `y` on.
unfoldable pub blank_lines : (ℕ → ℕ) → ℕ → ℕ → ℕ → ℕ → ℕ
blank_lines cells color y zero = cells
blank_lines cells color y (suc n) =
    blank_lines (fill_line cells y 0 (vga_entry b' ' color) 80) color (y + 1) n

-- The inner loop over the art: the characters of one line, at line `y` from column `x` on.
unfoldable pub draw_text : (ℕ → ℕ) → ℕ → ℕ → ℕ → List ℕ → ℕ → ℕ
draw_text cells color y x [] = cells
draw_text cells color y x (c ∷ cs) =
    let rest = draw_text (write cells (y * 80 + x) (vga_entry c color)) color y (x + 1) cs in
    if ltb x 80 then rest else cells

-- The loop over the lines of the art, each centred, while they are on the screen.
unfoldable pub draw_art : (ℕ → ℕ) → ℕ → ℕ → List (List ℕ) → ℕ → ℕ
draw_art cells color y [] = cells
draw_art cells color y (line ∷ lines) =
    let rest =
      draw_art (draw_text cells color y ((80 - strlen line) / 2) line) color (y + 1) lines in
    if ltb y 25 then rest else cells

-- The separator, if there is a line for it.
unfoldable pub draw_separator : (ℕ → ℕ) → ℕ → ℕ → ℕ
draw_separator cells y =
    if ltb y 25 then fill_line cells y 0 (vga_entry b'-' (vga_entry_color 7 0)) 80 else cells

-- `vga_clear`
unfoldable pub vga_clear : Terminal → Terminal
vga_clear t =
    let separator_y = 2 + length pxos_art + 1 in
    let blank = blank_lines t.buffer t.color 0 25 in
    let drawn = draw_art blank (vga_entry_color 11 0) 2 pxos_art in
    vga_update_cursor (record t {
      buffer = draw_separator drawn separator_y;
      row = (separator_y + 2) % 256;
      column = 0;
    })

-- `vga_init`
unfoldable pub vga_init : Terminal → Terminal
vga_init t = vga_clear (record t { row = 0; column = 0; color = vga_entry_color 7 0 })

-- The loops that print the digits collected in `buffer`, the last one first.
unfoldable pub put_backwards : Terminal → List ℕ → Terminal
put_backwards t [] = t
put_backwards t (c ∷ cs) = vga_putchar (put_backwards t cs) c

abbrev pub put_digits : Terminal → Option (List ℕ) → Option Terminal
put_digits t none = none
put_digits t (some ds) = some (put_backwards t ds)

unfoldable pub decimal_digit : ℕ → ℕ
decimal_digit d = b'0' + d

-- `vga_putnum`; `none` is the overflow of `-num` or a loop that does not end within `buffer`.
unfoldable pub vga_putnum : Terminal → ℤ → Option Terminal
vga_putnum t (pos zero) = some (vga_putchar t b'0')
vga_putnum t (pos (suc n)) = put_digits t (digits_loop decimal_digit 10 32 (suc n))
vga_putnum t (negsuc n) =
    if ltb int_max (suc n)
    then none
    else put_digits (vga_putchar t b'-') (digits_loop decimal_digit 10 32 (suc n))

unfoldable pub hex_digit : ℕ → ℕ
hex_digit d = if ltb d 10 then b'0' + d else b'A' + (d - 10)

-- `vga_puthex`; `none` would be a loop that does not end within the 9 bytes of `buffer`.
unfoldable pub vga_puthex : Terminal → ℕ → Option Terminal
vga_puthex t num =
    let prefixed = vga_putstr t (codes "0x") in
    if num == 0
    then some (vga_putchar prefixed b'0')
    else put_digits prefixed (digits_loop hex_digit 16 9 num)
