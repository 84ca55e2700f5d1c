-- ===== src/Vga/Tests.antt =====
-- The theorems on the screen at concrete terminals, and runs.
use pxos.Base.{◌≡◌, refl, arith, codes}
use pxos.Str.{strlen}
use pxos.Vga.{
  Terminal, vga_entry_color, vga_entry, vga_update_cursor, vga_putchar_at, copy_cells, copy_lines,
  fill_line, vga_scroll, new_line, put_visible, vga_putchar, vga_putstr, blank_lines, draw_text,
  draw_art, draw_separator, vga_clear, vga_init, putstr_at_from, vga_putstr_at,
}
use pxos.Vga.Bounds.{Safe}
use pxos.Vga.Session.{call, start, putstr, Session-Safe}
use pxos.Vga.Page.{page, typed_all, page-vga_putstr}

abbrev power_on : Terminal
power_on = record { buffer = λ i. 0; row = 0; column = 0; color = 7; crtc = λ i. 0 }

-- The cursor in the last cell.
abbrev corner : Terminal
corner = record { buffer = λ i. i; row = 24; column = 79; color = 7; crtc = λ i. 0 }

Session-Safe_example : Safe power_on (vga_putstr (vga_init power_on) (codes "ready"))
Session-Safe_example = Session-Safe (call start (putstr (vga_init power_on) (codes "ready")))

page-vga_putstr_example :
    page (vga_putstr corner (codes "ab")) ≡ typed_all 7 (page corner) (codes "ab")
page-vga_putstr_example =
    page-vga_putstr corner (codes "ab") (record { row_in = omega arith; column_in = omega arith })

-- Behind the last cell the page rolls: the last line holds the second character at its start.
rolled_cell : (vga_putstr corner (codes "ab")).buffer 1920 ≡ 0x0762
unfolding vga_putstr vga_putchar vga_update_cursor put_visible vga_putchar_at new_line vga_scroll
    copy_lines copy_cells fill_line vga_entry vga_entry_color
rolled_cell = refl

rolled_above : (vga_putstr corner (codes "ab")).buffer 1919 ≡ 0x0761
unfolding vga_putstr vga_putchar vga_update_cursor put_visible vga_putchar_at new_line vga_scroll
    copy_lines copy_cells fill_line vga_entry vga_entry_color
rolled_above = refl

-- A slash of the banner, in light cyan.
banner_cell : (vga_init power_on).buffer 260 ≡ 0x0B2F
unfolding vga_init vga_clear vga_update_cursor blank_lines fill_line draw_art draw_text
    draw_separator vga_entry vga_entry_color strlen
banner_cell = refl

-- The column of `vga_putstr_at` is a byte.
at_column : (vga_putstr_at power_on (codes "xy") 2 0 255 1).buffer 80 ≡ 0x0279
unfolding vga_putstr_at putstr_at_from vga_putchar_at vga_entry vga_entry_color
at_column = refl
