-- ===== src/Vga/Bounds.antt =====
-- The screen of drivers/vga/vga.c is never written outside its 2000 cells.
use pxos.Base.{
  ℕ, zero, suc, ◌+◌, ◌-◌, ◌*◌, ◌/◌, ◌%◌, ◌≡◌, ◌≤◌, ◌<◌, refl, ◌∙◌, arith, List, [], ◌∷◌, ltb, ◌==◌,
  if_cases,
}
use pxos.Vga.{
  Terminal, write, vga_entry_color, vga_entry, vga_update_cursor, vga_putchar_at, copy_cells,
  copy_lines, fill_line, vga_scroll, new_line, backspace, put_visible, vga_putchar, vga_putstr,
  put_backwards,
}

-- The same cells past the screen.
abbrev pub SameBeyond : (ℕ → ℕ) → (ℕ → ℕ) → Type 0
SameBeyond cells cells' = (j : ℕ) → 2000 ≤ j → cells' j ≡ cells j

pub SameBeyond-trans : {a b c : ℕ → ℕ} → SameBeyond a b → SameBeyond b c → SameBeyond a c
SameBeyond-trans p q j h = q j h ∙ p j h

-- The cursor is on the screen.
pub record OnScreen (t : Terminal) : Type 0 where
  pub row_in : t.row < 25
  pub column_in : t.column < 80

-- What every operation keeps: the cursor on the screen, and the cells past it.
pub record Safe (t t' : Terminal) : Type 0 where
  pub on_screen : OnScreen t'
  pub beyond : SameBeyond t.buffer t'.buffer

pub Safe-trans : {a b c : Terminal} → Safe a b → Safe b c → Safe a c
Safe-trans p q = record { on_screen = q.on_screen; beyond = SameBeyond-trans p.beyond q.beyond }

pub write-SameBeyond :
    (cells : ℕ → ℕ) (y x v : ℕ) → y < 25 → x < 80 → SameBeyond cells (write cells (y * 80 + x) v)
write-SameBeyond cells y x v hy hx j h = ground arith

pub fill_line-SameBeyond :
    (cells : ℕ → ℕ) (y x v n : ℕ) → y < 25 → x + n ≤ 80 → SameBeyond cells (fill_line cells y x v n)
unfolding fill_line
fill_line-SameBeyond cells y x v zero hy hx = λ j h. refl
fill_line-SameBeyond cells y x v (suc n) hy hx =
    SameBeyond-trans (write-SameBeyond cells y x v hy (omega arith))
      (fill_line-SameBeyond (write cells (y * 80 + x) v) y (x + 1) v n hy (omega arith))

copy_cells-SameBeyond :
    (cells : ℕ → ℕ) (y x n : ℕ) → y < 24 → x + n ≤ 80 → SameBeyond cells (copy_cells cells y x n)
unfolding copy_cells
copy_cells-SameBeyond cells y x zero hy hx = λ j h. refl
copy_cells-SameBeyond cells y x (suc n) hy hx =
    let moved = cells ((y + 1) * 80 + x) in
    SameBeyond-trans (write-SameBeyond cells y x moved (omega arith) (omega arith))
      (copy_cells-SameBeyond (write cells (y * 80 + x) moved) y (x + 1) n hy (omega arith))

copy_lines-SameBeyond :
    (cells : ℕ → ℕ) (y n : ℕ) → y + n ≤ 24 → SameBeyond cells (copy_lines cells y n)
unfolding copy_lines
copy_lines-SameBeyond cells y zero hy = λ j h. refl
copy_lines-SameBeyond cells y (suc n) hy =
    SameBeyond-trans (copy_cells-SameBeyond cells y 0 80 (omega arith) (omega arith))
      (copy_lines-SameBeyond (copy_cells cells y 0 80) (y + 1) n (omega arith))

pub vga_scroll-Safe : (t : Terminal) → Safe t (vga_scroll t)
unfolding vga_scroll
vga_scroll-Safe t = record {
  on_screen = record { row_in = omega arith; column_in = omega arith };
  beyond = SameBeyond-trans (copy_lines-SameBeyond t.buffer 0 24 (omega arith)) (
      fill_line-SameBeyond (copy_lines t.buffer 0 24) 24 0 (vga_entry b' ' t.color) 80 (omega arith)
        (omega arith));
}

new_line-Safe : (t : Terminal) → t.row < 25 → Safe t (new_line t)
unfolding new_line
new_line-Safe t h =
    let scrolled = vga_scroll-Safe (record t { row = (t.row + 1) % 256; column = 0 }) in
    if_cases (Safe t) ((t.row + 1) % 256 == 25) _ _
      (λ e. record { on_screen = scrolled.on_screen; beyond = scrolled.beyond })
      (λ f. record {
        on_screen = record { row_in = ground (arith, f); column_in = omega arith };
        beyond = λ j b. refl;
      })

backspace-Safe : (t : Terminal) → OnScreen t → Safe t (backspace t)
unfolding backspace vga_putchar_at
backspace-Safe t o =
    if_cases (Safe t) (ltb 0 t.column) _ _
      (λ e. record {
        on_screen = record { row_in = o.row_in; column_in = omega (arith, o.column_in) };
        beyond =
            write-SameBeyond t.buffer t.row (t.column - 1) (vga_entry b' ' (vga_entry_color 7 0))
              o.row_in (omega (arith, o.column_in));
      })
      (λ f. record { on_screen = o; beyond = λ j b. refl })

put_visible-Safe : (t : Terminal) (c : ℕ) → OnScreen t → Safe t (put_visible t c)
unfolding put_visible vga_putchar_at
put_visible-Safe t c o =
    let entry = vga_entry c (vga_entry_color (t.color % 16) (t.color / 16 % 16)) in
    let written = write-SameBeyond t.buffer t.row t.column entry o.row_in o.column_in in
    let next = record t {
      buffer = write t.buffer (t.row * 80 + t.column) entry;
      column = (t.column + 1) % 256;
    } in
    if_cases (Safe t) ((t.column + 1) % 256 == 80) _ _
      (λ e. record {
        on_screen = (new_line-Safe next o.row_in).on_screen;
        beyond = SameBeyond-trans written (new_line-Safe next o.row_in).beyond;
      })
      (λ f. record {
        on_screen = record { row_in = o.row_in; column_in = ground (arith, f, o.column_in) };
        beyond = written;
      })

update-Safe : {t t' : Terminal} → Safe t t' → Safe t (vga_update_cursor t')
unfolding vga_update_cursor
update-Safe s = record {
  on_screen = record { row_in = s.on_screen.row_in; column_in = s.on_screen.column_in };
  beyond = s.beyond;
}

pub vga_putchar-Safe : (t : Terminal) (c : ℕ) → OnScreen t → Safe t (vga_putchar t c)
unfolding vga_putchar
vga_putchar-Safe t c o = update-Safe (
    if_cases (Safe t) (c == 10) _ _ (λ e. new_line-Safe t o.row_in)
      (λ f. if_cases (Safe t) (c == 8) _ _ (λ e. backspace-Safe t o) (λ g. put_visible-Safe t c o)))

pub vga_putstr-Safe : (t : Terminal) (s : List ℕ) → OnScreen t → Safe t (vga_putstr t s)
unfolding vga_putstr
vga_putstr-Safe t [] o = record { on_screen = o; beyond = λ j b. refl }
vga_putstr-Safe t (c ∷ s) o =
    let first = vga_putchar-Safe t c o in
    if_cases (Safe t) (c == 0) _ _ (λ e. record { on_screen = o; beyond = λ j b. refl })
      (λ f. Safe-trans first (vga_putstr-Safe (vga_putchar t c) s first.on_screen))

pub put_backwards-Safe : (t : Terminal) (ds : List ℕ) → OnScreen t → Safe t (put_backwards t ds)
unfolding put_backwards
put_backwards-Safe t [] o = record { on_screen = o; beyond = λ j b. refl }
put_backwards-Safe t (c ∷ cs) o =
    let others = put_backwards-Safe t cs o in
    Safe-trans others (vga_putchar-Safe (put_backwards t cs) c others.on_screen)
