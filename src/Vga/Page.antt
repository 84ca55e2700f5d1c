-- ===== src/Vga/Page.antt =====
-- What prints on the screen of drivers/vga/vga.c, told on a page: 2000 cells in a row and the place of
-- the cursor among them.
use pxos.Base.{
  ℕ, zero, suc, ◌+◌, ◌-◌, ◌*◌, ◌/◌, ◌%◌, ◌≡◌, ◌≤◌, ◌<◌, refl, sym, ap, ap₂, ◌∙◌, arith, List, [],
  ◌∷◌, ltb, ◌==◌, if◌then◌else◌, if_cases, if_true, if_false,
}
use mathlib.Core.Path.{fun_ext}
use pxos.Vga.{
  Terminal, write, vga_entry_color, vga_entry, vga_update_cursor, vga_putchar_at, copy_cells,
  copy_lines, fill_line, vga_scroll, new_line, backspace, put_visible, vga_putchar, vga_putstr,
}
use pxos.Vga.Bounds.{OnScreen, vga_putchar-Safe}

pub record Page : Type 0 where
  pub cells : ℕ → ℕ
  pub place : ℕ

abbrev pub page : Terminal → Page
page t = record { cells = t.buffer; place = t.row * 80 + t.column }

-- The page one line up, with a blank line at its end.
abbrev pub rolled : ℕ → (ℕ → ℕ) → ℕ → ℕ
rolled color cells j =
    if ltb j 1920 then cells (j + 80) else if ltb j 2000 then vga_entry b' ' color else cells j

-- The cursor moves to a later place; behind the last one the page rolls.
abbrev pub moved_to : ℕ → Page → ℕ → Page
moved_to color p next =
    if ltb next 2000
    then record p { place = next }
    else record { cells = rolled color p.cells; place = 1920 }

-- A character on the page: a line end, a backspace within the line, or any other.
abbrev pub typed : ℕ → Page → ℕ → Page
typed color p c =
    if c == 10
    then moved_to color p ((p.place / 80 + 1) * 80)
    else if c == 8
    then (if p.place % 80 == 0 then p else record {
      cells = write p.cells (p.place - 1) (vga_entry b' ' (vga_entry_color 7 0));
      place = p.place - 1;
    })
    else moved_to color (record p { cells = write p.cells p.place (vga_entry c color) })
        (p.place + 1)

-- The characters up to the NUL, one after the other.
abbrev pub typed_all : ℕ → Page → List ℕ → Page
typed_all color p [] = p
typed_all color p (c ∷ s) =
    let rest = typed_all color (typed color p c) s in if c == 0 then p else rest

cell_below : (cells : ℕ → ℕ) (y x : ℕ) → cells ((y + 1) * 80 + x) ≡ cells (y * 80 + x + 80)
cell_below cells y x = ap cells (omega arith)

copy_cells_at :
    (cells : ℕ → ℕ) (y x n j : ℕ)
    → copy_cells cells y x n j ≡ (
        if ltb j (y * 80 + x)
        then cells j
        else if ltb j (y * 80 + x + n)
        then cells (j + 80)
        else cells j)
unfolding copy_cells
copy_cells_at cells y x zero j = ground arith
copy_cells_at cells y x (suc n) j = ground (
  arith,
  cell_below cells y x,
  copy_cells_at (write cells (y * 80 + x) (cells ((y + 1) * 80 + x))) y (x + 1) n j,
)

copy_lines_at :
    (cells : ℕ → ℕ) (y n j : ℕ)
    → copy_lines cells y n j ≡ (
        if ltb j (y * 80)
        then cells j
        else if ltb j ((y + n) * 80)
        then cells (j + 80)
        else cells j)
unfolding copy_lines
copy_lines_at cells y zero j = ground arith
copy_lines_at cells y (suc n) j = ground (
  arith,
  copy_cells_at cells y 0 80 j,
  copy_cells_at cells y 0 80 (j + 80),
  copy_lines_at (copy_cells cells y 0 80) (y + 1) n j,
)

fill_line_at :
    (cells : ℕ → ℕ) (y x v n j : ℕ)
    → fill_line cells y x v n j
      ≡ (if ltb j (y * 80 + x) then cells j else if ltb j (y * 80 + x + n) then v else cells j)
unfolding fill_line
fill_line_at cells y x v zero j = ground arith
fill_line_at cells y x v (suc n) j =
    ground (arith, fill_line_at (write cells (y * 80 + x) v) y (x + 1) v n j)

page-vga_scroll :
    (t : Terminal) → page (vga_scroll t) ≡ record { cells = rolled t.color t.buffer; place = 1920 }
unfolding vga_scroll
page-vga_scroll t =
    ap (λ f. record { cells = f; place = 1920 })
      (fun_ext (λ j. ground (
        arith,
        copy_lines_at t.buffer 0 24 j,
        fill_line_at (copy_lines t.buffer 0 24) 24 0 (vga_entry b' ' t.color) 80 j,
      )))

moved_to_end :
    (color : ℕ) (p : Page) (next : ℕ)
    → 2000 ≤ next
    → moved_to color p next ≡ record { cells = rolled color p.cells; place = 1920 }
moved_to_end color p next h =
    if_cases (λ q. q ≡ record { cells = rolled color p.cells; place = 1920 }) (ltb next 2000) _ _
      (λ t. absurd (ground (arith, t))) (λ f. refl)

moved_to_within :
    (color : ℕ) (p : Page) (next : ℕ)
    → next < 2000
    → moved_to color p next ≡ record p { place = next }
moved_to_within color p next h =
    if_cases (λ q. q ≡ record p { place = next }) (ltb next 2000) _ _ (λ t. refl)
      (λ f. absurd (ground (arith, f)))

-- A new line moves the cursor to the start of the next line, wherever in its line it was.
page-new_line :
    (t : Terminal) (next : ℕ)
    → t.row < 25
    → next ≡ (t.row + 1) * 80
    → page (new_line t) ≡ moved_to t.color (page t) next
unfolding new_line
page-new_line t next h e =
    if_cases (λ u. page u ≡ moved_to t.color (page t) next) ((t.row + 1) % 256 == 25) _ _
      (λ last.
        page-vga_scroll (record t { row = (t.row + 1) % 256; column = 0 })
        ∙ sym (moved_to_end t.color (page t) next (ground (arith, last))))
      (λ more.
        ap (λ n. record { cells = t.buffer; place = n }) (ground (arith, more))
        ∙ sym (moved_to_within t.color (page t) next (ground (arith, more))))

page-backspace :
    (t : Terminal)
    → OnScreen t
    → page (backspace t) ≡ (
        if (t.row * 80 + t.column) % 80 == 0 then page t else record {
          cells = write t.buffer (t.row * 80 + t.column - 1) (vga_entry b' ' (vga_entry_color 7 0));
          place = t.row * 80 + t.column - 1;
        })
unfolding backspace vga_putchar_at
page-backspace t o =
    let place = t.row * 80 + t.column in
    let wiped : Page = record {
      cells = write t.buffer (place - 1) (vga_entry b' ' (vga_entry_color 7 0));
      place = place - 1;
    } in
    if_cases (λ u. page u ≡ (if place % 80 == 0 then page t else wiped)) (ltb 0 t.column) _ _
      (λ inside.
        ap₂
          (λ n m. record {
            cells = write t.buffer n (vga_entry b' ' (vga_entry_color 7 0));
            place = m;
          })
          (ground (arith, inside, o.column_in)) (ground (arith, inside, o.column_in))
        ∙ sym (if_false (page t) wiped (ground (arith, inside, o.column_in))))
      (λ first. sym (if_true (page t) wiped (ground (arith, first, o.column_in))))

entry_color :
    (c color : ℕ) → vga_entry c (vga_entry_color (color % 16) (color / 16 % 16)) ≡ vga_entry c color
unfolding vga_entry vga_entry_color
entry_color c color = omega arith

page-put_visible :
    (t : Terminal) (c : ℕ)
    → OnScreen t
    → page (put_visible t c)
      ≡ moved_to t.color
          (record {
            cells = write t.buffer (t.row * 80 + t.column) (vga_entry c t.color);
            place = 0;
          })
          (t.row * 80 + t.column + 1)
unfolding put_visible vga_putchar_at
page-put_visible t c o =
    let place = t.row * 80 + t.column in
    let entry = vga_entry c (vga_entry_color (t.color % 16) (t.color / 16 % 16)) in
    let shown = record t { buffer = write t.buffer place entry; column = (t.column + 1) % 256 } in
    if_cases
      (λ u.
        page u
        ≡ moved_to t.color (record { cells = write t.buffer place entry; place = 0 }) (place + 1))
      ((t.column + 1) % 256 == 80) _ _
      (λ last. page-new_line shown (place + 1) o.row_in (ground (arith, last, o.column_in)))
      (λ more.
        ap (λ n. record { cells = write t.buffer place entry; place = n })
          (ground (arith, more, o.column_in))
        ∙ sym (
            moved_to_within t.color (page shown) (place + 1)
              (ground (arith, more, o.column_in, o.row_in))))
    ∙ ap (λ e. moved_to t.color (record { cells = write t.buffer place e; place = 0 }) (place + 1))
        (entry_color c t.color)

-- A character printed with the cursor on the screen does to the page what `typed` does: a line end
-- starts the next line, a backspace wipes the cell before within the line, any other character fills
-- the cell of the cursor in the current colour, and behind the last cell the page rolls up a line.
page-vga_putchar :
    (t : Terminal) (c : ℕ) → OnScreen t → page (vga_putchar t c) ≡ typed t.color (page t) c
unfolding vga_putchar vga_update_cursor
page-vga_putchar t c o =
    if_cases (λ u. page u ≡ typed t.color (page t) c) (c == 10) _ _
      (λ n.
        page-new_line t (((t.row * 80 + t.column) / 80 + 1) * 80) o.row_in
          (omega (arith, o.column_in))
        ∙ sym (if_true _ _ n))
      (λ n.
        if_cases (λ u. page u ≡ typed t.color (page t) c) (c == 8) _ _
          (λ b. page-backspace t o ∙ sym (if_false _ _ n ∙ if_true _ _ b))
          (λ b. page-put_visible t c o ∙ sym (if_false _ _ n ∙ if_false _ _ b)))

color-vga_putchar : (t : Terminal) (c : ℕ) → (vga_putchar t c).color ≡ t.color
unfolding vga_putchar vga_update_cursor new_line vga_scroll backspace put_visible vga_putchar_at
color-vga_putchar t c = ground arith

-- `vga_putstr` with the cursor on the screen types the characters of the string up to its NUL on the
-- page, one after the other: a line end starts the next line, a backspace wipes the cell before
-- within the line, any other character fills the cell of the cursor in the current colour, and behind
-- the last cell the page rolls up a line.
pub page-vga_putstr :
    (t : Terminal) (s : List ℕ) → OnScreen t → page (vga_putstr t s) ≡ typed_all t.color (page t) s
unfolding vga_putstr
page-vga_putstr t [] o = refl
page-vga_putstr t (c ∷ s) o =
    if_cases (λ u. page u ≡ typed_all t.color (page t) (c ∷ s)) (c == 0) _ _
      (λ n. sym (if_true _ _ n))
      (λ n.
        page-vga_putstr (vga_putchar t c) s (vga_putchar-Safe t c o).on_screen
        ∙ ap₂ (λ col p. typed_all col p s) (color-vga_putchar t c) (page-vga_putchar t c o)
        ∙ sym (if_false _ _ n))
