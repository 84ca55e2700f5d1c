-- ===== src/Vga/Session.antt =====
-- Sequences of calls of drivers/vga/vga.c from `vga_init` on.
use mathlib.Core.Path.{subst}
use pxos.Base.{
  ℕ, zero, suc, ◌+◌, ◌-◌, ◌*◌, ◌/◌, ◌≡◌, ◌≤◌, ◌<◌, refl, arith, Option, none, some, List, [], ◌∷◌,
  codes, ltb, ◌==◌, if_cases,
}
use pxos.Base.Int.{ℤ, pos, negsuc}
use pxos.Str.{strlen}
use pxos.Str.Numbers.{int_max, digits_loop}
use pxos.Vga.{
  Terminal, write, vga_entry_color, vga_entry, vga_update_cursor, vga_hide_cursor, vga_show_cursor,
  vga_set_color, fill_line, vga_scroll, vga_putchar, vga_putstr, blank_lines, draw_text, draw_art,
  draw_separator, vga_clear, vga_init, put_digits, decimal_digit, vga_putnum, hex_digit, vga_puthex,
}
use pxos.Vga.Art.{pxos_art}
use pxos.Vga.Bounds.{
  SameBeyond, SameBeyond-trans, OnScreen, Safe, Safe-trans, write-SameBeyond, fill_line-SameBeyond,
  vga_scroll-Safe, vga_putchar-Safe, vga_putstr-Safe, put_backwards-Safe,
}

blank_lines-SameBeyond :
    (cells : ℕ → ℕ) (color y n : ℕ) → y + n ≤ 25 → SameBeyond cells (blank_lines cells color y n)
unfolding blank_lines
blank_lines-SameBeyond cells color y zero hy = λ j h. refl
blank_lines-SameBeyond cells color y (suc n) hy =
    SameBeyond-trans
      (fill_line-SameBeyond cells y 0 (vga_entry b' ' color) 80 (omega arith) (omega arith))
      (blank_lines-SameBeyond (fill_line cells y 0 (vga_entry b' ' color) 80) color (y + 1) n
        (omega arith))

draw_text-SameBeyond :
    (cells : ℕ → ℕ) (color y x : ℕ) (s : List ℕ)
    → y < 25
    → SameBeyond cells (draw_text cells color y x s)
unfolding draw_text
draw_text-SameBeyond cells color y x [] hy = λ j h. refl
draw_text-SameBeyond cells color y x (c ∷ cs) hy =
    if_cases (SameBeyond cells) (ltb x 80) _ _
      (λ e.
        SameBeyond-trans (write-SameBeyond cells y x (vga_entry c color) hy (ground (arith, e))) (
          draw_text-SameBeyond (write cells (y * 80 + x) (vga_entry c color)) color y (x + 1) cs
            hy))
      (λ f j h. refl)

draw_art-SameBeyond :
    (cells : ℕ → ℕ) (color y : ℕ) (lines : List (List ℕ))
    → SameBeyond cells (draw_art cells color y lines)
unfolding draw_art
draw_art-SameBeyond cells color y [] = λ j h. refl
draw_art-SameBeyond cells color y (line ∷ lines) =
    let drawn = draw_text cells color y ((80 - strlen line) / 2) line in
    if_cases (SameBeyond cells) (ltb y 25) _ _
      (λ e.
        SameBeyond-trans
          (draw_text-SameBeyond cells color y ((80 - strlen line) / 2) line (ground (arith, e)))
          (draw_art-SameBeyond drawn color (y + 1) lines))
      (λ f j h. refl)

draw_separator-SameBeyond : (cells : ℕ → ℕ) (y : ℕ) → SameBeyond cells (draw_separator cells y)
unfolding draw_separator
draw_separator-SameBeyond cells y =
    if_cases (SameBeyond cells) (ltb y 25) _ _
      (λ e.
        fill_line-SameBeyond cells y 0 (vga_entry b'-' (vga_entry_color 7 0)) 80 (ground (arith, e))
          (omega arith))
      (λ f j h. refl)

vga_clear-Safe : (t : Terminal) → Safe t (vga_clear t)
unfolding vga_clear vga_update_cursor
vga_clear-Safe t =
    let blank = blank_lines t.buffer t.color 0 25 in
    let drawn = draw_art blank (vga_entry_color 11 0) 2 pxos_art in
    record {
      on_screen = record { row_in = omega arith; column_in = omega arith };
      beyond = SameBeyond-trans (blank_lines-SameBeyond t.buffer t.color 0 25 (omega arith)) (
          SameBeyond-trans (draw_art-SameBeyond blank (vga_entry_color 11 0) 2 pxos_art)
            (draw_separator-SameBeyond drawn 15));
    }

-- A result that, if there is one, is safe.
unfoldable pub SafeResult : Terminal → Option Terminal → Type 0
SafeResult t none = 0 ≤ 0
SafeResult t (some t') = Safe t t'

put_digits-SafeResult :
    (t t' : Terminal) (ds : Option (List ℕ)) → Safe t t' → SafeResult t (put_digits t' ds)
unfolding SafeResult
put_digits-SafeResult t t' none s = omega arith
put_digits-SafeResult t t' (some ds) s = Safe-trans s (put_backwards-Safe t' ds s.on_screen)

pub refl-Safe : (t : Terminal) → OnScreen t → Safe t t
refl-Safe t o = record { on_screen = o; beyond = λ j b. refl }

vga_putnum-SafeResult : (t : Terminal) (n : ℤ) → OnScreen t → SafeResult t (vga_putnum t n)
unfolding SafeResult vga_putnum
vga_putnum-SafeResult t (pos zero) o = vga_putchar-Safe t b'0' o
vga_putnum-SafeResult t (pos (suc n)) o =
    put_digits-SafeResult t t (digits_loop decimal_digit 10 32 (suc n)) (refl-Safe t o)
vga_putnum-SafeResult t (negsuc n) o =
    if_cases (SafeResult t) (ltb int_max (suc n)) _ _ (λ e. omega arith)
      (λ f.
        put_digits-SafeResult t (vga_putchar t b'-') (digits_loop decimal_digit 10 32 (suc n))
          (vga_putchar-Safe t b'-' o))

pub vga_puthex-SafeResult : (t : Terminal) (n : ℕ) → OnScreen t → SafeResult t (vga_puthex t n)
unfolding SafeResult vga_puthex
vga_puthex-SafeResult t n o =
    let prefixed = vga_putstr-Safe t (codes "0x") o in
    if_cases (SafeResult t) (n == 0) _ _
      (λ e.
        Safe-trans prefixed (vga_putchar-Safe (vga_putstr t (codes "0x")) b'0' prefixed.on_screen))
      (λ f.
        put_digits-SafeResult t (vga_putstr t (codes "0x")) (digits_loop hex_digit 16 9 n) prefixed)

-- The calls that take no position on the screen.
pub data Step : Terminal → Terminal → Type 0 where
  putchar : (t : Terminal) (c : ℕ) → Step t (vga_putchar t c)
  putstr : (t : Terminal) (s : List ℕ) → Step t (vga_putstr t s)
  putnum : (t t' : Terminal) (n : ℤ) → vga_putnum t n ≡ some t' → Step t t'
  puthex : (t t' : Terminal) (n : ℕ) → vga_puthex t n ≡ some t' → Step t t'
  set_color : (t : Terminal) (fg bg : ℕ) → Step t (vga_set_color t fg bg)
  scroll : (t : Terminal) → Step t (vga_scroll t)
  clear : (t : Terminal) → Step t (vga_clear t)
  hide_cursor : (t : Terminal) → Step t (vga_hide_cursor t)
  show_cursor : (t : Terminal) → Step t (vga_show_cursor t)

-- What a sequence of calls after `vga_init` reaches.
pub data Session (t₀ : Terminal) : Terminal → Type 0 where
  start : Session t₀ (vga_init t₀)
  call : {t t' : Terminal} → Session t₀ t → Step t t' → Session t₀ t'

pub Step-Safe : {t t' : Terminal} → Step t t' → OnScreen t → Safe t t'
unfolding SafeResult vga_set_color vga_hide_cursor vga_show_cursor vga_update_cursor
Step-Safe (putchar t c) o = vga_putchar-Safe t c o
Step-Safe (putstr t s) o = vga_putstr-Safe t s o
Step-Safe (putnum t t' n e) o = subst (SafeResult t) e (vga_putnum-SafeResult t n o)
Step-Safe (puthex t t' n e) o = subst (SafeResult t) e (vga_puthex-SafeResult t n o)
Step-Safe (set_color t fg bg) o = record {
  on_screen = record { row_in = o.row_in; column_in = o.column_in };
  beyond = λ j b. refl;
}
Step-Safe (scroll t) o = vga_scroll-Safe t
Step-Safe (clear t) o = vga_clear-Safe t
Step-Safe (hide_cursor t) o = record {
  on_screen = record { row_in = o.row_in; column_in = o.column_in };
  beyond = λ j b. refl;
}
Step-Safe (show_cursor t) o = record {
  on_screen = record { row_in = o.row_in; column_in = o.column_in };
  beyond = λ j b. refl;
}

vga_init-Safe : (t : Terminal) → Safe t (vga_init t)
unfolding vga_init
vga_init-Safe t =
    let cleared = vga_clear-Safe (record t { row = 0; column = 0; color = vga_entry_color 7 0 }) in
    record { on_screen = cleared.on_screen; beyond = cleared.beyond }

-- After `vga_init` and any sequence of calls that take no position (characters, strings, numbers,
-- colours, scrolling, clearing, the cursor's shape), from whatever state the memory was in, the
-- cursor is on line 0 to 24 and in column 0 to 79, and no cell past the 2000 of the screen has
-- changed.
pub Session-Safe : {t₀ t : Terminal} → Session t₀ t → Safe t₀ t
Session-Safe {t₀ = t₀} start = vga_init-Safe t₀
Session-Safe (call s step) =
    let before = Session-Safe s in Safe-trans before (Step-Safe step before.on_screen)
