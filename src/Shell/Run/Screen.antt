-- ===== src/Shell/Run/Screen.antt =====
-- What the shell of kernel/kernel.c does to the screen of drivers/vga/vga.c.
use pxos.Base.{ℕ, zero, suc, ◌+◌, arith, Option, none, some, List, [], ◌∷◌, codes}
use pxos.Vga.{Terminal, vga_putstr, vga_puthex}
use pxos.Vga.Bounds.{OnScreen, Safe, Safe-trans, vga_putchar-Safe, vga_putstr-Safe}
use pxos.Vga.Session.{SafeResult, refl-Safe, vga_puthex-SafeResult, set_color, clear, Step-Safe}
use pxos.Syscall.{Entry, Table, put_blanks, list_entry, list_slot, list_from, syscall_list}
use pxos.Shell.{Call, text, char, hex, color, syscalls, draw_call, draw}

put_blanks-Safe : (t : Terminal) (n : ℕ) → OnScreen t → Safe t (put_blanks t n)
unfolding put_blanks
put_blanks-Safe t zero o = refl-Safe t o
put_blanks-Safe t (suc n) o =
    let one = vga_putstr-Safe t (codes " ") o in
    Safe-trans one (put_blanks-Safe (vga_putstr t (codes " ")) n one.on_screen)

-- One more text behind what was shown.
then_text : {t u : Terminal} (s : List ℕ) → Safe t u → Safe t (vga_putstr u s)
then_text {u = u} s h = Safe-trans h (vga_putstr-Safe u s h.on_screen)

then_blanks : {t u : Terminal} (n : ℕ) → Safe t u → Safe t (put_blanks u n)
then_blanks {u = u} n h = Safe-trans h (put_blanks-Safe u n h.on_screen)

list_entry-Safe : (t u : Terminal) (e : Entry) → Safe t u → Safe t (list_entry u e)
unfolding list_entry
list_entry-Safe t u e h =
    then_text _ (then_text _ (then_text _ (then_blanks _ (then_text _ (then_text _ h)))))

-- A result that is used only where there is one.
elim-SafeResult :
    (t : Terminal) (f : Terminal → Option Terminal) (x : Option Terminal)
    → SafeResult t x
    → ((u : Terminal) → Safe t u → SafeResult t (f u))
    → SafeResult t (elim x [ none ↦ none | some u ↦ f u ])
unfolding SafeResult
elim-SafeResult t f none h g = omega arith
elim-SafeResult t f (some u) h g = g u h

pub trans-SafeResult :
    (t u : Terminal) (x : Option Terminal) → Safe t u → SafeResult u x → SafeResult t x
unfolding SafeResult
trans-SafeResult t u none h r = omega arith
trans-SafeResult t u (some v) h r = Safe-trans h r

list_slot-SafeResult :
    (t : Terminal) (i : ℕ) (e : Option Entry) → OnScreen t → SafeResult t (list_slot t i e)
unfolding SafeResult
list_slot-SafeResult t i none o = refl-Safe t o
list_slot-SafeResult t i (some e) o =
    let one = vga_putstr-Safe t (codes " ") o in
    elim-SafeResult t (λ u. some (list_entry u e)) (vga_puthex (vga_putstr t (codes " ")) i)
      (trans-SafeResult t (vga_putstr t (codes " ")) (vga_puthex (vga_putstr t (codes " ")) i) one
        (vga_puthex-SafeResult (vga_putstr t (codes " ")) i one.on_screen))
      (λ u h. list_entry-Safe t u e h)

list_from-SafeResult :
    (table : Table) (t : Terminal) (x : Option Terminal) (i n : ℕ)
    → SafeResult t x
    → SafeResult t (list_from table x i n)
unfolding list_from SafeResult
list_from-SafeResult table t none i n h = omega arith
list_from-SafeResult table t (some u) i zero h = h
list_from-SafeResult table t (some u) i (suc n) h =
    list_from-SafeResult table t (list_slot u i (table.syscall_table i)) (i + 1) n (
      trans-SafeResult t u (list_slot u i (table.syscall_table i)) h
        (list_slot-SafeResult u i (table.syscall_table i) h.on_screen))

syscall_list-SafeResult :
    (table : Table) (t : Terminal) → OnScreen t → SafeResult t (syscall_list table t)
unfolding syscall_list SafeResult
syscall_list-SafeResult table t o =
    list_from-SafeResult table t (some _) 0 table.syscall_count
      (then_text _ (then_text _ (then_text _ (refl-Safe t o))))

draw_call-SafeResult : (t : Terminal) (c : Call) → OnScreen t → SafeResult t (draw_call t c)
unfolding draw_call SafeResult
draw_call-SafeResult t (text s) o = vga_putstr-Safe t s o
draw_call-SafeResult t (char c) o = vga_putchar-Safe t c o
draw_call-SafeResult t (hex n) o = vga_puthex-SafeResult t n o
draw_call-SafeResult t (color fg) o = Step-Safe (set_color t fg 0) o
draw_call-SafeResult t Call.clear o = Step-Safe (clear t) o
draw_call-SafeResult t (syscalls table) o = syscall_list-SafeResult table t o

pub draw-SafeResult : (t : Terminal) (cs : List Call) → OnScreen t → SafeResult t (draw t cs)
unfolding draw SafeResult
draw-SafeResult t [] o = refl-Safe t o
draw-SafeResult t (c ∷ cs) o =
    elim-SafeResult t (λ u. draw u cs) (draw_call t c) (draw_call-SafeResult t c o)
      (λ u h. trans-SafeResult t u (draw u cs) h (draw-SafeResult u cs h.on_screen))
