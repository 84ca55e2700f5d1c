-- ===== src/Shell/Run/Echo.antt =====
-- What `shell_read_input` of kernel/kernel.c shows of the characters that are typed.
use mathlib.Core.Path.{subst}
use pxos.Base.{
  ℕ, ◌-◌, ◌≡◌, ◌<◌, refl, sym, ap, ◌∙◌, arith, true, false, Bool, Option, none, some, List, [], ◌∷◌,
  ◌++◌, length, replicate, ltb, ◌==◌, if◌then◌else◌, if_cases, if_true, if_false,
}
use pxos.Vga.{Terminal, vga_putchar, vga_putstr}
use pxos.Shell.Input.{Line, is_enter, is_backspace, is_printable, read_line, shell_read_input}
use pxos.Shell.Input.Edit.{edited, holding, echoed, edit_line-holding, edited_room}

-- The echo of a character behind a text: a backspace only where there is one to erase.
abbrev pub echo : List ℕ → ℕ → List ℕ
echo text ch =
    if is_backspace ch
    then (if ltb 0 (length text) then 8 ∷ [] else [])
    else if is_printable ch
    then ch ∷ []
    else []

-- What is shown of the characters up to the end of the line, and a new line for Enter.
unfoldable pub shown : ℕ → List ℕ → List ℕ → List ℕ
shown room text [] = []
shown room text (ch ∷ cs) =
    let rest = shown room (edited text ch) cs in
    if ltb (length text) room then (if is_enter ch then 10 ∷ [] else echo text ch ++ rest) else []

-- A character that is not NUL.
putstr_one :
    (s : Terminal) (c : ℕ) (r : List ℕ)
    → 0 < c
    → vga_putstr s (c ∷ r) ≡ vga_putstr (vga_putchar s c) r
unfolding vga_putstr
putstr_one s c r h = if_false {b = c == 0} _ _ (ground (arith, h))

putstr-echo :
    (s : Terminal) (text : List ℕ) (ch : ℕ) (r : List ℕ)
    → vga_putstr s (echo text ch ++ r) ≡ vga_putstr (echoed s text ch) r
putstr-echo s text ch r =
    if_cases (λ e. vga_putstr s (e ++ r) ≡ vga_putstr (echoed s text ch) r) (is_backspace ch) _ _
      (λ b.
        if_cases (λ e. vga_putstr s (e ++ r) ≡ vga_putstr (echoed s text ch) r)
          (ltb 0 (length text)) _ _
          (λ t.
            putstr_one s 8 r (omega arith)
            ∙ sym (ap (λ u. vga_putstr u r) (if_true _ _ b ∙ if_true _ _ t)))
          (λ t. sym (ap (λ u. vga_putstr u r) (if_true _ _ b ∙ if_false _ _ t))))
      (λ b.
        if_cases (λ e. vga_putstr s (e ++ r) ≡ vga_putstr (echoed s text ch) r) (is_printable ch) _
          _
          (λ p.
            putstr_one s ch r (ground (arith, p))
            ∙ sym (ap (λ u. vga_putstr u r) (if_false _ _ b ∙ if_true _ _ p)))
          (λ p. sym (ap (λ u. vga_putstr u r) (if_false _ _ b ∙ if_false _ _ p))))

-- The screen when the line has ended.
pub data Leaves (u : Terminal) : Option (Line × List ℕ) → Type 0 where
  not_yet : Leaves u none
  leaves : (l : Line) (rest : List ℕ) → l.screen ≡ u → Leaves u (some (l, rest))

Leaves-both :
    (s : Terminal) (b : Bool) (e f : List ℕ) {x y : Option (Line × List ℕ)}
    → (b ≡ true → Leaves (vga_putstr s e) x)
    → (b ≡ false → Leaves (vga_putstr s f) y)
    → Leaves (vga_putstr s (if b then e else f)) (if b then x else y)
Leaves-both s true e f g h = g refl
Leaves-both s false e f g h = h refl

read_line-Leaves :
    (n : ℕ) (text : List ℕ) (s : Terminal) (cs : List ℕ)
    → length text < n
    → Leaves (vga_putstr s (shown (n - 1) text cs)) (read_line n (holding n text s) cs)
unfolding read_line shown vga_putstr
read_line-Leaves n text s [] h =
    if_cases (Leaves s) (ltb (length text) (n - 1)) _ _ (λ t. not_yet) (λ t. leaves _ _ refl)
read_line-Leaves n text s (ch ∷ cs) h =
    Leaves-both s (ltb (length text) (n - 1)) _ _
      (λ t.
        Leaves-both s (is_enter ch) _ _ (λ e. leaves _ _ refl)
          (λ e.
            subst
              (λ l.
                Leaves (vga_putstr s (echo text ch ++ shown (n - 1) (edited text ch) cs))
                  (read_line n l cs))
              (sym (edit_line-holding n text s ch h))
              (subst
                (λ u. Leaves u (read_line n (holding n (edited text ch) (echoed s text ch)) cs))
                (sym (putstr-echo s text ch (shown (n - 1) (edited text ch) cs)))
                (read_line-Leaves n (edited text ch) (echoed s text ch) cs
                  (edited_room n text ch t)))))
      (λ t. leaves _ _ refl)

pub shell_read_input-Leaves :
    (n : ℕ) (s : Terminal) (cs : List ℕ)
    → 0 < n
    → Leaves (vga_putstr s (shown (n - 1) [] cs)) (shell_read_input n s cs)
unfolding shell_read_input
shell_read_input-Leaves n s cs h =
    subst
      (λ k.
        Leaves (vga_putstr s (shown (n - 1) [] cs))
          (read_line n (record { buffer = replicate k 0; place = 0; screen = s }) cs))
      (omega arith) (read_line-Leaves n [] s cs h)
