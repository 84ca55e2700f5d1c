-- ===== src/Shell/Input/Edit.antt =====
-- What the line of `shell_read_input` in kernel/kernel.c holds: the characters typed, less those that
-- were erased.
use mathlib.Core.Path.{subst}
use mathlib.Core.List.{append_assoc}
use pxos.Base.{
  ℕ, zero, suc, ◌+◌, ◌-◌, ◌≡◌, ◌≤◌, ◌<◌, refl, sym, ap, ap₂, ◌∙◌, arith, Bool, true, false, Option,
  none, some, List, [], ◌∷◌, ◌++◌, set, length, length-append, replicate, ltb, if◌then◌else◌,
  if_cases, if_true, if_false,
}
use pxos.Vga.{Terminal, vga_putchar}
use pxos.Shell.Input.{
  Line, is_enter, is_backspace, is_printable, edit_line, end_line, read_line, shell_read_input,
}

abbrev pub init : List ℕ → List ℕ
init [] = []
init (x ∷ []) = []
init (x ∷ y ∷ xs) = x ∷ init (y ∷ xs)

-- The text after one more character.
abbrev pub edited : List ℕ → ℕ → List ℕ
edited text ch =
    if is_backspace ch then init text else if is_printable ch then text ++ ch ∷ [] else text

-- The text when the line ends, with the characters that are left: at Enter, or when it is full.
unfoldable pub typed_line : ℕ → List ℕ → List ℕ → Option (List ℕ × List ℕ)
typed_line room text [] = if ltb (length text) room then none else some (text, [])
typed_line room text (ch ∷ cs) =
    let rest = typed_line room (edited text ch) cs in
    if ltb (length text) room
    then (if is_enter ch then some (text, cs) else rest)
    else some (text, ch ∷ cs)

-- The buffer of `n` bytes that holds a text, with NULs behind it.
abbrev pub padded : ℕ → List ℕ → List ℕ
padded n text = text ++ replicate (n - length text) 0

set-append : (xs ys : List ℕ) (v : ℕ) → set (xs ++ ys) (length xs) v ≡ xs ++ set ys 0 v
set-append [] ys v = refl
set-append (x ∷ xs) ys v = ap (λ zs. x ∷ zs) (set-append xs ys v)

set_last :
    (text ys : List ℕ) (v : ℕ)
    → 0 < length text
    → set (text ++ ys) (length text - 1) v ≡ init text ++ v ∷ ys
set_last [] ys v h = absurd (omega arith)
set_last (x ∷ []) ys v h = refl
set_last (x ∷ y ∷ xs) ys v h =
    let i : suc (suc (length xs)) - 1 ≡ suc (suc (length xs) - 1) = omega arith in
    ap (λ i. set (x ∷ y ∷ xs ++ ys) i v) i
    ∙ ap (λ zs. x ∷ zs) (set_last (y ∷ xs) ys v (omega arith))

length-init : (text : List ℕ) → length (init text) ≡ length text - 1
length-init [] = omega arith
length-init (x ∷ []) = omega arith
length-init (x ∷ y ∷ xs) = omega (arith, length-init (y ∷ xs))

-- The line that holds a text.
abbrev pub holding : ℕ → List ℕ → Terminal → Line
holding n text s = record { buffer = padded n text; place = length text; screen = s }

-- What a character shows on the screen.
abbrev pub echoed : Terminal → List ℕ → ℕ → Terminal
echoed s text ch =
    if is_backspace ch
    then (if ltb 0 (length text) then vga_putchar s 8 else s)
    else if is_printable ch
    then vga_putchar s ch
    else s

replicate_pos : (k m v : ℕ) → k ≡ suc m → set (replicate k 0) 0 v ≡ v ∷ replicate m 0
replicate_pos zero m v e = absurd (omega (arith, e))
replicate_pos (suc k) m v e = ap (λ j. v ∷ replicate j 0) (omega (arith, e))

-- A character written behind the text.
set-padded :
    (n v : ℕ) (text : List ℕ)
    → length text < n
    → set (padded n text) (length text) v ≡ text ++ v ∷ replicate (n - length text - 1) 0
set-padded n v text h =
    set-append text (replicate (n - length text) 0) v
    ∙ ap (λ zs. text ++ zs)
        (replicate_pos (n - length text) (n - length text - 1) v (omega (arith, h)))

padded_end :
    (n : ℕ) (text : List ℕ) → length text < n → set (padded n text) (length text) 0 ≡ padded n text
padded_end n text h =
    let k : suc (n - length text - 1) ≡ n - length text = omega (arith, h) in
    set-padded n 0 text h ∙ ap (λ k. text ++ replicate k 0) k

padded-snoc :
    (n ch : ℕ) (text : List ℕ)
    → length text < n
    → set (padded n text) (length text) ch ≡ padded n (text ++ ch ∷ [])
padded-snoc n ch text h =
    set-padded n ch text h
    ∙ sym (append_assoc text (ch ∷ []) (replicate (n - length text - 1) 0))
    ∙ ap (λ k. (text ++ ch ∷ []) ++ replicate k 0) (omega (arith, length-append text (ch ∷ []), h))

padded-init :
    (n : ℕ) (text : List ℕ)
    → 0 < length text
    → length text ≤ n
    → set (padded n text) (length text - 1) 0 ≡ padded n (init text)
padded-init n text pos_len h =
    let k : suc (n - length text) ≡ n - length (init text) =
      omega (arith, length-init text, pos_len, h) in
    set_last text (replicate (n - length text) 0) 0 pos_len ∙ ap (λ k. init text ++ replicate k 0) k

init_empty : (text : List ℕ) → length text ≡ 0 → init text ≡ text
init_empty [] h = refl
init_empty (x ∷ xs) h = absurd (omega (arith, h))

pub edit_line-holding :
    (n : ℕ) (text : List ℕ) (s : Terminal) (ch : ℕ)
    → length text < n
    → edit_line (holding n text s) ch ≡ holding n (edited text ch) (echoed s text ch)
unfolding edit_line
edit_line-holding n text s ch h =
    if_cases (λ l. l ≡ holding n (edited text ch) (echoed s text ch)) (is_backspace ch) _ _
      (λ b.
        if_cases (λ l. l ≡ holding n (edited text ch) (echoed s text ch)) (ltb 0 (length text)) _ _
          (λ t.
            ap₂ (λ buf pl. record { buffer = buf; place = pl; screen = vga_putchar s 8 })
              (padded-init n text (ground (arith, t)) (omega (arith, h)))
              (omega (arith, length-init text))
            ∙ sym (ap₂ (holding n) (if_true _ _ b) (if_true _ _ b ∙ if_true _ _ t)))
          (λ t. sym (
            ap₂ (holding n) (if_true _ _ b ∙ init_empty text (ground (arith, t)))
              (if_true _ _ b ∙ if_false _ _ t))))
      (λ b.
        if_cases (λ l. l ≡ holding n (edited text ch) (echoed s text ch)) (is_printable ch) _ _
          (λ p.
            ap₂ (λ buf pl. record { buffer = buf; place = pl; screen = vga_putchar s ch })
              (padded-snoc n ch text h) (omega (arith, length-append text (ch ∷ [])))
            ∙ sym
                (ap₂ (holding n) (if_false _ _ b ∙ if_true _ _ p) (if_false _ _ b ∙ if_true _ _ p)))
          (λ p.
            sym (
              ap₂ (holding n) (if_false _ _ b ∙ if_false _ _ p) (if_false _ _ b ∙ if_false _ _ p))))

-- Every character is one that the shell takes.
pub data AllPrintable : List ℕ → Type 0 where
  none_left : AllPrintable []
  one_more : (c : ℕ) (cs : List ℕ) → is_printable c ≡ true → AllPrintable cs → AllPrintable (c ∷ cs)

init-AllPrintable : (text : List ℕ) → AllPrintable text → AllPrintable (init text)
init-AllPrintable [] a = none_left
init-AllPrintable (x ∷ []) a = none_left
init-AllPrintable (x ∷ y ∷ xs) (one_more _ _ p a) =
    one_more x (init (y ∷ xs)) p (init-AllPrintable (y ∷ xs) a)

snoc-AllPrintable :
    (text : List ℕ) (ch : ℕ)
    → is_printable ch ≡ true
    → AllPrintable text
    → AllPrintable (text ++ ch ∷ [])
snoc-AllPrintable [] ch p a = one_more ch [] p none_left
snoc-AllPrintable (x ∷ xs) ch p (one_more _ _ q a) =
    one_more x (xs ++ ch ∷ []) q (snoc-AllPrintable xs ch p a)

edited-AllPrintable : (text : List ℕ) (ch : ℕ) → AllPrintable text → AllPrintable (edited text ch)
edited-AllPrintable text ch a =
    if_cases AllPrintable (is_backspace ch) _ _ (λ b. init-AllPrintable text a)
      (λ b.
        if_cases AllPrintable (is_printable ch) _ _ (λ p. snoc-AllPrintable text ch p a) (λ p. a))

length-edited : (text : List ℕ) (ch : ℕ) → length (edited text ch) ≤ length text + 1
length-edited text ch =
    if_cases (λ t. length t ≤ length text + 1) (is_backspace ch) _ _
      (λ b. omega (arith, length-init text))
      (λ b.
        if_cases (λ t. length t ≤ length text + 1) (is_printable ch) _ _
          (λ p. omega (arith, length-append text (ch ∷ []))) (λ p. omega arith))

pub edited_room :
    (n : ℕ) (text : List ℕ) (ch : ℕ)
    → ltb (length text) (n - 1) ≡ true
    → length (edited text ch) < n
edited_room n text ch t =
    let room : length text < n - 1 = ground (arith, t) in omega (arith, length-edited text ch, room)

-- The line that was read and the characters that are left are those of `typed_line`, or both still
-- wait: the buffer holds the text and NULs behind it, at least one.
pub data Reads (n : ℕ) : Option (Line × List ℕ) → Option (List ℕ × List ℕ) → Type 0 where
  waits : Reads n none none
  reads :
      (text rest : List ℕ) (s : Terminal)
      → length text < n
      → AllPrintable text
      → Reads n (some (holding n text s, rest)) (some (text, rest))

line_ended :
    (n : ℕ) (text rest : List ℕ) (s : Terminal)
    → length text < n
    → AllPrintable text
    → Reads n (some (end_line (holding n text s), rest)) (some (text, rest))
line_ended n text rest s h a =
    subst
      (λ buf.
        Reads n (some (record { buffer = buf; place = length text; screen = s }, rest))
          (some (text, rest)))
      (sym (padded_end n text h)) (reads text rest s h a)

Reads-both :
    (n : ℕ) (b : Bool) {x y : Option (Line × List ℕ)} {x' y' : Option (List ℕ × List ℕ)}
    → (b ≡ true → Reads n x x')
    → (b ≡ false → Reads n y y')
    → Reads n (if b then x else y) (if b then x' else y')
Reads-both n true f g = f refl
Reads-both n false f g = g refl

read_line-Reads :
    (n : ℕ) (text : List ℕ) (s : Terminal) (cs : List ℕ)
    → length text < n
    → AllPrintable text
    → Reads n (read_line n (holding n text s) cs) (typed_line (n - 1) text cs)
unfolding read_line typed_line
read_line-Reads n text s [] h a =
    Reads-both n (ltb (length text) (n - 1)) (λ t. waits) (λ f. line_ended n text [] s h a)
read_line-Reads n text s (ch ∷ cs) h a =
    Reads-both n (ltb (length text) (n - 1))
      (λ t.
        Reads-both n (is_enter ch) (λ e. line_ended n text cs (vga_putchar s 10) h a)
          (λ e.
            subst (λ l. Reads n (read_line n l cs) (typed_line (n - 1) (edited text ch) cs))
              (sym (edit_line-holding n text s ch h))
              (read_line-Reads n (edited text ch) (echoed s text ch) cs (edited_room n text ch t)
                (edited-AllPrintable text ch a))))
      (λ f. line_ended n text (ch ∷ cs) s h a)

-- Into a buffer of at least one byte, `shell_read_input` reads the text that `typed_line` gives for
-- the characters, and leaves the same characters unread, or both still wait for input: a backspace
-- takes the last character of the text, a printable one is added, the others are passed over, and
-- the line ends at Enter or when only the byte for the NUL is left. The text has only printable
-- characters and is shorter than the buffer, which has NULs in the rest of its bytes.
pub shell_read_input-Reads :
    (n : ℕ) (screen : Terminal) (cs : List ℕ)
    → 0 < n
    → Reads n (shell_read_input n screen cs) (typed_line (n - 1) [] cs)
unfolding shell_read_input
shell_read_input-Reads n screen cs h =
    let k : n - 0 ≡ n = omega arith in
    subst
      (λ k.
        Reads n (read_line n (record { buffer = replicate k 0; place = 0; screen = screen }) cs)
          (typed_line (n - 1) [] cs))
      k (read_line-Reads n [] screen cs h none_left)
