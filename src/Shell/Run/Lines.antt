-- ===== src/Shell/Run/Lines.antt =====
-- The rounds of `shell_run` in kernel/kernel.c execute the lines that were typed.
use mathlib.Core.Path.{subst}
use pxos.Base.{
  ℕ, zero, suc, ◌-◌, ◌≡◌, ◌<◌, refl, sym, ap, ◌∙◌, arith, Option, none, some, List, [], ◌∷◌, ◌++◌,
  take, replicate, length, ◌==◌, if_false,
}
use pxos.Str.{strlen}
use pxos.Vga.{Terminal, vga_putstr}
use pxos.Vga.Bounds.{OnScreen, Safe, Safe-trans, vga_putstr-Safe}
use pxos.Vga.Session.{SafeResult}
use pxos.Syscall.{Machine}
use pxos.Shell.{State, Call, Outcome, draw, shell_prompt}
use pxos.Shell.Input.{Line, shell_read_input}
use pxos.Shell.Input.Edit.{
  AllPrintable, one_more, padded, Reads, waits, reads, typed_line, shell_read_input-Reads,
}
use pxos.Shell.Execute.{shell_execute_command}
use pxos.Shell.Run.{drawn, answered, executed, shell_round, ShellRun, prompted, round}
use pxos.Shell.Run.Screen.{trans-SafeResult, draw-SafeResult}
use pxos.Shell.Run.Echo.{shown, Leaves, leaves, shell_read_input-Leaves}

-- The string in a buffer that holds a text and at least one NUL behind it.
string_held :
    (text : List ℕ) (k : ℕ)
    → AllPrintable text
    → 0 < k
    → take (strlen (text ++ replicate k 0)) (text ++ replicate k 0) ≡ text
unfolding strlen
string_held [] zero a h = absurd (omega (arith, h))
string_held [] (suc k) a h = refl
string_held (c ∷ text) k (one_more _ _ p a) h =
    ap (λ n. take n (c ∷ text ++ replicate k 0)) (if_false {b = c == 0} _ _ (ground (arith, p)))
    ∙ ap (λ w. c ∷ w) (string_held text k a h)

-- What a round does with the line that was typed and the characters behind it, on a screen that shows
-- the echo: it waits where the line has not ended, and else answers what executing the line gives.
pub data Answers (c : Machine) (s : State) (u : Terminal)
    : Option (List ℕ × List ℕ) → Option (State × Terminal × List ℕ) → Type 0 where
  still_waits : Answers c s u none none
  runs :
      (line rest : List ℕ)
      → length line < 64
      → AllPrintable line
      → Answers c s u (some (line, rest)) (answered u rest (shell_execute_command c s line))

executed-Answers :
    (c : Machine) (s : State) (u : Terminal) (x : Option (Line × List ℕ))
    (y : Option (List ℕ × List ℕ))
    → Reads 64 x y
    → Leaves u x
    → Answers c s u y (executed c s x)
executed-Answers c s u _ _ waits h = still_waits
executed-Answers c s u _ _ (reads line rest v short printable) (leaves _ _ e) =
    subst
      (λ t. Answers c s u (some (line, rest)) (
        answered t rest
          (shell_execute_command c s (take (strlen (padded 64 line)) (padded 64 line)))))
      (sym e)
      (subst
        (λ w. Answers c s u (some (line, rest)) (answered u rest (shell_execute_command c s w)))
        (sym (string_held line (64 - length line) printable (omega (arith, short))))
        (runs line rest short printable))

-- A round of `shell_run` waits for more input exactly where `typed_line` finds no line in the
-- characters, and else executes, in the state before it, the line that `typed_line` gives, of at most
-- 63 printable characters, and leaves the characters behind the line unread. What comes of the line is
-- drawn on the screen of before with the echo put on it: every printable character that was added to
-- the text, a backspace for every one that was erased, and a new line for Enter.
pub shell_round-Answers :
    (c : Machine) (s : State) (t : Terminal) (cs : List ℕ)
    → Answers c s (vga_putstr t (shown 63 [] cs)) (typed_line 63 [] cs) (shell_round c s t cs)
unfolding shell_round
shell_round-Answers c s t cs =
    executed-Answers c s (vga_putstr t (shown 63 [] cs)) (shell_read_input 64 t cs)
      (typed_line 63 [] cs) (shell_read_input-Reads 64 t cs (omega arith))
      (shell_read_input-Leaves 64 t cs (omega arith))

-- What a round that returns did with the line that was typed.
Leads :
    Machine
    → State
    → Terminal
    → Option (List ℕ × List ℕ)
    → Option (State × Terminal × List ℕ)
    → Type 0
Leads c s t y none = Unit {0}
Leads c s t y (some (s', t', rest)) =
    (line : List ℕ) × (calls : List Call) × (y ≡ some (line, rest))
    × (shell_execute_command c s line ≡ some (s', calls))
    × Safe t t'

drawn-Leads :
    (c : Machine) (s s' : State) (t : Terminal) (line rest : List ℕ) (calls : List Call)
    (o : Option Terminal)
    → shell_execute_command c s line ≡ some (s', calls)
    → SafeResult t o
    → Leads c s t (some (line, rest)) (drawn s' rest o)
unfolding Leads SafeResult
drawn-Leads c s s' t line rest calls none e safe = tt
drawn-Leads c s s' t line rest calls (some t') e safe = (line, calls, refl, e, safe)

answered-Leads :
    (c : Machine) (s : State) (t u : Terminal) (line rest : List ℕ) (r : Outcome)
    → shell_execute_command c s line ≡ r
    → Safe t u
    → Leads c s t (some (line, rest)) (answered u rest r)
unfolding Leads
answered-Leads c s t u line rest none e safe = tt
answered-Leads c s t u line rest (some (s', calls)) e safe =
    drawn-Leads c s s' t line rest calls (draw u calls) e
      (trans-SafeResult t u (draw u calls) safe (draw-SafeResult u calls safe.on_screen))

Answers-Leads :
    (c : Machine) (s : State) (t u : Terminal) (y : Option (List ℕ × List ℕ))
    (x : Option (State × Terminal × List ℕ))
    → Answers c s u y x
    → Safe t u
    → Leads c s t y x
unfolding Leads
Answers-Leads c s t u _ _ still_waits safe = tt
Answers-Leads c s t u _ _ (runs line rest short printable) safe =
    answered-Leads c s t u line rest (shell_execute_command c s line) refl safe

-- The lines of the characters `cs₀`, executed one after the other from the state `s₀` on: the state
-- that is reached, and the characters that are left.
pub data Session (c : Machine) (s₀ : State) (cs₀ : List ℕ) : State → List ℕ → Type 0 where
  begins : Session c s₀ cs₀ s₀ cs₀
  executes :
      (s s' : State) (cs line rest : List ℕ) (calls : List Call)
      → Session c s₀ cs₀ s cs
      → typed_line 63 [] cs ≡ some (line, rest)
      → shell_execute_command c s line ≡ some (s', calls)
      → Session c s₀ cs₀ s' rest

-- From a screen with the cursor on it, what the loop of `shell_run` reaches is the state that the
-- lines typed so far lead to, executed one after the other, with the characters behind them still to
-- be read, and a screen with the cursor on it and every cell past it as it was.
pub ShellRun-Session :
    (c : Machine) (s₀ : State) (t₀ : Terminal) (cs₀ : List ℕ) (s : State) (t : Terminal)
    (cs : List ℕ)
    → OnScreen t₀
    → ShellRun c s₀ t₀ cs₀ s t cs
    → Session c s₀ cs₀ s cs × Safe t₀ t
unfolding Leads SafeResult
ShellRun-Session c s₀ t₀ cs₀ s t cs o (prompted _ e) =
    (begins, subst (SafeResult t₀) e (draw-SafeResult t₀ (shell_prompt s₀) o))
ShellRun-Session c s₀ t₀ cs₀ s t rest o (round s1 _ t1 _ cs1 _ r e) =
    let (session, safe) = ShellRun-Session c s₀ t₀ cs₀ s1 t1 cs1 o r in
    let (line, calls, typed, executed_line, safe') =
      subst (Leads c s1 t1 (typed_line 63 [] cs1)) e (
        Answers-Leads c s1 t1 (vga_putstr t1 (shown 63 [] cs1)) (typed_line 63 [] cs1)
          (shell_round c s1 t1 cs1) (shell_round-Answers c s1 t1 cs1)
          (vga_putstr-Safe t1 (shown 63 [] cs1) safe.on_screen)) in
    (executes s1 s cs1 line rest calls session typed executed_line, Safe-trans safe safe')
