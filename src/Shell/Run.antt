-- ===== src/Shell/Run.antt =====
-- `shell_run` of kernel/kernel.c.
pub mod Screen
pub mod Echo
pub mod Lines
use pxos.Base.{ℕ, ◌≡◌, Option, none, some, List, take}
use pxos.Str.{strlen}
use pxos.Vga.{Terminal}
use pxos.Syscall.{Machine}
use pxos.Shell.{State, draw, Outcome, shell_prompt}
use pxos.Shell.Input.{Line, shell_read_input}
use pxos.Shell.Execute.{shell_execute_command}

-- The state, the screen and the characters that are left, behind the calls of a command.
abbrev pub drawn : State → List ℕ → Option Terminal → Option (State × Terminal × List ℕ)
drawn s rest none = none
drawn s rest (some t) = some (s, t, rest)

abbrev pub answered : Terminal → List ℕ → Outcome → Option (State × Terminal × List ℕ)
answered t rest none = none
answered t rest (some (s, calls)) = drawn s rest (draw t calls)

abbrev pub executed : Machine → State → Option (Line × List ℕ) → Option (State × Terminal × List ℕ)
executed c s none = none
executed c s (some (l, rest)) =
    answered l.screen rest (shell_execute_command c s (take (strlen l.buffer) l.buffer))

-- The body of the loop of `shell_run`; `none`: it waits for input, or the command does not return.
unfoldable pub shell_round :
    Machine → State → Terminal → List ℕ → Option (State × Terminal × List ℕ)
shell_round c s t cs = executed c s (shell_read_input 64 t cs)

-- The calls of `shell_run`, from a state, a screen and the characters that will be typed on: the
-- first prompt, and any number of rounds, with the characters that are left.
pub data ShellRun (c : Machine) (s₀ : State) (t₀ : Terminal) (cs₀ : List ℕ)
    : State → Terminal → List ℕ → Type 0 where
  prompted : (t : Terminal) → draw t₀ (shell_prompt s₀) ≡ some t → ShellRun c s₀ t₀ cs₀ s₀ t cs₀
  round :
      (s s' : State) (t t' : Terminal) (cs rest : List ℕ)
      → ShellRun c s₀ t₀ cs₀ s t cs
      → shell_round c s t cs ≡ some (s', t', rest)
      → ShellRun c s₀ t₀ cs₀ s' t' rest
