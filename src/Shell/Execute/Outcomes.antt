-- ===== src/Shell/Execute/Outcomes.antt =====
-- What `shell_execute_command` of kernel/kernel.c does with the words of a line.
use mathlib.Core.Path.{subst}
use pxos.Base.{
  ℕ, ◌≡◌, refl, sym, ap, ◌∙◌, true, false, Option, none, some, List, [], ◌∷◌, take, if_cases,
}
use pxos.Str.{strcmp}
use pxos.Fs.Names.{is_zero}
use pxos.Syscall.{Machine}
use pxos.Shell.{State, Outcome, shell_prompt}
use pxos.Shell.Parse.{skip_spaces, parse_word, parse_arguments}
use pxos.Shell.Parse.Words.{
  Spells, gap, no_blank, skip_spaces-AllBlank, skip_spaces-Starts, parse_arguments-Spells,
}
use pxos.Shell.Execute.{
  Func, Command, commands, find_command, run_func, after_command, run_command, run_words,
  not_found_lines, execute_from, shell_execute_command,
}

-- A line of the table.
pub data Listed (c : Command) : List Command → Type 0 where
  here : (cs : List Command) → Listed c (c ∷ cs)
  there : (d : Command) (cs : List Command) → Listed c cs → Listed c (d ∷ cs)

-- Every command of the table has another name.
pub NoneNamed : List ℕ → List Command → Type 0
NoneNamed name cs = (c : Command) → Listed c cs → is_zero (strcmp name c.name) ≡ false

-- The results of a search: the function of a command with the name, or none where none has it.
data Found (name : List ℕ) (cs : List Command) : Option Func → Type 0 where
  one :
      (c : Command)
      → Listed c cs
      → is_zero (strcmp name c.name) ≡ true
      → Found name cs (some c.func)
  absent : NoneNamed name cs → Found name cs none

NoneNamed-cons :
    (name : List ℕ) (c : Command) (cs : List Command)
    → is_zero (strcmp name c.name) ≡ false
    → NoneNamed name cs
    → NoneNamed name (c ∷ cs)
unfolding NoneNamed
NoneNamed-cons name c cs h a _ (here _) = h
NoneNamed-cons name c cs h a d (there _ _ l) = a d l

Found-cons :
    (name : List ℕ) (c : Command) (cs : List Command) (f : Option Func)
    → is_zero (strcmp name c.name) ≡ false
    → Found name cs f
    → Found name (c ∷ cs) f
Found-cons name c cs _ h (one d l e) = one d (there c cs l) e
Found-cons name c cs _ h (absent a) = absent (NoneNamed-cons name c cs h a)

find_command-Found : (name : List ℕ) (cs : List Command) → Found name cs (find_command cs name)
unfolding find_command NoneNamed
find_command-Found name [] = absent (λ c l. elim l [ ])
find_command-Found name (c ∷ cs) =
    if_cases (Found name (c ∷ cs)) (is_zero (strcmp name c.name)) _ _ (λ t. one c (here cs) t)
      (λ f. Found-cons name c cs (find_command cs name) f (find_command-Found name cs))

-- What a line does that begins with the word `name`.
pub data Executes (c : Machine) (s : State) (name : List ℕ) (args : List (List ℕ))
    : Outcome → Type 0 where
  ran :
      (cmd : Command)
      → Listed cmd commands
      → is_zero (strcmp name cmd.name) ≡ true
      → Executes c s name args (after_command (run_func c s cmd.func (name ∷ args)))
  unknown : NoneNamed name commands → Executes c s name args (some (s, not_found_lines s name))

run_command-Executes :
    (c : Machine) (s : State) (name : List ℕ) (args : List (List ℕ)) (f : Option Func)
    → Found name commands f
    → Executes c s name args (run_command c s name args f)
unfolding run_command
run_command-Executes c s name args _ (one cmd l e) = ran cmd l e
run_command-Executes c s name args _ (absent a) = unknown a

execute_from-words :
    (c : Machine) (s : State) (t : List ℕ)
    → execute_from c s t ≡ run_words c s (parse_arguments 8 t)
unfolding parse_arguments skip_spaces parse_word
execute_from-words c s [] = refl
execute_from-words c s (ch ∷ t) = refl

-- A line is executed as its words are, of which the first eight count.
shell_execute_command-words :
    (c : Machine) (s : State) (ws : List (List ℕ)) (input : List ℕ)
    → Spells ws input
    → shell_execute_command c s input ≡ run_words c s (take 8 ws)
unfolding shell_execute_command
shell_execute_command-words c s ws _ (gap _ blanks t a p) =
    ap (execute_from c s) (skip_spaces-AllBlank blanks t a ∙ skip_spaces-Starts ws t p)
    ∙ execute_from-words c s t
    ∙ ap (run_words c s) (parse_arguments-Spells 8 ws t (gap ws [] t no_blank p))

-- A line of words of 1 to 63 characters, with any blanks around them, of which the first is a name
-- in the table of commands, runs the function of that command on the name and the next seven words
-- at most, and shows a new prompt behind it; where no command has the name, the state is as before,
-- and the line is answered by the message that the command was not found.
pub shell_execute_command-Executes :
    (c : Machine) (s : State) (name : List ℕ) (args : List (List ℕ)) (input : List ℕ)
    → Spells (name ∷ args) input
    → Executes c s name (take 7 args) (shell_execute_command c s input)
shell_execute_command-Executes c s name args input p =
    subst (Executes c s name (take 7 args))
      (sym (shell_execute_command-words c s (name ∷ args) input p))
      (run_command-Executes c s name (take 7 args) (find_command commands name)
        (find_command-Found name commands))

-- A line of blanks changes nothing and shows the prompt again.
pub shell_execute_command_blank :
    (c : Machine) (s : State) (input : List ℕ)
    → Spells [] input
    → shell_execute_command c s input ≡ some (s, shell_prompt s)
shell_execute_command_blank c s input p = shell_execute_command-words c s [] input p
