-- ===== src/Shell/Parse.antt =====
-- The words of a line in `shell_execute_command` of kernel/kernel.c. The input is the list of its
-- characters, without the NUL.
pub mod Words
use pxos.Base.{ℕ, zero, suc, Bool, true, false, ◌||◌, List, [], ◌∷◌, ◌==◌, if◌then◌else◌}

abbrev pub is_space : ℕ → Bool
is_space c = c == b' ' || c == 9

-- The loops that pass over blanks.
unfoldable pub skip_spaces : List ℕ → List ℕ
skip_spaces [] = []
skip_spaces (c ∷ s) = let rest = skip_spaces s in if is_space c then rest else c ∷ s

-- The loop that copies one word, of `room` characters at most: the word.
unfoldable pub take_word : ℕ → List ℕ → List ℕ
take_word zero s = []
take_word (suc room) [] = []
take_word (suc room) (c ∷ s) = let rest = take_word room s in if is_space c then [] else c ∷ rest

-- What it leaves of the input.
unfoldable pub after_word : ℕ → List ℕ → List ℕ
after_word zero s = s
after_word (suc room) [] = []
after_word (suc room) (c ∷ s) = let rest = after_word room s in if is_space c then c ∷ s else rest

-- The round of the loop at the place that the blanks lead to, with the words of the later rounds.
unfoldable pub parse_word : List ℕ → List (List ℕ) → List (List ℕ)
parse_word [] later = []
parse_word (c ∷ s) later = take_word 63 (c ∷ s) ∷ later

-- The loop over the words, of which `free` more fit into `args`.
unfoldable pub parse_arguments : ℕ → List ℕ → List (List ℕ)
parse_arguments zero s = []
parse_arguments (suc free) s =
    let word = skip_spaces s in parse_word word (parse_arguments free (after_word 63 word))
