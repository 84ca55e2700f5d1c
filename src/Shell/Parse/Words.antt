-- ===== src/Shell/Parse/Words.antt =====
-- The words that the parsing of a line in kernel/kernel.c finds.
use pxos.Base.{
  ℕ, zero, suc, ◌≡◌, ◌≤◌, refl, ap, ap₂, ◌∙◌, arith, true, false, List, [], ◌∷◌, ◌++◌, length, take,
  if_true, if_false,
}
use pxos.Shell.Parse.{is_space, skip_spaces, take_word, after_word, parse_arguments, parse_word}

-- Every character is a blank.
pub data AllBlank : List ℕ → Type 0 where
  no_blank : AllBlank []
  blank : (c : ℕ) (s : List ℕ) → is_space c ≡ true → AllBlank s → AllBlank (c ∷ s)

-- No character is one.
pub data NoBlank : List ℕ → Type 0 where
  no_letter : NoBlank []
  letter : (c : ℕ) (s : List ℕ) → is_space c ≡ false → NoBlank s → NoBlank (c ∷ s)

mutual
  -- A line is blanks, then words with blanks in between.
  pub data Spells : List (List ℕ) → List ℕ → Type 0 where
    gap :
        (ws : List (List ℕ)) (blanks s : List ℕ)
        → AllBlank blanks
        → Starts ws s
        → Spells ws (blanks ++ s)

  -- It is empty, or begins with a word of 1 to 63 characters, and behind that it ends or has a
  -- blank.
  pub data Starts : List (List ℕ) → List ℕ → Type 0 where
    ends : Starts [] []
    word :
        (c : ℕ) (w : List ℕ) (ws : List (List ℕ)) (s : List ℕ)
        → NoBlank (c ∷ w)
        → length (c ∷ w) ≤ 63
        → Follows ws s
        → Starts ((c ∷ w) ∷ ws) ((c ∷ w) ++ s)

  pub data Follows : List (List ℕ) → List ℕ → Type 0 where
    stops : Follows [] []
    more :
        (b : ℕ) (ws : List (List ℕ)) (s : List ℕ)
        → is_space b ≡ true
        → Spells ws s
        → Follows ws (b ∷ s)

pub skip_spaces-AllBlank :
    (blanks s : List ℕ) → AllBlank blanks → skip_spaces (blanks ++ s) ≡ skip_spaces s
unfolding skip_spaces
skip_spaces-AllBlank [] s a = refl
skip_spaces-AllBlank (c ∷ cs) s (blank _ _ h a) = if_true _ _ h ∙ skip_spaces-AllBlank cs s a

pub skip_spaces-Starts : (ws : List (List ℕ)) (s : List ℕ) → Starts ws s → skip_spaces s ≡ s
unfolding skip_spaces
skip_spaces-Starts [] [] ends = refl
skip_spaces-Starts _ _ (word c w ws s (letter _ _ h a) l f) = if_false _ _ h

take_word-Follows :
    (room : ℕ) (w : List ℕ) (ws : List (List ℕ)) (s : List ℕ)
    → NoBlank w
    → length w ≤ room
    → Follows ws s
    → take_word room (w ++ s) ≡ w
unfolding take_word
take_word-Follows zero [] ws s a l f = refl
take_word-Follows zero (c ∷ w) ws s a l f = absurd (omega (arith, l))
take_word-Follows (suc room) [] [] [] a l stops = refl
take_word-Follows (suc room) [] ws _ a l (more b _ s h r) = if_true _ _ h
take_word-Follows (suc room) (c ∷ w) ws s (letter _ _ h a) l f =
    if_false _ _ h ∙ ap (λ w. c ∷ w) (take_word-Follows room w ws s a (omega (arith, l)) f)

after_word-Follows :
    (room : ℕ) (w : List ℕ) (ws : List (List ℕ)) (s : List ℕ)
    → NoBlank w
    → length w ≤ room
    → Follows ws s
    → after_word room (w ++ s) ≡ s
unfolding after_word
after_word-Follows zero [] ws s a l f = refl
after_word-Follows zero (c ∷ w) ws s a l f = absurd (omega (arith, l))
after_word-Follows (suc room) [] [] [] a l stops = refl
after_word-Follows (suc room) [] ws _ a l (more b _ s h r) = if_true _ _ h
after_word-Follows (suc room) (c ∷ w) ws s (letter _ _ h a) l f =
    if_false _ _ h ∙ after_word-Follows room w ws s a (omega (arith, l)) f

mutual
  unfolding parse_arguments parse_word skip_spaces

  parse_arguments-Starts :
      (free : ℕ) (ws : List (List ℕ)) (s : List ℕ)
      → Starts ws s
      → parse_word s (parse_arguments free (after_word 63 s)) ≡ take (suc free) ws
  parse_arguments-Starts free [] [] ends = refl
  parse_arguments-Starts free _ _ (word c w ws s a l f) =
      ap₂ (λ w ws. w ∷ ws) (take_word-Follows 63 (c ∷ w) ws s a l f)
        (ap (parse_arguments free) (after_word-Follows 63 (c ∷ w) ws s a l f)
          ∙ parse_arguments-Follows free ws s f)

  parse_arguments-Follows :
      (free : ℕ) (ws : List (List ℕ)) (s : List ℕ)
      → Follows ws s
      → parse_arguments free s ≡ take free ws
  parse_arguments-Follows zero ws s f = refl
  parse_arguments-Follows (suc free) [] [] stops = refl
  parse_arguments-Follows (suc free) ws _ (more b _ s h (gap _ blanks t a p)) =
      ap (λ word. parse_word word (parse_arguments free (after_word 63 word)))
        (if_true _ _ h ∙ skip_spaces-AllBlank blanks t a ∙ skip_spaces-Starts ws t p)
      ∙ parse_arguments-Starts free ws t p

-- A line that spells words of 1 to 63 characters, with any blanks before, between and behind them,
-- is parsed into these words, up to the number of arguments that there is room for.
pub parse_arguments-Spells :
    (free : ℕ) (ws : List (List ℕ)) (s : List ℕ)
    → Spells ws s
    → parse_arguments free s ≡ take free ws
unfolding parse_arguments parse_word skip_spaces
parse_arguments-Spells zero ws s p = refl
parse_arguments-Spells (suc free) ws _ (gap _ blanks s a p) =
    ap (λ word. parse_word word (parse_arguments free (after_word 63 word)))
      (skip_spaces-AllBlank blanks s a ∙ skip_spaces-Starts ws s p)
    ∙ parse_arguments-Starts free ws s p
