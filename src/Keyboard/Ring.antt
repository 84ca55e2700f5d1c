-- ===== src/Keyboard/Ring.antt =====
-- The input ring of drivers/keyboard/keyboard.c is a queue of at most 256 characters.
use pxos.Base.{
  ℕ, zero, suc, ◌+◌, ◌-◌, ◌%◌, ◌≡◌, ◌≢◌, ◌≤◌, ◌<◌, refl, ap, ap₂, ◌∙◌, arith, List, [], ◌∷◌, ◌++◌,
  length, length-set, get_or, set, ltb, if◌then◌else◌,
}
use pxos.Keyboard.{
  Keyboard, buffer_size, enqueue, keyboard_init, keyboard_get_char, keyboard_has_input,
  keyboard_clear_buffer,
}

pub record IsValid (k : Keyboard) : Type 0 where
  pub storage : length k.input_buffer ≡ 256
  pub head_in : k.head < 256
  pub tail_at : k.tail ≡ (k.head + k.count) % 256
  pub count_in : k.count ≤ 256

-- The `n` characters of the ring from place `h` on.
abbrev pub held : List ℕ → ℕ → ℕ → List ℕ
held buf h zero = []
held buf h (suc n) = get_or buf h 0 ∷ held buf ((h + 1) % 256) n

-- The queue, oldest character first.
abbrev pub contents : Keyboard → List ℕ
contents k = held k.input_buffer k.head k.count

get_or-set_same : (xs : List ℕ) (i v : ℕ) → i < length xs → get_or (set xs i v) i 0 ≡ v
get_or-set_same [] i v h = absurd (omega arith)
get_or-set_same (x ∷ xs) zero v h = refl
get_or-set_same (x ∷ xs) (suc i) v h = get_or-set_same xs i v (omega arith)

get_or-set_apart : (xs : List ℕ) (i j v : ℕ) → i ≢ j → get_or (set xs i v) j 0 ≡ get_or xs j 0
get_or-set_apart [] i j v h = refl
get_or-set_apart (x ∷ xs) zero zero v h = absurd (h refl)
get_or-set_apart (x ∷ xs) zero (suc j) v h = refl
get_or-set_apart (x ∷ xs) (suc i) zero v h = refl
get_or-set_apart (x ∷ xs) (suc i) (suc j) v h = get_or-set_apart xs i j v (omega arith)

length-held : (buf : List ℕ) (h n : ℕ) → length (held buf h n) ≡ n
length-held buf h zero = refl
length-held buf h (suc n) = ap suc (length-held buf ((h + 1) % 256) n)

-- A character written behind the last one joins the queue at its end.
held-set :
    (buf : List ℕ) (h n t ch : ℕ)
    → length buf ≡ 256
    → h < 256
    → n < 256
    → t ≡ (h + n) % 256
    → held (set buf t ch) h (suc n) ≡ held buf h n ++ ch ∷ []
held-set buf h zero t ch l hh hn e =
    ap (λ x. x ∷ [])
      (ap (λ i. get_or (set buf t ch) i 0) (omega (arith, e))
        ∙ get_or-set_same buf t ch (omega arith))
held-set buf h (suc n) t ch l hh hn e =
    ap₂ ◌∷◌ (get_or-set_apart buf t h ch (omega arith))
      (held-set buf ((h + 1) % 256) n t ch l (omega arith) (omega arith) (omega arith))

-- The queue after a character is offered: a full queue drops it.
abbrev pub offered : List ℕ → ℕ → List ℕ
offered q ch = if ltb (length q) buffer_size then q ++ ch ∷ [] else q

pub enqueue-IsValid : (k : Keyboard) (ch : ℕ) → IsValid k → IsValid (enqueue k ch)
unfolding enqueue
enqueue-IsValid k ch v = ground (arith, length-set k.input_buffer k.tail ch)

pub contents-enqueue :
    (k : Keyboard) (ch : ℕ) → IsValid k → contents (enqueue k ch) ≡ offered (contents k) ch
unfolding enqueue
contents-enqueue k ch v = ground (
  arith,
  length-held k.input_buffer k.head k.count,
  held-set k.input_buffer k.head k.count k.tail ch,
)

pub modifiers-enqueue : (k : Keyboard) (ch : ℕ) → (enqueue k ch).modifiers ≡ k.modifiers
unfolding enqueue
modifiers-enqueue k ch = ground arith

-- `held` matches on `suc`, the code tests the count.
held_pos :
    (buf : List ℕ) (h n : ℕ)
    → 0 < n
    → held buf h n ≡ get_or buf h 0 ∷ held buf ((h + 1) % 256) (n - 1)
held_pos buf h zero p = absurd (omega arith)
held_pos buf h (suc n) p = ap (λ m. held buf h (suc m)) (omega arith)

-- What a read returns and leaves: 0 and the empty queue, or the oldest character and the others.
abbrev pub dequeued : List ℕ → ℕ × List ℕ
dequeued [] = (0, [])
dequeued (c ∷ q) = (c, q)

pub get_char-IsValid : (k : Keyboard) → IsValid k → IsValid (keyboard_get_char k).1
unfolding keyboard_get_char
get_char-IsValid k v = ground arith

-- `keyboard_get_char` on a valid ring takes the oldest character off the queue, or returns 0 on an
-- empty one; `keyboard_has_input` tells whether the queue holds a character.
pub keyboard_get_char-dequeued :
    (k : Keyboard)
    → IsValid k
    → (let (ch, k') = keyboard_get_char k in (ch, contents k') ≡ dequeued (contents k))
      × (keyboard_has_input k ≡ ltb 0 (length (contents k)))
unfolding keyboard_get_char keyboard_has_input
keyboard_get_char-dequeued k v = (
  ground (arith, held_pos k.input_buffer k.head k.count),
  rw (length-held k.input_buffer k.head k.count),
)

pub keyboard_init-IsValid : IsValid keyboard_init × (contents keyboard_init ≡ [])
unfolding keyboard_init
keyboard_init-IsValid =
    (record { storage = refl; head_in = omega arith; tail_at = refl; count_in = omega arith }, refl)

pub clear_buffer-IsValid :
    (k : Keyboard) → IsValid (keyboard_clear_buffer k) × (contents (keyboard_clear_buffer k) ≡ [])
unfolding keyboard_clear_buffer
clear_buffer-IsValid k =
    (record { storage = refl; head_in = omega arith; tail_at = refl; count_in = omega arith }, refl)
