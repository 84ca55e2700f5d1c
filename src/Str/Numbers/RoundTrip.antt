-- ===== src/Str/Numbers/RoundTrip.antt =====
-- `atoi` of lib/string.c reads back what `itoa` writes in base 10.
use pxos.Base.{
  ℕ, zero, suc, ◌+◌, ◌*◌, ◌/◌, ◌%◌, ◌≡◌, ◌≤◌, ◌<◌, refl, sym, ap, ◌∙◌, arith, true, false, Option,
  none, some, List, [], ◌∷◌, ◌++◌, map, length, drop,
}
use mathlib.Core.Path.{subst}
use mathlib.Core.List.{append-nil}
use pxos.Base.Int.{ℤ, pos, negsuc}
use pxos.Str.{deref}
use pxos.Str.Numbers.{
  int_max, reverse_onto, skip_blanks, read_digits, with_sign, read_signed, atoi, itoa_digit,
  write_number, itoa, digits_loop, residues, place_value, power, AllBelow, digits_loop-residues,
  place_value-residues, residues-AllBelow,
}

-- What `atoi` does with `itoa`'s result.
abbrev pub read_back : Option (List ℕ) → Option ℤ
read_back none = none
read_back (some s) = atoi s

abbrev pub magnitude : ℤ → ℕ
magnitude (pos n) = n
magnitude (negsuc n) = suc n

read_digit :
    (r d : ℕ) (s : List ℕ)
    → d < 10
    → r * 10 + d ≤ int_max
    → read_digits r (itoa_digit d ∷ s) ≡ read_digits (r * 10 + d) s
unfolding read_digits itoa_digit
read_digit r d s h le = ground arith

-- The reversed digits of a number in range are read as that number.
read_digits-reverse_onto :
    (ds : List ℕ) (tail : List ℕ)
    → AllBelow 10 ds
    → place_value 10 ds ≤ int_max
    → read_digits 0 (reverse_onto (map itoa_digit ds) tail) ≡ read_digits (place_value 10 ds) tail
read_digits-reverse_onto [] tail a le = refl
read_digits-reverse_onto (d ∷ ds) tail a le =
    read_digits-reverse_onto ds (itoa_digit d ∷ tail) a.1 (omega arith)
    ∙ read_digit (place_value 10 ds) d tail a.0 (omega arith)
    ∙ ap (λ r. read_digits r tail) (omega arith)

abbrev IsDigit : ℕ → Type 0
IsDigit c = (b'0' ≤ c) × (c ≤ b'9')

itoa_digit-IsDigit : (d : ℕ) → d < 10 → IsDigit (itoa_digit d)
unfolding itoa_digit
itoa_digit-IsDigit d h = ground arith

deref-reverse_onto :
    (ds : List ℕ) (tail : List ℕ)
    → AllBelow 10 ds
    → IsDigit (deref tail)
    → IsDigit (deref (reverse_onto (map itoa_digit ds) tail))
deref-reverse_onto [] tail a h = h
deref-reverse_onto (d ∷ ds) tail a h =
    deref-reverse_onto ds (itoa_digit d ∷ tail) a.1 (itoa_digit-IsDigit d a.0)

pub reverse_onto-snoc :
    (cs : List ℕ) (c : ℕ) (rest : List ℕ)
    → reverse_onto (cs ++ c ∷ []) rest ≡ c ∷ reverse_onto cs rest
reverse_onto-snoc [] c rest = refl
reverse_onto-snoc (x ∷ cs) c rest = reverse_onto-snoc cs c (x ∷ rest)

-- A string that begins with a digit is read from there, without a sign.
atoi-digits : (s : List ℕ) → IsDigit (deref s) → atoi s ≡ with_sign false (read_digits 0 s)
unfolding atoi skip_blanks read_signed
atoi-digits [] h = absurd (omega arith)
atoi-digits (c ∷ s) h = ground arith

atoi_minus : (s : List ℕ) → atoi (b'-' ∷ s) ≡ with_sign true (read_digits 0 s)
unfolding atoi skip_blanks read_signed
atoi_minus s = refl

read_digits_end : (v : ℕ) (s : List ℕ) → read_digits v (0 ∷ s) ≡ some v
unfolding read_digits
read_digits_end v s = refl

atoi_zero : (s : List ℕ) → atoi (b'0' ∷ 0 ∷ s) ≡ some (pos 0)
unfolding atoi skip_blanks read_signed read_digits
atoi_zero s = refl

small_fits : (n : ℕ) → suc n ≤ int_max → suc n < power 10 32
small_fits n h = omega arith

-- What the loop of `itoa` writes for `n + 1`.
abbrev pub characters : ℕ → List ℕ
characters n = map itoa_digit (residues 10 32 (suc n))

-- The digits that `itoa` writes for a positive number are read as that number.
read_digits-residues :
    (n : ℕ) (rest : List ℕ)
    → suc n ≤ int_max
    → read_digits 0 (reverse_onto (characters n) (0 ∷ rest)) ≡ some (suc n)
read_digits-residues n rest h =
    let value = place_value-residues 10 32 (suc n) (omega arith) (small_fits n h) in
    read_digits-reverse_onto (residues 10 32 (suc n)) (0 ∷ rest)
      (residues-AllBelow 10 32 (suc n) (omega arith)) (omega (arith, value))
    ∙ read_digits_end (place_value 10 (residues 10 32 (suc n))) rest
    ∙ ap some value

pub digits_loop-fits :
    (n : ℕ) → suc n ≤ int_max → digits_loop itoa_digit 10 32 (suc n) ≡ some (characters n)
digits_loop-fits n h = digits_loop-residues itoa_digit 10 32 (suc n) (omega arith) (small_fits n h)

pub itoa_negative :
    (n : ℕ) (str : List ℕ)
    → suc n ≤ int_max
    → itoa (negsuc n) str 10 ≡ write_number str (b'-' ∷ []) (digits_loop itoa_digit 10 32 (suc n))
unfolding itoa
itoa_negative n str h = ground arith

residues_step : (n : ℕ) → residues 10 32 (suc n) ≡ (suc n % 10 ∷ residues 10 31 (suc n / 10))
residues_step n = ground arith

deref-characters :
    (n : ℕ) (rest : List ℕ) → IsDigit (deref (reverse_onto (characters n) (0 ∷ rest)))
deref-characters n rest =
    subst (λ ds. IsDigit (deref (reverse_onto (map itoa_digit ds) (0 ∷ rest))))
      (sym (residues_step n))
      (deref-reverse_onto (residues 10 31 (suc n / 10)) (itoa_digit (suc n % 10) ∷ 0 ∷ rest)
        (residues-AllBelow 10 31 (suc n / 10) (omega arith))
        (itoa_digit-IsDigit (suc n % 10) (omega arith)))

positive_read :
    (n : ℕ) (rest : List ℕ)
    → suc n ≤ int_max
    → atoi (reverse_onto (characters n) (0 ∷ rest)) ≡ some (pos (suc n))
positive_read n rest h =
    atoi-digits (reverse_onto (characters n) (0 ∷ rest)) (deref-characters n rest)
    ∙ ap (with_sign false) (read_digits-residues n rest h)

-- For every `int` but the least one, `itoa` in base 10 ends and `atoi` reads the number back from
-- the string that it writes, whatever the buffer held.
pub atoi-itoa : (n : ℤ) (str : List ℕ) → magnitude n ≤ int_max → read_back (itoa n str 10) ≡ some n
unfolding itoa
atoi-itoa (pos zero) str h = atoi_zero (drop 2 str)
atoi-itoa (pos (suc n)) str h =
    ap (λ r. read_back (write_number str [] r)) (digits_loop-fits n h)
    ∙ ap (λ cs. atoi (reverse_onto cs (0 ∷ drop (length cs + 1) str))) (append-nil (characters n))
    ∙ positive_read n (drop (length (characters n) + 1) str) h
atoi-itoa (negsuc n) str h =
    let rest = drop (length (characters n ++ b'-' ∷ []) + 1) str in
    ap read_back (itoa_negative n str h)
    ∙ ap (λ r. read_back (write_number str (b'-' ∷ []) r)) (digits_loop-fits n h)
    ∙ ap atoi (reverse_onto-snoc (characters n) b'-' (0 ∷ rest))
    ∙ atoi_minus (reverse_onto (characters n) (0 ∷ rest))
    ∙ ap (with_sign true) (read_digits-residues n rest h)
