-- ===== src/Vga/Numbers.antt =====
-- The number output of drivers/vga/vga.c.
use mathlib.Core.List.{append-nil}
use pxos.Base.{
  ℕ, zero, suc, ◌+◌, ◌-◌, ◌*◌, ◌^◌, ◌≡◌, ◌≢◌, ◌≤◌, ◌<◌, refl, sym, ap, ap₂, ◌∙◌, arith, Option,
  none, some, List, [], ◌∷◌, ◌++◌, map, length, length-map, drop, codes, ltb, leb, ◌==◌,
  if◌then◌else◌, if_cases, if_true, if_false,
}
use pxos.Base.Int.{ℤ, pos, negsuc, pos_part}
use pxos.Str.Numbers.{
  int_max, digits_loop, itoa, itoa_digit, write_number, reverse_onto, residues, AllBelow, power,
  place_value, digits_loop-residues, residues-AllBelow, place_value-residues, length-residues,
}
use pxos.Str.Numbers.RoundTrip.{characters, digits_loop-fits, itoa_negative, reverse_onto-snoc}
use pxos.Vga.{
  Terminal, vga_putchar, vga_putstr, put_backwards, put_digits, decimal_digit, vga_putnum,
  hex_digit, vga_puthex,
}

-- A string that another function makes, printed.
abbrev pub put_string : Terminal → Option (List ℕ) → Option Terminal
put_string t none = none
put_string t (some s) = some (vga_putstr t s)

vga_putstr-step :
    (t : Terminal) (c : ℕ) (s : List ℕ)
    → c ≢ 0
    → vga_putstr t (c ∷ s) ≡ vga_putstr (vga_putchar t c) s
unfolding vga_putstr
vga_putstr-step t c s h = if_false {b = c == 0} _ _ (ground arith)

-- The digits from the last one on print what the reversed string prints.
vga_putstr-reverse_onto :
    (digit : ℕ → ℕ) (t : Terminal) (ds tail : List ℕ)
    → ((d : ℕ) → digit d ≢ 0)
    → vga_putstr t (reverse_onto (map digit ds) tail)
      ≡ vga_putstr (put_backwards t (map digit ds)) tail
unfolding put_backwards
vga_putstr-reverse_onto digit t [] tail h = refl
vga_putstr-reverse_onto digit t (d ∷ ds) tail h =
    vga_putstr-reverse_onto digit t ds (digit d ∷ tail) h
    ∙ vga_putstr-step (put_backwards t (map digit ds)) (digit d) tail (h d)

vga_putstr_end : (t : Terminal) (s : List ℕ) → vga_putstr t (0 ∷ s) ≡ t
unfolding vga_putstr
vga_putstr_end t s = refl

decimal_digit-nonzero : (d : ℕ) → decimal_digit d ≢ 0
unfolding decimal_digit
decimal_digit-nonzero d e = omega (arith, e)

map-decimal_digit : (ds : List ℕ) → AllBelow 10 ds → map itoa_digit ds ≡ map decimal_digit ds
unfolding itoa_digit decimal_digit
map-decimal_digit [] a = refl
map-decimal_digit (d ∷ ds) a =
    ap₂ ◌∷◌ (if_false {b = ltb 9 d} _ _ (ground (arith, a.0)) ∙ omega arith)
      (map-decimal_digit ds a.1)

small_decimal : (n : ℕ) → suc n ≤ int_max → suc n < power 10 32
small_decimal n h = omega arith

-- The characters of `itoa`, printed in their order, and the digits of `vga_putnum`.
vga_putstr-characters :
    (t : Terminal) (n : ℕ) (rest : List ℕ)
    → suc n ≤ int_max
    → put_digits t (digits_loop decimal_digit 10 32 (suc n))
      ≡ some (vga_putstr t (reverse_onto (characters n) (0 ∷ rest)))
vga_putstr-characters t n rest h =
    let ds = residues 10 32 (suc n) in
    ap (put_digits t)
      (digits_loop-residues decimal_digit 10 32 (suc n) (omega arith) (small_decimal n h))
    ∙ sym (
        ap some (
          ap (λ cs. vga_putstr t (reverse_onto cs (0 ∷ rest)))
            (map-decimal_digit ds (residues-AllBelow 10 32 (suc n) (omega arith)))
          ∙ vga_putstr-reverse_onto decimal_digit t ds (0 ∷ rest) decimal_digit-nonzero
          ∙ vga_putstr_end (put_backwards t (map decimal_digit ds)) rest))

zero_printed : (t : Terminal) → vga_putchar t b'0' ≡ vga_putstr t (b'0' ∷ 0 ∷ [])
unfolding vga_putstr
zero_printed t = refl

minus_nonzero : ◌≢◌ {A = ℕ} b'-' 0
minus_nonzero e = omega (arith, e)

vga_putnum_negative :
    (t : Terminal) (n : ℕ)
    → suc n ≤ int_max
    → put_digits (vga_putchar t b'-') (digits_loop decimal_digit 10 32 (suc n))
      ≡ put_string t (itoa (negsuc n) [] 10)
vga_putnum_negative t n h =
    let rest = drop (length (characters n ++ b'-' ∷ []) + 1) [] in
    vga_putstr-characters (vga_putchar t b'-') n rest h
    ∙ sym (
        ap (put_string t)
          (itoa_negative n [] h ∙ ap (write_number [] (b'-' ∷ [])) (digits_loop-fits n h))
        ∙ ap (λ s. some (vga_putstr t s)) (reverse_onto-snoc (characters n) b'-' (0 ∷ rest))
        ∙ ap some (vga_putstr-step t b'-' (reverse_onto (characters n) (0 ∷ rest)) (minus_nonzero)))

-- For every `int`, `vga_putnum` prints on any terminal exactly the string that `itoa` of lib/string.c
-- writes in base 10, and has no defined result where `itoa` has none, at the least `int`.
pub vga_putnum-itoa :
    (t : Terminal) (n : ℤ) → pos_part n ≤ int_max → vga_putnum t n ≡ put_string t (itoa n [] 10)
unfolding vga_putnum itoa
vga_putnum-itoa t (pos zero) h = ap some (zero_printed t)
vga_putnum-itoa t (pos (suc n)) h =
    vga_putstr-characters t n (drop (length (characters n) + 1) []) h
    ∙ sym (
        ap (λ r. put_string t (write_number [] [] r)) (digits_loop-fits n h)
        ∙ ap (λ cs. some (vga_putstr t (reverse_onto cs (0 ∷ drop (length cs + 1) []))))
            (append-nil (characters n)))
vga_putnum-itoa t (negsuc n) h =
    if_cases (λ r. r ≡ put_string t (itoa (negsuc n) [] 10)) (ltb int_max (suc n)) _ _
      (λ over. sym (ap (put_string t) (if_true _ _ over)))
      (λ fits. vga_putnum_negative t n (ground (arith, fits)))

-- A number of 32 bits in hexadecimal digits: the value that they have.
abbrev hex_digit_value : ℕ → ℕ
hex_digit_value c = if leb c b'9' then c - b'0' else c - b'A' + 10

abbrev pub hex_value : ℕ → List ℕ → ℕ
hex_value n [] = n
hex_value n (c ∷ s) = hex_value (n * 16 + hex_digit_value c) s

hex_digit_value-hex_digit : (d : ℕ) → d < 16 → hex_digit_value (hex_digit d) ≡ d
unfolding hex_digit
hex_digit_value-hex_digit d h = ground arith

hex_digit-nonzero : (d : ℕ) → hex_digit d ≢ 0
unfolding hex_digit
hex_digit-nonzero d e = ground arith

hex_value-reverse_onto :
    (ds tail : List ℕ)
    → AllBelow 16 ds
    → hex_value 0 (reverse_onto (map hex_digit ds) tail) ≡ hex_value (place_value 16 ds) tail
hex_value-reverse_onto [] tail a = refl
hex_value-reverse_onto (d ∷ ds) tail a =
    hex_value-reverse_onto ds (hex_digit d ∷ tail) a.1
    ∙ ap (λ v. hex_value v tail) (omega (arith, hex_digit_value-hex_digit d a.0))

length-reverse_onto : (cs tail : List ℕ) → length (reverse_onto cs tail) ≡ length cs + length tail
length-reverse_onto [] tail = omega arith
length-reverse_onto (c ∷ cs) tail = omega (arith, length-reverse_onto cs (c ∷ tail))

pub small_hex : (n : ℕ) → n < 2 ^ 32 → (n < power 16 9) × (n < power 16 8)
small_hex n h = (omega arith, omega arith)

-- Hexadecimal digits that the terminal shows behind the prefix.
pub record Shows (before : Terminal) (after : Option Terminal) (num : ℕ) (digits : List ℕ)
    : Type 0 where
  pub printed : after ≡ some (vga_putstr before (codes "0x" ++ digits))
  pub value : hex_value 0 digits ≡ num
  pub nonempty : 0 < length digits
  pub room : length digits ≤ 8

vga_putstr-prefix :
    (t : Terminal) (s : List ℕ)
    → vga_putstr t (codes "0x" ++ s) ≡ vga_putstr (vga_putstr t (codes "0x")) s
unfolding vga_putstr
vga_putstr-prefix t s = refl

pub zero_hex :
    (t : Terminal)
    → vga_putchar (vga_putstr t (codes "0x")) b'0' ≡ vga_putstr t (codes "0x" ++ b'0' ∷ [])
unfolding vga_putstr
zero_hex t = refl

residues-nonempty : (num : ℕ) → num ≢ 0 → 0 < length (residues 16 9 num)
residues-nonempty num h = ground arith

pub hex_printed :
    (t : Terminal) (num : ℕ)
    → num < 2 ^ 32
    → put_digits (vga_putstr t (codes "0x")) (digits_loop hex_digit 16 9 num)
      ≡ some (vga_putstr t (codes "0x" ++ reverse_onto (map hex_digit (residues 16 9 num)) []))
unfolding vga_putstr
hex_printed t num h =
    let prefixed = vga_putstr t (codes "0x") in
    let ds = residues 16 9 num in
    ap (put_digits prefixed)
      (digits_loop-residues hex_digit 16 9 num (omega arith) (small_hex num h).0)
    ∙ sym (
        ap some (
          vga_putstr-prefix t (reverse_onto (map hex_digit ds) [])
          ∙ vga_putstr-reverse_onto hex_digit prefixed ds [] hex_digit-nonzero))

-- For every number of 32 bits, `vga_puthex` ends and prints `0x` and a string of one to eight digits,
-- so that its buffer of nine bytes suffices, and the digits read in base 16 are the number.
pub vga_puthex-Shows :
    (t : Terminal) (num : ℕ)
    → num < 2 ^ 32
    → (digits : List ℕ) × Shows t (vga_puthex t num) num digits
unfolding vga_puthex
vga_puthex-Shows t num h =
    let ds = residues 16 9 num in
    if_cases (λ r. (digits : List ℕ) × Shows t r num digits) (num == 0) _ _
      (λ z. (
        b'0' ∷ [],
        record {
          printed = ap some (zero_hex t);
          value = ground (arith, z);
          nonempty = omega arith;
          room = omega arith;
        },
      ))
      (λ nz. (
        reverse_onto (map hex_digit ds) [],
        record {
          printed = hex_printed t num h;
          value =
              hex_value-reverse_onto ds [] (residues-AllBelow 16 9 num (omega arith))
              ∙ place_value-residues 16 9 num (omega arith) (small_hex num h).0;
          nonempty = omega (
            arith,
            length-reverse_onto (map hex_digit ds) [],
            length-map ds hex_digit,
            residues-nonempty num (ground (arith, nz)),
          );
          room = omega (
            arith,
            length-reverse_onto (map hex_digit ds) [],
            length-map ds hex_digit,
            length-residues 16 9 8 num (omega arith) (small_hex num h).1,
          );
        },
      ))
