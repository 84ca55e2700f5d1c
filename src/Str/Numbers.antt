-- ===== src/Str/Numbers.antt =====
-- `atoi` and `itoa` of lib/string.c. `none` stands for a signed overflow or a division by 0, which C
-- leaves undefined, and for a loop that does not end.
mod Digits
pub mod RoundTrip
unfoldable pub use Digits.*
use pxos.Base.{
  ℕ, zero, suc, ◌+◌, ◌-◌, ◌*◌, ◌/◌, ◌%◌, Bool, true, false, ◌&&◌, ◌||◌, Option, none, some, List,
  [], ◌∷◌, ◌++◌, length, drop, ltb, leb, ◌==◌, if◌then◌else◌,
}
use pxos.Base.Int.{ℤ, pos, negsuc}
use pxos.Str.{deref, next}

abbrev pub int_max : ℕ
int_max = 0x7FFFFFFF

-- `str[i] = '\0'` and the swaps of `itoa`: the characters in reverse order, then what was there.
abbrev pub reverse_onto : List ℕ → List ℕ → List ℕ
reverse_onto [] rest = rest
reverse_onto (c ∷ cs) rest = reverse_onto cs (c ∷ rest)

-- The blanks that `atoi` skips.
abbrev pub is_blank : ℕ → Bool
is_blank c = c == b' ' || c == 9 || c == 10

unfoldable pub skip_blanks : List ℕ → List ℕ
skip_blanks [] = []
skip_blanks (c ∷ s) = if is_blank c then skip_blanks s else c ∷ s

-- The loop of `atoi` over the digits, up to the first other character.
unfoldable pub read_digits : ℕ → List ℕ → Option ℕ
read_digits result [] = some result
read_digits result (c ∷ s) =
    let next_result = result * 10 + (c - b'0') in
    let rest = read_digits next_result s in
    if leb b'0' c && leb c b'9'
    then (if ltb int_max next_result then none else rest)
    else some result

-- `sign * result`
abbrev pub negated : ℕ → ℤ
negated zero = pos 0
negated (suc n) = negsuc n

abbrev pub with_sign : Bool → Option ℕ → Option ℤ
with_sign minus none = none
with_sign true (some n) = some (negated n)
with_sign false (some n) = some (pos n)

-- The sign and the digits.
unfoldable pub read_signed : List ℕ → Option ℤ
read_signed s =
    if deref s == b'-'
    then with_sign true (read_digits 0 (next s))
    else if deref s == b'+'
    then with_sign false (read_digits 0 (next s))
    else with_sign false (read_digits 0 s)

-- `atoi`
unfoldable pub atoi : List ℕ → Option ℤ
atoi s = read_signed (skip_blanks s)

-- The character of a remainder: `rem` is negative where `num` is.
unfoldable pub itoa_digit : ℕ → ℕ
itoa_digit rem = if ltb 9 rem then (rem - 10 + b'a') % 256 else rem + b'0'

unfoldable pub itoa_digit_negative : ℕ → ℕ
itoa_digit_negative rem = (b'0' + 256 - rem % 256) % 256

-- `str` after the digits, and a `-` behind them or not, are written, ended and reversed.
abbrev pub write_number : List ℕ → List ℕ → Option (List ℕ) → Option (List ℕ)
write_number str tail none = none
write_number str tail (some ds) =
    some (reverse_onto (ds ++ tail) (0 ∷ drop (length (ds ++ tail) + 1) str))

-- `itoa(num, str, base)` where `str` has the room, for a base from 0 on: what `str` then holds.
unfoldable pub itoa : ℤ → List ℕ → ℕ → Option (List ℕ)
itoa (pos zero) str base = some (b'0' ∷ 0 ∷ drop 2 str)
itoa (pos (suc n)) str base = write_number str [] (digits_loop itoa_digit base 32 (suc n))
itoa (negsuc n) str base =
    if base == 10
    then (if ltb int_max (suc n)
        then none
        else write_number str (b'-' ∷ []) (digits_loop itoa_digit base 32 (suc n)))
    else write_number str [] (digits_loop itoa_digit_negative base 32 (suc n))
