-- ===== src/Str/Tests.antt =====
-- The theorems on the string functions at concrete strings.
use pxos.Base.{ℕ, some, none, refl, ◌≡◌, arith, List, [], ◌∷◌}
use pxos.Base.Int.{pos, negsuc}
use pxos.Str.Numbers.{atoi, itoa, skip_blanks, read_signed, read_digits, itoa_digit, digits_loop}
use pxos.Str.Numbers.RoundTrip.{atoi-itoa, read_back}

-- "ls" with bytes behind its end, and "Ls".
abbrev ls : List ℕ
ls = b'l' ∷ b's' ∷ 0 ∷ b'x' ∷ []

abbrev ls_upper : List ℕ
ls_upper = b'L' ∷ b's' ∷ []

atoi-itoa_example : read_back (itoa (negsuc 41) (b'x' ∷ b'y' ∷ []) 10) ≡ some (negsuc 41)
atoi-itoa_example = atoi-itoa (negsuc 41) (b'x' ∷ b'y' ∷ []) (omega arith)

itoa_hex : itoa (pos 51966) [] 16 ≡ some (b'c' ∷ b'a' ∷ b'f' ∷ b'e' ∷ 0 ∷ [])
unfolding itoa digits_loop itoa_digit
itoa_hex = refl

atoi_signed : atoi (9 ∷ b' ' ∷ b'-' ∷ b'1' ∷ b'7' ∷ b'x' ∷ []) ≡ some (negsuc 16)
unfolding atoi skip_blanks read_signed read_digits
atoi_signed = refl

atoi_overflow :
    atoi (b'2' ∷ b'1' ∷ b'4' ∷ b'7' ∷ b'4' ∷ b'8' ∷ b'3' ∷ b'6' ∷ b'4' ∷ b'8' ∷ []) ≡ none
unfolding atoi skip_blanks read_signed read_digits
atoi_overflow = refl
