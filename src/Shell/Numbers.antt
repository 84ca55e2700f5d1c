-- ===== src/Shell/Numbers.antt =====
-- The numbers that the commands of kernel/kernel.c read, on `uint32_t`, which wraps.
pub mod RoundTrip
use pxos.Base.{
  ℕ, ◌+◌, ◌-◌, ◌*◌, ◌%◌, ◌^◌, ◌&&◌, Bool, false, Option, none, some, List, [], ◌∷◌, leb, ◌==◌,
  if◌then◌else◌,
}

-- The loops over decimal digits, from a number on; `none` at any other character.
unfoldable pub parse_decimal : ℕ → List ℕ → Option ℕ
parse_decimal n [] = some n
parse_decimal n (c ∷ s) =
    let rest = parse_decimal ((n * 10 + (c - b'0')) % 2 ^ 32) s in
    if leb b'0' c && leb c b'9' then rest else none

-- The value of a hexadecimal digit.
unfoldable pub digit_value : ℕ → Option ℕ
digit_value c =
    if leb b'0' c && leb c b'9'
    then some (c - b'0')
    else if leb b'a' c && leb c b'f'
    then some (c - b'a' + 10)
    else if leb b'A' c && leb c b'F'
    then some (c - b'A' + 10)
    else none

-- The loops over hexadecimal digits.
unfoldable pub parse_hex : ℕ → List ℕ → Option ℕ
parse_hex n [] = some n
parse_hex n (c ∷ s) = elim (digit_value c) [
  | none ↦ none
  | some d ↦ parse_hex ((n * 16 % 2 ^ 32 + d) % 2 ^ 32) s
]

-- The tests for `0x`.
abbrev pub has_prefix : List ℕ → Bool
has_prefix (c ∷ d ∷ s) = c == b'0' && d == b'x'
has_prefix _ = false

abbrev pub skip_prefix : List ℕ → List ℕ
skip_prefix (c ∷ d ∷ s) = if c == b'0' && d == b'x' then s else c ∷ d ∷ s
skip_prefix s = s
