-- ===== src/Shell/Numbers/RoundTrip.antt =====
-- The numbers that the commands of kernel/kernel.c read are those that the kernel shows.
use pxos.Base.{
  ℕ, ◌+◌, ◌*◌, ◌%◌, ◌^◌, ◌≡◌, ◌<◌, refl, ap, ◌∙◌, arith, Option, none, some, List, [], ◌∷◌, ◌++◌,
  map, codes, ◌==◌, if_cases,
}
use pxos.Str.Numbers.{
  reverse_onto, residues, place_value, AllBelow, place_value-residues, residues-AllBelow,
}
use pxos.Vga.{Terminal, vga_putstr, vga_puthex, hex_digit}
use pxos.Vga.Numbers.{hex_printed, zero_hex, small_hex}
use pxos.Shell.Numbers.{parse_decimal, digit_value, parse_hex, skip_prefix}

digit_value-hex_digit : (d : ℕ) → d < 16 → digit_value (hex_digit d) ≡ some d
unfolding digit_value hex_digit
digit_value-hex_digit d h = ground arith

-- One more digit of a number that does not wrap.
parse_hex_digit :
    (v d : ℕ) (s : List ℕ)
    → d < 16
    → v * 16 + d < 2 ^ 32
    → parse_hex v (hex_digit d ∷ s) ≡ parse_hex (16 * v + d) s
unfolding parse_hex
parse_hex_digit v d s h small =
    ap (λ r. elim r [ none ↦ none | some d ↦ parse_hex ((v * 16 % 2 ^ 32 + d) % 2 ^ 32) s ])
      (digit_value-hex_digit d h)
    ∙ ap (λ n. parse_hex n s) (omega arith)

parse_hex-reverse_onto :
    (ds tail : List ℕ)
    → AllBelow 16 ds
    → place_value 16 ds < 2 ^ 32
    → parse_hex 0 (reverse_onto (map hex_digit ds) tail) ≡ parse_hex (place_value 16 ds) tail
parse_hex-reverse_onto [] tail a small = refl
parse_hex-reverse_onto (d ∷ ds) tail a small =
    parse_hex-reverse_onto ds (hex_digit d ∷ tail) a.1 (omega arith)
    ∙ parse_hex_digit (place_value 16 ds) d tail a.0 (omega arith)

skip_prefix_shown : (s : List ℕ) → skip_prefix (codes "0x" ++ s) ≡ s
skip_prefix_shown s = refl

-- A text that was shown and is read as a number, but not as a decimal one.
pub record ReadBack (before : Terminal) (after : Option Terminal) (num : ℕ) (shown : List ℕ)
    : Type 0 where
  pub printed : after ≡ some (vga_putstr before shown)
  pub parsed : parse_hex 0 (skip_prefix shown) ≡ some num
  pub refused : parse_decimal 0 shown ≡ none

-- Every number of 32 bits, such as the address that `malloc` shows, is shown by `vga_puthex` as a
-- text that `free`, and `syscall` as an argument, read as that number. Where a decimal number is
-- read, as for the pids of `kill` and `priority`, the text is refused.
pub parse_hex-vga_puthex :
    (t : Terminal) (num : ℕ)
    → num < 2 ^ 32
    → (shown : List ℕ) × ReadBack t (vga_puthex t num) num shown
unfolding vga_puthex parse_hex digit_value parse_decimal
parse_hex-vga_puthex t num h =
    let ds = residues 16 9 num in
    let value = place_value-residues 16 9 num (omega arith) (small_hex num h).0 in
    if_cases (λ r. (shown : List ℕ) × ReadBack t r num shown) (num == 0) _ _
      (λ z. (
        codes "0x" ++ b'0' ∷ [],
        record {
          printed = ap some (zero_hex t);
          parsed = ap some (ground (arith, z));
          refused = refl;
        },
      ))
      (λ nz. (
        codes "0x" ++ reverse_onto (map hex_digit ds) [],
        record {
          printed = hex_printed t num h;
          parsed =
              parse_hex-reverse_onto ds [] (residues-AllBelow 16 9 num (omega arith))
                (omega (arith, value, h))
              ∙ ap some value;
          refused = refl;
        },
      ))
