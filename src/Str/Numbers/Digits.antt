-- ===== src/Str/Numbers/Digits.antt =====
-- The loop that takes the digits off a number, lowest first, as `itoa` of lib/string.c and the number
-- output of drivers/vga/vga.c run it.
use pxos.Base.{
  ℕ, zero, suc, ◌+◌, ◌*◌, ◌/◌, ◌%◌, ◌≡◌, ◌≤◌, ◌<◌, refl, sym, ap, ◌∙◌, arith, Option, none, some,
  List, [], ◌∷◌, map, length, ◌==◌, ==_iff, if◌then◌else◌, if_cases,
}
use native.Mathlib.Nat.{div-lt_iff_lt-mul, div-add-mod, mod-lt}

abbrev pub digit_then : ℕ → Option (List ℕ) → Option (List ℕ)
digit_then c none = none
digit_then c (some ds) = some (c ∷ ds)

-- `while (num != 0) { buffer[i++] = digit(num % base); num /= base; }` with the characters written;
-- `none` if `fuel` passes are not enough or the base is 0.
unfoldable pub digits_loop : (ℕ → ℕ) → ℕ → ℕ → ℕ → Option (List ℕ)
digits_loop digit base zero num = if num == 0 then some [] else none
digits_loop digit base (suc fuel) num =
    let rest = digits_loop digit base fuel (num / base) in
    if num == 0 then some [] else if base == 0 then none else digit_then (digit (num % base)) rest

-- The digits as numbers.
abbrev pub residues : ℕ → ℕ → ℕ → List ℕ
residues base zero num = []
residues base (suc fuel) num = if num == 0 then [] else num % base ∷ residues base fuel (num / base)

-- The number that digits stand for, lowest first.
abbrev pub place_value : ℕ → List ℕ → ℕ
place_value base [] = 0
place_value base (d ∷ ds) = base * place_value base ds + d

-- Every digit is below the base.
abbrev pub AllBelow : ℕ → List ℕ → Type 0
AllBelow base [] = 0 ≤ base
AllBelow base (d ∷ ds) = (d < base) × AllBelow base ds

-- `base` to the power `n`.
abbrev pub power : ℕ → ℕ → ℕ
power base zero = 1
power base (suc n) = power base n * base

-- A number of at most `fuel` digits leaves the loop in time, with its digits.
pub digits_loop-residues :
    (digit : ℕ → ℕ) (base fuel num : ℕ)
    → 0 < base
    → num < power base fuel
    → digits_loop digit base fuel num ≡ some (map digit (residues base fuel num))
unfolding digits_loop
digits_loop-residues digit base zero zero b h = refl
digits_loop-residues digit base zero (suc n) b h = absurd (omega arith)
digits_loop-residues digit base (suc fuel) num b h =
    ground (arith, digits_loop-residues digit base fuel (num / base) b ((div-lt_iff_lt-mul b).1 h))

pub place_value-residues :
    (base fuel num : ℕ)
    → 0 < base
    → num < power base fuel
    → place_value base (residues base fuel num) ≡ num
place_value-residues base zero zero b h = refl
place_value-residues base zero (suc n) b h = absurd (omega arith)
place_value-residues base (suc fuel) num b h =
    if_cases (λ ds. place_value base ds ≡ num) (num == 0) _ _ (λ t. sym ((==_iff num 0).0 t))
      (λ f.
        ap (λ q. base * q + num % base)
          (place_value-residues base fuel (num / base) b ((div-lt_iff_lt-mul b).1 h))
        ∙ div-add-mod num base)

pub residues-AllBelow : (base fuel num : ℕ) → 0 < base → AllBelow base (residues base fuel num)
residues-AllBelow base zero num b = omega arith
residues-AllBelow base (suc fuel) num b =
    if_cases (AllBelow base) (num == 0) _ _ (λ t. omega arith)
      (λ f. (mod-lt num b, residues-AllBelow base fuel (num / base) b))

-- A number below the power `k` of the base has at most `k` digits.
pub length-residues :
    (base fuel k num : ℕ) → 0 < base → num < power base k → length (residues base fuel num) ≤ k
length-residues base zero k num b h = omega arith
length-residues base (suc fuel) zero num b h =
    if_cases (λ ds. length ds ≤ 0) (num == 0) _ _ (λ t. omega arith)
      (λ f. absurd (ground (arith, f)))
length-residues base (suc fuel) (suc k) num b h =
    if_cases (λ ds. length ds ≤ suc k) (num == 0) _ _ (λ t. omega arith)
      (λ f. omega (arith, length-residues base fuel k (num / base) b ((div-lt_iff_lt-mul b).1 h)))
