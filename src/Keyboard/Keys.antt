-- ===== src/Keyboard/Keys.antt =====
-- The characters of the keys: what Shift and Caps Lock do to a letter key and to any other.
use pxos.Base.{
  ℕ, zero, suc, ◌-◌, ◌≡◌, ◌<◌, refl, arith, Bool, true, false, not, ◌&&◌, leb, ◌==◌, ==_iff,
  if◌then◌else◌,
}
use native.Mathlib.Decide.{ℕ_discrete}
use pxos.Keyboard.{is_special_key, apply_caps, scancode_to_char}

-- Two maps agree on the first `n` scan codes, tested by evaluation.
agree_on : (ℕ → ℕ) → (ℕ → ℕ) → ℕ → Bool
agree_on f g zero = true
agree_on f g (suc n) = f n == g n && agree_on f g n

agree_on-eq : (f g : ℕ → ℕ) (n : ℕ) → agree_on f g n ≡ true → (k : ℕ) → k < n → f k ≡ g k
unfolding agree_on
agree_on-eq f g zero t k lt = absurd (omega arith)
agree_on-eq f g (suc n) t k lt = elim (ℕ_discrete k n) [
  | yes here ↦ rw here ((==_iff (f n) (g n)).0 (ground arith))
  | no below ↦ agree_on-eq f g n (ground arith) k (omega arith)
]

abbrev is_lower_letter : ℕ → Bool
is_lower_letter c = leb b'a' c && leb c b'z'

abbrev differ : Bool → Bool → Bool
differ true b = not b
differ false b = b

-- The character that a key should give: a letter in upper case if exactly one of Shift and Caps
-- Lock is on, and for any other key what Shift alone decides.
abbrev pub expected : ℕ → Bool → Bool → ℕ
expected k shift caps =
    let plain = scancode_to_char k false false in
    if is_lower_letter plain
    then (if differ shift caps then plain - 32 else plain)
    else scancode_to_char k shift false

caps_table :
    (shift caps : Bool)
    → agree_on (λ k. scancode_to_char k shift caps) (λ k. expected k shift caps) 256 ≡ true
unfolding agree_on scancode_to_char is_special_key apply_caps
caps_table true true = refl
caps_table true false = refl
caps_table false true = refl
caps_table false false = refl

-- For every scan code of a byte `scancode_to_char` gives, where the key is a letter, the upper-case
-- letter if exactly one of Shift and Caps Lock is on and the lower-case one otherwise, and for any
-- other key what Shift alone decides.
pub scancode_to_char-expected :
    (k : ℕ) (shift caps : Bool) → k < 256 → scancode_to_char k shift caps ≡ expected k shift caps
scancode_to_char-expected k shift caps h =
    agree_on-eq (λ c. scancode_to_char c shift caps) (λ c. expected c shift caps) 256
      (caps_table shift caps) k h
