-- ===== src/Str/Compare.antt =====
-- When `strcmp`, `strcasecmp` and `memcmp` return 0.
use pxos.Base.{ℕ, zero, suc, ◌≡◌, ◌≤◌, ◌<◌, ◌↔◌, refl, arith, List, [], ◌∷◌, length, take, map}
use pxos.Base.Int.{pos}
use pxos.Str.{strcmp, strcasecmp, memcmp, lower, char_diff, text}

-- `strcmp` returns 0 exactly on equal strings.
pub strcmp-zero_iff : (s t : List ℕ) → (strcmp s t ≡ pos 0) ↔ (text s ≡ text t)
unfolding strcmp
strcmp-zero_iff [] [] = (λ e. refl, λ e. refl)
strcmp-zero_iff [] (d ∷ t) = ground arith
strcmp-zero_iff (c ∷ s) [] = ground arith
strcmp-zero_iff (c ∷ s) (d ∷ t) = ground (arith, (strcmp-zero_iff s t).0, (strcmp-zero_iff s t).1)

-- Every element is a byte.
abbrev pub AllBytes : List ℕ → Type 0
AllBytes [] = Unit {0}
AllBytes (c ∷ s) = (c < 256) × AllBytes s

char_diff-zero_iff : (a b : ℕ) → a < 256 → b < 256 → (char_diff a b ≡ pos 0) ↔ (a ≡ b)
unfolding char_diff
char_diff-zero_iff a b ha hb = ground arith

lower-lt : (c : ℕ) → c < 256 → lower c < 256
unfolding lower
lower-lt c h = ground arith

-- On strings of bytes `strcasecmp` returns 0 exactly if they are equal but for the case of ASCII
-- letters.
pub strcasecmp-zero_iff :
    (s t : List ℕ)
    → AllBytes s
    → AllBytes t
    → (strcasecmp s t ≡ pos 0) ↔ (map lower (text s) ≡ map lower (text t))
unfolding strcasecmp
strcasecmp-zero_iff [] [] hs ht = (λ e. refl, λ e. refl)
strcasecmp-zero_iff [] (d ∷ t) hs ht = ground arith
strcasecmp-zero_iff (c ∷ s) [] hs ht = ground arith
strcasecmp-zero_iff (c ∷ s) (d ∷ t) hs ht = ground (
  arith,
  strcasecmp-zero_iff s t hs.1 ht.1,
  char_diff-zero_iff (lower c) (lower d) (lower-lt c hs.0) (lower-lt d ht.0),
)

-- Where both regions hold `n` bytes, `memcmp` returns 0 exactly if these agree.
pub memcmp-zero_iff :
    (p q : List ℕ) (n : ℕ)
    → n ≤ length p
    → n ≤ length q
    → (memcmp p q n ≡ pos 0) ↔ (take n p ≡ take n q)
unfolding memcmp
memcmp-zero_iff p q zero hp hq = (λ e. refl, λ e. refl)
memcmp-zero_iff [] q (suc n) hp hq = absurd (omega arith)
memcmp-zero_iff (a ∷ p) [] (suc n) hp hq = absurd (omega arith)
memcmp-zero_iff (a ∷ p) (b ∷ q) (suc n) hp hq =
    ground (arith, memcmp-zero_iff p q n (omega arith) (omega arith))
