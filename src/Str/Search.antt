-- ===== src/Str/Search.antt =====
-- `strlen` and `strchr` against the string proper.
use pxos.Base.{
  ℕ, suc, ◌≡◌, ◌≢◌, ◌<◌, refl, ap, arith, Option, none, some, List, [], ◌∷◌, ◌++◌, length, take,
  drop, ◌==◌, inl, inr, Bool-cases, ==_iff, false,
}
use pxos.Str.{strlen, strchr, one_on, text}

-- `strlen` counts the bytes before the first NUL.
pub strlen-text : (s : List ℕ) → strlen s ≡ length (text s)
unfolding strlen
strlen-text [] = refl
strlen-text (c ∷ s) = ground (arith, strlen-text s)

-- `ch` is not among the elements.
abbrev pub Lacks : ℕ → List ℕ → Type 0
Lacks ch [] = Unit {0}
Lacks ch (c ∷ s) = (c ≢ ch) × Lacks ch s

-- What `strchr` finds for a character other than NUL: the first place of it in the string.
abbrev pub FirstAt : List ℕ → ℕ → Option ℕ → Type 0
FirstAt s ch none = Lacks ch s
FirstAt s ch (some i) = (i < length s) × Lacks ch (take i s) × (s ≡ take i s ++ ch ∷ drop (suc i) s)

FirstAt-one_on :
    (c : ℕ) (s : List ℕ) (ch : ℕ) (o : Option ℕ)
    → c ≢ ch
    → FirstAt s ch o
    → FirstAt (c ∷ s) ch (one_on o)
FirstAt-one_on c s ch none ne f = (ne, f)
FirstAt-one_on c s ch (some i) ne f = (omega arith, (ne, f.1), ap (◌∷◌ c) f.2)

ne_test : (a b : ℕ) → a ≢ b → (a == b) ≡ false
ne_test a b h = ground arith

-- For a character other than NUL `strchr` gives its first place in the string, or NULL exactly if
-- it is not there.
pub strchr-FirstAt : (s : List ℕ) (ch : ℕ) → ch ≢ 0 → FirstAt (text s) ch (strchr s ch)
unfolding strchr
strchr-FirstAt [] ch h = rw (ne_test ch 0 h) tt
strchr-FirstAt (c ∷ s) ch h = elim (Bool-cases (c == 0)) [
  | inl e ↦ rw (e, ne_test ch 0 h) tt
  | inr e ↦ elim (Bool-cases (c == ch)) [
    | inl here ↦ rw (e, here) (omega arith, tt, ap (λ x. x ∷ text s) ((==_iff c ch).0 here))
    | inr other ↦
        rw (e, other)
          (FirstAt-one_on c (text s) ch (strchr s ch) (ground arith) (strchr-FirstAt s ch h))
  ]
]
