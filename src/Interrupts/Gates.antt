-- ===== src/Interrupts/Gates.antt =====
-- The table of kernel/interrupt.c after `idt_init`.
use mathlib.Core.Path.{subst}
use pxos.Base.{
  ℕ, zero, suc, ◌+◌, ◌*◌, ◌/◌, ◌%◌, ◌^◌, ◌≡◌, ◌≢◌, ◌≤◌, ◌<◌, refl, sym, arith, List, [], ◌∷◌, ◌==◌,
  if_cases,
}
use pxos.Interrupts.{
  Gate, Routine, Interrupts, pic_init, gate, idt_set_entry, clear_entries, vectors, set_vectors,
  idt_init,
}

abbrev pub Vector : Type 0
Vector = ℕ × Routine × ℕ

pub data In (v : Vector) : List Vector → Type 0 where
  here : (vs : List Vector) → In v (v ∷ vs)
  there : (w : Vector) (vs : List Vector) → In v vs → In v (w ∷ vs)

-- No vector of the list is `j`; an index is a byte.
pub NotIn : ℕ → List Vector → Type 0
NotIn j vs = (i : ℕ) (r : Routine) (a : ℕ) → In (i, r, a) vs → i % 256 ≢ j

-- An entry after vectors were set: that of one of them, or the one from before.
data Set (address : Routine → ℕ) (idt : ℕ → Gate) (vs : List Vector) (j : ℕ) : Gate → Type 0 where
  by :
      (i : ℕ) (r : Routine) (a : ℕ)
      → In (i, r, a) vs
      → i % 256 ≡ j
      → Set address idt vs j (gate (address r) 8 a)
  kept : NotIn j vs → Set address idt vs j (idt j)

NotIn-cons :
    (j i : ℕ) (r : Routine) (a : ℕ) (vs : List Vector)
    → i % 256 ≢ j
    → NotIn j vs
    → NotIn j ((i, r, a) ∷ vs)
unfolding NotIn
NotIn-cons j i r a vs h n _ _ _ (here _) = h
NotIn-cons j i r a vs h n i' r' a' (there _ _ l) = n i' r' a' l

Set-cons :
    (address : Routine → ℕ) (idt : ℕ → Gate) (i : ℕ) (r : Routine) (a : ℕ) (vs : List Vector)
    (j : ℕ) (g : Gate)
    → Set address (idt_set_entry idt i (address r) 8 a) vs j g
    → Set address idt ((i, r, a) ∷ vs) j g
unfolding idt_set_entry
Set-cons address idt i r a vs j _ (by i' r' a' l e) = by i' r' a' (there (i, r, a) vs l) e
Set-cons address idt i r a vs j _ (kept n) =
    if_cases (Set address idt ((i, r, a) ∷ vs) j) (j == i % 256) _ _
      (λ t. by i r a (here vs) (ground (arith, t)))
      (λ f. kept (NotIn-cons j i r a vs (λ e. ground (arith, f, e)) n))

set_vectors-Set :
    (address : Routine → ℕ) (idt : ℕ → Gate) (vs : List Vector) (j : ℕ)
    → Set address idt vs j (set_vectors address idt vs j)
unfolding set_vectors NotIn
set_vectors-Set address idt [] j = kept (λ i r a l. elim l [ ])
set_vectors-Set address idt ((i, r, a) ∷ vs) j =
    Set-cons address idt i r a vs j _
      (set_vectors-Set address (idt_set_entry idt i (address r) 8 a) vs j)

clear_entries_lem :
    (n : ℕ) (idt : ℕ → Gate) (j : ℕ) → n ≤ 256 → j < n → clear_entries n idt j ≡ gate 0 0 0
unfolding clear_entries idt_set_entry
clear_entries_lem zero idt j le h = absurd (omega (arith, h))
clear_entries_lem (suc n) idt j le h =
    if_cases (λ g. g ≡ gate 0 0 0) (j == n % 256) _ _ (λ t. refl)
      (λ f. clear_entries_lem n idt j (omega (arith, le)) (ground (arith, f, h, le)))

-- An entry after `idt_init`: it enters the routine of its vector, or it is not present.
pub data Enters (address : Routine → ℕ) (j : ℕ) : Gate → Type 0 where
  routine :
      (i : ℕ) (r : Routine) (a : ℕ) (g : Gate)
      → In (i, r, a) vectors
      → i % 256 ≡ j
      → g.offset_high * 65536 + g.offset_low ≡ address r
      → g.selector ≡ 8
      → g.type_attr ≡ a
      → Enters address j g
  vacant : (g : Gate) → NotIn j vectors → g.type_attr ≡ 0 → Enters address j g

halves : (n : ℕ) → n < 2 ^ 32 → n / 65536 % 65536 * 65536 + n % 65536 ≡ n
halves n h = omega arith

Set-Enters :
    (address : Routine → ℕ) (idt : ℕ → Gate) (j : ℕ) (g : Gate)
    → ((r : Routine) → address r < 2 ^ 32)
    → idt j ≡ gate 0 0 0
    → Set address idt vectors j g
    → Enters address j g
Set-Enters address idt j _ small cleared (by i r a l e) =
    routine i r a (gate (address r) 8 a) l e (halves (address r) (small r)) refl refl
Set-Enters address idt j _ small cleared (kept n) =
    subst (Enters address j) (sym cleared) (vacant (gate 0 0 0) n refl)

-- After `idt_init`, whatever the table held, each of its 256 entries for which the code sets a
-- handler holds that handler's address of 32 bits in its two halves, the code selector 8 and the
-- attributes given for it, and every other entry is marked as not present.
pub idt_init-Enters :
    (address : Routine → ℕ) (base : ℕ) (s : Interrupts) (j : ℕ)
    → ((r : Routine) → address r < 2 ^ 32)
    → j < 256
    → Enters address j ((idt_init address base s).idt j)
unfolding idt_init pic_init
idt_init-Enters address base s j small h =
    let cleared = clear_entries 256 s.idt in
    Set-Enters address cleared j (set_vectors address cleared vectors j) small
      (clear_entries_lem 256 s.idt j (omega arith) h) (set_vectors-Set address cleared vectors j)
