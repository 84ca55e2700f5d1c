-- ===== src/Fs/Dir/Slots.antt =====
-- Lookups in the root directory after an entry is added.
use pxos.Base.{
  ℕ, zero, suc, ◌≡◌, refl, arith, true, false, none, some, Option-cases, inl, inr, List, [], ◌∷◌,
}
use pxos.Base.Int.{pos}
use pxos.Str.{next, memcmp}
use pxos.Fs.State.{Dirent}
use pxos.Fs.Dir.{is_live, has_name, hits, find_slot, fill_slot}

memcmp_refl : (p : List ℕ) (n : ℕ) → memcmp p p n ≡ pos 0
unfolding memcmp
memcmp_refl p zero = refl
memcmp_refl p (suc n) = ground (arith, memcmp_refl (next p) n)

pub hits_self : (d : Dirent) → is_live d ≡ true → hits d.name d.ext d ≡ true
unfolding hits has_name
hits_self d h = rw (h, memcmp_refl d.name 8, memcmp_refl d.ext 3)

hits-dead : (n e : List ℕ) (d : Dirent) → is_live d ≡ false → hits n e d ≡ false
unfolding hits
hits-dead n e d h = rw h

pub find_slot-fill :
    (new : Dirent) (n e : List ℕ) (ds : List Dirent) {ds' : List Dirent}
    → hits n e new ≡ true
    → find_slot n e ds ≡ none
    → fill_slot new ds ≡ some ds'
    → find_slot n e ds' ≡ some new
unfolding find_slot fill_slot
find_slot-fill new n e [] h f g = cc
find_slot-fill new n e (d ∷ ds) {ds'} h f g = elim (Option-cases (fill_slot new ds)) [
  | inl full ↦ ground (arith, hits-dead n e d)
  | inr (r, filled) ↦
      ground (arith, hits-dead n e d, find_slot-fill new n e ds {ds' = r} h (ground arith) filled)
]

-- A lookup by another name is not affected.
pub find_slot-fill_other :
    (new : Dirent) (n e : List ℕ) (ds : List Dirent) {ds' : List Dirent}
    → hits n e new ≡ false
    → fill_slot new ds ≡ some ds'
    → find_slot n e ds' ≡ find_slot n e ds
unfolding find_slot fill_slot
find_slot-fill_other new n e [] h g = cc
find_slot-fill_other new n e (d ∷ ds) {ds'} h g = elim (Option-cases (fill_slot new ds)) [
  | inl full ↦ ground (arith, hits-dead n e d)
  | inr (r, filled) ↦
      ground (arith, hits-dead n e d, find_slot-fill_other new n e ds {ds' = r} h filled)
]
