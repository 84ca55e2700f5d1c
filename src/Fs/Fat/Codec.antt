-- ===== src/Fs/Fat/Codec.antt =====
-- The 12-bit packing of `fs_read_fat` and `fs_write_fat`: two entries share three bytes.
use pxos.Base.{
  ℕ, ◌+◌, ◌*◌, ◌/◌, ◌%◌, ◌<◌, ◌≡◌, ◌≢◌, refl, sym, ap, ap₂, ◌∙◌, arith, ◌⊎◌, inl, inr, Bool-cases,
  ◌==◌, ==_iff,
}
use pxos.Fs.State.{Bytes, update, fat_bytes, max_cluster}
use pxos.Fs.Fat.{fat_offset, load16, store16, get_bits, set_bits, fat_entry, put_entry}

-- Every cell holds a byte.
abbrev pub IsBytes : Bytes → Type 0
IsBytes m = (a : ℕ) → m a < 256

-- The words that the functions read and write lie inside the table.
pub fat_offset-lt : (c : ℕ) → c < max_cluster → fat_offset c + 1 < fat_bytes
fat_offset-lt c h = omega arith

pub store16-IsBytes : (m : Bytes) (a v : ℕ) → IsBytes m → IsBytes (store16 m a v)
unfolding store16 update
store16-IsBytes m a v h b = ground (arith, h b)

update_self : (m : Bytes) (a v : ℕ) → update m a v a ≡ v
unfolding update
update_self m a v = rw ((==_iff a a).1 refl)

update_ne : (m : Bytes) (a v b : ℕ) → a ≢ b → update m a v b ≡ m b
unfolding update
update_ne m a v b h = elim (Bool-cases (b == a)) [
  | inl e ↦ absurd (h (sym ((==_iff b a).0 e)))
  | inr e ↦ rw e
]

store16_low : (m : Bytes) (a v : ℕ) → store16 m a v a ≡ v % 256
unfolding store16
store16_low m a v =
    update_ne (update m a (v % 256)) (a + 1) (v / 256 % 256) a (omega arith)
    ∙ update_self m a (v % 256)

store16_high : (m : Bytes) (a v : ℕ) → store16 m a v (a + 1) ≡ v / 256 % 256
unfolding store16
store16_high m a v = update_self (update m a (v % 256)) (a + 1) (v / 256 % 256)

store16_ne : (m : Bytes) (a v b : ℕ) → a ≢ b → a + 1 ≢ b → store16 m a v b ≡ m b
unfolding store16
store16_ne m a v b h h' =
    update_ne (update m a (v % 256)) (a + 1) (v / 256 % 256) b h' ∙ update_ne m a (v % 256) b h

get_bits_odd : (c e : ℕ) → c % 2 ≡ 1 → get_bits c e ≡ e / 16
unfolding get_bits
get_bits_odd c e h = rw ((==_iff (c % 2) 1).1 h)

get_bits_even : (c e : ℕ) → c % 2 ≡ 0 → get_bits c e ≡ e % 4096
unfolding get_bits
get_bits_even c e h = ground arith

set_bits_odd : (c e v : ℕ) → c % 2 ≡ 1 → set_bits c e v ≡ (e % 16 + v * 16) % 65536
unfolding set_bits
set_bits_odd c e v h = rw ((==_iff (c % 2) 1).1 h)

set_bits_even : (c e v : ℕ) → c % 2 ≡ 0 → set_bits c e v ≡ e / 4096 * 4096 + v % 4096
unfolding set_bits
set_bits_even c e v h = ground arith

parity : (c : ℕ) → (c % 2 ≡ 0) ⊎ (c % 2 ≡ 1)
parity c = omega arith

load16-store16 : (m : Bytes) (a v : ℕ) → load16 (store16 m a v) a ≡ v % 65536
load16-store16 m a v = rw (store16_low, store16_high) (omega arith)

get_bits-set_bits : (c e v : ℕ) → get_bits c (set_bits c e v % 65536) ≡ v % 4096
get_bits-set_bits c e v = elim (parity c) [
  | inl h ↦ omega (arith, set_bits_even c e v h, get_bits_even c (set_bits c e v % 65536) h)
  | inr h ↦ omega (arith, set_bits_odd c e v h, get_bits_odd c (set_bits c e v % 65536) h)
]

-- What is read back from the entry written is the value's low 12 bits.
pub fat_entry-put_self : (m : Bytes) (c v : ℕ) → fat_entry (put_entry m c v) c ≡ v % 4096
unfolding fat_entry put_entry
fat_entry-put_self m c v = rw load16-store16 (get_bits-set_bits c (load16 m (fat_offset c)) v)

-- The three ways in which two entries can lie: apart, or sharing the byte between them.
apart :
    {c d : ℕ}
    → c ≢ d
    → (fat_offset c + 1 < fat_offset d)
      ⊎ (fat_offset d + 1 < fat_offset c)
      ⊎ ((c % 2 ≡ 0) × (d ≡ c + 1))
      ⊎ ((d % 2 ≡ 0) × (c ≡ d + 1))
apart {c} {d} h = omega arith

load16_apart :
    (m : Bytes) (a b v : ℕ) → (a + 1 < b) ⊎ (b + 1 < a) → load16 (store16 m a v) b ≡ load16 m b
load16_apart m a b v h =
    ap₂ (λ x y. x + 256 * y) (store16_ne m a v b (omega arith) (omega arith))
      (store16_ne m a v (b + 1) (omega arith) (omega arith))

-- The word of an odd cluster when that of the even one before it is written.
get_bits_above :
    (m : Bytes) (c a v : ℕ)
    → IsBytes m
    → c % 2 ≡ 0
    → get_bits (c + 1) (load16 (store16 m a (set_bits c (load16 m a) v)) (a + 1))
      ≡ get_bits (c + 1) (load16 m (a + 1))
get_bits_above m c a v h e = omega (
  arith,
  get_bits_odd (c + 1) (load16 m (a + 1)) (omega arith),
  get_bits_odd (c + 1) (load16 (store16 m a (set_bits c (load16 m a) v)) (a + 1)) (omega arith),
  set_bits_even c (load16 m a) v e,
  store16_high m a (set_bits c (load16 m a) v),
  store16_ne m a (set_bits c (load16 m a) v) (a + 1 + 1) (omega arith) (omega arith),
  h a,
  h (a + 1),
)

get_bits_below :
    (m : Bytes) (d a v : ℕ)
    → IsBytes m
    → d % 2 ≡ 0
    → get_bits d (load16 (store16 m (a + 1) (set_bits (d + 1) (load16 m (a + 1)) v)) a)
      ≡ get_bits d (load16 m a)
get_bits_below m d a v h e = omega (
  arith,
  get_bits_even d (load16 m a) e,
  get_bits_even d (load16 (store16 m (a + 1) (set_bits (d + 1) (load16 m (a + 1)) v)) a) e,
  set_bits_odd (d + 1) (load16 m (a + 1)) v (omega arith),
  store16_low m (a + 1) (set_bits (d + 1) (load16 m (a + 1)) v),
  store16_ne m (a + 1) (set_bits (d + 1) (load16 m (a + 1)) v) a (omega arith) (omega arith),
  h a,
  h (a + 1),
)

next_offset : (c : ℕ) → c % 2 ≡ 0 → fat_offset (c + 1) ≡ fat_offset c + 1
next_offset c h = omega arith

-- On a table that holds bytes, writing the entry of one cluster leaves the entry of every other
-- cluster as it was.
pub fat_entry-put_ne :
    (m : Bytes) (c d v : ℕ) → IsBytes m → c ≢ d → fat_entry (put_entry m c v) d ≡ fat_entry m d
unfolding fat_entry put_entry
fat_entry-put_ne m c d v h ne = elim (apart ne) [
  | inl below ↦ ap (get_bits d) (load16_apart m (fat_offset c) (fat_offset d) _ (inl below))
  | inr (inl above) ↦ ap (get_bits d) (load16_apart m (fat_offset c) (fat_offset d) _ (inr above))
  | inr (inr (inl (even, e))) ↦
      rw (e, next_offset c even) (get_bits_above m c (fat_offset c) v h even)
  | inr (inr (inr (even, e))) ↦
      rw (e, next_offset d even) (get_bits_below m d (fat_offset d) v h even)
]

pub put_entry-IsBytes : (m : Bytes) (c v : ℕ) → IsBytes m → IsBytes (put_entry m c v)
unfolding put_entry
put_entry-IsBytes m c v h = store16-IsBytes m (fat_offset c) _ h
