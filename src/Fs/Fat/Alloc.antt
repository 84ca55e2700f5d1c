-- ===== src/Fs/Fat/Alloc.antt =====
-- `fs_find_free_cluster` and `fs_allocate_cluster`: which cluster they choose, and what they change.
use pxos.Base.{
  ℕ, zero, suc, ◌+◌, ◌-◌, ◌≤◌, ◌<◌, ◌≡◌, ◌≢◌, refl, sym, arith, inl, inr, true, Option, none, some,
  Bool-cases, ◌==◌, ==_iff,
}
use native.Mathlib.Decide.{ℕ_discrete}
use pxos.Fs.State.{Status, success, disk_full, FsState, Bytes, max_cluster}
use pxos.Fs.Fat.{
  fat_entry, put_entry, write_fat, reads_free, find_free_from, find_free_cluster, allocate_cluster,
}
use pxos.Fs.Fat.Codec.{IsBytes, fat_entry-put_self, fat_entry-put_ne, put_entry-IsBytes}

-- The least cluster of a range whose entry is 0.
pub record IsFirstFree (m : Bytes) (lo c : ℕ) : Type 0 where
  pub lower : lo ≤ c
  pub upper : c < max_cluster
  pub free : fat_entry m c ≡ 0
  pub first : (d : ℕ) → lo ≤ d → d < c → fat_entry m d ≢ 0

reads_free-eq :
    (s : FsState) (c : ℕ)
    → s.initialized ≡ true
    → c < max_cluster
    → reads_free s c ≡ (fat_entry s.fat_table c == 0)
unfolding reads_free
reads_free-eq s c i h = ground arith

-- What the search finds in the `left` clusters from `i` on.
abbrev pub Found : Bytes → ℕ → ℕ → Option ℕ → Type 0
Found m lo hi (some c) = IsFirstFree m lo c
Found m lo hi none = (d : ℕ) → lo ≤ d → d < hi → fat_entry m d ≢ 0

all_ne :
    (m : Bytes) (i d : ℕ)
    → fat_entry m i ≢ 0
    → i ≤ d
    → (i + 1 ≤ d → fat_entry m d ≢ 0)
    → fat_entry m d ≢ 0
all_ne m i d ne lo rest = elim (ℕ_discrete i d) [
  | yes e ↦ rw (← e) ne
  | no other ↦ rest (omega arith)
]

Found-next :
    (m : Bytes) (i hi : ℕ) (o : Option ℕ)
    → fat_entry m i ≢ 0
    → Found m (i + 1) hi o
    → Found m i hi o
Found-next m i hi none ne f = λ d lo up. all_ne m i d ne lo (λ above. f d above up)
Found-next m i hi (some c) ne f = record {
  lower = omega (arith, f.lower);
  upper = f.upper;
  free = f.free;
  first = λ d lo up. all_ne m i d ne lo (λ above. f.first d above up);
}

find_free_from-Found :
    (s : FsState) (left i : ℕ)
    → s.initialized ≡ true
    → i + left ≡ max_cluster
    → Found s.fat_table i max_cluster (find_free_from s left i)
unfolding find_free_from
find_free_from-Found s zero i init e = λ d lo up. absurd (omega arith)
find_free_from-Found s (suc left) i init e = elim (Bool-cases (fat_entry s.fat_table i == 0)) [
  | inl free ↦
      rw (reads_free-eq s i init (omega arith), free)
        (record {
          lower = omega arith;
          upper = omega arith;
          free = (==_iff _ 0).0 free;
          first = λ d lo up. absurd (omega arith);
        })
  | inr used ↦
      rw (reads_free-eq s i init (omega arith), used)
        (Found-next s.fat_table i max_cluster (find_free_from s left (i + 1)) (ground arith)
          (find_free_from-Found s left (i + 1) init (omega arith)))
]

-- On a mounted filesystem `fs_find_free_cluster` returns the first cluster from 2 on whose entry is
-- 0, and -1 only if no entry from 2 on is 0.
pub find_free_cluster-Found :
    (s : FsState) → s.initialized ≡ true → Found s.fat_table 2 max_cluster (find_free_cluster s)
unfolding find_free_cluster
find_free_cluster-Found s init =
    simp init (find_free_from-Found s (max_cluster - 2) 2 init (omega arith))

-- The only entry in which a table differs from another is that of `c`, which is `v`.
pub record OnlyEntry (m m' : Bytes) (c v : ℕ) : Type 0 where
  pub bytes : IsBytes m'
  pub written : fat_entry m' c ≡ v
  pub others : (d : ℕ) → d ≢ c → fat_entry m' d ≡ fat_entry m d

pub put_entry-OnlyEntry :
    (m : Bytes) (c v : ℕ) → IsBytes m → v < 4096 → OnlyEntry m (put_entry m c v) c v
put_entry-OnlyEntry m c v h lt = record {
  bytes = put_entry-IsBytes m c v h;
  written = omega (arith, fat_entry-put_self m c v);
  others = λ d ne. fat_entry-put_ne m c d v h (λ e. ne (sym e));
}

pub write_fat-success :
    (s : FsState) (c v : ℕ)
    → s.initialized ≡ true
    → c < max_cluster
    → write_fat s c v ≡ (success, record s { fat_table = put_entry s.fat_table c v })
unfolding write_fat
write_fat-success s c v init h = ground arith

allocate_cluster-success :
    (s : FsState) (c : ℕ)
    → s.initialized ≡ true
    → find_free_cluster s ≡ some c
    → c < max_cluster
    → allocate_cluster s ≡ (success, some c, record s { fat_table = put_entry s.fat_table c 0xFFF })
unfolding allocate_cluster
allocate_cluster-success s c init e h = ground (arith, write_fat-success s c 0xFFF)

-- What an allocation may do to a state.
pub data Allocates (s : FsState) : Status × Option ℕ × FsState → Type 0 where
  granted :
      (c : ℕ) (m : Bytes)
      → IsFirstFree s.fat_table 2 c
      → OnlyEntry s.fat_table m c 0xFFF
      → Allocates s (success, some c, record s { fat_table = m })
  refused :
      ((d : ℕ) → 2 ≤ d → d < max_cluster → fat_entry s.fat_table d ≢ 0)
      → Allocates s (disk_full, none, s)

allocate_cluster-Found :
    (s : FsState) (o : Option ℕ)
    → s.initialized ≡ true
    → IsBytes s.fat_table
    → find_free_cluster s ≡ o
    → Found s.fat_table 2 max_cluster o
    → Allocates s (allocate_cluster s)
unfolding allocate_cluster
allocate_cluster-Found s none init h e f = simp (init, e) (refused f)
allocate_cluster-Found s (some c) init h e f = rw (allocate_cluster-success s c init e f.upper) (
    granted c (put_entry s.fat_table c 0xFFF) f
      (put_entry-OnlyEntry s.fat_table c 0xFFF h (omega arith)))

-- On a mounted filesystem whose table holds bytes, `fs_allocate_cluster` either takes the first
-- free cluster from 2 on, marks it as the end of a chain, changes no other entry and nothing else
-- of the state; or it returns FS_ERROR_DISK_FULL and the state as it was, and then no entry from 2
-- on is 0.
pub allocate_cluster-Allocates :
    (s : FsState) → s.initialized ≡ true → IsBytes s.fat_table → Allocates s (allocate_cluster s)
allocate_cluster-Allocates s init h =
    allocate_cluster-Found s (find_free_cluster s) init h refl (find_free_cluster-Found s init)
