-- ===== src/Fs/Fat.antt =====
-- The FAT12 table of fs/filesystem.c: entries of 12 bits, the search for a free cluster, and the
-- release of a cluster chain.
pub mod Codec
pub mod Alloc
pub mod Chain
pub mod Hang
use pxos.Base.{
  ℕ, zero, suc, ◌+◌, ◌-◌, ◌*◌, ◌/◌, ◌%◌, Bool, true, false, not, ◌||◌, Option, none, some, ltb, leb,
  ◌==◌, if◌then◌else◌,
}
use pxos.Fs.State.{
  Status, success, disk_full, io_error, is_success, FsState, Bytes, update, max_cluster,
}

-- `cluster * 3 / 2`
abbrev pub fat_offset : ℕ → ℕ
fat_offset c = c * 3 / 2

-- `*(uint16_t*)(fat_table + a)`, little endian.
abbrev pub load16 : Bytes → ℕ → ℕ
load16 m a = m a + 256 * m (a + 1)

unfoldable pub store16 : Bytes → ℕ → ℕ → Bytes
store16 m a v = update (update m a (v % 256)) (a + 1) (v / 256 % 256)

-- The entry of cluster `c` in the word `e`: `>> 4` for an odd cluster, `& 0x0FFF` for an even one.
unfoldable pub get_bits : ℕ → ℕ → ℕ
get_bits c e = if c % 2 == 1 then e / 16 else e % 4096

-- The word that `fs_write_fat` stores for `e`. The bits that the masks keep and those of the value
-- do not overlap, so `|` is a sum; a stored word keeps 16 bits.
unfoldable pub set_bits : ℕ → ℕ → ℕ → ℕ
set_bits c e v = if c % 2 == 1 then (e % 16 + v * 16) % 65536 else e / 4096 * 4096 + v % 4096

-- What `fs_read_fat` reads.
unfoldable pub fat_entry : Bytes → ℕ → ℕ
fat_entry m c = get_bits c (load16 m (fat_offset c))

-- The table that `fs_write_fat` leaves.
unfoldable pub put_entry : Bytes → ℕ → ℕ → Bytes
put_entry m c v = store16 m (fat_offset c) (set_bits c (load16 m (fat_offset c)) v)

-- `fs_read_fat`, with what goes through `value`.
unfoldable pub read_fat : FsState → ℕ → Status × Option ℕ
read_fat s c =
    if not s.initialized || leb max_cluster c
    then (io_error, none)
    else (success, some (fat_entry s.fat_table c))

-- `fs_write_fat`
unfoldable pub write_fat : FsState → ℕ → ℕ → Status × FsState
write_fat s c v =
    if not s.initialized || leb max_cluster c
    then (io_error, s)
    else (success, record s { fat_table = put_entry s.fat_table c v })

-- `== FS_SUCCESS && value == 0` on what `fs_read_fat` gives.
abbrev is_free : Status → Option ℕ → Bool
is_free success (some v) = v == 0
is_free _ _ = false

-- The test in the loop of `fs_find_free_cluster`.
unfoldable pub reads_free : FsState → ℕ → Bool
unfolding read_fat
reads_free s c = let (st, v) = read_fat s c in is_free st v

-- The loop of `fs_find_free_cluster` from cluster `i` on, with `left` rounds before 2880.
unfoldable pub find_free_from : FsState → ℕ → ℕ → Option ℕ
find_free_from s zero i = none
find_free_from s (suc left) i =
    let rest = find_free_from s left (i + 1) in if reads_free s i then some i else rest

-- `fs_find_free_cluster`; `none` is -1.
unfoldable pub find_free_cluster : FsState → Option ℕ
find_free_cluster s = if not s.initialized then none else find_free_from s (max_cluster - 2) 2

-- FAT12 marks the end of a chain by a value from here on.
abbrev pub chain_end : ℕ
chain_end = 0xFF8

-- `fs_allocate_cluster`, with what goes through `cluster`.
unfoldable pub allocate_cluster : FsState → Status × Option ℕ × FsState
allocate_cluster s = if not s.initialized then (io_error, none, s) else elim (find_free_cluster s) [
  | none ↦ (disk_full, none, s)
  | some c ↦
      let (st, s') = write_fat s c 0xFFF in
      if is_success st then (success, some c, s') else (io_error, none, s')
]

abbrev pub value_or_zero : Option ℕ → ℕ
value_or_zero none = 0
value_or_zero (some v) = v

-- The body of the loop of `fs_free_cluster_chain`, with the next cluster.
unfoldable pub free_round : FsState → ℕ → Status × FsState × ℕ
free_round s c =
    let (st, next) = read_fat s c in
    if not (is_success st)
    then (io_error, s, c)
    else let (st', s') = write_fat s c 0 in
      if is_success st' then (success, s', value_or_zero next) else (io_error, s', c)

-- The loop, with fuel. `none`: it has not ended in that many rounds.
unfoldable pub free_chain_loop : ℕ → FsState → ℕ → Option (Status × FsState)
free_chain_loop zero s c = none
free_chain_loop (suc fuel) s c = elim (ltb c chain_end) [
  | false ↦ some (success, s)
  | true ↦
      let (st, s', next) = free_round s c in
      elim (is_success st) [ true ↦ free_chain_loop fuel s' next | false ↦ some (io_error, s') ]
]

-- `fs_free_cluster_chain`
unfoldable pub free_cluster_chain : ℕ → FsState → ℕ → Option (Status × FsState)
free_cluster_chain fuel s c =
    if not s.initialized then some (io_error, s) else free_chain_loop fuel s c
