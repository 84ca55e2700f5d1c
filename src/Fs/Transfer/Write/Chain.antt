-- ===== src/Fs/Transfer/Write/Chain.antt =====
-- How the loop of `fs_write` in fs/filesystem.c follows and extends the cluster chain of a handle.
use mathlib.Core.Path.{subst}
use pxos.Base.{
  ℕ, suc, ◌+◌, ◌%◌, ◌^◌, ◌≡◌, ◌≢◌, ◌≤◌, ◌<◌, refl, sym, arith, true, false, not, Option, some, ltb,
  leb, ◌==◌, if◌then◌else◌, if_cases,
}
use pxos.Fs.State.{Status, disk_full, io_error, is_success, FsState, Bytes, max_cluster}
use pxos.Fs.Fat.{value_or_zero, fat_entry, put_entry, read_fat, chain_end}
use pxos.Fs.Fat.Codec.{IsBytes}
use pxos.Fs.Fat.Alloc.{
  IsFirstFree, OnlyEntry, put_entry-OnlyEntry, Allocates, granted, refused, write_fat-success,
  allocate_cluster-Allocates,
}
use pxos.Fs.Files.{File}
use pxos.Fs.Transfer.{
  Transfer, sector_of, Next, go, broken, to_cluster, link_cluster, link_allocated, extend,
  follow_or_extend, write_move,
}
use pxos.Fs.Transfer.Hops.{hops, At, Moved, Hop, next_sector-At, border-Hop, hop-At}

-- The handle after `n` bytes: the offset is further, and the size is at least the offset.
abbrev pub written : File → ℕ → File
written f n = record f {
  offset = f.offset + n;
  size = if ltb f.size (f.offset + n) then f.offset + n else f.size;
}

-- A volume whose table is `m`, and that is `s` in all else.
abbrev pub with_table : FsState → Bytes → FsState
with_table s m = record s { fat_table = m }

-- The entry of the cluster `c`, read at its number as a `uint16_t`, ends a chain.
pub record Ends (s : FsState) (c : ℕ) : Type 0 where
  pub readable : is_success (read_fat s (c % 65536)).0 ≡ true
  pub last : chain_end ≤ value_or_zero (read_fat s (c % 65536)).1

-- The table and the cluster after `h` hops: along an entry of the table, or, at the end of the chain,
-- to the first free cluster, which is marked as an end and linked behind.
pub data Extends (s : FsState) (first : ℕ) : ℕ → Bytes → ℕ → Type 0 where
  begun : Extends s first 0 s.fat_table first
  linked :
      (h : ℕ) (m : Bytes) (c v : ℕ)
      → Extends s first h m c
      → is_success (read_fat (with_table s m) (c % 65536)).0 ≡ true
      → value_or_zero (read_fat (with_table s m) (c % 65536)).1 ≡ v
      → v < chain_end
      → Extends s first (suc h) m v
  extended :
      (h : ℕ) (m m1 m2 : Bytes) (c d : ℕ)
      → Extends s first h m c
      → Ends (with_table s m) c
      → IsFirstFree m 2 d
      → OnlyEntry m m1 d 0xFFF
      → OnlyEntry m1 m2 (c % 65536) d
      → Extends s first (suc h) m2 d

-- The transfer of `n` bytes came to the end of a cluster `c` of the handle's chain, with the table
-- `m`, where the loop looks into the table for the next one.
pub record AtEntry (s : FsState) (f : File) (n : ℕ) (m : Bytes) (c : ℕ) : Type 0 where
  pub sector_end : (f.offset + n) % 512 ≡ 0
  pub hop : ℕ
  pub counted : hops f n ≡ suc hop
  pub chain : Extends s f.cluster hop m c

-- The loop's variables after `n` bytes.
abbrev pub reached : File → ℕ → ℕ → ℕ → Transfer
reached f n c k = record { file = written f n; done = n; cluster = c; sector = k }

-- The cluster `c` of the chain, with the table `m`.
abbrev pub On : FsState → File → Bytes → ℕ → ℕ → Type 0
On s f m c h = Extends s f.cluster h m c

-- How a round of `fs_write` ends.
pub data Moves (s : FsState) (f : File) (n : ℕ) : Option Next → Type 0 where
  onward :
      (c k : ℕ) (m : Bytes)
      → IsBytes m
      → At f n k (On s f m c)
      → Moves s f n (some (go (reached f n c k) (with_table s m)))
  no_room :
      (c k : ℕ) (m : Bytes)
      → IsBytes m
      → AtEntry s f n m c
      → Ends (with_table s m) c
      → ((d : ℕ) → 2 ≤ d → d < max_cluster → fat_entry m d ≢ 0)
      → Moves s f n (some (broken disk_full (reached f n c k) (with_table s m)))
  no_entry :
      (c k : ℕ) (m : Bytes)
      → IsBytes m
      → AtEntry s f n m c
      → is_success (read_fat (with_table s m) (c % 65536)).0 ≡ false
      → Moves s f n (some (broken io_error (reached f n c k) (with_table s m)))

read_fat-bound :
    (s : FsState) (c : ℕ)
    → is_success (read_fat s c).0 ≡ true
    → (s.initialized ≡ true) × (c < max_cluster)
unfolding read_fat
read_fat-bound s c h = (ground arith, ground arith)

link_cluster-go :
    (release : ℕ) (s : FsState) (t : Transfer) (d : ℕ)
    → s.initialized ≡ true
    → t.cluster % 65536 < max_cluster
    → link_cluster release s t d
      ≡ some (go (to_cluster t d) (with_table s (put_entry s.fat_table (t.cluster % 65536) d)))
unfolding link_cluster
link_cluster-go release s t d init lt =
    ground (arith, write_fat-success s (t.cluster % 65536) d init lt)

link_allocated-Moves :
    (release : ℕ) (s : FsState) (f : File) (n c k : ℕ) (m : Bytes) {r : Status × Option ℕ × FsState}
    → s.initialized ≡ true
    → c % 65536 < max_cluster
    → IsBytes m
    → (f.offset + n) % 512 ≡ 0
    → Hop f n (On s f m c)
    → Ends (with_table s m) c
    → Allocates (with_table s m) r
    → Moves s f n (link_allocated release r.2 (reached f n c k) r.0 r.1)
link_allocated-Moves release s f n c k m init lt b e h last (refused none_free) =
    no_room c k m b (record { sector_end = e; hop = h.hop; counted = h.counted; chain = h.from })
      last none_free
link_allocated-Moves release s f n c k m init lt b e h last (granted d m1 first only) =
    let linked_table = put_entry m1 (c % 65536) d in
    let link = put_entry-OnlyEntry m1 (c % 65536) d only.bytes (omega (arith, first.upper)) in
    subst (Moves s f n)
      (sym (link_cluster-go release (with_table s m1) (reached f n c k) d init lt))
      (onward d (sector_of d 0) linked_table link.bytes (
        hop-At f n d (On s f m c) (On s f linked_table d) h
          (extended h.hop m m1 linked_table c d h.from last first only link)))

follow_or_extend-Moves :
    (release : ℕ) (s : FsState) (f : File) (n c k : ℕ) (m : Bytes)
    → IsBytes m
    → (f.offset + n) % 512 ≡ 0
    → Hop f n (On s f m c)
    → Moves s f n (follow_or_extend release (with_table s m) (reached f n c k))
unfolding follow_or_extend extend
follow_or_extend-Moves release s f n c k m b e h =
    let r = read_fat (with_table s m) (c % 65536) in
    if_cases (Moves s f n) (not (is_success r.0)) _ _
      (λ a.
        no_entry c k m b
          (record { sector_end = e; hop = h.hop; counted = h.counted; chain = h.from })
          (ground (arith, a)))
      (λ a.
        let ok = read_fat-bound (with_table s m) (c % 65536) (ground (arith, a)) in
        if_cases (Moves s f n) (leb chain_end (value_or_zero r.1)) _ _
          (λ d.
            link_allocated-Moves release s f n c k m ok.0 ok.1 b e h
              (record { readable = ground (arith, a); last = ground (arith, d) })
              (allocate_cluster-Allocates (with_table s m) ok.0 b))
          (λ d.
            let v = value_or_zero r.1 in
            onward v (sector_of v 0) m b (
              hop-At f n v (On s f m c) (On s f m v) h
                (linked h.hop m c v h.from (ground (arith, a)) refl (ground (arith, d))))))

pub write_move-Moves :
    (release : ℕ) (s : FsState) (f : File) (n c k : ℕ) (m : Bytes)
    → IsBytes m
    → Moved f n k (On s f m c)
    → Moves s f n (write_move release (with_table s m) (reached f n c k))
unfolding write_move
write_move-Moves release s f n c k m b moved =
    let k' = (k + 1) % 2 ^ 32 in
    if_cases (Moves s f n) (not ((f.offset + n) % 512 == 0)) _ _
      (λ a. onward c k m b (moved.within (ground (arith, a))))
      (λ a.
        let e : (f.offset + n) % 512 ≡ 0 = ground (arith, a) in
        if_cases (Moves s f n) (not (k' % 2 == 0)) _ _
          (λ o.
            onward c k' m b
              (next_sector-At f n k (On s f m c) (moved.border e) (ground (arith, o))))
          (λ o.
            follow_or_extend-Moves release s f n c k' m b e
              (border-Hop f n k (On s f m c) (moved.border e) (ground (arith, o)))))
