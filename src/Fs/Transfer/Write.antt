-- ===== src/Fs/Transfer/Write.antt =====
-- What `fs_write` of fs/filesystem.c returns and does to the handle and to the volume.
mod Chain
use mathlib.Core.Path.{subst}
use pxos.Base.{
  ℕ, zero, suc, ◌+◌, ◌-◌, ◌/◌, ◌%◌, ◌^◌, ◌≡◌, ◌≢◌, ◌≤◌, ◌<◌, refl, sym, ap₂, arith, true, false,
  not, ◌||◌, Option, some, ltb, leb, ◌==◌, if◌then◌else◌, if_cases,
}
use pxos.Fs.State.{Status, disk_full, io_error, is_success, FsState, Bytes, max_cluster}
use pxos.Fs.Fat.{value_or_zero, fat_entry, put_entry, read_fat, chain_end}
use pxos.Fs.Fat.Codec.{IsBytes, put_entry-IsBytes}
use pxos.Fs.Fat.Alloc.{
  IsFirstFree, OnlyEntry, put_entry-OnlyEntry, Allocates, granted, refused, write_fat-success,
  allocate_cluster-Allocates,
}
use pxos.Fs.Files.{File, mode_write}
use pxos.Fs.Transfer.{
  bytes, failed, Transfer, piece, sector_of, begin_transfer, Next, go, broken, advance, to_cluster,
  grow, link_cluster, link_allocated, extend, follow_or_extend, write_move, WriteResult,
  after_write, write_loop, fs_write,
}
use pxos.Fs.Transfer.Hops.{
  hops, At, Moved, Hop, advance-Moved, next_sector-At, border-Hop, hop-At, begin-At,
}
use pxos.Fs.Transfer.Write.Chain.{
  written, with_table, Ends, Extends, begun, AtEntry, reached, On, Moves, onward, no_room, no_entry,
  write_move-Moves,
}
use pxos.Fs.Transfer.Read.{Returns, returns, piece-bounds}

-- The results of a write. On the volume only the table can have changed.
pub data Writes (s : FsState) (f : File) (size : ℕ) : WriteResult → Type 0 where
  all :
      (m : Bytes) (c : ℕ)
      → IsBytes m
      → Extends s f.cluster (hops f size) m c
      → Writes s f size (bytes size, written f size, with_table s m)
  full :
      (n : ℕ) (m : Bytes) (c : ℕ)
      → n ≤ size
      → IsBytes m
      → AtEntry s f n m c
      → Ends (with_table s m) c
      → ((d : ℕ) → 2 ≤ d → d < max_cluster → fat_entry m d ≢ 0)
      → Writes s f size (failed disk_full, written f n, with_table s m)
  unreadable :
      (n : ℕ) (m : Bytes) (c : ℕ)
      → n ≤ size
      → IsBytes m
      → AtEntry s f n m c
      → is_success (read_fat (with_table s m) (c % 65536)).0 ≡ false
      → Writes s f size (failed io_error, written f n, with_table s m)

complete-Writes :
    (s : FsState) (f : File) (size n c : ℕ) (m : Bytes)
    → n ≡ size
    → IsBytes m
    → Extends s f.cluster (hops f n) m c
    → Writes s f size (bytes n, written f n, with_table s m)
complete-Writes s f size n c m e b w =
    subst (λ j. Writes s f size (bytes j, written f j, with_table s m)) (sym e)
      (all m c b (subst (λ j. Extends s f.cluster (hops f j) m c) e w))

after_write-Writes :
    (s : FsState) (f : File) (size n : ℕ) (again : FsState → Transfer → Option WriteResult)
    {next : Option Next}
    → Moves s f n next
    → n ≤ size
    → ((c k : ℕ) (m : Bytes)
        → IsBytes m
        → At f n k (On s f m c)
        → Returns (Writes s f size) (again (with_table s m) (reached f n c k)))
    → Returns (Writes s f size) (after_write again next)
after_write-Writes s f size n again (onward c k m b a) le h = h c k m b a
after_write-Writes s f size n again (no_room c k m b a last none_free) le h =
    returns _ (full n m c le b a last none_free)
after_write-Writes s f size n again (no_entry c k m b a e) le h =
    returns _ (unreadable n m c le b a e)

grow-reached :
    (f : File) (n d c k : ℕ)
    → f.offset + n + d < 2 ^ 32
    → grow (advance (reached f n c k) d) ≡ reached f (n + d) c k
grow-reached f n d c k h =
    let next = (f.offset + n + d) % 2 ^ 32 in
    let with_file : ℕ → ℕ → Transfer = λ o z. record {
      file = record f { offset = o; size = z };
      done = n + d;
      cluster = c;
      sector = k;
    } in
    if_cases (λ u. u ≡ reached f (n + d) c k)
      (ltb (if ltb f.size (f.offset + n) then f.offset + n else f.size) next) _ _
      (λ t. ap₂ with_file (ground (arith, h)) (ground (arith, h, t)))
      (λ t. ap₂ with_file (ground (arith, h)) (ground (arith, h, t)))

write_loop-Writes :
    (fuel release : ℕ) (s : FsState) (size : ℕ) (f : File) (n c k : ℕ) (m : Bytes)
    → n ≤ size
    → f.offset + size < 2 ^ 32
    → size - n ≤ fuel
    → IsBytes m
    → At f n k (On s f m c)
    → Returns (Writes s f size) (write_loop fuel release (with_table s m) size (reached f n c k))
unfolding write_loop
write_loop-Writes zero release s size f n c k m le small enough b a =
    if_cases (Returns (Writes s f size)) (ltb n size) _ _ (λ t. absurd (ground (arith, t)))
      (λ t. returns _ (complete-Writes s f size n c m (ground (arith, t)) b a.reached))
write_loop-Writes (suc fuel) release s size f n c k m le small enough b a =
    let d = piece (f.offset + n) (size - n) in
    if_cases (Returns (Writes s f size)) (ltb n size) _ _
      (λ t.
        let bound = piece-bounds (f.offset + n) (size - n) (ground (arith, t)) in
        let step = grow-reached f n d c k (omega (arith, bound.1, small, le)) in
        after_write-Writes s f size (n + d) (λ s' t'. write_loop fuel release s' size t')
          (subst (λ u. Moves s f (n + d) (write_move release (with_table s m) u)) (sym step)
            (write_move-Moves release s f (n + d) c k m b
              (advance-Moved f n k (size - n) (On s f m c) bound.0 a)))
          (omega (arith, bound.1, le))
          (λ c' k' m' b' a'.
            write_loop-Writes fuel release s size f (n + d) c' k' m' (omega (arith, bound.1, le))
              small (omega (arith, bound.0, enough)) b' a'))
      (λ t. returns _ (complete-Writes s f size n c m (ground (arith, t)) b a.reached))

written_zero : (f : File) → f.offset ≤ f.size → written f 0 ≡ f
written_zero f h = ap₂ (λ o z. record f { offset = o; size = z }) (omega arith) (ground (arith, h))

-- A write through an open handle with the write mode always returns, where the offset is not past the
-- size, its sum with the number of bytes does not wrap and the table holds bytes. The loop follows
-- the cluster chain of the handle, one link at the end of every sector of 512 bytes, but not at that
-- of the first one if this is an odd sector of the file, and at the chain's end it takes the first
-- free cluster, marks it as an end, links it behind and changes no other entry. It takes all bytes
-- after as many links; or it fails at the end of a sector, because the chain has come to its end and
-- no entry of the table is 0, or because the cluster that the chain has come to has no entry in the
-- table. The handle's offset moves by the bytes taken and its size becomes at least that. Of the
-- volume only the table may change, so the size in the file's directory entry does not.
pub fs_write-Writes :
    (release : ℕ) (s : FsState) (f : File) (size : ℕ)
    → f.valid ≡ true
    → mode_write f.mode ≡ true
    → f.offset ≤ f.size
    → f.offset + size < 2 ^ 32
    → IsBytes s.fat_table
    → Returns (Writes s f size) (fs_write release s f size)
unfolding fs_write begin_transfer
fs_write-Writes release s f size v m h small b =
    let k = sector_of f.cluster (f.offset / 512) in
    if_cases (Returns (Writes s f size)) (not f.valid || not (mode_write f.mode)) _ _
      (λ t. absurd (ground (arith, t, v, m)))
      (λ t.
        subst
          (λ g. Returns (Writes s f size) (
            write_loop size release s size
              (record { file = g; done = 0; cluster = f.cluster; sector = k })))
          (written_zero f h)
          (write_loop-Writes size release s size f 0 f.cluster k s.fat_table (omega arith) small
            (omega arith) b (begin-At f (On s f s.fat_table f.cluster) begun)))
