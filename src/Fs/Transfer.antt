-- ===== src/Fs/Transfer.antt =====
-- `fs_read` and `fs_write` of fs/filesystem.c. `fs_read_sector` and `fs_write_sector` do nothing and
-- succeed, so what is written is lost, and a read copies what the sector buffer, which the code does
-- not initialise, holds: an argument, by the bytes read when the round begins. Sums are those of
-- `uint32_t`. Every round moves at least one byte, so as many rounds as bytes are enough.
pub mod Hops
pub mod Read
pub mod Write
mod Tests
use pxos.Base.{
  ℕ, zero, suc, ◌+◌, ◌-◌, ◌*◌, ◌/◌, ◌%◌, ◌^◌, Bool, true, false, not, ◌||◌, Option, none, some,
  List, [], ◌∷◌, ◌++◌, ltb, leb, ◌==◌, if◌then◌else◌,
}
use pxos.Fs.State.{Status, success, disk_full, io_error, is_success, FsState}
use pxos.Fs.Fat.{
  value_or_zero, read_fat, write_fat, allocate_cluster, free_cluster_chain, chain_end,
}
use pxos.Fs.Files.{File, mode_read, mode_write}

-- What the calls return: a number of bytes, or an error code.
pub data Count : Type 0 where
  bytes : ℕ → Count
  failed : Status → Count

-- The local variables of the loops: `done` is `bytes_read` or `bytes_written`.
pub record Transfer : Type 0 where
  pub file : File
  pub done : ℕ
  pub cluster : ℕ
  pub sector : ℕ

-- The first sector of a cluster, and `sector_offset` further.
unfoldable pub sector_of : ℕ → ℕ → ℕ
sector_of cluster sector_offset =
    (33 + (cluster + 2 ^ 32 - 2) % 2 ^ 32 * 2 + sector_offset) % 2 ^ 32

-- `sector_bytes`, where `left` bytes are still to be moved.
unfoldable pub piece : ℕ → ℕ → ℕ
piece offset left = let room = 512 - offset % 512 in if ltb left room then left else room

unfoldable pub begin_transfer : File → Transfer
begin_transfer f = record {
  file = f;
  done = 0;
  cluster = f.cluster;
  sector = sector_of f.cluster (f.offset / 512);
}

-- How a round ends: with the next one, at the end of the chain, or with an error.
pub data Next : Type 0 where
  go : Transfer → FsState → Next
  stop : Transfer → FsState → Next
  broken : Status → Transfer → FsState → Next

-- The counters after `n` bytes.
abbrev pub advance : Transfer → ℕ → Transfer
advance t n = record t {
  file = record (t.file) { offset = (t.file.offset + n) % 2 ^ 32 };
  done = t.done + n;
}

abbrev pub to_cluster : Transfer → ℕ → Transfer
to_cluster t c = record t { cluster = c; sector = sector_of c 0 }

-- `fs_read` moves to the next cluster. The number becomes a `uint16_t`, the argument of `fs_read_fat`.
unfoldable pub follow : FsState → Transfer → Next
follow s t =
    let (st, v) = read_fat s (t.cluster % 65536) in
    if not (is_success st)
    then broken io_error t s
    else if leb chain_end (value_or_zero v)
    then stop t s
    else go (to_cluster t (value_or_zero v)) s

-- The end of the loop's body in `fs_read`: the next sector, at the end of this one.
unfoldable pub read_move : FsState → Transfer → Next
read_move s t =
    let t' = record t { sector = (t.sector + 1) % 2 ^ 32 } in
    if not (t.file.offset % 512 == 0)
    then go t s
    else if not (t'.sector % 2 == 0)
    then go t' s
    else follow s t'

-- `n` bytes of the sector buffer from offset `o` on.
abbrev pub slice : (ℕ → ℕ) → ℕ → ℕ → List ℕ
slice sector o zero = []
slice sector o (suc n) = sector o ∷ slice sector (o + 1) n

-- What `fs_read` returns, the handle, and the bytes of `buffer` that it wrote.
abbrev pub ReadResult : Type 0
ReadResult = Count × File × List ℕ

-- What follows a round of `fs_read` that left `buf`: another round, or the result.
abbrev pub after_read : (Transfer → Option ReadResult) → List ℕ → Next → Option ReadResult
after_read again buf (go t s) = again t
after_read again buf (stop t s) = some (bytes t.done, t.file, buf)
after_read again buf (broken st t s) = some (failed st, t.file, buf)

-- The loop of `fs_read`.
unfoldable pub read_loop : ℕ → FsState → (ℕ → ℕ → ℕ) → ℕ → Transfer → List ℕ → Option ReadResult
read_loop zero s junk total t buf =
    if ltb t.done total then none else some (bytes t.done, t.file, buf)
read_loop (suc fuel) s junk total t buf =
    let n = piece t.file.offset (total - t.done) in
    let buf' = buf ++ slice (junk t.done) (t.file.offset % 512) n in
    if ltb t.done total
    then after_read (λ t'. read_loop fuel s junk total t' buf') buf' (read_move s (advance t n))
    else some (bytes t.done, t.file, buf)

-- `bytes_to_read`
unfoldable pub read_total : File → ℕ → ℕ
read_total f size = if ltb f.size ((f.offset + size) % 2 ^ 32) then f.size - f.offset else size

-- `fs_read` on handles and buffers that are not NULL.
unfoldable pub fs_read : FsState → (ℕ → ℕ → ℕ) → File → ℕ → Option ReadResult
fs_read s junk f size =
    if not f.valid || not (mode_read f.mode)
    then some (failed io_error, f, [])
    else if leb f.size f.offset
    then some (bytes 0, f, [])
    else read_loop (read_total f size) s junk (read_total f size) (begin_transfer f) []

-- `fs_write` counts up the size with the offset.
abbrev pub grow : Transfer → Transfer
grow t =
    if ltb t.file.size t.file.offset
    then record t { file = record (t.file) { size = t.file.offset } }
    else t

-- The new cluster is linked behind the last one, or released.
unfoldable pub link_cluster : ℕ → FsState → Transfer → ℕ → Option Next
link_cluster fuel s t c =
    let (st, s') = write_fat s (t.cluster % 65536) c in
    if is_success st then some (go (to_cluster t c) s') else elim (free_cluster_chain fuel s' c) [
      | none ↦ none
      | some (_, s'') ↦ some (broken io_error t s'')
    ]

abbrev pub link_allocated : ℕ → FsState → Transfer → Status → Option ℕ → Option Next
link_allocated fuel s t success c = link_cluster fuel s t (value_or_zero c)
link_allocated fuel s t _ c = some (broken disk_full t s)

-- `fs_write` at the end of the chain.
unfoldable pub extend : ℕ → FsState → Transfer → Option Next
extend fuel s t = let (st, c, s') = allocate_cluster s in link_allocated fuel s' t st c

-- `fs_write` moves to the next cluster.
unfoldable pub follow_or_extend : ℕ → FsState → Transfer → Option Next
follow_or_extend fuel s t =
    let (st, v) = read_fat s (t.cluster % 65536) in
    if not (is_success st)
    then some (broken io_error t s)
    else if leb chain_end (value_or_zero v)
    then extend fuel s t
    else some (go (to_cluster t (value_or_zero v)) s)

-- The end of the loop's body in `fs_write`.
unfoldable pub write_move : ℕ → FsState → Transfer → Option Next
write_move fuel s t =
    let t' = record t { sector = (t.sector + 1) % 2 ^ 32 } in
    if not (t.file.offset % 512 == 0)
    then some (go t s)
    else if not (t'.sector % 2 == 0)
    then some (go t' s)
    else follow_or_extend fuel s t'

abbrev pub WriteResult : Type 0
WriteResult = Count × File × FsState

-- What follows a round of `fs_write`.
abbrev pub after_write :
    (FsState → Transfer → Option WriteResult) → Option Next → Option WriteResult
after_write again none = none
after_write again (some (go t s)) = again s t
after_write again (some (stop t s)) = some (bytes t.done, t.file, s)
after_write again (some (broken st t s)) = some (failed st, t.file, s)

-- The loop of `fs_write`; `release` is the fuel of `free_cluster_chain`.
unfoldable pub write_loop : ℕ → ℕ → FsState → ℕ → Transfer → Option WriteResult
write_loop zero release s total t =
    if ltb t.done total then none else some (bytes t.done, t.file, s)
write_loop (suc fuel) release s total t =
    let n = piece t.file.offset (total - t.done) in
    if ltb t.done total
    then after_write (λ s' t'. write_loop fuel release s' total t')
        (write_move release s (grow (advance t n)))
    else some (bytes t.done, t.file, s)

-- `fs_write` on handles and buffers that are not NULL.
unfoldable pub fs_write : ℕ → FsState → File → ℕ → Option WriteResult
fs_write release s f size =
    if not f.valid || not (mode_write f.mode)
    then some (failed io_error, f, s)
    else write_loop size release s size (begin_transfer f)
