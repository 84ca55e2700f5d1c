-- ===== src/Fs/Transfer/Read.antt =====
-- What `fs_read` of fs/filesystem.c returns and does to the handle.
use mathlib.Core.Path.{subst}
use pxos.Base.{
  ℕ, zero, suc, ◌+◌, ◌-◌, ◌/◌, ◌%◌, ◌^◌, ◌≡◌, ◌≤◌, ◌<◌, refl, sym, ap, ap₂, arith, true, false, not,
  Option, some, List, [], ◌++◌, length, length-append, min, ltb, leb, ◌==◌, ◌||◌, if_cases,
}
use pxos.Fs.State.{io_error, is_success, FsState}
use pxos.Fs.Fat.{value_or_zero, read_fat, chain_end}
use pxos.Fs.Files.{File, mode_read}
use pxos.Fs.Transfer.Hops.{
  hops, At, Moved, Hop, advance-Moved, next_sector-At, border-Hop, hop-At, begin-At,
}
use pxos.Fs.Transfer.{
  bytes, failed, Transfer, piece, sector_of, begin_transfer, Next, go, stop, broken, advance,
  follow, read_move, slice, ReadResult, after_read, read_loop, read_total, fs_read,
}

-- The handle with its offset `n` bytes further.
abbrev pub moved : File → ℕ → File
moved f n = record f { offset = f.offset + n }

-- The cluster after `h` hops along the table: a cluster's entry, read at its number as a `uint16_t`,
-- is the next cluster unless it is 0xFF8 or more.
pub data Walk (s : FsState) (first : ℕ) : ℕ → ℕ → Type 0 where
  begun : Walk s first 0 first
  linked :
      (h c v : ℕ)
      → Walk s first h c
      → is_success (read_fat s (c % 65536)).0 ≡ true
      → value_or_zero (read_fat s (c % 65536)).1 ≡ v
      → v < chain_end
      → Walk s first (suc h) v

-- The transfer of `n` bytes came to the end of a cluster `c` of the handle's chain, where the loop
-- looks into the table for the next one.
pub record AtEntry (s : FsState) (f : File) (n c : ℕ) : Type 0 where
  pub sector_end : (f.offset + n) % 512 ≡ 0
  pub hop : ℕ
  pub counted : hops f n ≡ suc hop
  pub chain : Walk s f.cluster hop c

-- The results of a read of `total` bytes. The handle is moved by the bytes that were copied, and the
-- buffer has as many.
pub data Reads (s : FsState) (f : File) (total : ℕ) : ReadResult → Type 0 where
  all :
      (buf : List ℕ) (c : ℕ)
      → length buf ≡ total
      → Walk s f.cluster (hops f total) c
      → Reads s f total (bytes total, moved f total, buf)
  ended :
      (buf : List ℕ) (c : ℕ)
      → length buf ≤ total
      → AtEntry s f (length buf) c
      → is_success (read_fat s (c % 65536)).0 ≡ true
      → chain_end ≤ value_or_zero (read_fat s (c % 65536)).1
      → Reads s f total (bytes (length buf), moved f (length buf), buf)
  unreadable :
      (buf : List ℕ) (c : ℕ)
      → length buf ≤ total
      → AtEntry s f (length buf) c
      → is_success (read_fat s (c % 65536)).0 ≡ false
      → Reads s f total (failed io_error, moved f (length buf), buf)

-- The call returns, and with such a result.
pub data Returns {A : Type 0} (P : A → Type 0) : Option A → Type 0 where
  returns : (r : A) → P r → Returns P (some r)

-- The loop's variables when the buffer holds `buf`.
abbrev reached : File → List ℕ → ℕ → ℕ → Transfer
reached f buf c k = record {
  file = moved f (length buf);
  done = length buf;
  cluster = c;
  sector = k;
}

-- The cluster `c` of the chain.
abbrev On : FsState → File → ℕ → ℕ → Type 0
On s f c h = Walk s f.cluster h c

-- How a round of `fs_read` ends.
data Moves (s : FsState) (f : File) (buf : List ℕ) : Next → Type 0 where
  onward : (c k : ℕ) → At f (length buf) k (On s f c) → Moves s f buf (go (reached f buf c k) s)
  at_end :
      (c k : ℕ)
      → AtEntry s f (length buf) c
      → is_success (read_fat s (c % 65536)).0 ≡ true
      → chain_end ≤ value_or_zero (read_fat s (c % 65536)).1
      → Moves s f buf (stop (reached f buf c k) s)
  no_entry :
      (c k : ℕ)
      → AtEntry s f (length buf) c
      → is_success (read_fat s (c % 65536)).0 ≡ false
      → Moves s f buf (broken io_error (reached f buf c k) s)

follow-Moves :
    (s : FsState) (f : File) (buf : List ℕ) (c k : ℕ)
    → (f.offset + length buf) % 512 ≡ 0
    → Hop f (length buf) (On s f c)
    → Moves s f buf (follow s (reached f buf c k))
unfolding follow
follow-Moves s f buf c k e h =
    let entry : AtEntry s f (length buf) c = record {
      sector_end = e;
      hop = h.hop;
      counted = h.counted;
      chain = h.from;
    } in
    let v = value_or_zero (read_fat s (c % 65536)).1 in
    if_cases (Moves s f buf) (not (is_success (read_fat s (c % 65536)).0)) _ _
      (λ a. no_entry c k entry (ground (arith, a)))
      (λ a.
        if_cases (Moves s f buf) (leb chain_end v) _ _
          (λ d. at_end c k entry (ground (arith, a)) (ground (arith, d)))
          (λ d. onward v (sector_of v 0) (
            hop-At f (length buf) v (On s f c) (On s f v) h
              (linked h.hop c v h.from (ground (arith, a)) refl (ground (arith, d))))))

read_move-Moves :
    (s : FsState) (f : File) (buf : List ℕ) (c k : ℕ)
    → Moved f (length buf) k (On s f c)
    → Moves s f buf (read_move s (reached f buf c k))
unfolding read_move
read_move-Moves s f buf c k m =
    let k' = (k + 1) % 2 ^ 32 in
    if_cases (Moves s f buf) (not ((f.offset + length buf) % 512 == 0)) _ _
      (λ a. onward c k (m.within (ground (arith, a))))
      (λ a.
        let e : (f.offset + length buf) % 512 ≡ 0 = ground (arith, a) in
        if_cases (Moves s f buf) (not (k' % 2 == 0)) _ _
          (λ b.
            onward c k'
              (next_sector-At f (length buf) k (On s f c) (m.border e) (ground (arith, b))))
          (λ b.
            follow-Moves s f buf c k' e
              (border-Hop f (length buf) k (On s f c) (m.border e) (ground (arith, b)))))

complete-Reads :
    (s : FsState) (f : File) (total : ℕ) (buf : List ℕ) (c : ℕ)
    → length buf ≡ total
    → Walk s f.cluster (hops f (length buf)) c
    → Reads s f total (bytes (length buf), moved f (length buf), buf)
complete-Reads s f total buf c e w =
    subst (λ n. Reads s f total (bytes n, moved f n, buf)) (sym e)
      (all buf c e (subst (λ n. Walk s f.cluster (hops f n) c) e w))

after_read-Reads :
    (s : FsState) (f : File) (total : ℕ) (buf : List ℕ) (again : Transfer → Option ReadResult)
    {next : Next}
    → Moves s f buf next
    → length buf ≤ total
    → ((c k : ℕ)
        → At f (length buf) k (On s f c)
        → Returns (Reads s f total) (again (reached f buf c k)))
    → Returns (Reads s f total) (after_read again buf next)
after_read-Reads s f total buf again (onward c k a) le h = h c k a
after_read-Reads s f total buf again (at_end c k a ok v) le h =
    returns (bytes (length buf), moved f (length buf), buf) (ended buf c le a ok v)
after_read-Reads s f total buf again (no_entry c k a e) le h =
    returns (failed io_error, moved f (length buf), buf) (unreadable buf c le a e)

length-slice : (sector : ℕ → ℕ) (o n : ℕ) → length (slice sector o n) ≡ n
length-slice sector o zero = refl
length-slice sector o (suc n) = ap suc (length-slice sector (o + 1) n)

pub piece-bounds :
    (offset left : ℕ) → 0 < left → (0 < piece offset left) × (piece offset left ≤ left)
unfolding piece
piece-bounds offset left h = (ground arith, ground arith)

advance-reached :
    (f : File) (buf more : List ℕ) (c k n : ℕ)
    → length more ≡ n
    → f.offset + length buf + n < 2 ^ 32
    → advance (reached f buf c k) n ≡ reached f (buf ++ more) c k
advance-reached f buf more c k n e h =
    ap₂ (λ o d. record { file = record f { offset = o }; done = d; cluster = c; sector = k })
      (omega (arith, length-append buf more)) (omega (arith, length-append buf more))

read_loop-Reads :
    (fuel : ℕ) (s : FsState) (junk : ℕ → ℕ → ℕ) (total : ℕ) (f : File) (buf : List ℕ) (c k : ℕ)
    → length buf ≤ total
    → f.offset + total < 2 ^ 32
    → total - length buf ≤ fuel
    → At f (length buf) k (On s f c)
    → Returns (Reads s f total) (read_loop fuel s junk total (reached f buf c k) buf)
unfolding read_loop
read_loop-Reads zero s junk total f buf c k le small enough a =
    if_cases (Returns (Reads s f total)) (ltb (length buf) total) _ _
      (λ t. absurd (ground (arith, t)))
      (λ t. returns _ (complete-Reads s f total buf c (ground (arith, t)) a.reached))
read_loop-Reads (suc fuel) s junk total f buf c k le small enough a =
    let n = piece (f.offset + length buf) (total - length buf) in
    let more = slice (junk (length buf)) ((f.offset + length buf) % 512) n in
    if_cases (Returns (Reads s f total)) (ltb (length buf) total) _ _
      (λ t.
        let bound = piece-bounds (f.offset + length buf) (total - length buf) (ground (arith, t)) in
        let size = length-append buf more in
        let taken = length-slice (junk (length buf)) ((f.offset + length buf) % 512) n in
        let longer : length buf + n ≡ length (buf ++ more) = omega (arith, size, taken) in
        let step = advance-reached f buf more c k n taken (omega (arith, bound.1, small, le)) in
        after_read-Reads s f total (buf ++ more)
          (λ t'. read_loop fuel s junk total t' (buf ++ more))
          (subst (λ u. Moves s f (buf ++ more) (read_move s u)) (sym step)
            (read_move-Moves s f (buf ++ more) c k (
              subst (λ l. Moved f l k (On s f c)) longer
                (advance-Moved f (length buf) k (total - length buf) (On s f c) bound.0 a))))
          (omega (arith, size, taken, bound.1, le))
          (λ c' k' a'.
            read_loop-Reads fuel s junk total f (buf ++ more) c' k'
              (omega (arith, size, taken, bound.1, le)) small
              (omega (arith, size, taken, bound.0, enough)) a'))
      (λ t. returns _ (complete-Reads s f total buf c (ground (arith, t)) a.reached))

moved_zero : (f : File) → moved f 0 ≡ f
moved_zero f = ap (λ o. record f { offset = o }) (omega arith)

read_loop_start :
    (s : FsState) (junk : ℕ → ℕ → ℕ) (f : File) (total : ℕ)
    → f.offset + total < 2 ^ 32
    → Returns (Reads s f total) (read_loop total s junk total (begin_transfer f) [])
unfolding begin_transfer
read_loop_start s junk f total small =
    let k = sector_of f.cluster (f.offset / 512) in
    subst
      (λ g. Returns (Reads s f total) (
        read_loop total s junk total
          (record { file = g; done = 0; cluster = f.cluster; sector = k }) []))
      (moved_zero f)
      (read_loop-Reads total s junk total f [] f.cluster k (omega arith) small (omega arith)
        (begin-At f (On s f f.cluster) begun))

read_total-min :
    (f : File) (size : ℕ)
    → f.offset < f.size
    → f.offset + size < 2 ^ 32
    → read_total f size ≡ min size (f.size - f.offset)
unfolding read_total
read_total-min f size h small = ground arith

-- A read through an open handle with the read mode always returns, where the sum of the offset and
-- the size does not wrap. The loop follows the cluster chain of the handle, one link at the end of
-- every sector of 512 bytes, but not at that of the first one if this is an odd sector of the file.
-- It copies as many bytes as asked for and as the file has behind the offset, where the chain has
-- that many links; or it stops at the end of a sector because the entry of the cluster that the
-- chain has come to is 0xFF8 or more; or it fails there because this cluster has no entry in the
-- table. The handle moves by the bytes that were copied, with the error too.
pub fs_read-Reads :
    (s : FsState) (junk : ℕ → ℕ → ℕ) (f : File) (size : ℕ)
    → f.valid ≡ true
    → mode_read f.mode ≡ true
    → f.offset + size < 2 ^ 32
    → Returns (Reads s f (min size (f.size - f.offset))) (fs_read s junk f size)
unfolding fs_read
fs_read-Reads s junk f size v m small =
    let Good = Returns (Reads s f (min size (f.size - f.offset))) in
    if_cases Good (not f.valid || not (mode_read f.mode)) _ _
      (λ t. absurd (ground (arith, t, v, m)))
      (λ t.
        if_cases Good (leb f.size f.offset) _ _
          (λ eof.
            returns (bytes 0, f, [])
              (subst (λ g. Reads s f (min size (f.size - f.offset)) (bytes 0, g, [])) (moved_zero f)
                (complete-Reads s f (min size (f.size - f.offset)) [] f.cluster
                  (ground (arith, eof)) (begin-At f (On s f f.cluster) begun).reached)))
          (λ more.
            let total = read_total-min f size (ground (arith, more)) small in
            subst
              (λ n.
                Returns (Reads s f n)
                  (read_loop (read_total f size) s junk (read_total f size) (begin_transfer f) []))
              total (read_loop_start s junk f (read_total f size) (omega (arith, total, small)))))
