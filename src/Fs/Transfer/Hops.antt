-- ===== src/Fs/Transfer/Hops.antt =====
-- Where the loops of `fs_read` and `fs_write` in fs/filesystem.c look into the table. FS_DATA_SECTOR
-- is odd, so the test `current_sector % 2 == 0` holds at the end of every sector but one: the first,
-- if the transfer begins at an odd sector of the file.
use mathlib.Core.Path.{subst}
use pxos.Base.{ℕ, suc, ◌+◌, ◌-◌, ◌/◌, ◌%◌, ◌^◌, ◌≡◌, ◌≢◌, ◌≤◌, ◌<◌, sym, arith}
use pxos.Fs.Files.{File}
use pxos.Fs.Transfer.{piece, sector_of}

-- The ends of sectors that a transfer of `n` bytes reaches.
abbrev pub crossed : File → ℕ → ℕ
crossed f n = (f.offset + n) / 512 - f.offset / 512

-- The times that it has looked for the next cluster.
abbrev pub hops : File → ℕ → ℕ
hops f n = crossed f n - f.offset / 512 % 2

-- The parity of the sector with `n` bytes moved.
abbrev pub InStep : File → ℕ → ℕ → Type 0
InStep f n k = (k + (f.offset / 512 % 2 - crossed f n)) % 2 ≡ 1

-- The loop's state after `n` bytes: `P h` says what holds after `h` hops.
pub record At (f : File) (n k : ℕ) (P : ℕ → Type 0) : Type 0 where
  pub reached : P (hops f n)
  pub step : InStep f n k

-- The end of a sector, before the sector is changed.
pub record Border (f : File) (n k : ℕ) (P : ℕ → Type 0) : Type 0 where
  pub before : ℕ
  pub one_more : crossed f n ≡ suc before
  pub reached : P (before - f.offset / 512 % 2)
  pub step : (k + (f.offset / 512 % 2 - before)) % 2 ≡ 1

-- After a round's bytes, before the move to the next sector.
pub record Moved (f : File) (n k : ℕ) (P : ℕ → Type 0) : Type 0 where
  pub within : (f.offset + n) % 512 ≢ 0 → At f n k P
  pub border : (f.offset + n) % 512 ≡ 0 → Border f n k P

piece-room : (offset left : ℕ) → piece offset left ≤ 512 - offset % 512
unfolding piece
piece-room offset left = ground arith

inside :
    (o n d : ℕ)
    → d ≤ 512 - (o + n) % 512
    → (o + (n + d)) % 512 ≢ 0
    → (o + (n + d)) / 512 ≡ (o + n) / 512
inside o n d h ne = omega arith

border_next :
    (o n d : ℕ)
    → 0 < d
    → d ≤ 512 - (o + n) % 512
    → (o + (n + d)) % 512 ≡ 0
    → (o + (n + d)) / 512 - o / 512 ≡ suc ((o + n) / 512 - o / 512)
border_next o n d pos_d h e = omega arith

-- The bytes of one round.
pub advance-Moved :
    (f : File) (n k left : ℕ) (P : ℕ → Type 0)
    → 0 < piece (f.offset + n) left
    → At f n k P
    → Moved f (n + piece (f.offset + n) left) k P
advance-Moved f n k left P pos_d a =
    let d = piece (f.offset + n) left in
    let room = piece-room (f.offset + n) left in
    record {
      within = λ ne.
          let same = inside f.offset n d room ne in
          record {
            reached = subst (λ q. P (q - f.offset / 512 - f.offset / 512 % 2)) (sym same) a.reached;
            step =
                subst (λ q. (k + (f.offset / 512 % 2 - (q - f.offset / 512))) % 2 ≡ 1) (sym same)
                  a.step;
          };
      border = λ e. record {
        before = crossed f n;
        one_more = border_next f.offset n d pos_d room e;
        reached = a.reached;
        step = a.step;
      };
    }

-- The next sector has an odd number, so the cluster stays.
pub next_sector-At :
    (f : File) (n k : ℕ) (P : ℕ → Type 0)
    → Border f n k P
    → (k + 1) % 2 ^ 32 % 2 ≢ 0
    → At f n ((k + 1) % 2 ^ 32) P
next_sector-At f n k P b odd =
    let same : b.before - f.offset / 512 % 2 ≡ hops f n = omega (arith, b.one_more, b.step, odd) in
    record { reached = subst P same b.reached; step = omega (arith, b.one_more, b.step, odd) }

-- The next sector has an even number: the `h` hops so far become one more.
pub record Hop (f : File) (n : ℕ) (P : ℕ → Type 0) : Type 0 where
  pub hop : ℕ
  pub counted : hops f n ≡ suc hop
  pub from : P hop

pub border-Hop :
    (f : File) (n k : ℕ) (P : ℕ → Type 0) → Border f n k P → (k + 1) % 2 ^ 32 % 2 ≡ 0 → Hop f n P
border-Hop f n k P b even = record {
  hop = b.before - f.offset / 512 % 2;
  counted = omega (arith, b.one_more, b.step, even);
  from = b.reached;
}

-- The state in the next cluster.
pub hop-At :
    (f : File) (n c : ℕ) (P Q : ℕ → Type 0)
    → (h : Hop f n P) → Q (suc h.hop)
    → At f n (sector_of c 0) Q
unfolding sector_of
hop-At f n c P Q h q = record {
  reached = subst Q (sym h.counted) q;
  step = omega (arith, h.counted);
}

-- The sector where a transfer begins.
pub begin-At : (f : File) (P : ℕ → Type 0) → P 0 → At f 0 (sector_of f.cluster (f.offset / 512)) P
unfolding sector_of
begin-At f P p =
    let none_yet : 0 ≡ hops f 0 = omega arith in
    record { reached = subst P none_yet p; step = omega arith }
