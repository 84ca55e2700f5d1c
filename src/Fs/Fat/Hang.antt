-- ===== src/Fs/Fat/Hang.antt =====
-- `fs_free_cluster_chain` on a chain that reaches cluster 0 while the entry of cluster 0 is free.
use pxos.Base.{ℕ, zero, suc, ◌<◌, ◌≡◌, refl, ◌∙◌, arith, true, none}
use native.Mathlib.Decide.{ℕ_discrete}
use pxos.Fs.State.{FsState, Bytes, max_cluster}
use pxos.Fs.Fat.{fat_entry, put_entry, free_chain_loop, free_cluster_chain}
use pxos.Fs.Fat.Codec.{IsBytes, fat_entry-put_self, fat_entry-put_ne, put_entry-IsBytes}
use pxos.Fs.Fat.Chain.{free_chain_loop_step, free_cluster_chain-eq-loop}

zero_stays : (m : Bytes) (c : ℕ) → IsBytes m → fat_entry m 0 ≡ 0 → fat_entry (put_entry m c 0) 0 ≡ 0
zero_stays m c h z = elim (ℕ_discrete c 0) [
  | yes e ↦ rw e (omega (arith, fat_entry-put_self m 0 0))
  | no ne ↦ omega (arith, fat_entry-put_ne m c 0 0 h ne)
]

free_chain_loop-none :
    (fuel : ℕ) (s : FsState) (c : ℕ)
    → s.initialized ≡ true
    → IsBytes s.fat_table
    → c < max_cluster
    → fat_entry s.fat_table c ≡ 0
    → fat_entry s.fat_table 0 ≡ 0
    → free_chain_loop fuel s c ≡ none
unfolding free_chain_loop
free_chain_loop-none zero s c init h lt free z = refl
free_chain_loop-none (suc fuel) s c init h lt free z =
    free_chain_loop_step fuel s c init lt
    ∙ rw free (
        free_chain_loop-none fuel (record s { fat_table = put_entry s.fat_table c 0 }) 0 init
          (put_entry-IsBytes s.fat_table c 0 h) (omega arith) (zero_stays s.fat_table c h z)
          (zero_stays s.fat_table c h z))

-- On a mounted filesystem whose table holds bytes and whose entry of cluster 0 is 0,
-- `fs_free_cluster_chain` started at any cluster whose own entry is 0 never ends, whatever the
-- number of rounds.
pub free_cluster_chain-none :
    (fuel : ℕ) (s : FsState) (c : ℕ)
    → s.initialized ≡ true
    → IsBytes s.fat_table
    → c < max_cluster
    → fat_entry s.fat_table c ≡ 0
    → fat_entry s.fat_table 0 ≡ 0
    → free_cluster_chain fuel s c ≡ none
free_cluster_chain-none fuel s c init h lt free z =
    free_cluster_chain-eq-loop fuel s c init ∙ free_chain_loop-none fuel s c init h lt free z
