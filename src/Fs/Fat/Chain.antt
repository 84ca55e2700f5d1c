-- ===== src/Fs/Fat/Chain.antt =====
-- `fs_free_cluster_chain` on a chain that ends: the loop ends too, and frees exactly the chain.
use pxos.Base.{
  ℕ, zero, suc, ◌≤◌, ◌<◌, ◌≡◌, refl, sym, ◌∙◌, arith, ◌⊎◌, inl, inr, true, some, List, [], ◌∷◌,
  length,
}
use native.Mathlib.Decide.{ℕ_discrete}
use pxos.Fs.State.{success, FsState, Bytes, max_cluster}
use pxos.Fs.Fat.{
  fat_entry, put_entry, chain_end, read_fat, free_round, free_chain_loop, free_cluster_chain,
}
use pxos.Fs.Fat.Codec.{IsBytes, fat_entry-put_self, fat_entry-put_ne, put_entry-IsBytes}
use pxos.Fs.Fat.Alloc.{write_fat-success}

-- The clusters that the entries link from `c` on, up to a value that ends the chain.
abbrev pub IsChain : Bytes → ℕ → List ℕ → Type 0
IsChain m c [] = chain_end ≤ c
IsChain m c (x ∷ cs) = (x ≡ c) × (c < max_cluster) × IsChain m (fat_entry m c) cs

abbrev pub In : ℕ → List ℕ → Type 0
In d [] = ⊥
In d (x ∷ cs) = (d ≡ x) ⊎ In d cs

-- The table with the entries of the list zeroed in order.
pub clear : Bytes → List ℕ → Bytes
clear m [] = m
clear m (x ∷ cs) = clear (put_entry m x 0) cs

length-IsChain :
    (m : Bytes) (c : ℕ) (xs ys : List ℕ) → IsChain m c xs → IsChain m c ys → length xs ≡ length ys
length-IsChain m c [] [] p q = refl
length-IsChain m c [] (y ∷ ys) p q = absurd (omega arith)
length-IsChain m c (x ∷ xs) [] p q = absurd (omega arith)
length-IsChain m c (x ∷ xs) (y ∷ ys) p q =
    omega (arith, length-IsChain m (fat_entry m c) xs ys p.2 q.2)

-- The part of a chain from one of its clusters on.
IsChain-In :
    (m : Bytes) (c d : ℕ) (cs : List ℕ)
    → IsChain m c cs
    → In d cs
    → (ys : List ℕ) × IsChain m d ys × (length ys ≤ length cs)
IsChain-In m c d [] p i = absurd i
IsChain-In m c d (x ∷ cs) p (inl e) = (x ∷ cs, (sym e, omega arith, rw (e ∙ p.0) p.2), omega arith)
IsChain-In m c d (x ∷ cs) p (inr i) =
    let (ys, q, le) = IsChain-In m (fat_entry m c) d cs p.2 i in (ys, q, omega arith)

-- A chain that ends does not come back to a cluster.
not-In :
    (m : Bytes) (c : ℕ) (cs : List ℕ) → c < max_cluster → IsChain m (fat_entry m c) cs → ¬ In c cs
not-In m c cs h p i =
    let (ys, q, le) = IsChain-In m (fat_entry m c) c cs p i in
    omega (arith, length-IsChain m c (c ∷ cs) ys (refl, h, p) q)

IsChain-put :
    (m : Bytes) (c v d : ℕ) (cs : List ℕ)
    → IsBytes m
    → ¬ In c cs
    → IsChain m d cs
    → IsChain (put_entry m c v) d cs
IsChain-put m c v d [] h ni p = p
IsChain-put m c v d (x ∷ cs) h ni p = (
  p.0,
  p.1,
  rw (fat_entry-put_ne m c d v h (λ e. ni (inl (omega arith))))
      (IsChain-put m c v (fat_entry m d) cs h (λ i. ni (inr i)) p.2),
)

clear-IsBytes : (m : Bytes) (cs : List ℕ) → IsBytes m → IsBytes (clear m cs)
unfolding clear
clear-IsBytes m [] h = h
clear-IsBytes m (x ∷ cs) h = clear-IsBytes (put_entry m x 0) cs (put_entry-IsBytes m x 0 h)

clear_other :
    (m : Bytes) (cs : List ℕ) (d : ℕ)
    → IsBytes m
    → ¬ In d cs
    → fat_entry (clear m cs) d ≡ fat_entry m d
unfolding clear
clear_other m [] d h ni = refl
clear_other m (x ∷ cs) d h ni =
    clear_other (put_entry m x 0) cs d (put_entry-IsBytes m x 0 h) (λ i. ni (inr i))
    ∙ fat_entry-put_ne m x d 0 h (λ e. ni (inl (sym e)))

clear_zero :
    (m : Bytes) (cs : List ℕ) (d : ℕ)
    → IsBytes m
    → (fat_entry m d ≡ 0) ⊎ In d cs
    → fat_entry (clear m cs) d ≡ 0
unfolding clear
clear_zero m [] d h (inl z) = z
clear_zero m [] d h (inr i) = absurd i
clear_zero m (x ∷ cs) d h i =
    clear_zero (put_entry m x 0) cs d (put_entry-IsBytes m x 0 h) (elim (ℕ_discrete d x) [
      | yes e ↦ inl (rw e (omega (arith, fat_entry-put_self m x 0)))
      | no ne ↦ elim i [
        | inl z ↦ inl (fat_entry-put_ne m x d 0 h (λ e. ne (sym e)) ∙ z)
        | inr (inl e) ↦ absurd (ne e)
        | inr (inr j) ↦ inr j
      ]
    ])

pub free_round-success :
    (s : FsState) (c : ℕ)
    → s.initialized ≡ true
    → c < max_cluster
    → free_round s c
      ≡ (success, record s { fat_table = put_entry s.fat_table c 0 }, fat_entry s.fat_table c)
unfolding free_round read_fat
free_round-success s c init h = ground (arith, write_fat-success s c 0)

-- A round on a cluster of the table.
pub free_chain_loop_step :
    (fuel : ℕ) (s : FsState) (c : ℕ)
    → s.initialized ≡ true
    → c < max_cluster
    → free_chain_loop (suc fuel) s c
      ≡ free_chain_loop fuel
          (record s { fat_table = put_entry s.fat_table c 0 })
          (fat_entry s.fat_table c)
unfolding free_chain_loop
free_chain_loop_step fuel s c init h = ground (arith, free_round-success s c)

pub free_cluster_chain-eq-loop :
    (fuel : ℕ) (s : FsState) (c : ℕ)
    → s.initialized ≡ true
    → free_cluster_chain fuel s c ≡ free_chain_loop fuel s c
unfolding free_cluster_chain
free_cluster_chain-eq-loop fuel s c init = ground arith

free_chain_loop-clear :
    (fuel : ℕ) (s : FsState) (c : ℕ) (cs : List ℕ)
    → s.initialized ≡ true
    → IsBytes s.fat_table
    → IsChain s.fat_table c cs
    → length cs < fuel
    → free_chain_loop fuel s c ≡ some (success, record s { fat_table = clear s.fat_table cs })
unfolding free_chain_loop clear
free_chain_loop-clear zero s c cs init h p lt = absurd (omega arith)
free_chain_loop-clear (suc fuel) s c [] init h p lt = ground arith
free_chain_loop-clear (suc fuel) s c (x ∷ cs) init h p lt = rw (p.0) (
    free_chain_loop_step fuel s c init p.1
    ∙ free_chain_loop-clear fuel (record s { fat_table = put_entry s.fat_table c 0 })
        (fat_entry s.fat_table c) cs init (put_entry-IsBytes s.fat_table c 0 h) rest (omega arith))
  where
    rest : IsChain (put_entry s.fat_table c 0) (fat_entry s.fat_table c) cs
    rest =
        IsChain-put s.fat_table c 0 (fat_entry s.fat_table c) cs h (not-In s.fat_table c cs p.1 p.2)
          p.2

-- The entries of a chain are freed, and no other.
pub record Frees (m m' : Bytes) (cs : List ℕ) : Type 0 where
  pub bytes : IsBytes m'
  pub freed : (d : ℕ) → In d cs → fat_entry m' d ≡ 0
  pub others : (d : ℕ) → ¬ In d cs → fat_entry m' d ≡ fat_entry m d

clear-Frees : (m : Bytes) (cs : List ℕ) → IsBytes m → Frees m (clear m cs) cs
clear-Frees m cs h = record {
  bytes = clear-IsBytes m cs h;
  freed = λ d i. clear_zero m cs d h (inr i);
  others = λ d ni. clear_other m cs d h ni;
}

-- On a mounted filesystem whose table holds bytes, and on a chain that ends, `fs_free_cluster_chain`
-- ends within one round for each cluster of the chain and one more, succeeds, zeroes the entries of
-- the chain, and changes no other entry and nothing else of the state.
pub free_cluster_chain-Frees :
    (fuel : ℕ) (s : FsState) (c : ℕ) (cs : List ℕ)
    → s.initialized ≡ true
    → IsBytes s.fat_table
    → IsChain s.fat_table c cs
    → length cs < fuel
    → (m : Bytes) × (free_cluster_chain fuel s c ≡ some (success, record s { fat_table = m }))
      × Frees s.fat_table m cs
free_cluster_chain-Frees fuel s c cs init h p lt = (
  clear s.fat_table cs,
  free_cluster_chain-eq-loop fuel s c init ∙ free_chain_loop-clear fuel s c cs init h p lt,
  clear-Frees s.fat_table cs h,
)
