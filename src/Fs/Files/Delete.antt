-- ===== src/Fs/Files/Delete.antt =====
-- What `fs_delete` does with the path of an existing file: `remove_directory_entry` keeps the `/`
-- that `find_directory_entry` strips.
use pxos.Base.{
  ℕ, zero, suc, ◌≡◌, ◌≢◌, ◌<◌, refl, sym, ◌∙◌, arith, ◌⊎◌, inl, inr, true, false, Option, none,
  some, List, [], ◌∷◌, map, length,
}
use mathlib.Core.Path.{subst}
use native.Mathlib.Decide.{ℕ_discrete}
use pxos.Str.{deref, strlen, strchr, one_on, memcmp, memcpy}
use pxos.Fs.State.{success, not_found, io_error, Dirent, FsState, Bytes, max_cluster}
use pxos.Fs.Fat.{fat_entry, free_cluster_chain}
use pxos.Fs.Fat.Codec.{IsBytes}
use pxos.Fs.Fat.Chain.{IsChain, In, Frees, free_cluster_chain-Frees}
use pxos.Fs.Fat.Hang.{free_cluster_chain-none}
use pxos.Fs.Names.{is_zero, upper, blank_padded, convert_at, convert_filename, validate_path, clamp}
use pxos.Fs.Dir.{
  is_directory, has_name, hits, find_directory_entry, delete_slot, remove_directory_entry,
}
use pxos.Fs.Files.{remove_found, fs_delete}

-- No slot holds a name that begins with `/`.
abbrev pub NoSlash : List Dirent → Type 0
NoSlash [] = Unit {0}
NoSlash (d ∷ ds) = (deref d.name ≢ b'/') × NoSlash ds

pub memcmp-ne : (p q : List ℕ) (k : ℕ) → deref p ≢ deref q → is_zero (memcmp p q (suc k)) ≡ false
unfolding memcmp
memcmp-ne p q k h = ground arith

blank_padded-slash :
    (f : List ℕ) (k : ℕ) → k ≢ 0 → deref (map upper (blank_padded 8 (b'/' ∷ f) k)) ≡ b'/'
unfolding blank_padded memcpy upper
blank_padded-slash f zero h = absurd (h refl)
blank_padded-slash f (suc k) h = refl

clamp-ne-zero : (k : ℕ) → clamp 8 (suc k) ≢ 0
clamp-ne-zero k = ground arith

convert_at-slash : (f : List ℕ) (o : Option ℕ) → deref (convert_at (b'/' ∷ f) (one_on o)).0 ≡ b'/'
unfolding convert_at strlen
convert_at-slash f none = blank_padded-slash f (clamp 8 (suc (strlen f))) (clamp-ne-zero (strlen f))
convert_at-slash f (some i) = blank_padded-slash f (clamp 8 (suc i)) (clamp-ne-zero i)

strchr-slash : (f : List ℕ) → strchr (b'/' ∷ f) b'.' ≡ one_on (strchr f b'.')
unfolding strchr
strchr-slash f = refl

-- The name field of a path keeps its `/`.
pub convert_filename-slash : (f : List ℕ) → deref (convert_filename (b'/' ∷ f)).0 ≡ b'/'
unfolding convert_filename
convert_filename-slash f = rw (strchr-slash f) (convert_at-slash f (strchr f b'.'))

delete_slot-none :
    (n e : List ℕ) (ds : List Dirent) → deref n ≡ b'/' → NoSlash ds → delete_slot n e ds ≡ none
unfolding delete_slot hits has_name
delete_slot-none n e [] h ns = refl
delete_slot-none n e (d ∷ ds) h ns =
    ground (arith, memcmp-ne d.name n 7, delete_slot-none n e ds h ns.1)

remove_directory_entry-slash :
    (s : FsState) (f : List ℕ)
    → s.initialized ≡ true
    → NoSlash s.root_dir
    → remove_directory_entry s (b'/' ∷ f) ≡ (not_found, s)
unfolding remove_directory_entry
remove_directory_entry-slash s f init ns = ground (
  arith,
  delete_slot-none (convert_filename (b'/' ∷ f)).0 (convert_filename (b'/' ∷ f)).1 s.root_dir
      (convert_filename-slash f) ns,
)

-- `fs_delete` on a path that it finds, down to the release of the chain.
fs_delete-found :
    (fuel : ℕ) (s : FsState) (path : List ℕ) (d : Dirent)
    → s.initialized ≡ true
    → validate_path path ≡ success
    → find_directory_entry s path ≡ (success, some d)
    → is_directory d ≡ false
    → fs_delete fuel s path ≡ remove_found fuel s path d
unfolding fs_delete
fs_delete-found fuel s path d init v e nd = ground arith

remove_found-slash :
    (fuel : ℕ) (s : FsState) (f : List ℕ) (d : Dirent) (m : Bytes)
    → s.initialized ≡ true
    → NoSlash s.root_dir
    → d.cluster ≢ 0
    → free_cluster_chain fuel s d.cluster ≡ some (success, record s { fat_table = m })
    → remove_found fuel s (b'/' ∷ f) d ≡ some (io_error, record s { fat_table = m })
unfolding remove_found
remove_found-slash fuel s f d m init ns ne e =
    ground (arith, remove_directory_entry-slash (record s { fat_table = m }) f)

remove_found-none :
    (fuel : ℕ) (s : FsState) (path : List ℕ) (d : Dirent)
    → d.cluster ≢ 0
    → free_cluster_chain fuel s d.cluster ≡ none
    → remove_found fuel s path d ≡ none
unfolding remove_found
remove_found-none fuel s path d ne e = ground arith

find_directory_entry-fat :
    (s : FsState) (m : Bytes) (path : List ℕ)
    → find_directory_entry (record s { fat_table = m }) path ≡ find_directory_entry s path
unfolding find_directory_entry
find_directory_entry-fat s m path = refl

-- A file that `fs_delete` may remove: a mounted filesystem whose table holds bytes and whose root
-- directory has no name that begins with `/`, a valid path that begins with `/` and names an entry
-- that is no directory, with a chain of clusters that ends.
pub record IsDeletable (s : FsState) (f : List ℕ) (d : Dirent) (cs : List ℕ) : Type 0 where
  pub mounted : s.initialized ≡ true
  pub bytes : IsBytes s.fat_table
  pub no_slash : NoSlash s.root_dir
  pub valid : validate_path (b'/' ∷ f) ≡ success
  pub found : find_directory_entry s (b'/' ∷ f) ≡ (success, some d)
  pub file : is_directory d ≡ false
  pub nonzero : d.cluster ≢ 0
  pub chain : IsChain s.fat_table d.cluster cs

-- On a mounted filesystem whose table holds bytes and whose directory has no name that begins with
-- `/`, for the valid path of a file that has an entry and a chain of clusters that ends, and with a
-- round for each cluster of the chain and one more, `fs_delete` frees exactly the chain, then fails
-- with FS_ERROR_IO_ERROR and leaves the directory as it was: the entry stays.
pub fs_delete_keeps_entry :
    (fuel : ℕ) (s : FsState) (f : List ℕ) (d : Dirent) (cs : List ℕ)
    → IsDeletable s f d cs
    → length cs < fuel
    → (m : Bytes) × (fs_delete fuel s (b'/' ∷ f) ≡ some (io_error, record s { fat_table = m }))
      × Frees s.fat_table m cs
fs_delete_keeps_entry fuel s f d cs v lt =
    let (m, e, fr) = free_cluster_chain-Frees fuel s d.cluster cs v.mounted v.bytes v.chain lt in
    (
      m,
      fs_delete-found fuel s (b'/' ∷ f) d v.mounted v.valid v.found v.file
          ∙ remove_found-slash fuel s f d m v.mounted v.no_slash v.nonzero e,
      fr,
    )

dec_In : (d : ℕ) (cs : List ℕ) → In d cs ⊎ ¬ In d cs
dec_In d [] = inr (λ i. i)
dec_In d (x ∷ cs) = elim (ℕ_discrete d x) [
  | yes e ↦ inl (inl e)
  | no ne ↦ elim (dec_In d cs) [
    | inl i ↦ inl (inr i)
    | inr ni ↦ inr (elim [ inl e ↦ ne e | inr i ↦ ni i ])
  ]
]

zero-Frees : (m m' : Bytes) (cs : List ℕ) → Frees m m' cs → fat_entry m 0 ≡ 0 → fat_entry m' 0 ≡ 0
zero-Frees m m' cs fr z = elim (dec_In 0 cs) [ inl i ↦ fr.freed 0 i | inr ni ↦ fr.others 0 ni ∙ z ]

head-In : (m : Bytes) (c : ℕ) (cs : List ℕ) → IsChain m c cs → c < max_cluster → In c cs
head-In m c [] p h = absurd (omega arith)
head-In m c (x ∷ cs) p h = inl (sym p.0)

-- A deletion while the entry found has a freed cluster.
fs_delete_stale :
    (rounds : ℕ) (s : FsState) (f : List ℕ) (d : Dirent) (m : Bytes) (cs : List ℕ)
    → IsDeletable s f d cs
    → d.cluster < max_cluster
    → Frees s.fat_table m cs
    → fat_entry s.fat_table 0 ≡ 0
    → fs_delete rounds (record s { fat_table = m }) (b'/' ∷ f) ≡ none
fs_delete_stale rounds s f d m cs v lt fr z =
    fs_delete-found rounds after (b'/' ∷ f) d v.mounted v.valid
      (find_directory_entry-fat s m (b'/' ∷ f) ∙ v.found) v.file
    ∙ remove_found-none rounds after (b'/' ∷ f) d v.nonzero (
        free_cluster_chain-none rounds after d.cluster v.mounted fr.bytes lt
          (fr.freed d.cluster (head-In s.fat_table d.cluster cs v.chain lt))
          (zero-Frees s.fat_table m cs fr z))
  where
    after : FsState
    after = record s { fat_table = m }

some_snd :
    {A B : Type 0} {a a' : A} {b b' : B}
    → ◌≡◌ {A = Option (A × B)} (some (a, b)) (some (a', b'))
    → b ≡ b'
some_snd e = cc

-- On such a filesystem and file as `fs_delete_keeps_entry` is about, where besides the file's first
-- cluster is one of the table and the entry of cluster 0 is 0, another `fs_delete` of the same path
-- after the first never ends, whatever the number of rounds.
pub fs_delete_twice-none :
    (fuel rounds : ℕ) (s : FsState) (f : List ℕ) (d : Dirent) (cs : List ℕ) (s' : FsState)
    → IsDeletable s f d cs
    → length cs < fuel
    → d.cluster < max_cluster
    → fat_entry s.fat_table 0 ≡ 0
    → fs_delete fuel s (b'/' ∷ f) ≡ some (io_error, s')
    → fs_delete rounds s' (b'/' ∷ f) ≡ none
fs_delete_twice-none fuel rounds s f d cs s' v lt c z e =
    let (m, e', fr) = fs_delete_keeps_entry fuel s f d cs v lt in
    subst (λ t. fs_delete rounds t (b'/' ∷ f) ≡ none) (some_snd (sym e' ∙ e))
      (fs_delete_stale rounds s f d m cs v c fr z)
