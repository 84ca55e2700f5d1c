-- ===== src/Fs/Dir/Add.antt =====
-- `add_directory_entry_to_dir` and `find_directory_entry` on the root directory.
use pxos.Base.{
  ℕ, zero, suc, ◌≡◌, ◌≢◌, refl, sym, ap, ap₂, ◌∙◌, arith, true, false, none, some, Bool-cases, inl,
  inr, List, [], ◌∷◌, length, take,
}
use pxos.Str.{strcmp, memcmp}
use pxos.Str.Compare.{memcmp-zero_iff}
use pxos.Fs.State.{success, not_found, Dirent, FsState}
use pxos.Fs.Names.{is_zero, convert_filename}
use pxos.Fs.Names.Fields.{length-convert_filename}
use pxos.Fs.Dir.{
  is_live, has_name, hits, find_slot, fill_slot, strip_slash, find_directory_entry, new_entry,
  add_to_root, add_directory_entry_to_dir,
}
use pxos.Fs.Dir.Slots.{hits_self, find_slot-fill, find_slot-fill_other}

-- The name and extension fields of a path.
abbrev pub fields : List ℕ → List ℕ × List ℕ
fields path = convert_filename (strip_slash path)

-- The entry that is added for a path.
abbrev pub entry_for : List ℕ → ℕ → ℕ → ℕ → Dirent
entry_for path attr cluster size = new_entry (fields path).0 (fields path).1 attr cluster size

pub add-root :
    (sector : List Dirent) (s : FsState) (path : List ℕ) (attr cluster size : ℕ)
    → s.initialized ≡ true
    → add_directory_entry_to_dir sector s path attr cluster size (b'/' ∷ [])
      ≡ add_to_root s (entry_for path attr cluster size)
unfolding add_directory_entry_to_dir strcmp
add-root sector s path attr cluster size init = simp init

find-found :
    (s : FsState) (path : List ℕ) (d : Dirent)
    → s.initialized ≡ true
    → find_slot (fields path).0 (fields path).1 s.root_dir ≡ some d
    → find_directory_entry s path ≡ (success, some d)
unfolding find_directory_entry
find-found s path d init e = ground arith

find-missing :
    (s : FsState) (path : List ℕ)
    → s.initialized ≡ true
    → find_directory_entry s path ≡ (not_found, none)
    → find_slot (fields path).0 (fields path).1 s.root_dir ≡ none
unfolding find_directory_entry
find-missing s path init e = ground arith

find-congr :
    (s s' : FsState) (path : List ℕ)
    → s'.initialized ≡ s.initialized
    → find_slot (fields path).0 (fields path).1 s'.root_dir
      ≡ find_slot (fields path).0 (fields path).1 s.root_dir
    → find_directory_entry s' path ≡ find_directory_entry s path
unfolding find_directory_entry
find-congr s s' path i e = rw (i, e)

take_all : (n : ℕ) (xs : List ℕ) → length xs ≡ n → take n xs ≡ xs
take_all zero [] h = refl
take_all zero (x ∷ xs) h = absurd (omega arith)
take_all (suc n) [] h = refl
take_all (suc n) (x ∷ xs) h = ap (◌∷◌ x) (take_all n xs (omega arith))

memcmp-eq :
    (k : ℕ) (p q : List ℕ) → length p ≡ k → length q ≡ k → is_zero (memcmp p q k) ≡ true → p ≡ q
memcmp-eq k p q hp hq e =
    sym (take_all k p hp)
    ∙ (memcmp-zero_iff p q k (omega arith) (omega arith)).0 (ground arith)
    ∙ take_all k q hq

has_name-fields :
    (a b : List ℕ × List ℕ) (attr cluster size : ℕ)
    → (length a.0 ≡ 8) × (length a.1 ≡ 3)
    → (length b.0 ≡ 8) × (length b.1 ≡ 3)
    → has_name b.0 b.1 (new_entry a.0 a.1 attr cluster size) ≡ true
    → b ≡ a
unfolding has_name
has_name-fields a b attr cluster size la lb h = sym (
    ap₂ (λ x y. (x, y)) (memcmp-eq 8 a.0 b.0 la.0 lb.0 (ground arith))
      (memcmp-eq 3 a.1 b.1 la.1 lb.1 (ground arith)))

-- Paths whose fields differ do not hit each other's entry.
hits_other :
    (path other : List ℕ) (attr cluster size : ℕ)
    → fields other ≢ fields path
    → hits (fields other).0 (fields other).1 (entry_for path attr cluster size) ≡ false
unfolding hits
hits_other path other attr cluster size ne =
    elim (Bool-cases (has_name n e (entry_for path attr cluster size))) [
      | inl same ↦ absurd (
          ne (
            has_name-fields (fields path) (fields other) attr cluster size
              (length-convert_filename (strip_slash path))
              (length-convert_filename (strip_slash other)) same))
      | inr differs ↦ ground arith
    ]
  where
    n : List ℕ
    n = (fields other).0

    e : List ℕ
    e = (fields other).1

-- What a lookup finds after an entry has been added to the root directory of `s`: the entry, by its
-- own path, and what was there before, by a path with other fields.
pub record Added (s s' : FsState) (path : List ℕ) (d : Dirent) : Type 0 where
  pub found : find_directory_entry s' path ≡ (success, some d)
  pub others :
      (other : List ℕ)
      → fields other ≢ fields path
      → find_directory_entry s' other ≡ find_directory_entry s other

pub fill-Added :
    (s : FsState) (path : List ℕ) (attr cluster size : ℕ) (ds : List Dirent)
    → s.initialized ≡ true
    → is_live (entry_for path attr cluster size) ≡ true
    → find_directory_entry s path ≡ (not_found, none)
    → fill_slot (entry_for path attr cluster size) s.root_dir ≡ some ds
    → Added s (record s { root_dir = ds }) path (entry_for path attr cluster size)
fill-Added s path attr cluster size ds init live miss e = record {
  found =
      find-found (record s { root_dir = ds }) path (entry_for path attr cluster size) init
        (find_slot-fill (entry_for path attr cluster size) (fields path).0 (fields path).1
          s.root_dir (hits_self (entry_for path attr cluster size) live)
          (find-missing s path init miss) e);
  others = λ other ne.
      find-congr s (record s { root_dir = ds }) other refl
        (find_slot-fill_other (entry_for path attr cluster size) (fields other).0 (fields other).1
          s.root_dir (hits_other path other attr cluster size ne) e);
}
