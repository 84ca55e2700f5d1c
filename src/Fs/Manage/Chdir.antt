-- ===== src/Fs/Manage/Chdir.antt =====
-- Where `fs_chdir` of fs/filesystem.c leads.
use pxos.Base.{
  ◌≡◌, ◌≢◌, refl, sym, ap, ◌∙◌, arith, true, false, not, Option, none, some, List, [], ◌∷◌, ℕ,
  if_cases,
}
use pxos.Base.Int.{ℤ, pos, negsuc}
use pxos.Str.{strcmp, text}
use pxos.Str.Compare.{strcmp-zero_iff}
use pxos.Fs.State.{
  Status, success, not_found, access_denied, invalid_path, io_error, not_directory, is_success,
  Dirent, FsState,
}
use pxos.Fs.Names.{is_zero, validate_path}
use pxos.Fs.Dir.{is_directory, find_entry}
use pxos.Fs.Manage.{enter_directory, fs_chdir}

-- The strings `/` and `..`.
abbrev pub root : List ℕ
root = b'/' ∷ []

abbrev pub parent : List ℕ
parent = b'.' ∷ b'.' ∷ []

-- A path that is looked up: it passes the check and is neither of the two.
pub record IsLooked (s : FsState) (path : List ℕ) : Type 0 where
  pub mounted : s.initialized ≡ true
  pub valid : is_success (validate_path path) ≡ true
  pub not_root : text path ≢ root
  pub not_parent : text path ≢ parent

-- What a change of directory does, by the volume and the path.
pub data Chdir (s : FsState) (path : List ℕ) : Status × FsState → Type 0 where
  unmounted : s.initialized ≡ false → Chdir s path (io_error, s)
  bad_path :
      s.initialized ≡ true
      → is_success (validate_path path) ≡ false
      → Chdir s path (invalid_path, s)
  to_root :
      s.initialized ≡ true
      → text path ≡ root
      → Chdir s path (success, record s { current_directory = root })
  already_root :
      s.initialized ≡ true
      → text path ≡ parent
      → text s.current_directory ≡ root
      → Chdir s path (access_denied, s)
  up :
      s.initialized ≡ true
      → text path ≡ parent
      → text s.current_directory ≢ root
      → Chdir s path (success, record s { current_directory = root })
  missing : IsLooked s path → find_entry s path ≡ none → Chdir s path (not_found, s)
  no_directory :
      (d : Dirent)
      → IsLooked s path
      → find_entry s path ≡ some d
      → is_directory d ≡ false
      → Chdir s path (not_directory, s)
  entered :
      (d : Dirent)
      → IsLooked s path
      → find_entry s path ≡ some d
      → is_directory d ≡ true
      → Chdir s path (success, record s { current_directory = text path })

is_zero-pos : (z : ℤ) → is_zero z ≡ true → z ≡ pos 0
is_zero-pos (pos n) h = ap pos (ground (arith, h))
is_zero-pos (negsuc n) h = cc

-- The test of `strcmp` for 0.
same_text : (s t : List ℕ) → is_zero (strcmp s t) ≡ true → text s ≡ text t
same_text s t h = (strcmp-zero_iff s t).0 (is_zero-pos (strcmp s t) h)

other_text : (s t : List ℕ) → is_zero (strcmp s t) ≡ false → text s ≢ text t
other_text s t h e = absurd (true_false (sym (ap is_zero ((strcmp-zero_iff s t).1 e)) ∙ h))
  where
    true_false : true ≡ false → ⊥
    true_false z = cc

enter_directory-Chdir :
    (s : FsState) (path : List ℕ) (o : Option Dirent)
    → IsLooked s path
    → find_entry s path ≡ o
    → Chdir s path (enter_directory s path o)
unfolding enter_directory
enter_directory-Chdir s path none l e = missing l e
enter_directory-Chdir s path (some d) l e =
    if_cases (Chdir s path) (not (is_directory d)) _ _ (λ h. no_directory d l e (ground (arith, h)))
      (λ h. entered d l e (ground (arith, h)))

-- `fs_chdir` fails and changes nothing on a volume that is not mounted and for a path that the check
-- refuses. For `/` it makes the root the current directory, and for `..` too, unless this is the
-- root already, when it fails. For any other path it makes the path the current directory if
-- `find_entry` finds the entry of a directory for it; else it fails, with FS_ERROR_NOT_FOUND or
-- FS_ERROR_NOT_DIRECTORY. It changes nothing else.
pub fs_chdir-Chdir : (s : FsState) (path : List ℕ) → Chdir s path (fs_chdir s path)
unfolding fs_chdir
fs_chdir-Chdir s path =
    if_cases (Chdir s path) (not s.initialized) _ _ (λ h. unmounted (ground (arith, h)))
      λ m.
        let init : s.initialized ≡ true = ground (arith, m) in
        if_cases (Chdir s path) (not (is_success (validate_path path))) _ _
          (λ h. bad_path init (ground (arith, h)))
          λ v.
            if_cases (Chdir s path) (is_zero (strcmp path root)) _ _
              (λ h. to_root init (same_text path root h))
              λ r.
                if_cases (Chdir s path) (is_zero (strcmp path parent)) _ _
                  (λ p.
                    if_cases (Chdir s path) (is_zero (strcmp s.current_directory root)) _ _
                      (λ h.
                        already_root init (same_text path parent p)
                          (same_text s.current_directory root h))
                      (λ h.
                        up init (same_text path parent p) (other_text s.current_directory root h)))
                  (λ p.
                    enter_directory-Chdir s path (find_entry s path)
                      (record {
                        mounted = init;
                        valid = ground (arith, v);
                        not_root = other_text path root r;
                        not_parent = other_text path parent p;
                      })
                      refl)
