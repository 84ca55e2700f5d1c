-- ===== src/Fs/Names.antt =====
-- File names and paths of fs/filesystem.c: the 8.3 form of a name, and the checks of a path.
pub mod RoundTrip
pub mod Fields
use pxos.Base.{
  ℕ, zero, suc, ◌+◌, ◌-◌, Bool, true, false, not, ◌&&◌, ◌||◌, Option, none, some, List, [], ◌∷◌,
  ◌++◌, map, drop, replicate, ltb, leb, ◌==◌, if◌then◌else◌,
}
use pxos.Base.Int.{ℤ, pos, negsuc}
use pxos.Str.{deref, next, strlen, strcmp, strchr, memcpy}
use pxos.Fs.State.{Status, success, invalid_path}

-- `x == 0` for an `int`.
abbrev pub is_zero : ℤ → Bool
is_zero (pos n) = n == 0
is_zero (negsuc n) = false

-- The fold to upper case at the end of `convert_filename`.
unfoldable pub upper : ℕ → ℕ
upper c = if leb b'a' c && leb c b'z' then c - b'a' + b'A' else c

-- `if (n > limit) n = limit`
abbrev pub clamp : ℕ → ℕ → ℕ
clamp limit n = if ltb limit n then limit else n

-- A field of `n` bytes, blank but for the first `len` bytes of `src`.
unfoldable pub blank_padded : ℕ → List ℕ → ℕ → List ℕ
blank_padded n src len = memcpy (replicate n b' ') src len

-- The branches of `convert_filename` on where `strchr` found the dot.
unfoldable pub convert_at : List ℕ → Option ℕ → List ℕ × List ℕ
convert_at f (some dot) =
    let e = drop (suc dot) f in
    (map upper (blank_padded 8 f (clamp 8 dot)), map upper (blank_padded 3 e (clamp 3 (strlen e))))
convert_at f none =
    (map upper (blank_padded 8 f (clamp 8 (strlen f))), map upper (replicate 3 b' '))

-- `convert_filename`: the fields `name` and `ext`.
unfoldable pub convert_filename : List ℕ → List ℕ × List ℕ
convert_filename f = convert_at f (strchr f b'.')

-- The bytes of a field up to the first blank, at most `n`.
unfoldable pub field_text : ℕ → List ℕ → List ℕ
field_text zero f = []
field_text (suc n) f =
    let rest = field_text n (next f) in if deref f == b' ' then [] else deref f ∷ rest

-- `convert_filename_back`: the string that it writes, without the NUL behind it.
unfoldable pub convert_filename_back : List ℕ → List ℕ → List ℕ
convert_filename_back name ext =
    field_text 8 name ++ (if deref ext == b' ' then [] else b'.' ∷ field_text 3 ext)

-- `is_valid_filename`
unfoldable pub is_valid_filename : List ℕ → Bool
is_valid_filename f = if strlen f == 0 then false else elim (strchr f b'.') [
  | some dot ↦
      if dot == 0 || ltb 8 dot
      then false
      else if ltb 3 (strlen (drop (suc dot) f))
      then false
      else true
  | none ↦ if ltb 8 (strlen f) then false else true
]

-- `validate_path`
unfoldable pub validate_path : List ℕ → Status
validate_path path =
    if strlen path == 0
    then invalid_path
    else if is_zero (strcmp path (b'.' ∷ b'.' ∷ []))
        || is_zero (strcmp path (b'.' ∷ []))
        || is_zero (strcmp path (b'/' ∷ []))
    then success
    else if not (deref path == b'/')
    then invalid_path
    else if strlen (next path) == 0
    then invalid_path
    else if not (is_valid_filename (next path))
    then invalid_path
    else success
