-- ===== src/Str.antt =====
-- lib/string.c. A `char*` is the list of the bytes from it on; the string ends at the first 0, and
-- past the list there is a 0. Bytes are numbers below 256.
pub mod Compare
pub mod Search
pub mod Numbers
mod Tests
use pxos.Base.{
  ℕ, zero, suc, ◌+◌, ◌-◌, ◌≤◌, Bool, true, false, not, ◌&&◌, ◌||◌, Option, none, some, List, [],
  ◌∷◌, ◌++◌, length, take, drop, replicate, ltb, leb, ◌==◌, if◌then◌else◌,
}
use pxos.Base.Int.{ℤ, pos, negsuc, sub_ℕ}

-- `*s` and `s + 1`
abbrev pub deref : List ℕ → ℕ
deref [] = 0
deref (c ∷ s) = c

abbrev pub next : List ℕ → List ℕ
next [] = []
next (c ∷ s) = s

-- `strlen`
unfoldable pub strlen : List ℕ → ℕ
strlen [] = 0
strlen (c ∷ s) = if c == 0 then 0 else suc (strlen s)

-- `strcmp`
unfoldable pub strcmp : List ℕ → List ℕ → ℤ
strcmp [] t = sub_ℕ 0 (deref t)
strcmp (c ∷ s) t = if not (c == 0) && c == deref t then strcmp s (next t) else sub_ℕ c (deref t)

-- The fold to lower case in `strcasecmp`.
unfoldable pub lower : ℕ → ℕ
lower c = if leb b'A' c && leb c b'Z' then c - b'A' + b'a' else c

-- `c1 - c2` of two values of type `char`, which is signed: a byte from 128 on stands for 256 less.
unfoldable pub char_diff : ℕ → ℕ → ℤ
char_diff a b = sub_ℕ (a + (if leb 128 b then 256 else 0)) (b + (if leb 128 a then 256 else 0))

-- `strcasecmp`
unfoldable pub strcasecmp : List ℕ → List ℕ → ℤ
strcasecmp [] t = sub_ℕ 0 (deref t)
strcasecmp (c ∷ s) t =
    if not (c == 0) && not (deref t == 0)
    then (if not (lower c == lower (deref t))
        then char_diff (lower c) (lower (deref t))
        else strcasecmp s (next t))
    else sub_ℕ c (deref t)

-- `memcmp` on the first `n` bytes.
unfoldable pub memcmp : List ℕ → List ℕ → ℕ → ℤ
memcmp p q zero = pos 0
memcmp p q (suc n) =
    let rest = memcmp (next p) (next q) n in
    if ltb (deref p) (deref q) then negsuc 0 else if ltb (deref q) (deref p) then pos 1 else rest

-- An offset from `s + 1` as one from `s`.
abbrev pub one_on : Option ℕ → Option ℕ
one_on none = none
one_on (some i) = some (suc i)

-- `strchr`, as the offset of the pointer that it returns; `none` is NULL.
unfoldable pub strchr : List ℕ → ℕ → Option ℕ
strchr [] ch = if ch == 0 then some 0 else none
strchr (c ∷ s) ch =
    if c == 0
    then (if ch == 0 then some 0 else none)
    else if c == ch
    then some 0
    else one_on (strchr s ch)

-- `strrchr` of a character other than NUL, as an offset: the last match so far is kept in `last`.
unfoldable pub strrchr_from : List ℕ → ℕ → ℕ → Option ℕ → Option ℕ
strrchr_from [] ch i last = last
strrchr_from (c ∷ s) ch i last =
    let rest = strrchr_from s ch (i + 1) (if c == ch then some i else last) in
    if c == 0 then last else rest

-- `strrchr`: a search for NUL gives the end of the string.
unfoldable pub strrchr : List ℕ → ℕ → Option ℕ
strrchr s ch = if ch == 0 then some (strlen s) else strrchr_from s ch 0 none

-- `memcpy(dest, src, n)`, where both hold `n` bytes.
unfoldable pub memcpy : List ℕ → List ℕ → ℕ → List ℕ
memcpy dest src n = take n src ++ drop n dest

-- `memset(ptr, value, n)`, where `ptr` holds `n` bytes.
unfoldable pub memset : List ℕ → ℕ → ℕ → List ℕ
memset p v n = replicate n v ++ drop n p

-- The string proper: the bytes before the first 0.
abbrev pub text : List ℕ → List ℕ
text [] = []
text (c ∷ s) = if c == 0 then [] else c ∷ text s

-- `strcpy(dest, src)`: the string and its NUL, then what `dest` held.
unfoldable pub strcpy : List ℕ → List ℕ → List ℕ
strcpy dest src = text src ++ 0 ∷ drop (suc (length (text src))) dest

-- The two loops of `strncpy`: the bytes of `src` up to its NUL or `n`, and NULs up to `n`.
unfoldable pub strncpy_bytes : List ℕ → ℕ → List ℕ
strncpy_bytes src zero = []
strncpy_bytes [] (suc n) = 0 ∷ strncpy_bytes [] n
strncpy_bytes (c ∷ s) (suc n) = c ∷ strncpy_bytes (if c == 0 then [] else s) n

-- `strncpy(dest, src, n)`, where `dest` holds `n` bytes.
unfoldable pub strncpy : List ℕ → List ℕ → ℕ → List ℕ
strncpy dest src n = strncpy_bytes src n ++ drop n dest

-- `strcat(dest, src)`
unfoldable pub strcat : List ℕ → List ℕ → List ℕ
strcat dest src = text dest ++ strcpy (drop (length (text dest)) dest) src
