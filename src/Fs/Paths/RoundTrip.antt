-- ===== src/Fs/Paths/RoundTrip.antt =====
-- A path that `join_path` builds is taken apart again by `parse_path`.
use pxos.Base.{
  ℕ, suc, ◌+◌, ◌-◌, ◌≡◌, ◌≢◌, ◌<◌, refl, ap, ap₂, ◌∙◌, arith, Option, none, some, List, [], ◌∷◌,
  ◌++◌, length, take, drop, get_or,
}
use pxos.Str.{strlen, strrchr, strrchr_from, text}
use pxos.Str.Search.{Lacks, strlen-text}
use pxos.Fs.Paths.{parse_at, parse_path, join_path}

text-Lacks : (s : List ℕ) → Lacks 0 s → text s ≡ s
text-Lacks [] l = refl
text-Lacks (c ∷ s) l = ground (arith, text-Lacks s l.1)

strlen-Lacks : (s : List ℕ) → Lacks 0 s → strlen s ≡ length s
strlen-Lacks s l = strlen-text s ∙ ap length (text-Lacks s l)

strrchr_from_rest :
    (s : List ℕ) (ch i : ℕ) (last : Option ℕ) → Lacks ch s → strrchr_from s ch i last ≡ last
unfolding strrchr_from
strrchr_from_rest [] ch i last l = refl
strrchr_from_rest (c ∷ s) ch i last l = ground (arith, strrchr_from_rest s ch (i + 1) last l.1)

-- The last place of a character that the rest of the string lacks.
strrchr_from_last :
    (x y : List ℕ) (ch i : ℕ) (last : Option ℕ)
    → ch ≢ 0
    → Lacks 0 x
    → Lacks ch y
    → strrchr_from (x ++ ch ∷ y) ch i last ≡ some (i + length x)
unfolding strrchr_from
strrchr_from_last [] y ch i last h lx ly =
    ground (arith, strrchr_from_rest y ch (i + 1) (some i) ly)
strrchr_from_last (c ∷ x) y ch i last h lx ly = ground (
  arith,
  strrchr_from_last x y ch (i + 1) last h lx.1 ly,
  strrchr_from_last x y ch (i + 1) (some i) h lx.1 ly,
)

take_front : (x y : List ℕ) → take (length x) (x ++ y) ≡ x
take_front [] y = refl
take_front (c ∷ x) y = ap (◌∷◌ c) (take_front x y)

drop_front : (x y : List ℕ) (c : ℕ) → drop (suc (length x)) (x ++ c ∷ y) ≡ y
drop_front [] y c = refl
drop_front (d ∷ x) y c = drop_front x y c

parse_at_found :
    (path : List ℕ) (i : ℕ)
    → i < 256
    → parse_at path (some i) ≡ some (take i path, text (drop (suc i) path))
unfolding parse_at
parse_at_found path i lt = ground arith

parse_slash :
    (x y : List ℕ)
    → Lacks 0 x
    → Lacks 0 y
    → Lacks b'/' y
    → length x < 256
    → parse_path (x ++ b'/' ∷ y) ≡ some (x, y)
unfolding parse_path strrchr
parse_slash x y zx zy sy lt =
    ap (parse_at (x ++ b'/' ∷ y))
      (strrchr_from_last x y b'/' 0 none (omega arith) zx sy ∙ ap some (omega arith))
    ∙ parse_at_found (x ++ b'/' ∷ y) (length x) lt
    ∙ ap₂ (λ d f. some (d, f)) (take_front x (b'/' ∷ y))
        (ap text (drop_front x y b'/') ∙ text-Lacks y zy)

join_slash :
    (dir filename : List ℕ)
    → Lacks 0 dir
    → Lacks 0 filename
    → 0 < length dir
    → get_or dir (length dir - 1) 0 ≢ b'/'
    → join_path dir filename ≡ dir ++ b'/' ∷ filename
unfolding join_path
join_slash dir filename zd zf pos ne =
    rw (text-Lacks dir zd, text-Lacks filename zf, strlen-Lacks dir zd) (ground arith)

join_root :
    (filename : List ℕ) → Lacks 0 filename → join_path (b'/' ∷ []) filename ≡ b'/' ∷ filename
unfolding join_path strlen
join_root filename zf = rw (text-Lacks filename zf) refl

-- For a directory of 1 to 255 bytes that does not end in `/`, and a file name without `/`, neither
-- with a NUL, `parse_path` takes the path that `join_path` builds apart into the two again. For the
-- root directory the directory that it finds is the empty string in place of `/`.
pub parse_path-join_path :
    (dir filename : List ℕ)
    → Lacks 0 dir
    → Lacks 0 filename
    → Lacks b'/' filename
    → 0 < length dir
    → length dir < 256
    → get_or dir (length dir - 1) 0 ≢ b'/'
    → (parse_path (join_path dir filename) ≡ some (dir, filename))
      × (parse_path (join_path (b'/' ∷ []) filename) ≡ some ([], filename))
parse_path-join_path dir filename zd zf sf pos lt ne = (
  ap parse_path (join_slash dir filename zd zf pos ne) ∙ parse_slash dir filename zd zf sf lt,
  ap parse_path (join_root filename zf) ∙ parse_slash [] filename tt zf sf (omega arith),
)
