-- ===== src/Fs/Names/Fields.antt =====
-- `convert_filename` fills both fields.
use pxos.Base.{
  ℕ, suc, ◌≡◌, ◌≤◌, ◌∙◌, arith, Option, none, some, List, [], ◌∷◌, map, length, length-append,
  length-take, length-drop, length-replicate, length-map, take, drop, replicate,
}
use pxos.Str.{strlen, strchr, memcpy, text}
use pxos.Str.Search.{strlen-text, strchr-FirstAt, FirstAt}
use pxos.Fs.Names.{upper, clamp, blank_padded, convert_at, convert_filename}

length-text-le : (s : List ℕ) → length (text s) ≤ length s
length-text-le [] = omega arith
length-text-le (c ∷ s) = ground (arith, length-text-le s)

length-blank_padded :
    (k : ℕ) (src : List ℕ) (n : ℕ) → n ≤ k → n ≤ length src → length (blank_padded k src n) ≡ k
unfolding blank_padded memcpy
length-blank_padded k src n hk hs = omega (
  arith,
  length-append (take n src) (drop n (replicate k b' ')),
  length-take n src,
  length-drop {A = ℕ} n (replicate k b' '),
  length-replicate {A = ℕ} k b' ',
)

length-field :
    (k : ℕ) (src : List ℕ) (n : ℕ)
    → n ≤ length src
    → length (map upper (blank_padded k src (clamp k n))) ≡ k
length-field k src n h =
    length-map (blank_padded k src (clamp k n)) upper
    ∙ length-blank_padded k src (clamp k n) (ground arith) (ground arith)

length-convert_at :
    (f : List ℕ) (o : Option ℕ)
    → FirstAt (text f) b'.' o
    → (length (convert_at f o).0 ≡ 8) × (length (convert_at f o).1 ≡ 3)
unfolding convert_at
length-convert_at f none h = (
  length-field 8 f (strlen f) (omega (arith, strlen-text f, length-text-le f)),
  length-map {A = ℕ} (replicate 3 b' ') upper ∙ length-replicate {A = ℕ} 3 b' ',
)
length-convert_at f (some dot) h = (
  length-field 8 f dot (omega (arith, h.0, length-text-le f)),
  length-field 3 (drop (suc dot) f) (strlen (drop (suc dot) f))
      (omega (arith, strlen-text (drop (suc dot) f), length-text-le (drop (suc dot) f))),
)

-- The name field has 8 bytes and the extension 3, whatever the name.
pub length-convert_filename :
    (f : List ℕ) → (length (convert_filename f).0 ≡ 8) × (length (convert_filename f).1 ≡ 3)
unfolding convert_filename
length-convert_filename f =
    length-convert_at f (strchr f b'.') (strchr-FirstAt f b'.' (omega arith))
