-- ===== src/Fs/Names/RoundTrip.antt =====
-- A name in 8.3 form is converted back to the name in upper case.
use pxos.Base.{
  ℕ, zero, suc, ◌≡◌, ◌≢◌, ◌≤◌, refl, sym, ap, ap₂, ◌∙◌, arith, none, some, List, [], ◌∷◌, ◌++◌, map,
  length, take, drop, replicate,
}
use mathlib.Core.List.{append-nil, map-append}
use pxos.Str.{deref, strlen, strchr, memcpy, text}
use pxos.Str.Search.{strlen-text, Lacks}
use pxos.Fs.Names.{
  upper, clamp, blank_padded, convert_at, convert_filename, field_text, convert_filename_back,
}

upper-ne-blank : (c : ℕ) → c ≢ b' ' → upper c ≢ b' '
unfolding upper
upper-ne-blank c h = ground arith

text-Lacks : (s : List ℕ) → Lacks 0 s → text s ≡ s
text-Lacks [] h = refl
text-Lacks (c ∷ s) h = ground (arith, text-Lacks s h.1)

strlen-Lacks : (s : List ℕ) → Lacks 0 s → strlen s ≡ length s
strlen-Lacks s h = strlen-text s ∙ ap length (text-Lacks s h)

strchr-append :
    (n e : List ℕ) (ch : ℕ)
    → ch ≢ 0
    → Lacks 0 n
    → Lacks ch n
    → strchr (n ++ ch ∷ e) ch ≡ some (length n)
unfolding strchr
strchr-append [] e ch h z l = ground arith
strchr-append (c ∷ n) e ch h z l = ground (arith, strchr-append n e ch h z.1 l.1)

strchr-none : (n : List ℕ) (ch : ℕ) → ch ≢ 0 → Lacks 0 n → Lacks ch n → strchr n ch ≡ none
unfolding strchr
strchr-none [] ch h z l = ground arith
strchr-none (c ∷ n) ch h z l = ground (arith, strchr-none n ch h z.1 l.1)

take_prefix : (n r : List ℕ) → take (length n) (n ++ r) ≡ n
take_prefix [] r = refl
take_prefix (c ∷ n) r = ap (◌∷◌ c) (take_prefix n r)

drop_prefix : (n e : List ℕ) (c : ℕ) → drop (suc (length n)) (n ++ c ∷ e) ≡ e
drop_prefix [] e c = refl
drop_prefix (d ∷ n) e c = drop_prefix n e c

field_text-blank : (n : ℕ) → field_text n (map upper (replicate n b' ')) ≡ []
unfolding field_text upper
field_text-blank zero = refl
field_text-blank (suc n) = refl

-- Reading a field that a shorter name was written to.
field_text-padded :
    (k : ℕ) (x : List ℕ)
    → length x ≤ k
    → Lacks b' ' x
    → field_text k (map upper (x ++ drop (length x) (replicate k b' '))) ≡ map upper x
unfolding field_text
field_text-padded k [] h l = field_text-blank k
field_text-padded zero (c ∷ x) h l = absurd (omega arith)
field_text-padded (suc k) (c ∷ x) h l =
    ground (arith, upper-ne-blank c l.0, field_text-padded k x (omega arith) l.1)

-- A part of a name in 8.3 form: at most `k` bytes, none of them NUL, a blank or a dot.
pub record IsPart (k : ℕ) (x : List ℕ) : Type 0 where
  pub short : length x ≤ k
  pub no_nul : Lacks 0 x
  pub no_blank : Lacks b' ' x
  pub no_dot : Lacks b'.' x

blank_padded-clamp :
    (k : ℕ) (x r : List ℕ)
    → IsPart k x
    → map upper (blank_padded k (x ++ r) (clamp k (length x)))
      ≡ map upper (x ++ drop (length x) (replicate k b' '))
unfolding blank_padded memcpy
blank_padded-clamp k x r p = rw (clamp_le, take_prefix x r)
  where
    clamp_le : clamp k (length x) ≡ length x
    clamp_le = ground (arith, p.short)

field_text-blank_padded :
    (k : ℕ) (x r : List ℕ)
    → IsPart k x
    → field_text k (map upper (blank_padded k (x ++ r) (clamp k (length x)))) ≡ map upper x
field_text-blank_padded k x r p =
    ap (field_text k) (blank_padded-clamp k x r p) ∙ field_text-padded k x p.short p.no_blank

convert_filename-dot :
    (n e : List ℕ)
    → IsPart 8 n
    → Lacks 0 e
    → convert_filename (n ++ b'.' ∷ e) ≡ (
      map upper (blank_padded 8 (n ++ b'.' ∷ e) (clamp 8 (length n))),
      map upper (blank_padded 3 e (clamp 3 (length e))),
    )
unfolding convert_filename convert_at
convert_filename-dot n e p z =
    rw (
      strchr-append n e b'.' (omega arith) p.no_nul p.no_dot,
      drop_prefix n e b'.',
      strlen-Lacks e z,
    )

convert_filename-plain :
    (n : List ℕ)
    → IsPart 8 n
    → convert_filename n
      ≡ (map upper (blank_padded 8 n (clamp 8 (length n))), map upper (replicate 3 b' '))
unfolding convert_filename convert_at
convert_filename-plain n p =
    rw (strchr-none n b'.' (omega arith) p.no_nul p.no_dot, strlen-Lacks n p.no_nul)

convert_filename_back-dot :
    (name ext : List ℕ)
    → deref ext ≢ b' '
    → convert_filename_back name ext ≡ field_text 8 name ++ b'.' ∷ field_text 3 ext
unfolding convert_filename_back
convert_filename_back-dot name ext h = ground arith

convert_filename_back-plain :
    (name ext : List ℕ) → deref ext ≡ b' ' → convert_filename_back name ext ≡ field_text 8 name
unfolding convert_filename_back
convert_filename_back-plain name ext h = ground (arith, append-nil (field_text 8 name))

deref-blank_padded :
    (e : List ℕ)
    → IsPart 3 e
    → e ≢ []
    → deref (map upper (blank_padded 3 e (clamp 3 (length e)))) ≢ b' '
unfolding blank_padded memcpy
deref-blank_padded [] q ne = absurd (ne refl)
deref-blank_padded (c ∷ e) q ne = ground (arith, upper-ne-blank c q.no_blank.0, q.short)

blank_ext-blank : deref (map upper (replicate 3 b' ')) ≡ b' '
unfolding upper
blank_ext-blank = refl

-- A name `n.e` with `n` of at most 8 bytes, `e` of 1 to 3, and no NUL, blank or dot in either,
-- becomes itself in upper case by `convert_filename` and `convert_filename_back`; so does a name of
-- at most 8 such bytes with no dot.
pub convert_filename_back-convert_filename :
    (n e : List ℕ)
    → IsPart 8 n
    → IsPart 3 e
    → e ≢ []
    → (let (name, ext) = convert_filename (n ++ b'.' ∷ e) in
        convert_filename_back name ext ≡ map upper (n ++ b'.' ∷ e))
      × (let (name, ext) = convert_filename n in convert_filename_back name ext ≡ map upper n)
unfolding upper
convert_filename_back-convert_filename n e p q ne = (
  rw (convert_filename-dot n e p q.no_nul) (
      convert_filename_back-dot _ _ (deref-blank_padded e q ne)
      ∙ ap₂ (λ x y. x ++ b'.' ∷ y) (field_text-blank_padded 8 n (b'.' ∷ e) p)
          (ap (λ r. field_text 3 (map upper (blank_padded 3 r (clamp 3 (length e)))))
              (sym (append-nil e))
            ∙ field_text-blank_padded 3 e [] q)
      ∙ sym (map-append upper n (b'.' ∷ e))),
  rw (convert_filename-plain n p) (
      convert_filename_back-plain _ _ blank_ext-blank
      ∙ ap (λ r. field_text 8 (map upper (blank_padded 8 r (clamp 8 (length n)))))
          (sym (append-nil n))
      ∙ field_text-blank_padded 8 n [] p),
)
