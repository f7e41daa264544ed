-- ===== src/MultiNode/Files/SubDir.antt =====
-- When a path is inside a directory, and which path `isSubDir` finds there.
use aegis_mirror.Base.{
  ◌≡◌, refl, sym, ◌≢◌, ◌&&◌, Bool, true, false, not, List, [], ◌∷◌, ◌++◌, arith, Bool-cases, inl,
  inr,
}
use mathlib.Core.Bool.{false≢true}
use aegis_mirror.Base.Text.{Text, codes, text_eq, text_eq_iff, has_prefix}
use aegis_mirror.Base.Paths.{dot_dot, steps_up, rel_elems, rel_text}
use aegis_mirror.MultiNode.Files.{is_inside}

-- Does the first element begin with two dots?
abbrev pub dotted : List Text → Bool
dotted [] = false
dotted (e ∷ es) = has_prefix e dot_dot

dotted-rel_text : (es : List Text) → has_prefix (rel_text es) dot_dot ≡ dotted es
unfolding has_prefix rel_text
dotted-rel_text [] = refl
dotted-rel_text (e ∷ []) = refl
dotted-rel_text ([] ∷ f ∷ es) = refl
dotted-rel_text ((a ∷ []) ∷ f ∷ es) = ground arith
dotted-rel_text ((a ∷ b ∷ e) ∷ f ∷ es) = refl

-- The elements' text is no absolute path: the first element is not empty and begins with no slash,
-- as in every cleaned path.
abbrev pub IsRelative : List Text → Type 0
IsRelative [] = Unit
IsRelative (e ∷ es) = (e ≢ []) × (has_prefix e (codes "/") ≡ false)

relative-rel_text : (es : List Text) → IsRelative es → has_prefix (rel_text es) (codes "/") ≡ false
unfolding has_prefix rel_text
relative-rel_text [] h = refl
relative-rel_text ([] ∷ es) (ne, h) = absurd (ne refl)
relative-rel_text ((a ∷ e) ∷ []) (ne, h) = h
relative-rel_text ((a ∷ e) ∷ f ∷ es) (ne, h) = h

and_true : (b : Bool) → (b && true) ≡ b
and_true true = refl
and_true false = refl

is_inside-dotted :
    (dst src : List Text) → is_inside dst src ≡ true → dotted (rel_elems dst src) ≡ false
unfolding is_inside
is_inside-dotted dst src h = ground (arith, dotted-rel_text (rel_elems dst src))

rel_elems-append : (dst rest : List Text) → rel_elems dst (dst ++ rest) ≡ rest
unfolding rel_elems
rel_elems-append [] rest = refl
rel_elems-append (d ∷ dst) rest = rw (((text_eq_iff d d).1 refl), rel_elems-append dst rest)

-- A path below a directory is found inside it exactly if the first element below the directory does
-- not begin with two dots: a file `..name` of the directory itself is not found. The elements are
-- those of a cleaned path: the first one below is not empty and begins with no slash.
pub is_inside-append :
    (dst rest : List Text) → IsRelative rest → is_inside dst (dst ++ rest) ≡ not (dotted rest)
unfolding is_inside
is_inside-append dst rest h =
    rw (rel_elems-append dst rest, relative-rel_text rest h, dotted-rel_text rest)
      (and_true (not (dotted rest)))

below_of_rel :
    (dst src : List Text)
    → dotted (rel_elems dst src) ≡ false
    → (rest : List Text) × (src ≡ dst ++ rest) × (dotted rest ≡ false)
unfolding rel_elems
below_of_rel [] src h = (src, refl, h)
below_of_rel (d ∷ dst) [] h = unfold has_prefix steps_up in cc
below_of_rel (d ∷ dst) (s ∷ src) h = elim (Bool-cases (text_eq d s)) [
  | inl same ↦
      let (rest, e, k) = below_of_rel dst src (rw same at h) in
      (rest, cc ((text_eq_iff d s).0 same), k)
  | inr other ↦ absurd (unfold has_prefix steps_up in false≢true (sym (rw other at h)))
]

-- A path that is found inside a directory is below it.
pub below_of_is_inside :
    (dst src : List Text)
    → is_inside dst src ≡ true
    → (rest : List Text) × (src ≡ dst ++ rest) × (dotted rest ≡ false)
below_of_is_inside dst src h = below_of_rel dst src (is_inside-dotted dst src h)
