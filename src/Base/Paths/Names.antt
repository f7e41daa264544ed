-- ===== src/Base/Paths/Names.antt =====
-- Paths with one name more.
use mathlib.Core.List.{List, [], ◌∷◌, ◌++◌, reverse, reverse-cons, reverse-reverse}
use mathlib.Core.Bool.{Bool, true, false, ◌||◌}
use mathlib.Core.Path.{◌≡◌, refl, ap, ◌∙◌}
use mathlib.Core.Logic.{inl, inr}
use native.Mathlib.Omega.{arith}
use aegis_mirror.Base.Tests.{if◌then◌else◌, Bool-cases}
use aegis_mirror.Base.Text.{Text, codes, split, text_eq, has_prefix, Lacks, split_single}
use aegis_mirror.Base.Paths.{
  FilePath, dot_dot, ascend, clean_onto, join_path, abs_path, last_or, base_name,
}

-- A name that `filepath.Join` and `filepath.Clean` leave as it is, and that does not begin with two
-- dots.
pub record IsName (n : Text) : Type 0 where
  pub filled : text_eq n [] ≡ false
  pub not_here : text_eq n (codes ".") ≡ false
  pub undotted : has_prefix n dot_dot ≡ false
  pub slashless : Lacks b'/' n

not_up : (n : Text) → has_prefix n dot_dot ≡ false → text_eq n dot_dot ≡ false
unfolding text_eq has_prefix
not_up [] h = refl
not_up (a ∷ []) h = ground arith
not_up (a ∷ b ∷ n) h = ground arith

clean_onto-append :
    (r : Bool) (top es : List Text) (n : Text)
    → IsName n
    → clean_onto r top (es ++ n ∷ []) ≡ clean_onto r top es ++ n ∷ []
unfolding clean_onto
clean_onto-append r top [] n h = rw (h.filled, h.not_here, not_up n h.undotted) (reverse-cons n top)
clean_onto-append r top (e ∷ es) n h =
    clean_onto-append r
      (if text_eq e [] || text_eq e (codes ".")
        then top
        else if text_eq e dot_dot
        then ascend r top
        else e ∷ top)
      es n h

clean_onto-name :
    (r : Bool) (es : List Text) (n : Text)
    → IsName n
    → clean_onto r (reverse es) (split b'/' n) ≡ es ++ n ∷ []
unfolding clean_onto
clean_onto-name r es n h =
    rw (split_single b'/' n h.slashless)
      (clean_onto-append r (reverse es) [] n h ∙ ap (λ es. es ++ n ∷ []) (reverse-reverse es))

pub join_path-name :
    (p : FilePath) (n : Text) → IsName n → (join_path p n).elems ≡ p.elems ++ n ∷ []
unfolding join_path
join_path-name p n h = clean_onto-name p.rooted p.elems n h

pub last_or-append : (d : Text) (es : List Text) (n : Text) → last_or d (es ++ n ∷ []) ≡ n
last_or-append d [] n = refl
last_or-append d (e ∷ es) n = last_or-append e es n

pub base_name-join_path : (p : FilePath) (n : Text) → IsName n → base_name (join_path p n) ≡ n
unfolding base_name
base_name-join_path p n h = rw (join_path-name p n h) (last_or-append _ p.elems n)

-- The absolute path of a name below a directory.
pub abs_path-join_path :
    (cwd p : FilePath) (n : Text)
    → IsName n
    → (abs_path cwd (join_path p n)).elems ≡ (abs_path cwd p).elems ++ n ∷ []
unfolding abs_path
abs_path-join_path cwd p n h = elim (Bool-cases p.rooted) [
  | inl e ↦ unfold join_path in rw e (clean_onto-name true p.elems n h)
  | inr e ↦
      unfold join_path in
      rw e (
        ap (clean_onto cwd.rooted (reverse cwd.elems)) (clean_onto-name false p.elems n h)
        ∙ clean_onto-append cwd.rooted (reverse cwd.elems) p.elems n h)
]
