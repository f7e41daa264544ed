-- ===== src/Base/Paths.antt =====
-- What the code uses of Go's `path/filepath`, on Unix. A path is kept in its cleaned form, which is
-- what `filepath.Join` and `filepath.Abs` return: is it rooted, and its elements in order.
pub mod Names
use mathlib.Core.List.{List, [], ◌∷◌, ◌++◌, reverse}
use mathlib.Core.Bool.{Bool, ◌||◌}
use native.Mathlib.Decide.{ℕ_discrete}
use aegis_mirror.Base.Tests.{if◌then◌else◌}
use aegis_mirror.Base.Text.{Text, codes, text_eq, split, join, has_prefix}

pub record FilePath : Type 0 where
  pub rooted : Bool
  pub elems : List Text

abbrev pub dot_dot : Text
dot_dot = codes ".."

-- An element `..` takes the last element away, but for another `..`; `top` is the elements so far,
-- the last one first.
abbrev ascend : Bool → List Text → List Text
ascend rooted [] = if rooted then [] else dot_dot ∷ []
ascend rooted (e ∷ top) = if text_eq e dot_dot then dot_dot ∷ e ∷ top else top

-- `filepath.Clean`, on the elements between slashes.
unfoldable pub clean_onto : Bool → List Text → List Text → List Text
unfolding text_eq
clean_onto rooted top [] = reverse top
clean_onto rooted top (e ∷ es) =
    clean_onto rooted
      (if text_eq e [] || text_eq e (codes ".")
        then top
        else if text_eq e dot_dot
        then ascend rooted top
        else e ∷ top)
      es

unfoldable pub clean : Text → FilePath
unfolding clean_onto split has_prefix
clean s =
    let r = has_prefix s (codes "/") in
    record { rooted = r; elems = clean_onto r [] (split b'/' s) }

-- `filepath.Join(p, name)`
unfoldable pub join_path : FilePath → Text → FilePath
unfolding clean_onto split
join_path p name = record p { elems = clean_onto p.rooted (reverse p.elems) (split b'/' name) }

-- `filepath.Abs(p)` in the working directory `cwd`.
unfoldable pub abs_path : FilePath → FilePath → FilePath
unfolding clean_onto
abs_path cwd p =
    if p.rooted then p else record cwd { elems = clean_onto cwd.rooted (reverse cwd.elems) p.elems }

-- `..` for each element.
unfoldable pub steps_up : List Text → List Text
steps_up [] = []
steps_up (e ∷ es) = dot_dot ∷ steps_up es

-- The elements of `filepath.Rel(base, target)` where both are rooted: the common elements are
-- dropped, and each element left of `base` is a step up.
unfoldable pub rel_elems : List Text → List Text → List Text
unfolding text_eq steps_up
rel_elems [] target = target
rel_elems (b ∷ base) [] = steps_up (b ∷ base)
rel_elems (b ∷ base) (t ∷ target) =
    let inner = rel_elems base target in
    if text_eq b t then inner else steps_up (b ∷ base) ++ t ∷ target

-- The text of `filepath.Rel`'s result.
unfoldable pub rel_text : List Text → Text
unfolding join
rel_text [] = codes "."
rel_text (e ∷ es) = join b'/' (e ∷ es)

abbrev pub last_or : Text → List Text → Text
last_or d [] = d
last_or d (e ∷ es) = last_or e es

-- `filepath.Base(p)`
unfoldable pub base_name : FilePath → Text
base_name p = last_or (if p.rooted then codes "/" else codes ".") p.elems

pub FilePath-discrete : Discrete FilePath
FilePath-discrete = hlevel ℕ_discrete

pub elems-discrete : Discrete (List Text)
elems-discrete = hlevel ℕ_discrete
