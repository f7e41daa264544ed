-- ===== src/MultiNode/Init/Copying.antt =====
-- The copies of the transactions end without an error where the calls of the system succeed.
use aegis_mirror.Base.{
  ℕ, zero, suc, ◌<◌, List, [], ◌∷◌, length, get_elem?-some, Bool-cases, inl, inr,
}
use aegis_mirror.Base.Text.{Text}
use aegis_mirror.Base.Effect.{
  Result, ok, err, panic, exit, Call, tried, index, for_each, Fine, Returns-then,
}
use aegis_mirror.Base.Paths.{FilePath}
use aegis_mirror.MultiNode.Sdk.{Os}
use aegis_mirror.MultiNode.Files.{
  deferred_close, closing, transfer, copy_into, copy_file, absolute, is_sub_dir,
}
use aegis_mirror.MultiNode.Init.Node.{gentxs_dir}
use aegis_mirror.MultiNode.Init.Copies.{skips, copy_gentx, copy_gentxs}

module _ {World : Type 0} (E : Type 0) where
  pub index-Fine :
      {A : Type 0} (xs : List A) (i : ℕ) (w : World) → i < length xs → Fine E (index xs i w)
  index-Fine xs i w h = let (a, e) = get_elem?-some xs i h in rw e tt

  -- A loop whose rounds succeed.
  for_each-Fine :
      {A : Type 0} (body : A → Call World (Unit {0})) (xs : List A) (w : World)
      → ((a : A) (w' : World) → Fine E (body a w'))
      → Fine E (for_each body xs w)
  unfolding for_each
  for_each-Fine body [] w h = tt
  for_each-Fine body (x ∷ xs) w h =
      Returns-then E (λ _. for_each body xs) (body x w) (λ _ _. Unit) (h x w)
        λ _ w'. for_each-Fine body xs w' h

-- The calls of the operating system that the copies make.
module _ {World : Type 0} (O : Os World) (E : Type 0) where
  pub record Copies : Type 0 where
    pub getwd : (w : World) → Fine E (O.getwd w)
    pub open_file : (p : FilePath) (w : World) → Fine E (O.open_file p w)
    pub create_file : (p : FilePath) (w : World) → Fine E (O.create_file p w)
    pub copy_content : (d s : O.File) (w : World) → Fine E (O.copy_content d s w)
    pub sync_file : (f : O.File) (w : World) → Fine E (O.sync_file f w)

  closing-Fine :
      {A : Type 0} (f : O.File) (r : Result A × World) → Fine E r → Fine E (closing O f r)
  closing-Fine f (ok a, w) h = tt
  closing-Fine f (err e, w) h = h
  closing-Fine f (panic e, w) h = h
  closing-Fine f (exit n, w) h = h

  tried-Fine : {A : Type 0} (r : Result A × World) → Fine E r → Fine E (tried r)
  tried-Fine (ok a, w) h = tt
  tried-Fine (err e, w) h = tt
  tried-Fine (panic e, w) h = h
  tried-Fine (exit n, w) h = h

  module _ (L : Copies) where
    copy_file-Fine : (src dst : FilePath) (w : World) → Fine E (copy_file O src dst w)
    unfolding copy_file deferred_close copy_into transfer
    copy_file-Fine src dst w =
        Returns-then E _ (O.open_file src w) (λ _ _. Unit) (L.open_file src w)
          λ s w1. closing-Fine s _ (
            Returns-then E _ (O.create_file _ w1) (λ _ _. Unit) (L.create_file _ w1)
              λ d w2. closing-Fine d _ (
                Returns-then E _ (O.copy_content d s w2) (λ _ _. Unit) (L.copy_content d s w2)
                  λ n w3.
                    Returns-then E _ (O.sync_file d w3) (λ _ _. Unit) (L.sync_file d w3)
                      λ _ w4. tt))

    absolute-Fine : (p : FilePath) (w : World) → Fine E (absolute O p w)
    unfolding absolute
    absolute-Fine p w = elim (Bool-cases p.rooted) [
      | inl e ↦ rw (absolute, e) tt
      | inr e ↦ rw (absolute, e) (Returns-then E _ (O.getwd w) (λ _ _. Unit) (L.getwd w) λ c w1. tt)
    ]

    is_sub_dir-Fine : (src dst : FilePath) (w : World) → Fine E (is_sub_dir O src dst w)
    unfolding is_sub_dir
    is_sub_dir-Fine src dst w =
        Returns-then E _ (absolute O src w) (λ _ _. Unit) (absolute-Fine src w)
          λ a w1.
            Returns-then E _ (absolute O dst w1) (λ _ _. Unit) (absolute-Fine dst w1) λ b w2. tt

    copy_gentx-Fine : (dir file : FilePath) (w : World) → Fine E (copy_gentx O dir file w)
    unfolding copy_gentx
    copy_gentx-Fine dir file w =
        Returns-then E _ (tried (is_sub_dir O file dir w)) (λ _ _. Unit)
          (tried-Fine (is_sub_dir O file dir w) (is_sub_dir-Fine file dir w))
          λ r w1. elim (Bool-cases (skips r)) [
            | inl e ↦ rw e tt
            | inr e ↦ rw e (
                Returns-then E _ (copy_file O file dir w1) (λ _ _. Unit)
                  (copy_file-Fine file dir w1) λ _ w2. tt)
          ]

    pub copy_gentxs-Fine :
        (output_dir prefix : Text) (files : List FilePath) (left i : ℕ) (w : World)
        → Fine E (copy_gentxs O output_dir prefix files left i w)
    unfolding copy_gentxs
    copy_gentxs-Fine output_dir prefix files zero i w = tt
    copy_gentxs-Fine output_dir prefix files (suc left) i w =
        let dir = gentxs_dir output_dir prefix i in
        Returns-then E _ (for_each (copy_gentx O dir) files w) (λ _ _. Unit)
          (for_each-Fine E (copy_gentx O dir) files w (copy_gentx-Fine dir))
          λ _ w1. copy_gentxs-Fine output_dir prefix files left (suc i) w1
