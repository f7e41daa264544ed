-- ===== src/MultiNode/Files/Contents.antt =====
-- The contents of the files, and what `copyFile` does to them.
use aegis_mirror.Base.{◌≡◌, ◌≢◌, refl, ap, ◌∙◌, Bool, Bool-cases, inl, inr, Option, List}
use aegis_mirror.Base.Text.{Text}
use aegis_mirror.Base.Effect.{Result, ok, err, panic, exit, tried, Returns, Returns-follow}
use aegis_mirror.Base.Paths.{FilePath, join_path, abs_path, base_name}
use aegis_mirror.MultiNode.Sdk.{Os}
use aegis_mirror.MultiNode.Files.{
  is_inside, closing, deferred_close, transfer, copy_into, copy_file, absolute, is_sub_dir,
}

module _ {World : Type 0} (O : Os World) (E : Type 0) (Data : Type 0)
    (content : World → List Text → Option Data) (path_of : O.File → List Text)
    (cwd : FilePath) where
  -- The elements of the absolute path, under which the contents are kept.
  abbrev pub at : FilePath → List Text
  at p = (abs_path cwd p).elems

  -- The call leaves every file as it is.
  abbrev Unchanged : World → World → Type 0
  Unchanged w w' = content w' ≡ content w

  -- What the calls do to the contents of the files. A new file replaces an old one of
  -- the same absolute path, and there are no links: two absolute paths are two files.
  pub record Contents : Type 0 where
    pub getwd : (w : World) → Returns ⊥ (λ c w'. (c ≡ cwd) × (content w' ≡ content w)) (O.getwd w)
    pub opens :
        (p : FilePath) (w : World)
        → Returns E (λ s w'. (path_of s ≡ at p) × (content w' ≡ content w)) (O.open_file p w)
    pub creates :
        (p : FilePath) (w : World)
        → Returns E
            (λ d w'. (path_of d ≡ at p) × ((q : List Text) → q ≢ at p → content w' q ≡ content w q))
            (O.create_file p w)
    pub copies :
        (d s : O.File) (w : World)
        → Returns E
            (λ _ w'.
              (content w' (path_of d) ≡ content w (path_of s))
              × ((q : List Text) → q ≢ path_of d → content w' q ≡ content w q))
            (O.copy_content d s w)
    pub syncs :
        (f : O.File) (w : World) → Returns E (λ _ w'. content w' ≡ content w) (O.sync_file f w)
    pub closes : (f : O.File) (w : World) → content (O.close_file f w).1 ≡ content w

  closing_lem :
      {A : Type 0} (f : O.File) (r : Result A × World) (P : World → Type 0)
      → ((w : World) → P w → P (O.close_file f w).1)
      → Returns E (λ _ w. P w) r
      → Returns E (λ _ w. P w) (closing O f r)
  closing_lem f (ok a, w) P k h = k w h
  closing_lem f (err e, w) P k h = h
  closing_lem f (panic e, w) P k h = h
  closing_lem f (exit n, w) P k h = h

  pub tried_lem :
      {A : Type 0} (r : Result A × World) (P : A → World → Type 0)
      → Returns ⊥ P r
      → Returns E (λ t w. (a : A) × (t ≡ ok a) × P a w) (tried r)
  tried_lem (ok a, w) P h = (a, refl, h)
  tried_lem (err e, w) P h = absurd h
  tried_lem (panic e, w) P h = absurd h
  tried_lem (exit n, w) P h = absurd h

  -- Is the file inside the directory?
  abbrev pub inside : FilePath → FilePath → Bool
  inside dir file = is_inside (at dir) (at file)

  module _ (L : Contents) where
    -- The content of one file is replaced, by that of another one.
    abbrev pub Copied : List Text → List Text → World → World → Type 0
    Copied src dst w w' =
        (content w' dst ≡ content w src) × ((q : List Text) → q ≢ dst → content w' q ≡ content w q)

    close_file-Copied :
        (f : O.File) (src dst : List Text) (w w' : World)
        → Copied src dst w w'
        → Copied src dst w (O.close_file f w').1
    close_file-Copied f src dst w w' (e, k) = rw (L.closes f w') (e, k)

    pub copy_file-Copied :
        (src dir : FilePath) (w : World)
        → at src ≢ at (join_path dir (base_name src))
        → Returns E
            (λ _ w'. Copied (at src) (at (join_path dir (base_name src))) w w')
            (copy_file O src dir w)
    unfolding copy_file deferred_close copy_into transfer
    copy_file-Copied src dir w ne =
        let to = join_path dir (base_name src) in
        let dst = at to in
        let P = λ (w' : World). Copied (at src) dst w w' in
        Returns-follow E _ (O.open_file src w) _ _ (L.opens src w) λ s w1 (ps, e1).
          closing_lem s _ P (close_file-Copied s (at src) dst w) (
            Returns-follow E _ (O.create_file to w1) _ _ (L.creates to w1) λ d w2 (pd, k2).
              closing_lem d _ P (close_file-Copied d (at src) dst w) (
                Returns-follow E _ (O.copy_content d s w2) _ _ (L.copies d s w2) λ n w3 (e3, k3).
                  Returns-follow E _ (O.sync_file d w3) _ _ (L.syncs d w3) λ _ w4 e4. (
                    ap (λ f. f dst) e4
                        ∙ (rw (pd, ps) at e3)
                        ∙ k2 (at src) ne
                        ∙ ap (λ f. f (at src)) e1,
                    λ q nq. ap (λ f. f q) e4 ∙ k3 q (rw pd nq) ∙ k2 q nq ∙ ap (λ f. f q) e1,
                  )))

    absolute_lem :
        (p : FilePath) (w : World)
        → Returns ⊥ (λ a w'. (a.elems ≡ at p) × Unchanged w w') (absolute O p w)
    unfolding absolute abs_path
    absolute_lem p w = elim (Bool-cases p.rooted) [
      | inl e ↦ rw (absolute, e) (refl, refl)
      | inr e ↦
          rw (absolute, e)
            (Returns-follow ⊥ _ (O.getwd w) _ _ (L.getwd w) λ c w1 (ec, e1). (rw ec refl, e1))
    ]

    pub is_sub_dir_lem :
        (file dir : FilePath) (w : World)
        → Returns ⊥ (λ yes w'. (yes ≡ inside dir file) × Unchanged w w') (is_sub_dir O file dir w)
    unfolding is_sub_dir
    is_sub_dir_lem file dir w =
        Returns-follow ⊥ _ (absolute O file w) _ _ (absolute_lem file w) λ a w1 (ea, e1).
          Returns-follow ⊥ _ (absolute O dir w1) _ _ (absolute_lem dir w1)
            λ b w2 (eb, e2). (rw (ea, eb) refl, e2 ∙ e1)
