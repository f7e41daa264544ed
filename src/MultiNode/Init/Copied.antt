-- ===== src/MultiNode/Init/Copied.antt =====
-- What the copies of the transactions leave in the nodes' directories.
use mathlib.Core.Path.{subst}
use mathlib.Core.Bool.{false≢true}
use native.Mathlib.Decide.{ℕ_discrete}
use aegis_mirror.Base.{
  ℕ, zero, suc, ◌+◌, ◌≤◌, ◌<◌, ◌≡◌, ◌≢◌, ◌⊎◌, inl, inr, refl, sym, ap, ◌∙◌, true, false, not,
  Option, some, List, [], ◌∷◌, ◌++◌, All, All-mono, All-append, numbered, length, arith, Bool-cases,
}
use aegis_mirror.Base.Text.{Text, Lacks, codes, text_eq, has_prefix}
use aegis_mirror.Base.Effect.{tried, for_each, Returns, Returns-follow, Returns-mono}
use aegis_mirror.Base.Paths.{FilePath, elems-discrete, join_path, base_name, last_or}
use aegis_mirror.Base.Paths.Names.{IsName, base_name-join_path, abs_path-join_path, last_or-append}
use aegis_mirror.MultiNode.Sdk.{Os}
use aegis_mirror.MultiNode.Files.{is_inside, copy_file, is_sub_dir}
use aegis_mirror.MultiNode.Files.Contents.{
  Contents, at, Copied, inside, tried_lem, is_sub_dir_lem, copy_file-Copied,
}
use aegis_mirror.MultiNode.Files.SubDir.{IsRelative, is_inside-append}
use aegis_mirror.MultiNode.Init.Node.{gentxs_dir}
use aegis_mirror.MultiNode.Init.Stages.{gentx_file}
use aegis_mirror.MultiNode.Init.Copies.{copy_gentx, copy_gentxs}

name-IsRelative : (n : Text) → IsName n → IsRelative (n ∷ [])
unfolding text_eq has_prefix
name-IsRelative [] h = cc (h.filled)
name-IsRelative (c ∷ n) h = (λ e. cc, ground (arith, h.slashless.0))

module _ {World : Type 0} (O : Os World) (E : Type 0) (Data : Type 0)
    (content : World → List Text → Option Data) (path_of : O.File → List Text) (cwd : FilePath)
    (tx : Text → Data) where
  -- The file at the absolute path holds the transaction of its name.
  abbrev pub Holds : World → List Text → Type 0
  Holds w q = content w q ≡ some (tx (last_or [] q))

  -- What holds its transaction still does.
  abbrev pub Keeps : World → World → Type 0
  Keeps w w' = (q : List Text) → Holds w q → Holds w' q

  -- The transaction is in the directory: the file lies there, or a copy with its name.
  abbrev pub IsIn : World → FilePath → FilePath → Type 0
  IsIn w dir file =
      (inside O E Data content path_of cwd dir file ≡ true)
      ⊎ Holds w (at O E Data content path_of cwd (join_path dir (base_name file)))

  -- The file's name is a plain one.
  record IsNamed (file : FilePath) : Type 0 where
    plain : IsName (base_name file)
    same : last_or [] (at O E Data content path_of cwd file) ≡ base_name file

  Keeps-IsIn :
      (w w' : World) (dir file : FilePath) → Keeps w w' → IsIn w dir file → IsIn w' dir file
  Keeps-IsIn w w' dir file k (inl h) = inl h
  Keeps-IsIn w w' dir file k (inr h) =
      inr (k (at O E Data content path_of cwd (join_path dir (base_name file))) h)

  module _ (L : Contents O E Data content path_of cwd) where
    -- The name of a file in a directory, at its absolute path.
    name_at :
        (dir : FilePath) (n : Text)
        → IsName n
        → last_or [] (at O E Data content path_of cwd (join_path dir n)) ≡ n
    name_at dir n h =
        ap (last_or []) (abs_path-join_path cwd dir n h)
        ∙ last_or-append [] (at O E Data content path_of cwd dir) n

    -- A file whose copy would replace itself is inside the directory.
    other_file :
        (dir file : FilePath)
        → IsNamed file
        → inside O E Data content path_of cwd dir file ≡ false
        → at O E Data content path_of cwd file
          ≢ at O E Data content path_of cwd (join_path dir (base_name file))
    other_file dir file name out e =
        let d = at O E Data content path_of cwd dir in
        let n = base_name file in
        false≢true (
          sym out
          ∙ ap (is_inside d) (e ∙ abs_path-join_path cwd dir n name.plain)
          ∙ is_inside-append d (n ∷ []) (name-IsRelative n name.plain)
          ∙ ap not name.plain.undotted)

    kept_lem :
        (dir file : FilePath) (w w' : World)
        → IsNamed file
        → Holds w (at O E Data content path_of cwd file)
        → Copied O E Data content path_of cwd L
            (at O E Data content path_of cwd file)
            (at O E Data content path_of cwd (join_path dir (base_name file)))
            w
            w'
        → Keeps w w' × Holds w' (at O E Data content path_of cwd (join_path dir (base_name file)))
    kept_lem dir file w w' name h (e, k) =
        let dst = at O E Data content path_of cwd (join_path dir (base_name file)) in
        let here : Holds w' dst =
          e
          ∙ h
          ∙ ap (λ n. some (tx n)) (name.same ∙ sym (name_at dir (base_name file) name.plain)) in
        (
          λ p hp. elim (elems-discrete p dst) [
            | yes at_dst ↦ subst (Holds w') (sym at_dst) here
            | no elsewhere ↦ k p elsewhere ∙ hp
          ],
          here,
        )

    -- A transaction that is not in the directory is copied there; its destination is another path.
    copy_gentx-IsIn :
        (dir file : FilePath) (w : World)
        → IsNamed file
        → Holds w (at O E Data content path_of cwd file)
        → Returns E (λ _ w'. Keeps w w' × IsIn w' dir file) (copy_gentx O dir file w)
    unfolding copy_gentx
    copy_gentx-IsIn dir file w name h =
        Returns-follow E _ (tried (is_sub_dir O file dir w)) _ _
          (tried_lem O E Data content path_of cwd (is_sub_dir O file dir w) _
            (is_sub_dir_lem O E Data content path_of cwd L file dir w))
          λ t w1 (skip, e, (ey, e1)).
            elim (Bool-cases (inside O E Data content path_of cwd dir file)) [
              | inl in_it ↦ rw (e, ey, in_it) ((λ p hp. ap (λ f. f p) e1 ∙ hp), inl refl)
              | inr out ↦
                  rw (e, ey, out)
                    (Returns-follow E _ (copy_file O file dir w1) _ _
                      (copy_file-Copied O E Data content path_of cwd L file dir w1
                        (other_file dir file name out))
                      λ n w2 c.
                        let (keeps, here) =
                          kept_lem dir file w1 w2 name
                            (ap (λ f. f (at O E Data content path_of cwd file)) e1 ∙ h) c in
                        ((λ p hp. keeps p (ap (λ f. f p) e1 ∙ hp)), inr here))
            ]

    -- One directory.
    for_each-IsIn :
        (dir : FilePath) (files : List FilePath) (w : World)
        → All IsNamed files
        → All (λ f. Holds w (at O E Data content path_of cwd f)) files
        → Returns E
            (λ _ w'. Keeps w w' × All (IsIn w' dir) files)
            (for_each (copy_gentx O dir) files w)
    unfolding for_each
    for_each-IsIn dir [] w names h = ((λ p hp. hp), tt)
    for_each-IsIn dir (f ∷ files) w (name, names) (h, hs) =
        Returns-follow E _ (copy_gentx O dir f w) _ _ (copy_gentx-IsIn dir f w name h)
          λ _ w1 (k1, in1).
            Returns-mono E (for_each (copy_gentx O dir) files w1) _ _
              (for_each-IsIn dir files w1 names (
                All-mono (λ f. Holds w (at O E Data content path_of cwd f))
                  (λ f. Holds w1 (at O E Data content path_of cwd f))
                  (λ f. k1 (at O E Data content path_of cwd f)) files hs))
              λ _ w2 (k2, ins). ((λ p hp. k2 p (k1 p hp)), (Keeps-IsIn w1 w2 dir f k2 in1, ins))

    copies_lem :
        (output_dir prefix : Text) (files : List FilePath) (left i : ℕ) (w : World)
        → All IsNamed files
        → All (λ f. Holds w (at O E Data content path_of cwd f)) files
        → Returns E
            (λ _ w'.
              Keeps w w'
              × ((j : ℕ)
                  → i ≤ j
                  → j < i + left
                  → All (IsIn w' (gentxs_dir output_dir prefix j)) files))
            (copy_gentxs O output_dir prefix files left i w)
    unfolding copy_gentxs
    copies_lem output_dir prefix files zero i w names h =
        ((λ p hp. hp), λ j l m. absurd (omega arith))
    copies_lem output_dir prefix files (suc left) i w names h =
        let dir = gentxs_dir output_dir prefix i in
        Returns-follow E _ (for_each (copy_gentx O dir) files w) _ _
          (for_each-IsIn dir files w names h)
          λ _ w1 (k1, in1).
            Returns-mono E (copy_gentxs O output_dir prefix files left (suc i) w1) _ _
              (copies_lem output_dir prefix files left (suc i) w1 names (
                All-mono (λ f. Holds w (at O E Data content path_of cwd f))
                  (λ f. Holds w1 (at O E Data content path_of cwd f))
                  (λ f. k1 (at O E Data content path_of cwd f)) files h))
              λ _ w2 (k2, ins). (
                (λ p hp. k2 p (k1 p hp)),
                λ j l m. elim (ℕ_discrete j i) [
                  | yes e ↦ rw e (
                      All-mono (IsIn w1 dir) (IsIn w2 dir) (λ f. Keeps-IsIn w1 w2 dir f k2) files
                        in1)
                  | no ne ↦ ins j (omega arith) (omega arith)
                ],
              )

    -- The loop over the directories.
    copy_gentxs-IsIn :
        (output_dir prefix : Text) (files : List FilePath) (n : ℕ) (w : World)
        → All IsNamed files
        → All (λ f. Holds w (at O E Data content path_of cwd f)) files
        → Returns E
            (λ _ w'.
              Keeps w w' × ((j : ℕ) → j < n → All (IsIn w' (gentxs_dir output_dir prefix j)) files))
            (copy_gentxs O output_dir prefix files n 0 w)
    copy_gentxs-IsIn output_dir prefix files n w names h =
        Returns-mono E (copy_gentxs O output_dir prefix files n 0 w) _ _
          (copies_lem output_dir prefix files n 0 w names h)
          λ _ w' (k, ins). (k, λ j m. ins j (omega arith) (omega arith))

    gentx-IsName : (id : Text) → Lacks b'/' id → IsName (codes "gentx-" ++ (id ++ codes ".json"))
    unfolding text_eq has_prefix
    gentx-IsName id h = record {
      filled = refl;
      not_here = refl;
      undotted = refl;
      slashless =
          All-append (λ c. c ≢ b'/') (codes "gentx-") (id ++ codes ".json") (ground arith)
            (All-append (λ c. c ≢ b'/') id (codes ".json") h (ground arith));
    }

    gentx_files-Named :
        (output_dir prefix : Text) (i : ℕ) (ids : List Text)
        → All (Lacks b'/') ids
        → All IsNamed (numbered (gentx_file output_dir prefix) i ids)
    gentx_files-Named output_dir prefix i [] h = tt
    gentx_files-Named output_dir prefix i (id ∷ ids) (h, hs) =
        let dir = gentxs_dir output_dir prefix i in
        let n = codes "gentx-" ++ (id ++ codes ".json") in
        let named = base_name-join_path dir n (gentx-IsName id h) in
        (
          record {
            plain = rw named (gentx-IsName id h);
            same = name_at dir n (gentx-IsName id h) ∙ sym named;
          },
          gentx_files-Named output_dir prefix (suc i) ids hs,
        )

    -- After the copies the transaction of every node is in the directory of every node, and every file
    -- that held the transaction of its name still does: no transaction is overwritten, and a node's own
    -- one is not replaced by an empty copy. The files of the transactions, which the loop over the nodes
    -- names after the nodes' ids, hold them before, and no id has a slash in it.
    pub copy_gentxs-gentx_files :
        (output_dir prefix : Text) (ids : List Text) (w : World)
        → All (Lacks b'/') ids
        → All
            (λ f. Holds w (at O E Data content path_of cwd f))
            (numbered (gentx_file output_dir prefix) 0 ids)
        → Returns E
            (λ _ w'.
              Keeps w w'
              × ((j : ℕ)
                  → j < length ids
                  → All
                      (IsIn w' (gentxs_dir output_dir prefix j))
                      (numbered (gentx_file output_dir prefix) 0 ids)))
            (copy_gentxs O output_dir prefix
              (numbered (gentx_file output_dir prefix) 0 ids)
              (length ids)
              0
              w)
    copy_gentxs-gentx_files output_dir prefix ids w h hw =
        let files = numbered (gentx_file output_dir prefix) 0 ids in
        copy_gentxs-IsIn output_dir prefix files (length ids) w
          (gentx_files-Named output_dir prefix 0 ids h) hw
