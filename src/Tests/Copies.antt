-- ===== src/Tests/Copies.antt =====
-- The copies of the transactions of two nodes, on a disk that keeps the contents.
use mathlib.Core.Logic.{ite, if_pos, if_neg}
use aegis_mirror.Base.{
  ℕ, ◌≡◌, ◌<◌, ◌∙◌, refl, true, Option, none, some, List, [], ◌∷◌, All, numbered, arith,
}
use aegis_mirror.Base.Int.{pos}
use aegis_mirror.Base.Text.{Text, codes}
use aegis_mirror.Base.Effect.{ok, Returns}
use aegis_mirror.Base.Paths.{FilePath, elems-discrete, abs_path, last_or}
use aegis_mirror.MultiNode.Sdk.{Os}
use aegis_mirror.MultiNode.Files.Contents.{Contents}
use aegis_mirror.MultiNode.Init.Node.{gentxs_dir}
use aegis_mirror.MultiNode.Init.Stages.{gentx_file}
use aegis_mirror.MultiNode.Init.Copies.{copy_gentxs}
use aegis_mirror.MultiNode.Init.Copied.{Keeps, IsIn, copy_gentxs-gentx_files}

abbrev Disk : Type 0
Disk = List Text → Option Text

abbrev top : FilePath
top = record { rooted = true; elems = [] }

abbrev write : List Text → Option Text → Disk → Disk
write p t w q = ite (elems-discrete q p) t (w q)

-- An opened file is its absolute path.
abbrev disk : Os Disk
disk = record {
  File = List Text;
  Time = Unit {0};
  getwd = λ w. (ok top, w);
  mkdir_all = λ p m w. (ok tt, w);
  remove_all = λ p w. (ok tt, w);
  write_file = λ p t m w. (ok tt, write (abs_path top p).elems (some t) w);
  open_file = λ p w. (ok (abs_path top p).elems, w);
  create_file = λ p w. (ok (abs_path top p).elems, write (abs_path top p).elems (some []) w);
  copy_content = λ d s w. (ok (pos 0), write d (w s) w);
  sync_file = λ f w. (ok tt, w);
  close_file = λ f w. (ok tt, w);
  now = λ w. (ok tt, w);
  max_length = 17592186044416;
  intn = λ n w. (ok 0, w);
  print_err = λ t w. (ok tt, w);
  quoted = λ p. [];
}

disk-Contents : Contents disk ⊥ Text (λ (w : Disk) p. w p) (λ f. f) top
disk-Contents = record {
  getwd = λ w. (refl, refl);
  opens = λ p w. (refl, refl);
  creates = λ p w. (refl, λ q ne. if_neg (elems-discrete q (abs_path top p).elems) ne _ _);
  copies =
      λ d s w. (if_pos (elems-discrete d d) refl _ _, λ q ne. if_neg (elems-discrete q d) ne _ _);
  syncs = λ f w. refl;
  closes = λ f w. refl;
}

abbrev node_ids : List Text
node_ids = codes "a" ∷ codes "b" ∷ []

abbrev files : List FilePath
files = numbered (gentx_file (codes "/out") (codes "node")) 0 node_ids

-- Only the files of the transactions are there.
abbrev among : List FilePath → Disk
among [] q = none
among (f ∷ fs) q = ite (elems-discrete q (abs_path top f).elems) (some (last_or [] q)) (among fs q)

among-first :
    (f : FilePath) (fs : List FilePath)
    → among (f ∷ fs) (abs_path top f).elems ≡ some (last_or [] (abs_path top f).elems)
among-first f fs = if_pos (elems-discrete (abs_path top f).elems (abs_path top f).elems) refl _ _

among-second :
    (f g : FilePath)
    → among (f ∷ g ∷ []) (abs_path top g).elems ≡ some (last_or [] (abs_path top g).elems)
among-second f g = elim (elems-discrete (abs_path top g).elems (abs_path top f).elems) [
  | yes e ↦ if_pos (elems-discrete (abs_path top g).elems (abs_path top f).elems) e _ _
  | no n ↦
      if_neg (elems-discrete (abs_path top g).elems (abs_path top f).elems) n _ _ ∙ among-first g []
]

copy_gentxs-gentx_files_example :
    Returns ⊥
      (λ _ w'.
        Keeps disk ⊥ Text (λ (w : Disk) p. w p) (λ f. f) top (λ n. n) (among files) w'
        × ((j : ℕ)
            → j < 2
            → All
                (IsIn disk ⊥ Text
                  (λ (w : Disk) p. w p)
                  (λ f. f)
                  top
                  (λ n. n)
                  w'
                  (gentxs_dir (codes "/out") (codes "node") j))
                files))
      (copy_gentxs disk (codes "/out") (codes "node") files 2 0 (among files))
copy_gentxs-gentx_files_example =
    copy_gentxs-gentx_files disk ⊥ Text (λ (w : Disk) p. w p) (λ f. f) top (λ n. n) disk-Contents
      (codes "/out") (codes "node") node_ids (among files) (ground arith)
      (
        among-first (gentx_file (codes "/out") (codes "node") 0 (codes "a"))
            (gentx_file (codes "/out") (codes "node") 1 (codes "b") ∷ []),
        (
          among-second (gentx_file (codes "/out") (codes "node") 0 (codes "a"))
              (gentx_file (codes "/out") (codes "node") 1 (codes "b")),
          tt,
        ),
      )
