-- ===== src/MultiNode/Init/Copies.antt =====
-- The loops of `initTestnetFiles` that copy each node's transaction to every other node.
use aegis_mirror.Base.{ℕ, zero, suc, Bool, true, false, List}
use aegis_mirror.Base.Text.{Text}
use aegis_mirror.Base.Effect.{Result, ok, Call, pure, tried, for_each, ◌>>=◌, ◌>>◌}
use aegis_mirror.Base.Paths.{FilePath}
use aegis_mirror.MultiNode.Sdk.{Os}
use aegis_mirror.MultiNode.Files.{is_sub_dir, copy_file}
use aegis_mirror.MultiNode.Init.Node.{gentxs_dir}

-- `if err != nil || yes { continue }`
abbrev pub skips : Result Bool → Bool
skips (ok yes_inside) = yes_inside
skips _ = true

module _ {World : Type 0} (O : Os World) where
  unfoldable pub copy_gentx : FilePath → FilePath → Call World (Unit {0})
  unfolding is_sub_dir copy_file
  copy_gentx dir file = (λ w. tried (is_sub_dir O file dir w)) >>= λ r. elim (skips r) [
    | true ↦ pure tt
    | false ↦ copy_file O file dir >> pure tt
  ]

  -- The rounds left from node `i` on.
  unfoldable pub copy_gentxs : Text → Text → List FilePath → ℕ → ℕ → Call World (Unit {0})
  unfolding copy_gentx gentxs_dir for_each
  copy_gentxs output_dir prefix files zero i = pure tt
  copy_gentxs output_dir prefix files (suc left) i = do
    for_each (copy_gentx (gentxs_dir output_dir prefix i)) files
    copy_gentxs output_dir prefix files left (suc i)
