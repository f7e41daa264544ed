-- ===== src/MultiNode/Files.antt =====
-- `writeFile`, `copyFile` and `isSubDir`, over the operating system's calls.
pub mod SubDir
pub mod Handles
pub mod Contents
use aegis_mirror.Base.{if◌then◌else◌, Bool, ◌++◌, List, not, ◌&&◌}
use aegis_mirror.Base.Int.{ℤ}
use aegis_mirror.Base.Text.{Text, codes, has_prefix}
use aegis_mirror.Base.Effect.{Result, ok, err, panic, exit, Call, pure, raise, ◌>>=◌, ◌>>◌}
use aegis_mirror.Base.Paths.{FilePath, dot_dot, join_path, abs_path, rel_elems, rel_text, base_name}
use aegis_mirror.MultiNode.Sdk.{Os}

-- Is the relative path inside: it does not begin with "..", and `filepath.IsAbs` does not hold of it.
unfoldable pub is_inside : List Text → List Text → Bool
unfolding rel_elems rel_text has_prefix
is_inside dst src =
    let relative_path = rel_text (rel_elems dst src) in
    not (has_prefix relative_path dot_dot) && not (has_prefix relative_path (codes "/"))

module _ {World : Type 0} (O : Os World) where
  abbrev pub wrapped : Text → Result (Unit {0}) × World → Result (Unit {0}) × World
  wrapped message (ok a, w) = (ok a, w)
  wrapped message (err e, w) = (err (message ++ e), w)
  wrapped message (panic e, w) = (panic e, w)
  wrapped message (exit n, w) = (exit n, w)

  unfoldable pub write_file : FilePath → FilePath → Text → Call World (Unit {0})
  write_file file dir contents = do
    λ w.
        wrapped (codes "could not create directory " ++ (O.quoted dir ++ codes ": "))
          (O.mkdir_all dir 0o755 w)
    O.write_file file contents 0o644

  -- `defer f.Close()`: the rest runs, and then the file is closed; what `Close` returns is dropped.
  abbrev pub closing : {A : Type 0} → O.File → Result A × World → Result A × World
  closing f (r, w) = (r, (O.close_file f w).1)

  unfoldable pub deferred_close : {A : Type 0} → O.File → Call World A → Call World A
  deferred_close f m w = closing f (m w)

  -- The part of `copyFile` behind the two opened files, and the part behind the opened source.
  unfoldable pub transfer : O.File → O.File → Call World ℤ
  transfer destination_file source_file = do
    bytes_copied ← O.copy_content destination_file source_file
    O.sync_file destination_file
    pure bytes_copied

  unfoldable pub copy_into : O.File → FilePath → Call World ℤ
  unfolding deferred_close transfer
  copy_into source_file dst = do
    destination_file ← O.create_file dst
    deferred_close destination_file (transfer destination_file source_file)

  unfoldable pub copy_file : FilePath → FilePath → Call World ℤ
  unfolding deferred_close copy_into join_path base_name
  copy_file src dst_dir = do
    source_file ← O.open_file src
    deferred_close source_file (copy_into source_file (join_path dst_dir (base_name src)))

  -- `filepath.Abs(p)`: the working directory is asked for only if the path is relative.
  unfoldable pub absolute : FilePath → Call World FilePath
  unfolding abs_path
  absolute p =
      let joined = O.getwd >>= λ cwd. pure (abs_path cwd p) in if p.rooted then pure p else joined

  unfoldable pub is_sub_dir : FilePath → FilePath → Call World Bool
  unfolding is_inside absolute
  is_sub_dir src dst_dir = do
    abs_src ← absolute src
    abs_dst_dir ← absolute dst_dir
    pure (is_inside abs_dst_dir.elems abs_src.elems)
