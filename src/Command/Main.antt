-- ===== src/Command/Main.antt =====
-- chain/cmd/mirrorvaultd/main.go: `main`.
use aegis_mirror.Base.Text.{Text}
use aegis_mirror.Base.Effect.{Result, ok, err, panic, exit, Call, ◌>>=◌}

module _ {World Cmd : Type 0} (execute : Cmd → Call World (Unit {0}))
    (print_line : Cmd → Text → Call World (Unit {0})) where
  -- `if err := Execute(…); err != nil { Fprintln(…); os.Exit(1) }`; what printing returns is dropped.
  abbrev pub reported : Cmd → Result (Unit {0}) × World → Result (Unit {0}) × World
  reported cmd (ok _, w) = (ok tt, w)
  reported cmd (err e, w) = (exit 1, (print_line cmd e w).1)
  reported cmd (panic e, w) = (panic e, w)
  reported cmd (exit n, w) = (exit n, w)

  unfoldable pub main : Call World Cmd → Call World (Unit {0})
  main new_root_cmd = new_root_cmd >>= λ root_cmd w. reported root_cmd (execute root_cmd w)
