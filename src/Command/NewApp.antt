-- ===== src/Command/NewApp.antt =====
-- chain/cmd/mirrorvaultd/cmd/commands.go: `newApp`.
use aegis_mirror.Base.{true, List}
use aegis_mirror.Base.Effect.{Call, ◌>>=◌}
use aegis_mirror.App.Wiring.{Options, StoreNames, Parts, App, WiringOps}
use aegis_mirror.App.New.{new}

module _ {World : Type 0} (T : Parts) (O : WiringOps T World) (N : StoreNames)
    (default_baseapp_options : Options T.Others → Call World (List T.BaseOption)) where
  unfoldable pub new_app : Options T.Others → Call World (App T)
  unfolding new
  new_app app_opts = do
    baseapp_options ← default_baseapp_options app_opts
    new T O N true app_opts baseapp_options
