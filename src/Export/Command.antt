-- ===== src/Export/Command.antt =====
-- `appExport`: the options are read, the application is created and loaded, and its state exported.
use aegis_mirror.Base.{Bool, true, false, Option, none, some, List, [], if◌then◌else◌}
use aegis_mirror.Base.Int.{ℤ, negsuc, eqb_ℤ}
use aegis_mirror.Base.Text.{Text, codes, text_eq}
use aegis_mirror.Base.Effect.{Call, pure, raise, ◌>>=◌, ◌>>◌}

-- `servertypes.AppOptions`: the value at `flags.FlagHome`, `none` if it is no text, and is the
-- interface's value a `*viper.Viper`?
pub record AppOptions : Type 0 where
  pub home : Option Text
  pub is_viper : Bool

module _ {World App Exported : Type 0} (new_app : Bool → AppOptions → Call World App)
    (load_height : App → ℤ → Call World (Unit {0}))
    (export : App → Bool → List Text → List Text → Call World Exported) where
  -- The application at a height, or at the latest one if the height is -1.
  unfoldable pub create_app : ℤ → AppOptions → Call World App
  create_app height opts =
      let at_height = do app ← new_app false opts; load_height app height; pure app
      in if eqb_ℤ height (negsuc 0) then new_app true opts else at_height

  unfoldable pub with_home :
      Text → ℤ → Bool → List Text → AppOptions → List Text → Call World Exported
  unfolding create_app text_eq
  with_home home_path height for_zero_height jail_allowed_addrs opts modules =
      let exported = do
        app ← create_app height opts
        export app for_zero_height jail_allowed_addrs modules
      in if text_eq home_path []
        then raise (codes "application home not set")
        else if opts.is_viper
        then exported
        else raise (codes "appOpts is not viper.Viper")

  unfoldable pub app_export : ℤ → Bool → List Text → AppOptions → List Text → Call World Exported
  unfolding with_home
  app_export height for_zero_height jail_allowed_addrs opts modules = elim opts.home [
    | none ↦ raise (codes "application home not set")
    | some home_path ↦ with_home home_path height for_zero_height jail_allowed_addrs opts modules
  ]
