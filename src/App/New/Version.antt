-- ===== src/App/New/Version.antt =====
-- Which version of the stores `New` loads, and the application that `appExport` creates.
use aegis_mirror.Base.{
  ◌≡◌, Bool, true, false, Option, none, some, List, [], if◌then◌else◌, Bool-cases, inl, inr,
}
use aegis_mirror.Base.Int.{ℤ, negsuc, eqb_ℤ}
use aegis_mirror.Base.Text.{Text}
use aegis_mirror.Base.Effect.{Call, or_panic, Returns, Returns-follow, Returns-panicked}
use aegis_mirror.App.Wiring.{
  StoreType, store_type_db, store_type_transient, Options, StoreNames, Parts, App, WiringOps,
}
use aegis_mirror.App.New.{new_keys, mount_all, add_evm, new}
use aegis_mirror.App.New.Stores.{Mounts, new_keys_lem, mount_all_lem, add_evm-Keeps}
use aegis_mirror.Export.Command.{AppOptions, create_app}

module _ {World : Type 0} (T : Parts) (O : WiringOps T World) (N : StoreNames) (E : Type 0)
    (dec : Discrete T.Key) (mounted : World → T.Key → Option StoreType)
    (base : T.Key → Option StoreType) (kv_key transient_key : Text → T.Key)
    (L : Mounts T O N E dec mounted base kv_key transient_key) (version : World → Option ℤ)
    (latest : ℤ) where
  -- `Load` loads the latest version, or none.
  abbrev pub LoadsVersion : Type 0
  LoadsVersion =
      (a : T.Runtime) (b : Bool) (w : World)
      → Returns E (λ _ w'. version w' ≡ (if b then some latest else none)) (O.load a b w)

  new-version :
      (V : LoadsVersion) (load_latest : Bool) (o : Options T.Others) (options : List T.BaseOption)
      (w : World)
      → Returns E
          (λ _ w'. version w' ≡ (if load_latest then some latest else none))
          (new T O N load_latest o options w)
  unfolding new
  new-version V load_latest o options w =
      Returns-follow E _ (or_panic (O.inject o) w) _ _
        (Returns-panicked E (O.inject o w) _ (L.injects o w))
        λ i w1 _.
          Returns-follow E _ (new_keys T O N w1) _ _
            (new_keys_lem T O N E dec mounted base kv_key transient_key L w1)
            λ keys w2 _.
              Returns-follow E _ (O.build i.app_builder _ w2) _ _ (L.builds i.app_builder _ w2)
                λ a w3 _.
                  Returns-follow E _ (mount_all T O N a store_type_db keys.store_keys w3) _ _
                    (mount_all_lem T O N E dec mounted base kv_key transient_key L a store_type_db
                      keys.store_keys w3)
                    λ _ w4 _.
                      Returns-follow E _
                        (mount_all T O N a store_type_transient keys.transient_keys w4) _ _
                        (mount_all_lem T O N E dec mounted base kv_key transient_key L a
                          store_type_transient keys.transient_keys w4)
                        λ _ w5 _.
                          Returns-follow E _ (add_evm T O N o i keys a w5) _ _
                            (add_evm-Keeps T O N E dec mounted base kv_key transient_key L o i keys
                              a w5)
                            λ app w6 _.
                              Returns-follow E _ (or_panic (O.load a load_latest) w6) _ _
                                (Returns-panicked E (O.load a load_latest w6) _
                                  (V a load_latest w6))
                                λ _ w7 e. e

  -- The application that `appExport` creates by `New` is loaded at the height that is asked for, or at
  -- the latest one if the height is -1.
  pub create_app-version :
      {Exported : Type 0} (V : LoadsVersion) (load_height : App T → ℤ → Call World (Unit {0}))
      (export : App T → Bool → List Text → List Text → Call World Exported)
      (options : AppOptions → Options T.Others) (height : ℤ) (o : AppOptions) (w : World)
      → ((a : App T) (w' : World)
          → Returns E (λ _ w''. version w'' ≡ some height) (load_height a height w'))
      → Returns E
          (λ _ w'. version w' ≡ some (if eqb_ℤ height (negsuc 0) then latest else height))
          (create_app
            (λ load_latest opts. new T O N load_latest (options opts) [])
            load_height
            export
            height
            o
            w)
  unfolding create_app
  create_app-version V load_height export options height o w h =
      elim (Bool-cases (eqb_ℤ height (negsuc 0))) [
        | inl e ↦ rw e (new-version V true (options o) [] w)
        | inr e ↦ rw e (
            Returns-follow E _ (new T O N false (options o) [] w) _ _
              (new-version V false (options o) [] w)
              λ a w1 _. Returns-follow E _ (load_height a height w1) _ _ (h a w1) λ _ w2 v. v)
      ]
