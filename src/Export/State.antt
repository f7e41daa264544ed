-- ===== src/Export/State.antt =====
-- `ExportAppStateAndValidators`
use aegis_mirror.Base.{◌≡◌, refl, Bool, true, Option, none, List, ◌∷◌, ◌++◌, if◌then◌else◌}
use aegis_mirror.Base.Int.{pos, ◌+ℤ◌, int64}
use aegis_mirror.Base.Text.{Text}
use aegis_mirror.Base.Effect.{panic, Call, pure, ◌>>=◌, ◌>>◌}
use aegis_mirror.Export.Keepers.{Height, Codecs, Staking, Distribution}
use aegis_mirror.Export.ZeroHeight.{prep_for_zero_height_genesis}
use aegis_mirror.Export.ZeroHeight.Refused.{prep_for_zero_height_genesis_bad}

-- The module manager, the codec and the base application.
pub record AppOps (World : Type 0) : Type 1 where
  pub GenState : Type 0
  pub Json : Type 0
  pub GenesisValidators : Type 0
  pub ConsensusParams : Type 0
  pub last_block_height : World → Height
  pub export_genesis_for_modules : Height → List Text → Call World GenState
  pub marshal_indent : GenState → Call World Json
  -- The validators, and the error that is returned beside them.
  pub write_validators : Height → Call World (GenesisValidators × Option Text)
  pub get_consensus_params : Height → Call World ConsensusParams
  pub log_error : Text → Call World (Unit {0})

-- `servertypes.ExportedApp`
pub record ExportedApp (Json GenesisValidators ConsensusParams : Type 0) : Type 0 where
  pub app_state : Json
  pub validators : GenesisValidators
  pub height : Height
  pub consensus_params : ConsensusParams

module _ {World : Type 0} (A : Codecs) (S : Staking World) (D : Distribution World)
    (P : AppOps World) where
  abbrev pub Exported : Type 0
  Exported = ExportedApp P.Json P.GenesisValidators P.ConsensusParams

  -- The state after the height has been chosen. The error of `WriteValidators` is returned beside the
  -- exported state; an error before it is returned with the empty one. The context is a value: the
  -- preparation's changes of its height do not reach it.
  unfoldable pub export_at : Height → Height → List Text → Call World (Exported × Option Text)
  export_at context_height height modules = do
    gen_state ← P.export_genesis_for_modules context_height modules
    app_state ← P.marshal_indent gen_state
    (validators, error) ← P.write_validators context_height
    params ← P.get_consensus_params context_height
    pure (
      record {
        app_state = app_state;
        validators = validators;
        height = height;
        consensus_params = params;
      },
      error,
    )

  unfoldable pub export_app_state_and_validators :
      Bool → List Text → List Text → Call World (Exported × Option Text)
  unfolding export_at prep_for_zero_height_genesis int64 ◌+ℤ◌
  export_app_state_and_validators for_zero_height jail_allowed_addrs modules w =
      let last = P.last_block_height w in
      (if for_zero_height
          then (do
            prep_for_zero_height_genesis A S D P.log_error last jail_allowed_addrs
            export_at last (pos 0) modules)
          else export_at last (int64 (last +ℤ pos 1)) modules)
        w

  -- Where one of the allowed addresses does not decode, the export for height zero panics with the
  -- codec's error on one that does not, and nothing has changed.
  pub export_app_state_and_validators_bad :
      (before after modules : List Text) (bad : Text) (w : World)
      → A.registry_val_address bad ≡ none
      → (a : Text) × (A.registry_val_address a ≡ none)
        × (export_app_state_and_validators true (before ++ bad ∷ after) modules w
            ≡ (panic (A.registry_val_error a), w))
  unfolding export_app_state_and_validators
  export_app_state_and_validators_bad before after modules bad w h =
      let (a, e, k) =
        prep_for_zero_height_genesis_bad A S D P.log_error (P.last_block_height w) before after bad
          w h in
      (a, e, rw k refl)
