-- ===== src/Export/ZeroHeight/Whole.antt =====
-- `prepForZeroHeightGenesis` as a whole: the part on the distribution state leaves the staking state,
-- and the part on the staking state resets it.
use mathlib.Core.Path.{subst}
use aegis_mirror.Base.{◌≡◌, refl, Bool, true, Option, List, [], ◌∷◌, All}
use aegis_mirror.Base.Text.{Text}
use aegis_mirror.Base.Effect.{Result, ok, Call, for_each, Returns, Returns-follow}
use aegis_mirror.Export.Keepers.{Height, Bytes, Validator, Entry, Codecs, Staking, Distribution}
use aegis_mirror.Export.ZeroHeight.{
  finish, check_allowed, prepare_distribution, prep_for_zero_height_genesis,
}
use aegis_mirror.Export.ZeroHeight.Frames.{Decodes, LeavesStaking, prepare_distribution-Leaves}
use aegis_mirror.Export.ZeroHeight.Validators.{After as AfterValidators}
use aegis_mirror.Export.ZeroHeight.Unbondings.{After}
use aegis_mirror.Export.ZeroHeight.Refined.{
  KeepsParts, Same, IsResetAll, prepare_staking-IsResetAll,
}

module _ {World : Type 0} (A : Codecs) (S : Staking World) (D : Distribution World)
    (log_error : Text → Call World (Unit {0})) (E : Type 0)
    (validators : World → Bytes → Option (Validator S.ValidatorOthers)) (text_of : Bytes → Text)
    (same : S.Owner → S.Owner → Bool)
    (redelegations unbondings : World → S.Owner → Option (List (Entry S.EntryOthers)))
    (h : Height) where
  module _
      (M : LeavesStaking A S D log_error E validators text_of same redelegations unbondings h) where
    -- A text that is in the list of allowed addresses decodes, and nothing happens.
    check_allowed-ok :
        (allowed : List Text) (w : World)
        → All (λ a. Decodes (A.registry_val_address a)) allowed
        → check_allowed A S D log_error allowed w ≡ (ok tt, w)
    unfolding check_allowed for_each
    check_allowed-ok [] w h = refl
    check_allowed-ok (a ∷ allowed) w ((b, e), h) = rw e (check_allowed-ok allowed w h)

    reset_from :
        (allowed : List Text) (w w1 w' : World)
        → Same A S D log_error E validators text_of same redelegations unbondings h w w1
        → IsResetAll A S D log_error E validators text_of same redelegations unbondings h allowed w1
            w'
        → IsResetAll A S D log_error E validators text_of same redelegations unbondings h allowed w
            w'
    reset_from allowed w w1 w' (v, r, u) k = record {
      all_validators = λ b.
          subst (λ f. AfterValidators allowed (text_of b) true (f b) (validators w' b)) v
            (k.all_validators b);
      all_redelegations =
          λ o. subst (λ f. After true (f o) (redelegations w' o)) r (k.all_redelegations o);
      all_unbondings = λ o. subst (λ f. After true (f o) (unbondings w' o)) u (k.all_unbondings o);
    }

    -- `prepForZeroHeightGenesis` resets the whole abstract staking state as it was before the call: when
    -- its last call is made, every validator, redelegation and unbonding delegation of that state is
    -- reset; a statement `Q` that the last call establishes from there is established by the whole. All
    -- addresses decode, the allowed ones too, and the withdrawals and the hooks leave the staking state.
    pub prep_for_zero_height_genesis-IsResetAll :
        (L : KeepsParts A S D log_error E validators text_of same redelegations unbondings h)
        (allowed : List Text) (w : World) (Q : Unit {0} → World → Type 0)
        → All (λ a. Decodes (A.registry_val_address a)) allowed
        → ((closed : Result (Unit {0})) (w' : World)
            → IsResetAll A S D log_error E validators text_of same redelegations unbondings h
                allowed w w'
            → Returns E Q (finish A S D log_error h closed w'))
        → Returns E Q (prep_for_zero_height_genesis A S D log_error h allowed w)
    unfolding prep_for_zero_height_genesis
    prep_for_zero_height_genesis-IsResetAll L allowed w Q decodes last =
        rw (check_allowed-ok allowed w decodes) (
          Returns-follow E _ (prepare_distribution A S D log_error h w) _ _
            (prepare_distribution-Leaves A S D log_error E validators text_of same redelegations
              unbondings h M h w)
            λ _ w1 e.
              prepare_staking-IsResetAll A S D log_error E validators text_of same redelegations
                unbondings h L allowed w1 Q
                λ closed w' k. last closed w' (reset_from allowed w w1 w' e k))
