-- ===== src/Export/ZeroHeight/Refused.antt =====
-- A list of allowed addresses that holds a bad one.
use aegis_mirror.Base.{◌≡◌, refl, none, List, [], ◌∷◌, ◌++◌, Option-cases, inl, inr}
use aegis_mirror.Base.Text.{Text}
use aegis_mirror.Base.Effect.{panic, Call, for_each}
use aegis_mirror.Export.Keepers.{Height, Codecs, Staking, Distribution}
use aegis_mirror.Export.ZeroHeight.{check_allowed, prep_for_zero_height_genesis}

module _ {World : Type 0} (A : Codecs) (S : Staking World) (D : Distribution World)
    (log_error : Text → Call World (Unit {0})) where
  check_allowed-bad :
      (before after : List Text) (bad : Text) (w : World)
      → A.registry_val_address bad ≡ none
      → (a : Text) × (A.registry_val_address a ≡ none)
        × (check_allowed A S D log_error (before ++ bad ∷ after) w
            ≡ (panic (A.registry_val_error a), w))
  unfolding check_allowed for_each
  check_allowed-bad [] after bad w h = (bad, h, rw h refl)
  check_allowed-bad (a ∷ before) after bad w h = elim (Option-cases (A.registry_val_address a)) [
    | inl e ↦ (a, e, rw e refl)
    | inr (b, e) ↦ let (a', e', k) = check_allowed-bad before after bad w h in (a', e', rw e k)
  ]

  -- Where one of the allowed addresses does not decode, the preparation of a zero-height genesis
  -- panics with the error of one that does not, and it has changed nothing.
  pub prep_for_zero_height_genesis_bad :
      (height : Height) (before after : List Text) (bad : Text) (w : World)
      → A.registry_val_address bad ≡ none
      → (a : Text) × (A.registry_val_address a ≡ none)
        × (prep_for_zero_height_genesis A S D log_error height (before ++ bad ∷ after) w
            ≡ (panic (A.registry_val_error a), w))
  unfolding prep_for_zero_height_genesis
  prep_for_zero_height_genesis_bad height before after bad w h =
      let (a, e, k) = check_allowed-bad before after bad w h in (a, e, rw k refl)
