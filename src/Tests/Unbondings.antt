-- ===== src/Tests/Unbondings.antt =====
-- The loops over the redelegations and the unbonding delegations.
use aegis_mirror.Base.{
  ◌≡◌, refl, Bool, true, false, Option, none, some, List, [], ◌∷◌, if◌then◌else◌, ℕ,
}
use aegis_mirror.Base.Int.{pos}
use aegis_mirror.Base.Text.{Text, codes}
use aegis_mirror.Base.Effect.{ok, err, Call, for_each, Returns}
use aegis_mirror.Export.Keepers.{Height, Bytes, Entry, Unbonding, Codecs, Staking, Distribution}
use aegis_mirror.Export.ZeroHeight.{reset_redelegation, reset_unbonding_delegation}
use aegis_mirror.Export.ZeroHeight.Unbondings.{
  After, Stores, visited, for_each-reset_redelegation, for_each-reset_unbonding_delegation,
}

-- The entries of two owners.
abbrev Two : Type 0
Two = Bool → Option (List (Entry ℕ))

abbrev same : Bool → Bool → Bool
same true true = true
same false false = true
same true false = false
same false true = false

abbrev write : Height → Unbonding Bool ℕ → Call Two (Unit {0})
write h u w = (ok tt, λ o. if same o u.owner then some u.entries else w o)

abbrev codecs_of_none : Codecs
codecs_of_none = record {
  registry_val_address = λ t. none;
  registry_val_error = λ t. codes "invalid address";
  registry_acc_address = λ t. none;
  registry_acc_error = λ t. codes "invalid address";
  staking_val_address = λ t. none;
  staking_val_error = λ t. codes "invalid address";
  staking_val_address_text = λ a. none;
  staking_val_text_error = λ t. codes "invalid address";
}

abbrev two_owners : Staking Two
two_owners = record {
  ValidatorOthers = ℕ;
  Owner = Bool;
  EntryOthers = ℕ;
  Key = Bytes;
  iterate_validators = λ h w. (ok [], w);
  get_all_delegations = λ h w. (ok [], w);
  iterate_redelegations = λ h w. (ok [], w);
  set_redelegation = write;
  iterate_unbonding_delegations = λ h w. (ok [], w);
  set_unbonding_delegation = write;
  validators_keys = λ w. (ok [], w);
  address_from_validators_key = λ k. k;
  close_iterator = λ w. (ok tt, w);
  get_validator = λ h a w. (err (codes "no validator"), w);
  set_validator = λ h v w. (ok tt, w);
  apply_and_return_validator_set_updates = λ h w. (ok tt, w);
}

abbrev free : Distribution Two
free = record {
  DecCoins = ℕ;
  withdraw_validator_commission = λ h a w. (ok tt, w);
  withdraw_delegation_rewards = λ h a b w. (ok tt, w);
  delete_all_validator_slash_events = λ h w. (ok tt, w);
  delete_all_validator_historical_rewards = λ h w. (ok tt, w);
  get_validator_outstanding_rewards_coins = λ h a w. (ok 0, w);
  get_fee_pool = λ h w. (ok (record { community_pool = 0 }), w);
  set_fee_pool = λ h p w. (ok tt, w);
  add_coins = λ c d. c;
  after_validator_created = λ h a w. (ok tt, w);
  before_delegation_created = λ h a b w. (ok tt, w);
  after_delegation_modified = λ h a b w. (ok tt, w);
}

abbrev no_log : Text → Call Two (Unit {0})
no_log t w = (ok tt, w)

sames_lem : (a b : Bool) → same a b ≡ true → a ≡ b
sames_lem true true e = refl
sames_lem false false e = refl
sames_lem true false e = cc
sames_lem false true e = cc

write-Stores : Stores ⊥ same (λ (w : Two) o. w o) (write (pos 8))
write-Stores = record { sames = sames_lem; puts = λ u w o. refl }

abbrev mine : Unbonding Bool ℕ
mine = record {
  owner = true;
  entries =
      record { creation_height = pos 5; others = 1 }
      ∷ record { creation_height = pos 6; others = 2 }
      ∷ [];
}

abbrev holding : Two
holding o = if o then some mine.entries else none

for_each-reset_redelegation_example :
    Returns {World = Two} ⊥
      (λ _ w'.
        (o : Bool)
        → After
            (visited ⊥ same (λ (w : Two) o. w o) (write (pos 8)) o (mine ∷ []))
            (holding o)
            (w' o))
      (for_each
        (reset_redelegation codecs_of_none two_owners free no_log (pos 8))
        (mine ∷ [])
        holding)
for_each-reset_redelegation_example =
    for_each-reset_redelegation codecs_of_none two_owners free no_log ⊥ same (λ (w : Two) o. w o)
      (pos 8) (mine ∷ []) holding write-Stores (refl, tt)

for_each-reset_unbonding_delegation_example :
    Returns {World = Two} ⊥
      (λ _ w'.
        (o : Bool)
        → After
            (visited ⊥ same (λ (w : Two) o. w o) (write (pos 8)) o (mine ∷ []))
            (holding o)
            (w' o))
      (for_each
        (reset_unbonding_delegation codecs_of_none two_owners free no_log (pos 8))
        (mine ∷ [])
        holding)
for_each-reset_unbonding_delegation_example =
    for_each-reset_unbonding_delegation codecs_of_none two_owners free no_log ⊥ same
      (λ (w : Two) o. w o) (pos 8) (mine ∷ []) holding write-Stores (refl, tt)
