-- ===== src/Export/Keepers.antt =====
-- The keepers and codecs that the export calls. A call that takes an `sdk.Context` takes the
-- context's block height; what it reads and writes is the world.
use aegis_mirror.Base.{Bool, Option, List}
use aegis_mirror.Base.Int.{ℤ}
use aegis_mirror.Base.Text.{Text}
use aegis_mirror.Base.Effect.{Call}

abbrev pub Height : Type 0
Height = ℤ

-- The bytes of an address, and the text of one.
abbrev pub Bytes : Type 0
Bytes = Text

-- `stakingtypes.Validator`: the fields that the export reads or writes, and the others.
pub record Validator (Others : Type 0) : Type 0 where
  pub operator_address : Text
  pub jailed : Bool
  pub unbonding_height : Height
  pub others : Others

-- `stakingtypes.Delegation`
pub record Delegation : Type 0 where
  pub delegator_address : Text
  pub validator_address : Text

-- An entry of a `stakingtypes.Redelegation` or `stakingtypes.UnbondingDelegation`.
pub record Entry (Others : Type 0) : Type 0 where
  pub creation_height : Height
  pub others : Others

-- A `stakingtypes.Redelegation` or `stakingtypes.UnbondingDelegation`: who it belongs to, and its
-- entries.
pub record Unbonding (Owner Others : Type 0) : Type 0 where
  pub owner : Owner
  pub entries : List (Entry Others)

-- `distrtypes.FeePool`
pub record FeePool (DecCoins : Type 0) : Type 0 where
  pub community_pool : DecCoins

-- Address codecs. An error is `none`, and its text the `_error` of the same argument.
pub record Codecs : Type 0 where
  pub registry_val_address : Text → Option Bytes
  pub registry_val_error : Text → Text
  pub registry_acc_address : Text → Option Bytes
  pub registry_acc_error : Text → Text
  pub staking_val_address : Text → Option Bytes
  pub staking_val_error : Text → Text
  pub staking_val_address_text : Bytes → Option Text
  pub staking_val_text_error : Bytes → Text

-- The staking keeper. An iteration gives the values that it visits, in order, or the error with which
-- it ends before the first of them.
pub record Staking (World : Type 0) : Type 1 where
  pub ValidatorOthers : Type 0
  pub Owner : Type 0
  pub EntryOthers : Type 0
  pub Key : Type 0
  pub iterate_validators : Height → Call World (List (Validator ValidatorOthers))
  pub get_all_delegations : Height → Call World (List Delegation)
  pub iterate_redelegations : Height → Call World (List (Unbonding Owner EntryOthers))
  pub set_redelegation : Height → Unbonding Owner EntryOthers → Call World (Unit {0})
  pub iterate_unbonding_delegations : Height → Call World (List (Unbonding Owner EntryOthers))
  pub set_unbonding_delegation : Height → Unbonding Owner EntryOthers → Call World (Unit {0})
  -- `KVStoreReversePrefixIterator` over `ValidatorsKey`: the keys that it visits.
  pub validators_keys : Call World (List Key)
  pub address_from_validators_key : Key → Bytes
  pub close_iterator : Call World (Unit {0})
  pub get_validator : Height → Bytes → Call World (Validator ValidatorOthers)
  pub set_validator : Height → Validator ValidatorOthers → Call World (Unit {0})
  pub apply_and_return_validator_set_updates : Height → Call World (Unit {0})

-- The distribution keeper and its hooks.
pub record Distribution (World : Type 0) : Type 1 where
  pub DecCoins : Type 0
  pub withdraw_validator_commission : Height → Bytes → Call World (Unit {0})
  pub withdraw_delegation_rewards : Height → Bytes → Bytes → Call World (Unit {0})
  pub delete_all_validator_slash_events : Height → Call World (Unit {0})
  pub delete_all_validator_historical_rewards : Height → Call World (Unit {0})
  pub get_validator_outstanding_rewards_coins : Height → Bytes → Call World DecCoins
  pub get_fee_pool : Height → Call World (FeePool DecCoins)
  pub set_fee_pool : Height → FeePool DecCoins → Call World (Unit {0})
  pub add_coins : DecCoins → DecCoins → DecCoins
  pub after_validator_created : Height → Bytes → Call World (Unit {0})
  pub before_delegation_created : Height → Bytes → Bytes → Call World (Unit {0})
  pub after_delegation_modified : Height → Bytes → Bytes → Call World (Unit {0})
