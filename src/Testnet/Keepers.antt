-- ===== src/Testnet/Keepers.antt =====
-- The keepers that the in-place testnet calls.
use aegis_mirror.Base.{ℕ, Bool, Option, List}
use aegis_mirror.Base.Int.{ℤ}
use aegis_mirror.Base.Text.{Text}
use aegis_mirror.Base.Effect.{Call}
use aegis_mirror.MultiNode.Sdk.{CommissionRates}

-- `stakingtypes.BondStatus`
pub data BondStatus : Type 0 where
  unspecified unbonded unbonding bonded : BondStatus

-- `stakingtypes.Validator`, with the fields that the code sets. The shares are whole.
pub record NewValidator (PubKeyAny : Type 0) : Type 0 where
  pub operator_address : Text
  pub consensus_pubkey : PubKeyAny
  pub jailed : Bool
  pub status : BondStatus
  pub tokens : ℤ
  pub delegator_shares : ℕ
  pub moniker : Text
  pub commission_rates : CommissionRates
  pub min_self_delegation : ℤ

-- The four groups of keys of the staking store that are emptied.
pub data Group : Type 0 where
  power_index last_validators validators validator_queue : Group

-- The staking keeper and its store. An iterator gives the keys that it visits.
pub record StakingOps (World PubKey : Type 0) : Type 1 where
  pub Key : Type 0
  pub PubKeyAny : Type 0
  pub new_any_with_value : PubKey → Call World PubKeyAny
  pub val_address : Text → Option Text
  pub val_address_error : Text → Text
  pub iterator : Group → Call World (List Key)
  pub delete : Key → Call World (Unit {0})
  pub close_iterator : Call World (Unit {0})
  pub set_validator : NewValidator PubKeyAny → Call World (Unit {0})
  pub set_validator_by_cons_addr : NewValidator PubKeyAny → Call World (Unit {0})
  pub set_validator_by_power_index : NewValidator PubKeyAny → Call World (Unit {0})
  pub set_last_validator_power : Text → ℤ → Call World (Unit {0})
  pub after_validator_created : Text → Call World (Unit {0})
  pub bond_denom : Call World Text

-- The distribution keeper: the records of a validator, with empty rewards.
pub record DistributionOps (World : Type 0) : Type 0 where
  pub set_historical_rewards : Text → ℕ → ℕ → Call World (Unit {0})
  pub set_current_rewards : Text → ℕ → Call World (Unit {0})
  pub set_accumulated_commission : Text → Call World (Unit {0})
  pub set_outstanding_rewards : Text → Call World (Unit {0})

-- The bank keeper, the codec of account addresses, and the terminal.
pub record BankOps (World : Type 0) : Type 1 where
  pub Coins : Type 0
  pub new_coins : Text → ℤ → Call World Coins
  pub mint_coins : Text → Coins → Call World (Unit {0})
  pub acc_address : Text → Option Text
  pub acc_address_error : Text → Text
  pub send_coins_from_module_to_account : Text → Text → Coins → Call World (Unit {0})
  pub mint_module : Text
  pub print_stderr : Text → Call World (Unit {0})
