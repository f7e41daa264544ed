-- ===== src/Testnet/Init.antt =====
-- `initAppForTestnet`, one definition for each of its parts, and `newTestnetApp`.
use aegis_mirror.Base.{false, List}
use aegis_mirror.Base.Int.{ℤ, pos}
use aegis_mirror.Base.Text.{Text, codes}
use aegis_mirror.Base.Effect.{
  Result, ok, err, panic, exit, Call, pure, panic_with, or_raise, ignore, for_each, ◌>>=◌, ◌>>◌,
}
use aegis_mirror.Testnet.Args.{ValArgs, TestnetOptions, get_command_args}
use aegis_mirror.Testnet.Keepers.{
  bonded, NewValidator, Group, power_index, last_validators, validators, validator_queue,
  StakingOps, DistributionOps, BankOps,
}

-- `valVotingPower`, and the amount that each account is given.
abbrev pub val_voting_power : ℤ
val_voting_power = pos 900000000000000

abbrev pub funded_amount : ℤ
funded_amount = pos 1000000000

module _ {World PubKey : Type 0} (S : StakingOps World PubKey) (D : DistributionOps World)
    (B : BankOps World) where
  abbrev pub handled : {A : Type 0} → Result A × World → Result A × World
  handled (err e, w) = let (_, w') = B.print_stderr e w in (exit 1, w')
  handled (ok a, w) = (ok a, w)
  handled (panic e, w) = (panic e, w)
  handled (exit n, w) = (exit n, w)

  -- `x, err := m; handleErr(err)`
  unfoldable pub handle_err : {A : Type 0} → Call World A → Call World A
  handle_err m w = handled (m w)

  unfoldable pub new_validator : Text → S.PubKeyAny → NewValidator S.PubKeyAny
  new_validator operator pubkey = record {
    operator_address = operator;
    consensus_pubkey = pubkey;
    jailed = false;
    status = bonded;
    tokens = val_voting_power;
    delegator_shares = 10000000;
    moniker = codes "Testnet Validator";
    commission_rates = record { rate = 5; max_rate = 10; max_change_rate = 5 };
    min_self_delegation = pos 1;
  }

  -- `for ; iterator.Valid(); iterator.Next() { stakingStore.Delete(iterator.Key()) }`, and `Close`.
  unfoldable pub remove_group : Group → Call World (Unit {0})
  unfolding handle_err for_each
  remove_group g = do
    keys ← handle_err (S.iterator g)
    for_each S.delete keys
    ignore S.close_iterator

  unfoldable pub remove_validators : Call World (Unit {0})
  unfolding remove_group
  remove_validators = do
    remove_group power_index
    remove_group last_validators
    remove_group validators
    remove_group validator_queue

  unfoldable pub add_validator : NewValidator S.PubKeyAny → Text → Call World (Unit {0})
  unfolding handle_err
  add_validator new_val validator = do
    handle_err (S.set_validator new_val)
    handle_err (S.set_validator_by_cons_addr new_val)
    handle_err (S.set_validator_by_power_index new_val)
    handle_err (S.set_last_validator_power validator (pos 0))
    handle_err (S.after_validator_created validator)

  unfoldable pub init_distribution : Text → Call World (Unit {0})
  unfolding handle_err
  init_distribution validator = do
    handle_err (D.set_historical_rewards validator 0 1)
    handle_err (D.set_current_rewards validator 1)
    handle_err (D.set_accumulated_commission validator)
    handle_err (D.set_outstanding_rewards validator)

  -- The coins are minted before the account's address is decoded.
  unfoldable pub fund_account : B.Coins → Text → Call World (Unit {0})
  unfolding handle_err
  fund_account coins account_str = do
    handle_err (B.mint_coins B.mint_module coins)
    account ← handle_err (or_raise (B.acc_address account_str) (B.acc_address_error account_str))
    handle_err (B.send_coins_from_module_to_account B.mint_module account coins)

  unfoldable pub fund_accounts : B.Coins → List Text → Call World (Unit {0})
  unfolding for_each fund_account
  fund_accounts coins = for_each (fund_account coins)

  unfoldable pub init_app_for_testnet : ValArgs PubKey → Call World (Unit {0})
  unfolding handle_err new_validator remove_validators add_validator init_distribution fund_accounts
  init_app_for_testnet args = do
    pubkey_any ← handle_err (S.new_any_with_value args.new_val_pub_key)
    let new_val = new_validator args.new_operator_address pubkey_any
    validator ← handle_err (
        or_raise (S.val_address new_val.operator_address)
          (S.val_address_error new_val.operator_address))
    remove_validators
    add_validator new_val validator
    init_distribution validator
    bond_denom ← handle_err S.bond_denom
    default_coins ← B.new_coins bond_denom funded_amount
    fund_accounts default_coins args.accounts_to_fund

  abbrev pub args_or_panic : Result (ValArgs PubKey) → Call World (ValArgs PubKey)
  args_or_panic (err e) = panic_with e
  args_or_panic (ok a) = pure a
  args_or_panic (panic e) = panic_with e
  args_or_panic (exit n) = λ w. (exit n, w)

  -- `newTestnetApp`: the world is the application that `newApp` returns.
  unfoldable pub new_testnet_app :
      Call World (Unit {0}) → TestnetOptions PubKey → Call World (Unit {0})
  unfolding init_app_for_testnet get_command_args
  new_testnet_app new_app opts = do
    new_app
    args ← args_or_panic (get_command_args opts)
    init_app_for_testnet args
