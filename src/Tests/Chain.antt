-- ===== src/Tests/Chain.antt =====
-- The accounts and the in-place testnet.
use aegis_mirror.Base.{
  ℕ, ◌+◌, ◌*◌, ◌≡◌, ◌≢◌, ◌↔◌, refl, Bool, true, false, none, some, List, [], ◌∷◌, ◌&&◌, ◌||◌, arith,
  if◌then◌else◌, ◌==◌,
}
use native.Mathlib.Decide.{ℕ_discrete}
use mathlib.Core.Logic.{ite}
use aegis_mirror.Base.Int.{pos}
use aegis_mirror.Base.Text.{Text, codes, text_eq}
use aegis_mirror.Base.Effect.{ok, err, Returns, Never, ◌>>◌}
use aegis_mirror.Accounts.GenesisAccount.{GenesisAccount, validate, IsValid, validate-IsValid}
use aegis_mirror.Accounts.ModuleAccounts.{
  lookup, blocked_addresses, listed, lookup-blocked_addresses, lookup-blocked_addresses_all,
}
use aegis_mirror.Testnet.Args.{TestnetOptions, ValArgs, get_command_args, get_command_args-ok}
use aegis_mirror.Testnet.Keepers.{Group, StakingOps, DistributionOps, BankOps}
use aegis_mirror.Testnet.Init.{
  remove_validators, add_validator, fund_accounts, new_testnet_app, new_validator,
}
use aegis_mirror.Testnet.Removal
use aegis_mirror.Testnet.Removal.{Deletes, is_removed, remove_validators-present}
use aegis_mirror.Testnet.Single.{Writes, replace_validators-present}
use aegis_mirror.Testnet.Funding.{
  MovesCoins, times, fund_accounts-balance, new_testnet_app_without_accounts,
}

abbrev account : GenesisAccount (Unit {0}) ℕ
account = record {
  base_account = tt;
  original_vesting = 5;
  delegated_free = 0;
  delegated_vesting = 0;
  start_time = pos 3;
  end_time = pos 3;
  module_name = [];
  module_permissions = [];
}

validate-IsValid_example :
    (validate (λ c. c == 0) (λ b. none) (λ m. none) account ≡ none)
    ↔ IsValid (λ c. c == 0) (λ b. none) (λ m. none) account
validate-IsValid_example = validate-IsValid (λ c. c == 0) (λ b. none) (λ m. none) account

lookup-blocked_addresses_example :
    lookup (codes "mint") (blocked_addresses (codes "gov" ∷ codes "mint" ∷ []) []) ≡ some true
unfolding listed text_eq
lookup-blocked_addresses_example =
    lookup-blocked_addresses (codes "mint") (codes "gov") (codes "mint" ∷ []) []

lookup-blocked_addresses_all_example :
    lookup
      (codes "gov")
      (blocked_addresses [] (record { account = codes "gov"; permissions = [] } ∷ []))
    ≡ some true
unfolding text_eq
lookup-blocked_addresses_all_example =
    lookup-blocked_addresses_all (codes "gov")
      (record { account = codes "gov"; permissions = [] } ∷ [])

abbrev options : TestnetOptions ℕ
options = record {
  new_val_addr = some (codes "v");
  user_pub_key = some 9;
  new_op_addr = some (codes "op");
  trigger_testnet_upgrade = some [];
  accounts_to_fund = [];
  home = codes "/home";
}

get_command_args-ok_example : ((a : ValArgs ℕ) × (get_command_args options ≡ ok a)) ↔ (
    (options.new_val_addr ≢ none)
    × (options.user_pub_key ≢ none)
    × (options.new_op_addr ≢ none)
    × (options.trigger_testnet_upgrade ≢ none)
    × (options.home ≢ []))
get_command_args-ok_example = get_command_args-ok options

-- A store of numbers, where 0 is the one key of each group.
abbrev Present : Type 0
Present = ℕ → Bool

abbrev in_group : Group → ℕ → Bool
in_group g k = ite (ℕ_discrete k 0) true false

abbrev kept : Present → ℕ → List ℕ
kept w k = if w k then k ∷ [] else []

abbrev store : StakingOps Present ℕ
store = record {
  Key = ℕ;
  PubKeyAny = ℕ;
  new_any_with_value = λ k w. (ok k, w);
  val_address = λ t. some t;
  val_address_error = λ t. codes "empty address string is not allowed";
  iterator = λ g w. (ok (kept w 0), w);
  delete = λ k w. (ok tt, λ j. ite (ℕ_discrete j k) false (w j));
  close_iterator = λ w. (err (codes "closed"), w);
  set_validator = λ v w. (ok tt, w);
  set_validator_by_cons_addr = λ v w. (ok tt, w);
  set_validator_by_power_index = λ v w. (ok tt, w);
  set_last_validator_power = λ a p w. (ok tt, w);
  after_validator_created = λ a w. (ok tt, w);
  bond_denom = λ w. (ok (codes "stake"), w);
}

abbrev records : {World : Type 0} → DistributionOps World
records = record {
  set_historical_rewards = λ a p c w. (ok tt, w);
  set_current_rewards = λ a p w. (ok tt, w);
  set_accumulated_commission = λ a w. (ok tt, w);
  set_outstanding_rewards = λ a w. (ok tt, w);
}

abbrev no_bank : BankOps Present
no_bank = record {
  Coins = ℕ;
  new_coins = λ d n w. (ok 0, w);
  mint_coins = λ m c w. (ok tt, w);
  acc_address = λ t. none;
  acc_address_error = λ t. codes "empty address string is not allowed";
  send_coins_from_module_to_account = λ m a c w. (ok tt, w);
  mint_module = codes "mint";
  print_stderr = λ t w. (ok tt, w);
}

kept-listed :
    (w : Present) (g : Group) (k : ℕ)
    → Removal.listed store records no_bank ⊥ ℕ_discrete (λ w. w) in_group k (kept w 0)
      ≡ (w k && in_group g k)
kept-listed w g k = ground arith

store-Deletes : Deletes store records no_bank ⊥ ℕ_discrete (λ w. w) in_group
store-Deletes = record {
  iterates = λ g w k. (refl, kept-listed w g k);
  deletes = λ k w j. refl;
  closes = λ w k. refl;
}

remove_validators-present_example :
    Returns ⊥
      (λ _ w'.
        (k : ℕ)
        → w' k ≡ (
            if is_removed store records no_bank ⊥ ℕ_discrete (λ w. w) in_group store-Deletes k
            then false
            else true))
      (remove_validators store records no_bank (λ k. true))
remove_validators-present_example =
    remove_validators-present store records no_bank ⊥ ℕ_discrete (λ w. w) in_group store-Deletes
      (λ k. true)

abbrev written : ℕ → Present → Present
written k w j = ite (ℕ_discrete j k) true false || w j

-- The same store with setters; 1 is the key by consensus address.
abbrev filling : StakingOps Present ℕ
filling = record store {
  set_validator = λ v w. (ok tt, written 0 w);
  set_validator_by_cons_addr = λ v w. (ok tt, written 1 w);
  set_validator_by_power_index = λ v w. (ok tt, if v.jailed then w else written 0 w);
  set_last_validator_power = λ a p w. (ok tt, written 0 w);
}

filling-Deletes : Deletes filling records no_bank ⊥ ℕ_discrete (λ w. w) in_group
filling-Deletes = record {
  iterates = λ g w k. (refl, kept-listed w g k);
  deletes = λ k w j. refl;
  closes = λ w k. refl;
}

filling-Writes :
    Writes filling records no_bank ⊥ ℕ_discrete (λ w. w) in_group (λ v. 0) (λ v. 0) (λ v. 1) λ a. 0
filling-Writes = record {
  validator = λ v w k. refl;
  cons_addr = λ v w k. refl;
  power_index = λ v w free k. rw free refl;
  power_index_jailed = λ v w jailed k. rw jailed refl;
  last_power = λ a p w k. refl;
  hook = λ a w k. refl;
}

replace_validators-present_example :
    Returns ⊥
      (λ _ (w' : Present). w' 0 ≡ true)
      ((remove_validators filling records no_bank
          >> add_validator filling records no_bank
              (new_validator filling records no_bank (codes "op") 9)
              (codes "op"))
        (λ k. true))
unfolding ℕ_discrete
replace_validators-present_example =
    replace_validators-present filling records no_bank ⊥ ℕ_discrete (λ w. w) in_group (λ v. 0)
      (λ v. 0) (λ v. 1) (λ a. 0) filling-Deletes filling-Writes (codes "op") 9 (codes "op")
      (λ k. true) 0 refl

-- A bank that knows the supply and the balances; every text but the empty one is an address.
abbrev Ledger : Type 0
Ledger = ℕ × (Text → ℕ)

abbrev ledger : BankOps Ledger
ledger = record {
  Coins = ℕ;
  new_coins = λ d n w. (ok 5, w);
  mint_coins = λ m c w. (ok tt, (w.0 + c, w.1));
  acc_address = λ t. if text_eq t [] then none else some t;
  acc_address_error = λ t. codes "empty address string is not allowed";
  send_coins_from_module_to_account =
      λ m b c w. (ok tt, (w.0, λ a. if text_eq a b then w.1 a + c else w.1 a));
  mint_module = codes "mint";
  print_stderr = λ t w. (ok tt, w);
}

abbrev no_store : StakingOps Ledger ℕ
no_store = record {
  Key = ℕ;
  PubKeyAny = ℕ;
  new_any_with_value = λ k w. (ok k, w);
  val_address = λ t. some t;
  val_address_error = λ t. codes "empty address string is not allowed";
  iterator = λ g w. (ok [], w);
  delete = λ k w. (ok tt, w);
  close_iterator = λ w. (ok tt, w);
  set_validator = λ v w. (ok tt, w);
  set_validator_by_cons_addr = λ v w. (ok tt, w);
  set_validator_by_power_index = λ v w. (ok tt, w);
  set_last_validator_power = λ a p w. (ok tt, w);
  after_validator_created = λ a w. (ok tt, w);
  bond_denom = λ w. (ok (codes "stake"), w);
}

ledger-MovesCoins :
    MovesCoins no_store records ledger ⊥ (λ w. w.0) (λ w. w.1) (λ c. c) (codes "module")
ledger-MovesCoins = record {
  mints = λ c w. (refl, λ a ne. refl);
  sends = λ b c w. (refl, λ a ne. refl);
}

-- One account is funded twice and another once.
fund_accounts-balance_example :
    Returns ⊥
      (λ _ w'.
        (w'.1 (codes "a")
          ≡ 0
            + 5
              * times no_store records ledger (codes "a") (codes "a" ∷ codes "b" ∷ codes "a" ∷ []))
        × (w'.0 ≡ 100 + 5 * 3))
      (fund_accounts no_store records ledger 5
        (codes "a" ∷ codes "b" ∷ codes "a" ∷ [])
        (100, λ a. 0))
unfolding text_eq
fund_accounts-balance_example =
    fund_accounts-balance no_store records ledger ⊥ (λ w. w.0) (λ w. w.1) (λ c. c) (codes "module")
      ledger-MovesCoins 5 (codes "a" ∷ codes "b" ∷ codes "a" ∷ []) (100, λ a. 0) (codes "a")
      (λ e. cc, (λ e. cc, (λ e. cc, tt))) λ e. cc

new_testnet_app_without_accounts_example :
    Never (new_testnet_app no_store records ledger (λ w. (ok tt, w)) options (100, λ a. 0))
unfolding text_eq
new_testnet_app_without_accounts_example =
    new_testnet_app_without_accounts no_store records ledger (λ w. (ok tt, w)) options (100, λ a. 0)
      refl refl
