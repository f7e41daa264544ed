-- ===== src/App/Modules.antt =====
-- `appConfig` of chain/app/app_config.go: the modules with their configurations. The names of the
-- modules are constants of the SDK.
pub mod Order
use aegis_mirror.Base.{◌++◌, Bool, false, List, [], ◌∷◌}
use aegis_mirror.Base.Text.{Text, codes}
use aegis_mirror.Accounts.ModuleAccounts.{
  Names, ModuleAccountPermission, module_acc_perms, block_acc_addrs,
}
use aegis_mirror.App.Prefixes.{name as app_name, account_address_prefix}

-- The constants of the SDK that are not names of module accounts.
pub record ModuleNames : Type 0 where
  pub runtime : Text
  pub auth : Text
  pub bank : Text
  pub genutil : Text
  pub consensus : Text

-- `runtimev1alpha1.Module` and `runtimev1alpha1.StoreKeyConfig`
pub record StoreKeyConfig : Type 0 where
  pub module_name : Text
  pub kv_store_key : Text

pub record RuntimeModule : Type 0 where
  pub app_name : Text
  pub pre_blockers : List Text
  pub begin_blockers : List Text
  pub end_blockers : List Text
  pub override_store_keys : List StoreKeyConfig
  pub init_genesis : List Text

-- `authmodulev1.Module`, `bankmodulev1.Module` and `stakingmodulev1.Module`
pub record AuthModule : Type 0 where
  pub bech32_prefix : Text
  pub module_account_permissions : List ModuleAccountPermission
  pub enable_unordered_transactions : Bool

pub record BankModule : Type 0 where
  pub blocked_module_accounts_override : List Text

pub record StakingModule : Type 0 where
  pub bech32_prefix_validator : Text
  pub bech32_prefix_consensus : Text

-- The configuration of a module; `tx`, `genutil`, `distribution` and `consensus` have an empty one.
pub data Settings : Type 0 where
  runtime_settings : RuntimeModule → Settings
  auth_settings : AuthModule → Settings
  bank_settings : BankModule → Settings
  staking_settings : StakingModule → Settings
  no_settings : Settings

-- `appv1alpha1.ModuleConfig`
pub record ModuleConfig : Type 0 where
  pub name : Text
  pub config : Settings

module _ (N : Names) (M : ModuleNames) where
  unfoldable pub runtime_module : RuntimeModule
  runtime_module = record {
    app_name = app_name;
    pre_blockers = M.auth ∷ [];
    begin_blockers = N.distribution ∷ N.staking ∷ [];
    end_blockers = N.staking ∷ [];
    override_store_keys = record { module_name = M.auth; kv_store_key = codes "acc" } ∷ [];
    init_genesis = M.consensus ∷ M.auth ∷ M.bank ∷ N.distribution ∷ N.staking ∷ M.genutil ∷ [];
  }

  unfoldable pub auth_module : AuthModule
  unfolding module_acc_perms
  auth_module = record {
    bech32_prefix = account_address_prefix;
    module_account_permissions = module_acc_perms N;
    enable_unordered_transactions = false;
  }

  unfoldable pub bank_module : BankModule
  unfolding block_acc_addrs
  bank_module = record { blocked_module_accounts_override = block_acc_addrs N }

  unfoldable pub staking_module : StakingModule
  staking_module = record {
    bech32_prefix_validator = account_address_prefix ++ codes "valoper";
    bech32_prefix_consensus = account_address_prefix ++ codes "valcons";
  }

  unfoldable pub app_config : List ModuleConfig
  unfolding runtime_module auth_module bank_module staking_module
  app_config =
      record { name = M.runtime; config = runtime_settings runtime_module }
      ∷ record { name = M.auth; config = auth_settings auth_module }
      ∷ record { name = M.bank; config = bank_settings bank_module }
      ∷ record { name = N.staking; config = staking_settings staking_module }
      ∷ record { name = codes "tx"; config = no_settings }
      ∷ record { name = M.genutil; config = no_settings }
      ∷ record { name = N.distribution; config = no_settings }
      ∷ record { name = M.consensus; config = no_settings }
      ∷ []
