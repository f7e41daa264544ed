-- ===== src/App/Wiring.antt =====
-- What `New` of chain/app/app.go calls: the dependency injection, the base application, and the
-- constructors of the EVM's keepers and modules.
use aegis_mirror.Base.{ℕ, Bool, Option, List}
use aegis_mirror.Base.Text.{Text}
use aegis_mirror.Base.Effect.{Call}
use aegis_mirror.Accounts.ModuleAccounts.{TextMap}

-- `storetypes.StoreTypeDB` and `storetypes.StoreTypeTransient`
pub data StoreType : Type 0 where
  store_type_db store_type_transient : StoreType

-- The options that `New` reads, after `cast.ToUint64` and `cast.ToString`, and all of them, which
-- are passed on.
pub record Options (Others : Type 0) : Type 0 where
  pub evm_chain_id : ℕ
  pub evm_tracer : Text
  pub others : Others

-- The names of the store keys, constants of the EVM's modules, and the name of the module that has
-- the authority.
pub record StoreNames : Type 0 where
  pub evm : Text
  pub feemarket : Text
  pub erc20 : Text
  pub precisebank : Text
  pub evm_transient : Text
  pub feemarket_transient : Text
  pub gov : Text

-- The types of the values that the injection gives and of the keepers.
pub record Parts : Type 1 where
  pub Others : Type 0
  pub BaseOption : Type 0
  pub Codec : Type 0
  pub Amino : Type 0
  pub TxConfig : Type 0
  pub Registry : Type 0
  pub Auth : Type 0
  pub Bank : Type 0
  pub Staking : Type 0
  pub Distr : Type 0
  pub Consensus : Type 0
  pub Builder : Type 0
  pub Runtime : Type 0
  pub Key : Type 0
  pub Address : Type 0
  pub FeeMarket : Type 0
  pub PreciseBank : Type 0
  pub Evm : Type 0
  pub Erc20 : Type 0
  pub Simulation : Type 0

module _ (T : Parts) where
  -- What `depinject.Inject` fills.
  pub record Injected : Type 0 where
    pub app_builder : T.Builder
    pub app_codec : T.Codec
    pub legacy_amino : T.Amino
    pub tx_config : T.TxConfig
    pub interface_registry : T.Registry
    pub auth_keeper : T.Auth
    pub bank_keeper : T.Bank
    pub staking_keeper : T.Staking
    pub distr_keeper : T.Distr
    pub consensus_params_keeper : T.Consensus

  -- `App`
  pub record App : Type 0 where
    pub app : T.Runtime
    pub legacy_amino : T.Amino
    pub app_codec : T.Codec
    pub tx_config : T.TxConfig
    pub interface_registry : T.Registry
    pub auth_keeper : T.Auth
    pub bank_keeper : T.Bank
    pub staking_keeper : T.Staking
    pub distr_keeper : T.Distr
    pub consensus_params_keeper : T.Consensus
    pub fee_market_keeper : T.FeeMarket
    pub precise_bank_keeper : T.PreciseBank
    pub evm_keeper : T.Evm
    pub erc20_keeper : T.Erc20
    pub simulation_manager : T.Simulation

  -- The arguments of the EVM keeper's constructor, but for the missing ERC20 keeper; the fee market
  -- and consensus keepers are passed by address.
  pub record EvmArgs : Type 0 where
    pub app_codec : T.Codec
    pub store_key : Option T.Key
    pub transient_key : Option T.Key
    pub all_keys : TextMap T.Key
    pub authority : T.Address
    pub auth_keeper : T.Auth
    pub bank_keeper : T.PreciseBank
    pub staking_keeper : T.Staking
    pub fee_market_keeper : T.FeeMarket
    pub consensus_params_keeper : T.Consensus
    pub erc20_keeper : Option T.Erc20
    pub chain_id : ℕ
    pub tracer : Text

  pub record WiringOps (World : Type 0) : Type 0 where
    pub inject : Options T.Others → Call World Injected
    pub new_kv_store_keys : List Text → Call World (TextMap T.Key)
    pub new_transient_store_keys : List Text → Call World (TextMap T.Key)
    pub set_optimistic_execution : T.BaseOption
    pub build : T.Builder → List T.BaseOption → Call World T.Runtime
    -- The order in which `range` visits a map is not specified.
    pub range_map : TextMap T.Key → Call World (List (Text × T.Key))
    pub mount_store : T.Runtime → T.Key → StoreType → Call World (Unit {0})
    pub module_address : Text → T.Address
    pub new_fee_market_keeper :
        T.Codec → T.Address → Option T.Key → Option T.Key → Call World T.FeeMarket
    pub new_precise_bank_keeper :
        T.Codec → Option T.Key → T.Bank → T.Auth → Call World T.PreciseBank
    pub new_evm_keeper : EvmArgs → Call World T.Evm
    pub new_erc20_keeper :
        Option T.Key
        → T.Codec
        → T.Address
        → T.Auth
        → T.Bank
        → T.Evm
        → T.Staking
        → Call World T.Erc20
    -- The four modules that are made and dropped.
    pub new_vm_module : T.Evm → T.Auth → T.Bank → Call World (Unit {0})
    pub new_fee_market_module : T.FeeMarket → Call World (Unit {0})
    pub new_erc20_module : T.Erc20 → T.Auth → Call World (Unit {0})
    pub new_precise_bank_module : T.PreciseBank → T.Bank → T.Auth → Call World (Unit {0})
    pub new_simulation_manager : T.Runtime → Call World T.Simulation
    pub register_store_decoders : T.Simulation → Call World (Unit {0})
    pub load : T.Runtime → Bool → Call World (Unit {0})
