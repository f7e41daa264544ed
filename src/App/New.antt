-- ===== src/App/New.antt =====
-- `New` of chain/app/app.go, one definition for each of its parts.
pub mod Stores
pub mod Version
pub mod ChainId
use aegis_mirror.Base.{ℕ, ◌==◌, Bool, Option, none, some, List, [], ◌∷◌, ◌++◌, if◌then◌else◌}
use aegis_mirror.Base.Text.{Text}
use aegis_mirror.Base.Effect.{Call, pure, or_panic, for_each, ◌>>=◌, ◌>>◌}
use aegis_mirror.Accounts.ModuleAccounts.{TextMap, insert, lookup}
use aegis_mirror.App.Wiring.{
  StoreType, store_type_db, store_type_transient, Options, StoreNames, Parts, Injected, App,
  EvmArgs, WiringOps,
}

-- `evmChainID`: 7777 if the option is missing or zero.
unfoldable pub evm_chain_id : ℕ → ℕ
evm_chain_id given = if given == 0 then 7777 else given

module _ {World : Type 0} (T : Parts) (O : WiringOps T World) (N : StoreNames) where
  -- The store keys, of the two kinds.
  pub record StoreKeys : Type 0 where
    pub store_keys : TextMap T.Key
    pub transient_keys : TextMap T.Key

  unfoldable pub new_keys : Call World StoreKeys
  new_keys = do
    store_keys ← O.new_kv_store_keys (N.evm ∷ N.feemarket ∷ N.erc20 ∷ N.precisebank ∷ [])
    transient_keys ← O.new_transient_store_keys (N.evm_transient ∷ N.feemarket_transient ∷ [])
    pure (record { store_keys = store_keys; transient_keys = transient_keys })

  -- `for _, key := range keys { app.App.MountStore(key, storeType) }`
  unfoldable pub mount_all : T.Runtime → StoreType → TextMap T.Key → Call World (Unit {0})
  unfolding for_each
  mount_all app store_type keys = do
    entries ← O.range_map keys
    for_each (λ e. O.mount_store app e.1 store_type) entries

  -- `for key, value := range evmStoreKeys { allKeys[key] = value }`
  unfoldable pub copy_keys : List (Text × T.Key) → TextMap T.Key → TextMap T.Key
  unfolding insert
  copy_keys [] all_keys = all_keys
  copy_keys ((key, value) ∷ entries) all_keys = copy_keys entries (insert key value all_keys)

  -- The keepers of the EVM, and the modules that are made of them.
  unfoldable pub add_evm :
      Options T.Others → Injected T → StoreKeys → T.Runtime → Call World (App T)
  unfolding copy_keys lookup evm_chain_id
  add_evm opts i keys runtime = do
    let authority = O.module_address N.gov
    fee_market ←
        O.new_fee_market_keeper i.app_codec authority (lookup N.feemarket keys.store_keys)
          (lookup N.feemarket_transient keys.transient_keys)
    precise_bank ←
        O.new_precise_bank_keeper i.app_codec (lookup N.precisebank keys.store_keys) i.bank_keeper
          i.auth_keeper
    entries ← O.range_map keys.store_keys
    evm ← O.new_evm_keeper (record {
      app_codec = i.app_codec;
      store_key = lookup N.evm keys.store_keys;
      transient_key = lookup N.evm_transient keys.transient_keys;
      all_keys = copy_keys entries [];
      authority = authority;
      auth_keeper = i.auth_keeper;
      bank_keeper = precise_bank;
      staking_keeper = i.staking_keeper;
      fee_market_keeper = fee_market;
      consensus_params_keeper = i.consensus_params_keeper;
      erc20_keeper = none;
      chain_id = evm_chain_id opts.evm_chain_id;
      tracer = opts.evm_tracer;
    })
    erc20 ←
        O.new_erc20_keeper (lookup N.erc20 keys.store_keys) i.app_codec authority i.auth_keeper
          i.bank_keeper evm i.staking_keeper
    O.new_vm_module evm i.auth_keeper i.bank_keeper
    O.new_fee_market_module fee_market
    O.new_erc20_module erc20 i.auth_keeper
    O.new_precise_bank_module precise_bank i.bank_keeper i.auth_keeper
    simulation ← O.new_simulation_manager runtime
    O.register_store_decoders simulation
    pure (record {
      app = runtime;
      legacy_amino = i.legacy_amino;
      app_codec = i.app_codec;
      tx_config = i.tx_config;
      interface_registry = i.interface_registry;
      auth_keeper = i.auth_keeper;
      bank_keeper = i.bank_keeper;
      staking_keeper = i.staking_keeper;
      distr_keeper = i.distr_keeper;
      consensus_params_keeper = i.consensus_params_keeper;
      fee_market_keeper = fee_market;
      precise_bank_keeper = precise_bank;
      evm_keeper = evm;
      erc20_keeper = erc20;
      simulation_manager = simulation;
    })

  -- `New`
  unfoldable pub new : Bool → Options T.Others → List T.BaseOption → Call World (App T)
  unfolding new_keys mount_all add_evm
  new load_latest opts base_app_options = do
    i ← or_panic (O.inject opts)
    keys ← new_keys
    runtime ← O.build i.app_builder (base_app_options ++ O.set_optimistic_execution ∷ [])
    mount_all runtime store_type_db keys.store_keys
    mount_all runtime store_type_transient keys.transient_keys
    app ← add_evm opts i keys runtime
    or_panic (O.load runtime load_latest)
    pure app
