-- ===== src/Tests/Apps.antt =====
-- The application: its prefixes, modules, stores and versions.
use aegis_mirror.Base.{
  ℕ, ◌≡◌, ◌≢◌, ◌⊎◌, refl, ap, Bool, true, false, Option, none, some, List, [], ◌∷◌, ◌||◌, map,
  if◌then◌else◌, ◌&&◌, not,
}
use mathlib.Core.Logic.{ite}
use native.Mathlib.Decide.{ℕ_discrete}
use aegis_mirror.Base.Int.{ℤ, pos, negsuc, eqb_ℤ}
use aegis_mirror.Base.Text.{Text, codes, text_eq}
use aegis_mirror.Base.Effect.{ok, Returns}
use aegis_mirror.MultiNode.Args.{default_bond_denom}
use aegis_mirror.Accounts.ModuleAccounts.{
  Names, TextMap, lookup, listed, blocked_addresses, block_acc_addrs, module_acc_perms, has_account,
  lookup-blocked_addresses_mint,
}
use aegis_mirror.App.Prefixes.{ConfigOps, init_config}
use aegis_mirror.App.Prefixes.Sealed.{SdkConfig, SetsConfig, init_config-prefixes}
use aegis_mirror.App.Modules.{
  ModuleNames, ModuleConfig, runtime_module, app_config, auth_module, staking_module,
}
use aegis_mirror.App.Modules.Order.{IsWired, runtime_module-IsWired}
use aegis_mirror.App.Wiring.{
  StoreType, store_type_db, store_type_transient, Options, StoreNames, Parts, App, WiringOps,
}
use aegis_mirror.App.New.{new, evm_chain_id}
use aegis_mirror.App.New.Stores.{Mounts, among, held, kv_keys, transient_keys, new-mounted}
use aegis_mirror.App.New.Version.{create_app-version}
use aegis_mirror.App.New.ChainId.{evm_chain_id-init_app_config}
use aegis_mirror.Command.Configs.{Defaults, init_app_config}
use aegis_mirror.Export.Command.{create_app}

abbrev names : Names
names = record {
  fee_collector = codes "fee_collector";
  distribution = codes "distribution";
  mint = codes "mint";
  bonded_pool = codes "bonded_tokens_pool";
  not_bonded_pool = codes "not_bonded_tokens_pool";
  staking = codes "staking";
  minter = codes "minter";
  burner = codes "burner";
}

abbrev module_names : ModuleNames
module_names = record {
  runtime = codes "runtime";
  auth = codes "auth";
  bank = codes "bank";
  genutil = codes "genutil";
  consensus = codes "consensus";
}

lookup-blocked_addresses_mint_example :
    lookup (codes "staking") (blocked_addresses (block_acc_addrs names) (module_acc_perms names))
    ≡ (if has_account (codes "staking") (module_acc_perms names)
          && not (text_eq (codes "staking") (codes "mint"))
        then some true
        else none)
unfolding listed block_acc_addrs text_eq
lookup-blocked_addresses_mint_example = lookup-blocked_addresses_mint names (codes "staking") refl

runtime_module-IsWired_example :
    IsWired
      (map (λ (c : ModuleConfig). c.name) (app_config names module_names))
      (codes "auth")
      (codes "staking")
      (codes "genutil")
      (runtime_module names module_names)
runtime_module-IsWired_example = runtime_module-IsWired names module_names

-- A world that is the bond denomination and the configuration.
abbrev Setup : Type 0
Setup = Text × SdkConfig

abbrev setters : ConfigOps Setup
setters = record {
  set_default_bond_denom = λ t w. (ok tt, (t, w.1));
  set_coin_type = λ n w. (ok tt, (w.0, record w.1 { coin_type = n }));
  set_bech32_prefix_for_account =
      λ a p w. (ok tt, (w.0, record w.1 { account = a; account_pub = p }));
  set_bech32_prefix_for_validator =
      λ a p w. (ok tt, (w.0, record w.1 { validator = a; validator_pub = p }));
  set_bech32_prefix_for_consensus_node =
      λ a p w. (ok tt, (w.0, record w.1 { consensus = a; consensus_pub = p }));
  seal = λ w. (ok tt, (w.0, record w.1 { sealed = true }));
}

abbrev fresh : Setup
fresh = (
  [],
  record {
    coin_type = 118;
    account = [];
    account_pub = [];
    validator = [];
    validator_pub = [];
    consensus = [];
    consensus_pub = [];
    sealed = false;
  },
)

setters-SetsConfig : SetsConfig setters ⊥ (λ w. w.1) (λ w. w.0)
setters-SetsConfig = record {
  denom = λ t w. (refl, refl);
  coin_type = λ n w h. (refl, refl);
  account = λ a p w h. (refl, refl);
  validator = λ a p w h. (refl, refl);
  consensus = λ a p w h. (refl, refl);
  seals = λ w. (refl, refl);
}

init_config-prefixes_example :
    Returns ⊥
      (λ _ w'.
        (w'.1.sealed ≡ true)
        × (w'.1.coin_type ≡ 60)
        × (w'.1.account ≡ (auth_module names module_names).bech32_prefix)
        × (w'.1.validator ≡ (staking_module names module_names).bech32_prefix_validator)
        × (w'.1.consensus ≡ (staking_module names module_names).bech32_prefix_consensus)
        × (w'.0 ≡ default_bond_denom))
      (init_config setters fresh)
init_config-prefixes_example =
    init_config-prefixes setters ⊥ (λ w. w.1) (λ w. w.0) setters-SetsConfig names module_names fresh
      refl

-- An application whose parts carry nothing but the store keys; a key is the number of its name's
-- bytes, from 100 on for a transient store.
abbrev parts : Parts
parts = record {
  Others = Unit {0};
  BaseOption = Unit {0};
  Codec = Unit {0};
  Amino = Unit {0};
  TxConfig = Unit {0};
  Registry = Unit {0};
  Auth = Unit {0};
  Bank = Unit {0};
  Staking = Unit {0};
  Distr = Unit {0};
  Consensus = Unit {0};
  Builder = Unit {0};
  Runtime = Unit {0};
  Key = ℕ;
  Address = Text;
  FeeMarket = Unit {0};
  PreciseBank = Unit {0};
  Evm = Unit {0};
  Erc20 = Unit {0};
  Simulation = Unit {0};
}

abbrev kv_key : Text → ℕ
kv_key [] = 0
kv_key (c ∷ t) = c

abbrev transient_key : Text → ℕ
transient_key [] = 1000
transient_key (c ∷ t) = 1000

abbrev keyed : (Text → ℕ) → List Text → TextMap ℕ
keyed key [] = []
keyed key (n ∷ ns) = (n, key n) ∷ keyed key ns

-- The mounted stores and the version.
abbrev Stores : Type 0
Stores = (ℕ → Option StoreType) × Option ℤ

abbrev own_stores : ℕ → Option StoreType
own_stores k = ite (ℕ_discrete k 7) (some store_type_db) none

abbrev ops : WiringOps parts Stores
ops = record {
  inject = λ o w. (
    ok (record {
      app_builder = tt;
      app_codec = tt;
      legacy_amino = tt;
      tx_config = tt;
      interface_registry = tt;
      auth_keeper = tt;
      bank_keeper = tt;
      staking_keeper = tt;
      distr_keeper = tt;
      consensus_params_keeper = tt;
    }),
    w,
  );
  new_kv_store_keys = λ ns w. (ok (keyed kv_key ns), w);
  new_transient_store_keys = λ ns w. (ok (keyed transient_key ns), w);
  set_optimistic_execution = tt;
  build = λ b o w. (ok tt, (own_stores, w.1));
  range_map = λ m w. (ok m, w);
  mount_store = λ a j t w. (ok tt, (λ k. ite (ℕ_discrete k j) (some t) (w.0 k), w.1));
  module_address = λ t. t;
  new_fee_market_keeper = λ c a k t w. (ok tt, w);
  new_precise_bank_keeper = λ c k b a w. (ok tt, w);
  new_evm_keeper = λ a w. (ok tt, w);
  new_erc20_keeper = λ k c d a b e s w. (ok tt, w);
  new_vm_module = λ e a b w. (ok tt, w);
  new_fee_market_module = λ f w. (ok tt, w);
  new_erc20_module = λ e a w. (ok tt, w);
  new_precise_bank_module = λ p b a w. (ok tt, w);
  new_simulation_manager = λ a w. (ok tt, w);
  register_store_decoders = λ s w. (ok tt, w);
  load = λ a b w. (ok tt, (w.0, if b then some (pos 9) else none));
}

abbrev store_names : StoreNames
store_names = record {
  evm = codes "vm";
  feemarket = codes "feemarket";
  erc20 = codes "erc20";
  precisebank = codes "precisebank";
  evm_transient = codes "transient_evm";
  feemarket_transient = codes "transient_feemarket";
  gov = codes "gov";
}

held-keyed :
    (key : Text → ℕ) (ns : List Text) (k : ℕ)
    → held parts ops store_names ⊥ ℕ_discrete
        (λ w. w.0)
        own_stores
        kv_key
        transient_key
        k
        (keyed key ns)
      ≡ among parts ops store_names ⊥ ℕ_discrete
          (λ w. w.0)
          own_stores
          kv_key
          transient_key
          k
          (map key ns)
held-keyed key [] k = refl
held-keyed key (n ∷ ns) k =
    ap (λ b. ite (ℕ_discrete k (key n)) true false || b) (held-keyed key ns k)

ops-Mounts : Mounts parts ops store_names ⊥ ℕ_discrete (λ w. w.0) own_stores kv_key transient_key
ops-Mounts = record {
  injects = λ o w. refl;
  kv_keys_made = λ ns w. (refl, held-keyed kv_key ns);
  transient_keys_made = λ ns w. (refl, held-keyed transient_key ns);
  builds = λ b o w. refl;
  ranges = λ m w. (refl, λ k. refl);
  mounts = λ a j t w k. refl;
  fee_market = λ c a k t w. refl;
  precise_bank = λ c k b a w. refl;
  evm = λ a w. refl;
  erc20 = λ k c d a b e s w. refl;
  vm_module = λ e a b w. refl;
  fee_market_module = λ f w. refl;
  erc20_module = λ e a w. refl;
  precise_bank_module = λ p b a w. refl;
  simulation = λ a w. refl;
  decoders = λ s w. refl;
  loads = λ a b w. refl;
}

abbrev no_options : Options (Unit {0})
no_options = record { evm_chain_id = 0; evm_tracer = []; others = tt }

abbrev empty_stores : Stores
empty_stores = (λ k. none, none)

new-mounted_example :
    Returns ⊥
      (λ _ w'.
        (k : ℕ)
        → w'.0 k ≡ (
            if among parts ops store_names ⊥ ℕ_discrete
              (λ w. w.0)
              own_stores
              kv_key
              transient_key
              k
              (transient_keys parts ops store_names ⊥ ℕ_discrete
                (λ w. w.0)
                own_stores
                kv_key
                transient_key)
            then some store_type_transient
            else if among parts ops store_names ⊥ ℕ_discrete
                (λ w. w.0)
                own_stores
                kv_key
                transient_key
                k
                (kv_keys parts ops store_names ⊥ ℕ_discrete
                  (λ w. w.0)
                  own_stores
                  kv_key
                  transient_key)
            then some store_type_db
            else own_stores k))
      (new parts ops store_names true no_options [] empty_stores)
new-mounted_example =
    new-mounted parts ops store_names ⊥ ℕ_discrete (λ w. w.0) own_stores kv_key transient_key
      ops-Mounts true no_options [] empty_stores

create_app-version_example :
    Returns ⊥
      (λ _ w'. w'.1 ≡ some (if eqb_ℤ (pos 4) (negsuc 0) then pos 9 else pos 4))
      (create_app
        (λ load_latest opts. new parts ops store_names load_latest no_options [])
        (λ (a : App parts) h w. (ok tt, (w.0, some h)))
        (λ (a : App parts) (z : Bool) (j m : List Text) w. (ok tt, w))
        (pos 4)
        (record { home = some (codes "/h"); is_viper = true })
        empty_stores)
create_app-version_example =
    create_app-version parts ops store_names ⊥ ℕ_discrete (λ w. w.0) own_stores kv_key transient_key
      ops-Mounts (λ w. w.1) (pos 9) {Exported = Unit {0}} (λ a b w. refl)
      (λ a h w. (ok tt, (w.0, some h))) (λ a z j m w. (ok tt, w)) (λ o. no_options) (pos 4)
      (record { home = some (codes "/h"); is_viper = true }) empty_stores λ a w. refl

abbrev library_configs : Defaults
library_configs = record {
  CometConfig = Unit {0};
  ServerOthers = Unit {0};
  EvmOthers = Unit {0};
  JsonRpcOthers = Unit {0};
  TlsConfig = Unit {0};
  comet_config = tt;
  server_config = record { min_gas_prices = []; others = tt };
  evm_config = record { evm_chain_id = 1; others = tt };
  json_rpc_config = record { enable = false; address = []; api = []; others = tt };
  tls_config = tt;
  config_template = [];
  evm_config_template = [];
}

evm_chain_id-init_app_config_example :
    (evm_chain_id 5 ≢ 0)
    × ((evm_chain_id 5 ≡ 5) ⊎ ((◌≡◌ {A = ℕ} 5 0) × (evm_chain_id 5 ≡ 7777)))
    × (evm_chain_id (init_app_config library_configs).1.evm.evm_chain_id ≡ evm_chain_id 0)
evm_chain_id-init_app_config_example = evm_chain_id-init_app_config library_configs 5
