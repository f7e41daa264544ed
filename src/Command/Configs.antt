-- ===== src/Command/Configs.antt =====
-- chain/cmd/mirrorvaultd/cmd/config.go: `initCometBFTConfig` and `initAppConfig`. Of a configuration
-- of a library, the fields that the code sets are written out, and the others are one field.
use aegis_mirror.Base.{ℕ, Bool, true, List, [], ◌∷◌, ◌++◌}
use aegis_mirror.Base.Text.{Text, codes}

-- `serverconfig.Config`, `EVMConfig` and `JSONRPCConfig`
pub record ServerConfig (Others : Type 0) : Type 0 where
  pub min_gas_prices : Text
  pub others : Others

pub record EvmConfig (Others : Type 0) : Type 0 where
  pub evm_chain_id : ℕ
  pub others : Others

pub record JsonRpcConfig (Others : Type 0) : Type 0 where
  pub enable : Bool
  pub address : Text
  pub api : List Text
  pub others : Others

-- The configurations that the libraries give.
pub record Defaults : Type 1 where
  pub CometConfig : Type 0
  pub ServerOthers : Type 0
  pub EvmOthers : Type 0
  pub JsonRpcOthers : Type 0
  pub TlsConfig : Type 0
  pub comet_config : CometConfig
  pub server_config : ServerConfig ServerOthers
  pub evm_config : EvmConfig EvmOthers
  pub json_rpc_config : JsonRpcConfig JsonRpcOthers
  pub tls_config : TlsConfig
  pub config_template : Text
  pub evm_config_template : Text

module _ (D : Defaults) where
  -- `EVMAppConfig`
  pub record EvmAppConfig : Type 0 where
    pub config : ServerConfig D.ServerOthers
    pub evm : EvmConfig D.EvmOthers
    pub json_rpc : JsonRpcConfig D.JsonRpcOthers
    pub tls : D.TlsConfig

  unfoldable pub init_comet_bft_config : D.CometConfig
  init_comet_bft_config = D.comet_config

  -- The template and the configuration.
  unfoldable pub init_app_config : Text × EvmAppConfig
  init_app_config = (
    D.config_template ++ D.evm_config_template,
    record {
      config = record D.server_config { min_gas_prices = codes "0umvlt" };
      evm = record D.evm_config { evm_chain_id = 7777 };
      json_rpc = record D.json_rpc_config {
        enable = true;
        address = codes "0.0.0.0:8545";
        api = codes "eth" ∷ codes "net" ∷ codes "web3" ∷ codes "txpool" ∷ codes "debug" ∷ [];
      };
      tls = D.tls_config;
    },
  )
