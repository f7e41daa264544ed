-- ===== src/MultiNode/Sdk.antt =====
-- The code outside the repository that the `multi-node` command calls: the operating system, the
-- Cosmos SDK and CometBFT. Every call may change the world, fail or panic.
use aegis_mirror.Base.{ℕ, Bool, Option, List}
use aegis_mirror.Base.Int.{ℤ}
use aegis_mirror.Base.Text.{Text}
use aegis_mirror.Base.Effect.{Call}
use aegis_mirror.Base.Paths.{FilePath}
use aegis_mirror.MultiNode.Config.{NodeConfig, AppConfig}

-- The operating system: files, the clock, random numbers and the terminal.
pub record Os (World : Type 0) : Type 1 where
  pub File : Type 0
  pub Time : Type 0
  -- The greatest number of strings, or of interface values, of 16 bytes each, that the address space
  -- has room for.
  pub max_length : ℕ
  pub getwd : Call World FilePath
  pub mkdir_all : FilePath → ℕ → Call World (Unit {0})
  pub remove_all : Text → Call World (Unit {0})
  pub write_file : FilePath → Text → ℕ → Call World (Unit {0})
  pub open_file : FilePath → Call World File
  pub create_file : FilePath → Call World File
  pub copy_content : File → File → Call World ℤ
  pub sync_file : File → Call World (Unit {0})
  pub close_file : File → Call World (Unit {0})
  pub now : Call World Time
  -- `Intn(n)` of a source seeded by the clock.
  pub intn : ℕ → Call World ℕ
  pub print_err : Text → Call World (Unit {0})
  -- `%q`
  pub quoted : FilePath → Text

-- One denomination and an amount of it.
pub record CoinOps (World Coin : Type 0) : Type 0 where
  pub int_from_string : Text → Option ℤ
  pub new_coin : Text → ℤ → Call World Coin
  pub tokens_from_power : ℕ → ℤ
  pub sort_coins : List Coin → List Coin

-- `stakingtypes.CommissionRates`, in hundredths.
pub record CommissionRates : Type 0 where
  pub rate : ℕ
  pub max_rate : ℕ
  pub max_change_rate : ℕ

-- `banktypes.Balance`
pub record Balance (Coin : Type 0) : Type 0 where
  pub address : Text
  pub coins : List Coin

-- `tx.Factory`, with the fields that the code sets.
pub record TxFactory (Keyring : Type 0) : Type 0 where
  pub chain_id : Text
  pub memo : Text
  pub keybase : Keyring

-- Keys, accounts, messages and transactions.
pub record Keys (World Coin : Type 0) : Type 1 where
  pub PubKey : Type 0
  pub Keyring : Type 0
  pub Algo : Type 0
  pub Address : Type 0
  pub GenAccount : Type 0
  pub Msg : Type 0
  pub TxBuilder : Type 0
  pub initialize_node_validator_files : NodeConfig → Call World (Text × PubKey)
  pub new_keyring : Text → FilePath → Call World Keyring
  pub supported_algorithms : Keyring → List Algo
  pub signing_algo_from_string : Text → List Algo → Call World Algo
  pub generate_save_coin_key : Keyring → Text → Text → Bool → Algo → Call World (Address × Text)
  pub marshal_info : List (Text × Text) → Call World Text
  pub acc_address_text : Address → Text
  pub val_address_text : Address → Text
  pub new_base_account : Address → ℕ → ℕ → GenAccount
  pub new_msg_create_validator :
      Text → Option PubKey → Coin → Text → CommissionRates → ℤ → Call World Msg
  pub new_tx_builder : TxBuilder
  pub set_msgs : TxBuilder → List Msg → Call World TxBuilder
  pub set_memo : TxBuilder → Text → TxBuilder
  pub sign : TxFactory Keyring → Text → TxBuilder → Bool → Call World TxBuilder
  pub tx_json : TxBuilder → Call World Text

-- The files of a node's configuration. A method of `NodeConfig` that CometBFT declares is a function.
pub record Configs (World : Type 0) : Type 0 where
  pub set_root : FilePath → NodeConfig → NodeConfig
  pub genesis_file : NodeConfig → FilePath
  pub default_app_config : AppConfig
  pub write_app_config : FilePath → AppConfig → Call World (Unit {0})
  pub write_node_config : FilePath → NodeConfig → Call World (Unit {0})
