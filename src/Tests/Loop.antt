-- ===== src/Tests/Loop.antt =====
-- The loop over the nodes of the `multi-node` command.
use aegis_mirror.Base.{
  ℕ, suc, ◌≡◌, refl, true, false, none, some, List, [], ◌∷◌, ◌++◌, length, replicate,
}
use aegis_mirror.Base.Int.{ℤ, pos}
use aegis_mirror.Base.Text.{Text, codes, itoa, join}
use aegis_mirror.Base.Effect.{ok, Returns}
use aegis_mirror.Base.Paths.{FilePath, join_path}
use aegis_mirror.MultiNode.Args.{InitArgs}
use aegis_mirror.MultiNode.Config.{NodeConfig, AppConfig}
use aegis_mirror.MultiNode.Sdk.{Os, CoinOps, Keys, Configs}
use aegis_mirror.MultiNode.Init.Node.{start, node_rounds}
use aegis_mirror.MultiNode.Genesis.{BankGenesis, GenesisOps}
use aegis_mirror.MultiNode.Collect.{GenutilOps}
use aegis_mirror.MultiNode.Init.{init_testnet_files}
use aegis_mirror.MultiNode.Init.GasPrices.{init_testnet_files_prices}
use aegis_mirror.MultiNode.Init.Peers.{memos}
use aegis_mirror.MultiNode.Init.Stages.{Succeeds}
use aegis_mirror.MultiNode.Init.Loop.{genesis_files, gentx_files, node_rounds-peers}

abbrev top : FilePath
top = record { rooted = true; elems = [] }

abbrev pub empty_config : NodeConfig
empty_config = record {
  root_dir = top;
  moniker = [];
  rpc_listen_address = [];
  persistent_peers = [];
  allow_duplicate_ip = false;
  p2p_listen_address = [];
  proxy_app = [];
  prometheus_listen_addr = [];
  prometheus = false;
}

abbrev pub empty_app_config : AppConfig
empty_app_config = record {
  min_gas_prices = [];
  api_enable = true;
  api_address = [];
  grpc_address = [];
  enable_hostname_label = true;
  telemetry_enabled = true;
  prometheus_retention_time = pos 60;
}

-- The world counts the nodes that were initialized; the id of a node is its number.
abbrev pub system : Os ℕ
system = record {
  File = Unit {0};
  Time = Unit {0};
  getwd = λ w. (ok top, w);
  mkdir_all = λ p m w. (ok tt, w);
  remove_all = λ p w. (ok tt, w);
  write_file = λ p t m w. (ok tt, w);
  open_file = λ p w. (ok tt, w);
  create_file = λ p w. (ok tt, w);
  copy_content = λ d s w. (ok (pos 0), w);
  sync_file = λ f w. (ok tt, w);
  close_file = λ f w. (ok tt, w);
  now = λ w. (ok tt, w);
  max_length = 17592186044416;
  intn = λ n w. (ok 0, w);
  print_err = λ t w. (ok tt, w);
  quoted = λ p. [];
}

abbrev pub amounts : CoinOps ℕ ℤ
amounts = record {
  int_from_string = λ t. none;
  new_coin = λ d n w. (ok n, w);
  tokens_from_power = λ n. pos n;
  sort_coins = λ c. c;
}

abbrev pub key_ring : Keys ℕ ℤ
key_ring = record {
  PubKey = ℕ;
  Keyring = Text;
  Algo = Text;
  Address = Text;
  GenAccount = Text;
  Msg = Text;
  TxBuilder = Text;
  initialize_node_validator_files = λ c w. (ok (itoa (pos w), w), suc w);
  new_keyring = λ b d w. (ok b, w);
  supported_algorithms = λ k. [];
  signing_algo_from_string = λ t a w. (ok t, w);
  generate_save_coin_key = λ k n m o a w. (ok (n, []), w);
  marshal_info = λ t w. (ok [], w);
  acc_address_text = λ a. a;
  val_address_text = λ a. a;
  new_base_account = λ a n s. a;
  new_msg_create_validator = λ a k c n r m w. (ok a, w);
  new_tx_builder = [];
  set_msgs = λ b m w. (ok b, w);
  set_memo = λ b m. m;
  sign = λ f n b o w. (ok b, w);
  tx_json = λ b w. (ok b, w);
}

abbrev pub genesis_in : FilePath → FilePath
genesis_in d = join_path d (codes "genesis.json")

abbrev pub config_files : Configs ℕ
config_files = record {
  set_root = λ d c. record c { root_dir = d };
  genesis_file = λ c. genesis_in c.root_dir;
  default_app_config = empty_app_config;
  write_app_config = λ f c w. (ok tt, w);
  write_node_config = λ f c w. (ok tt, w);
}

abbrev pub given : InitArgs ℤ
given = record {
  algo = codes "eth_secp256k1";
  chain_id = codes "chain";
  keyring_backend = codes "test";
  min_gas_prices = [];
  node_dir_prefix = codes "node";
  num_validators = pos 2;
  output_dir = codes "/out";
  starting_ip_address = codes "localhost";
  validators_stakes_amount = (0, pos 7) ∷ [];
  ports = (1, codes "26654") ∷ (0, codes "26657") ∷ [];
}

system-Succeeds : Succeeds system amounts key_ring config_files given ⊥ genesis_in
system-Succeeds = record {
  mkdir_all = λ p m w. tt;
  write_file = λ p t m w. tt;
  new_coin = λ d n w. tt;
  initializes = λ c w. tt;
  new_keyring = λ d w. tt;
  algo = λ s w. tt;
  saves_key = λ kb n m o a w. tt;
  marshals = λ t w. tt;
  creates = λ a k c n r m w. tt;
  sets_msgs = λ b m w. tt;
  signs = λ f n b o w. tt;
  encodes = λ b w. tt;
  writes = λ p c w. tt;
  roots = λ d c. refl;
  places = λ c. refl;
}

node_rounds-peers_example :
    Returns ⊥
      (λ s _.
        (length s.node_ids ≡ 2)
        × (length s.gen_accounts ≡ 2)
        × (length s.gen_balances ≡ 2)
        × (s.persistent_peers ≡ join b',' (memos (codes "localhost") 0 s.node_ids))
        × (s.gen_files
            ≡ genesis_files system amounts key_ring config_files given ⊥ genesis_in system-Succeeds
                s.node_ids)
        × (s.gentxs_files
            ≡ gentx_files system amounts key_ring config_files given ⊥ genesis_in system-Succeeds
                s.node_ids))
      (node_rounds system amounts key_ring config_files given 2 0
        (start empty_config empty_app_config (replicate 2 []) (replicate 2 none))
        5)
node_rounds-peers_example =
    node_rounds-peers system amounts key_ring config_files given ⊥ genesis_in system-Succeeds 2
      empty_config empty_app_config 5

abbrev pub genesis : GenesisOps ℕ ℤ Text
genesis = record {
  Coins = List ℤ;
  AppGenState = BankGenesis ℤ (List ℤ);
  AuthGenesis = Unit {0};
  Accounts = Unit {0};
  Json = Unit {0};
  GenesisDoc = Unit {0};
  default_genesis = record { balances = []; supply = [] };
  auth_state = λ s w. (ok tt, w);
  pack_accounts = λ a w. (ok tt, w);
  set_accounts = λ a g. tt;
  put_auth_state = λ a s w. (ok s, w);
  bank_state = λ s w. (ok s, w);
  put_bank_state = λ b s w. (ok b, w);
  sanitize_genesis_balances = λ b. b;
  add_coins = λ c d. c ++ d;
  marshal_indent = λ s w. (ok tt, w);
  genesis_doc = λ t j. tt;
  save_as = λ d p w. (ok tt, w);
}

abbrev pub collector : GenutilOps ℕ ℕ (Unit {0})
collector = record {
  Json = ℕ;
  AppGenesis = Unit {0};
  app_genesis_from_file = λ p w. (ok tt, w);
  gen_app_state_from_config = λ c i g w. (ok (some 1), w);
  export_genesis_file_with_time = λ p t s u w. (ok tt, w);
}

init_testnet_files_prices_example :
    init_testnet_files system amounts key_ring config_files genesis collector empty_config
      (record given { min_gas_prices = codes "5stake" })
      0
    ≡ init_testnet_files system amounts key_ring config_files genesis collector empty_config given 0
init_testnet_files_prices_example =
    init_testnet_files_prices system amounts key_ring config_files genesis collector empty_config
      given (codes "5stake") 0
