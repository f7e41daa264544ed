-- ===== src/MultiNode/Init/Node.antt =====
-- One round of the loop of `initTestnetFiles`: the directory, keys, account and signed transaction
-- of the `i`-th node.
use aegis_mirror.Base.{
  ℕ, zero, suc, true, Option, none, some, List, [], ◌∷◌, ◌++◌, set, if◌then◌else◌,
}
use aegis_mirror.Base.Int.{pos}
use aegis_mirror.Base.Text.{Text, codes, text_eq}
use aegis_mirror.Base.Effect.{Result, ok, err, panic, exit, Call, pure, index, ◌>>=◌, ◌>>◌}
use aegis_mirror.Base.Paths.{FilePath, join_path}
use aegis_mirror.MultiNode.Args.{InitArgs, at_key, default_bond_denom}
use aegis_mirror.MultiNode.Config.{NodeConfig, AppConfig, set_app_addresses, peer_memo}
use aegis_mirror.MultiNode.Sdk.{Os, CoinOps, CommissionRates, Balance, Keys, Configs}
use aegis_mirror.MultiNode.Files.{write_file}
use aegis_mirror.MultiNode.Collect.{node_dir_name, node_dir, port_at}

-- The variables of `initTestnetFiles` that its loop writes.
pub record Progress (PubKey Coin GenAccount : Type 0) : Type 0 where
  pub node_config : NodeConfig
  pub app_config : AppConfig
  pub node_ids : List Text
  pub val_pub_keys : List (Option PubKey)
  pub gen_accounts : List GenAccount
  pub gen_balances : List (Balance Coin)
  pub gen_files : List FilePath
  pub persistent_peers : Text
  pub gentxs_files : List FilePath

-- The variables before the loop.
abbrev pub start :
    {PubKey Coin GenAccount : Type 0}
    → NodeConfig
    → AppConfig
    → List Text
    → List (Option PubKey)
    → Progress PubKey Coin GenAccount
start node_config app_config node_ids val_pub_keys = record {
  node_config = node_config;
  app_config = app_config;
  node_ids = node_ids;
  val_pub_keys = val_pub_keys;
  gen_accounts = [];
  gen_balances = [];
  gen_files = [];
  persistent_peers = [];
  gentxs_files = [];
}

-- `if persistentPeers == "" { persistentPeers = memo } else { … + "," + memo }`
unfoldable pub add_peer : Text → Text → Text
unfolding text_eq
add_peer peers memo = if text_eq peers [] then memo else peers ++ (codes "," ++ memo)

-- `s[i] = v`, which panics out of range.
abbrev assign : {World A : Type 0} → List A → ℕ → A → Call World (List A)
assign xs i v = index xs i >>= λ _. pure (set xs i v)

-- `filepath.Join(outputDir, nodeDirName, "config", "gentx")`
unfoldable pub gentxs_dir : Text → Text → ℕ → FilePath
unfolding node_dir join_path
gentxs_dir output_dir prefix i =
    join_path (join_path (node_dir output_dir prefix i) (codes "config")) (codes "gentx")

-- `math.LegacyOneDec()` three times.
abbrev one_rates : CommissionRates
one_rates = record { rate = 100; max_rate = 100; max_change_rate = 100 }

module _ {World Coin : Type 0} (O : Os World) (N : CoinOps World Coin) (K : Keys World Coin)
    (C : Configs World) (args : InitArgs Coin) where
  abbrev pub State : Type 0
  State = Progress K.PubKey Coin K.GenAccount

  abbrev pub cleaned : {A : Type 0} → Result A × World → Result A × World
  cleaned (err e, w) = let (_, w') = O.remove_all args.output_dir w in (err e, w')
  cleaned (ok a, w) = (ok a, w)
  cleaned (panic e, w) = (panic e, w)
  cleaned (exit n, w) = (exit n, w)

  -- `if err != nil { _ = os.RemoveAll(args.outputDir); return err }`
  unfoldable pub or_clean_up : {A : Type 0} → Call World A → Call World A
  or_clean_up m w = cleaned (m w)

  -- `valTokens, ok := args.validatorsStakesAmount[i]`, or 100 units of consensus power.
  unfoldable pub stake_at : ℕ → Call World Coin
  stake_at i = elim (at_key args.validators_stakes_amount i) [
    | some c ↦ pure c
    | none ↦ N.new_coin default_bond_denom (N.tokens_from_power 100)
  ]

  -- The first part of a round: directories, node key and validator key.
  unfoldable pub init_node : ℕ → State → Call World State
  unfolding node_dir_name node_dir join_path port_at or_clean_up peer_memo add_peer
  init_node i s = do
    let dir = node_dir args.output_dir args.node_dir_prefix i
    let name = node_dir_name args.node_dir_prefix i
    let rooted = C.set_root dir s.node_config
    let config = record rooted {
      moniker = name;
      rpc_listen_address = codes "tcp://0.0.0.0:" ++ port_at args.ports i;
    }
    or_clean_up (O.mkdir_all (join_path dir (codes "config")) 0o755)
    (node_id, key) ← or_clean_up (K.initialize_node_validator_files config)
    node_ids ← assign s.node_ids i node_id
    val_pub_keys ← assign s.val_pub_keys i (some key)
    pure (record s {
      node_config = config;
      node_ids = node_ids;
      val_pub_keys = val_pub_keys;
      persistent_peers = add_peer s.persistent_peers (peer_memo node_id args.starting_ip_address i);
      gen_files = s.gen_files ++ C.genesis_file config ∷ [];
    })

  -- The account of the validator: its key is saved, and it is given tokens.
  unfoldable pub init_account : ℕ → K.Keyring → State → Call World (K.Address × State)
  unfolding node_dir_name node_dir join_path or_clean_up write_file
  init_account i kb s = do
    let dir = node_dir args.output_dir args.node_dir_prefix i
    algo ← K.signing_algo_from_string args.algo (K.supported_algorithms kb)
    (addr, secret) ←
        or_clean_up
          (K.generate_save_coin_key kb (node_dir_name args.node_dir_prefix i) [] true algo)
    cli_print ← K.marshal_info ((codes "secret", secret) ∷ [])
    write_file O (join_path dir (codes "key_seed.json")) dir cli_print
    test_coin ← N.new_coin (codes "testtoken") (N.tokens_from_power 1000)
    stake_coin ← N.new_coin default_bond_denom (N.tokens_from_power 500)
    pure (
      addr,
      record s {
        gen_balances =
            s.gen_balances
            ++ record {
              address = K.acc_address_text addr;
              coins = N.sort_coins (test_coin ∷ stake_coin ∷ []);
            }
              ∷ [];
        gen_accounts = s.gen_accounts ++ K.new_base_account addr 0 0 ∷ [];
      },
    )

  -- The transaction that creates the validator, signed and written to the node's directory.
  unfoldable pub init_gentx : ℕ → Text → K.Keyring → K.Address → State → Call World State
  unfolding node_dir_name gentxs_dir join_path stake_at write_file
  init_gentx i memo kb addr s = do
    let name = node_dir_name args.node_dir_prefix i
    let dir = gentxs_dir args.output_dir args.node_dir_prefix i
    val_tokens ← stake_at i
    key ← index s.val_pub_keys i
    create_val_msg ←
        K.new_msg_create_validator (K.val_address_text addr) key val_tokens name one_rates (pos 1)
    tx_builder ← K.set_msgs K.new_tx_builder (create_val_msg ∷ [])
    signed ←
        K.sign (record { chain_id = args.chain_id; memo = memo; keybase = kb }) name
          (K.set_memo tx_builder memo) true
    tx_bz ← K.tx_json signed
    node_id ← index s.node_ids i
    let file = join_path dir (codes "gentx-" ++ (node_id ++ codes ".json"))
    write_file O file dir tx_bz
    pure (record s { gentxs_files = s.gentxs_files ++ file ∷ [] })

  -- The addresses of the application, written to the node's directory.
  unfoldable pub init_app_config : ℕ → State → Call World State
  unfolding node_dir join_path set_app_addresses
  init_app_config i s = do
    let config = set_app_addresses args.starting_ip_address i s.app_config
    let dir = node_dir args.output_dir args.node_dir_prefix i
    C.write_app_config (join_path (join_path dir (codes "config")) (codes "app.toml")) config
    pure (record s { app_config = config })

  unfoldable pub node_round : ℕ → State → Call World State
  unfolding init_node init_account init_gentx init_app_config node_dir peer_memo
  node_round i s = do
    s1 ← init_node i s
    node_id ← index s1.node_ids i
    kb ← K.new_keyring args.keyring_backend (node_dir args.output_dir args.node_dir_prefix i)
    (addr, s2) ← init_account i kb s1
    s3 ← init_gentx i (peer_memo node_id args.starting_ip_address i) kb addr s2
    init_app_config i s3

  -- The rounds left from `i` on.
  unfoldable pub node_rounds : ℕ → ℕ → State → Call World State
  unfolding node_round
  node_rounds zero i s = pure s
  node_rounds (suc left) i s = do s' ← node_round i s; node_rounds left (suc i) s'
