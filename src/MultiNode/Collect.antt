-- ===== src/MultiNode/Collect.antt =====
-- `collectGenFiles`: each node's final configuration, and one genesis file for all nodes.
pub mod Canonical
use aegis_mirror.Base.{ℕ, zero, suc, Option, none, some, List, [], ◌∷◌, ◌++◌, get_elem?}
use aegis_mirror.Base.Int.{ℤ, pos}
use aegis_mirror.Base.Text.{Text, codes, itoa}
use aegis_mirror.Base.Effect.{Call, pure, index, ◌>>=◌, ◌>>◌}
use aegis_mirror.Base.Paths.{FilePath, clean, join_path}
use aegis_mirror.MultiNode.Args.{IntMap, at_key}
use aegis_mirror.MultiNode.Config.{NodeConfig, set_node_addresses}
use aegis_mirror.MultiNode.Sdk.{Configs}

-- `genutiltypes.InitConfig`
pub record InitConfig (PubKey : Type 0) : Type 0 where
  pub chain_id : Text
  pub gen_txs_dir : FilePath
  pub node_id : Text
  pub val_pub_key : Option PubKey

-- The calls of `genutil`. `Json` is `json.RawMessage`, whose nil is `none`.
pub record GenutilOps (World PubKey Time : Type 0) : Type 1 where
  pub Json : Type 0
  pub AppGenesis : Type 0
  pub app_genesis_from_file : FilePath → Call World AppGenesis
  pub gen_app_state_from_config :
      NodeConfig → InitConfig PubKey → AppGenesis → Call World (Option Json)
  pub export_genesis_file_with_time : FilePath → Text → Option Json → Time → Call World (Unit {0})

-- `fmt.Sprintf("%s%d", nodeDirPrefix, i)`
unfoldable pub node_dir_name : Text → ℕ → Text
unfolding itoa
node_dir_name prefix i = prefix ++ itoa (pos i)

-- `filepath.Join(outputDir, nodeDirName)`
unfoldable pub node_dir : Text → Text → ℕ → FilePath
unfolding clean join_path node_dir_name
node_dir output_dir node_dir_prefix i =
    join_path (clean output_dir) (node_dir_name node_dir_prefix i)

-- A missing key of a `map[int]string` reads as the empty text.
unfoldable pub port_at : IntMap Text → ℕ → Text
unfolding at_key
port_at ports i = elim (at_key ports i) [ none ↦ [] | some p ↦ p ]

-- The first state that is not nil stays the canonical one.
abbrev pub canonical {ℓ} : {A : Type ℓ} → Option A → Option A → Option A
canonical none own = own
canonical (some s) own = some s

module _ {World PubKey Time : Type 0} (C : Configs World) (U : GenutilOps World PubKey Time)
    (chain_id output_dir node_dir_prefix persistent_peers : Text) (ports : IntMap Text)
    (node_ids : List Text) (val_pub_keys : List (Option PubKey)) (gen_time : Time) where
  -- The configuration of the `i`-th node when its genesis state is read, and when it is written.
  unfoldable pub rooted_config : ℕ → NodeConfig → NodeConfig
  unfolding node_dir
  rooted_config i c =
      C.set_root (node_dir output_dir node_dir_prefix i)
        (record c { moniker = node_dir_name node_dir_prefix i })

  unfoldable pub final_config : ℕ → NodeConfig → NodeConfig
  unfolding rooted_config set_node_addresses port_at
  final_config i c = set_node_addresses persistent_peers (port_at ports i) i (rooted_config i c)

  unfoldable pub init_config : ℕ → Text → Option PubKey → InitConfig PubKey
  unfolding node_dir join_path
  init_config i node_id val_pub_key = record {
    chain_id = chain_id;
    gen_txs_dir =
        join_path (join_path (node_dir output_dir node_dir_prefix i) (codes "config"))
          (codes "gentx");
    node_id = node_id;
    val_pub_key = val_pub_key;
  }

  -- One round of the loop, with the canonical state so far.
  unfoldable pub collect_round :
      ℕ → NodeConfig × Option U.Json → Call World (NodeConfig × Option U.Json)
  unfolding rooted_config final_config init_config
  collect_round i (node_config, app_state) = do
    let config = rooted_config i node_config
    node_id ← index node_ids i
    val_pub_key ← index val_pub_keys i
    app_genesis ← U.app_genesis_from_file (C.genesis_file config)
    node_app_state ←
        U.gen_app_state_from_config config (init_config i node_id val_pub_key) app_genesis
    let config' = final_config i node_config
    C.write_node_config
        (join_path (join_path config'.root_dir (codes "config")) (codes "config.toml")) config'
    let app_state' = canonical app_state node_app_state
    U.export_genesis_file_with_time (C.genesis_file config') chain_id app_state' gen_time
    pure (config', app_state')

  -- The rounds left from `i` on.
  unfoldable pub collect_rounds :
      ℕ → ℕ → NodeConfig × Option U.Json → Call World (NodeConfig × Option U.Json)
  unfolding collect_round
  collect_rounds zero i s = pure s
  collect_rounds (suc left) i s = do s' ← collect_round i s; collect_rounds left (suc i) s'

module _ {World PubKey Time : Type 0} (C : Configs World) (U : GenutilOps World PubKey Time)
    (now : Call World Time) where
  unfoldable pub collect_gen_files :
      Text
      → Text
      → Text
      → Text
      → IntMap Text
      → List Text
      → List (Option PubKey)
      → ℕ
      → NodeConfig
      → Call World (Unit {0})
  unfolding collect_rounds
  collect_gen_files chain_id output_dir prefix peers ports node_ids keys num_validators config = do
    gen_time ← now
    collect_rounds C U chain_id output_dir prefix peers ports node_ids keys gen_time num_validators
        0 (config, none)
    pure tt
