-- ===== src/Command/Testnets.antt =====
-- The commands of chain/cmd/mirrorvaultd/cmd/testnet_multi_node.go and testnet.go: their flags, and
-- what `RunE` reads of them.
pub mod Ends
use aegis_mirror.Base.{false, Option, none, some, List, [], ◌∷◌, ◌++◌, if◌then◌else◌}
use aegis_mirror.Base.Int.{ℤ, pos}
use aegis_mirror.Base.Text.{Text, codes, text_eq}
use aegis_mirror.Base.Effect.{Call, pure, for_each, ◌>>=◌, ◌>>◌}
use aegis_mirror.MultiNode.Args.{Flags, InitArgs, default_bond_denom, parse_flags}
use aegis_mirror.MultiNode.Config.{NodeConfig}
use aegis_mirror.Command.Cobra.{FlagDefault, text_flag, text_flag_p, int_flag, Cobra, SdkCommands}

-- The names of the SDK's flags, and the name of the signing algorithm.
pub record FlagNames : Type 0 where
  pub keyring_backend : Text
  pub chain_id : Text
  pub min_gas_prices : Text
  pub key_type : Text
  pub secp256k1 : Text

-- A flag's value, as `GetString` and `GetInt` give it: `none` is the error.
pub record FlagValues : Type 0 where
  pub get_string : Text → Option Text
  pub get_int : Text → Option ℤ

-- The name function of the flags: the old name `algo` still works.
unfoldable pub normalize : FlagNames → Text → Text
unfolding text_eq
normalize F name = if text_eq name (codes "algo") then F.key_type else name

-- `addTestnetFlagsToCmd`, as far as it registers flags.
unfoldable pub testnet_flags : FlagNames → List FlagDefault
testnet_flags F =
    int_flag (codes "v") (pos 4)
    ∷ text_flag_p (codes "output-dir") (codes "o") (codes "./.testnets")
    ∷ text_flag F.chain_id []
    ∷ text_flag F.min_gas_prices (codes "0.0001" ++ default_bond_denom)
    ∷ text_flag F.key_type F.secp256k1
    ∷ []

-- The flags that `NewTestnetMultiNodeCmd` registers itself.
unfoldable pub multi_node_flags : FlagNames → List FlagDefault
multi_node_flags F =
    text_flag (codes "list-ports") []
    ∷ text_flag (codes "node-dir-prefix") (codes "validator")
    ∷ text_flag (codes "validators-stake-amount") (codes "100000000,100000000,100000000,100000000")
    ∷ text_flag (codes "starting-ip-address") (codes "localhost")
    ∷ text_flag F.keyring_backend (codes "test")
    ∷ []

-- `x, _ = cmd.Flags().GetString(name)`: with an error the value is the empty text, or zero.
abbrev or_empty : Option Text → Text
or_empty none = []
or_empty (some t) = t

abbrev or_zero : Option ℤ → ℤ
or_zero none = pos 0
or_zero (some n) = n

-- The values that `RunE` reads.
unfoldable pub read_flags : FlagNames → FlagValues → Flags
read_flags F v = record {
  output_dir = or_empty (v.get_string (codes "output-dir"));
  keyring_backend = or_empty (v.get_string F.keyring_backend);
  chain_id = or_empty (v.get_string F.chain_id);
  min_gas_prices = or_empty (v.get_string F.min_gas_prices);
  node_dir_prefix = or_empty (v.get_string (codes "node-dir-prefix"));
  starting_ip_address = or_empty (v.get_string (codes "starting-ip-address"));
  num_validators = or_zero (v.get_int (codes "v"));
  key_type = or_empty (v.get_string F.key_type);
  validators_stake_amount = v.get_string (codes "validators-stake-amount");
  list_ports = v.get_string (codes "list-ports");
}

module _ {World Coin : Type 0} (int_from_string : Text → Option ℤ)
    (new_coin : Text → ℤ → Call World Coin) (F : FlagNames) where
  -- `RunE` of the multi-node command: the client's context, the server's configuration, the flags,
  -- and `initTestnetFiles`.
  unfoldable pub run_multi_node :
      {Context : Type 0}
      → Call World Context
      → Call World NodeConfig
      → Call World FlagValues
      → (Context → NodeConfig → InitArgs Coin → Call World (Unit {0}))
      → Call World (Unit {0})
  unfolding read_flags parse_flags
  run_multi_node get_client_context get_config flag_values init_testnet_files = do
    client_context ← get_client_context
    config ← get_config
    v ← flag_values
    args ← parse_flags int_from_string new_coin (read_flags F v)
    init_testnet_files client_context config args

module _ {World Cmd : Type 0} (B : Cobra World Cmd) (F : FlagNames) where
  unfoldable pub add_testnet_flags_to_cmd : Cmd → Call World (Unit {0})
  unfolding normalize testnet_flags for_each
  add_testnet_flags_to_cmd cmd = do
    for_each (B.add_flag cmd) (testnet_flags F)
    B.set_normalize_func cmd (normalize F)

  -- `NewTestnetMultiNodeCmd`, without the long text.
  unfoldable pub new_testnet_multi_node_cmd : Call World (Unit {0}) → Call World Cmd
  unfolding add_testnet_flags_to_cmd multi_node_flags for_each
  new_testnet_multi_node_cmd run = do
    cmd ← B.new_command (record {
      use_line = codes "multi-node";
      aliases = [];
      short =
          codes
            "Initialize config directories & files for a multi-validator testnet running locally via separate processes (e.g. Docker Compose or similar)";
      disable_flag_parsing = false;
      suggestions_minimum_distance = 0;
      silence_errors = false;
    })
    B.set_run cmd run
    add_testnet_flags_to_cmd cmd
    for_each (B.add_flag cmd) (multi_node_flags F)
    pure cmd

module _ {World Cmd : Type 0} (B : Cobra World Cmd) (S : SdkCommands World Cmd) where
  -- `NewInPlaceTestnetCmd`, without the long text and the example.
  unfoldable pub new_in_place_testnet_cmd : S.AppCreator → Call World Cmd
  new_in_place_testnet_cmd new_testnet_app = do
    cmd ← S.in_place_testnet_creator new_testnet_app
    B.set_short cmd (
        codes
          "Updates chain's application and consensus state with provided validator info and starts the node")
    B.add_flag cmd (text_flag (codes "accounts-to-fund") [])
    pure cmd
