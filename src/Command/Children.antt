-- ===== src/Command/Children.antt =====
-- chain/cmd/mirrorvaultd/cmd/commands.go: `queryCommand`, `txCommand` and `initRootCmd`.
use aegis_mirror.Base.{false, List, [], ◌∷◌}
use aegis_mirror.Base.Text.{Text, codes}
use aegis_mirror.Base.Effect.{Call, pure, ◌>>=◌, ◌>>◌}
use aegis_mirror.Command.Cobra.{Cobra, SdkCommands}

module _ {World Cmd : Type 0} (B : Cobra World Cmd) (S : SdkCommands World Cmd) where
  -- `addModuleInitFlags`
  unfoldable pub add_module_init_flags : Cmd → Call World (Unit {0})
  add_module_init_flags start_cmd = pure tt

  -- The calls that make the children, in order.
  unfoldable pub made : List (Call World Cmd) → Call World (List Cmd)
  made [] = pure []
  made (m ∷ ms) = do c ← m; cs ← made ms; pure (c ∷ cs)

  unfoldable pub query_command : Call World Cmd
  unfolding made
  query_command = do
    cmd ← B.new_command (record {
      use_line = codes "query";
      aliases = codes "q" ∷ [];
      short = codes "Querying subcommands";
      disable_flag_parsing = false;
      suggestions_minimum_distance = 2;
      silence_errors = false;
    })
    B.set_run cmd S.validate_cmd
    children ← made (
        S.wait_tx_cmd ∷ S.validator_command ∷ S.query_block_cmd ∷ S.query_txs_by_events_cmd
        ∷ S.query_blocks_cmd ∷ S.query_tx_cmd ∷ S.query_block_results_cmd ∷ [])
    B.add_command cmd children
    pure cmd

  unfoldable pub tx_command : Call World Cmd
  unfolding made
  tx_command = do
    cmd ← B.new_command (record {
      use_line = codes "tx";
      aliases = [];
      short = codes "Transactions subcommands";
      disable_flag_parsing = false;
      suggestions_minimum_distance = 2;
      silence_errors = false;
    })
    B.set_run cmd S.validate_cmd
    children ← made (
        S.get_sign_command
        ∷ S.get_sign_batch_command
        ∷ S.get_multi_sign_command
        ∷ S.get_multi_sign_batch_cmd
        ∷ S.get_validate_signatures_command
        ∷ pure S.line_break
        ∷ S.get_broadcast_command
        ∷ S.get_encode_command
        ∷ S.get_decode_command
        ∷ S.get_simulate_cmd
        ∷ [])
    B.add_command cmd children
    pure cmd

  -- `initRootCmd`; the testnets' commands are made by the code's own functions.
  unfoldable pub init_root_cmd :
      Text
      → S.AppCreator
      → S.AppExporter
      → Call World Cmd
      → (S.BasicManager → Call World Cmd)
      → Cmd
      → S.TxConfig
      → S.BasicManager
      → Call World (Unit {0})
  unfolding made query_command tx_command add_module_init_flags
  init_root_cmd home new_app app_export in_place multi_node root_cmd tx_config basic_manager = do
    first ← made (
        S.init_cmd basic_manager home
        ∷ in_place
        ∷ multi_node basic_manager
        ∷ S.debug_cmd
        ∷ S.config_command
        ∷ S.pruning_cmd new_app home
        ∷ S.snapshot_cmd new_app
        ∷ [])
    B.add_command root_cmd first
    S.add_start_commands root_cmd home new_app app_export add_module_init_flags
    second ← made (
        S.status_command
        ∷ S.genesis_commands tx_config basic_manager home
        ∷ query_command
        ∷ tx_command
        ∷ S.keys_commands
        ∷ [])
    B.add_command root_cmd second
