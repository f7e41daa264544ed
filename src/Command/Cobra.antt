-- ===== src/Command/Cobra.antt =====
-- What the commands are made of: `cobra`, and the commands of the SDK, which are made and added. A
-- command is a pointer; its children, flags and texts are in the world.
use aegis_mirror.Base.{ℕ, Bool, List}
use aegis_mirror.Base.Int.{ℤ}
use aegis_mirror.Base.Text.{Text}
use aegis_mirror.Base.Effect.{Call}

-- The fields of a `cobra.Command` literal that the code writes; `run` is `RunE` or
-- `PersistentPreRunE`, as far as the command has one.
pub record Fields : Type 0 where
  pub use_line : Text
  pub aliases : List Text
  pub short : Text
  pub disable_flag_parsing : Bool
  pub suggestions_minimum_distance : ℕ
  pub silence_errors : Bool

-- A flag with its default value, as `Flags().String` and `Flags().Int` register it.
pub data FlagDefault : Type 0 where
  text_flag : Text → Text → FlagDefault
  text_flag_p : Text → Text → Text → FlagDefault
  int_flag : Text → ℤ → FlagDefault

pub record Cobra (World Cmd : Type 0) : Type 0 where
  pub new_command : Fields → Call World Cmd
  pub add_command : Cmd → List Cmd → Call World (Unit {0})
  pub add_flag : Cmd → FlagDefault → Call World (Unit {0})
  pub set_normalize_func : Cmd → (Text → Text) → Call World (Unit {0})
  pub set_run : Cmd → Call World (Unit {0}) → Call World (Unit {0})
  pub set_persistent_pre_run : Cmd → (Cmd → Call World (Unit {0})) → Call World (Unit {0})
  pub set_short : Cmd → Text → Call World (Unit {0})

-- The commands of the SDK.
pub record SdkCommands (World Cmd : Type 0) : Type 1 where
  pub BasicManager : Type 0
  pub TxConfig : Type 0
  pub AppCreator : Type 0
  pub AppExporter : Type 0
  pub init_cmd : BasicManager → Text → Call World Cmd
  pub debug_cmd : Call World Cmd
  pub config_command : Call World Cmd
  pub pruning_cmd : AppCreator → Text → Call World Cmd
  pub snapshot_cmd : AppCreator → Call World Cmd
  -- `server.AddCommandsWithStartCmdOptions`, with the function `AddFlags`.
  pub add_start_commands :
      Cmd → Text → AppCreator → AppExporter → (Cmd → Call World (Unit {0})) → Call World (Unit {0})
  pub in_place_testnet_creator : AppCreator → Call World Cmd
  pub status_command : Call World Cmd
  pub genesis_commands : TxConfig → BasicManager → Text → Call World Cmd
  pub keys_commands : Call World Cmd
  pub wait_tx_cmd : Call World Cmd
  pub validator_command : Call World Cmd
  pub query_block_cmd : Call World Cmd
  pub query_txs_by_events_cmd : Call World Cmd
  pub query_blocks_cmd : Call World Cmd
  pub query_tx_cmd : Call World Cmd
  pub query_block_results_cmd : Call World Cmd
  pub get_sign_command : Call World Cmd
  pub get_sign_batch_command : Call World Cmd
  pub get_multi_sign_command : Call World Cmd
  pub get_multi_sign_batch_cmd : Call World Cmd
  pub get_validate_signatures_command : Call World Cmd
  pub line_break : Cmd
  pub get_broadcast_command : Call World Cmd
  pub get_encode_command : Call World Cmd
  pub get_decode_command : Call World Cmd
  pub get_simulate_cmd : Call World Cmd
  -- `client.ValidateCmd`
  pub validate_cmd : Call World (Unit {0})
