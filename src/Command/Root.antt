-- ===== src/Command/Root.antt =====
-- chain/cmd/mirrorvaultd/cmd/root.go: `NewRootCmd` and `ProvideClientContext`.
use aegis_mirror.Base.{true, false, Option, [], ◌++◌}
use aegis_mirror.Base.Text.{Text, codes}
use aegis_mirror.Base.Effect.{Call, pure, or_panic, ◌>>=◌, ◌>>◌}
use aegis_mirror.App.Prefixes.{name}
use aegis_mirror.Command.Configs.{Defaults, EvmAppConfig, init_comet_bft_config, init_app_config}
use aegis_mirror.Command.Cobra.{Cobra, SdkCommands}

-- The calls on the client's context, for a command `Cmd`. A `With…` method is a function.
pub record ClientOps (World Cmd : Type 0) : Type 1 where
  pub Context : Type 0
  pub Codec : Type 0
  pub Registry : Type 0
  pub Amino : Type 0
  pub TxOptions : Type 0
  pub TxConfig : Type 0
  pub CmdContext : Type 0
  pub empty_context : Context
  pub with_codec : Codec → Context → Context
  pub with_interface_registry : Registry → Context → Context
  pub with_legacy_amino : Amino → Context → Context
  pub with_stdin : Context → Context
  pub with_account_retriever : Context → Context
  pub with_home_dir : Text → Context → Context
  pub with_viper : Text → Context → Context
  pub with_tx_config : TxConfig → Context → Context
  pub with_cmd_context : CmdContext → Context → Context
  pub context_codec : Context → Codec
  pub cmd_context : Cmd → CmdContext
  -- `config.ReadFromClientConfig`: the context comes back beside an error.
  pub read_from_client_config : Context → Call World (Context × Option Text)
  pub fail_with : Option Text → Call World (Unit {0})
  pub with_grpc_metadata : Context → TxOptions → TxOptions
  pub new_tx_config_with_options : Codec → TxOptions → Call World TxConfig
  pub set_out : Cmd → Call World (Unit {0})
  pub set_err : Cmd → Call World (Unit {0})
  pub read_persistent_command_flags : Context → Cmd → Call World Context
  pub set_cmd_client_context_handler : Context → Cmd → Call World (Unit {0})

module _ {World Cmd : Type 0} (C : ClientOps World Cmd) where
  -- `ProvideClientContext`; the error of the second read is dropped.
  unfoldable pub provide_client_context :
      Text → C.Codec → C.Registry → C.TxOptions → C.Amino → Call World C.Context
  provide_client_context home app_codec interface_registry tx_config_opts legacy_amino = do
    let ctx = C.with_viper name (
        C.with_home_dir home (
          C.with_account_retriever (
            C.with_stdin (
              C.with_legacy_amino legacy_amino (
                C.with_interface_registry interface_registry
                  (C.with_codec app_codec C.empty_context))))))
    (ctx', error) ← C.read_from_client_config ctx
    tx_config ← or_panic (
        C.new_tx_config_with_options (C.context_codec ctx')
          (C.with_grpc_metadata ctx' tx_config_opts))
    pure (C.with_tx_config tx_config ctx')

  -- The variable `clientCtx` of `NewRootCmd` after the first assignment of the pre-run.
  unfoldable pub next_context : C.Context → Cmd → C.Context
  next_context ctx cmd = C.with_viper name (C.with_cmd_context (C.cmd_context cmd) ctx)

  -- `PersistentPreRunE`, on the variable's value before it.
  unfoldable pub persistent_pre_run :
      (D : Defaults)
      → (Cmd → Text → EvmAppConfig D → D.CometConfig → Call World (Unit {0}))
      → C.Context
      → Cmd
      → Call World (Unit {0})
  unfolding next_context init_app_config init_comet_bft_config
  persistent_pre_run D intercept_configs client_ctx cmd = do
    C.set_out cmd
    C.set_err cmd
    ctx ← C.read_persistent_command_flags (next_context client_ctx cmd) cmd
    (ctx', error) ← C.read_from_client_config ctx
    C.fail_with error
    C.set_cmd_client_context_handler ctx' cmd
    let (template, app_config) = init_app_config D
    intercept_configs cmd template app_config (init_comet_bft_config D)

module _ {World Cmd : Type 0} (C : ClientOps World Cmd) (B : Cobra World Cmd)
    (S : SdkCommands World Cmd) (D : Defaults) where
  -- What `depinject.Inject` fills.
  pub record RootParts : Type 0 where
    pub enhance_root_command : Cmd → Call World (Unit {0})
    pub module_basic_manager : S.BasicManager
    pub client_ctx : C.Context

  -- `NewRootCmd`; the pre-run is that of the first execution.
  unfoldable pub new_root_cmd :
      Call World RootParts
      → (C.Context → S.TxConfig)
      → (Cmd → Text → EvmAppConfig D → D.CometConfig → Call World (Unit {0}))
      → (Cmd → S.TxConfig → S.BasicManager → Call World (Unit {0}))
      → Call World Cmd
  unfolding persistent_pre_run
  new_root_cmd inject tx_config intercept_configs init_root = do
    parts ← or_panic inject
    root_cmd ← B.new_command (record {
      use_line = name ++ codes "d";
      aliases = [];
      short = codes "mirrorvault node";
      disable_flag_parsing = false;
      suggestions_minimum_distance = 0;
      silence_errors = true;
    })
    B.set_persistent_pre_run root_cmd (persistent_pre_run C D intercept_configs parts.client_ctx)
    init_root root_cmd (tx_config parts.client_ctx) parts.module_basic_manager
    or_panic (parts.enhance_root_command root_cmd)
    pure root_cmd
