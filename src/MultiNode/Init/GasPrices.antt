-- ===== src/MultiNode/Init/GasPrices.antt =====
-- The flag `--minimum-gas-prices`.
use aegis_mirror.Base.{ℕ, zero, suc, ◌≡◌, refl, ◌∙◌, ap, none, []}
use aegis_mirror.Base.Int.{pos_part}
use aegis_mirror.Base.Text.{Text}
use aegis_mirror.Base.Effect.{follow, follow-ext}
use aegis_mirror.MultiNode.Args.{InitArgs}
use aegis_mirror.MultiNode.Config.{NodeConfig, prepare_app_config}
use aegis_mirror.MultiNode.Sdk.{Os, CoinOps, Keys, Configs}
use aegis_mirror.MultiNode.Genesis.{GenesisOps}
use aegis_mirror.MultiNode.Collect.{GenutilOps}
use aegis_mirror.MultiNode.Init.Node.{
  State, start, stake_at, or_clean_up, init_node, init_account, init_gentx, init_app_config,
  node_round, node_rounds,
}
use aegis_mirror.MultiNode.Init.{make, choose_chain_id, finish_testnet_files, init_testnet_files}

module _ {World Coin : Type 0} (O : Os World) (N : CoinOps World Coin) (K : Keys World Coin)
    (C : Configs World) where
  node_round_prices :
      (args : InitArgs Coin) (p : Text) (i : ℕ) (s : State O N K C args) (w : World)
      → node_round O N K C (record args { min_gas_prices = p }) i s w
        ≡ node_round O N K C args i s w
  unfolding node_round init_node init_account init_gentx init_app_config stake_at or_clean_up
  node_round_prices args p i s w = refl

  node_rounds_prices :
      (args : InitArgs Coin) (p : Text) (left i : ℕ) (s : State O N K C args) (w : World)
      → node_rounds O N K C (record args { min_gas_prices = p }) left i s w
        ≡ node_rounds O N K C args left i s w
  unfolding node_rounds
  node_rounds_prices args p zero i s w = refl
  node_rounds_prices args p (suc left) i s w =
      ap (follow (node_rounds O N K C (record args { min_gas_prices = p }) left (suc i)))
        (node_round_prices args p i s w)
      ∙ follow-ext _ _ (node_round O N K C args i s w)
          λ s' w'. node_rounds_prices args p left (suc i) s' w'

  module _ (G : GenesisOps World Coin K.GenAccount) (U : GenutilOps World K.PubKey O.Time) where
    -- Whatever the minimum gas price of the flag is, `initTestnetFiles` does the same.
    pub init_testnet_files_prices :
        (c : NodeConfig) (args : InitArgs Coin) (p : Text) (w : World)
        → init_testnet_files O N K C G U c (record args { min_gas_prices = p }) w
          ≡ init_testnet_files O N K C G U c args w
    unfolding init_testnet_files finish_testnet_files prepare_app_config
    init_testnet_files_prices c args p w =
        follow-ext _ _ (choose_chain_id O N K C G U args.chain_id w) λ id w1.
          follow-ext _ _ (make O N K C G U args.num_validators [] w1) λ ids w2.
            follow-ext _ _ (make O N K C G U args.num_validators none w2) λ keys w3.
              ap (follow (finish_testnet_files O N K C G U (record args { chain_id = id }))) (
                node_rounds_prices (record args { chain_id = id }) p (pos_part args.num_validators)
                  0 (start c (prepare_app_config p C.default_app_config) ids keys) w3)
