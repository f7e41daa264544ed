-- ===== src/MultiNode/Init.antt =====
-- `initTestnetFiles`: the whole command behind the flags.
pub mod Node
pub mod Copies
pub mod Peers
pub mod Stages
pub mod Loop
pub mod Copied
pub mod Copying
pub mod Total
pub mod Cleanup
pub mod GasPrices
use aegis_mirror.Base.{
  ℕ, zero, suc, Bool, true, false, Option, none, List, [], ◌∷◌, ◌++◌, replicate, leb, if◌then◌else◌,
}
use aegis_mirror.Base.Int.{ℤ, pos, negsuc, pos_part}
use aegis_mirror.Base.Text.{Text, codes, text_eq, itoa}
use aegis_mirror.Base.Effect.{Call, pure, panic_with, ◌>>=◌, ◌>>◌}
use aegis_mirror.MultiNode.Args.{InitArgs}
use aegis_mirror.MultiNode.Config.{NodeConfig, prepare_app_config}
use aegis_mirror.MultiNode.Sdk.{Os, CoinOps, Keys, Configs}
use aegis_mirror.MultiNode.Random.{generate_random_string}
use aegis_mirror.MultiNode.Genesis.{GenesisOps, init_gen_files}
use aegis_mirror.MultiNode.Collect.{GenutilOps, collect_gen_files}
use aegis_mirror.MultiNode.Init.Node.{Progress, start, node_rounds}
use aegis_mirror.MultiNode.Init.Copies.{copy_gentxs}

module _ {World Coin : Type 0} (O : Os World) (N : CoinOps World Coin) (K : Keys World Coin)
    (C : Configs World) (G : GenesisOps World Coin K.GenAccount)
    (U : GenutilOps World K.PubKey O.Time) where
  -- `make([]T, n)` for strings or interface values, which panics on a negative length and on one
  -- beyond the address space.
  abbrev pub make : {A : Type 0} → ℤ → A → Call World (List A)
  make (pos n) a =
      if leb n O.max_length
      then pure (replicate n a)
      else panic_with (codes "runtime error: makeslice: len out of range")
  make (negsuc n) a = panic_with (codes "runtime error: makeslice: len out of range")

  -- An empty chain id is replaced by a random one.
  unfoldable pub choose_chain_id : Text → Call World Text
  unfolding generate_random_string text_eq
  choose_chain_id chain_id =
      let random = generate_random_string O.intn 6 >>= λ s. pure (codes "chain-" ++ s) in
      if text_eq chain_id [] then random else pure chain_id

  -- What follows the loop over the nodes.
  unfoldable pub finish_testnet_files :
      InitArgs Coin → Progress K.PubKey Coin K.GenAccount → Call World (Unit {0})
  unfolding init_gen_files copy_gentxs collect_gen_files itoa
  finish_testnet_files args s = do
    let n = pos_part args.num_validators
    init_gen_files G args.chain_id s.gen_accounts s.gen_balances s.gen_files n
    copy_gentxs O args.output_dir args.node_dir_prefix s.gentxs_files n 0
    collect_gen_files C U O.now args.chain_id args.output_dir args.node_dir_prefix
        s.persistent_peers args.ports s.node_ids s.val_pub_keys n s.node_config
    O.print_err (
        codes "Successfully initialized "
        ++ (itoa args.num_validators ++ codes " node directories\n"))

  unfoldable pub init_testnet_files : NodeConfig → InitArgs Coin → Call World (Unit {0})
  unfolding choose_chain_id node_rounds finish_testnet_files prepare_app_config
  init_testnet_files node_config given = do
    chain_id ← choose_chain_id given.chain_id
    let args = record given { chain_id = chain_id }
    let n = pos_part args.num_validators
    node_ids ← make args.num_validators []
    val_pub_keys ← make args.num_validators none
    let app_config = prepare_app_config args.min_gas_prices C.default_app_config
    s ← node_rounds O N K C args n 0 (start node_config app_config node_ids val_pub_keys)
    finish_testnet_files args s
