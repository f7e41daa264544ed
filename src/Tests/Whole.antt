-- ===== src/Tests/Whole.antt =====
-- A whole run of the `multi-node` command, and a round that cannot make its directories.
use aegis_mirror.Base.{arith, some, if◌then◌else◌, ℕ, suc, refl, replicate, none, []}
use aegis_mirror.Base.Int.{ℤ, pos}
use aegis_mirror.Base.Text.{codes, text_eq, split}
use aegis_mirror.Base.Effect.{ok, err, pure, Fine}
use aegis_mirror.Command.Testnets.{FlagNames, FlagValues, read_flags, run_multi_node}
use aegis_mirror.Command.Testnets.Ends.{Usable, run_multi_node_returns}
use aegis_mirror.MultiNode.Args.{InitArgs}
use aegis_mirror.MultiNode.Sdk.{Os, CoinOps}
use aegis_mirror.MultiNode.Init.{init_testnet_files}
use aegis_mirror.MultiNode.Init.Node.{start, init_node}
use aegis_mirror.MultiNode.Init.Stages.{Succeeds}
use aegis_mirror.MultiNode.Init.Copying.{Copies}
use aegis_mirror.MultiNode.Init.Total.{Finishes, init_testnet_files_returns}
use aegis_mirror.MultiNode.Init.Cleanup.{Fails, IsRemoved, init_node-Fails}
use aegis_mirror.Tests.Loop.{
  empty_config, empty_app_config, system, amounts, key_ring, genesis_in, config_files, given,
  genesis, collector,
}

system-Copies : Copies system ⊥
system-Copies = record {
  getwd = λ w. tt;
  open_file = λ p w. tt;
  create_file = λ p w. tt;
  copy_content = λ d s w. tt;
  sync_file = λ f w. tt;
}

-- Only one text is a number.
abbrev numbers : CoinOps ℕ ℤ
numbers = record amounts {
  int_from_string = λ t. if text_eq t (codes "7") then some (pos 7) else none;
}

numbers-Succeeds :
    (args : InitArgs ℤ) → Succeeds system numbers key_ring config_files args ⊥ genesis_in
numbers-Succeeds args = record {
  mkdir_all = λ p m w. tt;
  write_file = λ p t m w. tt;
  new_coin = λ d n w. tt;
  initializes = λ c w. tt;
  new_keyring = λ d w. tt;
  algo = λ s w. tt;
  saves_key = λ kb n m o a w. tt;
  marshals = λ t w. tt;
  creates = λ a k c n r m w. tt;
  sets_msgs = λ b m w. tt;
  signs = λ f n b o w. tt;
  encodes = λ b w. tt;
  writes = λ p c w. tt;
  roots = λ d c. refl;
  places = λ c. refl;
}

numbers-Finishes : Finishes system numbers key_ring config_files genesis collector ⊥
numbers-Finishes = record {
  copies = system-Copies;
  intn = λ n w h. h;
  auth_state = λ s w. tt;
  pack_accounts = λ a w. tt;
  put_auth_state = λ a s w. tt;
  bank_state = λ s w. tt;
  put_bank_state = λ b s w. tt;
  marshal_indent = λ s w. tt;
  save_as = λ d p w. tt;
  now = λ w. tt;
  reads = λ p w. tt;
  generates = λ c i g w. tt;
  exports = λ p id s t w. tt;
  writes_config = λ p c w. tt;
  prints = λ t w. tt;
}

init_testnet_files_returns_example :
    Fine ⊥ (
      init_testnet_files system numbers key_ring config_files genesis collector empty_config given
        0)
init_testnet_files_returns_example =
    init_testnet_files_returns system numbers key_ring config_files genesis collector ⊥
      numbers-Finishes empty_config given 2 genesis_in 0
      (λ id. numbers-Succeeds (record given { chain_id = id })) refl (omega arith)

-- A disk on which no directory can be made; the world counts the removals.
abbrev full_disk : Os ℕ
full_disk = record system {
  mkdir_all = λ p m w. (err (codes "no space left on device"), w);
  remove_all = λ p w. (ok tt, suc w);
}

init_node-Fails_example : Fails (IsRemoved full_disk amounts key_ring config_files given) (
    init_node full_disk amounts key_ring config_files given 0
      (start empty_config empty_app_config (replicate 2 []) (replicate 2 none))
      0)
init_node-Fails_example =
    init_node-Fails full_disk amounts key_ring config_files given 0
      (start empty_config empty_app_config (replicate 2 []) (replicate 2 none)) 0

abbrev flag_names : FlagNames
flag_names = record {
  keyring_backend = codes "keyring-backend";
  chain_id = codes "chain-id";
  min_gas_prices = codes "minimum-gas-prices";
  key_type = codes "key-type";
  secp256k1 = codes "secp256k1";
}

-- Every text flag holds the same text, and there are two validators.
abbrev flag_values : FlagValues
flag_values = record { get_string = λ name. some (codes "7,x"); get_int = λ name. some (pos 2) }

flag_values-Usable :
    Usable system numbers key_ring config_files genesis collector ⊥ flag_names genesis_in
      flag_values
unfolding read_flags split
flag_values-Usable = record {
  amounts = ((λ a w e. tt), ((λ a w e. tt), tt));
  count = 2;
  validators = refl;
  fits = omega arith;
  calls = λ args a k. numbers-Succeeds args;
}

run_multi_node_returns_example : Fine ⊥ (
    run_multi_node numbers.int_from_string numbers.new_coin flag_names
      (λ (w : ℕ). (ok tt, w))
      (λ w. (ok empty_config, w))
      (pure flag_values)
      (λ _ c args. init_testnet_files system numbers key_ring config_files genesis collector c args)
      0)
run_multi_node_returns_example =
    run_multi_node_returns system numbers key_ring config_files genesis collector ⊥ flag_names
      numbers-Finishes (λ (w : ℕ). (ok tt, w)) (λ w. (ok empty_config, w)) flag_values genesis_in 0
      (λ w. tt) (λ w. tt) flag_values-Usable
