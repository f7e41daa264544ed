-- ===== src/MultiNode/Init/Total.antt =====
-- The `multi-node` command ends without an error or a panic where the calls that it makes succeed.
use aegis_mirror.Base.{
  ℕ, zero, suc, ◌+◌, ◌≤◌, ◌<◌, ◌≡◌, refl, Option, none, List, [], arith, length, Bool-cases, leb,
  true, inl, inr,
}
use aegis_mirror.Base.Int.{pos}
use aegis_mirror.Base.Text.{Text, text_eq}
use aegis_mirror.Base.Effect.{
  Returns, index, Fine, Returns-then, Returns-follow, panicked-Fine, or_panic,
}
use aegis_mirror.Base.Paths.{FilePath}
use aegis_mirror.MultiNode.Args.{InitArgs, IntMap}
use aegis_mirror.MultiNode.Config.{NodeConfig}
use aegis_mirror.MultiNode.Sdk.{Os, CoinOps, Balance, Keys, Configs}
use aegis_mirror.MultiNode.Random.{generate_random_string, generate_random_string-IsAlphanumeric}
use aegis_mirror.MultiNode.Genesis.{BankGenesis, GenesisOps, save_files, init_gen_files}
use aegis_mirror.MultiNode.Collect.{
  InitConfig, GenutilOps, collect_round, collect_rounds, collect_gen_files,
}
use aegis_mirror.MultiNode.Init.{choose_chain_id, finish_testnet_files, init_testnet_files}
use aegis_mirror.MultiNode.Init.Node.{State, node_rounds}
use aegis_mirror.MultiNode.Init.Copies.{copy_gentxs}
use aegis_mirror.MultiNode.Init.Copying.{Copies, index-Fine, copy_gentxs-Fine}
use aegis_mirror.MultiNode.Init.Stages.{Succeeds}
use aegis_mirror.MultiNode.Init.Loop.{node_rounds-lengths}

module _ {World Coin : Type 0} (O : Os World) (N : CoinOps World Coin) (K : Keys World Coin)
    (C : Configs World) (G : GenesisOps World Coin K.GenAccount)
    (U : GenutilOps World K.PubKey O.Time) (E : Type 0) where
  -- The other calls of the command.
  pub record Finishes : Type 1 where
    pub copies : Copies O E
    pub intn : (n : ℕ) (w : World) → 0 < n → Returns E (λ k _. k < n) (O.intn n w)
    pub auth_state : (s : G.AppGenState) (w : World) → Fine E (G.auth_state s w)
    pub pack_accounts : (a : List K.GenAccount) (w : World) → Fine E (G.pack_accounts a w)
    pub put_auth_state :
        (a : G.AuthGenesis) (s : G.AppGenState) (w : World) → Fine E (G.put_auth_state a s w)
    pub bank_state : (s : G.AppGenState) (w : World) → Fine E (G.bank_state s w)
    pub put_bank_state :
        (b : BankGenesis Coin G.Coins) (s : G.AppGenState) (w : World)
        → Fine E (G.put_bank_state b s w)
    pub marshal_indent : (s : G.AppGenState) (w : World) → Fine E (G.marshal_indent s w)
    pub save_as : (d : G.GenesisDoc) (p : FilePath) (w : World) → Fine E (G.save_as d p w)
    pub now : (w : World) → Fine E (O.now w)
    pub reads : (p : FilePath) (w : World) → Fine E (U.app_genesis_from_file p w)
    pub generates :
        (c : NodeConfig) (i : InitConfig K.PubKey) (g : U.AppGenesis) (w : World)
        → Fine E (U.gen_app_state_from_config c i g w)
    pub exports :
        (p : FilePath) (id : Text) (s : Option U.Json) (t : O.Time) (w : World)
        → Fine E (U.export_genesis_file_with_time p id s t w)
    pub writes_config :
        (p : FilePath) (c : NodeConfig) (w : World) → Fine E (C.write_node_config p c w)
    pub prints : (t : Text) (w : World) → Fine E (O.print_err t w)

  module _ (L : Finishes) where
    save_files-Fine :
        (left i : ℕ) (d : G.GenesisDoc) (files : List FilePath) (w : World)
        → i + left ≤ length files
        → Fine E (save_files G left i d files w)
    unfolding save_files
    save_files-Fine zero i d files w h = tt
    save_files-Fine (suc left) i d files w h =
        Returns-then E _ (index files i w) (λ _ _. Unit) (index-Fine E files i w (omega arith))
          λ file w1.
            Returns-then E _ (G.save_as d file w1) (λ _ _. Unit) (L.save_as d file w1)
              λ _ w2. save_files-Fine left (suc i) d files w2 (omega arith)

    init_gen_files-Fine :
        (id : Text) (a : List K.GenAccount) (b : List (Balance Coin)) (files : List FilePath)
        (n : ℕ) (w : World)
        → n ≤ length files
        → Fine E (init_gen_files G id a b files n w)
    unfolding init_gen_files
    init_gen_files-Fine id a b files n w h =
        Returns-then E _ (or_panic (G.auth_state _) w) (λ _ _. Unit)
          (panicked-Fine E (G.auth_state _ w) (L.auth_state _ w))
          λ auth w1.
            Returns-then E _ (G.pack_accounts a w1) (λ _ _. Unit) (L.pack_accounts a w1)
              λ accounts w2.
                Returns-then E _ (or_panic (G.put_auth_state _ _) w2) (λ _ _. Unit)
                  (panicked-Fine E (G.put_auth_state _ _ w2) (L.put_auth_state _ _ w2))
                  λ s w3.
                    Returns-then E _ (or_panic (G.bank_state s) w3) (λ _ _. Unit)
                      (panicked-Fine E (G.bank_state s w3) (L.bank_state s w3))
                      λ bank w4.
                        Returns-then E _ (or_panic (G.put_bank_state _ s) w4) (λ _ _. Unit)
                          (panicked-Fine E (G.put_bank_state _ s w4) (L.put_bank_state _ s w4))
                          λ s' w5.
                            Returns-then E _ (G.marshal_indent s' w5) (λ _ _. Unit)
                              (L.marshal_indent s' w5)
                              λ j w6. save_files-Fine n 0 _ files w6 (omega arith)

    module _ (chain_id output_dir prefix peers : Text) (ports : IntMap Text) (ids : List Text)
        (keys : List (Option K.PubKey)) (t : O.Time) where
      collect_rounds-Fine :
          (left i : ℕ) (s : NodeConfig × Option U.Json) (w : World)
          → i + left ≤ length ids
          → i + left ≤ length keys
          → Fine E (collect_rounds C U chain_id output_dir prefix peers ports ids keys t left i s w)
      unfolding collect_rounds collect_round
      collect_rounds-Fine zero i s w h k = tt
      collect_rounds-Fine (suc left) i (c, s) w h k =
          Returns-then E _
            (collect_round C U chain_id output_dir prefix peers ports ids keys t i (c, s) w)
            (λ _ _. Unit)
            (Returns-then E _ (index ids i w) (λ _ _. Unit) (index-Fine E ids i w (omega arith))
              λ id w1.
                Returns-then E _ (index keys i w1) (λ _ _. Unit)
                  (index-Fine E keys i w1 (omega arith))
                  λ key w2.
                    Returns-then E _ (U.app_genesis_from_file _ w2) (λ _ _. Unit) (L.reads _ w2)
                      λ g w3.
                        Returns-then E _ (U.gen_app_state_from_config _ _ g w3) (λ _ _. Unit)
                          (L.generates _ _ g w3)
                          λ own w4.
                            Returns-then E _ (C.write_node_config _ _ w4) (λ _ _. Unit)
                              (L.writes_config _ _ w4)
                              λ _ w5.
                                Returns-then E _ (U.export_genesis_file_with_time _ _ _ _ w5)
                                  (λ _ _. Unit) (L.exports _ _ _ _ w5) λ _ w6. tt)
            λ s' w'. collect_rounds-Fine left (suc i) s' w' (omega arith) (omega arith)

    choose_chain_id-Fine : (id : Text) (w : World) → Fine E (choose_chain_id O N K C G U id w)
    unfolding choose_chain_id
    choose_chain_id-Fine id w = elim (Bool-cases (text_eq id [])) [
      | inl e ↦ rw e (
          Returns-follow E _ (generate_random_string O.intn 6 w) _ _
            (generate_random_string-IsAlphanumeric O.intn E L.intn 6 w) λ s w1 _. tt)
      | inr e ↦ rw e tt
    ]

    finish-Fine :
        (args : InitArgs Coin) (s : State O N K C args) (n : ℕ) (w : World)
        → args.num_validators ≡ pos n
        → length s.node_ids ≡ n
        → length s.val_pub_keys ≡ n
        → length s.gen_files ≡ n
        → Fine E (finish_testnet_files O N K C G U args s w)
    unfolding finish_testnet_files collect_gen_files
    finish-Fine args s n w h hi hk hf = rw h (
        Returns-then E _
          (init_gen_files G args.chain_id s.gen_accounts s.gen_balances s.gen_files n w)
          (λ _ _. Unit)
          (init_gen_files-Fine args.chain_id s.gen_accounts s.gen_balances s.gen_files n w
            (omega arith))
          λ _ w1.
            Returns-then E _
              (copy_gentxs O args.output_dir args.node_dir_prefix s.gentxs_files n 0 w1)
              (λ _ _. Unit)
              (copy_gentxs-Fine O E L.copies args.output_dir args.node_dir_prefix s.gentxs_files n 0
                w1)
              λ _ w2.
                Returns-then E _ _ (λ _ _. Unit)
                  (Returns-then E _ (O.now w2) (λ _ _. Unit) (L.now w2)
                    λ t w3.
                      Returns-then E _ _ (λ _ _. Unit)
                        (collect_rounds-Fine args.chain_id args.output_dir args.node_dir_prefix
                          s.persistent_peers args.ports s.node_ids s.val_pub_keys t n 0
                          (s.node_config, none) w3 (omega arith) (omega arith))
                        λ _ w4. tt)
                  λ _ w5. L.prints _ w5)

    leb-true : (m n : ℕ) → m ≤ n → leb m n ≡ true
    leb-true m n h = ground arith

    -- Where every call succeeds, the command returns without an error or a panic for each number of
    -- validators that is not negative and that a slice has room for: no index is out of range, with however few amounts and ports.
    pub init_testnet_files_returns :
        (c : NodeConfig) (args : InitArgs Coin) (n : ℕ) (genesis_of : FilePath → FilePath)
        (w : World)
        → ((id : Text) → Succeeds O N K C (record args { chain_id = id }) E genesis_of)
        → args.num_validators ≡ pos n
        → n ≤ O.max_length
        → Fine E (init_testnet_files O N K C G U c args w)
    unfolding init_testnet_files
    init_testnet_files_returns c args n genesis_of w M h fits =
        rw (h, leb-true n O.max_length fits)
          (Returns-then E _ (choose_chain_id O N K C G U args.chain_id w) (λ _ _. Unit)
            (choose_chain_id-Fine args.chain_id w)
            λ id w1.
              Returns-follow E _ (node_rounds O N K C (record args { chain_id = id }) n 0 _ w1) _ _
                (node_rounds-lengths O N K C (record args { chain_id = id }) E genesis_of (M id) n c
                  _ w1)
                λ s w2 (hi, hk, hf).
                  finish-Fine (record args { chain_id = id; num_validators = pos n }) s n w2 refl hi
                    hk hf)
