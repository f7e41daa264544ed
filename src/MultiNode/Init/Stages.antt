-- ===== src/MultiNode/Init/Stages.antt =====
-- What each part of a round of the loop of `initTestnetFiles` gives, where the calls succeed.
use aegis_mirror.Base.{
  ℕ, ◌≡◌, Bool, Option, some, List, [], ◌∷◌, ◌++◌, get_elem?, set, Option-cases, inl, inr,
}
use aegis_mirror.Base.Int.{ℤ}
use aegis_mirror.Base.Text.{Text, codes}
use aegis_mirror.Base.Effect.{
  Result, ok, err, panic, exit, Call, follow, Returns, Fine, Returns-then, Returns-bind,
}
use aegis_mirror.Base.Paths.{FilePath, join_path}
use aegis_mirror.MultiNode.Args.{InitArgs, at_key, default_bond_denom}
use aegis_mirror.MultiNode.Config.{NodeConfig, AppConfig, peer_memo}
use aegis_mirror.MultiNode.Sdk.{Os, CoinOps, CommissionRates, Balance, Keys, Configs, TxFactory}
use aegis_mirror.MultiNode.Files.{write_file, wrapped}
use aegis_mirror.MultiNode.Collect.{node_dir}
use aegis_mirror.MultiNode.Init.Node.{
  State, cleaned, add_peer, gentxs_dir, stake_at, or_clean_up, init_node, init_account, init_gentx,
}

-- `fmt.Sprintf("%v.json", "gentx-"+nodeID)` in the directory of a node's transactions.
abbrev pub gentx_file : Text → Text → ℕ → Text → FilePath
gentx_file output_dir prefix i id =
    join_path (gentxs_dir output_dir prefix i) (codes "gentx-" ++ (id ++ codes ".json"))

module _ {World Coin : Type 0} (O : Os World) (N : CoinOps World Coin) (K : Keys World Coin)
    (C : Configs World) (args : InitArgs Coin) (E : Type 0) (genesis_of : FilePath → FilePath) where
  -- The calls that a round makes succeed, unless `E`: the signing algorithm and the backend are known,
  -- and a coin of so much consensus power is one. The genesis file of a configuration depends on its
  -- root directory only.
  pub record Succeeds : Type 1 where
    pub mkdir_all : (p : FilePath) (m : ℕ) (w : World) → Fine E (O.mkdir_all p m w)
    pub write_file : (p : FilePath) (t : Text) (m : ℕ) (w : World) → Fine E (O.write_file p t m w)
    pub new_coin : (d : Text) (k : ℕ) (w : World) → Fine E (N.new_coin d (N.tokens_from_power k) w)
    pub initializes : (c : NodeConfig) (w : World) → Fine E (K.initialize_node_validator_files c w)
    pub new_keyring : (d : FilePath) (w : World) → Fine E (K.new_keyring args.keyring_backend d w)
    pub algo : (s : List K.Algo) (w : World) → Fine E (K.signing_algo_from_string args.algo s w)
    pub saves_key :
        (kb : K.Keyring) (n m : Text) (o : Bool) (a : K.Algo) (w : World)
        → Fine E (K.generate_save_coin_key kb n m o a w)
    pub marshals : (t : List (Text × Text)) (w : World) → Fine E (K.marshal_info t w)
    pub creates :
        (a : Text) (k : Option K.PubKey) (c : Coin) (n : Text) (r : CommissionRates) (m : ℤ)
        (w : World)
        → Fine E (K.new_msg_create_validator a k c n r m w)
    pub sets_msgs : (b : K.TxBuilder) (m : List K.Msg) (w : World) → Fine E (K.set_msgs b m w)
    pub signs :
        (f : TxFactory K.Keyring) (n : Text) (b : K.TxBuilder) (o : Bool) (w : World)
        → Fine E (K.sign f n b o w)
    pub encodes : (b : K.TxBuilder) (w : World) → Fine E (K.tx_json b w)
    pub writes : (p : FilePath) (c : AppConfig) (w : World) → Fine E (C.write_app_config p c w)
    pub roots : (d : FilePath) (c : NodeConfig) → (C.set_root d c).root_dir ≡ d
    pub places : (c : NodeConfig) → C.genesis_file c ≡ genesis_of c.root_dir

  cleaned-Fine : {A : Type 0} (r : Result A × World) → Fine E r → Fine E (cleaned O N K C args r)
  cleaned-Fine (ok a, w) h = tt
  cleaned-Fine (err e, w) h = h
  cleaned-Fine (panic e, w) h = h
  cleaned-Fine (exit n, w) h = h

  wrapped-Fine :
      (message : Text) (r : Result (Unit {0}) × World) → Fine E r → Fine E (wrapped O message r)
  wrapped-Fine message (ok a, w) h = tt
  wrapped-Fine message (err e, w) h = h
  wrapped-Fine message (panic e, w) h = h
  wrapped-Fine message (exit n, w) h = h

  module _ (L : Succeeds) where
    write_file-Fine : (f d : FilePath) (t : Text) (w : World) → Fine E (write_file O f d t w)
    unfolding write_file
    write_file-Fine f d t w =
        let message = codes "could not create directory " ++ (O.quoted d ++ codes ": ") in
        Returns-then E (λ _. O.write_file f t 0o644) (wrapped O message (O.mkdir_all d 0o755 w))
          (λ _ _. Unit) (wrapped-Fine message (O.mkdir_all d 0o755 w) (L.mkdir_all d 0o755 w))
          λ _ w1. L.write_file f t 0o644 w1

    stake_at-Fine : (i : ℕ) (w : World) → Fine E (stake_at O N K C args i w)
    unfolding stake_at
    stake_at-Fine i w = elim (Option-cases (at_key args.validators_stakes_amount i)) [
      | inl h ↦ rw (stake_at, h) (L.new_coin default_bond_denom 100 w)
      | inr (c, h) ↦ rw (stake_at, h) tt
    ]

    abbrev pub dir : ℕ → FilePath
    dir i = node_dir args.output_dir args.node_dir_prefix i

    pub init_node_lem :
        {B : Type 0} (f : State O N K C args → Call World B) (Q : B → World → Type 0) (i : ℕ)
        (s : State O N K C args) (w : World) (a : Text) (b : Option K.PubKey)
        → get_elem? s.node_ids i ≡ some a
        → get_elem? s.val_pub_keys i ≡ some b
        → ((id : Text) (key : K.PubKey) (c : NodeConfig) (w' : World)
            → Returns E Q (
                f
                  (record s {
                    node_config = c;
                    node_ids = set s.node_ids i id;
                    val_pub_keys = set s.val_pub_keys i (some key);
                    persistent_peers =
                        add_peer s.persistent_peers (peer_memo id args.starting_ip_address i);
                    gen_files = s.gen_files ++ genesis_of (dir i) ∷ [];
                  })
                  w'))
        → Returns E Q (follow f (init_node O N K C args i s w))
    unfolding init_node or_clean_up
    init_node_lem f Q i s w a b ha hb k = Returns-bind E f _ Q (
        Returns-then E _ _ _ (cleaned-Fine _ (L.mkdir_all _ 0o755 w)) λ _ w1.
          Returns-then E _ _ _ (cleaned-Fine _ (L.initializes _ w1))
            λ (id, key) w2. rw ha (rw hb (rw (L.places, L.roots) (k id key _ w2))))

    pub init_account_lem :
        {B : Type 0} (f : K.Address × State O N K C args → Call World B) (Q : B → World → Type 0)
        (i : ℕ) (kb : K.Keyring) (s : State O N K C args) (w : World)
        → ((addr : K.Address) (c : Balance Coin) (g : K.GenAccount) (w' : World)
            → Returns E Q (
                f
                  (
                    addr,
                    record s {
                      gen_balances = s.gen_balances ++ c ∷ [];
                      gen_accounts = s.gen_accounts ++ g ∷ [];
                    },
                  )
                  w'))
        → Returns E Q (follow f (init_account O N K C args i kb s w))
    unfolding init_account or_clean_up
    init_account_lem f Q i kb s w k = Returns-bind E f _ Q (
        Returns-then E _ _ _ (L.algo _ w) λ algo w1.
          Returns-then E _ _ _ (cleaned-Fine _ (L.saves_key kb _ _ _ algo w1)) λ (addr, secret) w2.
            Returns-then E _ _ _ (L.marshals _ w2) λ t w3.
              Returns-then E _ _ _ (write_file-Fine _ _ t w3) λ _ w4.
                Returns-then E _ _ _ (L.new_coin _ 1000 w4)
                  λ c w5. Returns-then E _ _ _ (L.new_coin _ 500 w5) λ d w6. k addr _ _ w6)

    pub init_gentx_lem :
        {B : Type 0} (f : State O N K C args → Call World B) (Q : B → World → Type 0) (i : ℕ)
        (memo : Text) (kb : K.Keyring) (addr : K.Address) (s : State O N K C args) (w : World)
        (id : Text) (key : Option K.PubKey)
        → get_elem? s.node_ids i ≡ some id
        → get_elem? s.val_pub_keys i ≡ some key
        → ((w' : World)
            → Returns E Q (
                f
                  (record s {
                    gentxs_files =
                        s.gentxs_files ++ gentx_file args.output_dir args.node_dir_prefix i id ∷ [];
                  })
                  w'))
        → Returns E Q (follow f (init_gentx O N K C args i memo kb addr s w))
    unfolding init_gentx
    init_gentx_lem f Q i memo kb addr s w id key hi hk k = Returns-bind E f _ Q (
        Returns-then E _ _ _ (stake_at-Fine i w) λ c w1. rw hk (
          Returns-then E _ _ _ (L.creates _ _ c _ _ _ w1) λ m w2.
            Returns-then E _ _ _ (L.sets_msgs _ _ w2) λ b w3.
              Returns-then E _ _ _ (L.signs _ _ _ _ w3) λ signed w4.
                Returns-then E _ _ _ (L.encodes signed w4)
                  λ t w5. rw hi (Returns-then E _ _ _ (write_file-Fine _ _ t w5) λ _ w6. k w6)))
