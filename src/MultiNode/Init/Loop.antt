-- ===== src/MultiNode/Init/Loop.antt =====
-- What the loop over the nodes leaves in the variables of `initTestnetFiles`.
use mathlib.Core.List.{append_assoc, append-nil}
use mathlib.Core.Path.{subst}
use aegis_mirror.Base.{
  ℕ, zero, suc, ◌+◌, ◌≡◌, ap, refl, ◌∙◌, none, some, List, [], ◌∷◌, ◌++◌, arith, length, replicate,
  get_elem?, set, get_elem?-some, get_elem?-append_middle, get_elem?-set, lt-of_some,
  set-append_middle, length-append, length-replicate, length-set, numbered, numbered-append_last,
  length-numbered,
}
use aegis_mirror.Base.Text.{Text, join}
use aegis_mirror.Base.Effect.{Returns, Returns-then, Returns-follow, Returns-mono}
use aegis_mirror.Base.Paths.{FilePath}
use aegis_mirror.MultiNode.Args.{InitArgs}
use aegis_mirror.MultiNode.Config.{NodeConfig, AppConfig, peer_memo}
use aegis_mirror.MultiNode.Sdk.{Os, CoinOps, Balance, Keys, Configs}
use aegis_mirror.MultiNode.Init.Node.{
  State, start, add_peer, init_app_config, node_round, node_rounds,
}
use aegis_mirror.MultiNode.Init.Stages.{
  Succeeds, dir, gentx_file, init_node_lem, init_account_lem, init_gentx_lem,
}
use aegis_mirror.MultiNode.Init.Peers.{memos, add_peers, add_peers-append_last, add_peers-memos}

module _ {World Coin : Type 0} (O : Os World) (N : CoinOps World Coin) (K : Keys World Coin)
    (C : Configs World) (args : InitArgs Coin) (E : Type 0) (genesis_of : FilePath → FilePath)
    (L : Succeeds O N K C args E genesis_of) where
  abbrev ip : Text
  ip = args.starting_ip_address

  -- The genesis files and the files of the transactions of nodes with these ids.
  abbrev pub genesis_files : List Text → List FilePath
  genesis_files = numbered (λ i _. genesis_of (dir O N K C args E genesis_of L i)) 0

  abbrev pub gentx_files : List Text → List FilePath
  gentx_files = numbered (gentx_file args.output_dir args.node_dir_prefix) 0

  -- The variables after the rounds of the nodes with these ids, with so many rounds left.
  record Reached (ids : List Text) (left : ℕ) (s : State O N K C args) : Type 0 where
    node_ids : s.node_ids ≡ ids ++ replicate left []
    keys : length s.val_pub_keys ≡ length ids + left
    peers : s.persistent_peers ≡ add_peers [] (memos ip 0 ids)
    gen_files : s.gen_files ≡ genesis_files ids
    gentxs : s.gentxs_files ≡ gentx_files ids
    accounts : length s.gen_accounts ≡ length ids
    balances : length s.gen_balances ≡ length ids

  abbrev After : List Text → ℕ → State O N K C args → World → Type 0
  After ids left s w = (id : Text) × Reached (ids ++ id ∷ []) left s

  step-Reached :
      (ids : List Text) (left : ℕ) (s : State O N K C args) (id : Text) (key : K.PubKey)
      (c : NodeConfig) (a : AppConfig) (b : Balance Coin) (g : K.GenAccount)
      → Reached ids (suc left) s
      → Reached (ids ++ id ∷ []) left (record {
        node_config = c;
        app_config = a;
        node_ids = set s.node_ids (length ids) id;
        val_pub_keys = set s.val_pub_keys (length ids) (some key);
        gen_accounts = s.gen_accounts ++ g ∷ [];
        gen_balances = s.gen_balances ++ b ∷ [];
        gen_files = s.gen_files ++ genesis_of (dir O N K C args E genesis_of L (length ids)) ∷ [];
        persistent_peers = add_peer s.persistent_peers (peer_memo id ip (length ids));
        gentxs_files =
            s.gentxs_files ++ gentx_file args.output_dir args.node_dir_prefix (length ids) id ∷ [];
      })
  step-Reached ids left s id key c a b g h = record {
    node_ids = rw (h.node_ids, set-append_middle ids (replicate left []) [] id, append_assoc) refl;
    keys =
        length-set s.val_pub_keys (length ids) (some key)
        ∙ omega (arith, h.keys, length-append ids (id ∷ []));
    peers =
        rw
          (
            h.peers,
            numbered-append_last (λ i x. peer_memo x ip i) ids id,
            add_peers-append_last [] (memos ip 0 ids) (peer_memo id ip (length ids)),
          )
          refl;
    gen_files =
        rw
          (
            h.gen_files,
            numbered-append_last (λ i _. genesis_of (dir O N K C args E genesis_of L i)) ids id,
          )
          refl;
    gentxs =
        rw (h.gentxs, numbered-append_last (gentx_file args.output_dir args.node_dir_prefix) ids id)
          refl;
    accounts =
        omega
          (arith, h.accounts, length-append s.gen_accounts (g ∷ []), length-append ids (id ∷ []));
    balances =
        omega
          (arith, h.balances, length-append s.gen_balances (b ∷ []), length-append ids (id ∷ []));
  }

  round-Reached :
      (ids : List Text) (left : ℕ) (s : State O N K C args) (w : World)
      → Reached ids (suc left) s
      → Returns E (After ids left) (node_round O N K C args (length ids) s w)
  unfolding node_round init_app_config
  round-Reached ids left s w h =
      let i = length ids in
      let first : get_elem? s.node_ids i ≡ some [] =
        rw h.node_ids (get_elem?-append_middle ids (replicate left []) []) in
      let (key, hk) = get_elem?-some s.val_pub_keys i (rw h.keys (omega arith)) in
      init_node_lem O N K C args E genesis_of L _ _ i s w [] key first hk λ id key' c w1.
        let placed = get_elem?-set s.node_ids i id (lt-of_some s.node_ids i [] first) in
        let known = get_elem?-set s.val_pub_keys i (some key') (rw h.keys (omega arith)) in
        rw placed (
          Returns-then E _ _ _ (L.new_keyring _ w1) λ kb w2.
            init_account_lem O N K C args E genesis_of L _ _ i kb _ w2 λ addr b g w3.
              init_gentx_lem O N K C args E genesis_of L _ _ i _ kb addr _ w3 id (some key') placed
                known
                λ w4.
                  Returns-then E _ _ (After ids left) (L.writes _ _ w4)
                    λ _ w5. (id, step-Reached ids left s id key' c _ b g h))

  rounds-Reached :
      (left : ℕ) (ids : List Text) (s : State O N K C args) (w : World)
      → Reached ids left s
      → Returns E
          (λ s' _. (all : List Text) × (length all ≡ length ids + left) × Reached all 0 s')
          (node_rounds O N K C args left (length ids) s w)
  unfolding node_rounds
  rounds-Reached zero ids s w h = (ids, omega arith, h)
  rounds-Reached (suc left) ids s w h =
      Returns-follow E _ (node_round O N K C args (length ids) s w) _ _
        (round-Reached ids left s w h)
        λ s' w' (id, h').
          let next : length (ids ++ id ∷ []) ≡ suc (length ids) =
            omega (arith, length-append ids (id ∷ [])) in
          Returns-mono E (node_rounds O N K C args left (suc (length ids)) s' w') _ _
            (subst
              (λ k.
                Returns E
                  (λ s' _.
                    (all : List Text) × (length all ≡ length (ids ++ id ∷ []) + left)
                    × Reached all 0 s')
                  (node_rounds O N K C args left k s' w'))
              next (rounds-Reached left (ids ++ id ∷ []) s' w' h'))
            λ s2 w2 (all, e, r). (all, omega arith, r)

  start-Reached :
      (n : ℕ) (c : NodeConfig) (a : AppConfig)
      → Reached [] n (start c a (replicate n []) (replicate n none))
  start-Reached n c a = record {
    node_ids = refl;
    keys = length-replicate n none ∙ omega arith;
    peers = refl;
    gen_files = refl;
    gentxs = refl;
    accounts = refl;
    balances = refl;
  }

  -- Where the calls of the loop succeed, it leaves for `n` nodes `n` ids, accounts and balances; the
  -- list of peers is the entries of the nodes with these ids joined by commas; and the files of the
  -- genesis states and of the transactions are those of the nodes with these ids, in order.
  pub node_rounds-peers :
      (n : ℕ) (c : NodeConfig) (a : AppConfig) (w : World)
      → Returns E
          (λ s _.
            (length s.node_ids ≡ n)
            × (length s.gen_accounts ≡ n)
            × (length s.gen_balances ≡ n)
            × (s.persistent_peers ≡ join b',' (memos ip 0 s.node_ids))
            × (s.gen_files ≡ genesis_files s.node_ids)
            × (s.gentxs_files ≡ gentx_files s.node_ids))
          (node_rounds O N K C args n 0 (start c a (replicate n []) (replicate n none)) w)
  node_rounds-peers n c a w =
      Returns-mono E
        (node_rounds O N K C args n 0 (start c a (replicate n []) (replicate n none)) w) _ _
        (rounds-Reached n [] (start c a (replicate n []) (replicate n none)) w
          (start-Reached n c a))
        λ s w' (ids, e, r).
          let same : s.node_ids ≡ ids = r.node_ids ∙ append-nil ids in
          rw same (
            omega (arith, e),
            omega (arith, e, r.accounts),
            omega (arith, e, r.balances),
            r.peers ∙ add_peers-memos ip ids,
            r.gen_files,
            r.gentxs,
          )

  -- After the loop there is a slot of each kind for every node.
  pub node_rounds-lengths :
      (n : ℕ) (c : NodeConfig) (a : AppConfig) (w : World)
      → Returns E
          (λ s _. (length s.node_ids ≡ n) × (length s.val_pub_keys ≡ n) × (length s.gen_files ≡ n))
          (node_rounds O N K C args n 0 (start c a (replicate n []) (replicate n none)) w)
  node_rounds-lengths n c a w =
      Returns-mono E
        (node_rounds O N K C args n 0 (start c a (replicate n []) (replicate n none)) w) _ _
        (rounds-Reached n [] (start c a (replicate n []) (replicate n none)) w
          (start-Reached n c a))
        λ s w' (ids, e, r). (
          ap length (r.node_ids ∙ append-nil ids) ∙ omega (arith, e),
          omega (arith, e, r.keys),
          ap length r.gen_files ∙ length-numbered _ 0 ids ∙ omega (arith, e),
        )
