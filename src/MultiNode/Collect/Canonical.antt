-- ===== src/MultiNode/Collect/Canonical.antt =====
-- All genesis files hold the same state.
use aegis_mirror.Base.{
  ℕ, zero, suc, ◌+◌, ◌<◌, ◌≡◌, ◌≢◌, refl, ◌∙◌, sym, ap, ◌⊎◌, Option, none, some, List, arith,
  length, get_elem?-some, ◌≤◌, inl, inr,
}
use mathlib.Core.Path.{subst}
use native.Mathlib.Decide.{ℕ_discrete}
use aegis_mirror.Base.Text.{Text}
use aegis_mirror.Base.Effect.{Call, index, Returns, Returns-follow, Returns-mono}
use aegis_mirror.Base.Paths.{FilePath, FilePath-discrete}
use aegis_mirror.MultiNode.Args.{IntMap}
use aegis_mirror.MultiNode.Config.{NodeConfig}
use aegis_mirror.MultiNode.Sdk.{Configs}
use aegis_mirror.MultiNode.Collect.{
  GenutilOps, InitConfig, canonical, node_dir, rooted_config, final_config, collect_round,
  collect_rounds,
}

canonical-ne-none : {A : Type 0} (s n : Option A) → n ≢ none → canonical s n ≢ none
canonical-ne-none none n h = h
canonical-ne-none (some a) n h = λ e. cc

canonical-from : {A : Type 0} (s n : Option A) → (s ≡ none) ⊎ (canonical s n ≡ s)
canonical-from none n = inl refl
canonical-from (some a) n = inr refl

module _ {World PubKey Time : Type 0} (C : Configs World) (U : GenutilOps World PubKey Time) where
  -- What a genesis file holds: the chain id, the state and the time.
  abbrev pub Doc : Type 0
  Doc = Text × Option U.Json × Time

  -- The calls as far as they bear on the genesis files, `files`: the reading and the configuration
  -- change none, the generation of a state may change the file of its configuration in any way, and
  -- no other, and the export writes its own. The path of a node's genesis file depends on its root
  -- directory alone.
  pub record WritesGenesis (E : Type 0) (files : World → FilePath → Option Doc)
      (genesis_of : FilePath → FilePath) : Type 1 where
    pub root_dir-set_root : (d : FilePath) (c : NodeConfig) → (C.set_root d c).root_dir ≡ d
    pub genesis_file : (c : NodeConfig) → C.genesis_file c ≡ genesis_of c.root_dir
    pub reads :
        (f : FilePath) (w : World)
        → Returns E (λ _ w'. files w' ≡ files w) (U.app_genesis_from_file f w)
    pub generates :
        (c : NodeConfig) (i : InitConfig PubKey) (g : U.AppGenesis) (w : World)
        → Returns E
            (λ s w'. (s ≢ none) × ((f : FilePath) → f ≢ C.genesis_file c → files w' f ≡ files w f))
            (U.gen_app_state_from_config c i g w)
    pub configures :
        (f : FilePath) (c : NodeConfig) (w : World)
        → Returns E (λ _ w'. files w' ≡ files w) (C.write_node_config f c w)
    pub exports :
        (f : FilePath) (id : Text) (s : Option U.Json) (t : Time) (w : World)
        → Returns E
            (λ _ w'.
              (files w' f ≡ some (id, s, t)) × ((g : FilePath) → g ≢ f → files w' g ≡ files w g))
            (U.export_genesis_file_with_time f id s t w)

  module _ (files : World → FilePath → Option Doc) (genesis_of : FilePath → FilePath) {E : Type 0}
      (L : WritesGenesis E files genesis_of)
      (chain_id output_dir node_dir_prefix persistent_peers : Text) (ports : IntMap Text)
      (node_ids : List Text) (val_pub_keys : List (Option PubKey)) (gen_time : Time) where
    index-frame :
        {A : Type 0} (xs : List A) (i : ℕ) (w : World)
        → i < length xs
        → Returns E (λ _ w'. files w' ≡ files w) (index xs i w)
    index-frame xs i w h = let (a, e) = get_elem?-some xs i h in rw e refl

    -- The genesis file of the `j`-th node.
    abbrev pub path : ℕ → FilePath
    path j = genesis_of (node_dir output_dir node_dir_prefix j)

    -- The files of the nodes before `i` hold the state `s`, and there is a state behind the first.
    abbrev Agree : ℕ → Option U.Json → World → Type 0
    Agree i s w =
        ((j : ℕ) → j < i → files w (path j) ≡ some (chain_id, s, gen_time)) × (s ≡ none → i ≡ 0)

    abbrev round : ℕ → NodeConfig × Option U.Json → Call World (NodeConfig × Option U.Json)
    round =
        collect_round C U chain_id output_dir node_dir_prefix persistent_peers ports node_ids
          val_pub_keys gen_time

    abbrev rounds : ℕ → ℕ → NodeConfig × Option U.Json → Call World (NodeConfig × Option U.Json)
    rounds =
        collect_rounds C U chain_id output_dir node_dir_prefix persistent_peers ports node_ids
          val_pub_keys gen_time

    final_path :
        (i : ℕ) (c : NodeConfig)
        → C.genesis_file (
            final_config C U chain_id output_dir node_dir_prefix persistent_peers ports node_ids
              val_pub_keys gen_time i c)
          ≡ path i
    unfolding final_config
    final_path i c = L.genesis_file _ ∙ ap genesis_of (L.root_dir-set_root _ _)

    -- The file whose state is generated is the one that is exported.
    same_file :
        (i : ℕ) (c : NodeConfig)
        → C.genesis_file (
            rooted_config C U chain_id output_dir node_dir_prefix persistent_peers ports node_ids
              val_pub_keys gen_time i c)
          ≡ C.genesis_file (
              final_config C U chain_id output_dir node_dir_prefix persistent_peers ports node_ids
                val_pub_keys gen_time i c)
    unfolding rooted_config
    same_file i c =
        L.genesis_file _ ∙ ap genesis_of (L.root_dir-set_root _ _) ∙ sym (final_path i c)

    -- The export of the canonical state extends the agreement by one node.
    export-Agree :
        (i : ℕ) (f : FilePath) (s s' : Option U.Json) (w w' : World)
        → f ≡ path i
        → Agree i s w
        → (s' ≢ none)
        → (s ≡ none) ⊎ (s' ≡ s)
        → (files w' f ≡ some (chain_id, s', gen_time))
          × ((g : FilePath) → g ≢ f → files w' g ≡ files w g)
        → Agree (suc i) s' w'
    export-Agree i f s s' w w' e (old, first) there from (new, rest) = (
      λ j h. elim (FilePath-discrete (path j) f) [
        | yes same ↦ ap (files w') same ∙ new
        | no other ↦ rest (path j) other ∙ earlier j (before j h other)
      ],
      λ n. absurd (there n),
    )
      where
        before : (j : ℕ) → j < suc i → path j ≢ f → j < i
        before j h other = elim (ℕ_discrete j i) [
          | yes same ↦ absurd (other (ap path same ∙ sym e))
          | no differ ↦ omega arith
        ]

        same_state : (j : ℕ) → j < i → s' ≡ s
        same_state j h = elim from [ inl n ↦ absurd (omega (arith, first n)) | inr p ↦ p ]

        earlier : (j : ℕ) → j < i → files w (path j) ≡ some (chain_id, s', gen_time)
        earlier j h = old j h ∙ ap (λ x. some (chain_id, x, gen_time)) (sym (same_state j h))

    round-Agree :
        (i : ℕ) (c : NodeConfig) (s : Option U.Json) (w : World)
        → i < length node_ids
        → i < length val_pub_keys
        → Agree i s w
        → Returns E (λ (c', s') w'. Agree (suc i) s' w') (round i (c, s) w)
    unfolding collect_round
    round-Agree i c s w hi hk h =
        Returns-follow E _ (index node_ids i w) _ _ (index-frame node_ids i w hi) λ node_id w1 e1.
          Returns-follow E _ (index val_pub_keys i w1) _ _ (index-frame val_pub_keys i w1 hk)
            λ key w2 e2.
              Returns-follow E _ (U.app_genesis_from_file _ w2) _ _ (L.reads _ w2) λ g w3 e3.
                Returns-follow E _ (U.gen_app_state_from_config _ _ g w3) _ _ (L.generates _ _ g w3)
                  λ n w4 (there, e4).
                    Returns-follow E _ (C.write_node_config _ _ w4) _ _ (L.configures _ _ w4)
                      λ u w5 e5.
                        Returns-follow E _ (U.export_genesis_file_with_time _ _ _ _ w5) _ _
                          (L.exports _ _ _ _ w5)
                          λ u' w6 (new, rest).
                            export-Agree i _ s (canonical s n) w w6 (final_path i c) h
                              (canonical-ne-none s n there) (canonical-from s n)
                              (
                                new,
                                λ f ne.
                                    rest f ne
                                    ∙ ap (λ x. x f) e5
                                    ∙ e4 f (λ e. ne (e ∙ same_file i c))
                                    ∙ ap (λ x. x f) (e3 ∙ e2 ∙ e1),
                              )

    rounds-Agree :
        (left i n : ℕ) (c : NodeConfig) (s : Option U.Json) (w : World)
        → i + left ≡ n
        → n ≤ length node_ids
        → n ≤ length val_pub_keys
        → Agree i s w
        → Returns E (λ (c', s') w'. Agree n s' w') (rounds left i (c, s) w)
    unfolding collect_rounds
    rounds-Agree zero i n c s w e hi hk h = subst (λ k. Agree k s w) (omega arith) h
    rounds-Agree (suc left) i n c s w e hi hk h =
        Returns-follow E _ (round i (c, s) w) _ _
          (round-Agree i c s w (omega arith) (omega arith) h)
          λ (c', s') w' h'. rounds-Agree left (suc i) n c' s' w' (omega arith) hi hk h'

    -- When the loop of `collectGenFiles` ends without an error, the state `s` that it ends with stands
    -- in the genesis file of every node, with the same chain id and the same time.
    pub collect_rounds-same_genesis :
        (n j : ℕ) (c : NodeConfig) (w : World)
        → j < n
        → n ≤ length node_ids
        → n ≤ length val_pub_keys
        → Returns E
            (λ (c', s) w'. files w' (path j) ≡ some (chain_id, s, gen_time))
            (rounds n 0 (c, none) w)
    collect_rounds-same_genesis n j c w hj hi hk =
        Returns-mono E (rounds n 0 (c, none) w) _ _
          (rounds-Agree n 0 n c none w (omega arith) hi hk (λ j h. absurd (omega arith), λ e. refl))
          λ a w' h. h.0 j hj
