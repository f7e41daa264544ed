-- ===== src/Command/Testnets/Ends.antt =====
-- `RunE` of the multi-node command ends, from the flags to the last line that it prints.
use aegis_mirror.Base.{
  ℕ, suc, ◌≤◌, ◌≡◌, refl, ◌∙◌, Option, none, some, List, [], ◌∷◌, All, Option-cases, inl, inr,
}
use aegis_mirror.Base.Int.{ℤ, pos}
use aegis_mirror.Base.Text.{Text, split}
use aegis_mirror.Base.Effect.{Call, pure, Fine, Returns, Returns-follow, Returns-then}
use aegis_mirror.Base.Paths.{FilePath}
use aegis_mirror.MultiNode.Args.{
  InitArgs, IntMap, put, Flags, default_bond_denom, parse_amounts, parse_stakes, parse_flags,
}
use aegis_mirror.MultiNode.Config.{NodeConfig}
use aegis_mirror.MultiNode.Sdk.{Os, CoinOps, Keys, Configs}
use aegis_mirror.MultiNode.Genesis.{GenesisOps}
use aegis_mirror.MultiNode.Collect.{GenutilOps}
use aegis_mirror.MultiNode.Init.{init_testnet_files}
use aegis_mirror.MultiNode.Init.Stages.{Succeeds}
use aegis_mirror.MultiNode.Init.Total.{Finishes, init_testnet_files_returns}
use aegis_mirror.Command.Testnets.{FlagNames, FlagValues, read_flags, run_multi_node}

module _ {World Coin : Type 0} (N : CoinOps World Coin) (E : Type 0) where
  -- If the text is an amount, then it is one of a coin: it is not negative.
  abbrev pub Accepted : Text → Type 0
  Accepted t =
      (a : ℤ) (w : World)
      → N.int_from_string t ≡ some a
      → Fine E (N.new_coin default_bond_denom a w)

  -- The amounts of the flag `--validators-stake-amount`.
  abbrev pub IsAccepted : Option Text → Type 0
  IsAccepted none = Unit
  IsAccepted (some s) = All Accepted (split b',' s)

  parse_amounts-Fine :
      (texts : List Text) (top : ℕ) (stakes : IntMap Coin) (w : World)
      → All Accepted texts
      → Fine E (parse_amounts N.int_from_string N.new_coin texts top stakes w)
  unfolding parse_amounts
  parse_amounts-Fine [] top stakes w h = tt
  parse_amounts-Fine (t ∷ texts) top stakes w (k, h) = elim (Option-cases (N.int_from_string t)) [
    | inl e ↦ rw (parse_amounts, e) (parse_amounts-Fine texts top stakes w h)
    | inr (a, e) ↦
        rw (parse_amounts, e)
          (Returns-then E _ (N.new_coin default_bond_denom a w) (λ _ _. Unit) (k a w e)
            λ c w1. parse_amounts-Fine texts (suc top) (put top c stakes) w1 h)
  ]

  parse_stakes-Fine :
      (top : ℕ) (s : Option Text) (w : World)
      → IsAccepted s
      → Fine E (parse_stakes N.int_from_string N.new_coin top s w)
  unfolding parse_stakes
  parse_stakes-Fine top none w h = tt
  parse_stakes-Fine top (some s) w h = parse_amounts-Fine (split b',' s) top [] w h

  -- The arguments that come from the flags as they are.
  abbrev Read : Flags → InitArgs Coin → Type 0
  Read f args =
      (args.num_validators ≡ f.num_validators)
      × (args.algo ≡ f.key_type)
      × (args.keyring_backend ≡ f.keyring_backend)

  parse_flags-Read :
      (f : Flags) (w : World)
      → IsAccepted f.validators_stake_amount
      → Returns E (λ args _. Read f args) (parse_flags N.int_from_string N.new_coin f w)
  unfolding parse_flags
  parse_flags-Read f w h =
      Returns-then E _ (parse_stakes N.int_from_string N.new_coin 0 f.validators_stake_amount w) _
        (parse_stakes-Fine 0 f.validators_stake_amount w h) λ _ w1. (refl, refl, refl)

module _ {World Coin : Type 0} (O : Os World) (N : CoinOps World Coin) (K : Keys World Coin)
    (C : Configs World) (G : GenesisOps World Coin K.GenAccount)
    (U : GenutilOps World K.PubKey O.Time) (E : Type 0) (F : FlagNames) where
  -- The flags' values are ones that the command can work with: the number of validators and the
  -- amounts are not negative, a slice has room for one element for each validator, and the calls succeed with the flags' algorithm and keyring backend.
  pub record Usable (genesis_of : FilePath → FilePath) (v : FlagValues) : Type 1 where
    pub amounts : IsAccepted N E (read_flags F v).validators_stake_amount
    pub count : ℕ
    pub validators : (read_flags F v).num_validators ≡ pos count
    pub fits : count ≤ O.max_length
    pub calls :
        (args : InitArgs Coin)
        → args.algo ≡ (read_flags F v).key_type
        → args.keyring_backend ≡ (read_flags F v).keyring_backend
        → Succeeds O N K C args E genesis_of

  -- Where every call succeeds, `RunE` returns without an error or a panic for all flags whose number
  -- of validators and whose amounts are not negative, if a slice has room for the validators: an amount that is no number, or too few amounts
  -- or ports, stop nothing.
  pub run_multi_node_returns :
      {Context : Type 0} (L : Finishes O N K C G U E) (get_client_context : Call World Context)
      (get_config : Call World NodeConfig) (v : FlagValues) (genesis_of : FilePath → FilePath)
      (w : World)
      → ((w : World) → Fine E (get_client_context w))
      → ((w : World) → Fine E (get_config w))
      → Usable genesis_of v
      → Fine E (
          run_multi_node N.int_from_string N.new_coin F get_client_context get_config
            (pure v)
            (λ _ c args. init_testnet_files O N K C G U c args)
            w)
  unfolding run_multi_node
  run_multi_node_returns L get_client_context get_config v genesis_of w hc hg h =
      Returns-then E _ (get_client_context w) _ (hc w) λ context w1.
        Returns-then E _ (get_config w1) _ (hg w1) λ config w2.
          Returns-follow E _ (parse_flags N.int_from_string N.new_coin (read_flags F v) w2) _ _
            (parse_flags-Read N E (read_flags F v) w2 h.amounts)
            λ args w3 (count, algo, backend).
              init_testnet_files_returns O N K C G U E L config args h.count genesis_of w3
                (λ id. h.calls (record args { chain_id = id }) algo backend) (count ∙ h.validators)
                h.fits
