-- ===== src/App/Prefixes/Sealed.antt =====
-- The configuration that `init` leaves, beside that of the modules.
use aegis_mirror.Base.{ℕ, ◌≡◌, ◌∙◌, refl, Bool, true, false}
use aegis_mirror.Base.Text.{Text}
use aegis_mirror.Base.Effect.{Returns, Returns-follow, Returns-mono}
use aegis_mirror.MultiNode.Args.{default_bond_denom}
use aegis_mirror.Accounts.ModuleAccounts.{Names}
use aegis_mirror.App.Prefixes.{ConfigOps, init_config}
use aegis_mirror.App.Modules.{ModuleNames, auth_module, staking_module}

-- `sdk.Config`
pub record SdkConfig : Type 0 where
  pub coin_type : ℕ
  pub account : Text
  pub account_pub : Text
  pub validator : Text
  pub validator_pub : Text
  pub consensus : Text
  pub consensus_pub : Text
  pub sealed : Bool

module _ {World : Type 0} (C : ConfigOps World) (E : Type 0) (config : World → SdkConfig)
    (bond_denom : World → Text) where
  -- What the setters do, of a configuration that is not sealed.
  pub record SetsConfig : Type 0 where
    pub denom :
        (t : Text) (w : World)
        → Returns E
            (λ _ w'. (bond_denom w' ≡ t) × (config w' ≡ config w))
            (C.set_default_bond_denom t w)
    pub coin_type :
        (n : ℕ) (w : World)
        → (config w).sealed ≡ false
        → Returns E
            (λ _ w'.
              (bond_denom w' ≡ bond_denom w) × (config w' ≡ record (config w) { coin_type = n }))
            (C.set_coin_type n w)
    pub account :
        (a p : Text) (w : World)
        → (config w).sealed ≡ false
        → Returns E
            (λ _ w'.
              (bond_denom w' ≡ bond_denom w)
              × (config w' ≡ record (config w) { account = a; account_pub = p }))
            (C.set_bech32_prefix_for_account a p w)
    pub validator :
        (a p : Text) (w : World)
        → (config w).sealed ≡ false
        → Returns E
            (λ _ w'.
              (bond_denom w' ≡ bond_denom w)
              × (config w' ≡ record (config w) { validator = a; validator_pub = p }))
            (C.set_bech32_prefix_for_validator a p w)
    pub consensus :
        (a p : Text) (w : World)
        → (config w).sealed ≡ false
        → Returns E
            (λ _ w'.
              (bond_denom w' ≡ bond_denom w)
              × (config w' ≡ record (config w) { consensus = a; consensus_pub = p }))
            (C.set_bech32_prefix_for_consensus_node a p w)
    pub seals :
        (w : World)
        → Returns E
            (λ _ w'.
              (bond_denom w' ≡ bond_denom w) × (config w' ≡ record (config w) { sealed = true }))
            (C.seal w)

  -- After `init` the configuration is sealed; its prefixes are those that the auth and the staking
  -- module are configured with, and the bond denomination is that of the genesis coins. It was not
  -- sealed before.
  pub init_config-prefixes :
      (L : SetsConfig) (N : Names) (M : ModuleNames) (w : World)
      → (config w).sealed ≡ false
      → Returns E
          (λ _ w'.
            ((config w').sealed ≡ true)
            × ((config w').coin_type ≡ 60)
            × ((config w').account ≡ (auth_module N M).bech32_prefix)
            × ((config w').validator ≡ (staking_module N M).bech32_prefix_validator)
            × ((config w').consensus ≡ (staking_module N M).bech32_prefix_consensus)
            × (bond_denom w' ≡ default_bond_denom))
          (init_config C w)
  unfolding init_config auth_module staking_module
  init_config-prefixes L N M w h =
      Returns-follow E _ (C.set_default_bond_denom _ w) _ _ (L.denom _ w) λ _ w1 (d1, e1).
        Returns-follow E _ (C.set_coin_type _ w1) _ _ (L.coin_type _ w1 (rw e1 h)) λ _ w2 (d2, e2).
          Returns-follow E _ (C.set_bech32_prefix_for_account _ _ w2) _ _
            (L.account _ _ w2 (rw (e2, e1) h))
            λ _ w3 (d3, e3).
              Returns-follow E _ (C.set_bech32_prefix_for_validator _ _ w3) _ _
                (L.validator _ _ w3 (rw (e3, e2, e1) h))
                λ _ w4 (d4, e4).
                  Returns-follow E _ (C.set_bech32_prefix_for_consensus_node _ _ w4) _ _
                    (L.consensus _ _ w4 (rw (e4, e3, e2, e1) h))
                    λ _ w5 (d5, e5). Returns-mono E (C.seal w5) _ _ (L.seals w5) λ _ w6 (d6, e6). (
                      rw e6 refl,
                      rw (e6, e5, e4, e3, e2) refl,
                      rw (e6, e5, e4, e3) refl,
                      rw (e6, e5, e4) refl,
                      rw (e6, e5) refl,
                      d6 ∙ d5 ∙ d4 ∙ d3 ∙ d2 ∙ d1,
                    )
