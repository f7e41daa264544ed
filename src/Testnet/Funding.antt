-- ===== src/Testnet/Funding.antt =====
-- What the accounts are given, and what happens without an account.
use aegis_mirror.Base.{
  ℕ, ◌+◌, ◌*◌, ◌≡◌, ◌≢◌, refl, Bool, false, Option, none, some, List, [], ◌∷◌, arith, length,
  value_of, if◌then◌else◌,
}
use aegis_mirror.Base.Text.{Text, text_eq}
use aegis_mirror.Base.Effect.{
  Result, ok, err, panic, exit, Call, or_raise, for_each, ◌>>=◌, Returns, Returns-follow,
  Returns-mono, Never, Never-follow,
}
use aegis_mirror.Testnet.Args.{TestnetOptions, ValArgs, get_command_args, accounts_to_fund_default}
use aegis_mirror.Testnet.Keepers.{StakingOps, DistributionOps, BankOps}
use aegis_mirror.Testnet.Handled.{Returns-handled}
use aegis_mirror.Testnet.Init.{
  handle_err, new_validator, remove_validators, add_validator, init_distribution, fund_account,
  fund_accounts, funded_amount, init_app_for_testnet, new_testnet_app, args_or_panic,
}

module _ {World PubKey : Type 0} (S : StakingOps World PubKey) (D : DistributionOps World)
    (B : BankOps World) where
  -- Is the text an address of the account?
  abbrev decodes_to : Option Text → Text → Bool
  decodes_to none a = false
  decodes_to (some b) a = text_eq a b

  -- How often an account stands in the list.
  abbrev pub times : Text → List Text → ℕ
  times a [] = 0
  times a (s ∷ ss) = (if decodes_to (B.acc_address s) a then 1 else 0) + times a ss

  module _ (E : Type 0) (supply : World → ℕ) (balance : World → Text → ℕ) (amount : B.Coins → ℕ)
      (mint_address : Text) where
    -- What the bank does: minting raises the supply, and of the balances only that of the mint module;
    -- sending raises the balance of the account, and of the others only changes the mint module's.
    pub record MovesCoins : Type 0 where
      pub mints :
          (c : B.Coins) (w : World)
          → Returns E
              (λ _ w'.
                (supply w' ≡ supply w + amount c)
                × ((a : Text) → a ≢ mint_address → balance w' a ≡ balance w a))
              (B.mint_coins B.mint_module c w)
      pub sends :
          (b : Text) (c : B.Coins) (w : World)
          → Returns E
              (λ _ w'.
                (supply w' ≡ supply w)
                × ((a : Text)
                    → a ≢ mint_address
                    → balance w' a ≡ (if text_eq a b then balance w a + amount c else balance w a)))
              (B.send_coins_from_module_to_account B.mint_module b c w)

    -- Every text of the list is an address.
    abbrev pub Decodes : List Text → Type 0
    Decodes [] = Unit
    Decodes (s ∷ ss) = (B.acc_address s ≢ none) × Decodes ss

    module _ (L : MovesCoins) (coins : B.Coins) where
      abbrev Funded : List Text → World → World → Type 0
      Funded ss w w' =
          (supply w' ≡ supply w + amount coins * length ss)
          × ((a : Text) → a ≢ mint_address → balance w' a ≡ balance w a + amount coins * times a ss)

      fund_account_lem :
          (s : Text) (w : World)
          → B.acc_address s ≢ none
          → Returns E
              (λ _ w'.
                (supply w' ≡ supply w + amount coins)
                × ((a : Text)
                    → a ≢ mint_address
                    → balance w' a
                      ≡ balance w a
                        + amount coins * (if decodes_to (B.acc_address s) a then 1 else 0)))
              (fund_account S D B coins s w)
      unfolding fund_account
      fund_account_lem s w h =
          let (b, eb) = value_of (B.acc_address s) h in
          rw eb (
            Returns-follow E _ (handle_err S D B (B.mint_coins B.mint_module coins) w) _ _
              (Returns-handled S D B E (B.mint_coins B.mint_module coins w) _ (L.mints coins w))
              λ _ w1 (e1, k1).
                Returns-mono E
                  (handle_err S D B (B.send_coins_from_module_to_account B.mint_module b coins) w1)
                  _ _
                  (Returns-handled S D B E
                    (B.send_coins_from_module_to_account B.mint_module b coins w1) _
                    (L.sends b coins w1))
                  λ _ w2 (e2, k2). (omega arith, λ a ne. ground (arith, k1 a ne, k2 a ne)))

      fund_all :
          (ss : List Text) (w : World)
          → Decodes ss
          → Returns E (λ _ w'. Funded ss w w') (fund_accounts S D B coins ss w)
      unfolding fund_accounts
      fund_all [] w h = (omega arith, λ a ne. omega arith)
      fund_all (s ∷ ss) w (hs, h) =
          Returns-follow E _ (fund_account S D B coins s w) _ _ (fund_account_lem s w hs)
            λ _ w1 (e1, k1).
              Returns-mono E (fund_accounts S D B coins ss w1) _ _ (fund_all ss w1 h)
                λ _ w2 (e2, k2). (grind arith, λ a ne. grind (arith, k1 a ne, k2 a ne))

      -- After the loop an account that is not the mint module's has been given the coins as often as it
      -- is listed, and the supply has grown by what was given; each text of the list is an address.
      pub fund_accounts-balance :
          (ss : List Text) (w : World) (a : Text)
          → Decodes ss
          → a ≢ mint_address
          → Returns E
              (λ _ w'.
                (balance w' a ≡ balance w a + amount coins * times a ss)
                × (supply w' ≡ supply w + amount coins * length ss))
              (fund_accounts S D B coins ss w)
      fund_accounts-balance ss w a h ne =
          Returns-mono E (fund_accounts S D B coins ss w) _ _ (fund_all ss w h)
            λ _ w' (e, k). (k a ne, e)

  fund_accounts-Never :
      (coins : B.Coins) (w : World)
      → B.acc_address [] ≡ none
      → Never (fund_accounts S D B coins ([] ∷ []) w)
  unfolding fund_accounts fund_account handle_err for_each
  fund_accounts-Never coins w h =
      Returns-follow (Unit {0}) _ (fund_account S D B coins [] w) (λ _ _. ⊥) _
        (Never-follow _ (handle_err S D B (B.mint_coins B.mint_module coins) w) λ _ w1. rw h tt)
        λ _ w1 b. absurd b

  init_app-Never :
      (a : ValArgs PubKey) (w : World)
      → a.accounts_to_fund ≡ [] ∷ []
      → B.acc_address [] ≡ none
      → Never (init_app_for_testnet S D B a w)
  unfolding init_app_for_testnet
  init_app-Never a w e h =
      Never-follow _ (handle_err S D B (S.new_any_with_value a.new_val_pub_key) w) λ any w1.
        Never-follow _
          (handle_err S D B
            (or_raise (S.val_address a.new_operator_address)
              (S.val_address_error a.new_operator_address))
            w1)
          λ v w2. Never-follow _ (remove_validators S D B w2) λ _ w3.
            Never-follow _
              (add_validator S D B (new_validator S D B a.new_operator_address any) v w3)
              λ _ w4. Never-follow _ (init_distribution S D B v w4) λ _ w5.
                Never-follow _ (handle_err S D B S.bond_denom w5) λ d w6.
                  Never-follow _ (B.new_coins d funded_amount w6)
                    λ c w7. rw e (fund_accounts-Never c w7 h)

  args-Never :
      (o : TestnetOptions PubKey) (r : Result (ValArgs PubKey)) (w : World)
      → o.accounts_to_fund ≡ []
      → get_command_args o ≡ r
      → B.acc_address [] ≡ none
      → Never ((args_or_panic S D B r >>= init_app_for_testnet S D B) w)
  args-Never o (ok a) w e k h = init_app-Never a w (accounts_to_fund_default o a e k) h
  args-Never o (err m) w e k h = tt
  args-Never o (panic m) w e k h = tt
  args-Never o (exit n) w e k h = tt

  -- Without the flag `--accounts-to-fund` no testnet application is ever returned, where the codec
  -- takes the empty text for no address: the empty address is funded, and ends the process.
  pub new_testnet_app_without_accounts :
      (new_app : Call World (Unit {0})) (o : TestnetOptions PubKey) (w : World)
      → o.accounts_to_fund ≡ []
      → B.acc_address [] ≡ none
      → Never (new_testnet_app S D B new_app o w)
  unfolding new_testnet_app
  new_testnet_app_without_accounts new_app o w e h =
      Never-follow _ (new_app w) λ _ w1. args-Never o (get_command_args o) w1 e refl h
