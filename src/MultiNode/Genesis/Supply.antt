-- ===== src/MultiNode/Genesis/Supply.antt =====
-- The supply in the genesis state is the sum of the balances.
use aegis_mirror.Base.{ℕ, ◌+◌, ◌≡◌, List, [], ◌∷◌, arith}
use aegis_mirror.Base.Text.{Text}
use aegis_mirror.MultiNode.Sdk.{Balance}
use aegis_mirror.MultiNode.Genesis.{BankGenesis, GenesisOps, add_supply, set_balances}

module _ {World Coin GenAccount : Type 0} (G : GenesisOps World Coin GenAccount)
    (amount_of : G.Coins → Text → ℕ) (coins_amount : List Coin → Text → ℕ) where
  -- All that the balances hold of a denomination.
  abbrev pub balances_amount : List (Balance Coin) → Text → ℕ
  balances_amount [] denom = 0
  balances_amount (bal ∷ bals) denom = coins_amount bal.coins denom + balances_amount bals denom

  -- `Coins.Add` adds up the amounts of each denomination.
  abbrev pub AddsAmounts : Type 0
  AddsAmounts =
      (supply : G.Coins) (coins : List Coin) (denom : Text)
      → amount_of (G.add_coins supply coins) denom
        ≡ amount_of supply denom + coins_amount coins denom

  add_supply-amount :
      AddsAmounts
      → (supply : G.Coins) (bals : List (Balance Coin)) (denom : Text)
      → amount_of (add_supply G supply bals) denom
        ≡ amount_of supply denom + balances_amount bals denom
  unfolding add_supply
  add_supply-amount h supply [] denom = omega arith
  add_supply-amount h supply (bal ∷ bals) denom = omega (
    arith,
    add_supply-amount h (G.add_coins supply bal.coins) bals denom,
    h supply bal.coins denom,
  )

  -- After the balances are set, the supply of every denomination is what it was before plus the sum
  -- of the balances, where sanitizing the balances keeps that sum.
  pub set_balances-supply :
      AddsAmounts
      → ((bals : List (Balance Coin)) (denom : Text)
          → balances_amount (G.sanitize_genesis_balances bals) denom ≡ balances_amount bals denom)
      → (bals : List (Balance Coin)) (s : BankGenesis Coin G.Coins) (denom : Text)
      → let s' = set_balances G bals s in
        (amount_of s'.supply denom ≡ amount_of s.supply denom + balances_amount bals denom)
        × (amount_of s'.supply denom ≡ amount_of s.supply denom + balances_amount s'.balances denom)
  unfolding set_balances
  set_balances-supply h k bals s denom =
      let e = add_supply-amount h s.supply (G.sanitize_genesis_balances bals) denom in
      (omega (arith, e, k bals denom), e)
