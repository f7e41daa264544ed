-- ===== src/MultiNode/Genesis.antt =====
-- `initGenFiles`: the genesis state with the accounts and balances, and a file of it for each node.
pub mod Supply
use aegis_mirror.Base.{ℕ, zero, suc, Option, none, some, List, [], ◌∷◌, get_elem?, if◌then◌else◌}
use aegis_mirror.Base.Text.{Text, codes}
use aegis_mirror.Base.Effect.{Call, pure, index, or_panic, ◌>>=◌, ◌>>◌}
use aegis_mirror.Base.Paths.{FilePath}
use aegis_mirror.MultiNode.Sdk.{Balance}

-- `banktypes.GenesisState`, with the fields that the code sets. `Coins` is `sdk.Coins`.
pub record BankGenesis (Coin Coins : Type 0) : Type 0 where
  pub balances : List (Balance Coin)
  pub supply : Coins

-- What the code uses of the genesis states of the modules. `AppGenState` is the map from module names
-- to their JSON, and `AuthGenesis` is `authtypes.GenesisState`; the calls named `Must…` panic.
pub record GenesisOps (World Coin GenAccount : Type 0) : Type 1 where
  pub Coins : Type 0
  pub AppGenState : Type 0
  pub AuthGenesis : Type 0
  pub Accounts : Type 0
  pub Json : Type 0
  pub GenesisDoc : Type 0
  pub default_genesis : AppGenState
  pub auth_state : AppGenState → Call World AuthGenesis
  pub pack_accounts : List GenAccount → Call World Accounts
  pub set_accounts : Accounts → AuthGenesis → AuthGenesis
  pub put_auth_state : AuthGenesis → AppGenState → Call World AppGenState
  pub bank_state : AppGenState → Call World (BankGenesis Coin Coins)
  pub put_bank_state : BankGenesis Coin Coins → AppGenState → Call World AppGenState
  pub sanitize_genesis_balances : List (Balance Coin) → List (Balance Coin)
  pub add_coins : Coins → List Coin → Coins
  pub marshal_indent : AppGenState → Call World Json
  pub genesis_doc : Text → Json → GenesisDoc
  pub save_as : GenesisDoc → FilePath → Call World (Unit {0})

module _ {World Coin GenAccount : Type 0} (G : GenesisOps World Coin GenAccount) where
  -- `for _, bal := range balances { supply = supply.Add(bal.Coins...) }`
  unfoldable pub add_supply : G.Coins → List (Balance Coin) → G.Coins
  add_supply supply [] = supply
  add_supply supply (bal ∷ bals) = add_supply (G.add_coins supply bal.coins) bals

  unfoldable pub set_balances :
      List (Balance Coin) → BankGenesis Coin G.Coins → BankGenesis Coin G.Coins
  unfolding add_supply
  set_balances gen_balances s =
      let balances = G.sanitize_genesis_balances gen_balances in
      record s { balances = balances; supply = add_supply s.supply balances }

  -- The loop that saves the document, for the rounds left from `i` on.
  unfoldable pub save_files : ℕ → ℕ → G.GenesisDoc → List FilePath → Call World (Unit {0})
  save_files zero i gen_doc gen_files = pure tt
  save_files (suc left) i gen_doc gen_files = do
    file ← index gen_files i
    G.save_as gen_doc file
    save_files left (suc i) gen_doc gen_files

  unfoldable pub init_gen_files :
      Text → List GenAccount → List (Balance Coin) → List FilePath → ℕ → Call World (Unit {0})
  unfolding set_balances save_files
  init_gen_files chain_id gen_accounts gen_balances gen_files num_validators = do
    let app_gen_state = G.default_genesis
    auth_gen_state ← or_panic (G.auth_state app_gen_state)
    accounts ← G.pack_accounts gen_accounts
    app_gen_state' ←
        or_panic (G.put_auth_state (G.set_accounts accounts auth_gen_state) app_gen_state)
    bank_gen_state ← or_panic (G.bank_state app_gen_state')
    app_gen_state'' ←
        or_panic (G.put_bank_state (set_balances gen_balances bank_gen_state) app_gen_state')
    app_gen_state_json ← G.marshal_indent app_gen_state''
    save_files num_validators 0 (G.genesis_doc chain_id app_gen_state_json) gen_files
