-- ===== src/App/Prefixes.antt =====
-- The constants of chain/app/app.go, and `init` of chain/app/config.go.
pub mod Sealed
use aegis_mirror.Base.{ℕ, ◌≡◌, refl, ◌++◌, Bool, true, false, Option, none, some, arith}
use aegis_mirror.Base.Text.{Text, codes}
use aegis_mirror.Base.Effect.{Call, ◌>>=◌, ◌>>◌, Returns, Returns-follow, Returns-mono, or_panic}
use aegis_mirror.MultiNode.Args.{default_bond_denom}

-- `Name`, `AccountAddressPrefix` and `ChainCoinType`
abbrev pub name : Text
name = codes "mirrorvault"

abbrev pub account_address_prefix : Text
account_address_prefix = codes "mirror"

abbrev pub chain_coin_type : ℕ
chain_coin_type = 60

-- The variable `sdk.DefaultBondDenom`, and the setters of the configuration that `sdk.GetConfig`
-- returns.
pub record ConfigOps (World : Type 0) : Type 0 where
  pub set_default_bond_denom : Text → Call World (Unit {0})
  pub set_coin_type : ℕ → Call World (Unit {0})
  pub set_bech32_prefix_for_account : Text → Text → Call World (Unit {0})
  pub set_bech32_prefix_for_validator : Text → Text → Call World (Unit {0})
  pub set_bech32_prefix_for_consensus_node : Text → Text → Call World (Unit {0})
  pub seal : Call World (Unit {0})

-- `init` of app.go: `clienthelpers.EnvPrefix` and `GetNodeHomeDirectory` are the library's, and
-- `DefaultNodeHome` is a variable.
module _ {World : Type 0} (set_env_prefix : Text → Call World (Unit {0}))
    (get_node_home_directory : Text → Call World Text)
    (set_default_node_home : Text → Call World (Unit {0})) where
  unfoldable pub init_node_home : Call World (Unit {0})
  init_node_home = do
    set_env_prefix name
    home ← or_panic (get_node_home_directory (codes "." ++ name))
    set_default_node_home home

module _ {World : Type 0} (C : ConfigOps World) where
  unfoldable pub init_config : Call World (Unit {0})
  init_config = do
    C.set_default_bond_denom default_bond_denom
    C.set_coin_type chain_coin_type
    C.set_bech32_prefix_for_account account_address_prefix (account_address_prefix ++ codes "pub")
    C.set_bech32_prefix_for_validator (account_address_prefix ++ codes "valoper")
        (account_address_prefix ++ codes "valoperpub")
    C.set_bech32_prefix_for_consensus_node (account_address_prefix ++ codes "valcons")
        (account_address_prefix ++ codes "valconspub")
    C.seal
