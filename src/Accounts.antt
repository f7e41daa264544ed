-- ===== src/Accounts.antt =====
-- chain/app/genesis_account.go, and the module accounts of chain/app/app.go and
-- chain/app/app_config.go.
pub mod GenesisAccount
pub mod ModuleAccounts
