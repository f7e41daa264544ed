-- ===== src/Testnet.antt =====
-- chain/cmd/mirrorvaultd/cmd/testnet.go: the `in-place-testnet` command, which turns the state of a
-- running chain into that of a testnet with one validator.
pub mod Args
pub mod Keepers
pub mod Init
pub mod Handled
pub mod Removal
pub mod Single
pub mod Funding
