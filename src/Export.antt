-- ===== src/Export.antt =====
-- chain/app/export.go and `appExport` of chain/cmd/mirrorvaultd/cmd/commands.go: the export of the
-- application's state for a genesis file.
pub mod Keepers
pub mod ZeroHeight
pub mod State
pub mod Command
