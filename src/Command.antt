-- ===== src/Command.antt =====
-- chain/cmd/mirrorvaultd: the program's commands and their configuration.
pub mod Configs
pub mod Cobra
pub mod Children
pub mod Testnets
pub mod Root
pub mod Main
pub mod NewApp
