-- ===== src/App.antt =====
-- chain/app: the constants of the chain, the configuration of the modules, and the construction of
-- the application.
pub mod Prefixes
pub mod Modules
pub mod Wiring
pub mod New
pub mod Methods
