-- ===== src/App/New/ChainId.antt =====
-- The chain id of the EVM, in `New` and in the default configuration.
use aegis_mirror.Base.{ℕ, zero, suc, ◌≡◌, ◌≢◌, ◌⊎◌, inl, inr, refl, arith}
use aegis_mirror.Command.Configs.{Defaults, init_app_config}
use aegis_mirror.App.New.{evm_chain_id}

by_zero : (given : ℕ) → (evm_chain_id given ≡ given) ⊎ ((given ≡ 0) × (evm_chain_id given ≡ 7777))
unfolding evm_chain_id
by_zero zero = inr (refl, refl)
by_zero (suc n) = inl (ground arith)

-- The EVM never gets the chain id zero; a chain id that is given is kept, or is zero and becomes 7777; and an
-- application with the configuration of `initAppConfig` has the same one as an application without.
pub evm_chain_id-init_app_config :
    (D : Defaults) (given : ℕ)
    → (evm_chain_id given ≢ 0)
      × ((evm_chain_id given ≡ given) ⊎ ((given ≡ 0) × (evm_chain_id given ≡ 7777)))
      × (evm_chain_id (init_app_config D).1.evm.evm_chain_id ≡ evm_chain_id 0)
unfolding evm_chain_id init_app_config
evm_chain_id-init_app_config D given = (ground arith, by_zero given, refl)
