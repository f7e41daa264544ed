-- ===== src/Testnet/Handled.antt =====
-- `handleErr`: a call that returns a value is left as it is.
use aegis_mirror.Base.Effect.{Result, ok, err, panic, exit, Returns}
use aegis_mirror.Testnet.Keepers.{StakingOps, DistributionOps, BankOps}
use aegis_mirror.Testnet.Init.{handled}

module _ {World PubKey : Type 0} (S : StakingOps World PubKey) (D : DistributionOps World)
    (B : BankOps World) (E : Type 0) where
  pub Returns-handled :
      {A : Type 0} (r : Result A × World) (Q : A → World → Type 0)
      → Returns E Q r
      → Returns E Q (handled S D B r)
  Returns-handled (ok a, w) Q h = h
  Returns-handled (err e, w) Q h = h
  Returns-handled (panic e, w) Q h = h
  Returns-handled (exit n, w) Q h = h
