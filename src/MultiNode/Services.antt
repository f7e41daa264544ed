-- ===== src/MultiNode/Services.antt =====
-- The services of a node and the port that the command computes for each. The `i` of the source is an
-- int; the results wrap around as an int does.
pub mod Distinct
use aegis_mirror.Base.{ℕ, ◌+◌, ◌*◌}
use aegis_mirror.Base.Int.{ℤ, pos, sub_ℕ, int64}

pub data Service : Type 0 where
  p2p rpc proxy prometheus grpc api : Service

-- `base - n`
abbrev pub below : ℕ → ℕ → ℤ
below base n = int64 (sub_ℕ base n)

-- The port of a service of the `i`-th node, each expression as it stands at its place in the code.
unfoldable pub port : Service → ℕ → ℤ
unfolding int64
port p2p i = below 26656 (3 * i)
port rpc i = below 26657 (3 * i)
port proxy i = below 26658 (3 * i)
port prometheus i = int64 (pos (26660 + i))
port grpc i = below 9090 (2 * i)
port api i = below 1317 i
