-- ===== src/MultiNode/Services/Distinct.antt =====
-- The ports of different services, of one node or of two, differ.
use aegis_mirror.Base.{ℕ, ◌+◌, ◌-◌, ◌*◌, ◌^◌, ◌<◌, ◌≤◌, ◌≡◌, arith}
use aegis_mirror.Base.Int.{pos, int64, int64-pos}
use aegis_mirror.Base.Text.{itoa, decimal_injective}
use aegis_mirror.MultiNode.Services.{Service, p2p, rpc, proxy, prometheus, grpc, api, below, port}

-- The port as a natural number, for a node below 1317.
abbrev number : Service → ℕ → ℕ
number p2p i = 26656 - 3 * i
number rpc i = 26657 - 3 * i
number proxy i = 26658 - 3 * i
number prometheus i = 26660 + i
number grpc i = 9090 - 2 * i
number api i = 1317 - i

below-pos : (base n : ℕ) → n ≤ base → base < 2 ^ 63 → below base n ≡ pos (base - n)
unfolding int64
below-pos base n h k = ground arith

port-number : (s : Service) (i : ℕ) → i < 1317 → port s i ≡ pos (number s i)
unfolding port
port-number p2p i h = below-pos 26656 (3 * i) (omega arith) (omega arith)
port-number rpc i h = below-pos 26657 (3 * i) (omega arith) (omega arith)
port-number proxy i h = below-pos 26658 (3 * i) (omega arith) (omega arith)
port-number prometheus i h = int64-pos (26660 + i) (omega arith)
port-number grpc i h = below-pos 9090 (2 * i) (omega arith) (omega arith)
port-number api i h = below-pos 1317 i (omega arith) (omega arith)

number_injective :
    (s t : Service) (i j : ℕ) → i < 1317 → j < 1317 → number s i ≡ number t j → (s ≡ t) × (i ≡ j)
number_injective p2p p2p i j h k e = ground arith
number_injective s t i j h k e = ground arith

-- Below 1317 nodes, two services have the same port only if they are one service of one node: the
-- services p2p, rpc, proxy, prometheus, grpc and api of all nodes get different ports.
pub port_injective :
    (s t : Service) (i j : ℕ) → i < 1317 → j < 1317 → port s i ≡ port t j → (s ≡ t) × (i ≡ j)
port_injective s t i j h k e =
    number_injective s t i j h k (ground (arith, port-number s i h, port-number t j k))

-- Below 1317 nodes, the ports of two services, as they are written into the addresses, are the same
-- text only if they are one service of one node.
pub itoa-port_injective :
    (s t : Service) (i j : ℕ)
    → i < 1317
    → j < 1317
    → itoa (port s i) ≡ itoa (port t j)
    → (s ≡ t) × (i ≡ j)
unfolding itoa
itoa-port_injective s t i j h k e =
    number_injective s t i j h k
      (decimal_injective _ _ (rw (port-number s i h, port-number t j k) at e))
