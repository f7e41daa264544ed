-- ===== src/Tests/Flags.antt =====
-- The flags, ports, peers, paths and random strings of the `multi-node` command.
use aegis_mirror.Base.{
  ℕ, ◌+◌, ◌%◌, ◌<◌, ◌≡◌, refl, true, false, Option, none, some, List, [], ◌∷◌, ◌++◌, arith, length,
  ◌==◌, if◌then◌else◌,
}
use native.Mathlib.Nat.{mod-lt}
use aegis_mirror.Base.Int.{ℤ, pos, negsuc}
use aegis_mirror.Base.Text.{Text, codes, has_prefix, split, join, itoa}
use aegis_mirror.Base.Effect.{ok, panic, Call, Returns}
use aegis_mirror.Base.Paths.{clean}
use aegis_mirror.MultiNode.Services.{prometheus, port}
use aegis_mirror.MultiNode.Services.Distinct.{itoa-port_injective}
use aegis_mirror.MultiNode.Args.{
  IntMap, at_key, Flags, parse_ports, parse_amounts, parse_stakes, parse_flags,
}
use aegis_mirror.MultiNode.Args.Laws.{
  at_key-parse_ports, at_key-parse_flags, parse_amounts_skip, numbers, parse_amounts-numbers,
}
use aegis_mirror.MultiNode.Config.{NodeConfig, peer_memo, set_node_addresses}
use aegis_mirror.MultiNode.Files.{is_inside}
use aegis_mirror.MultiNode.Files.SubDir.{dotted, is_inside-append, below_of_is_inside}
use aegis_mirror.MultiNode.Random.{
  IsAlphanumeric, generate_random_string, generate_random_string-IsAlphanumeric,
}
use aegis_mirror.MultiNode.Init.Peers.{
  memos, add_peers, split-add_peers, peer_memo-p2p_listen_address,
}

itoa-port_injective_example : (prometheus ≡ prometheus) × (◌≡◌ {A = ℕ} 1316 1316)
itoa-port_injective_example =
    itoa-port_injective prometheus prometheus 1316 1316 (omega arith) (omega arith) refl

at_key-parse_ports_example : at_key (parse_ports 0 (pos 4) (some [])) 3 ≡ some (codes "26648")
unfolding itoa port
at_key-parse_ports_example = at_key-parse_ports 4 3 (omega arith)

-- Numbers of one digit, and coins that are their amounts.
abbrev one_digit : Text → Option ℤ
one_digit [] = none
one_digit (c ∷ []) = if c == b'x' then none else some (pos c)
one_digit (c ∷ d ∷ s) = none

abbrev plain_coin : Text → ℤ → Call (Unit {0}) ℤ
plain_coin denom a w = (ok a, w)

-- An amount that is no number, and two ports.
abbrev two_ports : Flags
two_ports = record {
  output_dir = codes ".";
  keyring_backend = codes "test";
  chain_id = [];
  min_gas_prices = [];
  node_dir_prefix = codes "validator";
  starting_ip_address = codes "localhost";
  num_validators = pos 4;
  key_type = codes "eth_secp256k1";
  validators_stake_amount = some (codes "1,x");
  list_ports = some (codes "47222,50434");
}

at_key-parse_flags_example :
    Returns ⊥
      (λ args _. at_key args.ports 1 ≡ some (codes "50434"))
      (parse_flags one_digit plain_coin two_ports tt)
unfolding join split parse_stakes parse_amounts
at_key-parse_flags_example =
    at_key-parse_flags one_digit plain_coin ⊥ two_ports (codes "47222") (codes "50434" ∷ []) tt 1
      refl (λ e. cc) (omega arith) tt

parse_amounts_skip_example :
    parse_amounts one_digit plain_coin (codes "1" ∷ codes "x" ∷ codes "3" ∷ []) 0 [] tt
    ≡ parse_amounts one_digit plain_coin (codes "1" ∷ codes "3" ∷ []) 0 [] tt
parse_amounts_skip_example =
    parse_amounts_skip one_digit plain_coin (codes "1" ∷ []) (codes "3" ∷ []) (codes "x") 0 [] tt
      refl

-- A coin is refused if its amount is negative.
abbrev natural_coin : Text → ℤ → Call (Unit {0}) ℕ
natural_coin denom (pos k) w = (ok k, w)
natural_coin denom (negsuc k) w = (panic (codes "negative coin amount"), w)

parse_amounts-numbers_example :
    (stakes : IntMap ℕ) × (parse_amounts one_digit natural_coin
        (codes "1" ∷ codes "x" ∷ codes "3" ∷ [])
        0
        []
        tt
      ≡ (ok (stakes, 2), tt))
    × (at_key stakes 1 ≡ some b'3')
unfolding numbers
parse_amounts-numbers_example =
    parse_amounts-numbers one_digit natural_coin (λ k. k) (λ k w. refl)
      (codes "1" ∷ codes "x" ∷ codes "3" ∷ []) (b'1' ∷ b'3' ∷ []) tt 1 refl

abbrev blank_config : NodeConfig
blank_config = record {
  root_dir = record { rooted = true; elems = [] };
  moniker = [];
  rpc_listen_address = [];
  persistent_peers = [];
  allow_duplicate_ip = false;
  p2p_listen_address = [];
  proxy_app = [];
  prometheus_listen_addr = [];
  prometheus = false;
}

peer_list :
    join b',' (memos (codes "localhost") 0 (codes "a" ∷ codes "b" ∷ []))
    ≡ codes "a@localhost:26656,b@localhost:26653"
unfolding join peer_memo
peer_list = refl

split-add_peers_example :
    split b',' (add_peers [] (memos (codes "h") 0 (codes "a" ∷ codes "b" ∷ [])))
    ≡ memos (codes "h") 0 (codes "a" ∷ codes "b" ∷ [])
split-add_peers_example =
    split-add_peers (codes "h") (codes "a") (codes "b" ∷ []) (omega arith) (omega arith)

peer_memo-p2p_listen_address_example :
    (port_text : Text) × (peer_memo (codes "a") (codes "h") 1
      ≡ codes "a" ++ (codes "@" ++ (codes "h" ++ (codes ":" ++ port_text))))
    × ((set_node_addresses [] [] 1 blank_config).p2p_listen_address
        ≡ codes "tcp://0.0.0.0:" ++ port_text)
peer_memo-p2p_listen_address_example =
    peer_memo-p2p_listen_address (codes "a") (codes "h") [] [] 1 blank_config

is_inside-append_example :
    is_inside (codes "n" ∷ codes "gentx" ∷ []) (codes "n" ∷ codes "gentx" ∷ codes "f.json" ∷ [])
    ≡ true
unfolding has_prefix
is_inside-append_example =
    is_inside-append (codes "n" ∷ codes "gentx" ∷ []) (codes "f.json" ∷ []) ((λ e. cc), refl)

below_of_is_inside_example :
    (rest : List Text) × (codes "n" ∷ codes "f" ∷ [] ≡ codes "n" ∷ [] ++ rest)
    × (dotted rest ≡ false)
unfolding is_inside
below_of_is_inside_example = below_of_is_inside (codes "n" ∷ []) (codes "n" ∷ codes "f" ∷ []) refl

-- A file of a directory whose name begins with two dots is not found in it.
dotted_name_is_missed : is_inside (codes "n" ∷ []) (codes "n" ∷ codes "..f" ∷ []) ≡ false
unfolding is_inside
dotted_name_is_missed = refl

dot_dot_is_cleaned :
    clean (codes "./a//b/../c/.") ≡ record { rooted = false; elems = codes "a" ∷ codes "c" ∷ [] }
unfolding clean
dot_dot_is_cleaned = refl

-- A source that counts its calls.
abbrev counted : ℕ → Call ℕ ℕ
counted n w = (ok (w % n), w + 1)

counted-lt : (n w : ℕ) → 0 < n → Returns {World = ℕ} ⊥ (λ k _. k < n) (counted n w)
counted-lt n w h = mod-lt w h

generate_random_string-IsAlphanumeric_example :
    Returns ⊥ (λ s _. IsAlphanumeric s × (length s ≡ 6)) (generate_random_string counted 6 0)
generate_random_string-IsAlphanumeric_example =
    generate_random_string-IsAlphanumeric counted ⊥ counted-lt 6 0
