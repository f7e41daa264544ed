-- ===== src/MultiNode/Config.antt =====
-- The configuration of a node, as far as the command sets it.
use aegis_mirror.Base.{ℕ, Bool, true, false, ◌++◌}
use aegis_mirror.Base.Int.{ℤ, pos}
use aegis_mirror.Base.Text.{Text, codes, itoa}
use aegis_mirror.Base.Paths.{FilePath}
use aegis_mirror.MultiNode.Args.{default_bond_denom}
use aegis_mirror.MultiNode.Services.{p2p, proxy, prometheus as prometheus_port, grpc, api, port}

-- `cmtconfig.Config`
pub record NodeConfig : Type 0 where
  pub root_dir : FilePath
  pub moniker : Text
  pub rpc_listen_address : Text
  pub persistent_peers : Text
  pub allow_duplicate_ip : Bool
  pub p2p_listen_address : Text
  pub proxy_app : Text
  pub prometheus_listen_addr : Text
  pub prometheus : Bool

-- `srvconfig.Config`
pub record AppConfig : Type 0 where
  pub min_gas_prices : Text
  pub api_enable : Bool
  pub api_address : Text
  pub grpc_address : Text
  pub enable_hostname_label : Bool
  pub telemetry_enabled : Bool
  pub prometheus_retention_time : ℤ

-- The head of `initTestnetFiles`: the second write to `MinGasPrices` goes to the same field, since
-- `BaseConfig` is embedded.
unfoldable pub prepare_app_config : Text → AppConfig → AppConfig
prepare_app_config min_gas_prices c =
    let c' = record c { min_gas_prices = min_gas_prices; api_enable = false } in
    record c' {
      min_gas_prices = codes "0.0001" ++ default_bond_denom;
      enable_hostname_label = false;
      telemetry_enabled = false;
      prometheus_retention_time = pos 0;
    }

-- The addresses that the `i`-th node's application serves.
unfoldable pub set_app_addresses : Text → ℕ → AppConfig → AppConfig
unfolding itoa port
set_app_addresses ip i c = record c {
  grpc_address = ip ++ (codes ":" ++ itoa (port grpc i));
  api_address = codes "tcp://localhost:" ++ itoa (port api i);
}

-- What `collectGenFiles` sets in the `i`-th node's configuration.
unfoldable pub set_node_addresses : Text → Text → ℕ → NodeConfig → NodeConfig
unfolding itoa port
set_node_addresses peers rpc_port i c = record c {
  persistent_peers = peers;
  allow_duplicate_ip = true;
  p2p_listen_address = codes "tcp://0.0.0.0:" ++ itoa (port p2p i);
  rpc_listen_address = codes "tcp://127.0.0.1:" ++ rpc_port;
  proxy_app = codes "tcp://127.0.0.1:" ++ itoa (port proxy i);
  prometheus_listen_addr = codes ":" ++ itoa (port prometheus_port i);
  prometheus = true;
}

-- The entry of the `i`-th node in the list of peers, and the memo of its transaction.
unfoldable pub peer_memo : Text → Text → ℕ → Text
unfolding itoa port
peer_memo node_id ip i = node_id ++ (codes "@" ++ (ip ++ (codes ":" ++ itoa (port p2p i))))
