-- ===== src/App/Methods.antt =====
-- The methods of `App` in chain/app/app.go that are more than a field: `GetKey` and
-- `RegisterAPIRoutes`.
use aegis_mirror.Base.{Option, none, some}
use aegis_mirror.Base.Text.{Text}
use aegis_mirror.Base.Effect.{Call, or_panic, ◌>>◌}
use aegis_mirror.Docs.{Web, register_open_api_service}
use aegis_mirror.App.Prefixes.{name}

-- What `UnsafeFindStoreKey` finds: a key of a KV store, or one of another kind.
pub data FoundKey (KvKey OtherKey : Type 0) : Type 0 where
  kv : KvKey → FoundKey KvKey OtherKey
  other : OtherKey → FoundKey KvKey OtherKey

-- `kvStoreKey, ok := key.(*storetypes.KVStoreKey); if !ok { return nil }`
abbrev pub as_kv_key : {KvKey OtherKey : Type 0} → Option (FoundKey KvKey OtherKey) → Option KvKey
as_kv_key none = none
as_kv_key (some (kv k)) = some k
as_kv_key (some (other k)) = none

module _ {KvKey OtherKey : Type 0} where
  -- `GetKey`, over the runtime's `UnsafeFindStoreKey`, which gives nil for an unknown name.
  unfoldable pub get_key : (Text → Option (FoundKey KvKey OtherKey)) → Text → Option KvKey
  get_key unsafe_find_store_key store_key = as_kv_key (unsafe_find_store_key store_key)

module _ {World Config : Type 0} (W : Web World)
    (register_runtime_routes : Config → Call World (Unit {0}))
    (register_swagger : Config → Call World (Unit {0})) where
  -- `RegisterAPIRoutes`
  unfoldable pub register_api_routes : Config → Call World (Unit {0})
  unfolding register_open_api_service
  register_api_routes api_config = do
    register_runtime_routes api_config
    or_panic (register_swagger api_config)
    register_open_api_service W name
