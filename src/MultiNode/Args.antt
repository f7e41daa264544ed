-- ===== src/MultiNode/Args.antt =====
-- The flags of the `multi-node` command: `initArgs` and the part of `RunE` that fills it.
pub mod Laws
use aegis_mirror.Base.{ℕ, zero, suc, Option, none, some, List, [], ◌∷◌, ◌==◌, if◌then◌else◌}
use aegis_mirror.Base.Int.{ℤ, pos_part}
use aegis_mirror.Base.Text.{Text, codes, text_eq, split, itoa}
use aegis_mirror.MultiNode.Services.{rpc, port}
use aegis_mirror.Base.Effect.{Call, pure, ◌>>=◌}

-- A `map[int]V` is the list of its entries, the newest first. The keys are indices and counters, which
-- are never negative.
abbrev pub IntMap : Type 0 → Type 0
IntMap V = List (ℕ × V)

-- `v, ok := m[i]`
unfoldable pub at_key : {V : Type 0} → IntMap V → ℕ → Option V
at_key [] i = none
at_key ((k, v) ∷ m) i = if k == i then some v else at_key m i

-- `m[k] = v`
abbrev pub put : {V : Type 0} → ℕ → V → IntMap V → IntMap V
put k v m = (k, v) ∷ m

pub record InitArgs (Coin : Type 0) : Type 0 where
  pub algo : Text
  pub chain_id : Text
  pub keyring_backend : Text
  pub min_gas_prices : Text
  pub node_dir_prefix : Text
  pub num_validators : ℤ
  pub output_dir : Text
  pub starting_ip_address : Text
  pub validators_stakes_amount : IntMap Coin
  pub ports : IntMap Text

-- `sdk.DefaultBondDenom`, as chain/app/config.go sets it.
abbrev pub default_bond_denom : Text
default_bond_denom = codes "stake"

-- The values of the flags. A text flag that is not registered gives an error, which is `none`.
pub record Flags : Type 0 where
  pub output_dir : Text
  pub keyring_backend : Text
  pub chain_id : Text
  pub min_gas_prices : Text
  pub node_dir_prefix : Text
  pub starting_ip_address : Text
  pub num_validators : ℤ
  pub key_type : Text
  pub validators_stake_amount : Option Text
  pub list_ports : Option Text

-- `for i := 0; i < numValidators; i++ { ports[top] = Itoa(26657 - 3*i); top += 1 }`, for the rounds
-- left from `i` on.
unfoldable pub default_ports : ℕ → ℕ → ℕ → IntMap Text → IntMap Text
unfolding itoa port
default_ports zero i top ports = ports
default_ports (suc left) i top ports =
    default_ports left (suc i) (suc top) (put top (itoa (port rpc i)) ports)

-- `for _, port := range given { ports[top] = port; top += 1 }`
unfoldable pub put_each : {V : Type 0} → List V → ℕ → IntMap V → IntMap V
put_each [] top ports = ports
put_each (p ∷ given) top ports = put_each given (suc top) (put top p ports)

-- The ports, from the value of `top` at which the loops begin.
unfoldable pub parse_ports : ℕ → ℤ → Option Text → IntMap Text
unfolding default_ports put_each text_eq split
parse_ports top n none = []
parse_ports top n (some s) =
    if text_eq s [] then default_ports (pos_part n) 0 top [] else put_each (split b',' s) top []

-- `math.NewIntFromString` and `sdk.NewCoin`, which panics on a coin that is not valid.
module _ {World Coin : Type 0} (int_from_string : Text → Option ℤ)
    (new_coin : Text → ℤ → Call World Coin) where
  -- The loop over the amounts, with `top`. A text that is no number is skipped, and `top` stays.
  unfoldable pub parse_amounts : List Text → ℕ → IntMap Coin → Call World (IntMap Coin × ℕ)
  parse_amounts [] top stakes = pure (stakes, top)
  parse_amounts (amount ∷ rest) top stakes = elim (int_from_string amount) [
    | none ↦ parse_amounts rest top stakes
    | some a ↦
        new_coin default_bond_denom a >>= λ c. parse_amounts rest (suc top) (put top c stakes)
  ]

  unfoldable pub parse_stakes : ℕ → Option Text → Call World (IntMap Coin × ℕ)
  unfolding parse_amounts split
  parse_stakes top none = pure ([], top)
  parse_stakes top (some s) = parse_amounts (split b',' s) top []

  -- `RunE`, from the flags to the arguments of `initTestnetFiles`.
  unfoldable pub parse_flags : Flags → Call World (InitArgs Coin)
  unfolding parse_stakes parse_ports
  parse_flags f = do
    (stakes, after_stakes) ← parse_stakes 0 f.validators_stake_amount
    let top : ℕ = 0
    pure (record {
      algo = f.key_type;
      chain_id = f.chain_id;
      keyring_backend = f.keyring_backend;
      min_gas_prices = f.min_gas_prices;
      node_dir_prefix = f.node_dir_prefix;
      num_validators = f.num_validators;
      output_dir = f.output_dir;
      starting_ip_address = f.starting_ip_address;
      validators_stakes_amount = stakes;
      ports = parse_ports top f.num_validators f.list_ports;
    })
