-- ===== src/Testnet/Args.antt =====
-- `valArgs` and `getCommandArgs`
use aegis_mirror.Base.{
  ◌≡◌, ◌≢◌, ◌↔◌, Option, none, some, List, [], ◌∷◌, arith, value_of, if◌then◌else◌,
}
use aegis_mirror.Base.Text.{Text, codes, text_eq, text_eq_iff, split, split_single}
use aegis_mirror.Base.Effect.{Result, ok, err}

-- The values of the options. One with a type assertion is `none` if its value has another type; one
-- that `cast.ToString` reads is a text.
pub record TestnetOptions (PubKey : Type 0) : Type 0 where
  pub new_val_addr : Option Text
  pub user_pub_key : Option PubKey
  pub new_op_addr : Option Text
  pub trigger_testnet_upgrade : Option Text
  pub accounts_to_fund : Text
  pub home : Text

pub record ValArgs (PubKey : Type 0) : Type 0 where
  pub new_val_addr : Text
  pub new_operator_address : Text
  pub new_val_pub_key : PubKey
  pub accounts_to_fund : List Text
  pub upgrade_to_trigger : Text
  pub home_dir : Text

-- `v, ok := …; if !ok { return args, errors.New(message) }`. The arguments that come back beside an
-- error are not read.
abbrev pub need : {A B : Type 0} → Option A → Text → (A → Result B) → Result B
need none message next = err message
need (some a) message next = next a

module _ {PubKey : Type 0} where
  -- The end of the function, with the four values that were asserted.
  unfoldable pub finish_args :
      Text → PubKey → Text → Text → TestnetOptions PubKey → Result (ValArgs PubKey)
  finish_args addr key operator upgrade o =
      if text_eq o.home []
      then err (codes "invalid home dir")
      else ok (record {
        new_val_addr = addr;
        new_operator_address = operator;
        new_val_pub_key = key;
        accounts_to_fund = split b',' o.accounts_to_fund;
        upgrade_to_trigger = upgrade;
        home_dir = o.home;
      })

  unfoldable pub get_command_args : TestnetOptions PubKey → Result (ValArgs PubKey)
  unfolding finish_args
  get_command_args o =
      need o.new_val_addr (codes "newValAddr is not of type bytes.HexBytes") λ addr.
        need o.user_pub_key (codes "newValPubKey is not of type crypto.PubKey") λ key.
          need o.new_op_addr (codes "newOperatorAddress is not of type string") λ operator.
            need o.trigger_testnet_upgrade (codes "upgradeToTrigger is not of type string")
              λ upgrade. finish_args addr key operator upgrade o

  abbrev AllGiven : TestnetOptions PubKey → Type 0
  AllGiven o =
      (o.new_val_addr ≢ none)
      × (o.user_pub_key ≢ none)
      × (o.new_op_addr ≢ none)
      × (o.trigger_testnet_upgrade ≢ none)
      × (o.home ≢ [])

  args_given :
      (o : TestnetOptions PubKey) (a : ValArgs PubKey) → get_command_args o ≡ ok a → AllGiven o
  unfolding get_command_args
  args_given o a h = ground (arith, text_eq_iff o.home [])

  args_returned :
      (o : TestnetOptions PubKey) → AllGiven o → (a : ValArgs PubKey) × (get_command_args o ≡ ok a)
  unfolding get_command_args
  args_returned o (addr, key, operator, upgrade, home) =
      let (a, ea) = value_of o.new_val_addr addr in
      let (k, ek) = value_of o.user_pub_key key in
      let (p, ep) = value_of o.new_op_addr operator in
      let (u, eu) = value_of o.trigger_testnet_upgrade upgrade in
      (
        record {
          new_val_addr = a;
          new_operator_address = p;
          new_val_pub_key = k;
          accounts_to_fund = split b',' o.accounts_to_fund;
          upgrade_to_trigger = u;
          home_dir = o.home;
        },
        ground (arith, text_eq_iff o.home []),
      )

  -- The arguments are read exactly when the four options have their types and the home directory is
  -- not empty.
  pub get_command_args-ok :
      (o : TestnetOptions PubKey)
      → ((a : ValArgs PubKey) × (get_command_args o ≡ ok a)) ↔ (
          (o.new_val_addr ≢ none)
          × (o.user_pub_key ≢ none)
          × (o.new_op_addr ≢ none)
          × (o.trigger_testnet_upgrade ≢ none)
          × (o.home ≢ []))
  unfolding get_command_args
  get_command_args-ok o = (λ (a, h). args_given o a h, λ given. args_returned o given)

  -- Without the flag `--accounts-to-fund`, whose default is the empty text, the list of accounts is
  -- not empty: it holds the empty address.
  pub accounts_to_fund_default :
      (o : TestnetOptions PubKey) (a : ValArgs PubKey)
      → o.accounts_to_fund ≡ []
      → get_command_args o ≡ ok a
      → a.accounts_to_fund ≡ [] ∷ []
  unfolding get_command_args
  accounts_to_fund_default o a e h = ground (arith, split_single b',' [] tt)
