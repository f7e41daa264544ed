-- ===== src/Accounts/GenesisAccount.antt =====
-- `GenesisAccount.Validate`
use aegis_mirror.Base.{
  ◌≡◌, ◌≢◌, ◌↔◌, Bool, false, not, ◌&&◌, Option, none, some, List, [], arith, if◌then◌else◌,
}
use aegis_mirror.Base.Int.{ℤ, leb_ℤ, ◌<ℤ◌}
use aegis_mirror.Base.Text.{Text, codes, text_eq, text_eq_iff}

-- `authtypes.ModuleAccount`, as `Validate` builds it.
pub record ModuleAccount (BaseAccount : Type 0) : Type 0 where
  pub base_account : BaseAccount
  pub name : Text
  pub permissions : List Text

-- The times are of type int64, and are only compared.
pub record GenesisAccount (BaseAccount Coins : Type 0) : Type 0 where
  pub base_account : BaseAccount
  pub original_vesting : Coins
  pub delegated_free : Coins
  pub delegated_vesting : Coins
  pub start_time : ℤ
  pub end_time : ℤ
  pub module_name : Text
  pub module_permissions : List Text

-- `sdk.Coins.IsZero` and the library's `Validate` methods; an error is its text.
module _ {BaseAccount Coins : Type 0} (is_zero : Coins → Bool)
    (validate_base : BaseAccount → Option Text)
    (validate_module : ModuleAccount BaseAccount → Option Text) where
  abbrev module_account : GenesisAccount BaseAccount Coins → ModuleAccount BaseAccount
  module_account a = record {
    base_account = a.base_account;
    name = a.module_name;
    permissions = a.module_permissions;
  }

  -- The test on the vesting times.
  abbrev vesting_error : GenesisAccount BaseAccount Coins → Option Text
  vesting_error a =
      if not (is_zero a.original_vesting) && leb_ℤ a.end_time a.start_time
      then some (codes "vesting start-time cannot be before end-time")
      else none

  abbrev module_error : GenesisAccount BaseAccount Coins → Option Text
  module_error a = if text_eq a.module_name [] then none else validate_module (module_account a)

  -- The first error that is not nil.
  abbrev first_error : Option Text → Option Text → Option Text
  first_error (some e) next = some e
  first_error none next = next

  unfoldable pub validate : GenesisAccount BaseAccount Coins → Option Text
  validate a =
      first_error (vesting_error a) (first_error (module_error a) (validate_base a.base_account))

  -- What the fields of an account have to be.
  pub record IsValid (a : GenesisAccount BaseAccount Coins) : Type 0 where
    pub vesting : is_zero a.original_vesting ≡ false → a.start_time <ℤ a.end_time
    pub module_valid : a.module_name ≢ [] → validate_module (module_account a) ≡ none
    pub base_valid : validate_base a.base_account ≡ none

  -- An account passes exactly when it starts to vest before it ends to, if it vests coins at all, its
  -- module account is valid, if it has a module's name, and its base account is valid.
  pub validate-IsValid : (a : GenesisAccount BaseAccount Coins) → (validate a ≡ none) ↔ IsValid a
  unfolding validate
  validate-IsValid a = (
    λ h. record {
      vesting = ground (arith, text_eq_iff a.module_name []);
      module_valid = ground (arith, text_eq_iff a.module_name []);
      base_valid = ground (arith, text_eq_iff a.module_name []);
    },
    λ v. ground (arith, text_eq_iff a.module_name [], v.vesting, v.module_valid, v.base_valid),
  )
