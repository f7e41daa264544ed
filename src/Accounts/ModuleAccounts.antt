-- ===== src/Accounts/ModuleAccounts.antt =====
-- `GetMaccPerms` and `BlockedAddresses`. The names of the accounts are constants of the SDK.
use aegis_mirror.Base.{
  ◌≡◌, refl, ◌∙◌, Bool, true, false, not, ◌&&◌, ◌||◌, Option, none, some, List, [], ◌∷◌, arith,
  if◌then◌else◌,
}
use aegis_mirror.Base.Text.{Text, text_eq, text_eq_iff}

-- `authmodulev1.ModuleAccountPermission`
pub record ModuleAccountPermission : Type 0 where
  pub account : Text
  pub permissions : List Text

-- The constants of the SDK.
pub record Names : Type 0 where
  pub fee_collector : Text
  pub distribution : Text
  pub mint : Text
  pub bonded_pool : Text
  pub not_bonded_pool : Text
  pub staking : Text
  pub minter : Text
  pub burner : Text

-- A Go map from texts, with one entry for each key.
abbrev pub TextMap : Type 0 → Type 0
TextMap V = List (Text × V)

unfoldable pub insert : {V : Type 0} → Text → V → TextMap V → TextMap V
insert k v [] = (k, v) ∷ []
insert k v ((j, w) ∷ m) = if text_eq k j then (k, v) ∷ m else (j, w) ∷ insert k v m

unfoldable pub lookup : {V : Type 0} → Text → TextMap V → Option V
lookup k [] = none
lookup k ((j, w) ∷ m) = if text_eq k j then some w else lookup k m

module _ (N : Names) where
  unfoldable pub module_acc_perms : List ModuleAccountPermission
  module_acc_perms =
      record { account = N.fee_collector; permissions = [] }
      ∷ record { account = N.distribution; permissions = [] }
      ∷ record { account = N.mint; permissions = N.minter ∷ [] }
      ∷ record { account = N.bonded_pool; permissions = N.burner ∷ N.staking ∷ [] }
      ∷ record { account = N.not_bonded_pool; permissions = N.burner ∷ N.staking ∷ [] }
      ∷ []

  unfoldable pub block_acc_addrs : List Text
  block_acc_addrs = N.fee_collector ∷ N.distribution ∷ N.bonded_pool ∷ N.not_bonded_pool ∷ []

-- `for _, perms := range moduleAccPerms { dup[perms.GetAccount()] = perms.GetPermissions() }`
unfoldable pub copy_perms : List ModuleAccountPermission → TextMap (List Text) → TextMap (List Text)
unfolding insert
copy_perms [] dup = dup
copy_perms (p ∷ ps) dup = copy_perms ps (insert p.account p.permissions dup)

-- `for … { result[addr] = true }`
unfoldable pub mark : List Text → TextMap Bool → TextMap Bool
unfolding insert
mark [] result = result
mark (a ∷ as_) result = mark as_ (insert a true result)

unfoldable pub keys : {V : Type 0} → TextMap V → List Text
keys [] = []
keys ((k, v) ∷ m) = k ∷ keys m

-- `GetMaccPerms` and `BlockedAddresses`, over the two variables that they read.
unfoldable pub get_macc_perms : List ModuleAccountPermission → TextMap (List Text)
unfolding copy_perms
get_macc_perms perms = copy_perms perms []

unfoldable pub blocked_addresses : List Text → List ModuleAccountPermission → TextMap Bool
unfolding mark keys get_macc_perms
blocked_addresses [] perms = mark (keys (get_macc_perms perms)) []
blocked_addresses (a ∷ addrs) perms = mark (a ∷ addrs) []

-- Is the text one of the list?
unfoldable pub listed : Text → List Text → Bool
listed a [] = false
listed a (x ∷ xs) = text_eq a x || listed a xs

lookup-insert :
    {V : Type 0} (j k : Text) (v : V) (m : TextMap V)
    → lookup j (insert k v m) ≡ (if text_eq j k then some v else lookup j m)
unfolding lookup insert
lookup-insert j k v [] = refl
lookup-insert j k v ((i, w) ∷ m) =
    ground (arith, lookup-insert j k v m, text_eq_iff j k, text_eq_iff k i, text_eq_iff j i)

lookup-mark :
    (a : Text) (addrs : List Text) (m : TextMap Bool)
    → lookup a (mark addrs m) ≡ (if listed a addrs then some true else lookup a m)
unfolding mark listed
lookup-mark a [] m = refl
lookup-mark a (x ∷ xs) m =
    rw (lookup-mark a xs (insert x true m), lookup-insert a x true m) (ground arith)

-- With an override list that is not empty, the blocked addresses are the addresses of that list and no
-- others, whatever the module accounts are.
pub lookup-blocked_addresses :
    (a x : Text) (addrs : List Text) (perms : List ModuleAccountPermission)
    → lookup a (blocked_addresses (x ∷ addrs) perms)
      ≡ (if listed a (x ∷ addrs) then some true else none)
unfolding blocked_addresses
lookup-blocked_addresses a x addrs perms = lookup-mark a (x ∷ addrs) [] ∙ (unfold lookup in refl)

listed-keys-insert :
    {V : Type 0} (a k : Text) (v : V) (m : TextMap V)
    → listed a (keys (insert k v m)) ≡ (text_eq a k || listed a (keys m))
unfolding listed keys insert
listed-keys-insert a k v [] = refl
listed-keys-insert a k v ((i, w) ∷ m) =
    ground (arith, listed-keys-insert a k v m, text_eq_iff k i, text_eq_iff a k, text_eq_iff a i)

-- Is the account one of the permissions'?
abbrev pub has_account : Text → List ModuleAccountPermission → Bool
has_account a [] = false
has_account a (p ∷ ps) = text_eq a p.account || has_account a ps

listed-copy_perms :
    (a : Text) (ps : List ModuleAccountPermission) (dup : TextMap (List Text))
    → listed a (keys (copy_perms ps dup)) ≡ (has_account a ps || listed a (keys dup))
unfolding copy_perms
listed-copy_perms a [] dup = refl
listed-copy_perms a (p ∷ ps) dup =
    rw
      (
        listed-copy_perms a ps (insert p.account p.permissions dup),
        listed-keys-insert a p.account p.permissions dup,
      )
      (ground arith)

-- With an empty override list, the blocked addresses are exactly the module accounts.
pub lookup-blocked_addresses_all :
    (a : Text) (perms : List ModuleAccountPermission)
    → lookup a (blocked_addresses [] perms) ≡ (if has_account a perms then some true else none)
unfolding blocked_addresses
lookup-blocked_addresses_all a perms =
    lookup-mark a (keys (copy_perms perms [])) []
    ∙ rw (listed-copy_perms a perms []) (unfold lookup listed keys in ground arith)

module _ (N : Names) where
  -- Of the module accounts all are blocked but that of the mint, where its name is not that of one of
  -- the others; no other account is blocked.
  pub lookup-blocked_addresses_mint :
      (a : Text)
      → listed N.mint (block_acc_addrs N) ≡ false
      → lookup a (blocked_addresses (block_acc_addrs N) (module_acc_perms N))
        ≡ (if has_account a (module_acc_perms N) && not (text_eq a N.mint) then some true else none)
  unfolding block_acc_addrs module_acc_perms
  lookup-blocked_addresses_mint a h =
      lookup-blocked_addresses a N.fee_collector
        (N.distribution ∷ N.bonded_pool ∷ N.not_bonded_pool ∷ []) (module_acc_perms N)
      ∙ (unfold listed in
          ground (
            arith,
            h,
            text_eq_iff a N.mint,
            text_eq_iff a N.fee_collector,
            text_eq_iff a N.distribution,
            text_eq_iff a N.bonded_pool,
            text_eq_iff a N.not_bonded_pool,
            text_eq_iff N.mint N.fee_collector,
            text_eq_iff N.mint N.distribution,
            text_eq_iff N.mint N.bonded_pool,
            text_eq_iff N.mint N.not_bonded_pool,
          ))
