-- ===== src/Export/ZeroHeight.antt =====
-- `prepForZeroHeightGenesis`, one definition for each of its loops.
pub mod Validators
pub mod CommunityPool
pub mod Unbondings
pub mod Refused
pub mod Refined
pub mod Frames
pub mod Whole
use mathlib.Core.List.{map}
use aegis_mirror.Base.{
  Bool, true, false, not, ◌&&◌, ◌||◌, Option, none, some, List, [], ◌∷◌, ◌++◌, if◌then◌else◌,
}
use aegis_mirror.Base.Int.{ℤ, pos}
use aegis_mirror.Base.Text.{Text, codes, text_eq}
use aegis_mirror.Base.Effect.{
  Result, ok, err, panic, exit, Call, pure, or_panic, or_panic_as, or_raise, ignore, panic_with,
  tried, for_each, ◌>>=◌, ◌>>◌,
}
use aegis_mirror.Export.Keepers.{
  Height, Bytes, Validator, Delegation, Entry, Unbonding, FeePool, Codecs, Staking, Distribution,
}

-- `allowedAddrsMap[addr]`: the keys of the map are the addresses of the list.
unfoldable pub contains : List Text → Text → Bool
unfolding text_eq
contains [] a = false
contains (x ∷ xs) a = text_eq x a || contains xs a

-- `len(jailAllowedAddrs) > 0`
unfoldable pub is_given : List Text → Bool
is_given [] = false
is_given (x ∷ xs) = true

abbrev pub zero_entry : {Others : Type 0} → Entry Others → Entry Others
zero_entry e = record e { creation_height = pos 0 }

-- `for i := range red.Entries { red.Entries[i].CreationHeight = 0 }`
unfoldable pub zero_entries :
    {Owner Others : Type 0} → Unbonding Owner Others → Unbonding Owner Others
zero_entries u = record u { entries = map zero_entry u.entries }

-- What the loop over the validators makes of one whose address has the text `addr`.
unfoldable pub reset_validator :
    {Others : Type 0} → List Text → Text → Validator Others → Validator Others
unfolding contains is_given
reset_validator allowed addr v =
    let v' = record v { unbonding_height = pos 0 } in
    if is_given allowed && not (contains allowed addr) then record v' { jailed = true } else v'

module _ {World : Type 0} (A : Codecs) (S : Staking World) (D : Distribution World)
    (log_error : Text → Call World (Unit {0})) where
  -- `addr, err := codec.StringToBytes(text); if err != nil { panic(err) }`
  abbrev pub decode : Option Bytes → Text → Call World Bytes
  decode o e = or_panic (or_raise o e)

  unfoldable pub check_allowed : List Text → Call World (Unit {0})
  unfolding for_each
  check_allowed =
      for_each (λ addr. decode (A.registry_val_address addr) (A.registry_val_error addr) >> pure tt)

  unfoldable pub withdraw_commission : Height → Validator S.ValidatorOthers → Call World (Unit {0})
  withdraw_commission h val = do
    val_bz ←
        decode (A.staking_val_address val.operator_address)
          (A.staking_val_error val.operator_address)
    ignore (D.withdraw_validator_commission h val_bz)

  unfoldable pub withdraw_rewards : Height → Delegation → Call World (Unit {0})
  withdraw_rewards h delegation = do
    val_addr ←
        decode (A.registry_val_address delegation.validator_address)
          (A.registry_val_error delegation.validator_address)
    del_addr ←
        decode (A.registry_acc_address delegation.delegator_address)
          (A.registry_acc_error delegation.delegator_address)
    ignore (D.withdraw_delegation_rewards h del_addr val_addr)

  -- Rewards that were not withdrawn go to the community pool.
  unfoldable pub reinitialize_validator :
      Height → Validator S.ValidatorOthers → Call World (Unit {0})
  reinitialize_validator h val = do
    val_bz ←
        decode (A.staking_val_address val.operator_address)
          (A.staking_val_error val.operator_address)
    rewards ← or_panic (D.get_validator_outstanding_rewards_coins h val_bz)
    fee_pool ← or_panic (D.get_fee_pool h)
    or_panic (
        D.set_fee_pool h
          (record fee_pool { community_pool = D.add_coins fee_pool.community_pool rewards }))
    or_panic (D.after_validator_created h val_bz)

  unfoldable pub reinitialize_delegation : Height → Delegation → Call World (Unit {0})
  reinitialize_delegation h del = do
    val_addr ←
        decode (A.registry_val_address del.validator_address)
          (A.registry_val_error del.validator_address)
    del_addr ←
        decode (A.registry_acc_address del.delegator_address)
          (A.registry_acc_error del.delegator_address)
    or_panic_as (λ e. codes "error while incrementing period: " ++ e)
        (D.before_delegation_created h del_addr val_addr)
    or_panic_as (λ e. codes "error while creating a new delegation period record: " ++ e)
        (D.after_delegation_modified h del_addr val_addr)

  unfoldable pub reset_redelegation :
      Height → Unbonding S.Owner S.EntryOthers → Call World (Unit {0})
  unfolding zero_entries
  reset_redelegation h red = or_panic (S.set_redelegation h (zero_entries red))

  unfoldable pub reset_unbonding_delegation :
      Height → Unbonding S.Owner S.EntryOthers → Call World (Unit {0})
  unfolding zero_entries
  reset_unbonding_delegation h ubd = or_panic (S.set_unbonding_delegation h (zero_entries ubd))

  -- One step of the iterator over the validators.
  unfoldable pub reset_key : Height → List Text → S.Key → Call World (Unit {0})
  unfolding reset_validator
  reset_key h allowed key = do
    let addr = S.address_from_validators_key key
    validator ← or_panic_as (λ _. codes "expected validator, not found") (S.get_validator h addr)
    val_addr ← decode (A.staking_val_address_text addr) (A.staking_val_text_error addr)
    or_panic (S.set_validator h (reset_validator allowed val_addr validator))

  -- The part on the distribution state, up to the return of the context's height.
  unfoldable pub prepare_distribution : Height → Call World (Unit {0})
  unfolding for_each withdraw_commission withdraw_rewards reinitialize_validator
      reinitialize_delegation
  prepare_distribution height = do
    vals ← or_panic (S.iterate_validators height)
    for_each (withdraw_commission height) vals
    dels ← or_panic (S.get_all_delegations height)
    for_each (withdraw_rewards height) dels
    D.delete_all_validator_slash_events height
    D.delete_all_validator_historical_rewards height
    vals' ← or_panic (S.iterate_validators (pos 0))
    for_each (reinitialize_validator (pos 0)) vals'
    for_each (reinitialize_delegation (pos 0)) dels

  -- The end of the function: an error of `Close` is logged and the function returns.
  abbrev pub finish : Height → Result (Unit {0}) → Call World (Unit {0})
  finish height (ok _) = or_panic (S.apply_and_return_validator_set_updates height)
  finish height _ =
      log_error (codes "error while closing the key-value store reverse prefix iterator: ")

  -- The part on the staking state.
  unfoldable pub prepare_staking : Height → List Text → Call World (Unit {0})
  unfolding for_each reset_redelegation reset_unbonding_delegation reset_key
  prepare_staking height allowed = do
    reds ← or_panic (S.iterate_redelegations height)
    for_each (reset_redelegation height) reds
    ubds ← or_panic (S.iterate_unbonding_delegations height)
    for_each (reset_unbonding_delegation height) ubds
    keys ← S.validators_keys
    for_each (reset_key height allowed) keys
    closed ← λ w. tried (S.close_iterator w)
    finish height closed

  unfoldable pub prep_for_zero_height_genesis : Height → List Text → Call World (Unit {0})
  unfolding check_allowed prepare_distribution prepare_staking
  prep_for_zero_height_genesis height allowed = do
    check_allowed allowed
    prepare_distribution height
    prepare_staking height allowed
