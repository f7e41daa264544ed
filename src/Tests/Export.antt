-- ===== src/Tests/Export.antt =====
-- The loops of the zero-height export.
use mathlib.Core.Option.{some-injective}
use aegis_mirror.Base.{
  ℕ, ◌+◌, ◌≡◌, refl, sym, ap, Bool, true, false, Option, none, some, List, [], ◌∷◌, arith,
  if◌then◌else◌,
}
use mathlib.Core.Option
use aegis_mirror.Base.Int.{ℤ, pos}
use aegis_mirror.Base.Text.{Text, codes, text_eq, text_eq_iff}
use aegis_mirror.Base.Effect.{ok, err, panic, Call, for_each, Returns}
use aegis_mirror.Export.Keepers.{Bytes, Validator, Codecs, Staking, Distribution}
use aegis_mirror.Export.ZeroHeight.{reset_key, reinitialize_validator}
use aegis_mirror.Export.State.{
  AppOps, export_app_state_and_validators, export_app_state_and_validators_bad,
}
use aegis_mirror.Export.ZeroHeight.CommunityPool.{
  KeepsRewards, holds, for_each-reinitialize_validator,
}
use aegis_mirror.Export.ZeroHeight.Validators.{After, StoresValidators, visited, for_each-reset_key}

-- For each address the fields of its validator, whose operator's text is the address.
abbrev Registry : Type 0
Registry = Bytes → Bool × ℤ × ℕ

abbrev validator_at : Registry → Bytes → Validator ℕ
validator_at w a = record {
  operator_address = a;
  jailed = (w a).0;
  unbonding_height = (w a).1;
  others = (w a).2;
}

abbrev plain_codecs : Codecs
plain_codecs = record {
  registry_val_address = λ t. some t;
  registry_val_error = λ t. codes "invalid address";
  registry_acc_address = λ t. some t;
  registry_acc_error = λ t. codes "invalid address";
  staking_val_address = λ t. some t;
  staking_val_error = λ t. codes "invalid address";
  staking_val_address_text = λ a. some a;
  staking_val_text_error = λ t. codes "invalid address";
}

abbrev registry : Staking Registry
registry = record {
  ValidatorOthers = ℕ;
  Owner = Unit {0};
  EntryOthers = Unit {0};
  Key = Bytes;
  iterate_validators = λ h w. (ok [], w);
  get_all_delegations = λ h w. (ok [], w);
  iterate_redelegations = λ h w. (ok [], w);
  set_redelegation = λ h r w. (ok tt, w);
  iterate_unbonding_delegations = λ h w. (ok [], w);
  set_unbonding_delegation = λ h u w. (ok tt, w);
  validators_keys = λ w. (ok (codes "a" ∷ codes "b" ∷ []), w);
  address_from_validators_key = λ k. k;
  close_iterator = λ w. (ok tt, w);
  get_validator = λ h a w. (ok (validator_at w a), w);
  set_validator = λ h v w. (
    ok tt,
    λ b. if text_eq b v.operator_address then (v.jailed, v.unbonding_height, v.others) else w b,
  );
  apply_and_return_validator_set_updates = λ h w. (ok tt, w);
}

abbrev no_distribution : Distribution Registry
no_distribution = record {
  DecCoins = ℕ;
  withdraw_validator_commission = λ h a w. (ok tt, w);
  withdraw_delegation_rewards = λ h a b w. (ok tt, w);
  delete_all_validator_slash_events = λ h w. (ok tt, w);
  delete_all_validator_historical_rewards = λ h w. (ok tt, w);
  get_validator_outstanding_rewards_coins = λ h a w. (ok 0, w);
  get_fee_pool = λ h w. (ok (record { community_pool = 0 }), w);
  set_fee_pool = λ h p w. (ok tt, w);
  add_coins = λ c d. c + d;
  after_validator_created = λ h a w. (ok tt, w);
  before_delegation_created = λ h a b w. (ok tt, w);
  after_delegation_modified = λ h a b w. (ok tt, w);
}

stored_at :
    (v : Validator ℕ) (a b : Bytes) (w : Registry)
    → some v.operator_address ≡ some a
    → let w' : Registry = λ b.
      if text_eq b v.operator_address then (v.jailed, v.unbonding_height, v.others) else w b in
      some (validator_at w' b) ≡ (if text_eq b a then some v else some (validator_at w b))
stored_at v a b w e = ground (arith, text_eq_iff b a, text_eq_iff b v.operator_address)

abbrev silent : Text → Call Registry (Unit {0})
silent t w = (ok tt, w)

registry-StoresValidators :
    StoresValidators plain_codecs registry no_distribution silent ⊥
      (λ w a. some (validator_at w a))
      (λ a. a)
registry-StoresValidators = record {
  gets = λ h a v w e. (some-injective _ _ e, λ b. refl);
  sets = λ h v a w e b. stored_at v a b w e;
  operators =
      λ w a v e. sym (ap (λ (o : Option (Validator ℕ)). Option.map (λ v. v.operator_address) o) e);
  texts = λ a. refl;
}

abbrev unjailed : Registry
unjailed a = (false, pos 8, 1)

for_each-reset_key_example :
    Returns ⊥
      (λ _ w'.
        (b : Bytes)
        → After
            (codes "b" ∷ [])
            b
            (visited plain_codecs registry no_distribution silent ⊥
              (λ w a. some (validator_at w a))
              (λ a. a)
              b
              (codes "a" ∷ codes "b" ∷ []))
            (some (validator_at unjailed b))
            (some (validator_at w' b)))
      (for_each
        (reset_key plain_codecs registry no_distribution silent (pos 3) (codes "b" ∷ []))
        (codes "a" ∷ codes "b" ∷ [])
        unjailed)
for_each-reset_key_example =
    for_each-reset_key plain_codecs registry no_distribution silent ⊥
      (λ w a. some (validator_at w a)) (λ a. a) registry-StoresValidators (pos 3) (codes "b" ∷ [])
      (codes "a" ∷ codes "b" ∷ []) unjailed
      ((validator_at unjailed (codes "a"), refl), ((validator_at unjailed (codes "b"), refl), tt))

-- The community pool, and the outstanding rewards of each address.
abbrev Rewards : Type 0
Rewards = ℕ × (Bytes → ℕ)

abbrev rewards : Distribution Rewards
rewards = record {
  DecCoins = ℕ;
  withdraw_validator_commission = λ h a w. (ok tt, w);
  withdraw_delegation_rewards = λ h a b w. (ok tt, w);
  delete_all_validator_slash_events = λ h w. (ok tt, w);
  delete_all_validator_historical_rewards = λ h w. (ok tt, w);
  get_validator_outstanding_rewards_coins = λ h a w. (ok (w.1 a), w);
  get_fee_pool = λ h w. (ok (record { community_pool = w.0 }), w);
  set_fee_pool = λ h p w. (ok tt, (p.community_pool, w.1));
  add_coins = λ c d. c + d;
  after_validator_created = λ h a w. (ok tt, (w.0, λ b. if text_eq b a then 0 else w.1 b));
  before_delegation_created = λ h a b w. (ok tt, w);
  after_delegation_modified = λ h a b w. (ok tt, w);
}

abbrev no_staking : Staking Rewards
no_staking = record {
  ValidatorOthers = ℕ;
  Owner = Unit {0};
  EntryOthers = Unit {0};
  Key = Bytes;
  iterate_validators = λ h w. (ok [], w);
  get_all_delegations = λ h w. (ok [], w);
  iterate_redelegations = λ h w. (ok [], w);
  set_redelegation = λ h r w. (ok tt, w);
  iterate_unbonding_delegations = λ h w. (ok [], w);
  set_unbonding_delegation = λ h u w. (ok tt, w);
  validators_keys = λ w. (ok [], w);
  address_from_validators_key = λ k. k;
  close_iterator = λ w. (ok tt, w);
  get_validator = λ h a w. (err (codes "no validator"), w);
  set_validator = λ h v w. (ok tt, w);
  apply_and_return_validator_set_updates = λ h w. (ok tt, w);
}

abbrev quiet : Text → Call Rewards (Unit {0})
quiet t w = (ok tt, w)

rewards-KeepsRewards :
    KeepsRewards plain_codecs no_staking rewards quiet ⊥ (λ w. w.0) (λ w. w.1) (λ c. c)
rewards-KeepsRewards = record {
  rewards = λ h a w. (refl, (refl, λ b. refl));
  gets = λ h w. (refl, (refl, λ b. refl));
  sets = λ h p w. (refl, λ b. refl);
  creates = λ h a w. (refl, λ b. refl);
  adds = λ c d. refl;
}

abbrev operated_by : Text → Validator ℕ
operated_by a = record {
  operator_address = a;
  jailed = false;
  unbonding_height = pos 8;
  others = 1;
}

for_each-reinitialize_validator_example :
    Returns ⊥
      (λ _ w'.
        (w'.0 ≡ 100 + 14)
        × ((b : Bytes) → w'.1 b ≡ (if holds b (codes "a" ∷ codes "b" ∷ []) then 0 else 7)))
      (for_each
        (reinitialize_validator plain_codecs no_staking rewards quiet (pos 0))
        (operated_by (codes "a") ∷ operated_by (codes "b") ∷ [])
        (100, λ b. 7))
unfolding text_eq
for_each-reinitialize_validator_example =
    for_each-reinitialize_validator plain_codecs no_staking rewards quiet ⊥ (λ w. w.0) (λ w. w.1)
      (λ c. c) rewards-KeepsRewards (pos 0) (operated_by (codes "a") ∷ operated_by (codes "b") ∷ [])
      (codes "a" ∷ codes "b" ∷ []) (100, λ b. 7) (refl, (refl, tt)) ((refl, tt), (tt, tt))

-- A codec that knows one address only.
abbrev one_address : Codecs
one_address = record {
  registry_val_address = λ t. if text_eq t (codes "a") then some t else none;
  registry_val_error = λ t. codes "invalid address";
  registry_acc_address = λ t. none;
  registry_acc_error = λ t. codes "invalid address";
  staking_val_address = λ t. none;
  staking_val_error = λ t. codes "invalid address";
  staking_val_address_text = λ a. none;
  staking_val_text_error = λ t. codes "invalid address";
}

abbrev exporter : AppOps Rewards
exporter = record {
  GenState = ℕ;
  Json = ℕ;
  GenesisValidators = List Text;
  ConsensusParams = ℕ;
  last_block_height = λ w. pos 3;
  export_genesis_for_modules = λ h m w. (ok 1, w);
  marshal_indent = λ s w. (ok s, w);
  write_validators = λ h w. (ok ([], none), w);
  get_consensus_params = λ h w. (ok 2, w);
  log_error = quiet;
}

export_app_state_and_validators_bad_example :
    (a : Text) × ((if text_eq a (codes "a") then some a else none) ≡ none)
    × (export_app_state_and_validators one_address no_staking rewards exporter true
          (codes "a" ∷ codes "x" ∷ codes "a" ∷ [])
          []
          (100, λ b. 7)
        ≡ (panic (codes "invalid address"), (100, λ b. 7)))
unfolding text_eq
export_app_state_and_validators_bad_example =
    export_app_state_and_validators_bad one_address no_staking rewards exporter (codes "a" ∷ [])
      (codes "a" ∷ []) [] (codes "x") (100, λ b. 7) refl

-- Without the preparation the height is the next one.
exports_next_height :
    export_app_state_and_validators one_address no_staking rewards exporter false [] []
      (100, λ b. 7)
    ≡ (
      ok (record { app_state = 1; validators = []; height = pos 4; consensus_params = 2 }, none),
      (100, λ b. 7),
    )
unfolding export_app_state_and_validators
exports_next_height = refl
