-- ===== src/Tests/Refined.antt =====
-- The loops on the staking state of the zero-height export, on a state with all its parts.
use aegis_mirror.Base.{
  ℕ, ◌≡◌, refl, Bool, true, false, ◌&&◌, Option, none, some, List, [], ◌∷◌, ◌++◌, All, arith,
  if◌then◌else◌, Bool-cases, Option-cases, inl, inr,
}
use aegis_mirror.Base.Int.{pos}
use aegis_mirror.Base.Text.{Text, codes, text_eq, text_eq_iff}
use aegis_mirror.Base.Effect.{Result, ok, err, panic, exit, Call, Returns}
use aegis_mirror.Export.Keepers.{Bytes, Validator, Entry, Unbonding, Codecs, Staking, Distribution}
use aegis_mirror.Export.ZeroHeight.{
  finish, reset_key, reset_redelegation, reset_unbonding_delegation, prepare_staking,
  prep_for_zero_height_genesis,
}
use aegis_mirror.Export.ZeroHeight.Validators.{
  StoresValidators, Stored, visited as visited_validator,
}
use aegis_mirror.Export.ZeroHeight.Unbondings.{Holds, visited}
use aegis_mirror.Export.ZeroHeight.Frames.{OfVal, LeavesStaking}
use aegis_mirror.Export.ZeroHeight.Whole.{prep_for_zero_height_genesis-IsResetAll}
use aegis_mirror.Export.ZeroHeight.Refined.{KeepsParts, IsResetAll, prepare_staking-IsResetAll}

-- The one address of the chain.
abbrev home : Bytes
home = codes "a"

-- A validator, and the entries of two owners of each kind.
record Chain : Type 0 where
  slot : Validator ℕ
  reds : Bool → Option (List (Entry ℕ))
  ubds : Bool → Option (List (Entry ℕ))

abbrev is_here : Chain → Bytes → Bool
is_here w b = text_eq b home && text_eq w.slot.operator_address home

abbrev validators : Chain → Bytes → Option (Validator ℕ)
validators w b = if is_here w b then some w.slot else none

abbrev same : Bool → Bool → Bool
same true true = true
same false false = true
same true false = false
same false true = false

abbrev put : Unbonding Bool ℕ → (Bool → Option (List (Entry ℕ))) → Bool → Option (List (Entry ℕ))
put u f o = if same o u.owner then some u.entries else f o

abbrev listed_at : Bool → Option (List (Entry ℕ)) → List (Unbonding Bool ℕ)
listed_at o none = []
listed_at o (some es) = record { owner = o; entries = es } ∷ []

abbrev all_of : (Bool → Option (List (Entry ℕ))) → List (Unbonding Bool ℕ)
all_of f = listed_at true (f true) ++ listed_at false (f false)

abbrev found : Option (Validator ℕ) → Call Chain (Validator ℕ)
found none w = (err (codes "no validator"), w)
found (some v) w = (ok v, w)

abbrev codecs : Codecs
codecs = record {
  registry_val_address = λ t. some t;
  registry_val_error = λ t. codes "invalid address";
  registry_acc_address = λ t. some t;
  registry_acc_error = λ t. codes "invalid address";
  staking_val_address = λ t. if text_eq t home then some home else none;
  staking_val_error = λ t. codes "invalid address";
  staking_val_address_text = λ a. some a;
  staking_val_text_error = λ t. codes "invalid address";
}

abbrev keeper : Staking Chain
keeper = record {
  ValidatorOthers = ℕ;
  Owner = Bool;
  EntryOthers = ℕ;
  Key = Bytes;
  iterate_validators = λ h w. (ok (if is_here w home then w.slot ∷ [] else []), w);
  get_all_delegations =
      λ h w. (ok (record { delegator_address = codes "d"; validator_address = home } ∷ []), w);
  iterate_redelegations = λ h w. (ok (all_of w.reds), w);
  set_redelegation = λ h u w. (ok tt, record w { reds = put u w.reds });
  iterate_unbonding_delegations = λ h w. (ok (all_of w.ubds), w);
  set_unbonding_delegation = λ h u w. (ok tt, record w { ubds = put u w.ubds });
  validators_keys = λ w. (ok (if is_here w home then home ∷ [] else []), w);
  address_from_validators_key = λ k. k;
  close_iterator = λ w. (ok tt, w);
  get_validator = λ h a w. found (validators w a) w;
  set_validator = λ h v w. (ok tt, record w { slot = v });
  apply_and_return_validator_set_updates = λ h w. (ok tt, w);
}

abbrev distribution : Distribution Chain
distribution = record {
  DecCoins = ℕ;
  withdraw_validator_commission = λ h a w. (ok tt, w);
  withdraw_delegation_rewards = λ h a b w. (ok tt, w);
  delete_all_validator_slash_events = λ h w. (ok tt, w);
  delete_all_validator_historical_rewards = λ h w. (ok tt, w);
  get_validator_outstanding_rewards_coins = λ h a w. (ok 0, w);
  get_fee_pool = λ h w. (ok (record { community_pool = 0 }), w);
  set_fee_pool = λ h p w. (ok tt, w);
  add_coins = λ c d. c;
  after_validator_created = λ h a w. (ok tt, w);
  before_delegation_created = λ h a b w. (ok tt, w);
  after_delegation_modified = λ h a b w. (ok tt, w);
}

abbrev log : Text → Call Chain (Unit {0})
log t w = (ok tt, w)

keeper-StoresValidators : StoresValidators codecs keeper distribution log ⊥ validators λ a. a
keeper-StoresValidators = record {
  gets = λ h a v w e. rw e (refl, λ b. refl);
  sets = λ h v a w e b.
      ground (arith, e, text_eq_iff b home, text_eq_iff b a, text_eq_iff v.operator_address home);
  operators = λ w a v e. ground (arith, e, text_eq_iff a home, text_eq_iff v.operator_address home);
  texts = λ a. refl;
}

sames_lem : (a b : Bool) → same a b ≡ true → a ≡ b
sames_lem true true e = refl
sames_lem false false e = refl
sames_lem true false e = cc
sames_lem false true e = cc

-- The lists of the iterations are the whole of their parts.
module _ (stored : Chain → Bool → Option (List (Entry ℕ)))
    (set : Unbonding Bool ℕ → Call Chain (Unit {0})) where
  holds_lem : (w : Chain) → Holds ⊥ same stored set w (all_of (stored w))
  holds_lem w = elim (Option-cases (stored w true)) [
    | inl e ↦ elim (Option-cases (stored w false)) [
      | inl f ↦ rw (e, f) tt
      | inr (es, f) ↦ rw (e, f) (f, tt)
    ]
    | inr (es, e) ↦ elim (Option-cases (stored w false)) [
      | inl f ↦ rw (e, f) (e, tt)
      | inr (fs, f) ↦ rw (e, f) (e, (f, tt))
    ]
  ]

  complete_lem :
      (w : Chain) (o : Bool)
      → visited ⊥ same stored set o (all_of (stored w)) ≡ false
      → stored w o ≡ none
  complete_lem w true h = elim (Option-cases (stored w true)) [
    | inl e ↦ e
    | inr (es, e) ↦ ground (arith, e, h)
  ]
  complete_lem w false h = elim (Option-cases (stored w false)) [
    | inl f ↦ f
    | inr (fs, f) ↦ elim (Option-cases (stored w true)) [
      | inl e ↦ ground (arith, e, f, h)
      | inr (es, e) ↦ ground (arith, e, f, h)
    ]
  ]

here_lem :
    (w : Chain) (b : Bytes)
    → visited_validator codecs keeper distribution log ⊥ validators
        (λ a. a)
        b
        (if is_here w home then home ∷ [] else [])
      ≡ false
    → validators w b ≡ none
here_lem w b h = ground (arith, h, (text_eq_iff home home).1 refl, text_eq_iff b home)

stored_lem :
    (w : Chain)
    → Stored codecs keeper distribution log ⊥ validators
        (λ a. a)
        w
        (if is_here w home then home ∷ [] else [])
stored_lem w = elim (Bool-cases (is_here w home)) [
  | inl e ↦ rw e ((w.slot, rw e refl), tt)
  | inr e ↦ rw e tt
]

keeper-KeepsParts :
    KeepsParts codecs keeper distribution log ⊥ validators
      (λ a. a)
      same
      (λ w. w.reds)
      (λ w. w.ubds)
      (pos 9)
unfolding reset_key reset_redelegation reset_unbonding_delegation
keeper-KeepsParts = record {
  val_store = keeper-StoresValidators;
  red_store = record { sames = sames_lem; puts = λ u w o. refl };
  ubd_store = record { sames = sames_lem; puts = λ u w o. refl };
  reds = λ w. (
    (refl, refl, refl),
    holds_lem (λ w. w.reds) (keeper.set_redelegation (pos 9)) w,
    complete_lem (λ w. w.reds) (keeper.set_redelegation (pos 9)) w,
  );
  ubds = λ w. (
    (refl, refl, refl),
    holds_lem (λ w. w.ubds) (keeper.set_unbonding_delegation (pos 9)) w,
    complete_lem (λ w. w.ubds) (keeper.set_unbonding_delegation (pos 9)) w,
  );
  keys = λ w. ((refl, refl, refl), stored_lem w, here_lem w);
  closes = λ w. (refl, refl, refl);
  red_frame = λ us w. (refl, refl);
  ubd_frame = λ us w. (refl, refl);
  val_frame = λ allowed k v w e. rw e (refl, refl);
}

-- The height of each part is 5 or more.
abbrev begun : Chain
begun = record {
  slot = record { operator_address = home; jailed = false; unbonding_height = pos 8; others = 1 };
  reds = λ o. if o then some (record { creation_height = pos 5; others = 1 } ∷ []) else none;
  ubds = λ o. some (record { creation_height = pos 6; others = 2 } ∷ []);
}

abbrev Done : Unit {0} → Chain → Type 0
Done u w =
    IsResetAll codecs keeper distribution log ⊥ validators (λ a. a) same (λ w. w.reds) (λ w. w.ubds)
      (pos 9) [] begun w

finish_lem :
    (closed : Result (Unit {0})) (w : Chain)
    → Done tt w
    → Returns ⊥ Done (finish codecs keeper distribution log (pos 9) closed w)
finish_lem (ok a) w h = h
finish_lem (err e) w h = h
finish_lem (panic e) w h = h
finish_lem (exit n) w h = h

prepare_staking-IsResetAll_example :
    Returns ⊥ Done (prepare_staking codecs keeper distribution log (pos 9) [] begun)
prepare_staking-IsResetAll_example =
    prepare_staking-IsResetAll codecs keeper distribution log ⊥ validators (λ a. a) same
      (λ w. w.reds) (λ w. w.ubds) (pos 9) keeper-KeepsParts [] begun Done finish_lem

of_val_lem :
    (w : Chain)
    → All
        (OfVal codecs keeper distribution log ⊥ validators
          (λ a. a)
          same
          (λ w. w.reds)
          (λ w. w.ubds)
          (pos 9))
        (if is_here w home then w.slot ∷ [] else [])
of_val_lem w = elim (Bool-cases (is_here w home)) [
  | inl e ↦ rw e ((home, ground (arith, e)), tt)
  | inr e ↦ rw e tt
]

keeper-LeavesStaking :
    LeavesStaking codecs keeper distribution log ⊥ validators
      (λ a. a)
      same
      (λ w. w.reds)
      (λ w. w.ubds)
      (pos 9)
keeper-LeavesStaking = record {
  vals = λ k w. ((refl, refl, refl), of_val_lem w);
  dels = λ k w. ((refl, refl, refl), (((home, refl), (codes "d", refl)), tt));
  commission = λ k b w. (refl, refl, refl);
  rewards = λ k a b w. (refl, refl, refl);
  slash_events = λ k w. (refl, refl, refl);
  historical = λ k w. (refl, refl, refl);
  outstanding = λ k b w. (refl, refl, refl);
  gets_pool = λ k w. (refl, refl, refl);
  sets_pool = λ k p w. (refl, refl, refl);
  validator_hook = λ k b w. (refl, refl, refl);
  before_hook = λ k a b w. (refl, refl, refl);
  after_hook = λ k a b w. (refl, refl, refl);
}

abbrev Jailed : Unit {0} → Chain → Type 0
Jailed u w =
    IsResetAll codecs keeper distribution log ⊥ validators (λ a. a) same (λ w. w.reds) (λ w. w.ubds)
      (pos 9) (codes "b" ∷ []) begun w

finish-Jailed :
    (closed : Result (Unit {0})) (w : Chain)
    → Jailed tt w
    → Returns ⊥ Jailed (finish codecs keeper distribution log (pos 9) closed w)
finish-Jailed (ok a) w h = h
finish-Jailed (err e) w h = h
finish-Jailed (panic e) w h = h
finish-Jailed (exit n) w h = h

-- Only another address than the validator's is allowed.
prep_for_zero_height_genesis-IsResetAll_example :
    Returns ⊥ Jailed
      (prep_for_zero_height_genesis codecs keeper distribution log (pos 9) (codes "b" ∷ []) begun)
prep_for_zero_height_genesis-IsResetAll_example =
    prep_for_zero_height_genesis-IsResetAll codecs keeper distribution log ⊥ validators (λ a. a)
      same (λ w. w.reds) (λ w. w.ubds) (pos 9) keeper-LeavesStaking keeper-KeepsParts
      (codes "b" ∷ []) begun Jailed ((codes "b", refl), tt) finish-Jailed
