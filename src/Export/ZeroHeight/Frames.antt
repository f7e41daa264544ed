-- ===== src/Export/ZeroHeight/Frames.antt =====
-- The part of `prepForZeroHeightGenesis` on the distribution state leaves the staking state.
use aegis_mirror.Base.{◌≡◌, refl, ◌∙◌, Bool, Option, some, List, [], ◌∷◌, ◌++◌, All}
use aegis_mirror.Base.Int.{pos}
use aegis_mirror.Base.Text.{Text, codes}
use aegis_mirror.Base.Effect.{
  Result, Call, follow, or_panic, or_panic_as, forgotten, for_each, Returns, Returns-follow,
  Returns-mono, Returns-panicked, Returns-panicked_as, ◌>>=◌, ◌>>◌,
}
use aegis_mirror.Export.Keepers.{
  Height, Bytes, Validator, Delegation, Entry, FeePool, Codecs, Staking, Distribution,
}
use aegis_mirror.Export.ZeroHeight.{
  withdraw_commission, withdraw_rewards, reinitialize_validator, reinitialize_delegation,
  prepare_distribution,
}
use aegis_mirror.Export.ZeroHeight.Refined.{Same}

-- The text of an address decodes.
abbrev pub Decodes : Option Bytes → Type 0
Decodes o = (b : Bytes) × (o ≡ some b)

module _ {World : Type 0} (A : Codecs) (S : Staking World) (D : Distribution World)
    (log_error : Text → Call World (Unit {0})) (E : Type 0)
    (validators : World → Bytes → Option (Validator S.ValidatorOthers)) (text_of : Bytes → Text)
    (same : S.Owner → S.Owner → Bool)
    (redelegations unbondings : World → S.Owner → Option (List (Entry S.EntryOthers)))
    (h : Height) where
  -- The addresses of a validator or a delegation decode.
  abbrev pub OfVal : Validator S.ValidatorOthers → Type 0
  OfVal v = Decodes (A.staking_val_address v.operator_address)

  abbrev pub OfDel : Delegation → Type 0
  OfDel d =
      Decodes (A.registry_val_address d.validator_address)
      × Decodes (A.registry_acc_address d.delegator_address)

  -- The call leaves the three parts of the staking state.
  abbrev pub Leaves : {X : Type 0} → Call World X → Type 0
  Leaves c =
      (w : World)
      → Returns E
          (λ _ w'. Same A S D log_error E validators text_of same redelegations unbondings h w w')
          (c w)

  -- What the calls on the distribution state do, at every height: they leave the staking state, and
  -- the addresses of the validators and the delegations decode.
  pub record LeavesStaking : Type 0 where
    pub vals :
        (k : Height) (w : World)
        → Returns E
            (λ vs w'.
              Same A S D log_error E validators text_of same redelegations unbondings h w w'
              × All OfVal vs)
            (S.iterate_validators k w)
    pub dels :
        (k : Height) (w : World)
        → Returns E
            (λ ds w'.
              Same A S D log_error E validators text_of same redelegations unbondings h w w'
              × All OfDel ds)
            (S.get_all_delegations k w)
    pub commission :
        (k : Height) (b : Bytes) → Leaves (λ w. forgotten (D.withdraw_validator_commission k b w))
    pub rewards :
        (k : Height) (a b : Bytes) → Leaves (λ w. forgotten (D.withdraw_delegation_rewards k a b w))
    pub slash_events : (k : Height) → Leaves (D.delete_all_validator_slash_events k)
    pub historical : (k : Height) → Leaves (D.delete_all_validator_historical_rewards k)
    pub outstanding :
        (k : Height) (b : Bytes) → Leaves (D.get_validator_outstanding_rewards_coins k b)
    pub gets_pool : (k : Height) → Leaves (D.get_fee_pool k)
    pub sets_pool : (k : Height) (p : FeePool D.DecCoins) → Leaves (D.set_fee_pool k p)
    pub validator_hook : (k : Height) (b : Bytes) → Leaves (D.after_validator_created k b)
    pub before_hook : (k : Height) (a b : Bytes) → Leaves (D.before_delegation_created k a b)
    pub after_hook : (k : Height) (a b : Bytes) → Leaves (D.after_delegation_modified k a b)

  -- A call that leaves the staking state, with what its value satisfies, and then the rest.
  take_then :
      {X Y : Type 0} (P : X → Type 0) (f : X → Call World Y) (r : Result X × World) (w : World)
      → Returns E
          (λ x w'.
            Same A S D log_error E validators text_of same redelegations unbondings h w w' × P x)
          r
      → ((x : X) → P x → Leaves (f x))
      → Returns E
          (λ _ w'. Same A S D log_error E validators text_of same redelegations unbondings h w w')
          (follow f r)
  take_then P f r w k g = Returns-follow E f r _ _ k λ x w1 ((v1, r1, u1), p).
      Returns-mono E (f x w1) _ _ (g x p w1) λ _ w2 (v2, r2, u2). (v2 ∙ v1, r2 ∙ r1, u2 ∙ u1)

  leave_then :
      {X Y : Type 0} (f : X → Call World Y) (r : Result X × World) (w : World)
      → Returns E
          (λ _ w'. Same A S D log_error E validators text_of same redelegations unbondings h w w')
          r
      → ((x : X) → Leaves (f x))
      → Returns E
          (λ _ w'. Same A S D log_error E validators text_of same redelegations unbondings h w w')
          (follow f r)
  leave_then f r w k g =
      take_then (λ _. Unit) f r w (Returns-mono E r _ _ k λ _ w' e. (e, tt)) λ x _. g x

  loop-Leaves :
      {X : Type 0} (body : X → Call World (Unit {0})) (P : X → Type 0)
      → ((x : X) → P x → Leaves (body x))
      → (xs : List X) → All P xs
      → Leaves (for_each body xs)
  unfolding for_each
  loop-Leaves body P k [] h w = (refl, refl, refl)
  loop-Leaves body P k (x ∷ xs) (p, ps) w =
      leave_then (λ _. for_each body xs) (body x w) w (k x p w) λ _. loop-Leaves body P k xs ps

  module _ (M : LeavesStaking) where
    withdraw_commission-Leaves :
        (k : Height) (v : Validator S.ValidatorOthers)
        → OfVal v
        → Leaves (withdraw_commission A S D log_error k v)
    unfolding withdraw_commission
    withdraw_commission-Leaves k v (b, e) w = rw e (M.commission k b w)

    withdraw_rewards-Leaves :
        (k : Height) (d : Delegation) → OfDel d → Leaves (withdraw_rewards A S D log_error k d)
    unfolding withdraw_rewards
    withdraw_rewards-Leaves k d ((b, e), (a, f)) w = rw (e, f) (M.rewards k a b w)

    reinitialize_validator-Leaves :
        (k : Height) (v : Validator S.ValidatorOthers)
        → OfVal v
        → Leaves (reinitialize_validator A S D log_error k v)
    unfolding reinitialize_validator
    reinitialize_validator-Leaves k v (b, e) w = rw e (
        leave_then _ (or_panic (D.get_validator_outstanding_rewards_coins k b) w) w
          (Returns-panicked E (D.get_validator_outstanding_rewards_coins k b w) _
            (M.outstanding k b w))
          λ coins w1.
            leave_then _ (or_panic (D.get_fee_pool k) w1) w1
              (Returns-panicked E (D.get_fee_pool k w1) _ (M.gets_pool k w1))
              λ pool w2.
                let p = record pool { community_pool = D.add_coins pool.community_pool coins } in
                leave_then _ (or_panic (D.set_fee_pool k p) w2) w2
                  (Returns-panicked E (D.set_fee_pool k p w2) _ (M.sets_pool k p w2))
                  λ _ w3.
                    Returns-panicked E (D.after_validator_created k b w3) _
                      (M.validator_hook k b w3))

    reinitialize_delegation-Leaves :
        (k : Height) (d : Delegation)
        → OfDel d
        → Leaves (reinitialize_delegation A S D log_error k d)
    unfolding reinitialize_delegation
    reinitialize_delegation-Leaves k d ((b, e), (a, f)) w =
        rw (e, f)
          (let before = λ (t : Text). codes "error while incrementing period: " ++ t in
            let after =
              λ (t : Text). codes "error while creating a new delegation period record: " ++ t in
            leave_then _ (or_panic_as before (D.before_delegation_created k a b) w) w
              (Returns-panicked_as E before (D.before_delegation_created k a b w) _
                (M.before_hook k a b w))
              λ _ w1.
                Returns-panicked_as E after (D.after_delegation_modified k a b w1) _
                  (M.after_hook k a b w1))

    -- The loops at height zero.
    reinitialize-Leaves :
        (dels : List Delegation)
        → All OfDel dels
        → Leaves (do
          vals ← or_panic (S.iterate_validators (pos 0))
          for_each (reinitialize_validator A S D log_error (pos 0)) vals
          for_each (reinitialize_delegation A S D log_error (pos 0)) dels)
    reinitialize-Leaves dels of_dels w =
        take_then (All OfVal) _ (or_panic (S.iterate_validators (pos 0)) w) w
          (Returns-panicked E (S.iterate_validators (pos 0) w) _ (M.vals (pos 0) w))
          λ vals of_vals w1.
            leave_then _ (for_each (reinitialize_validator A S D log_error (pos 0)) vals w1) w1
              (loop-Leaves _ OfVal (reinitialize_validator-Leaves (pos 0)) vals of_vals w1)
              λ _ w2. loop-Leaves _ OfDel (reinitialize_delegation-Leaves (pos 0)) dels of_dels w2

    pub prepare_distribution-Leaves : (k : Height) → Leaves (prepare_distribution A S D log_error k)
    unfolding prepare_distribution
    prepare_distribution-Leaves k w =
        take_then (All OfVal) _ (or_panic (S.iterate_validators k) w) w
          (Returns-panicked E (S.iterate_validators k w) _ (M.vals k w))
          λ vals of_vals w1.
            leave_then _ (for_each (withdraw_commission A S D log_error k) vals w1) w1
              (loop-Leaves _ OfVal (withdraw_commission-Leaves k) vals of_vals w1)
              λ _ w2.
                take_then (All OfDel) _ (or_panic (S.get_all_delegations k) w2) w2
                  (Returns-panicked E (S.get_all_delegations k w2) _ (M.dels k w2))
                  λ dels of_dels w3.
                    leave_then _ (for_each (withdraw_rewards A S D log_error k) dels w3) w3
                      (loop-Leaves _ OfDel (withdraw_rewards-Leaves k) dels of_dels w3)
                      λ _ w4.
                        leave_then _ (D.delete_all_validator_slash_events k w4) w4
                          (M.slash_events k w4)
                          λ _ w5.
                            leave_then _ (D.delete_all_validator_historical_rewards k w5) w5
                              (M.historical k w5) λ _. reinitialize-Leaves dels of_dels
