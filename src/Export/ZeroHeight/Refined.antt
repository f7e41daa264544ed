-- ===== src/Export/ZeroHeight/Refined.antt =====
-- The three loops on the staking state together: the detailed loops reset the whole abstract state.
use mathlib.Core.Path.{subst}
use aegis_mirror.Base.{◌≡◌, refl, ◌∙◌, Bool, true, false, Option, none, some, List, [], ◌∷◌}
use aegis_mirror.Base.Text.{Text}
use aegis_mirror.Base.Effect.{
  Result, Call, tried, for_each, Returns, Returns-follow, Returns-mono, Returns-both,
  Returns-for_each, Returns-panicked, or_panic,
}
use aegis_mirror.Export.Keepers.{
  Height, Bytes, Validator, Entry, Unbonding, Codecs, Staking, Distribution,
}
use aegis_mirror.Export.ZeroHeight.{
  finish, reset_key, reset_redelegation, reset_unbonding_delegation, prepare_staking,
}
use aegis_mirror.Export.ZeroHeight.Validators.{
  After as AfterValidators, Stored, StoresValidators, visited as visited_validator, reset_key_lem,
  moved-Stored, for_each-reset_key,
}
use aegis_mirror.Export.ZeroHeight.Unbondings.{
  After, Stores, Holds, visited, for_each-reset_redelegation, for_each-reset_unbonding_delegation,
}

-- A relation between two values holds of equal ones.
moved : {X : Type 0} (P : X → X → Type 0) {a b c d : X} → a ≡ b → d ≡ c → P a c → P b d
moved P {d = d} e f p = subst (λ x. P x d) e (rw f p)

module _ {World : Type 0} (A : Codecs) (S : Staking World) (D : Distribution World)
    (log_error : Text → Call World (Unit {0})) (E : Type 0)
    (validators : World → Bytes → Option (Validator S.ValidatorOthers)) (text_of : Bytes → Text)
    (same : S.Owner → S.Owner → Bool)
    (redelegations unbondings : World → S.Owner → Option (List (Entry S.EntryOthers)))
    (h : Height) where
  -- The three parts of the state, as functions.
  abbrev pub Same : World → World → Type 0
  Same w w' =
      (validators w' ≡ validators w)
      × (redelegations w' ≡ redelegations w)
      × (unbondings w' ≡ unbondings w)

  abbrev seen_red : S.Owner → List (Unbonding S.Owner S.EntryOthers) → Bool
  seen_red = visited E same redelegations (S.set_redelegation h)

  abbrev seen_ubd : S.Owner → List (Unbonding S.Owner S.EntryOthers) → Bool
  seen_ubd = visited E same unbondings (S.set_unbonding_delegation h)

  abbrev seen_val : Bytes → List S.Key → Bool
  seen_val = visited_validator A S D log_error E validators text_of

  -- What the keeper does to the parts of the state: an iteration visits all of a part and changes
  -- nothing, and a write to one part leaves the others.
  pub record KeepsParts : Type 0 where
    pub val_store : StoresValidators A S D log_error E validators text_of
    pub red_store : Stores E same redelegations (S.set_redelegation h)
    pub ubd_store : Stores E same unbondings (S.set_unbonding_delegation h)
    pub reds :
        (w : World)
        → Returns E
            (λ us w'.
              Same w w'
              × Holds E same redelegations (S.set_redelegation h) w' us
              × ((o : S.Owner) → seen_red o us ≡ false → redelegations w' o ≡ none))
            (S.iterate_redelegations h w)
    pub ubds :
        (w : World)
        → Returns E
            (λ us w'.
              Same w w'
              × Holds E same unbondings (S.set_unbonding_delegation h) w' us
              × ((o : S.Owner) → seen_ubd o us ≡ false → unbondings w' o ≡ none))
            (S.iterate_unbonding_delegations h w)
    pub keys :
        (w : World)
        → Returns E
            (λ ks w'.
              Same w w'
              × Stored A S D log_error E validators text_of w' ks
              × ((b : Bytes) → seen_val b ks ≡ false → validators w' b ≡ none))
            (S.validators_keys w)
    pub closes : (w : World) → Returns E (λ _ w'. Same w w') (tried (S.close_iterator w))
    pub red_frame :
        (us : Unbonding S.Owner S.EntryOthers) (w : World)
        → Returns E
            (λ _ w'. (validators w' ≡ validators w) × (unbondings w' ≡ unbondings w))
            (reset_redelegation A S D log_error h us w)
    pub ubd_frame :
        (us : Unbonding S.Owner S.EntryOthers) (w : World)
        → Returns E
            (λ _ w'. (validators w' ≡ validators w) × (redelegations w' ≡ redelegations w))
            (reset_unbonding_delegation A S D log_error h us w)
    pub val_frame :
        (allowed : List Text) (k : S.Key) (v : Validator S.ValidatorOthers) (w : World)
        → validators w (S.address_from_validators_key k) ≡ some v
        → Returns E
            (λ _ w'. (redelegations w' ≡ redelegations w) × (unbondings w' ≡ unbondings w))
            (reset_key A S D log_error h allowed k w)

  -- The whole abstract state after the loops: every validator is reset, and every redelegation and
  -- unbonding delegation has its entries at height zero.
  pub record IsResetAll (allowed : List Text) (w w' : World) : Type 0 where
    pub all_validators :
        (b : Bytes) → AfterValidators allowed (text_of b) true (validators w b) (validators w' b)
    pub all_redelegations : (o : S.Owner) → After true (redelegations w o) (redelegations w' o)
    pub all_unbondings : (o : S.Owner) → After true (unbondings w o) (unbondings w' o)

  -- An entry that the iteration did not visit is not there.
  complete-After :
      (seen : Bool) (old new : Option (List (Entry S.EntryOthers)))
      → After seen old new
      → (seen ≡ false → old ≡ none)
      → After true old new
  complete-After true old new h k = h
  complete-After false none new h k = h
  complete-After false (some es) new h k = cc (k refl)

  complete-AfterValidators :
      (allowed : List Text) (addr : Text) (seen : Bool)
      (old new : Option (Validator S.ValidatorOthers))
      → AfterValidators allowed addr seen old new
      → (seen ≡ false → old ≡ none)
      → AfterValidators allowed addr true old new
  complete-AfterValidators allowed addr true old new h k = h
  complete-AfterValidators allowed addr false none new h k = h
  complete-AfterValidators allowed addr false (some v) new h k = cc (k refl)

  module _ (L : KeepsParts) where
    red_loop :
        (us : List (Unbonding S.Owner S.EntryOthers)) (w : World)
        → Holds E same redelegations (S.set_redelegation h) w us
        → Returns E
            (λ _ w'.
              ((o : S.Owner) → After (seen_red o us) (redelegations w o) (redelegations w' o))
              × ((validators w' ≡ validators w) × (unbondings w' ≡ unbondings w)))
            (for_each (reset_redelegation A S D log_error h) us w)
    red_loop us w k =
        Returns-both E (for_each (reset_redelegation A S D log_error h) us w) _ _
          (for_each-reset_redelegation A S D log_error E same redelegations h us w L.red_store k)
          (Returns-for_each E (reset_redelegation A S D log_error h)
            (λ w'. (validators w' ≡ validators w) × (unbondings w' ≡ unbondings w))
            (λ u w1 (e, f).
              Returns-mono E (reset_redelegation A S D log_error h u w1) _ _ (L.red_frame u w1)
                λ _ w2 (e', f'). (e' ∙ e, f' ∙ f))
            us w (refl, refl))

    ubd_loop :
        (us : List (Unbonding S.Owner S.EntryOthers)) (w : World)
        → Holds E same unbondings (S.set_unbonding_delegation h) w us
        → Returns E
            (λ _ w'.
              ((o : S.Owner) → After (seen_ubd o us) (unbondings w o) (unbondings w' o))
              × ((validators w' ≡ validators w) × (redelegations w' ≡ redelegations w)))
            (for_each (reset_unbonding_delegation A S D log_error h) us w)
    ubd_loop us w k =
        Returns-both E (for_each (reset_unbonding_delegation A S D log_error h) us w) _ _
          (for_each-reset_unbonding_delegation A S D log_error E same unbondings h us w L.ubd_store
            k)
          (Returns-for_each E (reset_unbonding_delegation A S D log_error h)
            (λ w'. (validators w' ≡ validators w) × (redelegations w' ≡ redelegations w))
            (λ u w1 (e, f).
              Returns-mono E (reset_unbonding_delegation A S D log_error h u w1) _ _
                (L.ubd_frame u w1) λ _ w2 (e', f'). (e' ∙ e, f' ∙ f))
            us w (refl, refl))

    val_frames :
        (allowed : List Text) (ks : List S.Key) (w : World)
        → Stored A S D log_error E validators text_of w ks
        → Returns E
            (λ _ w'. (redelegations w' ≡ redelegations w) × (unbondings w' ≡ unbondings w))
            (for_each (reset_key A S D log_error h allowed) ks w)
    unfolding for_each
    val_frames allowed [] w stored = (refl, refl)
    val_frames allowed (k ∷ ks) w ((v, found), stored) =
        Returns-follow E _ (reset_key A S D log_error h allowed k w) _ _
          (Returns-both E (reset_key A S D log_error h allowed k w) _ _
            (reset_key_lem A S D log_error E validators text_of L.val_store h allowed k v w found)
            (L.val_frame allowed k v w found))
          λ _ w1 (e1, (r1, u1)).
            Returns-mono E (for_each (reset_key A S D log_error h allowed) ks w1) _ _
              (val_frames allowed ks w1 (
                moved-Stored A S D log_error E validators text_of L.val_store h allowed
                  (S.address_from_validators_key k) ks w w1 e1 stored))
              λ _ w2 (r2, u2). (r2 ∙ r1, u2 ∙ u1)

    val_loop :
        (allowed : List Text) (ks : List S.Key) (w : World)
        → Stored A S D log_error E validators text_of w ks
        → Returns E
            (λ _ w'.
              ((b : Bytes)
                → AfterValidators allowed
                    (text_of b)
                    (seen_val b ks)
                    (validators w b)
                    (validators w' b))
              × ((redelegations w' ≡ redelegations w) × (unbondings w' ≡ unbondings w)))
            (for_each (reset_key A S D log_error h allowed) ks w)
    val_loop allowed ks w stored =
        Returns-both E (for_each (reset_key A S D log_error h allowed) ks w) _ _
          (for_each-reset_key A S D log_error E validators text_of L.val_store h allowed ks w
            stored)
          (val_frames allowed ks w stored)

    -- When `prepForZeroHeightGenesis` has been through the staking state and makes its last call, the
    -- abstract state is that of the beginning, reset as a whole: a statement `Q` that this last call
    -- establishes from a reset state is established by the whole part on the staking state.
    pub prepare_staking-IsResetAll :
        (allowed : List Text) (w : World) (Q : Unit {0} → World → Type 0)
        → ((closed : Result (Unit {0})) (w' : World)
            → IsResetAll allowed w w'
            → Returns E Q (finish A S D log_error h closed w'))
        → Returns E Q (prepare_staking A S D log_error h allowed w)
    unfolding prepare_staking
    prepare_staking-IsResetAll allowed w Q last =
        Returns-follow E _ (or_panic (S.iterate_redelegations h) w) _ _
          (Returns-panicked E (S.iterate_redelegations h w) _ (L.reds w))
          λ reds w1 ((v1, r1, u1), hold1, all1).
            Returns-follow E _ (for_each (reset_redelegation A S D log_error h) reds w1) _ _
              (red_loop reds w1 hold1)
              λ _ w2 (after1, (v2, u2)).
                Returns-follow E _ (or_panic (S.iterate_unbonding_delegations h) w2) _ _
                  (Returns-panicked E (S.iterate_unbonding_delegations h w2) _ (L.ubds w2))
                  λ ubds w3 ((v3, r3, u3), hold3, all3).
                    Returns-follow E _
                      (for_each (reset_unbonding_delegation A S D log_error h) ubds w3) _ _
                      (ubd_loop ubds w3 hold3)
                      λ _ w4 (after3, (v4, r4)).
                        Returns-follow E _ (S.validators_keys w4) _ _ (L.keys w4)
                          λ ks w5 ((v5, r5, u5), stored, all5).
                            Returns-follow E _
                              (for_each (reset_key A S D log_error h allowed) ks w5) _ _
                              (val_loop allowed ks w5 stored)
                              λ _ w6 (after5, (r6, u6)).
                                Returns-follow E _ (tried (S.close_iterator w6)) _ _ (L.closes w6)
                                  λ closed w7 (v7, r7, u7). last closed w7 (record {
                                    all_validators = λ b.
                                        moved
                                          (λ f g.
                                            AfterValidators allowed (text_of b) true (f b) (g b))
                                          (v5 ∙ v4 ∙ v3 ∙ v2 ∙ v1) v7
                                          (complete-AfterValidators allowed (text_of b)
                                            (seen_val b ks) (validators w5 b) (validators w6 b)
                                            (after5 b) (all5 b));
                                    all_redelegations = λ o.
                                        moved (λ f g. After true (f o) (g o)) r1
                                          (r7 ∙ r6 ∙ r5 ∙ r4 ∙ r3)
                                          (complete-After (seen_red o reds) (redelegations w1 o)
                                            (redelegations w2 o) (after1 o) (all1 o));
                                    all_unbondings = λ o.
                                        moved (λ f g. After true (f o) (g o)) (u3 ∙ u2 ∙ u1)
                                          (u7 ∙ u6 ∙ u5)
                                          (complete-After (seen_ubd o ubds) (unbondings w3 o)
                                            (unbondings w4 o) (after3 o) (all3 o));
                                  })
