-- ===== src/Testnet/Single.antt =====
-- The keys of the staking store after the validators have been replaced.
use mathlib.Core.Logic.{ite}
use aegis_mirror.Base.{◌≡◌, refl, Bool, true, false, ◌||◌, arith}
use aegis_mirror.Base.Int.{ℤ, pos}
use aegis_mirror.Base.Text.{Text}
use aegis_mirror.Base.Effect.{◌>>◌, Returns, Returns-follow, Returns-mono}
use aegis_mirror.Testnet.Keepers.{NewValidator, Group, StakingOps, DistributionOps, BankOps}
use aegis_mirror.Testnet.Init.{handle_err, new_validator, remove_validators, add_validator}
use aegis_mirror.Testnet.Handled.{Returns-handled}
use aegis_mirror.Testnet.Removal.{Deletes, is_removed, remove_validators-present}

module _ {World PubKey : Type 0} (S : StakingOps World PubKey) (D : DistributionOps World)
    (B : BankOps World) (E : Type 0) (dec : Discrete S.Key) (present : World → S.Key → Bool)
    (belongs : Group → S.Key → Bool)
    (validator_key power_key cons_key : NewValidator S.PubKeyAny → S.Key)
    (last_key : Text → S.Key) where
  -- The world after the key was written.
  abbrev pub Wrote : S.Key → World → World → Type 0
  Wrote j w w' = (k : S.Key) → present w' k ≡ (ite (dec k j) true false || present w k)

  -- What the setters do: each writes one key, but for the power index of a jailed validator, which is
  -- not written, and the hook writes none.
  pub record Writes : Type 0 where
    pub validator :
        (v : NewValidator S.PubKeyAny) (w : World)
        → Returns E (λ _ w'. Wrote (validator_key v) w w') (S.set_validator v w)
    pub cons_addr :
        (v : NewValidator S.PubKeyAny) (w : World)
        → Returns E (λ _ w'. Wrote (cons_key v) w w') (S.set_validator_by_cons_addr v w)
    pub power_index :
        (v : NewValidator S.PubKeyAny) (w : World)
        → v.jailed ≡ false
        → Returns E (λ _ w'. Wrote (power_key v) w w') (S.set_validator_by_power_index v w)
    pub power_index_jailed :
        (v : NewValidator S.PubKeyAny) (w : World)
        → v.jailed ≡ true
        → Returns E
            (λ _ w'. (k : S.Key) → present w' k ≡ present w k)
            (S.set_validator_by_power_index v w)
    pub last_power :
        (a : Text) (p : ℤ) (w : World)
        → Returns E (λ _ w'. Wrote (last_key a) w w') (S.set_last_validator_power a p w)
    pub hook :
        (a : Text) (w : World)
        → Returns E
            (λ _ w'. (k : S.Key) → present w' k ≡ present w k)
            (S.after_validator_created a w)

  module _ (L : Deletes S D B E dec present belongs) (W : Writes) where
    add_validator-present :
        (v : NewValidator S.PubKeyAny) (a : Text) (w : World)
        → v.jailed ≡ false
        → Returns E
            (λ _ w'.
              (k : S.Key)
              → present w' k ≡ (
                  ite (dec k (last_key a)) true false
                  || (ite (dec k (power_key v)) true false
                      || (ite (dec k (cons_key v)) true false
                          || (ite (dec k (validator_key v)) true false || present w k)))))
            (add_validator S D B v a w)
    unfolding add_validator
    add_validator-present v a w free =
        Returns-follow E _ (handle_err S D B (S.set_validator v) w) _ _
          (Returns-handled S D B E (S.set_validator v w) _ (W.validator v w))
          λ _ w1 h1.
            Returns-follow E _ (handle_err S D B (S.set_validator_by_cons_addr v) w1) _ _
              (Returns-handled S D B E (S.set_validator_by_cons_addr v w1) _ (W.cons_addr v w1))
              λ _ w2 h2.
                Returns-follow E _ (handle_err S D B (S.set_validator_by_power_index v) w2) _ _
                  (Returns-handled S D B E (S.set_validator_by_power_index v w2) _
                    (W.power_index v w2 free))
                  λ _ w3 h3.
                    Returns-follow E _ (handle_err S D B (S.set_last_validator_power a (pos 0)) w3)
                      _ _
                      (Returns-handled S D B E (S.set_last_validator_power a (pos 0) w3) _
                        (W.last_power a (pos 0) w3))
                      λ _ w4 h4.
                        Returns-mono E (handle_err S D B (S.after_validator_created a) w4) _ _
                          (Returns-handled S D B E (S.after_validator_created a w4) _ (W.hook a w4))
                          λ _ w5 h5 k. rw (h5 k, h4 k, h3 k, h2 k, h1 k) refl

    -- After the validators have been removed and the one that `initAppForTestnet` makes has been added,
    -- a key of the power index, the last validators, the validators or the validator queue is in the
    -- staking store exactly if it is one that was written for the new validator; its key in the power
    -- index is, since it is not jailed.
    pub replace_validators-present :
        (operator : Text) (pubkey : S.PubKeyAny) (a : Text) (w : World) (k : S.Key)
        → is_removed S D B E dec present belongs L k ≡ true
        → let v = new_validator S D B operator pubkey in
          Returns E
            (λ _ w'. present w' k ≡ (
              ite (dec k (last_key a)) true false
              || (ite (dec k (power_key v)) true false
                  || (ite (dec k (cons_key v)) true false
                      || ite (dec k (validator_key v)) true false))))
            ((remove_validators S D B >> add_validator S D B v a) w)
    replace_validators-present operator pubkey a w k h =
        let v = new_validator S D B operator pubkey in
        Returns-follow E _ (remove_validators S D B w) _ _
          (remove_validators-present S D B E dec present belongs L w)
          λ _ w1 h1.
            Returns-mono E (add_validator S D B v a w1) _ _
              (add_validator-present v a w1 (unfold new_validator in refl))
              λ _ w2 h2. ground (arith, h1 k, h2 k)
