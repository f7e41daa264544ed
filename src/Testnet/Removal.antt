-- ===== src/Testnet/Removal.antt =====
-- The keys that are removed: those of the four groups, and no others.
use mathlib.Core.Logic.{ite}
use aegis_mirror.Base.{
  ◌≡◌, refl, Bool, true, false, ◌&&◌, ◌||◌, List, [], ◌∷◌, arith, if◌then◌else◌,
}
use aegis_mirror.Base.Effect.{ignore, for_each, Returns, Returns-follow, Returns-mono}
use aegis_mirror.Testnet.Keepers.{
  Group, power_index, last_validators, validators, validator_queue, StakingOps, DistributionOps,
  BankOps,
}
use aegis_mirror.Testnet.Handled.{Returns-handled}
use aegis_mirror.Testnet.Init.{handle_err, remove_group, remove_validators}

module _ {World PubKey : Type 0} (S : StakingOps World PubKey) (D : DistributionOps World)
    (B : BankOps World) (E : Type 0) (dec : Discrete S.Key) (present : World → S.Key → Bool)
    (belongs : Group → S.Key → Bool) where
  abbrev pub listed : S.Key → List S.Key → Bool
  listed k [] = false
  listed k (j ∷ js) = ite (dec k j) true false || listed k js

  -- What the staking store does: an iterator visits the keys of its group that are there, and a
  -- deletion takes one key away.
  pub record Deletes : Type 0 where
    pub iterates :
        (g : Group) (w : World)
        → Returns E
            (λ keys w'.
              (k : S.Key)
              → (present w' k ≡ present w k) × (listed k keys ≡ (present w k && belongs g k)))
            (S.iterator g w)
    pub deletes :
        (k : S.Key) (w : World)
        → Returns E
            (λ _ w'. (j : S.Key) → present w' j ≡ ite (dec j k) false (present w j))
            (S.delete k w)
    pub closes :
        (w : World)
        → Returns E (λ _ w'. (k : S.Key) → present w' k ≡ present w k) (ignore S.close_iterator w)

  module _ (L : Deletes) where
    delete_all :
        (keys : List S.Key) (w : World)
        → Returns E
            (λ _ w'. (k : S.Key) → present w' k ≡ (if listed k keys then false else present w k))
            (for_each S.delete keys w)
    unfolding for_each
    delete_all [] w = λ k. refl
    delete_all (j ∷ js) w = Returns-follow E _ (S.delete j w) _ _ (L.deletes j w) λ _ w1 h1.
        Returns-mono E (for_each S.delete js w1) _ _ (delete_all js w1)
          λ _ w2 h2 k. ground (arith, h1 k, h2 k)

    remove_group_lem :
        (g : Group) (w : World)
        → Returns E
            (λ _ w'. (k : S.Key) → present w' k ≡ (if belongs g k then false else present w k))
            (remove_group S D B g w)
    unfolding remove_group
    remove_group_lem g w =
        Returns-follow E _ (handle_err S D B (S.iterator g) w) _ _
          (Returns-handled S D B E (S.iterator g w) _ (L.iterates g w))
          λ keys w1 h1.
            Returns-follow E _ (for_each S.delete keys w1) _ _ (delete_all keys w1) λ _ w2 h2.
              Returns-mono E (ignore S.close_iterator w2) _ _ (L.closes w2)
                λ _ w3 h3 k. ground (arith, (h1 k).0, (h1 k).1, h2 k, h3 k)

    -- Is the key in one of the four groups?
    abbrev pub is_removed : S.Key → Bool
    is_removed k =
        belongs power_index k
        || (belongs last_validators k || (belongs validators k || belongs validator_queue k))

    -- After the four loops no key of the power index, the last validators, the validators or the
    -- validator queue is left in the staking store, and every other key is as it was.
    pub remove_validators-present :
        (w : World)
        → Returns E
            (λ _ w'. (k : S.Key) → present w' k ≡ (if is_removed k then false else present w k))
            (remove_validators S D B w)
    unfolding remove_validators
    remove_validators-present w =
        Returns-follow E _ (remove_group S D B power_index w) _ _ (remove_group_lem power_index w)
          λ _ w1 h1.
            Returns-follow E _ (remove_group S D B last_validators w1) _ _
              (remove_group_lem last_validators w1)
              λ _ w2 h2.
                Returns-follow E _ (remove_group S D B validators w2) _ _
                  (remove_group_lem validators w2)
                  λ _ w3 h3.
                    Returns-mono E (remove_group S D B validator_queue w3) _ _
                      (remove_group_lem validator_queue w3)
                      λ _ w4 h4 k. ground (arith, h1 k, h2 k, h3 k, h4 k)
