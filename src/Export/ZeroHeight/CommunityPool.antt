-- ===== src/Export/ZeroHeight/CommunityPool.antt =====
-- What the community pool is given when the validators are reinitialized.
use aegis_mirror.Base.{
  ℕ, ◌+◌, ◌≡◌, refl, Bool, false, ◌||◌, some, List, [], ◌∷◌, arith, if◌then◌else◌, All,
}
use aegis_mirror.Base.Text.{Text, text_eq}
use aegis_mirror.Base.Effect.{
  Call, or_panic, for_each, Returns, Returns-follow, Returns-panicked, Returns-mono,
}
use aegis_mirror.Export.Keepers.{Height, Bytes, Validator, FeePool, Codecs, Staking, Distribution}
use aegis_mirror.Export.ZeroHeight.{reinitialize_validator}

-- The sum over a list of addresses.
abbrev pub total : (Bytes → ℕ) → List Bytes → ℕ
total f [] = 0
total f (a ∷ addresses) = f a + total f addresses

-- No address stands twice in the list.
abbrev pub NoRepeat : List Bytes → Type 0
NoRepeat [] = Unit
NoRepeat (a ∷ addresses) = All (λ b. text_eq b a ≡ false) addresses × NoRepeat addresses

abbrev pub holds : Bytes → List Bytes → Bool
holds b [] = false
holds b (a ∷ addresses) = text_eq b a || holds b addresses

total-cleared :
    (f g : Bytes → ℕ) (a : Bytes) (addresses : List Bytes)
    → ((b : Bytes) → g b ≡ (if text_eq b a then 0 else f b))
    → All (λ b. text_eq b a ≡ false) addresses
    → total g addresses ≡ total f addresses
total-cleared f g a [] e h = refl
total-cleared f g a (b ∷ addresses) e (hb, h) =
    ground (arith, e b, total-cleared f g a addresses e h)

module _ {World : Type 0} (A : Codecs) (S : Staking World) (D : Distribution World)
    (log_error : Text → Call World (Unit {0})) (E : Type 0) (pool : World → ℕ)
    (outstanding : World → Bytes → ℕ) (value : D.DecCoins → ℕ) where
  abbrev pub Same : World → World → Type 0
  Same w w' = (pool w' ≡ pool w) × ((b : Bytes) → outstanding w' b ≡ outstanding w b)

  -- What the distribution keeper does, in the amounts of one denomination: a validator that is created
  -- starts without outstanding rewards.
  pub record KeepsRewards : Type 0 where
    pub rewards :
        (h : Height) (a : Bytes) (w : World)
        → Returns E
            (λ c w'. (value c ≡ outstanding w a) × Same w w')
            (D.get_validator_outstanding_rewards_coins h a w)
    pub gets :
        (h : Height) (w : World)
        → Returns E (λ p w'. (value p.community_pool ≡ pool w) × Same w w') (D.get_fee_pool h w)
    pub sets :
        (h : Height) (p : FeePool D.DecCoins) (w : World)
        → Returns E
            (λ _ w'.
              (pool w' ≡ value p.community_pool)
              × ((b : Bytes) → outstanding w' b ≡ outstanding w b))
            (D.set_fee_pool h p w)
    pub creates :
        (h : Height) (a : Bytes) (w : World)
        → Returns E
            (λ _ w'.
              (pool w' ≡ pool w)
              × ((b : Bytes) → outstanding w' b ≡ (if text_eq b a then 0 else outstanding w b)))
            (D.after_validator_created h a w)
    pub adds : (c d : D.DecCoins) → value (D.add_coins c d) ≡ value c + value d

  -- The addresses that the operators' texts decode to.
  abbrev pub Operators : List (Validator S.ValidatorOthers) → List Bytes → Type 0
  Operators [] [] = Unit
  Operators [] (a ∷ addresses) = ⊥
  Operators (v ∷ vals) [] = ⊥
  Operators (v ∷ vals) (a ∷ addresses) =
      (A.staking_val_address v.operator_address ≡ some a) × Operators vals addresses

  module _ (L : KeepsRewards) (h : Height) where
    reinitialize_validator_lem :
        (v : Validator S.ValidatorOthers) (a : Bytes) (w : World)
        → A.staking_val_address v.operator_address ≡ some a
        → Returns E
            (λ _ w'.
              (pool w' ≡ pool w + outstanding w a)
              × ((b : Bytes) → outstanding w' b ≡ (if text_eq b a then 0 else outstanding w b)))
            (reinitialize_validator A S D log_error h v w)
    unfolding reinitialize_validator
    reinitialize_validator_lem v a w e = rw e (
        Returns-follow E _ (or_panic (D.get_validator_outstanding_rewards_coins h a) w) _ _
          (Returns-panicked E (D.get_validator_outstanding_rewards_coins h a w) _ (L.rewards h a w))
          λ c w1 (ec, (p1, o1)).
            Returns-follow E _ (or_panic (D.get_fee_pool h) w1) _ _
              (Returns-panicked E (D.get_fee_pool h w1) _ (L.gets h w1))
              λ p w2 (ep, (p2, o2)).
                let p' = record p { community_pool = D.add_coins p.community_pool c } in
                Returns-follow E _ (or_panic (D.set_fee_pool h p') w2) _ _
                  (Returns-panicked E (D.set_fee_pool h p' w2) _ (L.sets h p' w2))
                  λ _ w3 (p3, o3).
                    Returns-mono E (or_panic (D.after_validator_created h a) w3) _ _
                      (Returns-panicked E (D.after_validator_created h a w3) _ (L.creates h a w3))
                      λ _ w4 (p4, o4). (
                        ground (arith, L.adds p.community_pool c),
                        λ b. ground (arith, o4 b, o3 b, o2 b, o1 b),
                      ))

    -- After the loop over the validators the community pool has grown by all outstanding rewards of
    -- the validators, and none of them has outstanding rewards left; the operators' texts decode, to
    -- addresses of which none stands twice.
    pub for_each-reinitialize_validator :
        (vals : List (Validator S.ValidatorOthers)) (addresses : List Bytes) (w : World)
        → Operators vals addresses
        → NoRepeat addresses
        → Returns E
            (λ _ w'.
              (pool w' ≡ pool w + total (outstanding w) addresses)
              × ((b : Bytes)
                  → outstanding w' b ≡ (if holds b addresses then 0 else outstanding w b)))
            (for_each (reinitialize_validator A S D log_error h) vals w)
    unfolding for_each
    for_each-reinitialize_validator [] [] w o n = (omega arith, λ b. refl)
    for_each-reinitialize_validator [] (a ∷ addresses) w o n = absurd o
    for_each-reinitialize_validator (v ∷ vals) [] w o n = absurd o
    for_each-reinitialize_validator (v ∷ vals) (a ∷ addresses) w (e, o) (n, ns) =
        Returns-follow E _ (reinitialize_validator A S D log_error h v w) _ _
          (reinitialize_validator_lem v a w e)
          λ _ w1 (p1, o1).
            Returns-mono E (for_each (reinitialize_validator A S D log_error h) vals w1) _ _
              (for_each-reinitialize_validator vals addresses w1 o ns)
              λ _ w2 (p2, o2). (
                ground (arith, total-cleared (outstanding w) (outstanding w1) a addresses o1 n),
                λ b. ground (arith, o1 b, o2 b),
              )
