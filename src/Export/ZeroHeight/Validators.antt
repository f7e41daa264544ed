-- ===== src/Export/ZeroHeight/Validators.antt =====
-- What the loop over the validators leaves.
use mathlib.Core.Option.{some-injective}
use aegis_mirror.Base.{
  All, ◌≡◌, refl, sym, ◌∙◌, ap, Bool, true, false, not, ◌&&◌, ◌||◌, Option, none, some, List, [],
  ◌∷◌, arith, if◌then◌else◌, Bool-cases, inl, inr,
}
use aegis_mirror.Base.Int.{pos}
use aegis_mirror.Base.Text.{Text, codes, text_eq, text_eq_iff}
use aegis_mirror.Base.Effect.{
  Call, or_panic, or_panic_as, for_each, Returns, Returns-follow, Returns-panicked,
  Returns-panicked_as, Returns-mono,
}
use aegis_mirror.Export.Keepers.{Height, Bytes, Validator, Codecs, Staking, Distribution}
use aegis_mirror.Export.ZeroHeight.{contains, is_given, reset_validator, reset_key}

-- What a validator with the address `addr` has to be after the loop: it starts at height zero, and it
-- is jailed if it was, or if a list of allowed addresses is given that does not hold its own.
pub record IsReset {Others : Type 0} (allowed : List Text) (addr : Text) (v v' : Validator Others)
    : Type 0 where
  pub height : v'.unbonding_height ≡ pos 0
  pub jailed : v'.jailed ≡ (v.jailed || (is_given allowed && not (contains allowed addr)))
  pub operator : v'.operator_address ≡ v.operator_address
  pub others : v'.others ≡ v.others

reset_validator-IsReset :
    {Others : Type 0} (allowed : List Text) (addr : Text) (v : Validator Others)
    → IsReset allowed addr v (reset_validator allowed addr v)
unfolding reset_validator
reset_validator-IsReset allowed addr v = ground arith

-- An entry of the store before and after the loop; `seen` says if its key was visited.
abbrev pub After :
    {Others : Type 0}
    → List Text
    → Text
    → Bool
    → Option (Validator Others)
    → Option (Validator Others)
    → Type 0
After allowed addr false old new = new ≡ old
After allowed addr true none new = new ≡ none
After allowed addr true (some v) none = ⊥
After allowed addr true (some v) (some v') = IsReset allowed addr v v'

equal-IsReset :
    {Others : Type 0} (allowed : List Text) (addr : Text) (v v' : Validator Others)
    → v' ≡ reset_validator allowed addr v
    → IsReset allowed addr v v'
equal-IsReset allowed addr v v' e = rw e (reset_validator-IsReset allowed addr v)

reset_validator_idem :
    {Others : Type 0} (allowed : List Text) (addr : Text) (v : Validator Others)
    → reset_validator allowed addr (reset_validator allowed addr v) ≡ reset_validator allowed addr v
unfolding reset_validator
reset_validator_idem allowed addr v = ground arith

module _ {World : Type 0} (A : Codecs) (S : Staking World) (D : Distribution World)
    (log_error : Text → Call World (Unit {0})) (E : Type 0)
    (validators : World → Bytes → Option (Validator S.ValidatorOthers))
    (text_of : Bytes → Text) where
  -- What the staking keeper and its codec do: a validator is stored under the address that its
  -- operator's text decodes to.
  pub record StoresValidators : Type 0 where
    pub gets :
        (h : Height) (a : Bytes) (v : Validator S.ValidatorOthers) (w : World)
        → validators w a ≡ some v
        → Returns E
            (λ v' w'. (v' ≡ v) × ((b : Bytes) → validators w' b ≡ validators w b))
            (S.get_validator h a w)
    pub sets :
        (h : Height) (v : Validator S.ValidatorOthers) (a : Bytes) (w : World)
        → A.staking_val_address v.operator_address ≡ some a
        → Returns E
            (λ _ w'.
              (b : Bytes) → validators w' b ≡ (if text_eq b a then some v else validators w b))
            (S.set_validator h v w)
    pub operators :
        (w : World) (a : Bytes) (v : Validator S.ValidatorOthers)
        → validators w a ≡ some v
        → A.staking_val_address v.operator_address ≡ some a
    pub texts : (a : Bytes) → A.staking_val_address_text a ≡ some (text_of a)

  abbrev pub visited : Bytes → List S.Key → Bool
  visited a [] = false
  visited a (k ∷ ks) = text_eq a (S.address_from_validators_key k) || visited a ks

  -- Every key is that of a stored validator.
  abbrev pub Stored : World → List S.Key → Type 0
  Stored w = All (λ k.
      (v : Validator S.ValidatorOthers) × (validators w (S.address_from_validators_key k) ≡ some v))

  module _ (L : StoresValidators) (h : Height) (allowed : List Text) where
    abbrev pub reset_at :
        Bytes → Option (Validator S.ValidatorOthers) → Option (Validator S.ValidatorOthers)
    reset_at a none = none
    reset_at a (some v) = some (reset_validator allowed (text_of a) v)

    reset_at_idem :
        (a : Bytes) (o : Option (Validator S.ValidatorOthers))
        → reset_at a (reset_at a o) ≡ reset_at a o
    reset_at_idem a none = refl
    reset_at_idem a (some v) = ap some (reset_validator_idem allowed (text_of a) v)

    pub reset_key_lem :
        (k : S.Key) (v : Validator S.ValidatorOthers) (w : World)
        → validators w (S.address_from_validators_key k) ≡ some v
        → Returns E
            (λ _ w'.
              (b : Bytes)
              → validators w' b ≡ (
                  if text_eq b (S.address_from_validators_key k)
                  then reset_at b (validators w b)
                  else validators w b))
            (reset_key A S D log_error h allowed k w)
    unfolding reset_key
    reset_key_lem k v w found =
        let a = S.address_from_validators_key k in
        let not_found = λ (e : Text). codes "expected validator, not found" in
        Returns-follow E _ (or_panic_as not_found (S.get_validator h a) w) _ _
          (Returns-panicked_as E not_found (S.get_validator h a w) _ (L.gets h a v w found))
          λ v' w1 (read, same).
            rw (read, L.texts a)
              (Returns-mono E
                (or_panic (S.set_validator h (reset_validator allowed (text_of a) v)) w1) _ _
                (Returns-panicked E (S.set_validator h (reset_validator allowed (text_of a) v) w1) _
                  (L.sets h (reset_validator allowed (text_of a) v) a w1 (
                    ap A.staking_val_address
                      (reset_validator-IsReset allowed (text_of a) v).operator
                    ∙ L.operators w a v found)))
                λ _ w2 e b. elim (Bool-cases (text_eq b a)) [
                  | inl p ↦
                      let q = (text_eq_iff b a).0 p in
                      e b ∙ rw p (sym (rw q (ap (reset_at a) found)))
                  | inr n ↦ e b ∙ rw n (same b)
                ])

    -- A validator that is reset is still stored.
    pub moved-Stored :
        (a : Bytes) (ks : List S.Key) (w w' : World)
        → ((b : Bytes)
            → validators w' b
              ≡ (if text_eq b a then reset_at b (validators w b) else validators w b))
        → Stored w ks
        → Stored w' ks
    moved-Stored a [] w w' e h = tt
    moved-Stored a (k ∷ ks) w w' e ((v, p), h) =
        let b = S.address_from_validators_key k in
        (
          (if text_eq b a then reset_validator allowed (text_of b) v else v, ground (arith, e b)),
          moved-Stored a ks w w' e h,
        )

    reset_all :
        (ks : List S.Key) (w : World)
        → Stored w ks
        → Returns E
            (λ _ w'.
              (b : Bytes)
              → validators w' b
                ≡ (if visited b ks then reset_at b (validators w b) else validators w b))
            (for_each (reset_key A S D log_error h allowed) ks w)
    unfolding for_each
    reset_all [] w h = λ b. refl
    reset_all (k ∷ ks) w ((v, found), stored) =
        Returns-follow E _ (reset_key A S D log_error h allowed k w) _ _ (reset_key_lem k v w found)
          λ _ w1 e1.
            Returns-mono E (for_each (reset_key A S D log_error h allowed) ks w1) _ _
              (reset_all ks w1 (moved-Stored (S.address_from_validators_key k) ks w w1 e1 stored))
              λ _ w2 e2 b. ground (arith, e1 b, e2 b, reset_at_idem b (validators w b))

    keys-After :
        (a : Bytes) (seen : Bool) (old new : Option (Validator S.ValidatorOthers))
        → new ≡ (if seen then reset_at a old else old)
        → After allowed (text_of a) seen old new
    keys-After a false old new e = e
    keys-After a true none new e = e
    keys-After a true (some v) none e = cc
    keys-After a true (some v) (some v') e =
        equal-IsReset allowed (text_of a) v v' (some-injective _ _ e)

    -- After the loop over the validators' keys each stored validator that was visited is reset, in its
    -- height and its jailing and in nothing else, also if it was visited twice; every other entry of
    -- the store is as it was. The keys are those of stored validators.
    pub for_each-reset_key :
        (ks : List S.Key) (w : World)
        → Stored w ks
        → Returns E
            (λ _ w'.
              (b : Bytes)
              → After allowed (text_of b) (visited b ks) (validators w b) (validators w' b))
            (for_each (reset_key A S D log_error h allowed) ks w)
    for_each-reset_key ks w stored =
        Returns-mono E (for_each (reset_key A S D log_error h allowed) ks w) _ _
          (reset_all ks w stored)
          λ _ w' e b. keys-After b (visited b ks) (validators w b) (validators w' b) (e b)
