-- ===== src/Export/ZeroHeight/Unbondings.antt =====
-- What the loops over the redelegations and the unbonding delegations leave.
use mathlib.Core.List.{map}
use aegis_mirror.Base.{
  ◌≡◌, refl, sym, ◌∙◌, ap, Bool, true, false, ◌||◌, Option, none, some, List, [], ◌∷◌, arith,
  if◌then◌else◌, All, Bool-cases, inl, inr,
}
use aegis_mirror.Base.Int.{pos}
use aegis_mirror.Base.Text.{Text}
use aegis_mirror.Base.Effect.{
  Call, or_panic, for_each, Returns, Returns-follow, Returns-panicked, Returns-mono,
}
use aegis_mirror.Export.Keepers.{Height, Entry, Unbonding, Codecs, Staking, Distribution}
use aegis_mirror.Export.ZeroHeight.{
  zero_entry, zero_entries, reset_redelegation, reset_unbonding_delegation,
}

-- The entries after the loop: the same ones, each created at height zero.
abbrev pub Zeroed : {Others : Type 0} → List (Entry Others) → List (Entry Others) → Type 0
Zeroed [] [] = Unit
Zeroed [] (e' ∷ es') = ⊥
Zeroed (e ∷ es) [] = ⊥
Zeroed (e ∷ es) (e' ∷ es') = (e'.creation_height ≡ pos 0) × (e'.others ≡ e.others) × Zeroed es es'

-- An entry of the store before and after the loop; `seen` says if its owner was visited.
abbrev pub After :
    {Others : Type 0} → Bool → Option (List (Entry Others)) → Option (List (Entry Others)) → Type 0
After false old new = new ≡ old
After true none new = new ≡ none
After true (some es) none = ⊥
After true (some es) (some es') = Zeroed es es'

module _ {Others : Type 0} where
  map-Zeroed : (es : List (Entry Others)) → Zeroed es (map zero_entry es)
  map-Zeroed [] = tt
  map-Zeroed (e ∷ es) = (refl, refl, map-Zeroed es)

  abbrev zeroed : Option (List (Entry Others)) → Option (List (Entry Others))
  zeroed none = none
  zeroed (some es) = some (map zero_entry es)

  map_idem : (es : List (Entry Others)) → map zero_entry (map zero_entry es) ≡ map zero_entry es
  map_idem [] = refl
  map_idem (e ∷ es) = ap (λ l. zero_entry e ∷ l) (map_idem es)

  zeroed-After :
      (seen : Bool) (old : Option (List (Entry Others)))
      → After seen old (if seen then zeroed old else old)
  zeroed-After false old = refl
  zeroed-After true none = refl
  zeroed-After true (some es) = map-Zeroed es

module _ {World Owner Others : Type 0} (E : Type 0) (same : Owner → Owner → Bool)
    (stored : World → Owner → Option (List (Entry Others)))
    (put : Unbonding Owner Others → Call World (Unit {0})) where
  -- What a store of entries does: a write changes the entries of its owner and no others.
  pub record Stores : Type 0 where
    pub sames : (a b : Owner) → same a b ≡ true → a ≡ b
    pub puts :
        (u : Unbonding Owner Others) (w : World)
        → Returns E
            (λ _ w'.
              (o : Owner) → stored w' o ≡ (if same o u.owner then some u.entries else stored w o))
            (put u w)

  abbrev pub visited : Owner → List (Unbonding Owner Others) → Bool
  visited o [] = false
  visited o (u ∷ us) = same o u.owner || visited o us

  -- Is the list what the store holds for these owners, up to the heights?
  abbrev Matches : World → List (Unbonding Owner Others) → Type 0
  Matches w = All (λ u. zeroed (stored w u.owner) ≡ some (map zero_entry u.entries))

  -- The list is what the store holds for these owners.
  abbrev pub Holds : World → List (Unbonding Owner Others) → Type 0
  Holds w = All (λ u. stored w u.owner ≡ some u.entries)

  Holds-Matches : (w : World) (us : List (Unbonding Owner Others)) → Holds w us → Matches w us
  Holds-Matches w [] h = tt
  Holds-Matches w (u ∷ us) (e, h) = (ap zeroed e, Holds-Matches w us h)

  module _ (L : Stores) where
    abbrev Reset : List (Unbonding Owner Others) → World → World → Type 0
    Reset us w w' =
        (o : Owner) → stored w' o ≡ (if visited o us then zeroed (stored w o) else stored w o)

    put_zero :
        (u : Unbonding Owner Others) (w : World)
        → zeroed (stored w u.owner) ≡ some (map zero_entry u.entries)
        → Returns E
            (λ _ w'.
              (o : Owner)
              → stored w' o ≡ (if same o u.owner then zeroed (stored w o) else stored w o))
            (or_panic (put (zero_entries u)) w)
    unfolding zero_entries
    put_zero u w e =
        Returns-mono E (or_panic (put (zero_entries u)) w) _ _
          (Returns-panicked E (put (zero_entries u) w) _ (L.puts (zero_entries u) w))
          λ _ w' k o. elim (Bool-cases (same o u.owner)) [
            | inl p ↦ k o ∙ rw p (sym (ap (λ x. zeroed (stored w x)) (L.sames o u.owner p) ∙ e))
            | inr n ↦ k o ∙ rw n refl
          ]

    zeroed_idem : (o : Option (List (Entry Others))) → zeroed (zeroed o) ≡ zeroed o
    zeroed_idem none = refl
    zeroed_idem (some es) = ap some (map_idem es)

    moved-Matches :
        (b : Owner → Bool) (w w' : World) (us : List (Unbonding Owner Others))
        → ((o : Owner) → stored w' o ≡ (if b o then zeroed (stored w o) else stored w o))
        → Matches w us
        → Matches w' us
    moved-Matches b w w' [] k h = tt
    moved-Matches b w w' (u ∷ us) k (e, h) =
        (ground (arith, k u.owner, zeroed_idem (stored w u.owner)), moved-Matches b w w' us k h)

    pub put_all :
        (us : List (Unbonding Owner Others)) (w : World)
        → Matches w us
        → Returns E (λ _ w'. Reset us w w') (for_each (λ u. or_panic (put (zero_entries u))) us w)
    unfolding for_each
    put_all [] w h = λ o. refl
    put_all (u ∷ us) w (e, h) =
        Returns-follow E _ (or_panic (put (zero_entries u)) w) _ _ (put_zero u w e) λ _ w1 k1.
          Returns-mono E (for_each (λ u. or_panic (put (zero_entries u))) us w1) _ _
            (put_all us w1 (moved-Matches (λ o. same o u.owner) w w1 us k1 h))
            λ _ w2 k2 o. ground (arith, k1 o, k2 o, zeroed_idem (stored w o))

    pub put_all-After :
        (us : List (Unbonding Owner Others)) (w : World)
        → Holds w us
        → Returns E
            (λ _ w'. (o : Owner) → After (visited o us) (stored w o) (stored w' o))
            (for_each (λ u. or_panic (put (zero_entries u))) us w)
    put_all-After us w h =
        Returns-mono E (for_each (λ u. or_panic (put (zero_entries u))) us w) _ _
          (put_all us w (Holds-Matches w us h))
          λ _ w' k o. rw (k o) (zeroed-After (visited o us) (stored w o))

module _ {World : Type 0} (A : Codecs) (S : Staking World) (D : Distribution World)
    (log_error : Text → Call World (Unit {0})) (E : Type 0) (same : S.Owner → S.Owner → Bool)
    (stored : World → S.Owner → Option (List (Entry S.EntryOthers))) (h : Height) where
  -- After the loop over the redelegations that the store holds, each of them has its entries, in
  -- order, with the creation height zero and nothing else changed, and no other one has changed.
  pub for_each-reset_redelegation :
      (us : List (Unbonding S.Owner S.EntryOthers)) (w : World)
      → Stores E same stored (S.set_redelegation h)
      → Holds E same stored (S.set_redelegation h) w us
      → Returns E
          (λ _ w'.
            (o : S.Owner)
            → After (visited E same stored (S.set_redelegation h) o us) (stored w o) (stored w' o))
          (for_each (reset_redelegation A S D log_error h) us w)
  unfolding reset_redelegation
  for_each-reset_redelegation us w L k = put_all-After E same stored (S.set_redelegation h) L us w k

  -- After the loop over the unbonding delegations that the store holds, each of them has its entries,
  -- in order, with the creation height zero and nothing else changed, and no other one has changed.
  pub for_each-reset_unbonding_delegation :
      (us : List (Unbonding S.Owner S.EntryOthers)) (w : World)
      → Stores E same stored (S.set_unbonding_delegation h)
      → Holds E same stored (S.set_unbonding_delegation h) w us
      → Returns E
          (λ _ w'.
            (o : S.Owner)
            → After
                (visited E same stored (S.set_unbonding_delegation h) o us)
                (stored w o)
                (stored w' o))
          (for_each (reset_unbonding_delegation A S D log_error h) us w)
  unfolding reset_unbonding_delegation
  for_each-reset_unbonding_delegation us w L k =
      put_all-After E same stored (S.set_unbonding_delegation h) L us w k
