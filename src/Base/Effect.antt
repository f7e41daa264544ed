-- ===== src/Base/Effect.antt =====
-- Calls with an effect. `World` is whatever a call may change outside the program's own variables;
-- a call returns a value, returns an error, panics, or ends the process with a status.
use Prim.Native.Nat.{ℕ}
use mathlib.Core.List.{List, [], ◌∷◌}
use mathlib.Core.Option.{Option, none, some}
use mathlib.Core.Path.{◌≡◌, refl}
use aegis_mirror.Base.Lists.{get_elem?}
use aegis_mirror.Base.Text.{Text, codes}

-- Go's `error`, a panic's value and a message are their texts.
pub data Result (A : Type 0) : Type 0 where
  ok : A → Result A
  err : Text → Result A
  panic : Text → Result A
  exit : ℕ → Result A

module _ (World : Type 0) where
  abbrev pub Call : Type 0 → Type 0
  Call A = World → Result A × World

module _ {World : Type 0} where
  abbrev pub pure : {A : Type 0} → A → Call World A
  pure a w = (ok a, w)

  abbrev pub raise : {A : Type 0} → Text → Call World A
  raise e w = (err e, w)

  abbrev pub panic_with : {A : Type 0} → Text → Call World A
  panic_with e w = (panic e, w)

  abbrev pub follow : {A B : Type 0} → (A → Call World B) → Result A × World → Result B × World
  follow f (ok a, w) = f a w
  follow f (err e, w) = (err e, w)
  follow f (panic e, w) = (panic e, w)
  follow f (exit n, w) = (exit n, w)

  -- `x, err := m; if err != nil { return err }`, then the rest.
  infixl 5 ◌>>=◌ ◌>>◌
  abbrev pub ◌>>=◌ : {A B : Type 0} → Call World A → (A → Call World B) → Call World B
  ◌>>=◌ m f w = follow f (m w)

  abbrev pub ◌>>◌ : {A B : Type 0} → Call World A → Call World B → Call World B
  m >> k = m >>= λ _. k

  abbrev pub panicked : {A : Type 0} → Result A × World → Result A × World
  panicked (err e, w) = (panic e, w)
  panicked (ok a, w) = (ok a, w)
  panicked (panic e, w) = (panic e, w)
  panicked (exit n, w) = (exit n, w)

  -- `x, err := m; if err != nil { panic(err) }`
  abbrev pub or_panic : {A : Type 0} → Call World A → Call World A
  or_panic m w = panicked (m w)

  abbrev pub panicked_as : {A : Type 0} → (Text → Text) → Result A × World → Result A × World
  panicked_as f (err e, w) = (panic (f e), w)
  panicked_as f (ok a, w) = (ok a, w)
  panicked_as f (panic e, w) = (panic e, w)
  panicked_as f (exit n, w) = (exit n, w)

  -- The same, with a panic value made from the error.
  abbrev pub or_panic_as : {A : Type 0} → (Text → Text) → Call World A → Call World A
  or_panic_as f m w = panicked_as f (m w)

  abbrev pub forgotten : {A : Type 0} → Result A × World → Result (Unit {0}) × World
  forgotten (err e, w) = (ok tt, w)
  forgotten (ok a, w) = (ok tt, w)
  forgotten (panic e, w) = (panic e, w)
  forgotten (exit n, w) = (exit n, w)

  -- `_, _ = m`
  abbrev pub ignore : {A : Type 0} → Call World A → Call World (Unit {0})
  ignore m w = forgotten (m w)

  abbrev pub tried : {A : Type 0} → Result A × World → Result (Result A) × World
  tried (err e, w) = (ok (err e), w)
  tried (ok a, w) = (ok (ok a), w)
  tried (panic e, w) = (panic e, w)
  tried (exit n, w) = (exit n, w)

  -- A pure function that may fail, at its place among the calls.
  abbrev pub or_raise : {A : Type 0} → Option A → Text → Call World A
  or_raise none e w = (err e, w)
  or_raise (some a) e w = (ok a, w)

  -- `s[i]` of a slice, which panics out of range.
  abbrev pub in_range : {A : Type 0} → Option A → Call World A
  in_range none = panic_with (codes "index out of range")
  in_range (some x) = pure x

  abbrev pub index : {A : Type 0} → List A → ℕ → Call World A
  index xs i = in_range (get_elem? xs i)

  -- `for _, x := range xs { body(x) }`: the first call that does not return `ok` ends the loop.
  unfoldable pub for_each :
      {A : Type 0} → (A → Call World (Unit {0})) → List A → Call World (Unit {0})
  for_each body [] = pure tt
  for_each body (x ∷ xs) = body x >> for_each body xs

  -- `Q` holds of the value and the world when the call returns `ok`, and `E` when it does not: with
  -- `E` the unit type this is a statement on success only, with the empty type it also says that the
  -- call succeeds.
  abbrev pub Returns : {A : Type 0} → Type 0 → (A → World → Type 0) → Result A × World → Type 0
  Returns E Q (ok a, w) = Q a w
  Returns E Q _ = E

  -- Two continuations that agree everywhere give the same call.
  pub follow-ext :
      {A B : Type 0} (f g : A → Call World B) (r : Result A × World)
      → ((a : A) (w : World) → f a w ≡ g a w)
      → follow f r ≡ follow g r
  follow-ext f g (ok a, w) h = h a w
  follow-ext f g (err e, w) h = refl
  follow-ext f g (panic e, w) h = refl
  follow-ext f g (exit n, w) h = refl

module _ {World : Type 0} (E : Type 0) where
  pub Returns-follow :
      {A B : Type 0} (f : A → Call World B) (r : Result A × World) (P : A → World → Type 0)
      (Q : B → World → Type 0)
      → Returns E P r
      → ((a : A) (w : World) → P a w → Returns E Q (f a w))
      → Returns E Q (follow f r)
  Returns-follow f (ok a, w) P Q h k = k a w h
  Returns-follow f (err e, w) P Q h k = h
  Returns-follow f (panic e, w) P Q h k = h
  Returns-follow f (exit n, w) P Q h k = h

  -- The rest of a call is what its first part has to establish.
  pub Returns-bind :
      {A B : Type 0} (f : A → Call World B) (r : Result A × World) (Q : B → World → Type 0)
      → Returns E (λ a w. Returns E Q (f a w)) r
      → Returns E Q (follow f r)
  Returns-bind f (ok a, w) Q h = h
  Returns-bind f (err e, w) Q h = h
  Returns-bind f (panic e, w) Q h = h
  Returns-bind f (exit n, w) Q h = h

  pub Returns-panicked :
      {A : Type 0} (r : Result A × World) (Q : A → World → Type 0)
      → Returns E Q r
      → Returns E Q (panicked r)
  Returns-panicked (ok a, w) Q h = h
  Returns-panicked (err e, w) Q h = h
  Returns-panicked (panic e, w) Q h = h
  Returns-panicked (exit n, w) Q h = h

  pub Returns-panicked_as :
      {A : Type 0} (f : Text → Text) (r : Result A × World) (Q : A → World → Type 0)
      → Returns E Q r
      → Returns E Q (panicked_as f r)
  Returns-panicked_as f (ok a, w) Q h = h
  Returns-panicked_as f (err e, w) Q h = h
  Returns-panicked_as f (panic e, w) Q h = h
  Returns-panicked_as f (exit n, w) Q h = h

  pub Returns-mono :
      {A : Type 0} (r : Result A × World) (P Q : A → World → Type 0)
      → Returns E P r
      → ((a : A) (w : World) → P a w → Q a w)
      → Returns E Q r
  Returns-mono (ok a, w) P Q h k = k a w h
  Returns-mono (err e, w) P Q h k = h
  Returns-mono (panic e, w) P Q h k = h
  Returns-mono (exit n, w) P Q h k = h

  -- The call succeeds, unless `E`.
  abbrev pub Fine : {A : Type 0} → Result A × World → Type 0
  Fine r = Returns E (λ _ _. Unit) r

  -- A call that succeeds, and then the rest.
  pub Returns-then :
      {A B : Type 0} (f : A → Call World B) (r : Result A × World) (Q : B → World → Type 0)
      → Fine r
      → ((a : A) (w : World) → Returns E Q (f a w))
      → Returns E Q (follow f r)
  Returns-then f r Q h k = Returns-follow f r (λ _ _. Unit) Q h λ a w _. k a w

  pub panicked-Fine : {A : Type 0} (r : Result A × World) → Fine r → Fine (panicked r)
  panicked-Fine r h = Returns-panicked r (λ _ _. Unit) h

  -- Two statements on one call.
  pub Returns-both :
      {A : Type 0} (r : Result A × World) (P Q : A → World → Type 0)
      → Returns E P r
      → Returns E Q r
      → Returns E (λ a w. P a w × Q a w) r
  Returns-both (ok a, w) P Q p q = (p, q)
  Returns-both (err e, w) P Q p q = p
  Returns-both (panic e, w) P Q p q = p
  Returns-both (exit n, w) P Q p q = p

  -- A loop keeps what each round keeps.
  pub Returns-for_each :
      {A : Type 0} (body : A → Call World (Unit {0})) (I : World → Type 0)
      → ((a : A) (w : World) → I w → Returns E (λ _ w'. I w') (body a w))
      → (xs : List A) (w : World) → I w
      → Returns E (λ _ w'. I w') (for_each body xs w)
  unfolding for_each
  Returns-for_each body I k [] w h = h
  Returns-for_each body I k (x ∷ xs) w h =
      Returns-follow _ (body x w) _ _ (k x w h) λ _ w' h'. Returns-for_each body I k xs w' h'

module _ {World : Type 0} where
  -- The call does not return `ok`.
  abbrev pub Never : {A : Type 0} → Result A × World → Type 0
  Never r = Returns (Unit {0}) (λ _ _. ⊥) r

  pub Never-follow :
      {A B : Type 0} (f : A → Call World B) (r : Result A × World)
      → ((a : A) (w : World) → Never (f a w))
      → Never (follow f r)
  Never-follow f (ok a, w) k = k a w
  Never-follow f (err e, w) k = tt
  Never-follow f (panic e, w) k = tt
  Never-follow f (exit n, w) k = tt
