-- ===== src/Base/Text/Split.antt =====
-- `strings.Split` at one byte, the join that the code writes as a loop, and their round trip.
use Prim.Native.Nat.{ℕ}
use mathlib.Core.List.{List, [], ◌∷◌, ◌++◌, append-nil, append_assoc}
use mathlib.Core.Bool.{true, false}
use mathlib.Core.Path.{◌≡◌, refl}
use mathlib.Core.Logic.{◌≢◌}
use native.Mathlib.Omega.{arith}
use aegis_mirror.Base.Tests.{◌==◌}
use aegis_mirror.Base.Lists.{All}

module _ (sep : ℕ) where
  -- The bytes up to the next separator are gathered in `cur`.
  cut : List ℕ → List ℕ → List (List ℕ)
  cut [] cur = cur ∷ []
  cut (c ∷ s) cur = elim (c == sep) [ true ↦ cur ∷ cut s [] | false ↦ cut s (cur ++ c ∷ []) ]

  -- `strings.Split(s, sep)`
  unfoldable pub split : List ℕ → List (List ℕ)
  unfolding cut
  split s = cut s []

  -- The parts with a separator between each two: what `strings.Join` gives.
  unfoldable pub join : List (List ℕ) → List ℕ
  join [] = []
  join (p ∷ []) = p
  join (p ∷ q ∷ ps) = p ++ sep ∷ join (q ∷ ps)

  abbrev pub Lacks : List ℕ → Type 0
  Lacks = All (λ c. c ≢ sep)

  cut_last : (p cur : List ℕ) → Lacks p → cut p cur ≡ (cur ++ p) ∷ []
  unfolding cut
  cut_last [] cur h = simp append-nil
  cut_last (c ∷ p) cur h =
      ground (arith, cut_last p (cur ++ c ∷ []) h.1, append_assoc cur (c ∷ []) p)

  cut_at_sep :
      (p rest cur : List ℕ) → Lacks p → cut (p ++ sep ∷ rest) cur ≡ (cur ++ p) ∷ cut rest []
  unfolding cut
  cut_at_sep [] rest cur h = ground (arith, append-nil cur)
  cut_at_sep (c ∷ p) rest cur h =
      ground (arith, cut_at_sep p rest (cur ++ c ∷ []) h.1, append_assoc cur (c ∷ []) p)

  -- Splitting a join gives the parts back, where there is one and none holds the separator.
  pub split-join :
      (p : List ℕ) (ps : List (List ℕ)) → All Lacks (p ∷ ps) → split (join (p ∷ ps)) ≡ p ∷ ps
  unfolding split join cut
  split-join p [] h = cut_last p [] h.0
  split-join p (q ∷ ps) h = ground (arith, cut_at_sep p (join (q ∷ ps)) [] h.0, split-join q ps h.1)

  -- A text without the separator is one part, the empty text too.
  pub split_single : (p : List ℕ) → Lacks p → split p ≡ p ∷ []
  unfolding split
  split_single p h = cut_last p [] h

  pub join-ne-nil : (p : List ℕ) (ps : List (List ℕ)) → p ≢ [] → join (p ∷ ps) ≢ []
  unfolding join
  join-ne-nil [] ps ne = absurd (ne refl)
  join-ne-nil (c ∷ p) [] ne = λ e. cc
  join-ne-nil (c ∷ p) (q ∷ ps) ne = λ e. cc

  pub join-append_last :
      (p : List ℕ) (ps : List (List ℕ)) (q : List ℕ)
      → join (p ∷ (ps ++ q ∷ [])) ≡ join (p ∷ ps) ++ sep ∷ q
  unfolding join
  join-append_last p [] q = refl
  join-append_last p (r ∷ ps) q = simp (join-append_last r ps q, append_assoc)
