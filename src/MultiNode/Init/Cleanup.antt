-- ===== src/MultiNode/Init/Cleanup.antt =====
-- Where `initTestnetFiles` removes the output directory before it returns an error.
use aegis_mirror.Base.{ℕ, ◌≡◌, refl, List, get_elem?, Option-cases, inl, inr}
use aegis_mirror.Base.Effect.{Result, ok, err, panic, exit, Call, follow, index}
use aegis_mirror.MultiNode.Args.{InitArgs}
use aegis_mirror.MultiNode.Sdk.{Os, CoinOps, Keys, Configs}
use aegis_mirror.MultiNode.Init.Node.{State, cleaned, or_clean_up, init_node}

module _ {World : Type 0} where
  -- If the call ends with an error, then in a world where `P` holds.
  abbrev pub Fails : {A : Type 0} → (World → Type 0) → Result A × World → Type 0
  Fails P (err e, w) = P w
  Fails P (ok a, w) = Unit
  Fails P (panic e, w) = Unit
  Fails P (exit n, w) = Unit

  Fails-follow :
      {A B : Type 0} (P : World → Type 0) (f : A → Call World B) (r : Result A × World)
      → Fails P r
      → ((a : A) (w : World) → Fails P (f a w))
      → Fails P (follow f r)
  Fails-follow P f (ok a, w) h k = k a w
  Fails-follow P f (err e, w) h k = h
  Fails-follow P f (panic e, w) h k = tt
  Fails-follow P f (exit n, w) h k = tt

  index-Fails :
      {A : Type 0} (P : World → Type 0) (xs : List A) (i : ℕ) (w : World) → Fails P (index xs i w)
  index-Fails P xs i w = elim (Option-cases (get_elem? xs i)) [
    | inl e ↦ rw e tt
    | inr (a, e) ↦ rw e tt
  ]

module _ {World Coin : Type 0} (O : Os World) (N : CoinOps World Coin) (K : Keys World Coin)
    (C : Configs World) (args : InitArgs Coin) where
  -- The world is what the removal of the output directory leaves.
  abbrev pub IsRemoved : World → Type 0
  IsRemoved w = (w0 : World) × (w ≡ (O.remove_all args.output_dir w0).1)

  cleaned-Fails : {A : Type 0} (r : Result A × World) → Fails IsRemoved (cleaned O N K C args r)
  cleaned-Fails (err e, w) = (w, refl)
  cleaned-Fails (ok a, w) = tt
  cleaned-Fails (panic e, w) = tt
  cleaned-Fails (exit n, w) = tt

  -- With whatever error the part of a round that makes the node's directories and keys ends, the
  -- output directory has been removed last.
  pub init_node-Fails :
      (i : ℕ) (s : State O N K C args) (w : World) → Fails IsRemoved (init_node O N K C args i s w)
  unfolding init_node or_clean_up
  init_node-Fails i s w = Fails-follow IsRemoved _ _ (cleaned-Fails (O.mkdir_all _ 0o755 w)) λ _ w1.
      Fails-follow IsRemoved _ _ (cleaned-Fails (K.initialize_node_validator_files _ w1))
        λ (id, key) w2.
          Fails-follow IsRemoved _ _
            (Fails-follow IsRemoved _ _ (index-Fails IsRemoved s.node_ids i w2) λ _ w3. tt)
            λ ids w4.
              Fails-follow IsRemoved _ _
                (Fails-follow IsRemoved _ _ (index-Fails IsRemoved s.val_pub_keys i w4) λ _ w5. tt)
                λ keys w6. tt
