-- ===== src/App/New/Stores.antt =====
-- Which stores `New` mounts.
use aegis_mirror.Base.{
  ◌≡◌, refl, ap, ◌∙◌, Bool, true, false, ◌||◌, Option, some, List, [], ◌∷◌, arith, map,
  if◌then◌else◌,
}
use mathlib.Core.Logic.{ite}
use aegis_mirror.Base.Text.{Text}
use aegis_mirror.Base.Effect.{
  Result, Call, follow, or_panic, for_each, Returns, Returns-follow, Returns-mono, Returns-panicked,
}
use aegis_mirror.Accounts.ModuleAccounts.{TextMap}
use aegis_mirror.App.Wiring.{
  StoreType, store_type_db, store_type_transient, Options, StoreNames, Parts, Injected, EvmArgs,
  WiringOps,
}
use aegis_mirror.App.New.{StoreKeys, new_keys, mount_all, add_evm, new}

module _ {World : Type 0} (T : Parts) (O : WiringOps T World) (N : StoreNames) (E : Type 0)
    (dec : Discrete T.Key) (mounted : World → T.Key → Option StoreType)
    (base : T.Key → Option StoreType) (kv_key transient_key : Text → T.Key) where
  abbrev pub among : T.Key → List T.Key → Bool
  among k [] = false
  among k (j ∷ js) = ite (dec k j) true false || among k js

  -- Is the key a value of the map?
  abbrev pub held : T.Key → List (Text × T.Key) → Bool
  held k [] = false
  held k ((n, j) ∷ m) = ite (dec k j) true false || held k m

  -- The call leaves the mounted stores as they are.
  abbrev pub Keeps : {A : Type 0} → Call World A → Type 0
  Keeps c = (w : World) → Returns E (λ _ w'. mounted w' ≡ mounted w) (c w)

  -- The store types and keys of the two groups.
  abbrev pub kv_keys : List T.Key
  kv_keys = map kv_key (N.evm ∷ N.feemarket ∷ N.erc20 ∷ N.precisebank ∷ [])

  abbrev pub transient_keys : List T.Key
  transient_keys = map transient_key (N.evm_transient ∷ N.feemarket_transient ∷ [])

  -- What the calls do to the mounted stores: the base application mounts its own, `MountStore` one
  -- more, and the others none; `range` visits every value of a map, in some order.
  pub record Mounts : Type 1 where
    pub injects : (o : Options T.Others) → Keeps (O.inject o)
    pub kv_keys_made :
        (names : List Text) (w : World)
        → Returns E
            (λ m w'.
              (mounted w' ≡ mounted w) × ((k : T.Key) → held k m ≡ among k (map kv_key names)))
            (O.new_kv_store_keys names w)
    pub transient_keys_made :
        (names : List Text) (w : World)
        → Returns E
            (λ m w'.
              (mounted w' ≡ mounted w)
              × ((k : T.Key) → held k m ≡ among k (map transient_key names)))
            (O.new_transient_store_keys names w)
    pub builds :
        (b : T.Builder) (o : List T.BaseOption) (w : World)
        → Returns E (λ _ w'. mounted w' ≡ base) (O.build b o w)
    pub ranges :
        (m : TextMap T.Key) (w : World)
        → Returns E
            (λ es w'. (mounted w' ≡ mounted w) × ((k : T.Key) → held k es ≡ held k m))
            (O.range_map m w)
    pub mounts :
        (a : T.Runtime) (j : T.Key) (t : StoreType) (w : World)
        → Returns E
            (λ _ w'. (k : T.Key) → mounted w' k ≡ ite (dec k j) (some t) (mounted w k))
            (O.mount_store a j t w)
    pub fee_market :
        (c : T.Codec) (a : T.Address) (k t : Option T.Key) → Keeps (O.new_fee_market_keeper c a k t)
    pub precise_bank :
        (c : T.Codec) (k : Option T.Key) (b : T.Bank) (a : T.Auth)
        → Keeps (O.new_precise_bank_keeper c k b a)
    pub evm : (a : EvmArgs T) → Keeps (O.new_evm_keeper a)
    pub erc20 :
        (k : Option T.Key) (c : T.Codec) (d : T.Address) (a : T.Auth) (b : T.Bank) (e : T.Evm)
        (s : T.Staking)
        → Keeps (O.new_erc20_keeper k c d a b e s)
    pub vm_module : (e : T.Evm) (a : T.Auth) (b : T.Bank) → Keeps (O.new_vm_module e a b)
    pub fee_market_module : (f : T.FeeMarket) → Keeps (O.new_fee_market_module f)
    pub erc20_module : (e : T.Erc20) (a : T.Auth) → Keeps (O.new_erc20_module e a)
    pub precise_bank_module :
        (p : T.PreciseBank) (b : T.Bank) (a : T.Auth) → Keeps (O.new_precise_bank_module p b a)
    pub simulation : (a : T.Runtime) → Keeps (O.new_simulation_manager a)
    pub decoders : (s : T.Simulation) → Keeps (O.register_store_decoders s)
    pub loads : (a : T.Runtime) (b : Bool) → Keeps (O.load a b)

  module _ (L : Mounts) where
    pub new_keys_lem :
        (w : World)
        → Returns E
            (λ keys _.
              ((k : T.Key) → held k keys.store_keys ≡ among k kv_keys)
              × ((k : T.Key) → held k keys.transient_keys ≡ among k transient_keys))
            (new_keys T O N w)
    unfolding new_keys
    new_keys_lem w =
        Returns-follow E _ (O.new_kv_store_keys _ w) _ _ (L.kv_keys_made _ w) λ m w1 (e1, h1).
          Returns-follow E _ (O.new_transient_store_keys _ w1) _ _ (L.transient_keys_made _ w1)
            λ t w2 (e2, h2). (h1, h2)

    mount_entries :
        (a : T.Runtime) (t : StoreType) (es : List (Text × T.Key)) (w : World)
        → Returns E
            (λ _ w'. (k : T.Key) → mounted w' k ≡ (if held k es then some t else mounted w k))
            (for_each (λ e. O.mount_store a e.1 t) es w)
    unfolding for_each
    mount_entries a t [] w = λ k. refl
    mount_entries a t ((n, j) ∷ es) w =
        Returns-follow E _ (O.mount_store a j t w) _ _ (L.mounts a j t w) λ _ w1 h1.
          Returns-mono E (for_each (λ e. O.mount_store a e.1 t) es w1) _ _ (mount_entries a t es w1)
            λ _ w2 h2 k. ground (arith, h1 k, h2 k)

    pub mount_all_lem :
        (a : T.Runtime) (t : StoreType) (m : TextMap T.Key) (w : World)
        → Returns E
            (λ _ w'. (k : T.Key) → mounted w' k ≡ (if held k m then some t else mounted w k))
            (mount_all T O N a t m w)
    unfolding mount_all
    mount_all_lem a t m w =
        Returns-follow E _ (O.range_map m w) _ _ (L.ranges m w) λ es w1 (e1, h1).
          Returns-mono E (for_each (λ e. O.mount_store a e.1 t) es w1) _ _ (mount_entries a t es w1)
            λ _ w2 h2 k.
              h2 k ∙ rw (h1 k) (ap (λ x. if held k m then some t else x) (ap (λ f. f k) e1))

    -- A call that leaves the stores as they are, and then the rest.
    keep_then :
        {A B : Type 0} (f : A → Call World B) (r : Result A × World) (w : World)
        → Returns E (λ _ w'. mounted w' ≡ mounted w) r
        → ((a : A) (w1 : World) → Returns E (λ _ w'. mounted w' ≡ mounted w1) (f a w1))
        → Returns E (λ _ w'. mounted w' ≡ mounted w) (follow f r)
    keep_then f r w h k =
        Returns-follow E f r _ _ h λ a w1 e. Returns-mono E (f a w1) _ _ (k a w1) λ _ w2 e2. e2 ∙ e

    pub add_evm-Keeps :
        (o : Options T.Others) (i : Injected T) (keys : StoreKeys T O N) (a : T.Runtime)
        → Keeps (add_evm T O N o i keys a)
    unfolding add_evm
    add_evm-Keeps o i keys a w = keep_then _ _ w (L.fee_market _ _ _ _ w) λ f w1.
        keep_then _ _ w1 (L.precise_bank _ _ _ _ w1) λ p w2.
          keep_then _ _ w2
            (Returns-mono E (O.range_map keys.store_keys w2) _ _ (L.ranges keys.store_keys w2)
              λ _ w' h. h.0)
            λ es w3. keep_then _ _ w3 (L.evm _ w3) λ e w4.
              keep_then _ _ w4 (L.erc20 _ _ _ _ _ _ _ w4) λ c w5.
                keep_then _ _ w5 (L.vm_module _ _ _ w5) λ _ w6.
                  keep_then _ _ w6 (L.fee_market_module _ w6) λ _ w7.
                    keep_then _ _ w7 (L.erc20_module _ _ w7) λ _ w8.
                      keep_then _ _ w8 (L.precise_bank_module _ _ _ w8) λ _ w9.
                        keep_then _ _ w9 (L.simulation _ w9)
                          λ s w10. keep_then _ _ w10 (L.decoders _ w10) λ _ w11. refl

    -- After `New` the transient store keys are mounted as transient stores, the four KV store keys of
    -- the EVM's modules as stores of the database, and every other key as the base application left
    -- it, in whatever order the maps of keys are visited.
    pub new-mounted :
        (load_latest : Bool) (o : Options T.Others) (options : List T.BaseOption) (w : World)
        → Returns E
            (λ _ w'.
              (k : T.Key)
              → mounted w' k ≡ (
                  if among k transient_keys
                  then some store_type_transient
                  else if among k kv_keys
                  then some store_type_db
                  else base k))
            (new T O N load_latest o options w)
    unfolding new
    new-mounted load_latest o options w =
        Returns-follow E _ (or_panic (O.inject o) w) _ _
          (Returns-panicked E (O.inject o w) _ (L.injects o w))
          λ i w1 e1.
            Returns-follow E _ (new_keys T O N w1) _ _ (new_keys_lem w1) λ keys w2 (hk, ht).
              Returns-follow E _ (O.build i.app_builder _ w2) _ _ (L.builds i.app_builder _ w2)
                λ a w3 e3.
                  Returns-follow E _ (mount_all T O N a store_type_db keys.store_keys w3) _ _
                    (mount_all_lem a store_type_db keys.store_keys w3)
                    λ _ w4 h4.
                      Returns-follow E _
                        (mount_all T O N a store_type_transient keys.transient_keys w4) _ _
                        (mount_all_lem a store_type_transient keys.transient_keys w4)
                        λ _ w5 h5.
                          Returns-follow E _ (add_evm T O N o i keys a w5) _ _
                            (add_evm-Keeps o i keys a w5)
                            λ app w6 e6.
                              Returns-follow E _ (or_panic (O.load a load_latest) w6) _ _
                                (Returns-panicked E (O.load a load_latest w6) _
                                  (L.loads a load_latest w6))
                                λ _ w7 e7 k.
                                  ap (λ f. f k) (e7 ∙ e6)
                                  ∙ h5 k
                                  ∙ rw (ht k, h4 k, hk k)
                                      (ap
                                        (λ f.
                                          if among k transient_keys
                                          then some store_type_transient
                                          else if among k kv_keys
                                          then some store_type_db
                                          else f k)
                                        e3)
