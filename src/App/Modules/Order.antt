-- ===== src/App/Modules/Order.antt =====
-- Which modules the runtime's lists name, and in which order.
use aegis_mirror.Base.{◌≡◌, refl, true, List, [], ◌∷◌, ◌++◌, arith, map, All}
use aegis_mirror.Base.Text.{Text, codes, text_eq_iff}
use aegis_mirror.Accounts.ModuleAccounts.{Names, listed}
use aegis_mirror.App.Modules.{
  ModuleNames, ModuleConfig, RuntimeModule, StoreKeyConfig, runtime_module, app_config,
}

-- What the runtime needs of its lists: every name is that of a module, and the genesis of `genutil`
-- comes last, behind those of `staking` and `auth`.
pub record IsWired (modules : List Text) (auth staking genutil : Text) (r : RuntimeModule)
    : Type 0 where
  pub pre_blockers : All (λ n. listed n modules ≡ true) r.pre_blockers
  pub begin_blockers : All (λ n. listed n modules ≡ true) r.begin_blockers
  pub end_blockers : All (λ n. listed n modules ≡ true) r.end_blockers
  pub init_genesis : All (λ n. listed n modules ≡ true) r.init_genesis
  pub store_keys :
      All (λ (c : StoreKeyConfig). listed c.module_name modules ≡ true) r.override_store_keys
  pub genutil_last :
      (front : List Text) × (r.init_genesis ≡ front ++ genutil ∷ [])
      × (listed staking front ≡ true)
      × (listed auth front ≡ true)

-- A text that stands behind some others is in the list.
listed_behind : (a : Text) (front back : List Text) → listed a (front ++ a ∷ back) ≡ true
unfolding listed
listed_behind a [] back = rw ((text_eq_iff a a).1 refl) refl
listed_behind a (x ∷ front) back = ground (arith, listed_behind a front back)

module _ (N : Names) (M : ModuleNames) where
  -- In the application's configuration every list of the runtime names configured modules only, and
  -- the genesis of `genutil` comes last, behind those of `staking` and `auth`.
  pub runtime_module-IsWired :
      IsWired
        (map (λ (c : ModuleConfig). c.name) (app_config N M))
        M.auth
        N.staking
        M.genutil
        (runtime_module N M)
  unfolding app_config runtime_module
  runtime_module-IsWired =
      let tail = N.distribution ∷ M.consensus ∷ [] in
      let from_staking = N.staking ∷ codes "tx" ∷ M.genutil ∷ tail in
      let to_staking = M.runtime ∷ M.auth ∷ M.bank ∷ N.staking ∷ codes "tx" ∷ [] in
      let auth = listed_behind M.auth (M.runtime ∷ []) (M.bank ∷ from_staking) in
      let bank = listed_behind M.bank (M.runtime ∷ M.auth ∷ []) from_staking in
      let staking =
        listed_behind N.staking (M.runtime ∷ M.auth ∷ M.bank ∷ [])
          (codes "tx" ∷ M.genutil ∷ tail) in
      let genutil = listed_behind M.genutil to_staking tail in
      let distribution =
        listed_behind N.distribution (to_staking ++ M.genutil ∷ []) (M.consensus ∷ []) in
      let consensus =
        listed_behind M.consensus (to_staking ++ M.genutil ∷ N.distribution ∷ []) [] in
      let first = M.consensus ∷ M.auth ∷ M.bank ∷ N.distribution ∷ [] in
      record {
        pre_blockers = (auth, tt);
        begin_blockers = (distribution, (staking, tt));
        end_blockers = (staking, tt);
        init_genesis = (consensus, (auth, (bank, (distribution, (staking, (genutil, tt))))));
        store_keys = (auth, tt);
        genutil_last = (
          first ++ N.staking ∷ [],
          refl,
          listed_behind N.staking first [],
          listed_behind M.auth (M.consensus ∷ []) (M.bank ∷ N.distribution ∷ N.staking ∷ []),
        );
      }
