-- ===== src/Tests/Nodes.antt =====
-- The files of the `multi-node` command: one genesis state, the supply and the file handles.
use mathlib.Core.Logic.{ite, if_neg}
use aegis_mirror.Base.{
  ℕ, ◌+◌, ◌≡◌, ◌≢◌, refl, Bool, true, false, Option, none, some, List, [], ◌∷◌, arith,
}
use aegis_mirror.Base.Int.{pos}
use aegis_mirror.Base.Text.{Text, codes}
use aegis_mirror.Base.Effect.{Result, ok, err, Returns}
use aegis_mirror.Base.Paths.{FilePath, FilePath-discrete, join_path}
use aegis_mirror.MultiNode.Config.{NodeConfig, AppConfig}
use aegis_mirror.MultiNode.Sdk.{Os, Balance, Configs}
use aegis_mirror.MultiNode.Files.{copy_file}
use aegis_mirror.MultiNode.Files.Handles.{Opens, TracksFiles, is_open-copy_file}
use aegis_mirror.MultiNode.Genesis.{BankGenesis, GenesisOps, set_balances}
use aegis_mirror.MultiNode.Genesis.Supply.{balances_amount, set_balances-supply}
use aegis_mirror.MultiNode.Collect.{GenutilOps, node_dir, collect_rounds}
use aegis_mirror.MultiNode.Collect.Canonical.{WritesGenesis, collect_rounds-same_genesis}

abbrev root : FilePath
root = record { rooted = true; elems = [] }

abbrev blank_config : NodeConfig
blank_config = record {
  root_dir = root;
  moniker = [];
  rpc_listen_address = [];
  persistent_peers = [];
  allow_duplicate_ip = false;
  p2p_listen_address = [];
  proxy_app = [];
  prometheus_listen_addr = [];
  prometheus = false;
}

abbrev blank_app_config : AppConfig
blank_app_config = record {
  min_gas_prices = [];
  api_enable = true;
  api_address = [];
  grpc_address = [];
  enable_hostname_label = true;
  telemetry_enabled = true;
  prometheus_retention_time = pos 60;
}

-- A world of genesis files, each with its chain id, its state and its time.
abbrev Files : Type 0
Files = FilePath → Option (Text × Option ℕ × ℕ)

abbrev genesis_of : FilePath → FilePath
genesis_of d = join_path d (codes "genesis.json")

abbrev configs : Configs Files
configs = record {
  set_root = λ d c. record c { root_dir = d };
  genesis_file = λ c. genesis_of c.root_dir;
  default_app_config = blank_app_config;
  write_app_config = λ f c w. (ok tt, w);
  write_node_config = λ f c w. (ok tt, w);
}

abbrev genutil : GenutilOps Files ℕ ℕ
genutil = record {
  Json = ℕ;
  AppGenesis = FilePath;
  app_genesis_from_file = λ f w. (ok f, w);
  gen_app_state_from_config = λ c i g w. (
    ok (some 7),
    λ f. ite (FilePath-discrete f (genesis_of c.root_dir)) (some (codes "other", some 8, 0)) (w f),
  );
  export_genesis_file_with_time =
      λ f id s t w. (ok tt, λ g. ite (FilePath-discrete g f) (some (id, s, t)) (w g));
}

exports-files :
    (f : FilePath) (id : Text) (s : Option ℕ) (t : ℕ) (w : Files)
    → let w' : Files = λ g. ite (FilePath-discrete g f) (some (id, s, t)) (w g) in
      (w' f ≡ some (id, s, t)) × ((g : FilePath) → g ≢ f → w' g ≡ w g)
exports-files f id s t w = (ground arith, λ g ne. ground arith)

genutil-WritesGenesis : WritesGenesis configs genutil ⊥ (λ w. w) genesis_of
genutil-WritesGenesis = record {
  root_dir-set_root = λ d c. refl;
  genesis_file = λ c. refl;
  reads = λ f w. refl;
  generates =
      λ c i g w. (λ e. cc, λ f ne. if_neg (FilePath-discrete f (genesis_of c.root_dir)) ne _ _);
  configures = λ f c w. refl;
  exports = λ f id s t w. exports-files f id s t w;
}

collect_rounds-same_genesis_example :
    Returns ⊥
      (λ (c', s) w'.
        w' (genesis_of (node_dir (codes "out") (codes "node") 1)) ≡ some (codes "chain", s, 5))
      (collect_rounds configs genutil
        (codes "chain")
        (codes "out")
        (codes "node")
        []
        []
        (codes "a" ∷ codes "b" ∷ [])
        (some 1 ∷ some 2 ∷ [])
        5
        2
        0
        (blank_config, none)
        (λ f. none))
collect_rounds-same_genesis_example =
    collect_rounds-same_genesis configs genutil (λ w. w) genesis_of genutil-WritesGenesis
      (codes "chain") (codes "out") (codes "node") [] [] (codes "a" ∷ codes "b" ∷ [])
      (some 1 ∷ some 2 ∷ []) 5 2 1 blank_config (λ f. none) (omega arith) (omega arith)
      (omega arith)

-- A system with two files, which opens one that is closed, if there is one. The copy of the content
-- fails, and so does `Close`.
abbrev Handles : Type 0
Handles = Bool × Bool

abbrev is_open : Handles → Bool → Bool
is_open w false = w.0
is_open w true = w.1

abbrev opened : Handles → Result Bool × Handles
opened (false, b) = (ok false, (true, b))
opened (true, false) = (ok true, (true, true))
opened (true, true) = (err (codes "too many open files"), (true, true))

abbrev closed : Bool → Handles → Handles
closed false w = (false, w.1)
closed true w = (w.0, false)

abbrev two_files : Os Handles
two_files = record {
  File = Bool;
  Time = Unit {0};
  getwd = λ w. (ok root, w);
  mkdir_all = λ p m w. (ok tt, w);
  remove_all = λ p w. (ok tt, w);
  write_file = λ p t m w. (ok tt, w);
  open_file = λ p w. opened w;
  create_file = λ p w. opened w;
  copy_content = λ d s w. (err (codes "no space"), w);
  sync_file = λ f w. (ok tt, w);
  close_file = λ f w. (err (codes "no space"), closed f w);
  now = λ w. (ok tt, w);
  max_length = 17592186044416;
  intn = λ n w. (ok 0, w);
  print_err = λ t w. (ok tt, w);
  quoted = λ p. [];
}

bool_discrete : Discrete Bool
bool_discrete false false = yes refl
bool_discrete false true = no λ e. cc
bool_discrete true false = no λ e. cc
bool_discrete true true = yes refl

opened-Opens : (w : Handles) → Opens two_files bool_discrete is_open w (opened w)
opened-Opens (false, b) = (record { fresh = refl; others = other }, refl)
  where
    other : (g : Bool) → g ≢ false → is_open (true, b) g ≡ is_open (false, b) g
    other false ne = absurd (ne refl)
    other true ne = refl
opened-Opens (true, false) = (record { fresh = refl; others = other }, refl)
  where
    other : (g : Bool) → g ≢ true → is_open (true, true) g ≡ is_open (true, false) g
    other false ne = refl
    other true ne = absurd (ne refl)
opened-Opens (true, true) = λ g. refl

closed_lem : (f : Bool) (w : Handles) → is_open (closed f w) f ≡ false
closed_lem false w = refl
closed_lem true w = refl

unclosed_lem : (f g : Bool) (w : Handles) → g ≢ f → is_open (closed f w) g ≡ is_open w g
unclosed_lem false false w ne = absurd (ne refl)
unclosed_lem false true w ne = refl
unclosed_lem true false w ne = refl
unclosed_lem true true w ne = absurd (ne refl)

two_files-TracksFiles : TracksFiles two_files bool_discrete is_open
two_files-TracksFiles = record {
  open_file = λ p w. opened-Opens w;
  create_file = λ p w. opened-Opens w;
  copy_content = λ d s w g. refl;
  sync_file = λ f w g. refl;
  closed = closed_lem;
  unclosed = unclosed_lem;
}

is_open-copy_file_example : is_open (copy_file two_files root root (false, false)).1 true ≡ false
is_open-copy_file_example =
    is_open-copy_file two_files bool_discrete is_open two_files-TracksFiles root root (false, false)
      true

abbrev total : List ℕ → ℕ
total [] = 0
total (n ∷ l) = n + total l

-- Genesis states that are their bank's, with coins of one denomination.
abbrev bank : GenesisOps (Unit {0}) ℕ ℕ
bank = record {
  Coins = ℕ;
  AppGenState = BankGenesis ℕ ℕ;
  AuthGenesis = Unit {0};
  Accounts = Unit {0};
  Json = Unit {0};
  GenesisDoc = Unit {0};
  default_genesis = record { balances = []; supply = 0 };
  auth_state = λ s w. (ok tt, w);
  pack_accounts = λ l w. (ok tt, w);
  set_accounts = λ a s. tt;
  put_auth_state = λ a s w. (ok s, w);
  bank_state = λ s w. (ok s, w);
  put_bank_state = λ b s w. (ok b, w);
  sanitize_genesis_balances = λ b. b;
  add_coins = λ c l. c + total l;
  marshal_indent = λ s w. (ok tt, w);
  genesis_doc = λ id j. tt;
  save_as = λ d f w. (ok tt, w);
}

abbrev two_balances : List (Balance ℕ)
two_balances =
    record { address = codes "a"; coins = 1000 ∷ 500 ∷ [] }
    ∷ record { address = codes "b"; coins = 1000 ∷ [] }
    ∷ []

set_balances-supply_example :
    let s' = set_balances bank two_balances (record { balances = []; supply = 3 }) in
    (s'.supply ≡ 3 + 2500)
    × (s'.supply ≡ 3 + balances_amount bank (λ c d. c) (λ l d. total l) s'.balances [])
set_balances-supply_example =
    set_balances-supply bank (λ c d. c) (λ l d. total l) (λ s c d. refl) (λ b d. refl) two_balances
      (record { balances = []; supply = 3 }) []
