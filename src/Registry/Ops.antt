-- ===== src/Registry/Ops.antt =====
-- Creating, reading and updating strategies (openpine/registry/strategies.py). The clock is an argument.
use openpine.Base.Lists.{keep}
use openpine.Base.Dict.{values, get, put}
use openpine.Registry.Connection.{change, commit, SqliteStrategyRegistry, reload_from_db}
use openpine.Registry.Model.{
  update_strategy, strategy_not_found, given, or_current, RegistryError, StrategyInstance,
  insert_strategy,
}
use openpine.Base.{◌==◌, inr, some, none, inl, true, false, ◌⊎◌, List, Bool, Option, ℕ, String}

-- What the registry takes from json, hashlib and text formatting: dumps and hash of parameters, the hash of a
-- text of parameters, a strategy's id from artifact, hash and time, and a default name.
pub record Naming (J : Type 0) : Type 0 where
  pub dumps : J → String
  pub make_params_hash : J → String
  pub text_hash : String → String
  pub strategy_id : String → String → ℕ → String
  pub default_name : String → String → String → String

-- the end of `register_strategy` and `create_strategy`: the row, the commit, and the view in memory
unfoldable pub store_new :
    StrategyInstance
    → SqliteStrategyRegistry
    → (RegistryError ⊎ StrategyInstance) × SqliteStrategyRegistry
unfolding insert_strategy put
store_new s r = elim (insert_strategy s r.connection.db) [
  | inl e ↦ (inl e, record r { connection = record r.connection { in_transaction = true } })
  | inr db ↦ (
    inr s,
    record {
      mem = put r.mem s.strategy_id s;
      connection = commit (record r.connection { db = db });
    },
  )
]

module _ {J : Type 0} (naming : Naming J) where
  abbrev pub registered :
      String
      → String
      → String
      → J
      → Option String
      → String
      → String
      → String
      → String
      → String
      → ℕ
      → StrategyInstance
  registered artifact_id symbol timeframe params name pine_id exchange market_type price_type mode
        now =
      let params_hash = naming.make_params_hash params in
      record {
        strategy_id = naming.strategy_id artifact_id params_hash now;
        name = or_current name (naming.default_name symbol timeframe params_hash);
        pine_id = pine_id;
        artifact_id = artifact_id;
        params_json = naming.dumps params;
        params_hash = params_hash;
        symbol = symbol;
        timeframe = timeframe;
        exchange = exchange;
        market_type = market_type;
        price_type = price_type;
        mode = mode;
        enabled = false;
        archived = false;
        status = "pending";
        created_at = now;
        updated_at = now;
        semantic_profile = none;
        mtf_series_json = "[]";
      }

  unfoldable pub register_strategy :
      String
      → String
      → String
      → J
      → Option String
      → String
      → String
      → String
      → String
      → String
      → ℕ
      → SqliteStrategyRegistry
      → (RegistryError ⊎ StrategyInstance) × SqliteStrategyRegistry
  unfolding store_new
  register_strategy artifact_id symbol timeframe params name pine_id exchange market_type price_type
        mode now =
      store_new (
        registered artifact_id symbol timeframe params name pine_id exchange market_type price_type
          mode now)

  abbrev pub created :
      String
      → String
      → String
      → String
      → String
      → String
      → String
      → String
      → Option String
      → String
      → Option String
      → ℕ
      → StrategyInstance
  created name pine_id artifact_id symbol timeframe exchange market_type params_json params_hash
        mode semantic_profile now =
      let params_hash = given params_hash (naming.text_hash params_json) in
      record {
        strategy_id = naming.strategy_id artifact_id params_hash now;
        name = name;
        pine_id = pine_id;
        artifact_id = artifact_id;
        params_json = params_json;
        params_hash = params_hash;
        symbol = symbol;
        timeframe = timeframe;
        exchange = exchange;
        market_type = market_type;
        price_type = "trade";
        mode = mode;
        enabled = false;
        archived = false;
        status = "pending";
        created_at = now;
        updated_at = now;
        semantic_profile = semantic_profile;
        mtf_series_json = "[]";
      }

  unfoldable pub create_strategy :
      String
      → String
      → String
      → String
      → String
      → String
      → String
      → String
      → Option String
      → String
      → Option String
      → ℕ
      → SqliteStrategyRegistry
      → (RegistryError ⊎ StrategyInstance) × SqliteStrategyRegistry
  unfolding store_new
  create_strategy name pine_id artifact_id symbol timeframe exchange market_type params_json
        params_hash mode semantic_profile now =
      store_new (
        created name pine_id artifact_id symbol timeframe exchange market_type params_json
          params_hash mode semantic_profile now)

unfoldable pub get_strategy :
    String → SqliteStrategyRegistry → (RegistryError ⊎ StrategyInstance) × SqliteStrategyRegistry
unfolding reload_from_db get
get_strategy strategy_id r =
    let r' = reload_from_db r in
    elim (get r'.mem strategy_id) [ none ↦ (inl strategy_not_found, r') | some s ↦ (inr s, r') ]

abbrev has_status : Option String → StrategyInstance → Bool
has_status none s = true
has_status (some status) s = s.status == status

unfoldable pub list_strategies :
    Option String → SqliteStrategyRegistry → List StrategyInstance × SqliteStrategyRegistry
unfolding reload_from_db values
list_strategies status r =
    let r' = reload_from_db r in (keep (has_status status) (values r'.mem), r')

-- the methods that get a strategy, change the object in memory, and write the same to its row
unfoldable pub update_found :
    String
    → (StrategyInstance → StrategyInstance)
    → SqliteStrategyRegistry
    → (RegistryError ⊎ (Unit {0})) × SqliteStrategyRegistry
unfolding get_strategy put
update_found strategy_id f r =
    let (found, r') = get_strategy strategy_id r in
    elim found [
      | inl e ↦ (inl e, r')
      | inr s ↦ (
        inr tt,
        record {
          mem = put r'.mem strategy_id (f s);
          connection = change (update_strategy strategy_id f) r'.connection;
        },
      )
    ]

unfoldable pub update_status :
    String
    → String
    → ℕ
    → SqliteStrategyRegistry
    → (RegistryError ⊎ (Unit {0})) × SqliteStrategyRegistry
unfolding update_found
update_status strategy_id status now =
    update_found strategy_id λ s. record s { status = status; updated_at = now }

unfoldable pub update_mode :
    String
    → String
    → ℕ
    → SqliteStrategyRegistry
    → (RegistryError ⊎ (Unit {0})) × SqliteStrategyRegistry
unfolding update_found
update_mode strategy_id mode now =
    update_found strategy_id λ s. record s { mode = mode; updated_at = now }

unfoldable pub set_semantic_profile :
    String
    → String
    → ℕ
    → SqliteStrategyRegistry
    → (RegistryError ⊎ (Unit {0})) × SqliteStrategyRegistry
unfolding update_found
set_semantic_profile strategy_id semantic_profile now =
    update_found strategy_id
      λ s. record s { semantic_profile = some semantic_profile; updated_at = now }

-- the series as the text that `mtf_requests_json` makes of them
unfoldable pub set_mtf_series :
    String
    → String
    → ℕ
    → SqliteStrategyRegistry
    → (RegistryError ⊎ (Unit {0})) × SqliteStrategyRegistry
unfolding update_found
set_mtf_series strategy_id payload now =
    update_found strategy_id λ s. record s { mtf_series_json = payload; updated_at = now }
