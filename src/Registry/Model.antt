-- ===== src/Registry/Model.antt =====
-- The data of openpine/registry/strategies.py: strategies, the circuit of the background worker, and the
-- tables of the database. JSON texts are texts.
use openpine.Base.Dict.{Dict}
use openpine.Base.{
  ◌++◌, [], ◌∷◌, inr, ◌||◌, truthy, inl, ◌∷◌, some, if◌then◌else◌, false, map, none, ◌==◌, ℕ,
  Option, ◌⊎◌, List, Bool, String,
}

pub record StrategyInstance : Type 0 where
  pub strategy_id : String
  pub name : String
  pub pine_id : String
  pub artifact_id : String
  pub params_json : String
  pub params_hash : String
  pub symbol : String
  pub timeframe : String
  pub exchange : String
  pub market_type : String
  pub price_type : String
  pub mode : String
  pub enabled : Bool
  pub archived : Bool
  pub status : String
  pub created_at : ℕ
  pub updated_at : ℕ
  pub semantic_profile : Option String
  pub mtf_series_json : String

-- the exceptions: KeyError, ArchivedStrategyActivationError, WorkerCircuitOpenError, the errors of
-- sqlite3 on a second row of a name or id and on BEGIN in a transaction, ValueError and RuntimeError
pub data RegistryError : Type 0 where
  strategy_not_found archived_activation circuit_open integrity_error nested_transaction
        unsupported_fields delete_failed :
      RegistryError

-- a row of runtime_circuits
pub record Circuit : Type 0 where
  pub is_open : Bool
  pub reason : Option String
  pub updated_at : ℕ

-- a row of a table with a strategy_id, or for fills an order_id, as its owner
pub record Dependent : Type 0 where
  pub id : String
  pub owner : String

-- `background_worker` is the row of that name in runtime_circuits; `dependents` has the tables that
-- a deletion clears, as far as they exist
pub record Database : Type 0 where
  pub strategy_instances : List StrategyInstance
  pub background_worker : Option Circuit
  pub dependents : Dict (List Dependent)

abbrev pub is_for : String → StrategyInstance → Bool
is_for strategy_id s = s.strategy_id == strategy_id

-- SELECT … WHERE strategy_id = ?, fetchone
unfoldable pub find_strategy : String → List StrategyInstance → Option StrategyInstance
find_strategy strategy_id [] = none
find_strategy strategy_id (s ∷ rows) =
    if is_for strategy_id s then some s else find_strategy strategy_id rows

-- UPDATE strategy_instances SET … WHERE p
abbrev pub update_where :
    (StrategyInstance → Bool)
    → (StrategyInstance → StrategyInstance)
    → List StrategyInstance
    → List StrategyInstance
update_where p f rows = map (λ s. if p s then f s else s) rows

abbrev pub update_strategy : String → (StrategyInstance → StrategyInstance) → Database → Database
update_strategy strategy_id f db = record db {
  strategy_instances = update_where (is_for strategy_id) f db.strategy_instances;
}

-- a row of this id or this name is there
unfoldable pub is_taken : String → String → List StrategyInstance → Bool
is_taken strategy_id name [] = false
is_taken strategy_id name (s ∷ rows) =
    s.strategy_id == strategy_id || s.name == name || is_taken strategy_id name rows

-- INSERT INTO strategy_instances: strategy_id and name are UNIQUE
unfoldable pub insert_strategy : StrategyInstance → Database → RegistryError ⊎ Database
unfolding is_taken
insert_strategy s db =
    if is_taken s.strategy_id s.name db.strategy_instances
    then inl integrity_error
    else inr (record db { strategy_instances = db.strategy_instances ++ s ∷ [] })

-- `_worker_circuit_state_locked`
abbrev pub circuit_is_open : Option Circuit → Bool
circuit_is_open none = false
circuit_is_open (some c) = c.is_open

unfoldable pub worker_circuit_state : Database → Bool × (Option String × Option ℕ)
worker_circuit_state db = elim db.background_worker [
  | none ↦ (false, (none, none))
  | some c ↦ (c.is_open, (c.reason, some c.updated_at))
]

-- x or y, on texts
abbrev pub or_current : Option String → String → String
or_current none current = current
or_current (some x) current = if truthy x then x else current

-- current if x is None else x
abbrev pub given {ℓ} : {A : Type ℓ} → Option A → A → A
given none current = current
given (some x) current = x
