-- ===== src/Registry/Patch.antt =====
-- `patch_strategy_atomic` (openpine/registry/strategies.py). A patch has the fields that may be changed, and the
-- names of other fields that were given.

use openpine.Base.Lists.{is_empty}
use openpine.Registry.Connection.{SqliteStrategyRegistry, transaction}
use openpine.Registry.Model.{
  update_strategy, integrity_error, circuit_open, circuit_is_open, archived_activation,
  unsupported_fields, strategy_not_found, is_for, RegistryError, Database, given, find_strategy,
  StrategyInstance,
}
use openpine.Base.{
  [], ◌∷◌, inr, ◌&&◌, inl, none, not, ◌⊎◌, ◌∷◌, ◌==◌, true, if◌then◌else◌, some, ◌||◌, false, List,
  ℕ, Bool, Option, String,
}

pub record Patch : Type 0 where
  pub enabled : Option Bool
  pub archived : Option Bool
  pub mode : Option String
  pub status : Option String
  pub name : Option String
  pub symbol : Option String
  pub timeframe : Option String
  pub exchange : Option String
  pub market_type : Option String
  pub params_json : Option String
  pub params_hash : Option String
  pub semantic_profile : Option (Option String)
  pub unknown : List String

abbrev is_given {ℓ} : {A : Type ℓ} → Option A → Bool
is_given none = false
is_given (some a) = true

-- `bool(values)` for a patch without unknown fields
abbrev pub has_values : Patch → Bool
has_values p =
    is_given p.enabled
    || (is_given p.archived
        || (is_given p.mode
            || (is_given p.status
                || (is_given p.name
                    || (is_given p.symbol
                        || (is_given p.timeframe
                            || (is_given p.exchange
                                || (is_given p.market_type
                                    || (is_given p.params_json
                                        || (is_given p.params_hash
                                            || is_given p.semantic_profile))))))))))

-- the values that are written: an archived strategy is disabled, and paused if it waits or runs
abbrev pub completed : Patch → StrategyInstance → Patch
completed p current =
    let status = given p.status current.status in
    if given p.archived false
    then record p {
      enabled = some false;
      status = if status == "running" || status == "pending" then some "paused" else p.status;
    }
    else p

-- UPDATE strategy_instances SET … with these values
abbrev pub patched : Patch → ℕ → StrategyInstance → StrategyInstance
patched p now s = record s {
  enabled = given p.enabled s.enabled;
  archived = given p.archived s.archived;
  mode = given p.mode s.mode;
  status = given p.status s.status;
  name = given p.name s.name;
  symbol = given p.symbol s.symbol;
  timeframe = given p.timeframe s.timeframe;
  exchange = given p.exchange s.exchange;
  market_type = given p.market_type s.market_type;
  params_json = given p.params_json s.params_json;
  params_hash = given p.params_hash s.params_hash;
  semantic_profile = given p.semantic_profile s.semantic_profile;
  updated_at = now;
}

-- another strategy has the new name, which is UNIQUE
unfoldable pub name_is_taken : String → Option String → List StrategyInstance → Bool
name_is_taken strategy_id none rows = false
name_is_taken strategy_id (some name) [] = false
name_is_taken strategy_id (some name) (s ∷ rows) =
    not (is_for strategy_id s) && s.name == name || name_is_taken strategy_id (some name) rows

unfoldable pub patch_in : String → Patch → ℕ → Database → RegistryError ⊎ Database
unfolding find_strategy name_is_taken
patch_in strategy_id p now db = elim (find_strategy strategy_id db.strategy_instances) [
  | none ↦ inl strategy_not_found
  | some current ↦
      let next_archived = given p.archived current.archived in
      let next_enabled =
        if given p.archived false then false else given p.enabled current.enabled in
      if given p.enabled false && next_archived
      then inl archived_activation
      else if next_enabled && circuit_is_open db.background_worker
      then inl circuit_open
      else if name_is_taken strategy_id p.name db.strategy_instances
      then inl integrity_error
      else inr (update_strategy strategy_id (patched (completed p current) now) db)
]

unfoldable pub patch_strategy_atomic :
    String
    → Patch
    → ℕ
    → SqliteStrategyRegistry
    → (RegistryError ⊎ (Unit {0})) × SqliteStrategyRegistry
unfolding transaction patch_in
patch_strategy_atomic strategy_id p now r =
    if not (is_empty p.unknown)
    then (inl unsupported_fields, r)
    else if has_values p
    then transaction (patch_in strategy_id p now) r
    else (inr tt, r)
