-- ===== src/Registry/History.antt =====
-- Calls of a registry (openpine/registry/strategies.py). The lock serializes the calls of all threads, so a
-- sequence of calls is what they amount to.
use openpine.Registry.Delete.{delete_strategy}
use openpine.Registry.Circuits.{
  pause_all_enabled, reset_worker_circuit, trip_worker_circuit, set_archived, transition_strategy,
  activate_strategy, set_enabled,
}
use openpine.Registry.Patch.{patch_strategy_atomic, Patch}
use openpine.Base.Dict.{Dict}
use openpine.Registry.Ops.{
  set_mtf_series, set_semantic_profile, update_mode, update_status, list_strategies, get_strategy,
  store_new,
}
use openpine.Registry.Model.{Dependent, StrategyInstance}
use openpine.Registry.Connection.{commit, SqliteStrategyRegistry, reload_from_db}
use openpine.Base.{true, none, some, [], ◌∷◌, Bool, false, Option, ℕ, List, String}

-- a new registry on an empty database: `_init_db` adds the row of the circuit
unfoldable pub new_registry : ℕ → Dict (List Dependent) → SqliteStrategyRegistry
unfolding reload_from_db
new_registry now tables = reload_from_db (record {
  mem = [];
  connection = commit (record {
    db = record {
      strategy_instances = [];
      background_worker = some (record { is_open = false; reason = none; updated_at = now });
      dependents = tables;
    };
    committed = record { strategy_instances = []; background_worker = none; dependents = tables };
    in_transaction = true;
  });
})

pub data Call : Type 0 where
  -- a strategy that is neither enabled nor archived, as `register_strategy` and `create_strategy` make it
  create : StrategyInstance → Call
  read : String → Call
  list : Option String → Call
  status : String → String → ℕ → Call
  mode : String → String → ℕ → Call
  profile : String → String → ℕ → Call
  series : String → String → ℕ → Call
  enable : String → Bool → ℕ → Call
  activate : String → Option String → Option String → ℕ → Call
  transition : String → Option Bool → Option String → Option String → ℕ → Call
  patch : String → Patch → ℕ → Call
  archive : String → Bool → ℕ → Call
  trip : String → ℕ → Call
  reset : ℕ → Call
  pause : ℕ → Call
  delete : String → Bool → Call

-- a strategy as it is created: disabled and not archived
abbrev pub inactive : StrategyInstance → StrategyInstance
inactive s = record s { enabled = false; archived = false }

-- the registry after a call
unfoldable pub call : Call → SqliteStrategyRegistry → SqliteStrategyRegistry
unfolding store_new get_strategy list_strategies update_status update_mode set_semantic_profile
    set_mtf_series set_enabled activate_strategy transition_strategy patch_strategy_atomic
    set_archived trip_worker_circuit reset_worker_circuit pause_all_enabled delete_strategy
call (create s) r = (store_new (inactive s) r).1
call (read id) r = (get_strategy id r).1
call (list which) r = (list_strategies which r).1
call (status id s now) r = (update_status id s now r).1
call (mode id m now) r = (update_mode id m now r).1
call (profile id p now) r = (set_semantic_profile id p now r).1
call (series id payload now) r = (set_mtf_series id payload now r).1
call (enable id b now) r = (set_enabled id b now r).1
call (activate id s m now) r = (activate_strategy id s m now r).1
call (transition id b s m now) r = (transition_strategy id b s m now r).1
call (patch id p now) r = (patch_strategy_atomic id p now r).1
call (archive id b now) r = (set_archived id b now r).1
call (trip reason now) r = (trip_worker_circuit reason now r).1
call (reset now) r = reset_worker_circuit now r
call (pause now) r = (pause_all_enabled now r).1
call (delete id rmtree_fails) r = (delete_strategy id rmtree_fails r).1

unfoldable pub run : List Call → SqliteStrategyRegistry → SqliteStrategyRegistry
unfolding call
run [] r = r
run (c ∷ calls) r = run calls (call c r)
