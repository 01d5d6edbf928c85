-- ===== src/Registry/Tests.antt =====
-- Runs of the registry of strategies (openpine/registry/strategies.py) and instances of its theorems.
use openpine.Registry.Laws.Deletion.{left, delete_strategy-remains}
use openpine.Registry.Laws.Swept.{in_table}
use openpine.Base.Dict.{get}
use openpine.Registry.Laws.Failed.{create_strategy-trip_worker_circuit}
use openpine.Registry.Laws.Tripped.{run-trip_worker_circuit, IsDisabled}
use openpine.Base.Lists.{keep, All}
use openpine.Registry.Laws.Mirrored.{run-IsMirrored, IsMirrored}
use openpine.Registry.Model.{
  find_strategy, integrity_error, nested_transaction, archived_activation, StrategyInstance,
}
use openpine.Registry.Laws.History.{run-IsSound, IsSound}
use openpine.Registry.Delete.{delete_strategy}
use openpine.Registry.Circuits.{set_archived, set_enabled, trip_worker_circuit, activate_strategy}
use openpine.Registry.History.{
  call, delete, pause, archive, activate, trip, enable, create, run, Call, new_registry,
}
use openpine.Registry.Connection.{collect, SqliteStrategyRegistry}
use openpine.Registry.Ops.{registered, register_strategy, create_strategy, Naming}
use openpine.Base.{◌==◌, not, inl, ◌∷◌, true, inr, none, false, refl, some, ◌≡◌, [], List, String}

abbrev plain : Naming String
plain = record {
  dumps = λ p. p;
  make_params_hash = λ p. p;
  text_hash = λ p. p;
  strategy_id = λ artifact_id params_hash now. artifact_id;
  default_name = λ symbol timeframe params_hash. symbol;
}

abbrev empty : SqliteStrategyRegistry
empty = record {
  mem = [];
  connection = record {
    db = record {
      strategy_instances = [];
      background_worker = some (record { is_open = false; reason = none; updated_at = 1 });
      dependents =
          ("jobs", record { id = "j"; owner = "a" } ∷ record { id = "k"; owner = "b" } ∷ []) ∷ [];
    };
    committed = record {
      strategy_instances = [];
      background_worker = some (record { is_open = false; reason = none; updated_at = 1 });
      dependents =
          ("jobs", record { id = "j"; owner = "a" } ∷ record { id = "k"; owner = "b" } ∷ []) ∷ [];
    };
    in_transaction = false;
  };
}

empty-new_registry : empty ≡ new_registry 1 empty.connection.db.dependents
unfolding new_registry
empty-new_registry = refl

abbrev with_a : SqliteStrategyRegistry
with_a =
    (register_strategy plain "a" "BTC" "1h" "{}" none "" "binance" "spot" "trade" "paper" 2 empty).1

a_runs : (activate_strategy "a" (some "running") none 3 with_a).0 ≡ inr tt
unfolding activate_strategy register_strategy
a_runs = refl

abbrev running : SqliteStrategyRegistry
running = (activate_strategy "a" (some "running") none 3 with_a).1

a_is_tripped : (trip_worker_circuit "stale" 4 running).0 ≡ inr 1
unfolding trip_worker_circuit activate_strategy register_strategy
a_is_tripped = refl

archived_stays_off :
    (set_enabled "a" true 5 (set_archived "a" true 4 running).1).0 ≡ inl archived_activation
unfolding set_enabled set_archived activate_strategy register_strategy
archived_stays_off = refl

jobs_are_deleted :
    (delete_strategy "a" false running).1.connection.db.dependents
    ≡ ("jobs", record { id = "k"; owner = "b" } ∷ []) ∷ []
unfolding delete_strategy activate_strategy register_strategy
jobs_are_deleted = refl

empty-IsSound : IsSound empty
empty-IsSound = record { clean = refl; holds = record { distinct = tt; allowed = tt } }

empty-IsMirrored : IsMirrored empty
unfolding collect
empty-IsMirrored = record { clean = refl; mirrors = λ k. refl }

abbrev strategy_a : StrategyInstance
strategy_a = registered plain "a" "BTC" "1h" "{}" none "" "binance" "spot" "trade" "paper" 2

abbrev some_calls : List Call
some_calls =
    create strategy_a
    ∷ enable "a" true 3
    ∷ create strategy_a
    ∷ trip "stale" 4
    ∷ trip "stale" 5
    ∷ enable "a" true 6
    ∷ archive "a" true 7
    ∷ delete "a" false
    ∷ []

run-IsSound_example : IsSound (run some_calls empty)
run-IsSound_example = run-IsSound some_calls empty empty-IsSound

run-IsMirrored_example : IsMirrored (run some_calls empty)
run-IsMirrored_example = run-IsMirrored some_calls empty empty-IsMirrored

abbrev activated : SqliteStrategyRegistry
activated = run (create strategy_a ∷ activate "a" none none 3 ∷ []) empty

abbrev after_trip : List Call
after_trip = enable "a" true 6 ∷ activate "a" none none 7 ∷ pause 8 ∷ []

run-trip_worker_circuit_example :
    All IsDisabled
      (run after_trip (trip_worker_circuit "stale" 4 activated).1).connection.db.strategy_instances
unfolding trip_worker_circuit run
run-trip_worker_circuit_example =
    run-trip_worker_circuit "stale" 4 after_trip activated
      (record { is_open = false; reason = none; updated_at = 1 }) 1
      (run-IsSound (create strategy_a ∷ activate "a" none none 3 ∷ []) empty empty-IsSound) refl
      refl (tt, (tt, (tt, tt)))

create_strategy-trip_worker_circuit_example :
    let failed =
      create_strategy plain "BTC" "" "b" "BTC" "1h" "binance" "spot" "{}" none "paper" none 5
        with_a in
    ((trip_worker_circuit "stale" 6 failed.1).0 ≡ inl nested_transaction)
    × ((trip_worker_circuit "stale" 6 failed.1).1.connection.db ≡ with_a.connection.committed)
unfolding create_strategy register_strategy
create_strategy-trip_worker_circuit_example =
    create_strategy-trip_worker_circuit plain "BTC" "" "b" "BTC" "1h" "binance" "spot" "{}" none
      "paper" none 5 "stale" 6 with_a integrity_error refl

abbrev with_orders : SqliteStrategyRegistry
with_orders = new_registry 1 (
    ("orders", record { id = "o"; owner = "a" } ∷ record { id = "q"; owner = "b" } ∷ [])
    ∷ ("fills", record { id = "f"; owner = "o" } ∷ record { id = "g"; owner = "q" } ∷ [])
    ∷ [])

delete_strategy-remains_example :
    let r = call (create strategy_a) with_orders in
    let db = (delete_strategy "a" false r).1.connection.db in
    (find_strategy "a" db.strategy_instances ≡ none)
    × ((db.strategy_instances
          ≡ keep (λ s. not (s.strategy_id == "a")) r.connection.db.strategy_instances)
        × (get db.dependents "fills"
            ≡ in_table
                (left "a"
                  (record { id = "o"; owner = "a" } ∷ record { id = "q"; owner = "b" } ∷ [])
                  "fills")
                (get r.connection.db.dependents "fills")))
unfolding new_registry call delete_strategy
delete_strategy-remains_example =
    delete_strategy-remains "a" false (call (create strategy_a) with_orders) "fills"
      (record { id = "o"; owner = "a" } ∷ record { id = "q"; owner = "b" } ∷ [])
      (record { id = "f"; owner = "o" } ∷ record { id = "g"; owner = "q" } ∷ []) refl refl refl
