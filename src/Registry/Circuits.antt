-- ===== src/Registry/Circuits.antt =====
-- The activation of strategies, the archive, and the circuit of the background worker
-- (openpine/registry/strategies.py): the bodies of the transactions, and the methods.
use openpine.Base.Lists.{keep, length}
use openpine.Registry.Connection.{change, SqliteStrategyRegistry, reload_from_db, transaction}
use openpine.Registry.Model.{
  or_current, circuit_open, circuit_is_open, update_strategy, given, archived_activation,
  strategy_not_found, RegistryError, update_where, Circuit, Database, StrategyInstance,
  find_strategy,
}
use openpine.Base.{
  not, ◌&&◌, true, inr, inl, some, false, ◌||◌, ◌⊎◌, none, ◌==◌, Option, Bool, ℕ, if◌then◌else◌,
  String,
}

unfoldable pub set_enabled_in : String → Bool → ℕ → Database → RegistryError ⊎ Database
unfolding find_strategy
set_enabled_in strategy_id enabled now db = elim (find_strategy strategy_id db.strategy_instances) [
  | none ↦ inl strategy_not_found
  | some current ↦
      if enabled && current.archived
      then inl archived_activation
      else if enabled && circuit_is_open db.background_worker
      then inl circuit_open
      else inr
          (update_strategy strategy_id (λ s. record s { enabled = enabled; updated_at = now }) db)
]

unfoldable pub set_enabled :
    String
    → Bool
    → ℕ
    → SqliteStrategyRegistry
    → (RegistryError ⊎ (Unit {0})) × SqliteStrategyRegistry
unfolding transaction set_enabled_in
set_enabled strategy_id enabled now = transaction (set_enabled_in strategy_id enabled now)

unfoldable pub activate_in :
    String → Option String → Option String → ℕ → Database → RegistryError ⊎ Database
unfolding find_strategy
activate_in strategy_id status mode now db =
    elim (find_strategy strategy_id db.strategy_instances) [
      | none ↦ inl strategy_not_found
      | some current ↦
          if current.archived
          then inl archived_activation
          else if circuit_is_open db.background_worker
          then inl circuit_open
          else inr (
              update_strategy strategy_id
                (λ s. record s {
                  enabled = true;
                  status = or_current status current.status;
                  mode = or_current mode current.mode;
                  updated_at = now;
                })
                db)
    ]

unfoldable pub activate_strategy :
    String
    → Option String
    → Option String
    → ℕ
    → SqliteStrategyRegistry
    → (RegistryError ⊎ (Unit {0})) × SqliteStrategyRegistry
unfolding transaction activate_in
activate_strategy strategy_id status mode now =
    transaction (activate_in strategy_id status mode now)

unfoldable pub transition_in :
    String → Option Bool → Option String → Option String → ℕ → Database → RegistryError ⊎ Database
unfolding find_strategy
transition_in strategy_id enabled status mode now db =
    elim (find_strategy strategy_id db.strategy_instances) [
      | none ↦ inl strategy_not_found
      | some current ↦
          let next_enabled = given enabled current.enabled in
          if next_enabled && current.archived
          then inl archived_activation
          else if next_enabled && circuit_is_open db.background_worker
          then inl circuit_open
          else inr (
              update_strategy strategy_id
                (λ s. record s {
                  enabled = next_enabled;
                  status = given status current.status;
                  mode = given mode current.mode;
                  updated_at = now;
                })
                db)
    ]

unfoldable pub transition_strategy :
    String
    → Option Bool
    → Option String
    → Option String
    → ℕ
    → SqliteStrategyRegistry
    → (RegistryError ⊎ (Unit {0})) × SqliteStrategyRegistry
unfolding transaction transition_in
transition_strategy strategy_id enabled status mode now =
    transaction (transition_in strategy_id enabled status mode now)

-- the status of a strategy that is archived
abbrev pub paused_if_due : String → String
paused_if_due status = if status == "running" || status == "pending" then "paused" else status

unfoldable pub set_archived_in : String → Bool → ℕ → Database → RegistryError ⊎ Database
unfolding find_strategy
set_archived_in strategy_id archived now db =
    elim (find_strategy strategy_id db.strategy_instances) [
      | none ↦ inl strategy_not_found
      | some current ↦ inr (
          update_strategy strategy_id
            (λ s. record s {
              archived = archived;
              enabled = not archived && current.enabled;
              status = if archived then paused_if_due current.status else current.status;
              updated_at = now;
            })
            db)
    ]

unfoldable pub set_archived :
    String
    → Bool
    → ℕ
    → SqliteStrategyRegistry
    → (RegistryError ⊎ (Unit {0})) × SqliteStrategyRegistry
unfolding transaction set_archived_in
set_archived strategy_id archived now = transaction (set_archived_in strategy_id archived now)

abbrev pub is_enabled : StrategyInstance → Bool
is_enabled s = s.enabled

-- UPDATE strategy_instances SET enabled = 0, status = 'paused', updated_at = ? WHERE enabled = 1
abbrev pub pause_enabled : ℕ → Database → Database
pause_enabled now db = record db {
  strategy_instances =
      update_where is_enabled
        (λ s. record s { enabled = false; status = "paused"; updated_at = now })
        db.strategy_instances;
}

abbrev pub count_enabled : Database → ℕ
count_enabled db = length (keep is_enabled db.strategy_instances)

-- UPDATE runtime_circuits SET … WHERE name = 'background_worker'
abbrev pub set_circuit : Circuit → Database → Database
set_circuit c db = record db {
  background_worker = elim db.background_worker [ none ↦ none | some _ ↦ some c ];
}

unfoldable pub trip_in : String → ℕ → Database → RegistryError ⊎ Database
trip_in reason now db = inr (
    pause_enabled now
      (set_circuit (record { is_open = true; reason = some reason; updated_at = now }) db))

-- with the count of the strategies that were enabled
unfoldable pub trip_worker_circuit :
    String → ℕ → SqliteStrategyRegistry → (RegistryError ⊎ ℕ) × SqliteStrategyRegistry
unfolding transaction trip_in
trip_worker_circuit reason now r =
    let (done, r') = transaction (trip_in reason now) r in
    (elim done [ inl e ↦ inl e | inr _ ↦ inr (count_enabled r.connection.db) ], r')

unfoldable pub reset_worker_circuit : ℕ → SqliteStrategyRegistry → SqliteStrategyRegistry
reset_worker_circuit now r = record r {
  connection =
      change (set_circuit (record { is_open = false; reason = none; updated_at = now }))
        r.connection;
}

unfoldable pub pause_all_enabled : ℕ → SqliteStrategyRegistry → ℕ × SqliteStrategyRegistry
unfolding reload_from_db
pause_all_enabled now r = (
  count_enabled r.connection.db,
  reload_from_db (record r { connection = change (pause_enabled now) r.connection }),
)
