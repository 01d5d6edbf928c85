-- ===== src/Registry/Laws/Tripped.antt =====
-- A circuit that was tripped (openpine/registry/strategies.py) stays open until it is reset, and meanwhile no
-- strategy is enabled.
use openpine.Registry.Laws.Held.{
  delete_strategy-IsHeld, change-IsHeld, patch_strategy_atomic-IsHeld, transaction-IsHeld,
  update_found-IsHeld, reload_from_db-IsHeld, get_strategy-IsHeld, store_new-IsHeld, IsHeld,
}
use openpine.Registry.Laws.History.{call-IsSound, run-IsSound, IsSound}
use openpine.Base.Lists.{All-map, All}
use openpine.Registry.Connection.{
  commit, rollback, change, reload_from_db, transaction, SqliteStrategyRegistry,
}
use openpine.Registry.Ops.{
  set_mtf_series, set_semantic_profile, update_mode, update_status, list_strategies,
}
use openpine.Registry.Laws.Safe.{IsAllowed, guarded, with_found, HoldsIn}
use openpine.Base.{
  ap, arith, inl, ◌⊎◌, ◌∙◌, sym, [], ◌∷◌, inr, refl, some, if◌then◌else◌, none, ◌&&◌, false, true,
  ◌≡◌, List, Option, ℕ, String, Bool,
}
use openpine.Registry.Patch.{name_is_taken, Patch, patch_in}
use openpine.Registry.Circuits.{
  count_enabled, set_circuit, pause_enabled, pause_all_enabled, set_archived, transition_strategy,
  activate_strategy, set_enabled, trip_worker_circuit, trip_in, set_archived_in, transition_in,
  activate_in, set_enabled_in,
}
use openpine.Registry.Model.{
  nested_transaction, RegistryError, is_taken, given, Circuit, circuit_is_open, StrategyInstance,
  insert_strategy, Database,
}
use Prim.Native.String.{◌∷◌, String}
use mathlib.Core.Bool.{false≢true}
use openpine.Registry.History.{
  delete, archive, patch, trip, transition, activate, enable, series, profile, mode, status, list,
  read, inactive, create, reset, run, call, Call, pause,
}

-- the circuit is open
abbrev IsOpen : Database → Type 0
IsOpen db = circuit_is_open db.background_worker ≡ true

abbrev pub IsNoReset : Call → Type 0
IsNoReset (reset now) = ⊥
IsNoReset _ = Unit

set_enabled_in-IsOpen :
    (id : String) (enabled : Bool) (now : ℕ) (db : Database)
    → IsOpen db
    → HoldsIn IsOpen (set_enabled_in id enabled now db)
unfolding set_enabled_in
set_enabled_in-IsOpen id enabled now db h =
    with_found IsOpen id db.strategy_instances _ λ current found.
      guarded IsOpen (enabled && current.archived) _ _
        λ a. guarded IsOpen (enabled && circuit_is_open db.background_worker) _ _ λ c. h

activate_in-IsOpen :
    (id : String) (next_status next_mode : Option String) (now : ℕ) (db : Database)
    → IsOpen db
    → HoldsIn IsOpen (activate_in id next_status next_mode now db)
unfolding activate_in
activate_in-IsOpen id next_status next_mode now db h =
    with_found IsOpen id db.strategy_instances _ λ current found.
      guarded IsOpen current.archived _ _
        λ a. guarded IsOpen (circuit_is_open db.background_worker) _ _ λ c. h

transition_in-IsOpen :
    (id : String) (enabled : Option Bool) (next_status next_mode : Option String) (now : ℕ)
    (db : Database)
    → IsOpen db
    → HoldsIn IsOpen (transition_in id enabled next_status next_mode now db)
unfolding transition_in
transition_in-IsOpen id enabled next_status next_mode now db h =
    with_found IsOpen id db.strategy_instances _ λ current found.
      guarded IsOpen (given enabled current.enabled && current.archived) _ _ λ a.
        guarded IsOpen (given enabled current.enabled && circuit_is_open db.background_worker) _ _
          λ c. h

set_archived_in-IsOpen :
    (id : String) (archived : Bool) (now : ℕ) (db : Database)
    → IsOpen db
    → HoldsIn IsOpen (set_archived_in id archived now db)
unfolding set_archived_in
set_archived_in-IsOpen id archived now db h =
    with_found IsOpen id db.strategy_instances _ λ current found. h

patch_in-IsOpen :
    (id : String) (p : Patch) (now : ℕ) (db : Database)
    → IsOpen db
    → HoldsIn IsOpen (patch_in id p now db)
unfolding patch_in
patch_in-IsOpen id p now db h = with_found IsOpen id db.strategy_instances _ λ current found.
    guarded IsOpen (given p.enabled false && given p.archived current.archived) _ _ λ a.
      guarded IsOpen
        ((if given p.archived false then false else given p.enabled current.enabled)
          && circuit_is_open db.background_worker)
        _ _ λ c. guarded IsOpen (name_is_taken id p.name db.strategy_instances) _ _ λ free. h

trip_in-IsOpen :
    (reason : String) (now : ℕ) (db : Database) → IsOpen db → HoldsIn IsOpen (trip_in reason now db)
unfolding trip_in
trip_in-IsOpen reason now db h = cases db.background_worker h
  where
    cases :
        (o : Option Circuit)
        → circuit_is_open o ≡ true
        → circuit_is_open (elim o [
          | none ↦ none
          | some _ ↦ some (record { is_open = true; reason = some reason; updated_at = now })
        ])
          ≡ true
    cases none e = e
    cases (some c) e = refl

insert_strategy-IsOpen :
    (s : StrategyInstance) (db : Database) → IsOpen db → HoldsIn IsOpen (insert_strategy s db)
unfolding insert_strategy
insert_strategy-IsOpen s db h =
    guarded IsOpen (is_taken s.strategy_id s.name db.strategy_instances) _ _ λ free. h

call-IsOpen :
    (c : Call) (r : SqliteStrategyRegistry)
    → IsNoReset c
    → IsHeld IsOpen r
    → IsHeld IsOpen (call c r)
unfolding call list_strategies update_status update_mode set_semantic_profile set_mtf_series
    set_enabled activate_strategy transition_strategy set_archived trip_worker_circuit
    pause_all_enabled
call-IsOpen (create s) r n h =
    store_new-IsHeld (inactive s) r (insert_strategy-IsOpen (inactive s)) h
call-IsOpen (read id) r n h = get_strategy-IsHeld id r h
call-IsOpen (list which) r n h = reload_from_db-IsHeld r h
call-IsOpen (status id s now) r n h = update_found-IsHeld id _ r (λ db k. k) h
call-IsOpen (mode id m now) r n h = update_found-IsHeld id _ r (λ db k. k) h
call-IsOpen (profile id p now) r n h = update_found-IsHeld id _ r (λ db k. k) h
call-IsOpen (series id payload now) r n h = update_found-IsHeld id _ r (λ db k. k) h
call-IsOpen (enable id b now) r n h =
    transaction-IsHeld {P = IsOpen} _ r (set_enabled_in-IsOpen id b now) h
call-IsOpen (activate id s m now) r n h =
    transaction-IsHeld {P = IsOpen} _ r (activate_in-IsOpen id s m now) h
call-IsOpen (transition id b s m now) r n h =
    transaction-IsHeld {P = IsOpen} _ r (transition_in-IsOpen id b s m now) h
call-IsOpen (patch id p now) r n h =
    patch_strategy_atomic-IsHeld id p now r (patch_in-IsOpen id p now) h
call-IsOpen (archive id b now) r n h =
    transaction-IsHeld {P = IsOpen} _ r (set_archived_in-IsOpen id b now) h
call-IsOpen (trip reason now) r n h =
    transaction-IsHeld (trip_in reason now) r (trip_in-IsOpen reason now) h
call-IsOpen (reset now) r n h = absurd n
call-IsOpen (pause now) r n h =
    reload_from_db-IsHeld (record r { connection = change (pause_enabled now) r.connection })
      (change-IsHeld (pause_enabled now) r.mem r h.holds)
call-IsOpen (delete id rmtree_fails) r n h =
    delete_strategy-IsHeld id rmtree_fails r (λ p tables db k. k) h

run-IsOpen :
    (calls : List Call) (r : SqliteStrategyRegistry)
    → All IsNoReset calls
    → IsHeld IsOpen r
    → IsHeld IsOpen (run calls r)
unfolding run
run-IsOpen [] r n h = h
run-IsOpen (c ∷ calls) r n h = run-IsOpen calls (call c r) n.1 (call-IsOpen c r n.0 h)

abbrev pub IsDisabled : StrategyInstance → Type 0
IsDisabled s = s.enabled ≡ false

disabled : (b : Bool) (s : StrategyInstance) → b ≡ true → IsAllowed b s → IsDisabled s
disabled b s is_open h = cases s.enabled refl
  where
    cases : (e : Bool) → s.enabled ≡ e → s.enabled ≡ false
    cases true on = absurd (false≢true (sym (h on).1 ∙ is_open))
    cases false off = off

trip_worker_circuit-IsOpen :
    (reason : String) (now : ℕ) (r : SqliteStrategyRegistry) (c : Circuit) (count : ℕ)
    → r.connection.db.background_worker ≡ some c
    → (trip_worker_circuit reason now r).0 ≡ inr count
    → IsHeld IsOpen (trip_worker_circuit reason now r).1
unfolding trip_worker_circuit transaction trip_in reload_from_db
trip_worker_circuit-IsOpen reason now r c count row = cases r.connection.in_transaction
  where
    opened : Circuit
    opened = record { is_open = true; reason = some reason; updated_at = now }

    outcome : Bool → (RegistryError ⊎ (Unit {0})) × SqliteStrategyRegistry
    outcome b =
        if b then (inl nested_transaction, record r { connection = rollback r.connection }) else (
          inr tt,
          reload_from_db (record r {
            connection = commit (record r.connection {
              db = pause_enabled now (set_circuit opened r.connection.db);
            });
          }),
        )

    cases :
        (b : Bool)
        → elim (outcome b).0 as (λ x. RegistryError ⊎ ℕ) [
          | inl e ↦ inl e
          | inr _ ↦ inr (count_enabled r.connection.db)
        ]
          ≡ inr count
        → IsHeld IsOpen (outcome b).1
    cases true e = absurd (grind (arith, e))
    cases false e = record {
      clean = refl;
      holds = ap (λ o. circuit_is_open (elim o [ none ↦ none | some _ ↦ some opened ])) row;
    }

-- In a sound registry whose table of circuits has its row, a successful trip_worker_circuit leaves no strategy
-- enabled, and neither do any calls after it but reset_worker_circuit.
pub run-trip_worker_circuit :
    (reason : String) (now : ℕ) (calls : List Call) (r : SqliteStrategyRegistry) (c : Circuit)
    (count : ℕ)
    → IsSound r
    → r.connection.db.background_worker ≡ some c
    → (trip_worker_circuit reason now r).0 ≡ inr count
    → All IsNoReset calls
    → All IsDisabled
        (run calls (trip_worker_circuit reason now r).1).connection.db.strategy_instances
unfolding call
run-trip_worker_circuit reason now calls r c count sound row done no_reset =
    let r' = (trip_worker_circuit reason now r).1 in
    let still_open =
      run-IsOpen calls r' no_reset (trip_worker_circuit-IsOpen reason now r c count row done) in
    let safe = (run-IsSound calls r' (call-IsSound (trip reason now) r sound)).holds in
    let is_open = circuit_is_open (run calls r').connection.db.background_worker in
    All-map (IsAllowed is_open) IsDisabled (run calls r').connection.db.strategy_instances
      (λ s. disabled is_open s still_open.holds) safe.allowed
