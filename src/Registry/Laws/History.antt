-- ===== src/Registry/Laws/History.antt =====
-- What holds after any calls of a registry (openpine/registry/strategies.py).
use openpine.Registry.History.{delete, pause}
use openpine.Registry.Model.{Circuit}
use openpine.Registry.History.{
  pause, reset, trip, archive, patch, transition, activate, enable, series, profile, mode,
}
use openpine.Registry.Circuits.{
  pause_enabled, set_circuit, trip_in, pause_all_enabled, reset_worker_circuit, trip_worker_circuit,
  set_archived, transition_strategy, activate_strategy, set_enabled,
}
use openpine.Registry.Laws.Safe.{
  set_archived_in-IsSafe, patch_in-IsSafe, transition_in-IsSafe, activate_in-IsSafe,
  set_enabled_in-IsSafe, IsSafe,
}
use openpine.Registry.Laws.Changes.{
  kept-IsSafe, pause_enabled-IsSafe, reset-IsSafe, trip_in-IsSafe, rewritten-IsSafe,
  insert_strategy-IsSafe,
}
use openpine.Registry.Ops.{
  set_mtf_series, set_semantic_profile, update_mode, update_status, list_strategies,
}
use openpine.Registry.Laws.Held.{
  delete_strategy-IsHeld, change-IsHeld, patch_strategy_atomic-IsHeld, transaction-IsHeld,
  update_found-IsHeld, reload_from_db-IsHeld, get_strategy-IsHeld, store_new-IsHeld, IsHeld,
}
use openpine.Registry.History.{mode, status, list, read, inactive, create, Call, run, call}
use openpine.Registry.Connection.{change, SqliteStrategyRegistry}
use openpine.Base.{refl, none, false, [], ◌∷◌, List}

-- Nothing is uncommitted, and the database is safe.
abbrev pub IsSound : SqliteStrategyRegistry → Type 0
IsSound = IsHeld IsSafe

pub call-IsSound : (c : Call) (r : SqliteStrategyRegistry) → IsSound r → IsSound (call c r)
unfolding call list_strategies update_status update_mode set_semantic_profile set_mtf_series
    set_enabled activate_strategy transition_strategy set_archived trip_worker_circuit
    reset_worker_circuit pause_all_enabled
call-IsSound (create s) r h =
    store_new-IsHeld (inactive s) r (λ db. insert_strategy-IsSafe (inactive s) db refl) h
call-IsSound (read id) r h = get_strategy-IsHeld id r h
call-IsSound (list which) r h = reload_from_db-IsHeld r h
call-IsSound (status id s now) r h =
    update_found-IsHeld id _ r (λ db. rewritten-IsSafe id _ db (λ s. refl) (λ b s old. old)) h
call-IsSound (mode id m now) r h =
    update_found-IsHeld id _ r (λ db. rewritten-IsSafe id _ db (λ s. refl) (λ b s old. old)) h
call-IsSound (profile id p now) r h =
    update_found-IsHeld id _ r (λ db. rewritten-IsSafe id _ db (λ s. refl) (λ b s old. old)) h
call-IsSound (series id payload now) r h =
    update_found-IsHeld id _ r (λ db. rewritten-IsSafe id _ db (λ s. refl) (λ b s old. old)) h
call-IsSound (enable id b now) r h =
    transaction-IsHeld {P = IsSafe} _ r (set_enabled_in-IsSafe id b now) h
call-IsSound (activate id s m now) r h =
    transaction-IsHeld {P = IsSafe} _ r (activate_in-IsSafe id s m now) h
call-IsSound (transition id b s m now) r h =
    transaction-IsHeld {P = IsSafe} _ r (transition_in-IsSafe id b s m now) h
call-IsSound (patch id p now) r h =
    patch_strategy_atomic-IsHeld id p now r (patch_in-IsSafe id p now) h
call-IsSound (archive id b now) r h =
    transaction-IsHeld {P = IsSafe} _ r (set_archived_in-IsSafe id b now) h
call-IsSound (trip reason now) r h =
    transaction-IsHeld (trip_in reason now) r (trip_in-IsSafe reason now) h
call-IsSound (reset now) r h =
    let closed : Circuit = record { is_open = false; reason = none; updated_at = now } in
    change-IsHeld (set_circuit closed) r.mem r (reset-IsSafe closed r.connection.db refl h.holds)
call-IsSound (pause now) r h =
    reload_from_db-IsHeld (record r { connection = change (pause_enabled now) r.connection })
      (change-IsHeld (pause_enabled now) r.mem r (pause_enabled-IsSafe now r.connection.db h.holds))
call-IsSound (delete id rmtree_fails) r h = delete_strategy-IsHeld id rmtree_fails r kept-IsSafe h

-- From a registry whose database is safe and has no uncommitted rows, any calls lead to such a registry again: the
-- ids differ, no archived strategy is enabled, and no strategy is enabled while the circuit is open.
pub run-IsSound :
    (calls : List Call) (r : SqliteStrategyRegistry) → IsSound r → IsSound (run calls r)
unfolding run
run-IsSound [] r h = h
run-IsSound (c ∷ calls) r h = run-IsSound calls (call c r) (call-IsSound c r h)
