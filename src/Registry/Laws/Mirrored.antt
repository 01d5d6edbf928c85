-- ===== src/Registry/Laws/Mirrored.antt =====
-- The view in memory (openpine/registry/strategies.py) agrees with the rows after every call.
use mathlib.Core.List.{◌∷◌}
use openpine.Registry.Laws.Held.{get_strategy-registry}
use openpine.Registry.Laws.Mirror.{
  last_of-keep, collected, collect-append, insert_strategy-rows, get_strategy-mem, collect-update,
}
use openpine.Base.Lists.{is_empty, keep}
use openpine.Registry.Circuits.{
  pause_enabled, trip_in, set_archived_in, transition_in, activate_in, set_enabled_in,
  pause_all_enabled, reset_worker_circuit, trip_worker_circuit, set_archived, transition_strategy,
  activate_strategy, set_enabled,
}
use openpine.Base.{
  none, Option, some, ◌==◌, ap, not, ◌∙◌, false, inr, true, refl, [], inl, if◌then◌else◌, ℕ, ◌⊎◌,
  sym, Bool, subst, List, String, ◌≡◌,
}
use openpine.Registry.Model.{
  update_strategy, delete_failed, unsupported_fields, nested_transaction, insert_strategy,
  RegistryError, Database, StrategyInstance,
}
use openpine.Registry.Patch.{has_values, patch_in, Patch, patch_strategy_atomic}
use openpine.Registry.Delete.{cascade, is_other, delete_strategy}
use openpine.Registry.Ops.{
  get_strategy, set_mtf_series, set_semantic_profile, update_mode, update_status, list_strategies,
  update_found, store_new,
}
use openpine.Registry.Connection.{
  change, commit, collect, rollback, transaction, reload_from_db, SqliteStrategyRegistry,
}
use openpine.Base.Dict.{get-remove, remove, get-put, put, get, Dict}
use openpine.Registry.History.{
  delete, reset, trip, archive, patch, transition, activate, enable, series, profile, status, read,
  inactive, create, Call, list, run, call, pause, mode,
}

abbrev Mirrors : Dict StrategyInstance → Database → Type 0
Mirrors mem db = (k : String) → get mem k ≡ get (collect [] db.strategy_instances) k

-- Nothing is uncommitted, and a reload of the rows changes no lookup in memory.
pub record IsMirrored (r : SqliteStrategyRegistry) : Type 0 where
  pub clean : r.connection.committed ≡ r.connection.db
  pub mirrors : Mirrors r.mem r.connection.db

rollback-IsMirrored :
    (r : SqliteStrategyRegistry)
    → IsMirrored r
    → IsMirrored (record r { connection = rollback r.connection })
rollback-IsMirrored r h = record {
  clean = refl;
  mirrors = subst (Mirrors r.mem) (sym h.clean) h.mirrors;
}

reload_from_db-IsMirrored :
    (r : SqliteStrategyRegistry)
    → r.connection.committed ≡ r.connection.db
    → IsMirrored (reload_from_db r)
unfolding reload_from_db
reload_from_db-IsMirrored r clean = record { clean = clean; mirrors = λ k. refl }

transaction-IsMirrored :
    (body : Database → RegistryError ⊎ Database) (r : SqliteStrategyRegistry)
    → IsMirrored r
    → IsMirrored (transaction body r).1
unfolding transaction
transaction-IsMirrored body r h = cases r.connection.in_transaction (body r.connection.db)
  where
    cases :
        (b : Bool) (x : RegistryError ⊎ Database)
        → IsMirrored
            (if b
              then (inl nested_transaction, record r { connection = rollback r.connection })
              else elim x as (λ y. (RegistryError ⊎ (Unit {0})) × SqliteStrategyRegistry) [
                | inl e ↦ (inl e, record r { connection = rollback r.connection })
                | inr db ↦ (
                  inr tt,
                  reload_from_db
                      (record r { connection = commit (record r.connection { db = db }) }),
                )
              ]).1
    cases true x = rollback-IsMirrored r h
    cases false (inl e) = rollback-IsMirrored r h
    cases false (inr db) =
        reload_from_db-IsMirrored
          (record r { connection = commit (record r.connection { db = db }) }) refl

store_new-IsMirrored :
    (s : StrategyInstance) (r : SqliteStrategyRegistry)
    → IsMirrored r
    → IsMirrored (store_new s r).1
unfolding store_new
store_new-IsMirrored s r h = cases (insert_strategy s r.connection.db) refl
  where
    cases :
        (x : RegistryError ⊎ Database)
        → insert_strategy s r.connection.db ≡ x
        → IsMirrored
            (elim x as (λ y. (RegistryError ⊎ StrategyInstance) × SqliteStrategyRegistry) [
              | inl e ↦
                  (inl e, record r { connection = record r.connection { in_transaction = true } })
              | inr db ↦ (
                inr s,
                record {
                  mem = put r.mem s.strategy_id s;
                  connection = commit (record r.connection { db = db });
                },
              )
            ]).1
    cases (inl e) inserted = record { clean = h.clean; mirrors = h.mirrors }
    cases (inr db) inserted = record {
      clean = refl;
      mirrors = λ k.
          let rows = r.connection.db.strategy_instances in
          get-put r.mem s.strategy_id k s
          ∙ ap (λ o. elim (s.strategy_id == k) [ true ↦ some s | false ↦ o ]) (h.mirrors k)
          ∙ sym (get-put (collect [] rows) s.strategy_id k s)
          ∙ sym (
              ap (λ d. get d k)
                (ap (collect []) (insert_strategy-rows s r.connection.db db inserted)
                  ∙ collect-append [] rows s));
    }

update_found-IsMirrored :
    (id : String) (f : StrategyInstance → StrategyInstance) (r : SqliteStrategyRegistry)
    → ((s : StrategyInstance) → (f s).strategy_id ≡ s.strategy_id)
    → IsMirrored r
    → IsMirrored (update_found id f r).1
unfolding update_found reload_from_db
update_found-IsMirrored id f r same h =
    subst (λ r'. IsMirrored (outcome (get_strategy id r).0 r').1) (sym (get_strategy-registry id r))
      (cases (get_strategy id r).0 refl)
  where
    outcome :
        RegistryError ⊎ StrategyInstance
        → SqliteStrategyRegistry
        → (RegistryError ⊎ (Unit {0})) × SqliteStrategyRegistry
    outcome found r' = elim found [
      | inl e ↦ (inl e, r')
      | inr s ↦ (
        inr tt,
        record {
          mem = put r'.mem id (f s);
          connection = change (update_strategy id f) r'.connection;
        },
      )
    ]

    cases :
        (found : RegistryError ⊎ StrategyInstance)
        → (get_strategy id r).0 ≡ found
        → IsMirrored (outcome found (reload_from_db r)).1
    cases (inl e) at_id = reload_from_db-IsMirrored r h.clean
    cases (inr s) at_id = record {
      clean = refl;
      mirrors = λ k.
          collect-update id f s r.connection.db.strategy_instances k same
            (get_strategy-mem id r s at_id);
    }

delete_strategy-IsMirrored :
    (id : String) (rmtree_fails : Bool) (r : SqliteStrategyRegistry)
    → IsMirrored r
    → IsMirrored (delete_strategy id rmtree_fails r).1
unfolding delete_strategy reload_from_db
delete_strategy-IsMirrored id rmtree_fails r h =
    subst (λ r'. IsMirrored (outcome (get_strategy id r).0 rmtree_fails r').1)
      (sym (get_strategy-registry id r)) (cases (get_strategy id r).0 rmtree_fails)
  where
    outcome :
        RegistryError ⊎ StrategyInstance
        → Bool
        → SqliteStrategyRegistry
        → (RegistryError ⊎ (Unit {0})) × SqliteStrategyRegistry
    outcome found b r' = elim found [
      | inl e ↦ (inl e, r')
      | inr s ↦
          if b then (inl delete_failed, record r' { connection = rollback r'.connection }) else (
            inr tt,
            record {
              mem = remove r'.mem id;
              connection =
                  change
                    (λ db. record db {
                      strategy_instances = keep (is_other id) db.strategy_instances;
                      dependents = cascade id db.dependents;
                    })
                    r'.connection;
            },
          )
    ]

    rows : List StrategyInstance
    rows = r.connection.db.strategy_instances

    cases :
        (found : RegistryError ⊎ StrategyInstance) (b : Bool)
        → IsMirrored (outcome found b (reload_from_db r)).1
    cases (inl e) b = reload_from_db-IsMirrored r h.clean
    cases (inr s) true =
        rollback-IsMirrored (reload_from_db r) (reload_from_db-IsMirrored r h.clean)
    cases (inr s) false = record {
      clean = refl;
      mirrors = λ k.
          get-remove (collect [] rows) id k
          ∙ ap (λ o. elim (id == k) as (λ x. Option StrategyInstance) [ true ↦ none | false ↦ o ])
              (collected rows k)
          ∙ sym (collected (keep (is_other id) rows) k ∙ last_of-keep id k rows);
    }

pub patch_strategy_atomic-IsMirrored :
    (id : String) (p : Patch) (now : ℕ) (r : SqliteStrategyRegistry)
    → IsMirrored r
    → IsMirrored (patch_strategy_atomic id p now r).1
unfolding patch_strategy_atomic
patch_strategy_atomic-IsMirrored id p now r h =
    cases (not (is_empty p.unknown)) (has_values p) (transaction-IsMirrored (patch_in id p now) r h)
  where
    cases :
        (b c : Bool)
        → IsMirrored (transaction (patch_in id p now) r).1
        → IsMirrored
            (if b
              then (inl unsupported_fields, r)
              else if c
              then transaction (patch_in id p now) r
              else (inr tt, r)).1
    cases true c done = h
    cases false true done = done
    cases false false done = h

call-IsMirrored : (c : Call) (r : SqliteStrategyRegistry) → IsMirrored r → IsMirrored (call c r)
unfolding call list_strategies update_status update_mode set_semantic_profile set_mtf_series
    set_enabled activate_strategy transition_strategy set_archived trip_worker_circuit
    reset_worker_circuit pause_all_enabled
call-IsMirrored (create s) r h = store_new-IsMirrored (inactive s) r h
call-IsMirrored (read id) r h =
    subst IsMirrored (sym (get_strategy-registry id r)) (reload_from_db-IsMirrored r h.clean)
call-IsMirrored (list which) r h = reload_from_db-IsMirrored r h.clean
call-IsMirrored (status id s now) r h = update_found-IsMirrored id _ r (λ s. refl) h
call-IsMirrored (mode id m now) r h = update_found-IsMirrored id _ r (λ s. refl) h
call-IsMirrored (profile id p now) r h = update_found-IsMirrored id _ r (λ s. refl) h
call-IsMirrored (series id payload now) r h = update_found-IsMirrored id _ r (λ s. refl) h
call-IsMirrored (enable id b now) r h = transaction-IsMirrored (set_enabled_in id b now) r h
call-IsMirrored (activate id s m now) r h = transaction-IsMirrored (activate_in id s m now) r h
call-IsMirrored (transition id b s m now) r h =
    transaction-IsMirrored (transition_in id b s m now) r h
call-IsMirrored (patch id p now) r h = patch_strategy_atomic-IsMirrored id p now r h
call-IsMirrored (archive id b now) r h = transaction-IsMirrored (set_archived_in id b now) r h
call-IsMirrored (trip reason now) r h = transaction-IsMirrored (trip_in reason now) r h
call-IsMirrored (reset now) r h = record { clean = refl; mirrors = h.mirrors }
call-IsMirrored (pause now) r h =
    reload_from_db-IsMirrored (record r { connection = change (pause_enabled now) r.connection })
      refl
call-IsMirrored (delete id rmtree_fails) r h = delete_strategy-IsMirrored id rmtree_fails r h

-- From a registry with nothing uncommitted whose view in memory agrees with the rows, any calls, failed ones among
-- them, lead to such a registry again: to reload the rows would change no lookup.
pub run-IsMirrored :
    (calls : List Call) (r : SqliteStrategyRegistry) → IsMirrored r → IsMirrored (run calls r)
unfolding run
run-IsMirrored [] r h = h
run-IsMirrored (c ∷ calls) r h = run-IsMirrored calls (call c r) (call-IsMirrored c r h)
