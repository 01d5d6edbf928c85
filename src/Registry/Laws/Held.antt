-- ===== src/Registry/Laws/Held.antt =====
-- The methods of the registry keep what their bodies keep (openpine/registry/strategies.py).
use openpine.Base.Lists.{is_empty, keep}
use openpine.Registry.Laws.Safe.{HoldsIn}
use openpine.Registry.Patch.{has_values, patch_in, Patch, patch_strategy_atomic}
use openpine.Registry.Delete.{cascade, is_other, delete_strategy}
use openpine.Base.Dict.{remove, put, get, Dict}
use openpine.Registry.Connection.{
  commit, change, rollback, reload_from_db, transaction, SqliteStrategyRegistry,
}
use openpine.Registry.Ops.{update_found, store_new, get_strategy}
use openpine.Registry.Model.{
  delete_failed, unsupported_fields, nested_transaction, Dependent, insert_strategy,
  update_strategy, StrategyInstance, RegistryError, Database,
}
use openpine.Base.{
  not, false, true, inr, refl, inl, if◌then◌else◌, ℕ, List, ◌⊎◌, sym, Option-cases, Bool, subst,
  ◌≡◌, String,
}

-- What is committed is what the connection sees, also in a transaction that a failed statement left open, and
-- it has a property.
pub record IsHeld (P : Database → Type 0) (r : SqliteStrategyRegistry) : Type 0 where
  pub clean : r.connection.committed ≡ r.connection.db
  pub holds : P r.connection.db

pub get_strategy-registry :
    (id : String) (r : SqliteStrategyRegistry) → (get_strategy id r).1 ≡ reload_from_db r
unfolding get_strategy
get_strategy-registry id r = elim (Option-cases (get (reload_from_db r).mem id)) [
  | inl missing ↦ rw (get_strategy, missing) refl
  | inr (s, found) ↦ rw (get_strategy, found) refl
]

module _ {P : Database → Type 0} where
  pub rollback-IsHeld :
      (r : SqliteStrategyRegistry)
      → IsHeld P r
      → IsHeld P (record r { connection = rollback r.connection })
  rollback-IsHeld r h = record { clean = refl; holds = subst P (sym h.clean) h.holds }

  pub transaction-IsHeld :
      (body : Database → RegistryError ⊎ Database) (r : SqliteStrategyRegistry)
      → ((db : Database) → P db → HoldsIn P (body db))
      → IsHeld P r
      → IsHeld P (transaction body r).1
  unfolding transaction reload_from_db
  transaction-IsHeld body r preserves h =
      cases r.connection.in_transaction (body r.connection.db) (preserves r.connection.db h.holds)
    where
      cases :
          (b : Bool) (x : RegistryError ⊎ Database)
          → HoldsIn P x
          → IsHeld P
              (if b
                then (inl nested_transaction, record r { connection = rollback r.connection })
                else elim x as (λ y. (RegistryError ⊎ (Unit {0})) × SqliteStrategyRegistry) [
                  | inl e ↦ (inl e, record r { connection = rollback r.connection })
                  | inr db ↦ (
                    inr tt,
                    reload_from_db
                        (record r { connection = commit (record r.connection { db = db }) }),
                  )
                ]).1
      cases true x safe = rollback-IsHeld r h
      cases false (inl e) safe = rollback-IsHeld r h
      cases false (inr db) safe = record { clean = refl; holds = safe }

  pub change-IsHeld :
      (f : Database → Database) (mem : Dict StrategyInstance) (r : SqliteStrategyRegistry)
      → P (f r.connection.db)
      → IsHeld P (record { mem = mem; connection = change f r.connection })
  change-IsHeld f mem r safe = record { clean = refl; holds = safe }

  pub store_new-IsHeld :
      (s : StrategyInstance) (r : SqliteStrategyRegistry)
      → ((db : Database) → P db → HoldsIn P (insert_strategy s db))
      → IsHeld P r
      → IsHeld P (store_new s r).1
  unfolding store_new
  store_new-IsHeld s r preserves h =
      cases (insert_strategy s r.connection.db) (preserves r.connection.db h.holds)
    where
      cases :
          (x : RegistryError ⊎ Database)
          → HoldsIn P x
          → IsHeld P
              (elim x as (λ y. (RegistryError ⊎ StrategyInstance) × SqliteStrategyRegistry) [
                | inl e ↦
                    (inl e, record r { connection = record r.connection { in_transaction = true } })
                | inr db ↦ (
                  inr s,
                  record {
                    mem = put r.mem s.strategy_id s;
                    connection = commit (record r.connection { db = db });
                  },
                )
              ]).1
      cases (inl e) safe = record { clean = h.clean; holds = h.holds }
      cases (inr db) safe = record { clean = refl; holds = safe }

  pub reload_from_db-IsHeld :
      (r : SqliteStrategyRegistry) → IsHeld P r → IsHeld P (reload_from_db r)
  unfolding reload_from_db
  reload_from_db-IsHeld r h = record { clean = h.clean; holds = h.holds }

  pub get_strategy-IsHeld :
      (id : String) (r : SqliteStrategyRegistry) → IsHeld P r → IsHeld P (get_strategy id r).1
  get_strategy-IsHeld id r h =
      subst (IsHeld P) (sym (get_strategy-registry id r)) (reload_from_db-IsHeld r h)

  pub update_found-IsHeld :
      (id : String) (f : StrategyInstance → StrategyInstance) (r : SqliteStrategyRegistry)
      → ((db : Database) → P db → P (update_strategy id f db))
      → IsHeld P r
      → IsHeld P (update_found id f r).1
  unfolding update_found
  update_found-IsHeld id f r preserves h = cases (get_strategy id r).0 (get_strategy-IsHeld id r h)
    where
      r' : SqliteStrategyRegistry
      r' = (get_strategy id r).1

      cases :
          (found : RegistryError ⊎ StrategyInstance)
          → IsHeld P r'
          → IsHeld P
              (elim found as (λ y. (RegistryError ⊎ (Unit {0})) × SqliteStrategyRegistry) [
                | inl e ↦ (inl e, r')
                | inr s ↦ (
                  inr tt,
                  record {
                    mem = put r'.mem id (f s);
                    connection = change (update_strategy id f) r'.connection;
                  },
                )
              ]).1
      cases (inl e) sound = sound
      cases (inr s) sound =
          change-IsHeld (update_strategy id f) (put r'.mem id (f s)) r'
            (preserves r'.connection.db sound.holds)

  pub delete_strategy-IsHeld :
      (id : String) (rmtree_fails : Bool) (r : SqliteStrategyRegistry)
      → ((p : StrategyInstance → Bool) (tables : Dict (List Dependent)) (db : Database)
          → P db
          → P (record db {
            strategy_instances = keep p db.strategy_instances;
            dependents = tables;
          }))
      → IsHeld P r
      → IsHeld P (delete_strategy id rmtree_fails r).1
  unfolding delete_strategy
  delete_strategy-IsHeld id rmtree_fails r preserves h =
      cases (get_strategy id r).0 rmtree_fails (get_strategy-IsHeld id r h)
    where
      r' : SqliteStrategyRegistry
      r' = (get_strategy id r).1

      cases :
          (found : RegistryError ⊎ StrategyInstance) (b : Bool)
          → IsHeld P r'
          → IsHeld P
              (elim found as (λ y. (RegistryError ⊎ (Unit {0})) × SqliteStrategyRegistry) [
                | inl e ↦ (inl e, r')
                | inr s ↦
                    if b
                    then (inl delete_failed, record r' { connection = rollback r'.connection })
                    else (
                      inr tt,
                      record {
                        mem = remove r'.mem id;
                        connection =
                            change
                              (λ db. record db {
                                strategy_instances = keep (is_other id) db.strategy_instances;
                                dependents = cascade id db.dependents;
                              })
                              r'.connection;
                      },
                    )
              ]).1
      cases (inl e) b sound = sound
      cases (inr s) true sound = rollback-IsHeld r' sound
      cases (inr s) false sound = record {
        clean = refl;
        holds =
            preserves (is_other id) (cascade id r'.connection.db.dependents) r'.connection.db
              sound.holds;
      }

  pub patch_strategy_atomic-IsHeld :
      (id : String) (p : Patch) (now : ℕ) (r : SqliteStrategyRegistry)
      → ((db : Database) → P db → HoldsIn P (patch_in id p now db))
      → IsHeld P r
      → IsHeld P (patch_strategy_atomic id p now r).1
  unfolding patch_strategy_atomic
  patch_strategy_atomic-IsHeld id p now r preserves h =
      cases (not (is_empty p.unknown)) (has_values p)
        (transaction-IsHeld (patch_in id p now) r preserves h)
    where
      cases :
          (b c : Bool)
          → IsHeld P (transaction (patch_in id p now) r).1
          → IsHeld P
              (if b
                then (inl unsupported_fields, r)
                else if c
                then transaction (patch_in id p now) r
                else (inr tt, r)).1
      cases true c done = h
      cases false true done = done
      cases false false done = h
