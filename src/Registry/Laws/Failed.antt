-- ===== src/Registry/Laws/Failed.antt =====
-- A creation that fails (openpine/registry/strategies.py) leaves the transaction of its statement open.
use openpine.Base.Dict.{put}
use openpine.Registry.Circuits.{trip_worker_circuit}
use openpine.Registry.Connection.{commit, transaction, SqliteStrategyRegistry}
use openpine.Registry.Model.{
  insert_strategy, Database, nested_transaction, RegistryError, StrategyInstance,
}
use openpine.Registry.Ops.{created, create_strategy, Naming, store_new}
use openpine.Base.{sym, subst, refl, arith, inr, ◌⊎◌, true, ℕ, inl, Option, ◌≡◌, String}

store_new-transaction :
    (s : StrategyInstance) (r : SqliteStrategyRegistry) (e : RegistryError)
    → (store_new s r).0 ≡ inl e
    → (store_new s r).1 ≡ record r { connection = record r.connection { in_transaction = true } }
unfolding store_new
store_new-transaction s r e = cases (insert_strategy s r.connection.db)
  where
    outcome : RegistryError ⊎ Database → (RegistryError ⊎ StrategyInstance) × SqliteStrategyRegistry
    outcome x = elim x [
      | inl e ↦ (inl e, record r { connection = record r.connection { in_transaction = true } })
      | inr db ↦ (
        inr s,
        record {
          mem = put r.mem s.strategy_id s;
          connection = commit (record r.connection { db = db });
        },
      )
    ]

    cases :
        (x : RegistryError ⊎ Database)
        → (outcome x).0 ≡ inl e
        → (outcome x).1 ≡ record r { connection = record r.connection { in_transaction = true } }
    cases (inl e') h = refl
    cases (inr db) h = absurd (grind (arith, h))

module _ {J : Type 0} (naming : Naming J) where
  -- After a create_strategy that fails, because its name or id is taken, the next trip_worker_circuit fails
  -- and opens no circuit: the database is what was committed before.
  pub create_strategy-trip_worker_circuit :
      (name pine_id artifact_id symbol timeframe exchange market_type params_json : String)
      (params_hash : Option String) (mode : String) (semantic_profile : Option String) (now : ℕ)
      (reason : String) (later : ℕ) (r : SqliteStrategyRegistry) (e : RegistryError)
      → let result =
          create_strategy naming name pine_id artifact_id symbol timeframe exchange market_type
            params_json params_hash mode semantic_profile now r in
        result.0 ≡ inl e
        → ((trip_worker_circuit reason later result.1).0 ≡ inl nested_transaction)
          × ((trip_worker_circuit reason later result.1).1.connection.db ≡ r.connection.committed)
  unfolding create_strategy trip_worker_circuit transaction
  create_strategy-trip_worker_circuit name pine_id artifact_id symbol timeframe exchange market_type
        params_json params_hash mode semantic_profile now reason later r e h =
      let left =
        store_new-transaction
          (created naming name pine_id artifact_id symbol timeframe exchange market_type params_json
            params_hash mode semantic_profile now)
          r e h in
      subst
        (λ x.
          ((trip_worker_circuit reason later x).0 ≡ inl nested_transaction)
          × ((trip_worker_circuit reason later x).1.connection.db ≡ r.connection.committed))
        (sym left) (refl, refl)
