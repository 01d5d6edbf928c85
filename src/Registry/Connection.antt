-- ===== src/Registry/Connection.antt =====
-- The connection to SQLite and the registry (openpine/registry/strategies.py). A statement that changes
-- rows opens a transaction, which stays open until a commit or a rollback, also when the statement fails;
-- a second BEGIN fails.
use openpine.Base.Dict.{put, Dict}
use openpine.Registry.Model.{nested_transaction, RegistryError, StrategyInstance, Database}
use openpine.Base.{inr, inl, if◌then◌else◌, ◌∷◌, ◌⊎◌, List, Bool, [], false}

pub record Connection : Type 0 where
  pub db : Database
  pub committed : Database
  pub in_transaction : Bool

-- `SQLiteStrategyRegistry`: the view in memory and the connection
pub record SqliteStrategyRegistry : Type 0 where
  pub mem : Dict StrategyInstance
  pub connection : Connection

abbrev pub commit : Connection → Connection
commit c = record { db = c.db; committed = c.db; in_transaction = false }

abbrev pub rollback : Connection → Connection
rollback c = record { db = c.committed; committed = c.committed; in_transaction = false }

-- an update with its commit, outside of BEGIN
abbrev pub change : (Database → Database) → Connection → Connection
change f c = commit (record c { db = f c.db })

-- the dict comprehension of `_reload_from_db`
unfoldable pub collect : Dict StrategyInstance → List StrategyInstance → Dict StrategyInstance
unfolding put
collect mem [] = mem
collect mem (s ∷ rows) = collect (put mem s.strategy_id s) rows

-- `_reload_from_db`
unfoldable pub reload_from_db : SqliteStrategyRegistry → SqliteStrategyRegistry
unfolding collect
reload_from_db r = record r { mem = collect [] r.connection.db.strategy_instances }

-- BEGIN IMMEDIATE, a body that may raise, commit or rollback, and the reload after a commit
unfoldable pub transaction :
    (Database → RegistryError ⊎ Database)
    → SqliteStrategyRegistry
    → (RegistryError ⊎ (Unit {0})) × SqliteStrategyRegistry
unfolding reload_from_db
transaction body r =
    if r.connection.in_transaction
    then (inl nested_transaction, record r { connection = rollback r.connection })
    else elim (body r.connection.db) [
      | inl e ↦ (inl e, record r { connection = rollback r.connection })
      | inr db ↦ (
        inr tt,
        reload_from_db (record r { connection = commit (record r.connection { db = db }) }),
      )
    ]
