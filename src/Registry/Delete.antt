-- ===== src/Registry/Delete.antt =====
-- `delete_strategy` (openpine/registry/strategies.py): the rows of a strategy in the tables that exist, and its
-- own row. Whether the removal of its data directory fails is an argument.

use openpine.Registry.Connection.{change, rollback, SqliteStrategyRegistry}
use openpine.Base.Lists.{is_empty, contains, keep}
use openpine.Registry.Ops.{get_strategy}
use openpine.Base.Dict.{remove, put, Dict, get}
use openpine.Registry.Model.{delete_failed, RegistryError, is_for, StrategyInstance, Dependent}
use openpine.Base.{
  inr, inl, ◌⊎◌, if◌then◌else◌, some, none, [], not, ◌==◌, map, ◌∷◌, Bool, List, String,
}

abbrev pub is_owned : String → Dependent → Bool
is_owned owner d = d.owner == owner

abbrev pub is_not_owned : String → Dependent → Bool
is_not_owned owner d = not (d.owner == owner)

-- DELETE FROM table WHERE strategy_id = ?, where a missing table is passed over
unfoldable pub clear_table : String → String → Dict (List Dependent) → Dict (List Dependent)
unfolding get put
clear_table strategy_id table tables = elim (get tables table) [
  | none ↦ tables
  | some rows ↦ put tables table (keep (is_not_owned strategy_id) rows)
]

unfoldable pub clear_tables : String → List String → Dict (List Dependent) → Dict (List Dependent)
unfolding clear_table
clear_tables strategy_id [] tables = tables
clear_tables strategy_id (table ∷ rest) tables =
    clear_tables strategy_id rest (clear_table strategy_id table tables)

abbrev pub order_ids : String → List Dependent → List String
order_ids strategy_id orders = map (λ o. o.id) (keep (is_owned strategy_id) orders)

abbrev pub is_fill_of : List String → Dependent → Bool
is_fill_of ids fill = not (contains fill.owner ids)

-- the deletion of orders: their fills first, and none of it goes on after a missing table
unfoldable pub clear_orders : String → Dict (List Dependent) → Dict (List Dependent)
unfolding clear_table get put
clear_orders strategy_id tables = elim (get tables "orders") [
  | none ↦ tables
  | some orders ↦
      if is_empty (order_ids strategy_id orders)
      then clear_table strategy_id "orders" tables
      else elim (get tables "fills") [
        | none ↦ tables
        | some fills ↦
            clear_table strategy_id "orders"
              (put tables "fills" (keep (is_fill_of (order_ids strategy_id orders)) fills))
      ]
]

unfoldable pub cascade : String → Dict (List Dependent) → Dict (List Dependent)
unfolding clear_tables clear_orders
cascade strategy_id tables =
    clear_tables strategy_id
      ("strategy_positions" ∷ "strategy_trades" ∷ "strategy_state_snapshots" ∷ "jobs" ∷ [])
      (clear_orders strategy_id (
        clear_tables strategy_id ("backtest_trades" ∷ "backtest_artifacts" ∷ "backtest_runs" ∷ [])
          tables))

abbrev pub is_other : String → StrategyInstance → Bool
is_other strategy_id s = not (is_for strategy_id s)

unfoldable pub delete_strategy :
    String → Bool → SqliteStrategyRegistry → (RegistryError ⊎ (Unit {0})) × SqliteStrategyRegistry
unfolding get_strategy cascade remove
delete_strategy strategy_id rmtree_fails r =
    let (found, r') = get_strategy strategy_id r in
    elim found [
      | inl e ↦ (inl e, r')
      | inr s ↦
          if rmtree_fails
          then (inl delete_failed, record r' { connection = rollback r'.connection })
          else (
            inr tt,
            record {
              mem = remove r'.mem strategy_id;
              connection =
                  change
                    (λ db. record db {
                      strategy_instances = keep (is_other strategy_id) db.strategy_instances;
                      dependents = cascade strategy_id db.dependents;
                    })
                    r'.connection;
            },
          )
    ]
