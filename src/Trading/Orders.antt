-- ===== src/Trading/Orders.antt =====
-- `OrderManager` (openpine/orders/manager.py), on the table of `Trading.OrderTable`.
pub mod Laws
pub mod Duplicates
pub mod ReadBack
use openpine.Base.Lists.{contains, keep}
use openpine.Trading.OrderTable.{
  is_free, status_value, type_value, side_value, find_order, matches, sort_latest, clients,
  update_row, rows_to_orders, row_to_order, OrderRow, updated,
}
use openpine.Trading.Model.{Message, pending, OrderStatus, OrderIntent, Floats, Order}
use openpine.Base.{[], ◌++◌, ◌&&◌, if◌then◌else◌, ◌∷◌, none, Bool, some, Option, ℕ, String, List}

pub record OrderManager (F : Type 0) : Type 0 where
  pub rows : List (OrderRow F)
  pub seen_client_ids : List String

module _ {F : Type 0} where
  -- `__init__` on a table, with `_load_existing_ids`
  unfoldable pub open_manager : List (OrderRow F) → OrderManager F
  open_manager rows = record { rows = rows; seen_client_ids = clients rows }

-- A submit is a duplicate, is accepted, or raises from the INSERT.
pub data Submission (F : Type 0) : Type 0 where
  duplicate : Submission F
  accepted : Order F → Submission F
  insert_failed : Submission F

module _ {F : Type 0} (floats : Floats F) (dumps : OrderIntent F → String) where
  -- the values of the INSERT; `dumps` is `json.dumps(_intent_payload(order))`
  unfoldable pub new_row : OrderIntent F → String → ℕ → OrderRow F
  new_row order order_id now = record {
    order_id = order_id;
    strategy_id = order.strategy_id;
    account_id = some order.account_id;
    provider_order_id = none;
    client_order_id = order.client_order_id;
    symbol = order.symbol;
    side = side_value order.side;
    order_type = type_value order.order_type;
    qty = order.quantity;
    limit_price = order.price;
    stop_price = order.stop_price;
    status = status_value pending;
    reduce_only = 0;
    filled_quantity = some floats.zero;
    avg_fill_price = none;
    intent_json = dumps order;
    risk_decision_json = none;
    error = none;
    created_at = order.created_at;
    updated_at = now;
  }

  -- the `Order` that `submit_order` returns
  unfoldable pub pending_order : OrderIntent F → String → ℕ → Order F
  pending_order order order_id now = record {
    order_id = order_id;
    client_order_id = order.client_order_id;
    strategy_id = order.strategy_id;
    account_id = order.account_id;
    symbol = order.symbol;
    side = order.side;
    order_type = order.order_type;
    quantity = order.quantity;
    price = order.price;
    stop_price = order.stop_price;
    status = pending;
    filled_quantity = floats.zero;
    avg_fill_price = none;
    created_at = order.created_at;
    updated_at = now;
    error = none;
  }

  -- `submit_order`; `order_id` comes from `generate_order_id`, and `writable` says whether the database
  -- takes the write, the constraints aside
  unfoldable pub submit_order :
      OrderIntent F → String → ℕ → Bool → OrderManager F → Submission F × OrderManager F
  unfolding new_row pending_order
  submit_order order order_id now writable m =
      let row = new_row order order_id now in
      let marked = record m { seen_client_ids = order.client_order_id ∷ m.seen_client_ids } in
      if contains order.client_order_id m.seen_client_ids
      then (duplicate, m)
      else if writable && is_free row m.rows
      then (
        accepted (pending_order order order_id now),
        record marked { rows = m.rows ++ row ∷ [] },
      )
      else (insert_failed, marked)

module _ {F : Type 0} (floats : Floats F) where
  -- `get_order`: a row that is missing gives `some none`
  unfoldable pub get_order : String → OrderManager F → Option (Option (Order F))
  unfolding row_to_order
  get_order order_id m = elim (find_order m.rows order_id) [
    | none ↦ some none
    | some row ↦ elim (row_to_order floats row) [ none ↦ none | some order ↦ some (some order) ]
  ]

  unfoldable pub list_orders :
      Option String → Option OrderStatus → OrderManager F → Option (List (Order F))
  unfolding rows_to_orders sort_latest matches
  list_orders account_id status m =
      rows_to_orders floats (sort_latest (keep (matches account_id status) m.rows))

module _ {F : Type 0} where
  unfoldable pub update_order_status :
      String → OrderStatus → F → Option F → Option (Message F) → ℕ → OrderManager F → OrderManager F
  unfolding updated update_row
  update_order_status order_id status filled_quantity avg_fill_price error now m = record m {
    rows = update_row (updated status filled_quantity avg_fill_price error now) order_id m.rows;
  }
