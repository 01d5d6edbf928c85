-- ===== src/Trading/OrderTable.antt =====
-- The table `orders` (openpine/storage/migrations/002_orders_schema.sql) as openpine/orders/manager.py
-- reads and writes it. Where two rows have one `created_at`, SQLite gives them in an order of its
-- choice; here it is the order of insertion.
-- a row, with the columns in the order of the schema
use openpine.Base.Lists.{contains}
use openpine.Trading.Model.{
  rejected, cancelled, partial, stop_limit, filled, stop, new, limit, sell, pending, market, buy,
  Order, Message, Floats, OrderStatus, OrderType, OrderSide,
}
use openpine.Base.{
  ◌&&◌, false, [], ◌∷◌, true, leb, not, ◌==◌, ◌∷◌, none, Bool, map, some, if◌then◌else◌, ℕ, List,
  Option, String,
}
use Prim.Native.String.{◌∷◌, String}

pub record OrderRow (F : Type 0) : Type 0 where
  pub order_id : String
  pub strategy_id : String
  pub account_id : Option String
  pub provider_order_id : Option String
  pub client_order_id : String
  pub symbol : String
  pub side : String
  pub order_type : String
  pub qty : F
  pub limit_price : Option F
  pub stop_price : Option F
  pub status : String
  pub reduce_only : ℕ
  pub filled_quantity : Option F
  pub avg_fill_price : Option F
  pub intent_json : String
  pub risk_decision_json : Option String
  pub error : Option (Message F)
  pub created_at : ℕ
  pub updated_at : ℕ

abbrev pub side_value : OrderSide → String
side_value buy = "buy"
side_value sell = "sell"

abbrev pub type_value : OrderType → String
type_value market = "market"
type_value limit = "limit"
type_value stop = "stop"
type_value stop_limit = "stop_limit"

abbrev pub status_value : OrderStatus → String
status_value pending = "pending"
status_value new = "new"
status_value filled = "filled"
status_value partial = "partial"
status_value cancelled = "cancelled"
status_value rejected = "rejected"

-- `OrderSide(value)`; `none` is a ValueError, here and below
abbrev pub to_side : String → Option OrderSide
to_side s = if s == "buy" then some buy else if s == "sell" then some sell else none

abbrev pub to_type : String → Option OrderType
to_type s =
    if s == "market"
    then some market
    else if s == "limit"
    then some limit
    else if s == "stop"
    then some stop
    else if s == "stop_limit"
    then some stop_limit
    else none

abbrev pub to_status : String → Option OrderStatus
to_status s =
    if s == "pending"
    then some pending
    else if s == "new"
    then some new
    else if s == "filled"
    then some filled
    else if s == "partial"
    then some partial
    else if s == "cancelled"
    then some cancelled
    else if s == "rejected"
    then some rejected
    else none

-- a chain of steps that may raise
infixl 20 ◌>>=◌
abbrev ◌>>=◌ {ℓ κ} : {A : Type ℓ} {B : Type κ} → Option A → (A → Option B) → Option B
none >>= f = none
some a >>= f = f a

module _ {F : Type 0} where
  abbrev pub clients : List (OrderRow F) → List String
  clients rows = map (λ r. r.client_order_id) rows

  abbrev pub order_ids : List (OrderRow F) → List String
  order_ids rows = map (λ r. r.order_id) rows

  -- the PRIMARY KEY and UNIQUE constraints of the table
  abbrev pub is_free : OrderRow F → List (OrderRow F) → Bool
  is_free row rows =
      not (contains row.order_id (order_ids rows))
      && not (contains row.client_order_id (clients rows))

  -- the row with an order id
  unfoldable pub find_order : List (OrderRow F) → String → Option (OrderRow F)
  find_order [] order_id = none
  find_order (r ∷ rows) order_id =
      if r.order_id == order_id then some r else find_order rows order_id

  -- ORDER BY created_at DESC
  unfoldable pub insert_latest : OrderRow F → List (OrderRow F) → List (OrderRow F)
  insert_latest r [] = r ∷ []
  insert_latest r (x ∷ rows) =
      let rest = insert_latest r rows in
      if leb x.created_at r.created_at then r ∷ x ∷ rows else x ∷ rest

  unfoldable pub sort_latest : List (OrderRow F) → List (OrderRow F)
  unfolding insert_latest
  sort_latest [] = []
  sort_latest (r ∷ rows) = insert_latest r (sort_latest rows)

  -- the WHERE clause
  unfoldable pub matches : Option String → Option OrderStatus → OrderRow F → Bool
  matches account_id status row = of_account account_id row.account_id && of_status status
    where
      of_account : Option String → Option String → Bool
      of_account none _ = true
      of_account (some a) none = false
      of_account (some a) (some b) = b == a

      of_status : Option OrderStatus → Bool
      of_status none = true
      of_status (some s) = row.status == status_value s

  -- the SET clause of `update_order_status`
  unfoldable pub updated :
      OrderStatus → F → Option F → Option (Message F) → ℕ → OrderRow F → OrderRow F
  updated status filled_quantity avg_fill_price error now row = record row {
    status = status_value status;
    filled_quantity = some filled_quantity;
    avg_fill_price = avg_fill_price;
    error = error;
    updated_at = now;
  }

  unfoldable pub update_row :
      (OrderRow F → OrderRow F) → String → List (OrderRow F) → List (OrderRow F)
  update_row f order_id [] = []
  update_row f order_id (row ∷ rows) =
      (if row.order_id == order_id then f row else row) ∷ update_row f order_id rows

module _ {F : Type 0} (floats : Floats F) where
  -- `row[13] if row[13] is not None else 0.0`
  abbrev or_zero : Option F → F
  or_zero none = floats.zero
  or_zero (some q) = q

  -- `row[2] if row[2] else ""`
  abbrev or_empty : Option String → String
  or_empty none = ""
  or_empty (some s) = s

  -- `_row_to_order`
  unfoldable pub row_to_order : OrderRow F → Option (Order F)
  row_to_order row = do
    side ← to_side row.side
    order_type ← to_type row.order_type
    status ← to_status row.status
    some (record {
      order_id = row.order_id;
      client_order_id = row.client_order_id;
      strategy_id = row.strategy_id;
      account_id = or_empty row.account_id;
      symbol = row.symbol;
      side = side;
      order_type = order_type;
      quantity = row.qty;
      price = row.limit_price;
      stop_price = row.stop_price;
      status = status;
      filled_quantity = or_zero row.filled_quantity;
      avg_fill_price = row.avg_fill_price;
      created_at = row.created_at;
      updated_at = row.updated_at;
      error = row.error;
    })

  -- `[self._row_to_order(row) for row in …]`
  unfoldable pub rows_to_orders : List (OrderRow F) → Option (List (Order F))
  unfolding row_to_order
  rows_to_orders [] = some []
  rows_to_orders (row ∷ rows) = do
    order ← row_to_order row
    orders ← rows_to_orders rows
    some (order ∷ orders)
