-- ===== src/Trading/Paper.antt =====
-- `PaperExecutionAdapter` (openpine/execution/paper.py). `client_orders` leads to the id of the order
-- that the source's map shares with `_orders`; the source never reads that map.
pub mod Laws
use openpine.Base.Lists.{keep}
use openpine.Trading.Model.{cancelled, filled, OrderIntent, Order, OrderSide, Floats, OrderStatus}
use openpine.Base.Dict.{put, values, get, Dict}
use Prim.Native.String.{[], String, ◌++◌ as append}
use openpine.Base.{
  [], ◌==◌, if◌then◌else◌, ◌∷◌, false, ◌++◌, some, none, true, List, Bool, String, Option, ℕ, ◌+◌,
}

pub record Fill (F : Type 0) : Type 0 where
  pub fill_id : String
  pub order_id : String
  pub strategy_id : String
  pub account_id : String
  pub symbol : String
  pub side : OrderSide
  pub qty : F
  pub price : F
  pub fee : F
  pub fee_asset : Option String
  pub fill_time : ℕ
  pub created_at : ℕ

pub record PaperState (F : Type 0) : Type 0 where
  pub orders : Dict (Order F)
  pub client_orders : Dict String
  pub fills : List (Fill F)

-- `status in (FILLED, CANCELLED)`
abbrev pub is_closed : OrderStatus → Bool
is_closed filled = true
is_closed cancelled = true
is_closed _ = false

module _ {F : Type 0} (floats : Floats F) where
  -- `_fill_price`
  unfoldable pub fill_price : OrderIntent F → F
  fill_price order = elim order.price [ none ↦ floats.zero | some p ↦ p ]

  -- `_fill_record`
  unfoldable pub fill_record : OrderIntent F → Order F → F → ℕ → Fill F
  fill_record order filled_order price fill_time = record {
    fill_id = append "fill_" filled_order.order_id;
    order_id = filled_order.order_id;
    strategy_id = order.strategy_id;
    account_id = order.account_id;
    symbol = order.symbol;
    side = order.side;
    qty = order.quantity;
    price = price;
    fee = floats.zero;
    fee_asset = none;
    fill_time = fill_time;
    created_at = fill_time;
  }

  -- the `Order` that `submit_order` builds
  unfoldable pub filled_order : OrderIntent F → String → ℕ → Order F
  unfolding fill_price
  filled_order order order_id now = record {
    order_id = order_id;
    client_order_id = order.client_order_id;
    strategy_id = order.strategy_id;
    account_id = order.account_id;
    symbol = order.symbol;
    side = order.side;
    order_type = order.order_type;
    quantity = order.quantity;
    price = order.price;
    stop_price = order.stop_price;
    status = filled;
    filled_quantity = order.quantity;
    avg_fill_price = some (fill_price order);
    created_at = order.created_at;
    updated_at = now;
    error = none;
  }

  unfoldable pub submit_paper : OrderIntent F → String → ℕ → PaperState F → Order F × PaperState F
  unfolding filled_order fill_record put
  submit_paper order order_id now s =
      let result = filled_order order order_id now in
      (
        result,
        record {
          orders = put s.orders order_id result;
          client_orders = put s.client_orders order.client_order_id order_id;
          fills = s.fills ++ fill_record order result (fill_price order) now ∷ [];
        },
      )

module _ {F : Type 0} where
  unfoldable pub cancel_paper : String → ℕ → PaperState F → Bool × PaperState F
  unfolding get put
  cancel_paper order_id now s = elim (get s.orders order_id) [
    | none ↦ (false, s)
    | some order ↦ if is_closed order.status then (false, s) else (
      true,
      record s {
        orders = put s.orders order_id (record order { status = cancelled; updated_at = now });
      },
    )
  ]

  unfoldable pub get_order_status : String → PaperState F → Option (Order F)
  unfolding get
  get_order_status order_id s = get s.orders order_id

  unfoldable pub get_fills : Option String → PaperState F → List (Fill F)
  get_fills none s = s.fills
  get_fills (some account) s = keep (λ f. f.account_id == account) s.fills

  unfoldable pub get_orders : Option String → PaperState F → List (Order F)
  unfolding values
  get_orders none s = values s.orders
  get_orders (some account) s = keep (λ o. o.account_id == account) (values s.orders)
