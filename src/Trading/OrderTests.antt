-- ===== src/Trading/OrderTests.antt =====
-- Runs and instances for openpine/orders/manager.py, with natural numbers as prices.
use openpine.Trading.Orders.ReadBack.{get_order-submit_order}
use openpine.Trading.Orders.Duplicates.{submit_order-failed, submit_order-duplicate}
use openpine.Trading.Orders.Laws.{
  restart, update, submit, run-IsProtected, Call, open_manager-IsProtected, run, IsProtected,
}
use openpine.Trading.Orders.{
  submit_order, pending_order, duplicate, get_order, open_manager, OrderManager,
}
use openpine.Trading.Model.{filled, limit, buy, OrderIntent, Floats}
use openpine.Base.{refl, none, some, ◌∷◌, ltb, ◌≡◌, false, map, true, [], ◌*◌, ℕ, List, String}

abbrev numbers : Floats ℕ
numbers = record { zero = 0; mul = λ a b. a * b; lt = ltb }

abbrev dumps : OrderIntent ℕ → String
dumps order = "{}"

abbrev intent : String → OrderIntent ℕ
intent client = record {
  client_order_id = client;
  strategy_id = "s";
  account_id = "a";
  symbol = "BTCUSDT";
  side = buy;
  order_type = limit;
  quantity = 2;
  price = some 50;
  stop_price = none;
  created_at = 1;
}

abbrev fresh : OrderManager ℕ
fresh = open_manager []

fresh-IsProtected : IsProtected numbers dumps fresh
fresh-IsProtected = open_manager-IsProtected numbers dumps [] tt tt

abbrev calls : List (Call ℕ)
calls =
    submit (intent "c2") "ord_2" 6 true ∷ update "ord_1" filled 2 (some 50) none 7 ∷ restart ∷ []

abbrev one_order : OrderManager ℕ
one_order = (submit_order numbers dumps (intent "c1") "ord_1" 5 true fresh).1

statuses : map (λ r. r.status) (run numbers dumps calls one_order).rows ≡ "filled" ∷ "pending" ∷ []
unfolding run submit_order open_manager
statuses = refl

run-IsProtected_example : IsProtected numbers dumps (run numbers dumps calls fresh)
run-IsProtected_example = run-IsProtected numbers dumps calls fresh fresh-IsProtected

submit_order-duplicate_example :
    submit_order numbers dumps (intent "c1") "ord_9" 9 true (run numbers dumps calls one_order)
    ≡ (duplicate, run numbers dumps calls one_order)
unfolding submit_order open_manager pending_order
submit_order-duplicate_example =
    submit_order-duplicate numbers dumps (intent "c1") (intent "c1") "ord_1" "ord_9" 5 9 true true
      fresh (pending_order numbers dumps (intent "c1") "ord_1" 5) calls fresh-IsProtected refl refl

get_order-submit_order_example :
    get_order numbers "ord_1" one_order
    ≡ some (some (pending_order numbers dumps (intent "c1") "ord_1" 5))
unfolding submit_order open_manager pending_order
get_order-submit_order_example =
    get_order-submit_order numbers dumps (intent "c1") "ord_1" 5 true fresh
      (pending_order numbers dumps (intent "c1") "ord_1" 5) refl

abbrev failed_once : OrderManager ℕ
failed_once = (submit_order numbers dumps (intent "c1") "ord_1" 5 false fresh).1

submit_order-failed_example :
    (failed_once.rows ≡ [])
    × (submit_order numbers dumps (intent "c1") "ord_2" 6 true failed_once
        ≡ (duplicate, failed_once))
unfolding submit_order open_manager
submit_order-failed_example =
    submit_order-failed numbers dumps (intent "c1") (intent "c1") "ord_1" "ord_2" 5 6 false true
      fresh refl refl
