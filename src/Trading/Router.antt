-- ===== src/Trading/Router.antt =====
-- `ExecutionRouter` (openpine/execution/router.py). The adapters are interfaces: what they act on is
-- the state `S` of the world outside.
pub mod Laws
pub mod Flags
use openpine.Trading.Risk.{message_or, check_order, RiskManager}
use openpine.Trading.Model.{
  blocked_order, adapter_error, account_not_found, no_adapter, rejected, Account, Order, Message,
  Floats, AccountType, OrderIntent,
}
use openpine.Trading.Model.{live, paper, backtest, rejected}
use openpine.Base.{
  true, inr, false, inl, some, none, if◌then◌else◌, Option, ◌⊎◌, String, Bool, ℕ, ◌+◌,
}

-- A cancel gives an answer, `ExecutionUnavailableError`, or any other exception with its text.
pub data CancelOutcome : Type 0 where
  answered : Bool → CancelOutcome
  unavailable : CancelOutcome
  failed : String → CancelOutcome

-- `ExecutionAdapter`; a submit gives an order, or raises with a text
pub record Adapter (F S : Type 0) : Type 0 where
  pub submit_order : OrderIntent F → S → (String ⊎ Order F) × S
  pub cancel_order : String → S → CancelOutcome × S

-- `get_account` of the account manager, and `_adapters`
pub record Router (F S : Type 0) : Type 0 where
  pub risk_manager : RiskManager F
  pub get_account : String → Option Account
  pub adapters : AccountType → Option (Adapter F S)

abbrev same_mode : AccountType → AccountType → Bool
same_mode live live = true
same_mode paper paper = true
same_mode backtest backtest = true
same_mode _ _ = false

module _ {F : Type 0} (floats : Floats F) where
  -- `_rejected_order`, with the id that `generate_order_id` gave
  unfoldable pub rejected_order : OrderIntent F → Message F → ℕ → String → Order F
  rejected_order order error updated_at order_id = record {
    order_id = order_id;
    client_order_id = order.client_order_id;
    strategy_id = order.strategy_id;
    account_id = order.account_id;
    symbol = order.symbol;
    side = order.side;
    order_type = order.order_type;
    quantity = order.quantity;
    price = order.price;
    stop_price = order.stop_price;
    status = rejected;
    filled_quantity = floats.zero;
    avg_fill_price = none;
    created_at = order.created_at;
    updated_at = updated_at;
    error = some error;
  }

module _ {F S : Type 0} (floats : Floats F) where
  -- step 4: `try: return await adapter.submit_order(order)` and its handler
  unfoldable pub submit_to : Adapter F S → OrderIntent F → ℕ → String → S → Order F × S
  unfolding rejected_order
  submit_to adapter order now fresh s =
      let (result, s') = adapter.submit_order order s in
      elim result [
        | inl e ↦ (rejected_order floats order (adapter_error e) now fresh, s')
        | inr filled ↦ (filled, s')
      ]

  -- step 3
  unfoldable pub route :
      Option (Adapter F S) → AccountType → OrderIntent F → ℕ → String → S → Order F × S
  unfolding submit_to
  route none mode order now fresh s = (rejected_order floats order (no_adapter mode) now fresh, s)
  route (some adapter) mode order now fresh s = submit_to adapter order now fresh s

  -- steps 2 and 3, for an account that was found
  unfoldable pub submit_for :
      Account → OrderIntent F → ℕ → ℕ → String → Router F S → S → Order F × Router F S × S
  unfolding check_order route
  submit_for account order now seconds fresh r s =
      let ((allowed, message), m) = check_order floats order account seconds r.risk_manager in
      let r' = record r { risk_manager = m } in
      let (routed, s') = route (r.adapters account.mode) account.mode order now fresh s in
      if allowed
      then (routed, r', s')
      else (rejected_order floats order (message_or floats message blocked_order) now fresh, r', s)

  -- `submit_order`; `now` is in milliseconds, `seconds` is the clock of the rules, and `fresh` the id
  -- for a rejected order
  unfoldable pub submit_order :
      OrderIntent F → ℕ → ℕ → String → Router F S → S → Order F × Router F S × S
  unfolding submit_for rejected_order
  submit_order order now seconds fresh r s = elim (r.get_account order.account_id) [
    | none ↦ (rejected_order floats order (account_not_found order.account_id) now fresh, r, s)
    | some account ↦ submit_for account order now seconds fresh r s
  ]

-- what `cancel_order` returns, or `ExecutionUnavailableError`
pub data CancelResult : Type 0 where
  returned : Bool → CancelResult
  raised : CancelResult

-- the handlers of `cancel_order`
abbrev pub cancel_result : CancelOutcome → CancelResult
cancel_result (answered b) = returned b
cancel_result unavailable = raised
cancel_result (failed e) = raised

module _ {F S : Type 0} where
  unfoldable pub register_adapter : AccountType → Adapter F S → Router F S → Router F S
  register_adapter mode adapter r = record r {
    adapters = λ m. if same_mode m mode then some adapter else r.adapters m;
  }

  unfoldable pub cancel_order : String → String → Router F S → S → CancelResult × S
  cancel_order order_id account_id r s = elim (r.get_account account_id) [
    | none ↦ (returned false, s)
    | some account ↦ elim (r.adapters account.mode) [
      | none ↦ (raised, s)
      | some adapter ↦
          let (outcome, s') = adapter.cancel_order order_id s in (cancel_result outcome, s')
    ]
  ]
