-- ===== src/Trading/Orders/ReadBack.antt =====
-- What is stored is read back (openpine/orders/manager.py).
use openpine.Trading.Orders.Laws.{submit_order-cases}
use openpine.Base.Lists.{contains}
use openpine.Trading.Orders.{
  Submission, accepted, submit_order, OrderManager, pending_order, new_row, contains, get_order,
}
use openpine.Trading.OrderTable.{
  order_ids, row_to_order, OrderRow, status_value, type_value, side_value, to_status, to_type,
  to_side, find_order,
}
use openpine.Trading.Model.{
  rejected, cancelled, partial, stop_limit, filled, stop, new, limit, sell, Order, pending, market,
  buy, OrderIntent, Floats, OrderStatus, OrderType, OrderSide,
}
use openpine.Base.{
  none, Option, inr, ◌∙◌, ap, sym, inl, eq_refl, arith, [], ◌∷◌, ◌++◌, refl, false, Bool, some, ℕ,
  ◌≡◌, List, String,
}

to_side_lem : (s : OrderSide) → to_side (side_value s) ≡ some s
to_side_lem buy = refl
to_side_lem sell = refl

to_type_lem : (t : OrderType) → to_type (type_value t) ≡ some t
to_type_lem market = refl
to_type_lem limit = refl
to_type_lem stop = refl
to_type_lem stop_limit = refl

to_status_lem : (s : OrderStatus) → to_status (status_value s) ≡ some s
to_status_lem pending = refl
to_status_lem new = refl
to_status_lem filled = refl
to_status_lem partial = refl
to_status_lem cancelled = refl
to_status_lem rejected = refl

module _ {F : Type 0} where
  find_order-append :
      (rows : List (OrderRow F)) (r : OrderRow F)
      → contains r.order_id (order_ids rows) ≡ false
      → find_order (rows ++ r ∷ []) r.order_id ≡ some r
  unfolding find_order
  find_order-append [] r free = ground (arith, eq_refl r.order_id)
  find_order-append (x ∷ rows) r free = ground (arith, find_order-append rows r, free)

module _ {F : Type 0} (floats : Floats F) (dumps : OrderIntent F → String) where
  row_to_order-new_row :
      (order : OrderIntent F) (order_id : String) (now : ℕ)
      → row_to_order floats (new_row floats dumps order order_id now)
        ≡ some (pending_order floats dumps order order_id now)
  unfolding row_to_order new_row pending_order
  row_to_order-new_row order order_id now =
      rw (to_side_lem order.side, to_type_lem order.order_type) refl

  get_order-new_row :
      (order : OrderIntent F) (order_id : String) (now : ℕ) (m : OrderManager F)
      (seen : List String)
      → contains order_id (order_ids m.rows) ≡ false
      → get_order floats order_id (record {
        rows = m.rows ++ new_row floats dumps order order_id now ∷ [];
        seen_client_ids = seen;
      })
        ≡ some (some (pending_order floats dumps order order_id now))
  unfolding get_order new_row
  get_order-new_row order order_id now m seen free =
      rw (get_order, found, row_to_order-new_row order order_id now) refl
    where
      found :
          find_order (m.rows ++ new_row floats dumps order order_id now ∷ []) order_id
          ≡ some (new_row floats dumps order order_id now)
      found = find_order-append m.rows (new_row floats dumps order order_id now) free

  order_of : Submission F → Option (Order F)
  order_of (accepted result) = some result
  order_of _ = none

  -- An order that submit_order returns is the order that get_order then gives for its id.
  pub get_order-submit_order :
      (order : OrderIntent F) (order_id : String) (now : ℕ) (writable : Bool) (m : OrderManager F)
      (result : Order F)
      → (submit_order floats dumps order order_id now writable m).0 ≡ accepted result
      → get_order floats order_id (submit_order floats dumps order order_id now writable m).1
        ≡ some (some result)
  unfolding new_row order_of
  get_order-submit_order order order_id now writable m result taken =
      elim (submit_order-cases floats dumps order order_id now writable m) [
        | inl (_, e) ↦ absurd (ground (arith, sym (ap (λ x. x.0) e) ∙ taken))
        | inr (_, inr e) ↦ absurd (ground (arith, sym (ap (λ x. x.0) e) ∙ taken))
        | inr (_, inl (free, e)) ↦
            ap (λ x. get_order floats order_id x.1) e
            ∙ get_order-new_row order order_id now m (order.client_order_id ∷ m.seen_client_ids)
                (ground (arith, free))
            ∙ ap (λ o. some o) (ap order_of (sym (ap (λ x. x.0) e) ∙ taken))
      ]
