-- ===== src/Trading/Orders/Duplicates.antt =====
-- No client order id is accepted twice (openpine/orders/manager.py).
use openpine.Trading.Orders.Laws.{
  update-clients, contains-append, submit_order-IsProtected, map-append, run-IsProtected,
  submit_order-cases, run, step, Call, submit, update, restart, IsProtected,
}
use openpine.Trading.OrderTable.{updated, clients}
use openpine.Trading.Orders.{
  insert_failed, accepted, duplicate, new_row, open_manager, OrderManager, submit_order,
}
use openpine.Base.Lists.{contains}
use openpine.Base.{
  eq_iff, eq_refl, sym, inr, inl, ◌∙◌, ap, ◌∷◌, refl, true, arith, [], ◌≡◌, Bool, ℕ, String, List,
}
use openpine.Trading.Model.{Order, Floats, OrderIntent}

module _ {F : Type 0} (floats : Floats F) (dumps : OrderIntent F → String) where
  step-clients :
      (call : Call F) (m : OrderManager F) (c : String)
      → contains c (clients m.rows) ≡ true
      → contains c (clients (step floats dumps call m).rows) ≡ true
  unfolding step updated open_manager new_row
  step-clients (submit order order_id now writable) m c k =
      elim (submit_order-cases floats dumps order order_id now writable m) [
        | inl (_, e) ↦ ap (λ x. contains c (clients x.1.rows)) e ∙ k
        | inr (_, inr e) ↦ ap (λ x. contains c (clients x.1.rows)) e ∙ k
        | inr (_, inl (_, e)) ↦
            ap (λ x. contains c (clients x.1.rows)) e
            ∙ ap (contains c) (
                map-append (λ r. r.client_order_id) m.rows
                  (new_row floats dumps order order_id now))
            ∙ ground (arith, k, contains-append c (clients m.rows) order.client_order_id)
      ]
  step-clients (update order_id status filled price error now) m c k =
      ap (contains c) (
        update-clients floats dumps order_id status filled price error now m
          (λ r. r.client_order_id) (λ r. refl))
      ∙ k
  step-clients restart m c k = k

  run-clients :
      (calls : List (Call F)) (m : OrderManager F) (c : String)
      → contains c (clients m.rows) ≡ true
      → contains c (clients (run floats dumps calls m).rows) ≡ true
  unfolding run
  run-clients [] m c k = k
  run-clients (call ∷ calls) m c k =
      run-clients calls (step floats dumps call m) c (step-clients call m c k)

  stored_client :
      (order : OrderIntent F) (order_id : String) (now : ℕ) (writable : Bool) (m : OrderManager F)
      (result : Order F)
      → (submit_order floats dumps order order_id now writable m).0 ≡ accepted result
      → contains order.client_order_id
          (clients (submit_order floats dumps order order_id now writable m).1.rows)
        ≡ true
  unfolding new_row
  stored_client order order_id now writable m result taken =
      elim (submit_order-cases floats dumps order order_id now writable m) [
        | inl (_, e) ↦ ground (arith, sym (ap (λ x. x.0) e) ∙ taken)
        | inr (_, inr e) ↦ ground (arith, sym (ap (λ x. x.0) e) ∙ taken)
        | inr (_, inl (_, e)) ↦
            ap (λ x. contains order.client_order_id (clients x.1.rows)) e
            ∙ ap (contains order.client_order_id) (
                map-append (λ r. r.client_order_id) m.rows
                  (new_row floats dumps order order_id now))
            ∙ ground (
              arith,
              contains-append order.client_order_id (clients m.rows) order.client_order_id,
              eq_refl order.client_order_id,
            )
      ]

  -- Once an order was accepted by a manager whose table has no repeats and whose stored client order
  -- ids are all marked as seen, every later submit with its client order id, after any calls and
  -- restarts in between, is rejected as a duplicate and changes nothing.
  pub submit_order-duplicate :
      (order again : OrderIntent F) (order_id new_id : String) (now later : ℕ)
      (writable still : Bool) (m : OrderManager F) (result : Order F) (calls : List (Call F))
      → IsProtected floats dumps m
      → (submit_order floats dumps order order_id now writable m).0 ≡ accepted result
      → again.client_order_id ≡ order.client_order_id
      → let m' =
          run floats dumps calls (submit_order floats dumps order order_id now writable m).1 in
        submit_order floats dumps again new_id later still m' ≡ (duplicate, m')
  submit_order-duplicate order again order_id new_id now later writable still m result calls h taken
        same =
      let first = (submit_order floats dumps order order_id now writable m).1 in
      let sound =
        run-IsProtected floats dumps calls first
          (submit_order-IsProtected floats dumps order order_id now writable m h) in
      let seen = sound.seen order.client_order_id (
        run-clients calls first order.client_order_id
          (stored_client order order_id now writable m result taken)) in
      elim (submit_order-cases floats dumps again new_id later still
        (run floats dumps calls first)) [
          | inl (_, e) ↦ e
          | inr (unknown, _) ↦ absurd (
              ground (
                arith,
                ap (λ c. contains c (run floats dumps calls first).seen_client_ids) same,
                seen,
                unknown,
              ))
        ]

  -- When the INSERT of a submit raises, nothing is stored, and yet the next submit with the same client
  -- order id is rejected as a duplicate.
  pub submit_order-failed :
      (order again : OrderIntent F) (order_id new_id : String) (now later : ℕ)
      (writable still : Bool) (m : OrderManager F)
      → (submit_order floats dumps order order_id now writable m).0 ≡ insert_failed
      → again.client_order_id ≡ order.client_order_id
      → let m' = (submit_order floats dumps order order_id now writable m).1 in
        (m'.rows ≡ m.rows)
        × (submit_order floats dumps again new_id later still m' ≡ (duplicate, m'))
  submit_order-failed order again order_id new_id now later writable still m failed same =
      elim (submit_order-cases floats dumps order order_id now writable m) [
        | inl (_, e) ↦ absurd (ground (arith, sym (ap (λ x. x.0) e) ∙ failed))
        | inr (_, inl (_, e)) ↦ absurd (ground (arith, sym (ap (λ x. x.0) e) ∙ failed))
        | inr (_, inr e) ↦ (ap (λ x. x.1.rows) e, again_duplicate (ap (λ x. x.1.seen_client_ids) e))
      ]
    where
      m' : OrderManager F
      m' = (submit_order floats dumps order order_id now writable m).1

      again_duplicate :
          m'.seen_client_ids ≡ order.client_order_id ∷ m.seen_client_ids
          → submit_order floats dumps again new_id later still m' ≡ (duplicate, m')
      again_duplicate marked = elim (submit_order-cases floats dumps again new_id later still m') [
        | inl (_, e) ↦ e
        | inr (unknown, _) ↦ absurd (
            ground (
              arith,
              unknown,
              ap (contains again.client_order_id) marked,
              eq_iff order.client_order_id again.client_order_id,
              same,
            ))
      ]
