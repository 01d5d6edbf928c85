-- ===== src/Trading/Orders/Laws.antt =====
-- Duplicate protection and what is read back (openpine/orders/manager.py), over any calls and
-- restarts of the manager on its table.
use openpine.Trading.OrderTable.{updated, is_free, OrderRow, update_row, clients, order_ids}
use openpine.Trading.Orders.{
  insert_failed, pending_order, accepted, duplicate, new_row, open_manager, update_order_status,
  OrderManager, submit_order,
}
use openpine.Base.Lists.{contains}
use openpine.Base.{
  sym, subst, ◌&&◌, inr, inl, Bool-cases, ◌∙◌, if◌then◌else◌, ◌⊎◌, ap, map, ◌∷◌, refl, eq_iff, ◌==◌,
  true, arith, ◌||◌, Option, [], false, ◌++◌, ◌≡◌, Bool, ℕ, String, List,
}
use openpine.Trading.Model.{Message, OrderStatus, Floats, OrderIntent}

-- a call, or a restart of the process on the same database
pub data Call (F : Type 0) : Type 0 where
  submit : OrderIntent F → String → ℕ → Bool → Call F
  update : String → OrderStatus → F → Option F → Option (Message F) → ℕ → Call F
  restart : Call F

abbrev pub HasNoRepeats : List String → Type 0
HasNoRepeats [] = Unit
HasNoRepeats (x ∷ xs) = (contains x xs ≡ false) × HasNoRepeats xs

pub contains-append :
    (c : String) (xs : List String) (y : String)
    → contains c (xs ++ y ∷ []) ≡ (contains c xs || (y == c))
contains-append c [] y = ground arith
contains-append c (x ∷ xs) y = ground (arith, contains-append c xs y)

append-HasNoRepeats :
    (xs : List String) (y : String)
    → HasNoRepeats xs
    → contains y xs ≡ false
    → HasNoRepeats (xs ++ y ∷ [])
append-HasNoRepeats [] y h n = (refl, tt)
append-HasNoRepeats (x ∷ xs) y h n = (
  ground (arith, contains-append x xs y, h.0, n, eq_iff x y, eq_iff y x),
  append-HasNoRepeats xs y h.1 (ground (arith, n)),
)

module _ {F : Type 0} where
  map-update_row :
      (key : OrderRow F → String) (f : OrderRow F → OrderRow F) (order_id : String)
      (rows : List (OrderRow F))
      → ((r : OrderRow F) → key (f r) ≡ key r)
      → map key (update_row f order_id rows) ≡ map key rows
  unfolding update_row
  map-update_row key f order_id [] same = refl
  map-update_row key f order_id (r ∷ rows) same =
      ap (λ k. k ∷ map key (update_row f order_id rows)) (head (r.order_id == order_id))
      ∙ ap (λ ks. key r ∷ ks) (map-update_row key f order_id rows same)
    where
      head : (b : Bool) → key (if b then f r else r) ≡ key r
      head true = same r
      head false = refl

  pub map-append :
      (key : OrderRow F → String) (rows : List (OrderRow F)) (r : OrderRow F)
      → map key (rows ++ r ∷ []) ≡ map key rows ++ key r ∷ []
  map-append key [] r = refl
  map-append key (x ∷ rows) r = ap (λ ks. key x ∷ ks) (map-append key rows r)

module _ {F : Type 0} (floats : Floats F) (dumps : OrderIntent F → String) where
  unfoldable pub step : Call F → OrderManager F → OrderManager F
  unfolding submit_order update_order_status open_manager
  step (submit order order_id now writable) m =
      (submit_order floats dumps order order_id now writable m).1
  step (update order_id status filled price error now) m =
      update_order_status order_id status filled price error now m
  step restart m = open_manager m.rows

  unfoldable pub run : List (Call F) → OrderManager F → OrderManager F
  unfolding step
  run [] m = m
  run (c ∷ calls) m = run calls (step c m)

  -- no id is given twice, and each client id of the table is marked as seen
  pub record IsProtected (m : OrderManager F) : Type 0 where
    pub order_ids_unique : HasNoRepeats (order_ids m.rows)
    pub clients_unique : HasNoRepeats (clients m.rows)
    pub seen :
        (c : String) → contains c (clients m.rows) ≡ true → contains c m.seen_client_ids ≡ true

  pub open_manager-IsProtected :
      (rows : List (OrderRow F))
      → HasNoRepeats (order_ids rows)
      → HasNoRepeats (clients rows)
      → IsProtected (open_manager rows)
  unfolding open_manager
  open_manager-IsProtected rows ids cs = record {
    order_ids_unique = ids;
    clients_unique = cs;
    seen = λ c h. h;
  }

  pub submit_order-cases :
      (order : OrderIntent F) (order_id : String) (now : ℕ) (writable : Bool) (m : OrderManager F)
      → let row = new_row floats dumps order order_id now in
        let marked = record m { seen_client_ids = order.client_order_id ∷ m.seen_client_ids } in
        let result = submit_order floats dumps order order_id now writable m in
        ((contains order.client_order_id m.seen_client_ids ≡ true) × (result ≡ (duplicate, m)))
        ⊎ ((contains order.client_order_id m.seen_client_ids ≡ false)
            × (((is_free row m.rows ≡ true)
                  × (result ≡ (
                    accepted (pending_order floats dumps order order_id now),
                    record marked { rows = m.rows ++ row ∷ [] },
                  )))
                ⊎ (result ≡ (insert_failed, marked))))
  unfolding submit_order
  submit_order-cases order order_id now writable m =
      elim (Bool-cases (contains order.client_order_id m.seen_client_ids)) [
        | inl known ↦ inl (known, rw known refl)
        | inr unknown ↦
            let free = is_free (new_row floats dumps order order_id now) m.rows in
            elim (Bool-cases (writable && free)) [
              | inl stored ↦ inr (unknown, inl (ground (arith, stored), rw (unknown, stored) refl))
              | inr failed ↦ inr (unknown, inr (rw (unknown, failed) refl))
            ]
      ]

  pub submit_order-IsProtected :
      (order : OrderIntent F) (order_id : String) (now : ℕ) (writable : Bool) (m : OrderManager F)
      → IsProtected m
      → IsProtected (submit_order floats dumps order order_id now writable m).1
  unfolding new_row
  submit_order-IsProtected order order_id now writable m h =
      elim (submit_order-cases order order_id now writable m) [
        | inl (_, e) ↦ subst (λ x. IsProtected x.1) (sym e) h
        | inr (_, inr e) ↦
            subst (λ x. IsProtected x.1) (sym e)
              (record {
                order_ids_unique = h.order_ids_unique;
                clients_unique = h.clients_unique;
                seen = λ c k. ground (arith, h.seen c k);
              })
        | inr (_, inl (free, e)) ↦
            subst (λ x. IsProtected x.1) (sym e)
              (record {
                order_ids_unique =
                    subst HasNoRepeats (sym (map-append (λ r. r.order_id) m.rows row)) (
                      append-HasNoRepeats (order_ids m.rows) order_id h.order_ids_unique
                        (ground (arith, free)));
                clients_unique =
                    subst HasNoRepeats (sym (map-append (λ r. r.client_order_id) m.rows row)) (
                      append-HasNoRepeats (clients m.rows) order.client_order_id h.clients_unique
                        (ground (arith, free)));
                seen = λ c k. marked c k (h.seen c);
              })
      ]
    where
      row : OrderRow F
      row = new_row floats dumps order order_id now

      marked :
          (c : String)
          → contains c (clients (m.rows ++ row ∷ [])) ≡ true
          → (contains c (clients m.rows) ≡ true → contains c m.seen_client_ids ≡ true)
          → contains c (order.client_order_id ∷ m.seen_client_ids) ≡ true
      marked c k known = ground (
        arith,
        k,
        known,
        map-append (λ r. r.client_order_id) m.rows row,
        contains-append c (clients m.rows) order.client_order_id,
      )

  pub update-clients :
      (order_id : String) (status : OrderStatus) (filled : F) (price : Option F)
      (error : Option (Message F)) (now : ℕ) (m : OrderManager F) (key : OrderRow F → String)
      → ((r : OrderRow F) → key (updated status filled price error now r) ≡ key r)
      → map key (update_order_status order_id status filled price error now m).rows ≡ map key m.rows
  unfolding update_order_status
  update-clients order_id status filled price error now m key same =
      map-update_row key (updated status filled price error now) order_id m.rows same

  update-IsProtected :
      (order_id : String) (status : OrderStatus) (filled : F) (price : Option F)
      (error : Option (Message F)) (now : ℕ) (m : OrderManager F)
      → IsProtected m
      → IsProtected (update_order_status order_id status filled price error now m)
  unfolding update_order_status updated
  update-IsProtected order_id status filled price error now m h = record {
    order_ids_unique =
        subst HasNoRepeats
          (sym
            (update-clients order_id status filled price error now m (λ r. r.order_id) (λ r. refl)))
          h.order_ids_unique;
    clients_unique = subst HasNoRepeats (sym same_clients) h.clients_unique;
    seen = λ c k. h.seen c (sym (ap (contains c) same_clients) ∙ k);
  }
    where
      same_clients :
          clients (update_order_status order_id status filled price error now m).rows
          ≡ clients m.rows
      same_clients =
          update-clients order_id status filled price error now m (λ r. r.client_order_id)
            (λ r. refl)

  step-IsProtected : (c : Call F) (m : OrderManager F) → IsProtected m → IsProtected (step c m)
  unfolding step
  step-IsProtected (submit order order_id now writable) m h =
      submit_order-IsProtected order order_id now writable m h
  step-IsProtected (update order_id status filled price error now) m h =
      update-IsProtected order_id status filled price error now m h
  step-IsProtected restart m h = open_manager-IsProtected m.rows h.order_ids_unique h.clients_unique

  -- From a manager whose table has no repeats and whose stored client order ids are all marked as seen,
  -- any calls and restarts lead to such a manager again.
  pub run-IsProtected :
      (calls : List (Call F)) (m : OrderManager F) → IsProtected m → IsProtected (run calls m)
  unfolding run
  run-IsProtected [] m h = h
  run-IsProtected (c ∷ calls) m h = run-IsProtected calls (step c m) (step-IsProtected c m h)
