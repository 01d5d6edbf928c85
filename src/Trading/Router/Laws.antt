-- ===== src/Trading/Router/Laws.antt =====
-- No order reaches an adapter past the risk manager (openpine/execution/router.py).
use openpine.Trading.Risk.Gate.{Call, run, check_order-kill_switch}
use openpine.Trading.Risk.{new_manager, message_or, check_order}
use openpine.Trading.Router.{
  submit_to, check_order, Adapter, Router, route, submit_order, submit_for, rejected_order,
}
use openpine.Trading.Model.{
  adapter_error, no_adapter, blocked_order, account_not_found, rejected, Account, Message, Order,
  OrderIntent, Floats,
}
use openpine.Base.{
  ◌∙◌, sym, ap, arith, List, Bool, inl, inr, true, refl, Option-cases, Bool-cases, ◌⊎◌, some, ◌≡◌,
  String, ℕ,
}

module _ {F : Type 0} where
  -- what comes back for the reply of an adapter: its order, or a rejection with its error
  abbrev pub IsAnswer : OrderIntent F → String ⊎ Order F → Order F → Type 0
  IsAnswer order (inr filled) result = result ≡ filled
  IsAnswer order (inl e) result =
      (result.status ≡ rejected)
      × ((result.error ≡ some (adapter_error e)) × (result.client_order_id ≡ order.client_order_id))

module _ {F S : Type 0} (floats : Floats F) where
  -- an order that was refused with a message, in a world that no adapter has touched
  pub record IsRefused (order : OrderIntent F) (result : Order F) (s s' : S) : Type 0 where
    pub status : result.status ≡ rejected
    pub cause : Message F
    pub error : result.error ≡ some cause
    pub same_order : result.client_order_id ≡ order.client_order_id
    pub untouched : s' ≡ s

  rejected-IsRefused :
      (order : OrderIntent F) (m : Message F) (now : ℕ) (fresh : String) (s : S)
      → IsRefused order (rejected_order floats order m now fresh) s s
  unfolding rejected_order
  rejected-IsRefused order m now fresh s = record {
    status = refl;
    cause = m;
    error = refl;
    same_order = refl;
    untouched = refl;
  }

  submit_to-IsAnswer :
      (adapter : Adapter F S) (order : OrderIntent F) (now : ℕ) (fresh : String) (s : S)
      → IsAnswer order
          (adapter.submit_order order s).0
          (submit_to floats adapter order now fresh s).0
        × (adapter.submit_order order s
            ≡ ((adapter.submit_order order s).0, (submit_to floats adapter order now fresh s).1))
  unfolding submit_to rejected_order
  submit_to-IsAnswer adapter order now fresh s = cases (adapter.submit_order order s)
    where
      cases :
          (x : (String ⊎ Order F) × S)
          → let y : Order F × S = elim x.0 [
            | inl e ↦ (rejected_order floats order (adapter_error e) now fresh, x.1)
            | inr filled ↦ (filled, x.1)
          ] in
            IsAnswer order x.0 y.0 × (x ≡ (x.0, y.1))
      cases (inl e, s') = ((refl, (refl, refl)), refl)
      cases (inr filled, s') = (refl, refl)

  -- the order has passed: its account is known, the risk manager allowed it, and the account's adapter
  -- was called once, in the world as it was: the world afterwards is what that call made of it
  pub record IsSubmitted (order : OrderIntent F) (now seconds : ℕ) (fresh : String) (r : Router F S)
      (result : Order F) (s s' : S) : Type 0 where
    pub account : Account
    pub adapter : Adapter F S
    pub known : r.get_account order.account_id ≡ some account
    pub registered : r.adapters account.mode ≡ some adapter
    pub allowed : (check_order floats order account seconds r.risk_manager).0.0 ≡ true
    pub reply : String ⊎ Order F
    pub called : adapter.submit_order order s ≡ (reply, s')
    pub answer : IsAnswer order reply result

  submit_for-split :
      (account : Account) (order : OrderIntent F) (now seconds : ℕ) (fresh : String)
      (r : Router F S) (s : S)
      → r.get_account order.account_id ≡ some account
      → let (result, _, s') = submit_for floats account order now seconds fresh r s in
        IsSubmitted order now seconds fresh r result s s' ⊎ IsRefused order result s s'
  unfolding submit_for route
  submit_for-split account order now seconds fresh r s known =
      elim (Bool-cases (check_order floats order account seconds r.risk_manager).0.0) [
        | inr no_entry ↦ rw no_entry (
            inr (
              rejected-IsRefused order
                (message_or floats (check_order floats order account seconds r.risk_manager).0.1
                  blocked_order)
                now fresh s))
        | inl entry ↦ elim (Option-cases (r.adapters account.mode)) [
          | inl missing ↦
              rw (entry, missing)
                (inr (rejected-IsRefused order (no_adapter account.mode) now fresh s))
          | inr (adapter, found) ↦
              rw (entry, found)
                (inl (record {
                  account = account;
                  adapter = adapter;
                  known = known;
                  registered = found;
                  allowed = entry;
                  reply = (adapter.submit_order order s).0;
                  called = (submit_to-IsAnswer adapter order now fresh s).1;
                  answer = (submit_to-IsAnswer adapter order now fresh s).0;
                }))
        ]
      ]

  -- Every order is either submitted once to the adapter of its account, after the risk manager allowed
  -- it, and comes back as the adapter's order or, where the adapter raises, as rejected with the adapter's
  -- error; or it comes back rejected with an error, in which case no adapter was called.
  pub submit_order-split :
      (order : OrderIntent F) (now seconds : ℕ) (fresh : String) (r : Router F S) (s : S)
      → let (result, _, s') = submit_order floats order now seconds fresh r s in
        IsSubmitted order now seconds fresh r result s s' ⊎ IsRefused order result s s'
  unfolding submit_order
  submit_order-split order now seconds fresh r s =
      elim (Option-cases (r.get_account order.account_id)) [
        | inl unknown ↦
            rw (submit_order, unknown)
              (inr (rejected-IsRefused order (account_not_found order.account_id) now fresh s))
        | inr (account, known) ↦
            rw (submit_order, known) (submit_for-split account order now seconds fresh r s known)
      ]

  -- While the kill switch of the router's risk manager is on, whatever was called on that manager
  -- before, every order comes back rejected with an error, and no adapter is called.
  pub submit_order-kill_switch :
      (initial : Bool) (calls : List (Call F)) (order : OrderIntent F) (now seconds : ℕ)
      (fresh : String) (r : Router F S) (s : S)
      → r.risk_manager ≡ run floats calls (new_manager initial)
      → r.risk_manager.switch ≡ true
      → let (result, _, s') = submit_order floats order now seconds fresh r s in
        IsRefused order result s s'
  submit_order-kill_switch initial calls order now seconds fresh r s built on =
      elim (submit_order-split order now seconds fresh r s) [
        | inr refused ↦ refused
        | inl passed ↦ absurd (
            ground (
              arith,
              passed.allowed,
              ap (λ m. (check_order floats order passed.account seconds m).0.0) built,
              ap (λ x. x.0.0)
                  (check_order-kill_switch floats initial calls order passed.account seconds
                    (sym (ap (λ m. m.switch) built) ∙ on)),
            ))
      ]
