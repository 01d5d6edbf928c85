-- ===== src/Trading/Paper/Laws.antt =====
-- What the paper adapter keeps (openpine/execution/paper.py).
use openpine.Base.Lists.{All}
use openpine.Base.Dict.{values-put-All, Dict, values, get}
use openpine.Trading.Paper.{filled_order, values, cancel_paper, get, submit_paper, PaperState}
use openpine.Trading.Model.{filled, Floats, Order, OrderIntent}
use openpine.Base.{
  ◌==◌, none, ap, true, Bool, arith, refl, sym, inr, subst, inl, Option-cases, some, false, ◌∷◌,
  List, ◌≡◌, [], ℕ, String,
}

-- a call that changes the adapter
pub data Call (F : Type 0) : Type 0 where
  submit : OrderIntent F → String → ℕ → Call F
  cancel : String → ℕ → Call F

module _ {F : Type 0} where
  unfoldable pub no_orders : PaperState F
  no_orders = record { orders = []; client_orders = []; fills = [] }

  abbrev IsFilled : Order F → Type 0
  IsFilled order = order.status ≡ filled

module _ {F : Type 0} (floats : Floats F) where
  unfoldable pub call : Call F → PaperState F → PaperState F
  unfolding submit_paper cancel_paper
  call (submit order order_id now) s = (submit_paper floats order order_id now s).1
  call (cancel order_id now) s = (cancel_paper order_id now s).1

  unfoldable pub run : List (Call F) → PaperState F → PaperState F
  unfolding call
  run [] s = s
  run (c ∷ calls) s = run calls (call c s)

  get-values :
      (P : Order F → Type 0) (d : Dict (Order F)) (k : String) (v : Order F)
      → All P (values d)
      → get d k ≡ some v
      → P v
  unfolding get values
  get-values P [] k v h e = absurd (ground (arith, e))
  get-values P ((j, w) ∷ d) k v h e = cases (j == k) (get-values P d k v h.1) e
    where
      cases :
          (b : Bool)
          → (get d k ≡ some v → P v)
          → elim b [ true ↦ some w | false ↦ get d k ] ≡ some v
          → P v
      cases true later e = subst P (ap (λ o. elim o [ none ↦ v | some x ↦ x ]) e) h.0
      cases false later e = later e

  cancel_paper-filled :
      (order_id : String) (now : ℕ) (s : PaperState F)
      → All IsFilled (values s.orders)
      → cancel_paper order_id now s ≡ (false, s)
  unfolding cancel_paper
  cancel_paper-filled order_id now s h = elim (Option-cases (get s.orders order_id)) [
    | inl missing ↦ rw (cancel_paper, missing) refl
    | inr (order, found) ↦
        rw (cancel_paper, found, get-values IsFilled s.orders order_id order h found) refl
  ]

  call-IsFilled :
      (c : Call F) (s : PaperState F)
      → All IsFilled (values s.orders)
      → All IsFilled (values (call c s).orders)
  unfolding call submit_paper filled_order
  call-IsFilled (submit order order_id now) s h =
      values-put-All IsFilled s.orders order_id (filled_order floats order order_id now) h refl
  call-IsFilled (cancel order_id now) s h =
      subst (λ x. All IsFilled (values x.1.orders)) (sym (cancel_paper-filled order_id now s h)) h

  run-IsFilled :
      (calls : List (Call F)) (s : PaperState F)
      → All IsFilled (values s.orders)
      → All IsFilled (values (run calls s).orders)
  unfolding run
  run-IsFilled [] s h = h
  run-IsFilled (c ∷ calls) s h = run-IsFilled calls (call c s) (call-IsFilled c s h)

  -- Whatever was called on a new paper adapter, a cancel answers that it did nothing, and does nothing.
  pub cancel_paper-nothing :
      (calls : List (Call F)) (order_id : String) (now : ℕ)
      → let s = run calls no_orders in cancel_paper order_id now s ≡ (false, s)
  unfolding no_orders values
  cancel_paper-nothing calls order_id now =
      cancel_paper-filled order_id now (run calls no_orders) (run-IsFilled calls no_orders tt)
