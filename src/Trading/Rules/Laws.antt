-- ===== src/Trading/Rules/Laws.antt =====
-- Which orders `InstrumentRules` accepts (openpine/execution/models.py).
use mathlib.Core.Logic.{◌↔◌}
use openpine.Trading.Rules.{
  above, is_aligned, InstrumentRules, validate_order, validate_notional, validate_price,
  validate_quantity, Arithmetic,
}
use openpine.Base.{
  inr, inl, Bool-cases, not, ◌&&◌, refl, ◌==◌, Bool, none, eq_iff, ◌∙◌, ap, sym, arith, some, true,
  false, Option, ◌≡◌, String,
}

module _ {F D : Type 0} (a : Arithmetic F D) where
  -- positive, and on the grid of a step
  pub record IsOnGrid (value step : F) : Type 0 where
    pub positive : a.le value a.zero ≡ false
    pub aligned : is_aligned a value step ≡ true

  -- an order within the rules; `price` is none for an order at market
  pub record IsAcceptable (quantity : F) (price : Option F) (order_type : String)
      (rules : InstrumentRules F) : Type 0 where
    pub market : (order_type ≡ "market") → rules.market_order_supported ≡ true
    pub quantity_grid : IsOnGrid quantity rules.step_size
    pub at_least : a.lt quantity rules.min_qty ≡ false
    pub at_most : (m : F) → rules.max_qty ≡ some m → a.lt m quantity ≡ false
    pub price_grid : (p : F) → price ≡ some p → IsOnGrid p rules.tick_size
    pub notional : (p : F) → price ≡ some p → a.lt (a.mul p quantity) rules.min_notional ≡ false

  validate_quantity-grid :
      (quantity : F) (rules : InstrumentRules F)
      → (validate_quantity a quantity rules).0 ≡ true
      → IsOnGrid quantity rules.step_size
        × (a.lt quantity rules.min_qty ≡ false)
        × (above a quantity rules.max_qty ≡ false)
  unfolding validate_quantity
  validate_quantity-grid quantity rules h = (
    record { positive = ground (arith, h); aligned = ground (arith, h) },
    ground (arith, h),
    ground (arith, h),
  )

  validate_price-grid :
      (price : Option F) (rules : InstrumentRules F) (p : F)
      → (validate_price a price rules).0 ≡ true
      → price ≡ some p
      → IsOnGrid p rules.tick_size
  unfolding validate_price
  validate_price-grid price rules p h e =
      let k : (validate_price a (some p) rules).0 ≡ true =
        sym (ap (λ o. (validate_price a o rules).0) e) ∙ h in
      record { positive = ground (arith, k); aligned = ground (arith, k) }

  validate_notional-least :
      (quantity : F) (price : Option F) (rules : InstrumentRules F) (p : F)
      → (validate_notional a quantity price rules).0 ≡ true
      → price ≡ some p
      → a.lt (a.mul p quantity) rules.min_notional ≡ false
  unfolding validate_notional
  validate_notional-least quantity price rules p h e =
      let k : (validate_notional a quantity (some p) rules).0 ≡ true =
        sym (ap (λ o. (validate_notional a quantity o rules).0) e) ∙ h in
      ground (arith, k)

  market-ok :
      (quantity : F) (price : Option F) (order_type : String) (rules : InstrumentRules F)
      → (validate_order a quantity price order_type rules).0 ≡ true
      → (order_type ≡ "market")
      → rules.market_order_supported ≡ true
  unfolding validate_order
  market-ok quantity price order_type rules h e = ground (arith, h, eq_iff order_type "market", e)

  parts :
      (quantity : F) (price : Option F) (order_type : String) (rules : InstrumentRules F)
      → (validate_order a quantity price order_type rules).0 ≡ true
      → ((validate_quantity a quantity rules).0 ≡ true)
        × ((validate_price a price rules).0 ≡ true)
        × ((validate_notional a quantity price rules).0 ≡ true)
  unfolding validate_order
  parts quantity price order_type rules h =
      (ground (arith, h), ground (arith, h), ground (arith, h))

  accepted-IsAcceptable :
      (quantity : F) (price : Option F) (order_type : String) (rules : InstrumentRules F)
      → (validate_order a quantity price order_type rules).0 ≡ true
      → IsAcceptable quantity price order_type rules
  accepted-IsAcceptable quantity price order_type rules h =
      let (q, p, n) = parts quantity price order_type rules h in
      let (grid, least, most) = validate_quantity-grid quantity rules q in
      record {
        market = market-ok quantity price order_type rules h;
        quantity_grid = grid;
        at_least = least;
        at_most = λ m e. sym (ap (above a quantity) e) ∙ most;
        price_grid = λ x e. validate_price-grid price rules x p e;
        notional = λ x e. validate_notional-least quantity price rules x n e;
      }

  quantity-accepted :
      (quantity : F) (rules : InstrumentRules F)
      → IsOnGrid quantity rules.step_size
      → a.lt quantity rules.min_qty ≡ false
      → above a quantity rules.max_qty ≡ false
      → validate_quantity a quantity rules ≡ (true, none)
  unfolding validate_quantity
  quantity-accepted quantity rules grid least most =
      rw (validate_quantity, grid.positive, grid.aligned, least, most) refl

  above-max :
      (quantity : F) (limit : Option F)
      → ((m : F) → limit ≡ some m → a.lt m quantity ≡ false)
      → above a quantity limit ≡ false
  above-max quantity none h = refl
  above-max quantity (some m) h = h m refl

  price-accepted :
      (price : Option F) (rules : InstrumentRules F)
      → ((p : F) → price ≡ some p → IsOnGrid p rules.tick_size)
      → validate_price a price rules ≡ (true, none)
  unfolding validate_price
  price-accepted none rules h = refl
  price-accepted (some p) rules h =
      let grid = h p refl in rw (validate_price, grid.positive, grid.aligned) refl

  notional-accepted :
      (quantity : F) (price : Option F) (rules : InstrumentRules F)
      → ((p : F) → price ≡ some p → a.lt (a.mul p quantity) rules.min_notional ≡ false)
      → validate_notional a quantity price rules ≡ (true, none)
  unfolding validate_notional
  notional-accepted quantity none rules h = refl
  notional-accepted quantity (some p) rules h = rw (validate_notional, h p refl) refl

  market-supported :
      (order_type : String) (supported : Bool)
      → ((order_type ≡ "market") → supported ≡ true)
      → (order_type == "market" && not supported) ≡ false
  market-supported order_type true h = ground arith
  market-supported order_type false h = elim (Bool-cases (order_type == "market")) [
    | inl e ↦ absurd (ground (arith, h (ground (arith, e, eq_iff order_type "market"))))
    | inr e ↦ ground (arith, e)
  ]

  validate_order-accepted :
      (quantity : F) (price : Option F) (order_type : String) (rules : InstrumentRules F)
      → IsAcceptable quantity price order_type rules
      → validate_order a quantity price order_type rules ≡ (true, none)
  unfolding validate_order
  validate_order-accepted quantity price order_type rules h =
      rw
        (
          validate_order,
          market-supported order_type rules.market_order_supported h.market,
          quantity-accepted quantity rules h.quantity_grid h.at_least
              (above-max quantity rules.max_qty h.at_most),
          price-accepted price rules h.price_grid,
          notional-accepted quantity price rules h.notional,
        )
        refl

  -- validate_order accepts an order, without an error, exactly if it is within the rules: market orders are
  -- supported if it is one, quantity and price are positive and on their grids, and quantity and notional are
  -- within their limits.
  pub validate_order-IsAcceptable :
      (quantity : F) (price : Option F) (order_type : String) (rules : InstrumentRules F)
      → (validate_order a quantity price order_type rules ≡ (true, none))
        ↔ IsAcceptable quantity price order_type rules
  validate_order-IsAcceptable quantity price order_type rules = (
    λ h. accepted-IsAcceptable quantity price order_type rules (ap (λ x. x.0) h),
    validate_order-accepted quantity price order_type rules,
  )
