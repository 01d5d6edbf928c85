-- ===== src/Trading/Rules.antt =====
-- `InstrumentRules` (openpine/execution/models.py): what an order must meet before it goes to an
-- exchange. The arithmetic of `float` and of the package `decimal` is a parameter.
pub mod Laws
use openpine.Base.{
  ◌&&◌, ◌==◌, not, ◌||◌, none, some, false, true, if◌then◌else◌, Option, Bool, String,
}

pub record Arithmetic (F D : Type 0) : Type 0 where
  pub zero : F
  -- 1e-9
  pub tiny : F
  pub lt : F → F → Bool
  pub le : F → F → Bool
  pub mul : F → F → F
  pub div : F → F → F
  pub sub : F → F → F
  pub abs : F → F
  -- the values that the source rounds are finite
  pub round : F → F
  -- Decimal(str(value)), and `%` of decimals: none is an InvalidOperation or a ValueError
  pub to_decimal : F → Option D
  pub remainder : D → D → Option D
  pub decimal_zero : D → Bool
  -- remainder < Decimal(str(1e-9))
  pub decimal_tiny : D → Bool

pub record InstrumentRules (F : Type 0) : Type 0 where
  pub symbol : String
  pub tick_size : F
  pub step_size : F
  pub min_qty : F
  pub min_notional : F
  pub max_qty : Option F
  pub market_order_supported : Bool

pub data RuleError (F : Type 0) : Type 0 where
  price_not_positive : F → RuleError F
  price_not_aligned : F → F → RuleError F
  quantity_not_positive : F → RuleError F
  quantity_not_aligned quantity_below quantity_above : F → F → RuleError F
  notional_below : F → F → RuleError F
  market_not_supported : String → RuleError F

module _ {F D : Type 0} (a : Arithmetic F D) where
  -- `_is_aligned_float`
  unfoldable pub is_aligned_float : F → F → Bool
  is_aligned_float value step =
      if a.le step a.zero
      then false
      else a.lt (a.abs (a.sub value (a.mul (a.round (a.div value step)) step))) a.tiny

  -- d_value % d_step, of the `try`
  unfoldable pub decimal_remainder : F → F → Option D
  decimal_remainder value step = elim (a.to_decimal value) [
    | none ↦ none
    | some d_value ↦ elim (a.to_decimal step) [
      | none ↦ none
      | some d_step ↦ a.remainder d_value d_step
    ]
  ]

  -- `_is_aligned_decimal`, which `_is_aligned` calls
  unfoldable pub is_aligned : F → F → Bool
  unfolding is_aligned_float decimal_remainder
  is_aligned value step =
      let result : Bool = elim (decimal_remainder value step) [
        | none ↦ is_aligned_float value step
        | some r ↦ a.decimal_zero r || a.decimal_tiny r
      ] in
      if a.le step a.zero then false else result

  unfoldable pub validate_price : Option F → InstrumentRules F → Bool × Option (RuleError F)
  unfolding is_aligned
  validate_price none rules = (true, none)
  validate_price (some price) rules =
      if a.le price a.zero
      then (false, some (price_not_positive price))
      else if not (is_aligned price rules.tick_size)
      then (false, some (price_not_aligned price rules.tick_size))
      else (true, none)

  -- `self.max_qty is not None and quantity > self.max_qty`
  abbrev pub above : F → Option F → Bool
  above quantity none = false
  above quantity (some limit) = a.lt limit quantity

  abbrev limit_or : F → Option F → F
  limit_or quantity none = quantity
  limit_or quantity (some limit) = limit

  unfoldable pub validate_quantity : F → InstrumentRules F → Bool × Option (RuleError F)
  unfolding is_aligned
  validate_quantity quantity rules =
      if a.le quantity a.zero
      then (false, some (quantity_not_positive quantity))
      else if not (is_aligned quantity rules.step_size)
      then (false, some (quantity_not_aligned quantity rules.step_size))
      else if a.lt quantity rules.min_qty
      then (false, some (quantity_below quantity rules.min_qty))
      else if above quantity rules.max_qty
      then (false, some (quantity_above quantity (limit_or quantity rules.max_qty)))
      else (true, none)

  unfoldable pub validate_notional : F → Option F → InstrumentRules F → Bool × Option (RuleError F)
  validate_notional quantity none rules = (true, none)
  validate_notional quantity (some price) rules =
      let notional = a.mul price quantity in
      if a.lt notional rules.min_notional
      then (false, some (notional_below notional rules.min_notional))
      else (true, none)

  unfoldable pub validate_order :
      F → Option F → String → InstrumentRules F → Bool × Option (RuleError F)
  unfolding validate_quantity validate_price validate_notional
  validate_order quantity price order_type rules =
      let of_quantity = validate_quantity quantity rules in
      let of_price = validate_price price rules in
      let of_notional = validate_notional quantity price rules in
      if order_type == "market" && not rules.market_order_supported
      then (false, some (market_not_supported rules.symbol))
      else if not of_quantity.0
      then of_quantity
      else if not of_price.0
      then of_price
      else if not of_notional.0
      then of_notional
      else (true, none)
