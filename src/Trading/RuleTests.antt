-- ===== src/Trading/RuleTests.antt =====
-- Runs and instances for the rules of openpine/execution/models.py, with natural numbers as prices.
use mathlib.Core.Logic.{◌↔◌}
use Prim.Native.Nat.{◌/◌, ◌%◌}
use openpine.Trading.Rules.Laws.{validate_order-IsAcceptable, IsAcceptable}
use openpine.Trading.Rules.{
  is_aligned, price_not_aligned, validate_order, InstrumentRules, Arithmetic,
}
use openpine.Base.{
  eq_iff, subst, arith, ap, Option, eqb, ◌-◌, none, ◌*◌, refl, true, leb, ◌≡◌, false, ltb, some, ℕ,
}

abbrev whole : Arithmetic ℕ ℕ
whole = record {
  zero = 0;
  tiny = 1;
  lt = ltb;
  le = leb;
  mul = λ x y. x * y;
  div = λ x y. x / y;
  sub = λ x y. x - y;
  abs = λ x. x;
  round = λ x. x;
  to_decimal = λ x. some x;
  remainder = λ x y. some (x % y);
  decimal_zero = λ r. eqb r 0;
  decimal_tiny = λ r. false;
}

abbrev rules : InstrumentRules ℕ
rules = record {
  symbol = "BTCUSDT";
  tick_size = 5;
  step_size = 2;
  min_qty = 4;
  min_notional = 100;
  max_qty = some 50;
  market_order_supported = false;
}

within : validate_order whole 10 (some 15) "limit" rules ≡ (true, none)
unfolding validate_order
within = refl

off_grid : validate_order whole 10 (some 16) "limit" rules ≡ (false, some (price_not_aligned 16 5))
unfolding validate_order
off_grid = refl

within-IsAcceptable : IsAcceptable whole 10 (some 15) "limit" rules
unfolding is_aligned
within-IsAcceptable = record {
  market = λ e. absurd (ground (arith, eq_iff "limit" "market", e));
  quantity_grid = record { positive = refl; aligned = refl };
  at_least = refl;
  at_most = λ m e. ground (arith, e);
  price_grid = λ p e. record {
    positive = ground (arith, e);
    aligned = subst (λ x. is_aligned whole x 5 ≡ true) (of_some e) refl;
  };
  notional = λ p e. ground (arith, e);
}
  where
    of_some : {x y : ℕ} → Option.some x ≡ some y → x ≡ y
    of_some {x} {y} e = ap (λ o. elim o [ none ↦ x | some z ↦ z ]) e

within_accepted : validate_order whole 10 (some 15) "limit" rules ≡ (true, none)
unfolding validate_order
within_accepted = refl

validate_order-IsAcceptable_example :
    (validate_order whole 10 (some 15) "limit" rules ≡ (true, none))
    ↔ IsAcceptable whole 10 (some 15) "limit" rules
validate_order-IsAcceptable_example = validate_order-IsAcceptable whole 10 (some 15) "limit" rules
