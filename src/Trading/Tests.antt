-- ===== src/Trading/Tests.antt =====
-- Runs and instances for the orders, risk and execution modules, with natural numbers as prices.
use openpine.Trading.Router.Flags.{submit_order-with_flags, with_flags}
use openpine.Base.Dict.{put}
use openpine.Trading.Router.Laws.{
  submit_order-kill_switch, submit_order-split, IsRefused, IsSubmitted,
}
use openpine.Trading.Risk.Gate
use openpine.Trading.Paper.Laws
use openpine.Trading.Risk.Rate.{accepted, accepted_limit, in_window}
use openpine.Base.Lists.{keep, length}
use openpine.Trading.Paper.{cancel_paper, submit_paper, PaperState}
use openpine.Trading.Risk.{
  check_order, max_orders_per_minute, max_position_size, new_manager, add_rule, RiskManager,
}
use openpine.Trading.Router.{answered, Router, submit_order, Adapter}
use openpine.Trading.Model.{
  live, kill_switch_active, notional_exceeds, filled, limit, buy, paper, Account, OrderIntent,
  Floats,
}
use openpine.Base.{
  true, refl, arith, ◌⊎◌, ◌≡◌, ◌==◌, some, ◌≤◌, if◌then◌else◌, inr, none, ltb, ◌∷◌, [], false, ◌*◌,
  ℕ, List, String,
}

abbrev numbers : Floats ℕ
numbers = record { zero = 0; mul = λ a b. a * b; lt = ltb }

abbrev dumps : OrderIntent ℕ → String
dumps order = "{}"

abbrev intent : String → OrderIntent ℕ
intent client = record {
  client_order_id = client;
  strategy_id = "s";
  account_id = "a";
  symbol = "BTCUSDT";
  side = buy;
  order_type = limit;
  quantity = 2;
  price = some 50;
  stop_price = none;
  created_at = 1;
}

abbrev account : Account
account = record {
  account_id = "a";
  name = "n";
  provider = "p";
  exchange = "binance";
  market_type = "spot";
  mode = paper;
  live_enabled = false;
  api_key_ref = none;
  api_secret_ref = none;
  permissions = none;
  api_key_hash = none;
  config = "{}";
  created_at = 0;
  updated_at = 0;
}

-- the paper adapter behind the router
abbrev paper_adapter : Adapter ℕ (PaperState ℕ)
paper_adapter = record {
  submit_order =
      λ order s. let (result, s') = submit_paper numbers order "ord_1" 5 s in (inr result, s');
  cancel_order = λ order_id s. let (done, s') = cancel_paper order_id 6 s in (answered done, s');
}

abbrev router : RiskManager ℕ → Router ℕ (PaperState ℕ)
router m = record {
  risk_manager = m;
  get_account = λ a. if a == "a" then some account else none;
  adapters = λ mode. elim mode [ paper ↦ some paper_adapter | _ ↦ none ];
}

abbrev nothing : PaperState ℕ
nothing = record { orders = []; client_orders = []; fills = [] }

-- an order within the limits is filled, and one beyond them is not
filled_once :
    (submit_order numbers
      (intent "c1")
      5
      5
      "ord_2"
      (router (add_rule (max_position_size 100) (new_manager false)))
      nothing).0.status
    ≡ filled
unfolding submit_order add_rule new_manager submit_paper
filled_once = refl

too_large :
    (submit_order numbers
      (intent "c1")
      5
      5
      "ord_2"
      (router (add_rule (max_position_size 99) (new_manager false)))
      nothing).0.error
    ≡ some (notional_exceeds 100 99)
unfolding submit_order add_rule new_manager submit_paper
too_large = refl

submit_order-split_example :
    let (result, _, s') =
      submit_order numbers (intent "c1") 5 5 "ord_2" (router (new_manager false)) nothing in
    IsSubmitted numbers (intent "c1") 5 5 "ord_2" (router (new_manager false)) result nothing s'
    ⊎ IsRefused numbers (intent "c1") result nothing s'
submit_order-split_example =
    submit_order-split numbers (intent "c1") 5 5 "ord_2" (router (new_manager false)) nothing

abbrev stopped : RiskManager ℕ
stopped =
    Gate.run numbers
      (Gate.add (max_orders_per_minute 3 [])
        ∷ Gate.check_one (intent "c1") account 4
        ∷ Gate.switch_to true
        ∷ [])
      (new_manager false)

submit_order-kill_switch_example :
    let (result, _, s') = submit_order numbers (intent "c2") 5 5 "ord_2" (router stopped) nothing in
    IsRefused numbers (intent "c2") result nothing s'
unfolding Gate.run new_manager
submit_order-kill_switch_example =
    submit_order-kill_switch numbers false
      (Gate.add (max_orders_per_minute 3 [])
        ∷ Gate.check_one (intent "c1") account 4
        ∷ Gate.switch_to true
        ∷ [])
      (intent "c2") 5 5 "ord_2" (router stopped) nothing refl refl

abbrev switched_on : RiskManager ℕ
switched_on = Gate.run numbers (Gate.switch_to true ∷ []) (new_manager false)

kill_switch_blocks : check_order numbers (intent "c2") account 5 switched_on ≡ (
  (false, some kill_switch_active),
  record switched_on { violations = ("a", kill_switch_active ∷ []) ∷ [] },
)
unfolding Gate.run new_manager put
kill_switch_blocks =
    Gate.check_order-kill_switch numbers false (Gate.switch_to true ∷ []) (intent "c2") account 5
      refl

-- a live account that has not enabled live trading, with a paper adapter in place of an exchange
abbrev live_account : Account
live_account = record account { mode = live; live_enabled = false }

abbrev live_router : Router ℕ (PaperState ℕ)
live_router = record (router (new_manager false)) {
  get_account = λ a. if a == "a" then some live_account else none;
  adapters = λ mode. elim mode [ live ↦ some paper_adapter | _ ↦ none ];
}

submit_order-with_flags_example :
    let (result, r', s') = submit_order numbers (intent "c1") 5 5 "ord_2" live_router nothing in
    submit_order numbers (intent "c1") 5 5 "ord_2" (with_flags (λ id. true) live_router) nothing
    ≡ (result, with_flags (λ id. true) r', s')
unfolding new_manager
submit_order-with_flags_example =
    submit_order-with_flags numbers (intent "c1") 5 5 "ord_2" (λ id. true) live_router nothing
      (tt, tt)

abbrev checks : List (String × ℕ)
checks = ("a", 1) ∷ ("b", 2) ∷ ("a", 3) ∷ ("a", 50) ∷ ("a", 61) ∷ []

accepted-checks : accepted 2 "a" checks [] ≡ 1 ∷ 3 ∷ 61 ∷ []
unfolding accepted
accepted-checks = refl

accepted_limit_example : length (keep (in_window 60) (accepted 2 "a" checks [])) ≤ 2
accepted_limit_example =
    accepted_limit 2 60 "a" checks (omega arith, (omega arith, (omega arith, (omega arith, tt))))

cancel_paper-nothing_example :
    let s = Laws.run numbers (Laws.submit (intent "c1") "ord_1" 5 ∷ []) Laws.no_orders in
    cancel_paper "ord_1" 6 s ≡ (false, s)
cancel_paper-nothing_example =
    Laws.cancel_paper-nothing numbers (Laws.submit (intent "c1") "ord_1" 5 ∷ []) "ord_1" 6
