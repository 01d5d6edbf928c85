-- ===== src/Trading/Risk.antt =====
-- `RiskManager` and its rules (openpine/risk/manager.py). `now` is `int(time.time())`, in seconds.
pub mod Rate
pub mod Gate
use openpine.Base.Lists.{length, keep}
use openpine.Trading.Model.{
  text, rate_exceeded, blocked_by_rule, kill_switch_active, notional_exceeds, Account, Message,
  OrderIntent, Floats,
}
use openpine.Base.Dict.{listed, put, get, Dict}
use openpine.Base.{
  ◌==◌, false, true, leb, none, if◌then◌else◌, some, ◌∷◌, String, [], ltb, ◌++◌, List, Option, Bool,
  ℕ, ◌+◌,
}

-- The rules of the module, and any other as a function of the order and the account. The kill switch
-- rule refers to the manager's own switch.
pub data Rule (F : Type 0) : Type 0 where
  kill_switch : Rule F
  max_position_size : F → Rule F
  max_orders_per_minute : ℕ → Dict (List ℕ) → Rule F
  custom : (OrderIntent F → Account → Bool × Option (Message F)) → Rule F

pub record RiskManager (F : Type 0) : Type 0 where
  pub switch : Bool
  pub rules : List (Rule F)
  pub violations : Dict (List (Message F))

-- `ts > now - 60`
abbrev pub is_recent : ℕ → ℕ → Bool
is_recent now ts = ltb now (ts + 60)

-- `MaxOrdersPerMinuteRule.check` on the counts of one account
unfoldable pub admit : ℕ → ℕ → List ℕ → Bool × List ℕ
admit max_orders now ts =
    let kept = keep (is_recent now) ts in
    if leb max_orders (length kept) then (false, kept) else (true, kept ++ now ∷ [])

-- and on the table `_order_counts`
unfoldable pub admit_account : ℕ → String → ℕ → Dict (List ℕ) → Bool × Dict (List ℕ)
unfolding admit get put
admit_account max_orders account now counts =
    let (allowed, ts) = admit max_orders now (listed (get counts account)) in
    (allowed, put counts account ts)

module _ {F : Type 0} (floats : Floats F) where
  -- `MaxPositionSizeRule.check`
  unfoldable pub check_position : F → OrderIntent F → Bool × Option (Message F)
  check_position max_notional order = elim order.price [
    | none ↦ (true, none)
    | some price ↦
        let notional = floats.mul price order.quantity in
        if floats.lt max_notional notional
        then (false, some (notional_exceeds notional max_notional))
        else (true, none)
  ]

  -- `rule.check(order, account)`, with the rule as it is afterwards
  unfoldable pub check :
      Bool → ℕ → OrderIntent F → Account → Rule F → (Bool × Option (Message F)) × Rule F
  unfolding check_position admit_account
  check switch now order account kill_switch =
      (if switch then (false, some kill_switch_active) else (true, none), kill_switch)
  check switch now order account (max_position_size m) =
      (check_position m order, max_position_size m)
  check switch now order account (max_orders_per_minute m counts) =
      let (allowed, counts') = admit_account m account.account_id now counts in
      (
        if allowed then (true, none) else (false, some (rate_exceeded account.account_id m)),
        max_orders_per_minute m counts',
      )
  check switch now order account (custom f) = (f order account, custom f)

  -- `for rule in self._rules`: none where all rules allow the order, and the message of the first that
  -- does not
  unfoldable pub check_rules :
      Bool
      → ℕ
      → OrderIntent F
      → Account
      → List (Rule F)
      → Option (Option (Message F)) × List (Rule F)
  unfolding check
  check_rules switch now order account [] = (none, [])
  check_rules switch now order account (rule ∷ rules) =
      let ((allowed, message), rule') = check switch now order account rule in
      let (verdict, rules') = check_rules switch now order account rules in
      if allowed then (verdict, rule' ∷ rules') else (some message, rule' ∷ rules)

  -- error_message or f"Order blocked by …"
  abbrev pub message_or : Option (Message F) → Message F → Message F
  message_or none m = m
  message_or (some (text s)) m = if s == "" then m else text s
  message_or (some given) m = given

  unfoldable pub check_order :
      OrderIntent F → Account → ℕ → RiskManager F → (Bool × Option (Message F)) × RiskManager F
  unfolding check_rules get put
  check_order order account now m =
      let (verdict, rules) = check_rules m.switch now order account m.rules in
      elim verdict [
        | none ↦ ((true, none), record m { rules = rules })
        | some message ↦ (
          (false, message),
          record m {
            rules = rules;
            violations = put m.violations account.account_id (
                listed (get m.violations account.account_id)
                ++ message_or message blocked_by_rule ∷ []);
          },
        )
      ]

module _ {F : Type 0} where
  -- `RiskManager.__init__`
  unfoldable pub new_manager : Bool → RiskManager F
  new_manager switch = record { switch = switch; rules = kill_switch ∷ []; violations = [] }

  unfoldable pub add_rule : Rule F → RiskManager F → RiskManager F
  add_rule rule m = record m { rules = m.rules ++ rule ∷ [] }

  unfoldable pub set_kill_switch : Bool → RiskManager F → RiskManager F
  set_kill_switch enabled m = record m { switch = enabled }

  unfoldable pub get_violations : String → RiskManager F → List (Message F)
  unfolding get
  get_violations account m = listed (get m.violations account)

  unfoldable pub clear_violations : String → RiskManager F → RiskManager F
  unfolding put
  clear_violations account m = record m { violations = put m.violations account [] }
