-- ===== src/Trading/Router/Flags.antt =====
-- The flag `live_enabled` of an account in the way of an order (openpine/risk/manager.py,
-- openpine/execution/router.py).
use openpine.Base.Dict.{get, listed, put}
use openpine.Base.Lists.{All}
use openpine.Trading.Router.{route, rejected_order, submit_for, submit_order, Router}
use openpine.Trading.Model.{
  blocked_order, blocked_by_rule, account_not_found, Order, Message, OrderIntent, Account, Floats,
}
use openpine.Trading.Risk.{
  kill_switch, message_or, RiskManager, custom, max_orders_per_minute, check_order, check_rules,
  check, max_position_size, Rule,
}
use openpine.Base.{
  refl, [], ◌++◌, ◌∙◌, false, ap, true, some, none, if◌then◌else◌, ◌∷◌, List, ◌≡◌, Option, ℕ, Bool,
  String,
}

-- a rule of the module itself
abbrev pub IsBuiltIn : {F : Type 0} → Rule F → Type 0
IsBuiltIn kill_switch = Unit
IsBuiltIn (max_position_size m) = Unit
IsBuiltIn (max_orders_per_minute m counts) = Unit
IsBuiltIn (custom f) = ⊥

-- the account with its flag set
abbrev pub enable_live : Bool → Account → Account
enable_live b a = record a { live_enabled = b }

abbrev pub enable_found : Bool → Option Account → Option Account
enable_found b none = none
enable_found b (some a) = some (enable_live b a)

module _ {F : Type 0} (floats : Floats F) where
  check-enable_live :
      (switch : Bool) (now : ℕ) (order : OrderIntent F) (a : Account) (b : Bool) (rule : Rule F)
      → IsBuiltIn rule
      → check floats switch now order (enable_live b a) rule ≡ check floats switch now order a rule
  unfolding check
  check-enable_live switch now order a b kill_switch h = refl
  check-enable_live switch now order a b (max_position_size m) h = refl
  check-enable_live switch now order a b (max_orders_per_minute m counts) h = refl
  check-enable_live switch now order a b (custom f) h = absurd h

  check_rules-enable_live :
      (switch : Bool) (now : ℕ) (order : OrderIntent F) (a : Account) (b : Bool)
      (rules : List (Rule F))
      → All IsBuiltIn rules
      → check_rules floats switch now order (enable_live b a) rules
        ≡ check_rules floats switch now order a rules
  unfolding check_rules
  check_rules-enable_live switch now order a b [] h = refl
  check_rules-enable_live switch now order a b (rule ∷ rules) h =
      let one = check-enable_live switch now order a b rule h.0 in
      let rest = check_rules-enable_live switch now order a b rules h.1 in
      ap (λ x. step x (check_rules floats switch now order (enable_live b a) rules)) one
      ∙ ap (step (check floats switch now order a rule)) rest
    where
      step :
          (Bool × Option (Message F)) × Rule F
          → Option (Option (Message F)) × List (Rule F)
          → Option (Option (Message F)) × List (Rule F)
      step ((allowed, message), rule') (verdict, rules') =
          if allowed then (verdict, rule' ∷ rules') else (some message, rule' ∷ rules)

  check_order-enable_live :
      (order : OrderIntent F) (a : Account) (b : Bool) (now : ℕ) (m : RiskManager F)
      → All IsBuiltIn m.rules
      → check_order floats order (enable_live b a) now m ≡ check_order floats order a now m
  unfolding check_order
  check_order-enable_live order a b now m h =
      ap outcome (check_rules-enable_live m.switch now order a b m.rules h)
    where
      outcome :
          Option (Option (Message F)) × List (Rule F) → (Bool × Option (Message F)) × RiskManager F
      outcome (verdict, rules) = elim verdict [
        | none ↦ ((true, none), record m { rules = rules })
        | some message ↦ (
          (false, message),
          record m {
            rules = rules;
            violations = put m.violations a.account_id (
                listed (get m.violations a.account_id)
                ++ message_or floats message blocked_by_rule ∷ []);
          },
        )
      ]

module _ {F S : Type 0} where
  -- the accounts of a router with the flag of each set by its id
  abbrev pub with_flags : (String → Bool) → Router F S → Router F S
  with_flags flags r = record r { get_account = λ id. enable_found (flags id) (r.get_account id) }

module _ {F S : Type 0} (floats : Floats F) where
  -- When the risk manager has only rules of the module, the flags live_enabled of the accounts decide nothing:
  -- with any others, submit_order gives the same order back, leaves the same risk manager, and leaves the world
  -- outside as it would have been.
  pub submit_order-with_flags :
      (order : OrderIntent F) (now seconds : ℕ) (fresh : String) (flags : String → Bool)
      (r : Router F S) (s : S)
      → All IsBuiltIn r.risk_manager.rules
      → let (result, r₁, s₁) = submit_order floats order now seconds fresh r s in
        submit_order floats order now seconds fresh (with_flags flags r) s
        ≡ (result, with_flags flags r₁, s₁)
  unfolding submit_order submit_for
  submit_order-with_flags order now seconds fresh flags r s h =
      cases (r.get_account order.account_id)
    where
      by : Router F S → Option Account → Order F × Router F S × S
      by q found = elim found [
        | none ↦ (rejected_order floats order (account_not_found order.account_id) now fresh, q, s)
        | some account ↦ submit_for floats account order now seconds fresh q s
      ]

      flagged : Order F × Router F S × S → Order F × Router F S × S
      flagged (result, q, s') = (result, with_flags flags q, s')

      cases :
          (found : Option Account)
          → by (with_flags flags r) (enable_found (flags order.account_id) found)
            ≡ flagged (by r found)
      cases none = refl
      cases (some account) =
          ap (finish (with_flags flags r)) (
            check_order-enable_live floats order account (flags order.account_id) seconds
              r.risk_manager h)
          ∙ split (check_order floats order account seconds r.risk_manager)
        where
          finish :
              Router F S → (Bool × Option (Message F)) × RiskManager F → Order F × Router F S × S
          finish q ((allowed, message), m) =
              let (routed, s') =
                route floats (r.adapters account.mode) account.mode order now fresh s in
              if allowed then (routed, record q { risk_manager = m }, s') else (
                rejected_order floats order (message_or floats message blocked_order) now fresh,
                record q { risk_manager = m },
                s,
              )

          split :
              (x : (Bool × Option (Message F)) × RiskManager F)
              → finish (with_flags flags r) x ≡ flagged (finish r x)
          split ((true, message), m) = refl
          split ((false, message), m) = refl
