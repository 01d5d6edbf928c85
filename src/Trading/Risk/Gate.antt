-- ===== src/Trading/Risk/Gate.antt =====
-- The kill switch (openpine/risk/manager.py) stops every order, whatever was done to the manager
-- before.
use openpine.Base.Dict.{get, put}
use openpine.Trading.Model.{kill_switch_active, Account, OrderIntent, Floats}
use openpine.Trading.Risk.{
  listed, put, new_manager, clear_violations, kill_switch, check, set_kill_switch, check_order,
  check_rules, add_rule, RiskManager, Rule,
}
use openpine.Base.{
  refl, some, ◌∙◌, inr, false, ap, inl, [], ◌∷◌, ◌++◌, true, Option-cases, ℕ, ◌∷◌, ◌≡◌, List, Bool,
  String,
}

-- a call of a method that changes the manager
pub data Call (F : Type 0) : Type 0 where
  add : Rule F → Call F
  switch_to : Bool → Call F
  check_one : OrderIntent F → Account → ℕ → Call F
  clear : String → Call F

-- the kill switch rule comes first
IsGuarded : {F : Type 0} → RiskManager F → Type 0
IsGuarded {F} m = (rules : List (Rule F)) × (m.rules ≡ kill_switch ∷ rules)

module _ {F : Type 0} (floats : Floats F) where
  unfoldable pub call : Call F → RiskManager F → RiskManager F
  unfolding add_rule set_kill_switch check_order clear_violations
  call (add rule) m = add_rule rule m
  call (switch_to b) m = set_kill_switch b m
  call (check_one order account now) m = (check_order floats order account now m).1
  call (clear account) m = clear_violations account m

  unfoldable pub run : List (Call F) → RiskManager F → RiskManager F
  unfolding call
  run [] m = m
  run (c ∷ calls) m = run calls (call c m)

  check_rules-first :
      (switch : Bool) (now : ℕ) (order : OrderIntent F) (account : Account) (rules : List (Rule F))
      → (rest : List (Rule F)) × ((check_rules floats switch now order account
            (kill_switch ∷ rules)).1
          ≡ kill_switch ∷ rest)
  unfolding check_rules check
  check_rules-first true now order account rules = (rules, refl)
  check_rules-first false now order account rules =
      ((check_rules floats false now order account rules).1, refl)

  check_order-rules :
      (order : OrderIntent F) (account : Account) (now : ℕ) (m : RiskManager F)
      → (check_order floats order account now m).1.rules
        ≡ (check_rules floats m.switch now order account m.rules).1
  unfolding check_order
  check_order-rules order account now m =
      elim (Option-cases (check_rules floats m.switch now order account m.rules).0) [
        | inl passed ↦ rw (check_order, passed) refl
        | inr (message, stopped) ↦ rw (check_order, stopped) refl
      ]

  call-IsGuarded : (c : Call F) (m : RiskManager F) → IsGuarded m → IsGuarded (call c m)
  unfolding call add_rule set_kill_switch clear_violations IsGuarded
  call-IsGuarded (add rule) m (rules, e) = (rules ++ rule ∷ [], ap (λ rs. rs ++ rule ∷ []) e)
  call-IsGuarded (switch_to b) m h = h
  call-IsGuarded (check_one order account now) m (rules, e) =
      let (rest, first) = check_rules-first m.switch now order account rules in
      (
        rest,
        check_order-rules order account now m
            ∙ ap (λ rs. (check_rules floats m.switch now order account rs).1) e
            ∙ first,
      )
  call-IsGuarded (clear account) m h = h

  run-IsGuarded :
      (calls : List (Call F)) (m : RiskManager F) → IsGuarded m → IsGuarded (run calls m)
  unfolding run
  run-IsGuarded [] m h = h
  run-IsGuarded (c ∷ calls) m h = run-IsGuarded calls (call c m) (call-IsGuarded c m h)

  -- While the kill switch of a manager is on, whatever was called on the manager before, each check
  -- blocks the order with the message of the kill switch, records it as a violation of the account, and
  -- leaves the rules as they are.
  pub check_order-kill_switch :
      (initial : Bool) (calls : List (Call F)) (order : OrderIntent F) (account : Account) (now : ℕ)
      → (run calls (new_manager initial)).switch ≡ true
      → let m = run calls (new_manager initial) in
        check_order floats order account now m ≡ (
          (false, some kill_switch_active),
          record m {
            violations =
                put m.violations account.account_id
                  (listed (get m.violations account.account_id) ++ kill_switch_active ∷ []);
          },
        )
  unfolding check_order check_rules check IsGuarded new_manager
  check_order-kill_switch initial calls order account now on =
      let m = run calls (new_manager initial) in
      let (rules, e) = run-IsGuarded calls (new_manager initial) ([], refl) in stopped m rules e on
    where
      stopped :
          (m : RiskManager F) (rules : List (Rule F))
          → m.rules ≡ kill_switch ∷ rules
          → m.switch ≡ true
          → check_order floats order account now m ≡ (
            (false, some kill_switch_active),
            record m {
              violations =
                  put m.violations account.account_id
                    (listed (get m.violations account.account_id) ++ kill_switch_active ∷ []);
            },
          )
      stopped m rules e on = rw (e, on) refl
