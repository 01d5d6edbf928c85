-- ===== src/Registry/Laws/Cascade.antt =====
-- What the cascade of a deletion leaves in each table (openpine/registry/strategies.py).
use openpine.Registry.Laws.Swept.{get-clear_tables, swept-swept, get-clear_table, swept, in_table}
use openpine.Registry.Model.{Dependent}
use openpine.Base.Lists.{is_empty, contains, keep}
use openpine.Registry.Delete.{
  cascade, order_ids, clear_orders, is_fill_of, is_not_owned, clear_tables, clear_table,
}
use openpine.Base.{
  ◌++◌, false, refl, sym, eq_iff, ◌∙◌, subst, ap, [], ◌∷◌, true, none, ◌==◌, ◌||◌, some,
  if◌then◌else◌, Option, ◌≡◌, String, List, Bool,
}
use Prim.Native.String.{◌∷◌, String}
use openpine.Base.Dict.{get-put, Dict, get, put}

keep-all : (rows : List Dependent) → keep (is_fill_of []) rows ≡ rows
keep-all [] = refl
keep-all (d ∷ rows) = ap (λ ds. d ∷ ds) (keep-all rows)

-- Where both tables exist, `clear_orders` takes the orders of the strategy, and their fills.
get-clear_orders :
    (id t : String) (tables : Dict (List Dependent)) (orders fills : List Dependent)
    → get tables "orders" ≡ some orders
    → get tables "fills" ≡ some fills
    → get (clear_orders id tables) t ≡ (
        if "fills" == t
        then some (keep (is_fill_of (order_ids id orders)) fills)
        else in_table (swept id ("orders" == t)) (get tables t))
unfolding clear_orders
get-clear_orders id t tables orders fills has_orders has_fills =
    ap (λ o. get (outcome o) t) has_orders ∙ cases (order_ids id orders)
  where
    rest : List String → Dict (List Dependent)
    rest ids = if is_empty ids then clear_table id "orders" tables else elim (get tables "fills") [
      | none ↦ tables
      | some fs ↦ clear_table id "orders" (put tables "fills" (keep (is_fill_of ids) fs))
    ]

    outcome : Option (List Dependent) → Dict (List Dependent)
    outcome o = elim o [ none ↦ tables | some os ↦ rest (order_ids id os) ]

    Expected : List String → Bool → Option (List Dependent)
    Expected ids b =
        if b
        then some (keep (is_fill_of ids) fills)
        else in_table (swept id ("orders" == t)) (get tables t)

    no_orders :
        (b : Bool)
        → ("fills" == t) ≡ b
        → in_table (swept id ("orders" == t)) (get tables t) ≡ Expected [] b
    no_orders true e =
        subst
          (λ k.
            in_table (swept id ("orders" == k)) (get tables k) ≡ some (keep (is_fill_of []) fills))
          ((eq_iff "fills" t).0 e)
          (ap (in_table (swept id false)) has_fills ∙ ap some (sym (keep-all fills)))
    no_orders false e = refl

    with_fills :
        (ids : List String) (b : Bool)
        → ("fills" == t) ≡ b
        → in_table (swept id ("orders" == t)) (elim b as (λ x. Option (List Dependent)) [
          | true ↦ some (keep (is_fill_of ids) fills)
          | false ↦ get tables t
        ])
          ≡ Expected ids b
    with_fills ids true e =
        subst
          (λ k.
            in_table (swept id ("orders" == k)) (some (keep (is_fill_of ids) fills))
            ≡ some (keep (is_fill_of ids) fills))
          ((eq_iff "fills" t).0 e) refl
    with_fills ids false e = refl

    cases : (ids : List String) → get (rest ids) t ≡ Expected ids ("fills" == t)
    cases [] = get-clear_table id "orders" t tables ∙ no_orders ("fills" == t) refl
    cases (i ∷ ids) =
        ap
          (λ o.
            get
              (elim o as (λ x. Dict (List Dependent)) [
                | none ↦ tables
                | some fs ↦
                    clear_table id "orders" (put tables "fills" (keep (is_fill_of (i ∷ ids)) fs))
              ])
              t)
          has_fills
        ∙ get-clear_table id "orders" t (put tables "fills" (keep (is_fill_of (i ∷ ids)) fills))
        ∙ ap (in_table (swept id ("orders" == t)))
            (get-put tables "fills" t (keep (is_fill_of (i ∷ ids)) fills))
        ∙ with_fills (i ∷ ids) ("fills" == t) refl

-- the tables of a strategy's rows
abbrev pub owned_tables : List String
owned_tables =
    "backtest_trades" ∷ "backtest_artifacts" ∷ "backtest_runs" ∷ "orders" ∷ "strategy_positions"
    ∷ "strategy_trades" ∷ "strategy_state_snapshots" ∷ "jobs" ∷ []

-- what remains of a table
abbrev pub remains : String → List Dependent → String → List Dependent → List Dependent
remains id orders t rows =
    if "fills" == t
    then keep (is_fill_of (order_ids id orders)) rows
    else if contains t owned_tables
    then keep (is_not_owned id) rows
    else rows

contains-append :
    (t : String) (xs ys : List String) → contains t (xs ++ ys) ≡ (contains t xs || contains t ys)
contains-append t [] ys = refl
contains-append t (x ∷ xs) ys = cases (x == t) (contains-append t xs ys)
  where
    cases :
        (b : Bool)
        → contains t (xs ++ ys) ≡ (contains t xs || contains t ys)
        → elim b [ true ↦ true | false ↦ contains t (xs ++ ys) ]
          ≡ (elim b [ true ↦ true | false ↦ contains t xs ] || contains t ys)
    cases true ih = refl
    cases false ih = ih

abbrev before_orders : List String
before_orders = "backtest_trades" ∷ "backtest_artifacts" ∷ "backtest_runs" ∷ []

abbrev after_orders : List String
after_orders = "strategy_positions" ∷ "strategy_trades" ∷ "strategy_state_snapshots" ∷ "jobs" ∷ []

contains-owned_tables :
    (t : String)
    → (contains t before_orders || "orders" == t || contains t after_orders)
      ≡ contains t owned_tables
contains-owned_tables t =
    any (contains t before_orders) ("orders" == t)
    ∙ sym (contains-append t before_orders ("orders" ∷ after_orders))
  where
    any :
        (a o : Bool)
        → (a || o || contains t after_orders)
          ≡ (a || elim o [ true ↦ true | false ↦ contains t after_orders ])
    any true o = refl
    any false true = refl
    any false false = refl

pub get-cascade :
    (id t : String) (tables : Dict (List Dependent)) (orders fills : List Dependent)
    → get tables "orders" ≡ some orders
    → get tables "fills" ≡ some fills
    → get (cascade id tables) t ≡ in_table (remains id orders t) (get tables t)
unfolding cascade
get-cascade id t tables orders fills has_orders has_fills =
    get-clear_tables id t after_orders (clear_orders id (clear_tables id before_orders tables))
    ∙ ap (in_table (swept id (contains t after_orders))) (
        get-clear_orders id t (clear_tables id before_orders tables) orders fills
          (get-clear_tables id "orders" before_orders tables
            ∙ ap (in_table (swept id false)) has_orders)
          (get-clear_tables id "fills" before_orders tables
            ∙ ap (in_table (swept id false)) has_fills)
        ∙ ap (λ o. if "fills" == t then some taken else in_table (swept id ("orders" == t)) o)
            (get-clear_tables id t before_orders tables))
    ∙ cases ("fills" == t) refl
  where
    taken : List Dependent
    taken = keep (is_fill_of (order_ids id orders)) fills

    owned :
        (o : Option (List Dependent))
        → in_table
            (swept id (contains t after_orders))
            (in_table (swept id ("orders" == t)) (in_table (swept id (contains t before_orders)) o))
          ≡ in_table (swept id (contains t owned_tables)) o
    owned none = refl
    owned (some rows) = ap some (
        ap (swept id (contains t after_orders))
          (swept-swept id ("orders" == t) (contains t before_orders) rows)
        ∙ swept-swept id (contains t after_orders) (contains t before_orders || "orders" == t) rows
        ∙ ap (λ b. swept id b rows) (contains-owned_tables t))

    cases :
        (b : Bool)
        → ("fills" == t) ≡ b
        → in_table (swept id (contains t after_orders)) (
            if b
            then some taken
            else in_table
                (swept id ("orders" == t))
                (in_table (swept id (contains t before_orders)) (get tables t)))
          ≡ in_table
              (λ rows.
                if b
                then keep (is_fill_of (order_ids id orders)) rows
                else if contains t owned_tables
                then keep (is_not_owned id) rows
                else rows)
              (get tables t)
    cases true e =
        subst
          (λ k.
            in_table (swept id (contains k after_orders)) (some taken)
            ≡ in_table (keep (is_fill_of (order_ids id orders))) (get tables k))
          ((eq_iff "fills" t).0 e)
          (sym (ap (in_table (keep (is_fill_of (order_ids id orders)))) has_fills))
    cases false e = owned (get tables t)
