-- ===== src/Registry/Laws/Deletion.antt =====
-- What a deletion leaves of the database (openpine/registry/strategies.py).
use openpine.Registry.Laws.Held.{get_strategy-registry}
use openpine.Registry.Ops.{get_strategy}
use openpine.Registry.Laws.Cascade.{owned_tables, get-cascade, remains}
use openpine.Registry.Laws.Swept.{in_table}
use openpine.Base.Lists.{contains, keep}
use openpine.Registry.Connection.{change, rollback, SqliteStrategyRegistry, reload_from_db}
use openpine.Registry.Delete.{
  is_fill_of, is_not_owned, order_ids, cascade, is_other, delete_strategy,
}
use openpine.Base.{
  ◌||◌, ◌&&◌, Option, ◌==◌, sym, subst, arith, false, refl, [], ◌∷◌, ◌∙◌, true, ap, if◌then◌else◌,
  inl, not, ◌⊎◌, some, inr, none, ◌≡◌, Bool, List, String,
}
use openpine.Registry.Model.{
  delete_failed, is_for, RegistryError, Dependent, StrategyInstance, Database, find_strategy,
}
use Prim.Native.String.{◌∷◌, String}
use openpine.Base.Dict.{remove, get}

find-keep :
    (id : String) (rows : List StrategyInstance) → find_strategy id (keep (is_other id) rows) ≡ none
unfolding find_strategy
find-keep id [] = refl
find-keep id (s ∷ rows) = cases (is_for id s) refl (find-keep id rows)
  where
    cases :
        (b : Bool)
        → is_for id s ≡ b
        → find_strategy id (keep (is_other id) rows) ≡ none
        → find_strategy id (elim (not b) as (λ x. List StrategyInstance) [
          | true ↦ s ∷ keep (is_other id) rows
          | false ↦ keep (is_other id) rows
        ])
          ≡ none
    cases true e ih = ih
    cases false e ih =
        ap (λ b. if b then some s else find_strategy id (keep (is_other id) rows)) e ∙ ih

abbrev deleted : String → Database → Database
deleted id db = record db {
  strategy_instances = keep (is_other id) db.strategy_instances;
  dependents = cascade id db.dependents;
}

delete_strategy-deleted :
    (id : String) (rmtree_fails : Bool) (r : SqliteStrategyRegistry)
    → (delete_strategy id rmtree_fails r).0 ≡ inr tt
    → (delete_strategy id rmtree_fails r).1.connection.db ≡ deleted id r.connection.db
unfolding delete_strategy reload_from_db
delete_strategy-deleted id rmtree_fails r =
    subst
      (λ r'.
        (outcome (get_strategy id r).0 rmtree_fails r').0 ≡ inr tt
        → (outcome (get_strategy id r).0 rmtree_fails r').1.connection.db
          ≡ deleted id r.connection.db)
      (sym (get_strategy-registry id r)) (cases (get_strategy id r).0 rmtree_fails)
  where
    outcome :
        RegistryError ⊎ StrategyInstance
        → Bool
        → SqliteStrategyRegistry
        → (RegistryError ⊎ (Unit {0})) × SqliteStrategyRegistry
    outcome found b r' = elim found [
      | inl e ↦ (inl e, r')
      | inr s ↦
          if b then (inl delete_failed, record r' { connection = rollback r'.connection }) else (
            inr tt,
            record { mem = remove r'.mem id; connection = change (deleted id) r'.connection },
          )
    ]

    cases :
        (found : RegistryError ⊎ StrategyInstance) (b : Bool)
        → (outcome found b (reload_from_db r)).0 ≡ inr tt
        → (outcome found b (reload_from_db r)).1.connection.db ≡ deleted id r.connection.db
    cases (inl e) b done = absurd (grind (arith, done))
    cases (inr s) true done = absurd (grind (arith, done))
    cases (inr s) false done = refl

-- there is an order of this id that is owned by the strategy
abbrev pub has_order : String → String → List Dependent → Bool
has_order id order_id [] = false
has_order id order_id (o ∷ orders) =
    o.owner == id && o.id == order_id || has_order id order_id orders

-- what is to be left of a table
abbrev pub left : String → List Dependent → String → List Dependent → List Dependent
left id orders t rows =
    if "fills" == t
    then keep (λ fill. not (has_order id fill.owner orders)) rows
    else if contains t owned_tables
    then keep (λ row. not (row.owner == id)) rows
    else rows

contains-order_ids :
    (id order_id : String) (orders : List Dependent)
    → contains order_id (order_ids id orders) ≡ has_order id order_id orders
contains-order_ids id order_id [] = refl
contains-order_ids id order_id (o ∷ orders) = ground (arith, contains-order_ids id order_id orders)

keep-same {ℓ} :
    {A : Type ℓ} (p q : A → Bool) → ((x : A) → p x ≡ q x) → (xs : List A) → keep p xs ≡ keep q xs
keep-same p q h [] = refl
keep-same p q h (x ∷ xs) =
    ap (λ b. elim b [ true ↦ x ∷ keep p xs | false ↦ keep p xs ]) (h x)
    ∙ ap (λ ys. elim (q x) [ true ↦ x ∷ ys | false ↦ ys ]) (keep-same p q h xs)

remains-left :
    (id : String) (orders : List Dependent) (t : String) (rows : List Dependent)
    → remains id orders t rows ≡ left id orders t rows
remains-left id orders t rows =
    ap
      (λ fills.
        if "fills" == t
        then fills
        else if contains t owned_tables
        then keep (is_not_owned id) rows
        else rows)
      (keep-same (is_fill_of (order_ids id orders)) (λ fill. not (has_order id fill.owner orders))
        (λ fill. ap not (contains-order_ids id fill.owner orders)) rows)

in_table-left :
    (id : String) (orders : List Dependent) (t : String) (o : Option (List Dependent))
    → in_table (remains id orders t) o ≡ in_table (left id orders t) o
in_table-left id orders t none = refl
in_table-left id orders t (some rows) = ap some (remains-left id orders t rows)

-- When delete_strategy returns, and the tables of orders and fills exist, the strategy is gone, the other strategies
-- stay, and of every table that exists there remains, in its order, what is not of the strategy: of fills those
-- whose order is no order of the strategy, of the other tables of strategies the rows of other strategies, and any
-- other table as it was.
pub delete_strategy-remains :
    (id : String) (rmtree_fails : Bool) (r : SqliteStrategyRegistry) (t : String)
    (orders fills : List Dependent)
    → (delete_strategy id rmtree_fails r).0 ≡ inr tt
    → get r.connection.db.dependents "orders" ≡ some orders
    → get r.connection.db.dependents "fills" ≡ some fills
    → let db = (delete_strategy id rmtree_fails r).1.connection.db in
      (find_strategy id db.strategy_instances ≡ none)
      × ((db.strategy_instances
            ≡ keep (λ s. not (s.strategy_id == id)) r.connection.db.strategy_instances)
          × (get db.dependents t ≡ in_table (left id orders t) (get r.connection.db.dependents t)))
delete_strategy-remains id rmtree_fails r t orders fills done has_orders has_fills =
    let db = delete_strategy-deleted id rmtree_fails r done in
    (
      ap (λ d. find_strategy id d.strategy_instances) db
          ∙ find-keep id r.connection.db.strategy_instances,
      (
        ap (λ d. d.strategy_instances) db,
        ap (λ d. get d.dependents t) db
            ∙ get-cascade id t r.connection.db.dependents orders fills has_orders has_fills
            ∙ in_table-left id orders t (get r.connection.db.dependents t),
      ),
    )
