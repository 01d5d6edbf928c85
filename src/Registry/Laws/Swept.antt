-- ===== src/Registry/Laws/Swept.antt =====
-- What clearing tables of the rows of a strategy leaves (openpine/registry/strategies.py).
use openpine.Registry.Model.{Dependent}
use openpine.Base.Lists.{contains, keep}
use openpine.Registry.Delete.{is_not_owned, clear_tables, clear_table}
use openpine.Base.{
  false, refl, sym, eq_iff, ◌∙◌, subst, ap, [], ◌∷◌, true, none, ◌==◌, ◌||◌, some, if◌then◌else◌,
  Option, ◌≡◌, String, List, Bool,
}
use Prim.Native.String.{◌∷◌, String}
use openpine.Base.Dict.{get-put, Dict, get, put}

keep-keep {ℓ} : {A : Type ℓ} (p : A → Bool) (xs : List A) → keep p (keep p xs) ≡ keep p xs
keep-keep p [] = refl
keep-keep p (x ∷ xs) = cases (p x) refl (keep-keep p xs)
  where
    cases :
        (b : Bool)
        → p x ≡ b
        → keep p (keep p xs) ≡ keep p xs
        → keep p (elim b [ true ↦ x ∷ keep p xs | false ↦ keep p xs ])
          ≡ elim b [ true ↦ x ∷ keep p xs | false ↦ keep p xs ]
    cases true e ih =
        ap (λ b. elim b [ true ↦ x ∷ keep p (keep p xs) | false ↦ keep p (keep p xs) ]) e
        ∙ ap (λ ys. x ∷ ys) ih
    cases false e ih = ih

-- the rows of a table, if it exists
abbrev pub in_table :
    (List Dependent → List Dependent) → Option (List Dependent) → Option (List Dependent)
in_table f none = none
in_table f (some rows) = some (f rows)

abbrev pub swept : String → Bool → List Dependent → List Dependent
swept id b rows = if b then keep (is_not_owned id) rows else rows

pub swept-swept :
    (id : String) (a b : Bool) (rows : List Dependent)
    → swept id a (swept id b rows) ≡ swept id (b || a) rows
swept-swept id true true rows = keep-keep (is_not_owned id) rows
swept-swept id true false rows = refl
swept-swept id false true rows = refl
swept-swept id false false rows = refl

pub in_table-kept : (id : String) (o : Option (List Dependent)) → o ≡ in_table (swept id false) o
in_table-kept id none = refl
in_table-kept id (some rows) = refl

pub get-clear_table :
    (id table t : String) (tables : Dict (List Dependent))
    → get (clear_table id table tables) t ≡ in_table (swept id (table == t)) (get tables t)
unfolding clear_table
get-clear_table id table t tables = cases (get tables table) refl (table == t) refl
  where
    cases :
        (o : Option (List Dependent))
        → get tables table ≡ o
        → (b : Bool) → (table == t) ≡ b
        → get
            (elim o as (λ x. Dict (List Dependent)) [
              | none ↦ tables
              | some rows ↦ put tables table (keep (is_not_owned id) rows)
            ])
            t
          ≡ in_table (swept id b) (get tables t)
    cases none found true e =
        let missing = subst (λ k. get tables k ≡ none) ((eq_iff table t).0 e) found in
        missing ∙ sym (ap (in_table (swept id true)) missing)
    cases none found false e = in_table-kept id (get tables t)
    cases (some rows) found true e =
        let there = subst (λ k. get tables k ≡ some rows) ((eq_iff table t).0 e) found in
        get-put tables table t (keep (is_not_owned id) rows)
        ∙ ap (λ b. elim b [ true ↦ some (keep (is_not_owned id) rows) | false ↦ get tables t ]) e
        ∙ sym (ap (in_table (swept id true)) there)
    cases (some rows) found false e =
        get-put tables table t (keep (is_not_owned id) rows)
        ∙ ap (λ b. elim b [ true ↦ some (keep (is_not_owned id) rows) | false ↦ get tables t ]) e
        ∙ in_table-kept id (get tables t)

pub get-clear_tables :
    (id t : String) (names : List String) (tables : Dict (List Dependent))
    → get (clear_tables id names tables) t ≡ in_table (swept id (contains t names)) (get tables t)
unfolding clear_tables
get-clear_tables id t [] tables = in_table-kept id (get tables t)
get-clear_tables id t (name ∷ names) tables =
    get-clear_tables id t names (clear_table id name tables)
    ∙ ap (in_table (swept id (contains t names))) (get-clear_table id name t tables)
    ∙ both (name == t) (get tables t)
  where
    both :
        (b : Bool) (o : Option (List Dependent))
        → in_table (swept id (contains t names)) (in_table (swept id b) o)
          ≡ in_table (swept id (elim b [ true ↦ true | false ↦ contains t names ])) o
    both b none = refl
    both true (some rows) = ap some (swept-swept id (contains t names) true rows)
    both false (some rows) = refl
