-- ===== src/Registry/Laws/Mirror.antt =====
-- Lookups in what `_reload_from_db` makes of the rows (openpine/registry/strategies.py).
use openpine.Registry.Ops.{get_strategy}
use openpine.Registry.Delete.{is_other}
use openpine.Base.Lists.{keep}
use openpine.Registry.Model.{
  is_taken, integrity_error, strategy_not_found, RegistryError, insert_strategy, Database, is_for,
  update_where, StrategyInstance,
}
use openpine.Base.Dict.{get-put, put, get, Dict}
use openpine.Registry.Connection.{reload_from_db, SqliteStrategyRegistry, collect}
use openpine.Base.{
  ap, inl, sym, ◌⊎◌, subst, inr, false, true, Bool, eq_iff, ◌∙◌, refl, arith, ◌==◌, [], some,
  if◌then◌else◌, ◌∷◌, none, ◌++◌, ◌≡◌, Option, List, String,
}
use Prim.Native.String.{[], String}

abbrev or_else : Option StrategyInstance → Option StrategyInstance → Option StrategyInstance
or_else none o = o
or_else (some s) o = some s

-- the last row of an id
abbrev pub last_of : String → List StrategyInstance → Option StrategyInstance
last_of id [] = none
last_of id (s ∷ rows) = or_else (last_of id rows) (if is_for id s then some s else none)

collect-last_of :
    (mem : Dict StrategyInstance) (rows : List StrategyInstance) (id : String)
    → get (collect mem rows) id ≡ or_else (last_of id rows) (get mem id)
unfolding collect
collect-last_of mem [] id = refl
collect-last_of mem (s ∷ rows) id =
    collect-last_of (put mem s.strategy_id s) rows id ∙ cases (last_of id rows)
  where
    cases :
        (o : Option StrategyInstance)
        → or_else o (get (put mem s.strategy_id s) id)
          ≡ or_else (or_else o (if is_for id s then some s else none)) (get mem id)
    cases none = get-put mem s.strategy_id id s ∙ found (s.strategy_id == id)
      where
        found :
            (b : Bool)
            → elim b as (λ x. Option StrategyInstance) [ true ↦ some s | false ↦ get mem id ]
              ≡ or_else (if b then some s else none) (get mem id)
        found true = refl
        found false = refl
    cases (some t) = refl

last_of-update :
    (id k : String) (f : StrategyInstance → StrategyInstance) (rows : List StrategyInstance)
    → ((s : StrategyInstance) → (f s).strategy_id ≡ s.strategy_id)
    → last_of k (update_where (is_for id) f rows)
      ≡ elim (last_of k rows) [ none ↦ none | some s ↦ some (if id == k then f s else s) ]
last_of-update id k f [] same = refl
last_of-update id k f (s ∷ rows) same = ground (
  arith,
  last_of-update id k f rows same,
  same s,
  eq_iff s.strategy_id id,
  eq_iff s.strategy_id k,
  eq_iff id k,
)

pub last_of-keep :
    (id k : String) (rows : List StrategyInstance)
    → last_of k (keep (is_other id) rows) ≡ elim (id == k) [ true ↦ none | false ↦ last_of k rows ]
last_of-keep id k [] = ground arith
last_of-keep id k (s ∷ rows) =
    ground
      (arith, last_of-keep id k rows, eq_iff s.strategy_id id, eq_iff s.strategy_id k, eq_iff id k)

pub collect-append :
    (mem : Dict StrategyInstance) (rows : List StrategyInstance) (s : StrategyInstance)
    → collect mem (rows ++ s ∷ []) ≡ put (collect mem rows) s.strategy_id s
unfolding collect
collect-append mem [] s = refl
collect-append mem (x ∷ rows) s = collect-append (put mem x.strategy_id x) rows s

pub insert_strategy-rows :
    (s : StrategyInstance) (db db' : Database)
    → insert_strategy s db ≡ inr db'
    → db'.strategy_instances ≡ db.strategy_instances ++ s ∷ []
unfolding insert_strategy
insert_strategy-rows s db db' = cases (is_taken s.strategy_id s.name db.strategy_instances)
  where
    cases :
        (b : Bool)
        → (if b
            then inl integrity_error
            else inr (record db { strategy_instances = db.strategy_instances ++ s ∷ [] }))
          ≡ inr db'
        → db'.strategy_instances ≡ db.strategy_instances ++ s ∷ []
    cases true e = absurd (grind (arith, e))
    cases false e = sym (
        ap
          (λ x. elim x as (λ y. List StrategyInstance) [
            | inl f ↦ []
            | inr d ↦ d.strategy_instances
          ])
          e)

pub get_strategy-mem :
    (id : String) (r : SqliteStrategyRegistry) (s : StrategyInstance)
    → (get_strategy id r).0 ≡ inr s
    → get (collect [] r.connection.db.strategy_instances) id ≡ some s
unfolding get_strategy reload_from_db
get_strategy-mem id r s = cases (get (collect [] r.connection.db.strategy_instances) id)
  where
    r' : SqliteStrategyRegistry
    r' = reload_from_db r

    cases :
        (o : Option StrategyInstance)
        → (elim o as (λ x. (RegistryError ⊎ StrategyInstance) × SqliteStrategyRegistry) [
          | none ↦ (inl strategy_not_found, r')
          | some t ↦ (inr t, r')
        ]).0
          ≡ inr s
        → o ≡ some s
    cases none e = absurd (grind (arith, e))
    cases (some t) e =
        ap (λ x. elim x as (λ y. Option StrategyInstance) [ inl f ↦ none | inr u ↦ some u ]) e

pub collected :
    (rows : List StrategyInstance) (k : String) → get (collect [] rows) k ≡ last_of k rows
unfolding get
collected rows k = collect-last_of [] rows k ∙ cases (last_of k rows)
  where
    cases : (o : Option StrategyInstance) → or_else o none ≡ o
    cases none = refl
    cases (some s) = refl

pub collect-update :
    (id : String) (f : StrategyInstance → StrategyInstance) (s : StrategyInstance)
    (rows : List StrategyInstance) (k : String)
    → ((s : StrategyInstance) → (f s).strategy_id ≡ s.strategy_id)
    → get (collect [] rows) id ≡ some s
    → get (put (collect [] rows) id (f s)) k ≡ get (collect [] (update_where (is_for id) f rows)) k
collect-update id f s rows k same found =
    get-put (collect [] rows) id k (f s)
    ∙ cases (id == k) refl (last_of k rows) refl
    ∙ sym (collected (update_where (is_for id) f rows) k ∙ last_of-update id k f rows same)
  where
    here : last_of id rows ≡ some s
    here = sym (collected rows id) ∙ found

    cases :
        (b : Bool)
        → (id == k) ≡ b
        → (o : Option StrategyInstance) → last_of k rows ≡ o
        → elim b as (λ x. Option StrategyInstance) [
          | true ↦ some (f s)
          | false ↦ get (collect [] rows) k
        ]
          ≡ elim (last_of k rows) [ none ↦ none | some t ↦ some (if id == k then f t else t) ]
    cases true e o at_k =
        let last = subst (λ j. last_of j rows ≡ some s) ((eq_iff id k).0 e) here in
        sym (
          ap
            (λ q. elim q as (λ x. Option StrategyInstance) [
              | none ↦ none
              | some t ↦ some (if id == k then f t else t)
            ])
            last
          ∙ ap (λ b. some (if b then f s else s)) e)
    cases false e none at_k =
        collected rows k
        ∙ at_k
        ∙ sym (
            ap
              (λ q. elim q as (λ x. Option StrategyInstance) [
                | none ↦ none
                | some t ↦ some (if id == k then f t else t)
              ])
              at_k)
    cases false e (some t) at_k =
        collected rows k
        ∙ at_k
        ∙ sym (
            ap
              (λ q. elim q as (λ x. Option StrategyInstance) [
                | none ↦ none
                | some t ↦ some (if id == k then f t else t)
              ])
              at_k
            ∙ ap (λ b. some (if b then f t else t)) e)
