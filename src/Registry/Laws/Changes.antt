-- ===== src/Registry/Laws/Changes.antt =====
-- The changes of rows that are no transaction bodies, and the trip of the circuit
-- (openpine/registry/strategies.py), keep the database safe.
use openpine.Registry.Laws.Safe.{guarded, HoldsIn, IsAllowed, IsSafe}
use openpine.Base.Dict.{Dict}
use mathlib.Core.Bool.{false≢true}
use openpine.Base.Lists.{All-keep, keep, All-append, All-map, All}
use openpine.Registry.Laws.Rows.{
  keep-AreDistinct, append-AreDistinct, All-update, update-AreDistinct,
}
use openpine.Registry.Circuits.{set_circuit, is_enabled, trip_in, pause_enabled}
use openpine.Registry.Model.{
  Dependent, Circuit, is_taken, insert_strategy, update_where, is_for, update_strategy,
  circuit_is_open, StrategyInstance, Database,
}
use openpine.Base.{
  ◌∙◌, [], ◌∷◌, sym, ◌∷◌, refl, none, if◌then◌else◌, some, false, true, Option, ℕ, ◌≡◌, List, Bool,
  String,
}

pub pause_enabled-IsSafe : (now : ℕ) (db : Database) → IsSafe db → IsSafe (pause_enabled now db)
pause_enabled-IsSafe now db h = record {
  distinct = update-AreDistinct is_enabled _ db.strategy_instances (λ s. refl) h.distinct;
  allowed =
      All-update (IsAllowed (circuit_is_open db.background_worker)) is_enabled _
        db.strategy_instances
        (All-map (IsAllowed (circuit_is_open db.background_worker)) _ db.strategy_instances
          (λ s old. (λ e on. absurd (false≢true on), λ e. old)) h.allowed);
}

-- A strategy that is not enabled is allowed whatever the circuit is.
disabled-All :
    (is_open : Bool) (f : StrategyInstance → StrategyInstance) (rows : List StrategyInstance)
    → ((s : StrategyInstance) → (f s).enabled ≡ false)
    → All (IsAllowed is_open) (update_where is_enabled f rows)
disabled-All is_open f [] off = tt
disabled-All is_open f (s ∷ rows) off = (cases s.enabled refl, disabled-All is_open f rows off)
  where
    cases : (b : Bool) → s.enabled ≡ b → IsAllowed is_open (if b then f s else s)
    cases true e on = absurd (false≢true (sym (off s) ∙ on))
    cases false e on = absurd (false≢true (sym e ∙ on))

pub trip_in-IsSafe :
    (reason : String) (now : ℕ) (db : Database) → IsSafe db → HoldsIn IsSafe (trip_in reason now db)
unfolding trip_in
trip_in-IsSafe reason now db h = record {
  distinct = update-AreDistinct is_enabled _ db.strategy_instances (λ s. refl) h.distinct;
  allowed = disabled-All _ _ db.strategy_instances (λ s. refl);
}

pub insert_strategy-IsSafe :
    (s : StrategyInstance) (db : Database)
    → s.enabled ≡ false
    → IsSafe db
    → HoldsIn IsSafe (insert_strategy s db)
unfolding insert_strategy
insert_strategy-IsSafe s db off h =
    guarded IsSafe (is_taken s.strategy_id s.name db.strategy_instances) _ _ λ free. record {
      distinct = append-AreDistinct db.strategy_instances s free h.distinct;
      allowed =
          All-append (IsAllowed (circuit_is_open db.background_worker)) db.strategy_instances
            (s ∷ []) h.allowed (λ on. absurd (false≢true (sym off ∙ on)), tt);
    }

-- an update that leaves the execution state alone
pub rewritten-IsSafe :
    (id : String) (f : StrategyInstance → StrategyInstance) (db : Database)
    → ((s : StrategyInstance) → (f s).strategy_id ≡ s.strategy_id)
    → ((b : Bool) (s : StrategyInstance) → IsAllowed b s → IsAllowed b (f s))
    → IsSafe db
    → IsSafe (update_strategy id f db)
rewritten-IsSafe id f db same allows h = record {
  distinct = update-AreDistinct (is_for id) f db.strategy_instances same h.distinct;
  allowed =
      All-update (IsAllowed (circuit_is_open db.background_worker)) (is_for id) f
        db.strategy_instances
        (All-map (IsAllowed (circuit_is_open db.background_worker)) _ db.strategy_instances
          (λ s old. (λ e. allows (circuit_is_open db.background_worker) s old, λ e. old))
          h.allowed);
}

pub reset-IsSafe :
    (c : Circuit) (db : Database) → c.is_open ≡ false → IsSafe db → IsSafe (set_circuit c db)
reset-IsSafe c db off h = record {
  distinct = h.distinct;
  allowed =
      All-map (IsAllowed (circuit_is_open db.background_worker))
        (IsAllowed (circuit_is_open (set_circuit c db).background_worker)) db.strategy_instances
        (λ s old on. ((old on).0, closed db.background_worker)) h.allowed;
}
  where
    closed :
        (o : Option Circuit) → circuit_is_open (elim o [ none ↦ none | some _ ↦ some c ]) ≡ false
    closed none = refl
    closed (some _) = off

pub kept-IsSafe :
    (p : StrategyInstance → Bool) (tables : Dict (List Dependent)) (db : Database)
    → IsSafe db
    → IsSafe (record db { strategy_instances = keep p db.strategy_instances; dependents = tables })
kept-IsSafe p tables db h = record {
  distinct = keep-AreDistinct p db.strategy_instances h.distinct;
  allowed =
      All-keep (IsAllowed (circuit_is_open db.background_worker)) p db.strategy_instances h.allowed;
}
