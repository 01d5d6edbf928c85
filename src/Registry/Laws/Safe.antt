-- ===== src/Registry/Laws/Safe.antt =====
-- The bodies of the transactions (openpine/registry/strategies.py): no archived strategy becomes enabled, and none
-- while the circuit is open.
use mathlib.Core.Bool.{false≢true}
use openpine.Registry.Patch.{completed, name_is_taken, patched, patch_in, Patch}
use openpine.Base.Lists.{All}
use openpine.Registry.Laws.Rows.{
  found-All, found-IsOnly, All-update, update-AreDistinct, AreDistinct,
}
use openpine.Registry.Circuits.{set_archived_in, transition_in, activate_in, set_enabled_in}
use openpine.Registry.Model.{
  is_for, strategy_not_found, update_strategy, given, circuit_is_open, find_strategy,
  StrategyInstance, RegistryError, Database,
}
use openpine.Base.{
  ◌∙◌, ap, Bool-cases, ◌||◌, ◌==◌, [], ◌∷◌, sym, subst, ◌∷◌, refl, none, arith, if◌then◌else◌, inr,
  ◌&&◌, some, false, inl, true, Option, ℕ, ◌⊎◌, ◌≡◌, List, Bool, String,
}

abbrev pub IsAllowed : Bool → StrategyInstance → Type 0
IsAllowed is_open s = s.enabled ≡ true → (s.archived ≡ false) × (is_open ≡ false)

-- The ids of strategies differ, no archived strategy is enabled, and none is while the circuit is open.
pub record IsSafe (db : Database) : Type 0 where
  pub distinct : AreDistinct db.strategy_instances
  pub allowed : All (IsAllowed (circuit_is_open db.background_worker)) db.strategy_instances

abbrev pub HoldsIn : (Database → Type 0) → RegistryError ⊎ Database → Type 0
HoldsIn P (inl e) = Unit
HoldsIn P (inr db) = P db

module _ (P : Database → Type 0) where
  pub guarded :
      (b : Bool) (e : RegistryError) (x : RegistryError ⊎ Database)
      → (b ≡ false → HoldsIn P x)
      → HoldsIn P (if b then inl e else x)
  guarded true e x h = tt
  guarded false e x h = h refl

  pub with_found :
      (id : String) (rows : List StrategyInstance) (g : StrategyInstance → RegistryError ⊎ Database)
      → ((current : StrategyInstance)
          → find_strategy id rows ≡ some current
          → HoldsIn P (g current))
      → HoldsIn P (elim (find_strategy id rows) [
        | none ↦ inl strategy_not_found
        | some current ↦ g current
      ])
  with_found id rows g h = cases (find_strategy id rows) refl
    where
      cases :
          (o : Option StrategyInstance)
          → find_strategy id rows ≡ o
          → HoldsIn P (elim o [ none ↦ inl strategy_not_found | some current ↦ g current ])
      cases none e = tt
      cases (some current) e = h current e

pub update_strategy-IsSafe :
    (id : String) (f : StrategyInstance → StrategyInstance) (db : Database)
    (current : StrategyInstance)
    → IsSafe db
    → find_strategy id db.strategy_instances ≡ some current
    → ((s : StrategyInstance) → (f s).strategy_id ≡ s.strategy_id)
    → IsAllowed (circuit_is_open db.background_worker) (f current)
    → IsSafe (update_strategy id f db)
update_strategy-IsSafe id f db current h found same allowed = record {
  distinct = update-AreDistinct (is_for id) f db.strategy_instances same h.distinct;
  allowed = All-update Allowed (is_for id) f db.strategy_instances (
      All-both db.strategy_instances
        (found-IsOnly id db.strategy_instances current h.distinct found) h.allowed);
}
  where
    Allowed : StrategyInstance → Type 0
    Allowed = IsAllowed (circuit_is_open db.background_worker)

    All-both :
        (rows : List StrategyInstance)
        → All (λ s. is_for id s ≡ true → s ≡ current) rows
        → All Allowed rows
        → All (λ s. (is_for id s ≡ true → Allowed (f s)) × (is_for id s ≡ false → Allowed s)) rows
    All-both [] only old = tt
    All-both (s ∷ rows) only old = (
      (λ e. subst (λ t. Allowed (f t)) (sym (only.0 e)) allowed, λ e. old.0),
      All-both rows only.1 old.1,
    )

pub set_enabled_in-IsSafe :
    (id : String) (enabled : Bool) (now : ℕ) (db : Database)
    → IsSafe db
    → HoldsIn IsSafe (set_enabled_in id enabled now db)
unfolding set_enabled_in
set_enabled_in-IsSafe id enabled now db h =
    with_found IsSafe id db.strategy_instances _ λ current found.
      guarded IsSafe (enabled && current.archived) _ _ λ a.
        guarded IsSafe (enabled && circuit_is_open db.background_worker) _ _ λ c.
          update_strategy-IsSafe id _ db current h found (λ s. refl)
            λ on. (ground (arith, a, on), ground (arith, c, on))

pub activate_in-IsSafe :
    (id : String) (status mode : Option String) (now : ℕ) (db : Database)
    → IsSafe db
    → HoldsIn IsSafe (activate_in id status mode now db)
unfolding activate_in
activate_in-IsSafe id status mode now db h =
    with_found IsSafe id db.strategy_instances _ λ current found.
      guarded IsSafe current.archived _ _ λ a.
        guarded IsSafe (circuit_is_open db.background_worker) _ _
          λ c. update_strategy-IsSafe id _ db current h found (λ s. refl) λ on. (a, c)

pub transition_in-IsSafe :
    (id : String) (enabled : Option Bool) (status mode : Option String) (now : ℕ) (db : Database)
    → IsSafe db
    → HoldsIn IsSafe (transition_in id enabled status mode now db)
unfolding transition_in
transition_in-IsSafe id enabled status mode now db h =
    with_found IsSafe id db.strategy_instances _ λ current found.
      guarded IsSafe (given enabled current.enabled && current.archived) _ _ λ a.
        guarded IsSafe (given enabled current.enabled && circuit_is_open db.background_worker) _ _
          λ c.
            update_strategy-IsSafe id _ db current h found (λ s. refl)
              λ on. (ground (arith, a, on), ground (arith, c, on))

pub set_archived_in-IsSafe :
    (id : String) (archived : Bool) (now : ℕ) (db : Database)
    → IsSafe db
    → HoldsIn IsSafe (set_archived_in id archived now db)
unfolding set_archived_in
set_archived_in-IsSafe id archived now db h =
    with_found IsSafe id db.strategy_instances _ λ current found.
      update_strategy-IsSafe id _ db current h found (λ s. refl)
        λ on.
          let before =
            found-All (IsAllowed (circuit_is_open db.background_worker)) id db.strategy_instances
              current h.allowed found in
          (ground (arith, on), (before (ground (arith, on))).1)

patched-IsAllowed :
    (p : Patch) (now : ℕ) (current : StrategyInstance) (is_open : Bool)
    → (given p.enabled false && given p.archived current.archived) ≡ false
    → ((if given p.archived false then false else given p.enabled current.enabled) && is_open)
      ≡ false
    → IsAllowed is_open current
    → IsAllowed is_open (patched (completed p current) now current)
patched-IsAllowed p now current is_open a c before = elim (Bool-cases (given p.archived false)) [
  | inl to_archive ↦ λ on.
      absurd (
        false≢true
          (sym (ap (λ q. given q.enabled current.enabled) (ap completion to_archive)) ∙ on))
  | inr no_archive ↦
      let same = ap completion no_archive in
      λ on.
        subst (λ q. (given q.archived current.archived ≡ false) × (is_open ≡ false)) (sym same)
          (values p.enabled p.archived no_archive a c
            (sym (ap (λ q. given q.enabled current.enabled) same) ∙ on))
]
  where
    completion : Bool → Patch
    completion b =
        let status = given p.status current.status in
        if b
        then record p {
          enabled = some false;
          status = if status == "running" || status == "pending" then some "paused" else p.status;
        }
        else p

    values :
        (en ar : Option Bool)
        → given ar false ≡ false
        → (given en false && given ar current.archived) ≡ false
        → ((if given ar false then false else given en current.enabled) && is_open) ≡ false
        → given en current.enabled ≡ true
        → (given ar current.archived ≡ false) × (is_open ≡ false)
    values none none n g k on = before on
    values none (some b) n g k on = (n, (before on).1)
    values (some e) none n g k on = (ground (arith, g, on), ground (arith, k, on))
    values (some e) (some b) n g k on = (n, ground (arith, k, on, n))

pub patch_in-IsSafe :
    (id : String) (p : Patch) (now : ℕ) (db : Database)
    → IsSafe db
    → HoldsIn IsSafe (patch_in id p now db)
unfolding patch_in
patch_in-IsSafe id p now db h = with_found IsSafe id db.strategy_instances _ λ current found.
    guarded IsSafe (given p.enabled false && given p.archived current.archived) _ _ λ a.
      guarded IsSafe
        ((if given p.archived false then false else given p.enabled current.enabled)
          && circuit_is_open db.background_worker)
        _ _
        λ c. guarded IsSafe (name_is_taken id p.name db.strategy_instances) _ _ λ free.
          update_strategy-IsSafe id _ db current h found (λ s. refl)
            (patched-IsAllowed p now current (circuit_is_open db.background_worker) a c (
              found-All (IsAllowed (circuit_is_open db.background_worker)) id db.strategy_instances
                current h.allowed found))
