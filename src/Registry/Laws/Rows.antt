-- ===== src/Registry/Laws/Rows.antt =====
-- Updates, inserts and deletions of the rows of strategies (openpine/registry/strategies.py), whose ids differ.
use openpine.Base.Lists.{All-map, All-append, All-keep, keep, All}
use openpine.Registry.Model.{is_for, update_where, is_taken, find_strategy, StrategyInstance}
use openpine.Base.{
  ◌∙◌, ap, sym, subst, some-eq-some, eq_iff, inr, refl, arith, inl, Bool-cases, if◌then◌else◌, [],
  ◌∷◌, ◌++◌, true, some, false, ◌≡◌, Bool, ◌∷◌, ◌==◌, List, String,
}

abbrev pub HasOtherId : String → StrategyInstance → Type 0
HasOtherId id s = (s.strategy_id == id) ≡ false

abbrev pub AreDistinct : List StrategyInstance → Type 0
AreDistinct [] = Unit
AreDistinct (s ∷ rows) = All (HasOtherId s.strategy_id) rows × AreDistinct rows

pub All-update :
    (P : StrategyInstance → Type 0) (p : StrategyInstance → Bool)
    (f : StrategyInstance → StrategyInstance) (rows : List StrategyInstance)
    → All (λ s. (p s ≡ true → P (f s)) × (p s ≡ false → P s)) rows
    → All P (update_where p f rows)
All-update P p f [] h = tt
All-update P p f (s ∷ rows) h = (updated (p s) h.0.0 h.0.1, All-update P p f rows h.1)
  where
    updated : (b : Bool) → (b ≡ true → P (f s)) → (b ≡ false → P s) → P (if b then f s else s)
    updated true changed kept = changed refl
    updated false changed kept = kept refl

-- The row that is found is the only one of its id.
pub found-IsOnly :
    (id : String) (rows : List StrategyInstance) (current : StrategyInstance)
    → AreDistinct rows
    → find_strategy id rows ≡ some current
    → All (λ s. is_for id s ≡ true → s ≡ current) rows
unfolding find_strategy
found-IsOnly id [] current distinct h = tt
found-IsOnly id (s ∷ rows) current distinct h = elim (Bool-cases (is_for id s)) [
  | inl here ↦ (
    λ e. some-eq-some (sym (ap (λ b. if b then some s else find_strategy id rows) here) ∙ h),
    All-map (HasOtherId s.strategy_id) (λ t. is_for id t ≡ true → t ≡ current) rows
        (λ t other e. absurd (
          ground (
            arith,
            other,
            e,
            here,
            eq_iff t.strategy_id id,
            eq_iff s.strategy_id id,
            eq_iff t.strategy_id s.strategy_id,
          )))
        distinct.0,
  )
  | inr other ↦ (
    λ e. absurd (grind (arith, other, e)),
    found-IsOnly id rows current distinct.1
        (sym (ap (λ b. if b then some s else find_strategy id rows) other) ∙ h),
  )
]

pub found-All {κ} :
    (P : StrategyInstance → Type κ) (id : String) (rows : List StrategyInstance)
    (current : StrategyInstance)
    → All P rows
    → find_strategy id rows ≡ some current
    → P current
unfolding find_strategy
found-All P id [] current h found = absurd (ground (arith, found))
found-All P id (s ∷ rows) current h found =
    cases (is_for id s) found (found-All P id rows current h.1)
  where
    cases :
        (b : Bool)
        → (if b then some s else find_strategy id rows) ≡ some current
        → (find_strategy id rows ≡ some current → P current)
        → P current
    cases true e later = subst P (some-eq-some e) h.0
    cases false e later = later e

pub update-AreDistinct :
    (p : StrategyInstance → Bool) (f : StrategyInstance → StrategyInstance)
    (rows : List StrategyInstance)
    → ((s : StrategyInstance) → (f s).strategy_id ≡ s.strategy_id)
    → AreDistinct rows
    → AreDistinct (update_where p f rows)
update-AreDistinct p f [] same h = tt
update-AreDistinct p f (s ∷ rows) same h = (
  subst (λ id. All (HasOtherId id) (update_where p f rows)) (sym (kept (p s)))
      (All-update (HasOtherId s.strategy_id) p f rows (
        All-map (HasOtherId s.strategy_id)
          (λ t.
            (p t ≡ true → HasOtherId s.strategy_id (f t))
            × (p t ≡ false → HasOtherId s.strategy_id t))
          rows
          (λ t other.
            (λ e. subst (λ id. (id == s.strategy_id) ≡ false) (sym (same t)) other, λ e. other))
          h.0)),
  update-AreDistinct p f rows same h.1,
)
  where
    kept : (b : Bool) → (if b then f s else s).strategy_id ≡ s.strategy_id
    kept true = same s
    kept false = refl

pub keep-AreDistinct :
    (p : StrategyInstance → Bool) (rows : List StrategyInstance)
    → AreDistinct rows
    → AreDistinct (keep p rows)
keep-AreDistinct p [] h = tt
keep-AreDistinct p (s ∷ rows) h = kept (p s) (keep-AreDistinct p rows h.1)
  where
    kept :
        (b : Bool)
        → AreDistinct (keep p rows)
        → AreDistinct (elim b [ true ↦ s ∷ keep p rows | false ↦ keep p rows ])
    kept true rest = (All-keep (HasOtherId s.strategy_id) p rows h.0, rest)
    kept false rest = rest

pub append-AreDistinct :
    (rows : List StrategyInstance) (s : StrategyInstance)
    → is_taken s.strategy_id s.name rows ≡ false
    → AreDistinct rows
    → AreDistinct (rows ++ s ∷ [])
unfolding is_taken
append-AreDistinct [] s free h = (tt, tt)
append-AreDistinct (x ∷ rows) s free h = (
  All-append (HasOtherId x.strategy_id) rows (s ∷ []) h.0 (
    ground (arith, free, eq_iff x.strategy_id s.strategy_id, eq_iff s.strategy_id x.strategy_id),
    tt,
  ),
  append-AreDistinct rows s (ground (arith, free)) h.1,
)
