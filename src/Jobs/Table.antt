-- ===== src/Jobs/Table.antt =====
-- SQL statements over the table `jobs` that openpine/jobs/transactional_store.py issues.
use openpine.Base.Lists.{All-map, All}
use openpine.Base.{
  ◌≢◌, true, inr, inl, Bool-cases, Bool, false, eq_refl, ℕ, ◌≡◌, refl, String, Option, none, some,
  List, [], ◌∷◌, ◌++◌, arith, ◌==◌, eqb, eq_iff, if◌then◌else◌,
}
use openpine.Jobs.Model.{Row}

-- SELECT … FROM jobs WHERE job_id = ?
unfoldable pub find_row : String → List Row → Option Row
find_row id [] = none
find_row id (r ∷ rs) = if r.job_id == id then some r else find_row id rs

-- UPDATE jobs SET … WHERE job_id = ? AND version = ?
-- `job_id` is the primary key, so the first row of that id is the only one.
unfoldable pub update_row : String → ℕ → (Row → Row) → List Row → List Row
update_row id version f [] = []
update_row id version f (r ∷ rs) =
    if r.job_id == id
    then (if eqb r.version version then f r else r) ∷ rs
    else r ∷ update_row id version f rs

-- how many rows that statement changes, `cursor.rowcount`
unfoldable pub rowcount : String → ℕ → List Row → ℕ
unfolding find_row
rowcount id version rows = elim (find_row id rows) [
  | none ↦ 0
  | some r ↦ if eqb r.version version then 1 else 0
]

abbrev pub written : ℕ → (Row → Row) → Option Row → Option Row
written version f none = none
written version f (some r) = some (if eqb r.version version then f r else r)

-- An UPDATE that leaves the key column alone is seen by its own id only.
pub find_row-update_row :
    (k id : String) (version : ℕ) (f : Row → Row) (rows : List Row)
    → ((r : Row) → (f r).job_id ≡ r.job_id)
    → find_row k (update_row id version f rows)
      ≡ (if id == k then written version f (find_row k rows) else find_row k rows)
unfolding find_row update_row
find_row-update_row k id version f [] h = ground arith
find_row-update_row k id version f (r ∷ rs) h = ground (
  arith,
  h r,
  eq_iff r.job_id id,
  eq_iff r.job_id k,
  eq_iff id k,
  find_row-update_row k id version f rs h,
)

-- an INSERT appends
pub find_row-append :
    (k : String) (rows : List Row) (r : Row)
    → find_row k (rows ++ r ∷ [])
      ≡ elim (find_row k rows) [ none ↦ (if r.job_id == k then some r else none) | some s ↦ some s ]
unfolding find_row
find_row-append k [] r = refl
find_row-append k (s ∷ rows) r = ground (arith, find_row-append k rows r)

module _ (id : String) (version : ℕ) (f : Row → Row) (rows : List Row)
    (keeps_id : (r : Row) → (f r).job_id ≡ r.job_id) where
  pub find_row-update_row_self :
      (r : Row)
      → find_row id rows ≡ some r
      → r.version ≡ version
      → find_row id (update_row id version f rows) ≡ some (f r)
  find_row-update_row_self r h v =
      ground (arith, eq_refl id, find_row-update_row id id version f rows keeps_id)

  pub find_row-update_row_other :
      (k : String) → (id == k) ≡ false → find_row k (update_row id version f rows) ≡ find_row k rows
  find_row-update_row_other k e = ground (arith, find_row-update_row k id version f rows keeps_id)

pub version_of_rowcount :
    (id : String) (version : ℕ) (rows : List Row) (r : Row)
    → find_row id rows ≡ some r
    → rowcount id version rows ≡ 1
    → r.version ≡ version
unfolding rowcount
version_of_rowcount id version rows r h n = ground arith

-- the primary key of `jobs`
abbrev pub HasUniqueIds : List Row → Type 0
HasUniqueIds [] = Unit
HasUniqueIds (r ∷ rs) = (find_row r.job_id rs ≡ none) × HasUniqueIds rs

pub update_row-HasUniqueIds :
    (id : String) (version : ℕ) (f : Row → Row) (rows : List Row)
    → ((r : Row) → (f r).job_id ≡ r.job_id)
    → HasUniqueIds rows
    → HasUniqueIds (update_row id version f rows)
unfolding update_row
update_row-HasUniqueIds id version f [] k h = tt
update_row-HasUniqueIds id version f (r ∷ rs) k h = elim (Bool-cases (r.job_id == id)) [
  | inl e ↦ rw e (same_key (eqb r.version version), h.1)
  | inr e ↦ rw e (
    ground (arith, find_row-update_row r.job_id id version f rs k),
    update_row-HasUniqueIds id version f rs k h.1,
  )
]
  where
    same_key : (b : Bool) → find_row (if b then f r else r).job_id rs ≡ none
    same_key true = rw k h.0
    same_key false = h.0

pub append-HasUniqueIds :
    (rows : List Row) (r : Row)
    → find_row r.job_id rows ≡ none
    → HasUniqueIds rows
    → HasUniqueIds (rows ++ r ∷ [])
unfolding find_row
append-HasUniqueIds [] r n h = ground arith
append-HasUniqueIds (s ∷ rows) r n h = (
  ground
      (arith, find_row-append s.job_id rows r, eq_iff r.job_id s.job_id, eq_iff s.job_id r.job_id),
  append-HasUniqueIds rows r (ground arith) h.1,
)

-- Each row is the one that its key finds.
pub All-find_row :
    (rows : List Row) → HasUniqueIds rows → All (λ r. find_row r.job_id rows ≡ some r) rows
unfolding find_row
All-find_row [] h = tt
All-find_row (r ∷ rs) h = (
  simp eq_refl,
  All-map (λ s. find_row s.job_id rs ≡ some s) (λ s. find_row s.job_id (r ∷ rs) ≡ some s) rs
      (λ s e. ground (arith, eq_iff r.job_id s.job_id)) (All-find_row rs h.1),
)

-- An UPDATE whose version does not match changes nothing.
pub update_row-stale :
    (id : String) (version : ℕ) (f : Row → Row) (rows : List Row) (r : Row)
    → find_row id rows ≡ some r
    → r.version ≢ version
    → update_row id version f rows ≡ rows
unfolding find_row update_row
update_row-stale id version f [] r h n = refl
update_row-stale id version f (s ∷ rs) r h n = ground (arith, update_row-stale id version f rs r)
