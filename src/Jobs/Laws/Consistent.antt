-- ===== src/Jobs/Laws/Consistent.antt =====
-- The invariant of the table `jobs` (openpine/jobs/transactional_store.py): the columns repeat the
-- payload, a lease is held exactly while a job runs, and no job is retried beyond its limit.
use openpine.Jobs.Table.{HasUniqueIds, find_row}
use openpine.Jobs.Ops.{beyond}
use openpine.Jobs.Laws.Written.{Written}
use openpine.Jobs.Laws.Helpers.{SameBody}
use openpine.Jobs.Model.{stored, Row, is_running, Db, Job}
use openpine.Base.{
  sym, none, inr, subst, eq_iff, inl, ◌==◌, ◌<◌, true, Bool-cases, ◌∙◌, some, arith, false, String,
  ◌≡◌, Bool, Option,
}

abbrev pub is_some {ℓ} : {A : Type ℓ} → Option A → Bool
is_some none = false
is_some (some _) = true

pub record IsLeased (j : Job) : Type 0 where
  pub owner_held : is_some j.lease_owner ≡ is_running j.state
  pub deadline_held : is_some j.lease_deadline_utc_ms ≡ is_running j.state
  pub retries_within : beyond j.retry_count j.max_retries ≡ false
  pub started : 0 < j.version

pub record Found (db : Db) (id : String) (j : Job) : Type 0 where
  pub row : Row
  pub found : find_row id db.jobs ≡ some row
  pub payload : row.payload ≡ stored j
  pub id_column : j.job_id ≡ id
  pub key_column : row.idempotency_key ≡ j.idempotency_key
  pub state_column : row.state ≡ some j.state
  pub version_column : row.version ≡ j.version

-- every row holds a job that agrees with its columns
pub record IsConsistent (db : Db) : Type 0 where
  pub at :
      (id : String) (r : Row)
      → find_row id db.jobs ≡ some r
      → (j : Job) × Found db id j × IsLeased j
  pub keyed : HasUniqueIds db.jobs

pub Written-Found :
    (db db' : Db) (id : String) (p : Job) (w : Written db db' id p)
    → p.job_id ≡ id
    → Found db' id w.held
Written-Found db db' id p w same =
    let b = w.body in
    record {
      row = w.row;
      found = w.found;
      payload = w.payload;
      id_column = ground arith;
      key_column = w.key_column ∙ ground arith;
      state_column = w.state_column ∙ ground arith;
      version_column = w.version_column ∙ ground arith;
    }

pub Found-kept :
    (db db' : Db) (id : String) (j : Job)
    → Found db id j
    → find_row id db'.jobs ≡ find_row id db.jobs
    → Found db' id j
Found-kept db db' id j f kept = record {
  row = f.row;
  found = kept ∙ f.found;
  payload = f.payload;
  id_column = f.id_column;
  key_column = f.key_column;
  state_column = f.state_column;
  version_column = f.version_column;
}

pub SameBody-IsLeased : (p q : Job) → SameBody p q → IsLeased p → IsLeased q
SameBody-IsLeased p q b l = ground arith

pub Written-IsConsistent :
    (db db' : Db) (id : String) (p : Job)
    → IsConsistent db
    → Written db db' id p
    → p.job_id ≡ id
    → IsLeased p
    → IsConsistent db'
Written-IsConsistent db db' id p inv w same l = record {
  at = λ k r h. elim (Bool-cases (id == k)) [
    | inl e ↦
        let k_id : id ≡ k = ground (arith, eq_iff id k) in
        subst (λ i. (j : Job) × Found db' i j × IsLeased j) k_id
          (w.held, Written-Found db db' id p w same, SameBody-IsLeased p w.held w.body l)
    | inr e ↦
        let (j, f, lj) = inv.at k r (sym (w.others k e) ∙ h) in
        (j, Found-kept db db' k j f (w.others k e), lj)
  ];
  keyed = w.keyed inv.keyed;
}
