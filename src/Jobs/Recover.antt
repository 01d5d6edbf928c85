-- ===== src/Jobs/Recover.antt =====
-- `JobV1Store.recover_lost_leases` (openpine/jobs/transactional_store.py).
use openpine.Jobs.Ops.{finished_updates}
use openpine.Base.Text.{text_lt}
use openpine.Base.Lists.{keep}
use openpine.Jobs.Store.{transition_in_transaction}
use openpine.Jobs.Tx.{ok, err, transaction, ◌>>=◌, ◌>>◌, Result, pure, Tx}
use openpine.Base.{
  [], ◌∷◌, ◌+◌, leb, some, false, none, true, if◌then◌else◌, ◌∷◌, Bool, Option, List, ℕ,
}
use openpine.Jobs.Model.{stored, is_running, corrupt_job, lost, corrupt, Db, Row, Job, Contracts}

-- `json.loads(row["payload"])` of every row that the SELECT gave
unfoldable pub decode : List Row → Tx (List Job)
decode [] db = ok ([], db)
decode (r ∷ rs) db =
    let rest = decode rs db in
    elim r.payload [
      | corrupt ↦ err corrupt_job
      | stored j ↦ elim rest [ err e ↦ err e | ok (js, db') ↦ ok (j ∷ js, db') ]
    ]

-- WHERE state = 'running'
abbrev pub in_state_running : Row → Bool
in_state_running r = elim r.state [ none ↦ false | some s ↦ is_running s ]

-- ORDER BY job_id, by insertion
unfoldable pub insert_by_id : Row → List Row → List Row
insert_by_id r [] = r ∷ []
insert_by_id r (s ∷ ss) = if text_lt s.job_id r.job_id then s ∷ insert_by_id r ss else r ∷ s ∷ ss

unfoldable pub sort_by_id : List Row → List Row
unfolding insert_by_id
sort_by_id [] = []
sort_by_id (r ∷ rs) = insert_by_id r (sort_by_id rs)

-- `deadline is None or int(deadline) >= now_ms`
abbrev pub lease_kept : Option ℕ → ℕ → Bool
lease_kept none now = true
lease_kept (some deadline) now = leb now deadline

module _ (c : Contracts) where
  -- the loop over the running jobs, `n` of which have been recovered
  unfoldable pub recover_each : List Job → ℕ → ℕ → Tx ℕ
  recover_each [] now n = pure n
  recover_each (j ∷ js) now n =
      let lose : Tx ℕ = do
        transition_in_transaction c j lost "lost" now (finished_updates now) none
        recover_each js now (n + 1)
      in let skip : Tx ℕ = recover_each js now n in
        if lease_kept j.lease_deadline_utc_ms now then skip else lose

  unfoldable pub recover_in_transaction : ℕ → Tx ℕ
  unfolding decode sort_by_id recover_each
  recover_in_transaction now db =
      (do jobs ← decode (sort_by_id (keep in_state_running db.jobs)); recover_each jobs now 0) db

  unfoldable pub recover_lost_leases : ℕ → Db → Result ℕ × Db
  unfolding recover_in_transaction
  recover_lost_leases now = transaction (recover_in_transaction now)
