-- ===== src/Jobs/Ops.antt =====
-- The public methods of `JobV1Store` (openpine/jobs/transactional_store.py) that change a job.
-- `now` is the time that the method was given, or read from the clock.
use openpine.Jobs.Store.{
  append_event_in_transaction, store_job_in_transaction, transition_in_transaction, require_version,
  get_in_transaction, require_live_lease,
}
use openpine.Jobs.Tx.{require, ◌>>=◌, ◌>>◌, pure, err, transaction, Tx, Result}
use openpine.Base.{
  ◌&&◌, ◌+◌, truthy, leb, not, if◌then◌else◌, ltb, false, Bool, Option, none, some, List, String, ℕ,
}
use openpine.Jobs.Model.{
  queued, retry_limit, canceled, succeeded, failed, transition_not_allowed, is_queued, is_canceled,
  running, lease_deadline_past, lease_owner_required, is_running, Db, JobState, Job, Contracts,
}

-- The dict that `mark_running` passes as `updates`; the others likewise.
abbrev pub running_updates : ℕ → String → ℕ → Job → Job
running_updates now owner deadline j = record j {
  started_at_utc_ms = some now;
  lease_owner = some owner;
  lease_deadline_utc_ms = some deadline;
}

abbrev pub succeeded_updates : ℕ → List String → Job → Job
succeeded_updates now refs j = record j {
  progress = 100;
  finished_at_utc_ms = some now;
  result_artifact_refs = refs;
  lease_owner = none;
  lease_deadline_utc_ms = none;
}

abbrev pub failed_updates : ℕ → String → Job → Job
failed_updates now code j = record j {
  finished_at_utc_ms = some now;
  error_code = some code;
  lease_owner = none;
  lease_deadline_utc_ms = none;
}

-- of `cancel` and of `recover_lost_leases`
abbrev pub finished_updates : ℕ → Job → Job
finished_updates now j = record j {
  finished_at_utc_ms = some now;
  lease_owner = none;
  lease_deadline_utc_ms = none;
}

abbrev pub retried_updates : ℕ → Job → Job
retried_updates count j = record j {
  retry_count = count;
  finished_at_utc_ms = none;
  error_code = none;
}

-- the three assignments of `renew_lease`
abbrev pub renewed : ℕ → ℕ → Job → Job
renewed deadline now job = record job {
  lease_deadline_utc_ms = some deadline;
  updated_at_utc_ms = now;
  version = job.version + 1;
}

-- `max_retries is not None and next_count > int(max_retries)`
abbrev pub beyond : ℕ → Option ℕ → Bool
beyond count none = false
beyond count (some limit) = ltb limit count

-- `if state is JobState.RUNNING: self._require_live_lease(…)`
abbrev pub require_lease_if_running : Job → Option String → ℕ → Tx (Unit {0})
require_lease_if_running job owner now =
    if is_running job.state then require_live_lease job owner now else pure tt

module _ (c : Contracts) where
  -- `_transition`
  unfoldable pub transition :
      String → JobState → String → Option ℕ → ℕ → (Job → Job) → Db → Result Job × Db
  transition id target event_type expected now updates = transaction (do
    job ← get_in_transaction c id
    require_version job expected
    transition_in_transaction c job target event_type now updates none)

  unfoldable pub mark_running : String → String → ℕ → ℕ → Option ℕ → Db → Result Job × Db
  unfolding transition
  mark_running id owner deadline now expected db =
      if not (truthy owner)
      then (err lease_owner_required, db)
      else if leb deadline now
      then (err lease_deadline_past, db)
      else transition id running "running" expected now (running_updates now owner deadline) db

  -- the body of the transaction of `renew_lease`
  unfoldable pub renew_in_transaction : String → String → ℕ → ℕ → Option ℕ → Tx Job
  renew_in_transaction id owner deadline now expected = do
    job ← get_in_transaction c id
    require_version job expected
    require_live_lease job (some owner) now
    sealed ← store_job_in_transaction c (renewed deadline now job) job.version
    append_event_in_transaction c id "lease_renewed" sealed none

  unfoldable pub renew_lease : String → String → ℕ → ℕ → Option ℕ → Db → Result Job × Db
  unfolding renew_in_transaction
  renew_lease id owner deadline now expected db =
      if leb deadline now
      then (err lease_deadline_past, db)
      else transaction (renew_in_transaction id owner deadline now expected) db

  unfoldable pub succeed_in_transaction : String → String → Option ℕ → ℕ → List String → Tx Job
  succeed_in_transaction id owner expected now refs = do
    job ← get_in_transaction c id
    require_version job expected
    require (is_running job.state) transition_not_allowed
    require_live_lease job (some owner) now
    transition_in_transaction c job succeeded "succeeded" now (succeeded_updates now refs) none

  unfoldable pub mark_succeeded :
      String → String → Option ℕ → ℕ → List String → Db → Result Job × Db
  unfolding succeed_in_transaction
  mark_succeeded id owner expected now refs =
      transaction (succeed_in_transaction id owner expected now refs)

  unfoldable pub fail_in_transaction : String → String → Option String → Option ℕ → ℕ → Tx Job
  fail_in_transaction id code owner expected now = do
    job ← get_in_transaction c id
    require_version job expected
    require_lease_if_running job owner now
    transition_in_transaction c job failed "failed" now (failed_updates now code) none

  unfoldable pub mark_failed : String → String → Option String → Option ℕ → ℕ → Db → Result Job × Db
  unfolding fail_in_transaction
  mark_failed id code owner expected now =
      transaction (fail_in_transaction id code owner expected now)

  unfoldable pub cancel_in_transaction : String → Option String → ℕ → ℕ → Tx Job
  cancel_in_transaction id idempotency_key now finished = do
    job ← get_in_transaction c id
    if is_canceled job.state
        then pure job
        else transition_in_transaction c job canceled "canceled" now (finished_updates finished)
            idempotency_key

  -- `cancel` reads the clock twice: for the update and for `finished_at_utc_ms`.
  unfoldable pub cancel : String → Option String → ℕ → ℕ → Db → Result Job × Db
  unfolding cancel_in_transaction
  cancel id idempotency_key now finished =
      transaction (cancel_in_transaction id idempotency_key now finished)

  unfoldable pub retry_in_transaction : String → ℕ → Tx Job
  retry_in_transaction id now = do
    job ← get_in_transaction c id
    if is_queued job.state && ltb 0 job.retry_count then pure job else do
      require (not (beyond (job.retry_count + 1) job.max_retries)) retry_limit
      transition_in_transaction c job queued "retried" now (retried_updates (job.retry_count + 1))
          none

  unfoldable pub retry : String → ℕ → Db → Result Job × Db
  unfolding retry_in_transaction
  retry id now = transaction (retry_in_transaction id now)
