-- ===== src/Jobs/Store.antt =====
-- The private helpers of `JobV1Store` (openpine/jobs/transactional_store.py): reading, sealing and
-- writing a job, appending an event, and the one way in which a job changes its state.
use Prim.Native.String.{◌++◌ as append}
use openpine.Base.{
  ◌&&◌, ℕ, ◌+◌, String, Bool, true, false, not, Option, none, some, List, [], ◌∷◌, ◌++◌, ◌==◌, eqb,
  ltb, if◌then◌else◌, truthy, is_truthy,
}
use openpine.Base.Text.{show_nat}
use openpine.Jobs.Model.{
  Job, JobState, Row, EventRow, corrupt, stored, Contracts, allowed, job_not_found, corrupt_job,
  schema_violation, version_conflict, store_conflict, transition_not_allowed, lease_owner_mismatch,
  lease_expired,
}
use openpine.Jobs.Table.{find_row, update_row, rowcount}
use openpine.Jobs.Tx.{Tx, ok, err, ◌>>=◌, ◌>>◌, pure, raise, require}

-- The payload of the table's column as a whole, replaced.
abbrev pub set_columns : Job → Row → Row
set_columns j r = record r {
  payload = stored j;
  idempotency_key = j.idempotency_key;
  state = some j.state;
  version = j.version;
}

abbrev pub set_payload : Job → Row → Row
set_payload j r = record r { payload = stored j }

-- `_require_version`
unfoldable pub require_version : Job → Option ℕ → Tx (Unit {0})
require_version j none = pure tt
require_version j (some expected) = require (eqb j.version expected) version_conflict

-- `a == b` on optional texts
abbrev pub same_text : Option String → Option String → Bool
same_text none none = true
same_text (some a) (some b) = a == b
same_text _ _ = false

-- whether the deadline is set and not before `now`
abbrev pub unexpired : Option ℕ → ℕ → Bool
unexpired none now = false
unexpired (some deadline) now = not (ltb deadline now)

-- `_require_live_lease`
unfoldable pub require_live_lease : Job → Option String → ℕ → Tx (Unit {0})
require_live_lease j owner now = do
  require (is_truthy owner && same_text j.lease_owner owner) lease_owner_mismatch
  require (unexpired j.lease_deadline_utc_ms now) lease_expired

-- f"{job_id}:{event_type}:v{version}"
unfoldable pub stable_event_id : String → String → ℕ → String
stable_event_id id type version =
    append id (append ":" (append type (append ":v" (show_nat version))))

-- `event_id or f"…"`
abbrev pub event_id_or : Option String → String → String
event_id_or none stable = stable
event_id_or (some given) stable = if truthy given then given else stable

-- SELECT seq FROM events WHERE event_id = ?
unfoldable pub find_event : String → List EventRow → Option EventRow
find_event id [] = none
find_event id (e ∷ es) = if e.event_id == id then some e else find_event id es

-- the row of `events` and the JSON object in it
abbrev pub event_row : String → ℕ → String → String → Job → EventRow
event_row stable sequence type id job = record {
  seq = sequence;
  event_id = stable;
  job_id = id;
  payload = record {
    event_id = stable;
    sequence = sequence;
    type = type;
    job_id = id;
    state = job.state;
    version = job.version;
  };
}

-- the three assignments of `_transition_in_transaction` after `job.update(updates)`
abbrev pub moved_to : JobState → ℕ → ℕ → Job → Job
moved_to target now version j = record j {
  state = target;
  updated_at_utc_ms = now;
  version = version;
}

module _ (c : Contracts) where
  -- `_get_in_transaction`, from the row that the SELECT gave
  unfoldable pub load : Option Row → Tx Job
  load none = raise job_not_found
  load (some r) = elim r.payload [
    | corrupt ↦ raise corrupt_job
    | stored j ↦ if c.validate_payload j then pure j else raise schema_violation
  ]

  unfoldable pub get_in_transaction : String → Tx Job
  unfolding load
  get_in_transaction id db = load (find_row id db.jobs) db

  -- `_rehash`
  unfoldable pub rehash : Job → Tx Job
  rehash j db = elim (c.seal_content_hash j) [
    | none ↦ err schema_violation
    | some k ↦ if c.validate_payload k then ok (k, db) else err schema_violation
  ]

  -- `_store_job_in_transaction`; the caller's dict becomes the sealed one
  unfoldable pub store_job_in_transaction : Job → ℕ → Tx Job
  unfolding rehash
  store_job_in_transaction payload expected = do
    sealed ← rehash payload
    λ db.
        if eqb (rowcount sealed.job_id expected db.jobs) 1
        then ok (
          sealed,
          record db { jobs = update_row sealed.job_id expected (set_columns sealed) db.jobs },
        )
        else err store_conflict

  -- The second half of `_append_event_in_transaction`. The row is inserted with an empty payload
  -- that the next statement of the same transaction fills in.
  unfoldable pub insert_event : String → String → Job → String → Tx Job
  unfolding rehash
  insert_event id type job stable db =
      (do
        sealed ← rehash (record job { event_cursor = some stable })
        λ db'. ok (
          sealed,
          record db' {
            jobs = update_row id sealed.version (set_payload sealed) db'.jobs;
            events = db'.events ++ event_row stable (db'.last_seq + 1) type id job ∷ [];
            last_seq = db'.last_seq + 1;
          },
        ))
        db

  -- `_append_event_in_transaction`
  unfoldable pub append_event_in_transaction : String → String → Job → Option String → Tx Job
  unfolding insert_event find_event
  append_event_in_transaction id type job event_id db =
      let stable = event_id_or event_id (stable_event_id id type job.version) in
      elim (find_event stable db.events) [
        | some _ ↦ ok (record job { event_cursor = some stable }, db)
        | none ↦ insert_event id type job stable db
      ]

  -- `_transition_in_transaction`; `updates` is `job.update(updates)`
  unfoldable pub transition_in_transaction :
      Job → JobState → String → ℕ → (Job → Job) → Option String → Tx Job
  unfolding store_job_in_transaction append_event_in_transaction
  transition_in_transaction job target event_type now updates event_id = do
    require (allowed job.state target) transition_not_allowed
    sealed ←
        store_job_in_transaction (moved_to target now (job.version + 1) (updates job)) job.version
    append_event_in_transaction sealed.job_id event_type sealed event_id
