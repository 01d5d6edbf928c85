-- ===== src/Jobs/Model.antt =====
-- The payload of a job, its states and transitions, and the two SQLite tables of
-- openpine/jobs/transactional_store.py. A payload is a JSON object with fixed keys there, and a
-- record here.
use openpine.Base.{ℕ, ◌≡◌, String, Bool, true, false, Option, List, [], ◌∷◌}

-- The members of the external enumeration `JobState` that the source names.
pub data JobState : Type 0 where
  queued running succeeded failed canceled lost retry_wait : JobState

abbrev pub job_kinds : List String
job_kinds = "backtest" ∷ "backfill" ∷ "compile" ∷ "optimize" ∷ "parity" ∷ "report" ∷ []

-- `target in _ALLOWED_TRANSITIONS[current]`
unfoldable pub allowed : JobState → JobState → Bool
allowed queued running = true
allowed queued failed = true
allowed queued canceled = true
allowed running succeeded = true
allowed running failed = true
allowed running canceled = true
allowed running lost = true
allowed failed queued = true
allowed failed canceled = true
allowed lost queued = true
allowed lost canceled = true
allowed retry_wait queued = true
allowed retry_wait canceled = true
allowed _ _ = false

-- `state is JobState.RUNNING` and its like
abbrev pub is_running : JobState → Bool
is_running running = true
is_running _ = false

abbrev pub same_state : JobState → JobState → Bool
same_state queued queued = true
same_state running running = true
same_state succeeded succeeded = true
same_state failed failed = true
same_state canceled canceled = true
same_state lost lost = true
same_state retry_wait retry_wait = true
same_state _ _ = false

abbrev pub is_queued : JobState → Bool
is_queued queued = true
is_queued _ = false

abbrev pub is_canceled : JobState → Bool
is_canceled canceled = true
is_canceled _ = false

pub record Envelope : Type 0 where
  pub schema_id : String
  pub schema_version : String
  pub producer : String
  pub producer_version : String
  pub producer_commit : String
  pub stack_id : String
  pub created_at_utc_ms : ℕ
  pub serializer_id : String
  pub content_hash_alg : String

pub record Job : Type 0 where
  pub envelope : Envelope
  pub job_id : String
  pub kind : String
  pub state : JobState
  pub version : ℕ
  pub progress : ℕ
  pub started_at_utc_ms : Option ℕ
  pub updated_at_utc_ms : ℕ
  pub finished_at_utc_ms : Option ℕ
  pub actor : Option String
  pub input_artifact_refs : List String
  pub result_artifact_refs : List String
  pub error_code : Option String
  pub idempotency_key : Option String
  pub lease_owner : Option String
  pub lease_deadline_utc_ms : Option ℕ
  pub retry_count : ℕ
  pub max_retries : Option ℕ
  pub parent_job_id : Option String
  pub child_job_ids : List String
  pub event_cursor : Option String
  pub run_id : Option String
  pub content_hash : Option String

-- A text column that should hold a payload: `json.loads` reads back what `json.dumps` wrote, and
-- anything else in the column is corrupt.
pub data Payload : Type 0 where
  corrupt : Payload
  stored : Job → Payload

-- a row of the table `jobs`; `job_id` is its primary key
pub record Row : Type 0 where
  pub job_id : String
  pub payload : Payload
  pub idempotency_key : Option String
  pub state : Option JobState
  pub version : ℕ

pub record Event : Type 0 where
  pub event_id : String
  pub sequence : ℕ
  pub type : String
  pub job_id : String
  pub state : JobState
  pub version : ℕ

-- a row of the table `events`
pub record EventRow : Type 0 where
  pub seq : ℕ
  pub event_id : String
  pub job_id : String
  pub payload : Event

-- The database. `last_seq` is SQLite's AUTOINCREMENT counter of `events`: no value is given twice.
pub record Db : Type 0 where
  pub jobs : List Row
  pub events : List EventRow
  pub last_seq : ℕ

-- The exceptions, one constructor for each `raise`.
pub data JobError : Type 0 where
  job_id_required unknown_kind negative_max_retries : JobError
  job_not_found corrupt_job schema_violation build_identity : JobError
  job_exists version_conflict store_conflict : JobError
  transition_not_allowed retry_limit : JobError
  lease_owner_required lease_deadline_past lease_owner_mismatch lease_expired : JobError

pub record BuildIdentity : Type 0 where
  pub contract_version : String
  pub commit : String

-- What the store takes from other packages and from the build: `seal_content_hash` gives none where
-- it raises `SchemaValidationError`, `validate_payload` tells whether it returns, and `identity` is
-- none where `current_build_identity` raises.
pub record Contracts : Type 0 where
  pub seal_content_hash : Job → Option Job
  pub validate_payload : Job → Bool
  pub serializer_id : String
  pub identity : Option BuildIdentity

-- Sealing writes the key `content_hash` and no other.
pub record SealsOnlyHash (c : Contracts) : Type 0 where
  pub seals :
      (j k : Job)
      → c.seal_content_hash j ≡ Option.some k
      → k ≡ record j { content_hash = k.content_hash }
