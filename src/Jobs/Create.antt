-- ===== src/Jobs/Create.antt =====
-- `JobV1Store.create` and the helpers that it calls (openpine/jobs/transactional_store.py).
use openpine.Base.Lists.{contains}
use openpine.Jobs.Table.{find_row}
use openpine.Jobs.Store.{
  store_job_in_transaction, append_event_in_transaction, get_in_transaction, rehash, same_text,
}
use openpine.Jobs.Tx.{◌>>=◌, ◌>>◌, transaction, raise, ok, pure, err, Tx, Result}
use openpine.Base.{
  negsuc, pos, true, ◌+◌, false, not, Bool, [], truthy, some, ◌∷◌, ◌||◌, none, ℤ, ◌++◌,
  if◌then◌else◌, List, String, Option, ℕ,
}
use openpine.Jobs.Model.{
  BuildIdentity, job_exists, corrupt_job, corrupt, negative_max_retries, unknown_kind, job_kinds,
  build_identity, job_id_required, stored, Row, queued, Db, Envelope, Job, Contracts,
}

-- The arguments of `create` that go into the payload.
pub record Request : Type 0 where
  pub job_id : Option String
  pub kind : String
  pub actor : Option String
  pub idempotency_key : Option String
  pub parent_job_id : Option String
  pub input_artifact_refs : List String
  pub stack_id : String
  pub max_retries : ℤ

-- SELECT payload FROM jobs WHERE idempotency_key = ?
unfoldable pub find_by_key : String → List Row → Option Row
find_by_key key [] = none
find_by_key key (r ∷ rs) =
    if same_text r.idempotency_key (some key) then some r else find_by_key key rs

-- `_by_idempotency_in_transaction`
unfoldable pub by_idempotency_in_transaction : String → Tx (Option Job)
unfolding find_by_key
by_idempotency_in_transaction key db = elim (find_by_key key db.jobs) [
  | none ↦ ok (none, db)
  | some r ↦ elim r.payload [ corrupt ↦ err corrupt_job | stored j ↦ ok (some j, db) ]
]

-- the guard `if idempotency_key:` around it
abbrev pub existing_job : Option String → Tx (Option Job)
existing_job none = pure none
existing_job (some key) = if truthy key then by_idempotency_in_transaction key else pure none

-- the body that `create` hands to `_envelope`
abbrev pub new_job : Envelope → String → ℕ → Request → ℕ → Job
new_job envelope id now r max_retries = record {
  envelope = envelope;
  job_id = id;
  kind = r.kind;
  state = queued;
  version = 1;
  progress = 0;
  started_at_utc_ms = none;
  updated_at_utc_ms = now;
  finished_at_utc_ms = none;
  actor = r.actor;
  input_artifact_refs = r.input_artifact_refs;
  result_artifact_refs = [];
  error_code = none;
  idempotency_key = r.idempotency_key;
  lease_owner = none;
  lease_deadline_utc_ms = none;
  retry_count = 0;
  max_retries = some max_retries;
  parent_job_id = r.parent_job_id;
  child_job_ids = [];
  event_cursor = none;
  run_id = none;
  content_hash = none;
}

-- whether an INSERT breaks the primary key or the unique index on idempotency keys
abbrev pub key_taken : Option String → List Row → Bool
key_taken none rows = false
key_taken (some key) rows = elim (find_by_key key rows) [ none ↦ false | some _ ↦ true ]

abbrev pub id_taken : String → List Row → Bool
id_taken id rows = elim (find_row id rows) [ none ↦ false | some _ ↦ true ]

-- the row that `create` inserts
abbrev pub new_row : Job → Row
new_row j = record {
  job_id = j.job_id;
  payload = stored j;
  idempotency_key = j.idempotency_key;
  state = some queued;
  version = 1;
}

-- INSERT INTO jobs; none is `sqlite3.IntegrityError`.
unfoldable pub insert_job : Job → Db → Option Db
insert_job j db =
    if id_taken j.job_id db.jobs || key_taken j.idempotency_key db.jobs
    then none
    else some (record db { jobs = db.jobs ++ new_row j ∷ [] })

-- `if existing is not None: return existing` and the `raise` behind it
abbrev pub existing_or_raise : Option Job → Tx (Option Job)
existing_or_raise (some e) = pure (some e)
existing_or_raise none = raise job_exists

-- The handler of `sqlite3.IntegrityError` looks for the key once more, and then raises.
unfoldable pub handle_insert : Option String → Option Db → Tx (Option Job)
unfolding by_idempotency_in_transaction
handle_insert key (some db') db = ok (none, db')
handle_insert key none db = (do existing ← existing_job key; existing_or_raise existing) db

unfoldable pub insert_or_existing : Job → Option String → Tx (Option Job)
unfolding insert_job handle_insert
insert_or_existing j key db = handle_insert key (insert_job j db) db

-- the child appended to `child_job_ids`
abbrev pub with_child : Job → String → ℕ → Job
with_child parent id now = record parent {
  child_job_ids = parent.child_job_ids ++ id ∷ [];
  updated_at_utc_ms = now;
  version = parent.version + 1;
}

-- the tests of `create` before its transaction
unfoldable pub checked : Request → Result (String × ℕ)
checked r = elim r.job_id [
  | none ↦ err job_id_required
  | some id ↦
      if not (truthy id)
      then err job_id_required
      else if not (contains r.kind job_kinds)
      then err unknown_kind
      else elim r.max_retries [ pos n ↦ ok (id, n) | negsuc _ ↦ err negative_max_retries ]
]

module _ (c : Contracts) where
  -- `_envelope`, from what `current_build_identity` gave
  unfoldable pub envelope_with : Option BuildIdentity → String → ℕ → (Envelope → Job) → Tx Job
  envelope_with none stack_id created body = raise build_identity
  envelope_with (some i) stack_id created body = rehash c (
      body (record {
        schema_id = "openpine.job.v1";
        schema_version = "1.0.0";
        producer = "openpine";
        producer_version = i.contract_version;
        producer_commit = i.commit;
        stack_id = stack_id;
        created_at_utc_ms = created;
        serializer_id = c.serializer_id;
        content_hash_alg = "sha256";
      }))

  unfoldable pub envelope : String → ℕ → (Envelope → Job) → Tx Job
  unfolding envelope_with
  envelope = envelope_with c.identity

  -- the body of `if parent_job_id:`
  unfoldable pub link_to : String → String → ℕ → Tx (Unit {0})
  link_to parent_id id now = do
    parent ← get_in_transaction c parent_id
    if contains id parent.child_job_ids then pure tt else do
      sealed ← store_job_in_transaction c (with_child parent id now) parent.version
      append_event_in_transaction c parent_id "child_linked" sealed none
      pure tt

  unfoldable pub link_parent : Option String → String → ℕ → Tx (Unit {0})
  unfolding link_to
  link_parent none id now = pure tt
  link_parent (some parent_id) id now =
      if truthy parent_id then link_to parent_id id now else pure tt

  -- what follows the INSERT: the early return of a job that has the key, or the rest of `create`
  unfoldable pub after_insert : String → Request → ℕ → Job → Option Job → Tx Job
  unfolding link_parent
  after_insert id r now payload (some e) = pure e
  after_insert id r now payload none = do
    link_parent r.parent_job_id id now
    append_event_in_transaction c id "created" payload none

  unfoldable pub insert_new : String → Request → ℕ → ℕ → Tx Job
  unfolding envelope after_insert insert_or_existing
  insert_new id r max_retries now = do
    payload ← envelope r.stack_id now (λ e. new_job e id now r max_retries)
    found ← insert_or_existing payload r.idempotency_key
    after_insert id r now payload found

  unfoldable pub existing_or_new : String → Request → ℕ → ℕ → Option Job → Tx Job
  unfolding insert_new
  existing_or_new id r max_retries now (some e) = pure e
  existing_or_new id r max_retries now none = insert_new id r max_retries now

  unfoldable pub create_in_transaction : String → Request → ℕ → ℕ → Tx Job
  unfolding by_idempotency_in_transaction existing_or_new
  create_in_transaction id r max_retries now = do
    existing ← existing_job r.idempotency_key
    existing_or_new id r max_retries now existing

  unfoldable pub create_checked : Request → ℕ → Result (String × ℕ) → Db → Result Job × Db
  unfolding create_in_transaction
  create_checked r now (err e) db = (err e, db)
  create_checked r now (ok (id, max_retries)) db =
      transaction (create_in_transaction id r max_retries now) db

  unfoldable pub create : Request → ℕ → Db → Result Job × Db
  unfolding create_checked checked
  create r now = create_checked r now (checked r)
