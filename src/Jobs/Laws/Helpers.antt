-- ===== src/Jobs/Laws/Helpers.antt =====
-- What a successful call of the private helpers of `JobV1Store` has done to the two tables
-- (openpine/jobs/transactional_store.py).
use openpine.Jobs.Table.{update_row, rowcount, find_row}
use openpine.Jobs.Tx.{ok}
use openpine.Jobs.Store.{
  find_event, event_row, stable_event_id, event_id_or, insert_event, set_payload,
  append_event_in_transaction, set_columns, store_job_in_transaction, rehash, get_in_transaction,
}
use openpine.Base.{
  inr, inl, Option-cases, [], none, ◌∷◌, ◌+◌, ◌++◌, ◌⊎◌, Option, true, arith, some, String, ◌≡◌, ℕ,
}
use openpine.Jobs.Model.{EventRow, stored, Row, Db, Job, Contracts}

-- Two payloads that differ in nothing but their cursor and their hash.
abbrev pub SameBody : Job → Job → Type 0
SameBody p q = q ≡ record p { event_cursor = q.event_cursor; content_hash = q.content_hash }

module _ (c : Contracts) where
  pub get-ok :
      (id : String) (db db' : Db) (j : Job)
      → get_in_transaction c id db ≡ ok (j, db')
      → (r : Row) × (find_row id db.jobs ≡ some r)
        × (r.payload ≡ stored j)
        × (c.validate_payload j ≡ true)
        × (db' ≡ db)
  unfolding get_in_transaction
  get-ok id db db' j h = ground arith

  pub rehash-ok :
      (p q : Job) (db db' : Db)
      → rehash c p db ≡ ok (q, db')
      → (c.seal_content_hash p ≡ some q) × (db' ≡ db)
  unfolding rehash
  rehash-ok p q db db' h = ground arith

  pub store-ok :
      (p q : Job) (expected : ℕ) (db db' : Db)
      → store_job_in_transaction c p expected db ≡ ok (q, db')
      → (c.seal_content_hash p ≡ some q)
        × (rowcount q.job_id expected db.jobs ≡ 1)
        × (db' ≡ record db { jobs = update_row q.job_id expected (set_columns q) db.jobs })
  unfolding store_job_in_transaction
  store-ok p q expected db db' h = ground arith

  pub insert_event-ok :
      (id type stable : String) (p q : Job) (db db' : Db)
      → insert_event c id type p stable db ≡ ok (q, db')
      → (c.seal_content_hash (record p { event_cursor = some stable }) ≡ some q)
        × (db' ≡ record db {
          jobs = update_row id q.version (set_payload q) db.jobs;
          events = db.events ++ event_row stable (db.last_seq + 1) type id p ∷ [];
          last_seq = db.last_seq + 1;
        })
  unfolding insert_event
  insert_event-ok id type stable p q db db' h = ground arith

  -- Either the log has the event already, or it is appended.
  pub append-ok :
      (id type : String) (p q : Job) (event_id : Option String) (db db' : Db)
      → append_event_in_transaction c id type p event_id db ≡ ok (q, db')
      → let stable = event_id_or event_id (stable_event_id id type p.version) in
        ((e : EventRow) × (find_event stable db.events ≡ some e)
          × (q ≡ record p { event_cursor = some stable })
          × (db' ≡ db))
        ⊎ ((find_event stable db.events ≡ none)
            × (insert_event c id type p stable db ≡ ok (q, db')))
  unfolding append_event_in_transaction
  append-ok id type p q event_id db db' h =
      let stable = event_id_or event_id (stable_event_id id type p.version) in
      elim (Option-cases (find_event stable db.events)) [
        | inl e ↦ inr (e, rw (e, append_event_in_transaction) at h)
        | inr (x, e) ↦ inl (x, e, ground arith, ground arith)
      ]
