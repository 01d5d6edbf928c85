-- ===== src/Jobs/Laws/Written.antt =====
-- A write of one job as a whole: `_store_job_in_transaction` followed by
-- `_append_event_in_transaction` (openpine/jobs/transactional_store.py).
use openpine.Jobs.Tx.{ok}
use openpine.Jobs.Laws.Helpers.{append-ok, insert_event-ok, store-ok, SameBody}
use openpine.Jobs.Store.{
  stable_event_id, event_id_or, set_payload, set_columns, append_event_in_transaction, insert_event,
  store_job_in_transaction,
}
use openpine.Jobs.Table.{
  update_row-HasUniqueIds, HasUniqueIds, find_row-update_row_other, find_row-update_row_self,
  update_row, version_of_rowcount, find_row,
}
use openpine.Base.{
  refl, ◌∙◌, inr, inl, Option, [], ◌∷◌, false, eq_iff, ◌==◌, arith, ◌∷◌, some, ◌≡◌, List, String, ℕ,
}
use openpine.Jobs.Model.{stored, Row, SealsOnlyHash, Db, Job, Contracts}

-- The rows of `jobs` hold `p` under `id`, and are otherwise as before.
pub record Written (db db' : Db) (id : String) (p : Job) : Type 0 where
  pub row : Row
  pub held : Job
  pub found : find_row id db'.jobs ≡ some row
  pub payload : row.payload ≡ stored held
  pub body : SameBody p held
  pub id_column : row.job_id ≡ id
  pub key_column : row.idempotency_key ≡ p.idempotency_key
  pub state_column : row.state ≡ some p.state
  pub version_column : row.version ≡ p.version
  pub others : (k : String) → (id == k) ≡ false → find_row k db'.jobs ≡ find_row k db.jobs
  pub keyed : HasUniqueIds db.jobs → HasUniqueIds db'.jobs

pub find_row-id :
    (id : String) (rows : List Row) (r : Row) → find_row id rows ≡ some r → r.job_id ≡ id
unfolding find_row
find_row-id id [] r h = cc
find_row-id id (s ∷ rows) r h = ground (arith, eq_iff s.job_id id, find_row-id id rows r)

module _ (c : Contracts) (laws : SealsOnlyHash c) (id : String) (p : Job)
    (same : p.job_id ≡ id) where
  pub store-Written :
      (q : Job) (expected : ℕ) (db db' : Db) (r : Row)
      → find_row id db.jobs ≡ some r
      → store_job_in_transaction c p expected db ≡ ok (q, db')
      → Written db db' id p
        × (q ≡ record p { content_hash = q.content_hash })
        × (r.version ≡ expected)
  store-Written q expected db db' r h s =
      let (sealed, count, moved) = store-ok c p q expected db db' s in
      let hash = laws.seals p q sealed in
      let q_id : q.job_id ≡ id = ground arith in
      let v = version_of_rowcount id expected db.jobs r h (rw q_id at count) in
      let jobs : db'.jobs ≡ update_row id expected (set_columns q) db.jobs = ground arith in
      (
        record {
          row = set_columns q r;
          held = q;
          found =
              rw jobs
                (find_row-update_row_self id expected (set_columns q) db.jobs (λ _. refl) r h v);
          payload = refl;
          body = ground arith;
          id_column = find_row-id id db.jobs r h;
          key_column = ground arith;
          state_column = ground arith;
          version_column = ground arith;
          others = λ k e.
              rw jobs
                (find_row-update_row_other id expected (set_columns q) db.jobs (λ _. refl) k e);
          keyed = λ u.
              rw jobs (update_row-HasUniqueIds id expected (set_columns q) db.jobs (λ _. refl) u);
        },
        hash,
        v,
      )

  insert-Written :
      (type : String) (q q' : Job) (stable : String) (db₀ db db' : Db)
      → SameBody p q
      → Written db₀ db id p
      → insert_event c id type q stable db ≡ ok (q', db')
      → Written db₀ db' id p × SameBody p q'
  insert-Written type q q' stable db₀ db db' b w h =
      let (sealed, moved) = insert_event-ok c id type stable q q' db db' h in
      let hash = laws.seals _ q' sealed in
      let body : SameBody p q' = ground arith in
      let v : w.row.version ≡ q'.version = ground arith in
      let jobs : db'.jobs ≡ update_row id q'.version (set_payload q') db.jobs = ground arith in
      (
        record {
          row = set_payload q' w.row;
          held = q';
          found = rw jobs (
              find_row-update_row_self id q'.version (set_payload q') db.jobs (λ _. refl) w.row
                w.found v);
          payload = refl;
          body = body;
          id_column = w.id_column;
          key_column = w.key_column;
          state_column = w.state_column;
          version_column = w.version_column;
          others = λ k e. rw jobs (
              find_row-update_row_other id q'.version (set_payload q') db.jobs (λ _. refl) k e
              ∙ w.others k e);
          keyed = λ u. rw jobs (
              update_row-HasUniqueIds id q'.version (set_payload q') db.jobs (λ _. refl)
                (w.keyed u));
        },
        body,
      )

  pub append-Written :
      (type : String) (q q' : Job) (event_id : Option String) (db₀ db db' : Db)
      → SameBody p q
      → Written db₀ db id p
      → append_event_in_transaction c id type q event_id db ≡ ok (q', db')
      → Written db₀ db' id p × SameBody p q'
  append-Written type q q' event_id db₀ db db' b w h =
      elim (append-ok c id type q q' event_id db db' h) [
        | inl (e, _, moved, kept) ↦ (rw kept w, ground arith)
        | inr (_, inserted) ↦
            insert-Written type q q' (event_id_or event_id (stable_event_id id type q.version)) db₀
              db db' b w inserted
      ]
