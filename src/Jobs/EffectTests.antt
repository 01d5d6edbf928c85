-- ===== src/Jobs/EffectTests.antt =====
-- Instances of the theorems on single methods of the job store
-- (openpine/jobs/transactional_store.py).
use openpine.Jobs.Laws.Guards.{HasLiveLease, Expects}
use openpine.Jobs.Ops.{retried_updates, beyond, failed_updates, succeeded_updates, running_updates}
use openpine.Jobs.Laws.Effects.{
  requeued, IsWithin, broken, completed, claimed, retry-Moved, mark_running-Moved,
  mark_failed-Moved, mark_succeeded-Moved, Moved,
}
use openpine.Jobs.Laws.History.{run-IsConsistent}
use openpine.Jobs.History.{empty, execute, Command, run}
use openpine.Jobs.Laws.Consistent.{Found, IsConsistent}
use openpine.Jobs.Tx.{err, ok, Result}
use openpine.Jobs.Create.{new_job, Request}
use openpine.Jobs.Model.{allowed, queued, running, Db, Job, SealsOnlyHash, Contracts}
use openpine.Jobs.Ops
use openpine.Base.{refl, truthy, ◌⊎◌, ◌<◌, ◌+◌, ◌≡◌, pos, [], ◌∷◌, none, true, arith, some}

abbrev lenient : Contracts
lenient = record {
  seal_content_hash = λ j. some (record j { content_hash = some "hash" });
  validate_payload = λ j. true;
  serializer_id = "json";
  identity = some (record { contract_version = "5.0"; commit = "abc" });
}

lenient-SealsOnlyHash : SealsOnlyHash lenient
lenient-SealsOnlyHash = record { seals = λ j k h. ground arith }

abbrev request : Request
request = record {
  job_id = some "a";
  kind = "backtest";
  actor = none;
  idempotency_key = some "key";
  parent_job_id = none;
  input_artifact_refs = [];
  stack_id = "openpine-5.0";
  max_retries = pos 1;
}

abbrev blank : Job
blank =
    new_job
      (record {
        schema_id = "";
        schema_version = "";
        producer = "";
        producer_version = "";
        producer_commit = "";
        stack_id = "";
        created_at_utc_ms = 0;
        serializer_id = "";
        content_hash_alg = "";
      })
      "" 0 request 0

abbrev result_of : Result Job → Job
result_of (ok j) = j
result_of (err e) = blank

abbrev before_claim : Db
before_claim = run lenient (Command.create request 10 ∷ []) empty

before_claim-IsConsistent : IsConsistent before_claim
before_claim-IsConsistent =
    run-IsConsistent lenient lenient-SealsOnlyHash (Command.create request 10 ∷ [])

abbrev claim : Result Job × Db
claim = Ops.mark_running lenient "a" "w1" 100 20 (some 1) before_claim

claim-IsConsistent : IsConsistent claim.1
unfolding run execute
claim-IsConsistent =
    run-IsConsistent lenient lenient-SealsOnlyHash
      (Command.create request 10 ∷ Command.mark_running "a" "w1" 100 20 (some 1) ∷ [])

abbrev success : Result Job × Db
success = Ops.mark_succeeded lenient "a" "w1" (some 2) 50 ("r" ∷ []) claim.1

abbrev failure : Result Job × Db
failure = Ops.mark_failed lenient "a" "timeout" (some "w1") (some 2) 50 claim.1

failure-IsConsistent : IsConsistent failure.1
unfolding run execute
failure-IsConsistent = run-IsConsistent lenient lenient-SealsOnlyHash (
    Command.create request 10
    ∷ Command.mark_running "a" "w1" 100 20 (some 1)
    ∷ Command.mark_failed "a" "timeout" (some "w1") (some 2) 50
    ∷ [])

abbrev second : Result Job × Db
second = Ops.retry lenient "a" 60 failure.1

mark_running-Moved_example :
    (j : Job) × Moved before_claim claim.1 "a" j (claimed "w1" 100 20 j) (result_of claim.0)
    × (j.state ≡ queued)
    × Expects (some 1) j.version
    × (truthy "w1" ≡ true)
    × (20 < 100)
unfolding run execute
mark_running-Moved_example =
    mark_running-Moved lenient lenient-SealsOnlyHash before_claim claim.1 before_claim-IsConsistent
      "a" (result_of claim.0) "w1" 100 20 (some 1) refl

mark_succeeded-Moved_example :
    (j : Job) × Moved claim.1 success.1 "a" j (completed ("r" ∷ []) 50 j) (result_of success.0)
    × (j.state ≡ running)
    × HasLiveLease j (some "w1") 50
    × Expects (some 2) j.version
unfolding run execute
mark_succeeded-Moved_example =
    mark_succeeded-Moved lenient lenient-SealsOnlyHash claim.1 success.1 claim-IsConsistent "a"
      (result_of success.0) "w1" (some 2) 50 ("r" ∷ []) refl

mark_failed-Moved_example :
    (j : Job) × Moved claim.1 failure.1 "a" j (broken "timeout" 50 j) (result_of failure.0)
    × ((j.state ≡ queued) ⊎ (j.state ≡ running) × HasLiveLease j (some "w1") 50)
    × Expects (some 2) j.version
unfolding run execute
mark_failed-Moved_example =
    mark_failed-Moved lenient lenient-SealsOnlyHash claim.1 failure.1 claim-IsConsistent "a"
      (result_of failure.0) "timeout" (some "w1") (some 2) 50 refl

retry-Moved_example :
    (j : Job) × Found failure.1 "a" j
    × ((j.state ≡ queued) × (0 < j.retry_count) × (result_of second.0 ≡ j) × (second.1 ≡ failure.1)
        ⊎ (allowed j.state queued ≡ true)
          × IsWithin j.max_retries (j.retry_count + 1)
          × Moved failure.1 second.1 "a" j (requeued 60 j) (result_of second.0))
unfolding run execute
retry-Moved_example =
    retry-Moved lenient lenient-SealsOnlyHash failure.1 second.1 failure-IsConsistent "a"
      (result_of second.0) 60 refl
