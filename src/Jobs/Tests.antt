-- ===== src/Jobs/Tests.antt =====
-- Runs of the job store and instances of its theorems
-- (openpine/jobs/transactional_store.py).
use openpine.Jobs.Laws.Evolution.{Evolves}
use openpine.Jobs.Tx.{err, ok, Result}
use openpine.Jobs.Laws.History.{
  claim_once, final_is_forever, run-Evolves, run-IsConsistent, is_final,
}
use openpine.Jobs.Laws.Consistent.{Found, IsConsistent}
use openpine.Jobs.Ops
use openpine.Jobs.Create.{new_job, Request}
use openpine.Jobs.Model.{
  stored, corrupt, Job, Payload, Row, queued, JobState, succeeded, Db, SealsOnlyHash, Contracts,
}
use openpine.Jobs.History.{Command, run, execute, empty}
use openpine.Base.{
  ◌≢◌, refl, map, pos, [], Option, none, true, String, ◌∷◌, arith, some, ◌≡◌, List, ℕ,
}

-- a package of contracts that accepts every payload
abbrev lenient : Contracts
lenient = record {
  seal_content_hash = λ j. some (record j { content_hash = some "hash" });
  validate_payload = λ j. true;
  serializer_id = "json";
  identity = some (record { contract_version = "5.0"; commit = "abc" });
}

lenient-SealsOnlyHash : SealsOnlyHash lenient
lenient-SealsOnlyHash = record { seals = λ j k h. ground arith }

abbrev request : Request
request = record {
  job_id = some "a";
  kind = "backtest";
  actor = none;
  idempotency_key = some "key";
  parent_job_id = none;
  input_artifact_refs = [];
  stack_id = "openpine-5.0";
  max_retries = pos 1;
}

abbrev child_request : Request
child_request = record request {
  job_id = some "b";
  idempotency_key = none;
  parent_job_id = some "a";
}

abbrev script : List Command
script =
    Command.create request 10
    ∷ Command.create child_request 11
    ∷ Command.mark_running "a" "w1" 100 20 (some 2)
    ∷ Command.mark_succeeded "a" "w2" none 30 []
    ∷ Command.recover_lost_leases 200
    ∷ Command.retry "a" 201
    ∷ Command.mark_running "a" "w2" 400 300 none
    ∷ Command.mark_succeeded "a" "w2" none 301 []
    ∷ []

abbrev states : Db → List (String × Option JobState × ℕ)
states db = map (λ r. (r.job_id, r.state, r.version)) db.jobs

states_at_end :
    states (run lenient script empty) ≡ ("a", some succeeded, 7) ∷ ("b", some queued, 1) ∷ []
unfolding run execute
states_at_end = refl

abbrev first_row : List Row → Row
first_row [] = record {
  job_id = "";
  payload = corrupt;
  idempotency_key = none;
  state = none;
  version = 0;
}
first_row (r ∷ rs) = r

abbrev job_in : Payload → Option Job
job_in corrupt = none
job_in (stored j) = some j

-- the database in which "a" has succeeded
abbrev done : Db
done = run lenient script empty

done-IsConsistent : IsConsistent done
done-IsConsistent = run-IsConsistent lenient lenient-SealsOnlyHash script

abbrev payload_of : Payload → Job → Job
payload_of corrupt j = j
payload_of (stored j) _ = j

abbrev blank : Job
blank =
    new_job
      (record {
        schema_id = "";
        schema_version = "";
        producer = "";
        producer_version = "";
        producer_commit = "";
        stack_id = "";
        created_at_utc_ms = 0;
        serializer_id = "";
        content_hash_alg = "";
      })
      "" 0 request 0

abbrev done_a : Job
done_a = payload_of (first_row done.jobs).payload blank

done_a-Found : Found done "a" done_a
unfolding run execute
done_a-Found = record {
  row = first_row done.jobs;
  found = refl;
  payload = refl;
  id_column = refl;
  key_column = refl;
  state_column = refl;
  version_column = refl;
}

done_a_final : is_final done_a.state ≡ true
unfolding run execute
done_a_final = refl

abbrev afterwards : List Command
afterwards = Command.cancel "a" none 500 500 ∷ Command.retry "a" 501 ∷ []

-- a database in which "a" waits at version 1
abbrev queued_a : Db
queued_a = run lenient (Command.create request 10 ∷ []) empty

queued_a-IsConsistent : IsConsistent queued_a
queued_a-IsConsistent =
    run-IsConsistent lenient lenient-SealsOnlyHash (Command.create request 10 ∷ [])

abbrev claimed : Result Job × Db
claimed = Ops.mark_running lenient "a" "w1" 100 20 (some 1) queued_a

abbrev result_of : Result Job → Job
result_of (ok j) = j
result_of (err e) = blank

claim_ok : claimed ≡ (ok (result_of claimed.0), claimed.1)
unfolding run execute
claim_ok = refl

run-IsConsistent_example : IsConsistent (run lenient script empty)
run-IsConsistent_example = run-IsConsistent lenient lenient-SealsOnlyHash script

run-Evolves_example : Evolves done (run lenient afterwards done)
run-Evolves_example = run-Evolves lenient lenient-SealsOnlyHash afterwards done done-IsConsistent

final_is_forever_example :
    (k : Job) × Found (run lenient afterwards done) "a" k × (k.state ≡ done_a.state)
final_is_forever_example =
    final_is_forever lenient lenient-SealsOnlyHash afterwards done "a" done_a done-IsConsistent
      done_a-Found done_a_final

claim_once_example :
    Ops.mark_running lenient "a" "w2" 200 50 (some 1) (run lenient afterwards claimed.1)
    ≢ (ok done_a, done)
claim_once_example =
    claim_once lenient lenient-SealsOnlyHash queued_a claimed.1 done "a" 1 "w1" 100 20
      (result_of claimed.0) afterwards "w2" 200 50 done_a queued_a-IsConsistent claim_ok
