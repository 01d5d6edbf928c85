-- ===== src/Jobs/Laws/Effects.antt =====
-- What each public method of `JobV1Store` that changes a job has checked and written when it returns
-- (openpine/jobs/transactional_store.py).
use openpine.Jobs.Laws.Guards.{
  lease-bind, require-bind, HasLiveLease, transition-Written, version-bind, get-bind,
  transaction-ok, Expects,
}
use openpine.Jobs.Store.{append_event_in_transaction, store_job_in_transaction, moved_to}
use openpine.Jobs.Tx.{>>=-ok, transaction, ◌>>◌, Tx, ok}
use openpine.Jobs.Laws.Helpers.{SameBody}
use openpine.Jobs.Laws.Written.{append-Written, store-Written, Written}
use openpine.Jobs.Ops.{
  retried_updates, finished_updates, beyond, retry, cancel, renew_in_transaction, succeeded_updates,
  failed_updates, renewed, require_lease_if_running, mark_failed, mark_succeeded, renew_lease,
  transition, running_updates, mark_running,
}
use openpine.Jobs.Laws.Consistent.{IsLeased, Found, IsConsistent}
use openpine.Jobs.Model.{
  retry_limit, is_queued, canceled, is_canceled, transition_not_allowed, succeeded, failed,
  is_running, allowed, JobState, queued, running, Job, SealsOnlyHash, Contracts, Db,
}
use openpine.Base.{
  ◌≤◌, not, ltb, ◌&&◌, false, inl, some, Bool-cases, inr, ◌⊎◌, List, refl, none, arith, ◌<◌, true,
  truthy, ◌+◌, ◌≡◌, Option, String, ℕ,
}

-- Job `j` of `id` has become `p`, which the method gave back as `q` with its cursor and hash.
pub record Moved (db db' : Db) (id : String) (j p q : Job) : Type 0 where
  pub before : Found db id j
  pub leased : IsLeased j
  pub written : Written db db' id p
  pub returned : SameBody p q

-- What a job becomes, field by field. It runs, for an owner and until a deadline:
abbrev pub claimed : String → ℕ → ℕ → Job → Job
claimed owner deadline now j = record j {
  state = running;
  updated_at_utc_ms = now;
  version = j.version + 1;
  started_at_utc_ms = some now;
  lease_owner = some owner;
  lease_deadline_utc_ms = some deadline;
}

-- it has succeeded, with artifacts:
abbrev pub completed : List String → ℕ → Job → Job
completed refs now j = record j {
  state = succeeded;
  updated_at_utc_ms = now;
  version = j.version + 1;
  progress = 100;
  finished_at_utc_ms = some now;
  result_artifact_refs = refs;
  lease_owner = none;
  lease_deadline_utc_ms = none;
}

-- it has failed, with a code:
abbrev pub broken : String → ℕ → Job → Job
broken code now j = record j {
  state = failed;
  updated_at_utc_ms = now;
  version = j.version + 1;
  finished_at_utc_ms = some now;
  error_code = some code;
  lease_owner = none;
  lease_deadline_utc_ms = none;
}

-- and it waits once more.
abbrev pub requeued : ℕ → Job → Job
requeued now j = record j {
  state = queued;
  updated_at_utc_ms = now;
  version = j.version + 1;
  retry_count = j.retry_count + 1;
  finished_at_utc_ms = none;
  error_code = none;
}

-- a count is within a limit, if there is one
abbrev pub IsWithin : Option ℕ → ℕ → Type 0
IsWithin none count = Unit
IsWithin (some limit) count = count ≤ limit

beyond-IsWithin : (limit : Option ℕ) (count : ℕ) → beyond count limit ≡ false → IsWithin limit count
beyond-IsWithin none count h = tt
beyond-IsWithin (some limit) count h = ground arith

pub IsWithin-beyond :
    (limit : Option ℕ) (count : ℕ) → IsWithin limit count → beyond count limit ≡ false
IsWithin-beyond none count h = refl
IsWithin-beyond (some limit) count h = ground arith

running_of : (s : JobState) → is_running s ≡ true → s ≡ running
running_of s h = ground arith

canceled_of : (s : JobState) → is_canceled s ≡ true → s ≡ canceled
canceled_of s h = ground arith

failed_from :
    {P : Type 0} (s : JobState)
    → allowed s failed ≡ true
    → (is_running s ≡ true → P)
    → (s ≡ queued) ⊎ (s ≡ running) × P
unfolding allowed
failed_from running h p = inr (refl, p refl)
failed_from s h p = inl (ground arith)

module _ {ℓ} {B : Type ℓ} (db db' : Db) (b : B) where
  running_lease-bind :
      (j : Job) (owner : Option String) (now : ℕ) (k : Tx B)
      → (require_lease_if_running j owner now >> k) db ≡ ok (b, db')
      → (is_running j.state ≡ true → HasLiveLease j owner now) × (k db ≡ ok (b, db'))
  running_lease-bind j owner now k h = elim (Bool-cases (is_running j.state)) [
    | inl e ↦
        let (live, rest) =
          lease-bind db db' b j owner now k (rw (e, require_lease_if_running) at h) in
        (λ _. live, rest)
    | inr e ↦ (λ t. cc, rw (e, require_lease_if_running) at h)
  ]

module _ (c : Contracts) (laws : SealsOnlyHash c) (db db' : Db) (inv : IsConsistent db)
    (id : String) (q : Job) where
  transition-Moved :
      (target : JobState) (type : String) (expected : Option ℕ) (now : ℕ) (updates : Job → Job)
      → ((j : Job) → (updates j).job_id ≡ j.job_id)
      → transition c id target type expected now updates db ≡ (ok q, db')
      → (j : Job) × Moved db db' id j (moved_to target now (j.version + 1) (updates j)) q
        × (allowed j.state target ≡ true)
        × Expects expected j.version
  unfolding transition
  transition-Moved target type expected now updates keeps h =
      let (j, f, l, r) = get-bind db db' q c id _ inv (transaction-ok _ db db' q h) in
      let (e, r') = version-bind db db' q j expected _ r in
      let (allow, w, b, _) =
        transition-Written c laws id j q target type now updates none db db' f.row f.found
          f.id_column (keeps j) r' in
      (j, record { before = f; leased = l; written = w; returned = b }, allow, e)

  -- When mark_running returns on a consistent store, the job was queued and at the expected version, the
  -- owner is not empty and the deadline lies in the future; the job is stored, and given back but for
  -- its event cursor and content hash, as running since now, with that owner and deadline of its lease
  -- and the next version, and otherwise as it was.
  pub mark_running-Moved :
      (owner : String) (deadline now : ℕ) (expected : Option ℕ)
      → mark_running c id owner deadline now expected db ≡ (ok q, db')
      → (j : Job) × Moved db db' id j (claimed owner deadline now j) q
        × (j.state ≡ queued)
        × Expects expected j.version
        × (truthy owner ≡ true)
        × (now < deadline)
  unfolding mark_running allowed
  mark_running-Moved owner deadline now expected h =
      let (j, m, allow, e) =
        transition-Moved running "running" expected now (running_updates now owner deadline)
          (λ _. refl) (ground arith) in
      (j, m, ground arith, e, ground arith, ground arith)

  -- A renewed lease was live and held by the same owner; nothing but its deadline moves.
  pub renew_lease-Moved :
      (owner : String) (deadline now : ℕ) (expected : Option ℕ)
      → renew_lease c id owner deadline now expected db ≡ (ok q, db')
      → (j : Job) × Moved db db' id j (renewed deadline now j) q
        × HasLiveLease j (some owner) now
        × Expects expected j.version
        × (now < deadline)
  unfolding renew_lease
  renew_lease-Moved owner deadline now expected h =
      let t : transaction (renew_in_transaction c id owner deadline now expected) db ≡ (ok q, db') =
        ground arith in
      let (j, f, l, r) = get-bind db db' q c id _ inv (transaction-ok _ db db' q t) in
      let (e, r') = version-bind db db' q j expected _ r in
      let (live, r'') = lease-bind db db' q j (some owner) now _ r' in
      let p = renewed deadline now j in
      let (sealed, db₁, s, a) =
        >>=-ok (store_job_in_transaction c p j.version)
          (λ sealed. append_event_in_transaction c id "lease_renewed" sealed none) db db' q r'' in
      let (w, hash, _) =
        store-Written c laws id p f.id_column sealed j.version db db₁ f.row f.found s in
      let (w', b) =
        append-Written c laws id p f.id_column "lease_renewed" sealed q none db db₁ db'
          (ground arith) w a in
      (j, record { before = f; leased = l; written = w'; returned = b }, live, e, ground arith)

  -- When mark_succeeded returns on a consistent store, the job was running at the expected version,
  -- under a live lease of the owner; it is stored, and given back but for its event cursor and content
  -- hash, as succeeded and finished now, at the next version, without a lease and with the given results,
  -- and otherwise as it was.
  pub mark_succeeded-Moved :
      (owner : String) (expected : Option ℕ) (now : ℕ) (refs : List String)
      → mark_succeeded c id owner expected now refs db ≡ (ok q, db')
      → (j : Job) × Moved db db' id j (completed refs now j) q
        × (j.state ≡ running)
        × HasLiveLease j (some owner) now
        × Expects expected j.version
  unfolding mark_succeeded
  mark_succeeded-Moved owner expected now refs h =
      let (j, f, l, r) = get-bind db db' q c id _ inv (transaction-ok _ db db' q h) in
      let (e, r₁) = version-bind db db' q j expected _ r in
      let (runs, r₂) = require-bind db db' q (is_running j.state) transition_not_allowed _ r₁ in
      let (live, r₃) = lease-bind db db' q j (some owner) now _ r₂ in
      let (_, w, b, _) =
        transition-Written c laws id j q succeeded "succeeded" now (succeeded_updates now refs) none
          db db' f.row f.found f.id_column refl r₃ in
      (
        j,
        record { before = f; leased = l; written = w; returned = b },
        running_of j.state runs,
        live,
        e,
      )

  -- When mark_failed returns on a consistent store, the job was queued, or running under a live lease of
  -- the owner, at the expected version; it is stored, and given back but for its event cursor and content
  -- hash, as failed and finished now, at the next version, without a lease and with the given error code,
  -- and otherwise as it was.
  pub mark_failed-Moved :
      (code : String) (owner : Option String) (expected : Option ℕ) (now : ℕ)
      → mark_failed c id code owner expected now db ≡ (ok q, db')
      → (j : Job) × Moved db db' id j (broken code now j) q
        × ((j.state ≡ queued) ⊎ (j.state ≡ running) × HasLiveLease j owner now)
        × Expects expected j.version
  unfolding mark_failed allowed
  mark_failed-Moved code owner expected now h =
      let (j, f, l, r) = get-bind db db' q c id _ inv (transaction-ok _ db db' q h) in
      let (e, r₁) = version-bind db db' q j expected _ r in
      let (live, r₂) = running_lease-bind db db' q j owner now _ r₁ in
      let (allow, w, b, _) =
        transition-Written c laws id j q failed "failed" now (failed_updates now code) none db db'
          f.row f.found f.id_column refl r₂ in
      (
        j,
        record { before = f; leased = l; written = w; returned = b },
        failed_from j.state allow live,
        e,
      )

  -- Cancelling a canceled job changes nothing; any other is moved to `canceled`, where the
  -- transition table has it.
  pub cancel-Moved :
      (key : Option String) (now finished : ℕ)
      → cancel c id key now finished db ≡ (ok q, db')
      → (j : Job) × Found db id j
        × ((j.state ≡ canceled) × (q ≡ j) × (db' ≡ db)
            ⊎ (allowed j.state canceled ≡ true)
              × Moved db db' id j
                  (moved_to canceled now (j.version + 1) (finished_updates finished j))
                  q)
  unfolding cancel
  cancel-Moved key now finished h =
      let (j, f, l, r) = get-bind db db' q c id _ inv (transaction-ok _ db db' q h) in
      (
        j,
        f,
        elim (Bool-cases (is_canceled j.state)) [
          | inl e ↦ inl (canceled_of j.state e, ground arith, ground arith)
          | inr e ↦
              let (allow, w, b, _) =
                transition-Written c laws id j q canceled "canceled" now (finished_updates finished)
                  key db db' f.row f.found f.id_column refl (rw e at r) in
              inr (allow, record { before = f; leased = l; written = w; returned = b })
        ],
      )

  -- When retry returns on a consistent store, either the job already waits for a retry and nothing
  -- changes, or the transition table lets it go back to the queue, one more retry is within its limit,
  -- and it is stored, and given back but for its event cursor and content hash, as queued with one more
  -- retry and the next version, without an error code or a time of finishing, and otherwise as it was.
  pub retry-Moved :
      (now : ℕ)
      → retry c id now db ≡ (ok q, db')
      → (j : Job) × Found db id j
        × ((j.state ≡ queued) × (0 < j.retry_count) × (q ≡ j) × (db' ≡ db)
            ⊎ (allowed j.state queued ≡ true)
              × IsWithin j.max_retries (j.retry_count + 1)
              × Moved db db' id j (requeued now j) q)
  unfolding retry
  retry-Moved now h =
      let (j, f, l, r) = get-bind db db' q c id _ inv (transaction-ok _ db db' q h) in
      (
        j,
        f,
        elim (Bool-cases (is_queued j.state && ltb 0 j.retry_count)) [
          | inl e ↦ inl (ground arith, ground arith, ground arith, ground arith)
          | inr e ↦
              let (within, r₁) =
                require-bind db db' q (not (beyond (j.retry_count + 1) j.max_retries)) retry_limit _
                  (rw e at r) in
              let (allow, w, b, _) =
                transition-Written c laws id j q queued "retried" now
                  (retried_updates (j.retry_count + 1)) none db db' f.row f.found f.id_column refl
                  r₁ in
              inr (
                allow,
                beyond-IsWithin j.max_retries (j.retry_count + 1) (ground arith),
                record { before = f; leased = l; written = w; returned = b },
              )
        ],
      )
