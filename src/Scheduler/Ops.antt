-- ===== src/Scheduler/Ops.antt =====
-- The methods of `JobScheduler` on jobs (openpine/jobs/scheduler.py). Where a method reads the clock
-- once for the job and once in `touch`, both readings are arguments.
use openpine.Base.Lists.{get_elem?, set}
use openpine.Scheduler.Model.{
  cancelled, is_pending, is_terminal, failed, done, running, Scheduler, Job,
}
use openpine.Base.Dict.{remove, Dict, put, get}
use mathlib.Core.Option
use openpine.Base.{
  ltb, ◌==◌, not, true, ◌&&◌, ◌++◌, ◌||◌, [], ◌∷◌, false, truthy, lt_int, none, if◌then◌else◌, some,
  ◌∷◌, Bool, Option, String, List, ℕ,
}

-- `if job.idempotency_key: self._idempotency_map[…] = job.id`
abbrev pub remember : Option String → String → Dict String → Dict String
remember none id m = m
remember (some key) id m = if truthy key then put m key id else m

-- `job.serialization_key and job.serialization_key in self._running`
unfoldable pub is_blocked : Option String → Dict String → Bool
unfolding get
is_blocked none m = false
is_blocked (some key) m = truthy key && elim (get m key) [ none ↦ false | some _ ↦ true ]

-- `if job.serialization_key: self._running[…] = job_id`
abbrev pub claim_key : Option String → String → Dict String → Dict String
claim_key none id m = m
claim_key (some key) id m = if truthy key then put m key id else m

-- `if job.serialization_key and self._running.get(…) == job_id: del …`
unfoldable pub release_key : Option String → String → Dict String → Dict String
unfolding get remove
release_key none id m = m
release_key (some key) id m =
    if truthy key && elim (get m key) [ none ↦ false | some holder ↦ holder == id ]
    then remove m key
    else m

module _ {Payload : Type 0} where
  -- (-priority, created_at) of `a` is below that of `b`
  abbrev pub before : Job Payload → Job Payload → Bool
  before a b =
      lt_int b.priority a.priority
      || not (lt_int a.priority b.priority) && ltb a.created_at b.created_at

  -- the same for two addresses; every address in the queue has an object
  abbrev pub queued_before : List (Job Payload) → ℕ → ℕ → Bool
  queued_before objects i j = elim (get_elem? objects i) [
    | none ↦ false
    | some a ↦ elim (get_elem? objects j) [ none ↦ false | some b ↦ before a b ]
  ]

  unfoldable pub insert_queued : List (Job Payload) → ℕ → List ℕ → List ℕ
  insert_queued objects a [] = a ∷ []
  insert_queued objects a (b ∷ queue) =
      if queued_before objects b a then b ∷ insert_queued objects a queue else a ∷ b ∷ queue

  -- `_requeue_sort`, by insertion: it is stable, as `list.sort` is
  unfoldable pub requeue_sort : List (Job Payload) → List ℕ → List ℕ
  unfolding insert_queued
  requeue_sort objects [] = []
  requeue_sort objects (a ∷ queue) = insert_queued objects a (requeue_sort objects queue)

  -- self._idempotency_map.get(key), then self._jobs.get of that id
  unfoldable pub existing_for : Option String → Scheduler Payload → Option ℕ
  unfolding get
  existing_for none s = none
  existing_for (some key) s =
      if truthy key
      then elim (get s.idempotency_map key) [ none ↦ none | some id ↦ get s.jobs id ]
      else none

  -- the part of `enqueue` behind the search; `fresh` is the new uuid
  unfoldable pub add_job : ℕ → Job Payload → String → Scheduler Payload → Scheduler Payload
  unfolding requeue_sort put
  add_job a job fresh s =
      let id = if truthy job.id then job.id else fresh in
      let objects = set s.objects a (record job { id = id }) in
      record s {
        objects = objects;
        jobs = put s.jobs id a;
        idempotency_map = remember job.idempotency_key id s.idempotency_map;
        queue = requeue_sort objects (s.queue ++ a ∷ []);
      }

  -- `enqueue` of the object at address `a`; it gives the address of the job that it returns.
  unfoldable pub enqueue : ℕ → Job Payload → String → Scheduler Payload → ℕ × Scheduler Payload
  unfolding existing_for add_job
  enqueue a job fresh s = elim (existing_for job.idempotency_key s) [
    | some e ↦ (e, s)
    | none ↦ (a, add_job a job fresh s)
  ]

  -- neither of the two `continue` of `dequeue`
  unfoldable pub is_eligible : Scheduler Payload → ℕ → Bool
  unfolding is_blocked
  is_eligible s a = elim (get_elem? s.objects a) [
    | none ↦ false
    | some job ↦ is_pending job.status && not (is_blocked job.serialization_key s.running)
  ]

  -- the loop of `dequeue`: the address that it finds, and the queue without it
  unfoldable pub take_eligible : Scheduler Payload → List ℕ → Option (ℕ × List ℕ)
  unfolding is_eligible
  take_eligible s [] = none
  take_eligible s (a ∷ queue) =
      let later : Option (ℕ × List ℕ) = elim (take_eligible s queue) [
        | none ↦ none
        | some (b, rest) ↦ some (b, a ∷ rest)
      ] in
      if is_eligible s a then some (a, queue) else later

  unfoldable pub dequeue : Scheduler Payload → Option ℕ × Scheduler Payload
  unfolding take_eligible
  dequeue s = elim (take_eligible s s.queue) [
    | none ↦ (none, s)
    | some (a, rest) ↦ (some a, record s { queue = rest })
  ]

  -- self._jobs.get(job_id), with its object
  unfoldable pub find_job : String → Scheduler Payload → Option (ℕ × Job Payload)
  unfolding get
  find_job id s = elim (get s.jobs id) [
    | none ↦ none
    | some a ↦ Option.map (λ job. (a, job)) (get_elem? s.objects a)
  ]

  unfoldable pub mark_running : String → ℕ → ℕ → Scheduler Payload → Scheduler Payload
  unfolding find_job put
  mark_running id now touched s = elim (find_job id s) [
    | none ↦ s
    | some (a, job) ↦ record s {
      objects =
          set s.objects a
            (record job { status = running; started_at = some now; updated_at = touched });
      running = claim_key job.serialization_key id s.running;
    }
  ]

  abbrev pub finish : ℕ → String → Job Payload → Scheduler Payload → Scheduler Payload
  finish a id job s = record s {
    objects = set s.objects a job;
    running = release_key job.serialization_key id s.running;
  }

  unfoldable pub mark_done : String → Option Payload → ℕ → ℕ → Scheduler Payload → Scheduler Payload
  unfolding find_job release_key
  mark_done id result now touched s = elim (find_job id s) [
    | none ↦ s
    | some (a, job) ↦
        finish a id
          (record job {
            status = done;
            finished_at = some now;
            result = result;
            updated_at = touched;
          })
          s
  ]

  unfoldable pub mark_failed : String → String → ℕ → ℕ → Scheduler Payload → Scheduler Payload
  unfolding find_job release_key
  mark_failed id error now touched s = elim (find_job id s) [
    | none ↦ s
    | some (a, job) ↦
        finish a id
          (record job {
            status = failed;
            finished_at = some now;
            error = some error;
            updated_at = touched;
          })
          s
  ]

  unfoldable pub cancel : String → ℕ → ℕ → Scheduler Payload → Scheduler Payload
  unfolding find_job release_key
  cancel id now touched s = elim (find_job id s) [
    | none ↦ s
    | some (a, job) ↦
        if is_terminal job.status
        then s
        else finish a id
            (record job { status = cancelled; finished_at = some now; updated_at = touched }) s
  ]

  unfoldable pub get_job : String → Scheduler Payload → Option (Job Payload)
  unfolding find_job
  get_job id s = Option.map (λ p. p.1) (find_job id s)

  unfoldable pub is_running : String → Scheduler Payload → Bool
  unfolding get
  is_running key s = elim (get s.running key) [ none ↦ false | some _ ↦ true ]
