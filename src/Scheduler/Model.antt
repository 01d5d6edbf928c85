-- ===== src/Scheduler/Model.antt =====
-- The job object of openpine/jobs/models.py and the state of `JobScheduler`
-- (openpine/jobs/scheduler.py). The scheduler, its callers and its workers share the job objects, so
-- they live in a heap here, and the queue and the maps hold addresses and ids.
use openpine.Base.Dict.{Dict}
use openpine.Base.{ℤ, false, Option, true, List, String, Bool, ℕ}

pub data JobType : Type 0 where
  backtest optimizer backfill live_bar_process paper_bar_process observe_bar_process report :
      JobType

pub data JobStatus : Type 0 where
  pending running done failed cancelled : JobStatus

abbrev pub is_pending : JobStatus → Bool
is_pending pending = true
is_pending _ = false

-- `status in (DONE, FAILED, CANCELLED)`
abbrev pub is_terminal : JobStatus → Bool
is_terminal done = true
is_terminal failed = true
is_terminal cancelled = true
is_terminal _ = false

abbrev pub same_status : JobStatus → JobStatus → Bool
same_status pending pending = true
same_status running running = true
same_status done done = true
same_status failed failed = true
same_status cancelled cancelled = true
same_status _ _ = false

-- `Payload` is the dict of `input` and `result`.
module _ (Payload : Type 0) where
  pub record Job : Type 0 where
    pub job_type : JobType
    pub id : String
    pub strategy_id : Option String
    pub status : JobStatus
    pub idempotency_key : Option String
    pub serialization_key : Option String
    pub priority : ℤ
    pub created_at : ℕ
    pub updated_at : ℕ
    pub scheduled_at : Option ℕ
    pub started_at : Option ℕ
    pub finished_at : Option ℕ
    pub error : Option String
    pub input : Option Payload
    pub result : Option Payload
    pub worker_id : Option String
    pub attempt : ℕ
    pub max_retries : ℕ

  -- `objects` is the heap of job objects, `queue` has addresses of it, and `jobs` leads from ids to
  -- addresses. `running` leads from serialization keys to job ids.
  pub record Scheduler : Type 0 where
    pub objects : List Job
    pub queue : List ℕ
    pub jobs : Dict ℕ
    pub running : Dict String
    pub locks : Dict (String × ℕ)
    pub idempotency_map : Dict String
