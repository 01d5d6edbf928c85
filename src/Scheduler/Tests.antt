-- ===== src/Scheduler/Tests.antt =====
-- Runs of the scheduler and instances of its theorems (openpine/jobs/scheduler.py).
use openpine.Base.Lists.{All}
use openpine.Scheduler.Laws.Queue.{dequeue-Outranks, dequeue-both, Outranks, enqueue_again, Taken}
use openpine.Scheduler.Laws.Order.{IsOrdered}
use openpine.Scheduler.Laws.Sorted.{enqueue-IsSorted, IsSorted, count}
use openpine.Scheduler.Model.{pending, live_bar_process, Job, Scheduler}
use mathlib.Core.Bool.{false≢true}
use openpine.Base.{
  false, inl, arith, eq_iff, inr, refl, [], some, ◌∷◌, ℤ, pos, none, ◌≡◌, String, ℕ,
}
use openpine.Base.Dict.{Dict, get}
use openpine.Scheduler.Ops.{existing_for, dequeue, enqueue, mark_running, mark_done}
use openpine.Scheduler.Locks.{calls-held, acquire_lock, calls, acquire, recover}

abbrev bar_job : String → ℤ → ℕ → Job ℕ
bar_job id priority created = record {
  job_type = live_bar_process;
  id = id;
  strategy_id = some "s";
  status = pending;
  idempotency_key = some id;
  serialization_key = some "s";
  priority = priority;
  created_at = created;
  updated_at = created;
  scheduled_at = none;
  started_at = none;
  finished_at = none;
  error = none;
  input = none;
  result = none;
  worker_id = none;
  attempt = 1;
  max_retries = 3;
}

abbrev two_jobs : Scheduler ℕ
two_jobs = record {
  objects = bar_job "a" (pos 0) 5 ∷ bar_job "b" (pos 7) 6 ∷ [];
  queue = [];
  jobs = [];
  running = [];
  locks = [];
  idempotency_map = [];
}

abbrev filled : Scheduler ℕ
filled = (enqueue 1 (bar_job "b" (pos 7) 6) "" (enqueue 0 (bar_job "a" (pos 0) 5) "" two_jobs).1).1

filled_queue : filled.queue ≡ 1 ∷ 0 ∷ []
unfolding enqueue
filled_queue = refl

-- Once "b" runs, "a" waits for the serialization key that they share.
a_waits : (dequeue (mark_running "b" 8 8 (dequeue filled).1)).0 ≡ none
unfolding enqueue dequeue mark_running
a_waits = refl

a_runs_later :
    (dequeue (mark_done "b" none 9 9 (mark_running "b" 8 8 (dequeue filled).1))).0 ≡ some 0
unfolding enqueue dequeue mark_running mark_done
a_runs_later = refl

abbrev ready : Scheduler ℕ
ready = record two_jobs { queue = 1 ∷ 0 ∷ [] }

ready-IsOrdered : IsOrdered ready.objects ready.queue
ready-IsOrdered = ((refl, tt), (tt, tt))

abbrev taken : Scheduler ℕ
taken = record two_jobs { queue = 0 ∷ [] }

dequeue-Outranks_example :
    Taken ready ready.queue 1 taken.queue
    × (taken ≡ record ready { queue = taken.queue })
    × All (Outranks ready 1) taken.queue
unfolding dequeue
dequeue-Outranks_example = dequeue-Outranks ready taken 1 ready-IsOrdered refl

enqueue_again_example :
    enqueue 1 (bar_job "a" (pos 9) 9) "y" (enqueue 0 (bar_job "a" (pos 0) 5) "x" two_jobs).1
    ≡ enqueue 0 (bar_job "a" (pos 0) 5) "x" two_jobs
enqueue_again_example =
    enqueue_again 0 1 (bar_job "a" (pos 0) 5) (bar_job "a" (pos 9) 9) "x" "y" two_jobs "a" refl refl
      refl

dequeue-both_example :
    ((dequeue ready).0 ≡ some 1)
    × ((dequeue (dequeue ready).1).0 ≡ some 0)
    × ((dequeue (dequeue ready).1).1 ≡ record ready { queue = [] })
unfolding get
dequeue-both_example =
    dequeue-both ready [] [] [] 1 0 (bar_job "b" (pos 7) 6) (bar_job "a" (pos 0) 5) "s" refl tt tt
      refl refl refl refl refl refl refl

abbrev one_queued : Scheduler ℕ
one_queued = record two_jobs { queue = 0 ∷ [] }

enqueue-IsSorted_example :
    let (address, s') = enqueue 1 (bar_job "c" (pos 7) 6) "x" one_queued in
    (address ≡ 1)
    × IsSorted s'.objects s'.queue
    × ((x : ℕ) → count x s'.queue ≡ count x (0 ∷ 1 ∷ []))
unfolding existing_for
enqueue-IsSorted_example =
    enqueue-IsSorted 1 (bar_job "c" (pos 7) 6) "x" one_queued refl
      ((bar_job "a" (pos 0) 5, refl), ((bar_job "b" (pos 7) 6, refl), tt))

abbrev held : Dict (String × ℕ)
held = ("r", ("me", 500)) ∷ []

lock_is_refused : acquire_lock "r" "you" 60 400 held ≡ (false, held)
unfolding acquire_lock
lock_is_refused = refl

calls-held_example :
    get (calls (acquire "r" "you" 60 400 ∷ recover 450 ∷ acquire "q" "you" 1 460 ∷ []) held) "r"
    ≡ some ("me", 500)
unfolding get
calls-held_example =
    calls-held "r" "me" 500 (acquire "r" "you" 60 400 ∷ recover 450 ∷ acquire "q" "you" 1 460 ∷ [])
      held (refl, tt) refl
      (
        inr ((λ p. false≢true ((eq_iff "you" "me").1 p)), omega arith),
        (omega arith, (inl (λ p. false≢true ((eq_iff "q" "r").1 p)), tt)),
      )
