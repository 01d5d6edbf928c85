-- ===== src/Scheduler/Laws/Sorted.antt =====
-- The queue after `enqueue` (openpine/jobs/scheduler.py): the same jobs and the new one, in order.
use openpine.Base.Lists.{get_elem?, set, All-map, All}
use openpine.Scheduler.Laws.Order.{requeue_sort-IsOrdered, IsPresent, IsOrdered}
use openpine.Scheduler.Ops.{
  existing_for, add_job, queued_before, before, enqueue, requeue_sort, insert_queued,
}
use openpine.Scheduler.Model.{Scheduler, Job}
use openpine.Base.{
  zero, suc, truthy, ◌++◌, inr, refl, none, inl, ◌+◌, some, ◌≤◌, [], ◌∷◌, ap, Bool-cases, eqb, ◌⊎◌,
  ◌∙◌, arith, false, if◌then◌else◌, true, ◌≡◌, ◌∷◌, lt_int, ℤ, ℕ, List, String,
}

-- `i` may stand before `j`: its priority is higher, or they are equal and `i` was created no later
abbrev pub IsInOrder : {Payload : Type 0} → Job Payload → Job Payload → Type 0
IsInOrder i j =
    (lt_int j.priority i.priority ≡ true)
    ⊎ (i.priority ≡ j.priority) × (i.created_at ≤ j.created_at)

module _ {Payload : Type 0} where
  -- each job of the queue is in order with every job behind it
  abbrev pub IsSorted : List (Job Payload) → List ℕ → Type 0
  IsSorted objects [] = Unit
  IsSorted objects (a ∷ queue) =
      All
        (λ b.
          (i j : Job Payload)
          → get_elem? objects a ≡ some i
          → get_elem? objects b ≡ some j
          → IsInOrder i j)
        queue
      × IsSorted objects queue

-- how often an address is in the queue
abbrev pub count : ℕ → List ℕ → ℕ
count x [] = 0
count x (y ∷ ys) = (if eqb x y then 1 else 0) + count x ys

lt_int-total : (a b : ℤ) → lt_int a b ≡ false → lt_int b a ≡ false → a ≡ b
lt_int-total a b p q = ground arith

module _ {Payload : Type 0} where
  before-IsInOrder : (i j : Job Payload) → before j i ≡ false → IsInOrder i j
  before-IsInOrder i j h = elim (Bool-cases (lt_int j.priority i.priority)) [
    | inl e ↦ inl e
    | inr e ↦ inr (lt_int-total i.priority j.priority (ground (arith, h)) e, ground (arith, h, e))
  ]

  queued_before-IsInOrder :
      (objects : List (Job Payload)) (a b : ℕ) (i j : Job Payload)
      → queued_before objects b a ≡ false
      → get_elem? objects a ≡ some i
      → get_elem? objects b ≡ some j
      → IsInOrder i j
  queued_before-IsInOrder objects a b i j h e f = before-IsInOrder i j (ground (arith, h, e, f))

  IsOrdered-IsSorted :
      (objects : List (Job Payload)) (queue : List ℕ)
      → IsOrdered objects queue
      → IsSorted objects queue
  IsOrdered-IsSorted objects [] h = tt
  IsOrdered-IsSorted objects (a ∷ queue) h = (
    All-map (λ b. queued_before objects b a ≡ false) _ queue
        (λ b e i j. queued_before-IsInOrder objects a b i j e) h.0,
    IsOrdered-IsSorted objects queue h.1,
  )

  count-insert_queued :
      (objects : List (Job Payload)) (x a : ℕ) (queue : List ℕ)
      → count x (insert_queued objects a queue) ≡ count x (a ∷ queue)
  unfolding insert_queued
  count-insert_queued objects x a [] = refl
  count-insert_queued objects x a (b ∷ queue) =
      ground (arith, count-insert_queued objects x a queue)

  count-requeue_sort :
      (objects : List (Job Payload)) (x : ℕ) (queue : List ℕ)
      → count x (requeue_sort objects queue) ≡ count x queue
  unfolding requeue_sort
  count-requeue_sort objects x [] = refl
  count-requeue_sort objects x (a ∷ queue) =
      count-insert_queued objects x a (requeue_sort objects queue)
      ∙ ap (λ n. (if eqb x a then 1 else 0) + n) (count-requeue_sort objects x queue)

  set-IsPresent :
      (objects : List (Job Payload)) (a b : ℕ) (job : Job Payload)
      → IsPresent objects b
      → IsPresent (set objects a job) b
  set-IsPresent [] a b job h = h
  set-IsPresent (x ∷ objects) zero zero job h = (job, refl)
  set-IsPresent (x ∷ objects) zero (suc b) job h = h
  set-IsPresent (x ∷ objects) (suc a) zero job h = h
  set-IsPresent (x ∷ objects) (suc a) (suc b) job h = set-IsPresent objects a b job h

  -- When the queue and the address of the new job have objects, and no job has its idempotency key, enqueue gives
  -- back that address and leaves a queue of the same addresses, as often each, and the new one, in which each
  -- job has a higher priority than every job behind it, or the same and no later time of creation.
  pub enqueue-IsSorted :
      (a : ℕ) (job : Job Payload) (fresh : String) (s : Scheduler Payload)
      → existing_for job.idempotency_key s ≡ none
      → All (IsPresent s.objects) (s.queue ++ a ∷ [])
      → let (address, s') = enqueue a job fresh s in
        (address ≡ a)
        × IsSorted s'.objects s'.queue
        × ((x : ℕ) → count x s'.queue ≡ count x (s.queue ++ a ∷ []))
  unfolding enqueue add_job
  enqueue-IsSorted a job fresh s new present =
      rw (enqueue, new)
        (
          refl,
          IsOrdered-IsSorted objects (requeue_sort objects (s.queue ++ a ∷ [])) (
              requeue_sort-IsOrdered objects (s.queue ++ a ∷ []) (
                All-map (IsPresent s.objects) (IsPresent objects) (s.queue ++ a ∷ [])
                  (λ b. set-IsPresent s.objects a b added) present)),
          λ x. count-requeue_sort objects x (s.queue ++ a ∷ []),
        )
    where
      added : Job Payload
      added = record job { id = if truthy job.id then job.id else fresh }

      objects : List (Job Payload)
      objects = set s.objects a added
