-- ===== src/Scheduler/Laws/Order.antt =====
-- The order of the queue: by falling priority, then by rising time of creation
-- (openpine/jobs/scheduler.py).
use openpine.Base.Lists.{All-map, All, get_elem?}
use openpine.Scheduler.Ops.{queued_before, requeue_sort, insert_queued, before}
use openpine.Scheduler.Model.{Job}
use openpine.Base.{
  inr, inl, [], ◌∷◌, Bool-cases, Option-cases, some, ◌∷◌, ℕ, List, arith, false, true, ◌≡◌, lt_int,
  ℤ,
}

lt_int-not_lt : (a b c : ℤ) → lt_int b a ≡ false → lt_int c b ≡ false → lt_int c a ≡ false
lt_int-not_lt a b c p q = ground arith

module _ {Payload : Type 0} where
  before_not : (a b c : Job Payload) → before b a ≡ false → before c b ≡ false → before c a ≡ false
  before_not a b c p q = ground (
    arith,
    lt_int-not_lt b.priority a.priority c.priority,
    lt_int-not_lt a.priority b.priority c.priority,
    lt_int-not_lt c.priority b.priority a.priority,
    lt_int-not_lt a.priority c.priority b.priority,
    lt_int-not_lt b.priority c.priority a.priority,
    lt_int-not_lt c.priority a.priority b.priority,
  )

  -- the address has an object
  abbrev pub IsPresent : List (Job Payload) → ℕ → Type 0
  IsPresent objects a = (j : Job Payload) × (get_elem? objects a ≡ some j)

  queued_before_not :
      (objects : List (Job Payload)) (a b c : ℕ)
      → IsPresent objects b
      → queued_before objects b a ≡ false
      → queued_before objects c b ≡ false
      → queued_before objects c a ≡ false
  queued_before_not objects a b c (j, e) p q = elim (Option-cases (get_elem? objects a)) [
    | inl n ↦ ground arith
    | inr (i, f) ↦ elim (Option-cases (get_elem? objects c)) [
      | inl n ↦ ground arith
      | inr (k, g) ↦ ground (arith, before_not i j k)
    ]
  ]

  -- nothing stands before `a` that should be behind it
  abbrev pub IsOrdered : List (Job Payload) → List ℕ → Type 0
  IsOrdered objects [] = Unit
  IsOrdered objects (a ∷ queue) =
      All (λ b. queued_before objects b a ≡ false) queue × IsOrdered objects queue

  before_asym : (a b : Job Payload) → before b a ≡ true → before a b ≡ false
  before_asym a b h = ground arith

  queued_before_asym :
      (objects : List (Job Payload)) (a b : ℕ)
      → queued_before objects b a ≡ true
      → queued_before objects a b ≡ false
  queued_before_asym objects a b h = elim (Option-cases (get_elem? objects a)) [
    | inl n ↦ ground arith
    | inr (i, f) ↦ elim (Option-cases (get_elem? objects b)) [
      | inl n ↦ ground arith
      | inr (k, g) ↦ ground (arith, before_asym i k)
    ]
  ]

  insert_queued-All {κ} :
      (P : ℕ → Type κ) (objects : List (Job Payload)) (a : ℕ) (queue : List ℕ)
      → P a
      → All P queue
      → All P (insert_queued objects a queue)
  unfolding insert_queued
  insert_queued-All P objects a [] p h = (p, tt)
  insert_queued-All P objects a (b ∷ queue) p h = elim (Bool-cases (queued_before objects b a)) [
    | inl e ↦ rw e (h.0, insert_queued-All P objects a queue p h.1)
    | inr e ↦ rw e (p, h)
  ]

  insert_queued-IsOrdered :
      (objects : List (Job Payload)) (a : ℕ) (queue : List ℕ)
      → All (IsPresent objects) queue
      → IsOrdered objects queue
      → IsOrdered objects (insert_queued objects a queue)
  unfolding insert_queued
  insert_queued-IsOrdered objects a [] p h = (tt, tt)
  insert_queued-IsOrdered objects a (b ∷ queue) p h =
      elim (Bool-cases (queued_before objects b a)) [
        | inl e ↦ rw e (
          insert_queued-All (λ c. queued_before objects c b ≡ false) objects a queue
              (queued_before_asym objects a b e) h.0,
          insert_queued-IsOrdered objects a queue p.1 h.1,
        )
        | inr e ↦ rw e (
          (
            e,
            All-map (λ c. queued_before objects c b ≡ false)
                (λ c. queued_before objects c a ≡ false) queue
                (λ c q. queued_before_not objects a b c p.0 e q) h.0,
          ),
          h,
        )
      ]

  requeue_sort-All {κ} :
      (P : ℕ → Type κ) (objects : List (Job Payload)) (queue : List ℕ)
      → All P queue
      → All P (requeue_sort objects queue)
  unfolding requeue_sort
  requeue_sort-All P objects [] h = tt
  requeue_sort-All P objects (a ∷ queue) h =
      insert_queued-All P objects a (requeue_sort objects queue) h.0
        (requeue_sort-All P objects queue h.1)

  -- Sorting a queue of existing jobs leaves it ordered by falling priority and, among equal
  -- priorities, by rising time of creation.
  pub requeue_sort-IsOrdered :
      (objects : List (Job Payload)) (queue : List ℕ)
      → All (IsPresent objects) queue
      → IsOrdered objects (requeue_sort objects queue)
  unfolding requeue_sort
  requeue_sort-IsOrdered objects [] h = tt
  requeue_sort-IsOrdered objects (a ∷ queue) h =
      insert_queued-IsOrdered objects a (requeue_sort objects queue)
        (requeue_sort-All (IsPresent objects) objects queue h.1)
        (requeue_sort-IsOrdered objects queue h.1)
