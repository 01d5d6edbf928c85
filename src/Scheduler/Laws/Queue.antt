-- ===== src/Scheduler/Laws/Queue.antt =====
-- Taking jobs from the queue and putting them in (openpine/jobs/scheduler.py).
use openpine.Base.Dict.{get-put, get}
use openpine.Scheduler.Laws.Order.{IsOrdered}
use openpine.Base.Lists.{All-append, get_elem?, All-map, All}
use openpine.Scheduler.Ops.{
  add_job, existing_for, is_blocked, enqueue, queued_before, dequeue, is_eligible, take_eligible,
}
use openpine.Scheduler.Model.{pending, Job, Scheduler}
use openpine.Base.{
  refl, sym, eq_refl, if◌then◌else◌, truthy, String, ◌∙◌, inr, ap, arith, [], ◌∷◌, inl, Bool-cases,
  Option-cases, ◌∷◌, false, true, none, some, ◌++◌, ◌≡◌, List, ℕ,
}

module _ {Payload : Type 0} (s : Scheduler Payload) where
  -- where in the queue the loop has stopped
  pub record Taken (queue : List ℕ) (a : ℕ) (rest : List ℕ) : Type 0 where
    pub passed : List ℕ
    pub behind : List ℕ
    pub was : queue ≡ passed ++ a ∷ behind
    pub is_now : rest ≡ passed ++ behind
    pub eligible : is_eligible s a ≡ true
    pub skipped : All (λ b. is_eligible s b ≡ false) passed

  take_eligible-Taken :
      (queue : List ℕ) (a : ℕ) (rest : List ℕ)
      → take_eligible s queue ≡ some (a, rest)
      → Taken queue a rest
  unfolding take_eligible
  take_eligible-Taken [] a rest h = cc
  take_eligible-Taken (x ∷ queue) a rest h = elim (Bool-cases (is_eligible s x)) [
    | inl e ↦
        let same : x ≡ a = ground arith in
        record {
          passed = [];
          behind = queue;
          was = ap (λ y. y ∷ queue) same;
          is_now = ground arith;
          eligible = rw (← same) e;
          skipped = tt;
        }
    | inr e ↦ elim (Option-cases (take_eligible s queue)) [
      | inl n ↦ absurd (ground arith)
      | inr ((b, r), f) ↦
          let t = take_eligible-Taken queue b r f in
          let same : b ≡ a = ground arith in
          record {
            passed = x ∷ t.passed;
            behind = t.behind;
            was = ap (λ q. x ∷ q) t.was ∙ ap (λ y. x ∷ (t.passed ++ y ∷ t.behind)) same;
            is_now = let r_is : rest ≡ x ∷ r = ground arith in r_is ∙ ap (λ q. x ∷ q) t.is_now;
            eligible = rw (← same) t.eligible;
            skipped = (e, t.skipped);
          }
    ]
  ]

  take_eligible-none :
      (queue : List ℕ) → take_eligible s queue ≡ none → All (λ b. is_eligible s b ≡ false) queue
  unfolding take_eligible
  take_eligible-none [] h = tt
  take_eligible-none (x ∷ queue) h = elim (Bool-cases (is_eligible s x)) [
    | inl e ↦ absurd (ground arith)
    | inr e ↦ (e, take_eligible-none queue (ground arith))
  ]

  ordered_behind :
      (objects : List (Job Payload)) (a : ℕ) (passed behind : List ℕ)
      → IsOrdered objects (passed ++ a ∷ behind)
      → All (λ b. queued_before objects b a ≡ false) behind
  ordered_behind objects a [] behind h = h.0
  ordered_behind objects a (x ∷ passed) behind h = ordered_behind objects a passed behind h.1

  abbrev pub Outranks : ℕ → ℕ → Type 0
  Outranks a b = is_eligible s b ≡ true → queued_before s.objects b a ≡ false

  Outranks-append :
      (a : ℕ) (passed behind : List ℕ)
      → All (λ b. is_eligible s b ≡ false) passed
      → All (λ b. queued_before s.objects b a ≡ false) behind
      → All (Outranks a) (passed ++ behind)
  Outranks-append a [] behind n h =
      All-map (λ b. queued_before s.objects b a ≡ false) (Outranks a) behind (λ b e _. e) h
  Outranks-append a (x ∷ passed) behind n h =
      ((λ e. absurd (ground arith)), Outranks-append a passed behind n.1 h)

  -- From an ordered queue `dequeue` takes a pending job whose serialization key is not running, and
  -- no eligible job that it leaves has a higher priority, or the same priority and an earlier time of
  -- creation. It takes nothing else out of the queue and changes nothing but the queue.
  pub dequeue-Outranks :
      (s' : Scheduler Payload) (a : ℕ)
      → IsOrdered s.objects s.queue
      → dequeue s ≡ (some a, s')
      → Taken s.queue a s'.queue × (s' ≡ record s { queue = s'.queue }) × All (Outranks a) s'.queue
  unfolding dequeue
  dequeue-Outranks s' a o h = elim (Option-cases (take_eligible s s.queue)) [
    | inl n ↦ absurd (ground arith)
    | inr ((b, rest), e) ↦
        let same : b ≡ a = ground arith in
        let left : s'.queue ≡ rest = ground arith in
        let t = take_eligible-Taken s.queue a s'.queue (e ∙ ground arith) in
        (
          t,
          ground arith,
          rw t.is_now (
              Outranks-append a t.passed t.behind t.skipped
                (ordered_behind s.objects a t.passed t.behind (rw t.was at o))),
        )
  ]

  -- `dequeue` returns none only if no job in the queue is eligible, and then changes nothing.
  pub dequeue-none :
      (s' : Scheduler Payload)
      → dequeue s ≡ (none, s')
      → All (λ b. is_eligible s b ≡ false) s.queue × (s' ≡ s)
  unfolding dequeue
  dequeue-none s' h = elim (Option-cases (take_eligible s s.queue)) [
    | inl n ↦ (take_eligible-none s.queue n, ground arith)
    | inr ((b, rest), e) ↦ absurd (ground arith)
  ]

append_assoc : (xs ys zs : List ℕ) → (xs ++ ys) ++ zs ≡ xs ++ (ys ++ zs)
append_assoc [] ys zs = refl
append_assoc (x ∷ xs) ys zs = ap (λ q. x ∷ q) (append_assoc xs ys zs)

module _ {Payload : Type 0} where
  -- A second `enqueue` with the idempotency key of the first returns the job that the first returned
  -- and changes nothing.
  pub enqueue_again :
      (a b : ℕ) (job job' : Job Payload) (fresh fresh' : String) (s : Scheduler Payload)
      (key : String)
      → job.idempotency_key ≡ some key
      → job'.idempotency_key ≡ some key
      → truthy key ≡ true
      → let first = enqueue a job fresh s in enqueue b job' fresh' first.1 ≡ first
  unfolding enqueue existing_for add_job
  enqueue_again a b job job' fresh fresh' s key k k' t =
      let id = if truthy job.id then job.id else fresh in
      ground (
        arith,
        get-put s.idempotency_map key key id,
        get-put s.jobs id id a,
        eq_refl key,
        eq_refl id,
      )

  take_eligible-first :
      (s : Scheduler Payload) (passed : List ℕ) (a : ℕ) (rest : List ℕ)
      → All (λ b. is_eligible s b ≡ false) passed
      → is_eligible s a ≡ true
      → take_eligible s (passed ++ a ∷ rest) ≡ some (a, passed ++ rest)
  unfolding take_eligible
  take_eligible-first s [] a rest h e = rw (take_eligible, e) refl
  take_eligible-first s (x ∷ passed) a rest h e =
      rw (take_eligible, h.0, take_eligible-first s passed a rest h.1 e) refl

  dequeue-first :
      (s : Scheduler Payload) (passed : List ℕ) (a : ℕ) (rest : List ℕ)
      → s.queue ≡ passed ++ a ∷ rest
      → All (λ b. is_eligible s b ≡ false) passed
      → is_eligible s a ≡ true
      → dequeue s ≡ (some a, record s { queue = passed ++ rest })
  unfolding dequeue
  dequeue-first s passed a rest q h e =
      rw (dequeue, ap (take_eligible s) q ∙ take_eligible-first s passed a rest h e) refl

  -- Nothing but `mark_running` claims a serialization key: when the first two eligible jobs of the queue have
  -- one key, which is not running, two calls of `dequeue` in a row hand out both, in their order, and take
  -- nothing else from the queue.
  pub dequeue-both :
      (s : Scheduler Payload) (passed middle behind : List ℕ) (a b : ℕ) (i j : Job Payload)
      (key : String)
      → s.queue ≡ passed ++ a ∷ (middle ++ b ∷ behind)
      → All (λ c. is_eligible s c ≡ false) passed
      → All (λ c. is_eligible s c ≡ false) middle
      → get_elem? s.objects a ≡ some i
      → get_elem? s.objects b ≡ some j
      → i.status ≡ pending
      → j.status ≡ pending
      → i.serialization_key ≡ some key
      → j.serialization_key ≡ some key
      → get s.running key ≡ none
      → let first = dequeue s in
        let second = dequeue first.1 in
        (first.0 ≡ some a)
        × (second.0 ≡ some b)
        × (second.1 ≡ record s { queue = passed ++ (middle ++ behind) })
  unfolding is_eligible is_blocked
  dequeue-both s passed middle behind a b i j key q before between ea eb pi pj ki kj free =
      let first = dequeue-first s passed a (middle ++ b ∷ behind) q before (ground arith) in
      let s₁ = record s { queue = passed ++ (middle ++ b ∷ behind) } in
      let second =
        dequeue-first s₁ (passed ++ middle) b behind (sym (append_assoc passed middle (b ∷ behind)))
          (All-append (λ c. is_eligible s c ≡ false) passed middle before between) (ground arith) in
      (
        ap (λ x. x.0) first,
        ap (λ x. (dequeue x.1).0) first ∙ ap (λ x. x.0) second,
        ap (λ x. (dequeue x.1).1) first
            ∙ ap (λ x. x.1) second
            ∙ ap (λ q. record s { queue = q }) (append_assoc passed middle behind),
      )
