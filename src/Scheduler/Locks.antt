-- ===== src/Scheduler/Locks.antt =====
-- The locks of `JobScheduler` (openpine/jobs/scheduler.py): `acquire_lock`, `release_lock` and
-- `recover_stale_locks`. They touch no other field, so they are functions of the table `_locks`,
-- which leads from a resource to its owner and its time of expiry in milliseconds.
use openpine.Base.Lists.{All, length}
use openpine.Base.Dict.{
  put-HasUniqueKeys, get-put, remove-HasUniqueKeys, HasUniqueKeys, get-remove, put, remove, get,
  Dict,
}
use openpine.Base.{
  sym, subst, inr, refl, arith, inl, ◌∙◌, Bool-cases, eq_iff, false, ltb, true, ◌<◌, ◌≤◌, leb, ◌==◌,
  ◌*◌, ◌⊎◌, if◌then◌else◌, some, Bool, [], ◌∷◌, none, ◌≢◌, ◌≡◌, ◌∷◌, String, List, ℕ, ◌+◌,
}

abbrev pub Locks : Type 0
Locks = Dict (String × ℕ)

unfoldable pub acquire_lock : String → String → ℕ → ℕ → Locks → Bool × Locks
unfolding get put
acquire_lock resource owner ttl_seconds now locks =
    let taken : Locks = put locks resource (owner, now + ttl_seconds * 1000) in
    elim (get locks resource) [
      | none ↦ (true, taken)
      | some (lock_owner, expiry) ↦
          if lock_owner == owner
          then (true, taken)
          else if ltb now expiry
          then (false, locks)
          else (true, taken)
    ]

unfoldable pub release_lock : String → String → Locks → Locks
unfolding get remove
release_lock resource owner locks = elim (get locks resource) [
  | none ↦ locks
  | some (lock_owner, expiry) ↦ if lock_owner == owner then remove locks resource else locks
]

-- the list comprehension of `recover_stale_locks`
unfoldable pub stale_resources : ℕ → Locks → List String
stale_resources now [] = []
stale_resources now ((resource, (owner, expiry)) ∷ locks) =
    let rest = stale_resources now locks in if leb expiry now then resource ∷ rest else rest

unfoldable pub remove_all : List String → Locks → Locks
unfolding remove
remove_all [] locks = locks
remove_all (resource ∷ stale) locks = remove_all stale (remove locks resource)

unfoldable pub recover_stale_locks : ℕ → Locks → ℕ × Locks
unfolding stale_resources remove_all
recover_stale_locks now locks =
    let stale = stale_resources now locks in (length stale, remove_all stale locks)

-- calls by any threads, in the order in which they get the scheduler's own lock
pub data LockCall : Type 0 where
  acquire : String → String → ℕ → ℕ → LockCall
  release : String → String → LockCall
  recover : ℕ → LockCall

unfoldable pub call : LockCall → Locks → Locks
unfolding acquire_lock release_lock recover_stale_locks
call (acquire resource owner ttl now) locks = (acquire_lock resource owner ttl now locks).1
call (release resource owner) locks = release_lock resource owner locks
call (recover now) locks = (recover_stale_locks now locks).1

unfoldable pub calls : List LockCall → Locks → Locks
unfolding call
calls [] locks = locks
calls (x ∷ xs) locks = calls xs (call x locks)

-- `owner` gets or keeps the lock exactly unless another owner has it and it has not expired; the
-- answer says which, and the lock that was refused is as before.
acquire_lock_lem :
    (resource owner : String) (ttl now : ℕ) (locks : Locks) (holder : String) (expiry : ℕ)
    → get locks resource ≡ some (holder, expiry)
    → ((holder ≡ owner) ⊎ (expiry ≤ now))
        × (acquire_lock resource owner ttl now locks
            ≡ (true, put locks resource (owner, now + ttl * 1000)))
      ⊎ (holder ≢ owner)
        × (now < expiry)
        × (acquire_lock resource owner ttl now locks ≡ (false, locks))
unfolding acquire_lock
acquire_lock_lem resource owner ttl now locks holder expiry h =
    elim (Bool-cases (holder == owner)) [
      | inl e ↦ inl (inl ((eq_iff holder owner).0 e), ground arith)
      | inr e ↦
          let other : holder ≢ owner = λ p. cc (e, (eq_iff holder owner).1 p) in
          elim (Bool-cases (ltb now expiry)) [
            | inl l ↦ inr (other, ground arith, ground arith)
            | inr l ↦ inl (inr (ground arith), ground arith)
          ]
    ]

-- a call that is not the owner's, or that comes before the lock expires
abbrev pub IsForeign : String → String → ℕ → LockCall → Type 0
IsForeign resource owner expiry (acquire r o ttl now) =
    (r ≢ resource) ⊎ (o ≢ owner) × (now < expiry)
IsForeign resource owner expiry (release r o) = (r ≢ resource) ⊎ (o ≢ owner)
IsForeign resource owner expiry (recover now) = now < expiry

get-remove_all :
    (resource : String) (stale : List String) (locks : Locks)
    → All (λ r. r ≢ resource) stale
    → get (remove_all stale locks) resource ≡ get locks resource
unfolding remove_all
get-remove_all resource [] locks h = refl
get-remove_all resource (r ∷ stale) locks h =
    get-remove_all resource stale (remove locks r) h.1
    ∙ get-remove locks r resource
    ∙ other (r == resource) refl
  where
    other :
        (b : Bool)
        → (r == resource) ≡ b
        → elim b [ true ↦ none | false ↦ get locks resource ] ≡ get locks resource
    other true e = absurd (h.0 ((eq_iff r resource).0 e))
    other false e = refl

-- A resource without an entry is not stale.
absent-stale :
    (resource : String) (now : ℕ) (locks : Locks)
    → get locks resource ≡ none
    → All (λ r. r ≢ resource) (stale_resources now locks)
unfolding get stale_resources
absent-stale resource now [] h = tt
absent-stale resource now ((k, (o, e)) ∷ locks) h = elim (Bool-cases (leb e now)) [
  | inl l ↦
      rw l (λ p. cc (h, (eq_iff k resource).1 p), absent-stale resource now locks (ground arith))
  | inr l ↦ rw l (absent-stale resource now locks (ground arith))
]

-- Nor is one whose lock has time left.
live-stale :
    (resource owner : String) (expiry now : ℕ) (locks : Locks)
    → HasUniqueKeys locks
    → get locks resource ≡ some (owner, expiry)
    → now < expiry
    → All (λ r. r ≢ resource) (stale_resources now locks)
unfolding get stale_resources
live-stale resource owner expiry now [] u h l = cc
live-stale resource owner expiry now ((k, (o, e)) ∷ locks) u h l =
    elim (Bool-cases (k == resource)) [
      | inl same ↦
          let k_is : k ≡ resource = (eq_iff k resource).0 same in
          let fresh : leb e now ≡ false = ground arith in
          rw fresh (absent-stale resource now locks (rw k_is at u.0))
      | inr other ↦
          let rest = live-stale resource owner expiry now locks u.1 (ground arith) l in
          elim (Bool-cases (leb e now)) [
            | inl p ↦ rw p (λ q. cc (other, (eq_iff k resource).1 q), rest)
            | inr p ↦ rw p rest
          ]
    ]

remove_all-HasUniqueKeys :
    (stale : List String) (locks : Locks)
    → HasUniqueKeys locks
    → HasUniqueKeys (remove_all stale locks)
unfolding remove_all
remove_all-HasUniqueKeys [] locks u = u
remove_all-HasUniqueKeys (r ∷ stale) locks u =
    remove_all-HasUniqueKeys stale (remove locks r) (remove-HasUniqueKeys locks r u)

acquire_lock_table :
    (resource owner : String) (ttl now : ℕ) (locks : Locks)
    → ((acquire_lock resource owner ttl now locks).1 ≡ put locks resource (owner, now + ttl * 1000))
      ⊎ ((acquire_lock resource owner ttl now locks).1 ≡ locks)
unfolding acquire_lock
acquire_lock_table resource owner ttl now locks = ground arith

release_lock_table :
    (resource owner : String) (locks : Locks)
    → (release_lock resource owner locks ≡ remove locks resource)
      ⊎ (release_lock resource owner locks ≡ locks)
unfolding release_lock
release_lock_table resource owner locks = ground arith

call-HasUniqueKeys :
    (x : LockCall) (locks : Locks) → HasUniqueKeys locks → HasUniqueKeys (call x locks)
unfolding call
call-HasUniqueKeys (acquire r o ttl now) locks u = elim (acquire_lock_table r o ttl now locks) [
  | inl e ↦ subst HasUniqueKeys (sym e) (put-HasUniqueKeys locks r (o, now + ttl * 1000) u)
  | inr e ↦ subst HasUniqueKeys (sym e) u
]
call-HasUniqueKeys (release r o) locks u = elim (release_lock_table r o locks) [
  | inl e ↦ subst HasUniqueKeys (sym e) (remove-HasUniqueKeys locks r u)
  | inr e ↦ subst HasUniqueKeys (sym e) u
]
call-HasUniqueKeys (recover now) locks u =
    remove_all-HasUniqueKeys (stale_resources now locks) locks u

call-held :
    (resource owner : String) (expiry : ℕ) (x : LockCall) (locks : Locks)
    → HasUniqueKeys locks
    → get locks resource ≡ some (owner, expiry)
    → IsForeign resource owner expiry x
    → get (call x locks) resource ≡ some (owner, expiry)
unfolding call
call-held resource owner expiry (acquire r o ttl now) locks u h f =
    ground
      (arith, get-put locks r resource (o, now + ttl * 1000), eq_iff r resource, eq_iff owner o)
call-held resource owner expiry (release r o) locks u h f =
    ground (arith, get-remove locks r resource, eq_iff r resource, eq_iff owner o)
call-held resource owner expiry (recover now) locks u h f =
    get-remove_all resource (stale_resources now locks) locks
      (live-stale resource owner expiry now locks u h f)
    ∙ h

-- A held lock stays with its owner until it expires: whatever the other owners call, and whatever is
-- recovered before that time, the entry is the same. The table is that of a `dict`, without a key twice.
pub calls-held :
    (resource owner : String) (expiry : ℕ) (xs : List LockCall) (locks : Locks)
    → HasUniqueKeys locks
    → get locks resource ≡ some (owner, expiry)
    → All (IsForeign resource owner expiry) xs
    → get (calls xs locks) resource ≡ some (owner, expiry)
unfolding calls
calls-held resource owner expiry [] locks u h f = h
calls-held resource owner expiry (x ∷ xs) locks u h f =
    calls-held resource owner expiry xs (call x locks) (call-HasUniqueKeys x locks u)
      (call-held resource owner expiry x locks u h f.0) f.1
