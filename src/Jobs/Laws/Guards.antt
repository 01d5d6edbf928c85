-- ===== src/Jobs/Laws/Guards.antt =====
-- The guards of `JobV1Store` (openpine/jobs/transactional_store.py), read back from a successful
-- call: reading a job, the expected version, the live lease, and the transition table.
use openpine.Jobs.Table.{find_row}
use openpine.Jobs.Laws.Written.{append-Written, store-Written, Written}
use openpine.Jobs.Laws.Helpers.{SameBody, get-ok}
use openpine.Jobs.Laws.Consistent.{IsLeased, Found, IsConsistent}
use openpine.Jobs.Store.{
  append_event_in_transaction, store_job_in_transaction, moved_to, same_text,
  transition_in_transaction, unexpired, get_in_transaction, require_live_lease, require_version,
}
use openpine.Jobs.Tx.{require, ◌>>=◌, ◌>>◌, >>=-ok, ok, Tx, transaction}
use openpine.Jobs.Model.{Row, JobError, allowed, JobState, SealsOnlyHash, Db, Contracts, Job}
use openpine.Base.{
  false, Bool, ◌∙◌, ◌+◌, eq_iff, refl, true, ◌&&◌, is_truthy, subst, arith, none, ◌≤◌, ◌≡◌, String,
  some, Option, ℕ,
}

-- `expected_version is not None and version != expected_version` does not hold
abbrev pub Expects : Option ℕ → ℕ → Type 0
Expects none version = Unit
Expects (some expected) version = version ≡ expected

-- `owner` holds the lease, and its deadline has not passed
pub record HasLiveLease (j : Job) (owner : Option String) (now : ℕ) : Type 0 where
  pub holder : String
  pub deadline : ℕ
  pub is_holder : owner ≡ some holder
  pub held : j.lease_owner ≡ some holder
  pub until : j.lease_deadline_utc_ms ≡ some deadline
  pub in_time : now ≤ deadline

pub transaction-ok {ℓ} :
    {A : Type ℓ} (m : Tx A) (db db' : Db) (a : A)
    → transaction m db ≡ (ok a, db')
    → m db ≡ ok (a, db')
unfolding transaction
transaction-ok m db db' a h = ground arith

pub require_version-ok :
    (j : Job) (expected : Option ℕ) (db db' : Db)
    → require_version j expected db ≡ ok (tt, db')
    → Expects expected j.version × (db' ≡ db)
unfolding require_version
require_version-ok j none db db' h = (tt, ground arith)
require_version-ok j (some n) db db' h = ground arith

holder_of :
    (owner held : Option String)
    → (is_truthy owner && same_text held owner) ≡ true
    → (holder : String) × (owner ≡ some holder) × (held ≡ some holder)
holder_of none held h = cc
holder_of (some o) none h = ground arith
holder_of (some o) (some p) h = (o, refl, ground (arith, eq_iff p o))

deadline_of :
    (deadline : Option ℕ) (now : ℕ)
    → unexpired deadline now ≡ true
    → (d : ℕ) × (deadline ≡ some d) × (now ≤ d)
deadline_of none now h = cc
deadline_of (some d) now h = (d, refl, ground arith)

pub require_live_lease-ok :
    (j : Job) (owner : Option String) (now : ℕ) (db db' : Db)
    → require_live_lease j owner now db ≡ ok (tt, db')
    → HasLiveLease j owner now × (db' ≡ db)
unfolding require_live_lease
require_live_lease-ok j owner now db db' h =
    let held : (is_truthy owner && same_text j.lease_owner owner) ≡ true = ground arith in
    let live : unexpired j.lease_deadline_utc_ms now ≡ true = ground arith in
    let (holder, is_holder, same) = holder_of owner j.lease_owner held in
    let (deadline, until, in_time) = deadline_of j.lease_deadline_utc_ms now live in
    (
      record {
        holder = holder;
        deadline = deadline;
        is_holder = is_holder;
        held = same;
        until = until;
        in_time = in_time;
      },
      ground arith,
    )

pub get-Found :
    (c : Contracts) (id : String) (db db' : Db) (j : Job)
    → IsConsistent db
    → get_in_transaction c id db ≡ ok (j, db')
    → Found db id j × IsLeased j × (db' ≡ db)
get-Found c id db db' j inv h =
    let (r, found, payload, _, same) = get-ok c id db db' j h in
    let (k, f, l) = inv.at id r found in
    let e : k ≡ j = ground arith in (subst (Found db id) e f, subst IsLeased e l, same)

module _ (c : Contracts) (laws : SealsOnlyHash c) where
  -- A transition that returns was allowed, found the version that it had read, and has written the
  -- moved job and no other.
  pub transition-Written :
      (id : String) (j q : Job) (target : JobState) (type : String) (now : ℕ) (updates : Job → Job)
      (event_id : Option String) (db db' : Db) (r : Row)
      → find_row id db.jobs ≡ some r
      → j.job_id ≡ id
      → (updates j).job_id ≡ j.job_id
      → transition_in_transaction c j target type now updates event_id db ≡ ok (q, db')
      → let p = moved_to target now (j.version + 1) (updates j) in
        (allowed j.state target ≡ true)
        × Written db db' id p
        × SameBody p q
        × (r.version ≡ j.version)
  unfolding transition_in_transaction
  transition-Written id j q target type now updates event_id db db' r found is_id keeps h =
      let p = moved_to target now (j.version + 1) (updates j) in
      let same : p.job_id ≡ id = keeps ∙ is_id in
      let allow : allowed j.state target ≡ true = ground arith in
      let (sealed, db₁, s, a) =
        >>=-ok (store_job_in_transaction c p j.version)
          (λ sealed. append_event_in_transaction c sealed.job_id type sealed event_id) db db' q
          (ground arith) in
      let (w, hash, v) = store-Written c laws id p same sealed j.version db db₁ r found s in
      let e : sealed.job_id ≡ id = ground arith in
      let (w', b) =
        append-Written c laws id p same type sealed q event_id db db₁ db' (ground arith) w
          (rw e at a) in
      (allow, w', b, v)

-- One rule for each step of a `do` block that returned.
module _ {ℓ} {B : Type ℓ} (db db' : Db) (b : B) where
  pub require-bind :
      (test : Bool) (e : JobError) (k : Tx B)
      → (require test e >> k) db ≡ ok (b, db')
      → (test ≡ true) × (k db ≡ ok (b, db'))
  require-bind true e k h = (refl, h)
  require-bind false e k h = cc

  pub version-bind :
      (j : Job) (expected : Option ℕ) (k : Tx B)
      → (require_version j expected >> k) db ≡ ok (b, db')
      → Expects expected j.version × (k db ≡ ok (b, db'))
  version-bind j expected k h =
      let (_, db₁, v, rest) = >>=-ok (require_version j expected) (λ _. k) db db' b h in
      let (e, same) = require_version-ok j expected db db₁ v in (e, rw same at rest)

  pub lease-bind :
      (j : Job) (owner : Option String) (now : ℕ) (k : Tx B)
      → (require_live_lease j owner now >> k) db ≡ ok (b, db')
      → HasLiveLease j owner now × (k db ≡ ok (b, db'))
  lease-bind j owner now k h =
      let (_, db₁, v, rest) = >>=-ok (require_live_lease j owner now) (λ _. k) db db' b h in
      let (e, same) = require_live_lease-ok j owner now db db₁ v in (e, rw same at rest)

  pub get-bind :
      (c : Contracts) (id : String) (k : Job → Tx B)
      → IsConsistent db
      → (get_in_transaction c id >>= k) db ≡ ok (b, db')
      → (j : Job) × Found db id j × IsLeased j × (k j db ≡ ok (b, db'))
  get-bind c id k inv h =
      let (j, db₁, v, rest) = >>=-ok (get_in_transaction c id) k db db' b h in
      let (f, l, same) = get-Found c id db db₁ j inv v in (j, f, l, rw same at rest)
