-- ===== src/Jobs/Laws/Evolution.antt =====
-- How a job may differ between two states of the database
-- (openpine/jobs/transactional_store.py).
use openpine.Jobs.Laws.Written.{Written}
use openpine.Jobs.Laws.Consistent.{
  Found-kept, Written-Found, Written-IsConsistent, IsLeased, Found, IsConsistent,
}
use openpine.Jobs.Laws.Helpers.{SameBody}
use openpine.Jobs.Model.{stored, allowed, Db, Job, JobState}
use openpine.Base.{
  inr, eq_iff, inl, ◌==◌, Bool-cases, sym, refl, some, ◌+◌, subst, ◌∙◌, true, String, ◌≡◌, arith,
  ◌≤◌,
}

-- the reflexive and transitive closure of `_ALLOWED_TRANSITIONS`
pub data Reach (s : JobState) : JobState → Type 0 where
  stay : Reach s s
  move : {t u : JobState} → Reach s t → allowed t u ≡ true → Reach s u

pub Reach-trans : {s t u : JobState} → Reach s t → Reach t u → Reach s u
Reach-trans p stay = p
Reach-trans p (move q a) = move (Reach-trans p q) a

-- `k` is what became of `j`: its state lies on a path of allowed transitions, its version and its
-- retries have not fallen, what it was created with is the same, and while its version is the same
-- so is all else but the cursor and the hash.
pub record Later (j k : Job) : Type 0 where
  pub path : Reach j.state k.state
  pub version_grows : j.version ≤ k.version
  pub retries_grow : j.retry_count ≤ k.retry_count
  pub same_id : k.job_id ≡ j.job_id
  pub same_envelope : k.envelope ≡ j.envelope
  pub same_kind : k.kind ≡ j.kind
  pub same_key : k.idempotency_key ≡ j.idempotency_key
  pub same_limit : k.max_retries ≡ j.max_retries
  pub same_parent : k.parent_job_id ≡ j.parent_job_id
  pub same_if_version : j.version ≡ k.version → SameBody j k

pub Later-refl : (j : Job) → Later j j
Later-refl j = record {
  path = stay;
  version_grows = omega arith;
  retries_grow = omega arith;
  same_id = refl;
  same_envelope = refl;
  same_kind = refl;
  same_key = refl;
  same_limit = refl;
  same_parent = refl;
  same_if_version = λ _. refl;
}

pub Later-trans : (j k l : Job) → Later j k → Later k l → Later j l
Later-trans j k l a b = record {
  path = Reach-trans a.path b.path;
  version_grows = omega arith;
  retries_grow = omega arith;
  same_id = b.same_id ∙ a.same_id;
  same_envelope = b.same_envelope ∙ a.same_envelope;
  same_kind = b.same_kind ∙ a.same_kind;
  same_key = b.same_key ∙ a.same_key;
  same_limit = b.same_limit ∙ a.same_limit;
  same_parent = b.same_parent ∙ a.same_parent;
  same_if_version = λ e.
      let p = a.same_if_version (omega arith) in
      let q = b.same_if_version (omega arith) in ground arith;
}

-- the body of a job, as a path of its state
Reach-eq : {s t u : JobState} → Reach s t → t ≡ u → Reach s u
Reach-eq {s} r e = subst (Reach s) e r

pub Later-SameBody : (j p q : Job) → Later j p → SameBody p q → Later j q
Later-SameBody j p q l b = record {
  path = Reach-eq l.path (ground arith);
  version_grows = ground arith;
  retries_grow = ground arith;
  same_id = ground arith;
  same_envelope = ground arith;
  same_kind = ground arith;
  same_key = ground arith;
  same_limit = ground arith;
  same_parent = ground arith;
  same_if_version = λ e. let s = l.same_if_version (ground arith) in ground arith;
}

-- a job `p` that follows from `j` by one write with a new version
pub Later-write :
    (j p : Job)
    → Reach j.state p.state
    → p.version ≡ j.version + 1
    → j.retry_count ≤ p.retry_count
    → (p.job_id ≡ j.job_id)
      × (p.envelope ≡ j.envelope)
      × (p.kind ≡ j.kind)
      × (p.idempotency_key ≡ j.idempotency_key)
      × (p.max_retries ≡ j.max_retries)
      × (p.parent_job_id ≡ j.parent_job_id)
    → Later j p
Later-write j p r v n (a, b, c, d, e, f) = record {
  path = r;
  version_grows = omega arith;
  retries_grow = n;
  same_id = a;
  same_envelope = b;
  same_kind = c;
  same_key = d;
  same_limit = e;
  same_parent = f;
  same_if_version = λ h. absurd (omega arith);
}

-- No job is lost, and each is a later form of itself.
pub record Evolves (db db' : Db) : Type 0 where
  pub at : (id : String) (j : Job) → Found db id j → (k : Job) × Found db' id k × Later j k

-- the database after an operation is consistent and has evolved
pub record IsSound (db db' : Db) : Type 0 where
  pub consistent : IsConsistent db'
  pub evolves : Evolves db db'

pub IsSound-refl : (db : Db) → IsConsistent db → IsSound db db
IsSound-refl db inv = record {
  consistent = inv;
  evolves = record { at = λ id j f. (j, f, Later-refl j) };
}

pub IsSound-trans : (a b c : Db) → IsSound a b → IsSound b c → IsSound a c
IsSound-trans a b c x y = record {
  consistent = y.consistent;
  evolves = record {
    at = λ id j f.
        let (k, g, l) = x.evolves.at id j f in
        let (m, h, n) = y.evolves.at id k g in (m, h, Later-trans j k m l n);
  };
}

-- the job under an id is unique
pub Found-unique : (db : Db) (id : String) (j k : Job) → Found db id j → Found db id k → j ≡ k
Found-unique db id j k f g =
    let rows : some f.row ≡ some g.row = sym f.found ∙ g.found in
    let payloads : stored j ≡ stored k = sym f.payload ∙ ground arith in ground arith

pub Written-IsSound :
    (db db' : Db) (id : String) (j p : Job)
    → IsConsistent db
    → Found db id j
    → Written db db' id p
    → Later j p
    → IsLeased p
    → IsSound db db'
Written-IsSound db db' id j p inv f w l leased =
    let same : p.job_id ≡ id = l.same_id ∙ f.id_column in
    record {
      consistent = Written-IsConsistent db db' id p inv w same leased;
      evolves = record {
        at = λ k i g. elim (Bool-cases (id == k)) [
          | inl e ↦
              let k_id : k ≡ id = ground (arith, eq_iff id k) in
              let g' : Found db id i = subst (λ x. Found db x i) k_id g in
              let i_j : j ≡ i = Found-unique db id j i f g' in
              (
                w.held,
                subst (λ x. Found db' x w.held) (sym k_id) (Written-Found db db' id p w same),
                Later-SameBody i p w.held (subst (λ x. Later x p) i_j l) w.body,
              )
          | inr e ↦ (i, Found-kept db db' k i g (w.others k e), Later-refl i)
        ];
      };
    }
