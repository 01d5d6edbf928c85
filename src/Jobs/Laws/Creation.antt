-- ===== src/Jobs/Laws/Creation.antt =====
-- `JobV1Store.create` keeps the table consistent: the INSERT, the link to a parent and the event
-- (openpine/jobs/transactional_store.py).
use openpine.Jobs.Laws.Soundness.{transaction-err, IsSound-by}
use native.Mathlib.Decide.{ℕ_discrete}
use openpine.Jobs.Laws.Helpers.{insert_event-ok, append-ok, rehash-ok}
use openpine.Base.Lists.{contains}
use openpine.Jobs.Laws.Guards.{transaction-ok, get-bind}
use openpine.Jobs.Store.{
  set_payload, stable_event_id, event_id_or, store_job_in_transaction, append_event_in_transaction,
}
use openpine.Jobs.Tx.{transaction, err, Result, ◌>>=◌, pure, ◌>>◌, >>=-ok, ok}
use openpine.Jobs.Laws.Written.{append-Written, store-Written, find_row-id, Written}
use openpine.Jobs.Laws.Evolution.{
  IsSound-trans, Found-unique, stay, Later-write, Written-IsSound, Later, IsSound-refl, Later-refl,
  IsSound,
}
use openpine.Jobs.Laws.Consistent.{is_some, Found-kept, Found, IsLeased, IsConsistent}
use openpine.Jobs.Table.{update_row-stale, append-HasUniqueIds, find_row-append, find_row}
use openpine.Jobs.Create.{
  create_in_transaction, existing_or_raise, checked, create_checked, existing_or_new, handle_insert,
  existing_job, by_idempotency_in_transaction, create, insert_or_existing, after_insert, insert_new,
  envelope_with, with_child, new_job, Request, envelope, link_to, link_parent, key_taken, new_row,
  insert_job,
}
use openpine.Jobs.Model.{BuildIdentity, SealsOnlyHash, Contracts, Row, queued, Db, Job}
use openpine.Base.{
  ◌⊎◌, ◌∙◌, ◌≢◌, truthy, Bool-cases, ℕ, String, subst, eq_iff, inl, inr, Option-cases, eq_refl,
  arith, Option, [], refl, ◌∷◌, false, ap, ◌++◌, sym, none, some, ◌≡◌,
}

-- the INSERT of a payload that is new, in a database without its id
pub record IsFresh (j : Job) : Type 0 where
  pub first : j.version ≡ 1
  pub waits : j.state ≡ queued
  pub leased : IsLeased j

pub insert_job-ok :
    (j : Job) (db db' : Db)
    → insert_job j db ≡ some db'
    → (find_row j.job_id db.jobs ≡ none)
      × (key_taken j.idempotency_key db.jobs ≡ false)
      × (db' ≡ record db { jobs = db.jobs ++ new_row j ∷ [] })
unfolding insert_job
insert_job-ok j db db' h = (not_taken _ (ground arith), ground arith, ground arith)
  where
    not_taken : (o : Option Row) → is_some o ≡ false → o ≡ none
    not_taken none e = refl
    not_taken (some r) e = cc

new-Found :
    (j : Job) (db : Db)
    → IsFresh j
    → find_row j.job_id db.jobs ≡ some (new_row j)
    → Found db j.job_id j
new-Found j db new found = record {
  row = new_row j;
  found = found;
  payload = refl;
  id_column = refl;
  key_column = refl;
  state_column = rw new.waits;
  version_column = sym new.first;
}

pub insert_job-IsSound :
    (j : Job) (db db' : Db)
    → IsConsistent db
    → IsFresh j
    → insert_job j db ≡ some db'
    → IsSound db db' × Found db' j.job_id j
insert_job-IsSound j db db' inv new h =
    let (free, _, moved) = insert_job-ok j db db' h in
    let jobs : db'.jobs ≡ db.jobs ++ new_row j ∷ [] = ap (λ (d : Db). d.jobs) moved in
    let here : find_row j.job_id db'.jobs ≡ some (new_row j) =
      rw jobs (ground (arith, find_row-append j.job_id db.jobs (new_row j), eq_refl j.job_id)) in
    let fnd = new-Found j db' new here in
    (
      record {
        consistent = record {
          at = λ k r e. elim (Option-cases (find_row k db.jobs)) [
            | inr (s, old) ↦
                let (i, f, l) = inv.at k s old in
                (
                  i,
                  Found-kept db db' k i f
                      (rw jobs (ground (arith, find_row-append k db.jobs (new_row j)))),
                  l,
                )
            | inl none_old ↦
                let is_new : k ≡ j.job_id =
                  ground (arith, jobs, find_row-append k db.jobs (new_row j), eq_iff j.job_id k) in
                (j, subst (λ x. Found db' x j) (sym is_new) fnd, new.leased)
          ];
          keyed = rw jobs (append-HasUniqueIds db.jobs (new_row j) free inv.keyed);
        };
        evolves = record {
          at = λ k i f. (
            i,
            Found-kept db db' k i f
                (rw jobs (ground (arith, find_row-append k db.jobs (new_row j), f.found))),
            Later-refl i,
          );
        };
      },
      fnd,
    )

-- Only the table `jobs` matters.
pub same_jobs-IsSound : (db db' : Db) → IsConsistent db → db'.jobs ≡ db.jobs → IsSound db db'
same_jobs-IsSound db db' inv e = record {
  consistent = record {
    at = λ k r h.
        let (j, f, l) = inv.at k r (rw e at h) in
        (j, Found-kept db db' k j f (ap (find_row k) e), l);
    keyed = rw e inv.keyed;
  };
  evolves = record { at = λ k j f. (j, Found-kept db db' k j f (ap (find_row k) e), Later-refl j) };
}

-- a row that is left as it is counts as written with the job that it holds
Written-refl : (db : Db) (id : String) (j : Job) → Found db id j → Written db db id j
Written-refl db id j f = record {
  row = f.row;
  held = j;
  found = f.found;
  payload = f.payload;
  body = refl;
  id_column = find_row-id id db.jobs f.row f.found;
  key_column = f.key_column;
  state_column = f.state_column;
  version_column = f.version_column;
  others = λ k e. refl;
  keyed = λ u. u;
}

pub existing_job-same :
    (key : Option String) (found : Option Job) (db db' : Db)
    → existing_job key db ≡ ok (found, db')
    → db' ≡ db
unfolding by_idempotency_in_transaction
existing_job-same none found db db' h = ground arith
existing_job-same (some key) found db db' h = ground arith

-- The INSERT has been made, or an older job is handed on.
pub handle_insert-ok :
    (key : Option String) (inserted : Option Db) (found : Option Job) (db db' : Db)
    → handle_insert key inserted db ≡ ok (found, db')
    → (found ≡ none) × (inserted ≡ some db') ⊎ (found ≢ none) × (db' ≡ db)
unfolding handle_insert
handle_insert-ok key (some db₁) found db db' h = ground arith
handle_insert-ok key none found db db' h =
    let (existing, db₁, e, rest) = >>=-ok (existing_job key) existing_or_raise db db' found h in
    let same = existing_job-same key existing db db₁ e in handed existing rest same
  where
    handed :
        (existing : Option Job) {db₁ : Db}
        → existing_or_raise existing db₁ ≡ ok (found, db')
        → db₁ ≡ db
        → (found ≡ none) × (none ≡ some db') ⊎ (found ≢ none) × (db' ≡ db)
    handed none r s = cc
    handed (some x) r s = inr (λ e. cc, ground arith)

module _ (c : Contracts) (laws : SealsOnlyHash c) where
  -- An event for the payload `p`, when `p` has become `k` in the meantime.
  append-IsSound :
      (id type : String) (p q k : Job) (event_id : Option String) (db db' : Db)
      → IsConsistent db
      → Found db id k
      → IsLeased k
      → Later p k
      → append_event_in_transaction c id type p event_id db ≡ ok (q, db')
      → IsSound db db'
  append-IsSound id type p q k event_id db db' inv f leased l h =
      elim (ℕ_discrete p.version k.version) [
        | yes e ↦
            let body = l.same_if_version e in
            let (w, _) =
              append-Written c laws id k f.id_column type p q event_id db db db' (ground arith)
                (Written-refl db id k f) h in
            Written-IsSound db db' id k k inv f w (Later-refl k) leased
        | no n ↦ elim (append-ok c id type p q event_id db db' h) [
          | inl (_, _, _, same) ↦ rw same (IsSound-refl db inv)
          | inr (_, inserted) ↦
              let (sealed, moved) =
                insert_event-ok c id type (event_id_or event_id (stable_event_id id type p.version))
                  p q db db' inserted in
              let hash = laws.seals _ q sealed in
              let stale : f.row.version ≢ q.version = λ e. n (ground arith) in
              same_jobs-IsSound db db' inv (
                ap (λ (d : Db). d.jobs) moved
                ∙ update_row-stale id q.version (set_payload q) db.jobs f.row f.found stale)
        ]
      ]

  link_to-IsSound :
      (parent_id id : String) (now : ℕ) (db db' : Db)
      → IsConsistent db
      → link_to c parent_id id now db ≡ ok (tt, db')
      → IsSound db db'
  unfolding link_to
  link_to-IsSound parent_id id now db db' inv h =
      let (j, f, l, r) = get-bind db db' tt c parent_id _ inv h in
      elim (Bool-cases (contains id j.child_job_ids)) [
        | inl t ↦ let same : db' ≡ db = ground arith in rw same (IsSound-refl db inv)
        | inr t ↦
            let p = with_child j id now in
            let (sealed, db₁, s, a) =
              >>=-ok (store_job_in_transaction c p j.version)
                (λ sealed.
                  append_event_in_transaction c parent_id "child_linked" sealed none >> pure tt)
                db db' tt (rw t at r) in
            let (w, hash, _) =
              store-Written c laws parent_id p f.id_column sealed j.version db db₁ f.row f.found
                s in
            let (q, db₂, a', same) =
              >>=-ok (append_event_in_transaction c parent_id "child_linked" sealed none)
                (λ _. pure tt) db₁ db' tt a in
            let (w', _) =
              append-Written c laws parent_id p f.id_column "child_linked" sealed q none db db₁ db₂
                (ground arith) w a' in
            let e : db' ≡ db₂ = ground arith in
            rw e (
              Written-IsSound db db₂ parent_id j p inv f w'
                (Later-write j p stay refl (omega arith) (refl, refl, refl, refl, refl, refl))
                (ground arith))
      ]

  link_parent-IsSound :
      (parent_id : Option String) (id : String) (now : ℕ) (db db' : Db)
      → IsConsistent db
      → link_parent c parent_id id now db ≡ ok (tt, db')
      → IsSound db db'
  unfolding link_parent
  link_parent-IsSound none id now db db' inv h =
      let same : db' ≡ db = ground arith in rw same (IsSound-refl db inv)
  link_parent-IsSound (some parent_id) id now db db' inv h = elim (Bool-cases (truthy parent_id)) [
    | inl t ↦ link_to-IsSound parent_id id now db db' inv (rw t at h)
    | inr t ↦ let same : db' ≡ db = ground arith in rw same (IsSound-refl db inv)
  ]

  envelope_with-IsFresh :
      (identity : Option BuildIdentity) (id : String) (r : Request) (max_retries now : ℕ)
      (db db' : Db) (j : Job)
      → envelope_with c identity r.stack_id now (λ e. new_job e id now r max_retries) db
        ≡ ok (j, db')
      → IsFresh j × (j.job_id ≡ id) × (db' ≡ db)
  unfolding envelope_with
  envelope_with-IsFresh none id r max_retries now db db' j h = cc
  envelope_with-IsFresh (some i) id r max_retries now db db' j h =
      let (sealed, same) = rehash-ok c _ j db db' h in
      let hash = laws.seals _ j sealed in
      (
        record { first = ground arith; waits = ground arith; leased = ground arith },
        ground arith,
        same,
      )

  after_insert-IsSound :
      (id : String) (r : Request) (now : ℕ) (j q : Job) (found : Option Job) (db₀ db db' : Db)
      → IsSound db₀ db
      → (found ≡ none → Found db id j × IsFresh j)
      → after_insert c id r now j found db ≡ ok (q, db')
      → IsSound db₀ db'
  unfolding after_insert
  after_insert-IsSound id r now j q (some e) db₀ db db' s new h =
      let same : db' ≡ db = ground arith in rw same s
  after_insert-IsSound id r now j q none db₀ db db' s new h =
      let (f, fresh) = new refl in
      let (_, db₁, l, a) =
        >>=-ok (link_parent c r.parent_job_id id now)
          (λ _. append_event_in_transaction c id "created" j none) db db' q h in
      let linked = link_parent-IsSound r.parent_job_id id now db db₁ s.consistent l in
      let (k, g, later) = linked.evolves.at id j f in
      let (i, g', leased) = linked.consistent.at id g.row g.found in
      let i_k = Found-unique db₁ id i k g' g in
      let logged =
        append-IsSound id "created" j q k none db₁ db' linked.consistent g
          (subst IsLeased i_k leased) later a in
      IsSound-trans db₀ db db' s (IsSound-trans db db₁ db' linked logged)

  insert_new-IsSound :
      (id : String) (r : Request) (max_retries now : ℕ) (db db' : Db) (q : Job)
      → IsConsistent db
      → insert_new c id r max_retries now db ≡ ok (q, db')
      → IsSound db db'
  unfolding insert_new
  insert_new-IsSound id r max_retries now db db' q inv h =
      let (j, db₁, e, rest) =
        >>=-ok (envelope c r.stack_id now (λ e. new_job e id now r max_retries))
          (λ payload. insert_or_existing payload r.idempotency_key >>= λ found.
            after_insert c id r now payload found)
          db db' q h in
      let (fresh, is_id, same) =
        envelope_with-IsFresh c.identity id r max_retries now db db₁ j (unfold envelope in e) in
      let (found, db₂, i, a) =
        >>=-ok (insert_or_existing j r.idempotency_key) (λ found. after_insert c id r now j found)
          db₁ db' q rest in
      elim (handle_insert-ok r.idempotency_key (insert_job j db₁) found db₁ db₂
        (unfold insert_or_existing in i)) [
          | inl (e, inserted) ↦
              let (s, f) = insert_job-IsSound j db db₂ inv fresh (rw same at inserted) in
              after_insert-IsSound id r now j q found db db₂ db' s
                (λ _. (subst (λ x. Found db₂ x j) is_id f, fresh)) a
          | inr (n, kept) ↦
              after_insert-IsSound id r now j q found db db₂ db'
                (rw (kept ∙ same) (IsSound-refl db inv)) (λ e. absurd (n e)) a
        ]

  existing_or_new-IsSound :
      (id : String) (r : Request) (max_retries now : ℕ) (existing : Option Job) (db db' : Db)
      (q : Job)
      → IsConsistent db
      → existing_or_new c id r max_retries now existing db ≡ ok (q, db')
      → IsSound db db'
  unfolding existing_or_new
  existing_or_new-IsSound id r max_retries now (some e) db db' q inv h =
      let same : db' ≡ db = ground arith in rw same (IsSound-refl db inv)
  existing_or_new-IsSound id r max_retries now none db db' q inv h =
      insert_new-IsSound id r max_retries now db db' q inv h

  create_checked-IsSound :
      (r : Request) (now : ℕ) (db : Db) (args : Result (String × ℕ))
      → IsConsistent db
      → IsSound db (create_checked c r now args db).1
  unfolding create_checked create_in_transaction
  create_checked-IsSound r now db (err e) inv = IsSound-refl db inv
  create_checked-IsSound r now db (ok (id, max_retries)) inv =
      IsSound-by db (transaction (create_in_transaction c id r max_retries now) db) inv
        (λ q db' h.
          let (existing, db₁, e, rest) =
            >>=-ok (existing_job r.idempotency_key) (existing_or_new c id r max_retries now) db db'
              q (transaction-ok _ db db' q h) in
          let same = existing_job-same r.idempotency_key existing db db₁ e in
          existing_or_new-IsSound id r max_retries now existing db db' q inv (rw same at rest))
        (λ e db' h. transaction-err _ db db' e h)

  -- Whatever it returns or raises, `create` keeps a consistent table consistent, and every job that was
  -- there is there afterwards, as it was or with a child more.
  pub create-IsSound :
      (r : Request) (now : ℕ) (db : Db) → IsConsistent db → IsSound db (create c r now db).1
  unfolding create
  create-IsSound r now db inv = create_checked-IsSound r now db (checked r) inv
