-- ===== src/Jobs/Laws/Soundness.antt =====
-- Every method of `JobV1Store` that changes a known job keeps the table consistent and lets jobs
-- only evolve (openpine/jobs/transactional_store.py).
use openpine.Jobs.Store.{moved_to}
use openpine.Jobs.Ops.{
  retried_updates, beyond, mark_succeeded, retry, cancel, mark_failed, transition, renew_lease,
  mark_running,
}
use openpine.Jobs.Laws.Evolution.{
  stay, Reach, Later-write, Written-IsSound, Later, IsSound-refl, IsSound,
}
use openpine.Jobs.Laws.Effects.{
  IsWithin-beyond, mark_succeeded-Moved, retry-Moved, cancel-Moved, mark_failed-Moved,
  renew_lease-Moved, mark_running-Moved, Moved,
}
use openpine.Jobs.Laws.Consistent.{IsLeased, IsConsistent}
use openpine.Jobs.Tx.{err, ok, Tx, Result, transaction}
use openpine.Jobs.Model.{
  succeeded, failed, running, queued, JobState, allowed, Job, JobError, SealsOnlyHash, Contracts,
  Db,
}
use openpine.Base.{false, inr, ◌+◌, inl, true, ◌⊎◌, refl, List, arith, Option, ◌≡◌, String, ℕ}

pub IsSound-by {ℓ} :
    {A : Type ℓ} (db : Db) (x : Result A × Db)
    → IsConsistent db
    → ((a : A) (db' : Db) → x ≡ (ok a, db') → IsSound db db')
    → ((e : JobError) (db' : Db) → x ≡ (err e, db') → db' ≡ db)
    → IsSound db x.1
IsSound-by db (ok a, db') inv good bad = good a db' refl
IsSound-by db (err e, db') inv good bad = rw (bad e db' refl) (IsSound-refl db inv)

pub transaction-err {ℓ} :
    {A : Type ℓ} (m : Tx A) (db db' : Db) (e : JobError)
    → transaction m db ≡ (err e, db')
    → db' ≡ db
unfolding transaction
transaction-err m db db' e h = ground arith

Moved-IsSound :
    (db db' : Db) (id : String) (j p q : Job)
    → IsConsistent db
    → Moved db db' id j p q
    → (IsLeased j → Later j p × IsLeased p)
    → IsSound db db'
Moved-IsSound db db' id j p q inv m rule =
    let (l, leased) = rule m.leased in Written-IsSound db db' id j p inv m.before m.written l leased

may_run : (s : JobState) → s ≡ queued → allowed s running ≡ true
unfolding allowed
may_run s e = rw e

may_succeed : (s : JobState) → s ≡ running → allowed s succeeded ≡ true
unfolding allowed
may_succeed s e = rw e

may_fail : {P : Type 0} (s : JobState) → (s ≡ queued) ⊎ (s ≡ running) × P → allowed s failed ≡ true
unfolding allowed
may_fail s (inl e) = rw e
may_fail s (inr (e, _)) = rw e

-- A job that may go back to the queue held no lease.
retried-IsLeased :
    (now : ℕ) (j : Job)
    → IsLeased j
    → allowed j.state queued ≡ true
    → beyond (j.retry_count + 1) j.max_retries ≡ false
    → IsLeased (moved_to queued now (j.version + 1) (retried_updates (j.retry_count + 1) j))
unfolding allowed
retried-IsLeased now j l allow within = ground arith

module _ (c : Contracts) (laws : SealsOnlyHash c) (db : Db) (inv : IsConsistent db)
    (id : String) where
  pub mark_running-IsSound :
      (owner : String) (deadline now : ℕ) (expected : Option ℕ)
      → IsSound db (mark_running c id owner deadline now expected db).1
  unfolding mark_running transition transaction
  mark_running-IsSound owner deadline now expected =
      IsSound-by db (mark_running c id owner deadline now expected db) inv
        (λ q db' h.
          let (j, m, s, _, _, _) =
            mark_running-Moved c laws db db' inv id q owner deadline now expected h in
          Moved-IsSound db db' id j _ q inv m (λ l. (
            Later-write j _ (Reach.move stay (may_run j.state s)) refl (omega arith)
                (refl, refl, refl, refl, refl, refl),
            ground arith,
          )))
        (λ e db' h. ground arith)

  pub renew_lease-IsSound :
      (owner : String) (deadline now : ℕ) (expected : Option ℕ)
      → IsSound db (renew_lease c id owner deadline now expected db).1
  unfolding renew_lease transaction
  renew_lease-IsSound owner deadline now expected =
      IsSound-by db (renew_lease c id owner deadline now expected db) inv
        (λ q db' h.
          let (j, m, s, _, _) =
            renew_lease-Moved c laws db db' inv id q owner deadline now expected h in
          Moved-IsSound db db' id j _ q inv m (λ l. (
            Later-write j _ stay refl (omega arith) (refl, refl, refl, refl, refl, refl),
            ground arith,
          )))
        (λ e db' h. ground arith)

  pub mark_succeeded-IsSound :
      (owner : String) (expected : Option ℕ) (now : ℕ) (refs : List String)
      → IsSound db (mark_succeeded c id owner expected now refs db).1
  unfolding mark_succeeded
  mark_succeeded-IsSound owner expected now refs =
      IsSound-by db (mark_succeeded c id owner expected now refs db) inv
        (λ q db' h.
          let (j, m, s, _, _) =
            mark_succeeded-Moved c laws db db' inv id q owner expected now refs h in
          Moved-IsSound db db' id j _ q inv m (λ l. (
            Later-write j _ (Reach.move stay (may_succeed j.state s)) refl (omega arith)
                (refl, refl, refl, refl, refl, refl),
            ground arith,
          )))
        (λ e db' h. transaction-err _ db db' e h)

  pub mark_failed-IsSound :
      (code : String) (owner : Option String) (expected : Option ℕ) (now : ℕ)
      → IsSound db (mark_failed c id code owner expected now db).1
  unfolding mark_failed
  mark_failed-IsSound code owner expected now =
      IsSound-by db (mark_failed c id code owner expected now db) inv
        (λ q db' h.
          let (j, m, s, _) = mark_failed-Moved c laws db db' inv id q code owner expected now h in
          Moved-IsSound db db' id j _ q inv m (λ l. (
            Later-write j _ (Reach.move stay (may_fail j.state s)) refl (omega arith)
                (refl, refl, refl, refl, refl, refl),
            ground arith,
          )))
        (λ e db' h. transaction-err _ db db' e h)

  pub cancel-IsSound :
      (key : Option String) (now finished : ℕ) → IsSound db (cancel c id key now finished db).1
  unfolding cancel
  cancel-IsSound key now finished =
      IsSound-by db (cancel c id key now finished db) inv
        (λ q db' h.
          let (j, f, s) = cancel-Moved c laws db db' inv id q key now finished h in
          elim s [
            | inl (_, _, same) ↦ rw same (IsSound-refl db inv)
            | inr (allow, m) ↦ Moved-IsSound db db' id j _ q inv m (λ l. (
              Later-write j _ (Reach.move stay allow) refl (omega arith)
                  (refl, refl, refl, refl, refl, refl),
              ground arith,
            ))
          ])
        (λ e db' h. transaction-err _ db db' e h)

  pub retry-IsSound : (now : ℕ) → IsSound db (retry c id now db).1
  unfolding retry
  retry-IsSound now =
      IsSound-by db (retry c id now db) inv
        (λ q db' h.
          let (j, f, s) = retry-Moved c laws db db' inv id q now h in
          elim s [
            | inl (_, _, _, same) ↦ rw same (IsSound-refl db inv)
            | inr (allow, within, m) ↦ Moved-IsSound db db' id j _ q inv m (λ l. (
              Later-write j _ (Reach.move stay allow) refl (omega arith)
                  (refl, refl, refl, refl, refl, refl),
              retried-IsLeased now j l allow
                  (IsWithin-beyond j.max_retries (j.retry_count + 1) within),
            ))
          ])
        (λ e db' h. transaction-err _ db db' e h)
