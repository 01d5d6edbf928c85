-- ===== src/Jobs/Laws/History.antt =====
-- What holds of the job store after any calls of its methods, by any clients in any order
-- (openpine/jobs/transactional_store.py).
use openpine.Jobs.Ops.{running_updates}
use openpine.Jobs.Store.{moved_to}
use openpine.Jobs.Laws.Effects.{mark_running-Moved}
use openpine.Jobs.Tx.{Result, ok}
use openpine.Jobs.Ops
use openpine.Jobs.Laws.Recovery.{recover_lost_leases-IsSound}
use openpine.Jobs.Laws.Soundness.{
  retry-IsSound, cancel-IsSound, mark_failed-IsSound, mark_succeeded-IsSound, renew_lease-IsSound,
  mark_running-IsSound,
}
use openpine.Jobs.Laws.Creation.{create-IsSound}
use openpine.Jobs.Laws.Evolution.{
  Found-unique, IsSound-trans, stay, IsSound-refl, move, Evolves, IsSound, Reach,
}
use openpine.Jobs.Laws.Consistent.{Written-Found, Found, IsConsistent}
use openpine.Jobs.Model.{
  running, canceled, Job, succeeded, Db, SealsOnlyHash, allowed, JobState, Contracts,
}
use openpine.Jobs.Table.{find_row}
use openpine.Jobs.History.{
  recover_lost_leases, retry, cancel, mark_failed, mark_succeeded, renew_lease, mark_running,
  create, empty, Command, run, execute,
}
use openpine.Base.{
  ◌≤◌, ◌+◌, ap, subst, ◌≢◌, some, ℕ, [], ◌∷◌, refl, ◌∷◌, String, arith, false, true, List, ◌≡◌,
  Bool,
}

execute-IsSound :
    (c : Contracts) (laws : SealsOnlyHash c) (x : Command) (db : Db)
    → IsConsistent db
    → IsSound db (execute c x db)
unfolding execute
execute-IsSound c laws (create r now) db inv = create-IsSound c laws r now db inv
execute-IsSound c laws (mark_running id owner deadline now expected) db inv =
    mark_running-IsSound c laws db inv id owner deadline now expected
execute-IsSound c laws (renew_lease id owner deadline now expected) db inv =
    renew_lease-IsSound c laws db inv id owner deadline now expected
execute-IsSound c laws (mark_succeeded id owner expected now refs) db inv =
    mark_succeeded-IsSound c laws db inv id owner expected now refs
execute-IsSound c laws (mark_failed id code owner expected now) db inv =
    mark_failed-IsSound c laws db inv id code owner expected now
execute-IsSound c laws (cancel id key now finished) db inv =
    cancel-IsSound c laws db inv id key now finished
execute-IsSound c laws (retry id now) db inv = retry-IsSound c laws db inv id now
execute-IsSound c laws (recover_lost_leases now) db inv =
    recover_lost_leases-IsSound c laws db now inv

run-IsSound :
    (c : Contracts) (laws : SealsOnlyHash c) (xs : List Command) (db : Db)
    → IsConsistent db
    → IsSound db (run c xs db)
unfolding run
run-IsSound c laws [] db inv = IsSound-refl db inv
run-IsSound c laws (x ∷ xs) db inv =
    let s = execute-IsSound c laws x db inv in
    IsSound-trans db (execute c x db) (run c xs (execute c x db)) s
      (run-IsSound c laws xs (execute c x db) s.consistent)

empty-IsConsistent : IsConsistent empty
unfolding find_row
empty-IsConsistent = record { at = λ id r h. cc; keyed = tt }

-- After any calls on a new store the table is consistent: job ids are unique, the columns of each row
-- repeat its payload, a job holds a lease (owner and deadline) exactly while it is running, and its
-- retry count is within its limit.
pub run-IsConsistent :
    (c : Contracts) → SealsOnlyHash c → (xs : List Command) → IsConsistent (run c xs empty)
run-IsConsistent c laws xs = (run-IsSound c laws xs empty empty-IsConsistent).consistent

-- From a consistent database, whatever calls are made, no job is lost, and each evolves: its state
-- moves along allowed transitions only, its version and retry count never fall, its id, kind, key,
-- limit, parent and envelope never change, and as long as its version is the same nothing else has
-- changed but its event cursor and content hash.
pub run-Evolves :
    (c : Contracts)
    → SealsOnlyHash c
    → (xs : List Command) (db : Db) → IsConsistent db
    → Evolves db (run c xs db)
run-Evolves c laws xs db inv = (run-IsSound c laws xs db inv).evolves

-- the states that have no transition
abbrev pub is_final : JobState → Bool
is_final succeeded = true
is_final canceled = true
is_final _ = false

final_is_stuck : (s t : JobState) → is_final s ≡ true → allowed s t ≡ false
unfolding allowed
final_is_stuck s t h = ground arith

Reach-final : {s t : JobState} → is_final s ≡ true → Reach s t → t ≡ s
Reach-final h stay = refl
Reach-final {s} h (move {t = t} {u = u} r a) =
    let e = Reach-final h r in let stuck = final_is_stuck s u h in absurd (ground arith)

-- A job that has succeeded or was canceled stays in that state whatever calls are made.
pub final_is_forever :
    (c : Contracts)
    → SealsOnlyHash c
    → (xs : List Command) (db : Db) (id : String) (j : Job) → IsConsistent db
    → Found db id j
    → is_final j.state ≡ true
    → (k : Job) × Found (run c xs db) id k × (k.state ≡ j.state)
final_is_forever c laws xs db id j inv f final =
    let (k, g, l) = (run-Evolves c laws xs db inv).at id j f in (k, g, Reach-final final l.path)

-- A version can be claimed once: after a call of `mark_running` that expected version `v` of a job
-- and returned, no other that expects `v` returns, whatever calls are made in between.
pub claim_once :
    (c : Contracts)
    → SealsOnlyHash c
    → (db db₁ db₂ : Db) (id : String) (v : ℕ) (owner : String) (deadline now : ℕ) (q : Job)
      (xs : List Command) (owner' : String) (deadline' now' : ℕ) (q' : Job)
    → IsConsistent db
    → Ops.mark_running c id owner deadline now (some v) db ≡ (ok q, db₁)
    → Ops.mark_running c id owner' deadline' now' (some v) (run c xs db₁) ≢ (ok q', db₂)
claim_once c laws db db₁ db₂ id v owner deadline now q xs owner' deadline' now' q' inv h h' =
    let (j, m, _, e, _, _) =
      mark_running-Moved c laws db db₁ inv id q owner deadline now (some v) h in
    let s = mark_running-IsSound c laws db inv id owner deadline now (some v) in
    let inv₁ = (subst (IsSound db) (ap (λ (x : Result Job × Db). x.1) h) s).consistent in
    let same : (moved_to running now (j.version + 1) (running_updates now owner deadline j)).job_id
        ≡ id =
      m.before.id_column in
    let (k, g, l) =
      (run-Evolves c laws xs db₁ inv₁).at id m.written.held
        (Written-Found db db₁ id _ m.written same) in
    let inv₂ = run-IsSound c laws xs db₁ inv₁ in
    let (j', m', _, e', _, _) =
      mark_running-Moved c laws (run c xs db₁) db₂ inv₂.consistent id q' owner' deadline' now'
        (some v) h' in
    let k_j' = Found-unique (run c xs db₁) id k j' g m'.before in
    let later : m.written.held.version ≤ k.version = l.version_grows in
    let grown : m.written.held.version ≡ j.version + 1 = let b = m.written.body in ground arith in
    let k_version : k.version ≡ j'.version = ap (λ (x : Job). x.version) k_j' in
    absurd (omega arith)
