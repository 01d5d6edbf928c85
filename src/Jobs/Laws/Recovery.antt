-- ===== src/Jobs/Laws/Recovery.antt =====
-- `JobV1Store.recover_lost_leases` keeps the table consistent
-- (openpine/jobs/transactional_store.py).
use openpine.Jobs.Laws.Soundness.{transaction-err, IsSound-by}
use openpine.Jobs.Laws.Guards.{transaction-ok, transition-Written}
use openpine.Jobs.Laws.Written.{Written}
use openpine.Jobs.Ops.{finished_updates}
use openpine.Base.Text.{text_lt}
use openpine.Jobs.Store.{transition_in_transaction, moved_to}
use openpine.Jobs.Tx.{transaction, >>=-ok, ok}
use openpine.Jobs.Table.{All-find_row, find_row}
use openpine.Jobs.Laws.Evolution.{
  Written-IsSound, stay, Reach, Later-write, Later, IsSound-refl, IsSound-trans, Found-unique,
  IsSound,
}
use openpine.Jobs.Laws.Helpers.{SameBody}
use openpine.Base.Lists.{All-keep, keep, All-map, All}
use openpine.Jobs.Laws.Consistent.{Found, IsLeased, IsConsistent}
use openpine.Jobs.Recover.{
  in_state_running, lease_kept, recover_in_transaction, recover_each, recover_lost_leases, decode,
  sort_by_id, insert_by_id,
}
use openpine.Jobs.Model.{allowed, lost, stored, SealsOnlyHash, Row, Contracts, Job, Db}
use openpine.Base.{
  refl, true, ◌∙◌, inr, none, inl, sym, ◌+◌, subst, [], ◌∷◌, arith, Bool-cases, some, ◌∷◌, ◌≡◌,
  List, ℕ,
}

-- every payload in the list is that of a row of `db`
abbrev pub Listed : Db → List Job → Type 0
Listed db js = All (λ j. Found db j.job_id j) js

-- what the rows of a list hold
abbrev pub Held : Db → List Row → Type 0
Held db rows = All (λ r. (j : Job) × (r.payload ≡ stored j) × Found db j.job_id j) rows

pub rows-Held : (db : Db) → IsConsistent db → Held db db.jobs
rows-Held db inv =
    All-map (λ r. find_row r.job_id db.jobs ≡ some r)
      (λ r. (j : Job) × (r.payload ≡ stored j) × Found db j.job_id j) db.jobs
      (λ r h.
        let (j, f, _) = inv.at r.job_id r h in
        (j, ground (arith, f.found, f.payload), subst (λ x. Found db x j) (sym f.id_column) f))
      (All-find_row db.jobs inv.keyed)

pub insert_by_id-All {ℓ} :
    (P : Row → Type ℓ) (r : Row) (rows : List Row) → P r → All P rows → All P (insert_by_id r rows)
unfolding insert_by_id
insert_by_id-All P r [] p h = (p, tt)
insert_by_id-All P r (s ∷ ss) p h = elim (Bool-cases (text_lt s.job_id r.job_id)) [
  | inl e ↦ rw e (h.0, insert_by_id-All P r ss p h.1)
  | inr e ↦ rw e (p, h)
]

pub sort_by_id-All {ℓ} : (P : Row → Type ℓ) (rows : List Row) → All P rows → All P (sort_by_id rows)
unfolding sort_by_id
sort_by_id-All P [] h = tt
sort_by_id-All P (r ∷ rs) h = insert_by_id-All P r (sort_by_id rs) h.0 (sort_by_id-All P rs h.1)

-- Decoding changes nothing, and gives the payloads of the rows.
pub decode-Listed :
    (db₀ : Db) (rows : List Row) (js : List Job) (db db' : Db)
    → Held db₀ rows
    → decode rows db ≡ ok (js, db')
    → Listed db₀ js × (db' ≡ db)
unfolding decode
decode-Listed db₀ [] [] db db' h e = (tt, ground arith)
decode-Listed db₀ [] (j ∷ js) db db' h e = cc
decode-Listed db₀ (r ∷ rs) [] db db' h e = ground arith
decode-Listed db₀ (r ∷ rs) (j ∷ js) db db' h e =
    let (i, payload, f) = h.0 in
    let rest : decode rs db ≡ ok (js, db') = ground arith in
    let same : i ≡ j = ground arith in
    let (l, kept) = decode-Listed db₀ rs js db db' h.1 rest in
    ((subst (λ x. Found db₀ x.job_id x) same f, l), kept)

lost-IsLeased :
    (now : ℕ) (j k : Job)
    → IsLeased k
    → SameBody j k
    → IsLeased (moved_to lost now (j.version + 1) (finished_updates now j))
lost-IsLeased now j k l b = ground arith

module _ (c : Contracts) (laws : SealsOnlyHash c) (db₀ : Db) where
  -- One lost job: it is still as it was read, since its version is.
  pub lose-IsSound :
      (j q : Job) (now : ℕ) (db db' : Db)
      → Found db₀ j.job_id j
      → IsSound db₀ db
      → transition_in_transaction c j lost "lost" now (finished_updates now) none db ≡ ok (q, db')
      → IsSound db db'
        × Written db db' j.job_id (moved_to lost now (j.version + 1) (finished_updates now j))
  lose-IsSound j q now db db' f s h =
      let id = j.job_id in
      let p = moved_to lost now (j.version + 1) (finished_updates now j) in
      let (k, g, l) = s.evolves.at id j f in
      let (i, g', leased) = s.consistent.at id g.row g.found in
      let i_k = Found-unique db id i k g' g in
      let (allow, w, _, v) =
        transition-Written c laws id j q lost "lost" now (finished_updates now) none db db' g.row
          g.found refl refl h in
      let same : SameBody j k = l.same_if_version (sym v ∙ g.version_column) in
      let now_allowed : allowed k.state lost ≡ true = ground arith in
      let later : Later k p =
        Later-write k p (Reach.move stay now_allowed) (ground arith) (ground arith)
          (ground arith) in
      (
        Written-IsSound db db' id k p s.consistent g w later
            (lost-IsLeased now j k (subst IsLeased i_k leased) same),
        w,
      )

  pub recover_each-IsSound :
      (js : List Job) (now n m : ℕ) (db db' : Db)
      → Listed db₀ js
      → IsSound db₀ db
      → recover_each c js now n db ≡ ok (m, db')
      → IsSound db₀ db'
  unfolding recover_each
  recover_each-IsSound [] now n m db db' l s h = let same : db' ≡ db = ground arith in rw same s
  recover_each-IsSound (j ∷ js) now n m db db' l s h =
      elim (Bool-cases (lease_kept j.lease_deadline_utc_ms now)) [
        | inl e ↦ recover_each-IsSound js now n m db db' l.1 s (rw e at h)
        | inr e ↦
            let (q, db₁, t, rest) =
              >>=-ok (transition_in_transaction c j lost "lost" now (finished_updates now) none)
                (λ _. recover_each c js now (n + 1)) db db' m (rw e at h) in
            recover_each-IsSound js now (n + 1) m db₁ db' l.1
              (IsSound-trans db₀ db db₁ s (lose-IsSound j q now db db₁ l.0 s t).0) rest
      ]

pub recover_lost_leases-IsSound :
    (c : Contracts) (laws : SealsOnlyHash c) (db : Db) (now : ℕ)
    → IsConsistent db
    → IsSound db (recover_lost_leases c now db).1
unfolding recover_lost_leases
recover_lost_leases-IsSound c laws db now inv =
    IsSound-by db (transaction (recover_in_transaction c now) db) inv
      (λ n db' h. recovered n db' (transaction-ok _ db db' n h))
      (λ e db' h. transaction-err _ db db' e h)
  where
    recovered : (n : ℕ) (db' : Db) → recover_in_transaction c now db ≡ ok (n, db') → IsSound db db'
    recovered n db' h =
        let rows = sort_by_id (keep in_state_running db.jobs) in
        let (js, db₁, d, r) = >>=-ok (decode rows) (λ js. recover_each c js now 0) db db' n h in
        let held =
          sort_by_id-All (λ r. (j : Job) × (r.payload ≡ stored j) × Found db j.job_id j) _
            (All-keep (λ r. (j : Job) × (r.payload ≡ stored j) × Found db j.job_id j)
              in_state_running db.jobs (rows-Held db inv)) in
        let (l, same) = decode-Listed db rows js db db₁ held d in
        recover_each-IsSound c laws db js now 0 n db db' l (IsSound-refl db inv) (rw same at r)
