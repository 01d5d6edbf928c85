-- ===== src/Data/Fetch/Results.antt =====
-- What `fetch_many` collects, and what that means for `fetch_chunked`
-- (openpine/data/parallel_fetcher.py).
use openpine.Base.Lists.{All}
use openpine.Base.Dict.{get-put, put, get, Dict}
use openpine.Data.Fetch.{job_key, put, Dict, fetch_many, collect, FetchJob}
use openpine.Base.{
  refl, ap, ◌∙◌, inr, inl, false, Option-cases, eq_refl, sym, [], Bool, true, ◌++◌, none, arith,
  some, ◌==◌, ◌≡◌, ◌∷◌, String, List, Option, ℕ,
}

module _ {B : Type 0} (time : B → ℕ) (fetch : FetchJob → Option (List B)) where
  -- the bars of the last job with this key, or what was collected before
  unfoldable pub last_fetched : String → List FetchJob → Option (List B) → Option (List B)
  last_fetched key [] before = before
  last_fetched key (job ∷ jobs) before =
      last_fetched key jobs (elim (job_key job == key) [ true ↦ fetch job | false ↦ before ])

  collect-last :
      (jobs : List FetchJob) (results final : Dict (List B)) (key : String)
      → collect time fetch jobs results ≡ some final
      → get final key ≡ last_fetched key jobs (get results key)
  unfolding collect last_fetched
  collect-last [] results final key h = ground arith
  collect-last (job ∷ jobs) results final key h = elim (Option-cases (fetch job)) [
    | inl e ↦ absurd (ground arith)
    | inr (bars, e) ↦
        let ih = collect-last jobs (put results (job_key job) bars) final key (ground arith) in
        ih
        ∙ ap (last_fetched key jobs) (
            get-put results (job_key job) key bars
            ∙ stored_bars (job_key job == key) bars (get results key) (fetch job) e)
  ]
    where
      stored_bars :
          (b : Bool) (bars : List B) (before o : Option (List B))
          → o ≡ some bars
          → elim b [ true ↦ some bars | false ↦ before ] ≡ elim b [ true ↦ o | false ↦ before ]
      stored_bars true bars before o e = sym e
      stored_bars false bars before o e = refl

  -- `fetch_many` keeps, for each symbol and timeframe, the bars of the job that completes last. The
  -- bars of the other jobs of that symbol and timeframe are dropped.
  pub fetch_many-last :
      (completed : List FetchJob) (final : Dict (List B)) (key : String)
      → fetch_many time fetch completed ≡ some final
      → get final key ≡ last_fetched key completed none
  unfolding fetch_many get
  fetch_many-last completed final key h = collect-last completed [] final key h

  -- all jobs are for one symbol and timeframe
  abbrev pub OneKey : String → List FetchJob → Type 0
  OneKey key jobs = All (λ job. job_key job ≡ key) jobs

  collect-one :
      (key : String) (jobs : List FetchJob) (bars : List B) (job : FetchJob) (last : List B)
      → OneKey key jobs
      → job_key job ≡ key
      → fetch job ≡ some last
      → (final : Dict (List B))
      → collect time fetch (jobs ++ job ∷ []) ((key, bars) ∷ []) ≡ some final
      → final ≡ (key, last) ∷ []
  unfolding collect put
  collect-one key [] bars job last o k f final h = ground (arith, eq_refl key)
  collect-one key (x ∷ jobs) bars job last o k f final h = elim (Option-cases (fetch x)) [
    | inl e ↦ absurd (ground arith)
    | inr (more, e) ↦ collect-one key jobs more job last o.1 k f final (ground (arith, eq_refl key))
  ]

  -- The chunks of one `fetch_chunked` share their key: when all of them have been fetched, the bars
  -- that it merges are those of the chunk that completed last, and no others.
  pub fetch_many-one_chunk :
      (key : String) (jobs : List FetchJob) (job : FetchJob) (last : List B) (final : Dict (List B))
      → OneKey key jobs
      → job_key job ≡ key
      → fetch job ≡ some last
      → fetch_many time fetch (jobs ++ job ∷ []) ≡ some final
      → final ≡ (key, last) ∷ []
  unfolding fetch_many collect put
  fetch_many-one_chunk key [] job last final o k f h = ground arith
  fetch_many-one_chunk key (x ∷ jobs) job last final o k f h = elim (Option-cases (fetch x)) [
    | inl e ↦ absurd (ground arith)
    | inr (bars, e) ↦ collect-one key jobs bars job last o.1 k f final (ground arith)
  ]
