-- ===== src/Data/Fetch/Chunked.antt =====
-- `fetch_chunked` as a whole (openpine/data/parallel_fetcher.py).
use openpine.Data.Fetch.Results.{fetch_many-one_chunk}
use openpine.Base.Lists.{All}
use openpine.Data.Fetch.Merge.{merge-IsAscending, has_time}
use openpine.Base.Dict.{values}
use openpine.Data.Fetch.{
  chunk_job, chunk_bounds, merge, fetch_many, job_key, chunk_jobs, fetch_chunked, values, FetchJob,
}
use mathlib.Core.List.{Permᴰ}
use mathlib.Core.List.Permᴰ.{nil, cons, swap, trans}
use mathlib.Core.List.{[], List, flatten, append-nil}
use openpine.Base.{
  ◌-◌, map, subst, refl, ◌∙◌, Option-cases, inr, arith, inl, leb, Bool-cases, some, ap, ◌++◌, [],
  ◌∷◌, ◌≡◌, String, List, Option, ℕ,
}

All-Permᴰ : (P : FetchJob → Type 0) {xs ys : List FetchJob} → Permᴰ xs ys → All P xs → All P ys
All-Permᴰ P nil h = h
All-Permᴰ P (cons e p) h = (subst P e h.0, All-Permᴰ P p h.1)
All-Permᴰ P (swap e f) h = (subst P f h.1.0, (subst P e h.0, h.1.1))
All-Permᴰ P (trans p q) h = All-Permᴰ P q (All-Permᴰ P p h)

All-before :
    (P : FetchJob → Type 0) (xs : List FetchJob) (x : FetchJob) → All P (xs ++ x ∷ []) → All P xs
All-before P [] x h = tt
All-before P (y ∷ xs) x h = (h.0, All-before P xs x h.1)

All-last : (P : FetchJob → Type 0) (xs : List FetchJob) (x : FetchJob) → All P (xs ++ x ∷ []) → P x
All-last P [] x h = h.0
All-last P (y ∷ xs) x h = All-last P xs x h.1

-- the key of every chunk
abbrev symbol_key : String → String → String
symbol_key symbol timeframe = job_key (chunk_job symbol timeframe "" 0 0)

chunk_jobs-one_key :
    (symbol timeframe exchange : String) (start stop size : ℕ)
    → All
        (λ j. job_key j ≡ symbol_key symbol timeframe)
        (chunk_jobs symbol timeframe exchange start stop size)
unfolding chunk_jobs job_key
chunk_jobs-one_key symbol timeframe exchange start stop size =
    one_key (chunk_bounds (stop - start) start stop size)
  where
    one_key :
        (bounds : List (ℕ × ℕ))
        → All
            (λ j. job_key j ≡ symbol_key symbol timeframe)
            (map (λ b. chunk_job symbol timeframe exchange b.0 b.1) bounds)
    one_key [] = tt
    one_key (b ∷ bounds) = (refl, one_key bounds)

module _ {B : Type 0} (time : B → ℕ) (fetch : FetchJob → Option (List B)) where
  has_time-one :
      (t : ℕ) (key : String) (last : List B)
      → has_time time fetch t (flatten (values ((key, last) ∷ []))) ≡ has_time time fetch t last
  unfolding values flatten
  has_time-one t key last = ap (has_time time fetch t) (append-nil last)

  -- Whenever `fetch_chunked` returns, the pool having completed the chunk jobs in any order, the times
  -- of its bars are those of the chunk that completed last: all chunks have the same symbol and
  -- timeframe, and the bars of every other chunk are lost.
  pub fetch_chunked-one_chunk :
      (completes : List FetchJob → List FetchJob) (symbol timeframe : String) (start stop size : ℕ)
      (exchange : String) (jobs : List FetchJob) (job : FetchJob) (last bars : List B)
      → ((xs : List FetchJob) → Permᴰ xs (completes xs))
      → completes (chunk_jobs symbol timeframe exchange start stop size) ≡ jobs ++ job ∷ []
      → fetch job ≡ some last
      → fetch_chunked time fetch completes symbol timeframe start stop size exchange ≡ some bars
      → (t : ℕ) → has_time time fetch t bars ≡ has_time time fetch t last
  unfolding fetch_chunked
  fetch_chunked-one_chunk completes symbol timeframe start stop size exchange jobs job last bars
        permutes order f h t =
      let chunks = chunk_jobs symbol timeframe exchange start stop size in
      let key = symbol_key symbol timeframe in
      let one =
        All-Permᴰ (λ j. job_key j ≡ key) (permutes chunks)
          (chunk_jobs-one_key symbol timeframe exchange start stop size) in
      let all = subst (All (λ j. job_key j ≡ key)) order one in
      elim (Bool-cases (leb stop start)) [
        | inl e ↦ absurd (ground arith)
        | inr e ↦ elim (Option-cases (fetch_many time fetch (jobs ++ job ∷ []))) [
          | inl n ↦ absurd (ground arith)
          | inr (final, m) ↦
              let only =
                fetch_many-one_chunk time fetch key jobs job last final (All-before _ jobs job all)
                  (All-last _ jobs job all) f m in
              let merged : bars ≡ merge time fetch final = ground arith in
              rw merged
                ((merge-IsAscending time fetch final).1 t ∙ rw only (has_time-one t key last))
        ]
      ]
