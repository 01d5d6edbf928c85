-- ===== src/Data/Fetch.antt =====
-- `ParallelDataFetcher` of openpine/data/parallel_fetcher.py. A bar is any value with an open time,
-- and `fetch` is `fetch_single` on the arguments of a job, none where it raises.
pub mod Tiles
pub mod Results
pub mod Merge
pub mod Chunked
use openpine.Base.Dict.{values, put, Dict}
use mathlib.Core.Option.{some, Option}
use Prim.Native.String.{◌∷◌, [], String, ◌++◌ as append}
use mathlib.Core.Option
use mathlib.Core.List.{map, List, flatten}
use openpine.Base.{
  true, zero, eqb, min, none, leb, ltb, false, ◌-◌, suc, ◌∷◌, map, [], some, if◌then◌else◌, Bool,
  Option, List, String, ℕ, ◌+◌,
}

pub record FetchJob : Type 0 where
  pub symbol : String
  pub timeframe : String
  pub start_ms : Option ℕ
  pub end_ms : Option ℕ
  pub exchange : String
  pub market_type : String

-- f"{job.symbol}:{job.timeframe}"
unfoldable pub job_key : FetchJob → String
job_key job = append job.symbol (append ":" job.timeframe)

-- A chunk of `fetch_chunked`.
abbrev pub chunk_job : String → String → String → ℕ → ℕ → FetchJob
chunk_job symbol timeframe exchange start stop = record {
  symbol = symbol;
  timeframe = timeframe;
  start_ms = some start;
  end_ms = some stop;
  exchange = exchange;
  market_type = "usdm";
}

-- `while chunk_start < end_ms`, with fuel for the rounds; the chunks' bounds
unfoldable pub chunk_bounds : ℕ → ℕ → ℕ → ℕ → List (ℕ × ℕ)
chunk_bounds zero start stop size = []
chunk_bounds (suc fuel) start stop size =
    let chunk_end = min (start + size) stop in
    let rest = chunk_bounds fuel chunk_end stop size in
    if ltb start stop then (start, chunk_end) ∷ rest else []

-- one round for each millisecond is enough for any positive size
unfoldable pub chunk_jobs : String → String → String → ℕ → ℕ → ℕ → List FetchJob
unfolding chunk_bounds
chunk_jobs symbol timeframe exchange start stop size =
    map (λ b. chunk_job symbol timeframe exchange b.0 b.1)
      (chunk_bounds (stop - start) start stop size)

module _ {B : Type 0} (time : B → ℕ) (fetch : FetchJob → Option (List B)) where
  -- `for future in as_completed(…)`: the jobs in the order in which they complete. A job that raises
  -- raises `ParallelFetchError`.
  unfoldable pub collect : List FetchJob → Dict (List B) → Option (Dict (List B))
  collect [] results = some results
  collect (job ∷ jobs) results = elim (fetch job) [
    | none ↦ none
    | some bars ↦ collect jobs (put results (job_key job) bars)
  ]

  -- `fetch_many` on jobs that complete in this order
  unfoldable pub fetch_many : List FetchJob → Option (Dict (List B))
  unfolding collect job_key put
  fetch_many completed = collect completed []

  -- `bar.time not in seen_times`
  abbrev pub seen : ℕ → List ℕ → Bool
  seen t [] = false
  seen t (u ∷ us) = elim (eqb t u) [ true ↦ true | false ↦ seen t us ]

  -- the two nested loops over the bars of all results, which are concatenated here
  unfoldable pub first_of_time : List B → List ℕ → List B
  first_of_time [] times = []
  first_of_time (b ∷ bs) times =
      let fresh : List B = b ∷ first_of_time bs (time b ∷ times) in
      let old = first_of_time bs times in if seen (time b) times then old else fresh

  -- all_bars.sort(key=lambda b: b.time), by insertion
  unfoldable pub insert_bar : B → List B → List B
  insert_bar b [] = b ∷ []
  insert_bar b (x ∷ xs) = if ltb (time x) (time b) then x ∷ insert_bar b xs else b ∷ x ∷ xs

  unfoldable pub sort_bars : List B → List B
  unfolding insert_bar
  sort_bars [] = []
  sort_bars (b ∷ bs) = insert_bar b (sort_bars bs)

  unfoldable pub merge : Dict (List B) → List B
  unfolding sort_bars first_of_time values
  merge results = sort_bars (first_of_time (flatten (values results)) [])

  -- `fetch_chunked`: none is `ValueError` or `ParallelFetchError`. `completes` puts the
  -- chunk jobs into the order in which the pool completes them: `as_completed` gives each submitted job
  -- once, so it is only used where it permutes them.
  unfoldable pub fetch_chunked :
      (List FetchJob → List FetchJob) → String → String → ℕ → ℕ → ℕ → String → Option (List B)
  unfolding merge fetch_many chunk_jobs
  fetch_chunked completes symbol timeframe start stop size exchange =
      if leb stop start
      then none
      else Option.map merge
          (fetch_many (completes (chunk_jobs symbol timeframe exchange start stop size)))
