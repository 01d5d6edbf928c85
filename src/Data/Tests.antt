-- ===== src/Data/Tests.antt =====
-- Runs and instances for openpine/data/parallel_fetcher.py. A bar is its open time here.
use openpine.Data.Fetch.Chunked.{fetch_chunked-one_chunk}
use openpine.Data.Fetch.Results.{fetch_many-last, last_fetched}
use openpine.Data.Fetch.Merge.{merge-IsAscending, has_time, IsAscending}
use openpine.Data.Fetch.Tiles.{chunk_bounds-Tiles, Tiles}
use openpine.Data.Fetch.{merge, chunk_job, fetch_many, fetch_chunked, chunk_bounds, FetchJob}
use mathlib.Core.List.Permᴰ
use mathlib.Core.List.{[], List, flatten}
use openpine.Base.{refl, none, [], arith, some, ◌∷◌, ◌≡◌, Option, List, ℕ, ◌+◌}
use openpine.Base.Dict.{Dict, get, values}

-- one bar at the start of a job and one in the next hour
abbrev fetch_two : FetchJob → Option (List ℕ)
fetch_two job = elim job.start_ms [ none ↦ none | some t ↦ some ((t + 3600000) ∷ t ∷ []) ]

abbrev in_order : List FetchJob → List FetchJob
in_order jobs = jobs

abbrev chunk : ℕ → ℕ → FetchJob
chunk start stop = chunk_job "BTCUSDT" "15m" "binance" start stop

chunk_bounds_5 : chunk_bounds 5 0 5 2 ≡ (0, 2) ∷ (2, 4) ∷ (4, 5) ∷ []
unfolding chunk_bounds
chunk_bounds_5 = refl

-- two chunks of a window of five, and only the bars of the second
two_chunks :
    fetch_chunked (λ t. t) fetch_two in_order "BTCUSDT" "15m" 0 5 3 "binance"
    ≡ some (3 ∷ 3600003 ∷ [])
unfolding fetch_chunked flatten
two_chunks = refl

chunk_bounds-Tiles_example : Tiles 3 0 10 (chunk_bounds 10 0 10 3)
chunk_bounds-Tiles_example = chunk_bounds-Tiles 0 10 3 (omega arith) (omega arith)

abbrev collected : Dict (List ℕ)
collected = ("BTCUSDT:15m", 3600003 ∷ 3 ∷ []) ∷ []

fetch_many-last_example :
    get collected "BTCUSDT:15m"
    ≡ last_fetched (λ t. t) fetch_two "BTCUSDT:15m" (chunk 0 3 ∷ chunk 3 5 ∷ []) none
unfolding fetch_many
fetch_many-last_example =
    fetch_many-last (λ t. t) fetch_two (chunk 0 3 ∷ chunk 3 5 ∷ []) collected "BTCUSDT:15m" refl

merge-IsAscending_example :
    IsAscending
      (λ t. t)
      fetch_two
      (merge (λ t. t) fetch_two (("a", 5 ∷ 3 ∷ []) ∷ ("b", 3 ∷ []) ∷ []))
    × ((t : ℕ)
        → has_time
            (λ t. t)
            fetch_two
            t
            (merge (λ t. t) fetch_two (("a", 5 ∷ 3 ∷ []) ∷ ("b", 3 ∷ []) ∷ []))
          ≡ has_time
              (λ t. t)
              fetch_two
              t
              (flatten (values (("a", 5 ∷ 3 ∷ []) ∷ ("b", 3 ∷ []) ∷ []))))
merge-IsAscending_example =
    merge-IsAscending (λ t. t) fetch_two (("a", 5 ∷ 3 ∷ []) ∷ ("b", 3 ∷ []) ∷ [])

fetch_chunked-one_chunk_example :
    has_time (λ t. t) fetch_two 0 (3 ∷ 3600003 ∷ [])
    ≡ has_time (λ t. t) fetch_two 0 (3600003 ∷ 3 ∷ [])
unfolding fetch_chunked
fetch_chunked-one_chunk_example =
    fetch_chunked-one_chunk (λ t. t) fetch_two in_order "BTCUSDT" "15m" 0 5 3 "binance"
      (chunk 0 3 ∷ []) (chunk 3 5) (3600003 ∷ 3 ∷ []) (3 ∷ 3600003 ∷ []) Permᴰ.refl refl refl
      two_chunks 0
