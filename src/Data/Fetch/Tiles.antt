-- ===== src/Data/Fetch/Tiles.antt =====
-- The chunks of `fetch_chunked` (openpine/data/parallel_fetcher.py).
use openpine.Data.Fetch.{chunk_bounds}
use openpine.Base.{
  refl, [], ◌∷◌, zero, inr, min, inl, ltb, Bool-cases, suc, ◌-◌, arith, ◌≤◌, ◌≡◌, ◌<◌, List, ℕ, ◌+◌,
}

-- The bounds follow one another from `start` to `stop`; none is empty or longer than `size`.
abbrev pub Tiles : ℕ → ℕ → ℕ → List (ℕ × ℕ) → Type 0
Tiles size start stop [] = start ≡ stop
Tiles size start stop ((a, b) ∷ bounds) =
    (a ≡ start) × (a < b) × (b ≤ a + size) × Tiles size b stop bounds

chunk_bounds-Tiles_fuel :
    (fuel start stop size : ℕ)
    → 0 < size
    → start ≤ stop
    → stop ≤ start + fuel
    → Tiles size start stop (chunk_bounds fuel start stop size)
unfolding chunk_bounds
chunk_bounds-Tiles_fuel zero start stop size p h f = omega arith
chunk_bounds-Tiles_fuel (suc fuel) start stop size p h f = elim (Bool-cases (ltb start stop)) [
  | inl e ↦ rw e (
    refl,
    ground arith,
    omega arith,
    chunk_bounds-Tiles_fuel fuel (min (start + size) stop) stop size p (omega arith) (ground arith),
  )
  | inr e ↦ rw e (ground arith)
]

-- For any positive chunk size, the loop of `fetch_chunked` ends, and its chunks cover the window from
-- `start` to `stop` exactly: each starts where the one before ends, and none is empty or longer than
-- the chunk size.
pub chunk_bounds-Tiles :
    (start stop size : ℕ)
    → 0 < size
    → start ≤ stop
    → Tiles size start stop (chunk_bounds (stop - start) start stop size)
chunk_bounds-Tiles start stop size p h =
    chunk_bounds-Tiles_fuel (stop - start) start stop size p h (omega arith)
