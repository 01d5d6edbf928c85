-- ===== src/Data/Fetch/Merge.antt =====
-- The merge of the fetched bars (openpine/data/parallel_fetcher.py).
use openpine.Base.Dict.{values, Dict}
use openpine.Base.Lists.{All-map, All}
use openpine.Data.Fetch.{Dict, seen, merge, first_of_time, sort_bars, insert_bar, FetchJob}
use mathlib.Core.List.{map, ◌∷◌, List, flatten}
use openpine.Base.{
  refl, ◌∙◌, inr, [], ◌∷◌, map, ◌||◌, arith, inl, false, ltb, ◌<◌, ◌≡◌, Bool-cases, ◌≢◌, Bool, List,
  Option, ℕ,
}

module _ {B : Type 0} (time : B → ℕ) (fetch : FetchJob → Option (List B)) where
  -- in the order of their times, no time twice
  abbrev pub IsAscending : List B → Type 0
  IsAscending [] = Unit
  IsAscending (b ∷ bs) = All (λ x. time b < time x) bs × IsAscending bs

  abbrev IsDistinct : List B → Type 0
  IsDistinct [] = Unit
  IsDistinct (b ∷ bs) = All (λ x. time b ≢ time x) bs × IsDistinct bs

  insert_bar-All :
      (P : B → Type 0) (b : B) (bs : List B) → P b → All P bs → All P (insert_bar time fetch b bs)
  unfolding insert_bar
  insert_bar-All P b [] p h = (p, tt)
  insert_bar-All P b (x ∷ xs) p h = elim (Bool-cases (ltb (time x) (time b))) [
    | inl e ↦ rw e (h.0, insert_bar-All P b xs p h.1)
    | inr e ↦ rw e (p, h)
  ]

  insert_bar-IsAscending :
      (b : B) (bs : List B)
      → All (λ x. time b ≢ time x) bs
      → IsAscending bs
      → IsAscending (insert_bar time fetch b bs)
  unfolding insert_bar
  insert_bar-IsAscending b [] n h = (tt, tt)
  insert_bar-IsAscending b (x ∷ xs) n h = elim (Bool-cases (ltb (time x) (time b))) [
    | inl e ↦ rw e (
      insert_bar-All (λ y. time x < time y) b xs (ground arith) h.0,
      insert_bar-IsAscending b xs n.1 h.1,
    )
    | inr e ↦
        let first : time b < time x = let d = n.0 in ground arith in
        rw e (
          (
            first,
            All-map (λ y. time x < time y) (λ y. time b < time y) xs (λ y l. omega arith) h.0,
          ),
          h,
        )
  ]

  sort_bars-All : (P : B → Type 0) (bs : List B) → All P bs → All P (sort_bars time fetch bs)
  unfolding sort_bars
  sort_bars-All P [] h = tt
  sort_bars-All P (b ∷ bs) h =
      insert_bar-All P b (sort_bars time fetch bs) h.0 (sort_bars-All P bs h.1)

  sort_bars-IsAscending : (bs : List B) → IsDistinct bs → IsAscending (sort_bars time fetch bs)
  unfolding sort_bars
  sort_bars-IsAscending [] h = tt
  sort_bars-IsAscending (b ∷ bs) h =
      insert_bar-IsAscending b (sort_bars time fetch bs)
        (sort_bars-All (λ x. time b ≢ time x) bs h.0) (sort_bars-IsAscending bs h.1)

  first_of_time-fresh :
      (bs : List B) (times : List ℕ)
      → All (λ x. seen time fetch (time x) times ≡ false) (first_of_time time fetch bs times)
  unfolding first_of_time
  first_of_time-fresh [] times = tt
  first_of_time-fresh (b ∷ bs) times = elim (Bool-cases (seen time fetch (time b) times)) [
    | inl e ↦ rw e (first_of_time-fresh bs times)
    | inr e ↦ rw e (
      e,
      All-map (λ x. seen time fetch (time x) (time b ∷ times) ≡ false)
          (λ x. seen time fetch (time x) times ≡ false)
          (first_of_time time fetch bs (time b ∷ times)) (λ x h. ground arith)
          (first_of_time-fresh bs (time b ∷ times)),
    )
  ]

  first_of_time-IsDistinct :
      (bs : List B) (times : List ℕ) → IsDistinct (first_of_time time fetch bs times)
  unfolding first_of_time
  first_of_time-IsDistinct [] times = tt
  first_of_time-IsDistinct (b ∷ bs) times = elim (Bool-cases (seen time fetch (time b) times)) [
    | inl e ↦ rw e (first_of_time-IsDistinct bs times)
    | inr e ↦ rw e (
      All-map (λ x. seen time fetch (time x) (time b ∷ times) ≡ false) (λ x. time b ≢ time x)
          (first_of_time time fetch bs (time b ∷ times)) (λ x h. ground arith)
          (first_of_time-fresh bs (time b ∷ times)),
      first_of_time-IsDistinct bs (time b ∷ times),
    )
  ]

  -- whether some bar of the list has this time
  abbrev pub has_time : ℕ → List B → Bool
  has_time t bs = seen time fetch t (map time bs)

  has_time-insert_bar :
      (t : ℕ) (b : B) (bs : List B) → has_time t (insert_bar time fetch b bs) ≡ has_time t (b ∷ bs)
  unfolding insert_bar
  has_time-insert_bar t b [] = refl
  has_time-insert_bar t b (x ∷ xs) = ground (arith, has_time-insert_bar t b xs)

  has_time-sort_bars : (t : ℕ) (bs : List B) → has_time t (sort_bars time fetch bs) ≡ has_time t bs
  unfolding sort_bars
  has_time-sort_bars t [] = refl
  has_time-sort_bars t (b ∷ bs) =
      ground (arith, has_time-insert_bar t b (sort_bars time fetch bs), has_time-sort_bars t bs)

  has_time-first_of_time :
      (t : ℕ) (bs : List B) (times : List ℕ)
      → (seen time fetch t times || has_time t (first_of_time time fetch bs times))
        ≡ (seen time fetch t times || has_time t bs)
  unfolding first_of_time
  has_time-first_of_time t [] times = refl
  has_time-first_of_time t (b ∷ bs) times =
      ground
        (arith, has_time-first_of_time t bs times, has_time-first_of_time t bs (time b ∷ times))

  -- The merged bars are in strictly ascending order of time, so no time occurs twice, and a time
  -- occurs among them exactly if it occurs among the results.
  pub merge-IsAscending :
      (results : Dict (List B))
      → IsAscending (merge time fetch results)
        × ((t : ℕ) → has_time t (merge time fetch results) ≡ has_time t (flatten (values results)))
  unfolding merge
  merge-IsAscending results =
      let bars = flatten (values results) in
      (
        sort_bars-IsAscending (first_of_time time fetch bars []) (first_of_time-IsDistinct bars []),
        λ t.
            has_time-sort_bars t (first_of_time time fetch bars [])
            ∙ has_time-first_of_time t bars [],
      )
