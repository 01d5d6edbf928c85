-- ===== src/State/Laws/Saving.antt =====
-- What a load gives after a save (openpine/state/store.py).
use openpine.State.Laws.Counts.{All-pruned, pruned}
use openpine.Base.Lists.{take, keep-append, keep, All}
use openpine.State.Model.{SnapshotMetadata}
use openpine.State.Store.{
  no_filters, supersede, is_compatible, newest, is_active, older, latest_in, Filters, insert_newest,
  sort_newest,
}
use mathlib.Core.List.{reverse-cons, reverse}
use openpine.Base.{
  zero, refl, suc, some, arith, ◌∙◌, ◌++◌, ap, ◌∷◌, none, [], false, true, map, ◌≡◌, ◌<◌, Bool, ℕ,
  List,
}

-- older or newer than each other snapshot
pub sort_newest-last :
    (m : SnapshotMetadata) (xs : List SnapshotMetadata)
    → All (λ x. older x m ≡ true) xs
    → sort_newest (xs ++ m ∷ []) ≡ m ∷ sort_newest xs
unfolding sort_newest insert_newest
sort_newest-last m [] h = refl
sort_newest-last m (x ∷ xs) h =
    ap (insert_newest x) (sort_newest-last m xs h.1) ∙ rw (insert_newest, h.0) refl

insert_newest-end :
    (x m : SnapshotMetadata) (xs : List SnapshotMetadata)
    → older x m ≡ false
    → insert_newest x (xs ++ m ∷ []) ≡ insert_newest x xs ++ m ∷ []
unfolding insert_newest
insert_newest-end x m [] h = rw (insert_newest, h) refl
insert_newest-end x m (y ∷ xs) h = ground (arith, insert_newest-end x m xs h)

pub sort_newest-first :
    (m : SnapshotMetadata) (xs : List SnapshotMetadata)
    → All (λ x. older x m ≡ false) xs
    → sort_newest (xs ++ m ∷ []) ≡ sort_newest xs ++ m ∷ []
unfolding sort_newest insert_newest
sort_newest-first m [] h = refl
sort_newest-first m (x ∷ xs) h =
    ap (insert_newest x) (sort_newest-first m xs h.1) ∙ insert_newest-end x m (sort_newest xs) h.0

abbrev pub IsInactive : SnapshotMetadata → Type 0
IsInactive m = is_active m.status ≡ false

keep-inactive :
    (f : Filters) (xs : List SnapshotMetadata) → All IsInactive xs → keep (is_compatible f) xs ≡ []
keep-inactive f [] h = refl
keep-inactive f (x ∷ xs) h = ground (arith, h.0, keep-inactive f xs h.1)

pub supersede-IsInactive : (xs : List SnapshotMetadata) → All IsInactive (map supersede xs)
supersede-IsInactive [] = tt
supersede-IsInactive (x ∷ xs) = (ground arith, supersede-IsInactive xs)

-- `supersede` changes neither time nor id
pub map-supersede-older :
    (m : SnapshotMetadata) (b : Bool) (xs : List SnapshotMetadata)
    → All (λ x. older x m ≡ b) xs
    → All (λ x. older x m ≡ b) (map supersede xs)
map-supersede-older m b [] h = tt
map-supersede-older m b (x ∷ xs) h = (same x ∙ h.0, map-supersede-older m b xs h.1)
  where
    same : (x : SnapshotMetadata) → older (supersede x) m ≡ older x m
    same x = ground arith

keep_single :
    (f : Filters) (m : SnapshotMetadata)
    → is_compatible f m ≡ true
    → keep (is_compatible f) (m ∷ []) ≡ m ∷ []
keep_single f m fits = rw (keep, fits) refl

-- the last active snapshot of a list whose others are not
latest_in-last :
    (f : Filters) (m : SnapshotMetadata) (xs : List SnapshotMetadata)
    → All IsInactive xs
    → is_compatible f m ≡ true
    → latest_in (xs ++ m ∷ []) f ≡ some m
unfolding latest_in newest
latest_in-last f m xs h fits =
    ap newest (
      keep-append (is_compatible f) xs (m ∷ [])
      ∙ ap (λ ys. ys ++ keep (is_compatible f) (m ∷ [])) (keep-inactive f xs h))
    ∙ ap newest (keep_single f m fits)

pub latest_in-none :
    (f : Filters) (xs : List SnapshotMetadata) → All IsInactive xs → latest_in xs f ≡ none
unfolding latest_in newest
latest_in-none f xs h = ap newest (keep-inactive f xs h)

-- a list of inactive snapshots, pruned, has only such
pub pruned-IsInactive :
    (n : ℕ) (xs : List SnapshotMetadata) → All IsInactive xs → All IsInactive (pruned n xs)
pruned-IsInactive n xs h = All-pruned IsInactive n xs h

pub latest_in-pruned :
    (m : SnapshotMetadata) (n : ℕ) (xs : List SnapshotMetadata)
    → 0 < n
    → is_active m.status ≡ true
    → All (λ x. older x m ≡ true) xs
    → latest_in (pruned n (map supersede xs ++ m ∷ [])) no_filters ≡ some m
latest_in-pruned m zero xs pos live h = absurd (omega arith)
latest_in-pruned m (suc n) xs pos live h =
    ap (λ ys. latest_in (reverse (take (suc n) ys)) no_filters)
      (sort_newest-last m (map supersede xs) (map-supersede-older m true xs h))
    ∙ ap (λ ys. latest_in ys no_filters) (reverse-cons m (take n (sort_newest (map supersede xs))))
    ∙ latest_in-last no_filters m (pruned n (map supersede xs))
        (pruned-IsInactive n (map supersede xs) (supersede-IsInactive xs)) (ground (arith, live))
