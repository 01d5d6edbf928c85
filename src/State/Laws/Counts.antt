-- ===== src/State/Laws/Counts.antt =====
-- How many snapshots of a list are active, and whose they are, under the operations of
-- openpine/state/store.py on lists.
use openpine.Base.Lists.{All-append, keep, All, take, length}
use openpine.State.Model.{SnapshotMetadata}
use openpine.State.Store.{older, is_active, invalidated, supersede, sort_newest, insert_newest}
use mathlib.Core.List.{reverse-cons, reverse}
use openpine.Base.{
  false, true, refl, sym, zero, subst, if◌then◌else◌, [], ◌∙◌, suc, arith, ◌∷◌, ◌+◌, ◌++◌, ◌≤◌,
  Bool, map, ◌≡◌, Option, ℕ, List,
}

unfoldable pub actives : List SnapshotMetadata → ℕ
actives metas = length (keep (λ m. is_active m.status) metas)

pub actives-append : (xs ys : List SnapshotMetadata) → actives (xs ++ ys) ≡ actives xs + actives ys
unfolding actives
actives-append [] ys = omega arith
actives-append (x ∷ xs) ys = ground (arith, actives-append xs ys)

pub actives-single : (m : SnapshotMetadata) → actives (m ∷ []) ≤ 1
unfolding actives
actives-single m = ground arith

actives-insert_newest :
    (m : SnapshotMetadata) (xs : List SnapshotMetadata)
    → actives (insert_newest m xs) ≡ actives (m ∷ xs)
unfolding actives insert_newest
actives-insert_newest m [] = refl
actives-insert_newest m (x ∷ xs) = ground (arith, actives-insert_newest m xs)

actives-sort_newest : (xs : List SnapshotMetadata) → actives (sort_newest xs) ≡ actives xs
unfolding actives sort_newest
actives-sort_newest [] = refl
actives-sort_newest (x ∷ xs) =
    actives-insert_newest x (sort_newest xs) ∙ ground (arith, actives-sort_newest xs)

actives-take : (n : ℕ) (xs : List SnapshotMetadata) → actives (take n xs) ≤ actives xs
unfolding actives
actives-take zero xs = omega arith
actives-take (suc n) [] = omega arith
actives-take (suc n) (x ∷ xs) = ground (arith, actives-take n xs)

actives-reverse : (xs : List SnapshotMetadata) → actives (reverse xs) ≡ actives xs
unfolding actives
actives-reverse [] = refl
actives-reverse (x ∷ xs) =
    ground (arith, actives-reverse xs, actives-append (reverse xs) (x ∷ []), reverse-cons x xs)

pub actives-supersede : (xs : List SnapshotMetadata) → actives (map supersede xs) ≡ 0
unfolding actives
actives-supersede [] = refl
actives-supersede (x ∷ xs) = ground (arith, actives-supersede xs)

pub actives-invalidated :
    (since : Option ℕ) (xs : List SnapshotMetadata)
    → actives (map (invalidated since) xs) ≤ actives xs
unfolding actives
actives-invalidated since [] = omega arith
actives-invalidated since (x ∷ xs) = ground (arith, actives-invalidated since xs)

pub actives-keep :
    (p : SnapshotMetadata → Bool) (xs : List SnapshotMetadata) → actives (keep p xs) ≤ actives xs
unfolding actives
actives-keep p [] = omega arith
actives-keep p (x ∷ xs) = ground (arith, actives-keep p xs)

pub actives-keep-keep :
    (p q : SnapshotMetadata → Bool) (xs : List SnapshotMetadata)
    → actives (keep p (keep q xs)) ≤ actives (keep p xs)
unfolding actives
actives-keep-keep p q [] = omega arith
actives-keep-keep p q (x ∷ xs) = ground (arith, actives-keep-keep p q xs)

-- what `prune` leaves of a list
abbrev pub pruned : ℕ → List SnapshotMetadata → List SnapshotMetadata
pruned n xs = reverse (take n (sort_newest xs))

pub actives-pruned : (n : ℕ) (xs : List SnapshotMetadata) → actives (pruned n xs) ≤ actives xs
actives-pruned n xs = omega (
  arith,
  actives-reverse (take n (sort_newest xs)),
  actives-take n (sort_newest xs),
  actives-sort_newest xs,
)

module _ (P : SnapshotMetadata → Type 0) where
  All-insert_newest :
      (m : SnapshotMetadata) (xs : List SnapshotMetadata)
      → P m
      → All P xs
      → All P (insert_newest m xs)
  unfolding insert_newest
  All-insert_newest m [] p h = (p, tt)
  All-insert_newest m (x ∷ xs) p h = cases (older m x) (All-insert_newest m xs p h.1)
    where
      cases :
          (b : Bool)
          → All P (insert_newest m xs)
          → All P (if b then x ∷ insert_newest m xs else m ∷ x ∷ xs)
      cases true rest = (h.0, rest)
      cases false rest = (p, h)

  pub All-sort_newest : (xs : List SnapshotMetadata) → All P xs → All P (sort_newest xs)
  unfolding sort_newest
  All-sort_newest [] h = tt
  All-sort_newest (x ∷ xs) h = All-insert_newest x (sort_newest xs) h.0 (All-sort_newest xs h.1)

  All-take : (n : ℕ) (xs : List SnapshotMetadata) → All P xs → All P (take n xs)
  All-take zero xs h = tt
  All-take (suc n) [] h = tt
  All-take (suc n) (x ∷ xs) h = (h.0, All-take n xs h.1)

  pub All-reverse : (xs : List SnapshotMetadata) → All P xs → All P (reverse xs)
  All-reverse [] h = tt
  All-reverse (x ∷ xs) h =
      subst (All P) (sym (reverse-cons x xs))
        (All-append P (reverse xs) (x ∷ []) (All-reverse xs h.1) (h.0, tt))

  pub All-pruned : (n : ℕ) (xs : List SnapshotMetadata) → All P xs → All P (pruned n xs)
  All-pruned n xs h =
      All-reverse (take n (sort_newest xs)) (All-take n (sort_newest xs) (All-sort_newest xs h))
