-- ===== src/State/Laws/Delete.antt =====
-- Deleting a snapshot keeps the registry settled (openpine/state/store.py).
use openpine.State.Store.{remove_file}
use openpine.State.Index.{load_metadata_index, StateStore}
use openpine.State.Laws.Settled.{
  persist_metadata_index-IsSettledStore, load_metadata_index-IsSettledStore, IsSettledStore,
  IsSettled,
}
use openpine.State.Laws.Registry.{IsKeyed}
use openpine.Base.Dict.{listed, get, Dict}
use openpine.Base.Lists.{All}
use openpine.State.Laws.Counts.{actives-append, actives}
use openpine.State.Snapshots.{delete_snapshot, pop_from, pop_snapshot}
use openpine.State.Model.{SnapshotMetadata}
use openpine.Base.{
  false, true, none, Option-cases, Bool, some-eq-some, subst, inr, inl, ◌==◌, [], Bool-cases, some,
  arith, ◌≤◌, ◌≡◌, ◌∷◌, List, String,
}

-- what a list becomes when an entry is taken out
record IsPart (xs ys : List SnapshotMetadata) : Type 0 where
  fewer : actives xs ≤ actives ys
  own : (k : String) → All (λ m. m.strategy_id ≡ k) ys → All (λ m. m.strategy_id ≡ k) xs

tail-IsPart : (m : SnapshotMetadata) (metas : List SnapshotMetadata) → IsPart metas (m ∷ metas)
tail-IsPart m metas = record {
  fewer = omega (arith, actives-append (m ∷ []) metas);
  own = λ k h. h.1;
}

cons-IsPart :
    (m : SnapshotMetadata) (xs ys : List SnapshotMetadata) → IsPart xs ys → IsPart (m ∷ xs) (m ∷ ys)
cons-IsPart m xs ys h = record {
  fewer = omega (arith, actives-append (m ∷ []) xs, actives-append (m ∷ []) ys, h.fewer);
  own = λ k g. (g.0, h.own k g.1);
}

pop_snapshot-IsPart :
    (id : String) (metas ms : List SnapshotMetadata)
    → pop_snapshot id metas ≡ some ms
    → IsPart ms metas
unfolding pop_snapshot
pop_snapshot-IsPart id [] ms h = absurd (ground (arith, h))
pop_snapshot-IsPart id (m ∷ metas) ms h = elim (Bool-cases (m.snapshot_id == id)) [
  | inl here ↦
      subst (λ xs. IsPart xs (m ∷ metas)) (some-eq-some (rw (pop_snapshot, here) at h))
        (tail-IsPart m metas)
  | inr later ↦ elim (Option-cases (pop_snapshot id metas)) [
    | inl missing ↦ absurd (ground (arith, rw (pop_snapshot, later, missing) at h))
    | inr (rest, found) ↦
        subst (λ xs. IsPart xs (m ∷ metas)) (some-eq-some (rw (pop_snapshot, later, found) at h))
          (cons-IsPart m rest metas (pop_snapshot-IsPart id metas rest found))
  ]
]

-- and what a registry becomes
record IsPartOf (after before : Dict (List SnapshotMetadata)) : Type 0 where
  keyed : IsKeyed before → IsKeyed after
  fewer : (k : String) → actives (listed (get after k)) ≤ actives (listed (get before k))
  absent : (k : String) → get before k ≡ none → get after k ≡ none

head-IsPartOf :
    (j : String) (xs ys : List SnapshotMetadata) (registry : Dict (List SnapshotMetadata))
    → IsPart xs ys
    → IsPartOf ((j, xs) ∷ registry) ((j, ys) ∷ registry)
unfolding get
head-IsPartOf j xs ys registry h = record {
  keyed = λ g. (h.own j g.0, g.1, g.2);
  fewer = λ k. fewer (j == k) k;
  absent = λ k g. ground (arith, g);
}
  where
    fewer :
        (b : Bool) (k : String)
        → actives (listed (elim b [ true ↦ some xs | false ↦ get registry k ]))
          ≤ actives (listed (elim b [ true ↦ some ys | false ↦ get registry k ]))
    fewer true k = h.fewer
    fewer false k = omega arith

tail-IsPartOf :
    (j : String) (metas : List SnapshotMetadata) (after before : Dict (List SnapshotMetadata))
    → IsPartOf after before
    → IsPartOf ((j, metas) ∷ after) ((j, metas) ∷ before)
unfolding get
tail-IsPartOf j metas after before h = record {
  keyed = λ g. (g.0, h.absent j g.1, h.keyed g.2);
  fewer = λ k. fewer (j == k) k;
  absent = λ k g. ground (arith, g, h.absent k);
}
  where
    fewer :
        (b : Bool) (k : String)
        → actives (listed (elim b [ true ↦ some metas | false ↦ get after k ]))
          ≤ actives (listed (elim b [ true ↦ some metas | false ↦ get before k ]))
    fewer true k = omega arith
    fewer false k = h.fewer k

pop_from-IsPartOf :
    (id : String) (registry : Dict (List SnapshotMetadata)) (k : String)
    (after : Dict (List SnapshotMetadata))
    → pop_from id registry ≡ some (k, after)
    → IsPartOf after registry
unfolding pop_from
pop_from-IsPartOf id [] k after h = absurd (ground (arith, h))
pop_from-IsPartOf id ((j, metas) ∷ registry) k after h =
    elim (Option-cases (pop_snapshot id metas)) [
      | inr (ms, found) ↦
          subst (λ x. IsPartOf x.1 ((j, metas) ∷ registry))
            (some-eq-some (rw (pop_from, found) at h))
            (head-IsPartOf j ms metas registry (pop_snapshot-IsPart id metas ms found))
      | inl absent ↦ elim (Option-cases (pop_from id registry)) [
        | inl missing ↦ absurd (ground (arith, rw (pop_from, absent, missing) at h))
        | inr ((j', rest), found) ↦
            subst (λ x. IsPartOf x.1 ((j, metas) ∷ registry))
              (some-eq-some (rw (pop_from, absent, found) at h))
              (tail-IsPartOf j metas rest registry (pop_from-IsPartOf id registry j' rest found))
      ]
    ]

pop_from-IsSettled :
    (id : String) (registry : Dict (List SnapshotMetadata)) (k : String)
    (after : Dict (List SnapshotMetadata))
    → pop_from id registry ≡ some (k, after)
    → IsSettled registry
    → IsSettled after
pop_from-IsSettled id registry k after h settled =
    let part = pop_from-IsPartOf id registry k after h in
    record {
      keyed = part.keyed settled.keyed;
      one = λ j. omega (arith, part.fewer j, settled.one j);
    }

pub delete_snapshot-IsSettledStore :
    {P : Type 0} (id : String) (s : StateStore P)
    → IsSettledStore s
    → IsSettledStore (delete_snapshot id s).1
unfolding delete_snapshot
delete_snapshot-IsSettledStore id s h =
    let s' = load_metadata_index true s in
    let r = load_metadata_index-IsSettledStore true s h in
    elim (Option-cases (pop_from id s'.snapshots)) [
      | inl missing ↦ rw (delete_snapshot, missing) r
      | inr ((k, registry), found) ↦
          rw (delete_snapshot, found)
            (persist_metadata_index-IsSettledStore
              (record s' { snapshots = registry; disk = remove_file k id s'.disk })
              (pop_from-IsSettled id s'.snapshots k registry found r.registry))
    ]
