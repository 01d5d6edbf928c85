-- ===== src/State/Laws/Rebuilding.antt =====
-- Where a rebuild starts (openpine/recovery/rebuild.py). Since a strategy has at most one active
-- snapshot, the snapshot that passes the check of the candidates is the one that is loaded.
use openpine.State.Laws.Settled.{reload_if_changed-IsSettledStore, IsSettledStore}
use openpine.Base.Lists.{is_empty, keep}
use openpine.State.Rebuild.{
  rebuild_from, inconsistent, RebuildError, ReplayBar, rebuild, is_candidate,
}
use openpine.State.Store.{StateError, is_active, newest, no_filters, latest_in, is_compatible}
use openpine.State.Index.{
  snapshots_of, unreadable, readable, path_signature, same_stamp, StateStore, IndexFile,
  load_metadata_index, reload_if_changed, load_index_file,
}
use openpine.State.Snapshots.{list_snapshots, load_file, load_snapshot, sort_saved, insert_saved}
use openpine.State.Laws.Counts.{actives}
use openpine.State.Model.{StrategyState, Codec, SnapshotMetadata}
use openpine.Base.{
  if◌then◌else◌, sym, ap, false, none, inr, refl, ◌⊎◌, ◌∙◌, ltb, inl, ◌∷◌, not, [], arith,
  Bool-cases, ◌≤◌, some, true, ◌≡◌, Bool, Option, List, ℕ, String,
}

if_not {ℓ} : {A : Type ℓ} (b : Bool) (x y : A) → (if not b then x else y) ≡ (if b then y else x)
if_not true x y = refl
if_not false x y = refl

is_compatible-no_filters : (m : SnapshotMetadata) → is_compatible no_filters m ≡ is_active m.status
is_compatible-no_filters m = ground arith

-- without active snapshots nothing is found
none_active :
    (from : ℕ) (metas : List SnapshotMetadata)
    → actives metas ≡ 0
    → (keep (is_compatible no_filters) metas ≡ []) × (keep (is_candidate from) metas ≡ [])
unfolding actives
none_active from [] h = (refl, refl)
none_active from (m ∷ metas) h = elim (Bool-cases (is_active m.status)) [
  | inl live ↦ absurd (ground (arith, h, live))
  | inr dead ↦
      let ih = none_active from metas (ground (arith, h, dead)) in
      (ground (arith, dead, ih.0), ground (arith, dead, ih.1))
]

-- whether there are candidates, by the newest active snapshot alone
abbrev no_candidate : ℕ → Option SnapshotMetadata → Bool
no_candidate from none = true
no_candidate from (some m) = not (ltb m.bar_time from)

is_empty-candidates :
    (from : ℕ) (metas : List SnapshotMetadata)
    → actives metas ≤ 1
    → is_empty (keep (is_candidate from) metas) ≡ no_candidate from (latest_in metas no_filters)
unfolding actives latest_in newest
is_empty-candidates from [] h = refl
is_empty-candidates from (m ∷ metas) h = elim (Bool-cases (is_active m.status)) [
  | inl live ↦
      let (a, b) = none_active from metas (ground (arith, h, live)) in ground (arith, live, a, b)
  | inr dead ↦ ground (arith, dead, is_empty-candidates from metas (ground (arith, h, dead)))
]

is_empty-insert_saved :
    (p : SnapshotMetadata → Bool) (m : SnapshotMetadata) (metas : List SnapshotMetadata)
    → is_empty (keep p (insert_saved m metas)) ≡ is_empty (keep p (m ∷ metas))
unfolding insert_saved
is_empty-insert_saved p m [] = refl
is_empty-insert_saved p m (x ∷ metas) = ground (arith, is_empty-insert_saved p m metas)

is_empty-sort_saved :
    (p : SnapshotMetadata → Bool) (metas : List SnapshotMetadata)
    → is_empty (keep p (sort_saved metas)) ≡ is_empty (keep p metas)
unfolding sort_saved
is_empty-sort_saved p [] = refl
is_empty-sort_saved p (m ∷ metas) =
    is_empty-insert_saved p m (sort_saved metas) ∙ ground (arith, is_empty-sort_saved p metas)

module _ {P : Type 0} where
  load_index_file-same :
      (file : Option IndexFile) (s : StateStore P)
      → s.disk.index ≡ file
      → same_stamp
            (path_signature (load_index_file file true s).disk)
            (load_index_file file true s).index_signature
          ≡ true
        ⊎ (load_index_file file true s ≡ s)
  unfolding load_index_file
  load_index_file-same none s e = inl (ground (arith, e))
  load_index_file-same (some unreadable) s e = inr refl
  load_index_file-same (some (readable metas)) s e = inl (ground (arith, e))

  pub reload_unchanged :
      (s : StateStore P)
      → same_stamp (path_signature s.disk) s.index_signature ≡ true
      → reload_if_changed s ≡ s
  unfolding reload_if_changed
  reload_unchanged s same = rw (reload_if_changed, same) refl

  reload_changed :
      (s : StateStore P)
      → same_stamp (path_signature s.disk) s.index_signature ≡ false
      → reload_if_changed s ≡ load_metadata_index true s
  unfolding reload_if_changed
  reload_changed s differs = rw (reload_if_changed, differs) refl

  load_metadata_index-same :
      (s : StateStore P)
      → let s' = load_metadata_index true s in
        (same_stamp (path_signature s'.disk) s'.index_signature ≡ true) ⊎ (s' ≡ s)
  unfolding load_metadata_index
  load_metadata_index-same s = load_index_file-same s.disk.index s refl

  pub reload_if_changed-again :
      (s : StateStore P) → reload_if_changed (reload_if_changed s) ≡ reload_if_changed s
  reload_if_changed-again s =
      elim (Bool-cases (same_stamp (path_signature s.disk) s.index_signature)) [
        | inl same ↦ ap reload_if_changed (reload_unchanged s same)
        | inr differs ↦
            let e = reload_changed s differs in
            elim (load_metadata_index-same s) [
              | inl same ↦
                  ap reload_if_changed e
                  ∙ reload_unchanged (load_metadata_index true s) same
                  ∙ sym e
              | inr unread ↦ ap reload_if_changed (e ∙ unread)
            ]
      ]

module _ {V P : Type 0} (codec : Codec V P) where
  -- what is loaded from a store that is up to date
  abbrev pub load_from :
      String → StateStore P → (StateError ⊎ Option (StrategyState V)) × StateStore P
  load_from strategy_id s = elim (latest_in (snapshots_of s strategy_id) no_filters) [
    | none ↦ (inr none, s)
    | some m ↦ (load_file codec (s.disk.files m.strategy_id m.snapshot_id) m, s)
  ]

  pub load_snapshot-load_from :
      (strategy_id : String) (s : StateStore P)
      → load_snapshot codec strategy_id s ≡ load_from strategy_id (reload_if_changed s)
  unfolding load_snapshot
  load_snapshot-load_from strategy_id s = refl

module _ {V B P : Type 0} (codec : Codec V P) where
  -- `rebuild` in one step: it goes on from the newest active snapshot
  abbrev pub rebuild_by :
      Option SnapshotMetadata
      → ℕ
      → String
      → Option (StrategyState V → B → StrategyState V)
      → (StrategyState V → List (ReplayBar B))
      → String
      → ℕ
      → StateStore P
      → (RebuildError ⊎ StrategyState V) × StateStore P
  rebuild_by none from reason engine bars id now s = (inl inconsistent, s)
  rebuild_by (some m) from reason engine bars id now s =
      if ltb m.bar_time from
      then rebuild_from codec (load_file codec (s.disk.files m.strategy_id m.snapshot_id) m) engine
          bars reason id now s
      else (inl inconsistent, s)

  -- On a store with at most one active snapshot for each strategy, rebuild goes on from the strategy's
  -- newest active snapshot if that lies before the repaired range, and otherwise fails, whatever
  -- superseded snapshots there are before the range.
  pub rebuild-newest :
      (strategy_id : String) (from : ℕ) (reason : String)
      (engine : Option (StrategyState V → B → StrategyState V))
      (bars : StrategyState V → List (ReplayBar B)) (id : String) (now : ℕ) (s : StateStore P)
      → IsSettledStore s
      → rebuild codec strategy_id from reason engine bars id now s
        ≡ rebuild_by
            (latest_in (snapshots_of (reload_if_changed s) strategy_id) no_filters)
            from
            reason
            engine
            bars
            id
            now
            (reload_if_changed s)
  unfolding rebuild list_snapshots
  rebuild-newest strategy_id from reason engine bars id now s h =
      let s' = reload_if_changed s in
      let one = (reload_if_changed-IsSettledStore s h).registry.one strategy_id in
      let check =
        is_empty-sort_saved (is_candidate from) (snapshots_of s' strategy_id)
        ∙ is_empty-candidates from (snapshots_of s' strategy_id) one in
      let loaded =
        load_snapshot-load_from codec strategy_id s'
        ∙ ap (load_from codec strategy_id) (reload_if_changed-again s) in
      ap (λ b. outcome b (load_snapshot codec strategy_id s')) check
      ∙ ap (outcome (no_candidate from (latest_in (snapshots_of s' strategy_id) no_filters))) loaded
      ∙ settle (latest_in (snapshots_of s' strategy_id) no_filters)
    where
      outcome :
          Bool
          → (StateError ⊎ Option (StrategyState V)) × StateStore P
          → (RebuildError ⊎ StrategyState V) × StateStore P
      outcome b (loaded, s₂) =
          if b
          then (inl inconsistent, reload_if_changed s)
          else rebuild_from codec loaded engine bars reason id now s₂

      settle :
          (o : Option SnapshotMetadata)
          → outcome (no_candidate from o) (elim o [
            | none ↦ (inr none, reload_if_changed s)
            | some m ↦ (
              load_file codec ((reload_if_changed s).disk.files m.strategy_id m.snapshot_id) m,
              reload_if_changed s,
            )
          ])
            ≡ rebuild_by o from reason engine bars id now (reload_if_changed s)
      settle none = refl
      settle (some m) = if_not (ltb m.bar_time from) _ _
