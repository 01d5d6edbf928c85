-- ===== src/State/Store.antt =====
-- The methods of `StateStore` (openpine/state/store.py). Times and new ids are arguments.
use openpine.Base.Lists.{drop, take, keep}
use openpine.Base.Dict.{get, put}
use openpine.State.Index.{
  snapshots_of, StateStore, locked, reload_if_changed, persist_metadata_index, Disk,
}
use openpine.State.Model.{active, invalid, superseded, SnapshotMetadata, SnapshotStatus}
use mathlib.Core.List.{reverse}
use openpine.Base.{
  ◌++◌, eqb, map, leb, ◌||◌, false, [], ◌∷◌, ◌==◌, ◌&&◌, some, ltb, true, if◌then◌else◌, ℕ, ◌∷◌,
  Bool, none, Option, List, String,
}

pub data StateError : Type 0 where
  invalid_snapshot snapshot_not_found path_escapes : StateError

abbrev pub is_active : SnapshotStatus → Bool
is_active active = true
is_active _ = false

-- (s.bar_time, s.saved_at) < (t.bar_time, t.saved_at)
abbrev pub older : SnapshotMetadata → SnapshotMetadata → Bool
older s t = ltb s.bar_time t.bar_time || eqb s.bar_time t.bar_time && ltb s.saved_at t.saved_at

-- `sorted(…, key=(bar_time, saved_at), reverse=True)`, which is stable
unfoldable pub insert_newest : SnapshotMetadata → List SnapshotMetadata → List SnapshotMetadata
insert_newest m [] = m ∷ []
insert_newest m (x ∷ metas) =
    let rest = insert_newest m metas in if older m x then x ∷ rest else m ∷ x ∷ metas

unfoldable pub sort_newest : List SnapshotMetadata → List SnapshotMetadata
unfolding insert_newest
sort_newest [] = []
sort_newest (m ∷ metas) = insert_newest m (sort_newest metas)

-- `max(…, key=(bar_time, saved_at))`, which takes the first of equals
unfoldable pub newest : List SnapshotMetadata → Option SnapshotMetadata
newest [] = none
newest (m ∷ metas) =
    let rest : Option SnapshotMetadata = newest metas in
    elim rest [ none ↦ some m | some best ↦ some (if older m best then best else m) ]

-- the filters of `latest_snapshot_metadata`
pub record Filters : Type 0 where
  pub artifact_id : Option String
  pub params_hash : Option String
  pub instrument_key : Option String
  pub timeframe : Option String
  pub data_fingerprint : Option String
  pub at_or_before_bar_time : Option ℕ

abbrev pub no_filters : Filters
no_filters = record {
  artifact_id = none;
  params_hash = none;
  instrument_key = none;
  timeframe = none;
  data_fingerprint = none;
  at_or_before_bar_time = none;
}

-- `x is None or y == x`
abbrev pub agrees : Option String → String → Bool
agrees none y = true
agrees (some x) y = y == x

-- `data_fingerprint is None or s.data_fingerprint == data_fingerprint`
abbrev pub agrees_optional : Option String → Option String → Bool
agrees_optional none y = true
agrees_optional (some x) none = false
agrees_optional (some x) (some y) = y == x

abbrev pub not_after : Option ℕ → ℕ → Bool
not_after none time = true
not_after (some limit) time = leb time limit

abbrev pub is_compatible : Filters → SnapshotMetadata → Bool
is_compatible f s =
    is_active s.status
    && (agrees f.artifact_id s.artifact_id
        && (agrees f.params_hash s.params_hash
            && (agrees f.instrument_key s.instrument_key
                && (agrees f.timeframe s.timeframe
                    && (agrees_optional f.data_fingerprint s.data_fingerprint
                        && not_after f.at_or_before_bar_time s.bar_time)))))

-- `for prev in …: if prev.status == "active": prev.status = "superseded"`
abbrev pub supersede : SnapshotMetadata → SnapshotMetadata
supersede m = if is_active m.status then record m { status = superseded } else m

abbrev pub from_time : Option ℕ → ℕ → Bool
from_time none time = true
from_time (some since) time = leb since time

-- the body of the loop of `mark_invalid`
abbrev pub invalidated : Option ℕ → SnapshotMetadata → SnapshotMetadata
invalidated since m = if from_time since m.bar_time then record m { status = invalid } else m

-- `latest_snapshot_metadata`, after the index was reloaded
unfoldable pub latest_in : List SnapshotMetadata → Filters → Option SnapshotMetadata
unfolding newest
latest_in metas f = newest (keep (is_compatible f) metas)

module _ {P : Type 0} where
  -- `unlink(missing_ok=True)`
  abbrev pub remove_file : String → String → Disk P → Disk P
  remove_file strategy_id snapshot_id disk = record disk {
    files = λ s i. if s == strategy_id && i == snapshot_id then none else disk.files s i;
  }

  unfoldable pub remove_files : String → List SnapshotMetadata → Disk P → Disk P
  remove_files strategy_id [] disk = disk
  remove_files strategy_id (m ∷ metas) disk =
      remove_files strategy_id metas (remove_file strategy_id m.snapshot_id disk)

  -- `_prune_strategy_snapshots`
  unfoldable pub prune : String → StateStore P → StateStore P
  unfolding sort_newest remove_files put get
  prune strategy_id s =
      let sorted = sort_newest (snapshots_of s strategy_id) in
      record s {
        snapshots =
            put s.snapshots strategy_id (reverse (take s.max_snapshots_per_strategy sorted));
        disk = remove_files strategy_id (drop s.max_snapshots_per_strategy sorted) s.disk;
      }

  -- the body of `save_snapshot` under the lock
  unfoldable pub record_snapshot : SnapshotMetadata → StateStore P → StateStore P
  unfolding prune persist_metadata_index put get
  record_snapshot meta s =
      let s₁ = prune meta.strategy_id (record s {
        snapshots =
            put s.snapshots meta.strategy_id
              (map supersede (snapshots_of s meta.strategy_id) ++ meta ∷ []);
      }) in
      persist_metadata_index
        (record s₁ { bars_since_last_save = put s₁.bars_since_last_save meta.strategy_id 0 })

  unfoldable pub latest_snapshot_metadata :
      String → Filters → StateStore P → Option SnapshotMetadata × StateStore P
  unfolding reload_if_changed latest_in get
  latest_snapshot_metadata strategy_id f s =
      let s' = reload_if_changed s in (latest_in (snapshots_of s' strategy_id) f, s')

  -- `mark_invalid`
  unfoldable pub mark_invalid : String → Option ℕ → StateStore P → StateStore P
  unfolding locked persist_metadata_index get put
  mark_invalid strategy_id since = locked λ s.
      persist_metadata_index (elim (get s.snapshots strategy_id) [
        | none ↦ s
        | some metas ↦ record s {
          snapshots = put s.snapshots strategy_id (map (invalidated since) metas);
        }
      ])
