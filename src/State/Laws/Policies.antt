-- ===== src/State/Laws/Policies.antt =====
-- When a state is saved (openpine/state/store.py, openpine/state/policy.py), and what becomes of an
-- invalidation (openpine/recovery/rebuild.py).
use openpine.State.Laws.Settled.{reload_if_changed-disk}
use openpine.State.Store.{invalidated}
use openpine.State.Rebuild.{invalidate}
use openpine.Base.Dict.{put, get, Dict}
use openpine.State.Index.{
  path_signature, same_stamp, reload_if_changed, locked, load_metadata_index, readable, StateStore,
  load_index_file,
}
use openpine.State.Model.{SnapshotMetadata}
use openpine.Base.{
  map, sym, ap, ◌∙◌, none, false, refl, true, if◌then◌else◌, some, ◌≡◌, Option, Bool, ℕ, List,
  String,
}

module _ {P : Type 0} where
  load_metadata_index-forgets :
      (metas : List SnapshotMetadata) (registry : Dict (List SnapshotMetadata)) (s : StateStore P)
      → s.disk.index ≡ some (readable metas)
      → load_metadata_index true (record s { snapshots = registry }) ≡ load_metadata_index true s
  unfolding load_metadata_index load_index_file
  load_metadata_index-forgets metas registry s h =
      ap (λ i. load_index_file i true (record s { snapshots = registry })) h
      ∙ sym (ap (λ i. load_index_file i true s) h)

  load_metadata_index-twice :
      (metas : List SnapshotMetadata) (s : StateStore P)
      → s.disk.index ≡ some (readable metas)
      → load_metadata_index true (load_metadata_index true s) ≡ load_metadata_index true s
  unfolding load_metadata_index load_index_file
  load_metadata_index-twice metas s h =
      ap (load_metadata_index true) first
      ∙ ap (λ i. load_index_file i true (load_index_file (some (readable metas)) true s)) h
      ∙ sym first
    where
      first : load_metadata_index true s ≡ load_index_file (some (readable metas)) true s
      first = ap (λ i. load_index_file i true s) h

  load-invalidate :
      (strategy_id : String) (since : Option ℕ) (metas : List SnapshotMetadata) (s : StateStore P)
      → s.disk.index ≡ some (readable metas)
      → load_metadata_index true (invalidate strategy_id since s) ≡ load_metadata_index true s
  unfolding invalidate reload_if_changed
  load-invalidate strategy_id since metas s h =
      forgotten (get s'.snapshots strategy_id)
      ∙ reloaded (same_stamp (path_signature s.disk) s.index_signature)
    where
      s' : StateStore P
      s' = reload_if_changed s

      forgotten :
          (found : Option (List SnapshotMetadata))
          → load_metadata_index true (elim found [
            | none ↦ s'
            | some ms ↦ record s' {
              snapshots = put s'.snapshots strategy_id (map (invalidated since) ms);
            }
          ])
            ≡ load_metadata_index true s'
      forgotten none = refl
      forgotten (some ms) =
          load_metadata_index-forgets metas _ s' (ap (λ d. d.index) (reload_if_changed-disk s) ∙ h)

      reloaded :
          (b : Bool)
          → load_metadata_index true (if b then s else load_metadata_index true s)
            ≡ load_metadata_index true s
      reloaded true = refl
      reloaded false = load_metadata_index-twice metas s h

  -- If the index file is readable, every change that is made under the lock after an invalidation by
  -- StateRebuilder.invalidate, by the same store, has the outcome that it has without the invalidation.
  pub locked-invalidate :
      (body : StateStore P → StateStore P) (strategy_id : String) (since : Option ℕ)
      (metas : List SnapshotMetadata) (s : StateStore P)
      → s.disk.index ≡ some (readable metas)
      → locked body (invalidate strategy_id since s) ≡ locked body s
  unfolding locked
  locked-invalidate body strategy_id since metas s h =
      ap body (load-invalidate strategy_id since metas s h)
