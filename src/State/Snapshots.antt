-- ===== src/State/Snapshots.antt =====
-- Saving, loading and deleting snapshots (openpine/state/store.py), over any codec. A method that raises
-- gives an error beside the store as it is then.
use openpine.State.Store.{
  path_escapes, remove_file, invalid_snapshot, snapshot_not_found, no_filters, record_snapshot,
  Filters, latest_snapshot_metadata, StateError,
}
use openpine.State.Index.{
  locked, snapshots_of, Disk, StateStore, load_metadata_index, persist_metadata_index,
  reload_if_changed,
}
use openpine.Base.Dict.{put, get, Dict}
use openpine.State.Model.{
  pickle, interval, msgpack, active, from_payload, snapshot_payload, StrategyState, Encoding,
  Payload, Codec, SavePolicy, SnapshotMetadata,
}
use openpine.Base.{
  is_truthy, ◌+◌, ◌&&◌, not, inr, inl, ◌==◌, ltb, [], ◌∷◌, false, max, ◌⊎◌, true, some,
  if◌then◌else◌, Bool, ℕ, none, ◌∷◌, Option, List, String,
}

-- `sorted(…, key=saved_at, reverse=True)`
unfoldable pub insert_saved : SnapshotMetadata → List SnapshotMetadata → List SnapshotMetadata
insert_saved m [] = m ∷ []
insert_saved m (x ∷ metas) =
    let rest = insert_saved m metas in if ltb m.saved_at x.saved_at then x ∷ rest else m ∷ x ∷ metas

unfoldable pub sort_saved : List SnapshotMetadata → List SnapshotMetadata
unfolding insert_saved
sort_saved [] = []
sort_saved (m ∷ metas) = insert_saved m (sort_saved metas)

-- the metadata of a list without the first of an id
unfoldable pub pop_snapshot : String → List SnapshotMetadata → Option (List SnapshotMetadata)
pop_snapshot id [] = none
pop_snapshot id (m ∷ metas) =
    let rest : Option (List SnapshotMetadata) = elim (pop_snapshot id metas) [
      | none ↦ none
      | some ms ↦ some (m ∷ ms)
    ] in
    if m.snapshot_id == id then some metas else rest

-- the two loops of `delete_snapshot`: the strategy that has the id, and the registry without it
unfoldable pub pop_from :
    String → Dict (List SnapshotMetadata) → Option (String × Dict (List SnapshotMetadata))
unfolding pop_snapshot
pop_from id [] = none
pop_from id ((strategy_id, metas) ∷ registry) =
    let later : Option (String × Dict (List SnapshotMetadata)) = elim (pop_from id registry) [
      | none ↦ none
      | some (k, d) ↦ some (k, (strategy_id, metas) ∷ d)
    ] in
    elim (pop_snapshot id metas) [
      | none ↦ later
      | some ms ↦ some (strategy_id, (strategy_id, ms) ∷ registry)
    ]

abbrev pub number_or_zero : Option ℕ → ℕ
number_or_zero none = 0
number_or_zero (some n) = n

abbrev pub is_interval : SavePolicy → Bool
is_interval interval = true
is_interval _ = false

module _ {P : Type 0} where
  unfoldable pub list_snapshots : String → StateStore P → List SnapshotMetadata × StateStore P
  unfolding reload_if_changed sort_saved get
  list_snapshots strategy_id s =
      let s' = reload_if_changed s in (sort_saved (snapshots_of s' strategy_id), s')

  -- the body of `delete_snapshot` under the lock
  unfoldable pub delete_in :
      String
      → Option (String × Dict (List SnapshotMetadata))
      → StateStore P
      → (StateError ⊎ (Unit {0})) × StateStore P
  unfolding persist_metadata_index
  delete_in id none s = (inl snapshot_not_found, s)
  delete_in id (some (strategy_id, registry)) s = (
    inr tt,
    persist_metadata_index
        (record s { snapshots = registry; disk = remove_file strategy_id id s.disk }),
  )

  unfoldable pub delete_snapshot : String → StateStore P → (StateError ⊎ (Unit {0})) × StateStore P
  unfolding load_metadata_index pop_from delete_in
  delete_snapshot id s =
      let s' = load_metadata_index true s in delete_in id (pop_from id s'.snapshots) s'

  unfoldable pub set_save_policy : SavePolicy → ℕ → StateStore P → StateStore P
  set_save_policy policy interval_bars s = record s {
    save_policy = policy;
    save_interval_bars = max 1 interval_bars;
  }

  unfoldable pub get_save_policy : StateStore P → SavePolicy × ℕ
  get_save_policy s = (s.save_policy, s.save_interval_bars)

  -- `__init__` on a directory
  unfoldable pub open_store : SavePolicy → ℕ → ℕ → Disk P → StateStore P
  unfolding load_metadata_index
  open_store policy interval_bars max_snapshots disk = load_metadata_index false (record {
    save_policy = policy;
    save_interval_bars = interval_bars;
    max_snapshots_per_strategy = max 1 max_snapshots;
    bars_since_last_save = [];
    snapshots = [];
    index_signature = none;
    disk = disk;
  })

module _ {V P : Type 0} (codec : Codec V P) where
  -- `_encode_payload`, its checksum aside
  unfoldable pub encode_payload : Payload V → Option (P × Encoding)
  encode_payload payload = elim (codec.pack payload) [
    | some packed ↦ some (packed, msgpack)
    | none ↦ if codec.pickle_enabled then some (codec.dump payload, pickle) else none
  ]

  -- `_decode_payload`
  unfoldable pub decode_payload : P → Encoding → Option (Payload V)
  decode_payload packed pickle = if codec.pickle_enabled then codec.load packed else none
  decode_payload packed msgpack = codec.unpack packed

  unfoldable pub snapshot_metadata :
      StrategyState V → String → Option String → String → ℕ → P → Encoding → SnapshotMetadata
  snapshot_metadata state reason data_fingerprint snapshot_id saved_at packed encoding = record {
    snapshot_id = snapshot_id;
    strategy_id = state.strategy_id;
    artifact_id = state.artifact_id;
    params_hash = state.params_hash;
    instrument_key = state.instrument_key;
    timeframe = state.timeframe;
    bar_time = state.bar_time;
    saved_at = saved_at;
    size_bytes = codec.size packed;
    status = active;
    reason = reason;
    data_fingerprint = data_fingerprint;
    state_encoding = encoding;
    checksum = some (codec.sha256 packed);
  }

  -- the temporary file is renamed to the snapshot's name
  abbrev pub write_file : String → String → P → Disk P → Disk P
  write_file strategy_id snapshot_id packed disk = record disk {
    files = λ s i. if s == strategy_id && i == snapshot_id then some packed else disk.files s i;
  }

  -- `save_snapshot` after the policy: encode, write the file, and record it under the lock
  unfoldable pub write_snapshot :
      StrategyState V
      → String
      → Option String
      → String
      → ℕ
      → StateStore P
      → (StateError ⊎ Option SnapshotMetadata) × StateStore P
  unfolding encode_payload snapshot_payload snapshot_metadata locked record_snapshot
  write_snapshot state reason data_fingerprint snapshot_id saved_at s =
      elim (encode_payload (snapshot_payload state data_fingerprint)) [
        | none ↦ (inl invalid_snapshot, s)
        | some (packed, encoding) ↦
            let meta =
              snapshot_metadata state reason data_fingerprint snapshot_id saved_at packed
                encoding in
            if codec.is_component state.strategy_id
            then (
              inr (some meta),
              locked (record_snapshot meta)
                  (record s { disk = write_file state.strategy_id snapshot_id packed s.disk }),
            )
            else (inl path_escapes, s)
      ]

  -- `save_snapshot`
  unfoldable pub save_snapshot :
      StrategyState V
      → String
      → Bool
      → Option String
      → String
      → ℕ
      → StateStore P
      → (StateError ⊎ Option SnapshotMetadata) × StateStore P
  unfolding write_snapshot get put
  save_snapshot state reason failed_bar data_fingerprint snapshot_id saved_at s =
      let bars_since = number_or_zero (get s.bars_since_last_save state.strategy_id) in
      if failed_bar
      then (inr none, s)
      else if is_interval s.save_policy && ltb bars_since s.save_interval_bars
      then (
        inr none,
        record s {
          bars_since_last_save = put s.bars_since_last_save state.strategy_id (bars_since + 1);
        },
      )
      else write_snapshot state reason data_fingerprint snapshot_id saved_at s

  -- `meta.checksum is not None and meta.checksum != computed`
  abbrev pub checksum_differs : Option String → String → Bool
  checksum_differs none computed = false
  checksum_differs (some c) computed = not (c == computed)

  -- the rest of `_load_state`, for a file with this checksum
  unfoldable pub checked_state : Option (Payload V) → String → StateError ⊎ Option (StrategyState V)
  unfolding from_payload
  checked_state none computed = inl invalid_snapshot
  checked_state (some payload) computed =
      if is_truthy payload.checksum && checksum_differs payload.checksum computed
      then inl invalid_snapshot
      else inr (some (from_payload payload))

  -- `_load_state`, from the file that is there
  unfoldable pub load_file : Option P → SnapshotMetadata → StateError ⊎ Option (StrategyState V)
  unfolding decode_payload checked_state
  load_file none meta = inr none
  load_file (some packed) meta =
      if checksum_differs meta.checksum (codec.sha256 packed)
      then inl invalid_snapshot
      else checked_state (decode_payload packed meta.state_encoding) (codec.sha256 packed)

  -- `load_latest_compatible`, and with no filters `load_snapshot`
  unfoldable pub load_latest_compatible :
      String → Filters → StateStore P → (StateError ⊎ Option (StrategyState V)) × StateStore P
  unfolding latest_snapshot_metadata load_file
  load_latest_compatible strategy_id f s =
      let (found, s') = latest_snapshot_metadata strategy_id f s in
      elim found [
        | none ↦ (inr none, s')
        | some meta ↦ (load_file (s'.disk.files meta.strategy_id meta.snapshot_id) meta, s')
      ]

  unfoldable pub load_snapshot :
      String → StateStore P → (StateError ⊎ Option (StrategyState V)) × StateStore P
  unfolding load_latest_compatible
  load_snapshot strategy_id = load_latest_compatible strategy_id no_filters
