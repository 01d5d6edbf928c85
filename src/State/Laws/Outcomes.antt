-- ===== src/State/Laws/Outcomes.antt =====
-- What a save of a snapshot comes to (openpine/state/store.py).
use openpine.State.Laws.RoundTrip.{
  IsSaved, write_snapshot-IsSaved, record_snapshot-snapshots, load_metadata_index-max,
}
use mathlib.Core.List.{flatten, reverse}
use openpine.Base.Lists.{take, drop}
use openpine.Base.Dict.{listed, values, get-put_self}
use openpine.State.Laws.Settled.{load_metadata_index-disk}
use openpine.State.Store.{
  remove_files, sort_newest, supersede, record_snapshot, StateError, invalid_snapshot, path_escapes,
}
use openpine.Base.Dict.{put, get}
use openpine.State.Snapshots.{
  write_file, snapshot_metadata, encode_payload, write_snapshot, number_or_zero,
}
use openpine.State.Index.{snapshots_of, load_metadata_index, readable, StateStore}
use openpine.State.Model.{
  active, Encoding, snapshot_payload, SnapshotMetadata, StrategyState, Codec,
}
use openpine.Base.{
  inl, Option-cases, Bool-cases, ◌⊎◌, ◌+◌, ◌++◌, [], ◌∷◌, subst, map, sym, ap, ◌∙◌, none, inr,
  false, refl, true, if◌then◌else◌, some, ◌≡◌, Option, Bool, ℕ, List, String,
}

module _ {P : Type 0} (meta : SnapshotMetadata) (s : StateStore P) where
  record_snapshot-index :
      let t = record_snapshot meta s in
      t.disk.index ≡ some (readable (flatten (values t.snapshots)))
  unfolding record_snapshot
  record_snapshot-index = refl

  record_snapshot-counted :
      get (record_snapshot meta s).bars_since_last_save meta.strategy_id ≡ some 0
  unfolding record_snapshot
  record_snapshot-counted = get-put_self s.bars_since_last_save meta.strategy_id 0

  record_snapshot-files :
      (record_snapshot meta s).disk.files
      ≡ (remove_files meta.strategy_id
          (drop s.max_snapshots_per_strategy
            (sort_newest (map supersede (snapshots_of s meta.strategy_id) ++ meta ∷ [])))
          s.disk).files
  unfolding record_snapshot
  record_snapshot-files =
      let metas = map supersede (snapshots_of s meta.strategy_id) ++ meta ∷ [] in
      ap
        (λ o.
          (remove_files meta.strategy_id
            (drop s.max_snapshots_per_strategy (sort_newest (listed o))) s.disk).files)
        (get-put_self s.snapshots meta.strategy_id metas)

module _ {V P : Type 0} (codec : Codec V P) where
  -- the bar is only counted, unless it failed
  abbrev pub IsSkipped :
      StrategyState V
      → Bool
      → StateStore P
      → (StateError ⊎ Option SnapshotMetadata) × StateStore P
      → Type 0
  IsSkipped state failed_bar s r =
      let bars = number_or_zero (get s.bars_since_last_save state.strategy_id) in
      let counted = put s.bars_since_last_save state.strategy_id (bars + 1) in
      r ≡ (
        inr none,
        record s { bars_since_last_save = if failed_bar then s.bars_since_last_save else counted },
      )

  -- the payload is not encoded, or the strategy has no directory
  abbrev pub IsFailed :
      StrategyState V
      → Option String
      → StateStore P
      → (StateError ⊎ Option SnapshotMetadata) × StateStore P
      → Type 0
  IsFailed state fingerprint s r =
      (encode_payload codec (snapshot_payload state fingerprint) ≡ none)
        × (r ≡ (inl invalid_snapshot, s))
      ⊎ (codec.is_component state.strategy_id ≡ false) × (r ≡ (inl path_escapes, s))

  -- the snapshot has its file, metadata and place in the registry and in the index, and the bars are
  -- counted from zero again
  pub record IsWritten (state : StrategyState V) (reason : String) (fingerprint : Option String)
      (id : String) (now : ℕ) (s : StateStore P)
      (r : (StateError ⊎ Option SnapshotMetadata) × StateStore P) : Type 0 where
    pub packed : P
    pub encoding : Encoding
    pub encodes :
        encode_payload codec (snapshot_payload state fingerprint) ≡ some (packed, encoding)
    pub meta : SnapshotMetadata
    pub reply : r.0 ≡ inr (some meta)
    pub described : meta ≡ record {
      snapshot_id = id;
      strategy_id = state.strategy_id;
      artifact_id = state.artifact_id;
      params_hash = state.params_hash;
      instrument_key = state.instrument_key;
      timeframe = state.timeframe;
      bar_time = state.bar_time;
      saved_at = now;
      size_bytes = codec.size packed;
      status = active;
      reason = reason;
      data_fingerprint = fingerprint;
      state_encoding = encoding;
      checksum = some (codec.sha256 packed);
    }
    pub old : List SnapshotMetadata
    pub was :
        old
        ≡ snapshots_of
            (load_metadata_index true
              (record s { disk = write_file codec state.strategy_id id packed s.disk }))
            state.strategy_id
    pub listed :
        snapshots_of r.1 state.strategy_id
        ≡ reverse (take s.max_snapshots_per_strategy (sort_newest (map supersede old ++ meta ∷ [])))
    pub indexed : r.1.disk.index ≡ some (readable (flatten (values r.1.snapshots)))
    pub files :
        r.1.disk.files
        ≡ (remove_files state.strategy_id
            (drop s.max_snapshots_per_strategy (sort_newest (map supersede old ++ meta ∷ [])))
            (write_file codec state.strategy_id id packed s.disk)).files
    pub counted : get r.1.bars_since_last_save state.strategy_id ≡ some 0

  IsSaved-IsWritten :
      (state : StrategyState V) (reason : String) (fingerprint : Option String) (id : String)
      (now : ℕ) (s : StateStore P) (r : (StateError ⊎ Option SnapshotMetadata) × StateStore P)
      (meta : SnapshotMetadata)
      → r.0 ≡ inr (some meta)
      → IsSaved codec state reason fingerprint id now s r.1 meta
      → IsWritten state reason fingerprint id now s r
  unfolding snapshot_metadata
  IsSaved-IsWritten state reason fingerprint id now s r meta reply saved =
      let s₁ = record s { disk = write_file codec state.strategy_id id saved.packed s.disk } in
      let s₂ = load_metadata_index true s₁ in
      let m = snapshot_metadata codec state reason fingerprint id now saved.packed saved.encoding in
      let stored : r.1 ≡ record_snapshot m s₂ =
        saved.stored ∙ ap (λ x. record_snapshot x s₂) saved.described in
      let max = load_metadata_index-max s₁ in
      let metas = map supersede (snapshots_of s₂ state.strategy_id) ++ m ∷ [] in
      record {
        packed = saved.packed;
        encoding = saved.encoding;
        encodes = saved.encodes;
        meta = m;
        reply = reply ∙ ap (λ x. inr (some x)) saved.described;
        described = refl;
        old = snapshots_of s₂ state.strategy_id;
        was = refl;
        listed =
            ap (λ t. snapshots_of t state.strategy_id) stored
            ∙ record_snapshot-snapshots m s₂
            ∙ ap (λ n. reverse (take n (sort_newest metas))) max;
        indexed =
            subst (λ t. t.disk.index ≡ some (readable (flatten (values t.snapshots)))) (sym stored)
              (record_snapshot-index m s₂);
        files =
            ap (λ t. t.disk.files) stored
            ∙ record_snapshot-files m s₂
            ∙ ap (λ n. (remove_files state.strategy_id (drop n (sort_newest metas)) s₂.disk).files)
                max
            ∙ ap
                (λ d.
                  (remove_files state.strategy_id
                    (drop s.max_snapshots_per_strategy (sort_newest metas)) d).files)
                (load_metadata_index-disk true s₁);
        counted =
            ap (λ t. get t.bars_since_last_save state.strategy_id) stored
            ∙ record_snapshot-counted m s₂;
      }

  pub write_snapshot-outcome :
      (state : StrategyState V) (reason : String) (fingerprint : Option String) (id : String)
      (now : ℕ) (s : StateStore P)
      → let r = write_snapshot codec state reason fingerprint id now s in
        IsFailed state fingerprint s r ⊎ IsWritten state reason fingerprint id now s r
  unfolding write_snapshot
  write_snapshot-outcome state reason fingerprint id now s =
      elim (Option-cases (encode_payload codec (snapshot_payload state fingerprint))) [
        | inl fails ↦ inl (inl (fails, rw (write_snapshot, fails) refl))
        | inr ((packed, encoding), encodes) ↦
            elim (Bool-cases (codec.is_component state.strategy_id)) [
              | inr bad ↦ inl (inr (bad, rw (write_snapshot, encodes, bad) refl))
              | inl fine ↦
                  let r = write_snapshot codec state reason fingerprint id now s in
                  let meta =
                    snapshot_metadata codec state reason fingerprint id now packed encoding in
                  let reply : r.0 ≡ inr (some meta) = rw (write_snapshot, encodes, fine) refl in
                  inr (
                    IsSaved-IsWritten state reason fingerprint id now s r meta reply
                      (write_snapshot-IsSaved codec state reason fingerprint id now s meta reply))
            ]
      ]
