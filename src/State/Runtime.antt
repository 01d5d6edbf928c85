-- ===== src/State/Runtime.antt =====
-- The state of a runtime as a snapshot: `save_runtime_snapshot` and `load_runtime_snapshot`
-- (openpine/state/store.py).
use openpine.State.Index.{StateStore}
use openpine.State.Store.{Filters, StateError}
use openpine.State.Snapshots.{load_latest_compatible, save_snapshot}
use openpine.State.Model.{SnapshotMetadata, StrategyState, Codec}
use openpine.Base.{none, some, inr, inl, Bool, Option, ◌⊎◌, ℕ, String}

module _ {V P : Type 0} (codec : Codec V P) where
  -- `save_runtime_snapshot`; the time and the new id are arguments
  unfoldable pub save_runtime_snapshot :
      (strategy_id artifact_id params_hash instrument_key timeframe : String) (runtime_state : V)
      (bar_time : ℕ) (reason : String) (data_fingerprint : Option String) (failed_bar : Bool)
      (snapshot_id : String) (now : ℕ)
      → StateStore P
      → (StateError ⊎ Option SnapshotMetadata) × StateStore P
  unfolding save_snapshot
  save_runtime_snapshot strategy_id artifact_id params_hash instrument_key timeframe runtime_state
        bar_time reason data_fingerprint failed_bar snapshot_id now =
      let state : StrategyState V = record {
        strategy_id = strategy_id;
        artifact_id = artifact_id;
        params_hash = params_hash;
        instrument_key = instrument_key;
        timeframe = timeframe;
        state_data = runtime_state;
        bar_time = bar_time;
        saved_at = now;
      } in
      save_snapshot codec state reason failed_bar data_fingerprint snapshot_id now

  -- `state.state_data if state is not None else None`
  abbrev runtime_of : StateError ⊎ Option (StrategyState V) → StateError ⊎ Option V
  runtime_of (inl e) = inl e
  runtime_of (inr none) = inr none
  runtime_of (inr (some state)) = inr (some state.state_data)

  unfoldable pub load_runtime_snapshot :
      String → Filters → StateStore P → (StateError ⊎ Option V) × StateStore P
  unfolding load_latest_compatible
  load_runtime_snapshot strategy_id f s =
      let (loaded, s') = load_latest_compatible codec strategy_id f s in (runtime_of loaded, s')
