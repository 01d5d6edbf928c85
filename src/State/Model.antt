-- ===== src/State/Model.antt =====
-- The data of openpine/state/store.py. A serialized instrument key or timeframe is its text, and the
-- variables of a strategy are of any type `V`.
use openpine.Base.{none, Bool, Option, ℕ, String}

pub data SavePolicy : Type 0 where
  every_bar on_request interval : SavePolicy

-- the `status` of a snapshot
pub data SnapshotStatus : Type 0 where
  active superseded invalid : SnapshotStatus

pub data Encoding : Type 0 where
  msgpack pickle : Encoding

pub record SnapshotMetadata : Type 0 where
  pub snapshot_id : String
  pub strategy_id : String
  pub artifact_id : String
  pub params_hash : String
  pub instrument_key : String
  pub timeframe : String
  pub bar_time : ℕ
  pub saved_at : ℕ
  pub size_bytes : ℕ
  pub status : SnapshotStatus
  pub reason : String
  pub data_fingerprint : Option String
  pub state_encoding : Encoding
  pub checksum : Option String

module _ (V : Type 0) where
  pub record StrategyState : Type 0 where
    pub strategy_id : String
    pub artifact_id : String
    pub params_hash : String
    pub instrument_key : String
    pub timeframe : String
    pub state_data : V
    pub bar_time : ℕ
    pub saved_at : ℕ

  -- the mapping in a snapshot file; old files have a checksum in it
  pub record Payload : Type 0 where
    pub strategy_id : String
    pub artifact_id : String
    pub params_hash : String
    pub instrument_key : String
    pub timeframe : String
    pub last_processed_bar_time : ℕ
    pub runtime_state : V
    pub data_fingerprint : Option String
    pub checksum : Option String

  -- How the store packs a payload, over `msgpack`, `pickle`, `hashlib` and `pathlib`:
  -- `State.Codec.Packing.codec_of` is the one of openpine/state/codec.py. Packing gives none on a TypeError or ValueError, unpacking where
  -- it raises or the root is no mapping.
  pub record Codec (P : Type 0) : Type 0 where
    pub pack : Payload → Option P
    pub unpack : P → Option Payload
    pub dump : Payload → P
    pub load : P → Option Payload
    -- OPENPINE_ALLOW_PICKLE_STATE
    pub pickle_enabled : Bool
    pub sha256 : P → String
    pub size : P → ℕ
    -- `_path_under_root` accepts the directory of a strategy
    pub is_component : String → Bool

module _ {V : Type 0} where
  -- `to_payload` and `_snapshot_payload`
  unfoldable pub snapshot_payload : StrategyState V → Option String → Payload V
  snapshot_payload state data_fingerprint = record {
    strategy_id = state.strategy_id;
    artifact_id = state.artifact_id;
    params_hash = state.params_hash;
    instrument_key = state.instrument_key;
    timeframe = state.timeframe;
    last_processed_bar_time = state.bar_time;
    runtime_state = state.state_data;
    data_fingerprint = data_fingerprint;
    checksum = none;
  }

  -- `from_payload`
  unfoldable pub from_payload : Payload V → StrategyState V
  from_payload payload = record {
    strategy_id = payload.strategy_id;
    artifact_id = payload.artifact_id;
    params_hash = payload.params_hash;
    instrument_key = payload.instrument_key;
    timeframe = payload.timeframe;
    state_data = payload.runtime_state;
    bar_time = payload.last_processed_bar_time;
    saved_at = 0;
  }
