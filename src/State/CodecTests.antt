-- ===== src/State/CodecTests.antt =====
-- Runs of openpine/state/codec.py and an instance of the round trip of a snapshot, with packages that pack a
-- payload as itself.
use openpine.State.Codec.{Value, Class, enum_class, is_text}
use openpine.State.Codec.Value.{text, tuple, deque, dict, integer, namespace, decimal, enum}
use openpine.State.Codec.Values.{nil, cons}
use openpine.State.Codec.Items.{done, item}
use openpine.State.Codec.Attributes.{end, attribute}
use openpine.State.Codec.Safe.{to_msgpack_safe, from_msgpack_safe}
use openpine.State.Codec.Restorable.{exported}
use openpine.State.Codec.Packing.{Packages, codec_of}
use openpine.State.Laws.Reload.{load_snapshot-save_snapshot}
use openpine.State.Snapshots.{load_snapshot, save_snapshot, snapshot_metadata}
use openpine.State.Index.{StateStore}
use openpine.State.Model.{msgpack, every_bar, snapshot_payload, Payload, StrategyState}
use openpine.Base.{
  sym, ◌==◌, arith, refl, inr, none, some, true, false, pos, [], if◌then◌else◌, Option, ◌≡◌, String,
}

abbrev side : String
side = "backtest_engine.orders:Side"

abbrev sides : String → Option Class
sides type = if type == side then some (enum_class (is_text "buy")) else none

abbrev variables : Value
variables = namespace (
    attribute "history" (deque (cons (integer (pos 1)) nil) (some 5))
      (attribute "last" (tuple (cons (decimal "1.5") (cons (enum side (text "buy")) nil))) end))

abbrev mapping : Value
mapping = dict (
    item (text "history") (deque (cons (integer (pos 1)) nil) (some 5))
      (item (text "last") (tuple (cons (decimal "1.5") (cons (enum side (text "buy")) nil))) done))

comes_back_as_mapping : exported variables ≡ mapping
comes_back_as_mapping = refl

-- a dictionary with numbers for keys
keys_come_back :
    elim (to_msgpack_safe (dict (item (integer (pos 1)) (text "a") done))) [
      | none ↦ none
      | some w ↦ from_msgpack_safe sides w
    ]
    ≡ some (dict (item (integer (pos 1)) (text "a") done))
unfolding to_msgpack_safe from_msgpack_safe
keys_come_back = refl

-- An enum of another package is packed, and what was packed cannot be read back.
other_enum_is_lost :
    elim (to_msgpack_safe (enum "openpine.risk:Mode" (text "a"))) [
      | none ↦ some (text "not packed")
      | some w ↦ from_msgpack_safe (λ s. some (enum_class (is_text "a"))) w
    ]
    ≡ none
unfolding to_msgpack_safe from_msgpack_safe
other_enum_is_lost = refl

abbrev packages : Packages (Payload Value)
packages = record {
  packb = λ p. some p;
  unpackb = λ p. some p;
  dump = λ p. p;
  load = λ p. some p;
  pickle_enabled = false;
  sha256 = λ p. p.strategy_id;
  size = λ p. p.last_processed_bar_time;
  is_component = λ s. true;
  engine = sides;
}

abbrev state : StrategyState Value
state = record {
  strategy_id = "s";
  artifact_id = "a";
  params_hash = "p";
  instrument_key = "BTC";
  timeframe = "1h";
  state_data = variables;
  bar_time = 10;
  saved_at = 0;
}

abbrev new_store : StateStore (Payload Value)
new_store = record {
  save_policy = every_bar;
  save_interval_bars = 1;
  max_snapshots_per_strategy = 1;
  bars_since_last_save = [];
  snapshots = [];
  index_signature = none;
  disk = record { index = none; stamp = 0; files = λ s i. none };
}

load_snapshot-save_snapshot_example :
    let s = (save_snapshot (codec_of packages) state "bar" false none "n1" 100 new_store).1 in
    load_snapshot (codec_of packages) "s" s
    ≡ (inr (some (record state { state_data = mapping; saved_at = 0 })), s)
unfolding save_snapshot codec_of
load_snapshot-save_snapshot_example =
    load_snapshot-save_snapshot packages (λ p x plain e. sym e) state "bar" false none "n1" 100
      new_store (snapshot_metadata (codec_of packages) state "bar" none "n1" 100 packed msgpack)
      (refl, ((tt, tt), ((tt, ((is_text "buy", refl, refl, tt), tt)), tt))) refl refl tt
      (omega arith)
  where
    packed : Payload Value
    packed = record (snapshot_payload state none) { runtime_state = text "" }
