-- ===== src/State/Tests.antt =====
-- Runs of the state store (openpine/state/store.py, openpine/recovery/rebuild.py) and instances of its
-- theorems, with a codec that packs a payload as itself.
use openpine.State.Runtime.{load_runtime_snapshot, save_runtime_snapshot}
use mathlib.Core.List.{flatten}
use openpine.State.Processes.{load}
use openpine.State.Laws.Policies.{locked-invalidate}
use openpine.State.Laws.Lost.{save_snapshot-pruned}
use openpine.State.Store.{no_filters, latest_in}
use openpine.State.Laws.Rebuilding.{rebuild-newest, rebuild_by}
use openpine.State.Laws.Calls.{save_snapshot-IsSettledStore}
use openpine.State.Rebuild.{invalidate, ReplayBar, rebuild}
use openpine.State.Laws.Settled.{empty-IsSettled, IsSettledStore}
use openpine.State.Laws.History.{run-AreSettled, AreSettled}
use openpine.State.Processes.{mark, delete, load, save, run, Call, Processes}
use openpine.State.Snapshots.{
  delete_snapshot, snapshot_metadata, load_snapshot, save_snapshot, open_store,
}
use openpine.State.Index.{
  reload_if_changed, snapshots_of, persist_metadata_index, locked, StateStore, Disk,
}
use openpine.State.Model.{
  msgpack, snapshot_payload, every_bar, SnapshotMetadata, Payload, StrategyState, SavePolicy, Codec,
}
use openpine.Base.{arith, refl, ◌∷◌, inr, [], none, true, false, ◌≡◌, some, Option, List, ℕ, String}

abbrev plain : Codec ℕ (Payload ℕ)
plain = record {
  pack = λ p. some p;
  unpack = λ p. some p;
  dump = λ p. p;
  load = λ p. some p;
  pickle_enabled = false;
  sha256 = λ p. p.strategy_id;
  size = λ p. p.last_processed_bar_time;
  is_component = λ s. true;
}

abbrev state_at : ℕ → ℕ → StrategyState ℕ
state_at time value = record {
  strategy_id = "s";
  artifact_id = "a";
  params_hash = "p";
  instrument_key = "BTC";
  timeframe = "1h";
  state_data = value;
  bar_time = time;
  saved_at = 0;
}

abbrev empty_disk : Disk (Payload ℕ)
empty_disk = record { index = none; stamp = 0; files = λ s i. none }

abbrev store_of : SavePolicy → ℕ → StateStore (Payload ℕ)
store_of policy max_snapshots = record {
  save_policy = policy;
  save_interval_bars = 2;
  max_snapshots_per_strategy = max_snapshots;
  bars_since_last_save = [];
  snapshots = [];
  index_signature = none;
  disk = empty_disk;
}

abbrev saved : ℕ → StateStore (Payload ℕ)
saved max_snapshots =
    (save_snapshot plain (state_at 10 5) "bar" false none "n1" 100
      (store_of every_bar max_snapshots)).1

abbrev meta_at : ℕ → String → ℕ → SnapshotMetadata
meta_at time id now =
    snapshot_metadata plain (state_at time 5) "bar" none id now
      (snapshot_payload (state_at time 5) none) msgpack

opens : open_store every_bar 2 1 empty_disk ≡ store_of every_bar 1
unfolding open_store
opens = refl

saves_and_loads : (load_snapshot plain "s" (saved 1)).0 ≡ inr (some (state_at 10 5))
unfolding save_snapshot load_snapshot
saves_and_loads = refl

-- Of two snapshots the newer one is loaded, and the older one is superseded.
second_wins :
    (load_snapshot plain "s"
      (save_snapshot plain (state_at 20 6) "bar" false none "n2" 200 (saved 2)).1).0
    ≡ inr (some (state_at 20 6))
unfolding save_snapshot load_snapshot flatten
second_wins = refl

deleted : (load_snapshot plain "s" (delete_snapshot "n1" (saved 2)).1).0 ≡ inr none
unfolding save_snapshot load_snapshot delete_snapshot flatten
deleted = refl

abbrev two_processes : Processes (Payload ℕ)
two_processes = record { stores = λ i. store_of every_bar 3; disk = empty_disk }

two_processes-AreSettled : AreSettled two_processes
two_processes-AreSettled = record { stores = λ i. empty-IsSettled; index = tt }

abbrev some_calls : List (ℕ × Call ℕ)
some_calls =
    (0, save (state_at 10 5) "bar" false none "n1" 100)
    ∷ (1, save (state_at 20 6) "bar" false none "n2" 200)
    ∷ (0, load "s" no_filters)
    ∷ (1, delete "n1")
    ∷ (0, mark "s" (some 15))
    ∷ []

run-AreSettled_example : AreSettled (run plain some_calls two_processes)
run-AreSettled_example = run-AreSettled plain some_calls two_processes two_processes-AreSettled

empty-IsSettledStore : IsSettledStore (store_of every_bar 2)
empty-IsSettledStore = record { registry = empty-IsSettled; index = tt }

saved-IsSettledStore : IsSettledStore (saved 2)
saved-IsSettledStore =
    save_snapshot-IsSettledStore plain (state_at 10 5) "bar" false none "n1" 100
      (store_of every_bar 2) empty-IsSettledStore

abbrev one_bar : StrategyState ℕ → List (ReplayBar ℕ)
one_bar state = record { bar = 4; time = 20 } ∷ []

abbrev add_bar : Option (StrategyState ℕ → ℕ → StrategyState ℕ)
add_bar = some λ state b. record state { state_data = b }

rebuild-newest_example :
    rebuild plain "s" 15 "repair" add_bar one_bar "n2" 200 (saved 2)
    ≡ rebuild_by plain
        (latest_in (snapshots_of (reload_if_changed (saved 2)) "s") no_filters)
        15
        "repair"
        add_bar
        one_bar
        "n2"
        200
        (reload_if_changed (saved 2))
rebuild-newest_example =
    rebuild-newest plain "s" 15 "repair" add_bar one_bar "n2" 200 (saved 2) saved-IsSettledStore

save_snapshot-pruned_example :
    let s' = (save_snapshot plain (state_at 5 5) "bar" false none "n2" 200 (saved 1)).1 in
    load_snapshot plain "s" s' ≡ (inr none, s')
unfolding save_snapshot flatten
save_snapshot-pruned_example =
    save_snapshot-pruned plain (state_at 5 5) "bar" false none "n2" 200 (saved 1)
      (meta_at 5 "n2" 200) (meta_at 10 "n1" 100 ∷ []) refl refl (refl, tt) (omega arith)

locked-invalidate_example :
    locked persist_metadata_index (invalidate "s" none (saved 2))
    ≡ locked persist_metadata_index (saved 2)
unfolding save_snapshot flatten
locked-invalidate_example =
    locked-invalidate persist_metadata_index "s" none (meta_at 10 "n1" 100 ∷ []) (saved 2) refl

runtime_saves_and_loads :
    let s =
      (save_runtime_snapshot plain "s" "a" "p" "BTC" "1h" 5 10 "bar" none false "n1" 100
        (store_of every_bar 1)).1 in
    (load_runtime_snapshot plain "s" no_filters s).0 ≡ inr (some 5)
unfolding save_runtime_snapshot load_runtime_snapshot
runtime_saves_and_loads = refl
