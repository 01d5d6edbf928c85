-- ===== src/State/Processes.antt =====
-- Any number of processes, each with its `StateStore`, on one storage directory
-- (openpine/state/store.py). A call holds the directory for its whole time: the file lock covers each
-- change of the index, and a snapshot file that is not yet in the index is not seen.
use openpine.State.Rebuild.{invalidate}
use openpine.State.Store.{mark_invalid, Filters}
use openpine.State.Snapshots.{
  set_save_policy, delete_snapshot, list_snapshots, load_latest_compatible, save_snapshot,
}
use openpine.State.Index.{Disk, StateStore}
use openpine.State.Model.{SavePolicy, Codec, StrategyState}
use openpine.Base.{[], ◌∷◌, eqb, Option, List, if◌then◌else◌, Bool, ℕ, String}

module _ (V : Type 0) where
  pub data Call : Type 0 where
    -- the state, the reason, failed_bar, the fingerprint, the new id and the time
    save : StrategyState V → String → Bool → Option String → String → ℕ → Call
    load : String → Filters → Call
    list : String → Call
    delete : String → Call
    mark : String → Option ℕ → Call
    forget : String → Option ℕ → Call
    policy : SavePolicy → ℕ → Call

pub record Processes (P : Type 0) : Type 0 where
  pub stores : ℕ → StateStore P
  pub disk : Disk P

module _ {V P : Type 0} (codec : Codec V P) where
  -- the store after one call; `mark` is `mark_invalid` and `forget` is `invalidate`
  unfoldable pub call : Call V → StateStore P → StateStore P
  unfolding save_snapshot load_latest_compatible list_snapshots delete_snapshot mark_invalid
      invalidate set_save_policy
  call (save state reason failed_bar fingerprint id now) s =
      (save_snapshot codec state reason failed_bar fingerprint id now s).1
  call (load strategy_id f) s = (load_latest_compatible codec strategy_id f s).1
  call (list strategy_id) s = (list_snapshots strategy_id s).1
  call (delete id) s = (delete_snapshot id s).1
  call (mark strategy_id since) s = mark_invalid strategy_id since s
  call (forget strategy_id since) s = invalidate strategy_id since s
  call (policy p interval_bars) s = set_save_policy p interval_bars s

  -- a call by one of the processes, on the directory as it is
  unfoldable pub step : ℕ → Call V → Processes P → Processes P
  unfolding call
  step i c w =
      let s = call c (record (w.stores i) { disk = w.disk }) in
      record { stores = λ j. if eqb j i then s else w.stores j; disk = s.disk }

  unfoldable pub run : List (ℕ × Call V) → Processes P → Processes P
  unfolding step
  run [] w = w
  run ((i, c) ∷ calls) w = run calls (step i c w)
