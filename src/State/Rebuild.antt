-- ===== src/State/Rebuild.antt =====
-- `StateRebuilder` (openpine/recovery/rebuild.py). The bars of the orchestrator and the engine that
-- processes them are arguments; with no orchestrator there are no bars.
use openpine.Base.Lists.{keep, is_empty}
use openpine.Base.Dict.{put, get}
use openpine.State.Snapshots.{load_snapshot, list_snapshots, save_snapshot}
use openpine.State.Index.{StateStore, reload_if_changed}
use openpine.State.Model.{StrategyState, SnapshotMetadata, Codec}
use openpine.State.Store.{invalidated, is_active, StateError}
use openpine.Base.{
  truthy, map, leb, ltb, [], ◌∷◌, none, if◌then◌else◌, inr, false, ◌&&◌, inl, ◌∷◌, some, ◌⊎◌, Bool,
  Option, List, ℕ, String,
}

pub data RebuildError : Type 0 where
  inconsistent : RebuildError
  state_error : StateError → RebuildError

-- the test of `candidates`
abbrev pub is_candidate : ℕ → SnapshotMetadata → Bool
is_candidate from_bar_time m = is_active m.status && ltb m.bar_time from_bar_time

-- a bar that the orchestrator gives back
pub record ReplayBar (B : Type 0) : Type 0 where
  pub bar : B
  pub time : ℕ

module _ {V B : Type 0} where
  -- `process_next_bar`, if there is an engine, and `state.bar_time = bar.time`
  unfoldable pub replay_bar :
      Option (StrategyState V → B → StrategyState V)
      → StrategyState V
      → ReplayBar B
      → StrategyState V
  replay_bar none state b = record state { bar_time = b.time }
  replay_bar (some process_next_bar) state b = record (process_next_bar state b.bar) {
    bar_time = b.time;
  }

  unfoldable pub replay :
      Option (StrategyState V → B → StrategyState V)
      → StrategyState V
      → List (ReplayBar B)
      → StrategyState V
  unfolding replay_bar
  replay engine state [] = state
  replay engine state (b ∷ bars) = replay engine (replay_bar engine state b) bars

module _ {V P : Type 0} (codec : Codec V P) where
  -- the end of `rebuild`: save the new snapshot
  unfoldable pub save_rebuilt :
      StrategyState V
      → String
      → String
      → ℕ
      → StateStore P
      → (RebuildError ⊎ StrategyState V) × StateStore P
  unfolding save_snapshot
  save_rebuilt state reason snapshot_id saved_at s =
      let (saved, s') = save_snapshot codec state reason false none snapshot_id saved_at s in
      elim saved [
        | inl e ↦ (inl (state_error e), s')
        | inr none ↦ (inl inconsistent, s')
        | inr (some meta) ↦ (inr state, s')
      ]

  -- the checks of `verify_state`
  unfoldable pub is_consistent : StateError ⊎ Option (StrategyState V) → Bool
  is_consistent (inl e) = false
  is_consistent (inr none) = false
  is_consistent (inr (some state)) =
      if leb state.bar_time 0 then false else truthy state.strategy_id

  unfoldable pub verify_state : String → StateStore P → Bool
  unfolding load_snapshot is_consistent
  verify_state strategy_id s = is_consistent (load_snapshot codec strategy_id s).0

module _ {V B P : Type 0} (codec : Codec V P) where
  -- what `rebuild` does with the result of `load_snapshot`; the bars follow from the state
  unfoldable pub rebuild_from :
      StateError ⊎ Option (StrategyState V)
      → Option (StrategyState V → B → StrategyState V)
      → (StrategyState V → List (ReplayBar B))
      → String
      → String
      → ℕ
      → StateStore P
      → (RebuildError ⊎ StrategyState V) × StateStore P
  unfolding save_rebuilt replay
  rebuild_from (inl e) engine bars reason snapshot_id saved_at s = (inl (state_error e), s)
  rebuild_from (inr none) engine bars reason snapshot_id saved_at s = (inl inconsistent, s)
  rebuild_from (inr (some state)) engine bars reason snapshot_id saved_at s =
      save_rebuilt codec (replay engine state (bars state)) reason snapshot_id saved_at s

  -- `rebuild`
  unfoldable pub rebuild :
      String
      → ℕ
      → String
      → Option (StrategyState V → B → StrategyState V)
      → (StrategyState V → List (ReplayBar B))
      → String
      → ℕ
      → StateStore P
      → (RebuildError ⊎ StrategyState V) × StateStore P
  unfolding list_snapshots load_snapshot rebuild_from
  rebuild strategy_id from_bar_time reason engine bars snapshot_id saved_at s =
      let (snapshots, s₁) = list_snapshots strategy_id s in
      let (loaded, s₂) = load_snapshot codec strategy_id s₁ in
      if is_empty (keep (is_candidate from_bar_time) snapshots)
      then (inl inconsistent, s₁)
      else rebuild_from loaded engine bars reason snapshot_id saved_at s₂

module _ {P : Type 0} where
  -- `invalidate`: the metadata that `list_snapshots` gives are the objects of the registry
  unfoldable pub invalidate : String → Option ℕ → StateStore P → StateStore P
  unfolding reload_if_changed get put
  invalidate strategy_id since s =
      let s' = reload_if_changed s in
      elim (get s'.snapshots strategy_id) [
        | none ↦ s'
        | some metas ↦ record s' {
          snapshots = put s'.snapshots strategy_id (map (invalidated since) metas);
        }
      ]
