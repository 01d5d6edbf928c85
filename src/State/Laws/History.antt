-- ===== src/State/Laws/History.antt =====
-- One active snapshot at most, over any calls of any processes (openpine/state/store.py).
use openpine.State.Laws.Delete.{delete_snapshot-IsSettledStore}
use openpine.State.Laws.Calls.{
  invalidate-IsSettledStore, mark_invalid-IsSettledStore, save_snapshot-IsSettledStore,
}
use openpine.State.Store.{latest_snapshot_metadata, Filters}
use openpine.State.Index.{reload_if_changed, StateStore}
use openpine.State.Laws.Settled.{
  reload_if_changed-IsSettledStore, IsSettledStore, IsSettledIndex, IsSettled,
}
use openpine.State.Model.{SavePolicy, Codec}
use openpine.State.Snapshots.{list_snapshots, load_latest_compatible, set_save_policy}
use openpine.State.Processes.{
  policy, forget, mark, delete, list, load, save, Call, run, step, call, Processes,
}
use openpine.Base.{
  refl, sym, inr, false, subst, inl, true, eqb, Option-cases, if◌then◌else◌, [], ◌∷◌, Bool, ◌≡◌,
  List, ℕ, String,
}

module _ {P : Type 0} where
  -- every process's registry and the index file have at most one active snapshot for a strategy
  pub record AreSettled (w : Processes P) : Type 0 where
    pub stores : (i : ℕ) → IsSettled (w.stores i).snapshots
    pub index : IsSettledIndex w.disk.index

  pub set_save_policy-IsSettledStore :
      (p : SavePolicy) (interval_bars : ℕ) (s : StateStore P)
      → IsSettledStore s
      → IsSettledStore (set_save_policy p interval_bars s)
  unfolding set_save_policy
  set_save_policy-IsSettledStore p interval_bars s h = record {
    registry = h.registry;
    index = h.index;
  }

module _ {V P : Type 0} (codec : Codec V P) where
  pub load_latest_compatible-store :
      (strategy_id : String) (f : Filters) (s : StateStore P)
      → (load_latest_compatible codec strategy_id f s).1 ≡ reload_if_changed s
  unfolding load_latest_compatible
  load_latest_compatible-store strategy_id f s =
      elim (Option-cases (latest_snapshot_metadata strategy_id f s).0) [
        | inl missing ↦ rw (load_latest_compatible, missing) refl
        | inr (meta, found) ↦ rw (load_latest_compatible, found) refl
      ]

  call-IsSettledStore :
      (c : Call V) (s : StateStore P) → IsSettledStore s → IsSettledStore (call codec c s)
  unfolding call list_snapshots
  call-IsSettledStore (save state reason failed_bar fingerprint id now) s h =
      save_snapshot-IsSettledStore codec state reason failed_bar fingerprint id now s h
  call-IsSettledStore (load strategy_id f) s h =
      subst IsSettledStore (sym (load_latest_compatible-store strategy_id f s))
        (reload_if_changed-IsSettledStore s h)
  call-IsSettledStore (list strategy_id) s h = reload_if_changed-IsSettledStore s h
  call-IsSettledStore (delete id) s h = delete_snapshot-IsSettledStore id s h
  call-IsSettledStore (mark strategy_id since) s h =
      mark_invalid-IsSettledStore strategy_id since s h
  call-IsSettledStore (forget strategy_id since) s h =
      invalidate-IsSettledStore strategy_id since s h
  call-IsSettledStore (policy p interval_bars) s h =
      set_save_policy-IsSettledStore p interval_bars s h

  step-AreSettled :
      (i : ℕ) (c : Call V) (w : Processes P) → AreSettled w → AreSettled (step codec i c w)
  unfolding step
  step-AreSettled i c w h =
      let after =
        call-IsSettledStore c (record (w.stores i) { disk = w.disk })
          (record { registry = h.stores i; index = h.index }) in
      record { stores = λ j. one j (eqb j i) after.registry; index = after.index }
    where
      one :
          (j : ℕ) (b : Bool)
          → IsSettled (call codec c (record (w.stores i) { disk = w.disk })).snapshots
          → IsSettled
              (if b
                then call codec c (record (w.stores i) { disk = w.disk })
                else w.stores j).snapshots
      one j true after = after
      one j false after = h.stores j

  -- From processes whose registries and whose index have at most one active snapshot for each strategy, any
  -- saves, loads, deletions, invalidations and policy changes, by any of the processes, lead to such
  -- processes and such an index again.
  pub run-AreSettled :
      (calls : List (ℕ × Call V)) (w : Processes P) → AreSettled w → AreSettled (run codec calls w)
  unfolding run
  run-AreSettled [] w h = h
  run-AreSettled ((i, c) ∷ calls) w h =
      run-AreSettled calls (step codec i c w) (step-AreSettled i c w h)
