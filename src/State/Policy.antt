-- ===== src/State/Policy.antt =====
-- `SnapshotPolicy` (openpine/state/policy.py).
use openpine.State.Index.{StateStore}
use openpine.State.Model.{on_request, interval, every_bar, SavePolicy}
use openpine.Base.{false, leb, if◌then◌else◌, true, Bool, ℕ}

pub record SnapshotPolicy : Type 0 where
  pub save_policy : SavePolicy
  pub save_interval_bars : ℕ
  pub max_snapshots_per_strategy : ℕ

abbrev pub by_policy : SavePolicy → ℕ → ℕ → Bool
by_policy every_bar save_interval_bars bars_since_last = true
by_policy interval save_interval_bars bars_since_last = leb save_interval_bars bars_since_last
by_policy on_request save_interval_bars bars_since_last = false

unfoldable pub should_save : SnapshotPolicy → ℕ → Bool → Bool
should_save p bars_since_last failed_bar =
    if failed_bar then false else by_policy p.save_policy p.save_interval_bars bars_since_last

-- the policy of a store
abbrev pub policy_of : {P : Type 0} → StateStore P → SnapshotPolicy
policy_of s = record {
  save_policy = s.save_policy;
  save_interval_bars = s.save_interval_bars;
  max_snapshots_per_strategy = s.max_snapshots_per_strategy;
}
