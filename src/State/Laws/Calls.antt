-- ===== src/State/Laws/Calls.antt =====
-- No call of any process leaves a strategy with two active snapshots (openpine/state/store.py).
use openpine.State.Snapshots.{
  number_or_zero, is_interval, write_file, snapshot_metadata, encode_payload, save_snapshot,
  write_snapshot,
}
use openpine.State.Rebuild.{invalidate}
use openpine.Base.Dict.{listed, get, Dict, put}
use openpine.State.Laws.Registry.{get-own}
use openpine.State.Laws.Counts.{
  actives-invalidated, actives-pruned, All-pruned, pruned, actives-single, actives-supersede,
  actives-append, actives,
}
use openpine.State.Laws.Settled.{
  load_metadata_index-IsSettled, reload_if_changed-IsSettledStore, put-IsSettled,
  persist_metadata_index-IsSettledStore, IsSettledStore, IsSettled,
}
use openpine.State.Index.{load_metadata_index, reload_if_changed, locked, snapshots_of, StateStore}
use openpine.Base.Lists.{All-append, All}
use openpine.State.Store.{mark_invalid, prune, invalidated, supersede, record_snapshot}
use openpine.State.Model.{snapshot_payload, StrategyState, Codec, SnapshotMetadata}
use openpine.Base.{
  ltb, ◌&&◌, inr, Bool-cases, inl, Bool, Option-cases, true, subst, some, refl, ◌∙◌, [], ◌++◌, ◌≤◌,
  arith, ◌∷◌, ◌≡◌, map, ℕ, Option, List, String,
}

pub map-All {ℓ κ} :
    {A : Type ℓ} (P : A → Type κ) (f : A → A) (xs : List A)
    → ((x : A) → P x → P (f x))
    → All P xs
    → All P (map f xs)
map-All P f [] keeps h = tt
map-All P f (x ∷ xs) keeps h = (keeps x h.0, map-All P f xs keeps h.1)

supersede-strategy : (m : SnapshotMetadata) → (supersede m).strategy_id ≡ m.strategy_id
supersede-strategy m = ground arith

invalidated-strategy :
    (since : Option ℕ) (m : SnapshotMetadata) → (invalidated since m).strategy_id ≡ m.strategy_id
invalidated-strategy since m = ground arith

-- a strategy's list with some snapshots marked as invalid
mark-IsSettled :
    (registry : Dict (List SnapshotMetadata)) (k : String) (since : Option ℕ)
    (metas : List SnapshotMetadata)
    → IsSettled registry
    → get registry k ≡ some metas
    → IsSettled (put registry k (map (invalidated since) metas))
mark-IsSettled registry k since metas h found =
    put-IsSettled registry k (map (invalidated since) metas) h
      (map-All (λ m. m.strategy_id ≡ k) (invalidated since) metas
        (λ m e. invalidated-strategy since m ∙ e)
        (subst (λ o. All (λ m. m.strategy_id ≡ k) (listed o)) found (get-own registry k h.keyed)))
      (omega (
        arith,
        actives-invalidated since metas,
        subst (λ o. actives (listed o) ≤ 1) found (h.one k),
      ))

module _ {P : Type 0} where
  -- the list of the strategy after a save, before it is pruned
  abbrev with_new : SnapshotMetadata → StateStore P → List SnapshotMetadata
  with_new meta s = map supersede (snapshots_of s meta.strategy_id) ++ meta ∷ []

  with_new-own :
      (meta : SnapshotMetadata) (s : StateStore P)
      → IsSettled s.snapshots
      → All (λ m. m.strategy_id ≡ meta.strategy_id) (with_new meta s)
  with_new-own meta s h =
      All-append (λ m. m.strategy_id ≡ meta.strategy_id)
        (map supersede (snapshots_of s meta.strategy_id)) (meta ∷ [])
        (map-All (λ m. m.strategy_id ≡ meta.strategy_id) supersede (snapshots_of s meta.strategy_id)
          (λ m e. supersede-strategy m ∙ e) (get-own s.snapshots meta.strategy_id h.keyed))
        (refl, tt)

  with_new-actives : (meta : SnapshotMetadata) (s : StateStore P) → actives (with_new meta s) ≤ 1
  with_new-actives meta s = omega (
    arith,
    actives-append (map supersede (snapshots_of s meta.strategy_id)) (meta ∷ []),
    actives-supersede (snapshots_of s meta.strategy_id),
    actives-single meta,
  )

  prune-IsSettled :
      (strategy_id : String) (s : StateStore P)
      → IsSettled s.snapshots
      → IsSettled (prune strategy_id s).snapshots
  unfolding prune
  prune-IsSettled k s h =
      put-IsSettled s.snapshots k (pruned s.max_snapshots_per_strategy (snapshots_of s k)) h
        (All-pruned (λ m. m.strategy_id ≡ k) s.max_snapshots_per_strategy (snapshots_of s k)
          (get-own s.snapshots k h.keyed))
        (omega (arith, actives-pruned s.max_snapshots_per_strategy (snapshots_of s k), h.one k))

  record_snapshot-IsSettledStore :
      (meta : SnapshotMetadata) (s : StateStore P)
      → IsSettled s.snapshots
      → IsSettledStore (record_snapshot meta s)
  unfolding record_snapshot
  record_snapshot-IsSettledStore meta s h =
      let s₀ = record s { snapshots = put s.snapshots meta.strategy_id (with_new meta s) } in
      let s₁ = prune meta.strategy_id s₀ in
      persist_metadata_index-IsSettledStore
        (record s₁ { bars_since_last_save = put s₁.bars_since_last_save meta.strategy_id 0 })
        (prune-IsSettled meta.strategy_id s₀ (
          put-IsSettled s.snapshots meta.strategy_id (with_new meta s) h (with_new-own meta s h)
            (with_new-actives meta s)))

  pub mark_invalid-IsSettledStore :
      (k : String) (since : Option ℕ) (s : StateStore P)
      → IsSettledStore s
      → IsSettledStore (mark_invalid k since s)
  unfolding mark_invalid locked
  mark_invalid-IsSettledStore k since s h =
      let s' = load_metadata_index true s in
      let r = load_metadata_index-IsSettled true s h.registry h.index in
      elim (Option-cases (get s'.snapshots k)) [
        | inl missing ↦ rw missing (persist_metadata_index-IsSettledStore s' r)
        | inr (metas, found) ↦ rw found (
            persist_metadata_index-IsSettledStore
              (record s' { snapshots = put s'.snapshots k (map (invalidated since) metas) })
              (mark-IsSettled s'.snapshots k since metas r found))
      ]

  pub invalidate-IsSettledStore :
      (k : String) (since : Option ℕ) (s : StateStore P)
      → IsSettledStore s
      → IsSettledStore (invalidate k since s)
  unfolding invalidate
  invalidate-IsSettledStore k since s h =
      let s' = reload_if_changed s in
      let r = reload_if_changed-IsSettledStore s h in
      elim (Option-cases (get s'.snapshots k)) [
        | inl missing ↦ rw (invalidate, missing) r
        | inr (metas, found) ↦
            rw (invalidate, found)
              (record {
                registry = mark-IsSettled s'.snapshots k since metas r.registry found;
                index = r.index;
              })
      ]

module _ {V P : Type 0} (codec : Codec V P) where
  write_snapshot-IsSettledStore :
      (state : StrategyState V) (reason : String) (fingerprint : Option String) (id : String)
      (now : ℕ) (s : StateStore P)
      → IsSettledStore s
      → IsSettledStore (write_snapshot codec state reason fingerprint id now s).1
  unfolding write_snapshot locked
  write_snapshot-IsSettledStore state reason fingerprint id now s h =
      elim (Option-cases (encode_payload codec (snapshot_payload state fingerprint))) [
        | inl fails ↦ rw (write_snapshot, fails) h
        | inr ((packed, encoding), packs) ↦
            let meta = snapshot_metadata codec state reason fingerprint id now packed encoding in
            let s' = record s { disk = write_file codec state.strategy_id id packed s.disk } in
            elim (Bool-cases (codec.is_component state.strategy_id)) [
              | inr bad ↦ rw (write_snapshot, packs, bad) h
              | inl fine ↦
                  rw (write_snapshot, packs, fine)
                    (record_snapshot-IsSettledStore meta (load_metadata_index true s')
                      (load_metadata_index-IsSettled true s' h.registry h.index))
            ]
      ]

  pub save_snapshot-IsSettledStore :
      (state : StrategyState V) (reason : String) (failed_bar : Bool) (fingerprint : Option String)
      (id : String) (now : ℕ) (s : StateStore P)
      → IsSettledStore s
      → IsSettledStore (save_snapshot codec state reason failed_bar fingerprint id now s).1
  unfolding save_snapshot
  save_snapshot-IsSettledStore state reason failed_bar fingerprint id now s h =
      elim (Bool-cases failed_bar) [
        | inl failed ↦ rw (save_snapshot, failed) h
        | inr fine ↦
            let waits =
              is_interval s.save_policy
              && ltb (number_or_zero (get s.bars_since_last_save state.strategy_id))
                  s.save_interval_bars in
            elim (Bool-cases waits) [
              | inl skip ↦
                  rw (save_snapshot, fine, skip) (record { registry = h.registry; index = h.index })
              | inr go ↦
                  rw (save_snapshot, fine, go)
                    (write_snapshot-IsSettledStore state reason fingerprint id now s h)
            ]
      ]
