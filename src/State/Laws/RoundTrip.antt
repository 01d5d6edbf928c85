-- ===== src/State/Laws/RoundTrip.antt =====
-- What a save leaves in the registry and on the disk (openpine/state/store.py).
use openpine.State.Laws.Calls.{map-All}
use openpine.State.Laws.Saving.{map-supersede-older, sort_newest-last}
use openpine.State.Snapshots.{
  checked_state, decode_payload, number_or_zero, is_interval, load_file, save_snapshot, write_file,
  snapshot_metadata, encode_payload, write_snapshot,
}
use openpine.Base.Dict.{get, get-put_self, listed, put}
use openpine.State.Laws.Registry.{get-register_all, of_strategy}
use openpine.State.Laws.Rebuilding.{reload_unchanged}
use openpine.State.Laws.Counts.{All-sort_newest, pruned}
use openpine.Base.Lists.{All-map, drop, keep, All}
use openpine.State.Store.{
  StateError, sort_newest, supersede, remove_file, older, record_snapshot, remove_files,
}
use openpine.State.Index.{
  locked, file_exists, unreadable, readable, load_index_file, reload_if_changed, snapshots_of, Disk,
  IndexFile, StateStore, load_metadata_index,
}
use openpine.State.Model.{snapshot_payload, Encoding, StrategyState, SnapshotMetadata, Codec}
use openpine.Base.{
  eq_refl, ltb, ◌&&◌, ◌⊎◌, Bool-cases, inl, Option-cases, inr, ap, ◌<◌, refl, ◌++◌, ◌∙◌, sym, [],
  ◌∷◌, none, zero, subst, arith, map, false, suc, ◌∷◌, ◌==◌, some, true, ◌≡◌, List, Option, ℕ, Bool,
  String,
}

-- the snapshots of a strategy in the index file are older than a new one and have other ids
abbrev pub IsNew : SnapshotMetadata → Option IndexFile → Type 0
IsNew meta none = Unit
IsNew meta (some unreadable) = ⊥
IsNew meta (some (readable metas)) =
    All (λ m. (older m meta ≡ true) × ((meta.snapshot_id == m.snapshot_id) ≡ false))
      (keep (of_strategy meta.strategy_id) metas)

pub All-keep-keep {ℓ κ} :
    {A : Type ℓ} (P : A → Type κ) (p q : A → Bool) (xs : List A)
    → All P (keep p xs)
    → All P (keep p (keep q xs))
All-keep-keep P p q [] h = tt
All-keep-keep P p q (x ∷ xs) h =
    let ih = All-keep-keep P p q xs (tail (p x) h) in outer (q x) (both (p x) h ih) ih
  where
    tail :
        (b : Bool) → All P (elim b [ true ↦ x ∷ keep p xs | false ↦ keep p xs ]) → All P (keep p xs)
    tail true g = g.1
    tail false g = g

    both :
        (b : Bool)
        → All P (elim b [ true ↦ x ∷ keep p xs | false ↦ keep p xs ])
        → All P (keep p (keep q xs))
        → All P (elim b [ true ↦ x ∷ keep p (keep q xs) | false ↦ keep p (keep q xs) ])
    both true g ih = (g.0, ih)
    both false g ih = ih

    outer :
        (b : Bool)
        → All P (keep p (x ∷ keep q xs))
        → All P (keep p (keep q xs))
        → All P (keep p (elim b [ true ↦ x ∷ keep q xs | false ↦ keep q xs ]))
    outer true with_x without = with_x
    outer false with_x without = without

All-drop {ℓ κ} : {A : Type ℓ} (P : A → Type κ) (n : ℕ) (xs : List A) → All P xs → All P (drop n xs)
All-drop P zero xs h = h
All-drop P (suc n) [] h = tt
All-drop P (suc n) (x ∷ xs) h = All-drop P n xs h.1

abbrev pub DiffersFrom : SnapshotMetadata → SnapshotMetadata → Type 0
DiffersFrom meta m = (meta.snapshot_id == m.snapshot_id) ≡ false

abbrev pub Precedes : SnapshotMetadata → SnapshotMetadata → Type 0
Precedes meta m = (older m meta ≡ true) × DiffersFrom meta m

-- what a save prunes are other snapshots
stale-DiffersFrom :
    (meta : SnapshotMetadata) (n : ℕ) (xs : List SnapshotMetadata)
    → 0 < n
    → All (Precedes meta) xs
    → All (DiffersFrom meta) (drop n (sort_newest (map supersede xs ++ meta ∷ [])))
stale-DiffersFrom meta zero xs pos new = absurd (omega arith)
stale-DiffersFrom meta (suc n) xs pos new =
    subst (λ ys. All (DiffersFrom meta) (drop (suc n) ys))
      (sym (
        sort_newest-last meta (map supersede xs) (
          map-supersede-older meta true xs
            (All-map (Precedes meta) (λ m. older m meta ≡ true) xs (λ m h. h.0) new))))
      (All-drop (DiffersFrom meta) n (sort_newest (map supersede xs)) (
        All-sort_newest (DiffersFrom meta) (map supersede xs) (
          map-All (DiffersFrom meta) supersede xs
            (λ m h. ap (λ i. meta.snapshot_id == i) (same m) ∙ h)
            (All-map (Precedes meta) (DiffersFrom meta) xs (λ m h. h.1) new))))
  where
    same : (m : SnapshotMetadata) → (supersede m).snapshot_id ≡ m.snapshot_id
    same m = ground arith

module _ {P : Type 0} where
  pub load_metadata_index-IsNew :
      (meta : SnapshotMetadata) (s : StateStore P)
      → IsNew meta s.disk.index
      → All (Precedes meta) (snapshots_of (load_metadata_index true s) meta.strategy_id)
  unfolding load_metadata_index
  load_metadata_index-IsNew meta s h = cases s.disk.index h
    where
      cases :
          (file : Option IndexFile)
          → IsNew meta file
          → All (Precedes meta) (snapshots_of (load_index_file file true s) meta.strategy_id)
      cases none g = tt
      cases (some unreadable) g = absurd g
      cases (some (readable metas)) g =
          subst (All (Precedes meta))
            (sym (get-register_all (keep (file_exists s.disk) metas) [] meta.strategy_id))
            (All-keep-keep (Precedes meta) (of_strategy meta.strategy_id) (file_exists s.disk) metas
              g)

  remove_files-other :
      (k id : String) (metas : List SnapshotMetadata) (disk : Disk P)
      → All (λ m. (id == m.snapshot_id) ≡ false) metas
      → (remove_files k metas disk).files k id ≡ disk.files k id
  unfolding remove_files
  remove_files-other k id [] disk h = refl
  remove_files-other k id (m ∷ metas) disk h =
      remove_files-other k id metas (remove_file k m.snapshot_id disk) h.1 ∙ ground (arith, h.0)

  pub load_metadata_index-max :
      (s : StateStore P)
      → (load_metadata_index true s).max_snapshots_per_strategy ≡ s.max_snapshots_per_strategy
  unfolding load_metadata_index
  load_metadata_index-max s = cases s.disk.index
    where
      cases :
          (file : Option IndexFile)
          → (load_index_file file true s).max_snapshots_per_strategy ≡ s.max_snapshots_per_strategy
      cases none = refl
      cases (some unreadable) = refl
      cases (some (readable metas)) = refl

  -- the list of the strategy after the body of a save
  pub record_snapshot-snapshots :
      (meta : SnapshotMetadata) (s : StateStore P)
      → snapshots_of (record_snapshot meta s) meta.strategy_id
        ≡ pruned s.max_snapshots_per_strategy
            (map supersede (snapshots_of s meta.strategy_id) ++ meta ∷ [])
  unfolding record_snapshot
  record_snapshot-snapshots meta s =
      let metas = map supersede (snapshots_of s meta.strategy_id) ++ meta ∷ [] in
      let registry = put s.snapshots meta.strategy_id metas in
      ap listed (
        get-put_self registry meta.strategy_id
          (pruned s.max_snapshots_per_strategy (listed (get registry meta.strategy_id))))
      ∙ ap (λ o. pruned s.max_snapshots_per_strategy (listed o))
          (get-put_self s.snapshots meta.strategy_id metas)

  pub reload_if_changed-record_snapshot :
      (meta : SnapshotMetadata) (s : StateStore P)
      → reload_if_changed (record_snapshot meta s) ≡ record_snapshot meta s
  unfolding record_snapshot
  reload_if_changed-record_snapshot meta s =
      reload_unchanged (record_snapshot meta s) (ground arith)

  -- and the file of the new snapshot
  pub record_snapshot-file :
      (meta : SnapshotMetadata) (s : StateStore P)
      → 0 < s.max_snapshots_per_strategy
      → All (Precedes meta) (snapshots_of s meta.strategy_id)
      → (record_snapshot meta s).disk.files meta.strategy_id meta.snapshot_id
        ≡ s.disk.files meta.strategy_id meta.snapshot_id
  unfolding record_snapshot
  record_snapshot-file meta s pos new =
      let metas = map supersede (snapshots_of s meta.strategy_id) ++ meta ∷ [] in
      remove_files-other meta.strategy_id meta.snapshot_id
        (drop s.max_snapshots_per_strategy
          (sort_newest (listed (get (put s.snapshots meta.strategy_id metas) meta.strategy_id))))
        s.disk
        (subst
          (λ o. All (DiffersFrom meta) (drop s.max_snapshots_per_strategy (sort_newest (listed o))))
          (sym (get-put_self s.snapshots meta.strategy_id metas))
          (stale-DiffersFrom meta s.max_snapshots_per_strategy (snapshots_of s meta.strategy_id) pos
            new))

saved_meta :
    {a : SnapshotMetadata} (b : SnapshotMetadata)
    → ◌≡◌ {A = StateError ⊎ Option SnapshotMetadata} (inr (some a)) (inr (some b))
    → a ≡ b
saved_meta {a} b e = ap (λ x. elim x [ inl _ ↦ a | inr none ↦ a | inr (some m) ↦ m ]) e

module _ {V P : Type 0} (codec : Codec V P) where
  -- the call of a save that took a snapshot
  pub record IsSaved (state : StrategyState V) (reason : String) (fingerprint : Option String)
      (id : String) (now : ℕ) (s s' : StateStore P) (meta : SnapshotMetadata) : Type 0 where
    pub packed : P
    pub encoding : Encoding
    pub encodes :
        encode_payload codec (snapshot_payload state fingerprint) ≡ some (packed, encoding)
    pub described : meta ≡ snapshot_metadata codec state reason fingerprint id now packed encoding
    pub stored :
        s'
        ≡ record_snapshot meta (
            load_metadata_index true
              (record s { disk = write_file codec state.strategy_id id packed s.disk }))

  pub write_snapshot-IsSaved :
      (state : StrategyState V) (reason : String) (fingerprint : Option String) (id : String)
      (now : ℕ) (s : StateStore P) (meta : SnapshotMetadata)
      → (write_snapshot codec state reason fingerprint id now s).0 ≡ inr (some meta)
      → IsSaved state reason fingerprint id now s
          (write_snapshot codec state reason fingerprint id now s).1
          meta
  unfolding write_snapshot locked
  write_snapshot-IsSaved state reason fingerprint id now s meta h =
      elim (Option-cases (encode_payload codec (snapshot_payload state fingerprint))) [
        | inl fails ↦ absurd (ground (arith, rw (write_snapshot, fails) at h))
        | inr ((packed, encoding), encodes) ↦
            elim (Bool-cases (codec.is_component state.strategy_id)) [
              | inr bad ↦ absurd (ground (arith, rw (write_snapshot, encodes, bad) at h))
              | inl fine ↦
                  let s₀ =
                    load_metadata_index true
                      (record s { disk = write_file codec state.strategy_id id packed s.disk }) in
                  let e = saved_meta meta (rw (write_snapshot, encodes, fine) at h) in
                  record {
                    packed = packed;
                    encoding = encoding;
                    encodes = encodes;
                    described = sym e;
                    stored = rw (write_snapshot, encodes, fine) (ap (λ m. record_snapshot m s₀) e);
                  }
            ]
      ]

  pub save_snapshot-IsSaved :
      (state : StrategyState V) (reason : String) (failed_bar : Bool) (fingerprint : Option String)
      (id : String) (now : ℕ) (s : StateStore P) (meta : SnapshotMetadata)
      → (save_snapshot codec state reason failed_bar fingerprint id now s).0 ≡ inr (some meta)
      → IsSaved state reason fingerprint id now s
          (save_snapshot codec state reason failed_bar fingerprint id now s).1
          meta
  unfolding save_snapshot
  save_snapshot-IsSaved state reason true fingerprint id now s meta h = absurd (ground (arith, h))
  save_snapshot-IsSaved state reason false fingerprint id now s meta h =
      elim (Bool-cases (
        is_interval s.save_policy
        && ltb (number_or_zero (get s.bars_since_last_save state.strategy_id))
            s.save_interval_bars)) [
              | inl skip ↦ absurd (ground (arith, rw (save_snapshot, skip) at h))
              | inr go ↦
                  rw (save_snapshot, go)
                    (write_snapshot-IsSaved state reason fingerprint id now s meta
                      (rw (save_snapshot, go) at h))
            ]

  -- a payload that is decoded, with its own checksum, is read back as the state with its variables
  pub load_file-packed :
      (state : StrategyState V) (reason : String) (fingerprint : Option String) (id : String)
      (now : ℕ) (packed : P) (encoding : Encoding) (back : V)
      → decode_payload codec packed encoding
        ≡ some (record (snapshot_payload state fingerprint) { runtime_state = back })
      → load_file codec
          (some packed)
          (snapshot_metadata codec state reason fingerprint id now packed encoding)
        ≡ inr (some (record state { state_data = back; saved_at = 0 }))
  unfolding load_file snapshot_metadata snapshot_payload checked_state
  load_file-packed state reason fingerprint id now packed encoding back h =
      rw (eq_refl (codec.sha256 packed), h) refl
