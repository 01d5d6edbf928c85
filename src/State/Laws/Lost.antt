-- ===== src/State/Laws/Lost.antt =====
-- A snapshot that a save prunes at once (openpine/state/store.py): `prune` keeps the newest by bar time,
-- and the new snapshot need not be among them.
use openpine.State.Laws.Rebuilding.{load_from, load_snapshot-load_from}
use openpine.State.Laws.Saving.{
  supersede-IsInactive, pruned-IsInactive, latest_in-none, map-supersede-older, sort_newest-first,
}
use openpine.State.Laws.Registry.{get-register_all, of_strategy}
use openpine.State.Laws.Counts.{pruned}
use openpine.State.Snapshots.{load_file, load_snapshot, save_snapshot, write_file}
use openpine.State.Index.{
  load_index_file, snapshots_of, readable, StateStore, file_exists, load_metadata_index, Disk,
}
use openpine.Base.Lists.{keep, All, take, length}
use openpine.State.Model.{StrategyState, Codec, SnapshotMetadata}
use openpine.State.Store.{
  record_snapshot, no_filters, latest_in, supersede, older, sort_newest, insert_newest,
}
use mathlib.Core.List.{reverse}
use openpine.State.Laws.RoundTrip.{
  reload_if_changed-record_snapshot, All-keep-keep, load_metadata_index-max,
  record_snapshot-snapshots, save_snapshot-IsSaved,
}
use openpine.Base.{
  sym, subst, inl, ◌&&◌, none, refl, zero, ◌==◌, [], ◌∷◌, inr, Bool-cases, ap, ◌++◌, some, ◌∙◌,
  arith, Option, false, true, map, ◌∷◌, suc, ◌≡◌, ◌≤◌, Bool, List, ℕ, String,
}

take-append {ℓ} :
    {A : Type ℓ} (n : ℕ) (xs ys : List A) → n ≤ length xs → take n (xs ++ ys) ≡ take n xs
take-append zero xs ys h = refl
take-append (suc n) [] ys h = absurd (omega arith)
take-append (suc n) (x ∷ xs) ys h = ap (λ zs. x ∷ zs) (take-append n xs ys (omega (arith, h)))

length-insert_newest :
    (m : SnapshotMetadata) (xs : List SnapshotMetadata)
    → length (insert_newest m xs) ≡ suc (length xs)
unfolding insert_newest
length-insert_newest m [] = refl
length-insert_newest m (x ∷ xs) = ground (arith, length-insert_newest m xs)

length-sort_newest : (xs : List SnapshotMetadata) → length (sort_newest xs) ≡ length xs
unfolding sort_newest
length-sort_newest [] = refl
length-sort_newest (x ∷ xs) =
    length-insert_newest x (sort_newest xs) ∙ ap suc (length-sort_newest xs)

length-supersede : (xs : List SnapshotMetadata) → length (map supersede xs) ≡ length xs
length-supersede [] = refl
length-supersede (x ∷ xs) = ap suc (length-supersede xs)

length-keep-keep {ℓ} :
    {A : Type ℓ} (p q r : A → Bool) (xs : List A)
    → ((x : A) → q x ≡ true → r x ≡ true)
    → length (keep p (keep q xs)) ≤ length (keep p (keep r xs))
length-keep-keep p q r [] h = omega arith
length-keep-keep p q r (x ∷ xs) h = ground (arith, h x, length-keep-keep p q r xs h)

abbrev IsNotOlder : SnapshotMetadata → SnapshotMetadata → Type 0
IsNotOlder meta m = older m meta ≡ false

latest_in-full :
    (meta : SnapshotMetadata) (n : ℕ) (xs : List SnapshotMetadata)
    → n ≤ length xs
    → All (IsNotOlder meta) xs
    → latest_in (pruned n (map supersede xs ++ meta ∷ [])) no_filters ≡ none
latest_in-full meta n xs full newer =
    ap (λ ys. latest_in (reverse (take n ys)) no_filters)
      (sort_newest-first meta (map supersede xs) (map-supersede-older meta false xs newer))
    ∙ ap (λ ys. latest_in (reverse ys) no_filters)
        (take-append n (sort_newest (map supersede xs)) (meta ∷ [])
          (omega (arith, length-sort_newest (map supersede xs), length-supersede xs, full)))
    ∙ latest_in-none no_filters (pruned n (map supersede xs))
        (pruned-IsInactive n (map supersede xs) (supersede-IsInactive xs))

module _ {V P : Type 0} (codec : Codec V P) where
  -- a file that is there is there after another is written
  file_exists-write_file :
      (k id : String) (packed : P) (disk : Disk P) (m : SnapshotMetadata)
      → file_exists disk m ≡ true
      → file_exists (write_file codec k id packed disk) m ≡ true
  file_exists-write_file k id packed disk m h =
      elim (Bool-cases (m.strategy_id == k && m.snapshot_id == id)) [
        | inl same ↦ rw same refl
        | inr other ↦ rw other h
      ]

  snapshots_of-load_metadata_index :
      (k : String) (s : StateStore P) (metas : List SnapshotMetadata)
      → s.disk.index ≡ some (readable metas)
      → snapshots_of (load_metadata_index true s) k
        ≡ keep (of_strategy k) (keep (file_exists s.disk) metas)
  unfolding load_metadata_index
  snapshots_of-load_metadata_index k s metas h =
      ap (λ f. snapshots_of (load_index_file f true s) k) h
      ∙ get-register_all (keep (file_exists s.disk) metas) [] k

  -- When the index of a strategy holds the maximum of snapshots with their files, none of them older
  -- than a new one, save_snapshot returns the metadata of the new snapshot and has pruned it: no
  -- snapshot of the strategy is active any more, and load_snapshot finds nothing.
  pub save_snapshot-pruned :
      (state : StrategyState V) (reason : String) (failed_bar : Bool) (fingerprint : Option String)
      (id : String) (now : ℕ) (s : StateStore P) (meta : SnapshotMetadata)
      (metas : List SnapshotMetadata)
      → (save_snapshot codec state reason failed_bar fingerprint id now s).0 ≡ inr (some meta)
      → s.disk.index ≡ some (readable metas)
      → All (IsNotOlder meta) (keep (of_strategy meta.strategy_id) metas)
      → s.max_snapshots_per_strategy
        ≤ length (keep (of_strategy meta.strategy_id) (keep (file_exists s.disk) metas))
      → let s' = (save_snapshot codec state reason failed_bar fingerprint id now s).1 in
        load_snapshot codec meta.strategy_id s' ≡ (inr none, s')
  save_snapshot-pruned state reason failed_bar fingerprint id now s meta metas h index newer full =
      let saved = save_snapshot-IsSaved codec state reason failed_bar fingerprint id now s meta h in
      let k = meta.strategy_id in
      let s₁ = record s { disk = write_file codec state.strategy_id id saved.packed s.disk } in
      let s₀ = load_metadata_index true s₁ in
      let t = record_snapshot meta s₀ in
      let list = snapshots_of-load_metadata_index k s₁ metas index in
      let many =
        length-keep-keep (of_strategy k) (file_exists s.disk) (file_exists s₁.disk) metas
          (λ m e. file_exists-write_file state.strategy_id id saved.packed s.disk m e) in
      let none_left =
        ap (λ ys. latest_in ys no_filters) (record_snapshot-snapshots meta s₀)
        ∙ latest_in-full meta s₀.max_snapshots_per_strategy (snapshots_of s₀ k)
            (omega (arith, load_metadata_index-max s₁, full, many, ap length list))
            (subst (All (IsNotOlder meta)) (sym list) (
              All-keep-keep (IsNotOlder meta) (of_strategy k) (file_exists s₁.disk) metas newer)) in
      subst (λ x. load_snapshot codec k x ≡ (inr none, x)) (sym saved.stored)
        (load_snapshot-load_from codec k t
          ∙ ap (load_from codec k) (reload_if_changed-record_snapshot meta s₀)
          ∙ ap
              (λ o. elim o [
                | none ↦ (inr none, t)
                | some m ↦ (load_file codec (t.disk.files m.strategy_id m.snapshot_id) m, t)
              ])
              none_left)
