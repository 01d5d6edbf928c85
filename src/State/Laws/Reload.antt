-- ===== src/State/Laws/Reload.antt =====
-- The round trip of save_snapshot and load_snapshot (openpine/state/store.py).
use openpine.State.Codec.{Value}
use openpine.State.Codec.Safe.{to_msgpack_safe, from_msgpack_safe}
use openpine.State.Codec.Laws.{restores}
use openpine.State.Codec.Restorable.{exported, IsRestorable}
use openpine.State.Codec.Packing.{Packages, codec_of, IsMsgpack}
use openpine.State.Laws.Settled.{load_metadata_index-disk}
use openpine.State.Laws.Saving.{latest_in-pruned}
use openpine.State.Snapshots.{
  decode_payload, load_snapshot, load_file, save_snapshot, write_file, snapshot_metadata,
  encode_payload,
}
use openpine.State.Laws.Rebuilding.{load_snapshot-load_from, load_from}
use openpine.Base.Lists.{All-map, All}
use openpine.State.Store.{no_filters, latest_in, is_active, older, record_snapshot}
use openpine.State.Index.{snapshots_of, Disk, StateStore, load_metadata_index}
use openpine.State.Model.{
  msgpack, Payload, snapshot_payload, Encoding, StrategyState, SnapshotMetadata, Codec,
}
use openpine.Base.{
  Bool-cases, inl, Option-cases, eq_refl, inr, ap, ◌<◌, refl, ◌∙◌, sym, none, subst, arith, some,
  true, ◌≡◌, Option, ℕ, Bool, String,
}
use openpine.State.Laws.RoundTrip.{
  record_snapshot-file, record_snapshot-snapshots, load_metadata_index-IsNew, load_file-packed,
  load_metadata_index-max, reload_if_changed-record_snapshot, save_snapshot-IsSaved, IsNew,
  Precedes,
}

module _ {V P : Type 0} (codec : Codec V P) where
  written :
      (k id : String) (packed : P) (disk : Disk P)
      → (write_file codec k id packed disk).files k id ≡ some packed
  written k id packed disk = ground (arith, eq_refl k, eq_refl id)

  load_from-record_snapshot :
      (meta : SnapshotMetadata) (s : StateStore P)
      → 0 < s.max_snapshots_per_strategy
      → is_active meta.status ≡ true
      → All (Precedes meta) (snapshots_of s meta.strategy_id)
      → load_from codec meta.strategy_id (record_snapshot meta s) ≡ (
        load_file codec (s.disk.files meta.strategy_id meta.snapshot_id) meta,
        record_snapshot meta s,
      )
  load_from-record_snapshot meta s pos live new =
      let xs = snapshots_of s meta.strategy_id in
      let t = record_snapshot meta s in
      let found =
        ap (λ ys. latest_in ys no_filters) (record_snapshot-snapshots meta s)
        ∙ latest_in-pruned meta s.max_snapshots_per_strategy xs pos live
            (All-map (Precedes meta) (λ m. older m meta ≡ true) xs (λ m h. h.0) new) in
      ap
        (λ o. elim o [
          | none ↦ (inr none, t)
          | some m ↦ (load_file codec (t.disk.files m.strategy_id m.snapshot_id) m, t)
        ])
        found
      ∙ ap (λ f. (load_file codec f meta, t)) (record_snapshot-file meta s pos new)

  recorded :
      (state : StrategyState V) (reason : String) (fingerprint : Option String) (id : String)
      (now : ℕ) (packed : P) (encoding : Encoding) (back : V) (s : StateStore P)
      → decode_payload codec packed encoding
        ≡ some (record (snapshot_payload state fingerprint) { runtime_state = back })
      → 0 < s.max_snapshots_per_strategy
      → let m = snapshot_metadata codec state reason fingerprint id now packed encoding in
        All (Precedes m) (snapshots_of s m.strategy_id)
        → s.disk.files state.strategy_id id ≡ some packed
        → load_snapshot codec state.strategy_id (record_snapshot m s)
          ≡ (inr (some (record state { state_data = back; saved_at = 0 })), record_snapshot m s)
  unfolding snapshot_metadata
  recorded state reason fingerprint id now packed encoding back s decodes pos new file =
      let m = snapshot_metadata codec state reason fingerprint id now packed encoding in
      load_snapshot-load_from codec state.strategy_id (record_snapshot m s)
      ∙ ap (load_from codec state.strategy_id) (reload_if_changed-record_snapshot m s)
      ∙ load_from-record_snapshot m s pos refl new
      ∙ ap (λ f. (load_file codec f m, record_snapshot m s)) file
      ∙ ap (λ r. (r, record_snapshot m s))
          (load_file-packed codec state reason fingerprint id now packed encoding back decodes)

  -- over any codec that gives the payload back with the variables `back`
  load_snapshot-saved :
      (state : StrategyState V) (reason : String) (failed_bar : Bool) (fingerprint : Option String)
      (id : String) (now : ℕ) (s : StateStore P) (meta : SnapshotMetadata) (back : V)
      → ((x : P)
          → encode_payload codec (snapshot_payload state fingerprint)
            ≡ some (x, meta.state_encoding)
          → decode_payload codec x meta.state_encoding
            ≡ some (record (snapshot_payload state fingerprint) { runtime_state = back }))
      → (save_snapshot codec state reason failed_bar fingerprint id now s).0 ≡ inr (some meta)
      → IsNew meta s.disk.index
      → 0 < s.max_snapshots_per_strategy
      → let s' = (save_snapshot codec state reason failed_bar fingerprint id now s).1 in
        load_snapshot codec state.strategy_id s'
        ≡ (inr (some (record state { state_data = back; saved_at = 0 })), s')
  unfolding snapshot_metadata
  load_snapshot-saved state reason failed_bar fingerprint id now s meta back decodes h new pos =
      let saved = save_snapshot-IsSaved codec state reason failed_bar fingerprint id now s meta h in
      let s₁ = record s { disk = write_file codec state.strategy_id id saved.packed s.disk } in
      let m = snapshot_metadata codec state reason fingerprint id now saved.packed saved.encoding in
      let payload = snapshot_payload state fingerprint in
      let same : meta.state_encoding ≡ saved.encoding =
        ap (λ x. x.state_encoding) saved.described in
      let decoded =
        subst
          (λ e.
            decode_payload codec saved.packed e ≡ some (record payload { runtime_state = back }))
          same
          (decodes saved.packed (saved.encodes ∙ ap (λ e. some (saved.packed, e)) (sym same))) in
      let here =
        recorded state reason fingerprint id now saved.packed saved.encoding back
          (load_metadata_index true s₁) decoded (omega (arith, load_metadata_index-max s₁, pos))
          (load_metadata_index-IsNew m s₁ (subst (λ x. IsNew x s.disk.index) saved.described new))
          (ap (λ d. d.files state.strategy_id id) (load_metadata_index-disk true s₁)
            ∙ written state.strategy_id id saved.packed s.disk) in
      subst
        (λ t.
          load_snapshot codec state.strategy_id t
          ≡ (inr (some (record state { state_data = back; saved_at = 0 })), t))
        (sym (
          saved.stored ∙ ap (λ x. record_snapshot x (load_metadata_index true s₁)) saved.described))
        here

  pack-encode_payload :
      (p : Payload V) (x : P) → encode_payload codec p ≡ some (x, msgpack) → codec.pack p ≡ some x
  unfolding encode_payload
  pack-encode_payload p x h = elim (Option-cases (codec.pack p)) [
    | inr (y, e) ↦ ground (arith, h, e)
    | inl n ↦ elim (Bool-cases codec.pickle_enabled) [
      | inl on ↦ absurd (ground (arith, h, n, on))
      | inr off ↦ absurd (ground (arith, h, n, off))
    ]
  ]

module _ {P : Type 0} (packages : Packages P) where
  codec_of-pack :
      (p : Payload Value) (w : Value)
      → to_msgpack_safe p.runtime_state ≡ some w
      → (codec_of packages).pack p ≡ packages.packb (record p { runtime_state = w })
  unfolding codec_of
  codec_of-pack p w t =
      ap (λ o. elim o [ none ↦ none | some w ↦ packages.packb (record p { runtime_state = w }) ]) t

  codec_of-unpack :
      (p : Payload Value) (x : P) (v : Value)
      → packages.unpackb x ≡ some p
      → from_msgpack_safe packages.engine p.runtime_state ≡ some v
      → (codec_of packages).unpack x ≡ some (record p { runtime_state = v })
  unfolding codec_of
  codec_of-unpack p x v u f =
      ap
        (λ o. elim o [
          | none ↦ none
          | some p ↦ elim (from_msgpack_safe packages.engine p.runtime_state) [
            | none ↦ none
            | some v ↦ some (record p { runtime_state = v })
          ]
        ])
        u
      ∙ ap (λ o. elim o [ none ↦ none | some v ↦ some (record p { runtime_state = v }) ]) f

  -- a payload that was packed by msgpack comes back with its values as the codec exports them
  decode_payload-encode_payload :
      (faithful : IsMsgpack packages) (p : Payload Value) (x : P) (encoding : Encoding)
      → IsRestorable packages.engine p.runtime_state
      → encoding ≡ msgpack
      → encode_payload (codec_of packages) p ≡ some (x, encoding)
      → decode_payload (codec_of packages) x encoding
        ≡ some (record p { runtime_state = exported p.runtime_state })
  unfolding decode_payload
  decode_payload-encode_payload faithful p x encoding restorable packed h =
      let (w, t, f, plain) = restores packages.engine p.runtime_state restorable in
      let safe = record p { runtime_state = w } in
      let packs : packages.packb safe ≡ some x =
        sym (codec_of-pack p w t)
        ∙ pack-encode_payload (codec_of packages) p x (h ∙ ap (λ e. some (x, e)) packed) in
      subst
        (λ e.
          decode_payload (codec_of packages) x e
          ≡ some (record p { runtime_state = exported p.runtime_state }))
        (sym packed)
        (codec_of-unpack safe x (exported p.runtime_state) (faithful safe x plain packs) f)

  -- When save_snapshot takes a snapshot, packed by msgpack, of a state whose variables the codec can restore,
  -- and the snapshot is newer, by bar time and then by time of saving, than every snapshot of its
  -- strategy in a readable index and has a new id, then load_snapshot gives back the saved state,
  -- whatever is pruned: its variables are the same but for the namespaces, which are mappings now, and
  -- its time of saving is gone. msgpack gives back what it packs, and the limit of snapshots is not
  -- zero.
  pub load_snapshot-save_snapshot :
      (faithful : IsMsgpack packages) (state : StrategyState Value) (reason : String)
      (failed_bar : Bool) (fingerprint : Option String) (id : String) (now : ℕ) (s : StateStore P)
      (meta : SnapshotMetadata)
      → IsRestorable packages.engine state.state_data
      → (save_snapshot (codec_of packages) state reason failed_bar fingerprint id now s).0
        ≡ inr (some meta)
      → meta.state_encoding ≡ msgpack
      → IsNew meta s.disk.index
      → 0 < s.max_snapshots_per_strategy
      → let s' =
          (save_snapshot (codec_of packages) state reason failed_bar fingerprint id now s).1 in
        load_snapshot (codec_of packages) state.strategy_id s'
        ≡ (inr (some (record state { state_data = exported state.state_data; saved_at = 0 })), s')
  unfolding snapshot_payload
  load_snapshot-save_snapshot faithful state reason failed_bar fingerprint id now s meta restorable
        h packed new pos =
      load_snapshot-saved (codec_of packages) state reason failed_bar fingerprint id now s meta
        (exported state.state_data)
        (λ x e.
          decode_payload-encode_payload faithful (snapshot_payload state fingerprint) x
            meta.state_encoding restorable packed e)
        h new pos
