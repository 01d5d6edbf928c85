-- ===== src/State/Index.antt =====
-- The metadata index of openpine/state/store.py: the registry in memory, the file
-- `snapshots.index.json` beside the snapshot files, and how each is brought up to date with the other.
-- A write of the index gives it a new `stamp`, which stands for its time and size.
use mathlib.Core.List.{flatten}
use openpine.Base.Lists.{keep}
use openpine.Base.Dict.{listed, Dict, put, values, get}
use openpine.State.Model.{SnapshotMetadata, SavePolicy}
use openpine.Base.{
  eqb, none, ◌+◌, ◌∷◌, ◌++◌, some, [], false, ℕ, true, if◌then◌else◌, Bool, Option, List, String,
}

pub data IndexFile : Type 0 where
  readable : List SnapshotMetadata → IndexFile
  unreadable : IndexFile

-- the storage directory, which several processes share; a file is found by strategy and snapshot
pub record Disk (P : Type 0) : Type 0 where
  pub index : Option IndexFile
  pub stamp : ℕ
  pub files : String → String → Option P

-- a `StateStore` and the directory that it works on
pub record StateStore (P : Type 0) : Type 0 where
  pub save_policy : SavePolicy
  pub save_interval_bars : ℕ
  pub max_snapshots_per_strategy : ℕ
  pub bars_since_last_save : Dict ℕ
  pub snapshots : Dict (List SnapshotMetadata)
  pub index_signature : Option ℕ
  pub disk : Disk P

-- `self._snapshots[meta.strategy_id].append(meta)`
unfoldable pub register :
    SnapshotMetadata → Dict (List SnapshotMetadata) → Dict (List SnapshotMetadata)
unfolding get put
register meta registry =
    put registry meta.strategy_id (listed (get registry meta.strategy_id) ++ meta ∷ [])

-- the loop of `_load_metadata_index` over the items whose file exists
unfoldable pub register_all :
    List SnapshotMetadata → Dict (List SnapshotMetadata) → Dict (List SnapshotMetadata)
unfolding register
register_all [] registry = registry
register_all (m ∷ metas) registry = register_all metas (register m registry)

abbrev pub is_some {ℓ} : {A : Type ℓ} → Option A → Bool
is_some none = false
is_some (some a) = true

-- s == t on optional numbers
abbrev pub same_stamp : Option ℕ → Option ℕ → Bool
same_stamp none none = true
same_stamp (some a) (some b) = eqb a b
same_stamp _ _ = false

module _ {P : Type 0} where
  abbrev pub file_exists : Disk P → SnapshotMetadata → Bool
  file_exists disk meta = is_some (disk.files meta.strategy_id meta.snapshot_id)

  -- `_path_signature` of the index file
  abbrev pub path_signature : Disk P → Option ℕ
  path_signature disk = elim disk.index [ none ↦ none | some _ ↦ some disk.stamp ]

  -- what `_load_metadata_index` does with the file that it found
  unfoldable pub load_index_file : Option IndexFile → Bool → StateStore P → StateStore P
  unfolding register_all
  load_index_file none force s = record s {
    snapshots = if force then [] else s.snapshots;
    index_signature = none;
  }
  load_index_file (some unreadable) force s = s
  load_index_file (some (readable metas)) force s = record s {
    snapshots = register_all (keep (file_exists s.disk) metas) [];
    index_signature = some s.disk.stamp;
  }

  -- `_load_metadata_index`
  unfoldable pub load_metadata_index : Bool → StateStore P → StateStore P
  unfolding load_index_file
  load_metadata_index force s = load_index_file s.disk.index force s

  -- `_reload_metadata_index_if_changed`
  unfoldable pub reload_if_changed : StateStore P → StateStore P
  unfolding load_metadata_index
  reload_if_changed s =
      if same_stamp (path_signature s.disk) s.index_signature then s else load_metadata_index true s

  -- `_persist_metadata_index`
  unfoldable pub persist_metadata_index : StateStore P → StateStore P
  unfolding values
  persist_metadata_index s = record s {
    index_signature = some (s.disk.stamp + 1);
    disk = record s.disk {
      index = some (readable (flatten (values s.snapshots)));
      stamp = s.disk.stamp + 1;
    };
  }

  -- a body under `_locked_metadata_mutation`
  unfoldable pub locked : (StateStore P → StateStore P) → StateStore P → StateStore P
  unfolding load_metadata_index
  locked body s = body (load_metadata_index true s)

  abbrev pub snapshots_of : StateStore P → String → List SnapshotMetadata
  snapshots_of s strategy_id = listed (get s.snapshots strategy_id)
