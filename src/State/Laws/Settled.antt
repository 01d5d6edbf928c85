-- ===== src/State/Laws/Settled.antt =====
-- In the registry of a store and in the index file, every strategy has at most one active snapshot
-- (openpine/state/store.py).
use openpine.Base.Lists.{keep, All}
use openpine.State.Model.{SnapshotMetadata}
use openpine.State.Laws.Registry.{
  get-register_all, register_all-IsKeyed, put-IsKeyed, of_strategy, IsKeyed, keep-flatten,
}
use openpine.State.Laws.Counts.{actives-keep-keep, actives}
use openpine.State.Index.{
  unreadable, register_all, path_signature, file_exists, same_stamp, readable, load_index_file,
  IndexFile, reload_if_changed, StateStore, persist_metadata_index, load_metadata_index,
}
use openpine.Base.Dict.{get-put, put, listed, get, Dict}
use openpine.Base.{
  ◌==◌, refl, false, none, ◌≤◌, arith, true, sym, [], some, if◌then◌else◌, subst, ◌≡◌, List, Bool,
  Option, String,
}

pub record IsSettled (registry : Dict (List SnapshotMetadata)) : Type 0 where
  pub keyed : IsKeyed registry
  pub one : (k : String) → actives (listed (get registry k)) ≤ 1

-- an index that cannot be read leaves the registry as it is
abbrev pub IsSettledIndex : Option IndexFile → Type 0
IsSettledIndex none = Unit
IsSettledIndex (some unreadable) = Unit
IsSettledIndex (some (readable metas)) = (k : String) → actives (keep (of_strategy k) metas) ≤ 1

pub empty-IsSettled : IsSettled []
unfolding get actives
empty-IsSettled = record { keyed = tt; one = λ k. omega arith }

pub put-IsSettled :
    (registry : Dict (List SnapshotMetadata)) (k : String) (metas : List SnapshotMetadata)
    → IsSettled registry
    → All (λ m. m.strategy_id ≡ k) metas
    → actives metas ≤ 1
    → IsSettled (put registry k metas)
put-IsSettled registry k metas h own few = record {
  keyed = put-IsKeyed registry k metas h.keyed own;
  one = λ j. rw (get-put registry k j metas) (cases j (k == j));
}
  where
    cases :
        (j : String) (b : Bool)
        → actives (listed (elim b [ true ↦ some metas | false ↦ get registry j ])) ≤ 1
    cases j true = few
    cases j false = h.one j

register_all-IsSettled :
    (metas : List SnapshotMetadata) (p : SnapshotMetadata → Bool)
    → ((k : String) → actives (keep (of_strategy k) metas) ≤ 1)
    → IsSettled (register_all (keep p metas) [])
unfolding get
register_all-IsSettled metas p few = record {
  keyed = register_all-IsKeyed (keep p metas) [] tt;
  one = λ k.
      rw (get-register_all (keep p metas) [] k)
        (omega (arith, actives-keep-keep (of_strategy k) p metas, few k));
}

module _ {P : Type 0} where
  pub load_metadata_index-IsSettled :
      (force : Bool) (s : StateStore P)
      → IsSettled s.snapshots
      → IsSettledIndex s.disk.index
      → IsSettled (load_metadata_index force s).snapshots
  unfolding load_metadata_index
  load_metadata_index-IsSettled force s h index = cases force s.disk.index index
    where
      cases :
          (b : Bool) (file : Option IndexFile)
          → IsSettledIndex file
          → IsSettled (load_index_file file b s).snapshots
      cases true none i = empty-IsSettled
      cases false none i = h
      cases b (some unreadable) i = h
      cases b (some (readable metas)) i = register_all-IsSettled metas (file_exists s.disk) i

  -- a reload leaves the directory alone
  pub load_metadata_index-disk :
      (force : Bool) (s : StateStore P) → (load_metadata_index force s).disk ≡ s.disk
  unfolding load_metadata_index
  load_metadata_index-disk force s = cases s.disk.index
    where
      cases : (file : Option IndexFile) → (load_index_file file force s).disk ≡ s.disk
      cases none = refl
      cases (some unreadable) = refl
      cases (some (readable metas)) = refl

  pub persist_metadata_index-IsSettledIndex :
      (s : StateStore P)
      → IsSettled s.snapshots
      → IsSettledIndex (persist_metadata_index s).disk.index
  unfolding persist_metadata_index
  persist_metadata_index-IsSettledIndex s h k = rw (keep-flatten s.snapshots k h.keyed) (h.one k)

  -- a store and its directory, both settled
  pub record IsSettledStore (s : StateStore P) : Type 0 where
    pub registry : IsSettled s.snapshots
    pub index : IsSettledIndex s.disk.index

  pub load_metadata_index-IsSettledStore :
      (force : Bool) (s : StateStore P)
      → IsSettledStore s
      → IsSettledStore (load_metadata_index force s)
  load_metadata_index-IsSettledStore force s h = record {
    registry = load_metadata_index-IsSettled force s h.registry h.index;
    index = subst (λ d. IsSettledIndex d.index) (sym (load_metadata_index-disk force s)) h.index;
  }

  pub reload_if_changed-disk : (s : StateStore P) → (reload_if_changed s).disk ≡ s.disk
  unfolding reload_if_changed
  reload_if_changed-disk s = cases (same_stamp (path_signature s.disk) s.index_signature)
    where
      cases : (b : Bool) → (if b then s else load_metadata_index true s).disk ≡ s.disk
      cases true = refl
      cases false = load_metadata_index-disk true s

  pub reload_if_changed-IsSettledStore :
      (s : StateStore P) → IsSettledStore s → IsSettledStore (reload_if_changed s)
  unfolding reload_if_changed
  reload_if_changed-IsSettledStore s h =
      cases (same_stamp (path_signature s.disk) s.index_signature)
    where
      cases : (b : Bool) → IsSettledStore (if b then s else load_metadata_index true s)
      cases true = h
      cases false = load_metadata_index-IsSettledStore true s h

  pub persist_metadata_index-IsSettledStore :
      (s : StateStore P) → IsSettled s.snapshots → IsSettledStore (persist_metadata_index s)
  unfolding persist_metadata_index
  persist_metadata_index-IsSettledStore s h = record {
    registry = h;
    index = persist_metadata_index-IsSettledIndex s h;
  }
