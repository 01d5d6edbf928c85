-- ===== src/State/Laws/Registry.antt =====
-- The registry in memory and the index file (openpine/state/store.py): what is persisted is what a
-- reload gives back, strategy by strategy.
use mathlib.Core.List.{append-nil, append_assoc, flatten}
use openpine.Base.Dict.{put, get-put, values, get, listed, Dict}
use openpine.Base.Lists.{All-append, keep-append, All, keep}
use openpine.State.Index.{register, register_all}
use openpine.State.Model.{SnapshotMetadata}
use openpine.Base.{
  Bool-cases, inr, subst, eq_refl, inl, ◌⊎◌, true, eq_iff, none, ◌∙◌, false, sym, refl, [], ◌∷◌,
  arith, ◌∷◌, ◌≡◌, ◌++◌, List, ◌==◌, Bool, String,
}

-- the abstract view of a flat list of metadata: the list of each strategy
abbrev pub of_strategy : String → SnapshotMetadata → Bool
of_strategy k m = m.strategy_id == k

-- registering a list adds to each strategy the entries that are its own
pub get-register_all :
    (metas : List SnapshotMetadata) (registry : Dict (List SnapshotMetadata)) (k : String)
    → listed (get (register_all metas registry) k)
      ≡ listed (get registry k) ++ keep (of_strategy k) metas
unfolding register_all register
get-register_all [] registry k = sym (append-nil (listed (get registry k)))
get-register_all (m ∷ metas) registry k =
    get-register_all metas (register m registry) k
    ∙ ground (
      arith,
      get-put registry m.strategy_id k (listed (get registry m.strategy_id) ++ m ∷ []),
      eq_iff m.strategy_id k,
      append_assoc (listed (get registry k)) (m ∷ []) (keep (of_strategy k) metas),
    )

-- each strategy has one list, and its entries are its own
abbrev pub IsKeyed : Dict (List SnapshotMetadata) → Type 0
IsKeyed [] = Unit
IsKeyed ((k, metas) ∷ registry) =
    All (λ m. m.strategy_id ≡ k) metas × (get registry k ≡ none) × IsKeyed registry

keep-All :
    (k : String) (metas : List SnapshotMetadata)
    → All (λ m. m.strategy_id ≡ k) metas
    → keep (of_strategy k) metas ≡ metas
keep-All k [] h = refl
keep-All k (m ∷ metas) h = ground (arith, h.0, eq_iff m.strategy_id k, keep-All k metas h.1)

keep_none :
    (j k : String) (metas : List SnapshotMetadata)
    → (j == k) ≡ false
    → All (λ m. m.strategy_id ≡ j) metas
    → keep (of_strategy k) metas ≡ []
keep_none j k [] differ h = refl
keep_none j k (m ∷ metas) differ h =
    ground (arith, h.0, differ, eq_iff m.strategy_id k, eq_iff j k, keep_none j k metas differ h.1)

pub keep-flatten :
    (registry : Dict (List SnapshotMetadata)) (k : String)
    → IsKeyed registry
    → keep (of_strategy k) (flatten (values registry)) ≡ listed (get registry k)
unfolding values get flatten
keep-flatten [] k h = refl
keep-flatten ((j, metas) ∷ registry) k h =
    keep-append (of_strategy k) metas (flatten (values registry))
    ∙ cases (Bool-cases (j == k)) (keep-flatten registry k h.2)
  where
    cases :
        ((j == k) ≡ true) ⊎ ((j == k) ≡ false)
        → keep (of_strategy k) (flatten (values registry)) ≡ listed (get registry k)
        → keep (of_strategy k) metas ++ keep (of_strategy k) (flatten (values registry))
          ≡ listed (get ((j, metas) ∷ registry) k)
    cases (inl same) ih =
        let e : j ≡ k = (eq_iff j k).0 same in
        rw (ih, ← e, h.1, keep-All j metas h.0, append-nil metas, get, eq_refl j) refl
    cases (inr differ) ih = rw (ih, keep_none j k metas differ h.0, get, differ) refl

pub put-IsKeyed :
    (registry : Dict (List SnapshotMetadata)) (k : String) (metas : List SnapshotMetadata)
    → IsKeyed registry
    → All (λ m. m.strategy_id ≡ k) metas
    → IsKeyed (put registry k metas)
unfolding put get
put-IsKeyed [] k metas h own = (own, refl, tt)
put-IsKeyed ((j, xs) ∷ registry) k metas h own =
    cases (Bool-cases (j == k)) (put-IsKeyed registry k metas h.2 own)
  where
    cases :
        ((j == k) ≡ true) ⊎ ((j == k) ≡ false)
        → IsKeyed (put registry k metas)
        → IsKeyed (put ((j, xs) ∷ registry) k metas)
    cases (inl same) ih =
        let e : j ≡ k = (eq_iff j k).0 same in
        rw (IsKeyed, put, same) (own, subst (λ x. get registry x ≡ none) e h.1, h.2)
    cases (inr differ) ih =
        rw (IsKeyed, put, differ)
          (h.0, ground (arith, get-put registry k j metas, differ, eq_iff j k, eq_iff k j, h.1), ih)

pub get-own :
    (registry : Dict (List SnapshotMetadata)) (k : String)
    → IsKeyed registry
    → All (λ m. m.strategy_id ≡ k) (listed (get registry k))
unfolding get
get-own [] k h = tt
get-own ((j, xs) ∷ registry) k h = cases (Bool-cases (j == k)) (get-own registry k h.2)
  where
    cases :
        ((j == k) ≡ true) ⊎ ((j == k) ≡ false)
        → All (λ m. m.strategy_id ≡ k) (listed (get registry k))
        → All (λ m. m.strategy_id ≡ k) (listed (get ((j, xs) ∷ registry) k))
    cases (inl same) ih =
        rw (All, listed, get, same)
          (subst (λ x. All (λ m. m.strategy_id ≡ x) xs) ((eq_iff j k).0 same) h.0)
    cases (inr differ) ih = rw (All, listed, get, differ) ih

pub register_all-IsKeyed :
    (metas : List SnapshotMetadata) (registry : Dict (List SnapshotMetadata))
    → IsKeyed registry
    → IsKeyed (register_all metas registry)
unfolding register_all register
register_all-IsKeyed [] registry h = h
register_all-IsKeyed (m ∷ metas) registry h =
    let k = m.strategy_id in
    register_all-IsKeyed metas (register m registry) (
      put-IsKeyed registry k (listed (get registry k) ++ m ∷ []) h (
        All-append (λ x. x.strategy_id ≡ k) (listed (get registry k)) (m ∷ [])
          (get-own registry k h) (refl, tt)))
