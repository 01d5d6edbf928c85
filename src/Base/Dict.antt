-- ===== src/Base/Dict.antt =====
-- Python's `dict` with text keys, in insertion order.
use openpine.Base.Lists.{All}
use Prim.Native.String.{String}
use mathlib.Core.Path.{◌≡◌, refl}
use mathlib.Core.Bool.{Bool, true, false}
use mathlib.Core.Option.{Option, none, some}
use mathlib.Core.List.{List, [], ◌∷◌}
use native.Mathlib.Omega.{arith}
use text.Mathlib.Text.{◌==◌}
use text.Mathlib.TextEquality.{eq_iff}
use text.Mathlib.TextPositions.{eq_refl}

abbrev pub Dict {ℓ} : Type ℓ → Type ℓ
Dict V = List (String × V)

-- d[k] of a `defaultdict(list)`
abbrev pub listed {ℓ} : {A : Type ℓ} → Option (List A) → List A
listed none = []
listed (some xs) = xs

module _ {ℓ} {V : Type ℓ} where
  -- d.get(k)
  unfoldable pub get : Dict V → String → Option V
  get [] k = none
  get ((j, v) ∷ d) k = elim (j == k) [ true ↦ some v | false ↦ get d k ]

  -- d[k] = v
  unfoldable pub put : Dict V → String → V → Dict V
  put [] k v = (k, v) ∷ []
  put ((j, w) ∷ d) k v = elim (j == k) [ true ↦ (k, v) ∷ d | false ↦ (j, w) ∷ put d k v ]

  -- del d[k]
  unfoldable pub remove : Dict V → String → Dict V
  remove [] k = []
  remove ((j, w) ∷ d) k = elim (j == k) [ true ↦ remove d k | false ↦ (j, w) ∷ remove d k ]

  unfoldable pub values : Dict V → List V
  values [] = []
  values ((j, v) ∷ d) = v ∷ values d

  pub get-put :
      (d : Dict V) (k j : String) (v : V)
      → get (put d k v) j ≡ elim (k == j) [ true ↦ some v | false ↦ get d j ]
  unfolding get put
  get-put [] k j v = refl
  get-put ((i, w) ∷ d) k j v = ground (arith, eq_iff i k, eq_iff i j, eq_iff k j, get-put d k j v)

  pub get-put_self : (d : Dict V) (k : String) (v : V) → get (put d k v) k ≡ some v
  get-put_self d k v = ground (arith, get-put d k k v, eq_refl k)

  pub get-remove :
      (d : Dict V) (k j : String)
      → get (remove d k) j ≡ elim (k == j) [ true ↦ none | false ↦ get d j ]
  unfolding get remove
  get-remove [] k j = ground arith
  get-remove ((i, w) ∷ d) k j = ground (arith, eq_iff i k, eq_iff i j, eq_iff k j, get-remove d k j)

  pub values-put-All {κ} :
      (P : V → Type κ) (d : Dict V) (k : String) (v : V)
      → All P (values d)
      → P v
      → All P (values (put d k v))
  unfolding values put
  values-put-All P [] k v h p = (p, tt)
  values-put-All P ((j, w) ∷ d) k v h p = replaced (j == k) (values-put-All P d k v h.1 p)
    where
      replaced :
          (b : Bool)
          → All P (values (put d k v))
          → All P (values (elim b [ true ↦ (k, v) ∷ d | false ↦ (j, w) ∷ put d k v ]))
      replaced true r = (p, h.1)
      replaced false r = (h.0, r)

-- No key occurs twice.
abbrev pub HasUniqueKeys {ℓ} : {V : Type ℓ} → Dict V → Type ℓ
HasUniqueKeys [] = Unit
HasUniqueKeys ((k, v) ∷ d) = (get d k ≡ none) × HasUniqueKeys d

module _ {ℓ} {V : Type ℓ} where
  pub put-HasUniqueKeys :
      (d : Dict V) (k : String) (v : V) → HasUniqueKeys d → HasUniqueKeys (put d k v)
  unfolding get put
  put-HasUniqueKeys [] k v h = (refl, tt)
  put-HasUniqueKeys ((j, w) ∷ d) k v h = cases (j == k) refl (put-HasUniqueKeys d k v h.1)
    where
      cases :
          (b : Bool)
          → (j == k) ≡ b
          → HasUniqueKeys (put d k v)
          → HasUniqueKeys (elim b [ true ↦ (k, v) ∷ d | false ↦ (j, w) ∷ put d k v ])
      cases true e r = (ground (arith, h.0, eq_iff j k), h.1)
      cases false e r = (ground (arith, get-put d k j v, eq_iff j k, eq_iff k j, h.0), r)

  pub remove-HasUniqueKeys :
      (d : Dict V) (k : String) → HasUniqueKeys d → HasUniqueKeys (remove d k)
  unfolding remove
  remove-HasUniqueKeys [] k h = tt
  remove-HasUniqueKeys ((j, w) ∷ d) k h = cases (j == k) (remove-HasUniqueKeys d k h.1)
    where
      cases :
          (b : Bool)
          → HasUniqueKeys (remove d k)
          → HasUniqueKeys (elim b [ true ↦ remove d k | false ↦ (j, w) ∷ remove d k ])
      cases true r = r
      cases false r = (ground (arith, get-remove d k j, h.0), r)
