-- ===== src/State/Codec/Restorable.antt =====
-- What the codec can restore, and as what (openpine/state/codec.py).
use openpine.State.Codec.{
  marker, has_plain_keys, is_plain_key, get_item, starts_with, resolve_type, has_attribute, Value,
  Values, Items, Attributes, Class, enum_class, dataclass_class,
}
use openpine.State.Codec.Value.{
  null, boolean, integer, float, text, bytes, list, tuple, deque, dict, namespace, enum, dataclass,
  callable,
}
use openpine.State.Codec.Values.{nil, cons}
use openpine.State.Codec.Items.{done, item}
use openpine.State.Codec.Attributes.{end, attribute}
use openpine.State.Codec.Safe.{has_names, has_attributes}
use openpine.Base.{◌≡◌, ◌&&◌, true, false, none, some, Bool, List, Option, String}

-- a value as it comes back: its namespaces are mappings
abbrev mutual
  pub exported : Value → Value
  exported (list xs) = list (exported_values xs)
  exported (tuple xs) = tuple (exported_values xs)
  exported (deque xs n) = deque (exported_values xs) n
  exported (dict items) = elim (has_plain_keys items) [
    | true ↦ dict (exported_items items)
    | false ↦ dict (exported_pairs items)
  ]
  exported (namespace attributes) = dict (exported_mapping attributes)
  exported (enum type v) = enum type (exported v)
  exported (dataclass type attributes) = dataclass type (exported_attributes attributes)
  exported v = v

  pub exported_values : Values → Values
  exported_values nil = nil
  exported_values (cons x xs) = cons (exported x) (exported_values xs)

  pub exported_items : Items → Items
  exported_items done = done
  exported_items (item k v items) = item k (exported v) (exported_items items)

  pub exported_pairs : Items → Items
  exported_pairs done = done
  exported_pairs (item k v items) = item (exported k) (exported v) (exported_pairs items)

  pub exported_mapping : Attributes → Items
  exported_mapping end = done
  exported_mapping (attribute n v attributes) =
      item (text n) (exported v) (exported_mapping attributes)

  pub exported_attributes : Attributes → Attributes
  exported_attributes end = end
  exported_attributes (attribute n v attributes) =
      attribute n (exported v) (exported_attributes attributes)

-- what `msgpack` packs and gives back as it is
abbrev mutual
  pub IsPlain : Value → Type 0
  IsPlain null = Unit
  IsPlain (boolean b) = Unit
  IsPlain (integer n) = Unit
  IsPlain (float n) = Unit
  IsPlain (text s) = Unit
  IsPlain (bytes b) = Unit
  IsPlain (list xs) = ArePlain xs
  IsPlain (dict items) = ArePlainItems items
  IsPlain _ = ⊥

  pub ArePlain : Values → Type 0
  ArePlain nil = Unit
  ArePlain (cons x xs) = IsPlain x × ArePlain xs

  pub ArePlainItems : Items → Type 0
  ArePlainItems done = Unit
  ArePlainItems (item k v items) = (is_plain_key k ≡ true) × IsPlain v × ArePlainItems items

-- a value with no callable in it and no tag of the codec's, and whose enums and dataclasses are the
-- engine's
module _ (engine : String → Option Class) where
  abbrev mutual
    pub IsRestorable : Value → Type 0
    IsRestorable (list xs) = AreRestorable xs
    IsRestorable (tuple xs) = AreRestorable xs
    IsRestorable (deque xs n) = AreRestorable xs
    IsRestorable (dict items) = (get_item marker items ≡ none) × AreRestorableItems items
    IsRestorable (namespace attributes) =
        (has_attribute marker attributes ≡ false) × AreRestorableAttributes attributes
    IsRestorable (enum type v) =
        (is_value : Value → Bool) × (resolve_type engine type ≡ some (enum_class is_value))
        × (is_value (exported v) ≡ true)
        × IsRestorable v
    IsRestorable (dataclass type attributes) =
        (starts_with "backtest_engine." type ≡ true)
        × (names : List String) × (resolve_type engine type ≡ some (dataclass_class names))
        × ((has_names (exported_attributes attributes) names
              && has_attributes names (exported_attributes attributes))
            ≡ true)
        × AreRestorableAttributes attributes
    IsRestorable callable = ⊥
    IsRestorable _ = Unit

    pub AreRestorable : Values → Type 0
    AreRestorable nil = Unit
    AreRestorable (cons x xs) = IsRestorable x × AreRestorable xs

    pub AreRestorableItems : Items → Type 0
    AreRestorableItems done = Unit
    AreRestorableItems (item k v items) = IsRestorable k × IsRestorable v × AreRestorableItems items

    pub AreRestorableAttributes : Attributes → Type 0
    AreRestorableAttributes end = Unit
    AreRestorableAttributes (attribute n v attributes) =
        IsRestorable v × AreRestorableAttributes attributes
