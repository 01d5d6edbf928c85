-- ===== src/State/Codec/Safe.antt =====
-- `to_msgpack_safe` and `from_msgpack_safe` (openpine/state/codec.py).
use openpine.State.Codec.{
  marker, is_text, has_plain_keys, get_item, tagged, starts_with, resolve_type, has_attribute,
  Value, Values, Items, Attributes, Class, enum_class, dataclass_class,
}
use openpine.State.Codec.Value.{
  null, integer, text, list, tuple, deque, dict, namespace, decimal, path, enum, dataclass,
  callable,
}
use openpine.State.Codec.Values.{nil, cons}
use openpine.State.Codec.Items.{done, item}
use openpine.State.Codec.Attributes.{end, attribute}
use openpine.Base.{
  pos, true, false, none, some, if◌then◌else◌, ◌==◌, ◌&&◌, Bool, ℕ, List, Option, String, [], ◌∷◌,
}

-- `value.maxlen`
abbrev pub of_maxlen : Option ℕ → Value
of_maxlen none = null
of_maxlen (some n) = integer (pos n)

unfoldable mutual
  pub to_msgpack_safe : Value → Option Value
  to_msgpack_safe (list xs) = elim (to_values xs) [ none ↦ none | some ys ↦ some (list ys) ]
  to_msgpack_safe (tuple xs) = elim (to_values xs) [
    | none ↦ none
    | some ys ↦ some (tagged "tuple" (item (text "items") (list ys) done))
  ]
  to_msgpack_safe (deque xs maxlen) = elim (to_values xs) [
    | none ↦ none
    | some ys ↦ some (
        tagged "deque"
          (item (text "items") (list ys) (item (text "maxlen") (of_maxlen maxlen) done)))
  ]
  to_msgpack_safe (dict items) = elim (has_plain_keys items) [
    | true ↦ elim (to_items items) [ none ↦ none | some out ↦ some (dict out) ]
    | false ↦ elim (to_pairs items) [
      | none ↦ none
      | some ys ↦ some (tagged "mapping" (item (text "items") (list ys) done))
    ]
  ]
  to_msgpack_safe (namespace attributes) = elim (to_attributes attributes) [
    | none ↦ none
    | some out ↦ some (dict out)
  ]
  to_msgpack_safe (decimal s) = some (tagged "decimal" (item (text "value") (text s) done))
  to_msgpack_safe (path s) = some (tagged "path" (item (text "value") (text s) done))
  to_msgpack_safe (enum type v) = elim (to_msgpack_safe v) [
    | none ↦ none
    | some w ↦ some (tagged "enum" (item (text "type") (text type) (item (text "value") w done)))
  ]
  to_msgpack_safe (dataclass type attributes) = elim (starts_with "backtest_engine." type) [
    | false ↦ none
    | true ↦ elim (to_attributes attributes) [
      | none ↦ none
      | some out ↦ some (
          tagged "dataclass"
            (item (text "type") (text type) (item (text "fields") (dict out) done)))
    ]
  ]
  to_msgpack_safe callable = none
  to_msgpack_safe v = some v

  pub to_values : Values → Option Values
  to_values nil = some nil
  to_values (cons x xs) = elim (to_msgpack_safe x) [
    | none ↦ none
    | some y ↦ elim (to_values xs) [ none ↦ none | some ys ↦ some (cons y ys) ]
  ]

  -- the values of a dictionary with plain keys
  pub to_items : Items → Option Items
  to_items done = some done
  to_items (item k v items) = elim (to_msgpack_safe v) [
    | none ↦ none
    | some w ↦ elim (to_items items) [ none ↦ none | some out ↦ some (item k w out) ]
  ]

  -- [[key, item], …]
  pub to_pairs : Items → Option Values
  to_pairs done = some nil
  to_pairs (item k v items) = elim (to_msgpack_safe k) [
    | none ↦ none
    | some l ↦ elim (to_msgpack_safe v) [
      | none ↦ none
      | some w ↦ elim (to_pairs items) [
        | none ↦ none
        | some ys ↦ some (cons (list (cons l (cons w nil))) ys)
      ]
    ]
  ]

  pub to_attributes : Attributes → Option Items
  to_attributes end = some done
  to_attributes (attribute n v attributes) = elim (to_msgpack_safe v) [
    | none ↦ none
    | some w ↦ elim (to_attributes attributes) [
      | none ↦ none
      | some out ↦ some (item (text n) w out)
    ]
  ]

-- `value["value"]` as a text
abbrev pub text_item : String → Items → Option String
text_item name items = elim (get_item name items) [ some (text s) ↦ some s | _ ↦ none ]

-- `value.get("maxlen")`
abbrev pub maxlen_item : Items → Option (Option ℕ)
maxlen_item items = elim (get_item "maxlen" items) [
  | none ↦ some none
  | some null ↦ some none
  | some (integer (pos n)) ↦ some (some n)
  | _ ↦ none
]

abbrev pub has_name : String → List String → Bool
has_name name [] = false
has_name name (n ∷ names) = if n == name then true else has_name name names

-- the fields of an instance are those of the class
abbrev pub has_names : Attributes → List String → Bool
has_names end names = true
has_names (attribute n v attributes) names = has_name n names && has_names attributes names

abbrev pub has_attributes : List String → Attributes → Bool
has_attributes [] attributes = true
has_attributes (n ∷ names) attributes =
    has_attribute n attributes && has_attributes names attributes

-- `enum_type(value)`
abbrev pub new_enum : Option Class → String → Option Value → Option Value
new_enum (some (enum_class is_value)) type (some v) =
    if is_value v then some (enum type v) else none
new_enum _ type _ = none

-- a dataclass with exactly its fields
abbrev pub new_dataclass : Option Class → String → Option Attributes → Option Value
new_dataclass (some (dataclass_class names)) type (some attributes) =
    if has_names attributes names && has_attributes names attributes
    then some (dataclass type attributes)
    else none
new_dataclass _ type _ = none

-- the tag of a dictionary, if it has one
pub data Kind : Type 0 where
  untagged tuple_kind deque_kind mapping_kind decimal_kind path_kind enum_kind : Kind
  dataclass_kind unknown : Kind

abbrev pub kind_named : String → Kind
kind_named s =
    if s == "tuple"
    then tuple_kind
    else if s == "deque"
    then deque_kind
    else if s == "mapping"
    then mapping_kind
    else if s == "decimal"
    then decimal_kind
    else if s == "path"
    then path_kind
    else if s == "enum"
    then enum_kind
    else if s == "dataclass"
    then dataclass_kind
    else unknown

-- `kind = value.get(_MARKER)`
abbrev pub kind_of : Items → Kind
kind_of items = elim (get_item marker items) [
  | none ↦ untagged
  | some null ↦ untagged
  | some (text s) ↦ kind_named s
  | _ ↦ unknown
]

module _ (engine : String → Option Class) where
  unfoldable mutual
    pub from_msgpack_safe : Value → Option Value
    from_msgpack_safe (list xs) = elim (from_values xs) [ none ↦ none | some ys ↦ some (list ys) ]
    from_msgpack_safe (dict items) = elim (kind_of items) [
      | untagged ↦ elim (from_items items) [ none ↦ none | some out ↦ some (dict out) ]
      | tuple_kind ↦ elim (values_of "items" items) [ none ↦ none | some xs ↦ some (tuple xs) ]
      | deque_kind ↦ elim (values_of "items" items) [
        | none ↦ none
        | some xs ↦ elim (maxlen_item items) [ none ↦ none | some n ↦ some (deque xs n) ]
      ]
      | mapping_kind ↦ elim (pairs_of "items" items) [ none ↦ none | some out ↦ some (dict out) ]
      | decimal_kind ↦ elim (text_item "value" items) [ none ↦ none | some s ↦ some (decimal s) ]
      | path_kind ↦ elim (text_item "value" items) [ none ↦ none | some s ↦ some (path s) ]
      | enum_kind ↦ elim (text_item "type" items) [
        | none ↦ none
        | some type ↦ new_enum (resolve_type engine type) type (value_of "value" items)
      ]
      | dataclass_kind ↦ elim (text_item "type" items) [
        | none ↦ none
        | some type ↦ new_dataclass (resolve_type engine type) type (fields_of "fields" items)
      ]
      | unknown ↦ none
    ]
    from_msgpack_safe v = some v

    pub from_values : Values → Option Values
    from_values nil = some nil
    from_values (cons x xs) = elim (from_msgpack_safe x) [
      | none ↦ none
      | some y ↦ elim (from_values xs) [ none ↦ none | some ys ↦ some (cons y ys) ]
    ]

    pub from_items : Items → Option Items
    from_items done = some done
    from_items (item k v items) = elim (from_msgpack_safe v) [
      | none ↦ none
      | some w ↦ elim (from_items items) [ none ↦ none | some out ↦ some (item k w out) ]
    ]

    -- the entry of a name, read as what its tag promises; any other entry is an error
    value_of : String → Items → Option Value
    value_of name done = none
    value_of name (item k v items) = elim (is_text name k) [
      | true ↦ from_msgpack_safe v
      | false ↦ value_of name items
    ]

    values_of : String → Items → Option Values
    values_of name done = none
    values_of name (item k v items) = elim (is_text name k) [
      | true ↦ elements v
      | false ↦ values_of name items
    ]

    elements : Value → Option Values
    elements (list xs) = from_values xs
    elements _ = none

    pairs_of : String → Items → Option Items
    pairs_of name done = none
    pairs_of name (item k v items) = elim (is_text name k) [
      | true ↦ pair_items v
      | false ↦ pairs_of name items
    ]

    pair_items : Value → Option Items
    pair_items (list xs) = from_pairs xs
    pair_items _ = none

    pub from_pairs : Values → Option Items
    from_pairs nil = some done
    from_pairs (cons (list (cons k (cons v nil))) xs) = elim (from_msgpack_safe k) [
      | none ↦ none
      | some l ↦ elim (from_msgpack_safe v) [
        | none ↦ none
        | some w ↦ elim (from_pairs xs) [ none ↦ none | some out ↦ some (item l w out) ]
      ]
    ]
    from_pairs _ = none

    fields_of : String → Items → Option Attributes
    fields_of name done = some end
    fields_of name (item k v items) = elim (is_text name k) [
      | true ↦ field_items v
      | false ↦ fields_of name items
    ]

    field_items : Value → Option Attributes
    field_items (dict items) = from_fields items
    field_items _ = none

    pub from_fields : Items → Option Attributes
    from_fields done = some end
    from_fields (item (text n) v items) = elim (from_msgpack_safe v) [
      | none ↦ none
      | some w ↦ elim (from_fields items) [ none ↦ none | some out ↦ some (attribute n w out) ]
    ]
    from_fields _ = none
