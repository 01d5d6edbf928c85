-- ===== src/State/Codec.antt =====
-- openpine/state/codec.py: a value of a strategy as data that `msgpack` can pack, and back. None stands
-- for an error. Sets, and objects that are converted by their methods `item` and `tolist` or by their
-- `__dict__`, are left out. A dictionary is its items in their order, and a float its bits. An `enum` is a
-- member of an Enum that is no str and no number itself; those count as their values.
pub mod Safe
pub mod Restorable
pub mod Laws
pub mod Packing
use Prim.Native.Char.{code}
use Prim.Native.String.{[], ◌∷◌}
use openpine.Base.{
  eqb, true, false, none, some, if◌then◌else◌, ◌==◌, ◌&&◌, not, Bool, ℕ, ℤ, List, Option, String,
}

mutual
  pub data Value : Type 0 where
    null : Value
    boolean : Bool → Value
    integer : ℤ → Value
    float : ℕ → Value
    text : String → Value
    bytes : List ℕ → Value
    list : Values → Value
    tuple : Values → Value
    deque : Values → Option ℕ → Value
    dict : Items → Value
    namespace : Attributes → Value
    decimal : String → Value
    path : String → Value
    enum : String → Value → Value
    dataclass : String → Attributes → Value
    callable : Value

  pub data Values : Type 0 where
    nil : Values
    cons : Value → Values → Values

  pub data Items : Type 0 where
    done : Items
    item : Value → Value → Items → Items

  pub data Attributes : Type 0 where
    end : Attributes
    attribute : String → Value → Attributes → Attributes

-- the classes of the installed engine: an Enum, by its values, a dataclass, by its fields, or another
pub data Class : Type 0 where
  enum_class : (Value → Bool) → Class
  dataclass_class : List String → Class
  other_class : Class

abbrev pub marker : String
marker = "__openpine_state_codec_v1__"

abbrev pub is_text : String → Value → Bool
is_text name (text s) = s == name
is_text name _ = false

-- `isinstance(key, str | bytes)`
abbrev pub is_plain_key : Value → Bool
is_plain_key (text s) = true
is_plain_key (bytes b) = true
is_plain_key _ = false

-- `all(isinstance(key, str | bytes) for key in value)`
abbrev pub has_plain_keys : Items → Bool
has_plain_keys done = true
has_plain_keys (item k v items) = is_plain_key k && has_plain_keys items

-- `value.get(name)`
abbrev pub get_item : String → Items → Option Value
get_item name done = none
get_item name (item k v items) = if is_text name k then some v else get_item name items

-- {_MARKER: kind, …}
abbrev pub tagged : String → Items → Value
tagged kind items = dict (item (text marker) (text kind) items)

abbrev pub starts_with : String → String → Bool
starts_with [] s = true
starts_with (c ∷ p) [] = false
starts_with (c ∷ p) (d ∷ s) = eqb (code c) (code d) && starts_with p s

-- the text behind the first ":"
abbrev pub after_colon : String → Option String
after_colon [] = none
after_colon (c ∷ s) = if eqb (code c) 58 then some s else after_colon s

-- a part of a dotted name that starts with "_"
abbrev pub has_private_part : Bool → String → Bool
has_private_part first [] = false
has_private_part first (c ∷ s) =
    if first && eqb (code c) 95 then true else has_private_part (eqb (code c) 46) s

-- the checks of `_resolve_type`
abbrev pub is_safe : String → Bool
is_safe type = elim (after_colon type) [
  | none ↦ false
  | some name ↦ starts_with "backtest_engine." type && not (has_private_part true name)
]

-- `_resolve_type`; `engine` finds a class by import and attributes
abbrev pub resolve_type : (String → Option Class) → String → Option Class
resolve_type engine type = if is_safe type then engine type else none

abbrev pub has_attribute : String → Attributes → Bool
has_attribute name end = false
has_attribute name (attribute n v attributes) =
    if n == name then true else has_attribute name attributes
