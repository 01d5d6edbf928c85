-- ===== src/State/Codec/Laws.antt =====
-- What comes back from the codec (openpine/state/codec.py).
use openpine.State.Codec.Restorable.{
  exported, exported_values, exported_items, exported_pairs, exported_mapping, exported_attributes,
  IsPlain, ArePlain, ArePlainItems, IsRestorable, AreRestorable, AreRestorableItems,
  AreRestorableAttributes,
}
use openpine.State.Codec.{
  is_text, tagged, marker, has_plain_keys, is_plain_key, get_item, has_attribute, Value, Values,
  Items, Attributes, Class,
}
use openpine.State.Codec.Value.{
  null, boolean, integer, float, text, bytes, list, tuple, deque, dict, namespace, decimal, path,
  enum, dataclass, callable,
}
use openpine.State.Codec.Values.{nil, cons}
use openpine.State.Codec.Items.{done, item}
use openpine.State.Codec.Attributes.{end, attribute}
use openpine.State.Codec.Safe.{
  to_msgpack_safe, to_values, to_items, to_pairs, to_attributes, from_msgpack_safe, from_values,
  from_items, from_pairs, from_fields,
}
use openpine.Base.{
  ◌==◌, pos, ◌≡◌, ◌&&◌, refl, inl, inr, arith, Bool-cases, true, false, none, some, Bool, Option,
  String,
}

some-not_none : (v : Value) → some v ≡ none → ⊥
some-not_none v h = ground (arith, h)

both_left : (a b : Bool) → (a && b) ≡ true → a ≡ true
both_left a b h = ground arith

both_right : (a b : Bool) → (a && b) ≡ true → b ≡ true
both_right a b h = ground arith

get_item-rest :
    (name : String) (k v : Value) (items : Items)
    → get_item name (item k v items) ≡ none
    → get_item name items ≡ none
get_item-rest name k v items h = elim (Bool-cases (is_text name k)) [
  | inl e ↦ absurd (some-not_none v (rw (get_item, e) at h))
  | inr e ↦ rw (get_item, e) at h
]

get_item-replaced :
    (name : String) (k v w : Value) (items out : Items)
    → get_item name (item k v items) ≡ none
    → get_item name out ≡ none
    → get_item name (item k w out) ≡ none
get_item-replaced name k v w items out h g = elim (Bool-cases (is_text name k)) [
  | inl e ↦ absurd (some-not_none v (rw (get_item, e) at h))
  | inr e ↦ rw (get_item, e) g
]

get_item-attribute :
    (name n : String) (v w : Value) (attributes : Attributes) (out : Items)
    → (has_attribute name attributes ≡ false → get_item name out ≡ none)
    → has_attribute name (attribute n v attributes) ≡ false
    → get_item name (item (text n) w out) ≡ none
get_item-attribute name n v w attributes out free h = elim (Bool-cases (n == name)) [
  | inl e ↦ absurd (ground (arith, h, e))
  | inr e ↦ ground (arith, e, free (ground (arith, h, e)))
]

module _ (engine : String → Option Class) where
  mutual
    unfolding to_msgpack_safe from_msgpack_safe

    pub restores :
        (v : Value)
        → IsRestorable engine v
        → (w : Value) × (to_msgpack_safe v ≡ some w)
          × (from_msgpack_safe engine w ≡ some (exported v))
          × IsPlain w
    restores null h = (null, refl, refl, tt)
    restores (boolean b) h = (boolean b, refl, refl, tt)
    restores (integer n) h = (integer n, refl, refl, tt)
    restores (float n) h = (float n, refl, refl, tt)
    restores (text s) h = (text s, refl, refl, tt)
    restores (bytes b) h = (bytes b, refl, refl, tt)
    restores (list xs) h =
        let (ys, t, f, p) = restores_values xs h in (list ys, rw t refl, rw f refl, p)
    restores (tuple xs) h =
        let (ys, t, f, p) = restores_values xs h in
        (
          tagged "tuple" (item (text "items") (list ys) done),
          rw t refl,
          rw f refl,
          (refl, tt, (refl, p, tt)),
        )
    restores (deque xs none) h =
        let (ys, t, f, p) = restores_values xs h in
        (
          tagged "deque" (item (text "items") (list ys) (item (text "maxlen") null done)),
          rw t refl,
          rw f refl,
          (refl, tt, (refl, p, (refl, tt, tt))),
        )
    restores (deque xs (some n)) h =
        let (ys, t, f, p) = restores_values xs h in
        (
          tagged "deque"
              (item (text "items") (list ys) (item (text "maxlen") (integer (pos n)) done)),
          rw t refl,
          rw f refl,
          (refl, tt, (refl, p, (refl, tt, tt))),
        )
    restores (dict items) h = elim (Bool-cases (has_plain_keys items)) [
      | inl e ↦
          let (out, t, f, free, p) = restores_items items e h.1 h.0 in
          (
            dict out,
            rw (to_msgpack_safe, e, t) refl,
            rw (from_msgpack_safe, exported, e, free, f) refl,
            p,
          )
      | inr e ↦
          let (ys, t, f, p) = restores_pairs items h.1 in
          (
            tagged "mapping" (item (text "items") (list ys) done),
            rw (to_msgpack_safe, e, t) refl,
            rw (from_msgpack_safe, exported, e, f) refl,
            (refl, tt, (refl, p, tt)),
          )
    ]
    restores (namespace attributes) h =
        let (out, t, f, _, free, p) = restores_attributes attributes h.1 in
        (dict out, rw t refl, rw (from_msgpack_safe, free h.0, f) refl, p)
    restores (decimal s) h = (
      tagged "decimal" (item (text "value") (text s) done),
      refl,
      refl,
      (refl, tt, (refl, tt, tt)),
    )
    restores (path s) h =
        (tagged "path" (item (text "value") (text s) done), refl, refl, (refl, tt, (refl, tt, tt)))
    restores (enum type v) (is_value, found, holds, h) =
        let (w, t, f, p) = restores v h in
        (
          tagged "enum" (item (text "type") (text type) (item (text "value") w done)),
          rw t refl,
          rw (from_msgpack_safe, found, f, holds) refl,
          (refl, tt, (refl, tt, (refl, p, tt))),
        )
    restores (dataclass type attributes) (safe, names, found, same, h) =
        let (out, t, _, f, _, p) = restores_attributes attributes h in
        (
          tagged "dataclass"
              (item (text "type") (text type) (item (text "fields") (dict out) done)),
          rw (to_msgpack_safe, safe, t) refl,
          rw (from_msgpack_safe, found, f, same) refl,
          (refl, tt, (refl, tt, (refl, p, tt))),
        )
    restores callable h = absurd h

    restores_values :
        (xs : Values)
        → AreRestorable engine xs
        → (ys : Values) × (to_values xs ≡ some ys)
          × (from_values engine ys ≡ some (exported_values xs))
          × ArePlain ys
    restores_values nil h = (nil, refl, refl, tt)
    restores_values (cons x xs) h =
        let (y, t, f, p) = restores x h.0 in
        let (ys, ts, fs, ps) = restores_values xs h.1 in
        (cons y ys, rw (t, ts) refl, rw (f, fs) refl, (p, ps))

    restores_items :
        (items : Items)
        → has_plain_keys items ≡ true
        → AreRestorableItems engine items
        → get_item marker items ≡ none
        → (out : Items) × (to_items items ≡ some out)
          × (from_items engine out ≡ some (exported_items items))
          × (get_item marker out ≡ none)
          × ArePlainItems out
    restores_items done e h free = (done, refl, refl, refl, tt)
    restores_items (item k v items) e h free =
        let (w, t, f, p) = restores v h.1 in
        let (out, ts, fs, rest, ps) =
          restores_items items (both_right (is_plain_key k) _ e) h.2
            (get_item-rest marker k v items free) in
        (
          item k w out,
          rw (t, ts) refl,
          rw (f, fs) refl,
          get_item-replaced marker k v w items out free rest,
          (both_left _ (has_plain_keys items) e, p, ps),
        )

    restores_pairs :
        (items : Items)
        → AreRestorableItems engine items
        → (ys : Values) × (to_pairs items ≡ some ys)
          × (from_pairs engine ys ≡ some (exported_pairs items))
          × ArePlain ys
    restores_pairs done h = (nil, refl, refl, tt)
    restores_pairs (item k v items) h =
        let (l, tk, fk, pk) = restores k h.0 in
        let (w, t, f, p) = restores v h.1 in
        let (ys, ts, fs, ps) = restores_pairs items h.2 in
        (
          cons (list (cons l (cons w nil))) ys,
          rw (tk, t, ts) refl,
          rw (fk, f, fs) refl,
          ((pk, (p, tt)), ps),
        )

    restores_attributes :
        (attributes : Attributes)
        → AreRestorableAttributes engine attributes
        → (out : Items) × (to_attributes attributes ≡ some out)
          × (from_items engine out ≡ some (exported_mapping attributes))
          × (from_fields engine out ≡ some (exported_attributes attributes))
          × (has_attribute marker attributes ≡ false → get_item marker out ≡ none)
          × ArePlainItems out
    restores_attributes end h = (done, refl, refl, refl, (λ _. refl), tt)
    restores_attributes (attribute n v attributes) h =
        let (w, t, f, p) = restores v h.0 in
        let (out, ts, fs, gs, free, ps) = restores_attributes attributes h.1 in
        (
          item (text n) w out,
          rw (t, ts) refl,
          rw (f, fs) refl,
          rw (f, gs) refl,
          get_item-attribute marker n v w attributes out free,
          (refl, p, ps),
        )
