-- ===== src/State/Codec/Packing.antt =====
-- How openpine/state/store.py packs a snapshot, with openpine/state/codec.py. In a payload only the variables
-- of the strategy are more than texts, numbers and dictionaries of them, which the codec leaves as
-- they are.
use openpine.State.Codec.{Value, Class}
use openpine.State.Codec.Restorable.{IsPlain}
use openpine.State.Codec.Safe.{to_msgpack_safe, from_msgpack_safe}
use openpine.State.Model.{Payload, Codec}
use openpine.Base.{none, some, Bool, ℕ, Option, String, ◌≡◌}

-- `msgpack`, where packing is none for a TypeError or ValueError and unpacking where it raises or the
-- root is no mapping (integers beyond 64 bits raise an OverflowError and are left out), `pickle`,
-- `hashlib`, `pathlib`, and the classes of the installed engine
pub record Packages (P : Type 0) : Type 0 where
  pub packb : Payload Value → Option P
  pub unpackb : P → Option (Payload Value)
  pub dump : Payload Value → P
  pub load : P → Option (Payload Value)
  pub pickle_enabled : Bool
  pub sha256 : P → String
  pub size : P → ℕ
  pub is_component : String → Bool
  pub engine : String → Option Class

-- `msgpack` gives back what it packs, if that is of its own types
abbrev pub IsMsgpack : {P : Type 0} → Packages P → Type 0
IsMsgpack {P} packages =
    (p : Payload Value) (x : P)
    → IsPlain p.runtime_state
    → packages.packb p ≡ some x
    → packages.unpackb x ≡ some p

-- `_msgpack_safe` and `_pack_msgpack`, `_decode_payload`, and the packages
unfoldable pub codec_of : {P : Type 0} → Packages P → Codec Value P
unfolding to_msgpack_safe from_msgpack_safe
codec_of packages = record {
  pack = λ p. elim (to_msgpack_safe p.runtime_state) [
    | none ↦ none
    | some w ↦ packages.packb (record p { runtime_state = w })
  ];
  unpack = λ x. elim (packages.unpackb x) [
    | none ↦ none
    | some p ↦ elim (from_msgpack_safe packages.engine p.runtime_state) [
      | none ↦ none
      | some v ↦ some (record p { runtime_state = v })
    ]
  ];
  dump = packages.dump;
  load = packages.load;
  pickle_enabled = packages.pickle_enabled;
  sha256 = packages.sha256;
  size = packages.size;
  is_component = packages.is_component;
}
