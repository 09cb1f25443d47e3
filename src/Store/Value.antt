-- ===== src/Store/Value.antt =====
-- crates/store/src/value.rs: the validated newtypes of the envelope's fields. A `Bytes` is a list
-- of numbers. `core::str::from_utf8` is not of this repository: it is the parameter `from_utf8`,
-- whose error is the length of the valid prefix.
use mnesis.Base.{
  ℕ, ◌≤◌, ◌≡◌, Option, none, some, List, arith, ltb, leb, ◌==◌, if◌then◌else◌, length,
}
use mnesis.Base.Words.{u16_max, u32_max}
use mnesis.Base.Result.{Result, ok, err, ◌>>◌, map_err}

abbrev pub max_event_type_len : ℕ
max_event_type_len = u16_max

-- One less than `u32::MAX`, which marks absent metadata.
abbrev pub max_metadata_len : ℕ
max_metadata_len = 4294967294

abbrev pub max_payload_len : ℕ
max_payload_len = u32_max

-- `T::from_utf8` reports how far the bytes are valid.
abbrev pub FromUtf8 : Type 0
FromUtf8 = List ℕ → Result ℕ (Unit {0})

pub data ValueError : Type 0 where
  event_type_too_long event_type_invalid_utf8 payload_too_long metadata_too_long : ℕ → ValueError
  metadata_empty schema_version_zero : ValueError

pub record EventType : Type 0 where
  pub bytes : List ℕ

pub record Payload : Type 0 where
  pub bytes : List ℕ

pub record Metadata : Type 0 where
  pub bytes : List ℕ

pub record SchemaVersion : Type 0 where
  pub get : ℕ

-- The invariants that the constructors establish.
abbrev pub IsEventType : FromUtf8 → EventType → Type 0
IsEventType from_utf8 e = (length e.bytes ≤ max_event_type_len) × (from_utf8 e.bytes ≡ ok tt)

abbrev pub IsPayload : Payload → Type 0
IsPayload p = length p.bytes ≤ max_payload_len

abbrev pub IsMetadata : Metadata → Type 0
IsMetadata m = (1 ≤ length m.bytes) × (length m.bytes ≤ max_metadata_len)

abbrev pub IsSchemaVersion : SchemaVersion → Type 0
IsSchemaVersion v = (1 ≤ v.get) × (v.get ≤ u32_max)

-- `EventType::from_static_str`: the literal's bytes; `none` is the panic of the `assert!`.
unfoldable pub event_type_from_static_str : List ℕ → Option EventType
event_type_from_static_str s =
    if leb (length s) max_event_type_len then some (record { bytes = s }) else none

-- `EventType::from_bytes`
unfoldable pub event_type_from_bytes : FromUtf8 → List ℕ → Result ValueError EventType
event_type_from_bytes from_utf8 bytes =
    if ltb max_event_type_len (length bytes)
    then err (event_type_too_long (length bytes))
    else (do map_err event_type_invalid_utf8 (from_utf8 bytes); ok (record { bytes = bytes }))

-- `Payload::from_bytes`
unfoldable pub payload_from_bytes : List ℕ → Result ValueError Payload
payload_from_bytes bytes =
    if ltb max_payload_len (length bytes)
    then err (payload_too_long (length bytes))
    else ok (record { bytes = bytes })

-- `Metadata::from_bytes`
unfoldable pub metadata_from_bytes : List ℕ → Result ValueError Metadata
metadata_from_bytes bytes =
    if length bytes == 0
    then err metadata_empty
    else if ltb max_metadata_len (length bytes)
    then err (metadata_too_long (length bytes))
    else ok (record { bytes = bytes })

-- `SchemaVersion::from_u32`
unfoldable pub schema_version_from_u32 : ℕ → Result ValueError SchemaVersion
schema_version_from_u32 value =
    if value == 0 then err schema_version_zero else ok (record { get = value })

-- Each constructor accepts exactly the bytes of its invariant, and keeps them as they are.
pub from_bytes_exact :
    (from_utf8 : FromUtf8) (bytes : List ℕ) (e : EventType) (p : Payload) (m : Metadata)
    → ((event_type_from_bytes from_utf8 bytes ≡ ok e) → (e.bytes ≡ bytes) × IsEventType from_utf8 e)
      × (IsEventType from_utf8 e → event_type_from_bytes from_utf8 e.bytes ≡ ok e)
      × ((payload_from_bytes bytes ≡ ok p) → (p.bytes ≡ bytes) × IsPayload p)
      × (IsPayload p → payload_from_bytes p.bytes ≡ ok p)
      × ((metadata_from_bytes bytes ≡ ok m) → (m.bytes ≡ bytes) × IsMetadata m)
      × (IsMetadata m → metadata_from_bytes m.bytes ≡ ok m)
unfolding event_type_from_bytes payload_from_bytes metadata_from_bytes
from_bytes_exact from_utf8 bytes e p m = (
  λ h. ground arith,
  λ h. ground arith,
  λ h. ground arith,
  λ h. ground arith,
  λ h. ground arith,
  λ h. ground arith,
)
