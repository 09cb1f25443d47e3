-- ===== src/Store/Envelope/Persisted.antt =====
-- crates/store/src/envelope.rs, the read path: an envelope that is a value and ranges into it.
use mnesis.Base.Bytes.{bytes_eq}
use mnesis.Base.{
  ℕ, ◌-◌, Bool, ◌&&◌, Option, none, some, List, ltb, ◌||◌, ◌==◌, if◌then◌else◌, length,
}
use mnesis.Base.Result.{Result, ok, err, ◌>>=◌, ◌>>◌, map_err}
use mnesis.Kernel.Version.{Version}
use mnesis.Kernel.Version
use mnesis.Store.Value.{
  EventType, Payload, Metadata, SchemaVersion, ValueError, FromUtf8, max_event_type_len,
  max_metadata_len, event_type_from_bytes, payload_from_bytes,
}
use mnesis.Store.Wire.Layout.{Range, WireError}
use mnesis.Store.Wire.Slices.{slice}
use mnesis.Store.Wire.{encode_frame}
use mnesis.Store.Envelope.{
  EnvelopeError, PendingEnvelope, range_out_of_bounds, invalid_utf8, event_type_range_too_long,
  metadata_range_too_long, metadata_range_empty,
}
use mathlib.Core.Option

pub record PersistedEnvelope : Type 0 where
  pub version : Version
  pub schema_version : SchemaVersion
  pub value : List ℕ
  pub event_type_range : Range
  pub payload_range : Range
  pub metadata_range : Option Range

abbrev pub range_len : Range → ℕ
range_len r = r.end - r.start

-- `check_range`
unfoldable pub check_range : Range → ℕ → Result EnvelopeError (Unit {0})
check_range range len =
    if ltb len range.end || ltb range.end range.start
    then err (range_out_of_bounds range.start range.end len)
    else ok tt

unfoldable pub check_metadata_range : Option Range → ℕ → Result EnvelopeError (Unit {0})
unfolding check_range
check_metadata_range none len = ok tt
check_metadata_range (some m) len = check_range m len

-- The caps on the two ranges whose lengths the newtypes bound.
unfoldable pub check_event_type_len : Range → Result EnvelopeError (Unit {0})
check_event_type_len r =
    if ltb max_event_type_len (range_len r)
    then err (event_type_range_too_long (range_len r) max_event_type_len)
    else ok tt

unfoldable pub check_metadata_len : Option Range → Result EnvelopeError (Unit {0})
check_metadata_len none = ok tt
check_metadata_len (some m) =
    if range_len m == 0
    then err metadata_range_empty
    else if ltb max_metadata_len (range_len m)
    then err (metadata_range_too_long (range_len m) max_metadata_len)
    else ok tt

-- `PersistedEnvelope::try_new`
unfoldable pub try_new :
    FromUtf8
    → Version
    → List ℕ
    → SchemaVersion
    → Range
    → Range
    → Option Range
    → Result EnvelopeError PersistedEnvelope
unfolding check_range check_metadata_range check_event_type_len check_metadata_len
try_new from_utf8 version value schema_version event_type_range payload_range metadata_range = do
  check_range event_type_range (length value)
  check_range payload_range (length value)
  check_metadata_range metadata_range (length value)
  check_event_type_len event_type_range
  check_metadata_len metadata_range
  map_err (invalid_utf8 event_type_range.start event_type_range.end)
      (from_utf8 (slice value event_type_range))
  ok (record {
    version = version;
    schema_version = schema_version;
    value = value;
    event_type_range = event_type_range;
    payload_range = payload_range;
    metadata_range = metadata_range;
  })

-- The typed accessors `event_type_value`, `payload_value` and `metadata_value`, which slice the
-- value by `slice_range` and do not validate again.
abbrev pub event_type_value : PersistedEnvelope → EventType
event_type_value e = record { bytes = slice e.value e.event_type_range }

abbrev pub payload_value : PersistedEnvelope → Payload
payload_value e = record { bytes = slice e.value e.payload_range }

abbrev pub metadata_value : PersistedEnvelope → Option Metadata
metadata_value e = Option.map (λ r. record { bytes = slice e.value r }) e.metadata_range

-- `PendingEnvelope::from_persisted`
unfoldable pub from_persisted : PersistedEnvelope → PendingEnvelope
from_persisted e = record {
  version = e.version;
  event_type = event_type_value e;
  schema_version = e.schema_version;
  payload = payload_value e;
  metadata = metadata_value e;
}

pub data ForDecodeError : Type 0 where
  value : ValueError → ForDecodeError
  wire : WireError → ForDecodeError
  envelope : EnvelopeError → ForDecodeError

-- `PersistedEnvelope::for_decode`
unfoldable pub for_decode : FromUtf8 → List ℕ → List ℕ → Result ForDecodeError PersistedEnvelope
for_decode from_utf8 event_type payload = do
  et ← map_err ForDecodeError.value (event_type_from_bytes from_utf8 event_type)
  pl ← map_err ForDecodeError.value (payload_from_bytes payload)
  frame ← map_err wire (encode_frame (record { get = 1 }) et pl none)
  map_err envelope (
      try_new from_utf8 Version.initial frame.value (record { get = 1 }) frame.offsets.event_type
        frame.offsets.payload none)

-- The parts of a transformed event: a part that is as it was is not validated again.
abbrev pub transformed_event_type :
    FromUtf8 → PersistedEnvelope → List ℕ → Result ForDecodeError EventType
transformed_event_type from_utf8 e event_type =
    if bytes_eq event_type (event_type_value e).bytes
    then ok (event_type_value e)
    else map_err ForDecodeError.value (event_type_from_bytes from_utf8 event_type)

abbrev pub transformed_payload : PersistedEnvelope → List ℕ → Result ForDecodeError Payload
transformed_payload e payload =
    if bytes_eq payload (payload_value e).bytes
    then ok (payload_value e)
    else map_err ForDecodeError.value (payload_from_bytes payload)

abbrev pub is_unchanged : PersistedEnvelope → List ℕ → SchemaVersion → List ℕ → Bool
is_unchanged e event_type schema payload =
    bytes_eq event_type (event_type_value e).bytes
    && (schema.get == e.schema_version.get)
    && bytes_eq payload (payload_value e).bytes

-- The frame of the transformed event, opened at the version of the original.
abbrev pub reframed :
    FromUtf8
    → PersistedEnvelope
    → SchemaVersion
    → EventType
    → Payload
    → Result ForDecodeError PersistedEnvelope
reframed from_utf8 e schema event payload = do
  frame ← map_err wire (encode_frame schema event payload (metadata_value e))
  map_err envelope (
      try_new from_utf8 e.version frame.value schema frame.offsets.event_type frame.offsets.payload
        frame.offsets.metadata)

abbrev pub rebuilt :
    FromUtf8
    → PersistedEnvelope
    → List ℕ
    → SchemaVersion
    → List ℕ
    → Result ForDecodeError PersistedEnvelope
rebuilt from_utf8 e event_type schema payload = do
  event ← transformed_event_type from_utf8 e event_type
  bytes ← transformed_payload e payload
  reframed from_utf8 e schema event bytes

-- `PersistedEnvelope::for_transformed_decode`; what is borrowed is the envelope itself.
unfoldable pub for_transformed_decode :
    FromUtf8
    → PersistedEnvelope
    → List ℕ
    → SchemaVersion
    → List ℕ
    → Result ForDecodeError PersistedEnvelope
for_transformed_decode from_utf8 e event_type schema payload =
    if is_unchanged e event_type schema payload
    then ok e
    else rebuilt from_utf8 e event_type schema payload
