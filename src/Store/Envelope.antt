-- ===== src/Store/Envelope.antt =====
-- crates/store/src/envelope.rs, the write path: the pending envelope, its builder and the batch.
pub mod Persisted
pub mod Sound
pub mod Transit
pub mod Transform
use mnesis.Base.{ℕ, suc, Option, none, some, List, [], ◌∷◌, length}
use mnesis.Base.Result.{Result, ok, err, ◌>>=◌, map_err}
use mnesis.Kernel.Version.{Version, IsVersion}
use mnesis.Store.Value.{
  EventType, Payload, Metadata, SchemaVersion, ValueError, FromUtf8, IsEventType, IsPayload,
  IsMetadata, IsSchemaVersion, event_type_from_bytes, payload_from_bytes, metadata_from_bytes,
}

pub data EnvelopeError : Type 0 where
  range_out_of_bounds : ℕ → ℕ → ℕ → EnvelopeError
  invalid_utf8 : ℕ → ℕ → ℕ → EnvelopeError
  event_type_range_too_long metadata_range_too_long : ℕ → ℕ → EnvelopeError
  metadata_range_empty : EnvelopeError
  value : ValueError → EnvelopeError

pub record PendingEnvelope : Type 0 where
  pub version : Version
  pub event_type : EventType
  pub schema_version : SchemaVersion
  pub payload : Payload
  pub metadata : Option Metadata

abbrev pub AllMetadata : Option Metadata → Type 0
AllMetadata none = Unit
AllMetadata (some m) = IsMetadata m

-- Every field is a value of its newtype.
pub record IsPending (from_utf8 : FromUtf8) (e : PendingEnvelope) : Type 0 where
  pub version : IsVersion e.version
  pub event_type : IsEventType from_utf8 e.event_type
  pub schema_version : IsSchemaVersion e.schema_version
  pub payload : IsPayload e.payload
  pub metadata : AllMetadata e.metadata

-- The last state of the builder, `WithPayload`.
pub record WithPayload : Type 0 where
  pub version : Version
  pub event_type : EventType
  pub payload : List ℕ
  pub schema_version : SchemaVersion
  pub metadata : Option (List ℕ)

-- `pending_envelope(version).event_type_bytes(bytes)?.payload(payload)`
unfoldable pub with_payload :
    FromUtf8 → Version → List ℕ → List ℕ → Result EnvelopeError WithPayload
with_payload from_utf8 version bytes payload = do
  event_type ← map_err value (event_type_from_bytes from_utf8 bytes)
  ok (record {
    version = version;
    event_type = event_type;
    payload = payload;
    schema_version = record { get = 1 };
    metadata = none;
  })

-- The setters `WithPayload::schema_version` and `WithPayload::metadata`.
abbrev pub set_schema_version : SchemaVersion → WithPayload → WithPayload
set_schema_version schema_version w = record w { schema_version = schema_version }

abbrev pub set_metadata : List ℕ → WithPayload → WithPayload
set_metadata metadata w = record w { metadata = some metadata }

unfoldable pub build_metadata : Option (List ℕ) → Result EnvelopeError (Option Metadata)
build_metadata none = ok none
build_metadata (some bytes) = do m ← map_err value (metadata_from_bytes bytes); ok (some m)

-- `WithPayload::build`
unfoldable pub build : WithPayload → Result EnvelopeError PendingEnvelope
unfolding build_metadata
build w = do
  payload ← map_err value (payload_from_bytes w.payload)
  metadata ← build_metadata w.metadata
  ok (record {
    version = w.version;
    event_type = w.event_type;
    schema_version = w.schema_version;
    payload = payload;
    metadata = metadata;
  })

-- `PendingBatch`: a non-empty run.
pub record PendingBatch : Type 0 where
  pub first : PendingEnvelope
  pub rest : List PendingEnvelope

abbrev pub batch_of : PendingEnvelope → PendingBatch
batch_of only = record { first = only; rest = [] }

-- `PendingBatch::new`
abbrev pub new_batch : List PendingEnvelope → Option PendingBatch
new_batch [] = none
new_batch (e ∷ es) = some (record { first = e; rest = es })

abbrev pub batch_iter : PendingBatch → List PendingEnvelope
batch_iter b = b.first ∷ b.rest

abbrev pub batch_len : PendingBatch → ℕ
batch_len b = suc (length b.rest)
