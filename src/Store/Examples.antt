-- ===== src/Store/Examples.antt =====
-- Runs of the wire format on small frames, and the theorems of the crate at concrete inputs.
mod Atomic
mod Triggers
use mnesis.Base.{
  ℕ, ◌+◌, ◌%◌, ◌≤◌, ◌≡◌, ◌↔◌, ◌≢◌, ◌<◌, refl, replicate, length-replicate, Option, none, some, List,
  [], ◌∷◌, arith, length,
}
use mnesis.Base.Words.{u32_max, u64_max, to_le_bytes, from_le_bytes}
use mnesis.Base.Result.{ok, err}
use mnesis.Kernel.Version.Run.{consecutive}
use mnesis.Store.Value.{
  EventType, Payload, Metadata, SchemaVersion, FromUtf8, IsEventType, IsPayload, IsMetadata,
  event_type_from_bytes, payload_from_bytes, metadata_from_bytes, schema_version_from_u32,
  from_bytes_exact,
}
use mnesis.Store.Wire.Layout.{align_padding, compute, WireError, expect_failed}
use mnesis.Store.Wire.Header.{write_into, read_from, from_validated_lengths}
use mnesis.Store.Wire.Slices.{slice}
use mnesis.Store.Wire.{
  FrameOffsets, EncodedFrame, encode_frame, decode_frame, decode_frame_body, metadata_bytes,
}
use mnesis.Store.Wire.Body.{offsets_at}
use mnesis.Store.Wire.RoundTrip.{decode-encode_frame, frame_len}
use mnesis.Store.Wire.Bounds.{
  IsWithin, decode_frame-IsWithin, decode_frame-v1, v1_frame, encode_frame_overflows,
}
use mnesis.Store.Envelope.{PendingEnvelope, IsPending, AllMetadata, batch_of}
use mnesis.Store.Envelope.Persisted.{
  PersistedEnvelope, try_new, event_type_value, payload_value, metadata_value, from_persisted,
}
use mnesis.Store.Envelope.Sound.{IsChecked, envelope_of, try_new_exact, try_new_accessors}
use mnesis.Store.Envelope.Transit.{from_persisted-encode}
use mnesis.Store.Envelope.Transform.{transformed, for_transformed_decode-answers}
use mnesis.Store.Envelope.Persisted.{for_transformed_decode}
use mnesis.Store.Append.{validate_append_versions, actual_version}
use mnesis.Store.Append.Exact.{versions, validate_append_iff}
use mathlib.Core.Option

-- A decoder that accepts every byte string, in place of `core::str::from_utf8`.
abbrev any_utf8 : FromUtf8
any_utf8 bytes = ok tt

abbrev schema : SchemaVersion
schema = record { get = 3 }

abbrev created : EventType
created = record { bytes = 67 ∷ 114 ∷ [] }

abbrev payload : Payload
payload = record { bytes = 1 ∷ 2 ∷ 3 ∷ [] }

abbrev metadata : Option Metadata
metadata = some (record { bytes = 9 ∷ [] })

-- The bytes of the frame: header, event type, metadata, two bytes of padding, payload.
abbrev frame_bytes : List ℕ
frame_bytes = 2 ∷ 3 ∷ 0 ∷ 0 ∷ 0 ∷ 2 ∷ 0 ∷ 1 ∷ 0 ∷ 0 ∷ 0 ∷ 67 ∷ 114 ∷ 9 ∷ 0 ∷ 0 ∷ 1 ∷ 2 ∷ 3 ∷ []

abbrev frame_offsets : FrameOffsets
frame_offsets = record {
  event_type = record { start = 11; end = 13 };
  metadata = some (record { start = 13; end = 14 });
  payload = record { start = 16; end = 19 };
}

encode_runs :
    encode_frame schema created payload metadata
    ≡ ok (record { value = frame_bytes; offsets = frame_offsets })
unfolding encode_frame compute align_padding from_validated_lengths write_into to_le_bytes
encode_runs = refl

decode_runs :
    decode_frame frame_bytes ≡ ok (record { schema_version = schema; offsets = frame_offsets })
unfolding decode_frame decode_frame_body read_from from_le_bytes schema_version_from_u32
    align_padding
decode_runs = refl

decode-encode_frame_example :
    (f : EncodedFrame) × (encode_frame schema created payload metadata ≡ ok f)
    × (decode_frame f.value ≡ ok (record { schema_version = schema; offsets = f.offsets }))
    × (slice f.value f.offsets.event_type ≡ created.bytes)
    × (Option.map (slice f.value) f.offsets.metadata ≡ metadata_bytes metadata)
    × (slice f.value f.offsets.payload ≡ payload.bytes)
    × (f.offsets.payload.start % 16 ≡ 0)
    × (f.offsets.payload.end ≡ length f.value)
unfolding align_padding
decode-encode_frame_example =
    decode-encode_frame schema created payload metadata
      (record { schema = omega arith; event_type = omega arith; metadata = omega arith })
      (omega arith)

decode_frame-IsWithin_example :
    IsWithin (record { schema_version = schema; offsets = frame_offsets }) (length frame_bytes)
decode_frame-IsWithin_example = decode_frame-IsWithin frame_bytes _ decode_runs

abbrev mark : Metadata
mark = record { bytes = 9 ∷ [] }

abbrev envelope : PendingEnvelope
envelope = record {
  version = record { as_u64 = 1 };
  event_type = created;
  schema_version = schema;
  payload = payload;
  metadata = metadata;
}

envelope-IsPending : IsPending any_utf8 envelope
envelope-IsPending = record {
  version = omega arith;
  event_type = (omega arith, refl);
  schema_version = omega arith;
  payload = omega arith;
  metadata = omega arith;
}

from_persisted-encode_example :
    (f : EncodedFrame) × (e : PersistedEnvelope) × (encode_frame schema created payload metadata
      ≡ ok f)
    × (try_new any_utf8 envelope.version f.value schema f.offsets.event_type f.offsets.payload
          f.offsets.metadata
        ≡ ok e)
    × (from_persisted e ≡ envelope)
unfolding align_padding
from_persisted-encode_example =
    from_persisted-encode any_utf8 envelope envelope-IsPending (omega arith)

abbrev opened : PersistedEnvelope
opened =
    envelope_of envelope.version frame_bytes schema frame_offsets.event_type frame_offsets.payload
      frame_offsets.metadata

opened_runs :
    try_new any_utf8 envelope.version frame_bytes schema frame_offsets.event_type
      frame_offsets.payload frame_offsets.metadata
    ≡ ok opened
unfolding try_new
opened_runs = refl

try_new_accessors_example :
    IsEventType any_utf8 (event_type_value opened)
    × IsPayload (payload_value opened)
    × AllMetadata (metadata_value opened)
try_new_accessors_example =
    try_new_accessors any_utf8 envelope.version frame_bytes schema frame_offsets.event_type
      frame_offsets.payload frame_offsets.metadata opened (omega arith) opened_runs

try_new_exact_example :
    ((e : PersistedEnvelope)
      → try_new any_utf8 envelope.version frame_bytes schema frame_offsets.event_type
          frame_offsets.payload frame_offsets.metadata
        ≡ ok e
      → IsChecked any_utf8 frame_bytes frame_offsets.event_type frame_offsets.payload
          frame_offsets.metadata
        × (opened ≡ e))
    × (IsChecked any_utf8 frame_bytes frame_offsets.event_type frame_offsets.payload
          frame_offsets.metadata
        → try_new any_utf8 envelope.version frame_bytes schema frame_offsets.event_type
            frame_offsets.payload frame_offsets.metadata
          ≡ ok opened)
try_new_exact_example =
    try_new_exact any_utf8 envelope.version frame_bytes schema frame_offsets.event_type
      frame_offsets.payload frame_offsets.metadata

abbrev upcast : PendingEnvelope
upcast = transformed any_utf8 opened (67 ∷ 114 ∷ []) (record { get = 4 }) (7 ∷ [])

upcast-IsPending : IsPending any_utf8 upcast
upcast-IsPending = record {
  version = omega arith;
  event_type = (omega arith, refl);
  schema_version = omega arith;
  payload = omega arith;
  metadata = omega arith;
}

for_transformed_decode-answers_example :
    (e : PersistedEnvelope) × (for_transformed_decode any_utf8 opened
        (67 ∷ 114 ∷ [])
        (record { get = 4 })
        (7 ∷ [])
      ≡ ok e)
    × (from_persisted e ≡ upcast)
unfolding align_padding
for_transformed_decode-answers_example =
    for_transformed_decode-answers any_utf8 opened (67 ∷ 114 ∷ []) (record { get = 4 }) (7 ∷ [])
      upcast-IsPending (omega arith)

validate_append_iff_example :
    (validate_append_versions 0 none (batch_of envelope) (record { bytes = [] }) ≡ ok tt)
    ↔ ((none ≡ actual_version 0) × (versions (envelope ∷ []) ≡ consecutive 1 1) × (0 + 1 ≤ u64_max))
validate_append_iff_example =
    validate_append_iff 0 none (batch_of envelope) (record { bytes = [] }) (omega arith)

-- A payload of 4 GiB, whose length no check computes.
unfoldable huge_len : ℕ
huge_len = 4294967296

abbrev huge_payload : Payload
huge_payload = record { bytes = replicate huge_len 0 }

huge_len_over : u32_max < huge_len
unfolding huge_len
huge_len_over = omega arith

huge-frame_len : u32_max < frame_len created metadata huge_payload
huge-frame_len = omega (arith, huge_len_over, length-replicate {A = ℕ} huge_len 0)
