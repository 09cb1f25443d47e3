-- ===== src/Store/Wire/RoundTrip.antt =====
-- Reading back what `encode_frame` wrote.
use mnesis.Base.{
  ℕ, ◌+◌, ◌%◌, ◌≤◌, ◌≡◌, refl, sym, ap, Option, none, some, List, ◌++◌, arith, length,
  length-append, length-replicate, replicate,
}
use mnesis.Base.Words.{u16_max, u32_max}
use mnesis.Base.Result.{ok, ◌>>=◌}
use mnesis.Store.Value.{EventType, Payload, Metadata, SchemaVersion, IsSchemaVersion}
use mnesis.Store.Wire.Layout.{
  metadata_range_of, body_end, payload_at, compute_fits, align_padding, align_padding_lem,
}
use mnesis.Store.Wire.Header.{FrameHeader, v2, from_validated_lengths, write_into}
use mathlib.Core.Option
use mnesis.Store.Wire.Body.{
  IsMetadataLen, length-write_into, read-write_header, offsets_at, decode_body-offsets,
}
use mnesis.Store.Wire.Slices.{slice, slice_middle, slice_third, slice_last}
use mnesis.Store.Wire.{
  EncodedFrame, encode_frame, decode_frame, metadata_bytes, bytes_len, or_empty,
}

-- Everything that `encode_frame` needs of its arguments, but for the frame's total length.
pub record IsEncodable (v : SchemaVersion) (e : EventType) (m : Option Metadata) : Type 0 where
  pub schema : IsSchemaVersion v
  pub event_type : length e.bytes ≤ u16_max
  pub metadata : IsMetadataLen (bytes_len (metadata_bytes m))

abbrev pub frame_len : EventType → Option Metadata → Payload → ℕ
frame_len e m p = payload_at 11 (length e.bytes) (bytes_len (metadata_bytes m)) + length p.bytes

abbrev pub header_of : SchemaVersion → EventType → Option Metadata → FrameHeader
header_of v e m = record {
  format_version = v2;
  schema_version = v.get;
  event_type_len = length e.bytes;
  metadata_len = bytes_len (metadata_bytes m);
}

-- The frame that is written.
abbrev pub frame_of : SchemaVersion → EventType → Payload → Option Metadata → List ℕ
frame_of v e p m =
    write_into (header_of v e m)
    ++ (e.bytes
        ++ (or_empty (metadata_bytes m)
            ++ (replicate
                  (align_padding (body_end 11 (length e.bytes) (bytes_len (metadata_bytes m))) 16) 0
                ++ p.bytes)))

header_built :
    (v : SchemaVersion) (e : EventType) (m : Option Metadata)
    → IsEncodable v e m
    → from_validated_lengths v2 v.get (length e.bytes) (bytes_len (metadata_bytes m))
      ≡ ok (header_of v e m)
unfolding from_validated_lengths
header_built v e none h = ground (arith, h.event_type)
header_built v e (some m) h = ground (arith, h.event_type, h.metadata)

-- A frame that fits is written, with its offsets.
pub encode_frame_fits :
    (v : SchemaVersion) (e : EventType) (p : Payload) (m : Option Metadata)
    → IsEncodable v e m
    → frame_len e m p ≤ u32_max
    → encode_frame v e p m
      ≡ ok (record {
        value = frame_of v e p m;
        offsets = offsets_at 11 (length e.bytes) (bytes_len (metadata_bytes m)) (length p.bytes);
      })
unfolding encode_frame
encode_frame_fits v e p m h fits =
    rw (compute_fits (length e.bytes) (bytes_len (metadata_bytes m)) (length p.bytes) fits, ◌>>=◌)
      (rw (header_built v e m h, ◌>>=◌))

length-frame_of :
    (v : SchemaVersion) (e : EventType) (p : Payload) (m : Option Metadata)
    → length (frame_of v e p m) ≡ frame_len e m p
length-frame_of v e p none = simp (length-append, length-write_into, length-replicate) (omega arith)
length-frame_of v e p (some m) =
    simp (length-append, length-write_into, length-replicate) (omega arith)

decode-frame_of :
    (v : SchemaVersion) (e : EventType) (p : Payload) (m : Option Metadata)
    → IsEncodable v e m
    → frame_len e m p ≤ u32_max
    → decode_frame (frame_of v e p m)
      ≡ ok (record {
        schema_version = v;
        offsets = offsets_at 11 (length e.bytes) (bytes_len (metadata_bytes m)) (length p.bytes);
      })
unfolding decode_frame
decode-frame_of v e p m h fits =
    rw (read-write_header (header_of v e m) _ refl (h.schema.1, h.event_type, h.metadata), ◌>>=◌)
      (rw (length-frame_of v e p m)
        (decode_body-offsets 11 (header_of v e m) (length p.bytes) h.schema.0 fits))

metadata_slice :
    (v : SchemaVersion) (e : EventType) (p : Payload) (m : Option Metadata)
    → Option.map
        (slice (frame_of v e p m))
        (metadata_range_of (11 + length e.bytes) (bytes_len (metadata_bytes m)))
      ≡ metadata_bytes m
metadata_slice v e p none = refl
metadata_slice v e p (some m) = ap some (
    slice_third (write_into (header_of v e (some m))) e.bytes m.bytes _ (11 + length e.bytes) _
      (omega (arith, length-write_into (header_of v e (some m)))) refl)

payload_slice :
    (v : SchemaVersion) (e : EventType) (p : Payload) (m : Option Metadata)
    → slice (frame_of v e p m) (record {
      start = payload_at 11 (length e.bytes) (bytes_len (metadata_bytes m));
      end = frame_len e m p;
    })
      ≡ p.bytes
payload_slice v e p m =
    slice_last (write_into (header_of v e m)) e.bytes (or_empty (metadata_bytes m)) _ p.bytes
      (payload_at 11 (length e.bytes) (bytes_len (metadata_bytes m))) (frame_len e m p) (parts m)
      refl
  where
    parts :
        (m : Option Metadata)
        → length (write_into (header_of v e m))
            + length e.bytes
            + length (or_empty (metadata_bytes m))
            + length {A = ℕ} (
                replicate
                  (align_padding (body_end 11 (length e.bytes) (bytes_len (metadata_bytes m))) 16)
                  0)
          ≡ payload_at 11 (length e.bytes) (bytes_len (metadata_bytes m))
    parts none = simp (length-write_into, length-replicate) (omega arith)
    parts (some m) = simp (length-write_into, length-replicate) (omega arith)

-- What `encode_frame` accepts, `decode_frame` reads back: the schema version, the encoder's own
-- offsets, and, at these offsets of the value, the three fields; and every frame that fits `u32` is
-- accepted, with its payload at a multiple of 16.
pub decode-encode_frame :
    (v : SchemaVersion) (e : EventType) (p : Payload) (m : Option Metadata)
    → IsEncodable v e m
    → frame_len e m p ≤ u32_max
    → (f : EncodedFrame) × (encode_frame v e p m ≡ ok f)
      × (decode_frame f.value ≡ ok (record { schema_version = v; offsets = f.offsets }))
      × (slice f.value f.offsets.event_type ≡ e.bytes)
      × (Option.map (slice f.value) f.offsets.metadata ≡ metadata_bytes m)
      × (slice f.value f.offsets.payload ≡ p.bytes)
      × (f.offsets.payload.start % 16 ≡ 0)
      × (f.offsets.payload.end ≡ length f.value)
decode-encode_frame v e p m h fits = (
  record {
    value = frame_of v e p m;
    offsets = offsets_at 11 (length e.bytes) (bytes_len (metadata_bytes m)) (length p.bytes);
  },
  encode_frame_fits v e p m h fits,
  decode-frame_of v e p m h fits,
  slice_middle (write_into (header_of v e m)) e.bytes _ 11 _ (length-write_into _) refl,
  metadata_slice v e p m,
  payload_slice v e p m,
  (align_padding_lem (body_end 11 (length e.bytes) (bytes_len (metadata_bytes m)))).1,
  sym (length-frame_of v e p m),
)
