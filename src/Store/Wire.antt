-- ===== src/Store/Wire.antt =====
-- crates/store/src/wire.rs: the frame builder and the decoder. `AVec` and `Bytes` are lists.
pub mod Layout
pub mod Header
pub mod Slices
pub mod Body
pub mod RoundTrip
pub mod Bounds
use mnesis.Base.{
  ℕ, ◌+◌, Option, none, some, List, [], ◌∷◌, ◌++◌, ltb, leb, if◌then◌else◌, length, replicate,
}
use mnesis.Base.Words.{u32_max, usize_max, checked_add, try_from}
use mnesis.Base.Result.{Result, ok, err, ◌>>=◌, ◌>>◌, ok_or, map_err}
use mnesis.Store.Value.{EventType, Payload, Metadata, SchemaVersion, schema_version_from_u32}
use mnesis.Store.Wire.Layout.{Range, WireError, FrameLayout, compute, align_padding, payload_align}
use mnesis.Store.Wire.Header.{
  FrameHeader, DecodeError, current, from_validated_lengths, write_into, read_from, header_size,
  event_type_truncated, metadata_truncated, offset_overflow, corrupt_schema_version,
}

pub record FrameOffsets : Type 0 where
  pub event_type : Range
  pub metadata : Option Range
  pub payload : Range

pub record EncodedFrame : Type 0 where
  pub value : List ℕ
  pub offsets : FrameOffsets

pub record DecodedFrame : Type 0 where
  pub schema_version : SchemaVersion
  pub offsets : FrameOffsets

pub record FramePlan : Type 0 where
  pub header : FrameHeader
  pub event_type_bytes : List ℕ
  pub metadata : Option (List ℕ)
  pub payload : List ℕ
  pub layout : FrameLayout

abbrev pub metadata_bytes : Option Metadata → Option (List ℕ)
metadata_bytes none = none
metadata_bytes (some m) = some m.bytes

abbrev pub bytes_len : Option (List ℕ) → Option ℕ
bytes_len none = none
bytes_len (some bytes) = some (length bytes)

-- `plan`
unfoldable pub plan :
    SchemaVersion → EventType → Payload → Option Metadata → Result WireError FramePlan
plan schema_version event_type payload metadata = do
  let metadata' = metadata_bytes metadata
  layout ← compute (length event_type.bytes) (bytes_len metadata') (length payload.bytes)
  header ←
      from_validated_lengths current schema_version.get (length event_type.bytes)
        (bytes_len metadata')
  ok (record {
    header = header;
    event_type_bytes = event_type.bytes;
    metadata = metadata';
    payload = payload.bytes;
    layout = layout;
  })

abbrev pub or_empty : Option (List ℕ) → List ℕ
or_empty none = []
or_empty (some bytes) = bytes

-- `execute`
unfoldable pub execute : FramePlan → EncodedFrame
execute p = record {
  value =
      write_into p.header
      ++ (p.event_type_bytes
          ++ (or_empty p.metadata ++ (replicate p.layout.padding 0 ++ p.payload)));
  offsets = record {
    event_type = p.layout.event_type;
    metadata = p.layout.metadata;
    payload = p.layout.payload;
  };
}

-- `encode_frame`
unfoldable pub encode_frame :
    SchemaVersion → EventType → Payload → Option Metadata → Result WireError EncodedFrame
unfolding plan execute
encode_frame schema_version event_type payload metadata = do
  p ← plan schema_version event_type payload metadata
  ok (execute p)

-- The metadata arm of `decode_frame_body`: the range, and the offset after the metadata.
unfoldable pub decode_metadata : ℕ → ℕ → Option ℕ → Result DecodeError (Option Range × ℕ)
decode_metadata value_len et_end none = ok (none, et_end)
decode_metadata value_len et_end (some meta_len) = do
  meta_len_usize ← ok_or (try_from usize_max meta_len) (offset_overflow value_len)
  meta_end ← ok_or (checked_add usize_max et_end meta_len_usize) (offset_overflow value_len)
  if ltb value_len meta_end then err (metadata_truncated meta_len value_len) else (do
    m_start_u32 ← ok_or (try_from u32_max et_end) (offset_overflow value_len)
    m_end_u32 ← ok_or (try_from u32_max meta_end) (offset_overflow value_len)
    ok (some (record { start = m_start_u32; end = m_end_u32 }), meta_end))

-- The four conversions at the end of `decode_frame_body`.
unfoldable pub decode_offsets :
    ℕ → SchemaVersion → ℕ → ℕ → Option Range → ℕ → Result DecodeError DecodedFrame
decode_offsets value_len schema_version et_start et_end metadata_range payload_start = do
  et_start_u32 ← ok_or (try_from u32_max et_start) (offset_overflow value_len)
  et_end_u32 ← ok_or (try_from u32_max et_end) (offset_overflow value_len)
  payload_start_u32 ← ok_or (try_from u32_max payload_start) (offset_overflow value_len)
  payload_end_u32 ← ok_or (try_from u32_max value_len) (offset_overflow value_len)
  ok (record {
    schema_version = schema_version;
    offsets = record {
      event_type = record { start = et_start_u32; end = et_end_u32 };
      metadata = metadata_range;
      payload = record { start = payload_start_u32; end = payload_end_u32 };
    };
  })

-- `decode_frame_body`, which reads of the value only its length.
unfoldable pub decode_frame_body : ℕ → FrameHeader → ℕ → Result DecodeError DecodedFrame
unfolding decode_metadata decode_offsets
decode_frame_body value_len header et_start = do
  schema_version ←
      map_err (λ _. corrupt_schema_version) (schema_version_from_u32 header.schema_version)
  et_end ← ok_or (checked_add usize_max et_start header.event_type_len) (offset_overflow value_len)
  if ltb value_len et_end then err (event_type_truncated header.event_type_len value_len) else (do
    (metadata_range, post_meta) ← decode_metadata value_len et_end header.metadata_len
    payload_start ←
        ok_or (checked_add usize_max post_meta (align_padding post_meta payload_align))
          (offset_overflow value_len)
    if ltb value_len payload_start
        then err (offset_overflow value_len)
        else decode_offsets value_len schema_version et_start et_end metadata_range payload_start)

-- `decode_frame`
unfoldable pub decode_frame : List ℕ → Result DecodeError DecodedFrame
decode_frame value = do
  header ← read_from value
  decode_frame_body (length value) header (header_size header.format_version)
