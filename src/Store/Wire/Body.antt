-- ===== src/Store/Wire/Body.antt =====
-- The fixed header read back, and the offsets that the body decoder recomputes.
use mnesis.Base.{
  inl, inr, Option-cases, ℕ, ◌+◌, ◌≤◌, ◌<◌, ◌≡◌, refl, Option, none, some, List, ◌++◌, arith,
  length,
}
use mnesis.Base.Words.{u16_max, u32_max, to_le_bytes, from-to_le_bytes_2, from-to_le_bytes_4}
use mnesis.Base.Result.{ok}
use mnesis.Store.Value.{schema_version_from_u32}
use mnesis.Store.Wire.Layout.{metadata_range_of, payload_at}
use mnesis.Store.Wire.Header.{FrameHeader, v2, write_into, read_from, meta_field, read_fields}
use mnesis.Store.Wire.{FrameOffsets, decode_frame_body}

-- The ranges of a header's fields.
abbrev pub IsMetadataLen : Option ℕ → Type 0
IsMetadataLen none = Unit
IsMetadataLen (some m) = m < u32_max

abbrev pub IsHeader : FrameHeader → Type 0
IsHeader h =
    (h.schema_version ≤ u32_max) × (h.event_type_len ≤ u16_max) × IsMetadataLen h.metadata_len

pub length-write_into : (h : FrameHeader) → length (write_into h) ≡ 11
unfolding write_into to_le_bytes
length-write_into h = refl

-- The ten bytes of the three fields, whatever the version that they stand in.
unfoldable pub field_bytes : FrameHeader → List ℕ
field_bytes h =
    to_le_bytes 4 h.schema_version
    ++ (to_le_bytes 2 h.event_type_len ++ to_le_bytes 4 (meta_field h.metadata_len))

pub read-field_bytes :
    (h : FrameHeader) → IsHeader h → read_fields h.format_version (field_bytes h) ≡ h
unfolding field_bytes to_le_bytes
read-field_bytes h (hs, he, hm) = ground (
  arith,
  from-to_le_bytes_4 h.schema_version,
  from-to_le_bytes_2 h.event_type_len,
  from-to_le_bytes_4 (meta_field h.metadata_len),
)

-- A format 2 header is read back from the front of any value.
pub read-write_header :
    (h : FrameHeader) (rest : List ℕ)
    → h.format_version ≡ v2
    → IsHeader h
    → read_from (write_into h ++ rest) ≡ ok h
unfolding read_from write_into field_bytes to_le_bytes
read-write_header h rest hv ih = ground (arith, read-field_bytes h ih)

-- The offsets of a frame with a header of `size` bytes, in plain arithmetic.
abbrev pub offsets_at : ℕ → ℕ → Option ℕ → ℕ → FrameOffsets
offsets_at size e m p = record {
  event_type = record { start = size; end = size + e };
  metadata = metadata_range_of (size + e) m;
  payload = record { start = payload_at size e m; end = payload_at size e m + p };
}

-- The body decoder recomputes them from the header and the length of the value.
pub decode_body-offsets :
    (size : ℕ) (h : FrameHeader) (p : ℕ)
    → 1 ≤ h.schema_version
    → payload_at size h.event_type_len h.metadata_len + p ≤ u32_max
    → decode_frame_body (payload_at size h.event_type_len h.metadata_len + p) h size
      ≡ ok (record {
        schema_version = record { get = h.schema_version };
        offsets = offsets_at size h.event_type_len h.metadata_len p;
      })
unfolding decode_frame_body schema_version_from_u32
decode_body-offsets size h p hs fits = elim (Option-cases h.metadata_len) [
  | inl e ↦ ground arith
  | inr (n, e) ↦ ground arith
]
