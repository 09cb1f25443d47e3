-- ===== src/Store/Wire/Header.antt =====
-- crates/store/src/wire.rs: the fixed header of a frame, written in format 2 and read in 1 and 2.
use mnesis.Base.{
  ℕ, ◌+◌, Option, none, some, List, [], ◌∷◌, ◌++◌, ltb, leb, ◌==◌, if◌then◌else◌, length, take,
  drop,
}
use mnesis.Base.Words.{u16_max, u32_max, try_from, to_le_bytes, from_le_bytes}
use mnesis.Base.Result.{Result, ok, err, ◌>>=◌, ok_or}
use mnesis.Store.Wire.Layout.{WireError, expect_failed, header_fixed_size, header_fixed_size_v1}

pub data FrameFormatVersion : Type 0 where
  v1 v2 : FrameFormatVersion

abbrev pub current : FrameFormatVersion
current = v2

abbrev pub to_u8 : FrameFormatVersion → ℕ
to_u8 v1 = 1
to_u8 v2 = 2

abbrev pub from_u8 : ℕ → Option FrameFormatVersion
from_u8 byte = if byte == 1 then some v1 else if byte == 2 then some v2 else none

-- `META_LEN_ABSENT`
abbrev pub meta_len_absent : ℕ
meta_len_absent = u32_max

pub record FrameHeader : Type 0 where
  pub format_version : FrameFormatVersion
  pub schema_version : ℕ
  pub event_type_len : ℕ
  pub metadata_len : Option ℕ

-- `DecodeError`, with the fields of each variant in the source's order.
pub data DecodeError : Type 0 where
  value_too_short : ℕ → ℕ → DecodeError
  unsupported_frame_version : ℕ → DecodeError
  event_type_truncated metadata_truncated : ℕ → ℕ → DecodeError
  offset_overflow : ℕ → DecodeError
  corrupt_schema_version : DecodeError

abbrev metadata_len_u32 : Option ℕ → Result WireError (Option ℕ)
metadata_len_u32 none = ok none
metadata_len_u32 (some n) = do v ← ok_or (try_from u32_max n) expect_failed; ok (some v)

-- `FrameHeader::from_validated_lengths`
unfoldable pub from_validated_lengths :
    FrameFormatVersion → ℕ → ℕ → Option ℕ → Result WireError FrameHeader
from_validated_lengths format_version schema_version event_type_len metadata_len = do
  event_type_len_u16 ← ok_or (try_from u16_max event_type_len) expect_failed
  metadata_len_u32' ← metadata_len_u32 metadata_len
  ok (record {
    format_version = format_version;
    schema_version = schema_version;
    event_type_len = event_type_len_u16;
    metadata_len = metadata_len_u32';
  })

abbrev pub meta_field : Option ℕ → ℕ
meta_field none = meta_len_absent
meta_field (some n) = n

-- `FrameHeader::write_into`: the bytes that it appends.
unfoldable pub write_into : FrameHeader → List ℕ
write_into h =
    (to_u8 h.format_version ∷ [])
    ++ (to_le_bytes 4 h.schema_version
        ++ (to_le_bytes 2 h.event_type_len ++ to_le_bytes 4 (meta_field h.metadata_len)))

-- Where the fixed fields of each version start, and the size of its header.
abbrev pub schema_offset : FrameFormatVersion → ℕ
schema_offset v1 = 9
schema_offset v2 = 1

abbrev pub header_size : FrameFormatVersion → ℕ
header_size v1 = header_fixed_size_v1
header_size v2 = header_fixed_size

-- `value.get(at..).and_then(<[u8]>::first_chunk::<10>)`
abbrev pub ten_bytes_at : ℕ → List ℕ → Option (List ℕ)
ten_bytes_at at value =
    if leb (at + 10) (length value) then some (take 10 (drop at value)) else none

abbrev pub read_metadata_len : ℕ → Option ℕ
read_metadata_len field = if field == meta_len_absent then none else some field

-- The three fields of the ten bytes.
abbrev pub read_fields : FrameFormatVersion → List ℕ → FrameHeader
read_fields format_version chunk = record {
  format_version = format_version;
  schema_version = from_le_bytes (take 4 chunk);
  event_type_len = from_le_bytes (take 2 (drop 4 chunk));
  metadata_len = read_metadata_len (from_le_bytes (take 4 (drop 6 chunk)));
}

-- `value[VERSION_OFFSET]`, behind the length test of `read_from`.
abbrev pub version_byte : List ℕ → ℕ
version_byte [] = 0
version_byte (b ∷ bs) = b

-- `FrameHeader::read_from`
unfoldable pub read_from : List ℕ → Result DecodeError FrameHeader
read_from value =
    if ltb (length value) header_fixed_size
    then err (value_too_short header_fixed_size (length value))
    else (do
      format_version ←
          ok_or (from_u8 (version_byte value)) (unsupported_frame_version (version_byte value))
      chunk ←
          ok_or (ten_bytes_at (schema_offset format_version) value)
            (value_too_short (header_size format_version) (length value))
      ok (read_fields format_version chunk))
