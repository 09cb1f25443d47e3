-- ===== src/Store/Wire/Layout.antt =====
-- crates/store/src/wire.rs: where each field of a frame lies. Pure arithmetic, on a 64-bit target.
use mnesis.Base.{ℕ, ◌+◌, ◌-◌, ◌%◌, ◌≤◌, ◌<◌, ◌≡◌, ◌≢◌, Option, none, some, arith}
use mnesis.Base.Words.{u32_max, usize_max, checked_add, try_from}
use mnesis.Base.Chain.{◌>>=◌ as and_then}
use mnesis.Base.Result.{Result, ok, err, ◌>>=◌, ok_or}

abbrev pub payload_align : ℕ
payload_align = 16

abbrev pub header_fixed_size : ℕ
header_fixed_size = 11

abbrev pub header_fixed_size_v1 : ℕ
header_fixed_size_v1 = 19

-- `align_padding`
unfoldable pub align_padding : ℕ → ℕ → ℕ
align_padding offset align = (align - offset % align) % align

-- A `Range<u32>`.
pub record Range : Type 0 where
  pub start : ℕ
  pub end : ℕ

-- `expect_failed` is no error of the source: it is the panic of an `expect` on a length that the
-- value newtypes keep small.
pub data WireError : Type 0 where
  frame_length_overflow : ℕ → ℕ → ℕ → WireError
  expect_failed : WireError

pub record FrameLayout : Type 0 where
  pub event_type : Range
  pub metadata : Option Range
  pub payload : Range
  pub padding : ℕ
  pub total : ℕ

abbrev pub len_or_zero : Option ℕ → ℕ
len_or_zero none = 0
len_or_zero (some n) = n

-- The metadata range of the layout, which starts where the event type ends.
unfoldable pub metadata_range : WireError → ℕ → Option ℕ → Result WireError (Option Range)
metadata_range overflow start none = ok none
metadata_range overflow start (some n) = do
  n_u32 ← ok_or (try_from u32_max n) overflow
  end_ ← ok_or (checked_add u32_max start n_u32) overflow
  ok (some (record { start = start; end = end_ }))

-- `FrameLayout::compute_from_validated_lengths`
unfoldable pub compute : ℕ → Option ℕ → ℕ → Result WireError FrameLayout
unfolding metadata_range
compute event_type_len metadata_len payload_len = do
  pre_payload_len ←
      ok_or
        (and_then (checked_add usize_max header_fixed_size event_type_len)
          (λ n. checked_add usize_max n (len_or_zero metadata_len)))
        (frame_length_overflow header_fixed_size 0 payload_len)
  let padding = align_padding pre_payload_len payload_align
  let overflow = frame_length_overflow pre_payload_len padding payload_len
  total ←
      ok_or
        (and_then (checked_add usize_max pre_payload_len padding)
          (λ n. checked_add usize_max n payload_len))
        overflow
  event_type_start ← ok_or (try_from u32_max header_fixed_size) overflow
  event_type_len_u32 ← ok_or (try_from u32_max event_type_len) overflow
  event_type_end ← ok_or (checked_add u32_max event_type_start event_type_len_u32) overflow
  metadata ← metadata_range overflow event_type_end metadata_len
  payload_start_usize ← ok_or (checked_add usize_max pre_payload_len padding) overflow
  payload_start ← ok_or (try_from u32_max payload_start_usize) overflow
  payload_len_u32 ← ok_or (try_from u32_max payload_len) overflow
  payload_end ← ok_or (checked_add u32_max payload_start payload_len_u32) overflow
  ok (record {
    event_type = record { start = event_type_start; end = event_type_end };
    metadata = metadata;
    payload = record { start = payload_start; end = payload_end };
    padding = padding;
    total = total;
  })

-- The padding is less than the alignment, and brings any offset to a multiple of it.
pub align_padding_lem :
    (offset : ℕ) → (align_padding offset 16 < 16) × ((offset + align_padding offset 16) % 16 ≡ 0)
unfolding align_padding
align_padding_lem offset = (omega arith, omega arith)

-- The layout in plain arithmetic, behind a header of `size` bytes.
abbrev pub body_end : ℕ → ℕ → Option ℕ → ℕ
body_end size event_type_len metadata_len = size + event_type_len + len_or_zero metadata_len

abbrev pub payload_at : ℕ → ℕ → Option ℕ → ℕ
payload_at size event_type_len metadata_len =
    body_end size event_type_len metadata_len
    + align_padding (body_end size event_type_len metadata_len) payload_align

abbrev pub metadata_range_of : ℕ → Option ℕ → Option Range
metadata_range_of start none = none
metadata_range_of start (some n) = some (record { start = start; end = start + n })

abbrev pub layout_of : ℕ → Option ℕ → ℕ → FrameLayout
layout_of event_type_len metadata_len payload_len = record {
  event_type = record { start = 11; end = 11 + event_type_len };
  metadata = metadata_range_of (11 + event_type_len) metadata_len;
  payload = record {
    start = payload_at 11 event_type_len metadata_len;
    end = payload_at 11 event_type_len metadata_len + payload_len;
  };
  padding = align_padding (body_end 11 event_type_len metadata_len) payload_align;
  total = payload_at 11 event_type_len metadata_len + payload_len;
}

-- A frame whose end fits `u32` has the plain layout.
pub compute_fits :
    (e : ℕ) (m : Option ℕ) (p : ℕ)
    → payload_at 11 e m + p ≤ u32_max
    → compute e m p ≡ ok (layout_of e m p)
unfolding compute
compute_fits e none p h = ground arith
compute_fits e (some n) p h = ground arith

-- No longer frame has a layout, and the refusal is the overflow error.
pub compute-ok_bound :
    (e : ℕ) (m : Option ℕ) (p : ℕ) (l : FrameLayout)
    → compute e m p ≡ ok l
    → payload_at 11 e m + p ≤ u32_max
unfolding compute
compute-ok_bound e none p l h = ground arith
compute-ok_bound e (some n) p l h = ground arith

pub compute-ne-panic : (e : ℕ) (m : Option ℕ) (p : ℕ) → compute e m p ≢ err expect_failed
unfolding compute
compute-ne-panic e none p h = ground arith
compute-ne-panic e (some n) p h = ground arith
