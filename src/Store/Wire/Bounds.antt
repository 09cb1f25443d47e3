-- ===== src/Store/Wire/Bounds.antt =====
-- What an accepted value guarantees to its reader, what is refused, and frames of format 1.
use mnesis.Base.{
  ℕ, ◌+◌, ◌%◌, ◌≤◌, ◌<◌, ◌≡◌, ◌≢◌, ◌∙◌, refl, ap, Option, none, some, List, [], ◌∷◌, ◌++◌, arith,
  inl, inr, Option-cases, length, length-append, length-replicate, replicate,
}
use mnesis.Base.Words.{u32_max, to_le_bytes}
use mnesis.Base.Result.{Result, ok, err, ◌>>=◌, Result-cases, >>=-eq-ok}
use mnesis.Store.Value.{EventType, Payload, Metadata, SchemaVersion, schema_version_from_u32}
use mnesis.Store.Wire.Layout.{
  Range, WireError, expect_failed, compute, compute-ok_bound, compute-ne-panic, align_padding,
  align_padding_lem, payload_at, body_end, FrameLayout,
}
use mnesis.Store.Wire.Header.{FrameHeader, FrameFormatVersion, v1, v2, read_from, header_size}
use mnesis.Store.Wire.{
  DecodedFrame, encode_frame, decode_frame, decode_frame_body, metadata_bytes, bytes_len, or_empty,
}
use mnesis.Store.Wire.Body.{
  IsHeader, field_bytes, read-field_bytes, offsets_at, decode_body-offsets,
}
use mnesis.Store.Wire.RoundTrip.{IsEncodable, frame_len}

abbrev pub IsMetadataIn : Option Range → ℕ → ℕ → Type 0
IsMetadataIn none lo hi = lo ≤ hi
IsMetadataIn (some r) lo hi = (r.start ≡ lo) × (r.start ≤ r.end) × (r.end ≤ hi)

-- The ranges follow one another inside a value of `n` bytes, the payload is aligned and runs to the
-- end, and the schema version is not zero.
pub record IsWithin (d : DecodedFrame) (n : ℕ) : Type 0 where
  pub event_type_after_header : 11 ≤ d.offsets.event_type.start
  pub event_type : d.offsets.event_type.start ≤ d.offsets.event_type.end
  pub metadata : IsMetadataIn d.offsets.metadata d.offsets.event_type.end d.offsets.payload.start
  pub payload : d.offsets.payload.start ≤ d.offsets.payload.end
  pub whole : d.offsets.payload.end ≡ n
  pub aligned : d.offsets.payload.start % 16 ≡ 0
  pub offsets_fit : n ≤ u32_max
  pub schema : 1 ≤ d.schema_version.get

decode_body-IsWithin :
    (n : ℕ) (h : FrameHeader) (size : ℕ) (d : DecodedFrame)
    → 11 ≤ size
    → decode_frame_body n h size ≡ ok d
    → IsWithin d n
unfolding decode_frame_body schema_version_from_u32
decode_body-IsWithin n h size d hs e = elim (Option-cases h.metadata_len) [
  | inl p ↦ ground (arith, align_padding_lem (size + h.event_type_len))
  | inr (m, p) ↦ ground (arith, align_padding_lem (size + h.event_type_len + m))
]

-- Whatever bytes `decode_frame` accepts, its ranges lie in the value, in order and without overlap,
-- the payload starts at a multiple of 16 and runs to the end, and the schema version is not 0.
pub decode_frame-IsWithin :
    (value : List ℕ) (d : DecodedFrame) → decode_frame value ≡ ok d → IsWithin d (length value)
unfolding decode_frame
decode_frame-IsWithin value d e =
    let (h, p, q) = >>=-eq-ok (read_from value) _ e in
    decode_body-IsWithin (length value) h (header_size h.format_version) d
      (at_least h.format_version) q
  where
    at_least : (f : FrameFormatVersion) → 11 ≤ header_size f
    at_least v1 = omega arith
    at_least v2 = omega arith

-- A frame that would end beyond `u32::MAX` is refused with the overflow error, and no other.
pub encode_frame_overflows :
    (v : SchemaVersion) (e : EventType) (p : Payload) (m : Option Metadata)
    → u32_max < frame_len e m p
    → (w : WireError) × (encode_frame v e p m ≡ err w) × (w ≢ expect_failed)
unfolding encode_frame
encode_frame_overflows v e p m over = elim (Result-cases layout) [
  | inl (l, q) ↦ absurd (omega (arith, compute-ok_bound _ _ _ l q))
  | inr (w, q) ↦ (w, rw (q, ◌>>=◌), λ x. compute-ne-panic _ _ _ (q ∙ ap err x))
]
  where
    layout : Result WireError FrameLayout
    layout = compute (length e.bytes) (bytes_len (metadata_bytes m)) (length p.bytes)

abbrev pub header_v1 : SchemaVersion → EventType → Option Metadata → FrameHeader
header_v1 v e m = record {
  format_version = v1;
  schema_version = v.get;
  event_type_len = length e.bytes;
  metadata_len = bytes_len (metadata_bytes m);
}

-- A frame of format 1: the version byte, the 8 bytes of the sequence number that format 2 dropped,
-- the three fields, the body, and padding to a multiple of 16 behind the longer header.
abbrev pub v1_frame : List ℕ → SchemaVersion → EventType → Payload → Option Metadata → List ℕ
v1_frame global_seq v e p m =
    (1 ∷ [])
    ++ (global_seq
        ++ (field_bytes (header_v1 v e m)
            ++ (e.bytes
                ++ (or_empty (metadata_bytes m)
                    ++ (replicate
                          (align_padding
                            (body_end 19 (length e.bytes) (bytes_len (metadata_bytes m))) 16)
                          0
                        ++ p.bytes)))))

read-v1_header :
    (g0 g1 g2 g3 g4 g5 g6 g7 : ℕ) (h : FrameHeader) (rest : List ℕ)
    → h.format_version ≡ v1
    → IsHeader h
    → read_from
        ((1 ∷ []) ++ ((g0 ∷ g1 ∷ g2 ∷ g3 ∷ g4 ∷ g5 ∷ g6 ∷ g7 ∷ []) ++ (field_bytes h ++ rest)))
      ≡ ok h
unfolding read_from field_bytes to_le_bytes
read-v1_header g0 g1 g2 g3 g4 g5 g6 g7 h rest hv ih = ground (arith, read-field_bytes h ih)

length-v1_frame :
    (g0 g1 g2 g3 g4 g5 g6 g7 : ℕ) (v : SchemaVersion) (e : EventType) (p : Payload)
    (m : Option Metadata)
    → length (v1_frame (g0 ∷ g1 ∷ g2 ∷ g3 ∷ g4 ∷ g5 ∷ g6 ∷ g7 ∷ []) v e p m)
      ≡ payload_at 19 (length e.bytes) (bytes_len (metadata_bytes m)) + length p.bytes
unfolding field_bytes to_le_bytes
length-v1_frame g0 g1 g2 g3 g4 g5 g6 g7 v e p none =
    simp (length-append, length-replicate) (omega arith)
length-v1_frame g0 g1 g2 g3 g4 g5 g6 g7 v e p (some m) =
    simp (length-append, length-replicate) (omega arith)

-- `decode_frame` still reads every frame of format 1 that fits `u32`, whatever its sequence number,
-- with each offset behind the 19 bytes of its header.
pub decode_frame-v1 :
    (g0 g1 g2 g3 g4 g5 g6 g7 : ℕ) (v : SchemaVersion) (e : EventType) (p : Payload)
    (m : Option Metadata)
    → IsEncodable v e m
    → payload_at 19 (length e.bytes) (bytes_len (metadata_bytes m)) + length p.bytes ≤ u32_max
    → decode_frame (v1_frame (g0 ∷ g1 ∷ g2 ∷ g3 ∷ g4 ∷ g5 ∷ g6 ∷ g7 ∷ []) v e p m)
      ≡ ok (record {
        schema_version = v;
        offsets = offsets_at 19 (length e.bytes) (bytes_len (metadata_bytes m)) (length p.bytes);
      })
unfolding decode_frame
decode_frame-v1 g0 g1 g2 g3 g4 g5 g6 g7 v e p m h fits =
    rw
      (
        read-v1_header g0 g1 g2 g3 g4 g5 g6 g7 (header_v1 v e m) _ refl
            (h.schema.1, h.event_type, h.metadata),
        ◌>>=◌,
      )
      (rw (length-v1_frame g0 g1 g2 g3 g4 g5 g6 g7 v e p m)
        (decode_body-offsets 19 (header_v1 v e m) (length p.bytes) h.schema.0 fits))
