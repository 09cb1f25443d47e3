-- ===== src/Store/Envelope/Transit.antt =====
-- A pending envelope through the wire format and back into a pending envelope.
use mnesis.Base.{
  ℕ, ◌≤◌, ◌≡◌, ◌∙◌, refl, ap, Option, none, some, List, arith, length, Bool-cases, ltb, ltb→lt,
  ltb→ge, inl, inr,
}
use mnesis.Base.Words.{u32_max}
use mnesis.Base.Result.{ok}
use mnesis.Store.Value.{Metadata, FromUtf8}
use mnesis.Store.Wire.Layout.{Range}
use mnesis.Store.Wire.Slices.{slice, length-slice}
use mnesis.Store.Wire.{EncodedFrame, encode_frame, metadata_bytes, bytes_len}
use mnesis.Store.Wire.Body.{IsMetadataLen}
use mnesis.Store.Wire.RoundTrip.{IsEncodable, frame_len, decode-encode_frame}
use mnesis.Store.Wire.Bounds.{encode_frame_overflows, IsMetadataIn, decode_frame-IsWithin}
use mnesis.Store.Envelope.{PendingEnvelope, IsPending, AllMetadata}
use mnesis.Store.Envelope.Persisted.{PersistedEnvelope, try_new, from_persisted}
use mnesis.Store.Envelope.Sound.{envelope_of, IsMetadataRange, try_new_exact}
use mathlib.Core.Option
use mathlib.Core.Option.{some-injective}

metadata_encodable :
    (m : Option Metadata) → AllMetadata m → IsMetadataLen (bytes_len (metadata_bytes m))
metadata_encodable none h = tt
metadata_encodable (some m) h = omega arith

-- A pending envelope is encodable.
pub IsPending-IsEncodable :
    (from_utf8 : FromUtf8) (p : PendingEnvelope)
    → IsPending from_utf8 p
    → IsEncodable p.schema_version p.event_type p.metadata
IsPending-IsEncodable from_utf8 p h = record {
  schema = h.schema_version;
  event_type = h.event_type.0;
  metadata = metadata_encodable p.metadata h.metadata;
}

metadata_lifted :
    (value : List ℕ) (md : Option Range) (m : Option Metadata)
    → Option.map (slice value) md ≡ metadata_bytes m
    → Option.map (λ r. record { bytes = slice value r }) md ≡ m
metadata_lifted value none none h = refl
metadata_lifted value none (some m) h = cc
metadata_lifted value (some r) none h = cc
metadata_lifted value (some r) (some m) h = ground arith

metadata_in_range :
    (value : List ℕ) (md : Option Range) (m : Option Metadata) (lo hi : ℕ)
    → AllMetadata m
    → IsMetadataIn md lo hi
    → hi ≤ length value
    → Option.map (slice value) md ≡ metadata_bytes m
    → IsMetadataRange md (length value)
metadata_in_range value none m lo hi am w top h = tt
metadata_in_range value (some r) none lo hi am w top h = absurd (ground arith)
metadata_in_range value (some r) (some m) lo hi am w top h =
    let e : length (slice value r) ≡ length m.bytes = ap length (some-injective _ _ h) in
    omega (arith, length-slice value r w.1 (omega arith))

metadata_order : (md : Option Range) (lo hi : ℕ) → IsMetadataIn md lo hi → lo ≤ hi
metadata_order none lo hi h = h
metadata_order (some r) lo hi h = omega arith

-- A pending envelope whose frame fits `u32` is encoded; the frame opens as a persisted envelope at
-- the same version; and that envelope gives back the pending one, field by field.
pub from_persisted-encode :
    (from_utf8 : FromUtf8) (p : PendingEnvelope)
    → IsPending from_utf8 p
    → frame_len p.event_type p.metadata p.payload ≤ u32_max
    → (f : EncodedFrame) × (e : PersistedEnvelope) × (encode_frame p.schema_version p.event_type
          p.payload p.metadata
        ≡ ok f)
      × (try_new from_utf8 p.version f.value p.schema_version f.offsets.event_type f.offsets.payload
            f.offsets.metadata
          ≡ ok e)
      × (from_persisted e ≡ p)
unfolding from_persisted
from_persisted-encode from_utf8 p h fits =
    let (f, enc, dec, s_et, s_md, s_pl, aligned, whole) =
      decode-encode_frame p.schema_version p.event_type p.payload p.metadata
        (IsPending-IsEncodable from_utf8 p h) fits in
    let w = decode_frame-IsWithin f.value _ dec in
    let et_le = metadata_order _ _ _ w.metadata in
    let et_end : f.offsets.event_type.end ≤ length f.value =
      omega (arith, w.payload, w.whole, et_le) in
    (
      f,
      envelope_of p.version f.value p.schema_version f.offsets.event_type f.offsets.payload
          f.offsets.metadata,
      enc,
      (try_new_exact from_utf8 p.version f.value p.schema_version f.offsets.event_type
            f.offsets.payload f.offsets.metadata).1
          (record {
            event_type_order = w.event_type;
            event_type_end = et_end;
            event_type_len = omega (
              arith,
              length-slice f.value f.offsets.event_type w.event_type et_end,
              ap length s_et,
              h.event_type.0,
            );
            event_type_utf8 = ap from_utf8 s_et ∙ h.event_type.1;
            payload_order = w.payload;
            payload_end = omega (arith, w.whole);
            metadata =
                metadata_in_range f.value f.offsets.metadata p.metadata _ _ h.metadata w.metadata
                  (omega (arith, w.payload, w.whole)) s_md;
          }),
      λ i. record {
        version = p.version;
        event_type = record { bytes = s_et i };
        schema_version = p.schema_version;
        payload = record { bytes = s_pl i };
        metadata = metadata_lifted f.value f.offsets.metadata p.metadata s_md i;
      },
    )

-- `encode_frame` accepts no frame that does not fit.
pub encode_frame-ok_fits :
    (p : PendingEnvelope) (f : EncodedFrame)
    → encode_frame p.schema_version p.event_type p.payload p.metadata ≡ ok f
    → frame_len p.event_type p.metadata p.payload ≤ u32_max
encode_frame-ok_fits p f e =
    elim (Bool-cases (ltb u32_max (frame_len p.event_type p.metadata p.payload))) [
      | inl over ↦
          let (w, refused, _) =
            encode_frame_overflows p.schema_version p.event_type p.payload p.metadata
              (ltb→lt _ _ over) in
          cc (refused, e)
      | inr fits ↦ ltb→ge _ _ fits
    ]
