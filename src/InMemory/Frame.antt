-- ===== src/InMemory/Frame.antt =====
-- adapters/inmemory/src/lib.rs: a stored frame, from a pending envelope and to a persisted one.
use mnesis.Base.{ℕ, ◌≤◌, ◌≡◌, ◌∙◌, List, inl, inr, refl, ap, arith}
use mathlib.Core.Path.{subst}
use mnesis.Base.Result.{Result, ok, ◌>>=◌, ok_or, map_err, Result-cases}
use mnesis.Kernel.Version
use mnesis.Kernel.Version.{Version}
use mnesis.Store.Value.{SchemaVersion, FromUtf8}
use mnesis.Store.Wire.Layout.{WireError}
use mnesis.Store.Wire.{FrameOffsets, EncodedFrame, encode_frame}
use mnesis.Store.Envelope.{PendingEnvelope, EnvelopeError, IsPending}
use mnesis.Store.Envelope.Persisted.{PersistedEnvelope, try_new, from_persisted}
use mnesis.Store.Envelope.Transit.{from_persisted-encode, encode_frame-ok_fits}

pub data InMemoryStoreError : Type 0 where
  corrupt_version version_overflow global_seq_overflow : InMemoryStoreError
  wire : WireError → InMemoryStoreError
  envelope_corrupt : ℕ → EnvelopeError → InMemoryStoreError

pub record StoredFrame : Type 0 where
  pub version : ℕ
  pub value : List ℕ
  pub offsets : FrameOffsets
  pub schema_version : SchemaVersion

-- `encode_pending_to_frame`
unfoldable pub encode_pending_to_frame : PendingEnvelope → Result InMemoryStoreError StoredFrame
encode_pending_to_frame env = do
  frame ← map_err wire (encode_frame env.schema_version env.event_type env.payload env.metadata)
  ok (record {
    version = env.version.as_u64;
    value = frame.value;
    offsets = frame.offsets;
    schema_version = env.schema_version;
  })

-- `frame_to_envelope`
unfoldable pub frame_to_envelope :
    FromUtf8 → StoredFrame → Result InMemoryStoreError PersistedEnvelope
frame_to_envelope from_utf8 frame = do
  version ← ok_or (Version.new frame.version) corrupt_version
  map_err (envelope_corrupt frame.version) (
      try_new from_utf8 version frame.value frame.schema_version frame.offsets.event_type
        frame.offsets.payload frame.offsets.metadata)

-- A frame that the read path gives back as the pending envelope `env`.
pub record Holds (from_utf8 : FromUtf8) (frame : StoredFrame) (env : PendingEnvelope) : Type 0 where
  pub persisted : PersistedEnvelope
  pub readable : frame_to_envelope from_utf8 frame ≡ ok persisted
  pub same : from_persisted persisted ≡ env
  pub at_version : frame.version ≡ env.version.as_u64

abbrev stored : PendingEnvelope → EncodedFrame → StoredFrame
stored env f = record {
  version = env.version.as_u64;
  value = f.value;
  offsets = f.offsets;
  schema_version = env.schema_version;
}

encode_pending-ok :
    (env : PendingEnvelope) (frame : StoredFrame)
    → encode_pending_to_frame env ≡ ok frame
    → (f : EncodedFrame) × (encode_frame env.schema_version env.event_type env.payload env.metadata
        ≡ ok f)
      × (stored env f ≡ frame)
unfolding encode_pending_to_frame
encode_pending-ok env frame e =
    elim (Result-cases (encode_frame env.schema_version env.event_type env.payload env.metadata)) [
      | inl (f, q) ↦ (f, q, ground arith)
      | inr (x, q) ↦ absurd (ground arith)
    ]

stored-readable :
    (from_utf8 : FromUtf8) (env : PendingEnvelope) (f : EncodedFrame) (p : PersistedEnvelope)
    → 1 ≤ env.version.as_u64
    → try_new from_utf8 env.version f.value env.schema_version f.offsets.event_type
        f.offsets.payload f.offsets.metadata
      ≡ ok p
    → frame_to_envelope from_utf8 (stored env f) ≡ ok p
unfolding frame_to_envelope
stored-readable from_utf8 env f p pos t = ground arith

-- Whatever envelope is stored is read back: the frame of a well-formed pending envelope opens, at
-- the version of the envelope, as a persisted envelope with the same fields.
pub encode-Holds :
    (from_utf8 : FromUtf8) (env : PendingEnvelope) (frame : StoredFrame)
    → IsPending from_utf8 env
    → encode_pending_to_frame env ≡ ok frame
    → Holds from_utf8 frame env
encode-Holds from_utf8 env frame h e =
    let (f, enc, is_frame) = encode_pending-ok env frame e in
    let (f', p, enc', opened, same) =
      from_persisted-encode from_utf8 env h (encode_frame-ok_fits env f enc) in
    let frames : f' ≡ f = cc (enc, enc') in
    subst (λ x. Holds from_utf8 x env) (ap (stored env) frames ∙ is_frame)
      (record {
        persisted = p;
        readable = stored-readable from_utf8 env f' p h.version.0 opened;
        same = same;
        at_version = refl;
      })
