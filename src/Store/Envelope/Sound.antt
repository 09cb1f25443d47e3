-- ===== src/Store/Envelope/Sound.antt =====
-- What `try_new` establishes for the accessors that skip validation, and the way of an envelope
-- through the wire format and back.
use mnesis.Base.{ℕ, ◌-◌, ◌≤◌, ◌≡◌, Option, none, some, List, arith, length}
use mnesis.Base.Words.{u16_max, u32_max}
use mnesis.Base.Result.{ok}
use mnesis.Kernel.Version.{Version}
use mnesis.Store.Value.{SchemaVersion, FromUtf8, IsEventType, IsPayload, max_metadata_len}
use mnesis.Store.Wire.Layout.{Range}
use mnesis.Store.Wire.Slices.{slice, length-slice}
use mnesis.Store.Envelope.{AllMetadata}
use mnesis.Store.Envelope.Persisted.{
  PersistedEnvelope, try_new, event_type_value, payload_value, metadata_value,
}
use mathlib.Core.Option
use mathlib.Core.Path.{subst}

abbrev pub envelope_of :
    Version → List ℕ → SchemaVersion → Range → Range → Option Range → PersistedEnvelope
envelope_of v bytes s et pl md = record {
  version = v;
  schema_version = s;
  value = bytes;
  event_type_range = et;
  payload_range = pl;
  metadata_range = md;
}

abbrev pub IsMetadataRange : Option Range → ℕ → Type 0
IsMetadataRange none n = Unit
IsMetadataRange (some r) n =
    (r.start ≤ r.end) × (r.end ≤ n) × (1 ≤ r.end - r.start) × (r.end - r.start ≤ max_metadata_len)

-- The checks that `try_new` makes, as facts about its arguments.
pub record IsChecked (from_utf8 : FromUtf8) (bytes : List ℕ) (et pl : Range) (md : Option Range)
    : Type 0 where
  pub event_type_order : et.start ≤ et.end
  pub event_type_end : et.end ≤ length bytes
  pub event_type_len : et.end - et.start ≤ u16_max
  pub event_type_utf8 : from_utf8 (slice bytes et) ≡ ok tt
  pub payload_order : pl.start ≤ pl.end
  pub payload_end : pl.end ≤ length bytes
  pub metadata : IsMetadataRange md (length bytes)

-- `try_new` accepts exactly what passes the checks, and keeps its arguments.
pub try_new_exact :
    (from_utf8 : FromUtf8) (v : Version) (bytes : List ℕ) (s : SchemaVersion) (et pl : Range)
    (md : Option Range)
    → ((e : PersistedEnvelope)
        → try_new from_utf8 v bytes s et pl md ≡ ok e
        → IsChecked from_utf8 bytes et pl md × (envelope_of v bytes s et pl md ≡ e))
      × (IsChecked from_utf8 bytes et pl md
          → try_new from_utf8 v bytes s et pl md ≡ ok (envelope_of v bytes s et pl md))
unfolding try_new
try_new_exact from_utf8 v bytes s et pl none = (λ e h. ground arith, λ c. ground arith)
try_new_exact from_utf8 v bytes s et pl (some m) = (λ e h. ground arith, λ c. ground arith)

checked_metadata :
    (bytes : List ℕ) (md : Option Range)
    → IsMetadataRange md (length bytes)
    → AllMetadata (Option.map (λ r. record { bytes = slice bytes r }) md)
checked_metadata bytes none c = tt
checked_metadata bytes (some r) c = omega (arith, length-slice bytes r c.0 c.1)

-- The unchecked accessors are sound: whatever `try_new` accepts, the event type that is read back
-- is valid UTF-8 within its cap, the payload is within its cap, and the metadata is neither empty
-- nor over its cap. (`pl.end ≤ u32_max` is the type of the payload's range.)
pub try_new_accessors :
    (from_utf8 : FromUtf8) (v : Version) (bytes : List ℕ) (s : SchemaVersion) (et pl : Range)
    (md : Option Range) (e : PersistedEnvelope)
    → pl.end ≤ u32_max
    → try_new from_utf8 v bytes s et pl md ≡ ok e
    → IsEventType from_utf8 (event_type_value e)
      × IsPayload (payload_value e)
      × AllMetadata (metadata_value e)
try_new_accessors from_utf8 v bytes s et pl md e top h =
    let (c, same) = (try_new_exact from_utf8 v bytes s et pl md).0 e h in
    subst
      (λ x.
        IsEventType from_utf8 (event_type_value x)
        × IsPayload (payload_value x)
        × AllMetadata (metadata_value x))
      same
      (
        (
          omega
              (arith, length-slice bytes et c.event_type_order c.event_type_end, c.event_type_len),
          c.event_type_utf8,
        ),
        omega (arith, length-slice bytes pl c.payload_order c.payload_end),
        checked_metadata bytes md c.metadata,
      )
