-- ===== src/Store/Envelope/Transform.antt =====
-- What the decoder of a transformed event reads, by `for_transformed_decode` of
-- crates/store/src/envelope.rs.
use mnesis.Base.Words.{u32_max}
use mnesis.Store.Wire.RoundTrip.{frame_len}
use mnesis.Base.{
  ℕ, ◌≤◌, ◌≡◌, ◌∙◌, refl, sym, ap, inl, inr, List, Bool, Bool-cases, ◌&&◌, ◌==◌, true, arith,
}
use mnesis.Base.Bytes.{bytes_eq, bytes_eq→eq}
use mnesis.Base.Result.{Result, ok, err, map_err, >>=-eq-ok}
use mnesis.Store.Value.{
  EventType, Payload, SchemaVersion, FromUtf8, IsEventType, IsPayload, IsSchemaVersion,
  event_type_from_bytes, payload_from_bytes,
}
use mnesis.Store.Wire.{encode_frame, EncodedFrame}
use mnesis.Store.Envelope.{EnvelopeError, PendingEnvelope, IsPending}
use mnesis.Store.Envelope.Persisted.{
  PersistedEnvelope, ForDecodeError, event_type_value, payload_value, metadata_value, try_new,
  from_persisted, transformed_event_type, transformed_payload, reframed, rebuilt, is_unchanged,
  for_transformed_decode, wire, envelope,
}
use mnesis.Store.Envelope.Transit.{from_persisted-encode, encode_frame-ok_fits}

all_true : (a b c : Bool) → (a && b && c) ≡ true → (a ≡ true) × (b ≡ true) × (c ≡ true)
all_true a b c h = ground (arith, h)

same_get : (a b : ℕ) → (a == b) ≡ true → b ≡ a
same_get a b h = ground (arith, h)

ok_inj : {E A : Type 0} (a b : A) → ◌≡◌ {A = Result E A} (ok a) (ok b) → a ≡ b
ok_inj a b h = ground (arith, h)

map_err-ok : {E F A : Type 0} (f : E → F) (r : Result E A) (a : A) → map_err f r ≡ ok a → r ≡ ok a
map_err-ok f (ok b) a h = ground (arith, h)
map_err-ok f (err b) a h = absurd (ground (arith, h))

module _ (u : FromUtf8) (e : PersistedEnvelope) where
  transformed_event_type-IsEventType :
      (event_type : List ℕ) (event : EventType)
      → IsEventType u (event_type_value e)
      → transformed_event_type u e event_type ≡ ok event
      → (event.bytes ≡ event_type) × IsEventType u event
  unfolding event_type_from_bytes
  transformed_event_type-IsEventType event_type event valid h =
      ground (arith, h, valid, bytes_eq→eq event_type (event_type_value e).bytes)

  transformed_payload-IsPayload :
      (payload : List ℕ) (data_ : Payload)
      → IsPayload (payload_value e)
      → transformed_payload e payload ≡ ok data_
      → (data_.bytes ≡ payload) × IsPayload data_
  unfolding payload_from_bytes
  transformed_payload-IsPayload payload data_ valid h =
      ground (arith, h, valid, bytes_eq→eq payload (payload_value e).bytes)

  -- The event that the decoder is to read.
  abbrev pub transformed : List ℕ → SchemaVersion → List ℕ → PendingEnvelope
  transformed event_type schema payload = record {
    version = e.version;
    event_type = record { bytes = event_type };
    schema_version = schema;
    payload = record { bytes = payload };
    metadata = metadata_value e;
  }

  abbrev original : SchemaVersion → EventType → Payload → PendingEnvelope
  original schema event payload = record {
    version = e.version;
    event_type = event;
    schema_version = schema;
    payload = payload;
    metadata = metadata_value e;
  }

  abbrev opening : SchemaVersion → EncodedFrame → Result EnvelopeError PersistedEnvelope
  opening schema frame =
      try_new u e.version frame.value schema frame.offsets.event_type frame.offsets.payload
        frame.offsets.metadata

  abbrev opened_at : SchemaVersion → EncodedFrame → Result ForDecodeError PersistedEnvelope
  opened_at schema frame = map_err envelope (opening schema frame)

  unchanged-transformed :
      (event_type : List ℕ) (schema : SchemaVersion) (payload : List ℕ)
      → is_unchanged e event_type schema payload ≡ true
      → from_persisted e ≡ transformed event_type schema payload
  unfolding from_persisted
  unchanged-transformed event_type schema payload h =
      let (a, b, c) = all_true _ _ _ h in
      λ i. record {
        version = e.version;
        event_type = record { bytes = sym (bytes_eq→eq event_type (event_type_value e).bytes a) i };
        schema_version = record { get = same_get schema.get e.schema_version.get b i };
        payload = record { bytes = sym (bytes_eq→eq payload (payload_value e).bytes c) i };
        metadata = metadata_value e;
      }

  reframed-reads :
      (schema : SchemaVersion) (event : EventType) (payload : Payload) (e' : PersistedEnvelope)
      → IsPending u (original schema event payload)
      → reframed u e schema event payload ≡ ok e'
      → from_persisted e' ≡ original schema event payload
  reframed-reads schema event payload e' pending h =
      let p = original schema event payload in
      let (f, framed, opened) =
        >>=-eq-ok (map_err wire (encode_frame schema event payload (metadata_value e)))
          (opened_at schema) h in
      let encoded =
        map_err-ok wire (encode_frame schema event payload (metadata_value e)) f framed in
      let (f', e'', encoded', opened', back) =
        from_persisted-encode u p pending (encode_frame-ok_fits p f encoded) in
      let same : f' ≡ f = ok_inj f' f (sym encoded' ∙ encoded) in
      ap from_persisted (
        sym (
          ok_inj e'' e' (
            sym opened'
            ∙ ap (λ x. opening schema x) same
            ∙ map_err-ok envelope (opening schema f) e' opened)))
      ∙ back

  reads :
      (event_type : List ℕ) (schema : SchemaVersion) (payload : List ℕ) (e' : PersistedEnvelope)
      → IsPending u (from_persisted e)
      → IsSchemaVersion schema
      → rebuilt u e event_type schema payload ≡ ok e'
      → from_persisted e' ≡ transformed event_type schema payload
  unfolding from_persisted
  reads event_type schema payload e' pending in_range h =
      let (event, given, rest) = >>=-eq-ok (transformed_event_type u e event_type) _ h in
      let (bytes, given', built) = >>=-eq-ok (transformed_payload e payload) _ rest in
      let (t, valid) =
        transformed_event_type-IsEventType event_type event pending.event_type given in
      let (d, valid') = transformed_payload-IsPayload payload bytes pending.payload given' in
      reframed-reads schema event bytes e'
        (record {
          version = pending.version;
          event_type = valid;
          schema_version = in_range;
          payload = valid';
          metadata = pending.metadata;
        })
        built
      ∙ (λ i. transformed (t i) schema (d i))

  -- Whatever event the application makes of a well-formed persisted event, its decoder reads the
  -- transformed event type, schema version and payload, at the stream version and with the metadata
  -- of the original, whether the envelope is borrowed or built anew.
  pub for_transformed_decode-reads :
      (event_type : List ℕ) (schema : SchemaVersion) (payload : List ℕ) (e' : PersistedEnvelope)
      → IsPending u (from_persisted e)
      → IsSchemaVersion schema
      → for_transformed_decode u e event_type schema payload ≡ ok e'
      → from_persisted e' ≡ transformed event_type schema payload
  unfolding for_transformed_decode from_persisted
  for_transformed_decode-reads event_type schema payload e' ok_e ok_s h =
      elim (Bool-cases (is_unchanged e event_type schema payload)) [
        | inl same ↦
            ap from_persisted (sym (ok_inj e e' (sym (rw same refl) ∙ h)))
            ∙ unchanged-transformed event_type schema payload same
        | inr other ↦ reads event_type schema payload e' ok_e ok_s (sym (rw other refl) ∙ h)
      ]

  event_type-reads :
      (event_type : List ℕ)
      → IsEventType u (record { bytes = event_type })
      → transformed_event_type u e event_type ≡ ok (record { bytes = event_type })
  unfolding event_type_from_bytes
  event_type-reads event_type valid =
      elim (Bool-cases (bytes_eq event_type (event_type_value e).bytes)) [
        | inl same ↦ rw same (λ i.
            ok (record { bytes = sym (bytes_eq→eq event_type (event_type_value e).bytes same) i }))
        | inr other ↦ rw other (ground (arith, valid))
      ]

  payload-reads :
      (payload : List ℕ)
      → IsPayload (record { bytes = payload })
      → transformed_payload e payload ≡ ok (record { bytes = payload })
  unfolding payload_from_bytes
  payload-reads payload valid = elim (Bool-cases (bytes_eq payload (payload_value e).bytes)) [
    | inl same ↦
        rw same
          (λ i. ok (record { bytes = sym (bytes_eq→eq payload (payload_value e).bytes same) i }))
    | inr other ↦ rw other (ground (arith, valid))
  ]

  -- A transformed event that is well-formed with the stream version and the metadata of the
  -- persisted one, and whose frame fits `u32`, opens as an envelope, and the decoder reads in it
  -- exactly what it was transformed to, at that version and with that metadata, whether the
  -- envelope is borrowed or built anew.
  pub for_transformed_decode-answers :
      (event_type : List ℕ) (schema : SchemaVersion) (payload : List ℕ)
      → IsPending u (transformed event_type schema payload)
      → frame_len (record { bytes = event_type }) (metadata_value e) (record { bytes = payload })
        ≤ u32_max
      → (e' : PersistedEnvelope) × (for_transformed_decode u e event_type schema payload ≡ ok e')
        × (from_persisted e' ≡ transformed event_type schema payload)
  unfolding for_transformed_decode
  for_transformed_decode-answers event_type schema payload ok_t fits =
      elim (Bool-cases (is_unchanged e event_type schema payload)) [
        | inl same ↦ (e, rw same refl, unchanged-transformed event_type schema payload same)
        | inr other ↦
            let (f, e', encoded, opened, back) =
              from_persisted-encode u (transformed event_type schema payload) ok_t fits in
            (
              e',
              rw
                  (
                    other,
                    event_type-reads event_type ok_t.event_type,
                    payload-reads payload ok_t.payload,
                    encoded,
                    opened,
                  )
                  refl,
              back,
            )
      ]
