-- ===== src/InMemory/Repository/Encode.antt =====
-- The encoding half of `save_events`: the envelopes of a batch of events, and the laws that the
-- application's codec, names and metadata are held to.
use mnesis.Base.{
  ℕ, suc, ◌≤◌, ◌≡◌, refl, ap, Option, none, some, List, [], ◌∷◌, arith, length, inl, inr,
  Option-cases,
}
use mathlib.Core.Path.{subst}
use mnesis.Base.Words.{u64_max}
use mnesis.Base.Result.{ok, ok_or, map_err, >>=-eq-ok, Result-cases}
use mnesis.Kernel.Version
use mnesis.Kernel.Version.{Version}
use mnesis.Kernel.Events
use mnesis.Kernel.Events.{Events}
use mnesis.Kernel.Aggregate.{Aggregate, AggregateRoot, commit_version, version_or_zero}
use mnesis.Store.Value.{
  FromUtf8, SchemaVersion, Payload, Metadata, IsMetadata, IsSchemaVersion, payload_from_bytes,
  metadata_from_bytes, event_type_from_static_str,
}
use mnesis.Store.Envelope.{
  AllMetadata, PendingEnvelope, PendingBatch, IsPending, batch_iter, build, build_metadata,
}
use mnesis.InMemory.Stage.{AllPending}
use mnesis.InMemory.Repository.{
  Facade, first_persisted_version, schema_or_initial, encode_at, encode_tail, prepare,
}

abbrev pub SchemaLookup : Type 0
SchemaLookup = List ℕ → Option SchemaVersion

-- An envelope that carries `event` at `version`, as the codec writes it.
pub record IsEncoded (u : FromUtf8) {𝓐 : Aggregate} (𝓕 : Facade 𝓐) (version : ℕ) (event : 𝓐.Event)
    (env : PendingEnvelope) : Type 0 where
  pub pending : IsPending u env
  pub at_version : env.version.as_u64 ≡ version
  pub event_type : env.event_type.bytes ≡ 𝓕.name event
  pub payload : 𝓕.encode event ≡ ok env.payload.bytes

-- The envelopes carry the events, in order, at consecutive versions.
abbrev pub AllEncoded :
    FromUtf8 → {𝓐 : Aggregate} → Facade 𝓐 → ℕ → List 𝓐.Event → List PendingEnvelope → Type 0
AllEncoded u 𝓕 version [] [] = Unit
AllEncoded u 𝓕 version [] (env ∷ envs) = ⊥
AllEncoded u 𝓕 version (event ∷ events) [] = ⊥
AllEncoded u 𝓕 version (event ∷ events) (env ∷ envs) =
    IsEncoded u 𝓕 version event env × AllEncoded u 𝓕 (suc version) events envs

-- What the types of the source promise of the application's values: a name is a Rust string, the
-- schema versions and the metadata are values of their newtypes.
pub record IsLawful (u : FromUtf8) {𝓐 : Aggregate} (𝓕 : Facade 𝓐) (current : SchemaLookup)
    : Type 0 where
  pub names : (e : 𝓐.Event) → u (𝓕.name e) ≡ ok tt
  pub schemas : (name : List ℕ) (s : SchemaVersion) → current name ≡ some s → IsSchemaVersion s
  pub metadata :
      (v : Version) (e : 𝓐.Event) (p : Payload) (m : Metadata)
      → 𝓕.metadata v e p ≡ some m
      → IsMetadata m

module _ (u : FromUtf8) {𝓐 : Aggregate} (𝓕 : Facade 𝓐) (current : SchemaLookup)
    (laws : IsLawful u 𝓕 current) where
  open 𝓐 use {Event}

  schema-valid : (name : List ℕ) → IsSchemaVersion (schema_or_initial (current name))
  schema-valid name = elim (Option-cases (current name)) [
    | inl e ↦ rw e (omega arith, omega arith)
    | inr (s, e) ↦ rw e (laws.schemas name s e)
  ]

  -- What `encode_at` returns carries the event.
  encode_at-IsEncoded :
      (event : Event) (version : Version) (env : PendingEnvelope)
      → 1 ≤ version.as_u64
      → version.as_u64 ≤ u64_max
      → encode_at 𝓕 current event version ≡ ok env
      → IsEncoded u 𝓕 version.as_u64 event env
  unfolding encode_at build build_metadata payload_from_bytes metadata_from_bytes
      event_type_from_static_str
  encode_at-IsEncoded event version env low top h = elim (Result-cases (𝓕.encode event)) [
    | inr (e, coded) ↦ absurd (ground arith)
    | inl (bytes, coded) ↦
        let meta = 𝓕.metadata version event (record { bytes = bytes }) in
        elim (Option-cases meta) [
          | inl none_ ↦ record {
            pending = record {
              version = ground (arith, coded, none_);
              event_type = ground (arith, coded, none_, laws.names event);
              schema_version = ground (arith, coded, none_, schema-valid (𝓕.name event));
              payload = ground (arith, coded, none_);
              metadata =
                  let same : none ≡ env.metadata = ground (arith, coded, none_) in
                  subst AllMetadata same tt;
            };
            at_version = ground (arith, coded, none_);
            event_type = ground (arith, coded, none_);
            payload = ground (arith, coded, none_);
          }
          | inr (m, some_) ↦
              let valid = laws.metadata version event (record { bytes = bytes }) m some_ in
              let same : some m ≡ env.metadata = ground (arith, coded, some_, valid) in
              record {
                pending = record {
                  version = ground (arith, coded, some_, valid);
                  event_type = ground (arith, coded, some_, valid, laws.names event);
                  schema_version = ground (arith, coded, some_, valid, schema-valid (𝓕.name event));
                  payload = ground (arith, coded, some_, valid);
                  metadata = subst AllMetadata same valid;
                };
                at_version = ground (arith, coded, some_, valid);
                event_type = ground (arith, coded, some_, valid);
                payload = ground (arith, coded, some_, valid);
              }
        ]
  ]

  encode_tail_step :
      (last : Version) (event : Event) (events : List Event) (envs : List PendingEnvelope)
      → encode_tail 𝓕 current last (event ∷ events) ≡ ok envs
      → (next : Version) × (env : PendingEnvelope) × (rest : List PendingEnvelope) × (Version.next
            last
          ≡ some next)
        × (encode_at 𝓕 current event next ≡ ok env)
        × (encode_tail 𝓕 current next events ≡ ok rest)
        × (env ∷ rest ≡ envs)
  unfolding encode_tail
  encode_tail_step last event events envs h =
      let (next, n, h') = >>=-eq-ok (ok_or (Version.next last) _) _ h in
      let (env, e, h'') = >>=-eq-ok (encode_at 𝓕 current event next) _ h' in
      let (rest, t, h''') = >>=-eq-ok (encode_tail 𝓕 current next events) _ h'' in
      (next, env, rest, ground arith, e, t, ground arith)

  -- The tail of the batch carries its events at the versions behind `last`.
  encode_tail-AllEncoded :
      (events : List Event) (last : Version) (envs : List PendingEnvelope)
      → encode_tail 𝓕 current last events ≡ ok envs
      → AllEncoded u 𝓕 (suc last.as_u64) events envs
  encode_tail-AllEncoded [] last envs h =
      let same : [] ≡ envs = unfold encode_tail in ground arith in
      subst (AllEncoded u 𝓕 (suc last.as_u64) []) same tt
  encode_tail-AllEncoded (event ∷ events) last envs h =
      let (next, env, rest, n, e, t, same) = encode_tail_step last event events envs h in
      let at : suc last.as_u64 ≡ next.as_u64 = ground (arith, n) in
      let top : next.as_u64 ≤ u64_max = ground (arith, n) in
      subst (AllEncoded u 𝓕 (suc last.as_u64) (event ∷ events)) same (
        rw at (
          encode_at-IsEncoded event next env (omega (arith, at)) top e,
          encode_tail-AllEncoded events next rest t,
        ))

  -- A prepared batch carries its events behind the version of the root, which is usable and whose
  -- version stays in range.
  pub prepare-AllEncoded :
      (root : AggregateRoot 𝓐) (events : Events Event) (batch : PendingBatch)
      → prepare 𝓕 current root events ≡ ok batch
      → ((ending : Version) × (commit_version root events ≡ ok ending))
        × AllEncoded u 𝓕
            (suc (version_or_zero root.version))
            (Events.iter events)
            (batch_iter batch)
  unfolding prepare
  prepare-AllEncoded root events batch h =
      let (ending, c, h1) = >>=-eq-ok (map_err _ (commit_version root events)) _ h in
      let (first, f, h2) = >>=-eq-ok (ok_or (first_persisted_version root.version) _) _ h1 in
      let (head, e, h3) = >>=-eq-ok (encode_at 𝓕 current events.first first) _ h2 in
      let (tail, t, h4) = >>=-eq-ok (encode_tail 𝓕 current first events.rest) _ h3 in
      let at : suc (version_or_zero root.version) ≡ first.as_u64 = ground (arith, f) in
      let top : first.as_u64 ≤ u64_max = ground (arith, f) in
      let same : (record { first = head; rest = tail }) ≡ batch = ground arith in
      (
        (ending, ground (arith, c)),
        subst
            (λ b.
              AllEncoded u 𝓕 (suc (version_or_zero root.version)) (Events.iter events)
                (batch_iter b))
            same
            (rw at (
              encode_at-IsEncoded events.first first head (omega (arith, at)) top e,
              encode_tail-AllEncoded events.rest first tail t,
            )),
      )

pub AllEncoded-AllPending :
    (u : FromUtf8) {𝓐 : Aggregate} (𝓕 : Facade 𝓐) (n : ℕ) (events : List 𝓐.Event)
    (envs : List PendingEnvelope)
    → AllEncoded u 𝓕 n events envs
    → AllPending u envs
AllEncoded-AllPending u 𝓕 n [] [] h = tt
AllEncoded-AllPending u 𝓕 n [] (env ∷ envs) h = elim h [ ]
AllEncoded-AllPending u 𝓕 n (e ∷ es) [] h = elim h [ ]
AllEncoded-AllPending u 𝓕 n (e ∷ es) (env ∷ envs) h =
    (h.0.pending, AllEncoded-AllPending u 𝓕 (suc n) es envs h.1)

pub length-AllEncoded :
    (u : FromUtf8) {𝓐 : Aggregate} (𝓕 : Facade 𝓐) (n : ℕ) (events : List 𝓐.Event)
    (envs : List PendingEnvelope)
    → AllEncoded u 𝓕 n events envs
    → length events ≡ length envs
length-AllEncoded u 𝓕 n [] [] h = refl
length-AllEncoded u 𝓕 n [] (env ∷ envs) h = elim h [ ]
length-AllEncoded u 𝓕 n (e ∷ es) [] h = elim h [ ]
length-AllEncoded u 𝓕 n (e ∷ es) (env ∷ envs) h = ap suc (length-AllEncoded u 𝓕 (suc n) es envs h.1)
