-- ===== src/InMemory/Repository.antt =====
-- crates/store/src/repository.rs and execute.rs: the `EventStore` facade, on the in-memory store. A
-- panic of application code, and that of an event name beyond the cap, is an outcome of its own.
pub mod Encode
pub mod Save
pub mod Load
pub mod Reload
pub mod Execute
use mnesis.Base.{ℕ, suc, Option, none, some, List, [], ◌∷◌}
use mnesis.Base.Result.{Result, ok, err, ◌>>=◌, ok_or, map_err}
use mnesis.Kernel.Version
use mnesis.Kernel.Version.{Version}
use mnesis.Kernel.Events
use mnesis.Kernel.Events.{Events}
use mnesis.Kernel.Aggregate.{
  Aggregate, AggregateRoot, KernelError, DecisionError, new_root, commit_version, commit_persisted,
  replay, handle,
}
use mnesis.Kernel.Aggregate
use mnesis.Store.Value.{
  EventType, Payload, Metadata, SchemaVersion, event_type_from_static_str, payload_from_bytes,
}
use mnesis.Store.Envelope.{
  EnvelopeError, PendingEnvelope, PendingBatch, WithPayload, set_schema_version, set_metadata,
  build,
}
use mnesis.Store.Envelope
use mnesis.Store.Envelope.Persisted.{PersistedEnvelope}
use mnesis.Store.Value.{FromUtf8}
use mnesis.Store.Append.{StreamKey}
use mnesis.InMemory.Frame.{InMemoryStoreError}
use mnesis.InMemory.Store.{Inner, AppendError, append}
use mnesis.InMemory.Read.{BatchSize, Item, read_stream, drain}

-- `StoreError`, without the variants that no code of these files makes.
pub data StoreError (EncodeFault DecodeFault : Type 0) : Type 0 where
  conflict : StreamKey → Option Version → Option Version → StoreError EncodeFault DecodeFault
  adapter : InMemoryStoreError → StoreError EncodeFault DecodeFault
  encode : EncodeFault → StoreError EncodeFault DecodeFault
  decode : DecodeFault → StoreError EncodeFault DecodeFault
  kernel : KernelError → StoreError EncodeFault DecodeFault
  version_overflow : StoreError EncodeFault DecodeFault
  envelope : EnvelopeError → StoreError EncodeFault DecodeFault

-- How a call ends: it returns, or it unwinds.
pub data Outcome (E A : Type 0) : Type 0 where
  returned : Result E A → Outcome E A
  panicked : Outcome E A

-- An early end of the encoding loop.
pub data Fault (E : Type 0) : Type 0 where
  fails : E → Fault E
  panics : Fault E

-- The codec, the metadata provider, and the names and ids of the application.
pub record Facade (𝓐 : Aggregate) : Type 1 where
  pub EncodeError : Type 0
  pub DecodeError : Type 0
  pub encode : 𝓐.Event → Result EncodeError (List ℕ)
  pub decode : PersistedEnvelope → Result DecodeError 𝓐.Event
  pub name : 𝓐.Event → List ℕ
  pub id_bytes : 𝓐.AggregateId → List ℕ
  pub metadata : Version → 𝓐.Event → Payload → Option Metadata

-- `first_persisted_version`
abbrev pub first_persisted_version : Option Version → Option Version
first_persisted_version none = some Version.initial
first_persisted_version (some v) = Version.next v

-- The schema version of an event, by the lookup function of `save_with`.
abbrev pub schema_or_initial : Option SchemaVersion → SchemaVersion
schema_or_initial none = record { get = 1 }
schema_or_initial (some v) = v

-- The builder of `encode_at`, with the metadata set when there is some.
abbrev pub with_metadata : Option Metadata → WithPayload → WithPayload
with_metadata none w = w
with_metadata (some m) w = set_metadata m.bytes w

module _ {𝓐 : Aggregate} (𝓕 : Facade 𝓐) where
  open 𝓐 use {Event}
  open 𝓕 use {EncodeError, DecodeError}

  abbrev pub SaveError : Type 0
  SaveError = StoreError EncodeError DecodeError

  abbrev pub key_of : AggregateRoot 𝓐 → StreamKey
  key_of root = record { bytes = 𝓕.id_bytes root.id }

  -- The closure `encode_at` of `save_events`.
  unfoldable pub encode_at :
      (List ℕ → Option SchemaVersion) → Event → Version → Result (Fault SaveError) PendingEnvelope
  encode_at current_version event version = do
    bytes ← map_err (λ e. fails (StoreError.encode e)) (𝓕.encode event)
    payload ←
        map_err (λ e. fails (StoreError.envelope (EnvelopeError.value e)))
          (payload_from_bytes bytes)
    let schema_version = schema_or_initial (current_version (𝓕.name event))
    let metadata = 𝓕.metadata version event payload
    event_type ← ok_or (event_type_from_static_str (𝓕.name event)) panics
    map_err (λ e. fails (StoreError.envelope e))
        (build (
          with_metadata metadata (
            set_schema_version schema_version (record {
              version = version;
              event_type = event_type;
              payload = payload.bytes;
              schema_version = record { get = 1 };
              metadata = none;
            }))))

  -- The loop over the tail of the batch.
  unfoldable pub encode_tail :
      (List ℕ → Option SchemaVersion)
      → Version
      → List Event
      → Result (Fault SaveError) (List PendingEnvelope)
  encode_tail current_version last [] = ok []
  encode_tail current_version last (event ∷ events) = do
    next ← ok_or (Version.next last) (fails StoreError.version_overflow)
    env ← encode_at current_version event next
    envs ← encode_tail current_version next events
    ok (env ∷ envs)

  abbrev pub kernel_error : KernelError → SaveError
  kernel_error KernelError.poisoned_aggregate = StoreError.kernel KernelError.poisoned_aggregate
  kernel_error KernelError.version_overflow = StoreError.version_overflow
  kernel_error (KernelError.version_mismatch a b) =
      StoreError.kernel (KernelError.version_mismatch a b)
  kernel_error (KernelError.rehydration_limit_exceeded n) =
      StoreError.kernel (KernelError.rehydration_limit_exceeded n)

  -- Everything of `save_events` before the append.
  unfoldable pub prepare :
      (List ℕ → Option SchemaVersion)
      → AggregateRoot 𝓐
      → Events Event
      → Result (Fault SaveError) PendingBatch
  prepare current_version root events = do
    ending ← map_err (λ e. fails (kernel_error e)) (commit_version root events)
    first ← ok_or (first_persisted_version root.version) (fails StoreError.version_overflow)
    head ← encode_at current_version events.first first
    tail ← encode_tail current_version first events.rest
    ok (record { first = head; rest = tail })

  abbrev pub append_error : AppendError → SaveError
  append_error (AppendError.conflict id expected actual) = StoreError.conflict id expected actual
  append_error (AppendError.store e) = StoreError.adapter e

  abbrev pub fault : Fault SaveError → Outcome SaveError ℕ
  fault (fails e) = returned (err e)
  fault panics = panicked

  -- The reply of `commit_persisted`, behind an append at `position`.
  abbrev pub saved : ℕ → Aggregate.Reply (Unit {0}) → Outcome SaveError ℕ
  saved position Aggregate.panicked = panicked
  saved position (Aggregate.returned (ok u)) = returned (ok position)
  saved position (Aggregate.returned (err e)) = returned (err (StoreError.kernel e))

  -- `save_events`, and so `Repository::save` (with no lookup) and `EventStore::save_with`.
  unfoldable pub save_events :
      (List ℕ → Option SchemaVersion)
      → AggregateRoot 𝓐
      → Events Event
      → Inner
      → Inner × (AggregateRoot 𝓐 × Outcome SaveError ℕ)
  save_events current_version root events inner = elim (prepare current_version root events) [
    | err f ↦ (inner, (root, fault f))
    | ok batch ↦
        let (inner', result) = append (key_of root) root.version batch inner in
        elim result [
          | err e ↦ (inner', (root, returned (err (append_error e))))
          | ok position ↦
              let (root', reply) = commit_persisted root events in
              (inner', (root', saved position reply))
        ]
  ]

  abbrev pub save :
      AggregateRoot 𝓐 → Events Event → Inner → Inner × (AggregateRoot 𝓐 × Outcome SaveError ℕ)
  save = save_events (λ name. none)

  -- The `try_fold` of `replay_from`, over the items that the stream yields.
  unfoldable pub replay_items : AggregateRoot 𝓐 → List Item → Outcome SaveError (AggregateRoot 𝓐)
  replay_items root [] = returned (ok root)
  replay_items root (err e ∷ items) = returned (err (StoreError.adapter e))
  replay_items root (ok env ∷ items) = elim (𝓕.decode env) [
    | err e ↦ returned (err (StoreError.decode e))
    | ok event ↦
        let (root', reply) = replay root env.version event in
        let rest = replay_items root' items in
        elim reply [
          | Aggregate.panicked ↦ panicked
          | Aggregate.returned r ↦ elim r [
            | err e ↦ returned (err (StoreError.kernel e))
            | ok u ↦ rest
          ]
        ]
  ]

  -- `replay_from`, in at most `fuel` polls of the stream.
  unfoldable pub replay_from :
      ℕ
      → FromUtf8
      → BatchSize
      → AggregateRoot 𝓐
      → Version
      → Inner
      → Outcome SaveError (AggregateRoot 𝓐)
  replay_from fuel u size root from inner =
      replay_items root (drain fuel u inner (read_stream size (key_of root) from))

  -- `Repository::load`
  abbrev pub load :
      ℕ → FromUtf8 → BatchSize → 𝓐.AggregateId → Inner → Outcome SaveError (AggregateRoot 𝓐)
  load fuel u size id inner = replay_from fuel u size (new_root id) Version.initial inner

  -- `Execution` and `ExecuteError` of execute.rs.
  pub data Execution : Type 0 where
    executed : ℕ → Events Event → Execution
    ignored : Execution

  pub data ExecuteError : Type 0 where
    kernel : KernelError → ExecuteError
    decide : 𝓐.Error → ExecuteError
    store : SaveError → ExecuteError

  abbrev pub refused : DecisionError 𝓐.Error → ExecuteError
  refused (DecisionError.kernel cause) = ExecuteError.kernel cause
  refused (DecisionError.domain cause) = ExecuteError.decide cause

  abbrev pub execution : Events Event → Outcome SaveError ℕ → Outcome ExecuteError Execution
  execution decided (returned (ok position)) = returned (ok (executed position decided))
  execution decided (returned (err e)) = returned (err (ExecuteError.store e))
  execution decided panicked = panicked

  -- `execute_inner`: decide, and save what was decided; a decision for nothing does not reach the
  -- store.
  unfoldable pub execute :
      {Command : Type 0}
      → (𝓐.State → Command → Result 𝓐.Error (Option (Events Event)))
      → AggregateRoot 𝓐
      → Command
      → Inner
      → Inner × (AggregateRoot 𝓐 × Outcome ExecuteError Execution)
  execute handler root command inner = elim (handle handler root command) [
    | err e ↦ (inner, (root, returned (err (refused e))))
    | ok decision ↦ elim decision [
      | none ↦ (inner, (root, returned (ok ignored)))
      | some decided ↦
          let (inner', (root', outcome)) = save root decided inner in
          (inner', (root', execution decided outcome))
    ]
  ]
