-- ===== src/Lib.antt =====
-- mnesis is an event-sourcing library: an aggregate decides events, a store appends them to streams
-- under optimistic concurrency, and readers replay them. This library models its kernel, its
-- persistence core and its in-memory store.
--
-- Parts, and where the code of each is:
--   Base      machine integers (`checked_add`, `try_from`, little-endian bytes), Rust's `Result` and
--             `Option` with `?` as bind, lists measured by native numbers.
--   Kernel    crates/mnesis/src: version.rs (Version), events.rs (Events), aggregate.rs, error.rs and
--             the dispatch of saga.rs (Aggregate). A root is a record; each method of
--             `AggregateRoot` is a function from the root to the root after it and its reply.
--   Store     crates/store/src: value.rs (Value), wire.rs (Wire), envelope.rs (Envelope, with the read
--             path in Envelope/Persisted), stream_id.rs and `validate_append_versions` of store.rs
--             (Append), the two validations of an atomic append in import.rs (Import) and the planner of
--             a section (Import/Plan), the loop of subscription_cursor.rs over the seam of catchup.rs
--             (Subscription), the conditional write of checkpoint.rs (Checkpoint), projection.rs over the
--             checkpoint contract (Projection), and of state.rs the triggers (Trigger) and the bridge from
--             bytes to typed state (Codec, Projection/Codec; as a snapshot store, InMemory/Snapshot/Codec).
--   InMemory  adapters/inmemory/src/lib.rs: the stored frame (Frame), the map of streams (Streams), the
--             state and `append` (Store), `read_stream` with its pages (Read; `BatchSize` is from
--             crates/store/src/batch.rs), `read_all` (All), and `atomic_append_many` (Atomic). On it, the
--             import of crates/store/src/import.rs (Import), and the `EventStore` facade of
--             repository.rs with `execute` of execute.rs (Repository), the checkpoint store of
--             adapters/inmemory/src/checkpoint.rs (Checkpoint), the subscription target of one
--             stream (Subscription, from crates/store/src/catchup.rs), the saga repository of
--             crates/store/src/saga.rs (Saga), and the repository with snapshots of
--             crates/store/src/snapshot.rs with adapters/inmemory/src/snapshot.rs (Snapshot).
--   Fjall     adapters/fjall/src: the keys of wire_key.rs, with the limits of limits.rs (WireKey).
--   Wake      crates/wake/src/lib.rs: the registry of registrations and their generations.
-- The store checks a batch with the append contract, encodes each envelope with the wire format, and
-- gives it the next position of the `$all` order; the read path opens the frame with
-- `PersistedEnvelope::try_new`. The facade encodes what an aggregate decided with the application's
-- codec, appends it, folds it into the root, and loads a root by replaying its stream. A subscription
-- is a machine that makes one adapter call per step; `IsLog` (Store/Subscription/Log) is what it relies
-- on, and `stream_IsLog` (InMemory/Subscription/Log) fills it for the in-memory store.
-- In the same way a projection relies on the contract of its checkpoint store
-- (Store/Projection/Contract), which InMemory/Checkpoint/Contract fills; a saga and a repository with
-- snapshots call the facade's `save`, `load` and `replay_from`. `Session` (InMemory/Snapshot/Sessions)
-- is any sequence of loads and saves of the latter.
--
-- Conventions. A byte string is a list of numbers and a `u64` a native number with its bound written
-- out; `usize` has 64 bits. A panic is a value: the reply `panicked` of the root, the error
-- `expect_failed` of the frame builder, `none` of `events!`. `core::str::from_utf8` is the parameter
-- `from_utf8`. The one mutex of the in-memory store makes each operation a function of its state;
-- there the calls of the wake registry are recorded in order; the registry itself is Wake, where an
-- armed receiver of a `watch` channel is the generation that it has seen. A stored conflict carries the stream key
-- where the source carries a display label of it. Fuel bounds three consumers only: `collect`, the loop
-- over a version run, which needs one round more than the run has versions, and `drain` and `drain_all`,
-- which poll a read stream to its end and need one poll more than there are rows; `replay_from`,
-- `load`, `load_snapshotting` and `dispatch` pass their fuel to `drain`; `outputs` counts the steps of a subscription. A call of a projection
-- returns, panics, or is dropped at its pending write (`Ending`), and what a lawful checkpoint store
-- has stored in the last two cases is left open; its projector and its trigger may unwind, as `none`. The codec, the
-- metadata provider and the event names of the application are fields of `Facade`; `IsLawful` and
-- `IsCodec` are what the code relies on.
--
-- Not modelled: the asynchronous runtime, the adapters over fjall (but for its keys) and PostgreSQL,
-- the command host, the derive macros, subscriptions to all streams, the no_std wake registry, the
-- stream combinators of decoded.rs and step.rs, the CBOR backup format, and export: these are third-party
-- engines, glue over them, or are left for later.
pub mod Base
pub mod Kernel
pub mod Store
pub mod InMemory
pub mod Fjall
pub mod Wake
