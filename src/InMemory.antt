-- ===== src/InMemory.antt =====
-- adapters/inmemory/src/lib.rs: the in-memory event store. The one mutex makes each operation a
-- function of the state; the calls of the wake registry are recorded in the order they are made.
pub mod Streams
pub mod Frame
pub mod Store
pub mod Stage
pub mod Index
pub mod Consistent
pub mod Append
pub mod Read
pub mod Atomic
pub mod All
pub mod Import
pub mod Repository
pub mod Saga
pub mod Snapshot
mod Examples
pub mod Subscription
pub mod Checkpoint
