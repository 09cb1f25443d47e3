-- ===== src/Store.antt =====
-- The persistence crate, crates/store: values, envelopes, the wire format and the append contract.
pub mod Codec
pub mod Trigger
pub mod Value
pub mod Wire
pub mod Envelope
pub mod Append
pub mod Import
mod Examples
pub mod Subscription
pub mod Checkpoint
pub mod Projection
