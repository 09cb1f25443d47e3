-- ===== src/Kernel.antt =====
-- The kernel crate, crates/mnesis: versions, event batches and the aggregate root.
pub mod Version
pub mod Events
pub mod Aggregate
mod Examples
