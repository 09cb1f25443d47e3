-- ===== src/Fjall.antt =====
-- The adapter over the fjall key-value engine, adapters/fjall: its keys.
pub mod WireKey
