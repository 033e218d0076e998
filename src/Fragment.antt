-- ===== src/Fragment.antt =====
-- Fragmentation: crates/bitfold-peer/src/fragment_buffer.rs and peer/fragmenter.rs.
pub mod Buffer
pub mod Plan
